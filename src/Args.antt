-- ===== src/Args.antt =====
-- tools/args.go: the extraction of a tool's arguments. Of a float the source asks whether it is
-- finite, its whole part and whether there is a fraction; the conversions of the language that
-- lose precision, or whose result it leaves open, are parameters.
pub mod Extract
mod Tests
use azoth.Base.{
  ℕ, ◌^◌, ◌-◌, ◌==◌, ◌||◌, Bool, true, false, not, Option, none, some, List, [], ◌∷◌, ◌++◌, ◌⊎◌,
  inl, inr, if◌then◌else◌, is_empty,
}
use azoth.Base.Int.{ℤ, pos, negsuc, ltb_ℤ}
use azoth.Base.Text.{Text, codes}
use azoth.Registry.TextMap.{Table, lookup}

pub data Float : Type 0 where
  nan : Float
  -- the infinities, by sign
  infinity : Bool → Float
  -- the whole part, towards zero, and whether there is a fraction behind it
  finite : ℤ → Bool → Float

-- The values of `any` that the extractors tell apart.
pub data Value : Type 0 where
  string : Text → Value
  boolean : Bool → Value
  float64 : Float → Value
  float32 : Float → Value
  int : ℤ → Value
  int64 : ℤ → Value
  other_value : Value

pub record ArgError : Type 0 where
  pub key : Text
  pub want : Text
  pub missing : Bool

abbrev pub article : Text → Text
article [] = codes "a"
article (c ∷ cs) =
    if c == b'a' || c == b'e' || c == b'i' || c == b'o' || c == b'u' then codes "an" else codes "a"

-- `ArgError.Error`; `quote` is `%q`.
unfoldable pub arg_error_text : (Text → Text) → ArgError → Text
arg_error_text quote e =
    if e.missing
    then codes "missing required argument " ++ quote e.key
    else codes "argument "
      ++ (quote e.key ++ (codes " must be " ++ (article e.want ++ (codes " " ++ e.want))))

module _ {A : Type 0} where
  abbrev pub converted : Text → Text → Option A → ArgError ⊎ A
  converted key want (some a) = inr a
  converted key want none = inl (record { key = key; want = want; missing = false })

  abbrev pub extracted : (Value → Option A) → Text → Text → Option Value → ArgError ⊎ A
  extracted conv key want none = inl (record { key = key; want = want; missing = true })
  extracted conv key want (some v) = converted key want (conv v)

  -- What `StrArg`, `FloatArg`, `IntArg` and `BoolArg` share.
  unfoldable pub required : (Value → Option A) → Text → Table Value → Text → ArgError ⊎ A
  required conv want args key = extracted conv key want (lookup key args)

  abbrev pub unless_absent : Option Value → A → ArgError ⊎ A → ArgError ⊎ A
  unless_absent none d r = inr d
  unless_absent (some v) d r = r

  -- What the optional ones add.
  unfoldable pub optional : Table Value → Text → A → ArgError ⊎ A → ArgError ⊎ A
  optional args key d r = unless_absent (lookup key args) d r

abbrev pub to_string : Value → Option Text
to_string (string t) = some t
to_string _ = none

abbrev pub to_bool : Value → Option Bool
to_bool (boolean b) = some b
to_bool _ = none

-- `float64(n)` of an integer.
abbrev pub to_float : (ℤ → Float) → Value → Option Float
to_float of_int (float64 x) = some x
to_float of_int (float32 x) = some x
to_float of_int (int n) = some (of_int n)
to_float of_int (int64 n) = some (of_int n)
to_float of_int _ = none

-- `int(n)` of a float with no fraction is `convert` of its value. As a float, `math.MaxInt64` is 2^63.
unfoldable pub float_to_int : (ℤ → ℤ) → Float → Option ℤ
float_to_int convert nan = none
float_to_int convert (infinity negative) = none
float_to_int convert (finite n fraction) =
    if fraction || ltb_ℤ (pos (2 ^ 63)) n || ltb_ℤ n (negsuc (2 ^ 63 - 1))
    then none
    else some (convert n)

abbrev pub to_int : (ℤ → ℤ) → Value → Option ℤ
to_int convert (int n) = some n
to_int convert (int64 n) = some n
to_int convert (float64 x) = float_to_int convert x
to_int convert (float32 x) = float_to_int convert x
to_int convert _ = none

abbrev pub str_arg : Table Value → Text → ArgError ⊎ Text
str_arg args key = required to_string (codes "string") args key

abbrev pub opt_str_arg : Table Value → Text → Text → ArgError ⊎ Text
opt_str_arg args key d = optional args key d (str_arg args key)

abbrev pub float_arg : (ℤ → Float) → Table Value → Text → ArgError ⊎ Float
float_arg of_int args key = required (to_float of_int) (codes "number") args key

abbrev pub opt_float_arg : (ℤ → Float) → Table Value → Text → Float → ArgError ⊎ Float
opt_float_arg of_int args key d = optional args key d (float_arg of_int args key)

abbrev pub int_arg : (ℤ → ℤ) → Table Value → Text → ArgError ⊎ ℤ
int_arg convert args key = required (to_int convert) (codes "integer") args key

abbrev pub opt_int_arg : (ℤ → ℤ) → Table Value → Text → ℤ → ArgError ⊎ ℤ
opt_int_arg convert args key d = optional args key d (int_arg convert args key)

abbrev pub bool_arg : Table Value → Text → ArgError ⊎ Bool
bool_arg args key = required to_bool (codes "boolean") args key

abbrev pub opt_bool_arg : Table Value → Text → Bool → ArgError ⊎ Bool
opt_bool_arg args key d = optional args key d (bool_arg args key)
