-- ===== src/Base/Utf8.antt =====
-- `for _, r := range s`: the runes of a Go string. A byte that starts no valid encoding is U+FFFD.
use azoth.Base.Logic.{ltb, leb, ◌==◌, if◌then◌else◌}
use azoth.Base.Lists.{length, take, drop, is_empty}
use azoth.Base.Text.{Text, text_eq}
use Prim.Native.Nat.{ℕ, zero, suc, ◌+◌, ◌*◌, ◌-◌}
use mathlib.Core.Bool.{Bool, ◌&&◌, ◌||◌}
use mathlib.Core.List.{List, [], ◌∷◌, ◌++◌}

abbrev pub in_range : ℕ → ℕ → ℕ → Bool
in_range lo hi c = leb lo c && leb c hi

abbrev pub rune_error : ℕ
rune_error = 65533

-- The range of the second byte behind a given first one.
abbrev pub second_in : ℕ → ℕ → Bool
second_in a b =
    if a == 224
    then in_range 160 191 b
    else if a == 237
    then in_range 128 159 b
    else if a == 240
    then in_range 144 191 b
    else if a == 244
    then in_range 128 143 b
    else in_range 128 191 b

abbrev pub rune2 : ℕ → Text → ℕ × ℕ
rune2 a [] = (rune_error, 1)
rune2 a (b ∷ s) = if second_in a b then ((a - 192) * 64 + (b - 128), 2) else (rune_error, 1)

abbrev pub rune3 : ℕ → Text → ℕ × ℕ
rune3 a [] = (rune_error, 1)
rune3 a (b ∷ []) = (rune_error, 1)
rune3 a (b ∷ c ∷ s) =
    if second_in a b && in_range 128 191 c
    then ((a - 224) * 4096 + (b - 128) * 64 + (c - 128), 3)
    else (rune_error, 1)

abbrev pub rune4 : ℕ → Text → ℕ × ℕ
rune4 a [] = (rune_error, 1)
rune4 a (b ∷ []) = (rune_error, 1)
rune4 a (b ∷ c ∷ []) = (rune_error, 1)
rune4 a (b ∷ c ∷ d ∷ s) =
    if second_in a b && in_range 128 191 c && in_range 128 191 d
    then ((a - 240) * 262144 + (b - 128) * 4096 + (c - 128) * 64 + (d - 128), 4)
    else (rune_error, 1)

-- The rune at a byte and the bytes behind it, and the number of bytes that it takes.
abbrev pub decode_rune : ℕ → Text → ℕ × ℕ
decode_rune a s =
    if ltb a 128
    then (a, 1)
    else if in_range 194 223 a
    then rune2 a s
    else if in_range 224 239 a
    then rune3 a s
    else if in_range 240 244 a
    then rune4 a s
    else (rune_error, 1)

-- The fuel is the number of bytes.
unfoldable pub runes_from : ℕ → Text → List ℕ
runes_from fuel [] = []
runes_from zero (a ∷ s) = []
runes_from (suc fuel) (a ∷ s) =
    let (r, size) = decode_rune a s in r ∷ runes_from fuel (drop (size - 1) s)

unfoldable pub runes : Text → List ℕ
unfolding runes_from
runes s = runes_from (length s) s

-- `unicode.IsSpace`
abbrev pub is_space : ℕ → Bool
is_space r =
    in_range 9 13 r
    || r == 32
    || r == 133
    || r == 160
    || r == 5760
    || in_range 8192 8202 r
    || in_range 8232 8233 r
    || r == 8239
    || r == 8287
    || r == 12288

-- The runes of a string, each with its bytes; the fuel is the number of bytes.
unfoldable pub encoded_runes : ℕ → Text → List (ℕ × Text)
encoded_runes fuel [] = []
encoded_runes zero (a ∷ s) = []
encoded_runes (suc fuel) (a ∷ s) =
    let (r, size) = decode_rune a s in
    (r, a ∷ take (size - 1) s) ∷ encoded_runes fuel (drop (size - 1) s)

abbrev pub trim_left : List (ℕ × Text) → List (ℕ × Text)
trim_left [] = []
trim_left ((r, t) ∷ rs) = if is_space r then trim_left rs else (r, t) ∷ rs

abbrev pub trim_right : List (ℕ × Text) → List (ℕ × Text)
trim_right [] = []
trim_right ((r, t) ∷ rs) =
    let rest = trim_right rs in if is_space r && is_empty rest then [] else (r, t) ∷ rest

abbrev pub encoded_bytes : List (ℕ × Text) → Text
encoded_bytes [] = []
encoded_bytes ((r, t) ∷ rs) = t ++ encoded_bytes rs

-- `strings.TrimSpace`
unfoldable pub trim_space : Text → Text
unfolding encoded_runes
trim_space s = encoded_bytes (trim_right (trim_left (encoded_runes (length s) s)))

-- Whether `strings.ToLower` makes a text the given ASCII one. Beyond ASCII only U+0130 and U+212A have
-- a lower case within it.
abbrev pub lower_rune : ℕ → ℕ
lower_rune r =
    if in_range 65 90 r then r + 32 else if r == 304 then 105 else if r == 8490 then 107 else r

abbrev pub lower_all : List ℕ → List ℕ
lower_all [] = []
lower_all (r ∷ rs) = lower_rune r ∷ lower_all rs

unfoldable pub lower_is : Text → Text → Bool
unfolding runes text_eq
lower_is s ascii = text_eq (lower_all (runes s)) ascii
