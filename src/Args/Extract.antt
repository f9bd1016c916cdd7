-- ===== src/Args/Extract.antt =====
-- Which values the integer extractor takes, and when a default stands in.
use azoth.Base.{
  ◌^◌, ◌-◌, ◌≡◌, ◌≢◌, ◌↔◌, ap, ◌∙◌, ◌⊎◌, inl, inr, Bool, false, ◌||◌, Option, none, some, arith,
  Option-cases, Bool-cases, if_true, if_false,
}
use azoth.Base.Int.{ℤ, pos, negsuc, ◌≤ℤ◌, ltb_ℤ}
use azoth.Base.Text.{Text, codes}
use azoth.Args.{
  finite, Value, float64, converted, extracted, required, unless_absent, optional, float_to_int,
  to_int, int_arg, opt_int_arg,
}
use azoth.Registry.TextMap.{Table, lookup}

-- A float argument is taken as an integer exactly when it has no fraction and lies from -2^63 to
-- 2^63, the upper end included.
pub int_arg_accepts :
    (convert : ℤ → ℤ) (args : Table Value) (key : Text) (n : ℤ) (fraction : Bool)
    → lookup key args ≡ some (float64 (finite n fraction))
    → (int_arg convert args key ≡ inr (convert n))
      ↔ ((fraction ≡ false) × (negsuc (2 ^ 63 - 1) ≤ℤ n) × (n ≤ℤ pos (2 ^ 63)))
unfolding required float_to_int
int_arg_accepts convert args key n fraction h =
    let whole : Option ℤ = float_to_int convert (finite n fraction) in
    let step : int_arg convert args key ≡ converted key (codes "integer") whole =
      ap (extracted (to_int convert) key (codes "integer")) h in
    let guard : Bool = fraction || ltb_ℤ (pos (2 ^ 63)) n || ltb_ℤ n (negsuc (2 ^ 63 - 1)) in
    elim (Bool-cases guard) [
      | inl e ↦
          let refused =
            step ∙ ap (converted key (codes "integer")) (if_true none (some (convert n)) e) in
          (λ q. absurd cc, λ r. absurd (ground arith))
      | inr e ↦ (
        λ q. ground arith,
        λ r. step ∙ ap (converted key (codes "integer")) (if_false none (some (convert n)) e),
      )
    ]

-- A default stands in only for an argument that is absent: one that is there is extracted as without
-- a default, its error included.
pub opt_int_arg_default :
    (convert : ℤ → ℤ) (args : Table Value) (key : Text) (d : ℤ)
    → ((lookup key args ≡ none) × (opt_int_arg convert args key d ≡ inr d))
      ⊎ ((lookup key args ≢ none) × (opt_int_arg convert args key d ≡ int_arg convert args key))
unfolding optional
opt_int_arg_default convert args key d = elim (Option-cases (lookup key args)) [
  | inl e ↦ inl (e, ap (λ o. unless_absent o d (int_arg convert args key)) e)
  | inr (v, e) ↦ inr (λ q. cc, ap (λ o. unless_absent o d (int_arg convert args key)) e)
]
