-- ===== src/Args/Tests.antt =====
-- Arguments as a model sends them, and the theorems at them.
use azoth.Base.{◌^◌, ◌-◌, ◌≡◌, ◌↔◌, inr, refl, false, some, [], ◌∷◌}
use azoth.Base.Int.{ℤ, pos, negsuc, ◌≤ℤ◌}
use azoth.Base.Text.{codes, text_eq}
use azoth.Args.{Value, float64, finite, string, int_arg}
use azoth.Args.Extract.{int_arg_accepts}
use azoth.Registry.TextMap.{Table, lookup}

abbrev args : Table Value
args = (codes "path", string (codes "a.go")) ∷ (codes "limit", float64 (finite (pos 42) false)) ∷ []

-- A conversion that leaves the value as it is.
abbrev convert : ℤ → ℤ
convert n = n

limit_there : lookup (codes "limit") args ≡ some (float64 (finite (pos 42) false))
unfolding lookup text_eq
limit_there = refl

int_arg_accepts_example :
    (int_arg convert args (codes "limit") ≡ inr (pos 42))
    ↔ ((false ≡ false) × (negsuc (2 ^ 63 - 1) ≤ℤ pos 42) × (pos 42 ≤ℤ pos (2 ^ 63)))
int_arg_accepts_example = int_arg_accepts convert args (codes "limit") (pos 42) false limit_there
