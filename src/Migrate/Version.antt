-- ===== src/Migrate/Version.antt =====
-- The order of the migrations and their versions.
use mathlib.Core.List.{Perm}
use mathlib.Core.List.Perm
use azoth.Base.{
  ℕ, ◌^◌, ◌≤◌, ◌<◌, ◌≡◌, refl, ap, ◌∙◌, inr, true, false, none, List, [], ◌∷◌, ◌++◌, arith, leb,
  if-elim, if_true, if_false, All,
}
use azoth.Base.Int.{pos, negsuc}
use azoth.Base.Text.{Text}
use azoth.Migrate.{
  Migration, is_digit, digit_run, atoi_from, migration_version, insert_version, sort_versions,
  find_duplicate,
}
use azoth.Migrate.Run.{Ascending}

abbrev pub IsSorted : List Migration → Type 0
IsSorted [] = Unit
IsSorted (m ∷ []) = Unit
IsSorted (m ∷ n ∷ ms) = (m.version ≤ n.version) × IsSorted (n ∷ ms)

insert_version-IsSorted :
    (m : Migration) (ms : List Migration) → IsSorted ms → IsSorted (insert_version m ms)
unfolding insert_version
insert_version-IsSorted m [] h = tt
insert_version-IsSorted m (x ∷ []) h = ground arith
insert_version-IsSorted m (x ∷ y ∷ ms) h = ground (arith, insert_version-IsSorted m (y ∷ ms) h.1)

pub sort_versions-IsSorted : (ms : List Migration) → IsSorted (sort_versions ms)
unfolding sort_versions
sort_versions-IsSorted [] = tt
sort_versions-IsSorted (m ∷ ms) =
    insert_version-IsSorted m (sort_versions ms) (sort_versions-IsSorted ms)

insert_version-All :
    (P : Migration → Type 0) (m : Migration) (ms : List Migration)
    → P m
    → All P ms
    → All P (insert_version m ms)
unfolding insert_version
insert_version-All P m [] p h = (p, tt)
insert_version-All P m (x ∷ ms) p h =
    if-elim (All P) (leb m.version x.version) (m ∷ x ∷ ms) (x ∷ insert_version m ms) (λ e. (p, h))
      (λ e. (h.0, insert_version-All P m ms p h.1))

pub sort_versions-All :
    (P : Migration → Type 0) (ms : List Migration) → All P ms → All P (sort_versions ms)
unfolding sort_versions
sort_versions-All P [] h = tt
sort_versions-All P (m ∷ ms) h =
    insert_version-All P m (sort_versions ms) h.0 (sort_versions-All P ms h.1)

insert_version-Perm : (m : Migration) (ms : List Migration) → Perm (insert_version m ms) (m ∷ ms)
unfolding insert_version
insert_version-Perm m [] = Perm.refl (m ∷ [])
insert_version-Perm m (x ∷ ms) =
    if-elim (λ (l : List Migration). Perm l (m ∷ x ∷ ms)) (leb m.version x.version) (m ∷ x ∷ ms)
      (x ∷ insert_version m ms) (λ e. Perm.refl (m ∷ x ∷ ms))
      (λ e. Perm.trans (Perm.cons x (insert_version-Perm m ms)) (Perm.swap m x ms))

pub sort_versions-Perm : (ms : List Migration) → Perm (sort_versions ms) ms
unfolding sort_versions
sort_versions-Perm [] = Perm.refl []
sort_versions-Perm (m ∷ ms) =
    Perm.trans (insert_version-Perm m (sort_versions ms)) (Perm.cons m (sort_versions-Perm ms))

find_duplicate-Ascending :
    (m : Migration) (ms : List Migration)
    → IsSorted (m ∷ ms)
    → find_duplicate (m ∷ ms) ≡ none
    → Ascending (pos m.version) ms
unfolding find_duplicate
find_duplicate-Ascending m [] s h = tt
find_duplicate-Ascending m (n ∷ ms) s h =
    (ground arith, find_duplicate-Ascending n ms s.1 (ground arith))

-- Without a duplicate the sorted migrations ascend strictly.
pub sort_versions-Ascending :
    (ms : List Migration) → IsSorted ms → find_duplicate ms ≡ none → Ascending (negsuc 0) ms
sort_versions-Ascending [] s h = tt
sort_versions-Ascending (m ∷ ms) s h = (ground arith, find_duplicate-Ascending m ms s h)

-- The value of a run of digits.
abbrev pub AllDigits : Text → Type 0
AllDigits cs = All (λ c. is_digit c ≡ true) cs

-- The first byte, if there is one, is no digit.
abbrev pub NoDigitFirst : Text → Type 0
NoDigitFirst [] = Unit
NoDigitFirst (c ∷ cs) = is_digit c ≡ false

digit_run-append : (ds rest : Text) → AllDigits ds → NoDigitFirst rest → digit_run (ds ++ rest) ≡ ds
unfolding digit_run
digit_run-append [] [] h n = refl
digit_run-append [] (c ∷ cs) h n = if_false _ _ n
digit_run-append (d ∷ ds) rest h n = if_true _ _ h.0 ∙ ap (◌∷◌ d) (digit_run-append ds rest h.1 n)

-- The version of a name is the number that its whole leading run of digits writes, where an `int`
-- holds it, whatever follows.
pub migration_version-digits :
    (d : ℕ) (ds rest : Text)
    → AllDigits (d ∷ ds)
    → NoDigitFirst rest
    → atoi_from 0 (d ∷ ds) < 2 ^ 63
    → migration_version ((d ∷ ds) ++ rest) ≡ inr (atoi_from 0 (d ∷ ds))
unfolding migration_version
migration_version-digits d ds rest h n b = rw (digit_run-append (d ∷ ds) rest h n) (ground arith)
