-- ===== src/Migrate/Tests.antt =====
-- A directory, a database, and the theorems at them.
use mathlib.Core.List.{Perm}
use azoth.Base.{
  ℕ, zero, suc, ◌+◌, ◌/◌, ◌%◌, ◌<◌, ◌≡◌, refl, ap, ◌∙◌, ◌⊎◌, inr, false, Option, none, List, [],
  ◌∷◌, ◌++◌, arith, if◌then◌else◌, length, drop, if_true,
}
use azoth.Base.Int.{ℤ, pos, negsuc}
use azoth.Base.Text.{Text, codes, decimal, has_prefix, has_prefix-append, digits_of}
use azoth.Migrate.{
  Entry, Migration, VersionError, Migrated, atoi_from, migration_version, collect, sort_versions,
  find_duplicate, set_version, migrate,
}
use azoth.Migrate.Resume.{migrate-Faithful}
use azoth.Migrate.Run.{Ascending, Faithful, SetsVersion}

atoi_from-digits_of :
    (f n : ℕ) (out : Text) → n < f → atoi_from 0 (digits_of f n out) ≡ atoi_from n out
unfolding atoi_from digits_of
atoi_from-digits_of zero n out h = absurd (omega arith)
atoi_from-digits_of (suc f) n out h =
    ground (arith, atoi_from-digits_of f (n / 10) ((b'0' + n % 10) ∷ out))

atoi_from-decimal : (n : ℕ) → atoi_from 0 (decimal n) ≡ n
unfolding decimal atoi_from
atoi_from-decimal n = atoi_from-digits_of (suc n) n [] (omega arith)

drop-append : (p xs : Text) → drop (length p) (p ++ xs) ≡ xs
drop-append [] xs = refl
drop-append (x ∷ p) xs = drop-append p xs

-- A database that logs the statements and reads the version off the one that sets it.
record Db : Type 0 where
  version : ℤ
  log : List Text

abbrev pragma : Text
pragma = codes "PRAGMA user_version = "

unfoldable exec : Text → Db → Text ⊎ Db
exec s d =
    if has_prefix s pragma
    then inr (record d { version = pos (atoi_from 0 (drop (length pragma) s)) })
    else inr (record d { log = d.log ++ s ∷ [] })

abbrev user_version : Db → Text ⊎ ℤ
user_version d = inr d.version

abbrev no_error : Db → Option Text
no_error d = none

abbrev read_file : Text → Text ⊎ Text
read_file name = inr (codes "CREATE " ++ name)

sets : SetsVersion user_version exec no_error no_error read_file
unfolding exec
sets n d d' g h =
    let ran : exec (pragma ++ decimal n) d ≡ inr (record d { version = pos n }) =
      if_true _ _ (has_prefix-append pragma (decimal n))
      ∙ ap (λ m. inr (record d { version = pos m }))
          (ap (atoi_from 0) (drop-append pragma (decimal n)) ∙ atoi_from-decimal n) in
    cc

abbrev dir : List Entry
dir =
    record { is_dir = false; name = codes "0010_c.sql" }
    ∷ record { is_dir = false; name = codes "0001_a.sql" }
    ∷ record { is_dir = false; name = codes "README.md" }
    ∷ record { is_dir = false; name = codes "0002_b.sql" }
    ∷ []

abbrev migs : List Migration
migs =
    record { version = 10; name = codes "0010_c.sql" }
    ∷ record { version = 1; name = codes "0001_a.sql" }
    ∷ record { version = 2; name = codes "0002_b.sql" }
    ∷ []

-- A database at version 1.
abbrev old : Db
old = record { version = pos 1; log = [] }

collect-dir : collect dir ≡ inr migs
unfolding collect
collect-dir = refl

no_duplicate : find_duplicate (sort_versions migs) ≡ none
unfolding sort_versions find_duplicate
no_duplicate = refl

migrate-dir :
    (migrate user_version exec no_error no_error read_file (inr dir) old).db.version ≡ pos 10
unfolding migrate exec decimal azoth.Migrate.with_migrations has_prefix
migrate-dir = refl

no_failure : (migrate user_version exec no_error no_error read_file (inr dir) old).error ≡ none
unfolding migrate exec decimal azoth.Migrate.with_migrations has_prefix
no_failure = refl

migrate-Faithful_example :
    Perm (sort_versions migs) migs
    × Ascending (negsuc 0) (sort_versions migs)
    × Faithful user_version exec no_error no_error read_file
        (sort_versions migs)
        (pos 1)
        old
        (migrate user_version exec no_error no_error read_file (inr dir) old)
migrate-Faithful_example =
    migrate-Faithful user_version exec no_error no_error read_file sets dir migs (pos 1) old
      collect-dir no_duplicate (omega arith, (omega arith, (omega arith, tt))) refl
