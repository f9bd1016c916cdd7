-- ===== src/Migrate.antt =====
-- store/migrate.go: versioned schema migrations. The file system and the database are parameters; a
-- transaction that does not commit leaves the database as it was.
pub mod Version
pub mod Run
pub mod Resume
mod Tests
use azoth.Base.{
  ℕ, zero, suc, ◌+◌, ◌-◌, ◌*◌, ◌^◌, ◌≤◌, ◌≡◌, refl, ◌⊎◌, inl, inr, Bool, true, false, not, ◌&&◌,
  ◌||◌, Option, none, some, List, [], ◌∷◌, ◌++◌, arith, ◌==◌, ltb, leb, if◌then◌else◌, length, drop,
  take, is_empty,
}
use azoth.Base.Int.{ℤ, pos, negsuc, leb_ℤ}
use azoth.Base.Text.{Text, codes, text_eq, decimal}

-- An `fs.DirEntry`.
pub record Entry : Type 0 where
  pub is_dir : Bool
  pub name : Text

pub record Migration : Type 0 where
  pub version : ℕ
  pub name : Text

pub data VersionError : Type 0 where
  no_prefix : Text → VersionError
  -- `strconv.Atoi` on a number that no `int` holds
  out_of_range : Text → VersionError

abbrev pub is_digit : ℕ → Bool
is_digit c = leb b'0' c && leb c b'9'

-- `name[:i]` behind the loop.
unfoldable pub digit_run : Text → Text
digit_run [] = []
digit_run (c ∷ cs) = if is_digit c then c ∷ digit_run cs else []

-- The value of a run of digits, behind the value of those in front of it.
unfoldable pub atoi_from : ℕ → Text → ℕ
atoi_from n [] = n
atoi_from n (c ∷ cs) = atoi_from (10 * n + (c - b'0')) cs

unfoldable pub migration_version : Text → VersionError ⊎ ℕ
unfolding digit_run atoi_from
migration_version name =
    let run = digit_run name in
    if is_empty run
    then inl (no_prefix name)
    else if leb (atoi_from 0 run) (2 ^ 63 - 1)
    then inr (atoi_from 0 run)
    else inl (out_of_range run)

unfoldable pub has_sql_suffix : Text → Bool
unfolding text_eq
has_sql_suffix name =
    let ext = codes ".sql" in
    leb (length ext) (length name) && text_eq (drop (length name - length ext) name) ext

-- The first entry is a migration of the version, or a file that is none.
abbrev pub collected :
    Entry → VersionError ⊎ ℕ → VersionError ⊎ List Migration → VersionError ⊎ List Migration
collected e (inl err) rest = inl err
collected e (inr v) (inl err) = inl err
collected e (inr v) (inr ms) = inr (record { version = v; name = e.name } ∷ ms)

unfoldable pub collect : List Entry → VersionError ⊎ List Migration
unfolding migration_version has_sql_suffix
collect [] = inr []
collect (e ∷ es) =
    if e.is_dir || not (has_sql_suffix e.name)
    then collect es
    else collected e (migration_version e.name) (collect es)

unfoldable pub insert_version : Migration → List Migration → List Migration
insert_version m [] = m ∷ []
insert_version m (x ∷ xs) = if leb m.version x.version then m ∷ x ∷ xs else x ∷ insert_version m xs

unfoldable pub sort_versions : List Migration → List Migration
unfolding insert_version
sort_versions [] = []
sort_versions (m ∷ ms) = insert_version m (sort_versions ms)

-- The first two neighbours with one version.
unfoldable pub find_duplicate : List Migration → Option (Migration × Migration)
find_duplicate [] = none
find_duplicate (m ∷ []) = none
find_duplicate (m ∷ n ∷ ms) =
    if n.version == m.version then some (m, n) else find_duplicate (n ∷ ms)

pub data MigrateError (E : Type 0) : Type 0 where
  read_migrations : E → MigrateError E
  bad_version : VersionError → MigrateError E
  duplicate_version : Migration → Migration → MigrateError E
  read_user_version : E → MigrateError E
  read_migration : Text → E → MigrateError E
  apply_migration : Text → E → MigrateError E

-- What a run leaves: the database, the migrations that were committed, in order, and the error.
pub record Migrated (E Db : Type 0) : Type 0 where
  pub db : Db
  pub applied : List Migration
  pub error : Option (MigrateError E)

abbrev pub and_then : {E A B : Type 0} → E ⊎ A → (A → E ⊎ B) → E ⊎ B
and_then (inl e) f = inl e
and_then (inr a) f = f a

abbrev pub unless_failed : {E A : Type 0} → Option E → E ⊎ A → E ⊎ A
unless_failed (some e) r = inl e
unless_failed none r = r

module _ {E Db : Type 0}
    -- `PRAGMA user_version`, `Exec` in a transaction, and the errors of `Begin` and `Commit`
    (user_version : Db → E ⊎ ℤ) (exec : Text → Db → E ⊎ Db) (begin commit : Db → Option E)
    (read_file : Text → E ⊎ Text) where
  abbrev pub set_version : ℕ → Text
  set_version v = codes "PRAGMA user_version = " ++ decimal v

  unfoldable pub apply_one : Db → Text → ℕ → E ⊎ Db
  apply_one db body version = unless_failed (begin db) (
      and_then (exec body db) (λ tx.
        and_then (exec (set_version version) tx) (λ tx'. unless_failed (commit tx') (inr tx'))))

  abbrev pub applied_one : Migration → Db → E ⊎ Db → (Db → Migrated E Db) → Migrated E Db
  applied_one m db (inl e) rest = record {
    db = db;
    applied = [];
    error = some (apply_migration m.name e);
  }
  applied_one m db (inr db') rest = record (rest db') { applied = m ∷ (rest db').applied }

  abbrev pub with_body : Migration → Db → E ⊎ Text → (Db → Migrated E Db) → Migrated E Db
  with_body m db (inl e) rest = record {
    db = db;
    applied = [];
    error = some (read_migration m.name e);
  }
  with_body m db (inr body) rest = applied_one m db (apply_one db body m.version) rest

  -- The loop over the sorted migrations, from a current version on.
  unfoldable pub run : List Migration → ℤ → Db → Migrated E Db
  unfolding apply_one
  run [] current db = record { db = db; applied = []; error = none }
  run (m ∷ ms) current db =
      if leb_ℤ (pos m.version) current
      then run ms current db
      else with_body m db (read_file m.name) (λ db'. run ms (pos m.version) db')

  abbrev pub fail : Db → MigrateError E → Migrated E Db
  fail db e = record { db = db; applied = []; error = some e }

  abbrev pub from_version : List Migration → E ⊎ ℤ → Db → Migrated E Db
  from_version ms (inl e) db = fail db (read_user_version e)
  from_version ms (inr current) db = run ms current db

  abbrev pub without_duplicate :
      List Migration → Option (Migration × Migration) → Db → Migrated E Db
  without_duplicate ms (some (m, n)) db = fail db (duplicate_version m n)
  without_duplicate ms none db = from_version ms (user_version db) db

  abbrev pub with_migrations : VersionError ⊎ List Migration → Db → Migrated E Db
  unfolding sort_versions find_duplicate
  with_migrations (inl e) db = fail db (bad_version e)
  with_migrations (inr ms) db =
      without_duplicate (sort_versions ms) (find_duplicate (sort_versions ms)) db

  -- `Migrate`; the first argument is what `fs.ReadDir` answers.
  unfoldable pub migrate : E ⊎ List Entry → Db → Migrated E Db
  unfolding collect run
  migrate (inl e) db = fail db (read_migrations e)
  migrate (inr es) db = with_migrations (collect es) db
