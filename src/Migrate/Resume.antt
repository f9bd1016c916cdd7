-- ===== src/Migrate/Resume.antt =====
-- A whole run of `Migrate`, and the next run behind it.
use mathlib.Core.List.{Perm, append-nil}
use azoth.Base.{
  ◌≡◌, refl, sym, ap, ◌∙◌, ◌⊎◌, inl, inr, true, Option, none, List, [], ◌∷◌, ◌++◌, arith,
  Bool-cases, if_true, if_false, All, not, subst,
}
use azoth.Base.Int.{ℤ, pos, negsuc, leb_ℤ}
use azoth.Base.Text.{Text}
use azoth.Migrate.{
  Entry, Migration, Migrated, collect, sort_versions, find_duplicate, run, from_version,
  without_duplicate, with_migrations, migrate,
}
use azoth.Migrate.Run.{
  Ascending, newer, last_version, newer_head, Fits, Faithful, SetsVersion, run-Faithful,
}
use azoth.Migrate.Version.{
  sort_versions-IsSorted, sort_versions-Perm, sort_versions-Ascending, sort_versions-All,
}

abbrev pub AtMost : ℤ → Migration → Type 0
AtMost v m = leb_ℤ (pos m.version) v ≡ true

-- The current version behind a migration that is passed over, and behind one that is applied.
newer_passed :
    (m : Migration) (ms : List Migration) (v : ℤ)
    → leb_ℤ (pos m.version) v ≡ true
    → newer v (m ∷ ms) ≡ newer v ms
newer_passed m ms v e = if_false _ _ (ap not e)

newer-Ascending : (u v : ℤ) (ms : List Migration) → Ascending u ms → Ascending v (newer v ms)
newer-Ascending u v [] a = tt
newer-Ascending u v (m ∷ ms) a = elim (Bool-cases (leb_ℤ (pos m.version) v)) [
  | inl e ↦
      subst (Ascending v) (sym (newer_passed m ms v e)) (newer-Ascending (pos m.version) v ms a.1)
  | inr e ↦
      subst (Ascending v) (sym (newer_head m ms v e a.1))
        (e, newer-Ascending (pos m.version) (pos m.version) ms a.1)
]

last_version_above :
    (u v : ℤ) (ms : List Migration)
    → leb_ℤ u v ≡ true
    → Ascending v ms
    → leb_ℤ u (last_version v ms) ≡ true
last_version_above u v [] h a = h
last_version_above u v (m ∷ ms) h a = last_version_above u (pos m.version) ms (ground arith) a.1

newer-AtMost :
    (u v : ℤ) (ms : List Migration) → Ascending u ms → All (AtMost (last_version v (newer v ms))) ms
newer-AtMost u v [] a = tt
newer-AtMost u v (m ∷ ms) a = elim (Bool-cases (leb_ℤ (pos m.version) v)) [
  | inl e ↦
      subst (λ l. All (AtMost (last_version v l)) (m ∷ ms)) (sym (newer_passed m ms v e))
        (
          last_version_above (pos m.version) v (newer v ms) e
              (newer-Ascending (pos m.version) v ms a.1),
          newer-AtMost (pos m.version) v ms a.1,
        )
  | inr e ↦
      subst (λ l. All (AtMost (last_version v l)) (m ∷ ms)) (sym (newer_head m ms v e a.1))
        (
          last_version_above (pos m.version) (pos m.version) (newer (pos m.version) ms)
              (ground arith) (newer-Ascending (pos m.version) (pos m.version) ms a.1),
          newer-AtMost (pos m.version) (pos m.version) ms a.1,
        )
]

module _ {E Db : Type 0} (user_version : Db → E ⊎ ℤ) (exec : Text → Db → E ⊎ Db)
    (begin commit : Db → Option E) (read_file : Text → E ⊎ Text) where
  run_idle :
      (ms : List Migration) (v : ℤ) (db : Db)
      → All (AtMost v) ms
      → run user_version exec begin commit read_file ms v db
        ≡ record { db = db; applied = []; error = none }
  unfolding run
  run_idle [] v db h = refl
  run_idle (m ∷ ms) v db h = if_true _ _ h.0 ∙ run_idle ms v db h.1

  migrate_as_run :
      (es : List Entry) (ms : List Migration) (v : ℤ) (db : Db)
      → collect es ≡ inr ms
      → find_duplicate (sort_versions ms) ≡ none
      → user_version db ≡ inr v
      → migrate user_version exec begin commit read_file (inr es) db
        ≡ run user_version exec begin commit read_file (sort_versions ms) v db
  unfolding migrate with_migrations
  migrate_as_run es ms v db c d u =
      ap (λ x. with_migrations user_version exec begin commit read_file x db) c
      ∙ ap (λ x. without_duplicate user_version exec begin commit read_file (sort_versions ms) x db)
          d
      ∙ ap (λ x. from_version user_version exec begin commit read_file (sort_versions ms) x db) u

  module _ (sets : SetsVersion user_version exec begin commit read_file) where
    -- For a directory whose migrations all have a version below 2^31, none of them twice, and a
    -- database whose version is readable and is set, to such a number, by the statement that sets it
    -- wherever that succeeds: the migrations are taken in ascending order of version, whatever the order of the directory,
    -- and on success and on error alike the database is what whole committed migrations lead to.
    -- These are a first part of the migrations newer than its version, all of them if there is no
    -- error, and its version is then that of the last one.
    pub migrate-Faithful :
        (es : List Entry) (ms : List Migration) (v : ℤ) (db : Db)
        → collect es ≡ inr ms
        → find_duplicate (sort_versions ms) ≡ none
        → All Fits ms
        → user_version db ≡ inr v
        → Perm (sort_versions ms) ms
          × Ascending (negsuc 0) (sort_versions ms)
          × Faithful user_version exec begin commit read_file
              (sort_versions ms)
              v
              db
              (migrate user_version exec begin commit read_file (inr es) db)
    migrate-Faithful es ms v db c d g u =
        let up = sort_versions-Ascending (sort_versions ms) (sort_versions-IsSorted ms) d in
        (
          sort_versions-Perm ms,
          up,
          subst (Faithful user_version exec begin commit read_file (sort_versions ms) v db)
              (sym (migrate_as_run es ms v db c d u))
              (run-Faithful user_version exec begin commit read_file sets (sort_versions ms)
                (negsuc 0) v db up (sort_versions-All Fits ms g)),
        )

    -- Under the same conditions, a run behind one without an error applies nothing and leaves the
    -- database as it is.
    pub migrate_idem :
        (es : List Entry) (ms : List Migration) (v : ℤ) (db : Db)
        → collect es ≡ inr ms
        → find_duplicate (sort_versions ms) ≡ none
        → All Fits ms
        → user_version db ≡ inr v
        → (migrate user_version exec begin commit read_file (inr es) db).error ≡ none
        → migrate user_version exec begin commit read_file
            (inr es)
            (migrate user_version exec begin commit read_file (inr es) db).db
          ≡ record {
            db = (migrate user_version exec begin commit read_file (inr es) db).db;
            applied = [];
            error = none;
          }
    migrate_idem es ms v db c d g u ok =
        let (p, up, f) = migrate-Faithful es ms v db c d g u in
        let r : Migrated E Db = migrate user_version exec begin commit read_file (inr es) db in
        let all : newer v (sort_versions ms) ≡ r.applied =
          f.in_order ∙ ap (λ l. r.applied ++ l) (f.complete ok) ∙ append-nil r.applied in
        migrate_as_run es ms (last_version v r.applied) r.db c d (f.cursor u)
        ∙ run_idle (sort_versions ms) (last_version v r.applied) r.db (
            subst (λ l. All (AtMost (last_version v l)) (sort_versions ms)) all
              (newer-AtMost (negsuc 0) v (sort_versions ms) up))
