-- ===== src/Migrate/Run.antt =====
-- Which migrations a run applies, in which order, and what it leaves in the database.
use azoth.Base.{
  ℕ, All, ◌<◌, ◌≡◌, refl, sym, ap, ◌∙◌, ◌⊎◌, inl, inr, true, false, Option, none, some, List, [],
  ◌∷◌, ◌++◌, arith, if_true, if_false, keep_if, not, if-elim,
}
use azoth.Base.Int.{ℤ, pos, leb_ℤ}
use azoth.Base.Text.{Text}
use azoth.Migrate.{
  Migration, Migrated, unless_failed, and_then, set_version, apply_one, applied_one, with_body, run,
}

-- The version fits the 31 bits that a database keeps of it.
abbrev pub Fits : Migration → Type 0
Fits m = m.version < 2147483648

-- The migrations ascend strictly, from a version above the given one on.
abbrev pub Ascending : ℤ → List Migration → Type 0
Ascending v [] = Unit
Ascending v (m ∷ ms) = (leb_ℤ (pos m.version) v ≡ false) × Ascending (pos m.version) ms

-- The last version of a run of migrations that began at the given one.
abbrev pub last_version : ℤ → List Migration → ℤ
last_version v [] = v
last_version v (m ∷ ms) = last_version (pos m.version) ms

abbrev pub newer : ℤ → List Migration → List Migration
newer v ms = keep_if (λ (m : Migration). not (leb_ℤ (pos m.version) v)) ms

Ascending-newer :
    (u v : ℤ) (ms : List Migration) → leb_ℤ v u ≡ true → Ascending u ms → newer v ms ≡ ms
Ascending-newer u v [] h a = refl
Ascending-newer u v (m ∷ ms) h a =
    let later : leb_ℤ (pos m.version) v ≡ false = ground arith in
    let above : leb_ℤ v (pos m.version) ≡ true = ground arith in
    if_true _ _ (ap not later) ∙ ap (◌∷◌ m) (Ascending-newer (pos m.version) v ms above a.1)

pub newer_head :
    (m : Migration) (ms : List Migration) (v : ℤ)
    → leb_ℤ (pos m.version) v ≡ false
    → Ascending (pos m.version) ms
    → newer v (m ∷ ms) ≡ m ∷ newer (pos m.version) ms
newer_head m ms v e a =
    let above : leb_ℤ v (pos m.version) ≡ true = ground arith in
    let same : leb_ℤ (pos m.version) (pos m.version) ≡ true = ground arith in
    if_true _ _ (ap not e)
    ∙ ap (◌∷◌ m) (
        Ascending-newer (pos m.version) v ms above a
        ∙ sym (Ascending-newer (pos m.version) (pos m.version) ms same a))

module _ {E Db : Type 0} (user_version : Db → E ⊎ ℤ) (exec : Text → Db → E ⊎ Db)
    (begin commit : Db → Option E) (read_file : Text → E ⊎ Text) where
  -- The database that whole committed migrations lead to, and only they.
  pub data Upgrades : Db → List Migration → Db → Type 0 where
    done : (db : Db) → Upgrades db [] db
    upgrade :
        {db db' end : Db} {ms : List Migration} (m : Migration) (body : Text)
        → read_file m.name ≡ inr body
        → apply_one user_version exec begin commit read_file db body m.version ≡ inr db'
        → Upgrades db' ms end
        → Upgrades db (m ∷ ms) end

  -- What a run over an ascending list from a current version promises.
  pub record Faithful (ms : List Migration) (v : ℤ) (db : Db) (r : Migrated E Db) : Type 0 where
    pub committed : Upgrades db r.applied r.db
    pub left : List Migration
    pub in_order : newer v ms ≡ r.applied ++ left
    pub complete : r.error ≡ none → left ≡ []
    pub cursor : user_version db ≡ inr v → user_version r.db ≡ inr (last_version v r.applied)

  -- The statement that sets the version does so where it succeeds, for a number of 31 bits, which is
  -- what the header of a database holds.
  abbrev pub SetsVersion : Type 0
  SetsVersion =
      (n : ℕ) (d d' : Db)
      → n < 2147483648
      → exec (set_version user_version exec begin commit read_file n) d ≡ inr d'
      → user_version d' ≡ inr (pos n)

  committed-inv : (o : Option E) (d d' : Db) → unless_failed {E = E} o (inr d) ≡ inr d' → d ≡ d'
  committed-inv (some e) d d' h = absurd cc
  committed-inv none d d' h = cc

  bumped-inv :
      (r : E ⊎ Db) (d' : Db)
      → and_then r (λ tx'. unless_failed (commit tx') (inr tx')) ≡ inr d'
      → r ≡ inr d'
  bumped-inv (inl e) d' h = absurd cc
  bumped-inv (inr d) d' h = ap inr (committed-inv (commit d) d d' h)

  body-inv :
      (o : Option E) (r : E ⊎ Db) (n : ℕ) (d' : Db)
      → unless_failed o (
          and_then r (λ tx.
            and_then
              (exec (set_version user_version exec begin commit read_file n) tx)
              (λ tx'. unless_failed (commit tx') (inr tx'))))
        ≡ inr d'
      → (d : Db) × (exec (set_version user_version exec begin commit read_file n) d ≡ inr d')
  body-inv (some e) r n d' h = absurd cc
  body-inv none (inl e) n d' h = absurd cc
  body-inv none (inr d) n d' h = (d, bumped-inv _ d' h)

  apply_one_cursor :
      (db db' : Db) (body : Text) (n : ℕ)
      → SetsVersion
      → n < 2147483648
      → apply_one user_version exec begin commit read_file db body n ≡ inr db'
      → user_version db' ≡ inr (pos n)
  unfolding apply_one
  apply_one_cursor db db' body n p g h =
      let (d, e) = body-inv (begin db) (exec body db) n db' h in p n d db' g e

  module _ (sets : SetsVersion) where
    applied_one-Faithful :
        (m : Migration) (ms : List Migration) (v : ℤ) (db : Db) (body : Text) (r : E ⊎ Db)
        (rest : Db → Migrated E Db)
        → Fits m
        → newer v (m ∷ ms) ≡ m ∷ newer (pos m.version) ms
        → read_file m.name ≡ inr body
        → apply_one user_version exec begin commit read_file db body m.version ≡ r
        → ((d : Db) → Faithful ms (pos m.version) d (rest d))
        → Faithful (m ∷ ms) v db (applied_one user_version exec begin commit read_file m db r rest)
    applied_one-Faithful m ms v db body (inl e) rest g n f a h = record {
      committed = done db;
      left = newer v (m ∷ ms);
      in_order = refl;
      complete = λ q. absurd cc;
      cursor = λ q. q;
    }
    applied_one-Faithful m ms v db body (inr d) rest g n f a h = record {
      committed = upgrade m body f a (h d).committed;
      left = (h d).left;
      in_order = n ∙ ap (◌∷◌ m) (h d).in_order;
      complete = (h d).complete;
      cursor = λ q. (h d).cursor (apply_one_cursor db d body m.version sets g a);
    }

    with_body-Faithful :
        (m : Migration) (ms : List Migration) (v : ℤ) (db : Db) (r : E ⊎ Text)
        (rest : Db → Migrated E Db)
        → Fits m
        → newer v (m ∷ ms) ≡ m ∷ newer (pos m.version) ms
        → read_file m.name ≡ r
        → ((d : Db) → Faithful ms (pos m.version) d (rest d))
        → Faithful (m ∷ ms) v db (with_body user_version exec begin commit read_file m db r rest)
    with_body-Faithful m ms v db (inl e) rest g n f h = record {
      committed = done db;
      left = newer v (m ∷ ms);
      in_order = refl;
      complete = λ q. absurd cc;
      cursor = λ q. q;
    }
    with_body-Faithful m ms v db (inr body) rest g n f h =
        applied_one-Faithful m ms v db body _ rest g n f refl h

    pub run-Faithful :
        (ms : List Migration) (u v : ℤ) (db : Db)
        → Ascending u ms
        → All Fits ms
        → Faithful ms v db (run user_version exec begin commit read_file ms v db)
    unfolding run
    run-Faithful [] u v db a fs = record {
      committed = done db;
      left = [];
      in_order = refl;
      complete = λ q. refl;
      cursor = λ q. q;
    }
    run-Faithful (m ∷ ms) u v db a fs =
        if-elim (Faithful (m ∷ ms) v db) (leb_ℤ (pos m.version) v)
          (run user_version exec begin commit read_file ms v db)
          (with_body user_version exec begin commit read_file m db (read_file m.name)
            (λ d. run user_version exec begin commit read_file ms (pos m.version) d))
          (λ e.
            let f = run-Faithful ms (pos m.version) v db a.1 fs.1 in
            record {
              committed = f.committed;
              left = f.left;
              in_order = if_false _ _ (ap not e) ∙ f.in_order;
              complete = f.complete;
              cursor = f.cursor;
            })
          (λ e.
            with_body-Faithful m ms v db (read_file m.name) _ fs.0 (newer_head m ms v e a.1) refl
              (λ d. run-Faithful ms (pos m.version) (pos m.version) d a.1 fs.1))
