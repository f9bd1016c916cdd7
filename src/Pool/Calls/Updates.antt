-- ===== src/Pool/Calls/Updates.antt =====
-- Steps that replace one call, which takes no part in a send.
use azoth.Base.{
  ℕ, ◌≡◌, refl, true, false, none, some, List, [], ◌∷◌, ◌++◌, arith, get_elem?, set, length,
}
use azoth.Pool.{Call, started, parked, sending}
use azoth.Pool.Calls.{
  CallsInv, set-Differs, append-Differs, update-IsFresh, update-IsToken, update-HasRoom,
  update-IsSole, update-IsServed,
}

-- Call `i` is replaced by one that takes no part in a send.
module _ (cs : List Call) (i : ℕ) (c v : Call) (at_i : get_elem? cs i ≡ some c) where
  pub set-CallsInv :
      CallsInv cs
      → (v.phase ≡ started → v.done ≡ false)
      → (v.ch ≡ true → v.done ≡ true)
      → ((w : ℕ) → v.phase ≡ sending w → ⊥)
      → (c.done ≡ true → c.ch ≡ false → (v.done ≡ true) × (v.ch ≡ false))
      → ((w : ℕ) → c.phase ≡ sending w → ⊥)
      → (v.phase ≡ parked → v.done ≡ false)
      → CallsInv (set cs i v)
  set-CallsInv inv fresh token silent keeps quiet unserved =
      let new = set-Differs cs i c v at_i in
      record {
        fresh = update-IsFresh cs _ i (some c) v at_i new inv.fresh fresh;
        token = update-IsToken cs _ i (some c) v at_i new inv.token token;
        room =
            update-HasRoom cs _ i (some c) v at_i new inv.room silent
              (λ d e x y. ground (arith, keeps));
        sole = update-IsSole cs _ i (some c) v at_i new inv.sole silent;
        served =
            update-IsServed cs _ i (some c) v at_i new inv.served unserved
              (λ d w e x. ground (arith, quiet w));
      }

pub append-CallsInv :
    (cs : List Call) (v : Call)
    → get_elem? cs (length cs) ≡ none
    → v.phase ≡ started
    → v.ch ≡ false
    → v.done ≡ false
    → CallsInv cs
    → CallsInv (cs ++ v ∷ [])
append-CallsInv cs v at_end p e f inv =
    let new = append-Differs cs v in
    record {
      fresh = update-IsFresh cs _ (length cs) none v at_end new inv.fresh (λ _. f);
      token = update-IsToken cs _ (length cs) none v at_end new inv.token (λ x. cc);
      room = update-HasRoom cs _ (length cs) none v at_end new inv.room (λ w x. cc) (λ d x y z. cc);
      sole = update-IsSole cs _ (length cs) none v at_end new inv.sole (λ w x. cc);
      served =
          update-IsServed cs _ (length cs) none v at_end new inv.served (λ x. f) (λ d w x y. cc);
    }

pub get_elem?-length {ℓ} : {A : Type ℓ} (xs : List A) → get_elem? xs (length xs) ≡ none
get_elem?-length [] = refl
get_elem?-length (x ∷ xs) = get_elem?-length xs
