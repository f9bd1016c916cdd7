-- ===== src/ToolCall/IntMap.antt =====
-- A Go map with `int` keys, as an association list with one entry for a key.
use azoth.Base.{◌≡◌, refl, Option, none, some, List, [], ◌∷◌, arith, if◌then◌else◌}
use azoth.Base.Int.{ℤ, eqb_ℤ, eqb_ℤ_iff}

abbrev pub Table {ℓ} : Type ℓ → Type ℓ
Table A = List (ℤ × A)

module _ {ℓ} {A : Type ℓ} where
  unfoldable pub lookup : ℤ → Table A → Option A
  lookup k [] = none
  lookup k ((j, v) ∷ m) = if eqb_ℤ j k then some v else lookup k m

  unfoldable pub put : ℤ → A → Table A → Table A
  put k v [] = (k, v) ∷ []
  put k v ((j, w) ∷ m) = if eqb_ℤ j k then (k, v) ∷ m else (j, w) ∷ put k v m

  unfoldable pub keys : Table A → List ℤ
  keys [] = []
  keys ((j, v) ∷ m) = j ∷ keys m

  -- `delete(m, k)`
  unfoldable pub remove : ℤ → Table A → Table A
  remove k [] = []
  remove k ((j, w) ∷ m) = if eqb_ℤ j k then remove k m else (j, w) ∷ remove k m

  pub lookup-remove :
      (k j : ℤ) (m : Table A) → lookup j (remove k m) ≡ (if eqb_ℤ k j then none else lookup j m)
  unfolding lookup remove
  lookup-remove k j [] = ground arith
  lookup-remove k j ((i, w) ∷ m) =
      ground (arith, eqb_ℤ_iff k j, eqb_ℤ_iff i k, eqb_ℤ_iff i j, lookup-remove k j m)

  pub lookup-put :
      (k j : ℤ) (v : A) (m : Table A)
      → lookup j (put k v m) ≡ (if eqb_ℤ k j then some v else lookup j m)
  unfolding lookup put
  lookup-put k j v [] = refl
  lookup-put k j v ((i, w) ∷ m) =
      ground (arith, eqb_ℤ_iff k j, eqb_ℤ_iff i k, eqb_ℤ_iff i j, lookup-put k j v m)

  -- A write to a key that is there keeps the list of keys.
  pub keys-put : (k : ℤ) (v w : A) (m : Table A) → lookup k m ≡ some w → keys (put k v m) ≡ keys m
  unfolding lookup put keys
  keys-put k v w [] h = cc
  keys-put k v w ((i, x) ∷ m) h = ground (arith, eqb_ℤ_iff i k, keys-put k v w m)
