-- ===== src/Base/Trailing.antt =====
-- A loop over the last elements of a slice, from the end, that changes each in place.
use azoth.Base.Logic.{leb, if◌then◌else◌, if-elim}
use azoth.Base.Lists.{length, get_elem?, set}
use Prim.Native.Nat.{ℕ, zero, suc, ◌+◌, ◌-◌, ◌≤◌}
use mathlib.Core.Path.{◌≡◌, refl, ap, ◌∙◌}
use mathlib.Core.Option.{Option, none, some}
use mathlib.Core.List.{List, [], ◌∷◌, map}
use native.Mathlib.Omega.{arith}

-- Whether a slice is not empty, as a number.
abbrev pub one_if : {A : Type 0} → List A → ℕ
one_if [] = 0
one_if (x ∷ xs) = 1

pub one_if-le : {A : Type 0} (xs : List A) → one_if xs ≤ 1
one_if-le [] = omega arith
one_if-le (x ∷ xs) = omega arith

abbrev pub total : {A : Type 0} → (A → ℕ) → List A → ℕ
total size [] = 0
total size (t ∷ ts) = size t + total size ts

module _ {A : Type 0} (f : A → A) where
  abbrev pub update_found : ℕ → Option A → List A → List A
  update_found idx none ts = ts
  update_found idx (some t) ts = set ts idx (f t)

  -- The rounds `i`, `i + 1`, ... of the loop, `n` at most; it stops in front of the first element.
  unfoldable pub update_trailing : ℕ → ℕ → List A → List A
  update_trailing zero i ts = ts
  update_trailing (suc n) i ts =
      let idx = length ts - 1 - i in
      let rest = update_trailing n (suc i) (update_found idx (get_elem? ts idx) ts) in
      if leb (length ts) i then ts else rest

  update_found-cons :
      (t : A) (ts : List A) (i : ℕ) (o : Option A)
      → update_found (suc i) o (t ∷ ts) ≡ t ∷ update_found i o ts
  update_found-cons t ts i none = refl
  update_found-cons t ts i (some x) = refl

  module _ (size : A → ℕ) (grows : (t : A) → size (f t) ≤ size t + 1) where
    update_found-total :
        (ts : List A) (i : ℕ) → total size (update_found i (get_elem? ts i) ts) ≤ total size ts + 1
    update_found-total [] i = omega arith
    update_found-total (t ∷ ts) zero = let h = grows t in omega (arith, h)
    update_found-total (t ∷ ts) (suc i) =
        rw (update_found-cons t ts i (get_elem? ts i))
          (let h = update_found-total ts i in omega (arith, h))

    -- `n` rounds add at most `n`, where a change adds at most one.
    pub update_trailing-total :
        (n i : ℕ) (ts : List A) → total size (update_trailing n i ts) ≤ total size ts + n
    unfolding update_trailing
    update_trailing-total zero i ts = omega arith
    update_trailing-total (suc n) i ts =
        let idx = length ts - 1 - i in
        let ts' = update_found idx (get_elem? ts idx) ts in
        if-elim (λ (x : List A). total size x ≤ total size ts + suc n) (leb (length ts) i) ts
          (update_trailing n (suc i) ts') (λ e. omega arith)
          (λ e.
            let h = update_trailing-total n (suc i) ts' in
            let k = update_found-total ts idx in omega (arith, h, k))

  module _ {B : Type 0} (view : A → B) (keeps : (t : A) → view (f t) ≡ view t) where
    update_found-view :
        (ts : List A) (i : ℕ) → map view (update_found i (get_elem? ts i) ts) ≡ map view ts
    update_found-view [] i = refl
    update_found-view (t ∷ ts) zero = ap (λ b. b ∷ map view ts) (keeps t)
    update_found-view (t ∷ ts) (suc i) =
        ap (map view) (update_found-cons t ts i (get_elem? ts i))
        ∙ ap (λ bs. view t ∷ bs) (update_found-view ts i)

    -- What a change keeps, the loop keeps.
    pub update_trailing-view :
        (n i : ℕ) (ts : List A) → map view (update_trailing n i ts) ≡ map view ts
    unfolding update_trailing
    update_trailing-view zero i ts = refl
    update_trailing-view (suc n) i ts =
        let idx = length ts - 1 - i in
        let ts' = update_found idx (get_elem? ts idx) ts in
        if-elim (λ (x : List A). map view x ≡ map view ts) (leb (length ts) i) ts
          (update_trailing n (suc i) ts') (λ e. refl)
          (λ e. update_trailing-view n (suc i) ts' ∙ update_found-view ts idx)
