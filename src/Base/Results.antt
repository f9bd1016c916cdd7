-- ===== src/Base/Results.antt =====
-- Results of code that can fail: an error on the left, a value on the right.
use azoth.Base.Logic.{if◌then◌else◌}
use azoth.Base.Lists.{is_empty}
use mathlib.Core.Path.{◌≡◌, refl, ◌∙◌}
use mathlib.Core.Logic.{◌⊎◌, inl, inr}
use mathlib.Core.Bool.{Bool, true, false, ◌&&◌}
use mathlib.Core.List.{List, [], ◌∷◌}

infixl 5 ◌>>=◌
abbrev pub ◌>>=◌ : {E A B : Type 0} → E ⊎ A → (A → E ⊎ B) → E ⊎ B
inl e >>= f = inl e
inr a >>= f = f a

module _ {E A : Type 0} where
  abbrev pub is_ok : E ⊎ A → Bool
  is_ok (inl e) = false
  is_ok (inr a) = true

module _ {E A B : Type 0} where
  -- The loop that appends a result for each element and returns at the first error.
  abbrev pub traverse : (A → E ⊎ B) → List A → E ⊎ List B
  traverse f [] = inr []
  traverse f (x ∷ xs) = do y ← f x; ys ← traverse f xs; inr (y ∷ ys)

  -- A bind of two results that are both needed.
  pub is_ok-both :
      {C : Type 0} (m : E ⊎ A) (n : E ⊎ B) (g : A → B → C)
      → is_ok (m >>= (λ a. n >>= (λ b. inr (g a b)))) ≡ (is_ok m && is_ok n)
  is_ok-both (inl e) n g = refl
  is_ok-both (inr a) (inl e) g = refl
  is_ok-both (inr a) (inr b) g = refl

pub is_ok-then :
    {E A B : Type 0} (m : E ⊎ A) (k : A → E ⊎ B) (b : Bool)
    → ((a : A) → is_ok (k a) ≡ b)
    → is_ok (m >>= k) ≡ (is_ok m && b)
is_ok-then (inl e) k b h = refl
is_ok-then (inr a) k b h = h a

-- A bind whose rest cannot fail.
pub is_ok-last : {E A B : Type 0} (m : E ⊎ A) (g : A → B) → is_ok (m >>= (λ a. inr (g a))) ≡ is_ok m
is_ok-last (inl e) g = refl
is_ok-last (inr a) g = refl

-- A loop over a list that is skipped for the empty one.
pub is_ok-or_empty :
    {E A B C : Type 0} (f : A → E ⊎ B) (xs : List A) (c : C) (g : List B → C)
    → is_ok (if is_empty xs then inr c else (traverse f xs >>= (λ ys. inr (g ys))))
      ≡ is_ok (traverse f xs)
is_ok-or_empty f [] c g = refl
is_ok-or_empty f (x ∷ xs) c g = is_ok-last (traverse f (x ∷ xs)) g

module _ {A : Type 0} where
  abbrev pub every : (A → Bool) → List A → Bool
  every p [] = true
  every p (x ∷ xs) = p x && every p xs

pub is_ok-traverse :
    {E A B : Type 0} (f : A → E ⊎ B) (p : A → Bool) (xs : List A)
    → ((x : A) → is_ok (f x) ≡ p x)
    → is_ok (traverse f xs) ≡ every p xs
is_ok-traverse f p [] h = refl
is_ok-traverse f p (x ∷ xs) h =
    is_ok-both (f x) (traverse f xs) (λ y ys. y ∷ ys) ∙ rw (h x, is_ok-traverse f p xs h) refl
