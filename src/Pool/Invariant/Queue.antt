-- ===== src/Pool/Invariant/Queue.antt =====
-- Lists of numbers without repetition, as the pool's queue is.
use azoth.Base.{ℕ, ◌≡◌, Bool, false, ◌||◌, List, [], ◌∷◌, ◌++◌, arith, ◌==◌, if◌then◌else◌}
use azoth.Pool.{remove_waiter}

abbrev pub member : ℕ → List ℕ → Bool
member i [] = false
member i (x ∷ xs) = x == i || member i xs

abbrev pub IsDistinct : List ℕ → Type 0
IsDistinct [] = Unit
IsDistinct (x ∷ xs) = (member x xs ≡ false) × IsDistinct xs

pub member-append : (i j : ℕ) (xs : List ℕ) → member i (xs ++ j ∷ []) ≡ (member i xs || j == i)
member-append i j [] = ground arith
member-append i j (x ∷ xs) = ground (arith, member-append i j xs)

pub IsDistinct-append :
    (i : ℕ) (xs : List ℕ) → member i xs ≡ false → IsDistinct xs → IsDistinct (xs ++ i ∷ [])
IsDistinct-append i [] h d = ground arith
IsDistinct-append i (x ∷ xs) h d = ground (arith, IsDistinct-append i xs, member-append x i xs)

pub member-remove_waiter :
    (i j : ℕ) (xs : List ℕ)
    → IsDistinct xs
    → member j (remove_waiter i xs) ≡ (if i == j then false else member j xs)
unfolding remove_waiter
member-remove_waiter i j [] d = ground arith
member-remove_waiter i j (x ∷ xs) d = ground (arith, member-remove_waiter i j xs d.1)

pub IsDistinct-remove_waiter :
    (i : ℕ) (xs : List ℕ) → IsDistinct xs → IsDistinct (remove_waiter i xs)
unfolding remove_waiter
IsDistinct-remove_waiter i [] d = tt
IsDistinct-remove_waiter i (x ∷ xs) d =
    ground (arith, IsDistinct-remove_waiter i xs d.1, member-remove_waiter i x xs d.1)
