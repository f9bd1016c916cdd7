-- ===== src/Pool/Invariant/Slots.antt =====
-- The counter `inflight` against the number of slots that are owned.
use azoth.Base.{ℕ, ◌+◌, ◌≡◌, false, arith}
use azoth.Base.Int.{ℤ, pos, ◌+ℤ◌, ◌-ℤ◌, ◌≤ℤ◌, ltb_ℤ}

pub inc_slots : (n : ℕ) (m : ℕ) → m ≡ n + 1 → pos n +ℤ pos 1 ≡ pos m
unfolding ◌+ℤ◌
inc_slots n m h = ground arith

pub dec_slots : (n m : ℕ) → m + 1 ≡ n → pos n -ℤ pos 1 ≡ pos m
unfolding ◌-ℤ◌
dec_slots n m h = ground arith

pub not_below : (a b : ℤ) → a ≤ℤ b → ltb_ℤ a b ≡ false → b ≡ a
not_below a b h k = ground arith
