-- ===== src/Pool/Invariant.antt =====
-- The invariant of the pool: what `inflight` counts, and who stands in the queue.
pub mod Queue
pub mod Slots
pub mod Acquire
pub mod Release
use azoth.Base.{
  ℕ, zero, suc, ◌+◌, ◌≤◌, ◌≡◌, refl, sym, subst, ◌⊎◌, inl, inr, Bool, true, false, Option, none,
  some, List, [], ◌∷◌, ◌++◌, arith, ◌==◌, if◌then◌else◌, if_true, if_false, get_elem?, set, length,
  is_empty, Bool-cases, Option-cases,
}
use azoth.Base.Int.{ℤ, pos, negsuc, ◌+ℤ◌, ◌-ℤ◌, ◌≤ℤ◌, ltb_ℤ}
use azoth.Pool.{
  Call, Phase, started, parked, holding, must_release, sending, finished, Failure, Pool, Step,
  Reach, call_acquire, enter, receive, abandon, release, send, hand_off, next_live, remove_waiter,
  new_pool_named,
}
use Queue.{member, IsDistinct}
use azoth.Pool.Calls.{
  CallsInv, slots, weight, weight_of, waits_of, slots-set, slots-append, set-Differs,
  append-Differs, Differs, update-IsFresh, update-IsToken, update-HasRoom, update-IsSole,
  update-IsServed,
}

pub record Inv (p : Pool) : Type 0 where
  pub calls : CallsInv p.calls
  pub counted : p.inflight ≡ pos (slots p.calls)
  pub positive : ltb_ℤ (pos 0) p.capacity ≡ true
  pub within : pos (slots p.calls) ≤ℤ p.capacity
  -- the queue holds the waiting calls, and no others
  pub exact : (i : ℕ) → member i p.queue ≡ waits_of (get_elem? p.calls i)
  pub distinct : IsDistinct p.queue
  -- "a non-empty queue implies inflight == capacity"
  pub full : (p.queue ≡ []) ⊎ (p.capacity ≡ pos (slots p.calls))
