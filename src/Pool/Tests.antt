-- ===== src/Pool/Tests.antt =====
-- Runs of the pool, and its theorems at concrete pools.
use azoth.Base.{◌≡◌, refl, false, [], ◌∷◌}
use azoth.Base.Int.{pos, negsuc, ◌+ℤ◌, ◌-ℤ◌}
use azoth.Base.Text.{codes}
use azoth.Pool.{
  Pool, Call, holding, parked, started, Reach, here, next, call, enters, releases, new_pool_named,
  next_live, call_acquire, enter, release,
}
use azoth.Pool.Invariant.{Inv}
use azoth.Pool.Progress.{no_slot_leak, Drains, pool_drains}
use azoth.Pool.Reachable.{new_pool-Inv}

abbrev fresh_call : Call
fresh_call = record { phase = started; ch = false; done = false }

-- A pool of one slot; the first of two calls has it, the second waits.
abbrev empty_pool : Pool
empty_pool = new_pool_named (codes "gpu") (pos 1) (pos 0)

abbrev two_calls : Pool
two_calls = call_acquire (call_acquire empty_pool)

abbrev one_in : Pool
one_in = enter two_calls 0 fresh_call

abbrev contended : Pool
contended = enter one_in 1 fresh_call

contended-Reach : Reach empty_pool contended
unfolding new_pool_named call_acquire enter ◌+ℤ◌
contended-Reach =
    next (next (next (next here call) call) (enters 0 fresh_call refl refl))
      (enters 1 fresh_call refl refl)

clamped : (new_pool_named [] (negsuc 4) (negsuc 0)).capacity ≡ pos 1
unfolding new_pool_named
clamped = refl

contended_inflight : contended.inflight ≡ pos 1
unfolding new_pool_named call_acquire enter ◌+ℤ◌
contended_inflight = refl

contended_queue : contended.queue ≡ 1 ∷ []
unfolding new_pool_named call_acquire enter ◌+ℤ◌
contended_queue = refl

contended-Inv : Inv contended
contended-Inv = new_pool-Inv (codes "gpu") (pos 1) (pos 0) contended-Reach

abbrev holder : Call
holder = record fresh_call { phase = holding }

abbrev waiting_call : Call
waiting_call = record fresh_call { phase = parked }

-- The holder has released, and is about to send to the waiter.
abbrev handed : Pool
handed = release contended 0 holder

handed-Reach : Reach empty_pool handed
unfolding new_pool_named call_acquire enter ◌+ℤ◌
handed-Reach = next contended-Reach (releases 0 holder refl refl)

-- One call alone, released.
abbrev served : Pool
served = release (enter (call_acquire empty_pool) 0 fresh_call) 0 holder

served-Reach : Reach empty_pool served
unfolding new_pool_named call_acquire enter ◌+ℤ◌
served-Reach =
    next (next (next here call) (enters 0 fresh_call refl refl)) (releases 0 holder refl refl)

new_pool-Inv_example : Inv contended
new_pool-Inv_example = new_pool-Inv (codes "gpu") (pos 1) (pos 0) contended-Reach

no_slot_leak_example : (served.inflight ≡ pos 0) × (served.queue ≡ [])
unfolding new_pool_named call_acquire enter release next_live ◌+ℤ◌ ◌-ℤ◌
no_slot_leak_example = no_slot_leak (codes "gpu") (pos 1) (pos 0) served-Reach (refl, tt)

pool_drains_example : Drains contended
pool_drains_example = pool_drains (codes "gpu") (pos 1) (pos 0) contended-Reach
