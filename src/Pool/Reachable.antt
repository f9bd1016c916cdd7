-- ===== src/Pool/Reachable.antt =====
-- Every pool that is reached from a new one meets the invariant.
use azoth.Base.{refl, inl, [], arith}
use azoth.Base.Int.{ℤ}
use azoth.Base.Text.{Text}
use azoth.Pool.{
  Pool, Step, Reach, here, next, call, enters, receives, cancels, times_out, releases, passes_on,
  sends, release_again, new_pool_named, context_done, queue_timeout,
}
use azoth.Pool.Calls.{CallsInv}
use azoth.Pool.Invariant.{Inv}
use azoth.Pool.Invariant.Acquire.{call_acquire-Inv, enter-Inv, receive-Inv, abandon-Inv}
use azoth.Pool.Invariant.Release.{release-Inv, send-Inv}

no_calls-CallsInv : CallsInv []
no_calls-CallsInv = record {
  fresh = λ i c h p. cc;
  token = λ i c h p. cc;
  room = λ i w c h p. cc;
  sole = λ i j w c d h g p q. cc;
  served = λ i c h p q r. cc;
}

pub new_pool_named-Inv : (name : Text) (size timeout : ℤ) → Inv (new_pool_named name size timeout)
unfolding new_pool_named
new_pool_named-Inv name size timeout = record {
  calls = no_calls-CallsInv;
  counted = refl;
  positive = ground arith;
  within = ground arith;
  exact = λ i. refl;
  distinct = tt;
  full = inl refl;
}

pub Step-Inv : {p q : Pool} → Step p q → Inv p → Inv q
Step-Inv {p} call v = call_acquire-Inv p v
Step-Inv {p} (enters i c h s) v = enter-Inv p i c h v s
Step-Inv {p} (receives i c h s t) v = receive-Inv p i c h v s t
Step-Inv {p} (cancels i c h s) v = abandon-Inv p i c h v context_done s
Step-Inv {p} (times_out i c h s t) v = abandon-Inv p i c h v queue_timeout s
Step-Inv {p} (releases i c h s) v = release-Inv p i c h v (ground arith) (λ w e. cc) (λ e. cc)
Step-Inv {p} (passes_on i c err h s) v = release-Inv p i c h v (ground arith) (λ w e. cc) (λ e. cc)
Step-Inv {p} (sends i c w h s) v = send-Inv p i w c h s v
Step-Inv {p} (release_again i c h s) v = v

pub Reach-Inv : {p q : Pool} → Inv p → Reach p q → Inv q
Reach-Inv v here = v
Reach-Inv v (next r s) = Step-Inv s (Reach-Inv v r)

-- Whatever the interleaving of the goroutines that share a pool: `inflight` is the number of slots
-- that calls own, it never exceeds the capacity, the queue holds exactly the calls that still
-- wait, each once, and it is empty unless all slots are taken.
pub new_pool-Inv :
    (name : Text) (size timeout : ℤ) {p : Pool} → Reach (new_pool_named name size timeout) p → Inv p
new_pool-Inv name size timeout r = Reach-Inv (new_pool_named-Inv name size timeout) r
