-- ===== src/Pool/Order.antt =====
-- Who gets a slot: the queue is first in, first out, and nobody passes it.
use azoth.Base.{
  ℕ, ◌≡◌, ◌≢◌, refl, sym, ap, ◌∙◌, inl, inr, true, some, List, [], ◌∷◌, ◌++◌, arith, get_elem?,
  Bool-cases,
}
use azoth.Base.Int.{ltb_ℤ}
use azoth.Pool.{
  Pool, Call, sending, Failure, context_done, queue_timeout, Step, call, enters, receives, cancels,
  times_out, releases, passes_on, sends, release_again, call_acquire, enter, receive, abandon,
  release, send, remove_waiter,
}
use azoth.Pool.Calls.{weight}
use azoth.Pool.Calls.Sends.{DiffersTwice, set-DiffersTwice}
use azoth.Pool.Invariant.{Inv}
use azoth.Pool.Invariant.Release.{head-waits, release_empty, release_waiting}

-- While calls wait, a call that comes in joins the queue at its end and takes no slot.
pub enter_no_barging :
    (p : Pool) (i : ℕ) (c : Call)
    → Inv p
    → p.queue ≢ []
    → ((enter p i c).queue ≡ p.queue ++ i ∷ []) × ((enter p i c).inflight ≡ p.inflight)
unfolding enter
enter_no_barging p i c v n = ground (arith, v.full, v.counted)

-- A slot that is given back while calls wait goes to the one that has waited longest: it leaves
-- the queue marked done, the releasing call is about to send to it, no other call is changed, and
-- neither is `inflight`.
release_serves_oldest :
    (p : Pool) (i w : ℕ) (c : Call) (q : List ℕ)
    → Inv p
    → get_elem? p.calls i ≡ some c
    → weight c ≡ 1
    → p.queue ≡ w ∷ q
    → (d : Call) × (get_elem? p.calls w ≡ some d)
      × ((release p i c).queue ≡ q)
      × ((release p i c).inflight ≡ p.inflight)
      × DiffersTwice p.calls
          (release p i c).calls
          i
          (record c { phase = sending w })
          w
          (record d { done = true })
release_serves_oldest p i w c q v at_i owns e =
    let (d, at_w, waits, live) = head-waits p w q v e in
    let served = release_waiting p i w c d q e at_w waits live in
    (
      d,
      at_w,
      ap (λ (r : Pool). r.queue) served,
      ap (λ (r : Pool). r.inflight) served,
      rw served (
          set-DiffersTwice p.calls i w c (record c { phase = sending w }) d
            (record d { done = true }) at_i at_w (ground arith)),
    )

-- How one step may change the queue.
pub data QueueMove (xs ys : List ℕ) : Type 0 where
  keeps : ys ≡ xs → QueueMove xs ys
  joins : (i : ℕ) → ys ≡ xs ++ i ∷ [] → QueueMove xs ys
  serves : (w : ℕ) → xs ≡ w ∷ ys → QueueMove xs ys
  gives_up : (i : ℕ) → ys ≡ remove_waiter i xs → QueueMove xs ys

enter-QueueMove : (p : Pool) (i : ℕ) (c : Call) → QueueMove p.queue (enter p i c).queue
unfolding enter
enter-QueueMove p i c = elim (Bool-cases (ltb_ℤ p.inflight p.capacity)) [
  | inl e ↦ keeps (ground arith)
  | inr e ↦ joins i (ground arith)
]

abandon-QueueMove :
    (p : Pool) (i : ℕ) (c : Call) (err : Failure) → QueueMove p.queue (abandon p i c err).queue
unfolding abandon
abandon-QueueMove p i c err = elim (Bool-cases c.done) [
  | inl e ↦ keeps (ground arith)
  | inr e ↦ gives_up i (ground arith)
]

release-QueueMove :
    (p : Pool) (i : ℕ) (c : Call) (q : List ℕ)
    → Inv p
    → p.queue ≡ q
    → QueueMove p.queue (release p i c).queue
release-QueueMove p i c [] v e = keeps (ap (λ (r : Pool). r.queue) (release_empty p i c e) ∙ sym e)
release-QueueMove p i c (w ∷ q) v e =
    let (d, at_w, waits, live) = head-waits p w q v e in
    serves w
      (e ∙ ap (λ (r : Pool). w ∷ r.queue) (sym (release_waiting p i w c d q e at_w waits live)))

-- No step reorders the queue: a call joins at the end, leaves from the front when it is served, or
-- is taken out, the rest keeping its order, when it gives up.
pub Step-QueueMove : {p q : Pool} → Inv p → Step p q → QueueMove p.queue q.queue
unfolding call_acquire receive send
Step-QueueMove {p} v call = keeps refl
Step-QueueMove {p} v (enters i c h s) = enter-QueueMove p i c
Step-QueueMove {p} v (receives i c h s t) = keeps refl
Step-QueueMove {p} v (cancels i c h s) = abandon-QueueMove p i c context_done
Step-QueueMove {p} v (times_out i c h s t) = abandon-QueueMove p i c queue_timeout
Step-QueueMove {p} v (releases i c h s) = release-QueueMove p i c p.queue v refl
Step-QueueMove {p} v (passes_on i c err h s) = release-QueueMove p i c p.queue v refl
Step-QueueMove {p} v (sends i c w h s) = keeps refl
Step-QueueMove {p} v (release_again i c h s) = keeps refl
