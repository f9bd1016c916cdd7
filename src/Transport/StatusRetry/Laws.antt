-- ===== src/Transport/StatusRetry/Laws.antt =====
-- The status loop ends, bounds its attempts, and returns nothing but a response below 300 as one.
use azoth.Base.{
  ℕ, zero, suc, ◌+◌, ◌*◌, ◌≤◌, ◌<◌, ◌≡◌, refl, inl, inr, Bool, true, false, not, ◌||◌, Option, none,
  some, [], ◌∷◌, ◌++◌, arith, leb, is_empty, Bool-cases, if_true, if_false, ap, sym, ◌∙◌, ◌≢◌,
}
use azoth.Base.Int.{ℤ, pos, ltb_ℤ, leb_ℤ}
use azoth.Transport.Errors.{
  GoError, classify_transport_error, IsTransport, classify_transport_error_iff,
}
use azoth.Transport.Request.{
  Response, Attempt, Failure, context_error, api, nothing, Reply, ok, err, Outgoing, Client, stop,
  do_chat_request,
}
use azoth.Transport.Tracker.{
  set_state-state, ConnTracker, connected, disconnected, set_state, claim_probe,
}
use azoth.Transport.Request.Attempts.{do_chat_request_bounds}
use azoth.Transport.StatusRetry.{
  retryable_status, api_error, max_wait, wait_of, pause_status, after_status, after_reply, joined,
  status_loop, retries, do_chat_request_retrying_status, failure_cause, mark_disconnected, on_cause,
  chat_request_failed,
}

module _ (c : Client) (script : ℕ → Attempt) (ends : ℕ → Option GoError) (clock : ℕ → ℕ) where
  -- What the loop promises of its result.
  pub record Settled (fuel used : ℕ) (o : Outgoing) : Type 0 where
    pub attempts : o.used ≤ used + 3 * fuel
    pub accepted : (r : Response) → o.reply ≡ ok r → r.status ≤ 299
    pub reachable : (r : Response) → o.reply ≡ ok r → o.tracker.state ≡ connected

  after_status-Settled :
      (r : Response) (attempt fuel used : ℕ) (o : Outgoing) (rest : Outgoing → Option Outgoing)
      → o.used ≤ used + 3
      → (suc attempt ≤ retries c.status_retries
          → (o' : Outgoing) → (q : Outgoing) × (rest o' ≡ some q) × Settled fuel o'.used q)
      → (q : Outgoing) × (after_status c script ends clock r attempt o rest ≡ some q)
        × Settled (suc fuel) used q
  unfolding after_status
  after_status-Settled r attempt fuel used o rest h ih =
      elim (Bool-cases (leb_ℤ c.status_retries (pos attempt) || not (retryable_status r.status))) [
        | inl e ↦ (failed (api (api_error r)), if_true _ _ e, refused (api (api_error r)))
        | inr e ↦ elim (Bool-cases (ltb_ℤ (max_wait c) (api_error r).retry_after)) [
          | inl x ↦ (
            failed (api (api_error r)),
            if_false _ _ e ∙ if_true _ _ x,
            refused (api (api_error r)),
          )
          | inr x ↦ paused (ends attempt) refl (if_false _ _ e ∙ if_false _ _ x) (ground arith)
        ]
      ]
    where
      failed : Failure → Outgoing
      failed x = record o { reply = err x }

      refused : (x : Failure) → Settled (suc fuel) used (failed x)
      refused x = record { attempts = omega arith; accepted = λ r e. cc; reachable = λ r e. cc }

      paused :
          (m : Option GoError)
          → ends attempt ≡ m
          → {start : Option Outgoing}
          → start
            ≡ pause_status c script ends clock
                (ends attempt)
                o
                (wait_of c attempt (api_error r).retry_after)
                rest
          → suc attempt ≤ retries c.status_retries
          → (q : Outgoing) × (start ≡ some q) × Settled (suc fuel) used q
      paused (some x) e s more = (
        failed (context_error x),
        s
            ∙ ap
                (λ n.
                  pause_status c script ends clock n o (wait_of c attempt (api_error r).retry_after)
                    rest)
                e,
        refused (context_error x),
      )
      paused none e s more =
          let w : ℤ = wait_of c attempt (api_error r).retry_after in
          let (q, ran, v) = ih more (record o { waits = o.waits ++ w ∷ [] }) in
          (
            q,
            s ∙ ap (λ n. pause_status c script ends clock n o w rest) e ∙ ran,
            record {
              attempts = omega (arith, v.attempts);
              accepted = v.accepted;
              reachable = v.reachable;
            },
          )

  after_reply-Settled :
      (p : Reply) (attempt fuel used : ℕ) (o : Outgoing) (rest : Outgoing → Option Outgoing)
      → o.used ≤ used + 3
      → (suc attempt ≤ retries c.status_retries
          → (o' : Outgoing) → (q : Outgoing) × (rest o' ≡ some q) × Settled fuel o'.used q)
      → (q : Outgoing) × (after_reply c script ends clock p attempt o rest ≡ some q)
        × Settled (suc fuel) used q
  after_reply-Settled (err x) attempt fuel used o rest h ih = (
    record o { reply = err x },
    refl,
    record { attempts = omega arith; accepted = λ r e. cc; reachable = λ r e. cc },
  )
  after_reply-Settled (ok r) attempt fuel used o rest h ih = elim (Bool-cases (leb r.status 299)) [
    | inl e ↦ (
      record o { tracker = (set_state o.tracker connected (clock o.used)).0; reply = ok r },
      if_true _ _ e,
      record {
        attempts = omega arith;
        accepted = λ s q. ground arith;
        reachable = λ s q. set_state-state o.tracker connected (clock o.used);
      },
    )
    | inr e ↦
        let o' : Outgoing = record o {
          tracker = (set_state o.tracker connected (clock o.used)).0;
        } in
        let (q, ran, v) = after_status-Settled r attempt fuel used o' rest h ih in
        (q, if_false _ _ e ∙ ran, v)
  ]

  status_loop-Settled :
      (fuel attempt : ℕ) (o : Outgoing)
      → attempt ≤ retries c.status_retries
      → retries c.status_retries < attempt + fuel
      → (q : Outgoing) × (status_loop c script ends clock fuel attempt o ≡ some q)
        × Settled fuel o.used q
  unfolding status_loop
  status_loop-Settled zero attempt o l h = absurd (omega arith)
  status_loop-Settled (suc fuel) attempt o l h =
      let n : Outgoing = joined o (do_chat_request c script o.used o.tracker) in
      let b = do_chat_request_bounds c script o.used o.tracker in
      after_reply-Settled n.reply attempt fuel o.used n _ b.1
        (λ more o'. status_loop-Settled fuel (suc attempt) o' more (omega arith))

  -- The loop ends. With a retry setting of n (or none, for a negative one) it makes 3 * (n + 1) HTTP
  -- attempts at most, and a response that it hands out has a status below 300 and has left the
  -- tracker connected.
  pub do_chat_request_retrying_status_settles :
      (t : ConnTracker)
      → (q : Outgoing) × (do_chat_request_retrying_status c script ends clock t ≡ some q)
        × (q.used ≤ 3 * (retries c.status_retries + 1))
        × ((r : Response) → q.reply ≡ ok r → r.status ≤ 299)
        × ((r : Response) → q.reply ≡ ok r → q.tracker.state ≡ connected)
  unfolding do_chat_request_retrying_status
  do_chat_request_retrying_status_settles t =
      let (q, ran, v) =
        status_loop-Settled (suc (retries c.status_retries)) 0 (stop t 0 (err nothing))
          (omega arith) (omega arith) in
      (q, ran, omega (arith, v.attempts), v.accepted, v.reachable)

mark_disconnected-state :
    (t : ConnTracker) (now : ℕ) → (mark_disconnected t now).0.state ≡ disconnected
unfolding set_state claim_probe
mark_disconnected-state t now = ground arith

mark_disconnected-probe :
    (t : ConnTracker) (now : ℕ)
    → (mark_disconnected t now).1 ≡ true
    → (t.state ≢ disconnected) × (t.probing ≡ false) × ((mark_disconnected t now).0.probing ≡ true)
unfolding set_state claim_probe
mark_disconnected-probe t now h = ground arith

on_cause-edge :
    (o : Option GoError) (t : ConnTracker) (now : ℕ)
    → ((e : GoError) → o ≡ some e → IsTransport e → (on_cause o t now).0.state ≡ disconnected)
      × (((e : GoError) → o ≡ some e → ¬ (IsTransport e)) → on_cause o t now ≡ (t, false))
      × ((on_cause o t now).1 ≡ true
          → (t.state ≢ disconnected) × (t.probing ≡ false) × ((on_cause o t now).0.probing ≡ true))
on_cause-edge none t now = (λ e p q. absurd cc, λ p. refl, λ p. absurd cc)
on_cause-edge (some e) t now = elim (Bool-cases (is_empty (classify_transport_error e))) [
  | inl x ↦ (
    λ e' p q. let known = (classify_transport_error_iff e').1 q in absurd cc,
    λ p. if_true _ _ x,
    λ p. absurd (ground arith),
  )
  | inr x ↦ (
    λ e' p q.
        ap (λ (y : ConnTracker × Bool). y.0.state) (if_false _ _ x) ∙ mark_disconnected-state t now,
    λ p. absurd (p e refl ((classify_transport_error_iff e).0 x)),
    λ p.
        let (a, b, d) =
          mark_disconnected-probe t now
            (ap (λ (y : ConnTracker × Bool). y.1) (sym (if_false _ _ x)) ∙ p) in
        (a, b, ap (λ (y : ConnTracker × Bool). y.0.probing) (if_false _ _ x) ∙ d),
  )
]

-- A failed call whose cause is a transport failure, a context's expired deadline included, leaves
-- the provider disconnected; any other leaves the tracker as it was. The recovery probe is started
-- only by the call that moves the tracker into that state, when no probe is running, and is then
-- marked as running.
pub chat_request_failed-edge :
    (f : Failure) (t : ConnTracker) (now : ℕ)
    → ((e : GoError)
        → failure_cause f ≡ some e
        → IsTransport e
        → (chat_request_failed f t now).0.state ≡ disconnected)
      × (((e : GoError) → failure_cause f ≡ some e → ¬ (IsTransport e))
          → chat_request_failed f t now ≡ (t, false))
      × ((chat_request_failed f t now).1 ≡ true
          → (t.state ≢ disconnected)
            × (t.probing ≡ false)
            × ((chat_request_failed f t now).0.probing ≡ true))
unfolding chat_request_failed
chat_request_failed-edge f t now = on_cause-edge (failure_cause f) t now
