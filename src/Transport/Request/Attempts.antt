-- ===== src/Transport/Request/Attempts.antt =====
-- How many attempts `doChatRequest` makes, and how it ends.
use azoth.Base.{
  ℕ, zero, suc, ◌+◌, ◌-◌, ◌≤◌, ◌<◌, ◌≡◌, ap, ◌∙◌, false, ◌||◌, Option, none, some, List, [], ◌∷◌,
  arith, ◌==◌, is_empty, length, if_false, subst,
}
use azoth.Base.Int.{ℤ}
use azoth.Transport.Errors.{GoError, classify_transport_error}
use azoth.Transport.Request.{
  Response, Outcome, uncreatable, answered, failed, Attempt, ok, Outgoing, Client, max_chat_retries,
  stop, waited, pause, after_failure, round, request_loop, do_chat_request,
}
use azoth.Transport.Tracker.{ConnTracker, reconnecting, set_state}

module _ (c : Client) (script : ℕ → Attempt) where
  -- The bounds on what a loop of `rounds` rounds leaves.
  record Bounds (rounds k : ℕ) (o : Outgoing) : Type 0 where
    used_from : k ≤ o.used
    used_to : o.used ≤ k + rounds
    waits_to : length o.waits ≤ rounds - 1

  after_failure-Bounds :
      (e : GoError) (a : Attempt) (attempt k rounds : ℕ) (t : ConnTracker) (rest : Outgoing)
      → attempt + suc rounds ≡ suc max_chat_retries
      → Bounds rounds (suc k) rest
      → Bounds (suc rounds) k (after_failure c script e a attempt k t rest)
  unfolding after_failure
  after_failure-Bounds e a attempt k rounds t rest h b = ground arith

  round-Bounds :
      (o : Outcome) (a : Attempt) (attempt k rounds : ℕ) (t : ConnTracker)
      (rest : ConnTracker → GoError → Outgoing)
      → attempt + suc rounds ≡ suc max_chat_retries
      → ((t' : ConnTracker) (e : GoError) → Bounds rounds (suc k) (rest t' e))
      → Bounds (suc rounds) k (round c script o a attempt k t rest)
  round-Bounds (uncreatable e) a attempt k rounds t rest h b = omega arith
  round-Bounds (answered r) a attempt k rounds t rest h b = omega arith
  round-Bounds (failed e) a attempt k rounds t rest h b =
      after_failure-Bounds e a attempt k rounds t _ h (b _ e)

  request_loop-Bounds :
      (rounds attempt k : ℕ) (t : ConnTracker) (last : Option GoError)
      → attempt + rounds ≡ suc max_chat_retries
      → Bounds rounds k (request_loop c script rounds attempt k t last)
  unfolding request_loop
  request_loop-Bounds zero attempt k t last h = omega arith
  request_loop-Bounds (suc rounds) attempt k t last h =
      round-Bounds (script k).outcome (script k) attempt k rounds t _ h
        (λ t' e. request_loop-Bounds rounds (suc attempt) (suc k) t' (some e) (omega arith))

  -- One request makes three attempts at most, with two waits at most between them.
  pub do_chat_request_bounds :
      (k : ℕ) (t : ConnTracker)
      → (k ≤ (do_chat_request c script k t).used)
        × ((do_chat_request c script k t).used ≤ k + 3)
        × (length (do_chat_request c script k t).waits ≤ 2)
  unfolding do_chat_request
  do_chat_request_bounds k t =
      let b = request_loop-Bounds (suc max_chat_retries) 0 k t none (omega arith) in
      (b.used_from, b.used_to, b.waits_to)

  -- Attempt `k` fails with a transport error, and the context outlives the wait behind it.
  pub data Transient (k : ℕ) : Type 0 where
    transient :
        (e : GoError)
        → (script k).outcome ≡ failed e
        → (e.canceled || e.deadline_exceeded) ≡ false
        → is_empty (classify_transport_error e) ≡ false
        → (script k).ends_in_wait ≡ none
        → Transient k

  -- The waits behind `m` failed attempts from the numbered one on.
  abbrev pub schedule : ℕ → ℕ → List ℤ
  schedule attempt zero = []
  schedule attempt (suc m) = c.backoff attempt ∷ schedule (suc attempt) m

  round-Transient :
      (attempt k rounds : ℕ) (t : ConnTracker) (last : Option GoError)
      → attempt < max_chat_retries
      → Transient k
      → (t' : ConnTracker) × (e : GoError) × (request_loop c script (suc rounds) attempt k t last
          ≡ waited
              (c.backoff attempt)
              (request_loop c script rounds (suc attempt) (suc k) t' (some e)))
  unfolding request_loop
  round-Transient attempt k rounds t last h (transient e o live known calm) =
      let t' : ConnTracker = (set_state t reconnecting (script k).now).0 in
      let rest : Outgoing = request_loop c script rounds (suc attempt) (suc k) t' (some e) in
      let more : (attempt == max_chat_retries) ≡ false = ground arith in
      (
        t',
        e,
        ap
              (λ x.
                round c script x (script k) attempt k t
                  (λ t' e. request_loop c script rounds (suc attempt) (suc k) t' (some e)))
              o
            ∙ if_false _ _ live
            ∙ if_false _ _ known
            ∙ if_false _ _ more
            ∙ ap (λ x. pause c script x t' (suc k) (c.backoff attempt) rest) calm,
      )

  round_answered :
      (attempt k rounds : ℕ) (t : ConnTracker) (last : Option GoError) (r : Response)
      → (script k).outcome ≡ answered r
      → request_loop c script (suc rounds) attempt k t last ≡ stop t (suc k) (ok r)
  unfolding request_loop
  round_answered attempt k rounds t last r a =
      ap
        (λ x.
          round c script x (script k) attempt k t
            (λ t' e. request_loop c script rounds (suc attempt) (suc k) t' (some e)))
        a

  request_loop-answered :
      (m rounds attempt k : ℕ) (t : ConnTracker) (last : Option GoError) (r : Response)
      → attempt + m ≤ max_chat_retries
      → m < rounds
      → ((j : ℕ) → j < m → Transient (k + j))
      → (script (k + m)).outcome ≡ answered r
      → ((request_loop c script rounds attempt k t last).reply ≡ ok r)
        × ((request_loop c script rounds attempt k t last).used ≡ k + m + 1)
        × ((request_loop c script rounds attempt k t last).waits ≡ schedule attempt m)
  request_loop-answered m zero attempt k t last r h l tr a = absurd (omega arith)
  request_loop-answered zero (suc rounds) attempt k t last r h l tr a =
      let now =
        round_answered attempt k rounds t last r
          (subst (λ n. (script n).outcome ≡ answered r) (omega arith) a) in
      (
        ap (λ (o : Outgoing). o.reply) now,
        ap (λ (o : Outgoing). o.used) now ∙ omega arith,
        ap (λ (o : Outgoing). o.waits) now,
      )
  request_loop-answered (suc m) (suc rounds) attempt k t last r h l tr a =
      let (t', e, step) =
        round-Transient attempt k rounds t last (omega arith)
          (subst Transient (omega arith) (tr 0 (omega arith))) in
      let later =
        request_loop-answered m rounds (suc attempt) (suc k) t' (some e) r (omega arith)
          (omega arith) (λ j lt. subst Transient (omega arith) (tr (suc j) (omega arith)))
          (subst (λ n. (script n).outcome ≡ answered r) (omega arith) a) in
      (
        ap (λ (o : Outgoing). o.reply) step ∙ later.0,
        ap (λ (o : Outgoing). o.used) step ∙ later.1 ∙ omega arith,
        ap (λ (o : Outgoing). o.waits) step ∙ ap (◌∷◌ (c.backoff attempt)) later.2,
      )

  -- Up to two transport failures are ridden out: the response of the attempt behind them is
  -- returned, after as many attempts and exactly the scheduled waits between them.
  pub do_chat_request-answered :
      (m k : ℕ) (t : ConnTracker) (r : Response)
      → m ≤ 2
      → ((j : ℕ) → j < m → Transient (k + j))
      → (script (k + m)).outcome ≡ answered r
      → ((do_chat_request c script k t).reply ≡ ok r)
        × ((do_chat_request c script k t).used ≡ k + m + 1)
        × ((do_chat_request c script k t).waits ≡ schedule 0 m)
  unfolding do_chat_request
  do_chat_request-answered m k t r h tr a =
      request_loop-answered m (suc max_chat_retries) 0 k t none r (omega arith) (omega arith) tr a
