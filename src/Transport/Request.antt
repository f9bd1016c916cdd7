-- ===== src/Transport/Request.antt =====
-- `doChatRequest` of llm/openai.go. The network and the context are a script: what the n-th HTTP
-- attempt meets, and whether the context ends in the wait behind it.
pub mod Attempts
use azoth.Base.{
  ℕ, zero, suc, ◌+◌, ◌≤◌, ◌≡◌, refl, ◌⊎◌, inl, inr, ap, Bool, true, false, ◌||◌, Option, none, some,
  List, [], ◌∷◌, ◌++◌, arith, ◌==◌, if◌then◌else◌, is_empty, length, Bool-cases,
}
use azoth.Base.Int.{ℤ}
use azoth.Base.Text.{Text}
use azoth.Transport.Errors.{GoError, Friendly, friendly_http_error, classify_transport_error}
use azoth.Transport.RetryAfter.{Header}
use azoth.Transport.Tracker.{
  ConnTracker, ConnState, connected, reconnecting, disconnected, set_state,
}

pub record Response : Type 0 where
  pub status : ℕ
  pub retry_after : Header
  -- the first KiB of the body
  pub snippet : Text

pub data Outcome : Type 0 where
  -- `http.NewRequestWithContext` failed
  uncreatable : GoError → Outcome
  -- `Do` returned a response, or an error
  answered : Response → Outcome
  failed : GoError → Outcome

pub record Attempt : Type 0 where
  pub outcome : Outcome
  -- `ctx.Err()`, if the context ends in the wait that follows this attempt
  pub ends_in_wait : Option GoError
  pub now : ℕ

pub record ApiError : Type 0 where
  pub status_code : ℕ
  pub body : Text
  pub retry_after : ℤ

pub data Failure : Type 0 where
  create_request : GoError → Failure
  context_error : GoError → Failure
  friendly : Friendly → Failure
  api : ApiError → Failure
  -- a nil response with a nil error
  nothing : Failure

pub data Reply : Type 0 where
  ok : Response → Reply
  err : Failure → Reply

-- What a run of requests leaves: the tracker, the number of attempts in the script that are used
-- up, the waits that were made, and the reply.
pub record Outgoing : Type 0 where
  pub tracker : ConnTracker
  pub used : ℕ
  pub waits : List ℤ
  pub reply : Reply

pub record Client : Type 0 where
  pub endpoint : Text
  pub connect_hint : Text
  pub status_retries : ℤ
  pub status_retry_max_wait : ℤ
  -- `RetryBackoff`, or the default schedule
  pub backoff : ℕ → ℤ

abbrev pub max_chat_retries : ℕ
max_chat_retries = 2

abbrev pub stop : ConnTracker → ℕ → Reply → Outgoing
stop t k r = record { tracker = t; used = k; waits = []; reply = r }

abbrev pub waited : ℤ → Outgoing → Outgoing
waited w o = record o { waits = w ∷ o.waits }

-- `return nil, FriendlyHTTPError(c.Endpoint, c.ConnectHint, lastErr)`
abbrev pub give_up : Client → Option GoError → Reply
give_up c none = err nothing
give_up c (some e) = err (friendly (friendly_http_error c.endpoint c.connect_hint e))

module _ (c : Client) (script : ℕ → Attempt) where
  -- The wait behind a failed attempt.
  abbrev pub pause : Option GoError → ConnTracker → ℕ → ℤ → Outgoing → Outgoing
  pause (some e) t k w rest = stop t k (err (context_error e))
  pause none t k w rest = waited w rest

  -- What is done with the error of `Do`; `rest` is the next round of the loop.
  unfoldable pub after_failure : GoError → Attempt → ℕ → ℕ → ConnTracker → Outgoing → Outgoing
  after_failure e a attempt k t rest =
      if e.canceled || e.deadline_exceeded
      then stop t (suc k) (err (context_error e))
      else if is_empty (classify_transport_error e)
      then stop t (suc k) (give_up c (some e))
      else if attempt == max_chat_retries
      then stop (set_state t reconnecting a.now).0 (suc k) (give_up c (some e))
      else pause a.ends_in_wait (set_state t reconnecting a.now).0 (suc k) (c.backoff attempt) rest

  abbrev pub round :
      Outcome → Attempt → ℕ → ℕ → ConnTracker → (ConnTracker → GoError → Outgoing) → Outgoing
  round (uncreatable e) a attempt k t rest = stop t k (err (create_request e))
  round (answered r) a attempt k t rest = stop t (suc k) (ok r)
  round (failed e) a attempt k t rest =
      after_failure e a attempt k t (rest (set_state t reconnecting a.now).0 e)

  -- The loop, with `rounds` left; `k` attempts of the script are used up.
  unfoldable pub request_loop : ℕ → ℕ → ℕ → ConnTracker → Option GoError → Outgoing
  unfolding after_failure
  request_loop zero attempt k t last = stop t k (give_up c last)
  request_loop (suc rounds) attempt k t last =
      round (script k).outcome (script k) attempt k t
        (λ t' e. request_loop rounds (suc attempt) (suc k) t' (some e))

  unfoldable pub do_chat_request : ℕ → ConnTracker → Outgoing
  unfolding request_loop
  do_chat_request k t = request_loop (suc max_chat_retries) 0 k t none
