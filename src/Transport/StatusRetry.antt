-- ===== src/Transport/StatusRetry.antt =====
-- `retryableStatus` and `doChatRequestRetryingStatus` of llm/openai.go, and the tracker's side of
-- `Chat`.
pub mod Laws
use azoth.Base.{
  ℕ, zero, suc, ◌+◌, ◌*◌, ◌≤◌, ◌<◌, ◌≡◌, refl, ◌⊎◌, inl, inr, Bool, true, false, not, ◌||◌, Option,
  none, some, List, [], ◌∷◌, ◌++◌, arith, ◌==◌, ltb, leb, if◌then◌else◌, is_empty, length,
  Bool-cases,
}
use azoth.Base.Int.{ℤ, pos, negsuc, ltb_ℤ, leb_ℤ, eqb_ℤ}
use azoth.Base.Text.{Text}
use azoth.Transport.Errors.{
  GoError, Friendly, plain, wrapped, connect, friendly_http_error, classify_transport_error, cause,
}
use azoth.Transport.Request.{
  Response, Attempt, Failure, create_request, context_error, friendly, api, nothing, Reply, ok, err,
  Outgoing, Client, ApiError, stop, do_chat_request,
}
use azoth.Transport.RetryAfter.{parse_retry_after, second}
use azoth.Transport.Tracker.{
  ConnTracker, ConnState, connected, disconnected, set_state, state_eq, claim_probe,
}

unfoldable pub retryable_status : ℕ → Bool
retryable_status code = code == 429 || code == 502 || code == 503 || code == 504

unfoldable pub api_error : Response → ApiError
api_error r = record {
  status_code = r.status;
  body = r.snippet;
  retry_after = parse_retry_after r.retry_after;
}

abbrev pub max_wait : Client → ℤ
max_wait c =
    if eqb_ℤ c.status_retry_max_wait (pos 0) then pos (30 * second) else c.status_retry_max_wait

-- The wait before attempt `attempt + 1`.
abbrev pub wait_of : Client → ℕ → ℤ → ℤ
wait_of c attempt retry_after = if eqb_ℤ retry_after (pos 0) then c.backoff attempt else retry_after

-- The extra attempts that a setting allows; a negative one means none.
abbrev pub retries : ℤ → ℕ
retries (pos n) = n
retries (negsuc n) = 0

-- The attempt's own record, behind what the attempts before it left in `o`.
abbrev pub joined : Outgoing → Outgoing → Outgoing
joined o n = record n { waits = o.waits ++ n.waits }

module _ (c : Client) (script : ℕ → Attempt) (ends : ℕ → Option GoError) (clock : ℕ → ℕ) where
  -- The wait behind a retryable status: `ends` tells whether the context ends in it.
  abbrev pub pause_status :
      Option GoError → Outgoing → ℤ → (Outgoing → Option Outgoing) → Option Outgoing
  pause_status (some e) o w rest = some (record o { reply = err (context_error e) })
  pause_status none o w rest = rest (record o { waits = o.waits ++ w ∷ [] })

  -- What is done with a response of status 300 or more.
  unfoldable pub after_status :
      Response → ℕ → Outgoing → (Outgoing → Option Outgoing) → Option Outgoing
  after_status r attempt o rest =
      let e = api_error r in
      if leb_ℤ c.status_retries (pos attempt) || not (retryable_status r.status)
      then some (record o { reply = err (api e) })
      else if ltb_ℤ (max_wait c) e.retry_after
      then some (record o { reply = err (api e) })
      else pause_status (ends attempt) o (wait_of c attempt e.retry_after) rest

  abbrev pub after_reply : Reply → ℕ → Outgoing → (Outgoing → Option Outgoing) → Option Outgoing
  after_reply (err e) attempt o rest = some (record o { reply = err e })
  after_reply (ok r) attempt o rest =
      let o' = record o { tracker = (set_state o.tracker connected (clock o.used)).0 } in
      if leb r.status 299 then some (record o' { reply = ok r }) else after_status r attempt o' rest

  -- The unbounded loop, with fuel; `none` means that the fuel ran out.
  unfoldable pub status_loop : ℕ → ℕ → Outgoing → Option Outgoing
  unfolding after_status
  status_loop zero attempt o = none
  status_loop (suc fuel) attempt o =
      let n = joined o (do_chat_request c script o.used o.tracker) in
      after_reply n.reply attempt n (λ o'. status_loop fuel (suc attempt) o')

  unfoldable pub do_chat_request_retrying_status : ConnTracker → Option Outgoing
  unfolding status_loop
  do_chat_request_retrying_status t =
      status_loop (suc (retries c.status_retries)) 0 (stop t 0 (err nothing))

-- The error of a failure, as `ClassifyTransportError` sees it through its wrappers; an `*APIError`
-- and a nil error have none.
abbrev pub failure_cause : Failure → Option GoError
failure_cause (create_request e) = some e
failure_cause (context_error e) = some e
failure_cause (friendly f) = some (cause f)
failure_cause (api e) = none
failure_cause nothing = none

-- The part of `Chat` that handles a failed request, at time `now`: the tracker, and whether this
-- call starts the recovery probe.
abbrev pub mark_disconnected : ConnTracker → ℕ → ConnTracker × Bool
mark_disconnected t now =
    let (t', prev) = set_state t disconnected now in
    if state_eq prev disconnected then (t', false) else claim_probe t'

abbrev pub on_cause : Option GoError → ConnTracker → ℕ → ConnTracker × Bool
on_cause none t now = (t, false)
on_cause (some e) t now =
    if is_empty (classify_transport_error e) then (t, false) else mark_disconnected t now

unfoldable pub chat_request_failed : Failure → ConnTracker → ℕ → ConnTracker × Bool
chat_request_failed f t now = on_cause (failure_cause f) t now
