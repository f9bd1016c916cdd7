-- ===== src/Transport/Tests.antt =====
-- Runs of the request loops, and their theorems at them.
use azoth.Base.{
  ℕ, zero, suc, ◌+◌, ◌*◌, ◌≤◌, ◌<◌, ◌≡◌, ◌≢◌, ◌↔◌, refl, inl, inr, Bool, true, false, ◌||◌, Option,
  none, some, List, [], ◌∷◌, arith, ltb, length,
}
use azoth.Base.Int.{ℤ, pos, negsuc, ltb_ℤ}
use azoth.Base.Text.{codes}
use azoth.Transport.Errors.{
  GoError, conn_refused, IsTransport, classify_transport_error, classify_transport_error_iff,
}
use azoth.Transport.Request.{
  Response, Attempt, context_error, ok, Outgoing, Client, answered, failed, do_chat_request,
}
use azoth.Transport.Request.Attempts.{Transient, transient, schedule, do_chat_request-answered}
use azoth.Transport.RetryAfter.{
  absent, seconds, parse_retry_after, retry_backoff, parse_retry_after_overflow,
}
use azoth.Transport.StatusRetry.{
  retries, do_chat_request_retrying_status, failure_cause, chat_request_failed,
}
use azoth.Transport.StatusRetry.Laws.{
  do_chat_request_retrying_status_settles, chat_request_failed-edge,
}
use azoth.Transport.Probe.{
  Probes, ProbeRun, at_rest, then_step, starts, ticks, start_recovery_probe, tick, no_probe,
  Claimed, no_probe-Claimed,
}
use azoth.Transport.Tracker.{ConnTracker, connected, disconnected, claim_probe}
use azoth.Base.{is_empty}

abbrev refused : GoError
refused = record {
  message = codes "connect: connection refused";
  canceled = false;
  deadline_exceeded = false;
  dns = none;
  tls = false;
  errno = some conn_refused;
  eof = false;
  unexpected_eof = false;
  net_timeout = some false;
  url_timeout = some false;
}

-- `context.DeadlineExceeded`, which is a `net.Error` of its own.
abbrev expired : GoError
expired = record refused {
  message = codes "context deadline exceeded";
  deadline_exceeded = true;
  errno = none;
  net_timeout = some true;
  url_timeout = none;
}

abbrev client : Client
client = record {
  endpoint = codes "http://localhost:8080";
  connect_hint = [];
  status_retries = pos 1;
  status_retry_max_wait = pos 0;
  backoff = retry_backoff;
}

abbrev fine : Response
fine = record { status = 200; retry_after = absent; snippet = [] }

abbrev busy : Response
busy = record { status = 503; retry_after = seconds (pos 2); snippet = [] }

-- Refused, then busy, then fine.
abbrev script : ℕ → Attempt
script zero = record { outcome = failed refused; ends_in_wait = none; now = 0 }
script (suc zero) = record { outcome = answered busy; ends_in_wait = none; now = 1 }
script (suc (suc n)) = record { outcome = answered fine; ends_in_wait = none; now = 2 }

abbrev healthy : ConnTracker
healthy = record { state = connected; since = 0; probing = false }

-- What a run of the status loop ends with.
abbrev summary : Option Outgoing → Option (ℕ × List ℤ)
summary none = none
summary (some o) = some (o.used, o.waits)

rides_out :
    summary (do_chat_request_retrying_status client script (λ n. none) (λ n. n) healthy)
    ≡ some (3, pos 500_000_000 ∷ pos 2_000_000_000 ∷ [])
unfolding do_chat_request_retrying_status do_chat_request classify_transport_error
    azoth.Transport.StatusRetry.retryable_status azoth.Transport.StatusRetry.api_error
    parse_retry_after azoth.Base.Int.wrap64 retry_backoff
rides_out = refl

only_first : (j : ℕ) → j < 1 → Transient client script (0 + j)
unfolding classify_transport_error
only_first zero h = transient refused refl refl refl refl
only_first (suc j) h = absurd (omega arith)

do_chat_request-answered_example :
    ((do_chat_request client script 0 healthy).reply ≡ ok busy)
    × ((do_chat_request client script 0 healthy).used ≡ 0 + 1 + 1)
    × ((do_chat_request client script 0 healthy).waits ≡ schedule client script 0 1)
do_chat_request-answered_example =
    do_chat_request-answered client script 1 0 healthy busy (omega arith) only_first refl

do_chat_request_retrying_status_settles_example :
    (q : Outgoing) × (do_chat_request_retrying_status client script (λ n. none) (λ n. n) healthy
      ≡ some q)
    × (q.used ≤ 3 * (retries client.status_retries + 1))
    × ((r : Response) → q.reply ≡ ok r → r.status ≤ 299)
    × ((r : Response) → q.reply ≡ ok r → q.tracker.state ≡ connected)
do_chat_request_retrying_status_settles_example =
    do_chat_request_retrying_status_settles client script (λ n. none) (λ n. n) healthy

chat_request_failed-edge_example :
    ((e : GoError)
      → failure_cause (context_error expired) ≡ some e
      → IsTransport e
      → (chat_request_failed (context_error expired) healthy 7).0.state ≡ disconnected)
    × (((e : GoError) → failure_cause (context_error expired) ≡ some e → ¬ (IsTransport e))
        → chat_request_failed (context_error expired) healthy 7 ≡ (healthy, false))
    × ((chat_request_failed (context_error expired) healthy 7).1 ≡ true
        → (healthy.state ≢ disconnected)
          × (healthy.probing ≡ false)
          × ((chat_request_failed (context_error expired) healthy 7).0.probing ≡ true))
chat_request_failed-edge_example = chat_request_failed-edge (context_error expired) healthy 7

classify_transport_error_iff_example :
    (is_empty (classify_transport_error refused) ≡ false) ↔ IsTransport refused
classify_transport_error_iff_example = classify_transport_error_iff refused

parse_retry_after_overflow_example :
    ltb_ℤ (parse_retry_after (seconds (pos 10_000_000_000))) (pos 0) ≡ true
parse_retry_after_overflow_example =
    parse_retry_after_overflow 10_000_000_000 (omega arith) (omega arith)

-- Two requests that start a probe, and a tick.
abbrev probed : Probes
probed = tick 0 (start_recovery_probe (start_recovery_probe (no_probe disconnected 0)))

probed_run : ProbeRun (no_probe disconnected 0) probed
unfolding start_recovery_probe claim_probe
probed_run = then_step (then_step (then_step at_rest starts) starts) (ticks 0 refl)

no_probe-Claimed_example : Claimed probed
no_probe-Claimed_example = no_probe-Claimed disconnected 0 probed_run
