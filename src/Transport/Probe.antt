-- ===== src/Transport/Probe.antt =====
-- llm/probe.go: the recovery probe. A state counts the goroutines of `probeLoop` by the point that each is at,
-- and each critical section on the tracker is one step, so that a run is any interleaving of them with
-- the other users of the tracker. The request that a probe sends is a parameter.
use azoth.Base.{
  ℕ, suc, ◌+◌, ◌≡◌, refl, Bool, true, false, Option, none, some, [], ◌∷◌, ◌++◌, arith,
  if◌then◌else◌, is_empty, ◌==◌,
}
use azoth.Base.Int.{ℤ, pos, ltb_ℤ}
use azoth.Base.Text.{Text, codes}
use azoth.Transport.Tracker.{
  ConnState, connected, disconnected, state_eq, ConnTracker, set_state, claim_probe, release_probe,
}

-- In nanoseconds.
abbrev pub probe_interval : ℤ
probe_interval = pos 5000000000

abbrev pub interval_of : ℤ → ℤ
interval_of set = if ltb_ℤ (pos 0) set then set else probe_interval

-- `strings.TrimSuffix(endpoint, "/")`
abbrev pub trim_slash : Text → Text
trim_slash [] = []
trim_slash (c ∷ []) = if c == 47 then [] else c ∷ []
trim_slash (c ∷ d ∷ t) = c ∷ trim_slash (d ∷ t)

-- `make_request` is none where `NewRequestWithContext` fails, and `answers` tells whether `Do` gives a
-- response, of any status.
module _ {R : Type 0} (make_request : Text → Option R) (authorize : Text → R → R)
    (answers : R → Bool) where
  abbrev pub send_probe : Text → Option R → Bool
  send_probe key none = false
  send_probe key (some req) =
      answers (if is_empty key then req else authorize (codes "Bearer " ++ key) req)

  unfoldable pub probe_once : Text → Text → Bool
  probe_once endpoint key = send_probe key (make_request (trim_slash endpoint ++ codes "/models"))

-- The goroutines of `probeLoop` that wait for a tick, that wait for an answer, and that return.
pub record Probes : Type 0 where
  pub conn : ConnTracker
  pub waiting : ℕ
  pub asking : ℕ
  pub leaving : ℕ

-- Another user of the tracker sets its state.
abbrev pub other_sets : ConnState → ℕ → Probes → Probes
other_sets c now s = record s { conn = (set_state s.conn c now).0 }

unfoldable pub start_recovery_probe : Probes → Probes
unfolding claim_probe
start_recovery_probe s =
    let (conn', claimed) = claim_probe s.conn in
    if claimed then record s { conn = conn'; waiting = suc s.waiting } else s

-- A tick for one of the `suc n` that wait.
unfoldable pub tick : ℕ → Probes → Probes
tick n s =
    if state_eq s.conn.state disconnected
    then record s { waiting = n; asking = suc s.asking }
    else record s { waiting = n; leaving = suc s.leaving }

-- The outcome of `probeOnce` for one of the `suc n` that ask.
unfoldable pub answer : ℕ → Bool → ℕ → Probes → Probes
unfolding set_state
answer n reached now s =
    if reached
    then record s { conn = (set_state s.conn connected now).0; asking = n; leaving = suc s.leaving }
    else record s { asking = n; waiting = suc s.waiting }

-- The deferred `ReleaseProbe` of one of the `suc n` that return.
unfoldable pub leave : ℕ → Probes → Probes
unfolding release_probe
leave n s = record s { conn = release_probe s.conn; leaving = n }

pub data ProbeStep (s : Probes) : Probes → Type 0 where
  sets : (c : ConnState) (now : ℕ) → ProbeStep s (other_sets c now s)
  starts : ProbeStep s (start_recovery_probe s)
  ticks : (n : ℕ) → s.waiting ≡ suc n → ProbeStep s (tick n s)
  answers :
      (n : ℕ) (reached : Bool) (now : ℕ) → s.asking ≡ suc n → ProbeStep s (answer n reached now s)
  leaves : (n : ℕ) → s.leaving ≡ suc n → ProbeStep s (leave n s)

pub data ProbeRun (s : Probes) : Probes → Type 0 where
  at_rest : ProbeRun s s
  then_step : {t u : Probes} → ProbeRun s t → ProbeStep t u → ProbeRun s u

-- No probe, and nobody holds the claim.
abbrev pub no_probe : ConnState → ℕ → Probes
no_probe c since = record {
  conn = record { state = c; since = since; probing = false };
  waiting = 0;
  asking = 0;
  leaving = 0;
}

abbrev pub running : Probes → ℕ
running s = s.waiting + s.asking + s.leaving

-- The claim is held exactly while a probe runs.
abbrev pub Claimed : Probes → Type 0
Claimed s = running s ≡ (if s.conn.probing then 1 else 0)

set_state-probing :
    (t : ConnTracker) (c : ConnState) (now : ℕ) → (set_state t c now).0.probing ≡ t.probing
unfolding set_state
set_state-probing t c now = ground arith

ProbeStep-Claimed : {s t : Probes} → ProbeStep s t → Claimed s → Claimed t
unfolding start_recovery_probe claim_probe tick answer leave release_probe
ProbeStep-Claimed {s} (sets c now) h = rw (set_state-probing s.conn c now) h
ProbeStep-Claimed {s} starts h = ground (arith, h)
ProbeStep-Claimed {s} (ticks n e) h = ground (arith, h, e)
ProbeStep-Claimed {s} (answers n true now e) h =
    rw (set_state-probing s.conn connected now) (ground (arith, h, e))
ProbeStep-Claimed {s} (answers n false now e) h = ground (arith, h, e)
ProbeStep-Claimed {s} (leaves n e) h = ground (arith, h, e)

ProbeRun-Claimed : {s t : Probes} → Claimed s → ProbeRun s t → Claimed t
ProbeRun-Claimed h at_rest = h
ProbeRun-Claimed h (then_step r p) = ProbeStep-Claimed p (ProbeRun-Claimed h r)

-- Whatever the interleaving of requests that start a probe, of probes and of other users of the tracker,
-- the claim is held exactly while one probe runs, and never do two run.
pub no_probe-Claimed :
    (c : ConnState) (since : ℕ) {s : Probes} → ProbeRun (no_probe c since) s → Claimed s
no_probe-Claimed c since r = ProbeRun-Claimed refl r
