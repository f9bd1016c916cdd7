-- ===== src/Transport/Tracker.antt =====
-- llm/connstate.go: the connection tracker. Each method is one critical section.
use azoth.Base.{ℕ, ◌≡◌, Bool, true, false, arith, if◌then◌else◌}
use azoth.Base.Text.{Text, codes}

pub data ConnState : Type 0 where
  connected reconnecting disconnected : ConnState

unfoldable pub conn_state_string : ConnState → Text
conn_state_string connected = codes "connected"
conn_state_string reconnecting = codes "reconnecting"
conn_state_string disconnected = codes "disconnected"

abbrev pub state_eq : ConnState → ConnState → Bool
state_eq connected connected = true
state_eq reconnecting reconnecting = true
state_eq disconnected disconnected = true
state_eq _ _ = false

pub record ConnTracker : Type 0 where
  pub state : ConnState
  pub since : ℕ
  pub probing : Bool

-- `Set` at time `now`: the new tracker and the previous state.
unfoldable pub set_state : ConnTracker → ConnState → ℕ → ConnTracker × ConnState
set_state t s now =
    if state_eq t.state s then (t, t.state) else (record t { state = s; since = now }, t.state)

unfoldable pub claim_probe : ConnTracker → ConnTracker × Bool
claim_probe t = if t.probing then (t, false) else (record t { probing = true }, true)

unfoldable pub release_probe : ConnTracker → ConnTracker
release_probe t = record t { probing = false }

pub set_state-state : (t : ConnTracker) (s : ConnState) (now : ℕ) → (set_state t s now).0.state ≡ s
unfolding set_state
set_state-state t s now = ground arith
