-- ===== src/Anthropic/Stream/Connection.antt =====
-- The end of a turn of `streamAnthropic`: its one ending, and what it does to the connection state.
use azoth.Base.{
  ℕ, ◌≡◌, refl, sym, ap, ◌∙◌, Bool, true, false, not, ◌&&◌, Option, none, some, List, [], arith,
  is_empty, subst, map, if_true, All,
}
use azoth.Base.Text.{Text}
use azoth.Blocks.Endings.{ends_once, ends_once-append, meaning-Runs}
use azoth.Transport.Errors.{GoError, classify_transport_error}
use azoth.Transport.Tracker.{
  ConnState, connected, reconnecting, disconnected, state_eq, ConnTracker, set_state,
  set_state-state,
}
use azoth.Anthropic.Stream.{SdkEvent, end_turn, stream_anthropic}
use azoth.Anthropic.Stream.Meaning.{heard, sdk_loop-meaning}

abbrev pub IsTransportError : GoError → Type 0
IsTransportError e = is_empty (classify_transport_error e) ≡ false

-- A turn has exactly one `EventDone` or error, and that is its last event.
stream_anthropic-ends_once :
    (label : Text) (has_probe : Bool) (evs : List SdkEvent) (err : Option GoError)
    (conn : ConnTracker) (now : ℕ)
    → ends_once (stream_anthropic label has_probe evs err conn now).events ≡ true
unfolding stream_anthropic end_turn
stream_anthropic-ends_once label has_probe evs none conn now =
    ends_once-append _ _
      (subst (All _) (sym (sdk_loop-meaning evs)) (meaning-Runs _ [] (map heard evs))) refl
stream_anthropic-ends_once label has_probe evs (some e) conn now =
    ends_once-append _ _
      (subst (All _) (sym (sdk_loop-meaning evs)) (meaning-Runs _ [] (map heard evs))) refl

state_eq_refl : (s : ConnState) → state_eq s s ≡ true
state_eq_refl connected = refl
state_eq_refl reconnecting = refl
state_eq_refl disconnected = refl

set_state-same :
    (t : ConnTracker) (s : ConnState) (now : ℕ) → t.state ≡ s → set_state t s now ≡ (t, t.state)
unfolding set_state
set_state-same t s now h = if_true _ _ (ap (λ x. state_eq x s) h ∙ state_eq_refl s)

set_state_previous : (t : ConnTracker) (s : ConnState) (now : ℕ) → (set_state t s now).1 ≡ t.state
unfolding set_state
set_state_previous t s now = ground arith

module _ (label : Text) (has_probe : Bool) (e : GoError) (h : IsTransportError e) where
  end_turn-conn :
      (conn : ConnTracker) (now : ℕ)
      → (end_turn label has_probe (some e) conn now).conn ≡ (set_state conn disconnected now).0
  unfolding end_turn
  end_turn-conn conn now = rw h refl

  end_turn-started_probe :
      (conn : ConnTracker) (now : ℕ)
      → (end_turn label has_probe (some e) conn now).started_probe
        ≡ (not (state_eq conn.state disconnected) && has_probe)
  unfolding end_turn
  end_turn-started_probe conn now = rw (h, set_state_previous conn disconnected now) refl

-- Two turns that a transport error ends, one after the other: the first leaves the tracker
-- disconnected, and calls `startProbe`, where there is one, unless the tracker was disconnected
-- before; the second calls it no more and leaves the tracker as it is.
pub stream_anthropic-edge :
    (label : Text) (has_probe : Bool) (evs evs' : List SdkEvent) (e e' : GoError)
    (conn : ConnTracker) (now now' : ℕ)
    → IsTransportError e
    → IsTransportError e'
    → ((stream_anthropic label has_probe evs (some e) conn now).conn.state ≡ disconnected)
      × ((stream_anthropic label has_probe evs (some e) conn now).started_probe
          ≡ (not (state_eq conn.state disconnected) && has_probe))
      × ((stream_anthropic label has_probe evs'
            (some e')
            (stream_anthropic label has_probe evs (some e) conn now).conn
            now').started_probe
          ≡ false)
      × ((stream_anthropic label has_probe evs'
            (some e')
            (stream_anthropic label has_probe evs (some e) conn now).conn
            now').conn
          ≡ (stream_anthropic label has_probe evs (some e) conn now).conn)
unfolding stream_anthropic
stream_anthropic-edge label has_probe evs evs' e e' conn now now' h h' =
    let lost = end_turn-conn label has_probe e h conn now in
    let conn' = (end_turn label has_probe (some e) conn now).conn in
    let down = ap (λ (t : ConnTracker). t.state) lost ∙ set_state-state conn disconnected now in
    (
      down,
      end_turn-started_probe label has_probe e h conn now,
      end_turn-started_probe label has_probe e' h' conn' now'
          ∙ rw (ap (λ x. state_eq x disconnected) down) refl,
      end_turn-conn label has_probe e' h' conn' now'
          ∙ ap (λ (p : ConnTracker × ConnState). p.0) (set_state-same conn' disconnected now' down),
    )
