-- ===== src/Blocks/Endings.antt =====
-- A stream of blocks has no ending of its own, so that what follows it is the one ending.
use azoth.Base.{
  ◌≡◌, refl, Bool, true, false, not, ◌&&◌, Option, none, some, List, [], ◌∷◌, ◌++◌, if◌then◌else◌,
  is_empty, All, All-append,
}
use azoth.Base.Text.{Text}
use azoth.Blocks.{
  ToolAcc, Heard, opened, text_piece, reasoning_piece, input_piece, closed, counted, ignored,
  open_at, call_events_of, sent_for, meaning,
}
use azoth.Chat.{
  Event, text_delta, reasoning_delta, tool_call_complete, usage_event, done_event, error_event,
}

-- An ending of a turn.
abbrev pub is_end : {E : Type 0} → Event E → Bool
is_end (done_event r) = true
is_end (error_event e) = true
is_end (text_delta t) = false
is_end (reasoning_delta t) = false
is_end (tool_call_complete cs) = false
is_end (usage_event u) = false

-- One ending, as the last event.
abbrev pub ends_once : {E : Type 0} → List (Event E) → Bool
ends_once [] = false
ends_once (e ∷ []) = is_end e
ends_once (e ∷ d ∷ es) = not (is_end e) && ends_once (d ∷ es)

-- An event that is sent in front of the ending.
abbrev pub Runs : {E : Type 0} → Event E → Type 0
Runs e = is_end e ≡ false

module _ {E : Type 0} where
  pub ends_once-append :
      (es : List (Event E)) (e : Event E)
      → All Runs es
      → is_end e ≡ true
      → ends_once (es ++ (e ∷ [])) ≡ true
  ends_once-append [] e h g = g
  ends_once-append (x ∷ []) e h g = rw (h.0) g
  ends_once-append (x ∷ y ∷ es) e h g = rw (h.0) (ends_once-append (y ∷ es) e h.1 g)

  piece-Runs : (t : Text) (e : Event E) → Runs e → All Runs (if is_empty t then [] else e ∷ [])
  piece-Runs [] e h = tt
  piece-Runs (x ∷ t) e h = (h, tt)

module _ (E : Type 0) where
  call_events_of-Runs : (o : Option ToolAcc) → All Runs (call_events_of {E = E} o)
  call_events_of-Runs none = tt
  call_events_of-Runs (some a) = (refl, tt)

  sent_for-Runs : (past : List Heard) (h : Heard) → All Runs (sent_for {E = E} past h)
  sent_for-Runs past (opened i id name) = tt
  sent_for-Runs past (text_piece t) = piece-Runs t _ refl
  sent_for-Runs past (reasoning_piece t) = piece-Runs t _ refl
  sent_for-Runs past (input_piece i t) = tt
  sent_for-Runs past (closed i) = call_events_of-Runs (open_at i past)
  sent_for-Runs past (counted u) = (refl, tt)
  sent_for-Runs past ignored = tt

  pub meaning-Runs : (past hs : List Heard) → All Runs (meaning {E = E} past hs)
  meaning-Runs past [] = tt
  meaning-Runs past (h ∷ hs) =
      All-append Runs (sent_for past h) (meaning (h ∷ past) hs) (sent_for-Runs past h)
        (meaning-Runs (h ∷ past) hs)
