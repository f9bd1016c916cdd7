-- ===== src/Sse/Events.antt =====
-- What a well-formed stream of events is read as.
use mathlib.Core.List.{append-nil}
use azoth.Base.{
  ◌≡◌, refl, ap, ◌∙◌, false, not, Option, none, List, [], ◌∷◌, ◌++◌, All, if_true, if_false,
}
use azoth.Base.Text.{Text, text_eq, text_eq_refl, has_prefix-append}
use azoth.Sse.{event_prefix, done_marker, Parsed, sent, on_data, on_line, parse_sse}

-- The lines of one event: its payload, and the blank line behind it.
abbrev pub event : Text → List Text
event p = (event_prefix ++ p) ∷ [] ∷ []

abbrev pub events : List Text → List Text
events [] = []
events (p ∷ ps) = event p ++ events ps

module _ {E : Type 0} where
  on_line-event_prefix :
      (p : Text) (rest : Parsed E) → on_line (event_prefix ++ p) rest ≡ on_data p rest
  unfolding on_line
  on_line-event_prefix p rest =
      if_false rest (on_data p rest) (ap not (has_prefix-append event_prefix p))

  parse_sse-events :
      (ps : List Text) (lines : List Text) (err : Option E)
      → All (λ p. text_eq p done_marker ≡ false) ps
      → (parse_sse (events ps ++ lines) err).payloads ≡ ps ++ (parse_sse lines err).payloads
  unfolding parse_sse on_line
  parse_sse-events [] lines err h = refl
  parse_sse-events (p ∷ ps) lines err h =
      ap (λ (r : Parsed E). r.payloads)
        (on_line-event_prefix p (parse_sse ([] ∷ (events ps ++ lines)) err) ∙ if_false _ _ h.0)
      ∙ ap (◌∷◌ p) (parse_sse-events ps lines err h.1)

  parse_sse-events_error :
      (ps : List Text) (lines : List Text) (err : Option E)
      → All (λ p. text_eq p done_marker ≡ false) ps
      → (parse_sse (events ps ++ lines) err).error ≡ (parse_sse lines err).error
  unfolding parse_sse on_line
  parse_sse-events_error [] lines err h = refl
  parse_sse-events_error (p ∷ ps) lines err h =
      ap (λ (r : Parsed E). r.error)
        (on_line-event_prefix p (parse_sse ([] ∷ (events ps ++ lines)) err) ∙ if_false _ _ h.0)
      ∙ parse_sse-events_error ps lines err h.1

  parse_sse-done :
      (rest : List Text) (err : Option E)
      → parse_sse ((event_prefix ++ done_marker) ∷ rest) err
        ≡ record { payloads = []; error = none }
  unfolding parse_sse on_line
  parse_sse-done rest err =
      on_line-event_prefix done_marker (parse_sse rest err)
      ∙ if_true (record { payloads = []; error = none }) (sent done_marker (parse_sse rest err))
          (text_eq_refl done_marker)

  -- The payloads of a stream of events come out as they went in, none of them being the end marker.
  -- A stream that ends with the marker has no error, whatever follows; one that is cut off before it
  -- keeps the scanner's error.
  pub parse_sse_stream :
      (ps rest : List Text) (err : Option E)
      → All (λ p. text_eq p done_marker ≡ false) ps
      → ((parse_sse (events ps ++ ((event_prefix ++ done_marker) ∷ rest)) err).payloads ≡ ps)
        × ((parse_sse (events ps ++ ((event_prefix ++ done_marker) ∷ rest)) err).error ≡ none)
        × ((parse_sse (events ps ++ []) err).payloads ≡ ps)
        × ((parse_sse (events ps ++ []) err).error ≡ err)
  unfolding parse_sse
  parse_sse_stream ps rest err h = (
    parse_sse-events ps _ err h
        ∙ ap (λ (r : Parsed E). ps ++ r.payloads) (parse_sse-done rest err)
        ∙ append-nil ps,
    parse_sse-events_error ps _ err h ∙ ap (λ (r : Parsed E). r.error) (parse_sse-done rest err),
    parse_sse-events ps [] err h ∙ append-nil ps,
    parse_sse-events_error ps [] err h,
  )
