-- ===== src/Sse.antt =====
-- llm/sse.go: the reader of Server-Sent Events. The lines, and the error behind them, are what the
-- scanner gives; a line past its limit is such an error.
pub mod Events
mod Tests
use azoth.Base.{
  ℕ, ◌==◌, Bool, true, false, not, Option, none, some, List, [], ◌∷◌, if◌then◌else◌, length, drop,
}
use azoth.Base.Text.{Text, codes, text_eq, has_prefix}

abbrev pub event_prefix : Text
event_prefix = codes "data: "

abbrev pub done_marker : Text
done_marker = codes "[DONE]"

-- The payloads sent, in order, and the error stored.
pub record Parsed (E : Type 0) : Type 0 where
  pub payloads : List Text
  pub error : Option E

module _ {E : Type 0} where
  abbrev pub sent : Text → Parsed E → Parsed E
  sent p r = record r { payloads = p ∷ r.payloads }

  -- What is done with the text behind the prefix; `rest` is the loop's further run.
  abbrev pub on_data : Text → Parsed E → Parsed E
  on_data d rest =
      if text_eq d done_marker then record { payloads = []; error = none } else sent d rest

  unfoldable pub on_line : Text → Parsed E → Parsed E
  unfolding has_prefix text_eq
  on_line [] rest = rest
  on_line (c ∷ cs) rest =
      if c == b':'
      then rest
      else if not (has_prefix (c ∷ cs) event_prefix)
      then rest
      else on_data (drop (length event_prefix) (c ∷ cs)) rest

  unfoldable pub parse_sse : List Text → Option E → Parsed E
  unfolding on_line
  parse_sse [] err = record { payloads = []; error = err }
  parse_sse (line ∷ lines) err = on_line line (parse_sse lines err)
