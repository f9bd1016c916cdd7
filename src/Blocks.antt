-- ===== src/Blocks.antt =====
-- What a stream of content blocks means, whatever the vendor: pieces of text and reasoning are handed
-- on, and the block of a tool call becomes one call where it is closed. The meaning of an event is
-- read off the events before it; llm/anthropic/anthropic.go and llm/bedrock/bedrock.go keep a map
-- of open blocks instead.
pub mod Holds
pub mod Calls
pub mod Endings
use azoth.Base.{◌≡◌, Option, none, some, List, [], ◌∷◌, ◌++◌, if◌then◌else◌, is_empty}
use azoth.Base.Int.{ℤ, eqb_ℤ}
use azoth.Base.Text.{Text, codes}
use azoth.Chat.{Event, text_delta, reasoning_delta, tool_call_complete, usage_event}
use azoth.Message.Usage.{MessageUsage}
use azoth.ToolCall.{ToolCall}

-- The accumulator of a tool call.
pub record ToolAcc : Type 0 where
  pub id : Text
  pub name : Text
  pub input : Text

pub data Heard : Type 0 where
  opened : ℤ → Text → Text → Heard
  text_piece : Text → Heard
  reasoning_piece : Text → Heard
  input_piece : ℤ → Text → Heard
  closed : ℤ → Heard
  counted : MessageUsage → Heard
  ignored : Heard

abbrev pub open_call : Text → Text → ToolAcc
open_call id name = record { id = id; name = name; input = [] }

abbrev pub add_input : Text → ToolAcc → ToolAcc
add_input t a = record a { input = a.input ++ t }

abbrev pub add_to : Text → Option ToolAcc → Option ToolAcc
add_to t none = none
add_to t (some a) = some (add_input t a)

-- The call of a closed block; a call without input has an empty object.
abbrev pub call_of : ToolAcc → ToolCall
call_of a = record {
  id = a.id;
  kind = codes "function";
  function = record { name = a.name; arguments = if is_empty a.input then codes "{}" else a.input };
}

-- The call that is open at an index behind `past`, the newest event first.
abbrev pub open_at : ℤ → List Heard → Option ToolAcc
open_at i [] = none
open_at i (opened j id name ∷ past) = if eqb_ℤ j i then some (open_call id name) else open_at i past
open_at i (input_piece j t ∷ past) = if eqb_ℤ j i then add_to t (open_at i past) else open_at i past
open_at i (closed j ∷ past) = if eqb_ℤ j i then none else open_at i past
open_at i (text_piece t ∷ past) = open_at i past
open_at i (reasoning_piece t ∷ past) = open_at i past
open_at i (counted u ∷ past) = open_at i past
open_at i (ignored ∷ past) = open_at i past

module _ {E : Type 0} where
  abbrev pub call_events_of : Option ToolAcc → List (Event E)
  call_events_of none = []
  call_events_of (some a) = tool_call_complete (call_of a ∷ []) ∷ []

  -- What an event behind `past` makes the client send.
  abbrev pub sent_for : List Heard → Heard → List (Event E)
  sent_for past (opened i id name) = []
  sent_for past (text_piece t) = if is_empty t then [] else text_delta t ∷ []
  sent_for past (reasoning_piece t) = if is_empty t then [] else reasoning_delta t ∷ []
  sent_for past (input_piece i t) = []
  sent_for past (closed i) = call_events_of (open_at i past)
  sent_for past (counted u) = usage_event u ∷ []
  sent_for past ignored = []

  abbrev pub meaning : List Heard → List Heard → List (Event E)
  meaning past [] = []
  meaning past (h ∷ hs) = sent_for past h ++ meaning (h ∷ past) hs
