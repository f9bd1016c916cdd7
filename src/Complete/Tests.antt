-- ===== src/Complete/Tests.antt =====
-- Completions of a plain turn, of one with a tool call, and of one that broke.
use azoth.Base.{ℕ, ◌≡◌, refl, true, false, Option, none, some, List, [], ◌∷◌, ◌⊎◌, inl, inr}
use azoth.Base.Int.{pos}
use azoth.Base.Text.{Text, codes, decimal}
use azoth.Chat.{
  Chunk, Event, text_delta, reasoning_delta, done_event, error_event, StreamSettings, Arrival,
  payload, chat_stream, finish,
}
use azoth.Base.Utf8.{runes}
use azoth.Chat.Turn.{Stops}
use azoth.Complete.{stream_failed, no_usage, complete}
use azoth.Complete.Answer.{answer, all_text, complete_lem, complete-broken}

abbrev said : List (Event Text)
said =
    reasoning_delta (codes "hm")
    ∷ text_delta (codes "a")
    ∷ text_delta (codes "b")
    ∷ done_event []
    ∷ []

answers : complete (inr said) ≡ inr (codes "ab", no_usage)
unfolding complete
answers = refl

abbrev broken : List (Event Text)
broken = text_delta (codes "a") ∷ error_event (codes "reset") ∷ []

fails : complete (inr broken) ≡ inl (stream_failed (codes "reset"))
unfolding complete
fails = refl

complete_lem_example :
    (complete (inr said) ≡ answer said)
    × (complete {E = Text} (inl (codes "refused")) ≡ inl (stream_failed (codes "refused")))
complete_lem_example = complete_lem said (codes "refused")

abbrev settings : StreamSettings
settings = record { stall_timeout = pos 0; loop_guard = true; reasoning_budget = pos 0 }

abbrev encode : ℕ → Option Text
encode n = some (decimal n)

-- Every payload is a chunk with itself as its text.
abbrev decode : Text → Text ⊎ Chunk ℕ
decode t = inr (record {
  choices =
      record {
        delta = record { content = t; reasoning_content = []; tool_calls = [] };
        finish_reason = [];
      }
      ∷ [];
  usage = none;
})

abbrev arrivals : List Arrival
arrivals = payload (codes "a") ∷ payload (codes "b") ∷ []

-- A reasoning budget of one rune, spent by the first payload; the response breaks behind it.
abbrev tight : StreamSettings
tight = record { stall_timeout = pos 0; loop_guard = false; reasoning_budget = pos 1 }

abbrev think : Text → Text ⊎ Chunk ℕ
think t = inr (record {
  choices =
      record {
        delta = record { content = []; reasoning_content = t; tool_calls = [] };
        finish_reason = [];
      }
      ∷ [];
  usage = none;
})

stopped_answer :
    complete
      (inr (chat_stream ℕ encode think tight (payload (codes "hm") ∷ []) (some (codes "reset"))))
    ≡ inr ([], no_usage)
unfolding complete chat_stream finish runes
stopped_answer = refl

complete-broken_example :
    Stops ℕ encode think tight
      (payload (codes "hm") ∷ [])
      (chat_stream ℕ encode think tight (payload (codes "hm") ∷ []) (some (codes "reset")))
    × ([]
        ≡ all_text
            (chat_stream ℕ encode think tight (payload (codes "hm") ∷ []) (some (codes "reset"))))
complete-broken_example =
    complete-broken Text ℕ encode think tight (payload (codes "hm") ∷ []) (codes "reset") []
      no_usage stopped_answer
