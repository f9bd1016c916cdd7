-- ===== src/Chat/Turn.antt =====
-- What a turn sends: its text, and the ending that goes with the way the loop ended.
use mathlib.Core.List.{append-nil}
use azoth.Base.{
  ◌≡◌, refl, sym, ap, ◌∙◌, true, false, Option, none, some, List, [], ◌∷◌, ◌++◌, ◌⊎◌, inl, inr, All,
  if-elim,
}
use azoth.Base.Text.{Text}
use azoth.ToolCall.{ToolCall, finalize}
use azoth.ToolCall.IntMap.{Table}
use azoth.Chat.{
  ChunkUsage, Chunk, StreamError, Event, done_event, error_event, StreamSettings, StreamState, Flow,
  going, aborted, failed, Arrival, finish, stream_loop, start, chat_stream,
}
use azoth.Chat.Said.{calls_said, usage_said, reason_said, usage_events-said, closing-said}
use azoth.Chat.Events.{is_usage_done, is_turn, IsDelta, has_calls, is_turn-append, has_calls-append}
use azoth.Chat.Steps.{IsStop, Holds, EndsWell, well_going, well_aborted, calls_read, usage_read}
use azoth.Chat.Loop.{stream_loop-LoopEnd}

usage_said-turn :
    (X : Type 0) (u : Option ChunkUsage) (r : Text)
    → (is_usage_done (usage_said {E = StreamError X} u ++ done_event r ∷ []) ≡ true)
      × (is_turn (usage_said {E = StreamError X} u ++ done_event r ∷ []) ≡ true)
usage_said-turn X none r = (refl, refl)
usage_said-turn X (some u) r = (refl, refl)

calls_said-turn :
    (X : Type 0) (cs : List ToolCall) (u : Option ChunkUsage) (r : Text)
    → is_turn (calls_said {E = StreamError X} cs ++ (usage_said u ++ done_event r ∷ [])) ≡ true
calls_said-turn X [] u r = (usage_said-turn X u r).1
calls_said-turn X (c ∷ cs) u r = (usage_said-turn X u r).0

no_calls :
    (X : Type 0) (u : Option ChunkUsage) (r : Text)
    → has_calls (usage_said {E = StreamError X} u ++ done_event r ∷ []) ≡ false
no_calls X none r = refl
no_calls X (some u) r = refl

module _ {X : Type 0} where
  -- Text, and one error.
  abbrev pub Fails : List (Event (StreamError X)) → Type 0
  Fails es =
      (ds : List (Event (StreamError X))) × (e : StreamError X) × All IsDelta ds
      × (es ≡ ds ++ error_event e ∷ [])

  module _ (J : Type 0) (marshal : J → Option Text) (decode : Text → X ⊎ Chunk J) where
    -- The loop was stopped, for a reason that the settings allow, behind some of the arrivals: text, the
    -- last usage of those, if there was one, and `EventDone`.
    abbrev pub Stops : StreamSettings → List Arrival → List (Event (StreamError X)) → Type 0
    Stops c arr es =
        (s : StreamState) × ((stream_loop J marshal decode c arr (start J marshal decode c)).flow
          ≡ aborted s)
        × IsStop c s.finish_reason
        × (ds : List (Event (StreamError X))) × (read : List Arrival) × (rest : List Arrival) × All
            IsDelta ds
        × (arr ≡ read ++ rest)
        × (es
            ≡ ds
              ++ (usage_said (usage_read J marshal decode none read)
                  ++ done_event s.finish_reason ∷ []))

    -- Text, the calls of all that arrived, if there are any, the last usage of all, if there was one, and
    -- `EventDone`.
    abbrev pub Completes : List Arrival → List (Event (StreamError X)) → Type 0
    Completes arr es =
        (ds : List (Event (StreamError X))) × (r : Text) × All IsDelta ds
        × (es ≡ (
            let calls = (finalize (calls_read J marshal decode [] arr)).1 in
            ds
            ++ (calls_said calls
                ++ (usage_said (usage_read J marshal decode none arr)
                    ++ done_event (reason_said calls r) ∷ []))))

    start-Holds : (c : StreamSettings) → Holds c none [] (start J marshal decode c)
    start-Holds c = record {
      armed =
          if-elim (λ o. (c.loop_guard ≡ true) ⊎ (o ≡ none)) c.loop_guard _ none (λ e. inl e)
            (λ e. inr refl);
      usage = refl;
      calls = refl;
    }

    -- The ending by the flow that the loop left.
    ended :
        (c : StreamSettings) (arr : List Arrival) (err : Option X)
        (ds : List (Event (StreamError X))) (f : Flow X) (read rest : List Arrival)
        → (stream_loop J marshal decode c arr (start J marshal decode c)).flow ≡ f
        → All IsDelta ds
        → arr ≡ read ++ rest
        → EndsWell c (usage_read J marshal decode none read) (calls_read J marshal decode [] read) f
        → ((s : StreamState) → f ≡ going s → rest ≡ [])
        → Fails (ds ++ finish f err)
          ⊎ Stops c arr (ds ++ finish f err)
          ⊎ ((err ≡ none) × Completes arr (ds ++ finish f err))
    unfolding finish
    ended c arr (some e) ds (going s) read rest q h p w g = inl (ds, _, h, refl)
    ended c arr none ds (going s) read rest q h p (well_going _ x) g =
        let all : read ≡ arr = sym (p ∙ ap (λ l. read ++ l) (g s refl) ∙ append-nil read) in
        inr (
          inr (
            refl,
            (
              ds,
              s.finish_reason,
              h,
              ap (λ es. ds ++ es)
                  (closing-said X (finalize s.acc).1 s.last_usage s.finish_reason
                    ∙ ap
                        (λ (o : Table ToolCall).
                          calls_said (finalize o).1
                          ++ (usage_said s.last_usage
                              ++ done_event (reason_said (finalize o).1 s.finish_reason) ∷ []))
                        (x.calls ∙ ap (calls_read J marshal decode []) all)
                    ∙ ap
                        (λ o.
                          calls_said (finalize (calls_read J marshal decode [] arr)).1
                          ++ (usage_said o
                              ++ done_event (
                                  reason_said (finalize (calls_read J marshal decode [] arr)).1
                                    s.finish_reason)
                                ∷ []))
                        (x.usage ∙ ap (usage_read J marshal decode none) all)),
            ),
          ))
    ended c arr err ds (aborted s) read rest q h p (well_aborted _ x y) g = inr (
        inl (
          s,
          q,
          x,
          ds,
          read,
          rest,
          h,
          p,
          ap (λ es. ds ++ (es ++ done_event s.finish_reason ∷ []))
              (usage_events-said X s.last_usage ∙ ap usage_said y),
        ))
    ended c arr err ds (failed e) read rest q h p w g = inl (ds, e, h, refl)

    pub chat_stream-turn :
        (c : StreamSettings) (arrivals : List Arrival) (err : Option X)
        → Fails (chat_stream J marshal decode c arrivals err)
          ⊎ Stops c arrivals (chat_stream J marshal decode c arrivals err)
          ⊎ ((err ≡ none) × Completes arrivals (chat_stream J marshal decode c arrivals err))
    unfolding chat_stream
    chat_stream-turn c arrivals err =
        let w =
          stream_loop-LoopEnd J marshal decode c arrivals none [] (start J marshal decode c)
            (start-Holds c) in
        ended c arrivals err _ _ w.read w.rest refl w.deltas w.split w.reason w.whole

    error_is_last :
        (es : List (Event (StreamError X)))
        → Fails es
        → (is_turn es ≡ true) × (has_calls es ≡ false)
    error_is_last es (ds, e, h, q) =
        (ap is_turn q ∙ is_turn-append ds _ h refl, ap has_calls q ∙ has_calls-append ds _ h)

    stop_is_last :
        (c : StreamSettings) (arr : List Arrival) (es : List (Event (StreamError X)))
        → Stops c arr es
        → (is_turn es ≡ true) × (has_calls es ≡ false)
    stop_is_last c arr es (s, f, w, ds, read, rest, h, p, q) = (
      ap is_turn q ∙ is_turn-append ds _ h (usage_said-turn X _ s.finish_reason).1,
      ap has_calls q ∙ has_calls-append ds _ h ∙ no_calls X _ s.finish_reason,
    )

    -- The events follow the grammar of a turn.
    pub chat_stream-grammar :
        (c : StreamSettings) (arrivals : List Arrival) (err : Option X)
        → is_turn (chat_stream J marshal decode c arrivals err) ≡ true
    chat_stream-grammar c arrivals err = elim (chat_stream-turn c arrivals err) [
      | inl x ↦ (error_is_last _ x).0
      | inr y ↦ elim y [
        | inl z ↦ (stop_is_last c arrivals _ z).0
        | inr (n, (ds, r, h, q)) ↦ ap is_turn q ∙ is_turn-append ds _ h (calls_said-turn X _ _ _)
      ]
    ]

    pub chat_stream-broken :
        (c : StreamSettings) (arrivals : List Arrival) (e : X)
        → (has_calls (chat_stream J marshal decode c arrivals (some e)) ≡ false)
          × (Fails (chat_stream J marshal decode c arrivals (some e))
              ⊎ Stops c arrivals (chat_stream J marshal decode c arrivals (some e)))
    chat_stream-broken c arrivals e = elim (chat_stream-turn c arrivals (some e)) [
      | inl x ↦ ((error_is_last _ x).1, inl x)
      | inr y ↦ elim y [ inl z ↦ ((stop_is_last c arrivals _ z).1, inr z) | inr (n, q) ↦ absurd cc ]
    ]
