-- ===== src/Chat/Plain.antt =====
-- A turn that nothing disturbs, against a description of it over the whole list of chunks.
use azoth.Base.{
  ℕ, ◌≡◌, refl, sym, ap, ◌∙◌, Bool, true, false, Option, none, some, List, [], ◌∷◌, ◌++◌, ◌⊎◌, inr,
  if◌then◌else◌, is_empty, map, All,
}
use mathlib.Core.List.{append_assoc, append-nil}
use azoth.Base.Int.{pos, ltb_ℤ}
use azoth.Base.Text.{Text, text_eq}
use azoth.ToolCall.{ToolCall, DtCall, merge, finalize}
use azoth.ToolCall.IntMap.{Table}
use azoth.ToolCall.Merge.{merge_parts}
use azoth.Sse.{event_prefix, done_marker}
use azoth.Sse.Events.{events, parse_sse_stream}
use azoth.Chat.Steps.{last_of}
use azoth.Chat.Said.{closing-said, calls_said, usage_said, reason_said}
use azoth.Chat.{
  Choice, ChunkUsage, Chunk, StreamError, Event, text_delta, reasoning_delta, done_event,
  StreamSettings, StreamState, keep_usage, going, Stretch, and_then, check_budget, reasoning_step,
  content_step, finish, merged, tools_step, choice_step, choices_step, chunk_step, stream_loop,
  chat_stream, payloads, chat_body,
}

-- A state without a detector.
abbrev quiet : Table ToolCall → Option ChunkUsage → Text → Bool → ℕ → Bool → StreamState
quiet acc u r st n a = record {
  acc = acc;
  detector = none;
  last_usage = u;
  finish_reason = r;
  started = st;
  reasoning_runes = n;
  acting = a;
}

cons_parts : {A : Type 0} {x y : A} {xs ys : List A} → x ∷ xs ≡ y ∷ ys → (x ≡ y) × (xs ≡ ys)
cons_parts h = (cc, cc)

module _ {X : Type 0} where
  abbrev reasoning_events : Text → List (Event (StreamError X))
  reasoning_events t = if is_empty t then [] else reasoning_delta t ∷ []

  abbrev text_events : Text → List (Event (StreamError X))
  text_events t = if is_empty t then [] else text_delta t ∷ []

  abbrev on : List (Event (StreamError X)) → StreamState → Stretch X
  on es s = record { events = es; flow = going s }

  on-and_then :
      (q : Stretch X) (k : StreamState → Stretch X) (es fs : List (Event (StreamError X)))
      (s s' : StreamState)
      → q ≡ on es s
      → k s ≡ on fs s'
      → and_then q k ≡ on (es ++ fs) s'
  on-and_then q k es fs s s' first second =
      ap (λ q. and_then q k) first
      ∙ ap (λ (p : Stretch X). record { events = es ++ p.events; flow = p.flow }) second

  on-and_then_silent :
      (q : Stretch X) (k : StreamState → Stretch X) (es : List (Event (StreamError X)))
      (s s' : StreamState)
      → q ≡ on es s
      → k s ≡ on [] s'
      → and_then q k ≡ on es s'
  on-and_then_silent q k es s s' first second =
      on-and_then q k es [] s s' first second ∙ ap (λ es. on es s') (append-nil es)

  module _ (c : StreamSettings) (free : ltb_ℤ (pos 0) c.reasoning_budget ≡ false) where
    check_budget-free : (s : StreamState) (t : Text) → check_budget {X = X} c s t ≡ going s
    unfolding check_budget
    check_budget-free s t = rw free refl

    reasoning_step-quiet :
        (t : Text) (acc : Table ToolCall) (u : Option ChunkUsage) (r : Text) (st : Bool) (n : ℕ)
        (a : Bool)
        → reasoning_step c t (quiet acc u r st n a) ≡ on (reasoning_events t) (quiet acc u r st n a)
    unfolding reasoning_step
    reasoning_step-quiet [] acc u r st n a = refl
    reasoning_step-quiet (x ∷ t) acc u r st n a =
        ap (λ f. record { events = reasoning_delta (x ∷ t) ∷ []; flow = f })
          (check_budget-free (quiet acc u r st n a) (x ∷ t))

  content_step-quiet :
      (t : Text) (acc : Table ToolCall) (u : Option ChunkUsage) (r : Text) (st : Bool) (n : ℕ)
      (a : Bool)
      → content_step t (quiet acc u r st n a)
        ≡ on (text_events t) (quiet acc u r st n (if is_empty t then a else true))
  unfolding content_step
  content_step-quiet [] acc u r st n a = refl
  content_step-quiet (x ∷ t) acc u r st n a = refl

-- What the choices of a turn say, one after the other.
module _ {J : Type 0} where
  abbrev pub choice_texts : {X : Type 0} → List (Choice J) → List (Event (StreamError X))
  choice_texts [] = []
  choice_texts (ch ∷ chs) =
      (reasoning_events ch.delta.reasoning_content ++ text_events ch.delta.content)
      ++ choice_texts chs

  abbrev pub choice_calls : List (Choice J) → List (DtCall J)
  choice_calls [] = []
  choice_calls (ch ∷ chs) = ch.delta.tool_calls ++ choice_calls chs

  abbrev pub choice_reason : Text → List (Choice J) → Text
  choice_reason r [] = r
  choice_reason r (ch ∷ chs) =
      choice_reason (if is_empty ch.finish_reason then r else ch.finish_reason) chs

  abbrev pub all_choices : List (Chunk J) → List (Choice J)
  all_choices [] = []
  all_choices (k ∷ ks) = k.choices ++ all_choices ks

  abbrev pub chunks_usage : Option ChunkUsage → List (Chunk J) → Option ChunkUsage
  chunks_usage u [] = u
  chunks_usage u (k ∷ ks) = chunks_usage (last_of u k.usage) ks

  abbrev acts : Bool → List (Choice J) → Bool
  acts a [] = a
  acts a (ch ∷ chs) =
      acts
        (if is_empty ch.delta.tool_calls
          then (if is_empty ch.delta.content then a else true)
          else true)
        chs

  choice_texts-append :
      {X : Type 0} (xs ys : List (Choice J))
      → choice_texts {X = X} (xs ++ ys) ≡ choice_texts xs ++ choice_texts ys
  choice_texts-append {X = X} [] ys = refl
  choice_texts-append {X = X} (x ∷ xs) ys = simp (choice_texts-append {X = X} xs ys, append_assoc)

  choice_calls-append :
      (xs ys : List (Choice J)) → choice_calls (xs ++ ys) ≡ choice_calls xs ++ choice_calls ys
  choice_calls-append [] ys = refl
  choice_calls-append (x ∷ xs) ys = simp (choice_calls-append xs ys, append_assoc)

  choice_reason-append :
      (xs ys : List (Choice J)) (r : Text)
      → choice_reason r (xs ++ ys) ≡ choice_reason (choice_reason r xs) ys
  choice_reason-append [] ys r = refl
  choice_reason-append (x ∷ xs) ys r = choice_reason-append xs ys _

module _ {X : Type 0} (J : Type 0) (marshal : J → Option Text) (decode : Text → X ⊎ Chunk J) where
  merged-ok :
      (s : StreamState) (r : Table ToolCall × Bool)
      → r.1 ≡ true
      → merged J marshal decode s r ≡ going (record s { acc = r.0; acting = true })
  merged-ok s (acc, true) h = refl
  merged-ok s (acc, false) h = cc

  tools_step-quiet :
      (ds : List (DtCall J)) (acc : Table ToolCall) (u : Option ChunkUsage) (r : Text) (st : Bool)
      (n : ℕ) (a : Bool)
      → (merge J marshal acc ds).1 ≡ true
      → tools_step J marshal decode ds (quiet acc u r st n a)
        ≡ on [] (quiet (merge J marshal acc ds).0 u r st n (if is_empty ds then a else true))
  unfolding tools_step merge
  tools_step-quiet [] acc u r st n a h = refl
  tools_step-quiet (d ∷ ds) acc u r st n a h =
      ap (λ f. record { events = []; flow = f })
        (merged-ok (quiet acc u r st n a) (merge J marshal acc (d ∷ ds)) h)

  module _ (c : StreamSettings) (free : ltb_ℤ (pos 0) c.reasoning_budget ≡ false) where
    choice_step-quiet :
        (ch : Choice J) (acc : Table ToolCall) (u : Option ChunkUsage) (r : Text) (st : Bool)
        (n : ℕ) (a : Bool)
        → (merge J marshal acc ch.delta.tool_calls).1 ≡ true
        → choice_step J marshal decode c ch (quiet acc u r st n a)
          ≡ on (reasoning_events ch.delta.reasoning_content ++ text_events ch.delta.content) (
              quiet
                (merge J marshal acc ch.delta.tool_calls).0
                u
                (choice_reason r (ch ∷ []))
                st
                n
                (acts a (ch ∷ [])))
    unfolding choice_step
    choice_step-quiet ch acc u r st n a h =
        on-and_then _ _ _ _ _ _
          (reasoning_step-quiet c free ch.delta.reasoning_content acc u (choice_reason r (ch ∷ []))
            st n a)
          (on-and_then_silent _ _ _ _ _
            (content_step-quiet ch.delta.content acc u (choice_reason r (ch ∷ [])) st n a)
            (tools_step-quiet ch.delta.tool_calls acc u _ st n _ h))

    choices_step-quiet :
        (chs : List (Choice J)) (acc : Table ToolCall) (u : Option ChunkUsage) (r : Text)
        (st : Bool) (n : ℕ) (a : Bool)
        → (merge J marshal acc (choice_calls chs)).1 ≡ true
        → choices_step J marshal decode c chs (quiet acc u r st n a)
          ≡ on (choice_texts chs) (
              quiet
                (merge J marshal acc (choice_calls chs)).0
                u
                (choice_reason r chs)
                st
                n
                (acts a chs))
    unfolding choices_step merge
    choices_step-quiet [] acc u r st n a h = refl
    choices_step-quiet (ch ∷ chs) acc u r st n a h =
        let (ok, ok', parts) = merge_parts J marshal acc ch.delta.tool_calls (choice_calls chs) h in
        on-and_then _ _ _ _ _ _ (choice_step-quiet ch acc u r st n a ok)
          (choices_step-quiet chs _ u _ st n _ ok')
        ∙ ap
            (λ (q : Table ToolCall × Bool).
              on (choice_texts (ch ∷ chs))
                (quiet q.0 u (choice_reason r (ch ∷ chs)) st n (acts a (ch ∷ chs))))
            (sym parts)

    keep_usage-quiet :
        (o : Option ChunkUsage) (acc : Table ToolCall) (u : Option ChunkUsage) (r : Text)
        (st : Bool) (n : ℕ) (a : Bool)
        → keep_usage J marshal decode o (quiet acc u r st n a) ≡ quiet acc (last_of u o) r st n a
    keep_usage-quiet none acc u r st n a = refl
    keep_usage-quiet (some v) acc u r st n a = refl

    chunk_step-quiet :
        (k : Chunk J) (acc : Table ToolCall) (u : Option ChunkUsage) (r : Text) (st : Bool) (n : ℕ)
        (a : Bool)
        → (merge J marshal acc (choice_calls k.choices)).1 ≡ true
        → chunk_step J marshal decode c (inr k) (quiet acc u r st n a)
          ≡ on (choice_texts k.choices) (
              quiet
                (merge J marshal acc (choice_calls k.choices)).0
                (last_of u k.usage)
                (choice_reason r k.choices)
                st
                n
                (acts a k.choices))
    unfolding chunk_step
    chunk_step-quiet k acc u r st n a h =
        on-and_then_silent _ _ _ _ _ (choices_step-quiet k.choices acc u r st n a h)
          (ap (on []) (keep_usage-quiet k.usage _ u _ st n _))

    -- The events of the loop, and what it leaves for the ending.
    stream_loop-quiet :
        (ps : List Text) (ks : List (Chunk J)) (acc : Table ToolCall) (u : Option ChunkUsage)
        (r : Text) (st : Bool) (n : ℕ) (a : Bool)
        → map decode ps ≡ map inr ks
        → (merge J marshal acc (choice_calls (all_choices ks))).1 ≡ true
        → (started' acts' : Bool) × (stream_loop J marshal decode c
              (payloads J marshal decode ps)
              (quiet acc u r st n a)
            ≡ on (choice_texts (all_choices ks)) (
                quiet
                  (merge J marshal acc (choice_calls (all_choices ks))).0
                  (chunks_usage u ks)
                  (choice_reason r (all_choices ks))
                  started'
                  n
                  acts'))
    unfolding stream_loop merge
    stream_loop-quiet [] [] acc u r st n a d h = (st, a, refl)
    stream_loop-quiet [] (k ∷ ks) acc u r st n a d h = absurd cc
    stream_loop-quiet (p ∷ ps) [] acc u r st n a d h = absurd cc
    stream_loop-quiet (p ∷ ps) (k ∷ ks) acc u r st n a d h =
        let (d0, d') = cons_parts d in
        let split = choice_calls-append k.choices (all_choices ks) in
        let (ok, ok', parts) =
          merge_parts J marshal acc (choice_calls k.choices) (choice_calls (all_choices ks))
            (ap (λ ds. (merge J marshal acc ds).1) (sym split) ∙ h) in
        let (st', a', same) =
          stream_loop-quiet ps ks (merge J marshal acc (choice_calls k.choices)).0
            (last_of u k.usage) (choice_reason r k.choices) true n (acts a k.choices) d' ok' in
        (
          st',
          a',
          ap
                (λ q.
                  and_then (chunk_step J marshal decode c q (quiet acc u r true n a))
                    (λ s. stream_loop J marshal decode c (payloads J marshal decode ps) s))
                d0
              ∙ on-and_then _ _ _ _ _ _ (chunk_step-quiet k acc u r true n a ok) same
              ∙ rw
                  (
                    choice_texts-append {X = X} k.choices (all_choices ks),
                    split,
                    parts,
                    choice_reason-append k.choices (all_choices ks) r,
                  )
                  refl,
        )

    -- Without a loop guard and a reasoning budget, a response that never falls silent for the stall
    -- timeout, whose payloads decode to chunks that merge, none of them the end marker, and that is
    -- closed by the marker, is handed out whole: the
    -- reasoning and the text of every choice in order, the calls that all deltas together make up,
    -- the last usage, and `EventDone` with the last reason, or "tool_calls" where there is none and
    -- there are calls. Nothing behind the marker is read, and the reader's error does not count.
    pub chat_body-plain :
        (off : c.loop_guard ≡ false) (ps rest : List Text) (ks : List (Chunk J)) (err : Option X)
        → map decode ps ≡ map inr ks
        → All (λ p. text_eq p done_marker ≡ false) ps
        → (merge J marshal [] (choice_calls (all_choices ks))).1 ≡ true
        → chat_body J marshal decode c (events ps ++ ((event_prefix ++ done_marker) ∷ rest)) err ≡ (
            let calls = (finalize (merge J marshal [] (choice_calls (all_choices ks))).0).1 in
            choice_texts (all_choices ks)
            ++ (calls_said calls
                ++ (usage_said (chunks_usage none ks)
                    ++ done_event (reason_said calls (choice_reason [] (all_choices ks))) ∷ [])))
    unfolding chat_body chat_stream finish
    chat_body-plain off ps rest ks err d clean h =
        let (same, closed, x, y) = parse_sse_stream ps rest err clean in
        let (st, a, run) = stream_loop-quiet ps ks [] none [] false 0 false d h in
        let calls : List ToolCall =
          (finalize (merge J marshal [] (choice_calls (all_choices ks))).0).1 in
        rw (same, closed, off, run)
          (ap (λ es. choice_texts (all_choices ks) ++ es)
            (closing-said X calls (chunks_usage none ks) (choice_reason [] (all_choices ks))))
