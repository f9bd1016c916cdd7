-- ===== src/Vertex/Stream/Endings.antt =====
-- How many endings a turn of the Vertex adapter has.
use azoth.Base.{
  ℕ, ◌+◌, ◌≡◌, refl, ap, ◌∙◌, Bool, true, false, not, ◌||◌, Bool-cases, Option, none, some, List,
  [], ◌∷◌, ◌++◌, ◌⊎◌, inl, inr, arith, if◌then◌else◌, is_empty, if_true, if_false,
}
use azoth.Base.Text.{Text}
use azoth.Blocks.Endings.{is_end}
use azoth.Chat.{Event, text_delta, reasoning_delta}
use azoth.Message.Usage.{MessageUsage}
use azoth.Transport.Errors.{GoError}
use azoth.Vertex.Stream.{
  FinishReason, FunctionCall, Part, Candidate, Response, VertexError, StreamState, Walk, silent,
  and_walk, with_reason, sent_call, sent_part, part_walk, parts_walk, content_walk, candidate_walk,
  candidates_walk, response_walk, stream_walk, usage_sent, last_event, closing_events, new_state,
  vertex_events,
}

abbrev pub endings : {E : Type 0} → List (Event E) → ℕ
endings [] = 0
endings (e ∷ es) = (if is_end e then 1 else 0) + endings es

endings-append :
    {E : Type 0} (es fs : List (Event E)) → endings (es ++ fs) ≡ endings es + endings fs
endings-append [] fs = omega arith
endings-append (e ∷ es) fs = let h = endings-append es fs in omega (arith, h)

zero_add : (n : ℕ) → 0 + n ≡ n
zero_add n = omega arith

-- A walk that sends one ending and stops if it meets what is broken, and otherwise sends none.
record Breaks (b : Bool) (w : Walk) : Type 0 where
  count : endings w.events ≡ (if b then 1 else 0)
  stops : w.more ≡ not b

counts :
    (b c : Bool) (w : Walk) (k : StreamState → Walk)
    → Breaks b w
    → ((s : StreamState) → endings (k s).events ≡ (if c then 1 else 0))
    → endings (and_walk w k).events ≡ (if b || c then 1 else 0)
counts true c w k h g = ap (λ (x : Walk). endings x.events) (if_false _ _ h.stops) ∙ h.count
counts false c w k h g =
    ap (λ (x : Walk). endings x.events) (if_true _ _ h.stops)
    ∙ endings-append w.events (k w.state).events
    ∙ ap (λ n. n + endings (k w.state).events) h.count
    ∙ zero_add (endings (k w.state).events)
    ∙ g w.state

and_walk-Breaks :
    (b c : Bool) (w : Walk) (k : StreamState → Walk)
    → Breaks b w
    → ((s : StreamState) → Breaks c (k s))
    → Breaks (b || c) (and_walk w k)
and_walk-Breaks true c w k h g = record {
  count = counts true c w k h (λ s. (g s).count);
  stops = ap (λ (x : Walk). x.more) (if_false _ _ h.stops) ∙ h.stops;
}
and_walk-Breaks false c w k h g = record {
  count = counts false c w k h (λ s. (g s).count);
  stops = ap (λ (x : Walk). x.more) (if_true _ _ h.stops) ∙ (g w.state).stops;
}

silent-Breaks : (s : StreamState) → Breaks false (silent s)
silent-Breaks s = record { count = refl; stops = refl }

module _ {A : Type 0} (marshal : A → Option Text) where
  abbrev pub unencodable : Option Text → Bool
  unencodable none = true
  unencodable (some t) = false

  abbrev pub broken_call : Option (FunctionCall A) → Bool
  broken_call none = false
  broken_call (some fc) = unencodable (marshal fc.args)

  abbrev pub broken_part : Option (Part A) → Bool
  broken_part none = false
  broken_part (some p) = broken_call p.function_call

  abbrev pub broken_parts : List (Option (Part A)) → Bool
  broken_parts [] = false
  broken_parts (p ∷ ps) = broken_part p || broken_parts ps

  abbrev pub broken_content : Option (List (Option (Part A))) → Bool
  broken_content none = false
  broken_content (some ps) = broken_parts ps

  abbrev pub broken_candidate : Option (Candidate A) → Bool
  broken_candidate none = false
  broken_candidate (some c) = broken_content c.content

  abbrev pub broken_candidates : List (Option (Candidate A)) → Bool
  broken_candidates [] = false
  broken_candidates (c ∷ cs) = broken_candidate c || broken_candidates cs

  -- Whether a call whose arguments cannot be encoded arrives, in front of any error of the stream.
  abbrev pub broken : List (GoError ⊎ Response A) → Bool
  broken [] = false
  broken (inl e ∷ rs) = false
  broken (inr r ∷ rs) = broken_candidates r.candidates || broken rs

  sent_call-Breaks :
      (fc : FunctionCall A) (o : Option Text) (s : StreamState)
      → Breaks (unencodable o) (sent_call marshal fc o s)
  sent_call-Breaks fc none s = record { count = refl; stops = refl }
  sent_call-Breaks fc (some t) s = record { count = refl; stops = refl }

  piece-Breaks :
      (t : Text) (b : Bool) (s : StreamState)
      → Breaks false (
          if is_empty t then silent s else record {
            state = s;
            events = (if b then reasoning_delta t else text_delta t) ∷ [];
            more = true;
          })
  piece-Breaks [] b s = silent-Breaks s
  piece-Breaks (x ∷ t) true s = record { count = refl; stops = refl }
  piece-Breaks (x ∷ t) false s = record { count = refl; stops = refl }

  sent_part-Breaks :
      (o : Option (FunctionCall A)) (p : Part A) (s : StreamState)
      → Breaks (broken_call o) (sent_part marshal o p s)
  sent_part-Breaks none p s = piece-Breaks p.text p.thought s
  sent_part-Breaks (some fc) p s = sent_call-Breaks fc (marshal fc.args) s

  part_walk-Breaks :
      (p : Option (Part A)) (s : StreamState) → Breaks (broken_part p) (part_walk marshal p s)
  part_walk-Breaks none s = silent-Breaks s
  part_walk-Breaks (some p) s = sent_part-Breaks p.function_call p s

  parts_walk-Breaks :
      (ps : List (Option (Part A))) (s : StreamState)
      → Breaks (broken_parts ps) (parts_walk marshal ps s)
  unfolding parts_walk
  parts_walk-Breaks [] s = silent-Breaks s
  parts_walk-Breaks (p ∷ ps) s =
      and_walk-Breaks (broken_part p) (broken_parts ps) _ _ (part_walk-Breaks p s)
        (λ s'. parts_walk-Breaks ps s')

  content_walk-Breaks :
      (c : Option (List (Option (Part A)))) (s : StreamState)
      → Breaks (broken_content c) (content_walk marshal c s)
  content_walk-Breaks none s = silent-Breaks s
  content_walk-Breaks (some ps) s = parts_walk-Breaks ps s

  candidate_walk-Breaks :
      (c : Option (Candidate A)) (s : StreamState)
      → Breaks (broken_candidate c) (candidate_walk marshal c s)
  candidate_walk-Breaks none s = silent-Breaks s
  candidate_walk-Breaks (some c) s = content_walk-Breaks c.content (with_reason c.finish_reason s)

  candidates_walk-Breaks :
      (cs : List (Option (Candidate A))) (s : StreamState)
      → Breaks (broken_candidates cs) (candidates_walk marshal cs s)
  unfolding candidates_walk
  candidates_walk-Breaks [] s = silent-Breaks s
  candidates_walk-Breaks (c ∷ cs) s =
      and_walk-Breaks (broken_candidate c) (broken_candidates cs) _ _ (candidate_walk-Breaks c s)
        (λ s'. candidates_walk-Breaks cs s')

  stream_walk-endings :
      (rs : List (GoError ⊎ Response A)) (s : StreamState)
      → endings (stream_walk marshal rs s).events ≡ (if broken rs then 1 else 0)
  unfolding stream_walk response_walk
  stream_walk-endings [] s = refl
  stream_walk-endings (inl e ∷ rs) s = refl
  stream_walk-endings (inr r ∷ rs) s =
      counts (broken_candidates r.candidates) (broken rs) _ (stream_walk marshal rs)
        (candidates_walk-Breaks r.candidates _) (λ s'. stream_walk-endings rs s')

  last_event-ends : (fr : FinishReason) (msg : Text) → is_end (last_event marshal fr msg) ≡ true
  last_event-ends fr [] = refl
  last_event-ends fr (c ∷ msg) = refl

  usage_sent-endings :
      (u : Option MessageUsage) (e : Event VertexError)
      → is_end e ≡ true
      → endings (usage_sent marshal u ++ (e ∷ [])) ≡ 1
  usage_sent-endings none e h = rw h refl
  usage_sent-endings (some u) e h = rw h refl

  closing_events-endings :
      (err : Option GoError) (s : StreamState) → endings (closing_events marshal err s) ≡ 1
  unfolding closing_events
  closing_events-endings (some err) s = refl
  closing_events-endings none s =
      usage_sent-endings s.last_usage _ (last_event-ends s.finish_reason _)

  -- A turn has exactly one ending, `EventDone` or an error, unless a call arrives whose arguments cannot
  -- be encoded: the error for it is followed by a second ending.
  pub vertex_events-endings :
      (rs : List (GoError ⊎ Response A))
      → endings (vertex_events marshal rs) ≡ (if broken rs then 2 else 1)
  unfolding vertex_events
  vertex_events-endings rs =
      let w = stream_walk marshal rs (new_state marshal) in
      let sent = stream_walk-endings rs (new_state marshal) in
      let last = closing_events-endings w.state.stream_err w.state in
      endings-append w.events (closing_events marshal w.state.stream_err w.state)
      ∙ rw (sent, last) (elim (Bool-cases (broken rs)) [ inl e ↦ rw e refl | inr e ↦ rw e refl ])
