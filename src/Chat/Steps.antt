-- ===== src/Chat/Steps.antt =====
-- What each part of the stream loop sends and keeps: deltas alone, the last usage and the merged calls
-- of what was read, and a stop only for a reason that the settings allow.
use azoth.Base.{
  ◌+◌, ◌≡◌, refl, Bool, true, false, not, ◌&&◌, Option, none, some, List, [], ◌∷◌, ◌⊎◌, inl, inr,
  if◌then◌else◌, length, All, All-append, if-elim, subst,
}
use azoth.Base.Int.{pos, ltb_ℤ}
use azoth.Base.Text.{Text}
use azoth.Base.Utf8.{runes}
use azoth.LoopGuard.{Detector}
use azoth.ToolCall.{ToolCall, DtCall, merge}
use azoth.ToolCall.IntMap.{Table}
use azoth.Chat.{
  Choice, ChunkUsage, Chunk, StreamError, Event, StreamSettings, StreamState, Flow, going, aborted,
  failed, Stretch, Arrival, payload, silence, finish_repetition, finish_stall,
  finish_reasoning_budget, guard_text, guard_reasoning, abort, go_on, continue_from, and_then,
  check_budget, reasoning_step, content_step, merged, tools_step, choice_step, choices_step,
  keep_usage,
}
use azoth.Chat.Events.{IsDelta, IsAbortReason}

-- A reason of the client itself, whose setting is on.
abbrev pub IsStop : StreamSettings → Text → Type 0
IsStop c r =
    ((r ≡ finish_repetition) × (c.loop_guard ≡ true))
    ⊎ ((r ≡ finish_stall) × (ltb_ℤ (pos 0) c.stall_timeout ≡ true))
    ⊎ ((r ≡ finish_reasoning_budget) × (ltb_ℤ (pos 0) c.reasoning_budget ≡ true))

pub IsStop-IsAbortReason : (c : StreamSettings) (r : Text) → IsStop c r → IsAbortReason r
IsStop-IsAbortReason c r (inl h) = inl h.0
IsStop-IsAbortReason c r (inr (inl h)) = inr (inl h.0)
IsStop-IsAbortReason c r (inr (inr h)) = inr (inr h.0)

pub and_left : (x y : Bool) → (x && y) ≡ true → x ≡ true
and_left true y h = refl
and_left false y h = absurd cc

abbrev pub last_of : Option ChunkUsage → Option ChunkUsage → Option ChunkUsage
last_of u none = u
last_of u (some v) = some v

-- A detector is there only if the guard is on.
abbrev pub Armed : Bool → Option Detector → Type 0
Armed g o = (g ≡ true) ⊎ (o ≡ none)

guard_text-Armed :
    (g : Bool) (o : Option Detector) (t : Text) → Armed g o → Armed g (guard_text o t).0
guard_text-Armed g none t h = inr refl
guard_text-Armed g (some d) t (inl x) = inl x
guard_text-Armed g (some d) t (inr x) = absurd cc

guard_text_tripped :
    (g : Bool) (o : Option Detector) (t : Text) → Armed g o → (guard_text o t).1 ≡ true → g ≡ true
guard_text_tripped g none t h e = absurd cc
guard_text_tripped g (some d) t (inl x) e = x
guard_text_tripped g (some d) t (inr x) e = absurd cc

guard_reasoning-Armed :
    (g : Bool) (o : Option Detector) (t : Text) → Armed g o → Armed g (guard_reasoning o t).0
guard_reasoning-Armed g none t h = inr refl
guard_reasoning-Armed g (some d) t (inl x) = inl x
guard_reasoning-Armed g (some d) t (inr x) = absurd cc

guard_reasoning_tripped :
    (g : Bool) (o : Option Detector) (t : Text)
    → Armed g o
    → (guard_reasoning o t).1 ≡ true
    → g ≡ true
guard_reasoning_tripped g none t h e = absurd cc
guard_reasoning_tripped g (some d) t (inl x) e = x
guard_reasoning_tripped g (some d) t (inr x) e = absurd cc

-- A state with the usage and the calls that were read.
pub record Holds (c : StreamSettings) (u : Option ChunkUsage) (a : Table ToolCall) (s : StreamState)
    : Type 0 where
  pub armed : Armed c.loop_guard s.detector
  pub usage : s.last_usage ≡ u
  pub calls : s.acc ≡ a

module _ {X : Type 0} where
  pub data EndsWell (c : StreamSettings) (u : Option ChunkUsage) (a : Table ToolCall)
      : Flow X → Type 0 where
    well_going : (s : StreamState) → Holds c u a s → EndsWell c u a (going s)
    well_aborted :
        (s : StreamState) → IsStop c s.finish_reason → s.last_usage ≡ u → EndsWell c u a (aborted s)
    well_failed : (e : StreamError X) → EndsWell c u a (failed e)

  pub record IsStretch (c : StreamSettings) (u : Option ChunkUsage) (a : Table ToolCall)
      (r : Stretch X) : Type 0 where
    pub deltas : All IsDelta r.events
    pub reason : EndsWell c u a r.flow

  module _ (c : StreamSettings) (u : Option ChunkUsage) where
    continue_from-IsStretch :
        (a b : Table ToolCall) (es : List (Event (StreamError X))) (f : Flow X)
        (k : StreamState → Stretch X)
        → All IsDelta es
        → EndsWell c u a f
        → ((s : StreamState) → Holds c u a s → IsStretch c u b (k s))
        → IsStretch c u b (continue_from es f k)
    continue_from-IsStretch a b es (going s) k h (well_going _ x) g = record {
      deltas = All-append IsDelta es (k s).events h (g s x).deltas;
      reason = (g s x).reason;
    }
    continue_from-IsStretch a b es (aborted s) k h (well_aborted _ x y) g = record {
      deltas = h;
      reason = well_aborted s x y;
    }
    continue_from-IsStretch a b es (failed e) k h w g = record {
      deltas = h;
      reason = well_failed e;
    }

    and_then-IsStretch :
        (a b : Table ToolCall) (r : Stretch X) (k : StreamState → Stretch X)
        → IsStretch c u a r
        → ((s : StreamState) → Holds c u a s → IsStretch c u b (k s))
        → IsStretch c u b (and_then r k)
    and_then-IsStretch a b r k h g =
        continue_from-IsStretch a b r.events r.flow k h.deltas h.reason g

    go_on-IsStretch :
        (a : Table ToolCall) (s : StreamState) → Holds c u a s → IsStretch c u a (go_on s)
    go_on-IsStretch a s h = record { deltas = tt; reason = well_going s h }

    check_budget-EndsWell :
        (a : Table ToolCall) (s : StreamState) (t : Text)
        → Holds c u a s
        → EndsWell c u a (check_budget {X = X} c s t)
    unfolding check_budget
    check_budget-EndsWell a s t h =
        let n : StreamState = record s { reasoning_runes = s.reasoning_runes + length (runes t) } in
        let spent : Bool = ltb_ℤ c.reasoning_budget (pos n.reasoning_runes) in
        if-elim (EndsWell c u a) (ltb_ℤ (pos 0) c.reasoning_budget && not s.acting)
          (if spent then abort n finish_reasoning_budget else going n) (going s)
          (λ e.
            if-elim (EndsWell c u a) spent (abort n finish_reasoning_budget) (going n)
              (λ x. well_aborted _ (inr (inr (refl, and_left _ _ e))) h.usage)
              (λ x. well_going n (record { armed = h.armed; usage = h.usage; calls = h.calls })))
          (λ e. well_going s h)

    reasoning_step-IsStretch :
        (a : Table ToolCall) (t : Text) (s : StreamState)
        → Holds c u a s
        → IsStretch c u a (reasoning_step c t s)
    unfolding reasoning_step
    reasoning_step-IsStretch a [] s h = go_on-IsStretch a s h
    reasoning_step-IsStretch a (x ∷ t) s h =
        let g = guard_reasoning s.detector (x ∷ t) in
        let n : StreamState = record s { detector = g.0 } in
        record {
          deltas = (refl, tt);
          reason =
              if-elim (EndsWell c u a) g.1 (abort n finish_repetition) (check_budget c n (x ∷ t))
                (λ e.
                  well_aborted _
                    (inl (refl, guard_reasoning_tripped _ s.detector (x ∷ t) h.armed e)) h.usage)
                (λ e. check_budget-EndsWell a n (x ∷ t) (record {
                  armed = guard_reasoning-Armed _ s.detector (x ∷ t) h.armed;
                  usage = h.usage;
                  calls = h.calls;
                }));
        }

    content_step-IsStretch :
        (a : Table ToolCall) (t : Text) (s : StreamState)
        → Holds c u a s
        → IsStretch c u a (content_step t s)
    unfolding content_step
    content_step-IsStretch a [] s h = go_on-IsStretch a s h
    content_step-IsStretch a (x ∷ t) s h =
        let g = guard_text s.detector (x ∷ t) in
        let n : StreamState = record s { acting = true; detector = g.0 } in
        record {
          deltas = (refl, tt);
          reason =
              if-elim (EndsWell c u a) g.1 (abort n finish_repetition) (going n)
                (λ e.
                  well_aborted _ (inl (refl, guard_text_tripped _ s.detector (x ∷ t) h.armed e))
                    h.usage)
                (λ e. well_going n (record {
                  armed = guard_text-Armed _ s.detector (x ∷ t) h.armed;
                  usage = h.usage;
                  calls = h.calls;
                }));
        }

  module _ (J : Type 0) (marshal : J → Option Text) (decode : Text → X ⊎ Chunk J) where
    -- The calls of choices that are read, merged into those before, and the calls and the last usage of
    -- what arrives.
    abbrev pub choices_calls : Table ToolCall → List (Choice J) → Table ToolCall
    choices_calls a [] = a
    choices_calls a (ch ∷ chs) = choices_calls (merge J marshal a ch.delta.tool_calls).0 chs

    abbrev pub chunk_calls : Table ToolCall → X ⊎ Chunk J → Table ToolCall
    chunk_calls a (inl e) = a
    chunk_calls a (inr k) = choices_calls a k.choices

    abbrev pub chunk_usage : Option ChunkUsage → X ⊎ Chunk J → Option ChunkUsage
    chunk_usage u (inl e) = u
    chunk_usage u (inr k) = last_of u k.usage

    abbrev pub calls_read : Table ToolCall → List Arrival → Table ToolCall
    calls_read a [] = a
    calls_read a (silence ∷ arr) = calls_read a arr
    calls_read a (payload raw ∷ arr) = calls_read (chunk_calls a (decode raw)) arr

    abbrev pub usage_read : Option ChunkUsage → List Arrival → Option ChunkUsage
    usage_read u [] = u
    usage_read u (silence ∷ arr) = usage_read u arr
    usage_read u (payload raw ∷ arr) = usage_read (chunk_usage u (decode raw)) arr

    module _ (c : StreamSettings) where
      merged-EndsWell :
          (u : Option ChunkUsage) (a : Table ToolCall) (s : StreamState) (r : Table ToolCall × Bool)
          → Holds c u a s
          → EndsWell c u r.0 (merged J marshal decode s r)
      merged-EndsWell u a s (acc, true) h =
          well_going _ (record { armed = h.armed; usage = h.usage; calls = refl })
      merged-EndsWell u a s (acc, false) h = well_failed _

      tools_step-IsStretch :
          (u : Option ChunkUsage) (a : Table ToolCall) (ds : List (DtCall J)) (s : StreamState)
          → Holds c u a s
          → IsStretch c u (merge J marshal a ds).0 (tools_step J marshal decode ds s)
      unfolding tools_step merge
      tools_step-IsStretch u a [] s h = go_on-IsStretch c u a s h
      tools_step-IsStretch u a (d ∷ ds) s h = record {
        deltas = tt;
        reason =
            subst
              (λ x.
                EndsWell c u (merge J marshal x (d ∷ ds)).0
                  (merged J marshal decode s (merge J marshal s.acc (d ∷ ds))))
              h.calls (merged-EndsWell u a s (merge J marshal s.acc (d ∷ ds)) h);
      }

      choice_step-IsStretch :
          (u : Option ChunkUsage) (a : Table ToolCall) (ch : Choice J) (s : StreamState)
          → Holds c u a s
          → IsStretch c u
              (merge J marshal a ch.delta.tool_calls).0
              (choice_step J marshal decode c ch s)
      unfolding choice_step
      choice_step-IsStretch u a ch s h =
          and_then-IsStretch c u a _ _ _
            (reasoning_step-IsStretch c u a ch.delta.reasoning_content _
              (record { armed = h.armed; usage = h.usage; calls = h.calls }))
            (λ s1 h1.
              and_then-IsStretch c u a _ _ _ (content_step-IsStretch c u a ch.delta.content s1 h1)
                (λ s2 h2. tools_step-IsStretch u a ch.delta.tool_calls s2 h2))

      pub choices_step-IsStretch :
          (u : Option ChunkUsage) (a : Table ToolCall) (chs : List (Choice J)) (s : StreamState)
          → Holds c u a s
          → IsStretch c u (choices_calls a chs) (choices_step J marshal decode c chs s)
      unfolding choices_step
      choices_step-IsStretch u a [] s h = go_on-IsStretch c u a s h
      choices_step-IsStretch u a (ch ∷ chs) s h =
          and_then-IsStretch c u _ _ _ _ (choice_step-IsStretch u a ch s h)
            (λ s' h'. choices_step-IsStretch u (merge J marshal a ch.delta.tool_calls).0 chs s' h')

      pub keep_usage-Holds :
          (u : Option ChunkUsage) (a : Table ToolCall) (o : Option ChunkUsage) (s : StreamState)
          → Holds c u a s
          → Holds c (last_of u o) a (keep_usage J marshal decode o s)
      keep_usage-Holds u a none s h = h
      keep_usage-Holds u a (some v) s h = record { armed = h.armed; usage = refl; calls = h.calls }
