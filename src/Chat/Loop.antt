-- ===== src/Chat/Loop.antt =====
-- What the stream loop leaves behind the arrivals that it read.
use azoth.Base.{
  ◌≡◌, refl, sym, ap, ◌&&◌, Option, List, [], ◌∷◌, ◌++◌, ◌⊎◌, inl, inr, All, All-append, if-elim,
  subst,
}
use azoth.Base.Int.{pos, ltb_ℤ}
use azoth.Base.Text.{Text}
use azoth.ToolCall.{ToolCall}
use azoth.ToolCall.IntMap.{Table}
use azoth.Chat.{
  ChunkUsage, Chunk, StreamError, Event, StreamSettings, StreamState, Flow, going, aborted, failed,
  Stretch, Arrival, payload, silence, finish_stall, abort, go_on, and_then, keep_usage, chunk_step,
  stream_loop,
}
use azoth.Chat.Events.{IsDelta}
use azoth.Chat.Steps.{
  Holds, EndsWell, well_going, well_aborted, well_failed, and_left, last_of, chunk_calls,
  chunk_usage, calls_read, usage_read, choices_step-IsStretch, keep_usage-Holds,
}

module _ {X : Type 0} (J : Type 0) (marshal : J → Option Text) (decode : Text → X ⊎ Chunk J)
    (c : StreamSettings) where
  -- The arrivals that were read count for the usage and the calls; a loop that goes on has read all.
  pub record LoopEnd (arr : List Arrival) (u : Option ChunkUsage) (a : Table ToolCall)
      (r : Stretch X) : Type 0 where
    pub deltas : All IsDelta r.events
    pub read : List Arrival
    pub rest : List Arrival
    pub split : arr ≡ read ++ rest
    pub reason :
        EndsWell c (usage_read J marshal decode u read) (calls_read J marshal decode a read) r.flow
    pub whole : (s : StreamState) → r.flow ≡ going s → rest ≡ []

  -- The choices of a chunk, the chunk's usage and the rest of the loop.
  chunk-LoopEnd :
      (raw : Text) (arr : List Arrival) (u : Option ChunkUsage) (a b : Table ToolCall)
      (o : Option ChunkUsage) (es : List (Event (StreamError X))) (f : Flow X)
      (loop : StreamState → Stretch X)
      → All IsDelta es
      → EndsWell c u b f
      → ((s : StreamState)
          → Holds c (last_of u o) b s
          → LoopEnd arr
              (chunk_usage J marshal decode u (decode raw))
              (chunk_calls J marshal decode a (decode raw))
              (loop s))
      → LoopEnd (payload raw ∷ arr) u a (
          and_then
            (and_then
              (record { events = es; flow = f })
              (λ s. go_on (keep_usage J marshal decode o s)))
            loop)
  chunk-LoopEnd raw arr u a b o es (going s) loop h (well_going _ x) g =
      let i = g (keep_usage J marshal decode o s) (keep_usage-Holds J marshal decode c u b o s x) in
      record {
        deltas = All-append IsDelta (es ++ []) _ (All-append IsDelta es [] h tt) i.deltas;
        read = payload raw ∷ i.read;
        rest = i.rest;
        split = ap (◌∷◌ (payload raw)) i.split;
        reason = i.reason;
        whole = i.whole;
      }
  chunk-LoopEnd raw arr u a b o es (aborted s) loop h (well_aborted _ x y) g = record {
    deltas = h;
    read = [];
    rest = payload raw ∷ arr;
    split = refl;
    reason = well_aborted s x y;
    whole = λ t e. absurd cc;
  }
  chunk-LoopEnd raw arr u a b o es (failed e) loop h w g = record {
    deltas = h;
    read = [];
    rest = payload raw ∷ arr;
    split = refl;
    reason = well_failed e;
    whole = λ t e. absurd cc;
  }

  payload-LoopEnd :
      (raw : Text) (arr : List Arrival) (u : Option ChunkUsage) (a : Table ToolCall)
      (s : StreamState) (loop : StreamState → Stretch X) (d : X ⊎ Chunk J)
      → decode raw ≡ d
      → Holds c u a s
      → ((u' : Option ChunkUsage) (a' : Table ToolCall) (s' : StreamState)
          → Holds c u' a' s'
          → LoopEnd arr u' a' (loop s'))
      → LoopEnd (payload raw ∷ arr) u a (and_then (chunk_step J marshal decode c d s) loop)
  unfolding chunk_step
  payload-LoopEnd raw arr u a s loop (inl e) q h g = record {
    deltas = tt;
    read = [];
    rest = payload raw ∷ arr;
    split = refl;
    reason = well_failed _;
    whole = λ t x. absurd cc;
  }
  payload-LoopEnd raw arr u a s loop (inr k) q h g =
      let w = choices_step-IsStretch J marshal decode c u a k.choices s h in
      chunk-LoopEnd raw arr u a _ k.usage _ _ loop w.deltas w.reason (λ s' x.
        subst
          (λ d.
            LoopEnd arr (chunk_usage J marshal decode u d) (chunk_calls J marshal decode a d)
              (loop s'))
          (sym q) (g _ _ s' x))

  pub stream_loop-LoopEnd :
      (arr : List Arrival) (u : Option ChunkUsage) (a : Table ToolCall) (s : StreamState)
      → Holds c u a s
      → LoopEnd arr u a (stream_loop J marshal decode c arr s)
  unfolding stream_loop
  stream_loop-LoopEnd [] u a s h = record {
    deltas = tt;
    read = [];
    rest = [];
    split = refl;
    reason = well_going s h;
    whole = λ t e. refl;
  }
  stream_loop-LoopEnd (payload raw ∷ arr) u a s h =
      payload-LoopEnd raw arr u a _ _ (decode raw) refl
        (record { armed = h.armed; usage = h.usage; calls = h.calls })
        (λ u' a' s' h'. stream_loop-LoopEnd arr u' a' s' h')
  stream_loop-LoopEnd (silence ∷ arr) u a s h =
      let i = stream_loop-LoopEnd arr u a s h in
      if-elim (LoopEnd (silence ∷ arr) u a) (ltb_ℤ (pos 0) c.stall_timeout && s.started)
        (record { events = []; flow = abort s finish_stall }) (stream_loop J marshal decode c arr s)
        (λ e. record {
          deltas = tt;
          read = [];
          rest = silence ∷ arr;
          split = refl;
          reason = well_aborted _ (inr (inl (refl, and_left _ _ e))) h.usage;
          whole = λ t x. absurd cc;
        })
        (λ e. record {
          deltas = i.deltas;
          read = silence ∷ i.read;
          rest = i.rest;
          split = ap (◌∷◌ silence) i.split;
          reason = i.reason;
          whole = i.whole;
        })
