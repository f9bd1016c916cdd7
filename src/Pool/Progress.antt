-- ===== src/Pool/Progress.antt =====
-- The pool neither leaks a slot nor stands still.
use azoth.Base.{
  ℕ, zero, suc, ◌+◌, ◌<◌, ◌≡◌, ◌≢◌, refl, ap, ◌∙◌, ◌⊎◌, inl, inr, true, false, some, List, [], ◌∷◌,
  arith, ◌==◌, get_elem?, set, Bool-cases, All,
}
use azoth.Base.Int.{ℤ, pos}
use azoth.Base.Text.{Text}
use azoth.Pool.{
  Pool, Call, Phase, started, parked, holding, must_release, sending, finished, Step, call, enters,
  receives, cancels, times_out, releases, passes_on, sends, release_again, enter, receive, release,
  send, fill, Reach, new_pool_named,
}
use azoth.Pool.Calls.{waits_of, slots, weight, set-Differs}
use azoth.Pool.Invariant.{Inv}
use azoth.Pool.Invariant.Queue.{member}
use azoth.Pool.Invariant.Release.{head-waits, release_empty, release_waiting}
use azoth.Pool.Reachable.{Step-Inv, new_pool-Inv}

-- In every state that a new pool reaches, the send of `release` finds the receiver's buffer empty,
-- so it does not block.
pub send_never_blocks :
    (name : Text) (size timeout : ℤ) {p : Pool} (i w : ℕ) (c : Call)
    → Reach (new_pool_named name size timeout) p
    → get_elem? p.calls i ≡ some c
    → c.phase ≡ sending w
    → (d : Call) × (get_elem? p.calls w ≡ some d) × (d.ch ≡ false)
send_never_blocks name size timeout i w c reached h s =
    let v = new_pool-Inv name size timeout reached in
    let (d, at_w, done, room, other) = v.calls.room i w c h s in (d, at_w, room)

All-finished-slots : (cs : List Call) → All (λ (c : Call). c.phase ≡ finished) cs → slots cs ≡ 0
All-finished-slots [] h = refl
All-finished-slots (c ∷ cs) h = ground (arith, All-finished-slots cs h.1)

All-finished-waits :
    (cs : List Call) (i : ℕ)
    → All (λ (c : Call). c.phase ≡ finished) cs
    → waits_of (get_elem? cs i) ≡ false
All-finished-waits [] i h = refl
All-finished-waits (c ∷ cs) zero h = ground arith
All-finished-waits (c ∷ cs) (suc i) h = All-finished-waits cs i h.1

empty_of_member : (xs : List ℕ) → ((i : ℕ) → member i xs ≡ false) → xs ≡ []
empty_of_member [] h = refl
empty_of_member (x ∷ xs) h = ground (arith, h x)

-- No slot of a new pool is lost on any run, whether its holder released it, gave up while waiting,
-- or gave up just as a slot was handed to it: once every call has finished, `inflight` is 0 and
-- nobody is queued.
pub no_slot_leak :
    (name : Text) (size timeout : ℤ) {p : Pool}
    → Reach (new_pool_named name size timeout) p
    → All (λ (c : Call). c.phase ≡ finished) p.calls
    → (p.inflight ≡ pos 0) × (p.queue ≡ [])
no_slot_leak name size timeout {p} reached h =
    let v = new_pool-Inv name size timeout reached in
    (
      v.counted ∙ ap pos (All-finished-slots p.calls h),
      empty_of_member p.queue (λ i. v.exact i ∙ All-finished-waits p.calls i h),
    )

-- How many steps a call may still make.
abbrev pub rank : Phase → ℕ
rank started = 4
rank parked = 3
rank holding = 2
rank (must_release e) = 2
rank (sending w) = 1
rank finished = 0

abbrev pub work : List Call → ℕ
work [] = 0
work (c ∷ cs) = rank c.phase + work cs

work-set :
    (cs : List Call) (i : ℕ) (c v : Call)
    → get_elem? cs i ≡ some c
    → work (set cs i v) + rank c.phase ≡ work cs + rank v.phase
work-set [] i c v h = cc
work-set (x ∷ cs) zero c v h = let e : x ≡ c = cc in rw e (omega arith)
work-set (x ∷ cs) (suc i) c v h = omega (arith, work-set cs i c v h)

-- The step is neither a new call nor a context or a timer that ends a wait.
abbrev pub IsOwn : {p q : Pool} → Step p q → Type 0
IsOwn call = ⊥
IsOwn (cancels i c h s) = ⊥
IsOwn (times_out i c h s t) = ⊥
IsOwn (enters i c h s) = Unit
IsOwn (receives i c h s t) = Unit
IsOwn (releases i c h s) = Unit
IsOwn (passes_on i c e h s) = Unit
IsOwn (sends i c w h s) = Unit
IsOwn (release_again i c h s) = Unit

-- A step to a pool with less to do.
abbrev Advances : Pool → Type 0
Advances p = (q : Pool) × (s : Step p q) × IsOwn s × (work q.calls < work p.calls)

enter-work :
    (p : Pool) (i : ℕ) (c : Call)
    → get_elem? p.calls i ≡ some c
    → c.phase ≡ started
    → work (enter p i c).calls < work p.calls
unfolding enter
enter-work p i c h s = ground (
  arith,
  work-set p.calls i c (record c { phase = holding }) h,
  work-set p.calls i c (record { phase = parked; ch = false; done = false }) h,
)

receive-work :
    (p : Pool) (i : ℕ) (c : Call)
    → get_elem? p.calls i ≡ some c
    → c.phase ≡ parked
    → work (receive p i c).calls < work p.calls
unfolding receive
receive-work p i c h s =
    ground (arith, work-set p.calls i c (record c { phase = holding; ch = false }) h)

-- Two calls are replaced, the second by one in the same phase.
work-set_twice :
    (cs : List Call) (i w : ℕ) (c d x u : Call)
    → get_elem? cs i ≡ some c
    → get_elem? cs w ≡ some d
    → (i == w) ≡ false
    → u.phase ≡ d.phase
    → work (set (set cs w u) i x) + rank c.phase ≡ work cs + rank x.phase
work-set_twice cs i w c d x u at_i at_w other same = omega (
  arith,
  ap rank same,
  work-set cs w d u at_w,
  work-set (set cs w u) i c x (ground (arith, set-Differs cs w d u at_w i)),
)

release-work :
    (p : Pool) (i : ℕ) (c : Call) (q : List ℕ)
    → Inv p
    → get_elem? p.calls i ≡ some c
    → rank c.phase ≡ 2
    → p.queue ≡ q
    → work (release p i c).calls < work p.calls
release-work p i c [] v h r e =
    rw (release_empty p i c e)
      (omega (arith, work-set p.calls i c (record c { phase = finished }) h))
release-work p i c (w ∷ q) v h r e =
    let (d, at_w, waits, live) = head-waits p w q v e in
    rw (release_waiting p i w c d q e at_w waits live) (
      omega (
        arith,
        work-set_twice p.calls i w c d (record c { phase = sending w }) (record d { done = true }) h
            at_w (ground arith) refl,
      ))

send-work :
    (p : Pool) (i w : ℕ) (c : Call)
    → Inv p
    → get_elem? p.calls i ≡ some c
    → c.phase ≡ sending w
    → work (send p i c w).calls < work p.calls
unfolding send
send-work p i w c v h s =
    let (d, at_w, handed, room, other) = v.calls.room i w c h s in
    rw (ap (fill p.calls w) at_w) (
      ground (
        arith,
        work-set_twice p.calls i w c d (record c { phase = finished }) (record d { ch = true }) h
            at_w other refl,
      ))

weight-cases : (c : Call) → (weight c ≡ 1) ⊎ (weight c ≡ 0)
weight-cases c = ground arith

owner_of_slot :
    (cs : List Call)
    → 0 < slots cs
    → (j : ℕ) × (d : Call) × (get_elem? cs j ≡ some d) × (weight d ≡ 1)
owner_of_slot [] h = absurd (omega arith)
owner_of_slot (c ∷ cs) h = elim (weight-cases c) [
  | inl e ↦ (0, c, refl, e)
  | inr e ↦ let (j, d, at_j, o) = owner_of_slot cs (omega arith) in (suc j, d, at_j, o)
]

module _ (p : Pool) (v : Inv p) where
  served-Advances :
      (i : ℕ) (c : Call)
      → get_elem? p.calls i ≡ some c
      → c.phase ≡ parked
      → c.done ≡ true
      → Advances p
  served-Advances i c h s done = elim (Bool-cases c.ch) [
    | inl t ↦ (receive p i c, receives i c h s t, tt, receive-work p i c h s)
    | inr t ↦
        let (j, d, at_j, x) = v.calls.served i c h s done t in
        (send p j d i, sends j d i at_j x, tt, send-work p j i d v at_j x)
  ]

  owner-Advances :
      (i : ℕ) (c : Call) (f : Phase)
      → get_elem? p.calls i ≡ some c
      → c.phase ≡ f
      → weight c ≡ 1
      → Advances p
  owner-Advances i c holding h s o =
      (release p i c, releases i c h s, tt, release-work p i c p.queue v h (ground arith) refl)
  owner-Advances i c (must_release e) h s o =
      (release p i c, passes_on i c e h s, tt, release-work p i c p.queue v h (ground arith) refl)
  owner-Advances i c parked h s o = served-Advances i c h s (ground arith)
  owner-Advances i c started h s o = absurd (ground arith)
  owner-Advances i c (sending w) h s o = absurd (ground arith)
  owner-Advances i c finished h s o = absurd (ground arith)

  -- A waiting call means that all slots are taken, so one of them has an owner.
  waiting-Advances :
      (i : ℕ) (c : Call)
      → get_elem? p.calls i ≡ some c
      → c.phase ≡ parked
      → c.done ≡ false
      → Advances p
  waiting-Advances i c h s live =
      let listed : member i p.queue ≡ true = ground (arith, v.exact i) in
      let (j, d, at_j, o) = owner_of_slot p.calls (ground (arith, v.full, v.positive)) in
      owner-Advances j d d.phase at_j refl o

  pub unfinished-Advances :
      (i : ℕ) (c : Call) (f : Phase)
      → get_elem? p.calls i ≡ some c
      → c.phase ≡ f
      → f ≢ finished
      → Advances p
  unfinished-Advances i c started h s n = (enter p i c, enters i c h s, tt, enter-work p i c h s)
  unfinished-Advances i c parked h s n = elim (Bool-cases c.done) [
    | inl e ↦ served-Advances i c h s e
    | inr e ↦ waiting-Advances i c h s e
  ]
  unfinished-Advances i c holding h s n = owner-Advances i c holding h s (ground arith)
  unfinished-Advances i c (must_release e) h s n =
      owner-Advances i c (must_release e) h s (ground arith)
  unfinished-Advances i c (sending w) h s n =
      (send p i c w, sends i c w h s, tt, send-work p i w c v h s)
  unfinished-Advances i c finished h s n = absurd (n refl)

find_unfinished :
    (cs : List Call)
    → All (λ (c : Call). c.phase ≡ finished) cs
      ⊎ ((i : ℕ) × (c : Call) × (get_elem? cs i ≡ some c) × (c.phase ≢ finished))
find_unfinished [] = inl tt
find_unfinished (c ∷ cs) = elim (find_unfinished cs) [
  | inr (i, d, h, n) ↦ inr (suc i, d, h, n)
  | inl rest ↦ elim (phase-cases c.phase) [ inl e ↦ inl (e, rest) | inr n ↦ inr (0, c, refl, n) ]
]
  where
    phase-cases : (f : Phase) → (f ≡ finished) ⊎ (f ≢ finished)
    phase-cases finished = inl refl
    phase-cases started = inr (λ e. cc)
    phase-cases parked = inr (λ e. cc)
    phase-cases holding = inr (λ e. cc)
    phase-cases (must_release x) = inr (λ e. cc)
    phase-cases (sending w) = inr (λ e. cc)

-- A run of the pool's own steps ends with every call finished.
pub data Drains : Pool → Type 0 where
  drained : {p : Pool} → All (λ (c : Call). c.phase ≡ finished) p.calls → Drains p
  and_then : {p q : Pool} (s : Step p q) → IsOwn s → Drains q → Drains p

drains_within : (n : ℕ) (p : Pool) → work p.calls < n → Inv p → Drains p
drains_within zero p h v = absurd (omega arith)
drains_within (suc n) p h v = elim (find_unfinished p.calls) [
  | inl all ↦ drained all
  | inr (i, c, at_i, unfinished) ↦
      let (q, s, own, less) = unfinished-Advances p v i c c.phase at_i refl unfinished in
      and_then s own (drains_within n q (omega arith) (Step-Inv s v))
]

-- No run of a new pool ends in a standstill: from every state that it reaches, once no new call is made and every holder releases, the pool's own
-- steps finish every call, with no context cancelled and no timer fired.
pub pool_drains :
    (name : Text) (size timeout : ℤ) {p : Pool}
    → Reach (new_pool_named name size timeout) p
    → Drains p
pool_drains name size timeout {p} reached =
    drains_within (suc (work p.calls)) p (omega arith) (new_pool-Inv name size timeout reached)
