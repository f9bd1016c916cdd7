-- ===== src/Pool/Invariant/Release.antt =====
-- The steps of `release` keep the invariant.
use azoth.Base.{
  ℕ, ◌+◌, ◌≡◌, refl, sym, ap, ◌∙◌, subst, inl, true, false, Option, none, some, List, [], ◌∷◌,
  arith, ◌==◌, get_elem?, set,
}
use azoth.Pool.{Call, parked, sending, finished, Pool, release, send, hand_off, next_live}
use azoth.Pool.Calls.{slots, weight, waits_of, slots-set, set-Differs}
use azoth.Pool.{mark_done, fill}
use azoth.Pool.Calls.Updates.{set-CallsInv}
use azoth.Pool.Calls.Sends.{set-DiffersTwice, hand_off-CallsInv, send-CallsInv}
use azoth.Pool.Invariant.{Inv}
use azoth.Pool.Invariant.Queue.{member, IsDistinct}
use azoth.Pool.Invariant.Slots.{dec_slots}

-- The invariant leaves the loop of `release` nothing to skip.
pub next_live_nil : (cs : List Call) → next_live cs [] ≡ (none, [])
unfolding next_live
next_live_nil cs = refl

pub next_live_waiting :
    (cs : List Call) (w : ℕ) (q : List ℕ)
    → waits_of (get_elem? cs w) ≡ true
    → next_live cs (w ∷ q) ≡ (some w, q)
unfolding next_live
next_live_waiting cs w q h = ground arith

pub waits-cases :
    (o : Option Call)
    → waits_of o ≡ true
    → (d : Call) × (o ≡ some d) × (d.phase ≡ parked) × (d.done ≡ false)
waits-cases none h = cc
waits-cases (some d) h = (d, refl, ground arith, ground arith)

-- The head of the queue waits.
pub head-waits :
    (p : Pool) (w : ℕ) (q : List ℕ)
    → Inv p
    → p.queue ≡ w ∷ q
    → (d : Call) × (get_elem? p.calls w ≡ some d) × (d.phase ≡ parked) × (d.done ≡ false)
head-waits p w q v e =
    waits-cases (get_elem? p.calls w) (ground (arith, v.exact w, ap (member w) e))

pub release_empty :
    (p : Pool) (i : ℕ) (c : Call) → p.queue ≡ [] → release p i c ≡ hand_off p i c (none, [])
unfolding release
release_empty p i c e = ap (hand_off p i c) (ap (next_live p.calls) e ∙ next_live_nil p.calls)

pub release_waiting :
    (p : Pool) (i w : ℕ) (c d : Call) (q : List ℕ)
    → p.queue ≡ w ∷ q
    → get_elem? p.calls w ≡ some d
    → d.phase ≡ parked
    → d.done ≡ false
    → release p i c ≡ record p {
      queue = q;
      calls = set (set p.calls w (record d { done = true })) i (record c { phase = sending w });
    }
unfolding release
release_waiting p i w c d q e at_w waits live =
    ap (hand_off p i c) (ap (next_live p.calls) e ∙ next_live_waiting p.calls w q (ground arith))
    ∙ ap
        (λ o. record p {
          queue = q;
          calls = set (mark_done p.calls w o) i (record c { phase = sending w });
        })
        at_w

-- Two calls are replaced, and the slots that they own together stay as many.
slots-set_twice :
    (cs : List Call) (i w : ℕ) (c x d u : Call)
    → get_elem? cs i ≡ some c
    → get_elem? cs w ≡ some d
    → (i == w) ≡ false
    → weight x + weight u ≡ weight c + weight d
    → slots (set (set cs w u) i x) ≡ slots cs
slots-set_twice cs i w c x d u at_i at_w other h = omega (
  arith,
  slots-set cs w d u at_w,
  slots-set (set cs w u) i c x (ground (arith, set-Differs cs w d u at_w i)),
)

module _ (p : Pool) (i : ℕ) (c : Call) (at_i : get_elem? p.calls i ≡ some c) (v : Inv p)
    (owns : weight c ≡ 1) (quiet : (w : ℕ) → c.phase ≡ sending w → ⊥)
    (awake : c.phase ≡ parked → ⊥) where
  release_empty-Inv : p.queue ≡ [] → Inv (hand_off p i c (none, []))
  release_empty-Inv e =
      let d : Call = record c { phase = finished } in
      let moved = slots-set p.calls i c d at_i in
      record {
        calls =
            set-CallsInv p.calls i c d at_i v.calls (λ x. cc) (v.calls.token i c at_i) (λ w x. cc)
              (λ x y. (x, y)) quiet (λ x. cc);
        counted = rw v.counted (dec_slots _ _ (omega (arith, moved)));
        positive = v.positive;
        within = omega (arith, moved, v.within);
        exact = λ j. ground (arith, v.exact j, ap (member j) e, set-Differs p.calls i c d at_i j);
        distinct = tt;
        full = inl refl;
      }

  release_waiting-Inv : (w : ℕ) (q : List ℕ) → p.queue ≡ w ∷ q → Inv (release p i c)
  release_waiting-Inv w q e =
      let (d, at_w, waits, live) = head-waits p w q v e in
      let x : Call = record c { phase = sending w } in
      let u : Call = record d { done = true } in
      let other : (i == w) ≡ false = ground arith in
      let same : slots (set (set p.calls w u) i x) ≡ slots p.calls =
        slots-set_twice p.calls i w c x d u at_i at_w other (ground arith) in
      let new = set-DiffersTwice p.calls i w c x d u at_i at_w other in
      let distinct : IsDistinct (w ∷ q) = subst IsDistinct e v.distinct in
      subst Inv (sym (release_waiting p i w c d q e at_w waits live)) (record {
        calls =
            hand_off-CallsInv p.calls _ i w c d at_i at_w waits live quiet awake new other v.calls;
        counted = rw same v.counted;
        positive = v.positive;
        within = rw same v.within;
        exact = λ j. ground (arith, v.exact j, ap (member j) e, new j, distinct.0);
        distinct = distinct.1;
        full = rw same (ground (arith, v.full));
      })

  pub release-Inv : Inv (release p i c)
  release-Inv = go p.queue refl
    where
      go : (q : List ℕ) → p.queue ≡ q → Inv (release p i c)
      go [] e = subst Inv (sym (release_empty p i c e)) (release_empty-Inv e)
      go (w ∷ q) e = release_waiting-Inv w q e

pub send-Inv :
    (p : Pool) (i w : ℕ) (c : Call)
    → get_elem? p.calls i ≡ some c
    → c.phase ≡ sending w
    → Inv p
    → Inv (send p i c w)
unfolding send
send-Inv p i w c at_i s v =
    let (d, at_w, handed, room, other) = v.calls.room i w c at_i s in
    let x : Call = record c { phase = finished } in
    let u : Call = record d { ch = true } in
    let same : slots (set (set p.calls w u) i x) ≡ slots p.calls =
      slots-set_twice p.calls i w c x d u at_i at_w other (ground arith) in
    let new = set-DiffersTwice p.calls i w c x d u at_i at_w other in
    subst (λ cs. Inv (record p { calls = set cs i x })) (sym (ap (fill p.calls w) at_w))
      (record {
        calls = send-CallsInv p.calls _ i w c d at_i at_w s handed new other v.calls;
        counted = rw same v.counted;
        positive = v.positive;
        within = rw same v.within;
        exact = λ j. ground (arith, v.exact j, new j);
        distinct = v.distinct;
        full = rw same v.full;
      })
