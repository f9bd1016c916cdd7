-- ===== src/Pool/Invariant/Acquire.antt =====
-- The steps of `Acquire` and `abandon` keep the invariant.
use azoth.Base.{
  ℕ, ◌≡◌, refl, sym, subst, inl, inr, true, false, some, arith, if_true, if_false, get_elem?, set,
  Bool-cases,
}
use azoth.Base.Int.{ltb_ℤ}
use azoth.Pool.{
  Call, started, parked, holding, must_release, finished, Failure, Pool, call_acquire, enter,
  receive, abandon,
}
use azoth.Pool.Calls.{slots, slots-set, slots-append, set-Differs, append-Differs}
use azoth.Pool.Calls.Updates.{set-CallsInv, append-CallsInv, get_elem?-length}
use azoth.Pool.Invariant.{Inv}
use azoth.Pool.Invariant.Queue.{
  member, member-append, IsDistinct-append, member-remove_waiter, IsDistinct-remove_waiter,
}
use azoth.Pool.Invariant.Slots.{inc_slots, not_below}

pub call_acquire-Inv : (p : Pool) → Inv p → Inv (call_acquire p)
unfolding call_acquire
call_acquire-Inv p v =
    let added = slots-append p.calls (record { phase = started; ch = false; done = false }) in
    record {
      calls = append-CallsInv p.calls _ (get_elem?-length p.calls) refl refl refl v.calls;
      counted = ground (arith, added);
      positive = v.positive;
      within = omega (arith, added, v.within);
      exact = λ i. ground (
        arith,
        v.exact i,
        append-Differs p.calls (record { phase = started; ch = false; done = false }) i,
        get_elem?-length p.calls,
      );
      distinct = v.distinct;
      full = ground (arith, added);
    }

module _ (p : Pool) (i : ℕ) (c : Call) (at_i : get_elem? p.calls i ≡ some c) (v : Inv p) where
  pub enter-Inv : c.phase ≡ started → Inv (enter p i c)
  unfolding enter
  enter-Inv s = elim (Bool-cases (ltb_ℤ p.inflight p.capacity)) [
    | inl room ↦
        let d : Call = record c { phase = holding } in
        let moved = slots-set p.calls i c d at_i in
        subst Inv (sym (if_true _ _ room)) (record {
          calls =
              set-CallsInv p.calls i c d at_i v.calls (λ x. cc) (v.calls.token i c at_i) (λ w x. cc)
                (λ x y. (x, y)) (λ w x. cc) (λ x. cc);
          counted = rw v.counted (inc_slots _ _ (ground (arith, moved)));
          positive = v.positive;
          within = ground (arith, moved, v.counted);
          exact = λ j. ground (arith, v.exact j, set-Differs p.calls i c d at_i j);
          distinct = v.distinct;
          full = ground (arith, v.full, v.counted);
        })
    | inr no_room ↦
        let d : Call = record { phase = parked; ch = false; done = false } in
        let moved = slots-set p.calls i c d at_i in
        let same : slots (set p.calls i d) ≡ slots p.calls = ground (arith, moved) in
        let absent : member i p.queue ≡ false = ground (arith, v.exact i) in
        subst Inv (sym (if_false _ _ no_room)) (record {
          calls =
              set-CallsInv p.calls i c d at_i v.calls (λ x. refl) (λ x. cc) (λ w x. cc)
                (λ x y. cc (v.calls.fresh i c at_i s)) (λ w x. cc) (λ x. refl);
          counted = rw same v.counted;
          positive = v.positive;
          within = rw same v.within;
          exact = λ j.
              ground
                (arith, v.exact j, member-append j i p.queue, set-Differs p.calls i c d at_i j);
          distinct = IsDistinct-append i p.queue absent v.distinct;
          full = rw same (inr (not_below _ _ v.within (ground (arith, v.counted))));
        })
  ]

  pub receive-Inv : c.phase ≡ parked → c.ch ≡ true → Inv (receive p i c)
  unfolding receive
  receive-Inv s t =
      let done = v.calls.token i c at_i t in
      let d : Call = record c { phase = holding; ch = false } in
      let same : slots (set p.calls i d) ≡ slots p.calls =
        ground (arith, slots-set p.calls i c d at_i) in
      record {
        calls =
            set-CallsInv p.calls i c d at_i v.calls (λ x. cc) (λ x. cc) (λ w x. cc)
              (λ x y. (x, refl)) (λ w x. cc) (λ x. cc);
        counted = rw same v.counted;
        positive = v.positive;
        within = rw same v.within;
        exact = λ j. ground (arith, v.exact j, set-Differs p.calls i c d at_i j);
        distinct = v.distinct;
        full = rw same v.full;
      }

  pub abandon-Inv : (err : Failure) → c.phase ≡ parked → Inv (abandon p i c err)
  unfolding abandon
  abandon-Inv err s = elim (Bool-cases c.done) [
    | inl done ↦
        let d : Call = record c { phase = must_release err } in
        let same : slots (set p.calls i d) ≡ slots p.calls =
          ground (arith, slots-set p.calls i c d at_i) in
        subst Inv (sym (if_true _ _ done)) (record {
          calls =
              set-CallsInv p.calls i c d at_i v.calls (λ x. cc) (v.calls.token i c at_i) (λ w x. cc)
                (λ x y. (x, y)) (λ w x. cc) (λ x. cc);
          counted = rw same v.counted;
          positive = v.positive;
          within = rw same v.within;
          exact = λ j. ground (arith, v.exact j, set-Differs p.calls i c d at_i j);
          distinct = v.distinct;
          full = rw same v.full;
        })
    | inr live ↦
        let d : Call = record c { phase = finished; done = true } in
        let same : slots (set p.calls i d) ≡ slots p.calls =
          ground (arith, slots-set p.calls i c d at_i) in
        subst Inv (sym (if_false _ _ live)) (record {
          calls =
              set-CallsInv p.calls i c d at_i v.calls (λ x. cc) (λ x. refl) (λ w x. cc)
                (λ x y. (refl, y)) (λ w x. cc) (λ x. cc);
          counted = rw same v.counted;
          positive = v.positive;
          within = rw same v.within;
          exact = λ j. ground (
            arith,
            v.exact j,
            member-remove_waiter i j p.queue v.distinct,
            set-Differs p.calls i c d at_i j,
          );
          distinct = IsDistinct-remove_waiter i p.queue v.distinct;
          full = rw same (ground (arith, v.full));
        })
  ]
