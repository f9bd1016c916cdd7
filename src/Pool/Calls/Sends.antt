-- ===== src/Pool/Calls/Sends.antt =====
-- The steps of the pool that touch two calls: a hand-off by `release`, and the send that follows.
use azoth.Base.{
  ℕ, ◌≡◌, refl, ◌⊎◌, inl, inr, true, false, some, List, arith, ◌==◌, if◌then◌else◌, get_elem?, set,
  Bool-cases,
}
use azoth.Pool.{Call, started, parked, sending, finished}
use azoth.Pool.Calls.{set-Differs, IsFresh, IsToken, HasRoom, IsSole, IsServed, CallsInv}

-- Two calls are replaced: `i`, and then `w`.
abbrev pub DiffersTwice : List Call → List Call → ℕ → Call → ℕ → Call → Type 0
DiffersTwice cs ds i v w u =
    (j : ℕ)
    → get_elem? ds j ≡ (if i == j then some v else if w == j then some u else get_elem? cs j)

pub set-DiffersTwice :
    (cs : List Call) (i w : ℕ) (c v d u : Call)
    → get_elem? cs i ≡ some c
    → get_elem? cs w ≡ some d
    → (i == w) ≡ false
    → DiffersTwice cs (set (set cs w u) i v) i v w u
set-DiffersTwice cs i w c v d u at_i at_w other j = ground (
  arith,
  set-Differs cs w d u at_w j,
  set-Differs cs w d u at_w i,
  set-Differs (set cs w u) i c v,
  set-Differs (set cs w u) i c v (ground (arith, set-Differs cs w d u at_w i)) j,
)

module _ (cs ds : List Call) (i w : ℕ) (v u : Call) (new : DiffersTwice cs ds i v w u)
    (other : (i == w) ≡ false) where
  Twice-cases :
      (j : ℕ) (x : Call)
      → get_elem? ds j ≡ some x
      → ((i ≡ j) × (x ≡ v))
        ⊎ ((w ≡ j) × (x ≡ u))
        ⊎ (((i == j) ≡ false) × ((w == j) ≡ false) × (get_elem? cs j ≡ some x))
  Twice-cases j x h = ground (arith, new j)

  twice-IsFresh :
      IsFresh cs
      → (v.phase ≡ started → v.done ≡ false)
      → (u.phase ≡ started → u.done ≡ false)
      → IsFresh ds
  twice-IsFresh inv f g j x h p = ground (arith, Twice-cases j x h, inv j x)

  twice-IsToken :
      IsToken cs → (v.ch ≡ true → v.done ≡ true) → (u.ch ≡ true → u.done ≡ true) → IsToken ds
  twice-IsToken inv f g j x h p = ground (arith, Twice-cases j x h, inv j x)

-- Call `i` takes on the send to the waiting call `w`.
module _ (cs ds : List Call) (i w : ℕ) (c d : Call) (at_i : get_elem? cs i ≡ some c)
    (at_w : get_elem? cs w ≡ some d) (waits : d.phase ≡ parked) (live : d.done ≡ false)
    (quiet : (x : ℕ) → c.phase ≡ sending x → ⊥) (awake : c.phase ≡ parked → ⊥)
    (new : DiffersTwice cs ds i (record c { phase = sending w }) w (record d { done = true }))
    (other : (i == w) ≡ false) where
  module _ (inv : CallsInv cs) where
    -- Nobody sends to a call that still waits.
    not_aimed : (k : ℕ) (x : Call) → get_elem? cs k ≡ some x → x.phase ≡ sending w → ⊥
    not_aimed k x h p =
        let (e, at_e, done, room, apart) = inv.room k w x h p in ground (arith, quiet w)

    hand_off-HasRoom : HasRoom ds
    hand_off-HasRoom j t x h p = elim (Twice-cases cs ds i w _ _ new other j x h) [
      | inl (e, a) ↦ (
        record d { done = true },
        ground (arith, new t),
        refl,
        ground (arith, inv.token w d at_w),
        ground arith,
      )
      | inr (inl (e, a)) ↦ absurd (ground arith)
      | inr (inr (n, m, g)) ↦
          let (y, at_t, done, room, apart) = inv.room j t x g p in
          elim (Bool-cases (i == t)) [
            | inl q ↦ (
              record c { phase = sending w },
              ground (arith, new t),
              ground arith,
              ground arith,
              apart,
            )
            | inr q ↦ (y, ground (arith, new t), done, room, apart)
          ]
    ]

    hand_off-IsSole : IsSole ds
    hand_off-IsSole j k t x y h g p q = ground (
      arith,
      Twice-cases cs ds i w _ _ new other j x h,
      Twice-cases cs ds i w _ _ new other k y g,
      inv.sole j k t x y,
      not_aimed j x,
      not_aimed k y,
    )

    hand_off-IsServed : IsServed ds
    hand_off-IsServed j x h p done empty = elim (Twice-cases cs ds i w _ _ new other j x h) [
      | inl (e, a) ↦ absurd (ground arith)
      | inr (inl (e, a)) ↦ (i, record c { phase = sending w }, ground (arith, new i), ground arith)
      | inr (inr (n, m, g)) ↦
          let (k, y, at_k, q) = inv.served j x g p done empty in
          (k, y, ground (arith, new k, quiet j), q)
    ]

    pub hand_off-CallsInv : CallsInv ds
    hand_off-CallsInv = record {
      fresh = twice-IsFresh cs ds i w _ _ new other inv.fresh (λ p. cc) (λ p. cc);
      token =
          twice-IsToken cs ds i w _ _ new other inv.token (λ p. inv.token i c at_i p) (λ p. refl);
      room = hand_off-HasRoom;
      sole = hand_off-IsSole;
      served = hand_off-IsServed;
    }

-- Call `i` makes its send to call `w`.
module _ (cs ds : List Call) (i w : ℕ) (c d : Call) (at_i : get_elem? cs i ≡ some c)
    (at_w : get_elem? cs w ≡ some d) (sends : c.phase ≡ sending w) (handed : d.done ≡ true)
    (new : DiffersTwice cs ds i (record c { phase = finished }) w (record d { ch = true }))
    (other : (i == w) ≡ false) where
  module _ (inv : CallsInv cs) where
    -- What `HasRoom` needs of a receiver other than `w` is unchanged.
    still_has_room :
        (t : ℕ) (y : Call)
        → (w == t) ≡ false
        → get_elem? cs t ≡ some y
        → y.done ≡ true
        → y.ch ≡ false
        → (x : Call) × (get_elem? ds t ≡ some x) × (x.done ≡ true) × (x.ch ≡ false)
    still_has_room t y n at_t done room = elim (Bool-cases (i == t)) [
      | inl q ↦ (record c { phase = finished }, ground (arith, new t), ground arith, ground arith)
      | inr q ↦ (y, ground (arith, new t), done, room)
    ]

    -- Before the send, call `j` was another sender in phase `sending t`.
    send_room_at :
        (j t : ℕ) (x : Call)
        → get_elem? cs j ≡ some x
        → x.phase ≡ sending t
        → (i == j) ≡ false
        → (y : Call) × (get_elem? ds t ≡ some y)
          × (y.done ≡ true)
          × (y.ch ≡ false)
          × ((j == t) ≡ false)
    send_room_at j t x g p n =
        let (y, at_t, done, room, apart) = inv.room j t x g p in
        let (z, at_z, done', room') =
          still_has_room t y (ground (arith, inv.sole i j w c x at_i g sends)) at_t done room in
        (z, at_z, done', room', apart)

    send-HasRoom : HasRoom ds
    send-HasRoom j t x h p = elim (Twice-cases cs ds i w _ _ new other j x h) [
      | inl (e, a) ↦ absurd (ground arith)
      | inr (inl (e, a)) ↦ send_room_at j t d (ground arith) (ground arith) (ground arith)
      | inr (inr (n, m, g)) ↦ send_room_at j t x g p n
    ]

    send-IsSole : IsSole ds
    send-IsSole j k t x y h g p q = ground (
      arith,
      Twice-cases cs ds i w _ _ new other j x h,
      Twice-cases cs ds i w _ _ new other k y g,
      inv.sole j k t x y,
      inv.sole j k t d y,
      inv.sole j k t x d,
    )

    send-IsServed : IsServed ds
    send-IsServed j x h p done empty = elim (Twice-cases cs ds i w _ _ new other j x h) [
      | inl (e, a) ↦ absurd (ground arith)
      | inr (inl (e, a)) ↦ absurd (ground arith)
      | inr (inr (n, m, g)) ↦
          let (k, y, at_k, q) = inv.served j x g p done empty in
          elim (Bool-cases (w == k)) [
            | inl e ↦ (k, record d { ch = true }, ground (arith, new k), ground arith)
            | inr e ↦ (k, y, ground (arith, new k), q)
          ]
    ]

    pub send-CallsInv : CallsInv ds
    send-CallsInv = record {
      fresh = twice-IsFresh cs ds i w _ _ new other inv.fresh (λ p. cc) (λ p. inv.fresh w d at_w p);
      token =
          twice-IsToken cs ds i w _ _ new other inv.token (λ p. inv.token i c at_i p) (λ p. handed);
      room = send-HasRoom;
      sole = send-IsSole;
      served = send-IsServed;
    }
