-- ===== src/Pool/Calls.antt =====
-- The calls of a pool, point by point: what their phases and waiters say of one another.
pub mod Sends
pub mod Updates
use azoth.Base.{
  ℕ, zero, suc, ◌+◌, ◌≡◌, refl, sym, ◌∙◌, ◌⊎◌, inl, inr, Bool, true, false, not, ◌&&◌, ◌||◌, Option,
  none, some, List, [], ◌∷◌, ◌++◌, arith, ◌==◌, ==_iff, if◌then◌else◌, get_elem?, set, length,
  Bool-cases,
}
use azoth.Pool.{Call, Phase, started, parked, holding, must_release, sending, finished}

-- The slots that a call owns.
abbrev pub weight_of : Phase → Bool → ℕ
weight_of holding done = 1
weight_of (must_release e) done = 1
weight_of parked true = 1
weight_of parked false = 0
weight_of started done = 0
weight_of (sending w) done = 0
weight_of finished done = 0

abbrev pub weight : Call → ℕ
weight c = weight_of c.phase c.done

abbrev pub slots : List Call → ℕ
slots [] = 0
slots (c ∷ cs) = weight c + slots cs

abbrev pub is_parked : Phase → Bool
is_parked parked = true
is_parked _ = false

abbrev pub waits_of : Option Call → Bool
waits_of none = false
waits_of (some c) = is_parked c.phase && not c.done

pub slots-set :
    (cs : List Call) (i : ℕ) (c v : Call)
    → get_elem? cs i ≡ some c
    → slots (set cs i v) + weight c ≡ slots cs + weight v
slots-set [] i c v h = cc
slots-set (x ∷ cs) zero c v h = let e : x ≡ c = cc in rw e (omega arith)
slots-set (x ∷ cs) (suc i) c v h = omega (arith, slots-set cs i c v h)

pub slots-append : (cs : List Call) (c : Call) → slots (cs ++ c ∷ []) ≡ slots cs + weight c
slots-append [] c = omega arith
slots-append (x ∷ cs) c = omega (arith, slots-append cs c)

-- The lists differ at `i` at most, where the second one has `v`.
abbrev pub Differs : List Call → List Call → ℕ → Call → Type 0
Differs cs ds i v = (j : ℕ) → get_elem? ds j ≡ (if i == j then some v else get_elem? cs j)

pub set-Differs :
    (cs : List Call) (i : ℕ) (c v : Call) → get_elem? cs i ≡ some c → Differs cs (set cs i v) i v
set-Differs [] i c v h j = cc
set-Differs (x ∷ cs) zero c v h zero = refl
set-Differs (x ∷ cs) zero c v h (suc j) = ground arith
set-Differs (x ∷ cs) (suc i) c v h zero = ground arith
set-Differs (x ∷ cs) (suc i) c v h (suc j) = ground (arith, set-Differs cs i c v h j)

pub append-Differs : (cs : List Call) (v : Call) → Differs cs (cs ++ v ∷ []) (length cs) v
append-Differs [] v zero = refl
append-Differs [] v (suc j) = ground arith
append-Differs (x ∷ cs) v zero = ground arith
append-Differs (x ∷ cs) v (suc j) = ground (arith, append-Differs cs v j)

abbrev pub IsFresh : List Call → Type 0
IsFresh cs = (i : ℕ) (c : Call) → get_elem? cs i ≡ some c → c.phase ≡ started → c.done ≡ false

-- A value in the channel was put there by a hand-off.
abbrev pub IsToken : List Call → Type 0
IsToken cs = (i : ℕ) (c : Call) → get_elem? cs i ≡ some c → c.ch ≡ true → c.done ≡ true

-- A pending send has its receiver's buffer free.
abbrev pub HasRoom : List Call → Type 0
HasRoom cs =
    (i w : ℕ) (c : Call)
    → get_elem? cs i ≡ some c
    → c.phase ≡ sending w
    → (d : Call) × (get_elem? cs w ≡ some d) × (d.done ≡ true) × (d.ch ≡ false) × ((i == w) ≡ false)

abbrev pub IsSole : List Call → Type 0
IsSole cs =
    (i j w : ℕ) (c d : Call)
    → get_elem? cs i ≡ some c
    → get_elem? cs j ≡ some d
    → c.phase ≡ sending w
    → d.phase ≡ sending w
    → i ≡ j

-- A parked call that was handed a slot and has not been sent it has a sender on the way.
abbrev pub IsServed : List Call → Type 0
IsServed cs =
    (i : ℕ) (c : Call)
    → get_elem? cs i ≡ some c
    → c.phase ≡ parked
    → c.done ≡ true
    → c.ch ≡ false
    → (j : ℕ) × (d : Call) × (get_elem? cs j ≡ some d) × (d.phase ≡ sending i)

pub record CallsInv (cs : List Call) : Type 0 where
  pub fresh : IsFresh cs
  pub token : IsToken cs
  pub room : HasRoom cs
  pub sole : IsSole cs
  pub served : IsServed cs

-- One call is replaced, with no part in a send; `old` is what stood in its place.
module _ (cs ds : List Call) (i : ℕ) (old : Option Call) (v : Call) (at_i : get_elem? cs i ≡ old)
    (new : Differs cs ds i v) where
  -- A call of the new list is the new one, or stood there before.
  pub Differs-cases :
      (j : ℕ) (d : Call)
      → get_elem? ds j ≡ some d
      → ((i ≡ j) × (d ≡ v)) ⊎ (((i == j) ≡ false) × (get_elem? cs j ≡ some d))
  Differs-cases j d h = ground (arith, new j)

  pub update-IsFresh : IsFresh cs → (v.phase ≡ started → v.done ≡ false) → IsFresh ds
  update-IsFresh inv f j d h p = ground (arith, Differs-cases j d h, inv j d)

  pub update-IsToken : IsToken cs → (v.ch ≡ true → v.done ≡ true) → IsToken ds
  update-IsToken inv f j d h p = ground (arith, Differs-cases j d h, inv j d)

  pub update-HasRoom :
      HasRoom cs
      → ((w : ℕ) → v.phase ≡ sending w → ⊥)
      → ((c : Call)
          → old ≡ some c
          → c.done ≡ true
          → c.ch ≡ false
          → (v.done ≡ true) × (v.ch ≡ false))
      → HasRoom ds
  update-HasRoom inv silent keeps j w c h p = elim (Differs-cases j c h) [
    | inl (_, e) ↦ absurd (silent w (rw e at p))
    | inr (_, g) ↦
        let (d, at_w, done, room, other) = inv j w c g p in
        elim (Bool-cases (i == w)) [
          | inl e ↦
              (v, ground (arith, new w), ground (arith, keeps d), ground (arith, keeps d), other)
          | inr n ↦ (d, ground (arith, new w), done, room, other)
        ]
  ]

  pub update-IsSole : IsSole cs → ((w : ℕ) → v.phase ≡ sending w → ⊥) → IsSole ds
  update-IsSole inv silent j k w c d h g p q =
      ground (arith, Differs-cases j c h, Differs-cases k d g, silent w, inv j k w c d)

  pub update-IsServed :
      IsServed cs
      → (v.phase ≡ parked → v.done ≡ false)
      → ((c : Call) (w : ℕ) → old ≡ some c → c.phase ≡ sending w → ⊥)
      → IsServed ds
  update-IsServed inv unserved silent j c h p done empty = elim (Differs-cases j c h) [
    | inl (_, e) ↦ ground (arith, unserved)
    | inr (_, g) ↦
        let (k, d, at_k, q) = inv j c g p done empty in (k, d, ground (arith, new k, silent d j), q)
  ]
