-- ===== src/LoopGuard/Cyclic.antt =====
-- The cyclic check against its meaning: the text ends in one block repeated.
use azoth.Base.{
  ℕ, zero, suc, ◌+◌, ◌-◌, ◌*◌, ◌/◌, ◌<◌, ◌≤◌, ◌≡◌, refl, sym, ap, ◌∙◌, ◌↔◌, inl, inr, true, false,
  Option, none, some, List, [], ◌∷◌, ◌++◌, arith, ◌==◌, ltb, length, get_elem?, take, drop,
  Bool-cases, length-drop, length-take, drop-length, length-append, take-append-drop, list_ext,
  get_elem?-drop, get_elem?-take, get_elem?-append_left, get_elem?-append_right,
}
use mathlib.Core.List.{append-nil, append_assoc}
use native.Mathlib.Nat.{div-add-mod, mod-lt}
use azoth.LoopGuard.{
  same, compare_from, is_cyclic_suffix, reps_of, span_of, scan_units, max_unit, cyclic, min_reps,
  min_repeat_len, max_cycle_runes,
}

-- `n` copies of a block.
abbrev pub repeat {ℓ} : {A : Type ℓ} → ℕ → List A → List A
repeat zero b = []
repeat (suc n) b = b ++ repeat n b

-- Every rune from index `unit` on is the one `unit` places before it.
abbrev pub HasPeriod : List ℕ → ℕ → Type 0
HasPeriod suf unit =
    (i : ℕ) → unit ≤ i → i < length suf → get_elem? suf i ≡ get_elem? suf (i - unit)

same_refl : (xs : List ℕ) (i : ℕ) → i < length xs → same (get_elem? xs i) (get_elem? xs i) ≡ true
same_refl [] i h = absurd (omega arith)
same_refl (x ∷ xs) zero h = ground arith
same_refl (x ∷ xs) (suc i) h = same_refl xs i (omega arith)

same→eq : (a b : Option ℕ) → same a b ≡ true → a ≡ b
same→eq none b h = cc
same→eq (some a) none h = cc
same→eq (some a) (some b) h = ground arith

compare_from_sound :
    (fuel : ℕ) (suf : List ℕ) (unit i : ℕ)
    → compare_from fuel suf unit i ≡ true
    → (j : ℕ) → i ≤ j
    → j < i + fuel
    → get_elem? suf j ≡ get_elem? suf (j - unit)
unfolding compare_from
compare_from_sound zero suf unit i h j lo hi = absurd (omega arith)
compare_from_sound (suc fuel) suf unit i h j lo hi =
    elim (Bool-cases (same (get_elem? suf i) (get_elem? suf (i - unit)))) [
      | inr e ↦ absurd (ground arith)
      | inl e ↦ elim (Bool-cases (i == j)) [
        | inl q ↦ ground (arith, same→eq (get_elem? suf i) (get_elem? suf (i - unit)) e)
        | inr q ↦
            compare_from_sound fuel suf unit (suc i) (ground arith) j (ground arith) (omega arith)
      ]
    ]

compare_from_complete :
    (fuel : ℕ) (suf : List ℕ) (unit i : ℕ)
    → i + fuel ≡ length suf
    → ((j : ℕ) → i ≤ j → j < length suf → get_elem? suf j ≡ get_elem? suf (j - unit))
    → compare_from fuel suf unit i ≡ true
unfolding compare_from
compare_from_complete zero suf unit i e h = refl
compare_from_complete (suc fuel) suf unit i e h =
    let now : same (get_elem? suf i) (get_elem? suf (i - unit)) ≡ true =
      rw (← h i (omega arith) (omega arith)) (same_refl suf i (omega arith)) in
    rw now
      (compare_from_complete fuel suf unit (suc i) (omega arith) (λ j lo hi. h j (omega arith) hi))

is_cyclic_suffix_iff :
    (b : List ℕ) (unit span : ℕ)
    → unit ≤ span
    → span ≤ length b
    → (is_cyclic_suffix b unit span ≡ true) ↔ HasPeriod (drop (length b - span) b) unit
unfolding is_cyclic_suffix
is_cyclic_suffix_iff b unit span lo hi =
    let e = length-drop (length b - span) b in
    (
      λ h j l r. compare_from_sound (span - unit) _ unit unit h j l (omega arith),
      λ h. compare_from_complete (span - unit) _ unit unit (omega arith) h,
    )

length-repeat {ℓ} : {A : Type ℓ} (n : ℕ) (b : List A) → length (repeat n b) ≡ length b * n
length-repeat zero b = omega arith
length-repeat (suc n) b = grind (arith, length-append b (repeat n b), length-repeat n b)

repeat_comm {ℓ} : {A : Type ℓ} (n : ℕ) (b : List A) → b ++ repeat n b ≡ repeat n b ++ b
repeat_comm zero b = append-nil b
repeat_comm (suc n) b = ap (◌++◌ b) (repeat_comm n b) ∙ sym (append_assoc b (repeat n b) b)

repeat-HasPeriod : (n : ℕ) (b : List ℕ) → HasPeriod (repeat n b) (length b)
repeat-HasPeriod zero b i lo hi = absurd (omega arith)
repeat-HasPeriod (suc n) b i lo hi =
    let k : ℕ = i - length b in
    let e : i ≡ length b + k = omega arith in
    let short : k < length (repeat n b) = omega (arith, length-append b (repeat n b)) in
    ap (get_elem? (b ++ repeat n b)) e
    ∙ get_elem?-append_right b (repeat n b) k
    ∙ sym (get_elem?-append_left (repeat n b) b k short)
    ∙ ap (λ xs. get_elem? xs k) (sym (repeat_comm n b))

-- What lies a period further on has the period too.
drop-HasPeriod : (suf : List ℕ) (unit : ℕ) → HasPeriod suf unit → HasPeriod (drop unit suf) unit
drop-HasPeriod suf unit h i lo hi =
    get_elem?-drop unit suf i
    ∙ h (unit + i) (omega arith) (omega (arith, length-drop unit suf))
    ∙ ap (get_elem? suf) (omega arith)
    ∙ sym (get_elem?-drop unit suf (i - unit))

next_block :
    (suf : List ℕ) (unit : ℕ)
    → unit + unit ≤ length suf
    → HasPeriod suf unit
    → take unit (drop unit suf) ≡ take unit suf
next_block suf unit e h =
    list_ext (take unit (drop unit suf)) (take unit suf)
      (omega (arith, length-take unit suf, length-take unit (drop unit suf), length-drop unit suf))
      λ i l.
        let short : i < unit = omega (arith, length-take unit (drop unit suf)) in
        get_elem?-take unit (drop unit suf) i short
        ∙ get_elem?-drop unit suf i
        ∙ h (unit + i) (omega arith) (omega arith)
        ∙ ap (get_elem? suf) (omega arith)
        ∙ sym (get_elem?-take unit suf i short)

HasPeriod-repeat :
    (reps : ℕ) (suf : List ℕ) (unit : ℕ)
    → length suf ≡ unit * reps
    → HasPeriod suf unit
    → suf ≡ repeat reps (take unit suf)
HasPeriod-repeat zero suf unit e h = list_ext suf [] (omega arith) (λ i l. absurd (omega arith))
HasPeriod-repeat (suc zero) suf unit e h =
    sym (take-append-drop unit suf)
    ∙ ap (◌++◌ (take unit suf)) (
        list_ext (drop unit suf) [] (omega (arith, length-drop unit suf))
          (λ i l. absurd (omega (arith, length-drop unit suf))))
HasPeriod-repeat (suc (suc n)) suf unit e h =
    let size : length suf ≡ unit + unit + unit * n = grind arith in
    sym (take-append-drop unit suf)
    ∙ ap (◌++◌ (take unit suf)) (
        HasPeriod-repeat (suc n) (drop unit suf) unit (grind (arith, length-drop unit suf))
          (drop-HasPeriod suf unit h)
        ∙ ap (repeat (suc n)) (next_block suf unit (omega arith) h))

factor_pos : (a b : ℕ) → 48 ≤ a * b → 1 ≤ b
factor_pos a zero h = absurd (omega arith)
factor_pos a (suc b) h = omega arith

-- The span that is compared is at least 48 runes, and at least four units.
span_bounds :
    (u : ℕ) → 1 ≤ u → (min_repeat_len ≤ span_of u) × (u * min_reps ≤ span_of u) × (1 ≤ reps_of u)
span_bounds u h = elim (Bool-cases (ltb (u * min_reps) min_repeat_len)) [
  | inl e ↦ rw e (
      let q : ℕ = (min_repeat_len + u - 1) / u in
      let big : 48 ≤ u * q = omega (
        arith,
        div-add-mod (min_repeat_len + u - 1) u,
        mod-lt (min_repeat_len + u - 1) {m = u} h,
      ) in
      (big, ground arith, factor_pos u q big))
  | inr e ↦ rw e (ground arith, ground arith, ground arith)
]

-- The text ends in one block, of 1 to 128 runes, that stands there `reps_of` times in a row.
abbrev pub EndsInCycle : List ℕ → Type 0
EndsInCycle tail =
    (pre : List ℕ) × (block : List ℕ) × (tail ≡ pre ++ repeat (reps_of (length block)) block)
    × (1 ≤ length block)
    × (length block ≤ max_cycle_runes)

CyclicAt : List ℕ → ℕ → Type 0
CyclicAt tail u = (span_of u ≤ length tail) × (is_cyclic_suffix tail u (span_of u) ≡ true)

scan_units_sound :
    (rounds unit : ℕ) (tail : List ℕ)
    → scan_units rounds unit tail ≡ true
    → (u : ℕ) × (unit ≤ u) × (u < unit + rounds) × CyclicAt tail u
unfolding scan_units CyclicAt
scan_units_sound zero unit tail h = cc
scan_units_sound (suc rounds) unit tail h = elim (Bool-cases (ltb (length tail) (span_of unit))) [
  | inl e ↦ later (scan_units_sound rounds (suc unit) tail (ground arith))
  | inr e ↦ elim (Bool-cases (is_cyclic_suffix tail unit (span_of unit))) [
    | inl c ↦ (unit, omega arith, omega arith, (ground arith, c))
    | inr c ↦ later (scan_units_sound rounds (suc unit) tail (ground arith))
  ]
]
  where
    later :
        (u : ℕ) × (suc unit ≤ u) × (u < suc unit + rounds) × CyclicAt tail u
        → (u : ℕ) × (unit ≤ u) × (u < unit + suc rounds) × CyclicAt tail u
    later (u, lo, hi, c) = (u, omega arith, omega arith, c)

scan_units_complete :
    (rounds unit : ℕ) (tail : List ℕ) (u : ℕ)
    → unit ≤ u
    → u < unit + rounds
    → CyclicAt tail u
    → scan_units rounds unit tail ≡ true
unfolding scan_units CyclicAt
scan_units_complete zero unit tail u lo hi c = absurd (omega arith)
scan_units_complete (suc rounds) unit tail u lo hi c =
    ground (arith, scan_units_complete rounds (suc unit) tail u)

cyclic_at→EndsInCycle :
    (tail : List ℕ) (u : ℕ) → 1 ≤ u → u ≤ max_cycle_runes → CyclicAt tail u → EndsInCycle tail
unfolding CyclicAt
cyclic_at→EndsInCycle tail u lo hi (fits, c) =
    let (long, four, some_reps) = span_bounds u lo in
    let cut : ℕ = length tail - span_of u in
    let suf : List ℕ = drop cut tail in
    let size : length suf ≡ span_of u = omega (arith, length-drop cut tail) in
    let period = (is_cyclic_suffix_iff tail u (span_of u) (omega arith) fits).0 c in
    let block : length (take u suf) ≡ u = omega (arith, length-take u suf) in
    (
      take cut tail,
      take u suf,
      sym (take-append-drop cut tail)
          ∙ ap (◌++◌ (take cut tail)) (HasPeriod-repeat (reps_of u) suf u size period)
          ∙ ap (λ n. take cut tail ++ repeat (reps_of n) (take u suf)) (sym block),
      omega arith,
      omega arith,
    )

EndsInCycle→cyclic_at :
    (tail pre block : List ℕ)
    → tail ≡ pre ++ repeat (reps_of (length block)) block
    → 1 ≤ length block
    → CyclicAt tail (length block)
unfolding CyclicAt
EndsInCycle→cyclic_at tail pre block e lo =
    let u : ℕ = length block in
    let copies : List ℕ = repeat (reps_of u) block in
    let (long, four, some_reps) = span_bounds u lo in
    let size : length copies ≡ span_of u = length-repeat (reps_of u) block in
    let total : length tail ≡ length pre + span_of u =
      ap length e ∙ length-append pre copies ∙ ap (λ n. length pre + n) size in
    let cut : length tail - span_of u ≡ length pre = omega arith in
    let suffix : drop (length tail - span_of u) tail ≡ copies =
      ap (λ n. drop n tail) cut ∙ ap (drop (length pre)) e ∙ drop-length pre copies in
    let within : u ≤ span_of u = omega arith in
    let fits : span_of u ≤ length tail = omega arith in
    (
      fits,
      (is_cyclic_suffix_iff tail u (span_of u) within fits).1
          (rw suffix (repeat-HasPeriod (reps_of u) block)),
    )

CyclicAt-fits : (tail : List ℕ) (u : ℕ) → CyclicAt tail u → span_of u ≤ length tail
unfolding CyclicAt
CyclicAt-fits tail u c = c.0

long_enough : {n : ℕ} → min_repeat_len ≤ n → ltb n min_repeat_len ≡ false
long_enough h = ground arith

below_max_unit : (n u : ℕ) → u * min_reps ≤ n → u ≤ max_cycle_runes → u < 1 + max_unit n
below_max_unit n u h k = ground arith

-- The cyclic check fires exactly when the text ends in a block of 1 to 128 runes repeated often
-- enough to be a degenerate loop: four times, and more where four copies are under 48 runes.
pub cyclic_iff : (tail : List ℕ) → (cyclic tail ≡ true) ↔ EndsInCycle tail
unfolding cyclic
cyclic_iff tail = (fires, holds)
  where
    fires : cyclic tail ≡ true → EndsInCycle tail
    fires h = elim (Bool-cases (ltb (length tail) min_repeat_len)) [
      | inl e ↦ absurd (ground arith)
      | inr e ↦
          let (u, lo, hi, c) = scan_units_sound (max_unit (length tail)) 1 tail (ground arith) in
          cyclic_at→EndsInCycle tail u lo (ground arith) c
    ]

    holds : EndsInCycle tail → cyclic tail ≡ true
    holds (pre, block, e, lo, hi) =
        let c = EndsInCycle→cyclic_at tail pre block e lo in
        let (long, four, some_reps) = span_bounds (length block) lo in
        let fits = CyclicAt-fits tail (length block) c in
        rw (long_enough {n = length tail} (omega arith)) (
          scan_units_complete (max_unit (length tail)) 1 tail (length block) lo
            (below_max_unit _ _ (omega arith) hi) c)
