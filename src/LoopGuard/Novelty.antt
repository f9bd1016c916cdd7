-- ===== src/LoopGuard/Novelty.antt =====
-- The novelty check: what `distinctShingleRatio` counts, and when one step of `addReasoning` trips.
pub mod History
use azoth.Base.{
  ℕ, zero, suc, ◌+◌, ◌-◌, ◌*◌, ◌/◌, ◌<◌, ◌≤◌, ◌≡◌, refl, ◌∙◌, ◌↔◌, ◌⊎◌, inl, inr, true, List, [],
  ◌∷◌, ◌++◌, arith, leb, ltb, length, take, drop, Bool-cases, leb→le, Bool, false, not, ◌&&◌, ◌||◌,
  ap, sym, if◌then◌else◌, if_true, if_false, length-drop, subst,
}
use azoth.LoopGuard.Feed.{keep_last-append}
use azoth.LoopGuard.{
  Detector, new_detector, keep_last, add, add_novelty, add_reasoning, count_shingles,
  distinct_shingle_ratio, below_floor, put_hash, hash_runes, offset64, shingle_runes, stride,
  window_runes, novelty_check_every,
}

count_shingles_stop :
    (fuel : ℕ) (buf : List ℕ) (i : ℕ) (seen : List ℕ) (total : ℕ)
    → length buf < i + shingle_runes
    → (count_shingles fuel buf i seen total).total ≡ total
unfolding count_shingles
count_shingles_stop zero buf i seen total h = refl
count_shingles_stop (suc fuel) buf i seen total h = ground arith

count_shingles-total :
    (fuel : ℕ) (buf : List ℕ) (i : ℕ) (seen : List ℕ) (total : ℕ)
    → i + shingle_runes ≤ length buf
    → length buf < i + stride * fuel
    → (count_shingles fuel buf i seen total).total
      ≡ total + (length buf - shingle_runes - i) / stride + 1
unfolding count_shingles
count_shingles-total zero buf i seen total h k = absurd (omega arith)
count_shingles-total (suc fuel) buf i seen total h k =
    let hash : ℕ = hash_runes offset64 (take shingle_runes (drop i buf)) in
    let go : leb (i + shingle_runes) (length buf) ≡ true = ground arith in
    rw go (elim (Bool-cases (leb (i + stride + shingle_runes) (length buf))) [
      | inl more ↦
          count_shingles-total fuel buf (i + stride) (put_hash hash seen) (total + 1) (ground arith)
            (ground arith)
          ∙ omega (arith, leb→le _ _ more)
      | inr last ↦
          count_shingles_stop fuel buf (i + stride) (put_hash hash seen) (total + 1) (ground arith)
          ∙ ground arith
    ])

length-put_hash : (h : ℕ) (seen : List ℕ) → length (put_hash h seen) ≤ length seen + 1
length-put_hash h seen = ground arith

count_shingles-distinct :
    (fuel : ℕ) (buf : List ℕ) (i : ℕ) (seen : List ℕ) (total : ℕ)
    → length seen ≤ total
    → (count_shingles fuel buf i seen total).distinct ≤ (count_shingles fuel buf i seen total).total
unfolding count_shingles
count_shingles-distinct zero buf i seen total h = h
count_shingles-distinct (suc fuel) buf i seen total h =
    let hash : ℕ = hash_runes offset64 (take shingle_runes (drop i buf)) in
    ground (
      arith,
      count_shingles-distinct fuel buf (i + stride) (put_hash hash seen) (total + 1),
      length-put_hash hash seen,
    )

-- The loop of the ratio runs to its end: a text of at least 24 runes has one shingle at every
-- eighth offset that leaves room for it, and no more distinct ones than that.
pub distinct_shingle_ratio-total :
    (buf : List ℕ)
    → shingle_runes ≤ length buf
    → ((distinct_shingle_ratio buf).total ≡ (length buf - shingle_runes) / stride + 1)
      × ((distinct_shingle_ratio buf).distinct ≤ (distinct_shingle_ratio buf).total)
unfolding distinct_shingle_ratio
distinct_shingle_ratio-total buf h = ground (
  arith,
  count_shingles-total (length buf) buf 0 [] 0,
  count_shingles-distinct (length buf) buf 0 [] 0,
)

-- What `add` leaves alone.
pub add-novelty_fields :
    (d : Detector) (s : List ℕ)
    → ((add d s).0.rbuf ≡ d.rbuf)
      × ((add d s).0.rsince ≡ d.rsince)
      × ((add d s).0.low_streak ≡ d.low_streak)
unfolding add
add-novelty_fields d s = ground arith

-- A full window, a scan that is due and low, and two low scans before it.
abbrev pub Retreads : Detector → List ℕ → Type 0
Retreads d s =
    (window_runes ≤ length (keep_last window_runes (d.rbuf ++ s)))
    × (novelty_check_every ≤ d.rsince + length s)
    × (below_floor (distinct_shingle_ratio (keep_last window_runes (d.rbuf ++ s))) ≡ true)
    × (2 ≤ d.low_streak)

add_novelty_sound : (d : Detector) (s : List ℕ) → (add_novelty d s).1 ≡ true → Retreads d s
unfolding add_novelty
add_novelty_sound d s h = ground arith

add_novelty_complete : (d : Detector) (s : List ℕ) → Retreads d s → (add_novelty d s).1 ≡ true
unfolding add_novelty
add_novelty_complete d s h = ground arith

Retreads-add :
    (d : Detector) (s : List ℕ)
    → (Retreads (add d s).0 s → Retreads d s) × (Retreads d s → Retreads (add d s).0 s)
Retreads-add d s =
    let (e, f, g) = add-novelty_fields d s in (λ h. rw (e, f, g) at h, λ h. rw (e, f, g) h)

pub step-trips_iff :
    (d : Detector) (s : List ℕ)
    → ((add_reasoning d s).1 ≡ true) ↔ (((add d s).1 ≡ true) ⊎ Retreads d s)
unfolding add_reasoning
step-trips_iff d s =
    let (back, forth) = Retreads-add d s in
    elim (Bool-cases (add d s).1) [
      | inl e ↦ rw e (λ h. inl refl, λ h. refl)
      | inr e ↦ rw e (
        λ h. inr (back (add_novelty_sound (add d s).0 s h)),
        λ h. elim h [ inl x ↦ cc | inr x ↦ add_novelty_complete (add d s).0 s (forth x) ],
      )
    ]
