-- ===== src/LoopGuard/Novelty/History.antt =====
-- When `addReasoning` trips, by the text that it was fed and the scans of that.
use azoth.Base.{
  ℕ, suc, ◌+◌, ◌-◌, ◌≤◌, ◌≡◌, refl, ◌∙◌, ◌↔◌, ◌⊎◌, inl, inr, true, List, [], ◌∷◌, ◌++◌, arith, leb,
  ltb, length, Bool-cases, Bool, false, not, ◌&&◌, ◌||◌, ap, if◌then◌else◌, length-drop,
}
use azoth.LoopGuard.Feed.{keep_last-append}
use azoth.LoopGuard.{
  Detector, new_detector, keep_last, add, add_novelty, add_reasoning, distinct_shingle_ratio,
  below_floor, window_runes, novelty_check_every,
}
use azoth.LoopGuard.Novelty.{add-novelty_fields, Retreads, step-trips_iff}

-- What was fed: the whole text, the runes of it since the last scan, and whether each scan was below
-- the floor, the newest first.
pub record History : Type 0 where
  pub text : List ℕ
  pub fresh : ℕ
  pub scans : List Bool

abbrev pub nothing_fed : History
nothing_fed = record { text = []; fresh = 0; scans = [] }

-- A scan is due behind 256 new runes, once there are 3072 in all.
abbrev pub is_due : History → List ℕ → Bool
is_due h s = leb window_runes (length (h.text ++ s)) && leb novelty_check_every (h.fresh + length s)

-- The ratio over the last 3072 runes is below the floor.
abbrev pub is_low : History → List ℕ → Bool
is_low h s = below_floor (distinct_shingle_ratio (keep_last window_runes (h.text ++ s)))

abbrev pub fed : History → List ℕ → History
fed h s =
    if is_due h s
    then record { text = h.text ++ s; fresh = 0; scans = is_low h s ∷ h.scans }
    else record h { text = h.text ++ s; fresh = h.fresh + length s }

abbrev pub history : History → List (List ℕ) → History
history h [] = h
history h (s ∷ ss) = history (fed h s) ss

-- The detector behind a row of fragments of reasoning.
unfoldable pub feed_reasoning : Detector → List (List ℕ) → Detector
feed_reasoning d [] = d
feed_reasoning d (s ∷ ss) = feed_reasoning (add_reasoning d s).0 ss

-- None of the fragments tripped, so that the stream went on.
unfoldable pub Untripped : Detector → List (List ℕ) → Type 0
Untripped d [] = Unit
Untripped d (s ∷ ss) = ((add_reasoning d s).1 ≡ false) × Untripped (add_reasoning d s).0 ss

abbrev streak : List Bool → ℕ
streak [] = 0
streak (true ∷ bs) = suc (streak bs)
streak (false ∷ bs) = 0

abbrev pub two_low : List Bool → Bool
two_low (true ∷ true ∷ bs) = true
two_low _ = false

streak-two_low : (bs : List Bool) → (2 ≤ streak bs) ↔ (two_low bs ≡ true)
streak-two_low [] = (λ h. absurd (omega (arith, h)), λ h. absurd cc)
streak-two_low (false ∷ bs) = (λ h. absurd (omega (arith, h)), λ h. absurd cc)
streak-two_low (true ∷ []) = (λ h. absurd (omega (arith, h)), λ h. absurd cc)
streak-two_low (true ∷ false ∷ bs) = (λ h. absurd (omega (arith, h)), λ h. absurd cc)
streak-two_low (true ∷ true ∷ bs) = (λ h. refl, λ h. omega arith)

record Follows (h : History) (d : Detector) : Type 0 where
  window : d.rbuf ≡ keep_last window_runes h.text
  since : d.rsince ≡ h.fresh
  low : d.low_streak ≡ streak h.scans

held-window :
    (h : History) (d : Detector) (s : List ℕ)
    → Follows h d
    → keep_last window_runes (d.rbuf ++ s) ≡ keep_last window_runes (h.text ++ s)
held-window h d s f =
    ap (λ b. keep_last window_runes (b ++ s)) f.window ∙ keep_last-append window_runes h.text s

window-full :
    (xs : List ℕ)
    → ltb (length (keep_last window_runes xs)) window_runes ≡ not (leb window_runes (length xs))
unfolding keep_last
window-full xs = ground (arith, length-drop (length xs - window_runes) xs)

scan_due :
    (h : History) (d : Detector) (s : List ℕ)
    → Follows h d
    → (ltb (length (keep_last window_runes (d.rbuf ++ s))) window_runes
        || ltb (d.rsince + length s) novelty_check_every)
      ≡ not (is_due h s)
scan_due h d s f = rw (held-window h d s f, f.since, window-full (h.text ++ s)) (ground arith)

new-window : new_detector.rbuf ≡ keep_last window_runes []
unfolding keep_last
new-window = refl

next_streak :
    (b : Bool) (n : ℕ) (bs : List Bool) → n ≡ streak bs → (if b then n + 1 else 0) ≡ streak (b ∷ bs)
next_streak true n bs h = omega (arith, h)
next_streak false n bs h = refl

add_novelty-Follows :
    (h : History) (d : Detector) (s : List ℕ) → Follows h d → Follows (fed h s) (add_novelty d s).0
unfolding add_novelty
add_novelty-Follows h d s f = elim (Bool-cases (is_due h s)) [
  | inl due ↦
      rw (due, scan_due h d s f ∙ ap not due)
        (record {
          window = held-window h d s f;
          since = refl;
          low =
              ap (λ w. if below_floor (distinct_shingle_ratio w) then d.low_streak + 1 else 0)
                (held-window h d s f)
              ∙ next_streak (is_low h s) d.low_streak h.scans f.low;
        })
  | inr idle ↦
      rw (idle, scan_due h d s f ∙ ap not idle)
        (record {
          window = held-window h d s f;
          since = ap (λ n. n + length s) f.since;
          low = f.low;
        })
]

add-Follows : (h : History) (d : Detector) (s : List ℕ) → Follows h d → Follows h (add d s).0
add-Follows h d s f =
    let (a, b, c) = add-novelty_fields d s in
    record { window = a ∙ f.window; since = b ∙ f.since; low = c ∙ f.low }

untripped-Follows :
    (h : History) (d : Detector) (s : List ℕ)
    → (add_reasoning d s).1 ≡ false
    → Follows h d
    → Follows (fed h s) (add_reasoning d s).0
unfolding add_reasoning
untripped-Follows h d s calm f = elim (Bool-cases (add d s).1) [
  | inl e ↦ let c : true ≡ false = rw e at calm in absurd cc
  | inr e ↦ rw e (add_novelty-Follows h (add d s).0 s (add-Follows h d s f))
]

feed_reasoning-Follows :
    (h : History) (d : Detector) (ss : List (List ℕ))
    → Untripped d ss
    → Follows h d
    → Follows (history h ss) (feed_reasoning d ss)
unfolding feed_reasoning Untripped
feed_reasoning-Follows h d [] u f = f
feed_reasoning-Follows h d (s ∷ ss) u f =
    feed_reasoning-Follows (fed h s) (add_reasoning d s).0 ss u.1 (untripped-Follows h d s u.0 f)

-- A scan that is due and low, behind two that were low.
abbrev pub IsRetread : History → List ℕ → Type 0
IsRetread h s = (is_due h s ≡ true) × (is_low h s ≡ true) × (two_low h.scans ≡ true)

Retreads-IsRetread :
    (h : History) (d : Detector) (s : List ℕ)
    → Follows h d
    → (Retreads d s → IsRetread h s) × (IsRetread h s → Retreads d s)
Retreads-IsRetread h d s f =
    let full = window-full (h.text ++ s) in
    let streak_iff = streak-two_low h.scans in
    (
      λ r.
          let (a, b, c, e) = rw (held-window h d s f, f.since, f.low) at r in
          (ground (arith, a, b, full), c, streak_iff.0 e),
      λ r.
          let (due, c, e) = r in
          rw (held-window h d s f, f.since, f.low)
            (ground (arith, due, full), ground (arith, due), c, streak_iff.1 e),
    )

-- Reasoning that was fed in some fragments, none of which tripped, trips the guard at the next one
-- exactly when the cyclic check does, or when 3072 runes have been fed and 256 since the last scan,
-- and the scan that is due then is below the floor, as the last two were.
pub add_reasoning-trips_iff :
    (ss : List (List ℕ)) (s : List ℕ)
    → Untripped new_detector ss
    → ((add_reasoning (feed_reasoning new_detector ss) s).1 ≡ true)
      ↔ (((add (feed_reasoning new_detector ss) s).1 ≡ true) ⊎ IsRetread (history nothing_fed ss) s)
add_reasoning-trips_iff ss s u =
    let d = feed_reasoning new_detector ss in
    let (there, back) = Retreads-IsRetread (history nothing_fed ss) d s (
      feed_reasoning-Follows nothing_fed new_detector ss u
        (record { window = new-window; since = refl; low = refl })) in
    let (trips, fires) = step-trips_iff d s in
    (
      λ h. elim (trips h) [ inl x ↦ inl x | inr x ↦ inr (there x) ],
      λ h. fires (elim h [ inl x ↦ inl x | inr x ↦ inr (back x) ]),
    )
