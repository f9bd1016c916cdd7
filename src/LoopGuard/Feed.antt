-- ===== src/LoopGuard/Feed.antt =====
-- What the detector keeps of the text that it was fed, and when `add` trips.
use mathlib.Core.List.{append_assoc, append-nil}
use azoth.Base.{
  ℕ, zero, suc, ◌+◌, ◌-◌, ◌<◌, ◌≤◌, ◌≡◌, refl, sym, ap, ◌∙◌, ◌↔◌, inl, inr, true, List, [], ◌∷◌,
  ◌++◌, arith, ltb, leb, subst, if◌then◌else◌, length, drop, Bool-cases, length-drop, length-append,
}
use azoth.LoopGuard.{Detector, new_detector, keep_last, add, max_tail, check_every}
use azoth.LoopGuard.Cyclic.{EndsInCycle, cyclic_iff}

drop-append : (n : ℕ) (xs ys : List ℕ) → n ≤ length xs → drop n (xs ++ ys) ≡ drop n xs ++ ys
drop-append zero xs ys h = refl
drop-append (suc n) [] ys h = absurd (omega arith)
drop-append (suc n) (x ∷ xs) ys h = drop-append n xs ys (omega arith)

drop-nil : (n : ℕ) → drop {A = ℕ} n [] ≡ []
drop-nil zero = refl
drop-nil (suc n) = refl

drop-drop : (n m : ℕ) (xs : List ℕ) → drop n (drop m xs) ≡ drop (m + n) xs
drop-drop n zero xs = ap (λ k. drop k xs) (omega arith)
drop-drop n (suc m) [] = drop-nil n ∙ sym (drop-nil (suc m + n))
drop-drop n (suc m) (x ∷ xs) =
    drop-drop n m xs ∙ ap (λ k. drop k (x ∷ xs)) {x = suc (m + n)} (omega arith)

-- `keep_last` without its test: nothing is dropped from a short text.
keep_last-drop : (n : ℕ) (xs : List ℕ) → keep_last n xs ≡ drop (length xs - n) xs
unfolding keep_last
keep_last-drop n xs = elim (Bool-cases (ltb n (length xs))) [
  | inl e ↦ rw e refl
  | inr e ↦ rw e (ap (λ k. drop k xs) {x = 0} (ground arith))
]

pub length-keep_last : (n : ℕ) (xs : List ℕ) → length (keep_last n xs) ≤ n
length-keep_last n xs = rw (keep_last-drop n xs) (omega (arith, length-drop (length xs - n) xs))

-- To keep the end of what was kept and new text is to keep the end of the whole text.
pub keep_last-append :
    (n : ℕ) (h s : List ℕ) → keep_last n (keep_last n h ++ s) ≡ keep_last n (h ++ s)
keep_last-append n h s =
    let cut : ℕ = length h - n in
    let old = length-drop cut h in
    keep_last-drop n (keep_last n h ++ s)
    ∙ ap (λ xs. drop (length (xs ++ s) - n) (xs ++ s)) (keep_last-drop n h)
    ∙ ap (drop (length (drop cut h ++ s) - n)) (sym (drop-append cut h s (omega arith)))
    ∙ drop-drop (length (drop cut h ++ s) - n) cut (h ++ s)
    ∙ ap (λ k. drop k (h ++ s))
        (omega (arith, length-append (drop cut h) s, length-append h s, old))
    ∙ sym (keep_last-drop n (h ++ s))

add-tail : (d : Detector) (s : List ℕ) → (add d s).0.tail ≡ keep_last max_tail (d.tail ++ s)
unfolding add
add-tail d s = ground arith

-- The state after a row of fragments, none of which ended the stream.
unfoldable pub feed : Detector → List (List ℕ) → Detector
feed d [] = d
feed d (s ∷ ss) = feed (add d s).0 ss

abbrev pub joined : List (List ℕ) → List ℕ
joined [] = []
joined (s ∷ ss) = s ++ joined ss

-- However the text is cut into fragments, the detector holds its last 1024 runes.
pub feed-tail :
    (d : Detector) (h : List ℕ) (ss : List (List ℕ))
    → d.tail ≡ keep_last max_tail h
    → (feed d ss).tail ≡ keep_last max_tail (h ++ joined ss)
unfolding feed
feed-tail d h [] e = e ∙ ap (keep_last max_tail) (sym (append-nil h))
feed-tail d h (s ∷ ss) e =
    feed-tail (add d s).0 (h ++ s) ss
      (add-tail d s ∙ ap (λ t. keep_last max_tail (t ++ s)) e ∙ keep_last-append max_tail h s)
    ∙ ap (keep_last max_tail) (append_assoc h s (joined ss))

-- The runes that wait for a scan behind a row of fragments: there is a scan behind a fragment as soon
-- as 64 of them do.
abbrev pub waiting : ℕ → List (List ℕ) → ℕ
waiting n [] = n
waiting n (s ∷ ss) =
    let later = waiting (n + length s) ss in
    let scanned = waiting 0 ss in if leb check_every (n + length s) then scanned else later

add-since :
    (d : Detector) (s : List ℕ)
    → (add d s).0.since ≡ (if leb check_every (d.since + length s) then 0 else d.since + length s)
unfolding add
add-since d s = ground arith

waiting_cons :
    (n : ℕ) (s : List ℕ) (ss : List (List ℕ))
    → waiting n (s ∷ ss) ≡ waiting (if leb check_every (n + length s) then 0 else n + length s) ss
waiting_cons n s ss = elim (Bool-cases (leb check_every (n + length s))) [
  | inl e ↦ rw e refl
  | inr e ↦ rw e refl
]

feed-since : (d : Detector) (ss : List (List ℕ)) → (feed d ss).since ≡ waiting d.since ss
unfolding feed
feed-since d [] = refl
feed-since d (s ∷ ss) =
    feed-since (add d s).0 ss
    ∙ ap (λ n. waiting n ss) (add-since d s)
    ∙ sym (waiting_cons d.since s ss)

held-trips_iff :
    (d : Detector) (h s : List ℕ)
    → d.tail ≡ keep_last max_tail h
    → ((add d s).1 ≡ true)
      ↔ ((check_every ≤ d.since + length s) × EndsInCycle (keep_last max_tail (h ++ s)))
unfolding add
held-trips_iff d h s e =
    let held : keep_last max_tail (d.tail ++ s) ≡ keep_last max_tail (h ++ s) =
      ap (λ t. keep_last max_tail (t ++ s)) e ∙ keep_last-append max_tail h s in
    let spec = cyclic_iff (keep_last max_tail (h ++ s)) in
    elim (Bool-cases (ltb (d.since + length s) check_every)) [
      | inl soon ↦ rw soon (λ x. cc, λ x. absurd (ground (arith, x.0)))
      | inr due ↦ rw (due, held) (λ x. (ground arith, spec.0 x), λ x. spec.1 x.1)
    ]

-- A new detector that was fed some fragments trips at the next one exactly when the runes since the
-- last scan, those of the fragment included, are 64 or more and the last 1024 runes of the whole text
-- end in a cycle.
pub add-trips_iff :
    (ss : List (List ℕ)) (s : List ℕ)
    → ((add (feed new_detector ss) s).1 ≡ true) ↔ (
        (check_every ≤ waiting 0 ss + length s) × EndsInCycle (keep_last max_tail (joined ss ++ s)))
unfolding keep_last
add-trips_iff ss s =
    subst
      (λ n.
        ((add (feed new_detector ss) s).1 ≡ true)
        ↔ ((check_every ≤ n + length s) × EndsInCycle (keep_last max_tail (joined ss ++ s))))
      (feed-since new_detector ss)
      (held-trips_iff (feed new_detector ss) (joined ss) s (feed-tail new_detector [] ss refl))

-- After any fragment fewer than 64 runes are waiting for a scan, and at most 1024 are held.
pub add_bounds :
    (d : Detector) (s : List ℕ)
    → ((add d s).0.since < check_every) × (length (add d s).0.tail ≤ max_tail)
unfolding add
add_bounds d s = ground (arith, length-keep_last max_tail (d.tail ++ s))
