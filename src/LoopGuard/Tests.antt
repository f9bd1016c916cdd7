-- ===== src/LoopGuard/Tests.antt =====
-- Texts that trip the detector and texts that do not, and its theorems at them.
use azoth.Base.{ℕ, ◌+◌, ◌≤◌, ◌≡◌, ◌↔◌, ◌⊎◌, refl, true, false, List, [], ◌∷◌, ◌++◌, length}
use azoth.Base.Text.{codes}
use azoth.LoopGuard.{
  new_detector, keep_last, add, add_reasoning, add_novelty, cyclic, max_tail, check_every,
}
use azoth.LoopGuard.Cyclic.{EndsInCycle, repeat, cyclic_iff}
use azoth.LoopGuard.Feed.{feed, joined, waiting, add-trips_iff}
use azoth.LoopGuard.Novelty.History.{
  IsRetread, Untripped, feed_reasoning, history, nothing_fed, add_reasoning-trips_iff,
}

abbrev looping : List ℕ
looping = repeat 22 (codes "the")

cyclic-looping : cyclic looping ≡ true
unfolding cyclic
cyclic-looping = refl

cyclic_prose : cyclic (codes "It watches a rolling tail of the generated text and trips.") ≡ false
unfolding cyclic
cyclic_prose = refl

add-looping : (add new_detector looping).1 ≡ true
unfolding add cyclic
add-looping = refl

add_too_soon : (add new_detector (repeat 20 (codes "the"))).1 ≡ false
unfolding add cyclic
add_too_soon = refl

-- Fed in two fragments, of which the first is too short for a scan.
add-trips_iff_example :
    ((add (feed new_detector (repeat 20 (codes "the") ∷ [])) (codes "thethe")).1 ≡ true) ↔ (
      (check_every ≤ waiting 0 (repeat 20 (codes "the") ∷ []) + length (codes "thethe"))
      × EndsInCycle (keep_last max_tail (joined (repeat 20 (codes "the") ∷ []) ++ codes "thethe")))
add-trips_iff_example = add-trips_iff (repeat 20 (codes "the") ∷ []) (codes "thethe")

trips_later : (add (feed new_detector (repeat 20 (codes "the") ∷ [])) (codes "thethe")).1 ≡ true
unfolding feed add cyclic
trips_later = refl

cyclic_iff_example : (cyclic looping ≡ true) ↔ EndsInCycle looping
cyclic_iff_example = cyclic_iff looping

thought_calmly : Untripped new_detector (codes "hm" ∷ [])
unfolding Untripped add_reasoning add add_novelty
thought_calmly = (refl, tt)

add_reasoning-trips_iff_example :
    ((add_reasoning (feed_reasoning new_detector (codes "hm" ∷ [])) looping).1 ≡ true) ↔ (
      ((add (feed_reasoning new_detector (codes "hm" ∷ [])) looping).1 ≡ true)
      ⊎ IsRetread (history nothing_fed (codes "hm" ∷ [])) looping)
add_reasoning-trips_iff_example = add_reasoning-trips_iff (codes "hm" ∷ []) looping thought_calmly
