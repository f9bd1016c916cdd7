-- ===== src/Message/Filter.antt =====
-- `FilterForRequest`.
use azoth.Base.{◌≡◌, refl, false, not, List, [], ◌∷◌, arith, All, if-elim, sym, subst}
use azoth.Message.{Message, any_ignored, skip_ignored, filter_for_request}

skip_none : (ms : List Message) → any_ignored ms ≡ false → skip_ignored ms ≡ ms
skip_none [] h = refl
skip_none (m ∷ ms) h = ground (arith, skip_none ms)

skip_ignored-All : (ms : List Message) → All (λ m. m.ignored ≡ false) (skip_ignored ms)
skip_ignored-All [] = tt
skip_ignored-All (m ∷ ms) =
    if-elim (All (λ (x : Message). x.ignored ≡ false)) m.ignored (skip_ignored ms)
      (m ∷ skip_ignored ms) (λ e. skip_ignored-All ms) (λ e. (e, skip_ignored-All ms))

-- The shortcut for a history without ignored messages does not show, and no ignored message is left.
pub filter_for_request_lem :
    (ms : List Message)
    → (filter_for_request ms ≡ skip_ignored ms)
      × All (λ m. m.ignored ≡ false) (filter_for_request ms)
unfolding filter_for_request
filter_for_request_lem ms =
    let same : filter_for_request ms ≡ skip_ignored ms =
      if-elim (λ (x : List Message). x ≡ skip_ignored ms) (not (any_ignored ms)) ms
        (skip_ignored ms) (λ e. sym (skip_none ms (ground arith))) (λ e. refl) in
    (same, subst (All (λ (m : Message). m.ignored ≡ false)) (sym same) (skip_ignored-All ms))
