-- ===== src/Anthropic/Params/Markers.antt =====
-- The cache markers of a request: how many there are, and that they change nothing else.
use azoth.Base.{
  ℕ, ◌+◌, ◌-◌, ◌≤◌, ◌≡◌, refl, ap, Bool, true, false, List, [], ◌∷◌, arith, min, not, is_empty,
  if◌then◌else◌, map, Bool-cases, inl, inr,
}
use azoth.Base.Trailing.{one_if, one_if-le, total, update_trailing-total, update_trailing-view}
use azoth.Anthropic.Messages.{BlockParam, ParamRole}
use azoth.Anthropic.Params.{
  Marked, Turn, Params, mark_last, mark_turn, mark_trailing, apply_prompt_caching,
}

module _ {A : Type 0} where
  abbrev pub marks : List (Marked A) → ℕ
  marks [] = 0
  marks (x ∷ xs) = (if x.cached then 1 else 0) + marks xs

  abbrev pub values : List (Marked A) → List A
  values [] = []
  values (x ∷ xs) = x.value ∷ values xs

  -- Whether the last value has a marker.
  abbrev pub ends_marked : List (Marked A) → Bool
  ends_marked [] = false
  ends_marked (x ∷ []) = x.cached
  ends_marked (x ∷ y ∷ ys) = ends_marked (y ∷ ys)

  mark_last-marks :
      (can : A → Bool) (xs : List (Marked A)) → marks (mark_last can xs) ≤ marks xs + one_if xs
  mark_last-marks can [] = omega arith
  mark_last-marks can (x ∷ []) = elim (Bool-cases (can x.value)) [
    | inl e ↦ rw e (ground arith)
    | inr e ↦ rw e (ground arith)
  ]
  mark_last-marks can (x ∷ y ∷ ys) = let h = mark_last-marks can (y ∷ ys) in omega (arith, h)

  mark_last-values : (can : A → Bool) (xs : List (Marked A)) → values (mark_last can xs) ≡ values xs
  mark_last-values can [] = refl
  mark_last-values can (x ∷ []) = elim (Bool-cases (can x.value)) [
    | inl e ↦ rw e refl
    | inr e ↦ rw e refl
  ]
  mark_last-values can (x ∷ y ∷ ys) = ap (λ vs. x.value ∷ vs) (mark_last-values can (y ∷ ys))

  mark_last-ends :
      (xs : List (Marked A)) → ends_marked (mark_last (λ a. true) xs) ≡ not (is_empty xs)
  mark_last-ends [] = refl
  mark_last-ends (x ∷ []) = refl
  mark_last-ends (x ∷ y ∷ []) = refl
  mark_last-ends (x ∷ y ∷ z ∷ zs) = mark_last-ends (y ∷ z ∷ zs)

module _ {J : Type 0} where
  abbrev pub turn_marks : Turn J → ℕ
  turn_marks t = marks t.content

  -- A message without its markers.
  abbrev pub turn_value : Turn J → ParamRole × List (BlockParam J)
  turn_value t = (t.role, values t.content)

  abbrev pub all_marks : {F V : Type 0} → Params F V J → ℕ
  all_marks p = marks p.system + marks p.tools + total turn_marks p.messages

module _ {J : Type 0} (can_cache : BlockParam J → Bool) where
  mark_turn-marks : (t : Turn J) → turn_marks (mark_turn can_cache t) ≤ turn_marks t + 1
  mark_turn-marks t =
      let h = mark_last-marks can_cache t.content in
      let k = one_if-le t.content in omega (arith, h, k)

  mark_turn-value : (t : Turn J) → turn_value (mark_turn can_cache t) ≡ turn_value t
  mark_turn-value t = ap (λ vs. (t.role, vs)) (mark_last-values can_cache t.content)

  module _ {F V : Type 0} where
    -- Caching adds at most the four markers that the API permits, changes no text, tool or message, and
    -- marks the last system block and the last tool wherever there is one.
    pub apply_prompt_caching_bounded :
        (p : Params F V J)
        → (all_marks (apply_prompt_caching can_cache p) ≤ all_marks p + 4)
          × (values (apply_prompt_caching can_cache p).system ≡ values p.system)
          × (values (apply_prompt_caching can_cache p).tools ≡ values p.tools)
          × (map turn_value (apply_prompt_caching can_cache p).messages ≡ map turn_value p.messages)
          × (ends_marked (apply_prompt_caching can_cache p).system ≡ not (is_empty p.system))
          × (ends_marked (apply_prompt_caching can_cache p).tools ≡ not (is_empty p.tools))
    unfolding apply_prompt_caching mark_trailing
    apply_prompt_caching_bounded p =
        let rounds = min (4 - (one_if p.system + one_if p.tools)) 2 in
        let a = mark_last-marks (λ t. true) p.system in
        let b = mark_last-marks (λ t. true) p.tools in
        let c =
          update_trailing-total (mark_turn can_cache) turn_marks mark_turn-marks rounds 0
            p.messages in
        let d = one_if-le p.system in
        let e = one_if-le p.tools in
        (
          ground (arith, a, b, c, d, e),
          mark_last-values (λ a. true) p.system,
          mark_last-values (λ a. true) p.tools,
          update_trailing-view (mark_turn can_cache) turn_value mark_turn-value rounds 0 p.messages,
          mark_last-ends p.system,
          mark_last-ends p.tools,
        )
