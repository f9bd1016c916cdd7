-- ===== src/ToolCall/Finalize.antt =====
-- `Finalize`: the calls in index order, named, each with an id; the same on every later call.
use azoth.Base.{
  ℕ, ◌+◌, ◌≡◌, refl, sym, ap, ◌∙◌, false, Option, none, some, List, [], ◌∷◌, ◌++◌, arith,
  All-append, subst, if◌then◌else◌, is_empty, inl, inr, Bool-cases, if_true, if_false, All,
}
use azoth.Base.Int.{ℤ, eqb_ℤ, eqb_ℤ_iff, ◌≤ℤ◌}
use mathlib.Core.Path.{ap₂}
use azoth.ToolCall.{
  ToolCall, FunctionCall, insert_sorted, sort_ints, with_id, finalize_one, finalize_from, finalize,
}
use azoth.ToolCall.IntMap.{Table, lookup, put, keys, lookup-put, keys-put}

abbrev pub IsSorted : List ℤ → Type 0
IsSorted [] = Unit
IsSorted (x ∷ []) = Unit
IsSorted (x ∷ y ∷ xs) = (x ≤ℤ y) × IsSorted (y ∷ xs)

abbrev pub count : ℤ → List ℤ → ℕ
count k [] = 0
count k (x ∷ xs) = (if eqb_ℤ x k then 1 else 0) + count k xs

insert_sorted-IsSorted : (k : ℤ) (xs : List ℤ) → IsSorted xs → IsSorted (insert_sorted k xs)
unfolding insert_sorted
insert_sorted-IsSorted k [] h = tt
insert_sorted-IsSorted k (x ∷ []) h = ground arith
insert_sorted-IsSorted k (x ∷ y ∷ xs) h = ground (arith, insert_sorted-IsSorted k (y ∷ xs) h.1)

sort_ints-IsSorted : (xs : List ℤ) → IsSorted (sort_ints xs)
unfolding sort_ints
sort_ints-IsSorted [] = tt
sort_ints-IsSorted (x ∷ xs) = insert_sorted-IsSorted x (sort_ints xs) (sort_ints-IsSorted xs)

count-insert_sorted : (j k : ℤ) (xs : List ℤ) → count j (insert_sorted k xs) ≡ count j (k ∷ xs)
unfolding insert_sorted
count-insert_sorted j k [] = refl
count-insert_sorted j k (x ∷ xs) = ground (arith, count-insert_sorted j k xs)

count-sort_ints : (j : ℤ) (xs : List ℤ) → count j (sort_ints xs) ≡ count j xs
unfolding sort_ints
count-sort_ints j [] = refl
count-sort_ints j (x ∷ xs) =
    count-insert_sorted j x (sort_ints xs)
    ∙ ap (λ n. (if eqb_ℤ x j then 1 else 0) + n) (count-sort_ints j xs)

-- What one key contributes to the result.
abbrev pub emitted : ℤ → Option ToolCall → List ToolCall
emitted k none = []
emitted k (some c) = if is_empty c.function.name then [] else with_id k c ∷ []

abbrev pub emitted_all : Table ToolCall → List ℤ → List ToolCall
emitted_all calls [] = []
emitted_all calls (k ∷ ks) = emitted k (lookup k calls) ++ emitted_all calls ks

with_id_idem : (k : ℤ) (c : ToolCall) → with_id k (with_id k c) ≡ with_id k c
unfolding with_id
with_id_idem k c = elim (Bool-cases (is_empty c.id)) [ inl e ↦ rw e refl | inr e ↦ rw (e, e) refl ]

emitted_all-append_ext :
    (calls calls' : Table ToolCall) (ks : List ℤ)
    → ((k : ℤ) → emitted k (lookup k calls') ≡ emitted k (lookup k calls))
    → emitted_all calls' ks ≡ emitted_all calls ks
emitted_all-append_ext calls calls' [] h = refl
emitted_all-append_ext calls calls' (k ∷ ks) h = cc (h k, emitted_all-append_ext calls calls' ks h)

with_id-function : (k : ℤ) (c : ToolCall) → (with_id k c).function ≡ c.function
unfolding with_id
with_id-function k c = ground arith

with_id-id : (k : ℤ) (c : ToolCall) → is_empty (with_id k c).id ≡ false
unfolding with_id
with_id-id k c = ground arith

emitted-with_id : (k : ℤ) (c : ToolCall) → emitted k (some (with_id k c)) ≡ emitted k (some c)
emitted-with_id k c =
    ap (λ (f : FunctionCall). if is_empty f.name then [] else with_id k (with_id k c) ∷ [])
      (with_id-function k c)
    ∙ ap (λ d. if is_empty c.function.name then [] else d ∷ []) (with_id_idem k c)

-- Filling in an id changes neither what any key contributes nor the keys.
finalize_one-keeps :
    (i : ℤ) (o : Option ToolCall) (calls : Table ToolCall)
    → lookup i calls ≡ o
    → ((finalize_one i o calls).1 ≡ emitted i o)
      × ((k : ℤ) → emitted k (lookup k (finalize_one i o calls).0) ≡ emitted k (lookup k calls))
      × (keys (finalize_one i o calls).0 ≡ keys calls)
unfolding finalize_one
finalize_one-keeps i none calls h = (refl, λ k. refl, refl)
finalize_one-keeps i (some c) calls h = elim (Bool-cases (is_empty c.function.name)) [
  | inl e ↦ rw e (refl, λ k. refl, refl)
  | inr e ↦ rw e (refl, λ k. same k, keys-put i (with_id i c) c calls h)
]
  where
    same : (k : ℤ) → emitted k (lookup k (put i (with_id i c) calls)) ≡ emitted k (lookup k calls)
    same k = elim (Bool-cases (eqb_ℤ i k)) [
      | inl e ↦
          subst (λ j. emitted j (lookup j (put i (with_id i c) calls)) ≡ emitted j (lookup j calls))
            ((eqb_ℤ_iff i k).0 e)
            (ap (emitted i)
                (lookup-put i i (with_id i c) calls ∙ if_true _ _ ((eqb_ℤ_iff i i).1 refl))
              ∙ emitted-with_id i c
              ∙ ap (emitted i) (sym h))
      | inr e ↦ ap (emitted k) (lookup-put i k (with_id i c) calls ∙ if_false _ _ e)
    ]

finalize_from-keeps :
    (ks : List ℤ) (calls : Table ToolCall)
    → ((finalize_from ks calls).1 ≡ emitted_all calls ks)
      × ((k : ℤ) → emitted k (lookup k (finalize_from ks calls).0) ≡ emitted k (lookup k calls))
      × (keys (finalize_from ks calls).0 ≡ keys calls)
unfolding finalize_from
finalize_from-keeps [] calls = (refl, λ k. refl, refl)
finalize_from-keeps (i ∷ ks) calls =
    let calls' : Table ToolCall = (finalize_one i (lookup i calls) calls).0 in
    let (one, same, kept) = finalize_one-keeps i (lookup i calls) calls refl in
    let (rest, same', kept') = finalize_from-keeps ks calls' in
    (
      ap₂ ◌++◌ one (rest ∙ emitted_all-append_ext calls calls' ks same),
      λ k. same' k ∙ same k,
      kept' ∙ kept,
    )

-- The result of `Finalize` is what the indices contribute in ascending order, each as often as it
-- is a key: a nameless call nothing, any other call itself, with an id made from its index where
-- the stream gave none.
finalize_ordered :
    (calls : Table ToolCall)
    → (ks : List ℤ) × ((finalize calls).1 ≡ emitted_all calls ks)
      × IsSorted ks
      × ((k : ℤ) → count k ks ≡ count k (keys calls))
unfolding finalize
finalize_ordered calls = (
  sort_ints (keys calls),
  (finalize_from-keeps (sort_ints (keys calls)) calls).0,
  sort_ints-IsSorted (keys calls),
  λ k. count-sort_ints k (keys calls),
)

-- `Finalize` fills ids into the shared calls; calling it again gives the same result.
pub finalize_idem : (calls : Table ToolCall) → (finalize (finalize calls).0).1 ≡ (finalize calls).1
unfolding finalize
finalize_idem calls =
    let (out, same, kept) = finalize_from-keeps (sort_ints (keys calls)) calls in
    let after : Table ToolCall = (finalize_from (sort_ints (keys calls)) calls).0 in
    (finalize_from-keeps (sort_ints (keys after)) after).0
    ∙ ap (λ ks. emitted_all after (sort_ints ks)) kept
    ∙ emitted_all-append_ext calls after (sort_ints (keys calls)) same
    ∙ sym out

abbrev pub IsComplete : ToolCall → Type 0
IsComplete c = (is_empty c.function.name ≡ false) × (is_empty c.id ≡ false)

emitted-IsComplete : (k : ℤ) (o : Option ToolCall) → All IsComplete (emitted k o)
emitted-IsComplete k none = tt
emitted-IsComplete k (some c) = elim (Bool-cases (is_empty c.function.name)) [
  | inl e ↦ rw e tt
  | inr e ↦ rw e ((rw (with_id-function k c) e, with_id-id k c), tt)
]

emitted_all-IsComplete :
    (calls : Table ToolCall) (ks : List ℤ) → All IsComplete (emitted_all calls ks)
emitted_all-IsComplete calls [] = tt
emitted_all-IsComplete calls (k ∷ ks) =
    All-append IsComplete (emitted k (lookup k calls)) (emitted_all calls ks)
      (emitted-IsComplete k (lookup k calls)) (emitted_all-IsComplete calls ks)

-- No call of the result lacks a name or an id.
pub finalize-IsComplete : (calls : Table ToolCall) → All IsComplete (finalize calls).1
unfolding finalize
finalize-IsComplete calls =
    rw ((finalize_from-keeps (sort_ints (keys calls)) calls).0)
      (emitted_all-IsComplete calls (sort_ints (keys calls)))
