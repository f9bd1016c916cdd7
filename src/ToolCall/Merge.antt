-- ===== src/ToolCall/Merge.antt =====
-- The deltas of one index make up its call, whatever deltas of other indices stand between them.
use mathlib.Core.Path.{fun_ext}
use mathlib.Core.List.{append_assoc, append-nil}
use azoth.Base.{
  ◌≡◌, refl, sym, ap, ◌∙◌, Bool, true, false, Option, none, some, List, [], ◌∷◌, ◌++◌, arith,
  if◌then◌else◌, is_empty, inl, inr, Bool-cases, Option-cases, if_true, if_false,
}
use azoth.Base.Int.{ℤ, eqb_ℤ, eqb_ℤ_iff}
use azoth.Base.Text.{Text}
use azoth.ToolCall.{
  ToolCall, Arguments, nil, text, value, DtCall, new_call, merge_head, merge_arguments, found,
  merge_one, merge, continue_merge,
}
use azoth.ToolCall.IntMap.{Table, lookup, lookup-put}

module _ (J : Type 0) (marshal : J → Option Text) where
  -- The deltas of one index, in order.
  abbrev pub of_index : ℤ → List (DtCall J) → List (DtCall J)
  of_index i [] = []
  of_index i (d ∷ ds) = if eqb_ℤ d.index i then d ∷ of_index i ds else of_index i ds

  -- The text that a delta adds to the arguments.
  abbrev pub args_of : Arguments J → Text
  args_of nil = []
  args_of (text t) = t
  args_of (value j) = elim (marshal j) [ some t ↦ t | none ↦ [] ]

  abbrev pub names : List (DtCall J) → Text
  names [] = []
  names (d ∷ ds) = d.name ++ names ds

  abbrev pub arguments : List (DtCall J) → Text
  arguments [] = []
  arguments (d ∷ ds) = args_of d.arguments ++ arguments ds

  -- The last id that is not empty.
  abbrev pub last_id : Text → List (DtCall J) → Text
  last_id id [] = id
  last_id id (d ∷ ds) = last_id (if is_empty d.id then id else d.id) ds

  -- What a call becomes by the deltas of its index.
  abbrev pub assembled : ToolCall → List (DtCall J) → ToolCall
  assembled c ds = record c {
    id = last_id c.id ds;
    function = record {
      name = c.function.name ++ names ds;
      arguments = c.function.arguments ++ arguments ds;
    };
  }

  abbrev pub assembled_at : Option ToolCall → List (DtCall J) → Option ToolCall
  assembled_at o [] = o
  assembled_at none (d ∷ ds) = some (assembled new_call (d ∷ ds))
  assembled_at (some c) (d ∷ ds) = some (assembled c (d ∷ ds))

  assembled-cons :
      (c : ToolCall) (d : DtCall J) (ds : List (DtCall J))
      → assembled (assembled c (d ∷ [])) ds ≡ assembled c (d ∷ ds)
  assembled-cons c d ds = simp (append_assoc, append-nil)

  assembled_at-some :
      (c : ToolCall) (ds : List (DtCall J)) → assembled_at (some c) ds ≡ some (assembled c ds)
  assembled_at-some c [] = simp append-nil
  assembled_at-some c (d ∷ ds) = refl

  assembled_at-cons :
      (o : Option ToolCall) (d : DtCall J) (ds : List (DtCall J))
      → assembled_at o (d ∷ ds) ≡ some (assembled (found J marshal o) (d ∷ ds))
  assembled_at-cons none d ds = refl
  assembled_at-cons (some c) d ds = refl

  append-if : (a b : Text) → (if is_empty b then a else a ++ b) ≡ a ++ b
  append-if a [] = sym (append-nil a)
  append-if a (x ∷ b) = refl

  continue_merge-ok :
      (r : Table ToolCall × Bool) (k : Table ToolCall → Table ToolCall × Bool)
      → (continue_merge J marshal r k).1 ≡ true
      → (r.1 ≡ true) × (continue_merge J marshal r k ≡ k r.0)
  continue_merge-ok (calls, true) k h = (refl, refl)
  continue_merge-ok (calls, false) k h = cc

  continue_merge_assoc :
      (r : Table ToolCall × Bool) (f g : Table ToolCall → Table ToolCall × Bool)
      → continue_merge J marshal r (λ c. continue_merge J marshal (f c) g)
        ≡ continue_merge J marshal (continue_merge J marshal r f) g
  continue_merge_assoc (calls, true) f g = refl
  continue_merge_assoc (calls, false) f g = refl

  merge-append :
      (calls : Table ToolCall) (ds es : List (DtCall J))
      → merge J marshal calls (ds ++ es)
        ≡ continue_merge J marshal (merge J marshal calls ds) (λ calls'. merge J marshal calls' es)
  unfolding merge
  merge-append calls [] es = refl
  merge-append calls (d ∷ ds) es =
      ap (continue_merge J marshal (merge_one J marshal calls d))
        (fun_ext (λ c. merge-append c ds es))
      ∙ continue_merge_assoc (merge_one J marshal calls d) _ _

  -- A merge of two lists is one after the other.
  pub merge_parts :
      (calls : Table ToolCall) (ds es : List (DtCall J))
      → (merge J marshal calls (ds ++ es)).1 ≡ true
      → ((merge J marshal calls ds).1 ≡ true)
        × ((merge J marshal (merge J marshal calls ds).0 es).1 ≡ true)
        × (merge J marshal calls (ds ++ es) ≡ merge J marshal (merge J marshal calls ds).0 es)
  merge_parts calls ds es h =
      let joined = merge-append calls ds es in
      let (ok, rest) =
        continue_merge-ok (merge J marshal calls ds) _ (ap (λ q. q.1) (sym joined) ∙ h) in
      (ok, ap (λ q. q.1) (sym (joined ∙ rest)) ∙ h, joined ∙ rest)

  append_args :
      (c : ToolCall) (d : DtCall J) (a : Arguments J)
      → (merge_arguments J marshal a (merge_head J marshal d c)).1 ≡ true
      → (merge_arguments J marshal a (merge_head J marshal d c)).0
        ≡ assembled c (record d { arguments = a } ∷ [])
  unfolding merge_arguments merge_head
  append_args c d nil h = simp (append-if, append-nil)
  append_args c d (text t) h = simp (append-if, append-nil)
  append_args c d (value j) h = elim (Option-cases (marshal j)) [
    | inl e ↦ absurd (ground arith)
    | inr (t, e) ↦ rw (e, merge_arguments, args_of) (simp (append-if, append-nil))
  ]

  lookup-merge_one :
      (calls : Table ToolCall) (d : DtCall J) (i : ℤ)
      → (merge_one J marshal calls d).1 ≡ true
      → lookup i (merge_one J marshal calls d).0 ≡ (
          if eqb_ℤ d.index i
          then some (assembled (found J marshal (lookup d.index calls)) (d ∷ []))
          else lookup i calls)
  unfolding merge_one
  lookup-merge_one calls d i h =
      lookup-put d.index i _ calls
      ∙ ap (λ c. if eqb_ℤ d.index i then some c else lookup i calls)
          (append_args (found J marshal (lookup d.index calls)) d d.arguments h)

  -- If `Merge` returns no error, the call at each index is what was there before with the deltas of
  -- that index, in order: names and arguments joined, the last id that is not empty. Deltas of
  -- other indices, however they are interleaved, make no difference.
  pub merge-assembled :
      (ds : List (DtCall J)) (calls : Table ToolCall) (i : ℤ)
      → (merge J marshal calls ds).1 ≡ true
      → lookup i (merge J marshal calls ds).0 ≡ assembled_at (lookup i calls) (of_index i ds)
  unfolding merge
  merge-assembled [] calls i h = refl
  merge-assembled (d ∷ ds) calls i h =
      let (ok, same) = continue_merge-ok (merge_one J marshal calls d) _ h in
      let now = lookup-merge_one calls d i ok in
      ap (λ r. lookup i r.0) same
      ∙ merge-assembled ds (merge_one J marshal calls d).0 i (ap (λ r. r.1) (sym same) ∙ h)
      ∙ elim (Bool-cases (eqb_ℤ d.index i)) [
        | inr other ↦ rw other (ap (λ o. assembled_at o (of_index i ds)) (now ∙ if_false _ _ other))
        | inl here ↦ rw here (
            ap (λ o. assembled_at o (of_index i ds)) (now ∙ if_true _ _ here)
            ∙ assembled_at-some _ (of_index i ds)
            ∙ ap some (assembled-cons _ d (of_index i ds))
            ∙ ap (λ k. some (assembled (found J marshal (lookup k calls)) (d ∷ of_index i ds)))
                ((eqb_ℤ_iff d.index i).0 here)
            ∙ sym (assembled_at-cons (lookup i calls) d (of_index i ds)))
      ]
