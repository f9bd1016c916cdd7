-- ===== src/ToolCall.antt =====
-- llm/toolcall.go: streamed tool-call deltas merged into calls. Go's map is an association list;
-- `Finalize` sorts the keys, so the order of the list does not show. The JSON encoder is a
-- parameter: `marshal` gives the encoding of a decoded value, or none for its error.
pub mod IntMap
pub mod Merge
pub mod Finalize
mod Tests
use azoth.Base.{
  ℕ, ◌+◌, Bool, true, false, Option, none, some, List, [], ◌∷◌, ◌++◌, if◌then◌else◌, is_empty, map,
}
use azoth.Base.Int.{ℤ, pos, negsuc, leb_ℤ, eqb_ℤ}
use azoth.Base.Text.{Text, codes, decimal}
use IntMap.{Table, lookup, put, keys}

pub record FunctionCall : Type 0 where
  pub name : Text
  pub arguments : Text

pub record ToolCall : Type 0 where
  pub id : Text
  pub kind : Text
  pub function : FunctionCall

-- The `any` of a delta's arguments: absent, a string, or another decoded JSON value.
pub data Arguments (J : Type 0) : Type 0 where
  nil : Arguments J
  text : Text → Arguments J
  value : J → Arguments J

pub record DtCall (J : Type 0) : Type 0 where
  pub index : ℤ
  pub id : Text
  pub name : Text
  pub arguments : Arguments J

abbrev pub new_call : ToolCall
new_call = record {
  id = [];
  kind = codes "function";
  function = record { name = []; arguments = [] };
}

module _ (J : Type 0) (marshal : J → Option Text) where
  pub coerce_arguments : Arguments J → Option Text
  coerce_arguments nil = some []
  coerce_arguments (text t) = some t
  coerce_arguments (value j) = marshal j

  -- The id and name of one delta, merged into the call of its index.
  pub merge_head : DtCall J → ToolCall → ToolCall
  merge_head d c = record c {
    id = if is_empty d.id then c.id else d.id;
    function = record {
      name = if is_empty d.name then c.function.name else c.function.name ++ d.name;
      arguments = c.function.arguments;
    };
  }

  pub append_arguments : ToolCall → Text → ToolCall
  append_arguments c args = record c {
    function = record { name = c.function.name; arguments = c.function.arguments ++ args };
  }

  -- `call.Function.Arguments += args`, and whether the encoder succeeded.
  pub merge_arguments : Arguments J → ToolCall → ToolCall × Bool
  unfolding coerce_arguments append_arguments
  merge_arguments nil c = (c, true)
  merge_arguments (text t) c = (append_arguments c t, true)
  merge_arguments (value j) c = elim (coerce_arguments (value j)) [
    | some t ↦ (append_arguments c t, true)
    | none ↦ (c, false)
  ]

  abbrev pub found : Option ToolCall → ToolCall
  found none = new_call
  found (some c) = c

  -- One round of the loop of `Merge`. The table holds pointers, so what was merged before an error
  -- stays merged.
  pub merge_one : Table ToolCall → DtCall J → Table ToolCall × Bool
  unfolding merge_head merge_arguments
  merge_one calls d =
      let (c, ok) = merge_arguments d.arguments (merge_head d (found (lookup d.index calls))) in
      (put d.index c calls, ok)

  -- The loop stops at the first error.
  abbrev pub continue_merge :
      Table ToolCall × Bool → (Table ToolCall → Table ToolCall × Bool) → Table ToolCall × Bool
  continue_merge (calls, true) rest = rest calls
  continue_merge (calls, false) rest = (calls, false)

  -- `Merge`; false when it returned an error.
  unfoldable pub merge : Table ToolCall → List (DtCall J) → Table ToolCall × Bool
  unfolding merge_one
  merge calls [] = (calls, true)
  merge calls (d ∷ ds) = continue_merge (merge_one calls d) (λ calls'. merge calls' ds)

-- `sort.Ints`
unfoldable pub insert_sorted : ℤ → List ℤ → List ℤ
insert_sorted k [] = k ∷ []
insert_sorted k (x ∷ xs) = if leb_ℤ k x then k ∷ x ∷ xs else x ∷ insert_sorted k xs

unfoldable pub sort_ints : List ℤ → List ℤ
unfolding insert_sorted
sort_ints [] = []
sort_ints (x ∷ xs) = insert_sorted x (sort_ints xs)

-- `fmt.Sprintf("%d", idx)`
unfoldable pub format_int : ℤ → Text
format_int (pos n) = decimal n
format_int (negsuc n) = b'-' ∷ decimal (n + 1)

unfoldable pub with_id : ℤ → ToolCall → ToolCall
unfolding format_int
with_id idx c = if is_empty c.id then record c { id = codes "call_" ++ format_int idx } else c

-- What one key adds to the result, and the table with the call's id filled in.
unfoldable pub finalize_one : ℤ → Option ToolCall → Table ToolCall → Table ToolCall × List ToolCall
unfolding with_id
finalize_one idx none calls = (calls, [])
finalize_one idx (some c) calls =
    if is_empty c.function.name
    then (calls, [])
    else (put idx (with_id idx c) calls, with_id idx c ∷ [])

-- The loop of `Finalize` over the sorted keys.
unfoldable pub finalize_from : List ℤ → Table ToolCall → Table ToolCall × List ToolCall
unfolding finalize_one
finalize_from [] calls = (calls, [])
finalize_from (idx ∷ idxs) calls =
    let (calls', one) = finalize_one idx (lookup idx calls) calls in
    let (calls'', rest) = finalize_from idxs calls' in (calls'', one ++ rest)

unfoldable pub finalize : Table ToolCall → Table ToolCall × List ToolCall
unfolding finalize_from sort_ints
finalize calls = finalize_from (sort_ints (keys calls)) calls
