-- ===== src/Anthropic/Schema.antt =====
-- Tool definitions as those of the Messages API: `toAnthropicTools` with its schema.
use azoth.Base.{
  ℕ, suc, ◌≡◌, refl, ◌∙◌, Bool, true, false, not, ◌||◌, Bool-cases, Option, none, some, List, [],
  ◌∷◌, ◌++◌, ◌⊎◌, inl, inr, if◌then◌else◌, is_empty,
}
use azoth.Base.Results.{◌>>=◌, traverse, is_ok, every, is_ok-traverse, is_ok-last, is_ok-then}
use azoth.Base.Text.{Text, codes, text_eq, text_eq_iff}

-- An element of an `[]any`.
pub data Item (V : Type 0) : Type 0 where
  str : Text → Item V
  other_item : V → Item V

-- A value of a `map[string]any`, by the cases of `toStringSlice`.
pub data Value (V : Type 0) : Type 0 where
  nil_value : Value V
  strings : List Text → Value V
  items : List (Item V) → Value V
  other_value : V → Value V

pub record ToolDef (V : Type 0) : Type 0 where
  pub name : Text
  pub description : Text
  -- nil, or the entries in the order of the map's iteration
  pub parameters : Option (List (Text × Value V))

pub record InputSchema (V : Type 0) : Type 0 where
  pub properties : Value V
  pub required : List Text
  pub extra_fields : List (Text × Value V)

pub record ToolParam (V : Type 0) : Type 0 where
  pub name : Text
  pub description : Option Text
  pub input_schema : InputSchema V

pub data SchemaError : Type 0 where
  element_not_string : ℕ → SchemaError
  not_a_string_array : SchemaError

-- The name of the tool, and what is wrong with its `required`.
pub record ToolError : Type 0 where
  pub tool : Text
  pub required_error : SchemaError

type_other : text_eq (codes "type") (codes "required") ≡ false
unfolding text_eq
type_other = refl

properties_other : text_eq (codes "properties") (codes "required") ≡ false
unfolding text_eq
properties_other = refl

module _ {V : Type 0} where
  abbrev pub strings_from : ℕ → List (Item V) → SchemaError ⊎ List Text
  strings_from i [] = inr []
  strings_from i (str t ∷ xs) = do rest ← strings_from (suc i) xs; inr (t ∷ rest)
  strings_from i (other_item v ∷ xs) = inl (element_not_string i)

  unfoldable pub to_string_slice : Value V → SchemaError ⊎ List Text
  to_string_slice nil_value = inr []
  to_string_slice (strings ts) = inr ts
  to_string_slice (items xs) = strings_from 0 xs
  to_string_slice (other_value v) = inl not_a_string_array

  abbrev pub new_schema : InputSchema V
  new_schema = record { properties = nil_value; required = []; extra_fields = [] }

  -- The body of the loop.
  unfoldable pub schema_entry : Text × Value V → InputSchema V → SchemaError ⊎ InputSchema V
  unfolding to_string_slice text_eq
  schema_entry (k, v) s =
      if text_eq k (codes "type")
      then inr s
      else if text_eq k (codes "properties")
      then inr (record s { properties = v })
      else if text_eq k (codes "required")
      then (do ts ← to_string_slice v; inr (record s { required = ts }))
      else inr (record s { extra_fields = s.extra_fields ++ ((k, v) ∷ []) })

  unfoldable pub schema_loop : List (Text × Value V) → InputSchema V → SchemaError ⊎ InputSchema V
  unfolding schema_entry
  schema_loop [] s = inr s
  schema_loop (kv ∷ kvs) s = schema_entry kv s >>= schema_loop kvs

  unfoldable pub to_schema : Option (List (Text × Value V)) → SchemaError ⊎ InputSchema V
  unfolding schema_loop
  to_schema none = inr new_schema
  to_schema (some kvs) = schema_loop kvs new_schema

  abbrev pub at_tool : Text → SchemaError ⊎ InputSchema V → ToolError ⊎ InputSchema V
  at_tool name (inl e) = inl (record { tool = name; required_error = e })
  at_tool name (inr s) = inr s

  abbrev pub to_tool : ToolDef V → ToolError ⊎ ToolParam V
  to_tool t = do
    schema ← at_tool t.name (to_schema t.parameters)
    inr (record {
      name = t.name;
      description = if is_empty t.description then none else some t.description;
      input_schema = schema;
    })

  unfoldable pub to_tools : List (ToolDef V) → ToolError ⊎ List (ToolParam V)
  unfolding to_schema
  to_tools ts = traverse to_tool ts

  -- `required` is absent, null or an array of strings.
  abbrev pub is_str : Item V → Bool
  is_str (str t) = true
  is_str (other_item v) = false

  abbrev pub string_array : Value V → Bool
  string_array nil_value = true
  string_array (strings ts) = true
  string_array (items xs) = every is_str xs
  string_array (other_value v) = false

  abbrev pub well_formed_entry : Text × Value V → Bool
  well_formed_entry (k, v) = not (text_eq k (codes "required")) || string_array v

  abbrev pub well_formed : Option (List (Text × Value V)) → Bool
  well_formed none = true
  well_formed (some kvs) = every well_formed_entry kvs

  strings_from-is_ok : (xs : List (Item V)) (i : ℕ) → is_ok (strings_from i xs) ≡ every is_str xs
  strings_from-is_ok [] i = refl
  strings_from-is_ok (str t ∷ xs) i =
      is_ok-last (strings_from (suc i) xs) _ ∙ strings_from-is_ok xs (suc i)
  strings_from-is_ok (other_item v ∷ xs) i = refl

  to_string_slice-is_ok : (v : Value V) → is_ok (to_string_slice v) ≡ string_array v
  unfolding to_string_slice
  to_string_slice-is_ok nil_value = refl
  to_string_slice-is_ok (strings ts) = refl
  to_string_slice-is_ok (items xs) = strings_from-is_ok xs 0
  to_string_slice-is_ok (other_value v) = refl

  not_required :
      (k : Text) (v : Value V) (key : Text)
      → text_eq k key ≡ true
      → text_eq key (codes "required") ≡ false
      → true ≡ well_formed_entry (k, v)
  not_required k v key e h = rw ((text_eq_iff k key).0 e, h) refl

  schema_entry-is_ok :
      (kv : Text × Value V) (s : InputSchema V) → is_ok (schema_entry kv s) ≡ well_formed_entry kv
  unfolding schema_entry
  schema_entry-is_ok (k, v) s = elim (Bool-cases (text_eq k (codes "type"))) [
    | inl a ↦ rw a (not_required k v (codes "type") a type_other)
    | inr a ↦ rw a (elim (Bool-cases (text_eq k (codes "properties"))) [
      | inl b ↦ rw b (not_required k v (codes "properties") b properties_other)
      | inr b ↦ rw b (elim (Bool-cases (text_eq k (codes "required"))) [
        | inl c ↦ rw c (is_ok-last (to_string_slice v) _ ∙ to_string_slice-is_ok v)
        | inr c ↦ rw c refl
      ])
    ])
  ]

  schema_loop-is_ok :
      (kvs : List (Text × Value V)) (s : InputSchema V)
      → is_ok (schema_loop kvs s) ≡ every well_formed_entry kvs
  unfolding schema_loop
  schema_loop-is_ok [] s = refl
  schema_loop-is_ok (kv ∷ kvs) s =
      is_ok-then (schema_entry kv s) (schema_loop kvs) _ (schema_loop-is_ok kvs)
      ∙ rw (schema_entry-is_ok kv s) refl

  to_schema-is_ok : (p : Option (List (Text × Value V))) → is_ok (to_schema p) ≡ well_formed p
  unfolding to_schema
  to_schema-is_ok none = refl
  to_schema-is_ok (some kvs) = schema_loop-is_ok kvs new_schema

  at_tool-is_ok : (name : Text) (r : SchemaError ⊎ InputSchema V) → is_ok (at_tool name r) ≡ is_ok r
  at_tool-is_ok name (inl e) = refl
  at_tool-is_ok name (inr s) = refl

  -- The tools of a request translate exactly when every `required` of a schema is absent, null or an
  -- array of strings, in whatever order the map is iterated.
  pub to_tools-well_formed :
      (ts : List (ToolDef V)) → is_ok (to_tools ts) ≡ every (λ t. well_formed t.parameters) ts
  unfolding to_tools
  to_tools-well_formed ts = is_ok-traverse to_tool _ ts (λ t.
      is_ok-last (at_tool t.name (to_schema t.parameters)) _
      ∙ at_tool-is_ok t.name (to_schema t.parameters)
      ∙ to_schema-is_ok t.parameters)
