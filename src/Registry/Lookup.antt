-- ===== src/Registry/Lookup.antt =====
-- What a registry answers behind each operation.
use azoth.Base.{◌≡◌, refl, ap, ◌∙◌, false, Option, none, some, List, [], ◌∷◌, arith, if◌then◌else◌}
use azoth.Base.Text.{Text, text_eq, text_eq_iff}
use azoth.Registry.{
  Tool, Registry, elem, register, delete_all, unregister, get, pick, pick_all, filter, drop_all,
  without,
}
use azoth.Registry.Sorting.{IsNodup}
use azoth.Registry.TextMap.{Table, lookup, put, delete, keys, lookup-put, lookup-delete}

abbrev or_else : {A : Type 0} → Option A → Option A → Option A
or_else none b = b
or_else (some a) b = some a

or_else-none : {A : Type 0} (a : Option A) → or_else a none ≡ a
or_else-none none = refl
or_else-none (some a) = refl

pub elem-keys : {A : Type 0} (n : Text) (m : Table A) → elem n (keys m) ≡ false → lookup n m ≡ none
unfolding elem keys lookup
elem-keys n [] h = refl
elem-keys n ((k, v) ∷ m) h = ground (arith, elem-keys n m)

module _ {P : Type 0} where
  lookup-delete_all :
      (n : Text) (ns : List Text) (m : Table (Tool P))
      → lookup n (delete_all ns m) ≡ (if elem n ns then none else lookup n m)
  unfolding delete_all elem
  lookup-delete_all n [] m = refl
  lookup-delete_all n (k ∷ ns) m =
      ground (arith, lookup-delete_all n ns (delete k m), lookup-delete k n m)

  lookup-pick :
      (n k : Text) (o : Option (Tool P)) (child : Table (Tool P))
      → lookup n (pick k o child)
        ≡ (if text_eq k n then or_else o (lookup n child) else lookup n child)
  lookup-pick n k none child = ground arith
  lookup-pick n k (some t) child = ground (arith, lookup-put k n t child)

  lookup-pick_all :
      (n : Text) (ns : List Text) (m child : Table (Tool P))
      → lookup n (pick_all ns m child)
        ≡ (if elem n ns then or_else (lookup n m) (lookup n child) else lookup n child)
  unfolding pick_all elem
  lookup-pick_all n [] m child = refl
  lookup-pick_all n (k ∷ ns) m child = ground (
    arith,
    lookup-pick_all n ns m (pick k (lookup k m) child),
    lookup-pick n k (lookup k m) child,
    text_eq_iff k n,
  )

  lookup-drop_all :
      (n : Text) (excluded : List Text) (m child : Table (Tool P))
      → IsNodup (keys m)
      → lookup n (drop_all excluded m child)
        ≡ (if elem n excluded then lookup n child else or_else (lookup n m) (lookup n child))
  unfolding drop_all keys lookup
  lookup-drop_all n excluded [] child d = ground arith
  lookup-drop_all n excluded ((k, t) ∷ m) child d = ground (
    arith,
    lookup-drop_all n excluded m child d.1,
    lookup-drop_all n excluded m (put k t child) d.1,
    lookup-put k n t child,
    text_eq_iff k n,
    elem-keys k m d.0,
  )

  -- A registry whose names are distinct answers with the last tool of a name; a removed name, one
  -- outside a filter and an excluded one have no tool, and every other name keeps its own.
  pub get_after :
      (r : Registry P) (t : Tool P) (names : List Text) (n : Text)
      → IsNodup (keys r.tools)
      → (get (register r t) n ≡ (if text_eq t.name n then some t else get r n))
        × (get (unregister r names) n ≡ (if elem n names then none else get r n))
        × (get (filter r names) n ≡ (if elem n names then get r n else none))
        × (get (without r names) n ≡ (if elem n names then none else get r n))
  unfolding register unregister filter without
  get_after r t names n d = (
    lookup-put t.name n t r.tools,
    lookup-delete_all n names r.tools,
    lookup-pick_all n names r.tools []
        ∙ ap (λ o. if elem n names then o else none) (or_else-none (get r n)),
    lookup-drop_all n names r.tools [] d
        ∙ ap (λ o. if elem n names then none else o) (or_else-none (get r n)),
  )
