-- ===== src/Registry.antt =====
-- tools/registry.go: the registry of tools, and the cached list that goes into a prompt. Each
-- method is one critical section, `ToolDefs` two.
pub mod TextMap
pub mod Sorting
pub mod Lookup
pub mod Defs
mod Tests
use azoth.Base.{
  ℕ, ◌≡◌, refl, Bool, true, false, not, ◌||◌, Option, none, some, List, [], ◌∷◌, ◌++◌,
  if◌then◌else◌,
}
use azoth.Base.Text.{Text, codes, text_eq, text_leb}
use TextMap.{Table, lookup, put, delete, keys}

-- The parts of a `Tool` that a registry reads; `P` stands for the type of a JSON schema.
pub record Tool (P : Type 0) : Type 0 where
  pub name : Text
  pub description : Text
  pub parameters : P

pub record ToolDef (P : Type 0) : Type 0 where
  pub kind : Text
  pub name : Text
  pub description : Text
  pub parameters : P

pub record Registry (P : Type 0) : Type 0 where
  pub tools : Table (Tool P)
  -- a nil slice is `none`
  pub defs_cache : Option (List (ToolDef P))

-- `sort.Strings`.
unfoldable pub insert_name : Text → List Text → List Text
insert_name k [] = k ∷ []
insert_name k (x ∷ xs) = if text_leb k x then k ∷ x ∷ xs else x ∷ insert_name k xs

unfoldable pub sort_names : List Text → List Text
unfolding insert_name
sort_names [] = []
sort_names (x ∷ xs) = insert_name x (sort_names xs)

unfoldable pub elem : Text → List Text → Bool
elem n [] = false
elem n (x ∷ xs) = text_eq x n || elem n xs

module _ {P : Type 0} where
  abbrev pub new_registry : Registry P
  new_registry = record { tools = []; defs_cache = none }

  unfoldable pub register : Registry P → Tool P → Registry P
  unfolding put
  register r t = record { tools = put t.name t r.tools; defs_cache = none }

  unfoldable pub delete_all : List Text → Table (Tool P) → Table (Tool P)
  unfolding delete
  delete_all [] m = m
  delete_all (n ∷ ns) m = delete_all ns (delete n m)

  unfoldable pub unregister : Registry P → List Text → Registry P
  unfolding delete_all
  unregister r names = record { tools = delete_all names r.tools; defs_cache = none }

  abbrev pub get : Registry P → Text → Option (Tool P)
  get r n = lookup n r.tools

  abbrev pub values : Table (Tool P) → List (Tool P)
  values [] = []
  values ((n, t) ∷ m) = t ∷ values m

  -- `List`, in the order of the table.
  abbrev pub list_tools : Registry P → List (Tool P)
  list_tools r = values r.tools

  abbrev pub pick : Text → Option (Tool P) → Table (Tool P) → Table (Tool P)
  pick n none child = child
  pick n (some t) child = put n t child

  unfoldable pub pick_all : List Text → Table (Tool P) → Table (Tool P) → Table (Tool P)
  unfolding lookup
  pick_all [] m child = child
  pick_all (n ∷ ns) m child = pick_all ns m (pick n (lookup n m) child)

  unfoldable pub filter : Registry P → List Text → Registry P
  unfolding pick_all
  filter r names = record { tools = pick_all names r.tools []; defs_cache = none }

  unfoldable pub drop_all : List Text → Table (Tool P) → Table (Tool P) → Table (Tool P)
  unfolding elem put
  drop_all excluded [] child = child
  drop_all excluded ((n, t) ∷ m) child =
      if elem n excluded then drop_all excluded m child else drop_all excluded m (put n t child)

  unfoldable pub without : Registry P → List Text → Registry P
  unfolding drop_all
  without r names = record { tools = drop_all names r.tools []; defs_cache = none }

  abbrev pub def_of : Tool P → ToolDef P
  def_of t = record {
    kind = codes "function";
    name = t.name;
    description = t.description;
    parameters = t.parameters;
  }

  -- The names come from the table, so that none is missing in it.
  abbrev pub def_at : Option (Tool P) → List (ToolDef P) → List (ToolDef P)
  def_at none ds = ds
  def_at (some t) ds = def_of t ∷ ds

  unfoldable pub defs_for : List Text → Table (Tool P) → List (ToolDef P)
  unfolding lookup
  defs_for [] m = []
  defs_for (n ∷ ns) m = def_at (lookup n m) (defs_for ns m)

  -- The list that the locked part of `ToolDefs` builds.
  unfoldable pub build_defs : Table (Tool P) → List (ToolDef P)
  unfolding defs_for sort_names keys
  build_defs m = defs_for (sort_names (keys m)) m

  abbrev pub fill : Option (List (ToolDef P)) → Registry P → Registry P × List (ToolDef P)
  fill (some ds) r = (r, ds)
  fill none r = (record r { defs_cache = some (build_defs r.tools) }, build_defs r.tools)

  -- The part behind `r.mu.Lock()`, with its own look at the cache.
  unfoldable pub locked_defs : Registry P → Registry P × List (ToolDef P)
  locked_defs r = fill r.defs_cache r

  -- `ToolDefs`: `seen` is the cache as the read lock showed it, `r` the registry at the later lock.
  abbrev pub tool_defs : Option (List (ToolDef P)) → Registry P → Registry P × List (ToolDef P)
  tool_defs (some ds) r = (r, ds)
  tool_defs none r = locked_defs r
