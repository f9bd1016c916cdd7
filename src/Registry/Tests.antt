-- ===== src/Registry/Tests.antt =====
-- A registry with two tools, and the theorems at it.
use azoth.Base.{
  ◌≡◌, refl, ◌⊎◌, Bool, true, false, Option, none, some, List, [], ◌∷◌, if◌then◌else◌, arith,
}
use azoth.Base.Text.{Text, codes, text_eq, text_eq_iff}
use azoth.Registry.{
  Tool, ToolDef, Registry, elem, new_registry, register, unregister, get, filter, without,
  build_defs, locked_defs, tool_defs, def_of,
}
use azoth.Registry.Defs.{IsValid, registry-IsValid, tool_defs_linear, tool_defs_stable}
use azoth.Registry.TextMap.{keys}

abbrev read_file : Tool Text
read_file = record {
  name = codes "read";
  description = codes "reads a file";
  parameters = codes "{}";
}

abbrev bash : Tool Text
bash = record { name = codes "bash"; description = codes "runs a command"; parameters = codes "{}" }

abbrev empty : Registry Text
empty = new_registry

abbrev tools : Registry Text
tools = register (register empty read_file) bash

-- The same tools, added in the other order and with a cache.
abbrev cached : Registry Text
cached = (locked_defs (register (register empty bash) read_file)).0

sorted_defs : (locked_defs tools).1 ≡ def_of bash ∷ def_of read_file ∷ []
unfolding register locked_defs build_defs text_eq azoth.Base.Text.text_leb
sorted_defs = refl

empty-IsValid : IsValid empty
unfolding keys
empty-IsValid = record { nodup = tt; fresh = λ ds e. absurd cc }

tools-IsValid : IsValid tools
tools-IsValid =
    (registry-IsValid (register empty read_file) bash []
      (registry-IsValid empty read_file [] empty-IsValid).0).0

cached-IsValid : IsValid cached
cached-IsValid =
    (registry-IsValid (register (register empty bash) read_file) bash []
      (registry-IsValid (register empty bash) read_file []
        (registry-IsValid empty bash [] empty-IsValid).0).0).4

names_differ :
    (text_eq (codes "read") (codes "bash") ≡ false)
    × (text_eq (codes "bash") (codes "read") ≡ false)
unfolding text_eq
names_differ = (refl, refl)

same_tools : (n : Text) → get tools n ≡ get cached n
unfolding register locked_defs azoth.Registry.TextMap.lookup
same_tools n =
    ground (arith, names_differ, text_eq_iff (codes "bash") n, text_eq_iff (codes "read") n)

registry-IsValid_example :
    IsValid (register tools bash)
    × IsValid (unregister tools (codes "read" ∷ []))
    × IsValid (filter tools (codes "read" ∷ []))
    × IsValid (without tools (codes "read" ∷ []))
    × IsValid (locked_defs tools).0
registry-IsValid_example = registry-IsValid tools bash (codes "read" ∷ []) tools-IsValid

tool_defs_linear_example :
    ((tool_defs cached.defs_cache tools).1 ≡ build_defs cached.tools)
    ⊎ ((tool_defs cached.defs_cache tools).1 ≡ build_defs tools.tools)
tool_defs_linear_example = tool_defs_linear cached tools cached-IsValid tools-IsValid

tool_defs_stable_example : (locked_defs tools).1 ≡ (locked_defs cached).1
tool_defs_stable_example = tool_defs_stable tools cached tools-IsValid cached-IsValid same_tools
