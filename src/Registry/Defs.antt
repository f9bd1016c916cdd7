-- ===== src/Registry/Defs.antt =====
-- The list of definitions that a registry hands out.
use mathlib.Core.Path.{ap₂}
use azoth.Base.{
  ◌≡◌, refl, sym, ap, ◌∙◌, ◌⊎◌, inl, inr, Bool, true, false, ◌||◌, Option, none, some, List, [],
  ◌∷◌, arith, if-elim,
}
use azoth.Base.Text.{Text, text_eq, text_eq_iff}
use azoth.Registry.{
  Tool, ToolDef, Registry, sort_names, elem, register, delete_all, unregister, get, pick, pick_all,
  filter, drop_all, without, def_at, defs_for, build_defs, fill, locked_defs, tool_defs,
}
use azoth.Registry.Sorting.{IsNodup, elem-sort_names, sort_names-Ascends, Ascends-ext}
use azoth.Registry.TextMap.{Table, lookup, put, delete, keys}

abbrev is_some : {A : Type 0} → Option A → Bool
is_some none = false
is_some (some a) = true

elem-keys_some : {A : Type 0} (n : Text) (m : Table A) → elem n (keys m) ≡ is_some (lookup n m)
unfolding elem keys lookup
elem-keys_some n [] = refl
elem-keys_some n ((k, v) ∷ m) = ground (arith, elem-keys_some n m)

module _ {A : Type 0} where
  elem-keys-put :
      (n k : Text) (v : A) (m : Table A)
      → elem n (keys (put k v m)) ≡ (text_eq k n || elem n (keys m))
  unfolding elem keys put
  elem-keys-put n k v [] = refl
  elem-keys-put n k v ((j, w) ∷ m) =
      ground (arith, elem-keys-put n k v m, text_eq_iff j k, text_eq_iff k n, text_eq_iff j n)

  keys-put-IsNodup :
      (k : Text) (v : A) (m : Table A) → IsNodup (keys m) → IsNodup (keys (put k v m))
  unfolding keys put elem
  keys-put-IsNodup k v [] h = (refl, tt)
  keys-put-IsNodup k v ((j, w) ∷ m) h =
      if-elim (λ (x : Table A). IsNodup (keys x)) (text_eq j k) ((k, v) ∷ m) ((j, w) ∷ put k v m)
        (λ e. (ground (arith, text_eq_iff j k), h.1))
        (λ e. (
          ground (arith, elem-keys-put j k v m, text_eq_iff j k, text_eq_iff k j),
          keys-put-IsNodup k v m h.1,
        ))

  elem-keys-delete :
      (n k : Text) (m : Table A) → elem n (keys m) ≡ false → elem n (keys (delete k m)) ≡ false
  unfolding elem keys delete
  elem-keys-delete n k [] h = refl
  elem-keys-delete n k ((j, w) ∷ m) h = ground (arith, elem-keys-delete n k m)

  keys-delete-IsNodup : (k : Text) (m : Table A) → IsNodup (keys m) → IsNodup (keys (delete k m))
  unfolding keys delete elem
  keys-delete-IsNodup k [] h = tt
  keys-delete-IsNodup k ((j, w) ∷ m) h =
      if-elim (λ (x : Table A). IsNodup (keys x)) (text_eq j k) (delete k m) ((j, w) ∷ delete k m)
        (λ e. keys-delete-IsNodup k m h.1)
        (λ e. (elem-keys-delete j k m h.0, keys-delete-IsNodup k m h.1))

module _ {P : Type 0} where
  -- No name twice, and a cache that is the list of the tools.
  pub record IsValid (r : Registry P) : Type 0 where
    pub nodup : IsNodup (keys r.tools)
    pub fresh : (ds : List (ToolDef P)) → r.defs_cache ≡ some ds → ds ≡ build_defs r.tools

  stale-IsValid :
      (m : Table (Tool P)) → IsNodup (keys m) → IsValid (record { tools = m; defs_cache = none })
  stale-IsValid m h = record { nodup = h; fresh = λ ds e. absurd cc }

  delete_all-IsNodup :
      (ns : List Text) (m : Table (Tool P)) → IsNodup (keys m) → IsNodup (keys (delete_all ns m))
  unfolding delete_all
  delete_all-IsNodup [] m h = h
  delete_all-IsNodup (n ∷ ns) m h = delete_all-IsNodup ns (delete n m) (keys-delete-IsNodup n m h)

  pick-IsNodup :
      (n : Text) (o : Option (Tool P)) (child : Table (Tool P))
      → IsNodup (keys child)
      → IsNodup (keys (pick n o child))
  pick-IsNodup n none child h = h
  pick-IsNodup n (some t) child h = keys-put-IsNodup n t child h

  pick_all-IsNodup :
      (ns : List Text) (m child : Table (Tool P))
      → IsNodup (keys child)
      → IsNodup (keys (pick_all ns m child))
  unfolding pick_all
  pick_all-IsNodup [] m child h = h
  pick_all-IsNodup (n ∷ ns) m child h =
      pick_all-IsNodup ns m (pick n (lookup n m) child) (pick-IsNodup n (lookup n m) child h)

  drop_all-IsNodup :
      (ns : List Text) (m child : Table (Tool P))
      → IsNodup (keys child)
      → IsNodup (keys (drop_all ns m child))
  unfolding drop_all
  drop_all-IsNodup ns [] child h = h
  drop_all-IsNodup ns ((n, t) ∷ m) child h =
      if-elim (λ (x : Table (Tool P)). IsNodup (keys x)) (elem n ns) (drop_all ns m child)
        (drop_all ns m (put n t child)) (λ e. drop_all-IsNodup ns m child h)
        (λ e. drop_all-IsNodup ns m (put n t child) (keys-put-IsNodup n t child h))

  fill-IsValid : (o : Option (List (ToolDef P))) (r : Registry P) → IsValid r → IsValid (fill o r).0
  fill-IsValid (some ds) r h = h
  fill-IsValid none r h = record { nodup = h.nodup; fresh = λ ds e. cc }

  -- In a valid registry no name occurs twice and a cache is the list of its tools: every operation
  -- keeps it so, and none leaves a stale cache.
  pub registry-IsValid :
      (r : Registry P) (t : Tool P) (names : List Text)
      → IsValid r
      → IsValid (register r t)
        × IsValid (unregister r names)
        × IsValid (filter r names)
        × IsValid (without r names)
        × IsValid (locked_defs r).0
  unfolding register unregister filter without locked_defs keys
  registry-IsValid r t names h = (
    stale-IsValid _ (keys-put-IsNodup t.name t r.tools h.nodup),
    stale-IsValid _ (delete_all-IsNodup names r.tools h.nodup),
    stale-IsValid _ (pick_all-IsNodup names r.tools [] tt),
    stale-IsValid _ (drop_all-IsNodup names r.tools [] tt),
    fill-IsValid r.defs_cache r h,
  )

  fill_defs :
      (o : Option (List (ToolDef P))) (r : Registry P)
      → ((ds : List (ToolDef P)) → o ≡ some ds → ds ≡ build_defs r.tools)
      → (fill o r).1 ≡ build_defs r.tools
  fill_defs (some ds) r h = h ds refl
  fill_defs none r h = refl

  seen_defs :
      (o : Option (List (ToolDef P))) (s r : Registry P)
      → ((ds : List (ToolDef P)) → o ≡ some ds → ds ≡ build_defs s.tools)
      → IsValid r
      → ((tool_defs o r).1 ≡ build_defs s.tools) ⊎ ((tool_defs o r).1 ≡ build_defs r.tools)
  unfolding locked_defs
  seen_defs (some ds) s r h v = inl (h ds refl)
  seen_defs none s r h v = inr (fill_defs r.defs_cache r v.fresh)

  defs_for_agree :
      (ns : List Text) (a b : Table (Tool P))
      → ((n : Text) → lookup n a ≡ lookup n b)
      → defs_for ns a ≡ defs_for ns b
  unfolding defs_for
  defs_for_agree [] a b h = refl
  defs_for_agree (n ∷ ns) a b h = ap₂ def_at (h n) (defs_for_agree ns a b h)

  build_defs_agree :
      (a b : Table (Tool P))
      → IsNodup (keys a)
      → IsNodup (keys b)
      → ((n : Text) → lookup n a ≡ lookup n b)
      → build_defs a ≡ build_defs b
  unfolding build_defs
  build_defs_agree a b x y h =
      let names : sort_names (keys a) ≡ sort_names (keys b) =
        Ascends-ext _ _ (sort_names-Ascends (keys a) x) (sort_names-Ascends (keys b) y) (λ n.
          elem-sort_names n (keys a)
          ∙ elem-keys_some n a
          ∙ ap is_some (h n)
          ∙ sym (elem-keys_some n b)
          ∙ sym (elem-sort_names n (keys b))) in
      ap (λ ns. defs_for ns a) names ∙ defs_for_agree (sort_names (keys b)) a b h

  -- `ToolDefs` on valid registries answers with the list of the tools as they were at one of its
  -- two looks at the registry, whatever other calls change between them.
  pub tool_defs_linear :
      (s r : Registry P)
      → IsValid s
      → IsValid r
      → ((tool_defs s.defs_cache r).1 ≡ build_defs s.tools)
        ⊎ ((tool_defs s.defs_cache r).1 ≡ build_defs r.tools)
  tool_defs_linear s r h v = seen_defs s.defs_cache s r h.fresh v

  -- Two valid registries with the same tools hand out the same list, in the same order, however
  -- they were built.
  pub tool_defs_stable :
      (r q : Registry P)
      → IsValid r
      → IsValid q
      → ((n : Text) → get r n ≡ get q n)
      → (locked_defs r).1 ≡ (locked_defs q).1
  unfolding locked_defs
  tool_defs_stable r q h g same =
      fill_defs r.defs_cache r h.fresh
      ∙ build_defs_agree r.tools q.tools h.nodup g.nodup same
      ∙ sym (fill_defs q.defs_cache q g.fresh)
