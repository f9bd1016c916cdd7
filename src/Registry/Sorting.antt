-- ===== src/Registry/Sorting.antt =====
-- The order of the names, and that a sorted list without repetition is fixed by its members.
use mathlib.Core.Path.{ap₂}
use azoth.Base.{
  ◌≡◌, refl, sym, ap, ◌∙◌, inl, inr, true, false, ◌||◌, List, [], ◌∷◌, arith, Bool-cases, if-elim,
  All, All-mono, subst,
}
use azoth.Base.Text.{Text, text_eq, text_eq_iff, text_eq_refl, text_leb}
use azoth.Registry.{insert_name, sort_names, elem}

text_leb_total : (a b : Text) → text_leb a b ≡ false → text_leb b a ≡ true
unfolding text_leb
text_leb_total [] b h = absurd cc
text_leb_total (x ∷ a) [] h = refl
text_leb_total (x ∷ a) (y ∷ b) h = ground (arith, text_leb_total a b)

text_leb_antisym : (a b : Text) → text_leb a b ≡ true → text_leb b a ≡ true → a ≡ b
unfolding text_leb
text_leb_antisym [] [] h g = refl
text_leb_antisym [] (y ∷ b) h g = absurd cc
text_leb_antisym (x ∷ a) [] h g = absurd cc
text_leb_antisym (x ∷ a) (y ∷ b) h g = ground (arith, text_leb_antisym a b)

text_leb_trans : (a b c : Text) → text_leb a b ≡ true → text_leb b c ≡ true → text_leb a c ≡ true
unfolding text_leb
text_leb_trans [] b c h g = refl
text_leb_trans (x ∷ a) [] c h g = absurd cc
text_leb_trans (x ∷ a) (y ∷ b) [] h g = absurd cc
text_leb_trans (x ∷ a) (y ∷ b) (z ∷ c) h g = ground (arith, text_leb_trans a b c)

abbrev pub IsBelow : Text → Text → Type 0
IsBelow x y = (text_leb x y ≡ true) × (text_eq x y ≡ false)

-- Every name is strictly below those behind it.
abbrev pub Ascends : List Text → Type 0
Ascends [] = Unit
Ascends (x ∷ xs) = All (IsBelow x) xs × Ascends xs

abbrev pub IsNodup : List Text → Type 0
IsNodup [] = Unit
IsNodup (x ∷ xs) = (elem x xs ≡ false) × IsNodup xs

pub elem-insert_name :
    (n k : Text) (xs : List Text) → elem n (insert_name k xs) ≡ (text_eq k n || elem n xs)
unfolding insert_name elem
elem-insert_name n k [] = refl
elem-insert_name n k (x ∷ xs) = ground (arith, elem-insert_name n k xs)

pub elem-sort_names : (n : Text) (xs : List Text) → elem n (sort_names xs) ≡ elem n xs
unfolding sort_names elem
elem-sort_names n [] = refl
elem-sort_names n (x ∷ xs) =
    elem-insert_name n x (sort_names xs) ∙ ap (λ b. text_eq x n || b) (elem-sort_names n xs)

All-insert_name :
    (x k : Text) (xs : List Text)
    → IsBelow x k
    → All (IsBelow x) xs
    → All (IsBelow x) (insert_name k xs)
unfolding insert_name
All-insert_name x k [] b h = (b, tt)
All-insert_name x k (y ∷ xs) b h =
    if-elim (All (IsBelow x)) (text_leb k y) (k ∷ y ∷ xs) (y ∷ insert_name k xs) (λ e. (b, h))
      (λ e. (h.0, All-insert_name x k xs b h.1))

IsBelow-trans : (a b c : Text) → text_leb a b ≡ true → IsBelow b c → IsBelow a c
IsBelow-trans a b c h g =
    ground (arith, text_leb_trans a b c, text_leb_antisym b c, text_eq_iff a c, text_eq_iff b c)

insert_name-Ascends :
    (k : Text) (xs : List Text) → elem k xs ≡ false → Ascends xs → Ascends (insert_name k xs)
unfolding insert_name elem
insert_name-Ascends k [] e h = (tt, tt)
insert_name-Ascends k (y ∷ xs) e h =
    if-elim Ascends (text_leb k y) (k ∷ y ∷ xs) (y ∷ insert_name k xs)
      (λ le.
        let b : IsBelow k y = ground (arith, text_eq_iff k y, text_eq_iff y k) in
        ((b, All-mono (IsBelow y) (IsBelow k) xs (λ z. IsBelow-trans k y z le) h.0), h))
      (λ gt.
        let b : IsBelow y k = ground (arith, text_leb_total k y) in
        (All-insert_name y k xs b h.0, insert_name-Ascends k xs (ground arith) h.1))

pub sort_names-Ascends : (xs : List Text) → IsNodup xs → Ascends (sort_names xs)
unfolding sort_names
sort_names-Ascends [] h = tt
sort_names-Ascends (x ∷ xs) h =
    insert_name-Ascends x (sort_names xs) (elem-sort_names x xs ∙ h.0) (sort_names-Ascends xs h.1)

All-elem : (P : Text → Type 0) (n : Text) (xs : List Text) → All P xs → elem n xs ≡ true → P n
unfolding elem
All-elem P n [] h e = absurd cc
All-elem P n (x ∷ xs) h e = elim (Bool-cases (text_eq x n)) [
  | inl q ↦ subst P ((text_eq_iff x n).0 q) h.0
  | inr q ↦ All-elem P n xs h.1 (ground arith)
]

elem_head : (x : Text) (xs : List Text) → elem x (x ∷ xs) ≡ true
unfolding elem
elem_head x xs = ground (arith, text_eq_refl x)

not-elem : (x : Text) (xs : List Text) → All (IsBelow x) xs → elem x xs ≡ false
unfolding elem
not-elem x [] h = refl
not-elem x (y ∷ xs) h = ground (arith, not-elem x xs h.1, text_eq_iff x y, text_eq_iff y x)

-- The heads of two ascending lists with the same members are equal.
head_below :
    (x y : Text) (xs ys : List Text)
    → Ascends (y ∷ ys)
    → elem x (y ∷ ys) ≡ true
    → text_leb y x ≡ true
unfolding elem
head_below x y xs ys h e = elim (Bool-cases (text_eq y x)) [
  | inl q ↦ ground (arith, text_eq_iff y x, text_leb_total y x, text_leb_antisym y x)
  | inr q ↦ (All-elem (IsBelow y) x ys h.0 (ground arith)).0
]

tails_agree :
    (x n : Text) (xs ys : List Text)
    → Ascends (x ∷ xs)
    → Ascends (x ∷ ys)
    → elem n (x ∷ xs) ≡ elem n (x ∷ ys)
    → elem n xs ≡ elem n ys
unfolding elem
tails_agree x n xs ys h g e = elim (Bool-cases (text_eq x n)) [
  | inl q ↦
      subst (λ m. elem m xs ≡ elem m ys) ((text_eq_iff x n).0 q)
        (not-elem x xs h.0 ∙ sym (not-elem x ys g.0))
  | inr q ↦ ground arith
]

pub Ascends-ext :
    (xs ys : List Text) → Ascends xs → Ascends ys → ((n : Text) → elem n xs ≡ elem n ys) → xs ≡ ys
unfolding elem
Ascends-ext [] [] h g e = refl
Ascends-ext [] (y ∷ ys) h g e = let q = e y ∙ elem_head y ys in absurd cc
Ascends-ext (x ∷ xs) [] h g e = let q = sym (elem_head x xs) ∙ e x in absurd cc
Ascends-ext (x ∷ xs) (y ∷ ys) h g e =
    let same : x ≡ y =
      text_leb_antisym x y (head_below y x ys xs h (e y ∙ elem_head y ys))
        (head_below x y xs ys g (sym (e x) ∙ elem_head x xs)) in
    let g' : Ascends (x ∷ ys) = subst (λ z. Ascends (z ∷ ys)) (sym same) g in
    let e' : (n : Text) → elem n (x ∷ xs) ≡ elem n (x ∷ ys) =
      subst (λ z. (n : Text) → elem n (x ∷ xs) ≡ elem n (z ∷ ys)) (sym same) e in
    ap₂ ◌∷◌ same (Ascends-ext xs ys h.1 g'.1 (λ n. tails_agree x n xs ys h g' (e' n)))
