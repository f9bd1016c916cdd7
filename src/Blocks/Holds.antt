-- ===== src/Blocks/Holds.antt =====
-- A map of open blocks against the events before: each write to the map is the event it stands for.
use azoth.Base.{
  ◌≡◌, sym, ap, ◌∙◌, Bool-cases, none, some, List, ◌∷◌, if◌then◌else◌, inl, inr, if_true, if_false,
}
use azoth.Base.Int.{ℤ, eqb_ℤ, eqb_ℤ_iff}
use azoth.Base.Text.{Text}
use azoth.Blocks.{
  ToolAcc, Heard, opened, input_piece, closed, open_call, add_input, add_to, open_at,
}
use azoth.ToolCall.IntMap.{Table, lookup, put, remove, lookup-put, lookup-remove}

-- The map holds what is open.
abbrev pub Holds : Table ToolAcc → List Heard → Type 0
Holds inflight past = (i : ℤ) → lookup i inflight ≡ open_at i past

module _ (i : ℤ) (inflight : Table ToolAcc) (past : List Heard) (h : Holds inflight past) where
  pub put-opened :
      (id name : Text) → Holds (put i (open_call id name) inflight) (opened i id name ∷ past)
  put-opened id name j =
      lookup-put i j (open_call id name) inflight
      ∙ ap (λ o. if eqb_ℤ i j then some (open_call id name) else o) (h j)

  pub put-input :
      (t : Text) (acc : ToolAcc)
      → lookup i inflight ≡ some acc
      → Holds (put i (add_input t acc) inflight) (input_piece i t ∷ past)
  put-input t acc e j = lookup-put i j (add_input t acc) inflight ∙ elim (Bool-cases (eqb_ℤ i j)) [
    | inl here ↦
        if_true _ _ here
        ∙ ap (add_to t) (sym e ∙ h i)
        ∙ ap (λ k. add_to t (open_at k past)) ((eqb_ℤ_iff i j).0 here)
        ∙ sym (if_true _ _ here)
    | inr other ↦ if_false _ _ other ∙ h j ∙ sym (if_false _ _ other)
  ]

  pub no_input : (t : Text) → lookup i inflight ≡ none → Holds inflight (input_piece i t ∷ past)
  no_input t e j = elim (Bool-cases (eqb_ℤ i j)) [
    | inl here ↦
        ap (λ k. lookup k inflight) (sym ((eqb_ℤ_iff i j).0 here))
        ∙ e
        ∙ ap (add_to t) (sym e ∙ h i)
        ∙ ap (λ k. add_to t (open_at k past)) ((eqb_ℤ_iff i j).0 here)
        ∙ sym (if_true _ _ here)
    | inr other ↦ h j ∙ sym (if_false _ _ other)
  ]

  pub remove-closed : Holds (remove i inflight) (closed i ∷ past)
  remove-closed j = lookup-remove i j inflight ∙ ap (λ o. if eqb_ℤ i j then none else o) (h j)

  pub not_open : lookup i inflight ≡ none → Holds inflight (closed i ∷ past)
  not_open e j = elim (Bool-cases (eqb_ℤ i j)) [
    | inl here ↦
        ap (λ k. lookup k inflight) (sym ((eqb_ℤ_iff i j).0 here)) ∙ e ∙ sym (if_true _ _ here)
    | inr other ↦ h j ∙ sym (if_false _ _ other)
  ]
