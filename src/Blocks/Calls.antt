-- ===== src/Blocks/Calls.antt =====
-- The block of a tool call, between other blocks, becomes exactly one call.
use mathlib.Core.List.{append_assoc, append-nil}
use azoth.Base.{
  ◌≡◌, refl, sym, ap, ◌∙◌, Bool, true, not, ◌&&◌, Bool-cases, some, List, [], ◌∷◌, ◌++◌, arith,
  if◌then◌else◌, inl, inr, if_true, if_false,
}
use azoth.Base.Int.{ℤ, eqb_ℤ, eqb_ℤ_iff}
use azoth.Base.Text.{Text}
use azoth.Blocks.{
  ToolAcc, Heard, opened, text_piece, reasoning_piece, input_piece, closed, counted, ignored,
  open_call, add_input, add_to, open_at, call_of, sent_for, meaning,
}
use azoth.Chat.{tool_call_complete}

-- Whether an event neither starts nor stops a tool call at an index.
abbrev pub leaves : ℤ → Heard → Bool
leaves i (opened j id name) = not (eqb_ℤ j i)
leaves i (closed j) = not (eqb_ℤ j i)
leaves i (input_piece j t) = true
leaves i (text_piece t) = true
leaves i (reasoning_piece t) = true
leaves i (counted u) = true
leaves i ignored = true

abbrev pub all_leave : ℤ → List Heard → Bool
all_leave i [] = true
all_leave i (h ∷ hs) = leaves i h && all_leave i hs

abbrev pub piece_for : ℤ → Heard → Text
piece_for i (input_piece j t) = if eqb_ℤ j i then t else []
piece_for i (opened j id name) = []
piece_for i (closed j) = []
piece_for i (text_piece t) = []
piece_for i (reasoning_piece t) = []
piece_for i (counted u) = []
piece_for i ignored = []

-- The input written to an index.
abbrev pub input_for : ℤ → List Heard → Text
input_for i [] = []
input_for i (h ∷ hs) = piece_for i h ++ input_for i hs

-- The events before, with these behind them.
abbrev pub behind : List Heard → List Heard → List Heard
behind past [] = past
behind past (h ∷ hs) = behind (h ∷ past) hs

open_at-leaves :
    (i : ℤ) (h : Heard) (past : List Heard) (a : ToolAcc)
    → leaves i h ≡ true
    → open_at i past ≡ some a
    → open_at i (h ∷ past) ≡ some (add_input (piece_for i h) a)
open_at-leaves i (opened j id name) past a l e =
    if_false {b = eqb_ℤ j i} _ _ (ground arith) ∙ e ∙ simp append-nil
open_at-leaves i (closed j) past a l e =
    if_false {b = eqb_ℤ j i} _ _ (ground arith) ∙ e ∙ simp append-nil
open_at-leaves i (input_piece j t) past a l e = elim (Bool-cases (eqb_ℤ j i)) [
  | inl here ↦ rw here (ap (add_to t) e)
  | inr other ↦ rw other (e ∙ simp append-nil)
]
open_at-leaves i (text_piece t) past a l e = e ∙ simp append-nil
open_at-leaves i (reasoning_piece t) past a l e = e ∙ simp append-nil
open_at-leaves i (counted u) past a l e = e ∙ simp append-nil
open_at-leaves i ignored past a l e = e ∙ simp append-nil

open_at-behind :
    (i : ℤ) (hs past : List Heard) (a : ToolAcc)
    → all_leave i hs ≡ true
    → open_at i past ≡ some a
    → open_at i (behind past hs) ≡ some (add_input (input_for i hs) a)
open_at-behind i [] past a l e = e ∙ simp append-nil
open_at-behind i (h ∷ hs) past a l e =
    open_at-behind i hs (h ∷ past) _ (ground arith) (open_at-leaves i h past a (ground arith) e)
    ∙ simp append_assoc

meaning-append :
    {E : Type 0} (xs ys past : List Heard)
    → meaning {E = E} past (xs ++ ys) ≡ meaning past xs ++ meaning (behind past xs) ys
meaning-append [] ys past = refl
meaning-append {E = E} (x ∷ xs) ys past =
    ap (λ es. sent_for past x ++ es) (meaning-append {E = E} xs ys (x ∷ past))
    ∙ sym
        (append_assoc (sent_for past x) (meaning (x ∷ past) xs) (meaning (behind (x ∷ past) xs) ys))

behind-append : (xs ys past : List Heard) → behind past (xs ++ ys) ≡ behind (behind past xs) ys
behind-append [] ys past = refl
behind-append (x ∷ xs) ys past = behind-append xs ys (x ∷ past)

open_at-block :
    (i : ℤ) (id name : Text) (before between : List Heard)
    → all_leave i between ≡ true
    → open_at i (behind [] (before ++ (opened i id name ∷ between)))
      ≡ some (record { id = id; name = name; input = input_for i between })
open_at-block i id name before between l =
    ap (open_at i) (behind-append before (opened i id name ∷ between) [])
    ∙ open_at-behind i between (opened i id name ∷ behind [] before) (open_call id name) l
        (if_true _ _ ((eqb_ℤ_iff i i).1 refl))

-- A block of a tool call, whatever goes before it and whatever is between its start and its stop but
-- a start or stop at its index: the stop sends the call with all input written to the index.
pub meaning-block :
    {E : Type 0} (i : ℤ) (id name : Text) (before between : List Heard)
    → all_leave i between ≡ true
    → meaning {E = E} [] ((before ++ (opened i id name ∷ between)) ++ (closed i ∷ []))
      ≡ meaning [] (before ++ (opened i id name ∷ between))
        ++ (tool_call_complete
              (call_of (record { id = id; name = name; input = input_for i between }) ∷ [])
            ∷ [])
meaning-block {E = E} i id name before between l =
    meaning-append {E = E} (before ++ (opened i id name ∷ between)) (closed i ∷ []) []
    ∙ rw (open_at-block i id name before between l) refl
