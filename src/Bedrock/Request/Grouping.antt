-- ===== src/Bedrock/Request/Grouping.antt =====
-- The content of a Converse request is that of the messages, in order, whatever the grouping.
use mathlib.Core.List.{append_assoc, append-nil}
use azoth.Base.{
  ◌≡◌, refl, sym, ap, ◌∙◌, Bool, true, Bool-cases, List, [], ◌∷◌, ◌++◌, ◌⊎◌, inl, inr, arith,
  if◌then◌else◌, is_empty, if-elim, not, ◌&&◌,
}
use azoth.Base.Results.{◌>>=◌, every}
use azoth.Base.Text.{Text, codes, text_eq}
use azoth.Message.{Message}
use azoth.Bedrock.Request.{
  ContentBlock, tool_result, ConverseRole, user_role, assistant_role, ConverseMessage, RequestError,
  ResultContent, user_content, assistant_content, tool_result_content, Building, flush_results,
  add_message, build_message, build_messages,
}

is_empty_nil : {A : Type 0} (xs : List A) → is_empty xs ≡ true → xs ≡ []
is_empty_nil [] h = refl
is_empty_nil (x ∷ xs) h = absurd cc

module _ {J : Type 0} where
  abbrev pub flat : List (ConverseMessage J) → List (ContentBlock J)
  flat [] = []
  flat (m ∷ ms) = m.content ++ flat ms

  -- All content so far, that which waits to be flushed included.
  abbrev pub held : Building J → List (ContentBlock J)
  held b = flat b.messages ++ b.pending

  flat_last :
      (ms : List (ConverseMessage J)) (m : ConverseMessage J)
      → flat (ms ++ (m ∷ [])) ≡ flat ms ++ m.content
  flat_last [] m = append-nil m.content
  flat_last (x ∷ ms) m =
      ap (λ cs. x.content ++ cs) (flat_last ms m) ∙ sym (append_assoc x.content (flat ms) m.content)

  flush_results-held : (b : Building J) → held (flush_results b) ≡ held b
  unfolding flush_results
  flush_results-held b = flush b.system b.messages b.pending
    where
      flush :
          (sys : List Text) (ms : List (ConverseMessage J)) (ps : List (ContentBlock J))
          → held (flush_results (record { system = sys; messages = ms; pending = ps }))
            ≡ flat ms ++ ps
      flush sys ms [] = refl
      flush sys ms (p ∷ ps) = append-nil _ ∙ flat_last ms _

  flush_results-pending : (b : Building J) → (flush_results b).pending ≡ []
  unfolding flush_results
  flush_results-pending b =
      if-elim (λ (x : Building J). x.pending ≡ []) (is_empty b.pending) b _
        (λ e. is_empty_nil b.pending e) (λ e. refl)

  add_message-held :
      (r : ConverseRole) (cs : List (ContentBlock J)) (b : Building J)
      → b.pending ≡ []
      → held (add_message r cs b) ≡ held b ++ cs
  add_message-held r [] b h = sym (append-nil _)
  add_message-held r (c ∷ cs) b h = rw h (
      append-nil _
      ∙ flat_last b.messages _
      ∙ ap (λ xs. xs ++ (c ∷ cs)) (sym (append-nil (flat b.messages))))

module _ {X J : Type 0} (unmarshal : Text → X ⊎ J) (empty_object : J) where
  -- The blocks of one message.
  abbrev pub blocks_of : Message → RequestError X ⊎ List (ContentBlock J)
  blocks_of m =
      if text_eq m.role (codes "system")
      then inr []
      else if text_eq m.role (codes "user")
      then user_content m
      else if text_eq m.role (codes "assistant")
      then assistant_content unmarshal empty_object m
      else if text_eq m.role (codes "tool")
      then (tool_result_content m >>= λ cs. inr (tool_result m.tool_call_id cs ∷ []))
      else inr []

  abbrev pub all_blocks : List Message → RequestError X ⊎ List (ContentBlock J)
  all_blocks [] = inr []
  all_blocks (m ∷ ms) = do bs ← blocks_of m; rest ← all_blocks ms; inr (bs ++ rest)

  -- The content of the messages that a request gets.
  abbrev pub sent : RequestError X ⊎ Building J → RequestError X ⊎ List (ContentBlock J)
  sent r = r >>= λ b. inr (flat b.messages)

  -- The content of what was built so far.
  abbrev outcome : RequestError X ⊎ Building J → RequestError X ⊎ List (ContentBlock J)
  outcome r = r >>= λ b. inr (held b)

  added :
      (r : ConverseRole) (b : Building J) (m : RequestError X ⊎ List (ContentBlock J))
      → outcome (m >>= (λ cs. inr (add_message r cs (flush_results b))))
        ≡ (m >>= λ bs. inr (held b ++ bs))
  added r b (inl e) = refl
  added r b (inr cs) = ap inr (
      add_message-held r cs (flush_results b) (flush_results-pending b)
      ∙ ap (λ xs. xs ++ cs) (flush_results-held b))

  system_held :
      (t : Text) (b : Building J)
      → held (if is_empty t then b else record b { system = b.system ++ (t ∷ []) }) ≡ held b
  system_held [] b = refl
  system_held (c ∷ t) b = refl

  result_held :
      (id : Text) (b : Building J) (r : RequestError X ⊎ List ResultContent)
      → outcome (r >>= λ cs. inr (record b { pending = b.pending ++ (tool_result id cs ∷ []) }))
        ≡ ((r >>= λ cs. inr (tool_result id cs ∷ [])) >>= λ bs. inr (held b ++ bs))
  result_held id b (inl e) = refl
  result_held id b (inr cs) =
      ap inr (sym (append_assoc (flat b.messages) b.pending (tool_result id cs ∷ [])))

  build_message-held :
      (m : Message) (b : Building J)
      → outcome (build_message unmarshal empty_object m b)
        ≡ (blocks_of m >>= λ bs. inr (held b ++ bs))
  unfolding build_message
  build_message-held m b = elim (Bool-cases (text_eq m.role (codes "system"))) [
    | inl x ↦ rw x (ap inr (system_held m.content b ∙ sym (append-nil (held b))))
    | inr x ↦ rw x (elim (Bool-cases (text_eq m.role (codes "user"))) [
      | inl y ↦ rw y (added user_role b (user_content m))
      | inr y ↦ rw y (elim (Bool-cases (text_eq m.role (codes "assistant"))) [
        | inl z ↦ rw z (added assistant_role b (assistant_content unmarshal empty_object m))
        | inr z ↦ rw z (elim (Bool-cases (text_eq m.role (codes "tool"))) [
          | inl w ↦ rw w (result_held m.tool_call_id b (tool_result_content m))
          | inr w ↦ rw w (ap inr (sym (append-nil _)))
        ])
      ])
    ])
  ]

  -- A round whose content is known, in front of the others.
  round :
      (ms : List Message) (b : Building J) (r : RequestError X ⊎ Building J)
      (s : RequestError X ⊎ List (ContentBlock J))
      → outcome r ≡ (s >>= λ bs. inr (held b ++ bs))
      → ((b' : Building J)
          → sent (build_messages unmarshal empty_object ms b')
            ≡ (all_blocks ms >>= λ rest. inr (held b' ++ rest)))
      → sent (r >>= build_messages unmarshal empty_object ms)
        ≡ ((s >>= λ bs. all_blocks ms >>= λ rest. inr (bs ++ rest)) >>= λ bs. inr (held b ++ bs))
  round ms b (inl e) (inl e') h g = ap inl cc
  round ms b (inl e) (inr bs) h g = absurd cc
  round ms b (inr b') (inl e) h g = absurd cc
  round ms b (inr b') (inr bs) h g = g b' ∙ regroup (all_blocks ms) cc
    where
      regroup :
          (r : RequestError X ⊎ List (ContentBlock J))
          → held b' ≡ held b ++ bs
          → (r >>= λ rest. inr (held b' ++ rest))
            ≡ ((r >>= λ rest. inr (bs ++ rest)) >>= λ xs. inr (held b ++ xs))
      regroup (inl e) k = refl
      regroup (inr rest) k = ap inr (ap (λ xs. xs ++ rest) k ∙ append_assoc (held b) bs rest)

  -- The content of the messages that are built, read one after the other, is what was there and what
  -- waited to be flushed before, and then the blocks of each message in order, the results at the end
  -- included, whichever tool results share a message: nothing is lost or moved, and the error, if there
  -- is one, is that of the first message that cannot be translated.
  pub build_messages-held :
      (ms : List Message) (b : Building J)
      → sent (build_messages unmarshal empty_object ms b)
        ≡ (all_blocks ms >>= λ bs. inr (held b ++ bs))
  unfolding build_messages
  build_messages-held [] b = ap inr (
      sym (append-nil (flat (flush_results b).messages))
      ∙ ap (λ ps. flat (flush_results b).messages ++ ps) (sym (flush_results-pending b))
      ∙ flush_results-held b
      ∙ sym (append-nil (held b)))
  build_messages-held (m ∷ ms) b =
      round ms b (build_message unmarshal empty_object m b) (blocks_of m) (build_message-held m b)
        (build_messages-held ms)

module _ {J : Type 0} where
  -- No message is empty.
  abbrev pub full : List (ConverseMessage J) → Bool
  full ms = every (λ m. not (is_empty m.content)) ms

  full_last :
      (ms : List (ConverseMessage J)) (m : ConverseMessage J)
      → full (ms ++ (m ∷ [])) ≡ (full ms && not (is_empty m.content))
  full_last [] m = ground arith
  full_last (x ∷ ms) m = ground (arith, full_last ms m)

  flush_results-full : (b : Building J) → full (flush_results b).messages ≡ full b.messages
  unfolding flush_results
  flush_results-full b = elim (Bool-cases (is_empty b.pending)) [
    | inl e ↦ rw e refl
    | inr e ↦ rw e (full_last b.messages _ ∙ rw e (ground arith))
  ]

  add_message-full :
      (r : ConverseRole) (cs : List (ContentBlock J)) (b : Building J)
      → full (add_message r cs b).messages ≡ full b.messages
  add_message-full r [] b = refl
  add_message-full r (c ∷ cs) b = full_last b.messages _ ∙ ground arith

  -- What is built has no empty message.
  abbrev pub all_full : {X : Type 0} → RequestError X ⊎ Building J → Bool
  all_full (inl e) = true
  all_full (inr b) = full b.messages

module _ {X J : Type 0} (unmarshal : Text → X ⊎ J) (empty_object : J) where
  all_full-added :
      {A : Type 0} (r : RequestError X ⊎ A) (f : A → Building J)
      → ((a : A) → full (f a).messages ≡ true)
      → all_full (r >>= λ a. inr (f a)) ≡ true
  all_full-added (inl e) f h = refl
  all_full-added (inr a) f h = h a

  build_message-full :
      (m : Message) (b : Building J)
      → full b.messages ≡ true
      → all_full (build_message unmarshal empty_object m b) ≡ true
  unfolding build_message
  build_message-full m b h =
      let put : (r : ConverseRole) (cs : List (ContentBlock J))
          → full (add_message r cs (flush_results b)).messages ≡ true =
        λ r cs. add_message-full r cs (flush_results b) ∙ flush_results-full b ∙ h in
      elim (Bool-cases (text_eq m.role (codes "system"))) [
        | inl x ↦ rw x (
            if-elim (λ (y : Building J). full y.messages ≡ true) (is_empty m.content) b _ (λ e. h)
              (λ e. h))
        | inr x ↦ rw x (elim (Bool-cases (text_eq m.role (codes "user"))) [
          | inl y ↦ rw y (all_full-added (user_content m) _ (put user_role))
          | inr y ↦ rw y (elim (Bool-cases (text_eq m.role (codes "assistant"))) [
            | inl z ↦
                rw z (
                  all_full-added (assistant_content unmarshal empty_object m) _
                    (put assistant_role))
            | inr z ↦ rw z (elim (Bool-cases (text_eq m.role (codes "tool"))) [
              | inl w ↦ rw w (all_full-added (tool_result_content m) _ (λ cs. h))
              | inr w ↦ rw w h
            ])
          ])
        ])
      ]

  -- No message of a request is empty.
  build_messages-all_full :
      (ms : List Message) (b : Building J)
      → full b.messages ≡ true
      → all_full (build_messages unmarshal empty_object ms b) ≡ true
  unfolding build_messages
  build_messages-all_full [] b h = flush_results-full b ∙ h
  build_messages-all_full (m ∷ ms) b h =
      next (build_message unmarshal empty_object m b) (build_message-full m b h)
        (build_messages-all_full ms)
    where
      next :
          (r : RequestError X ⊎ Building J)
          → all_full r ≡ true
          → ((b' : Building J)
              → full b'.messages ≡ true
              → all_full (build_messages unmarshal empty_object ms b') ≡ true)
          → all_full (r >>= build_messages unmarshal empty_object ms) ≡ true
      next (inl e) k g = refl
      next (inr b') k g = g b' k
