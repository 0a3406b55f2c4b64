-- ===== src/Llm/Prompt.antt =====
-- The prompt alternates between the roles, and holds the whole conversation.
use package.text.Mathlib.TextLemmas.{append_assoc as text_append_assoc}
use observable_cafev.Base.{
  ◌≡◌, refl, String, true, false, Option, none, some, List, [], ◌∷◌, ◌++◌, arith, ◌==◌, eq_iff,
  Bool-cases, Option-cases, inl, inr, push_str, append_assoc, ap, sym, subst, ◌∙◌, if◌then◌else◌,
  not, ◌||◌,
}
use observable_cafev.Platform.{Platform}
use observable_cafev.Chunk.{Chunk, is_type, text, role}
use observable_cafev.Llm.{
  LlmMessage, push_message, turn, turn_of, is_untrusted, push_turn, build_from, system_message,
  build_messages,
}

-- Two neighbouring messages never have the same role.
abbrev pub Alternates : List LlmMessage → Type 0
Alternates [] = Unit
Alternates (m ∷ []) = Unit
Alternates (m ∷ n ∷ rest) = ((m.role == n.role) ≡ false) × Alternates (n ∷ rest)

-- A message before a conversation whose runs are already joined.
abbrev pub attach : LlmMessage → List LlmMessage → List LlmMessage
attach m [] = m ∷ []
attach m (n ∷ rest) =
    if m.role == n.role
    then record { role = m.role; content = push_str (push_str m.content "\n") n.content } ∷ rest
    else m ∷ n ∷ rest

-- A conversation with each run of one role joined by newlines, from its end.
abbrev pub runs : List LlmMessage → List LlmMessage
runs [] = []
runs (m ∷ rest) = attach m (runs rest)

push_str_assoc : (s t u : String) → push_str (push_str s t) u ≡ push_str s (push_str t u)
push_str_assoc s t u = text_append_assoc s t u

-- `second` joined to the end of `first`.
abbrev join : LlmMessage → LlmMessage → LlmMessage
join first second = record first { content = push_str (push_str first.content "\n") second.content }

push_last :
    (init : List LlmMessage) (last m : LlmMessage)
    → push_message m (init ++ last ∷ [])
      ≡ init ++ (if last.role == m.role then join last m ∷ [] else last ∷ m ∷ [])
unfolding push_message
push_last [] last m = refl
push_last (x ∷ []) last m = ap (λ (l : List LlmMessage). x ∷ l) (push_last [] last m)
push_last (x ∷ y ∷ init) last m = ap (λ (l : List LlmMessage). x ∷ l) (push_last (y ∷ init) last m)

attach_other :
    (m n : LlmMessage) (rest : List LlmMessage)
    → (m.role == n.role) ≡ false
    → attach m (attach n rest) ≡ m ∷ attach n rest
attach_other m n [] h = ground arith
attach_other m n (x ∷ rest) h = ground arith

attach_same :
    (m n : LlmMessage) (rest : List LlmMessage)
    → (m.role == n.role) ≡ true
    → attach m (attach n rest) ≡ attach (join m n) rest
attach_same m n [] h = ground arith
attach_same m n (x ∷ rest) h =
    let joined : push_str (push_str m.content "\n") (push_str (push_str n.content "\n") x.content)
        ≡ push_str (push_str (push_str (push_str m.content "\n") n.content) "\n") x.content =
      simp push_str_assoc in
    ground (arith, eq_iff m.role n.role, eq_iff m.role x.role, eq_iff n.role x.role, joined)

attach-Alternates :
    (m : LlmMessage) (ms : List LlmMessage) → Alternates ms → Alternates (attach m ms)
attach-Alternates m [] h = tt
attach-Alternates m (n ∷ []) h = ground (arith, eq_iff m.role n.role)
attach-Alternates m (n ∷ x ∷ rest) h = ground (arith, eq_iff m.role n.role)

runs-Alternates : (ms : List LlmMessage) → Alternates (runs ms)
runs-Alternates [] = tt
runs-Alternates (m ∷ ms) = attach-Alternates m (runs ms) (runs-Alternates ms)

abbrev fold : List LlmMessage → List LlmMessage → List LlmMessage
fold [] acc = acc
fold (m ∷ ms) acc = fold ms (push_message m acc)

fold_same :
    (init : List LlmMessage) (last m : LlmMessage)
    → (last.role == m.role) ≡ true
    → push_message m (init ++ last ∷ []) ≡ init ++ join last m ∷ []
fold_same init last m h = push_last init last m ∙ rw h refl

fold_other :
    (init : List LlmMessage) (last m : LlmMessage)
    → (last.role == m.role) ≡ false
    → push_message m (init ++ last ∷ []) ≡ (init ++ last ∷ []) ++ m ∷ []
fold_other init last m h = push_last init last m ∙ rw (h, append_assoc) refl

fold-runs :
    (ms : List LlmMessage) (init : List LlmMessage) (last : LlmMessage)
    → fold ms (init ++ last ∷ []) ≡ init ++ runs (last ∷ ms)
fold-runs [] init last = refl
fold-runs (m ∷ ms) init last = elim (Bool-cases (last.role == m.role)) [
  | inl same ↦
      ap (fold ms) (fold_same init last m same)
      ∙ fold-runs ms init (join last m)
      ∙ ap (λ (l : List LlmMessage). init ++ l) (sym (attach_same last m (runs ms) same))
  | inr other ↦
      ap (fold ms) (fold_other init last m other)
      ∙ fold-runs ms (init ++ last ∷ []) m
      ∙ append_assoc init (last ∷ []) (runs (m ∷ ms))
      ∙ ap (λ (l : List LlmMessage). init ++ l) (sym (attach_other last m (runs ms) other))
]

fold_first : (ms : List LlmMessage) → fold ms [] ≡ runs ms
unfolding push_message
fold_first [] = refl
fold_first (m ∷ ms) = fold-runs ms [] m

module _ ⦃P : Platform⦄ where
  -- The messages of a history, each with its role, before runs are joined.
  abbrev keep : Option LlmMessage → List LlmMessage → List LlmMessage
  keep none ms = ms
  keep (some m) ms = m ∷ ms

  abbrev pub turns : List Chunk → List LlmMessage
  turns [] = []
  turns (c ∷ history) = keep (turn c) (turns history)

  build_from-turn :
      (c : Chunk) (history : List Chunk) (acc : List LlmMessage)
      → build_from (c ∷ history) acc ≡ build_from history (push_turn (turn c) acc)
  unfolding build_from
  build_from-turn c history acc = refl

  fold_turn :
      (o : Option LlmMessage) (ms acc : List LlmMessage)
      → fold ms (push_turn o acc) ≡ fold (keep o ms) acc
  unfolding push_turn
  fold_turn none ms acc = refl
  fold_turn (some m) ms acc = refl

  build_from-fold :
      (history : List Chunk) (acc : List LlmMessage)
      → build_from history acc ≡ fold (turns history) acc
  build_from-fold [] acc = unfold build_from in refl
  build_from-fold (c ∷ history) acc =
      build_from-turn c history acc
      ∙ build_from-fold history (push_turn (turn c) acc)
      ∙ fold_turn (turn c) (turns history) acc

  role-turn_of :
      (r : String) (content : Option String) (m : LlmMessage)
      → turn_of (some r) content ≡ some m
      → m.role ≡ r
  role-turn_of r content m h = ground arith

  turn_of-not_system :
      (o content : Option String) (m : LlmMessage)
      → turn_of o content ≡ some m
      → ("system" == m.role) ≡ false
  turn_of-not_system none content m h = absurd (cc h)
  turn_of-not_system (some r) content m h = elim (Bool-cases (r == "user")) [
    | inl user ↦
        let same : r ≡ "user" = (eq_iff r "user").0 user in
        rw (role-turn_of r content m h, same) refl
    | inr other ↦ elim (Bool-cases (r == "assistant")) [
      | inl assistant ↦
          let same : r ≡ "assistant" = (eq_iff r "assistant").0 assistant in
          rw (role-turn_of r content m h, same) refl
      | inr neither ↦ ground arith
    ]
  ]

  turn-not_system : (c : Chunk) (m : LlmMessage) → turn c ≡ some m → ("system" == m.role) ≡ false
  unfolding turn
  turn-not_system c m h = elim (Bool-cases (not (is_type c.content_type text) || is_untrusted c)) [
    | inl skipped ↦ ground arith
    | inr heard ↦ turn_of-not_system (role c) c.content m (ground arith)
  ]

  attach_system :
      (s : LlmMessage) (history : List Chunk)
      → s.role ≡ "system"
      → attach s (runs (turns history)) ≡ s ∷ runs (turns history)
  attach_system s [] h = refl
  attach_system s (c ∷ history) h = elim (Option-cases (turn c)) [
    | inl skipped ↦ rw skipped (attach_system s history h)
    | inr (m, spoken) ↦
        rw spoken (attach_other s m (runs (turns history)) (rw h (turn-not_system c m spoken)))
  ]

  -- The prompt of a history is the system prompt, if there is one, followed by what its trusted text
  -- chunks of the user and the assistant say, in order and complete, with each run of one role
  -- joined by newlines.
  pub build_messages_lem :
      (history : List Chunk) (prompt : Option String)
      → build_messages history prompt ≡ system_message prompt ++ runs (turns history)
  build_messages_lem history none =
      unfold build_messages in build_from-fold history [] ∙ fold_first (turns history)
  build_messages_lem history (some prompt) =
      unfold build_messages in
      build_from-fold history (system_message (some prompt))
      ∙ fold-runs (turns history) [] (record { role = "system"; content = prompt })
      ∙ attach_system (record { role = "system"; content = prompt }) history refl

  -- No two neighbouring messages of a prompt have the same role.
  pub build_messages-Alternates :
      (history : List Chunk) (prompt : Option String) → Alternates (build_messages history prompt)
  build_messages-Alternates history none =
      subst Alternates (sym (build_messages_lem history none)) (runs-Alternates (turns history))
  build_messages-Alternates history (some prompt) =
      subst Alternates
        (sym (
          build_messages_lem history (some prompt)
          ∙ sym (attach_system (record { role = "system"; content = prompt }) history refl)))
        (attach-Alternates (record { role = "system"; content = prompt }) (runs (turns history))
          (runs-Alternates (turns history)))
