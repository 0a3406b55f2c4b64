-- ===== src/Llm/Compaction.antt =====
-- What compaction keeps, and what it drops.
use observable_cafev.Base.{
  ℕ, suc, zero, ◌≤◌, ◌≡◌, refl, Bool, true, false, Option, List, [], ◌∷◌, ◌++◌, arith, Bool-cases,
  inl, inr, ap, sym, length, drop, ◌&&◌, ◌⊎◌, not, subst,
}
use observable_cafev.Platform.{Platform}
use observable_cafev.Llm.{
  LlmMessage, LlmConfig, CompactionInfo, chars, positive, fits_budgets, window_start, take,
  split_system, uncompacted, compact_with, compacts, no_budget, apply_compaction,
}

take-drop : (n : ℕ) (ms : List LlmMessage) → take n ms ++ drop n ms ≡ ms
take-drop zero ms = refl
take-drop (suc n) [] = refl
take-drop (suc n) (m ∷ ms) = ap (λ (l : List LlmMessage). m ∷ l) (take-drop n ms)

module _ (max_messages max_chars : Option ℕ) where
  abbrev start : List LlmMessage → ℕ
  start = window_start max_messages max_chars

  length-take-start : (ms : List LlmMessage) → length (take (start ms) ms) ≡ start ms
  unfolding window_start
  length-take-start [] = refl
  length-take-start (m ∷ ms) = ground (arith, length-take-start ms)

  start_keeps : (ms : List LlmMessage) → drop (start ms) ms ≡ [] → ms ≡ []
  unfolding window_start
  start_keeps [] h = refl
  start_keeps (m ∷ []) h = ground arith
  start_keeps (m ∷ n ∷ ms) h = ground (arith, start_keeps (n ∷ ms))

  start_fits :
      (ms : List LlmMessage)
      → (fits_budgets max_messages max_chars (drop (start ms) ms) ≡ true)
        ⊎ (length (drop (start ms) ms) ≤ 1)
  unfolding window_start
  start_fits [] = inr (omega arith)
  start_fits (m ∷ ms) = ground (arith, start_fits ms)

  start_least :
      (ms before after : List LlmMessage) (m : LlmMessage)
      → take (start ms) ms ≡ before ++ m ∷ after
      → fits_budgets max_messages max_chars (m ∷ (after ++ drop (start ms) ms)) ≡ false
  unfolding window_start
  start_least [] [] after m h = absurd (cc h)
  start_least [] (y ∷ before) after m h = absurd (cc h)
  start_least (x ∷ ms) [] after m h = ground (arith, take-drop (start ms) ms)
  start_least (x ∷ ms) (y ∷ before) after m h = ground (arith, start_least ms before after m)

split_system-append : (ms : List LlmMessage) → (split_system ms).0 ++ (split_system ms).1 ≡ ms
unfolding split_system
split_system-append [] = refl
split_system-append (m ∷ ms) = ground arith

-- What comes of compaction: the messages are the system prompt, those that are dropped, and those
-- that are kept, and only the dropped ones are missing from the prompt.
pub record Compacted (messages : List LlmMessage) (out : List LlmMessage × CompactionInfo)
    : Type 0 where
  pub kept : List LlmMessage
  pub all : (split_system messages).0 ++ (out.1.dropped ++ kept) ≡ messages
  pub prompt : out.0 ≡ (split_system messages).0 ++ kept
  pub counted : out.1.dropped_messages ≡ length out.1.dropped
  pub measured : out.1.dropped_chars ≡ chars out.1.dropped
  pub newest : kept ≡ [] → out.1.dropped ≡ []

-- The kept messages fit the budgets, or there is at most one, and no longer suffix would fit.
pub record Tight (max_messages max_chars : Option ℕ) (dropped kept : List LlmMessage) : Type 0 where
  pub fits : (fits_budgets max_messages max_chars kept ≡ true) ⊎ (length kept ≤ 1)
  pub longest :
      (before after : List LlmMessage) (m : LlmMessage)
      → dropped ≡ before ++ m ∷ after
      → fits_budgets max_messages max_chars (m ∷ (after ++ kept)) ≡ false

module _ (max_messages max_chars : Option ℕ) where
  start_newest :
      (ms : List LlmMessage)
      → drop (window_start max_messages max_chars ms) ms ≡ []
      → take (window_start max_messages max_chars ms) ms ≡ []
  unfolding window_start
  start_newest [] h = refl
  start_newest (m ∷ []) h = ground arith
  start_newest (m ∷ n ∷ ms) h = ground (arith, start_keeps max_messages max_chars (n ∷ ms))

  compact_with-Compacted :
      (messages : List LlmMessage)
      → (c : Compacted messages (compact_with max_messages max_chars (split_system messages)))
        × Tight max_messages max_chars
            (compact_with max_messages max_chars (split_system messages)).1.dropped
            c.kept
  unfolding compact_with
  compact_with-Compacted messages =
      let rest = (split_system messages).1 in
      (
        record {
          kept = drop (start max_messages max_chars rest) rest;
          all =
              rw (take-drop (start max_messages max_chars rest) rest, split_system-append messages);
          prompt = refl;
          counted = sym (length-take-start max_messages max_chars rest);
          measured = refl;
          newest = start_newest rest;
        },
        record {
          fits = start_fits max_messages max_chars rest;
          longest = start_least max_messages max_chars rest;
        },
      )

module _ ⦃P : Platform⦄ where
  -- Compaction is on, and has a budget.
  abbrev pub is_active : LlmConfig → Bool
  is_active cfg =
      compacts cfg.compaction_mode
      && not (no_budget (positive cfg.max_history_messages) (positive cfg.max_history_chars))

  abbrev pub Outcome : List LlmMessage → LlmConfig → List LlmMessage × CompactionInfo → Type 0
  Outcome messages cfg out =
      (c : Compacted messages out) × (is_active cfg ≡ true
        → Tight (positive cfg.max_history_messages) (positive cfg.max_history_chars) out.1.dropped
            c.kept)
      × (is_active cfg ≡ false → out.1.dropped ≡ [])

  apply_active :
      (messages : List LlmMessage) (cfg : LlmConfig)
      → is_active cfg ≡ true
      → apply_compaction messages cfg
        ≡ compact_with
            (positive cfg.max_history_messages)
            (positive cfg.max_history_chars)
            (split_system messages)
  unfolding apply_compaction
  apply_active messages cfg on = ground (arith, on)

  apply_inactive :
      (messages : List LlmMessage) (cfg : LlmConfig)
      → is_active cfg ≡ false
      → apply_compaction messages cfg ≡ uncompacted messages
  unfolding apply_compaction
  apply_inactive messages cfg off = ground (arith, off)

  uncompacted-Compacted : (messages : List LlmMessage) → Compacted messages (uncompacted messages)
  unfolding chars
  uncompacted-Compacted messages = record {
    kept = (split_system messages).1;
    all = split_system-append messages;
    prompt = sym (split_system-append messages);
    counted = refl;
    measured = refl;
    newest = λ h. refl;
  }

  -- Compaction never loses or reorders a message: the messages are the system prompt, if there is
  -- one, then the dropped ones, then the kept ones; the result is the system prompt and the kept
  -- ones; the counts of dropped messages and bytes are right, and the newest message is kept. If
  -- compaction is on and has a budget, the kept messages fit both budgets or there is at most one
  -- of them, and no longer suffix fits. Otherwise nothing is dropped.
  pub apply_compaction-Compacted :
      (messages : List LlmMessage) (cfg : LlmConfig)
      → Outcome messages cfg (apply_compaction messages cfg)
  apply_compaction-Compacted messages cfg = elim (Bool-cases (is_active cfg)) [
    | inl on ↦
        let (c, tight) =
          compact_with-Compacted (positive cfg.max_history_messages)
            (positive cfg.max_history_chars) messages in
        subst (Outcome messages cfg) (sym (apply_active messages cfg on))
          (c, λ h. tight, λ off. absurd (cc (on, off)))
    | inr off ↦
        subst (Outcome messages cfg) (sym (apply_inactive messages cfg off))
          (uncompacted-Compacted messages, λ on. absurd (cc (on, off)), λ h. refl)
  ]
