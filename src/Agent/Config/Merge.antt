-- ===== src/Agent/Config/Merge.antt =====
-- What the merged configuration holds: for each key, the newest value that a configuration chunk gives.
use observable_cafev.Base.{
  String, ◌≡◌, refl, ap, ◌∙◌, Bool, true, false, Option, none, some, List, [], ◌∷◌, ◌==◌, eq_iff,
  arith, if◌then◌else◌, contains, All, Bool-cases, inl, inr,
}
use observable_cafev.Platform.{Platform}
use observable_cafev.Map.{Map, get, get-insert}
use observable_cafev.Map.Entries.{Distinct}
use observable_cafev.Chunk.{Chunk}
use observable_cafev.Chunk.Keys.{config_type}
use observable_cafev.Rpc.{Serde, EvaluatorSchema}
use observable_cafev.Agent.Steps.{SessionConfig, or_else}
use observable_cafev.Agent.Config.{
  known_config_keys, merge_annotation, merge_annotations, merge_chunks, is_config,
  resolve_session_config,
}

module _ ⦃P : Platform⦄ where
  -- the value of a key in the newest configuration chunk that has it
  abbrev pub newest : List Chunk → String → Option P.Value
  newest [] k = none
  newest (c ∷ history) k =
      or_else (newest history k) (if is_config c then get c.annotations k else none)

  -- what annotations say of a key: nothing of the marker
  abbrev said : Map P.Value → String → Option P.Value
  said m k = if k == config_type then none else get m k

  merge_annotations-get :
      (known : List String) (m : Map P.Value) (cfg : SessionConfig) (k : String)
      → Distinct m
      → (get (merge_annotations known m cfg).values k ≡ or_else (said m k) (get cfg.values k))
        × (get (merge_annotations known m cfg).extra k
            ≡ (if contains known k then get cfg.extra k else or_else (said m k) (get cfg.extra k)))
  unfolding merge_annotations merge_annotation
  merge_annotations-get known [] cfg k h = ground arith
  merge_annotations-get known ((key, value) ∷ rest) cfg k h = ground (
    arith,
    eq_iff k config_type,
    eq_iff key config_type,
    eq_iff key k,
    get-insert cfg.values key value k,
    get-insert cfg.extra key value k,
    merge_annotations-get known rest (merge_annotation known key value cfg) k h.1,
  )

  -- what a history says of a key
  abbrev pub given : List Chunk → String → Option P.Value
  given history k = if k == config_type then none else newest history k

  or_else_assoc :
      (marker : Bool) (newer here old : Option P.Value)
      → or_else (if marker then none else newer) (or_else (if marker then none else here) old)
        ≡ or_else (if marker then none else or_else newer here) old
  or_else_assoc true newer here old = refl
  or_else_assoc false none here old = refl
  or_else_assoc false (some v) here old = refl

  unless_known :
      (known marker : Bool) (newer here old : Option P.Value)
      → (if known
          then (if known then old else or_else (if marker then none else here) old)
          else or_else
              (if marker then none else newer)
              (if known then old else or_else (if marker then none else here) old))
        ≡ (if known then old else or_else (if marker then none else or_else newer here) old)
  unless_known true marker newer here old = refl
  unless_known false marker newer here old = or_else_assoc marker newer here old

  or_else-none : (v : Option P.Value) → or_else v none ≡ v
  or_else-none none = refl
  or_else-none (some v) = refl

  merge_chunks-cons :
      (known : List String) (c : Chunk) (history : List Chunk) (cfg : SessionConfig) (b : Bool)
      → is_config c ≡ b
      → merge_chunks known (c ∷ history) cfg
        ≡ merge_chunks known history (if b then merge_annotations known c.annotations cfg else cfg)
  unfolding merge_chunks
  merge_chunks-cons known c history cfg b e =
      ap
        (λ x.
          merge_chunks known history (if x then merge_annotations known c.annotations cfg else cfg))
        e

  merge_chunks-nil : (known : List String) (cfg : SessionConfig) → merge_chunks known [] cfg ≡ cfg
  unfolding merge_chunks
  merge_chunks-nil known cfg = refl

  merge_chunks-get :
      (known : List String) (history : List Chunk) (cfg : SessionConfig) (k : String)
      → All (λ c. Distinct c.annotations) history
      → (get (merge_chunks known history cfg).values k
          ≡ or_else (given history k) (get cfg.values k))
        × (get (merge_chunks known history cfg).extra k ≡ (
            if contains known k
            then get cfg.extra k
            else or_else (given history k) (get cfg.extra k)))
  merge_chunks-get known [] cfg k h = let e = merge_chunks-nil known cfg in rw (e) (ground arith)
  merge_chunks-get known (c ∷ history) cfg k h = elim (Bool-cases (is_config c)) [
    | inr other ↦
        rw
          (
            merge_chunks-cons known c history cfg false other,
            other,
            or_else-none (newest history k),
          )
          (merge_chunks-get known history cfg k h.1)
    | inl runtime ↦
        let (values, extra) = merge_annotations-get known c.annotations cfg k h.0 in
        let (all_values, all_extra) =
          merge_chunks-get known history (merge_annotations known c.annotations cfg) k h.1 in
        let marker = k == config_type in
        let newer = newest history k in
        let here = get c.annotations k in
        rw (merge_chunks-cons known c history cfg true runtime, runtime)
          (
            all_values
                ∙ ap (or_else (given history k)) values
                ∙ or_else_assoc marker newer here (get cfg.values k),
            all_extra
                ∙ ap (λ x. if contains known k then x else or_else (given history k) x) extra
                ∙ unless_known (contains known k) marker newer here (get cfg.extra k),
          )
  ]

  -- Where no chunk has two annotations of one key: the resolved configuration maps a key to the value
  -- in the newest runtime configuration chunk that has the key, and to nothing if none has it or the
  -- key is the marker `config.type`. Of these values, exactly those under a key that no evaluator
  -- declares are extra.
  pub resolve_session_config_lem :
      ⦃S : Serde⦄ (history : List Chunk) (schemas : List EvaluatorSchema) (k : String)
      → All (λ c. Distinct c.annotations) history
      → (get (resolve_session_config history schemas).values k ≡ given history k)
        × (get (resolve_session_config history schemas).extra k
            ≡ (if contains (known_config_keys schemas) k then none else given history k))
  unfolding resolve_session_config
  resolve_session_config_lem history schemas k h =
      let none_yet : SessionConfig = record { values = []; extra = [] } in
      let (values, extra) = merge_chunks-get (known_config_keys schemas) history none_yet k h in
      (
        values ∙ or_else-none (given history k),
        extra
            ∙ ap (λ x. if contains (known_config_keys schemas) k then none else x)
                (or_else-none (given history k)),
      )
