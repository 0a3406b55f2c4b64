-- ===== src/Routes/Patterns.antt =====
-- What the pattern of a route means: which paths it matches, and what its parameters stand for.
use observable_cafev.Base.{
  String, ◌≡◌, refl, sym, ◌∙◌, ap, true, Option, none, some, List, [], ◌∷◌, ◌==◌, eqb, length,
  if◌then◌else◌, arith, Bool-cases, Option-cases, inl, inr, some_inj,
}
use observable_cafev.Map.{Map, get, insert, get-insert}
use observable_cafev.Routes.{Text, match_segments, match_pattern}
use observable_cafev.Agent.Steps.{strip_prefix}

module _ (T : Text) where
  -- Segment by segment: a parameter matches anything, another one its own text, whatever the case.
  abbrev pub Segmentwise : List String → List String → Type 0
  Segmentwise [] [] = Unit
  Segmentwise (pat ∷ pats) (seg ∷ segs) =
      (strip_prefix pat ":" ≡ none → T.eq_ignore_ascii_case pat seg ≡ true) × Segmentwise pats segs
  Segmentwise _ _ = ⊥

  abbrev pub value_of : Option String → String → String → Option String
  value_of none name seg = none
  value_of (some param) name seg = if param == name then some seg else none

  abbrev pub or : Option String → Option String → Option String
  or none other = other
  or (some a) other = some a

  -- what a name stands for: the segment at the last parameter of that name
  abbrev pub bound : String → List String → List String → Option String
  bound name [] segs = none
  bound name (pat ∷ pats) [] = none
  bound name (pat ∷ pats) (seg ∷ segs) =
      or (bound name pats segs) (value_of (strip_prefix pat ":") name seg)

  -- The path matches, and the parameters are those of the pattern.
  abbrev pub Matches : String → String → Map String → Type 0
  Matches pattern path params =
      Segmentwise (T.segments pattern) (T.segments path)
      × ((name : String) → get params name ≡ bound name (T.segments pattern) (T.segments path))

  or_assoc : (a b c : Option String) → or a (or b c) ≡ or (or a b) c
  or_assoc none b c = refl
  or_assoc (some x) b c = refl

  get-bind :
      (name param seg : String) (params : Map String)
      → get (insert params param seg) name ≡ or (value_of (some param) name seg) (get params name)
  get-bind name param seg params = elim (Bool-cases (param == name)) [
    | inl same ↦ rw (get-insert params param seg name, same) refl
    | inr other ↦ rw (get-insert params param seg name, other) refl
  ]

  match_segments-param :
      (pat seg param : String) (pats segs : List String) (before : Map String)
      → strip_prefix pat ":" ≡ some param
      → match_segments T (pat ∷ pats) (seg ∷ segs) before
        ≡ match_segments T pats segs (insert before param seg)
  unfolding match_segments
  match_segments-param pat seg param pats segs before e = rw (match_segments, e) refl

  match_segments-text :
      (pat seg : String) (pats segs : List String) (before : Map String)
      → strip_prefix pat ":" ≡ none
      → match_segments T (pat ∷ pats) (seg ∷ segs) before
        ≡ (if T.eq_ignore_ascii_case pat seg then match_segments T pats segs before else none)
  unfolding match_segments
  match_segments-text pat seg pats segs before e = rw (match_segments, e) refl

  -- What a run from some parameters gives.
  abbrev Bound : List String → List String → Map String → Map String → Type 0
  Bound pats segs before params =
      Segmentwise pats segs
      × ((name : String) → get params name ≡ or (bound name pats segs) (get before name))

  match_segments-Bound :
      (pats segs : List String) (before params : Map String)
      → length pats ≡ length segs
      → match_segments T pats segs before ≡ some params
      → Bound pats segs before params
  unfolding match_segments
  match_segments-Bound [] [] before params e h =
      (tt, λ name. ap (λ p. get p name) (sym (some_inj h)))
  match_segments-Bound [] (seg ∷ segs) before params e h = absurd (omega arith)
  match_segments-Bound (pat ∷ pats) [] before params e h = absurd (omega arith)
  match_segments-Bound (pat ∷ pats) (seg ∷ segs) before params e h =
      elim (Option-cases (strip_prefix pat ":")) [
        | inr (param, is_param) ↦
            let (each, names) =
              match_segments-Bound pats segs (insert before param seg) params (omega arith)
                (sym (match_segments-param pat seg param pats segs before is_param) ∙ h) in
            rw (is_param) (
              ((λ bad. absurd (cc bad)), each),
              λ name.
                  names name
                  ∙ ap (λ o. or (bound name pats segs) o) (get-bind name param seg before)
                  ∙ or_assoc (bound name pats segs) (value_of (some param) name seg)
                      (get before name),
            )
        | inl is_text ↦ elim (Bool-cases (T.eq_ignore_ascii_case pat seg)) [
          | inl same ↦
              let (each, names) = match_segments-Bound pats segs before params (omega arith) (
                sym (
                  match_segments-text pat seg pats segs before is_text
                  ∙ ap (λ b. if b then match_segments T pats segs before else none) same)
                ∙ h) in
              rw (is_text) (
                ((λ text. same), each),
                λ name. names name ∙ or_assoc (bound name pats segs) none (get before name),
              )
          | inr other ↦
              let bad : ◌≡◌ {A = Option (Map String)} none (some params) =
                sym (
                  match_segments-text pat seg pats segs before is_text
                  ∙ ap (λ b. if b then match_segments T pats segs before else none) other)
                ∙ h in
              absurd (cc bad)
        ]
      ]

  or-none : (o : Option String) → or o none ≡ o
  or-none none = refl
  or-none (some a) = refl

  pub match_pattern-Matches :
      (pattern path : String) (params : Map String)
      → match_pattern T pattern path ≡ some params
      → Matches pattern path params
  unfolding match_pattern
  match_pattern-Matches pattern path params h =
      elim (Bool-cases (eqb (length (T.segments pattern)) (length (T.segments path)))) [
        | inl same ↦
            let (each, names) =
              match_segments-Bound (T.segments pattern) (T.segments path) [] params (ground arith) (
                sym (
                  ap
                    (λ b.
                      if b
                      then match_segments T (T.segments pattern) (T.segments path) []
                      else none)
                    same)
                ∙ h) in
            (each, λ name. names name ∙ or-none (bound name (T.segments pattern) (T.segments path)))
        | inr other ↦
            let bad : ◌≡◌ {A = Option (Map String)} none (some params) =
              sym (
                ap
                  (λ b.
                    if b then match_segments T (T.segments pattern) (T.segments path) [] else none)
                  other)
              ∙ h in
            absurd (cc bad)
      ]
