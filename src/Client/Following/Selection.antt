-- ===== src/Client/Following/Selection.antt =====
-- What a filter means: the sessions that it selects, and the chunks that it lets through.
use observable_cafev.Base.{
  ◌≡◌, ◌↔◌, refl, String, Bool, true, false, not, Option, none, some, List, [], ◌∷◌, ◌&&◌, ◌==◌,
  eq_iff, arith, ◌⊎◌, inl, inr, filter, any, All, contains, map_or, Bool-cases,
}
use observable_cafev.Platform.{Platform}
use observable_cafev.Chunk.{Chunk, ContentType, text, binary, binary_ref, null, is_type}
use observable_cafev.Envelope.{SubscribeFilter}
use observable_cafev.Filter.{chunk_matches_filter, session_matches_filter}
use observable_cafev.Session.{SessionState}
use observable_cafev.Client.Following.{Carries, annotations_match_iff}

-- Some item of a list satisfies `Q`.
abbrev pub Some : {A : Type 0} → (A → Type 0) → List A → Type 0
Some Q [] = ⊥
Some Q (x ∷ xs) = Q x ⊎ Some Q xs

abbrev pub Among : List String → String → Type 0
Among ts t = Some (λ u. u ≡ t) ts

-- A demand that is not made holds.
abbrev pub Demands : {A : Type 0} → (A → Type 0) → Option A → Type 0
Demands Q none = Unit
Demands Q (some a) = Q a

-- The items of a list that satisfy `Q`, all of them and in order.
abbrev pub Picks : {A : Type 0} → (A → Type 0) → List A → List A → Type 0
Picks Q [] picked = picked ≡ []
Picks Q (x ∷ xs) picked =
    (Q x × (others : List _) × (picked ≡ x ∷ others) × Picks Q xs others)
    ⊎ ((¬ Q x) × Picks Q xs picked)

any_iff :
    {A : Type 0} (p : A → Bool) (Q : A → Type 0) (xs : List A)
    → ((x : A) → (p x ≡ true) ↔ Q x)
    → (any p xs ≡ true) ↔ Some Q xs
any_iff p Q [] h = ground arith
any_iff p Q (x ∷ xs) h = ground (arith, h x, any_iff p Q xs h)

map_or_iff :
    {A : Type 0} (p : A → Bool) (Q : A → Type 0) (o : Option A)
    → ((x : A) → (p x ≡ true) ↔ Q x)
    → (map_or o true p ≡ true) ↔ Demands Q o
map_or_iff p Q none h = ground arith
map_or_iff p Q (some a) h = h a

contains_iff : (ts : List String) (t : String) → (contains ts t ≡ true) ↔ Among ts t
contains_iff ts t = any_iff (λ u. u == t) (λ u. u ≡ t) ts (λ u. eq_iff u t)

is_type_iff : (t u : ContentType) → (is_type t u ≡ true) ↔ (t ≡ u)
is_type_iff text text = ground arith
is_type_iff binary binary = ground arith
is_type_iff binary_ref binary_ref = ground arith
is_type_iff null null = ground arith
is_type_iff _ _ = ground arith

not_iff : (b : Bool) (Q : Type 0) → (b ≡ true) ↔ Q → (not b ≡ true) ↔ (¬ Q)
not_iff true Q h = ((λ bad. absurd (cc bad)), λ no. absurd (no (h.0 refl)))
not_iff false Q h = ((λ e q. absurd (cc (h.1 q))), λ no. refl)

both_iff : (a b : Bool) (Q R : Type 0) → (a ≡ true) ↔ Q → (b ≡ true) ↔ R → (a && b ≡ true) ↔ (Q × R)
both_iff true b Q R h k = ((λ e. (h.0 refl, k.0 e)), λ (q, r). k.1 r)
both_iff false b Q R h k = ((λ bad. absurd (cc bad)), λ (q, r). absurd (cc (h.1 q)))

pub filter-Picks :
    {A : Type 0} (p : A → Bool) (Q : A → Type 0) (xs : List A)
    → ((x : A) → (p x ≡ true) ↔ Q x)
    → Picks Q xs (filter p xs)
filter-Picks p Q [] h = refl
filter-Picks p Q (x ∷ xs) h = elim (Bool-cases (p x)) [
  | inl holds ↦ rw (holds) (inl ((h x).0 holds, filter p xs, refl, filter-Picks p Q xs h))
  | inr fails ↦ rw (fails) (inr ((λ q. absurd (ground (arith, (h x).1 q))), filter-Picks p Q xs h))
]

module _ ⦃P : Platform⦄ where
  -- The chunk has one of the demanded types and carries the demanded annotations.
  abbrev pub Passes : SubscribeFilter → Chunk → Type 0
  Passes f c =
      Demands (λ types. Some (λ t. t ≡ c.content_type) types) f.content_types
      × Demands (λ wanted. All (Carries c) wanted) f.annotations

  -- The session and its agent are among those demanded, it has one of the demanded tags, and none of
  -- those that are excluded.
  abbrev pub Selected : SubscribeFilter → SessionState → Type 0
  Selected f s =
      Demands (λ ids. Among ids s.session_id) f.sessions
      × Demands (λ ids. Among ids s.agent_id) f.agents
      × Demands (λ tags. Some (Among s.tags) tags) f.tags
      × Demands (λ tags. ¬ Some (Among tags) s.tags) f.tags_exclude

  pub chunk_matches_filter_iff :
      (c : Chunk) (f : SubscribeFilter) → (chunk_matches_filter c f ≡ true) ↔ Passes f c
  unfolding chunk_matches_filter
  chunk_matches_filter_iff c f =
      both_iff _ _ _ _
        (map_or_iff _ _ f.content_types
          (λ types. any_iff _ _ types (λ t. is_type_iff t c.content_type)))
        (map_or_iff _ _ f.annotations (annotations_match_iff c))

  pub session_matches_filter_iff :
      (s : SessionState) (f : SubscribeFilter) → (session_matches_filter s f ≡ true) ↔ Selected f s
  unfolding session_matches_filter
  session_matches_filter_iff s f =
      let all =
        both_iff _ _ _ _
          (both_iff _ _ _ _
            (both_iff _ _ _ _ (map_or_iff _ _ f.sessions (λ ids. contains_iff ids s.session_id))
              (map_or_iff _ _ f.agents (λ ids. contains_iff ids s.agent_id)))
            (map_or_iff _ _ f.tags (λ tags. any_iff _ _ tags (contains_iff s.tags))))
          (map_or_iff _ _ f.tags_exclude
            (λ tags. not_iff _ _ (any_iff _ _ s.tags (contains_iff tags)))) in
      (
        (λ e. let (((ids, agents), tags), excluded) = all.0 e in (ids, agents, tags, excluded)),
        λ (ids, agents, tags, excluded). all.1 (((ids, agents), tags), excluded),
      )
