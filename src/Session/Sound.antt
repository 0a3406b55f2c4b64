-- ===== src/Session/Sound.antt =====
-- The invariant of one session, and that its operations keep it.
use observable_cafev.Base.{
  ℕ, ◌≡◌, String, true, Option, none, some, [], ◌∷◌, arith, All, All-append, All-filter,
  Option-cases, Bool-cases, inl, inr, some_inj, subst, sym, ◌∙◌, ◌+◌, ◌*◌,
}
use observable_cafev.Platform.{Platform}
use observable_cafev.Map.Entries.{Distinct, insert-Distinct, remove-Distinct}
use observable_cafev.Chunk.{Chunk, is_transient, retain_secs}
use observable_cafev.Session.{
  SessionState, Instant, delete_target, new, publish, retain, add_secs, nanos, drain_retained,
  retained_with_deadlines, live, add_subscriber, remove_subscriber, differs, entry_differs,
}
use observable_cafev.Session.View.{lasting}
use observable_cafev.Session.Publish.{publish_delete, publish_append, publish-retain}
use observable_cafev.Session.Retained.{drain_retained_lem}

module _ ⦃P : Platform⦄ where
  abbrev pub IsLasting : Chunk → Type 0
  IsLasting c = lasting c ≡ true

  -- What is kept with a deadline is transient and no delete signal.
  abbrev pub IsFleeting : Chunk × Instant → Type 0
  IsFleeting (c, deadline) = (is_transient c ≡ true) × (delete_target c ≡ none)

  pub record IsSound (s : SessionState) : Type 0 where
    pub history : All IsLasting s.history
    pub retained : All IsFleeting s.retained
    pub subscribers : Distinct s.subscribers

  pub new-IsSound : (id agent : String) → IsSound (new id agent)
  unfolding new
  new-IsSound id agent = record { history = tt; retained = tt; subscribers = tt }

  retain-IsSound :
      (now : Instant) (c : Chunk) (o : Option ℕ) (s : SessionState) {t : SessionState}
      → delete_target c ≡ none
      → is_transient c ≡ true
      → IsSound s
      → retain now c o s ≡ some t
      → IsSound t
  unfolding retain add_secs
  retain-IsSound now c none s live fleeting v h = ground arith
  retain-IsSound now c (some n) s live fleeting v h = ground (
    arith,
    All-append IsFleeting s.retained ((c, now + n * nanos) ∷ []) v.retained ((fleeting, live), tt),
  )

  retired_IsSound :
      (now : Instant) (c : Chunk) (target : String) (s : SessionState) {t : SessionState}
      → IsSound s
      → delete_target c ≡ some target
      → publish now c s ≡ some t
      → IsSound t
  retired_IsSound now c target s v e h =
      subst IsSound (some_inj (sym (publish_delete now c s e) ∙ h)) (record {
        history = All-filter IsLasting (differs target) s.history v.history;
        retained = All-filter IsFleeting (entry_differs target) s.retained v.retained;
        subscribers = v.subscribers;
      })

  pub publish-IsSound :
      (now : Instant) (c : Chunk) (s : SessionState) {t : SessionState}
      → IsSound s
      → publish now c s ≡ some t
      → IsSound t
  publish-IsSound now c s v h = elim (Option-cases (delete_target c)) [
    | inr (target, e) ↦ retired_IsSound now c target s v e h
    | inl e ↦ elim (Bool-cases (is_transient c)) [
      | inl fleeting ↦
          retain-IsSound now c (retain_secs c) s e fleeting v
            (sym (publish-retain now c s e fleeting) ∙ h)
      | inr stays ↦ subst IsSound (some_inj (sym (publish_append now c s e stays) ∙ h)) (record {
        history = All-append IsLasting s.history (c ∷ []) v.history (ground arith, tt);
        retained = v.retained;
        subscribers = v.subscribers;
      })
    ]
  ]

  pub drain_retained-IsSound :
      (now : Instant) (s : SessionState) → IsSound s → IsSound (drain_retained now s).0
  drain_retained-IsSound now s v = rw drain_retained_lem (record {
    history = v.history;
    retained = All-filter IsFleeting (live now) s.retained v.retained;
    subscribers = v.subscribers;
  })

  pub retained_with_deadlines-IsSound :
      (now : Instant) (s : SessionState) → IsSound s → IsSound (retained_with_deadlines now s).0
  unfolding retained_with_deadlines
  retained_with_deadlines-IsSound now s v = record {
    history = v.history;
    retained = All-filter IsFleeting (live now) s.retained v.retained;
    subscribers = v.subscribers;
  }

  pub add_subscriber-IsSound :
      (conn : String) (role : Option String) (s : SessionState)
      → IsSound s
      → IsSound (add_subscriber conn role s).0
  unfolding add_subscriber
  add_subscriber-IsSound conn role s v = record {
    history = v.history;
    retained = v.retained;
    subscribers =
        insert-Distinct s.subscribers conn (record { conn_id = conn; role = role }) v.subscribers;
  }

  pub remove_subscriber-IsSound :
      (conn : String) (s : SessionState) → IsSound s → IsSound (remove_subscriber conn s).0
  unfolding remove_subscriber
  remove_subscriber-IsSound conn s v = record {
    history = v.history;
    retained = v.retained;
    subscribers = remove-Distinct s.subscribers conn v.subscribers;
  }
