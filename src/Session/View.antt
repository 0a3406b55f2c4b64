-- ===== src/Session/View.antt =====
-- What a session must keep for replay, stated over the whole sequence of published chunks: an
-- abstract view that knows no buffers.
use observable_cafev.Base.{
  ℕ, ◌+◌, ◌/◌, ◌^◌, ◌<◌, String, ◌≡◌, refl, Bool, false, not, ◌||◌, ◌&&◌, Option, none, some, List,
  [], ◌∷◌, ◌++◌, map, append_assoc, arith, if◌then◌else◌, is, is_some, filter, filter-append,
  and_then,
}
use observable_cafev.Platform.{Platform}
use observable_cafev.Chunk.{Chunk, is_transient, retain_secs}
use observable_cafev.Session.{SessionState, Instant, nanos, add_secs, delete_target, publish}

module _ ⦃P : Platform⦄ where
  abbrev pub Published : Type 0
  Published = Instant × Chunk

  -- The chunk with this id is the target of a delete signal among those published.
  abbrev pub retired : List Published → String → Bool
  retired [] id = false
  retired ((now, c) ∷ later) id = is (delete_target c) id || retired later id

  -- A chunk that goes into the history: neither a delete signal nor transient.
  abbrev pub lasting : Chunk → Bool
  lasting c = not (is_some (delete_target c)) && not (is_transient c)

  -- The history that a sequence of publications must leave, oldest first.
  abbrev pub visible : List Published → List Chunk
  visible [] = []
  visible ((now, c) ∷ later) =
      if lasting c && not (retired later c.id) then c ∷ visible later else visible later

  abbrev pub deadline_of : Published → Option Instant
  deadline_of (now, c) =
      if is_some (delete_target c) then none else and_then (retain_secs c) (add_secs now)

  abbrev pub keep_entry : Option Instant → Chunk → List (Chunk × Instant) → List (Chunk × Instant)
  keep_entry none c rest = rest
  keep_entry (some d) c rest = (c, d) ∷ rest

  -- The retained transient chunks that it must leave, with their deadlines.
  abbrev pub kept : List Published → List (Chunk × Instant)
  kept [] = []
  kept ((now, c) ∷ later) =
      if retired later c.id then kept later else keep_entry (deadline_of (now, c)) c (kept later)

  abbrev pub survives : List Published → Chunk → Bool
  survives cs c = not (retired cs c.id)

  abbrev pub entry_survives : List Published → Chunk × Instant → Bool
  entry_survives cs (c, d) = not (retired cs c.id)

  -- The session's part of a run of publications; `none` is a panic.
  unfoldable pub publish_all : List Published → SessionState → Option SessionState
  publish_all [] s = some s
  publish_all ((now, c) ∷ later) s = and_then (publish now c s) (publish_all later)

  -- The retention period of a chunk does not overflow the clock.
  abbrev pub Fits : Published → Type 0
  Fits (now, c) = (n : ℕ) → retain_secs c ≡ some n → now / nanos + n < 2 ^ 63

  pub record Replays (cs : List Published) (s t : SessionState) : Type 0 where
    pub history : t.history ≡ filter (survives cs) s.history ++ visible cs
    pub retained : t.retained ≡ filter (entry_survives cs) s.retained ++ kept cs
    pub sent : t.sent ≡ s.sent ++ map (λ (e : Published). e.1) cs

  visible-cons :
      (e : Published) (later : List Published)
      → visible (e ∷ later) ≡ filter (survives later) (visible (e ∷ [])) ++ visible later
  visible-cons (now, c) later = ground arith

  kept-cons :
      (e : Published) (later : List Published)
      → kept (e ∷ later) ≡ filter (entry_survives later) (kept (e ∷ [])) ++ kept later
  kept-cons (now, c) later = ground arith

  both_survive :
      (e : Published) (later : List Published) (xs : List Chunk)
      → filter (survives later) (filter (survives (e ∷ [])) xs) ≡ filter (survives (e ∷ later)) xs
  both_survive (now, c) later [] = refl
  both_survive (now, c) later (x ∷ xs) = ground (arith, both_survive (now, c) later xs)

  entries_survive :
      (e : Published) (later : List Published) (xs : List (Chunk × Instant))
      → filter (entry_survives later) (filter (entry_survives (e ∷ [])) xs)
        ≡ filter (entry_survives (e ∷ later)) xs
  entries_survive (now, c) later [] = refl
  entries_survive (now, c) later ((x, d) ∷ xs) = ground (arith, entries_survive (now, c) later xs)

  pub Replays-cons :
      (e : Published) (later : List Published) {s t u : SessionState}
      → Replays (e ∷ []) s t
      → Replays later t u
      → Replays (e ∷ later) s u
  Replays-cons e later {s} {t} {u} one rest = record {
    history = rw (
      rest.history,
      one.history,
      filter-append (survives later) (filter (survives (e ∷ [])) s.history) (visible (e ∷ [])),
      both_survive e later s.history,
      append_assoc,
      ← visible-cons e later,
    );
    retained = rw (
      rest.retained,
      one.retained,
      filter-append (entry_survives later) (filter (entry_survives (e ∷ [])) s.retained)
          (kept (e ∷ [])),
      entries_survive e later s.retained,
      append_assoc,
      ← kept-cons e later,
    );
    sent = rw (rest.sent, one.sent, append_assoc);
  }
