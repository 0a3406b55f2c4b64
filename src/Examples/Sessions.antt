-- ===== src/Examples/Sessions.antt =====
-- Sessions, forks and tags at concrete inputs.
use observable_cafev.Base.{
  ◌≡◌, ◌↔◌, refl, false, true, none, some, List, [], ◌∷◌, map, filter, All, arith, ℤ, some_inj, ◌⊎◌,
}
use observable_cafev.Map.{get}
use observable_cafev.Chunk.{
  Chunk, Stamp, new_text, new_null, with_annotation, as_transient, with_retain, retain_secs,
  is_transient,
}
use observable_cafev.Chunk.Keys.{cafe_flow_signal, flow_target_chunk_id}
use observable_cafev.Session
use observable_cafev.Session.{
  SessionState, Instant, publish, publish_live, retain, add_secs, remove_chunk, delete_target, live,
  chunk_of, drain_retained, retained_with_deadlines,
}
use observable_cafev.Session.View.{Published, Fits, Replays, publish_all}
use observable_cafev.Session.Replay.{publish_all-Replays}
use observable_cafev.Session.Retained.{drain_retained_lem}
use observable_cafev.Registry.{
  SessionRegistry, fork, ok, err, session_exists, parent_not_found, contains,
}
use observable_cafev.Registry.Fork.{Forks, fork_success, fork_failure, fork_replay}
use observable_cafev.Tags.{validate_tags}
use observable_cafev.Tags.Valid.{IsTag, validate_tags_iff}
use observable_cafev.Examples.Plain.{plain, string}

abbrev pub at_start : Stamp
at_start = record { uuid = "u-1"; now_ms = ℤ.pos 1000 }

abbrev pub a_bit_later : Stamp
a_bit_later = record { uuid = "u-2"; now_ms = ℤ.pos 2000 }

abbrev pub in_the_end : Stamp
in_the_end = record { uuid = "u-3"; now_ms = ℤ.pos 3000 }

abbrev pub hello : Chunk
hello = new_text at_start "hello" "cli"

abbrev pub typing : Chunk
typing = with_retain (as_transient (new_null a_bit_later "cli")) 5

abbrev pub unsay : Chunk
unsay =
    with_annotation (with_annotation (new_null in_the_end "cli") cafe_flow_signal (string "delete"))
      flow_target_chunk_id (string "u-1")

-- The three chunks in turn, at the seconds 0, 1 and 2.
abbrev pub three : List Published
three = (0, hello) ∷ (1_000_000_000, typing) ∷ (2_000_000_000, unsay) ∷ []

pub three-Fits : All Fits three
unfolding new_text new_null with_retain as_transient with_annotation retain_secs is_transient
three-Fits = (
  λ n h. absurd (cc h),
  (λ n h. let five : 5 ≡ n = some_inj h in omega arith, (λ n h. absurd (cc h), tt)),
)

publish_all-Replays_example :
    (t : SessionState) × (publish_all three (Session.new "s" "agent") ≡ some t)
    × Replays three (Session.new "s" "agent") t
publish_all-Replays_example = publish_all-Replays three (Session.new "s" "agent") three-Fits

-- A session that retains one chunk until the second 6.
abbrev pub keeping : SessionState
keeping = record (Session.new "s" "agent") {
  history = hello ∷ [];
  retained = (typing, 6_000_000_000) ∷ (typing, 3_000_000_000) ∷ [];
}

drain_retained_lem_example : drain_retained 4_000_000_000 keeping ≡ (
  record keeping { retained = filter (live 4_000_000_000) keeping.retained },
  map chunk_of (filter (live 4_000_000_000) keeping.retained),
)
drain_retained_lem_example = drain_retained_lem 4_000_000_000 keeping

abbrev pub with_keeping : SessionRegistry
with_keeping = record { sessions = ("s", keeping) ∷ []; events = [] }

fork_success_example :
    ((fork 4_000_000_000 in_the_end "s" "t" with_keeping).1 ≡ ok "t")
    × Forks 4_000_000_000 in_the_end "s" "t" keeping with_keeping
        (fork 4_000_000_000 in_the_end "s" "t" with_keeping).0
fork_success_example = fork_success 4_000_000_000 in_the_end "s" "t" with_keeping keeping refl refl

fork_taken : (fork 4_000_000_000 in_the_end "s" "s" with_keeping).1 ≡ err session_exists
unfolding fork
fork_taken = refl

fork_failure_example :
    ((fork 4_000_000_000 in_the_end "s" "s" with_keeping).0 ≡ with_keeping)
    × (((session_exists ≡ session_exists) × (contains with_keeping "s" ≡ true))
        ⊎ ((session_exists ≡ parent_not_found)
            × (contains with_keeping "s" ≡ false)
            × (contains with_keeping "s" ≡ false)))
fork_failure_example =
    fork_failure 4_000_000_000 in_the_end "s" "s" with_keeping session_exists fork_taken

fork_example :
    Forks 4_000_000_000 in_the_end "s" "t" keeping with_keeping
      (fork 4_000_000_000 in_the_end "s" "t" with_keeping).0
fork_example = fork_success_example.1

fork_replay_example :
    (child parent' : SessionState) × (get
        (fork 4_000_000_000 in_the_end "s" "t" with_keeping).0.sessions
        "t"
      ≡ some child)
    × (get (fork 4_000_000_000 in_the_end "s" "t" with_keeping).0.sessions "s" ≡ some parent')
    × ((drain_retained 5_000_000_000 child).1 ≡ (drain_retained 5_000_000_000 keeping).1)
    × ((drain_retained 5_000_000_000 parent').1 ≡ (drain_retained 5_000_000_000 keeping).1)
fork_replay_example =
    fork_replay 4_000_000_000 5_000_000_000 in_the_end "s" "t" with_keeping keeping (omega arith)
      refl refl

validate_tags_iff_example :
    (validate_tags (λ s. s) ("work" ∷ "a b" ∷ []) ≡ none) ↔ All IsTag ("work" ∷ "a b" ∷ [])
validate_tags_iff_example = validate_tags_iff (λ s. s) ("work" ∷ "a b" ∷ [])
