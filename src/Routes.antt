-- ===== src/Routes.antt =====
-- cafe-server/src/route_registry.rs: the HTTP routes that services on the bus have registered.
--
-- Of the standard library, the splitting of a path at its slashes and the comparison of texts without
-- regard to ASCII case are parameters. An `Instant` is a number of
-- nanoseconds.
pub mod Patterns
pub mod Served
use observable_cafev.Base.{
  ℕ, ◌-◌, ◌/◌, ◌^◌, String, Bool, true, false, not, Option, none, some, List, [], ◌∷◌, ◌==◌, ltb,
  eqb, length, any, if◌then◌else◌,
}
use observable_cafev.Map.{Map, get, insert, remove}
use observable_cafev.Agent.Steps.{strip_prefix}

pub record RouteEntry : Type 0 where
  pub pattern : String
  pub methods : List String
  pub connection_id : String
  pub last_seen : ℕ

abbrev pub Routes : Type 0
Routes = Map RouteEntry

pub record Text : Type 0 where
  -- `text.trim_matches('/').split('/')`
  pub segments : String → List String
  pub eq_ignore_ascii_case : String → String → Bool

unfoldable pub upsert : ℕ → String → List String → String → Routes → Routes
upsert now pattern methods connection_id routes = elim (get routes pattern) [
  | some entry ↦
      insert routes pattern (record entry { last_seen = now; connection_id = connection_id })
  | none ↦ insert routes pattern (record {
    pattern = pattern;
    methods = methods;
    connection_id = connection_id;
    last_seen = now;
  })
]

unfoldable pub remove_route : String → Routes → Routes
remove_route pattern routes = remove routes pattern

-- `HashMap::retain`
unfoldable pub retain : (RouteEntry → Bool) → Routes → Routes
retain keep [] = []
retain keep ((pattern, entry) ∷ routes) =
    if keep entry then (pattern, entry) ∷ retain keep routes else retain keep routes

unfoldable pub remove_by_connection : String → Routes → Routes
unfolding retain
remove_by_connection connection_id routes =
    retain (λ e. not (e.connection_id == connection_id)) routes

-- `now.duration_since(then).as_secs()`
unfoldable pub secs_since : ℕ → ℕ → ℕ
secs_since now since = (now - since) / 10 ^ 9

-- one round of `spawn_gc`, with the limit in seconds
unfoldable pub collect : ℕ → ℕ → Routes → Routes
unfolding retain secs_since
collect now stale routes = retain (λ e. not (ltb stale (secs_since now e.last_seen))) routes

module _ (T : Text) where
  -- the loop over the pairs of segments
  unfoldable pub match_segments : List String → List String → Map String → Option (Map String)
  match_segments [] segs params = some params
  match_segments (pat ∷ pats) [] params = some params
  match_segments (pat ∷ pats) (seg ∷ segs) params = elim (strip_prefix pat ":") [
    | some name ↦ match_segments pats segs (insert params name seg)
    | none ↦ if T.eq_ignore_ascii_case pat seg then match_segments pats segs params else none
  ]

  unfoldable pub match_pattern : String → String → Option (Map String)
  unfolding match_segments
  match_pattern pattern path =
      if eqb (length (T.segments pattern)) (length (T.segments path))
      then match_segments (T.segments pattern) (T.segments path) []
      else none

  unfoldable pub match_path : String → String → Routes → Option (RouteEntry × Map String)
  unfolding match_pattern
  match_path path method [] = none
  match_path path method ((pattern, entry) ∷ routes) =
      if any (λ m. T.eq_ignore_ascii_case m method) entry.methods
      then elim (match_pattern entry.pattern path) [
        | some params ↦ some (entry, params)
        | none ↦ match_path path method routes
      ]
      else match_path path method routes
