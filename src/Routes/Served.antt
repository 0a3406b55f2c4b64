-- ===== src/Routes/Served.antt =====
-- Which route answers a request, and which never does.
use observable_cafev.Base.{
  ℕ, ◌-◌, ◌+◌, ◌*◌, ◌^◌, ◌<◌, String, ◌≡◌, ◌≢◌, Bool, true, not, Option, none, some, [], ◌∷◌, ◌==◌,
  eq_iff, ltb, any, arith, Bool-cases, Option-cases, inl, inr,
}
use observable_cafev.Map.{Map}
use observable_cafev.Routes.Patterns.{Matches, match_pattern-Matches}
use observable_cafev.Map.Entries.{Entries}
use observable_cafev.Routes.{
  RouteEntry, Routes, Text, secs_since, retain, remove_by_connection, collect, match_pattern,
  match_path,
}

module _ (T : Text) where
  recent :
      (now since stale : ℕ)
      → not (ltb stale (secs_since now since)) ≡ true
      → now - since < (stale + 1) * 10 ^ 9
  unfolding secs_since
  recent now since stale kept = ground arith

  -- what holds of an answer to a request, if there is one
  abbrev pub Answer : (RouteEntry → Map String → Type 0) → Option (RouteEntry × Map String) → Type 0
  Answer Q none = Unit
  Answer Q (some (entry, params)) = Q entry params

  -- The route allows the method, its pattern matches the path, and the parameters are those of the path.
  abbrev pub Serves : String → String → RouteEntry → Map String → Type 0
  Serves path method e params =
      (any (λ m. T.eq_ignore_ascii_case m method) e.methods ≡ true)
      × Matches T e.pattern path params

  retain-Entries :
      (Q : RouteEntry → Type 0) (keep : RouteEntry → Bool) (routes : Routes)
      → ((e : RouteEntry) → keep e ≡ true → Q e)
      → Entries (λ p e. Q e) (retain keep routes)
  unfolding retain
  retain-Entries Q keep [] means = tt
  retain-Entries Q keep ((p, e) ∷ routes) means = elim (Bool-cases (keep e)) [
    | inl kept ↦ rw (kept) (means e kept, retain-Entries Q keep routes means)
    | inr dropped ↦ rw (dropped) (retain-Entries Q keep routes means)
  ]

  -- an answer is one of the routes, and serves the request
  match_path-Answer :
      (Q : RouteEntry → Type 0) (path method : String) (routes : Routes)
      → Entries (λ p e. Q e) routes
      → Answer (λ e params. Q e × Serves path method e params) (match_path T path method routes)
  unfolding match_path
  match_path-Answer Q path method [] h = tt
  match_path-Answer Q path method ((p, e) ∷ routes) h =
      elim (Bool-cases (any (λ m. T.eq_ignore_ascii_case m method) e.methods)) [
        | inr other ↦ rw (other) (match_path-Answer Q path method routes h.1)
        | inl allowed ↦ elim (Option-cases (match_pattern T e.pattern path)) [
          | inl elsewhere ↦ rw (allowed, elsewhere) (match_path-Answer Q path method routes h.1)
          | inr (params, found) ↦
              rw (allowed, found)
                (h.0, (allowed, match_pattern-Matches T e.pattern path params found))
        ]
      ]

  -- Whatever routes are registered: after the routes of a connection have been removed, no request is
  -- answered by a route of that connection, and after a collection, every answering route was refreshed
  -- less than the limit and one more second before. In both cases, a route that answers a request allows
  -- the request's method; its pattern and the request's path have equally many segments, those that are
  -- no parameters are the same but for the case; and each parameter has the segment at its last
  -- occurrence in the pattern as its value.
  pub match_path_served :
      (path method connection_id : String) (now stale : ℕ) (routes : Routes)
      → Answer
          (λ e params. (e.connection_id ≢ connection_id) × Serves path method e params)
          (match_path T path method (remove_by_connection connection_id routes))
        × Answer
            (λ e params. (now - e.last_seen < (stale + 1) * 10 ^ 9) × Serves path method e params)
            (match_path T path method (collect now stale routes))
  unfolding remove_by_connection collect
  match_path_served path method connection_id now stale routes = (
    match_path-Answer (λ e. e.connection_id ≢ connection_id) path method _
        (retain-Entries _ (λ e. not (e.connection_id == connection_id)) routes
          (λ e kept same. absurd (ground (arith, (eq_iff e.connection_id connection_id).1 same)))),
    match_path-Answer (λ e. now - e.last_seen < (stale + 1) * 10 ^ 9) path method _
        (retain-Entries _ (λ e. not (ltb stale (secs_since now e.last_seen))) routes
          (λ e kept. recent now e.last_seen stale kept)),
  )
