-- ===== src/Examples/Services.antt =====
-- Services around the bus at concrete inputs.
use observable_cafev.Base.{
  ℕ, suc, ◌+◌, ◌-◌, ◌*◌, ◌^◌, ◌<◌, ◌≡◌, ◌≢◌, refl, Bool, true, false, some, List, [], ◌∷◌, arith,
  length, ltb, ◌==◌,
}
use observable_cafev.BinaryStore.Storage.{
  Fs, ok, err, conflict, ◌>>=◌, chunk_path, start_write, append_all, read, finalize,
}
use observable_cafev.BinaryStore.Storage.Upload.{upload_roundtrip}
use observable_cafev.Sdk.Reconnect.{run_with_reconnect, BacksOff, run_with_reconnect-BacksOff}
use observable_cafev.Sdk.Wait.{wait_for_bus, IsHonest, wait_for_bus-IsHonest}
use observable_cafev.Routes.{Routes, Text, remove_by_connection, collect, match_path}
use observable_cafev.Routes.Served.{Answer, Serves, match_path_served}

placed : chunk_path "abc" ≡ some "binary/ab/abc"
unfolding chunk_path
placed = refl

upload_roundtrip_example :
    (last final : Fs) × ((start_write "abc" []
        >>= append_all "abc" 0 ((1 ∷ 2 ∷ []) ∷ (3 ∷ []) ∷ []) 10)
      ≡ ok last)
    × (start_write "abc" last ≡ err conflict)
    × (read "abc" 0 5 last ≡ ok (record { bytes = 1 ∷ 2 ∷ 3 ∷ []; file_size = 3; done = false }))
    × (finalize "abc" last ≡ ok final)
    × (read "abc" 0 5 final ≡ ok (record { bytes = 1 ∷ 2 ∷ 3 ∷ []; file_size = 3; done = true }))
upload_roundtrip_example =
    upload_roundtrip "abc" "binary/ab/abc" placed [] ((1 ∷ 2 ∷ []) ∷ (3 ∷ []) ∷ []) 10 5 refl
      (omega arith) (omega arith) (omega arith)

-- the first three runs fail
abbrev fourth : ℕ → Bool
fourth n = ltb 2 n

run_with_reconnect-BacksOff_example :
    (delays : List ℕ) × (run_with_reconnect fourth (suc 3 + 2) ≡ some delays)
    × (length delays ≡ 3)
    × BacksOff 0 delays
run_with_reconnect-BacksOff_example =
    run_with_reconnect-BacksOff fourth 3 2 (λ n h. ground arith) refl

wait_for_bus-IsHonest_example : IsHonest fourth 5 (wait_for_bus fourth 5)
wait_for_bus-IsHonest_example = wait_for_bus-IsHonest fourth 5

abbrev whole : Text
whole = record { segments = λ s. s ∷ []; eq_ignore_ascii_case = λ s t. s == t }

abbrev routes : Routes
routes =
    (
      "/a",
      record {
        pattern = "/a";
        methods = "GET" ∷ [];
        connection_id = "c1";
        last_seen = 5_000_000_000;
      },
    )
    ∷ (
      "/b",
      record {
        pattern = "/b";
        methods = "GET" ∷ [];
        connection_id = "c2";
        last_seen = 40_000_000_000;
      },
    )
    ∷ []

match_path_served_example :
    Answer whole
      (λ e params. (e.connection_id ≢ "c1") × Serves whole "/b" "GET" e params)
      (match_path whole "/b" "GET" (remove_by_connection "c1" routes))
    × Answer whole
        (λ e params.
          (100_900_000_000 - e.last_seen < (60 + 1) * 10 ^ 9) × Serves whole "/b" "GET" e params)
        (match_path whole "/b" "GET" (collect 100_900_000_000 60 routes))
match_path_served_example = match_path_served whole "/b" "GET" "c1" 100_900_000_000 60 routes
