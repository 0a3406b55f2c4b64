-- ===== src/Examples/Answers.antt =====
-- The answers of the LLM service at a concrete stream.
use observable_cafev.Base.{ℕ, ◌≡◌, false, none, List, [], ◌∷◌, ℤ}
use observable_cafev.Chunk.{Stamp}
use observable_cafev.Rpc.{ok_response, err_response}
use observable_cafev.Agent.Dispatch.Answered.{IsAnswered}
use observable_cafev.Llm.Service.{
  Event, token, failure, changed, refused, streams, run_stream_loop, status_ok, handle_llm_response,
}
use observable_cafev.Llm.Service.Answers.{
  spoken, delivered, settled, handle_llm_response-IsAnswered,
}
use observable_cafev.Examples.Plain.{plain, stamp}
use observable_cafev.Examples.Serde.{serde}

abbrev stamps : ℕ → Stamp
stamps n = stamp

abbrev events : List Event
events = token "he" ∷ changed false ∷ token "llo" ∷ failure ∷ token "!" ∷ []

handle_llm_response-IsAnswered_example :
    IsAnswered "call-1"
      (delivered "s" (handle_llm_response stamps "small" "call-1" (streams events)))
      (settled "s" "call-1" (ok_response "call-1" status_ok))
    × ((settled "s" "call-1" (ok_response "call-1" status_ok)).error ≡ none)
    × (spoken (run_stream_loop stamps 1 events).emitted
        ≡ (run_stream_loop stamps 1 events).full_response)
    × IsAnswered "call-1"
        (delivered "s" (handle_llm_response stamps "small" "call-1" (refused "busy")))
        (settled "s" "call-1" (err_response "call-1" (ℤ.negsuc 0) "busy"))
handle_llm_response-IsAnswered_example =
    handle_llm_response-IsAnswered "s" "call-1" stamps "small" "busy" events
