-- ===== src/Llm/Service/Answers.antt =====
-- Every `llm.invoke` that the LLM service handles gets its answer.
use observable_cafev.Base.{
  ℕ, ◌+◌, String, ◌≡◌, refl, ap, sym, subst, ◌∙◌, true, false, none, some, List, [], ◌∷◌, ◌++◌,
  ◌==◌, push_str, length, All, All-append, append_assoc, Bool-cases, inl, inr, if◌then◌else◌,
  unwrap_or, ℤ,
}
use observable_cafev.Platform.{Platform}
use observable_cafev.Chunk.{
  Chunk, Stamp, new_null, new_text, with_annotation, as_transient, with_retain,
}
use observable_cafev.Envelope.{ServerMessage, chunk}
use observable_cafev.Rpc.{
  Serde, JsonRpcResponse, ok_response, err_response, is_rpc_response_for, as_rpc_response, revived,
  revived_error,
}
use observable_cafev.Agent.Dispatch.Answered.{IsAnswered, IsQuiet}
use observable_cafev.Llm.Service.{
  Event, token, failure, changed, refused, streams, Streamed, token_chunk, run_stream_loop,
  response_chunk, error_chunk, start_chunk, text_chunk, tombstone, done_chunk, status_ok, closing,
  handle_llm_response,
}

module _ ⦃P : Platform⦄ where
  -- the texts of some chunks, put together
  abbrev pub spoken : List Chunk → String
  spoken [] = ""
  spoken (c ∷ chunks) = push_str (unwrap_or c.content "") (spoken chunks)

  run_stream_loop-spoken :
      (stamps : ℕ → Stamp) (n : ℕ) (events : List Event)
      → spoken (run_stream_loop stamps n events).emitted
        ≡ (run_stream_loop stamps n events).full_response
  unfolding run_stream_loop token_chunk as_transient with_annotation new_text
  run_stream_loop-spoken stamps n [] = refl
  run_stream_loop-spoken stamps n (token t ∷ rest) =
      ap (push_str t) (run_stream_loop-spoken stamps (n + 1) rest)
  run_stream_loop-spoken stamps n (failure ∷ rest) = refl
  run_stream_loop-spoken stamps n (changed true ∷ rest) = refl
  run_stream_loop-spoken stamps n (changed false ∷ rest) = run_stream_loop-spoken stamps n rest

  -- the messages that a subscriber gets of published chunks
  abbrev pub delivered : String → List Chunk → List ServerMessage
  delivered sid [] = []
  delivered sid (c ∷ chunks) = chunk sid c ∷ delivered sid chunks

  delivered-append :
      (sid : String) (a b : List Chunk)
      → delivered sid (a ++ b) ≡ delivered sid a ++ delivered sid b
  delivered-append sid [] b = refl
  delivered-append sid (c ∷ a) b = ap (λ ms. chunk sid c ∷ ms) (delivered-append sid a b)

  module _ ⦃S : Serde⦄ where
    module _ (sid call_id : String) where
      emitted-IsQuiet :
          (stamps : ℕ → Stamp) (n : ℕ) (events : List Event)
          → All (IsQuiet call_id) (delivered sid (run_stream_loop stamps n events).emitted)
      unfolding run_stream_loop token_chunk as_transient with_annotation new_text
          is_rpc_response_for as_rpc_response
      emitted-IsQuiet stamps n [] = tt
      emitted-IsQuiet stamps n (token t ∷ rest) = (refl, emitted-IsQuiet stamps (n + 1) rest)
      emitted-IsQuiet stamps n (failure ∷ rest) = tt
      emitted-IsQuiet stamps n (changed true ∷ rest) = tt
      emitted-IsQuiet stamps n (changed false ∷ rest) = emitted-IsQuiet stamps n rest

      -- a response as it is read back
      abbrev pub settled : JsonRpcResponse → JsonRpcResponse
      settled r = record r { result = revived r.result; error = revived_error r.error }

      response_chunk-settled :
          (st : Stamp) (r : JsonRpcResponse)
          → as_rpc_response (response_chunk st r) ≡ some (settled r)
      unfolding response_chunk as_rpc_response with_retain as_transient with_annotation new_null
      response_chunk-settled st r = S.to_response-of_response r

      answered :
          (before : List Chunk) (st : Stamp) (r : JsonRpcResponse)
          → All (IsQuiet call_id) (delivered sid before)
          → r.id ≡ call_id
          → IsAnswered call_id (delivered sid (before ++ response_chunk st r ∷ [])) (settled r)
      answered before st r quiet matching = record {
        before = delivered sid before;
        session_id = sid;
        answer = response_chunk st r;
        after = [];
        split = delivered-append sid before (response_chunk st r ∷ []);
        quiet = quiet;
        read = response_chunk-settled st r;
        matching = matching;
      }

      -- what is published after the stream and before the answer
      abbrev last_words : (ℕ → Stamp) → ℕ → String → Streamed → List Chunk
      last_words stamps n model s =
          (if s.full_response == "" then [] else text_chunk (stamps n) s.full_response model ∷ [])
          ++ tombstone (stamps (n + 1)) s.token_ids
            ∷ done_chunk (stamps (n + 2)) s.finish_reason
            ∷ []

      closing-last_words :
          (stamps : ℕ → Stamp) (n : ℕ) (model : String) (s : Streamed)
          → closing stamps n model call_id s
            ≡ last_words stamps n model s
              ++ response_chunk (stamps (n + 3)) (ok_response call_id status_ok) ∷ []
      unfolding closing
      closing-last_words stamps n model s = elim (Bool-cases (s.full_response == "")) [
        | inl empty ↦ rw (empty) refl
        | inr full ↦ rw (full) refl
      ]

      last_words-IsQuiet :
          (stamps : ℕ → Stamp) (n : ℕ) (model : String) (s : Streamed)
          → All (IsQuiet call_id) (delivered sid (last_words stamps n model s))
      unfolding text_chunk tombstone done_chunk as_transient with_annotation new_text new_null
          is_rpc_response_for as_rpc_response
      last_words-IsQuiet stamps n model s = elim (Bool-cases (s.full_response == "")) [
        | inl empty ↦ rw (empty) (refl, (refl, tt))
        | inr full ↦ rw (full) (refl, (refl, (refl, tt)))
      ]

      error_chunk-IsQuiet :
          (st : Stamp) (e : String) → All (IsQuiet call_id) (delivered sid (error_chunk st e ∷ []))
      unfolding error_chunk with_annotation new_null is_rpc_response_for as_rpc_response
      error_chunk-IsQuiet st e = (refl, tt)

      start_chunk-IsQuiet :
          (st : Stamp) → All (IsQuiet call_id) (delivered sid (start_chunk st ∷ []))
      unfolding start_chunk with_retain as_transient with_annotation new_null is_rpc_response_for
          as_rpc_response
      start_chunk-IsQuiet st = (refl, tt)

      append-IsQuiet :
          (a b : List Chunk)
          → All (IsQuiet call_id) (delivered sid a)
          → All (IsQuiet call_id) (delivered sid b)
          → All (IsQuiet call_id) (delivered sid (a ++ b))
      append-IsQuiet a b h k =
          rw (delivered-append sid a b)
            (All-append (IsQuiet call_id) (delivered sid a) (delivered sid b) h k)

      -- Whatever becomes of the stream of an `llm.invoke`, and in whatever order tokens, errors of the stream
      -- and aborts come: what the service publishes, delivered to a subscriber of the session, has an
      -- answer to the call, and the first one is a success. The texts of the token chunks, put together,
      -- are the full response. If the backend refuses the call, the first answer is the error with code
      -- -1 and the backend's message.
      pub handle_llm_response-IsAnswered :
          (stamps : ℕ → Stamp) (model e : String) (events : List Event)
          → IsAnswered call_id
              (delivered sid (handle_llm_response stamps model call_id (streams events)))
              (settled (ok_response call_id status_ok))
            × ((settled (ok_response call_id status_ok)).error ≡ none)
            × (spoken (run_stream_loop stamps 1 events).emitted
                ≡ (run_stream_loop stamps 1 events).full_response)
            × IsAnswered call_id
                (delivered sid (handle_llm_response stamps model call_id (refused e)))
                (settled (err_response call_id (ℤ.negsuc 0) e))
      unfolding handle_llm_response ok_response err_response
      handle_llm_response-IsAnswered stamps model e events =
          let s = run_stream_loop stamps 1 events in
          let n = 1 + length s.emitted in
          let before = start_chunk (stamps 0) ∷ s.emitted ++ last_words stamps n model s in
          let quiet : All (IsQuiet call_id) (delivered sid before) =
            append-IsQuiet (start_chunk (stamps 0) ∷ []) (s.emitted ++ last_words stamps n model s)
              (start_chunk-IsQuiet (stamps 0))
              (append-IsQuiet s.emitted (last_words stamps n model s)
                (emitted-IsQuiet stamps 1 events) (last_words-IsQuiet stamps n model s)) in
          let last = response_chunk (stamps (n + 3)) (ok_response call_id status_ok) in
          let whole : before ++ last ∷ []
              ≡ handle_llm_response stamps model call_id (streams events) =
            ap (λ cs. start_chunk (stamps 0) ∷ cs)
              (append_assoc s.emitted (last_words stamps n model s) (last ∷ [])
                ∙ ap (λ cs. s.emitted ++ cs) (sym (closing-last_words stamps n model s))) in
          (
            subst
                (λ cs.
                  IsAnswered call_id (delivered sid cs) (settled (ok_response call_id status_ok)))
                whole (answered before (stamps (n + 3)) (ok_response call_id status_ok) quiet refl),
            refl,
            run_stream_loop-spoken stamps 1 events,
            answered (error_chunk (stamps 0) e ∷ []) (stamps 1)
                (err_response call_id (ℤ.negsuc 0) e) (error_chunk-IsQuiet (stamps 0) e) refl,
          )
