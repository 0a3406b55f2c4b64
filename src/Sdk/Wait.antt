-- ===== src/Sdk/Wait.antt =====
-- cafe-sdk/src/bus/wait.rs: a service that polls for the socket of the bus.
use observable_cafev.Base.{
  ℕ, zero, suc, ◌+◌, ◌≤◌, ◌<◌, ◌≡◌, refl, Bool, true, false, ltb, if◌then◌else◌, arith, Bool-cases,
  inl, inr, ltb→lt, ap, ◌∙◌,
}

-- the attempt that succeeded, or `SdkError::BusNotReady`
pub data Waited : Type 0 where
  ready : (attempt : ℕ) → Waited
  bus_not_ready : (retries : ℕ) → Waited

-- The loop over `attempt`, with `left` attempts to go, this one included. `connects n` is whether
-- attempt number `n` reaches the socket.
unfoldable pub wait_loop : (ℕ → Bool) → ℕ → ℕ → ℕ → Waited
wait_loop connects max_retries zero attempt = bus_not_ready max_retries
wait_loop connects max_retries (suc left) attempt =
    let later = wait_loop connects max_retries left (attempt + 1) in
    if connects attempt
    then ready attempt
    else if ltb attempt max_retries
    then later
    else bus_not_ready max_retries

unfoldable pub wait_for_bus : (ℕ → Bool) → ℕ → Waited
unfolding wait_loop
wait_for_bus connects max_retries = wait_loop connects max_retries max_retries 1

-- what an answer to a limit of attempts means
abbrev pub IsHonest : (ℕ → Bool) → ℕ → Waited → Type 0
IsHonest connects max_retries (ready attempt) =
    (connects attempt ≡ true)
    × (1 ≤ attempt)
    × (attempt ≤ max_retries)
    × ((n : ℕ) → 1 ≤ n → n < attempt → connects n ≡ false)
IsHonest connects max_retries (bus_not_ready retries) =
    (retries ≡ max_retries) × ((n : ℕ) → 1 ≤ n → n ≤ max_retries → connects n ≡ false)

wait_loop-IsHonest :
    (connects : ℕ → Bool) (max_retries left attempt : ℕ)
    → attempt + left ≡ max_retries + 1
    → 1 ≤ attempt
    → ((n : ℕ) → 1 ≤ n → n < attempt → connects n ≡ false)
    → IsHonest connects max_retries (wait_loop connects max_retries left attempt)
unfolding wait_loop
wait_loop-IsHonest connects max_retries zero attempt e pos failed =
    (refl, λ n low high. failed n low (omega arith))
wait_loop-IsHonest connects max_retries (suc left) attempt e pos failed =
    elim (Bool-cases (connects attempt)) [
      | inl here ↦ rw (here) (here, pos, omega arith, failed)
      | inr nothing ↦
          let so_far : (n : ℕ) → 1 ≤ n → n < attempt + 1 → connects n ≡ false =
            λ n low high. earlier n low (omega arith) nothing in
          elim (Bool-cases (ltb attempt max_retries)) [
            | inl more ↦
                rw (nothing, more)
                  (wait_loop-IsHonest connects max_retries left (attempt + 1) (omega arith)
                    (omega arith) so_far)
            | inr last ↦ rw (nothing, last) (refl, λ n low high. so_far n low (ground arith))
          ]
    ]
  where
    earlier : (n : ℕ) → 1 ≤ n → n ≤ attempt → connects attempt ≡ false → connects n ≡ false
    earlier n low high nothing = elim (Bool-cases (ltb n attempt)) [
      | inl less ↦ failed n low (ltb→lt n attempt less)
      | inr reached ↦ let same : n ≡ attempt = ground arith in ap connects same ∙ nothing
    ]

-- Waiting for the bus answers truly: if it says that the bus was ready at an attempt, that attempt
-- reached the socket, it was within the limit and all earlier ones failed; if it says that the bus is
-- not ready, every attempt up to the limit has been made and failed.
pub wait_for_bus-IsHonest :
    (connects : ℕ → Bool) (max_retries : ℕ)
    → IsHonest connects max_retries (wait_for_bus connects max_retries)
unfolding wait_for_bus
wait_for_bus-IsHonest connects max_retries =
    wait_loop-IsHonest connects max_retries max_retries 1 (omega arith) (omega arith)
      λ n low high. absurd (omega arith)
