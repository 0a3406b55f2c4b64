-- ===== src/Sdk/Reconnect.antt =====
-- cafe-sdk/src/bus/reconnect.rs: a service that is run again, after a growing delay, until it ends well.
--
-- The operation is a parameter: the results of its runs, in order, are a function of the number of runs
-- before. The loop runs on fuel, one unit a run.
use observable_cafev.Base.{
  ℕ, zero, suc, ◌+◌, ◌*◌, ◌^◌, ◌≤◌, ◌<◌, ◌≡◌, refl, Bool, true, false, Option, none, some, List, [],
  ◌∷◌, length, ltb, if◌then◌else◌, arith, ap, ◌∙◌, Bool-cases, inl, inr,
}
use native.Mathlib.Omega.{pow_step}

-- `(delay * 2).min(30 s)`
abbrev pub next_delay : ℕ → ℕ
next_delay delay = if ltb (delay * 2) 30 then delay * 2 else 30

-- The delays that are slept through, in order. `ends_well n` is whether run number `n` returns `Ok(())`;
-- `none` is out of fuel.
unfoldable pub reconnect_loop : (ℕ → Bool) → ℕ → ℕ → ℕ → Option (List ℕ)
reconnect_loop ends_well zero run delay = none
reconnect_loop ends_well (suc fuel) run delay =
    let later = reconnect_loop ends_well fuel (run + 1) (next_delay delay) in
    if ends_well run
    then some []
    else elim later [ none ↦ none | some delays ↦ some (delay ∷ delays) ]

unfoldable pub run_with_reconnect : (ℕ → Bool) → ℕ → Option (List ℕ)
unfolding reconnect_loop
run_with_reconnect ends_well fuel = reconnect_loop ends_well fuel 0 1

-- delay number `i`: as long as `2 ^ i` seconds are less than 30, so many, and 30 from then on
abbrev pub IsBackoff : ℕ → ℕ → Type 0
IsBackoff i delay = (2 ^ i < 30 → delay ≡ 2 ^ i) × (30 ≤ 2 ^ i → delay ≡ 30)

-- the delays from number `i` on
abbrev pub BacksOff : ℕ → List ℕ → Type 0
BacksOff i [] = Unit
BacksOff i (delay ∷ delays) = IsBackoff i delay × BacksOff (i + 1) delays

double : (i : ℕ) → 2 ^ (i + 1) ≡ 2 * 2 ^ i
double i = let e : i + 1 ≡ suc i = omega arith in ap (λ n. 2 ^ n) e ∙ pow_step 2 i

next_delay-IsBackoff : (i delay : ℕ) → IsBackoff i delay → IsBackoff (i + 1) (next_delay delay)
next_delay-IsBackoff i delay (small, large) =
    let d : 2 ^ (i + 1) ≡ 2 * 2 ^ i = double i in
    elim (Bool-cases (ltb (2 ^ i) 30)) [
      | inl below ↦
          let e : delay ≡ 2 ^ i = small (ground arith) in
          (ground (arith, d, e), ground (arith, d, e))
      | inr above ↦
          let e : delay ≡ 30 = large (ground arith) in (ground (arith, d, e), ground (arith, d, e))
    ]

reconnect_loop-BacksOff :
    (ends_well : ℕ → Bool) (failures extra run last delay : ℕ)
    → IsBackoff run delay
    → run + failures ≡ last
    → ((n : ℕ) → n < last → ends_well n ≡ false)
    → ends_well last ≡ true
    → (delays : List ℕ) × (reconnect_loop ends_well (suc failures + extra) run delay ≡ some delays)
      × (length delays ≡ failures)
      × BacksOff run delays
unfolding reconnect_loop
reconnect_loop-BacksOff ends_well zero extra run last delay b e fails ends =
    let same : run ≡ last = omega arith in
    let r : ends_well run ≡ true = ap ends_well same ∙ ends in
    let f : 1 + extra ≡ suc extra = omega arith in ([], rw (f) (rw (r) refl), refl, tt)
reconnect_loop-BacksOff ends_well (suc failures) extra run last delay b e fails ends =
    let r : ends_well run ≡ false = fails run (omega arith) in
    let f : suc (suc failures) + extra ≡ suc (suc failures + extra) = omega arith in
    let (delays, ran, count, backs) =
      reconnect_loop-BacksOff ends_well failures extra (run + 1) last (next_delay delay)
        (next_delay-IsBackoff run delay b) (omega arith) fails ends in
    (delay ∷ delays, rw (f) (rw (r, ran) refl), omega (arith, count), (b, backs))

-- A service whose first run that ends well is the one after `failures` failed ones is left in peace after
-- that run, whatever fuel beyond that of its runs is given. It has been run again after each failure,
-- each time after a delay: the delay after the failure number `i`, counted from 0, is `2 ^ i` seconds as
-- long as that is less than 30, and 30 seconds from then on.
pub run_with_reconnect-BacksOff :
    (ends_well : ℕ → Bool) (failures extra : ℕ)
    → ((n : ℕ) → n < failures → ends_well n ≡ false)
    → ends_well failures ≡ true
    → (delays : List ℕ) × (run_with_reconnect ends_well (suc failures + extra) ≡ some delays)
      × (length delays ≡ failures)
      × BacksOff 0 delays
unfolding run_with_reconnect
run_with_reconnect-BacksOff ends_well failures extra fails ends =
    reconnect_loop-BacksOff ends_well failures extra 0 failures 1
      ((λ h. refl), (λ h. absurd (omega arith))) (omega arith) fails ends
