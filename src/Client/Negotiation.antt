-- ===== src/Client/Negotiation.antt =====
-- Which wire format a connection gets.
use observable_cafev.Base.{
  ◌≡◌, ◌↔◌, refl, String, Bool, true, false, List, [], ◌∷◌, ◌++◌, arith, ◌==◌, eq_iff, contains,
  Bool-cases, inl, inr, ◌&&◌, ap, sym, ◌∙◌, subst, ◌⊎◌,
}
use observable_cafev.Platform.{Platform}
use observable_cafev.Client.{select_codec}

module _ ⦃P : Platform⦄ where
  -- The client offers `bincode` and does not prefer `json` to it.
  abbrev pub PrefersBincode : List String → Type 0
  PrefersBincode cs =
      (before : List String) × (after : List String) × (cs ≡ before ++ "bincode" ∷ after)
      × (contains before "json" ≡ false)

  select_json :
      (bincode : Bool) (c : String) (cs : List String)
      → (c == "json") ≡ true
      → select_codec bincode (c ∷ cs) ≡ "json"
  unfolding select_codec
  select_json bincode c cs h = rw h

  select_bincode :
      (c : String) (cs : List String)
      → (c == "json") ≡ false
      → (c == "bincode") ≡ true
      → select_codec true (c ∷ cs) ≡ "bincode"
  unfolding select_codec
  select_bincode c cs h k = rw (h, k)

  select_next :
      (bincode : Bool) (c : String) (cs : List String)
      → (c == "json") ≡ false
      → (bincode && c == "bincode") ≡ false
      → select_codec bincode (c ∷ cs) ≡ select_codec bincode cs
  unfolding select_codec
  select_next bincode c cs h k = rw (h, k)

  distinct : ¬ (◌≡◌ {A = String} "json" "bincode")
  distinct h =
      let no : ("json" == "bincode") ≡ false = refl in
      absurd (cc ((eq_iff "json" "bincode").1 h, no))

  chosen : (cs : List String) → select_codec true cs ≡ "bincode" → PrefersBincode cs
  chosen [] h = absurd (distinct (unfold select_codec in h))
  chosen (c ∷ cs) h = elim (Bool-cases (c == "json")) [
    | inl json ↦ absurd (distinct (sym (select_json true c cs json) ∙ h))
    | inr other ↦ elim (Bool-cases (c == "bincode")) [
      | inl here ↦ ([], cs, ap (λ (x : String). x ∷ cs) ((eq_iff c "bincode").0 here), refl)
      | inr skipped ↦
          let (before, after, same, clear) =
            chosen cs (sym (select_next true c cs other skipped) ∙ h) in
          (c ∷ before, after, ap (λ (l : List String). c ∷ l) same, rw (other, clear) refl)
    ]
  ]

  offered :
      (before after : List String)
      → contains before "json" ≡ false
      → select_codec true (before ++ "bincode" ∷ after) ≡ "bincode"
  offered [] after h = select_bincode "bincode" after refl refl
  offered (c ∷ before) after h = elim (Bool-cases (c == "bincode")) [
    | inl here ↦ select_bincode c (before ++ "bincode" ∷ after) (ground arith) here
    | inr skipped ↦
        select_next true c (before ++ "bincode" ∷ after) (ground arith) skipped
        ∙ offered before after (ground arith)
  ]

  only_json : (cs : List String) → select_codec false cs ≡ "json"
  only_json [] = unfold select_codec in refl
  only_json (c ∷ cs) = elim (Bool-cases (c == "json")) [
    | inl json ↦ select_json false c cs json
    | inr other ↦ select_next false c cs other refl ∙ only_json cs
  ]

  json_or_bincode :
      (bincode : Bool) (cs : List String)
      → (select_codec bincode cs ≡ "json") ⊎ (select_codec bincode cs ≡ "bincode")
  json_or_bincode bincode [] = inl (unfold select_codec in refl)
  json_or_bincode bincode (c ∷ cs) = elim (Bool-cases (c == "json")) [
    | inl json ↦ inl (select_json bincode c cs json)
    | inr other ↦ elim (Bool-cases (bincode && c == "bincode")) [
      | inl here ↦ inr (unfold select_codec in rw (other, here))
      | inr skipped ↦
          subst (λ (x : String). (x ≡ "json") ⊎ (x ≡ "bincode"))
            (sym (select_next bincode c cs other skipped)) (json_or_bincode bincode cs)
    ]
  ]

  -- A connection gets the binary format exactly if the bus listens for it and the client offers it
  -- without offering JSON before it; in all other cases it gets JSON.
  pub select_codec_iff :
      (bincode : Bool) (cs : List String)
      → ((select_codec bincode cs ≡ "bincode") ↔ ((bincode ≡ true) × PrefersBincode cs))
        × ((select_codec bincode cs ≡ "json") ⊎ (select_codec bincode cs ≡ "bincode"))
  select_codec_iff true cs =
      ((λ h. (refl, chosen cs h), λ (on, p). rw p.2 (offered p.0 p.1 p.3)), json_or_bincode true cs)
  select_codec_iff false cs = (
    (λ h. absurd (distinct (sym (only_json cs) ∙ h)), λ (on, rest). absurd (cc on)),
    json_or_bincode false cs,
  )
