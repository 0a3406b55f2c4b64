-- ===== src/Codec/Stream.antt =====
-- Reading a stream of frames, whatever the boundaries of the reads.
use observable_cafev.Base.{
  ℕ, suc, zero, ◌<◌, ◌≡◌, ◌⊎◌, inl, inr, refl, sym, ap, subst, ◌∙◌, true, List, [], ◌∷◌, ◌++◌,
  append_assoc, arith, length, drop, drop-length, All, map,
}
use observable_cafev.Codec.{
  BusCodec, incomplete, frame, Next, message, ended, next_msg, messages, at_end,
}

-- What a codec promises of the frames of good messages.
pub record Framing {M : Type 0} (C : BusCodec M) (Good : M → Type 0) : Type 0 where
  pub whole :
      (m : M) (rest : List ℕ)
      → Good m
      → C.decode (C.encode m ++ rest) ≡ frame m (length (C.encode m))
  pub part :
      (m : M) (buf tail : List ℕ)
      → Good m
      → buf ++ tail ≡ C.encode m
      → ¬ (tail ≡ [])
      → C.decode buf ≡ incomplete
  pub nothing : C.decode [] ≡ incomplete

abbrev pub flat : List (List ℕ) → List ℕ
flat [] = []
flat (r ∷ rs) = r ++ flat rs

abbrev pub Filled : List ℕ → Type 0
Filled r = ¬ (r ≡ [])

pub cons_inj : {a b : ℕ} {xs ys : List ℕ} → a ∷ xs ≡ b ∷ ys → (a ≡ b) × (xs ≡ ys)
cons_inj h = (cc, cc)

-- Two ways to split a list: the first part reaches past the other's, or ends inside it.
split_append :
    (buf later e rest : List ℕ)
    → buf ++ later ≡ e ++ rest
    → ((mid : List ℕ) × (buf ≡ e ++ mid) × (mid ++ later ≡ rest))
      ⊎ ((tail : List ℕ) × (buf ++ tail ≡ e) × Filled tail × (later ≡ tail ++ rest))
split_append buf later [] rest h = inl (buf, refl, h)
split_append [] later (x ∷ e) rest h = inr (x ∷ e, refl, (λ bad. absurd (cc bad)), h)
split_append (b ∷ buf) later (x ∷ e) rest h =
    let (front, back) = cons_inj h in
    elim (split_append buf later e rest back) [
      | inl (mid, same, more) ↦ inl (mid, cc, more)
      | inr (tail, same, filled, more) ↦ inr (tail, cc, filled, more)
    ]

module _ {M : Type 0} (C : BusCodec M) (Good : M → Type 0) (F : Framing C Good) where
  -- The outcome of one call.
  abbrev Reads : M → List ℕ → Next M → Type 0
  Reads m rest out =
      (buf : List ℕ) × (reads : List (List ℕ)) × (out ≡ message m buf reads)
      × (buf ++ flat reads ≡ rest)
      × All Filled reads

  whole_here :
      (m : M) (mid : List ℕ) (buf : List ℕ)
      → Good m
      → buf ≡ C.encode m ++ mid
      → (C.decode buf ≡ frame m (length (C.encode m))) × (drop (length (C.encode m)) buf ≡ mid)
  whole_here m mid buf good h = (rw h (F.whole m mid good), rw h (drop-length (C.encode m) mid))

  next_frame :
      (buf : List ℕ) (reads : List (List ℕ)) (m : M) (n : ℕ)
      → C.decode buf ≡ frame m n
      → next_msg C buf reads ≡ message m (drop n buf) reads
  unfolding next_msg
  next_frame buf [] m n h = rw (h, next_msg)
  next_frame buf (r ∷ reads) m n h = rw (h, next_msg)

  next_read :
      (buf r : List ℕ) (reads : List (List ℕ))
      → C.decode buf ≡ incomplete
      → Filled r
      → next_msg C buf (r ∷ reads) ≡ next_msg C (buf ++ r) reads
  unfolding next_msg
  next_read buf [] reads h filled = absurd (filled refl)
  next_read buf (b ∷ r) reads h filled = rw (h, next_msg)

  nothing_left : (tail rest : List ℕ) → Filled tail → ¬ ([] ≡ tail ++ rest)
  nothing_left [] rest filled h = filled refl
  nothing_left (b ∷ tail) rest filled h = absurd (cc h)

  next_msg_lem :
      (reads : List (List ℕ)) (buf : List ℕ) (m : M) (rest : List ℕ)
      → Good m
      → All Filled reads
      → buf ++ flat reads ≡ C.encode m ++ rest
      → Reads m rest (next_msg C buf reads)
  next_msg_lem [] buf m rest good filled h = elim (split_append buf [] (C.encode m) rest h) [
    | inl (mid, same, more) ↦
        let (hit, left) = whole_here m mid buf good same in
        (drop (length (C.encode m)) buf, [], next_frame buf [] m _ hit, rw left more, tt)
    | inr (tail, same, some_left, more) ↦ absurd (nothing_left tail rest some_left more)
  ]
  next_msg_lem (r ∷ reads) buf m rest good filled h =
      elim (split_append buf (r ++ flat reads) (C.encode m) rest h) [
        | inl (mid, same, more) ↦
            let (hit, left) = whole_here m mid buf good same in
            (
              drop (length (C.encode m)) buf,
              r ∷ reads,
              next_frame buf (r ∷ reads) m _ hit,
              rw left more,
              filled,
            )
        | inr (tail, same, some_left, more) ↦
            subst (Reads m rest)
              (sym (next_read buf r reads (F.part m buf tail good same some_left) filled.0))
              (next_msg_lem reads (buf ++ r) m rest good filled.1
                (append_assoc buf r (flat reads) ∙ h))
      ]

  next_end :
      (buf : List ℕ) (reads : List (List ℕ))
      → All Filled reads
      → buf ++ flat reads ≡ []
      → next_msg C buf reads ≡ ended
  unfolding next_msg
  next_end [] [] filled h = rw (F.nothing, next_msg) (ap (λ d. at_end C d []) F.nothing)
  next_end [] ([] ∷ reads) filled h = absurd (filled.0 refl)
  next_end [] ((b ∷ r) ∷ reads) filled h = absurd (cc h)
  next_end (b ∷ buf) reads filled h = absurd (cc h)

  messages_next :
      (fuel : ℕ) (buf buf' : List ℕ) (reads reads' : List (List ℕ)) (m : M) (ms : List M)
      → next_msg C buf reads ≡ message m buf' reads'
      → messages C fuel buf' reads' ≡ (ms, true)
      → messages C (suc fuel) buf reads ≡ (m ∷ ms, true)
  unfolding messages
  messages_next fuel buf buf' reads reads' m ms h later = rw (h, messages, later)

  messages_end :
      (fuel : ℕ) (buf : List ℕ) (reads : List (List ℕ))
      → next_msg C buf reads ≡ ended
      → messages C (suc fuel) buf reads ≡ ([], true)
  unfolding messages
  messages_end fuel buf reads h = rw (h, messages)

  -- Reading a stream loses and invents nothing, however the frames are cut into reads. If a stream of
  -- reads, none of them empty, carries the frames of some good messages one after the other and then
  -- ends, the reader yields exactly these messages in order and reports the end, and one call for each
  -- message and one for the end are enough.
  pub messages_lem :
      (ms : List M) (fuel : ℕ) (buf : List ℕ) (reads : List (List ℕ))
      → All Good ms
      → length ms < fuel
      → All Filled reads
      → buf ++ flat reads ≡ flat (map C.encode ms)
      → messages C fuel buf reads ≡ (ms, true)
  messages_lem ms zero buf reads good enough filled h = absurd (omega arith)
  messages_lem [] (suc fuel) buf reads good enough filled h =
      messages_end fuel buf reads (next_end buf reads filled h)
  messages_lem (m ∷ ms) (suc fuel) buf reads good enough filled h =
      let (buf', reads', same, more, still) =
        next_msg_lem reads buf m (flat (map C.encode ms)) good.0 filled h in
      messages_next fuel buf buf' reads reads' m ms same
        (messages_lem ms fuel buf' reads' good.1 (omega arith) still more)
