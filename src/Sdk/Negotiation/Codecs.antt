-- ===== src/Sdk/Negotiation/Codecs.antt =====
-- The client of cafe-sdk and the handshake of cafe-bus agree on the wire format.
use observable_cafev.Base.{
  String, ◌≡◌, refl, Bool, Option, none, some, List, [], ◌∷◌, eq_refl, ◌∙◌, sym, inl, inr, ◌⊎◌,
  arith,
}
use observable_cafev.Platform.{Platform}
use observable_cafev.Envelope.{ClientMessage, set_meta}
use observable_cafev.Client.{select_codec, greeting}
use observable_cafev.Client
use observable_cafev.Sdk.Negotiation.{
  ClientCodec, json, bincode, as_str, from_str, Reply, said, opened, BusClient, codec_strs,
  codec_of, do_negotiate, negotiate, meta_msg, opening, offer, connect_with_role,
}

module _ ⦃P : Platform⦄ where
  -- What the bus answers to the first message of a connection.
  abbrev pub answer : Bool → String → ClientMessage → Reply
  answer listens conn m = said (greeting conn (Client.negotiate listens m).0 m)

  select_codec-known :
      (listens : Bool) (cs : List String)
      → (select_codec listens cs ≡ "json") ⊎ (select_codec listens cs ≡ "bincode")
  unfolding select_codec
  select_codec-known listens [] = inl refl
  select_codec-known listens (c ∷ cs) = ground (arith, select_codec-known listens cs)

  -- the codec that both sides use, as the bus names it
  select_codec-from_str :
      (listens : Bool) (cs : List String)
      → (codec : ClientCodec) × (from_str (select_codec listens cs) ≡ some codec)
        × (as_str codec ≡ select_codec listens cs)
  unfolding from_str as_str
  select_codec-from_str listens cs = elim (select_codec-known listens cs) [
    | inl e ↦ (json, rw (e) refl, sym e)
    | inr e ↦ (bincode, rw (e) refl, sym e)
  ]

  do_negotiate-answer :
      (listens : Bool) (conn : String) (client : BusClient) (codec : ClientCodec)
      → from_str (select_codec listens (codec_strs client)) ≡ some codec
      → do_negotiate (answer listens conn) client ≡ some codec
  unfolding do_negotiate codec_of greeting Client.negotiate
  do_negotiate-answer listens conn client codec e = rw (e) refl

  -- the format in which the bus reads what follows on a connection that the client opens
  abbrev pub format_of : Bool → Option String → BusClient → String
  format_of listens role client = (Client.negotiate listens (meta_msg role client)).0

  negotiate-offer :
      (listens : Bool) (role : Option String) (strs : List String)
      → (Client.negotiate listens (set_meta role (offer strs))).0 ≡ select_codec listens strs
  unfolding Client.negotiate select_codec
  negotiate-offer listens role [] = refl
  negotiate-offer listens role (s ∷ strs) = refl

  opening-offer :
      (listens : Bool) (conn : String) (role : Option String) (strs : List String)
      (codec : ClientCodec)
      → as_str codec ≡ select_codec listens strs
      → opening codec (answer listens conn (set_meta role (offer strs))) ≡ opened
  unfolding opening greeting Client.negotiate
  opening-offer listens conn role [] codec e = refl
  opening-offer listens conn role (s ∷ strs) codec e =
      rw (e, eq_refl (select_codec listens (s ∷ strs))) refl

  -- A client that has not negotiated yet and asks the bus for a codec gets one and remembers it, so that
  -- it does not ask again, whatever would be answered. Each connection that it then opens, in whatever
  -- role, is accepted with this codec, and the bus reads what follows on it in the same format.
  pub negotiate-Agrees :
      (listens : Bool) (conn later : String) (role : Option String) (client : BusClient)
      (ask : ClientMessage → Reply)
      → client.negotiated_codec ≡ none
      → (codec : ClientCodec) × (client' : BusClient) × (negotiate (answer listens conn) client
          ≡ (some codec, client'))
        × (negotiate ask client' ≡ (some codec, client'))
        × (connect_with_role (answer listens later) role codec client' ≡ opened)
        × (format_of listens role client' ≡ as_str codec)
  unfolding negotiate connect_with_role meta_msg codec_strs
  negotiate-Agrees listens conn later role client ask fresh =
      let (codec, known, named) = select_codec-from_str listens (codec_strs client) in
      (
        codec,
        record client { negotiated_codec = some codec },
        rw (fresh, do_negotiate-answer listens conn client codec known) refl,
        refl,
        opening-offer listens later role (codec_strs client) codec named,
        negotiate-offer listens role (codec_strs client) ∙ sym named,
      )
