-- ===== src/Sdk/Negotiation.antt =====
-- cafe-sdk/src/bus/mod.rs: how a client learns the wire format, and how it opens its connections; with
-- the feature `bincode-client`, which is on by default.
--
-- `Reply` is what comes of connecting, sending the first message and reading the answer as JSON. The
-- functions get it as a function of the message that they send.
pub mod Codecs
use observable_cafev.Base.{
  String, Bool, Option, none, some, List, [], ◌∷◌, map, ◌==◌, unwrap_or, if◌then◌else◌,
}
use observable_cafev.Platform.{Platform}
use observable_cafev.Envelope.{ClientMessage, set_meta, ServerMessage, connected, codec_set}

pub data ClientCodec : Type 0 where
  json : ClientCodec
  bincode : ClientCodec

-- `ClientCodec::as_str`, and `NAME` of the codec
unfoldable pub as_str : ClientCodec → String
as_str json = "json"
as_str bincode = "bincode"

unfoldable pub from_str : String → Option ClientCodec
from_str s = if s == "json" then some json else if s == "bincode" then some bincode else none

module _ ⦃P : Platform⦄ where
  -- `failed` is an error of the transport or of reading, `closed` the end of the stream.
  pub data Reply : Type 0 where
    failed : Reply
    closed : Reply
    said : ServerMessage → Reply

  -- a connection, `CODEC_MISMATCH`, or another error
  pub data Opened : Type 0 where
    opened : Opened
    codec_mismatch : (chosen requested : String) → Opened
    unreachable : Opened

  pub record BusClient : Type 0 where
    pub preferred_codecs : List ClientCodec
    pub negotiated_codec : Option ClientCodec

  unfoldable pub codec_strs : BusClient → List String
  unfolding as_str
  codec_strs client = map as_str client.preferred_codecs

  -- `none` is an error
  unfoldable pub codec_of : Reply → Option ClientCodec
  unfolding from_str
  codec_of failed = none
  codec_of (said (codec_set codec connection_id)) = some (unwrap_or (from_str codec) json)
  codec_of _ = some json

  unfoldable pub do_negotiate : (ClientMessage → Reply) → BusClient → Option ClientCodec
  unfolding codec_strs codec_of
  do_negotiate ask client = codec_of (ask (set_meta none (some (codec_strs client))))

  abbrev cached : BusClient → Option ClientCodec → Option ClientCodec × BusClient
  cached client none = (none, client)
  cached client (some codec) = (some codec, record client { negotiated_codec = some codec })

  unfoldable pub negotiate : (ClientMessage → Reply) → BusClient → Option ClientCodec × BusClient
  unfolding do_negotiate
  negotiate ask client = elim client.negotiated_codec [
    | some codec ↦ (some codec, client)
    | none ↦ cached client (do_negotiate ask client)
  ]

  abbrev pub offer : List String → Option (List String)
  offer [] = none
  offer (c ∷ cs) = some (c ∷ cs)

  unfoldable pub meta_msg : Option String → BusClient → ClientMessage
  unfolding codec_strs
  meta_msg role client = set_meta role (offer (codec_strs client))

  unfoldable pub opening : ClientCodec → Reply → Opened
  unfolding as_str
  opening requested failed = unreachable
  opening requested (said (codec_set codec connection_id)) =
      if codec == as_str requested then opened else codec_mismatch codec (as_str requested)
  opening requested _ = opened

  unfoldable pub connect_with_role :
      (ClientMessage → Reply) → Option String → ClientCodec → BusClient → Opened
  unfolding opening meta_msg
  connect_with_role ask role requested client = opening requested (ask (meta_msg role client))
