-- ===== src/Examples/Codecs.antt =====
-- A client that prefers the binary format, and a bus that listens for it.
use observable_cafev.Base.{◌≡◌, refl, true, none, some, [], ◌∷◌}
use observable_cafev.Client
use observable_cafev.Client.{greeting, select_codec}
use observable_cafev.Sdk.Negotiation.{
  ClientCodec, json, bincode, as_str, closed, opened, BusClient, negotiate, connect_with_role,
}
use observable_cafev.Sdk.Negotiation.Codecs.{answer, format_of, negotiate-Agrees}
use observable_cafev.Examples.Plain.{plain}

abbrev client : BusClient
client = record { preferred_codecs = bincode ∷ json ∷ []; negotiated_codec = none }

negotiate_test : (negotiate (answer true "c-1") client).0 ≡ some bincode
unfolding negotiate greeting Client.negotiate select_codec
negotiate_test = refl

negotiate-Agrees_example :
    (codec : ClientCodec) × (client' : BusClient) × (negotiate (answer true "c-1") client
      ≡ (some codec, client'))
    × (negotiate (λ m. closed) client' ≡ (some codec, client'))
    × (connect_with_role (answer true "c-2") (some "ui") codec client' ≡ opened)
    × (format_of true (some "ui") client' ≡ as_str codec)
negotiate-Agrees_example = negotiate-Agrees true "c-1" "c-2" (some "ui") client (λ m. closed) refl
