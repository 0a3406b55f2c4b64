-- ===== src/Agent/Config.antt =====
-- `resolve_session_config` and `known_config_keys` of cafe-agent-runtime/src/config.rs: what the
-- runtime configuration chunks of a history amount to.
pub mod Merge
use observable_cafev.Base.{
  String, Bool, not, Option, List, [], ◌∷◌, ◌++◌, ◌==◌, ◌&&◌, and_then, map_or, is, if◌then◌else◌,
  contains,
}
use observable_cafev.Platform.{Platform}
use observable_cafev.Map.{Map, get, insert}
use observable_cafev.Chunk.{Chunk, null, is_type}
use observable_cafev.Chunk.Keys.{config_type}
use observable_cafev.Rpc.{Serde, EvaluatorSchema}
use observable_cafev.Agent.Steps.{SessionConfig}

abbrev pub keys {ℓ} : {V : Type ℓ} → Map V → List String
keys [] = []
keys ((k, v) ∷ m) = k ∷ keys m

module _ ⦃P : Platform⦄ where
  module _ ⦃S : Serde⦄ where
    -- `config_schema.get("properties").and_then(|p| p.as_object())`; a member that is not there reads
    -- as `Null`, which is not an object.
    unfoldable pub known_config_keys : List EvaluatorSchema → List String
    known_config_keys [] = []
    known_config_keys (schema ∷ schemas) =
        map_or (S.as_object (P.index schema.config_schema "properties")) [] keys
        ++ known_config_keys schemas

  -- one round of the inner loop
  unfoldable pub merge_annotation : List String → String → P.Value → SessionConfig → SessionConfig
  merge_annotation known key value cfg = if key == config_type then cfg else record {
    values = insert cfg.values key value;
    extra = if not (contains known key) then insert cfg.extra key value else cfg.extra;
  }

  unfoldable pub merge_annotations : List String → Map P.Value → SessionConfig → SessionConfig
  unfolding merge_annotation
  merge_annotations known [] cfg = cfg
  merge_annotations known ((key, value) ∷ rest) cfg =
      merge_annotations known rest (merge_annotation known key value cfg)

  -- The two tests that skip a chunk.
  unfoldable pub is_config : Chunk → Bool
  is_config c =
      is_type c.content_type null
      && is (and_then (get c.annotations config_type) P.as_str) "runtime"

  unfoldable pub merge_chunks : List String → List Chunk → SessionConfig → SessionConfig
  unfolding merge_annotations
  merge_chunks known [] cfg = cfg
  merge_chunks known (c ∷ history) cfg =
      merge_chunks known history
        (if is_config c then merge_annotations known c.annotations cfg else cfg)

  unfoldable pub resolve_session_config :
      ⦃S : Serde⦄ → List Chunk → List EvaluatorSchema → SessionConfig
  unfolding known_config_keys merge_chunks
  resolve_session_config history schemas =
      merge_chunks (known_config_keys schemas) history (record { values = []; extra = [] })
