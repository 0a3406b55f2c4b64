-- ===== src/Chunk.antt =====
-- cafe-types/src/chunk.rs and the keys of cafe-types/src/annotation.rs: the unit of data on the bus.
-- A new chunk takes its id (`Uuid::new_v4`) and its time (`Chunk::now_ms`) from a `Stamp`.
pub mod Keys
pub mod Annotations
use observable_cafev.Base.{
  ℕ, String, Bool, true, false, Option, none, some, List, [], ◌&&◌, is, unwrap_or, and_then,
  if◌then◌else◌, not, ℤ,
}
use observable_cafev.Platform.{Platform}
use observable_cafev.Map.{Map, get, insert}
use Keys.{
  cafe_transient, cafe_transient_retain_secs, cafe_mutates_target_id, chat_role, config_type,
}

pub data ContentType : Type 0 where
  text binary binary_ref null : ContentType

abbrev pub is_type : ContentType → ContentType → Bool
is_type text text = true
is_type binary binary = true
is_type binary_ref binary_ref = true
is_type null null = true
is_type _ _ = false

pub record Stamp : Type 0 where
  pub uuid : String
  pub now_ms : ℤ

module _ ⦃P : Platform⦄ where
  pub record Chunk : Type 0 where
    pub id : String
    pub content_type : ContentType
    pub content : Option String
    pub data_bytes : Option (List ℕ)
    pub mime_type : Option String
    pub producer : String
    pub annotations : Map P.Value
    pub timestamp : ℤ

  unfoldable pub new_text : Stamp → String → String → Chunk
  new_text st body source = record {
    id = st.uuid;
    content_type = text;
    content = some body;
    data_bytes = none;
    mime_type = none;
    producer = source;
    annotations = [];
    timestamp = st.now_ms;
  }

  unfoldable pub new_binary : Stamp → List ℕ → String → String → Chunk
  new_binary st bytes mime source = record {
    id = st.uuid;
    content_type = binary;
    content = none;
    data_bytes = some bytes;
    mime_type = some mime;
    producer = source;
    annotations = [];
    timestamp = st.now_ms;
  }

  unfoldable pub new_null : Stamp → String → Chunk
  new_null st source = record {
    id = st.uuid;
    content_type = null;
    content = none;
    data_bytes = none;
    mime_type = none;
    producer = source;
    annotations = [];
    timestamp = st.now_ms;
  }

  unfoldable pub new_binary_ref : Stamp → String → String → Chunk
  new_binary_ref st mime source = record {
    id = st.uuid;
    content_type = binary_ref;
    content = none;
    data_bytes = none;
    mime_type = some mime;
    producer = source;
    annotations = [];
    timestamp = st.now_ms;
  }

  unfoldable pub with_annotation : Chunk → String → P.Value → Chunk
  with_annotation c key value = record c { annotations = insert c.annotations key value }

  -- `annotations.get(key).and_then(|v| v.as_str())`, which is also `get_annotation::<String>`
  unfoldable pub get_str : Chunk → String → Option String
  get_str c key = and_then (get c.annotations key) P.as_str

  unfoldable pub role : Chunk → Option String
  unfolding get_str
  role c = get_str c chat_role

  unfoldable pub is_runtime_config : Chunk → Bool
  unfolding get_str
  is_runtime_config c = is_type c.content_type null && is (get_str c config_type) "runtime"

  unfoldable pub is_transient : Chunk → Bool
  is_transient c = unwrap_or (and_then (get c.annotations cafe_transient) P.as_bool) false

  unfoldable pub as_transient : Chunk → Chunk
  unfolding with_annotation
  as_transient c = with_annotation c cafe_transient (P.bool true)

  unfoldable pub retain_secs : Chunk → Option ℕ
  unfolding is_transient
  retain_secs c =
      if not (is_transient c)
      then none
      else and_then (get c.annotations cafe_transient_retain_secs) P.as_u64

  unfoldable pub with_retain : Chunk → ℕ → Chunk
  unfolding with_annotation
  with_retain c secs = with_annotation c cafe_transient_retain_secs (P.number secs)

  unfoldable pub is_binary_ref : Chunk → Bool
  is_binary_ref c = is_type c.content_type binary_ref

  unfoldable pub is_mutation : Chunk → Option String
  unfolding get_str
  is_mutation c = get_str c cafe_mutates_target_id

  unfoldable pub mutation : Stamp → String → String → Chunk
  unfolding new_null with_annotation
  mutation st target source =
      with_annotation (new_null st source) cafe_mutates_target_id (P.string target)
