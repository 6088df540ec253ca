-- ===== src/Jspb/Nested.antt =====
-- The rest of the protobuf runtime that generated code calls for messages that hold messages, lists
-- and maps: a parameter of the model, like `Jspb`.
pub mod Laws
pub mod Reference
use pymaid.Prelude.{ℕ, Bool, List, Option, Result}
use pymaid.Js.{Value, Items}
use pymaid.Jspb.{Jspb}

pub record Nested (j : Jspb) : Type 1 where
  -- `jspb.Map` of numbers to messages
  pub Map : Type 0
  -- an instance with no field set, of a class whose repeated fields have these numbers
  pub initialize_repeated : List ℕ → j.Message
  -- `getField(message, n) != null`
  pub has_field : j.Message → ℕ → Bool
  -- `none` stands for undefined, and on setting also for null.
  pub get_wrapper_field : j.Message → ℕ → Option j.Message
  pub set_wrapper_field : j.Message → ℕ → Option j.Message → j.Message
  pub get_repeated_field : j.Message → ℕ → Value
  pub add_to_repeated_field : j.Message → ℕ → Value → j.Message
  -- The map of a field, which is made where it is not there yet; `find_map_field` makes none.
  pub get_map_field : j.Message → ℕ → Map
  pub find_map_field : j.Message → ℕ → Option Map
  -- The message with this map in a field: `setWrapperField`, and what a message has become when the
  -- map that `getMapField` gave out has become this one, for the two share it.
  pub set_map_field : j.Message → ℕ → Map → j.Message
  pub map_length : Map → ℕ
  pub map_clear : Map → Map
  pub map_to_object : (j.Message → Value) → Map → Value
  pub map_from_object : (Value → Result j.Message) → Value → Result Map
  -- The map's `serializeBinary` and `deserializeBinary` with the methods for `uint32` keys; the latter
  -- has the default key and the message that its value is read into.
  pub map_serialize_binary :
      (j.Message → j.Writer → Result j.Writer) → ℕ → Map → j.Writer → Result j.Writer
  pub map_deserialize_binary :
      (j.Message → j.Reader → Result j.Message) → ℕ → j.Message → Map → j.Reader → Result Map
  pub write_message :
      (j.Message → j.Writer → Result j.Writer) → ℕ → j.Message → j.Writer → Result j.Writer
  pub write_packed_uint32 : ℕ → Value → j.Writer → Result j.Writer
  pub is_delimited : j.Reader → Bool
  pub read_packed_uint32 : j.Reader → Result (Items × j.Reader)
  -- The callback reads what the field's length spans; the reader goes on behind it.
  pub read_message : {A : Type 0} → (A → j.Reader → Result A) → A → j.Reader → Result (A × j.Reader)
