-- ===== src/Jspb.antt =====
-- The protobuf runtime that the generated code calls, `jspb.Message`, `jspb.BinaryWriter` and
-- `jspb.BinaryReader` of Google's library (plugin/js/pb/google-protobuf.js). It is a parameter of
-- the model: its operations, and the laws that the round trips rely on.
pub mod Laws
pub mod Reference
pub mod Nested
use pymaid.Prelude.{ℕ, Bool, Bytes, Result}
use pymaid.Js.{Value}

pub record Jspb : Type 1 where
  pub Message : Type 0
  pub Writer : Type 0
  pub Reader : Type 0
  -- an instance with no field set
  pub initialize : Message
  pub get_field_with_default : Message → ℕ → Value → Value
  pub get_boolean_field_with_default : Message → ℕ → Value → Value
  -- each returns the message as it has become
  pub set_field : Message → ℕ → Value → Message
  pub set_proto3_int_field : Message → ℕ → Value → Message
  pub set_proto3_enum_field : Message → ℕ → Value → Message
  pub set_proto3_string_field : Message → ℕ → Value → Message
  pub set_proto3_boolean_field : Message → ℕ → Value → Message
  pub new_writer : Writer
  pub write_uint32 : ℕ → Value → Writer → Result Writer
  pub write_enum : ℕ → Value → Writer → Result Writer
  pub write_string : ℕ → Value → Writer → Result Writer
  pub write_bool : ℕ → Value → Writer → Result Writer
  pub get_result_buffer : Writer → Bytes
  pub new_reader : Bytes → Reader
  pub next_field : Reader → Result (Bool × Reader)
  pub is_end_group : Reader → Bool
  pub get_field_number : Reader → ℕ
  pub read_uint32 : Reader → Result (Value × Reader)
  pub read_enum : Reader → Result (Value × Reader)
  pub read_string : Reader → Result (Value × Reader)
  pub read_bool : Reader → Result (Value × Reader)
  pub skip_field : Reader → Result Reader
