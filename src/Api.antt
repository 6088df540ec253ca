-- ===== src/Api.antt =====
-- `pb.instantiate`, `pb.serialize` and `pb.deserialize` of plugin/js/pymaid.js, over the classes of the
-- generated code. `fuel` bounds the two `transform`s; everything else of them ends by itself.
pub mod Contexts
pub mod Errors
use pymaid.Prelude.{ℕ, Bool, ◌==◌, Bytes, Result, ok, throw, type_error, ◌>>=◌}
use pymaid.Js.{Value, undefined, null, bool, num, str, arr, obj, Fields, end}
use pymaid.Jspb.{Jspb}
use pymaid.Names.Defs.{underscore, camel}
use pymaid.Convert.Instantiate.{instantiate_transform}
use pymaid.Convert.Deserialize.{deserialize_transform}
use pymaid.Pb.Context
use pymaid.Pb.ErrorMessage
use pymaid.Pb.Void

-- A generated class: `id` stands for the identity of its constructor.
pub record MessageType (Message : Type 0) : Type 0 where
  pub id : ℕ
  pub from_object : Value → Result Message
  pub to_object : Message → Value
  pub serialize_binary : Message → Result Bytes
  pub deserialize_binary : Bytes → Result Message

-- A method that reads the properties of its argument: null and undefined have none to read.
abbrev pub with_fields : {M : Type 0} → (Fields → M) → Value → Result M
with_fields f undefined = throw type_error
with_fields f null = throw type_error
with_fields f (obj o) = ok (f o)
with_fields f _ = ok (f end)

module _ (j : Jspb) where
  open j use {Message}

  abbrev pub context_type : MessageType Message
  context_type = record {
    id = 0;
    from_object = with_fields (Context.from_object j);
    to_object = Context.to_object j;
    serialize_binary = Context.serialize_binary j;
    deserialize_binary = Context.deserialize_binary j;
  }

  abbrev pub error_message_type : MessageType Message
  error_message_type = record {
    id = 1;
    from_object = with_fields (ErrorMessage.from_object j);
    to_object = ErrorMessage.to_object j;
    serialize_binary = ErrorMessage.serialize_binary j;
    deserialize_binary = ErrorMessage.deserialize_binary j;
  }

  abbrev pub void_type : MessageType Message
  void_type = record {
    id = 2;
    from_object = λ v. ok (Void.from_object j end);
    to_object = Void.to_object j;
    serialize_binary = Void.serialize_binary j;
    deserialize_binary = Void.deserialize_binary j;
  }

-- `a === b` of two classes
abbrev pub same_type : {Message : Type 0} → MessageType Message → MessageType Message → Bool
same_type a b = a.id == b.id

-- What may be given where a message is expected: an instance of a class, or a plain value.
pub data Payload (Message : Type 0) : Type 0 where
  instance_of : MessageType Message → Message → Payload Message
  plain : Value → Payload Message

module _ {Message : Type 0} where
  unfoldable pub instantiate : ℕ → MessageType Message → Value → Result Message
  instantiate fuel proto v = instantiate_transform fuel v >>= λ ins. proto.from_object (camel ins)

  -- `ins.serializeBinary()`: a plain value has no such method.
  unfoldable pub serialize : Payload Message → Result Bytes
  serialize (instance_of proto m) = proto.serialize_binary m
  serialize (plain v) = throw type_error

  unfoldable pub deserialize : ℕ → MessageType Message → Bytes → Result Value
  deserialize fuel proto bytes = proto.deserialize_binary bytes >>= λ m.
      deserialize_transform fuel (underscore (proto.to_object m))
