-- ===== src/Pb/Context/Contents.antt =====
-- What a Context holds, as its getters read it, and as the wire carries it.
use pymaid.Prelude.{ℕ, ◌<◌, ◌^◌, ◌≡◌, ◌++◌, Bool, List, Text, IsWellFormed}
use pymaid.Js.{Value, bool, num, str, obj, end, field}
use pymaid.Jspb.{Jspb}
use pymaid.Jspb.Laws.{Scalar}
use pymaid.Pb.Pieces.{wire_uint32, wire_enum, wire_text, wire_flag}
use pymaid.Prelude.{codes}
use pymaid.Pb.Context.{
  get_transmission_id, get_packet_type, get_packet_flags, get_priority, get_service_method,
  get_is_cancelled, get_is_failed, to_object,
}

pub record Contents : Type 0 where
  pub transmission_id : ℕ
  pub packet_type : ℕ
  pub packet_flags : ℕ
  pub priority : ℕ
  pub service_method : Text
  pub is_cancelled : Bool
  pub is_failed : Bool

-- Within the types that pymaid.proto declares.
pub record InRange (d : Contents) : Type 0 where
  pub transmission_id : d.transmission_id < 2 ^ 32
  pub packet_type : d.packet_type < 2 ^ 31
  pub packet_flags : d.packet_flags < 2 ^ 31
  pub priority : d.priority < 2 ^ 31
  pub service_method : IsWellFormed d.service_method

abbrev pub wire : Contents → List (ℕ × Scalar)
wire d =
    wire_uint32 1 d.transmission_id
    ++ (wire_enum 2 d.packet_type
        ++ (wire_enum 3 d.packet_flags
            ++ (wire_enum 4 d.priority
                ++ (wire_text 5 d.service_method
                    ++ (wire_flag 6 d.is_cancelled ++ wire_flag 7 d.is_failed)))))

-- `toObject` of a message with these contents.
abbrev pub object_of : Contents → Value
object_of d = obj (
    field (codes "transmissionId") (num d.transmission_id) (
      field (codes "packetType") (num d.packet_type) (
        field (codes "packetFlags") (num d.packet_flags) (
          field (codes "priority") (num d.priority) (
            field (codes "serviceMethod") (str d.service_method) (
              field (codes "isCancelled") (bool d.is_cancelled)
                (field (codes "isFailed") (bool d.is_failed) end)))))))

module _ (j : Jspb) where
  open j use {Message}

  pub record Holds (m : Message) (d : Contents) : Type 0 where
    pub transmission_id : get_transmission_id j m ≡ num d.transmission_id
    pub packet_type : get_packet_type j m ≡ num d.packet_type
    pub packet_flags : get_packet_flags j m ≡ num d.packet_flags
    pub priority : get_priority j m ≡ num d.priority
    pub service_method : get_service_method j m ≡ str d.service_method
    pub is_cancelled : get_is_cancelled j m ≡ bool d.is_cancelled
    pub is_failed : get_is_failed j m ≡ bool d.is_failed

  pub to_object-Holds : (m : Message) (d : Contents) → Holds m d → to_object j m ≡ object_of d
  unfolding to_object
  to_object-Holds m d h = cc
