-- ===== src/Examples/Complicated/Contents.antt =====
-- What a ComplicatedMessage holds, as its getters read it, and as the wire carries it.
use pymaid.Prelude.{
  ℕ, ◌<◌, ◌^◌, ◌≡◌, ◌++◌, List, [], ◌∷◌, Option, none, some, Text, Bytes, IsWellFormed, All,
}
use pymaid.Js.{num, str, arr}
use pymaid.Jspb.{Jspb}
use pymaid.Jspb.Laws.{Scalar, packed, block, nums, MessageLaws, WireLaws}
use pymaid.Jspb.Nested.{Nested}
use pymaid.Jspb.Nested.Laws.{NestedMessageLaws, Shows, blocks}
use pymaid.Pb.Pieces.{wire_uint32, wire_text, text_of}
use pymaid.Examples.Complicated.Message
use pymaid.Examples.Complicated.{get_message, get_uints_list, get_messages_map, get_count}

-- The texts of the inner messages; `messages` is the map, whatever the order of its entries.
pub record Contents : Type 0 where
  pub message : Option Text
  pub uints : List ℕ
  pub messages : ℕ → Option Text
  pub count : ℕ

abbrev pub WellFormedIfGiven : Option Text → Type 0
WellFormedIfGiven none = Unit
WellFormedIfGiven (some s) = IsWellFormed s

abbrev pub FitsEntry : ℕ → Option Text → Type 0
FitsEntry k none = Unit
FitsEntry k (some s) = (k < 2 ^ 32) × IsWellFormed s

-- Within the types that pb.proto declares.
pub record InRange (d : Contents) : Type 0 where
  pub message : WellFormedIfGiven d.message
  pub uints : All (λ n. n < 2 ^ 32) d.uints
  pub messages : (k : ℕ) → FitsEntry k (d.messages k)
  pub count : d.count < 2 ^ 32

-- An inner message is left out where there is none.
abbrev pub wire_message : Option Bytes → List (ℕ × Scalar)
wire_message none = []
wire_message (some bytes) = (1, block bytes) ∷ []

abbrev pub wire_uints : List ℕ → List (ℕ × Scalar)
wire_uints [] = []
wire_uints (n ∷ ns) = (2, packed (n ∷ ns)) ∷ []

abbrev pub wire : Option Bytes → List ℕ → List Bytes → ℕ → List (ℕ × Scalar)
wire message uints entries count =
    wire_message message ++ (wire_uints uints ++ (blocks 3 entries ++ wire_uint32 4 count))

module _ (j : Jspb) (nested : Nested j) where
  -- There is an inner message with this text, or neither is there.
  abbrev pub HasText : Option j.Message → Option Text → Type 0
  HasText none none = Unit
  HasText (some m) (some s) = Message.get_message j m ≡ str s
  HasText none (some s) = ⊥
  HasText (some m) none = ⊥

  -- The fields that an inner message writes.
  abbrev pub inner_fields : j.Message → List (ℕ × Scalar)
  inner_fields m = wire_text 1 (text_of (Message.get_message j m))

  -- The texts of the messages of a map.
  abbrev pub texts_of : List (ℕ × j.Message) → List (ℕ × Text)
  texts_of [] = []
  texts_of ((k, m) ∷ rest) = (k, text_of (Message.get_message j m)) ∷ texts_of rest

  module _ (laws : MessageLaws j) (nested_laws : NestedMessageLaws j nested laws) where
    open nested_laws use {find}

    pub record Holds (m : j.Message) (d : Contents) : Type 0 where
      pub message : HasText (get_message j nested m) d.message
      pub uints : get_uints_list j nested m ≡ arr (nums d.uints)
      pub messages : (k : ℕ) → HasText (find (get_messages_map j nested m) k) (d.messages k)
      pub count : get_count j nested m ≡ num d.count

    module _ (wire_laws : WireLaws j) where
      -- The bytes of an inner message with this text.
      abbrev pub ShowsText : Option Bytes → Option Text → Type 0
      ShowsText none none = Unit
      ShowsText (some bytes) (some s) =
          Shows j nested laws nested_laws wire_laws bytes (wire_text 1 s)
      ShowsText none (some s) = ⊥
      ShowsText (some bytes) none = ⊥
