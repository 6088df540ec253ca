-- ===== src/Examples/Complicated/Reading/Entries.antt =====
-- What `deserializeBinary` makes of the entries of the map of a ComplicatedMessage.
use pymaid.Prelude.{
  ℕ, suc, ◌<◌, ◌≤◌, ◌≡◌, refl, ◌++◌, List, [], ◌∷◌, Option, some, Text, Bytes, length, arith,
  if◌then◌else◌, ◌==◌, Bool-cases, inl, inr,
}
use pymaid.Js.{str}
use pymaid.Jspb.{Jspb}
use pymaid.Jspb.Laws.{Scalar, uint32, block, MessageLaws, WireLaws}
use pymaid.Jspb.Nested.{Nested}
use pymaid.Jspb.Nested.Laws.{
  NestedMessageLaws, NestedWireLaws, Shows, ShowsEntry, Each, blocks, found,
}
use pymaid.Pb.Pieces.{wire_text, text_of}
use pymaid.Examples.Complicated.Message
use pymaid.Examples.Complicated.{get_messages_map, read_field}
use pymaid.Examples.Complicated.Reading.{
  Same-refl, Keeps, Keeps-trans, Reaches, Reaches-field, Reaches-then, inner_reads,
}
use pymaid.Examples.Complicated.Contents.{HasText, inner_fields, texts_of}

module _ (j : Jspb) (nested : Nested j) (laws : MessageLaws j)
    (messages : NestedMessageLaws j nested laws) (wire_laws : WireLaws j)
    (nested_wire : NestedWireLaws j nested laws messages wire_laws) where
  open j use {Reader, initialize}
  open nested use {Map}
  open wire_laws use {Pending}
  open messages use {find, map_set, find-map_set}

  abbrev Kept : ℕ → j.Message → j.Message → Type 0
  Kept = Keeps j nested laws messages wire_laws nested_wire

  module _ (bound : ℕ) where
    abbrev Reached : ℕ → j.Message → Reader → List (ℕ × Scalar) → (j.Message → Type 0) → Type 0
    Reached = Reaches j nested laws messages wire_laws nested_wire bound

    -- The map of a message has these texts.
    abbrev pub HasTexts : j.Message → (ℕ → Option Text) → Type 0
    HasTexts m texts = (k : ℕ) → HasText j nested (find (get_messages_map j nested m) k) (texts k)

    map_set-texts :
        (map : Map) (texts : ℕ → Option Text) (k : ℕ) (m : j.Message) (s : Text) (i : ℕ)
        → HasText j nested (find map i) (texts i)
        → Message.get_message j m ≡ str s
        → HasText j nested (find (map_set map k m) i) (if k == i then some s else texts i)
    map_set-texts map texts k m s i h holds = elim (Bool-cases (k == i)) [
      | inl same ↦ rw (find-map_set map k i m, same) holds
      | inr differ ↦ rw (find-map_set map k i m, differ) h
    ]

    entry_read :
        (k : ℕ) (s : Text) (bytes inner : Bytes) (texts : ℕ → Option Text) (fuel : ℕ)
        (msg : j.Message) (r : Reader) (rest : List (ℕ × Scalar))
        → Shows j nested laws messages wire_laws bytes ((1, uint32 k) ∷ (2, block inner) ∷ [])
        → Shows j nested laws messages wire_laws inner (wire_text 1 s)
        → HasTexts msg texts
        → Pending r ((3, block bytes) ∷ rest)
        → suc (length rest) < fuel
        → fuel ≤ bound
        → Reached fuel msg r rest
            (λ m. HasTexts m (λ i. if k == i then some s else texts i) × Kept 3 msg m)
    unfolding read_field
    entry_read k s bytes inner texts fuel msg r rest shows shows_inner h left enough most =
        Reaches-field j nested laws messages wire_laws nested_wire bound _ fuel msg r 3
          (block bytes) rest left enough
          λ r' here.
            let read = Message.deserialize_binary_from_reader j bound in
            let map = get_messages_map j nested msg in
            let (r1, after, opens, reads, left') =
              nested_wire.read_message_lem r' bytes rest here in
            let (r2, opens_inner, e) =
              nested_wire.map_deserialize_lem read k 0 initialize map r1 inner (opens _ shows) in
            let (m, e', holds) =
              inner_reads j nested laws messages wire_laws nested_wire bound s r2 (omega arith)
                (opens_inner (wire_text 1 s) shows_inner) in
            (
              nested.set_map_field msg 3 (map_set map k m),
              after,
              rw (reads Map (nested.map_deserialize_binary read 0 initialize) map, e, e') refl,
              left',
              (
                λ i.
                    rw (messages.set_map_lem msg 3 (map_set map k m))
                      (map_set-texts map texts k m s i (h i) holds),
                λ i differ. messages.set_map-Same msg 3 i (map_set map k m) differ,
              ),
            )

    pub entries_stage :
        (all_bytes : List Bytes) (es : List (ℕ × j.Message)) (texts : ℕ → Option Text) (fuel : ℕ)
        (msg : j.Message) (r : Reader) (rest : List (ℕ × Scalar))
        → Each (ShowsEntry j nested laws messages wire_laws (inner_fields j nested)) all_bytes es
        → HasTexts msg texts
        → Pending r (blocks 3 all_bytes ++ rest)
        → length (blocks 3 all_bytes ++ rest) < fuel
        → fuel ≤ bound
        → Reached fuel msg r rest
            (λ m. HasTexts m (found texts (texts_of j nested es)) × Kept 3 msg m)
    entries_stage [] [] texts fuel msg r rest shows h left enough most = (
      fuel,
      msg,
      r,
      refl,
      left,
      enough,
      omega arith,
      (h, λ k e. Same-refl j nested laws messages wire_laws nested_wire msg),
    )
    entries_stage [] (e ∷ es) texts fuel msg r rest shows h left enough most = elim shows [ ]
    entries_stage (bytes ∷ all_bytes) [] texts fuel msg r rest shows h left enough most =
        elim shows [ ]
    entries_stage (bytes ∷ all_bytes) ((k, m) ∷ es) texts fuel msg r rest
          ((inner, shows, shows_inner), more) h left enough most =
        Reaches-then j nested laws messages wire_laws nested_wire bound fuel msg r _ rest _ _
          (entry_read k (text_of (Message.get_message j m)) bytes inner texts fuel msg r _ shows
            shows_inner h left enough most)
          λ fuel' msg' r' left' enough' most' (h', kept).
            let (fuel2, msg2, r2, e2, left2, enough2, most2, (h2, kept2)) =
              entries_stage all_bytes es _ fuel' msg' r' rest more h' left' enough' (omega arith) in
            (
              fuel2,
              msg2,
              r2,
              e2,
              left2,
              enough2,
              most2,
              (
                h2,
                Keeps-trans j nested laws messages wire_laws nested_wire 3 msg msg' msg2 kept kept2,
              ),
            )
