-- ===== src/Examples/Complicated/RoundTrip.antt =====
-- A ComplicatedMessage that is serialized and deserialized is read by its getters as before.
use pymaid.Prelude.{
  Bool-cases, inl, inr, ℕ, suc, ◌<◌, ◌≡◌, ◌∙◌, ap, refl, List, [], ◌∷◌, Option, none, some, Text,
  Bytes, ok, length, arith, ◌==◌,
}
use pymaid.Js.{num, arr}
use pymaid.Jspb.{Jspb}
use pymaid.Jspb.Laws.{nums, MessageLaws, WireLaws}
use pymaid.Jspb.Nested.{Nested}
use pymaid.Jspb.Nested.Laws.{NestedMessageLaws, NestedWireLaws, ShowsEntry, Each, found, found_cong}
use pymaid.Pb.Wire.{read_loop_done}
use pymaid.Pb.Pieces.{text_of}
use pymaid.Examples.Complicated.Message
use pymaid.Examples.Complicated.{
  new_message, get_message, get_uints_list, get_messages_map, get_count, serialize_binary,
  deserialize_binary, deserialize_binary_from_reader,
}
use pymaid.Examples.Complicated.Contents.{
  Contents, InRange, Holds, HasText, ShowsText, wire, inner_fields, texts_of,
}
use pymaid.Examples.Complicated.Writing.{serialize_binary-wire}
use pymaid.Examples.Complicated.Reading.{
  Keeps, Reaches, Reaches-then, message_stage, uints_stage, count_stage,
}
use pymaid.Examples.Complicated.Reading.Entries.{entries_stage}

module _ (j : Jspb) (nested : Nested j) (laws : MessageLaws j)
    (messages : NestedMessageLaws j nested laws) (wire_laws : WireLaws j)
    (nested_wire : NestedWireLaws j nested laws messages wire_laws) where
  open j use {Reader, new_reader}
  open wire_laws use {Pending}
  open messages use {entries, find, find-entries}

  abbrev Kept : ℕ → j.Message → j.Message → Type 0
  Kept = Keeps j nested laws messages wire_laws nested_wire

  abbrev text_in : Option j.Message → Option Text
  text_in none = none
  text_in (some m) = some (text_of (Message.get_message j m))

  HasText-text_in : (o : Option j.Message) (t : Option Text) → HasText j nested o t → t ≡ text_in o
  HasText-text_in none none h = refl
  HasText-text_in (some m) (some s) h = rw h refl
  HasText-text_in none (some s) h = elim h [ ]
  HasText-text_in (some m) none h = elim h [ ]

  text_in-found :
      (es : List (ℕ × j.Message)) (f : ℕ → Option j.Message) (k : ℕ)
      → text_in (found f es k) ≡ found (λ i. text_in (f i)) (texts_of j nested es) k
  text_in-found [] f k = refl
  text_in-found ((i, m) ∷ es) f k =
      text_in-found es _ k
      ∙ found_cong (texts_of j nested es) _ _ k
          (elim (Bool-cases (i == k)) [ inl same ↦ rw same refl | inr differ ↦ rw differ refl ])

  -- What each of four steps has set, none of which undoes another's.
  Holds-stages :
      (d : Contents) (m1 m2 m3 m4 : j.Message)
      → HasText j nested (get_message j nested m1) d.message
      → get_uints_list j nested m2 ≡ arr (nums d.uints)
      → ((k : ℕ) → HasText j nested (find (get_messages_map j nested m3) k) (d.messages k))
      → get_count j nested m4 ≡ num d.count
      → Kept 2 m1 m2
      → Kept 3 m2 m3
      → Kept 4 m3 m4
      → Holds j nested laws messages m4 d
  Holds-stages d m1 m2 m3 m4 message uints entered count k2 k3 k4 = record {
    message = rw ((k4 1 refl).wrapper, (k3 1 refl).wrapper, (k2 1 refl).wrapper) message;
    uints = (k4 2 refl).repeated ∙ ((k3 2 refl).repeated ∙ uints);
    messages = λ k. rw (k4 3 refl).mapped (entered k);
    count = count;
  }

  -- A reader with the fields of a message with the contents `d`, where the map has these entries.
  read_wire :
      (d : Contents) (inner : Option Bytes) (all_bytes : List Bytes) (es : List (ℕ × j.Message))
      (fuel : ℕ) (r : Reader)
      → Pending r (wire inner d.uints all_bytes d.count)
      → length (wire inner d.uints all_bytes d.count) < fuel
      → ShowsText j nested laws messages wire_laws inner d.message
      → Each (ShowsEntry j nested laws messages wire_laws (inner_fields j nested)) all_bytes es
      → ((k : ℕ) → d.messages k ≡ found (λ i. none) (texts_of j nested es) k)
      → Reaches j nested laws messages wire_laws nested_wire fuel fuel
          (new_message j nested)
          r
          []
          (λ m. Holds j nested laws messages m d)
  read_wire d inner all_bytes es fuel r left enough shows entries_show same =
      let new = new_message j nested in
      Reaches-then j nested laws messages wire_laws nested_wire fuel _ new r _ [] _ _
        (message_stage j nested laws messages wire_laws nested_wire fuel inner d.message fuel new r
          _ shows (messages.initialize-wrapper _ 1) left enough (omega arith))
        λ f1 m1 r1 left1 enough1 most1 (message, k1).
          Reaches-then j nested laws messages wire_laws nested_wire fuel f1 m1 r1 _ [] _ _
            (uints_stage j nested laws messages wire_laws nested_wire fuel d.uints f1 m1 r1 _
              ((k1 2 refl).repeated ∙ messages.initialize-repeated 2 []) left1 enough1)
            λ f2 m2 r2 left2 enough2 most2 (uints, k2).
              Reaches-then j nested laws messages wire_laws nested_wire fuel f2 m2 r2 _ [] _ _
                (entries_stage j nested laws messages wire_laws nested_wire fuel all_bytes es
                  (λ i. none) f2 m2 r2 _ entries_show
                  (λ k.
                    rw
                      ((k2 3 refl).mapped, (k1 3 refl).mapped, messages.initialize-map (2 ∷ []) 3 k)
                      tt)
                  left2 enough2 (omega arith))
                λ f3 m3 r3 left3 enough3 most3 (entered, k3).
                  Reaches-then j nested laws messages wire_laws nested_wire fuel f3 m3 r3 _ [] _ _
                    (count_stage j nested laws messages wire_laws nested_wire fuel d.count f3 m3 r3
                      ((k3 4 refl).stored
                        ∙ ((k2 4 refl).stored
                            ∙ ((k1 4 refl).stored ∙ messages.initialize-stored (2 ∷ []) 4)))
                      left3 enough3)
                    λ f4 m4 r4 left4 enough4 most4 (count, k4). (
                      f4,
                      m4,
                      r4,
                      refl,
                      left4,
                      enough4,
                      omega arith,
                      Holds-stages d m1 m2 m3 m4 message uints (λ k. rw (same k) (entered k)) count
                          k2 k3 k4,
                    )

  -- A message whose getters read the contents `d`, within the types of their fields, has bytes that read
  -- as a message with the contents `d`: the same inner message's text, numbers in the same order, count,
  -- and texts under the same keys of the map.
  pub deserialize_binary-serialize_binary_complicated :
      (m : j.Message) (d : Contents)
      → Holds j nested laws messages m d
      → InRange d
      → (bytes : Bytes) × (m' : j.Message) × (serialize_binary j nested m ≡ ok bytes)
        × (deserialize_binary j nested bytes ≡ ok m')
        × Holds j nested laws messages m' d
  unfolding deserialize_binary deserialize_binary_from_reader
  deserialize_binary-serialize_binary_complicated m d h range =
      let (inner, all_bytes, bytes, e, left, fits, shows, entries_show) =
        serialize_binary-wire j nested laws messages wire_laws nested_wire m d h range in
      let map = get_messages_map j nested m in
      let texts_same = λ (k : ℕ).
        HasText-text_in (find map k) (d.messages k) (h.messages k)
        ∙ (ap text_in (find-entries map k) ∙ text_in-found (entries map) (λ i. none) k) in
      let (fuel', m', r', reached, left', enough', most', held) =
        read_wire d inner all_bytes (entries map) (suc (length bytes)) (new_reader bytes) left
          (omega arith) shows entries_show texts_same in
      (bytes, m', e, reached ∙ read_loop_done j wire_laws _ fuel' m' r' left' (omega arith), held)
