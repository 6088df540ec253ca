-- ===== src/Examples/Complicated/Reading.antt =====
-- What `deserializeBinary` makes of the fields of a ComplicatedMessage that are not its map.
pub mod Entries
use pymaid.Prelude.{
  append-nil, append_assoc, ℕ, zero, suc, ◌<◌, ◌≤◌, ◌≡◌, ◌∙◌, ap, refl, ◌++◌, List, [], ◌∷◌, Option,
  none, some, Text, Bytes, ok, length, arith, Result, if◌then◌else◌, ◌==◌, false, Bool-cases, inl,
  inr,
}
use pymaid.Js.{undefined, num, str, arr, nil}
use pymaid.Jspb.{Jspb}
use pymaid.Jspb.Laws.{Scalar, uint32, nums, packed, block, MessageLaws, WireLaws}
use pymaid.Jspb.Nested.{Nested}
use pymaid.Jspb.Nested.Laws.{
  NestedMessageLaws, NestedWireLaws, Same, Shows, ShowsEntry, Each, blocks, push, found,
}
use pymaid.Pb.Wire.{read_loop, read_loop_field}
use pymaid.Pb.Cells.{Sets-int, get_field-shown}
use pymaid.Pb.Pieces.{wire_uint32, wire_text, text_of}
use pymaid.Examples.Complicated.Message
use pymaid.Examples.Complicated.Message.RoundTrip
use pymaid.Examples.Complicated.{
  get_message, get_uints_list, get_messages_map, get_count, set_message, set_count, add_all,
  read_uints, read_field,
}
use pymaid.Examples.Complicated.Contents.{
  HasText, ShowsText, wire_message, wire_uints, inner_fields, texts_of,
}

module _ (j : Jspb) (nested : Nested j) (laws : MessageLaws j)
    (messages : NestedMessageLaws j nested laws) (wire_laws : WireLaws j)
    (nested_wire : NestedWireLaws j nested laws messages wire_laws) where
  open j use {Reader, initialize}
  open wire_laws use {Pending, At}

  -- All fields but `n` show the same.
  abbrev pub Keeps : ℕ → j.Message → j.Message → Type 0
  Keeps n m m' = (k : ℕ) → (n == k) ≡ false → Same j nested laws k m m'

  Same-trans :
      {k : ℕ} {m m' m'' : j.Message}
      → Same j nested laws k m m'
      → Same j nested laws k m' m''
      → Same j nested laws k m m''
  Same-trans p q = record {
    stored = q.stored ∙ p.stored;
    wrapper = q.wrapper ∙ p.wrapper;
    repeated = q.repeated ∙ p.repeated;
    mapped = q.mapped ∙ p.mapped;
  }

  pub Same-refl : {k : ℕ} (m : j.Message) → Same j nested laws k m m
  Same-refl m = record { stored = refl; wrapper = refl; repeated = refl; mapped = refl }

  pub Keeps-trans : (n : ℕ) (m m' m'' : j.Message) → Keeps n m m' → Keeps n m' m'' → Keeps n m m''
  Keeps-trans n m m' m'' p q k h = Same-trans (p k h) (q k h)

  module _ (bound : ℕ) where
    abbrev pub loop : ℕ → j.Message → Reader → Result j.Message
    loop = read_loop j (read_field j nested bound)

    -- The loop comes to a message with the property `Q`, with the fields `rest` before it.
    abbrev pub Reaches : ℕ → j.Message → Reader → List (ℕ × Scalar) → (j.Message → Type 0) → Type 0
    Reaches fuel msg r rest Q =
        (fuel' : ℕ) × (msg' : j.Message) × (r' : Reader) × (loop fuel msg r ≡ loop fuel' msg' r')
        × Pending r' rest
        × (length rest < fuel')
        × (fuel' ≤ fuel)
        × Q msg'

    -- One field is read.
    pub Reaches-field :
        (Q : j.Message → Type 0) (fuel : ℕ) (msg : j.Message) (r : Reader) (n : ℕ) (s : Scalar)
        (rest : List (ℕ × Scalar))
        → Pending r ((n, s) ∷ rest)
        → suc (length rest) < fuel
        → ((r' : Reader)
            → At r' s rest
            → (msg' : j.Message) × (r'' : Reader) × (read_field j nested bound n msg r'
                ≡ ok (msg', r''))
              × Pending r'' rest
              × Q msg')
        → Reaches fuel msg r rest Q
    Reaches-field Q zero msg r n s rest left enough h = absurd (omega arith)
    Reaches-field Q (suc fuel) msg r n s rest left enough h =
        let (msg', r', e, left', q) =
          read_loop_field j wire_laws (read_field j nested bound) Q fuel msg r n s rest left h in
        (fuel, msg', r', e, left', omega arith, omega arith, q)

    pub inner_reads :
        (s : Text) (r : Reader)
        → 2 ≤ bound
        → Pending r (wire_text 1 s)
        → (m : j.Message) × (Message.deserialize_binary_from_reader j bound initialize r ≡ ok m)
          × (Message.get_message j m ≡ str s)
    inner_reads s r large left =
        RoundTrip.deserialize_binary_from_reader-wire j laws wire_laws s bound r left
          (let short = short_text s in omega arith)
      where
        short_text : (s : Text) → length (wire_text 1 s) ≤ 1
        short_text [] = omega arith
        short_text (c ∷ s) = omega arith

    pub message_stage :
        (bytes : Option Bytes) (t : Option Text) (fuel : ℕ) (msg : j.Message) (r : Reader)
        (rest : List (ℕ × Scalar))
        → ShowsText j nested laws messages wire_laws bytes t
        → nested.get_wrapper_field msg 1 ≡ none
        → Pending r (wire_message bytes ++ rest)
        → length (wire_message bytes ++ rest) < fuel
        → fuel ≤ bound
        → Reaches fuel msg r rest (λ m. HasText j nested (get_message j nested m) t × Keeps 1 msg m)
    unfolding read_field
    message_stage none none fuel msg r rest shows fresh left enough most =
        (fuel, msg, r, refl, left, enough, omega arith, (rw fresh tt, λ k h. Same-refl msg))
    message_stage (some bytes) (some s) fuel msg r rest shows fresh left enough most =
        Reaches-field _ fuel msg r 1 (block bytes) rest left enough λ r' here.
          let (inner, after, opens, reads, left') =
            nested_wire.read_message_lem r' bytes rest here in
          let (m, e, holds) = inner_reads s inner (omega arith) (opens (wire_text 1 s) shows) in
          (
            set_message j nested msg (some m),
            after,
            rw (reads j.Message (Message.deserialize_binary_from_reader j bound) initialize, e)
                refl,
            left',
            (
              rw (messages.set_wrapper_lem msg 1 (some m)) holds,
              λ k h. messages.set_wrapper-Same msg 1 k (some m) h,
            ),
          )
    message_stage none (some s) fuel msg r rest shows fresh left enough most = elim shows [ ]
    message_stage (some bytes) none fuel msg r rest shows fresh left enough most = elim shows [ ]

    push-nums : (ns : List ℕ) (n : ℕ) → push (nums ns) (num n) ≡ nums (ns ++ n ∷ [])
    push-nums [] n = refl
    push-nums (m ∷ ns) n = rw (push-nums ns n) refl

    add_all-nums :
        (ns before : List ℕ) (msg : j.Message)
        → get_uints_list j nested msg ≡ arr (nums before)
        → (get_uints_list j nested (add_all j nested (nums ns) msg) ≡ arr (nums (before ++ ns)))
          × Keeps 2 msg (add_all j nested (nums ns) msg)
    unfolding add_all
    add_all-nums [] before msg h = (rw (append-nil before) h, λ k e. Same-refl msg)
    add_all-nums (n ∷ ns) before msg h =
        let one = messages.add_lem msg 2 (num n) (nums before) h ∙ ap arr (push-nums before n) in
        let (all, kept) =
          add_all-nums ns (before ++ n ∷ []) (nested.add_to_repeated_field msg 2 (num n)) one in
        (
          all ∙ ap (λ l. arr (nums l)) (append_assoc before (n ∷ []) ns),
          Keeps-trans 2 _ _ _ (λ k e. messages.add-Same msg 2 k (num n) e) kept,
        )

    pub uints_stage :
        (ns : List ℕ) (fuel : ℕ) (msg : j.Message) (r : Reader) (rest : List (ℕ × Scalar))
        → get_uints_list j nested msg ≡ arr nil
        → Pending r (wire_uints ns ++ rest)
        → length (wire_uints ns ++ rest) < fuel
        → Reaches fuel msg r rest (λ m. (get_uints_list j nested m ≡ arr (nums ns)) × Keeps 2 msg m)
    unfolding read_field read_uints
    uints_stage [] fuel msg r rest fresh left enough =
        (fuel, msg, r, refl, left, enough, omega arith, (fresh, λ k h. Same-refl msg))
    uints_stage (n ∷ ns) fuel msg r rest fresh left enough =
        Reaches-field _ fuel msg r 2 (packed (n ∷ ns)) rest left enough λ r' here.
          let (delimited, (after, e, left')) = nested_wire.read_packed_lem r' (n ∷ ns) rest here in
          (
            add_all j nested (nums (n ∷ ns)) msg,
            after,
            rw (delimited, e) refl,
            left',
            add_all-nums (n ∷ ns) [] msg fresh,
          )

    pub count_stage :
        (n fuel : ℕ) (msg : j.Message) (r : Reader)
        → laws.stored msg 4 ≡ undefined
        → Pending r (wire_uint32 4 n)
        → length (wire_uint32 4 n) < fuel
        → Reaches fuel msg r [] (λ m. (get_count j nested m ≡ num n) × Keeps 4 msg m)
    unfolding read_field
    count_stage n fuel msg r fresh left enough = elim (Bool-cases (n == 0)) [
      | inl zero_value ↦ (
        fuel,
        msg,
        r,
        refl,
        rw zero_value at left,
        rw zero_value at enough,
        omega arith,
        (
          get_field-shown j laws msg 4 (rw zero_value at (Sets-int j laws msg 4 n fresh).there),
          λ k h. Same-refl msg,
        ),
      )
      | inr value ↦
          Reaches-field _ fuel msg r 4 (uint32 n) [] (rw value at left) (rw value at enough)
            λ r' here.
              let (after, e, left') = wire_laws.read_uint32_lem r' n [] here in
              (
                set_count j nested msg (num n),
                after,
                rw e refl,
                left',
                (
                  get_field-shown j laws _ 4 (rw value at (Sets-int j laws msg 4 n fresh).there),
                  λ k h. messages.set_int-Same msg 4 k (num n) h,
                ),
              )
    ]

    pub Reaches-then :
        (fuel : ℕ) (msg : j.Message) (r : Reader) (between rest : List (ℕ × Scalar))
        (P Q : j.Message → Type 0)
        → Reaches fuel msg r between P
        → ((fuel' : ℕ) (msg' : j.Message) (r' : Reader)
            → Pending r' between
            → length between < fuel'
            → fuel' ≤ fuel
            → P msg'
            → Reaches fuel' msg' r' rest Q)
        → Reaches fuel msg r rest Q
    Reaches-then fuel msg r between rest P Q (fuel1, msg1, r1, e1, left1, enough1, most1, p) next =
        let (fuel2, msg2, r2, e2, left2, enough2, most2, q) =
          next fuel1 msg1 r1 left1 enough1 most1 p in
        (fuel2, msg2, r2, e1 ∙ e2, left2, enough2, omega arith, q)
