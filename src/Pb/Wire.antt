-- ===== src/Pb/Wire.antt =====
-- What the generated methods of all messages share: the loop of `deserializeBinaryFromReader`, a
-- guarded write of `serializeBinaryToWriter`, and how the two meet on the wire.
use pymaid.Prelude.{
  ℕ, zero, suc, ◌<◌, ◌≡◌, refl, ◌++◌, Bool, true, false, not, List, [], ◌∷◌, codes, length, ◌==◌,
  All, if◌then◌else◌, Result, ok, throw, type_error, unfinished, ◌>>=◌, arith,
}
use pymaid.Js.{Value, undefined, null, bool, num, str, arr, obj, nil, cons, get}
use pymaid.Jspb.{Jspb}
use pymaid.Jspb.Laws.{Scalar, WireLaws}

abbrev pub is_positive : Value → Bool
is_positive (num n) = not (n == 0)
is_positive (bool b) = b
is_positive _ = false

-- `f.length > 0`
abbrev pub has_length : Value → Result Bool
has_length undefined = throw type_error
has_length null = throw type_error
has_length (str []) = ok false
has_length (str (c ∷ s)) = ok true
has_length (arr nil) = ok false
has_length (arr (cons x xs)) = ok true
has_length (obj o) = ok (is_positive (get (codes "length") o))
has_length _ = ok false

module _ (j : Jspb) where
  open j use {Message, Writer, Reader, write_string, next_field, is_end_group, get_field_number}

  -- `if (test) { write(f) }`
  abbrev pub write_if : Bool → (Writer → Result Writer) → Writer → Result Writer
  write_if test write w = if test then write w else ok w

  -- `if (f.length > 0) { writer.writeString(n, f) }`
  abbrev pub write_given : ℕ → Value → Writer → Result Writer
  write_given n value w = has_length value >>= λ given. write_if given (write_string n value) w

  -- `switch_field` is the `switch (field)` of the message, with the reader at the field.
  unfoldable pub read_loop :
      (ℕ → Message → Reader → Result (Message × Reader)) → ℕ → Message → Reader → Result Message
  read_loop switch_field zero msg reader = unfinished
  read_loop switch_field (suc fuel) msg reader = next_field reader >>= λ next.
      let more = switch_field (get_field_number next.1) msg next.1 >>= λ step.
      read_loop switch_field fuel step.0 step.1 in
      if next.0 then (if is_end_group next.1 then ok msg else more) else ok msg

  module _ (laws : WireLaws j) where
    open laws use {Pending, At, next_end, next_more}

    -- The switch takes field `n` with value `s` from the reader and applies it to the message.
    abbrev pub Handles :
        (ℕ → Message → Reader → Result (Message × Reader))
        → (ℕ × Scalar → Message → Message)
        → ℕ × Scalar
        → Type 0
    Handles switch_field apply (n, s) =
        (msg : Message) (r : Reader) (rest : List (ℕ × Scalar))
        → At r s rest
        → (r' : Reader) × (switch_field n msg r ≡ ok (apply (n, s) msg, r')) × Pending r' rest

    abbrev pub applies : (ℕ × Scalar → Message → Message) → List (ℕ × Scalar) → Message → Message
    applies apply [] msg = msg
    applies apply (f ∷ fs) msg = applies apply fs (apply f msg)

    pub applies-append :
        (apply : ℕ × Scalar → Message → Message) (xs ys : List (ℕ × Scalar)) (msg : Message)
        → applies apply (xs ++ ys) msg ≡ applies apply ys (applies apply xs msg)
    applies-append apply [] ys msg = refl
    applies-append apply (x ∷ xs) ys msg = applies-append apply xs ys (apply x msg)

    module _ (switch_field : ℕ → Message → Reader → Result (Message × Reader))
        (apply : ℕ × Scalar → Message → Message) where
      pub read_loop-applies :
          (fields : List (ℕ × Scalar)) (fuel : ℕ) (msg : Message) (r : Reader)
          → All (Handles switch_field apply) fields
          → Pending r fields
          → length fields < fuel
          → read_loop switch_field fuel msg r ≡ ok (applies apply fields msg)
      unfolding read_loop
      read_loop-applies fields zero msg r h p lt = absurd (omega arith)
      read_loop-applies [] (suc fuel) msg r h p lt = let (r', e) = next_end r p in rw e
      read_loop-applies ((n, s) ∷ rest) (suc fuel) msg r h p lt =
          let (r', e, inside, number, here) = next_more r n s rest p in
          let (r'', switched, left) = h.0 msg r' rest here in
          rw (e, inside, number, switched)
            (read_loop-applies rest fuel (apply (n, s) msg) r'' h.1 left (omega arith))

    -- A round of the loop: the switch reads a field, and leaves a message with the property `Q`.
    pub read_loop_field :
        (switch_field : ℕ → Message → Reader → Result (Message × Reader)) (Q : Message → Type 0)
        (fuel : ℕ) (msg : Message) (r : Reader) (n : ℕ) (s : Scalar) (rest : List (ℕ × Scalar))
        → Pending r ((n, s) ∷ rest)
        → ((r' : Reader)
            → At r' s rest
            → (msg' : Message) × (r'' : Reader) × (switch_field n msg r' ≡ ok (msg', r''))
              × Pending r'' rest
              × Q msg')
        → (msg' : Message) × (r' : Reader) × (read_loop switch_field (suc fuel) msg r
            ≡ read_loop switch_field fuel msg' r')
          × Pending r' rest
          × Q msg'
    unfolding read_loop
    read_loop_field switch_field Q fuel msg r n s rest left h =
        let (r1, e, inside, number, here) = next_more r n s rest left in
        let (msg', r2, switched, left', q) = h r1 here in
        (msg', r2, rw (e, inside, number, switched) refl, left', q)

    pub read_loop_done :
        (switch_field : ℕ → Message → Reader → Result (Message × Reader)) (fuel : ℕ) (msg : Message)
        (r : Reader)
        → Pending r []
        → 0 < fuel
        → read_loop switch_field fuel msg r ≡ ok msg
    unfolding read_loop
    read_loop_done switch_field zero msg r left enough = absurd (omega arith)
    read_loop_done switch_field (suc fuel) msg r left enough = let (r', e) = next_end r left in rw e
