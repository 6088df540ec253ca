-- ===== src/Pb/ErrorMessage/Reading.antt =====
-- An ErrorMessage read from bytes that no writer need have written.
use pymaid.Prelude.{
  ℕ, suc, ◌≤◌, refl, [], ◌∷◌, Text, Bytes, length, ok, ◌>>=◌, Ends, Ends->>=, Ends-both,
  Ends-weaken, if◌then◌else◌, if_cases, ◌==◌, eq_text, arith,
}
use pymaid.Js.{Value, undefined, null, bool, num, str, arr, obj, is_present}
use pymaid.Jspb.{Jspb}
use pymaid.Jspb.Laws.{MessageLaws, ReaderLaws, IsText, unless_empty}
use pymaid.Pb.Ending.{Goes, read_loop-Keeps}
use pymaid.Pb.ErrorMessage.{read_field, deserialize_binary, deserialize_binary_from_reader}
use pymaid.Pb.ErrorMessage.RoundTrip.{Holds}

-- What a cell that is set to texts only may hold.
abbrev IsTextOrUnset : Value → Type 0
IsTextOrUnset undefined = Unit
IsTextOrUnset null = Unit
IsTextOrUnset (str s) = Unit
IsTextOrUnset _ = ⊥

unless_empty_lem : (s : Text) → IsTextOrUnset (unless_empty (str s))
unfolding eq_text
unless_empty_lem [] = tt
unless_empty_lem (c ∷ s) = tt

-- What a getter with the default '' reads of such a cell.
shown-IsText : (v : Value) → IsTextOrUnset v → IsText (if is_present v then v else str [])
shown-IsText undefined h = ([], refl)
shown-IsText null h = ([], refl)
shown-IsText (str s) h = (s, refl)
shown-IsText (bool _) h = elim h [ ]
shown-IsText (num _) h = elim h [ ]
shown-IsText (arr _) h = elim h [ ]
shown-IsText (obj _) h = elim h [ ]

module _ (j : Jspb) (messages : MessageLaws j) (readers : ReaderLaws j) where
  open j use {
    Message, Reader, initialize, new_reader, set_proto3_string_field, get_field_with_default,
    read_string, skip_field,
  }
  open messages use {stored, stored-initialize, set_string_lem, get_field_lem}
  open readers use {remaining, remaining-new, read_string_ends, read_string_text, skip_field_ends}

  abbrev HasTexts : Message → Type 0
  HasTexts m = (k : ℕ) → IsTextOrUnset (stored m k)

  initialize-HasTexts : HasTexts initialize
  initialize-HasTexts k = rw (stored-initialize k) tt

  set_string-HasTexts :
      (m : Message) (n : ℕ) (s : Text) → HasTexts m → HasTexts (set_proto3_string_field m n (str s))
  set_string-HasTexts m n s h k = rw (set_string_lem m n k (str s)) (
      if_cases IsTextOrUnset (n == k) (unless_empty (str s)) (stored m k) (λ e. unless_empty_lem s)
        (λ e. h k))

  abbrev Keeps : Reader → Message × Reader → Type 0
  Keeps r step = HasTexts step.0 × Goes j readers r step

  text-Keeps :
      (n : ℕ) (msg : Message) (r : Reader)
      → HasTexts msg
      → Ends (Keeps r) (read_string r >>= λ p. ok (set_proto3_string_field msg n p.0, p.1))
  text-Keeps n msg r h =
      Ends->>= (λ p. IsText p.0 × (remaining p.1 ≤ remaining r)) (Keeps r) (read_string r) _
        (Ends-both _ _ (read_string r) (read_string_text r) (read_string_ends r))
        λ p ((s, e), goes). (rw e (set_string-HasTexts msg n s h), goes)

  read_field-Keeps :
      (n : ℕ) (msg : Message) (r : Reader) → HasTexts msg → Ends (Keeps r) (read_field j n msg r)
  unfolding read_field
  read_field-Keeps n msg r h =
      let skips =
        Ends->>= (λ r'. remaining r' ≤ remaining r) (Keeps r) (skip_field r) _ (skip_field_ends r)
          λ r' goes. (h, goes) in
      if_cases (Ends (Keeps r)) (n == 1) _ _ (λ e. text-Keeps 1 msg r h)
        λ e.
          if_cases (Ends (Keeps r)) (n == 2) _ _ (λ e'. text-Keeps 2 msg r h)
            λ e'. if_cases (Ends (Keeps r)) (n == 3) _ _ (λ e''. text-Keeps 3 msg r h) λ e''. skips

  getter-IsText : (m : Message) (n : ℕ) → HasTexts m → IsText (get_field_with_default m n (str []))
  getter-IsText m n h = rw (get_field_lem m n (str [])) (shown-IsText (stored m n) (h n))

  HasTexts-Holds : (m : Message) → HasTexts m → (c t d : Text) × Holds j m (str c) (str t) (str d)
  HasTexts-Holds m h =
      let (c, code) = getter-IsText m 1 h in
      let (t, message) = getter-IsText m 2 h in
      let (d, details) = getter-IsText m 3 h in
      (c, t, d, record { code = code; message = message; details = details })

  -- On any bytes the reading of an ErrorMessage throws, or its getters read texts.
  pub deserialize_binary-Holds :
      (bytes : Bytes)
      → Ends (λ m. (c t d : Text) × Holds j m (str c) (str t) (str d)) (deserialize_binary j bytes)
  unfolding deserialize_binary deserialize_binary_from_reader
  deserialize_binary-Holds bytes =
      let fits = remaining-new bytes in
      Ends-weaken HasTexts (λ m. (c t d : Text) × Holds j m (str c) (str t) (str d))
        (deserialize_binary j bytes) HasTexts-Holds
        (read_loop-Keeps j readers HasTexts (read_field j) read_field-Keeps (suc (length bytes))
          initialize (new_reader bytes) initialize-HasTexts (omega arith))
