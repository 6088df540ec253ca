-- ===== src/Pb/Cells.antt =====
-- The fields of a message that a reader sets one after the other.
use pymaid.Prelude.{
  ℕ, suc, ◌≤◌, ◌<◌, ◌≡◌, refl, sym, ◌∙◌, Bool, true, false, [], ◌∷◌, Text, ◌==◌, eq_text,
  if◌then◌else◌, arith,
}
use pymaid.Js.{Value, undefined, null, bool, num, str, arr, obj, is_present, is_truthy}
use pymaid.Jspb.{Jspb}
use pymaid.Jspb.Laws.{MessageLaws}

-- A message with field `n` set by a proto3 setter, to the value `v` whose default is skipped.
module _ (j : Jspb) (laws : MessageLaws j) where
  open j use {
    Message, set_proto3_int_field, set_proto3_enum_field, set_proto3_string_field,
    set_proto3_boolean_field, get_field_with_default, get_boolean_field_with_default,
  }
  open laws use {
    stored, get_field_lem, get_boolean_lem, set_int_lem, set_enum_lem, set_string_lem,
    set_boolean_lem,
  }

  -- What field `n` shows, with the default `d`.
  abbrev pub shown : Value → Value → Value
  shown d v = if is_present v then v else d

  -- `m'` is `m` but for field `n`, where it shows `v` with the default `d`.
  pub record Sets (m m' : Message) (n : ℕ) (v d : Value) : Type 0 where
    pub there : shown d (stored m' n) ≡ v
    pub elsewhere : (k : ℕ) → (n == k) ≡ false → stored m' k ≡ stored m k

  pub Sets-int :
      (m : Message) (n v : ℕ)
      → stored m n ≡ undefined
      → Sets m (if v == 0 then m else set_proto3_int_field m n (num v)) n (num v) (num 0)
  Sets-int m n v fresh = record {
    there = ground (arith, set_int_lem m n n (num v));
    elsewhere = λ k h. ground (arith, set_int_lem m n k (num v));
  }

  pub Sets-enum :
      (m : Message) (n v : ℕ)
      → stored m n ≡ undefined
      → Sets m (if v == 0 then m else set_proto3_enum_field m n (num v)) n (num v) (num 0)
  Sets-enum m n v fresh = record {
    there = ground (arith, set_enum_lem m n n (num v));
    elsewhere = λ k h. ground (arith, set_enum_lem m n k (num v));
  }

  -- A text that is read only if it is not empty.
  abbrev pub with_text : Message → ℕ → Text → Message
  with_text m n [] = m
  with_text m n (c ∷ s) = set_proto3_string_field m n (str (c ∷ s))

  pub Sets-text :
      (m : Message) (n : ℕ) (s : Text)
      → stored m n ≡ undefined
      → Sets m (with_text m n s) n (str s) (str [])
  Sets-text m n [] fresh = record { there = rw fresh; elsewhere = λ k h. refl }
  Sets-text m n (c ∷ s) fresh = record {
    there = unfold eq_text in ground (arith, set_string_lem m n n (str (c ∷ s)));
    elsewhere = λ k h. ground (arith, set_string_lem m n k (str (c ∷ s)));
  }

  abbrev pub with_flag : Message → ℕ → Bool → Message
  with_flag m n false = m
  with_flag m n true = set_proto3_boolean_field m n (bool true)

  pub Sets-flag :
      (m : Message) (n : ℕ) (b : Bool)
      → stored m n ≡ undefined
      → Sets m (with_flag m n b) n (bool b) (bool false)
  Sets-flag m n false fresh = record { there = rw fresh; elsewhere = λ k h. refl }
  Sets-flag m n true fresh = record {
    there = ground (arith, set_boolean_lem m n n (bool true));
    elsewhere = λ k h. ground (arith, set_boolean_lem m n k (bool true));
  }

  -- The fields from `n` on are set in turn, which leads from the first message to the last.
  pub data Turns (last : Message) : Message → ℕ → Type 0 where
    stop : (n : ℕ) → Turns last last n
    turn :
        {m m' : Message} (n : ℕ) {v d : Value}
        → Sets m m' n v d
        → Turns last m' (suc n)
        → Turns last m n

  -- The fields before `n` show in the end what they did.
  pub later :
      {last m : Message} {n : ℕ} (k : ℕ) (e : Value) {x : Value}
      → Turns last m n
      → k < n
      → shown e (stored m k) ≡ x
      → shown e (stored last k) ≡ x
  later k e (stop n) h p = p
  later k e (turn n s t) h p = later k e t (omega arith) (rw (s.elsewhere k (ground arith)) p)

  -- No field from `n` on is set.
  abbrev pub Fresh : Message → ℕ → Type 0
  Fresh m n = (k : ℕ) → n ≤ k → stored m k ≡ undefined

  pub Fresh-next :
      {m m' : Message} (n : ℕ) {v d : Value} → Sets m m' n v d → Fresh m n → Fresh m' (suc n)
  Fresh-next n s fresh k h = s.elsewhere k (ground arith) ∙ fresh k (omega arith)

  -- The getters read what a field shows.
  pub get_field-shown :
      (m : Message) (n : ℕ) {d v : Value}
      → shown d (stored m n) ≡ v
      → get_field_with_default m n d ≡ v
  get_field-shown m n {d} p = get_field_lem m n d ∙ p

  truth :
      (b : Bool) (x : Value)
      → shown (bool false) x ≡ bool b
      → shown (bool false) x ≡ (if is_present x then bool (is_truthy x) else bool false)
  truth b undefined p = refl
  truth b null p = refl
  truth b (bool c) p = refl
  truth b (num n) p = cc
  truth b (str s) p = cc
  truth b (arr xs) p = cc
  truth b (obj o) p = cc

  pub get_boolean-shown :
      (m : Message) (n : ℕ) (b : Bool)
      → shown (bool false) (stored m n) ≡ bool b
      → get_boolean_field_with_default m n (bool false) ≡ bool b
  get_boolean-shown m n b p = get_boolean_lem m n (bool false) ∙ sym (truth b (stored m n) p) ∙ p
