-- ===== src/Jspb/Nested/Reference/Maps.antt =====
-- The maps of the reference instance.
use pymaid.Prelude.{
  ℕ, ◌≡◌, refl, sym, ◌∙◌, ◌++◌, true, false, List, [], ◌∷◌, Option, some, none, if◌then◌else◌, ◌==◌,
  All, arith, inl, inr, Bool-cases, All-append, All-implies,
}
use pymaid.Jspb.Reference.Messages.{Tree, Leaves, bud, leaf}
use pymaid.Jspb.Nested.Laws.{found, found_cong}

abbrev pub drop_key : ℕ → List (ℕ × Tree) → List (ℕ × Tree)
drop_key k [] = []
drop_key k ((i, m) ∷ rest) = if k == i then drop_key k rest else (i, m) ∷ drop_key k rest

abbrev pub entries : Leaves → List (ℕ × Tree)
entries bud = []
entries (leaf k m rest) = drop_key k (entries rest) ++ (k, m) ∷ []

abbrev pub find : Leaves → ℕ → Option Tree
find bud i = none
find (leaf k m rest) i = if k == i then some m else find rest i

found-append :
    {A : Type 0} (xs : List (ℕ × A)) (f : ℕ → Option A) (k i : ℕ) (a : A)
    → found f (xs ++ (k, a) ∷ []) i ≡ (if k == i then some a else found f xs i)
found-append [] f k i a = refl
found-append ((n, b) ∷ xs) f k i a = found-append xs (λ j. if n == j then some b else f j) k i a

other : (k n i : ℕ) → (k == n) ≡ true → (k == i) ≡ false → (n == i) ≡ false
other k n i p q = ground arith

found_elsewhere :
    (es : List (ℕ × Tree)) (f : ℕ → Option Tree) (n : ℕ) (m : Tree) (i : ℕ)
    → (n == i) ≡ false
    → found f es i ≡ found (λ j. if n == j then some m else f j) es i
found_elsewhere es f n m i h = found_cong es f _ i (rw h refl)

found-drop_key :
    (es : List (ℕ × Tree)) (f : ℕ → Option Tree) (k i : ℕ)
    → (k == i) ≡ false
    → found f (drop_key k es) i ≡ found f es i
found-drop_key [] f k i h = refl
found-drop_key ((n, m) ∷ es) f k i h = elim (Bool-cases (k == n)) [
  | inl same ↦ rw same (found-drop_key es f k i h ∙ found_elsewhere es f n m i (other k n i same h))
  | inr differ ↦ rw differ (found-drop_key es (λ j. if n == j then some m else f j) k i h)
]

pub find-entries : (map : Leaves) (k : ℕ) → find map k ≡ found (λ i. none) (entries map) k
find-entries bud k = refl
find-entries (leaf i m rest) k = elim (Bool-cases (i == k)) [
  | inl same ↦ rw (found-append (drop_key i (entries rest)) (λ i. none) i k m, same) refl
  | inr differ ↦
      rw (found-append (drop_key i (entries rest)) (λ i. none) i k m, differ)
        (find-entries rest k ∙ sym (found-drop_key (entries rest) (λ i. none) i k differ))
]

-- The entries that are left have another key.
All-drop_key :
    (P : ℕ × Tree → Type 0) (k : ℕ) (es : List (ℕ × Tree))
    → All P es
    → All (λ e. ((k == e.0) ≡ false) × P e) (drop_key k es)
All-drop_key P k [] h = tt
All-drop_key P k ((i, m) ∷ es) h = elim (Bool-cases (k == i)) [
  | inl same ↦ rw same (All-drop_key P k es h.1)
  | inr differ ↦ rw differ ((differ, h.0), All-drop_key P k es h.1)
]

pub entries-find : (map : Leaves) → All (λ e. find map e.0 ≡ some e.1) (entries map)
entries-find bud = tt
entries-find (leaf k m rest) =
    All-append (λ e. find (leaf k m rest) e.0 ≡ some e.1) _ _
      (All-implies _ (λ e. find (leaf k m rest) e.0 ≡ some e.1) (λ e h. rw h.0 h.1) _
        (All-drop_key _ k (entries rest) (entries-find rest)))
      (ground arith, tt)
