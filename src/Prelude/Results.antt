-- ===== src/Prelude/Results.antt =====
-- What a call yields: a value, the exception that it throws, or no answer within its fuel.
use pymaid.Prelude.Texts.{Text}

pub data Exception : Type 0 where
  type_error range_error syntax_error invalid_state : Exception
  -- `throw Error(message)`
  error : Text → Exception
  -- of the server, in Python: its own errors are known by their codes
  attribute_error assertion_error struct_error decode_error : Exception
  rpc_error : Text → Exception

pub data Result {ℓ} (A : Type ℓ) : Type ℓ where
  ok : A → Result A
  throw : Exception → Result A
  unfinished : Result A

infixl 5 ◌>>=◌
abbrev pub ◌>>=◌ {ℓ κ} : {A : Type ℓ} {B : Type κ} → Result A → (A → Result B) → Result B
ok a >>= f = f a
throw e >>= f = throw e
unfinished >>= f = unfinished

abbrev pub fmap {ℓ κ} : {A : Type ℓ} {B : Type κ} → (A → B) → Result A → Result B
fmap f r = r >>= λ a. ok (f a)

-- The call does not run out of fuel, and what it returns has the property.
abbrev pub Ends {ℓ} : {A : Type ℓ} → (A → Type 0) → Result A → Type 0
Ends P r = elim r [ unfinished ↦ ⊥ | throw e ↦ Unit | ok a ↦ P a ]

-- Two calls in a row.
pub Ends->>= {ℓ} :
    {A B : Type ℓ} (Between : A → Type 0) (After : B → Type 0) (first : Result A)
    (next : A → Result B) (ends : Ends Between first)
    (goes_on : (a : A) (between : Between a) → Ends After (next a))
    → Ends After (first >>= next)
Ends->>= Between After unfinished next ends goes_on = ends
Ends->>= Between After (throw e) next ends goes_on = tt
Ends->>= Between After (ok a) next ends goes_on = goes_on a ends

pub Ends-both {ℓ} :
    {A : Type ℓ} (P Q : A → Type 0) (r : Result A) → Ends P r → Ends Q r → Ends (λ a. P a × Q a) r
Ends-both P Q unfinished p q = p
Ends-both P Q (throw e) p q = tt
Ends-both P Q (ok a) p q = (p, q)

pub Ends-weaken {ℓ} :
    {A : Type ℓ} (P Q : A → Type 0) (r : Result A) → ((a : A) → P a → Q a) → Ends P r → Ends Q r
Ends-weaken P Q unfinished f p = p
Ends-weaken P Q (throw e) f p = tt
Ends-weaken P Q (ok a) f p = f a p
