-- ===== src/Prelude/Texts.antt =====
-- JavaScript strings, as lists of UTF-16 code units.
use Prim.Native.Nat.{ℕ, zero, suc, ◌+◌, ◌-◌, ◌/◌, ◌%◌}
use Prim.Native.Char.{code}
use Prim.Native.String.{String}
use mathlib.Core.Path.{◌≡◌, refl}
use mathlib.Core.Logic.{◌↔◌}
use mathlib.Core.Bool.{Bool, true, false, ◌&&◌}
use mathlib.Core.List.{List, [], ◌∷◌, ◌++◌, reverse}
use native.Mathlib.Omega.{arith}
use pymaid.Prelude.Tests.{◌==◌, between, if◌then◌else◌}
use pymaid.Prelude.Lists.{length, drop, take, length-append, drop-append}

abbrev pub Text : Type 0
Text = List ℕ

-- The code units of an ASCII literal.
abbrev pub codes : String → Text
codes String.[] = []
codes (String.◌∷◌ c s) = code c ∷ codes s

-- `s === t`
unfoldable pub eq_text : Text → Text → Bool
eq_text [] [] = true
eq_text (a ∷ s) (b ∷ t) = a == b && eq_text s t
eq_text _ _ = false

pub eq_text_iff : (s t : Text) → (eq_text s t ≡ true) ↔ (s ≡ t)
unfolding eq_text
eq_text_iff [] [] = ground arith
eq_text_iff [] (b ∷ t) = ground arith
eq_text_iff (a ∷ s) [] = ground arith
eq_text_iff (a ∷ s) (b ∷ t) = ground (arith, eq_text_iff s t)

pub eq_text_refl : (s : Text) → eq_text s s ≡ true
eq_text_refl s = (eq_text_iff s s).1 refl

-- `s.startsWith(p)`
unfoldable pub starts_with : Text → Text → Bool
starts_with s [] = true
starts_with [] (b ∷ p) = false
starts_with (a ∷ s) (b ∷ p) = a == b && starts_with s p

pub starts_with-append : (p s : Text) → starts_with (p ++ s) p ≡ true
unfolding starts_with
starts_with-append [] s = refl
starts_with-append (a ∷ p) s = ground (arith, starts_with-append p s)

-- `s.endsWith(p)`: the last `p.length` units of `s` are `p`.
unfoldable pub ends_with : Text → Text → Bool
unfolding eq_text
ends_with s p = eq_text (drop (length s - length p) s) p

pub ends_with-append : (s p : Text) → ends_with (s ++ p) p ≡ true
unfolding ends_with
ends_with-append s p =
    let shorter : length (s ++ p) - length p ≡ length s = omega (arith, length-append {0} s p) in
    rw (shorter, drop-append s p) (eq_text_refl p)

pub eq_text_append : (s : Text) (c : ℕ) (p : Text) → eq_text (s ++ c ∷ p) s ≡ false
unfolding eq_text
eq_text_append [] c p = refl
eq_text_append (b ∷ s) c p = ground (arith, eq_text_append s c p)

-- `s.substr(0, s.length - n)`
unfoldable pub drop_last : ℕ → Text → Text
drop_last n s = take (length s - n) s

-- A surrogate that starts a pair, and one that ends it.
abbrev pub is_high : ℕ → Bool
is_high c = between 0xd800 0xdbff c

abbrev pub is_low : ℕ → Bool
is_low c = between 0xdc00 0xdfff c

-- Text whose surrogates stand in pairs, so that it has a UTF-8 form.
abbrev pub IsWellFormed : Text → Type 0
IsWellFormed [] = Unit
IsWellFormed (c ∷ []) = (is_high c ≡ false) × (is_low c ≡ false)
IsWellFormed (c ∷ d ∷ s) =
    if is_high c
    then (is_low d ≡ true) × IsWellFormed s
    else (is_low c ≡ false) × IsWellFormed (d ∷ s)

-- The decimal digits of `n`, least first, in at most `fuel` places; and `String(n)`.
digits : ℕ → ℕ → Text
digits zero n = []
digits (suc fuel) n =
    let rest = digits fuel (n / 10) in (b'0' + n % 10) ∷ (if n / 10 == 0 then [] else rest)

unfoldable pub decimal : ℕ → Text
unfolding digits
decimal n = reverse (digits (suc n) n)

-- The contents of an ArrayBuffer, or of a typed array over all of it.
abbrev pub Bytes : Type 0
Bytes = List ℕ
