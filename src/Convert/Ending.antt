-- ===== src/Convert/Ending.antt =====
-- The `transform` of `instantiate` ends.
use native.Mathlib.Nat.{mul-le-mul, mul-le-mul_right}
use pymaid.Prelude.{
  ℕ, zero, suc, ◌+◌, ◌-◌, ◌*◌, ◌≤◌, ◌<◌, ◌≡◌, refl, ◌⊎◌, inl, inr, true, List, Option-cases, some,
  [], ◌∷◌, Text, length, get_elem?, Ends, Ends->>=, Result, arith, Bool-cases,
}
use pymaid.Js.{Value, undefined, null, bool, num, str, arr, obj, Fields, has_own, keys, is_array}
use pymaid.Convert.Loop.{loop, map_items}
use pymaid.Convert.Instantiate.{instantiate_transform, instantiate_body}
use pymaid.Convert.Weights.{weight_of, weight_of-le, Within, WithinItems, WithinFields}
use pymaid.Convert.Rounds.{Made, Tame, Left, map_items-Ends, body-Ends}

get_elem_bound :
    {A : Type 0} (xs : List A) (n : ℕ) (a : A) → get_elem? xs n ≡ some a → n < length xs
get_elem_bound [] n a h = ground arith
get_elem_bound (x ∷ xs) zero a h = omega arith
get_elem_bound (x ∷ xs) (suc n) a h = omega (arith, get_elem_bound xs n a h)

fewer_rounds :
    (p q n i j fuel : ℕ)
    → i < n
    → p * (n + 1) + (n - i) < suc fuel
    → (q < p) ⊎ ((q ≤ p) × (j ≡ i))
    → q * (n + 1) + (n - (j + 1)) < fuel
fewer_rounds p q n i j fuel within enough (inl less) =
    let fewer : suc q * (n + 1) ≤ p * (n + 1) = mul-le-mul_right (n + 1) less in
    let split : suc q * (n + 1) ≡ q * (n + 1) + (n + 1) = grind arith in omega arith
fewer_rounds p q n i j fuel within enough (inr (le, same)) =
    let fewer : q * (n + 1) ≤ p * (n + 1) = mul-le-mul_right (n + 1) le in omega arith

module _ (w : ℕ) (transform : Value → Result Value) (d : ℕ) where
  -- With fuel for the rounds that the weights allow, the loop ends.
  loop-Ends :
      (fuel : ℕ) (attrs : List Text) (idx : ℕ) (ins : Fields)
      → ((e : ℕ) → e ≤ d - 2 → Tame w transform e)
      → WithinFields w d ins
      → length (keys ins) ≤ w
      → weight_of ins * (length attrs + 1) + (length attrs - idx) < fuel
      → Ends
          (λ o. WithinFields w d o × (length (keys o) ≤ w))
          (loop (instantiate_body transform) fuel attrs idx ins)
  unfolding loop
  loop-Ends zero attrs idx ins tame hs size enough = ground arith
  loop-Ends (suc fuel) attrs idx ins tame hs size enough =
      elim (Option-cases (get_elem? attrs idx)) [
        | inl e ↦ rw (loop, e) (hs, size)
        | inr (attr, e) ↦
            let bound = get_elem_bound attrs idx attr e in
            elim (Bool-cases (has_own attr ins)) [
              | inl own ↦
                  rw (loop, e, own)
                    (Ends->>= (Left w transform d idx ins)
                      (λ o. WithinFields w d o × (length (keys o) ≤ w))
                      (instantiate_body transform attr idx ins) _
                      (body-Ends w transform d attr idx ins tame own hs size)
                      λ next left. loop-Ends fuel attrs (next.1 + 1) next.0 tame left.0 left.1 (
                        fewer_rounds (weight_of ins) (weight_of next.0) (length attrs) idx next.1
                          fuel bound enough left.2))
              | inr other ↦
                  rw (loop, e, other)
                    (loop-Ends fuel attrs (idx + 1) ins tame hs size (omega arith))
            ]
      ]

-- Rounds for the loop over an object with at most `w` properties.
abbrev pub rounds : ℕ → ℕ
rounds w = 2 * w * (w + 1) + w

enough_rounds :
    (n p w fuel : ℕ) → n ≤ w → p ≤ 2 * n → rounds w < fuel → p * (n + 1) + (n - 0) < fuel
enough_rounds n p w fuel small light enough =
    let most : p * (n + 1) ≤ (2 * w) * (w + 1) = mul-le-mul (omega arith) (omega arith) in
    omega arith

-- The `transform` of `instantiate` returns or throws on any value, with more fuel than `d + 2 * w * (w + 1) + w`,
-- where the value goes at most `d` deep and no object in it has more than `w` properties. What it returns
-- goes no deeper and has no larger objects, and is a list where the value is.
pub instantiate_transform-Ends :
    (w fuel d : ℕ) (v : Value)
    → Within w d v
    → d + rounds w < fuel
    → Ends
        (λ v'. Within w d v' × (is_array v ≡ true → is_array v' ≡ true))
        (instantiate_transform fuel v)
unfolding instantiate_transform Within
instantiate_transform-Ends w zero d v h enough = ground arith
instantiate_transform-Ends w (suc fuel) d undefined h enough = (tt, λ e. e)
instantiate_transform-Ends w (suc fuel) d null h enough = (tt, λ e. e)
instantiate_transform-Ends w (suc fuel) d (bool b) h enough = (tt, λ e. e)
instantiate_transform-Ends w (suc fuel) d (num n) h enough = (tt, λ e. e)
instantiate_transform-Ends w (suc fuel) d (str s) h enough = (tt, λ e. e)
instantiate_transform-Ends w (suc fuel) d (arr xs) h enough =
    Ends->>= (WithinItems w d) (Made w d (arr xs)) (map_items (instantiate_transform fuel) xs) _
      (map_items-Ends w (instantiate_transform fuel) d xs
        (λ x hx. instantiate_transform-Ends w fuel (d - 1) x hx (omega arith)) h.1)
      λ ys made. ((h.0, made), λ e. refl)
instantiate_transform-Ends w (suc fuel) d (obj o) h enough =
    Ends->>= (λ o'. WithinFields w d o' × (length (keys o') ≤ w)) (Made w d (obj o))
      (loop (instantiate_body (instantiate_transform fuel)) fuel (keys o) 0 o) _
      (loop-Ends w (instantiate_transform fuel) d fuel (keys o) 0 o
        (λ e le x hx. instantiate_transform-Ends w fuel e x hx (omega arith)) h.2 h.1
        (enough_rounds (length (keys o)) (weight_of o) w fuel h.1 (weight_of-le o) (omega arith)))
      λ o' made. ((h.0, made.1, made.0), λ e. ground arith)
