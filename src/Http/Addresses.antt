-- ===== src/Http/Addresses.antt =====
-- Where requests go.
use pymaid.Prelude.{
  suc, ◌-◌, append-nil, ℕ, ◌≡◌, ◌≢◌, refl, ap, ◌∙◌, [], ◌∷◌, ◌++◌, Text, codes, starts_with,
  ends_with, drop_last, drop, length, if◌then◌else◌, if_cases, true, Bool-cases, inl, inr, arith,
}
use pymaid.Http.Urls.{real_url, root_of, is_absolute}

starts_with_lem : (s p : Text) → starts_with s p ≡ true → s ≡ p ++ drop (length p) s
unfolding starts_with
starts_with_lem s [] h = refl
starts_with_lem [] (b ∷ p) h = ground arith
starts_with_lem (a ∷ s) (b ∷ p) h =
    let same : a ≡ b = ground arith in
    let behind : starts_with s p ≡ true = ground arith in let e = starts_with_lem s p behind in cc

drop_last-cons : (c : ℕ) (s : Text) → s ≢ [] → drop_last 1 (c ∷ s) ≡ c ∷ drop_last 1 s
unfolding drop_last
drop_last-cons c [] h = absurd (h refl)
drop_last-cons c (d ∷ s) h =
    let two : suc (suc (length s)) - 1 ≡ suc (length s) = omega arith in
    let one : suc (length s) - 1 ≡ length s = omega arith in rw (two, one) refl

-- The last unit of `p ++ x` is one of `x`.
drop_last-append : (p x : Text) → x ≢ [] → drop_last 1 (p ++ x) ≡ p ++ drop_last 1 x
unfolding drop_last
drop_last-append [] x h = refl
drop_last-append (c ∷ []) x h = drop_last-cons c x h
drop_last-append (c ∷ d ∷ p) x h =
    let some_left : d ∷ (p ++ x) ≢ [] = λ e. cc in
    drop_last-cons c (d ∷ (p ++ x)) some_left ∙ ap (◌∷◌ c) (drop_last-append (d ∷ p) x h)

module _ (url : Text) where
  abbrev Reaches : Text → Type 0
  Reaches root_url = is_absolute (root_url ++ url) ≡ true

  kept :
      (p x : Text)
      → ((y : Text) → Reaches (p ++ y))
      → x ≢ []
      → Reaches (if ends_with (p ++ x) (codes "/") then drop_last 1 (p ++ x) else p ++ x)
  kept p x every h =
      if_cases Reaches (ends_with (p ++ x) (codes "/")) _ _
        (λ e. rw (drop_last-append p x h) (every (drop_last 1 x))) (λ e. every x)

  set_root :
      (absolute p : Text)
      → starts_with absolute p ≡ true
      → ((y : Text) → Reaches (p ++ y))
      → absolute ≢ p
      → Reaches (if ends_with absolute (codes "/") then drop_last 1 absolute else absolute)
  set_root absolute p h every more =
      let x = drop (length p) absolute in
      let split : absolute ≡ p ++ x = starts_with_lem absolute p h in
      let some_left : x ≢ [] = λ e. more (split ∙ ap (◌++◌ p) e ∙ append-nil p) in
      rw split (kept p x every some_left)

  plain-Reaches : (y : Text) → Reaches (codes "http://" ++ y)
  unfolding starts_with
  plain-Reaches y = refl

  secure-Reaches : (y : Text) → Reaches (codes "https://" ++ y)
  unfolding starts_with
  secure-Reaches y = refl

  -- Every address that a manager makes out of a root and an address starts with `http://` or
  -- `https://`, if the root that was set is not empty, and not one of these prefixes alone.
  pub real_url-root_of :
      (root_url : Text)
      → root_url ≢ []
      → root_url ≢ codes "http://"
      → root_url ≢ codes "https://"
      → is_absolute (real_url (root_of root_url) url) ≡ true
  unfolding real_url root_of
  real_url-root_of root_url some_root plain secure =
      if_cases (λ s. is_absolute s ≡ true) (is_absolute url) _ _ (λ e. e) λ _. reaches
    where
      reaches : Reaches (root_of root_url)
      reaches = elim (Bool-cases (starts_with root_url (codes "http://"))) [
        | inl h ↦ rw h (set_root root_url (codes "http://") h plain-Reaches plain)
        | inr other ↦ elim (Bool-cases (starts_with root_url (codes "https://"))) [
          | inl h ↦ rw (other, h) (set_root root_url (codes "https://") h secure-Reaches secure)
          | inr h ↦ rw (other, h) (kept (codes "http://") root_url plain-Reaches some_root)
        ]
      ]
