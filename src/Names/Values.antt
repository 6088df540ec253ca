-- ===== src/Names/Values.antt =====
-- What `underscore` and `camel` do to a value, whatever they do to names.
use pymaid.Prelude.{
  ◌≡◌, refl, sym, ap, ◌∙◌, false, Text, eq_text, eq_text_iff, arith, Bool-cases, inl, inr,
}
use pymaid.Js.{
  Value, undefined, null, bool, num, str, arr, obj, Items, nil, cons, Fields, end, field, has_own,
}
use pymaid.Js.Objects.{◌+++◌, append_end, append_fields_assoc, put_new, IsObject}
use pymaid.Names.Defs.{convert, convert_items, convert_fields}

-- `out +++ field k v o` is an object only if `k` is new in `out`.
has_own_of_append :
    (out o : Fields) (k : Text) (v : Value) → IsObject (out +++ field k v o) → has_own k out ≡ false
unfolding has_own
has_own_of_append end o k v h = refl
has_own_of_append (field j w out) o k v h =
    ground (arith, has_own_of_append out o k v h.1, has_own-middle j k v out o, eq_text_iff j k)
  where
    has_own-middle :
        (j k : Text) (v : Value) (p q : Fields)
        → has_own j (p +++ field k v q) ≡ false
        → eq_text k j ≡ false
    has_own-middle j k v end q h = ground arith
    has_own-middle j k v (field i w p) q h = ground (arith, has_own-middle j k v p q)

-- `convert_fields`, where every property stays: the properties in place.
module _ (r : Text → Text) where
  abbrev pub mapped : Fields → Fields
  mapped end = end
  mapped (field k v o) = field (r k) (convert r v) (mapped o)

  convert_fields-eq :
      (o out : Fields) → IsObject (out +++ mapped o) → convert_fields r o out ≡ out +++ mapped o
  unfolding convert
  convert_fields-eq end out h = sym (append_end out)
  convert_fields-eq (field k v o) out h =
      let fresh = has_own_of_append out (mapped o) (r k) (convert r v) h in
      let moved = append_fields_assoc out (field (r k) (convert r v) end) (mapped o) in
      rw (put_new (r k) (convert r v) out fresh)
        (convert_fields-eq o (out +++ field (r k) (convert r v) end) (rw moved h) ∙ moved)

-- A value whose objects are objects, with the names of all properties in `P`.
module _ (P : Text → Type 0) where
  abbrev mutual
    pub Named : Value → Type 0
    Named undefined = Unit
    Named null = Unit
    Named (bool b) = Unit
    Named (num n) = Unit
    Named (str s) = Unit
    Named (arr xs) = NamedItems xs
    Named (obj o) = IsObject o × NamedFields o

    pub NamedItems : Items → Type 0
    NamedItems nil = Unit
    NamedItems (cons x xs) = Named x × NamedItems xs

    pub NamedFields : Fields → Type 0
    NamedFields end = Unit
    NamedFields (field k v o) = P k × Named v × NamedFields o

-- A renaming `r` that `g` undoes.
module _ (r g : Text → Text) (P : Text → Type 0) (inv : (k : Text) → P k → g (r k) ≡ k) where
  renamed-ne : (k j : Text) → P k → P j → eq_text j k ≡ false → eq_text (r j) (r k) ≡ false
  renamed-ne k j p q h = elim (Bool-cases (eq_text (r j) (r k))) [
    | inl same ↦
        let e : j ≡ k = sym (inv j q) ∙ ap g ((eq_text_iff (r j) (r k)).0 same) ∙ inv k p in
        cc ((eq_text_iff j k).1 e)
    | inr other ↦ other
  ]

  -- Two names that `g` tells apart again stay apart.
  has_own-mapped :
      (k : Text) (o : Fields)
      → P k
      → NamedFields P o
      → has_own k o ≡ false
      → has_own (r k) (mapped r o) ≡ false
  unfolding has_own
  has_own-mapped k end e u h = refl
  has_own-mapped k (field j w o) e u h =
      ground (arith, renamed-ne k j e u.0, has_own-mapped k o e u.2)

  mapped-IsObject : (o : Fields) → NamedFields P o → IsObject o → IsObject (mapped r o)
  mapped-IsObject end u h = tt
  mapped-IsObject (field k v o) u h = (has_own-mapped k o u.0 u.2 h.0, mapped-IsObject o u.2 h.1)

  mutual
    unfolding convert

    pub convert_undone : (v : Value) → Named P v → convert g (convert r v) ≡ v
    convert_undone undefined u = refl
    convert_undone null u = refl
    convert_undone (bool b) u = refl
    convert_undone (num n) u = refl
    convert_undone (str s) u = refl
    convert_undone (arr xs) u = ap arr (convert_items_undone xs u)
    convert_undone (obj o) u = rw (convert_fields-eq r o end (mapped-IsObject o u.1 u.0)) (
        ap obj (
          convert_fields-eq g (mapped r o) end (rw (mapped_undone o u.1) u.0)
          ∙ mapped_undone o u.1))

    convert_items_undone :
        (xs : Items) → NamedItems P xs → convert_items g (convert_items r xs) ≡ xs
    convert_items_undone nil u = refl
    convert_items_undone (cons x xs) u = cc (convert_undone x u.0, convert_items_undone xs u.1)

    mapped_undone : (o : Fields) → NamedFields P o → mapped g (mapped r o) ≡ o
    mapped_undone end u = refl
    mapped_undone (field k v o) u = cc (inv k u.0, convert_undone v u.1, mapped_undone o u.2)
