-- ===== src/Js/Objects.antt =====
-- Laws of own properties.
use pymaid.Prelude.{◌≡◌, refl, ap, true, false, Text, eq_text, eq_text_iff, arith, if◌then◌else◌}
use pymaid.Js.{Value, Fields, end, field, put, get, has_own}

-- `o +++ p` has the properties of `o`, then those of `p`.
infixl 65 ◌+++◌
abbrev pub ◌+++◌ : Fields → Fields → Fields
end +++ p = p
field k v o +++ p = field k v (o +++ p)

pub append_end : (o : Fields) → o +++ end ≡ o
append_end end = refl
append_end (field k v o) = ap (field k v) (append_end o)

pub append_fields_assoc : (o p q : Fields) → (o +++ p) +++ q ≡ o +++ (p +++ q)
append_fields_assoc end p q = refl
append_fields_assoc (field k v o) p q = ap (field k v) (append_fields_assoc o p q)

pub get-put :
    (k j : Text) (v : Value) (o : Fields) → get j (put k v o) ≡ (if eq_text k j then v else get j o)
unfolding get put
get-put k j v end = refl
get-put k j v (field i w o) =
    ground (arith, eq_text_iff k j, eq_text_iff i k, eq_text_iff i j, get-put k j v o)

pub put_new :
    (k : Text) (v : Value) (o : Fields) → has_own k o ≡ false → put k v o ≡ o +++ field k v end
unfolding put has_own
put_new k v end h = refl
put_new k v (field j w o) h = ground (arith, put_new k v o)

pub has_own-append :
    (k : Text) (o p : Fields)
    → has_own k o ≡ false
    → has_own k p ≡ false
    → has_own k (o +++ p) ≡ false
unfolding has_own
has_own-append k end p h h' = h'
has_own-append k (field j w o) p h h' = ground (arith, has_own-append k o p)

-- No property is listed twice, as in every object.
abbrev pub IsObject : Fields → Type 0
IsObject end = Unit
IsObject (field k v o) = (has_own k o ≡ false) × IsObject o

pub has_own-put :
    (k j : Text) (v : Value) (o : Fields)
    → has_own j (put k v o) ≡ (if eq_text k j then true else has_own j o)
unfolding has_own put
has_own-put k j v end = refl
has_own-put k j v (field i w o) =
    ground (arith, eq_text_iff k j, eq_text_iff i k, eq_text_iff i j, has_own-put k j v o)

pub put-IsObject : (k : Text) (v : Value) (o : Fields) → IsObject o → IsObject (put k v o)
unfolding put has_own
put-IsObject k v end h = (refl, tt)
put-IsObject k v (field j w o) h =
    ground (arith, put-IsObject k v o h.1, has_own-put k j v o, eq_text_iff j k, eq_text_iff k j)
