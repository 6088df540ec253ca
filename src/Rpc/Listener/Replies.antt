-- ===== src/Rpc/Listener/Replies.antt =====
-- What the listener answers.
use native.Mathlib.Nat.{suc-add}
use pymaid.Prelude.{
  ◌+◌, ◌≢◌, length, drop, take-append, ◌≡◌, refl, false, List, [], ◌∷◌, ◌++◌, Text, eq_text,
  eq_text_iff, none, some, throw, type_error, arith, if◌then◌else◌, Bool-cases, inl, inr,
}
use pymaid.Js.{Value, is_truthy}
use pymaid.Api.{same_type, void_type, plain}
use pymaid.Rpc.Env.{Env, Method}
use pymaid.Rpc.Listener.{
  Impl, Listener, Content, find, insert, register, reply, last_dot, split_service_method,
}

-- A listener hands an implementation the plain object that `unpack` made of the context. The reply to
-- a request whose response is no Void then throws a TypeError, whatever it answers, and sends nothing.
pub reply_throws :
    (env : Env) (method : Method env.jspb.Message) (service_method : Text) (context err : Value)
    (answer : Content env)
    → same_type method.output_type (void_type env.jspb) ≡ false
    → reply env method service_method (plain context) err answer ≡ throw type_error
unfolding reply
reply_throws env method service_method context err answer h =
    rw h (elim (Bool-cases (is_truthy err)) [ inl e ↦ rw e | inr e ↦ rw e ])

find-insert {ℓ} :
    {A : Type ℓ} (k i : Text) (a : A) (t : List (Text × A))
    → find i (insert k a t) ≡ (if eq_text k i then some a else find i t)
unfolding find insert
find-insert k i a [] = refl
find-insert k i a ((x, b) ∷ t) =
    ground (arith, eq_text_iff k i, eq_text_iff x k, eq_text_iff x i, find-insert k i a t)

-- After `register` an implementation is found under its name and under the name with a dot in front,
-- and the services with other names are found as before.
pub find-register :
    {M : Type 0} (impl : Impl M) (l : Listener M) (service : Text)
    → find service (register impl l).implementations ≡ (
        if eq_text impl.name service
        then some impl
        else if eq_text (46 ∷ impl.name) service
        then some impl
        else find service l.implementations)
unfolding register
find-register impl l service = rw (
  find-insert impl.name service impl (insert (46 ∷ impl.name) impl l.implementations),
  find-insert (46 ∷ impl.name) service impl l.implementations,
)

-- A name with no dot in it.
abbrev pub HasNoDot : Text → Type 0
HasNoDot [] = Unit
HasNoDot (c ∷ s) = (c ≢ b'.') × HasNoDot s

last_dot_of_HasNoDot : (m : Text) → HasNoDot m → last_dot m ≡ none
unfolding last_dot
last_dot_of_HasNoDot [] h = refl
last_dot_of_HasNoDot (c ∷ m) h = rw (last_dot_of_HasNoDot m h.1, last_dot) (ground arith)

last_dot-join : (s m : Text) → HasNoDot m → last_dot (s ++ b'.' ∷ m) ≡ some (length s)
unfolding last_dot
last_dot-join [] m h = rw (last_dot_of_HasNoDot m h, last_dot) refl
last_dot-join (c ∷ s) m h = rw (last_dot-join s m h, last_dot) refl

-- What a stub joins by a dot, a service's name and a method's name with no dot, the listener takes
-- apart again, also where the service's name has dots of its own.
pub split-join :
    (service method : Text)
    → HasNoDot method
    → split_service_method (service ++ b'.' ∷ method) ≡ (service, method)
unfolding split_service_method
split-join s m h =
    let behind : drop (length s + 1) (s ++ b'.' ∷ m) ≡ m = drop-next s m in
    rw (last_dot-join s m h, take-append s (b'.' ∷ m), behind)
  where
    drop-next : (s m : Text) → drop (length s + 1) (s ++ b'.' ∷ m) ≡ m
    drop-next [] m = refl
    drop-next (c ∷ s) m = rw (suc-add (length s) 1) (drop-next s m)
