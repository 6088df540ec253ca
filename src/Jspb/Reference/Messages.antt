-- ===== src/Jspb/Reference/Messages.antt =====
-- Messages as the record of what was set, the latest first.
use pymaid.Prelude.{ℕ, Option, none, some, ◌==◌, if◌then◌else◌}
use pymaid.Js.{Value, undefined}

mutual
  pub data Tree : Type 0 where
    bare : Tree
    with_value : ℕ → Value → Tree → Tree
    with_wrapper : ℕ → Tree → Tree → Tree
    without_wrapper : ℕ → Tree → Tree
    with_map : ℕ → Leaves → Tree → Tree

  pub data Leaves : Type 0 where
    bud : Leaves
    leaf : ℕ → Tree → Leaves → Leaves

abbrev pub stored : Tree → ℕ → Value
stored bare k = undefined
stored (with_value n v m) k = if n == k then v else stored m k
stored (with_wrapper n w m) k = stored m k
stored (without_wrapper n m) k = stored m k
stored (with_map n l m) k = stored m k

abbrev pub wrapper : Tree → ℕ → Option Tree
wrapper bare k = none
wrapper (with_value n v m) k = wrapper m k
wrapper (with_wrapper n w m) k = if n == k then some w else wrapper m k
wrapper (without_wrapper n m) k = if n == k then none else wrapper m k
wrapper (with_map n l m) k = wrapper m k

abbrev pub leaves : Tree → ℕ → Leaves
leaves bare k = bud
leaves (with_value n v m) k = leaves m k
leaves (with_wrapper n w m) k = leaves m k
leaves (without_wrapper n m) k = leaves m k
leaves (with_map n l m) k = if n == k then l else leaves m k
