-- ===== src/Convert/Loop.antt =====
-- The loop over `Object.keys(ins)` that both `transform`s share. Its index is a variable of the
-- whole function, which the body may change.
use pymaid.Prelude.{
  ℕ, zero, suc, ◌+◌, List, none, some, Text, get_elem?, if◌then◌else◌, Result, ok, unfinished,
  ◌>>=◌,
}
use pymaid.Js.{Value, Items, nil, cons, Fields, has_own}

-- `body attr idx ins` is the object and the index that the body leaves behind.
unfoldable pub loop :
    (Text → ℕ → Fields → Result (Fields × ℕ)) → ℕ → List Text → ℕ → Fields → Result Fields
loop body zero attrs idx ins = unfinished
loop body (suc fuel) attrs idx ins = elim (get_elem? attrs idx) [
  | none ↦ ok ins
  | some attr ↦
      let visited = body attr idx ins >>= λ next. loop body fuel attrs (next.1 + 1) next.0 in
      let skipped = loop body fuel attrs (idx + 1) ins in
      if has_own attr ins then visited else skipped
]

-- `xs.map(f)`
unfoldable pub map_items : (Value → Result Value) → Items → Result Items
map_items f nil = ok nil
map_items f (cons x xs) = do y ← f x; ys ← map_items f xs; ok (cons y ys)
