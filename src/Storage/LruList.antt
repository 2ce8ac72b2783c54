-- ===== src/Storage/LruList.antt =====
-- src/lru-list.ts, as a list: the keys of the linked nodes from the head, the most recently used, to
-- the tail. A node is named by its key, since the engine links one node for each key. The sentinels
-- and the pointers are not modelled.
use radix_kv.Prelude.{
  Bool, List, Option, [], false, if◌then◌else◌, list_eq, none, some, take, ℕ, ◌∷◌,
}
use radix_kv.Prelude.Text.{JsString}

abbrev pub LruList : Type 0
LruList = List JsString

unfoldable pub push_front : JsString → LruList → LruList
push_front key l = key ∷ l

-- `remove` and `unlink`: a node that is not linked stays so.
unfoldable pub remove : JsString → LruList → LruList
remove key [] = []
remove key (x ∷ l) = let rest = remove key l in if list_eq x key then l else x ∷ rest

-- `node.prev === this.head`
unfoldable pub is_front : JsString → LruList → Bool
is_front key [] = false
is_front key (x ∷ l) = list_eq x key

unfoldable pub move_to_front : JsString → LruList → LruList
move_to_front key l = if is_front key l then l else push_front key (remove key l)

-- The tail's key and the list without it.
unfoldable pub pop_tail : LruList → Option (JsString × LruList)
pop_tail [] = none
pop_tail (x ∷ []) = some (x, [])
pop_tail (x ∷ (y ∷ l)) = elim (pop_tail (y ∷ l)) [
  | none ↦ none
  | some (key, rest) ↦ some (key, x ∷ rest)
]

unfoldable pub reversed_onto : LruList → LruList → LruList
reversed_onto [] acc = acc
reversed_onto (x ∷ l) acc = reversed_onto l (x ∷ acc)

-- `getTailNodes`: from the tail on.
unfoldable pub get_tail_nodes : ℕ → LruList → LruList
get_tail_nodes max_count l = take max_count (reversed_onto l [])
