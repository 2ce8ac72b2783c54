-- ===== src/Storage/Lookups.antt =====
-- src/storage-engine.ts: what `get` returns after the other operations.
use radix_kv.Prelude.{
  Bool, Bool-cases, Option, Option-cases, ap, arith, false, if◌then◌else◌, inl, inr, ltb, none,
  refl, some, suc, sym, zero, ℕ, ◌*◌, ◌+◌, ◌-◌, ◌∙◌, ◌≡◌, ◌≢◌,
}
use radix_kv.Prelude.Text.{Bytes, JsString}
use radix_kv.Prelude.Maps.{insert, lookup, lookup-insert, lookup-insert_other}
use radix_kv.Storage.Engine.{
  LruNode, Readings, StorageEngine, check_memory_and_evict, count_op, evict_default, evict_while,
  expiry_of, get, get_node, is_expired, over_keys, over_memory, put, set_existing, set_key, set_new,
}

-- What a client may see of a key: the value of a node that has not expired.
abbrev pub live : ℕ → Option LruNode → Option Bytes
live now none = none
live now (some node) = if is_expired now node then none else some node.value

get-live :
    (now : ℕ) (key : JsString) (e : StorageEngine)
    → (get now key e).0 ≡ live now (lookup e.entries key)
unfolding get get_node
get-live now key e = elim (Option-cases (lookup e.entries key)) [
  | inl q ↦ rw (q, get) refl
  | inr (node, q) ↦ elim (Bool-cases (is_expired now node)) [
    | inl late ↦ rw (q, get) (rw late refl)
    | inr fresh ↦ rw (q, get) (rw fresh refl)
  ]
]

-- Neither limit is set.
abbrev pub Unlimited : StorageEngine → Type 0
Unlimited e = (e.options.max_keys ≡ 0) × (e.options.max_memory_bytes ≡ 0)

evict_while_idle :
    (over : ℕ → StorageEngine → Bool) (left evicted : ℕ) (e : StorageEngine)
    → over evicted e ≡ false
    → evict_while over left evicted e ≡ (evicted, e)
unfolding evict_while
evict_while_idle over zero evicted e h = refl
evict_while_idle over (suc left) evicted e h = rw (h, evict_while) refl

evict_default_idle : (heap : ℕ → ℕ) (e : StorageEngine) → Unlimited e → evict_default heap e ≡ e
unfolding check_memory_and_evict over_keys over_memory
evict_default_idle heap e h =
    ap (λ (w : ℕ × StorageEngine). (evict_while (over_memory heap) (100 - w.0) w.0 w.1).1)
      (evict_while_idle over_keys 100 0 e (unfold over_keys in ground (arith, h)))
    ∙ ap (λ (w : ℕ × StorageEngine). w.1)
        (evict_while_idle (over_memory heap) (100 - 0) 0 e
          (unfold over_memory in ground (arith, h)))

put-entries :
    (r : Readings) (key : JsString) (node : LruNode) (e : StorageEngine)
    → Unlimited e
    → ((put r key node e).entries ≡ insert e.entries key node)
      × ((put r key node e).options ≡ e.options)
unfolding put set_existing set_new
put-entries r key node e h = elim (Option-cases (lookup e.entries key)) [
  | inr (old, q) ↦ rw (q, put) (refl, refl)
  | inl q ↦ rw (q, put) (rw (evict_default_idle r.heap_before e h) (refl, refl))
]

-- What is left at `now` of a value that was stored at `written` for so many seconds: a value stored
-- for none, or for zero of them, stays.
unfoldable pub kept_until : (written : ℕ) → Option ℕ → Bytes → (now : ℕ) → Option Bytes
kept_until written none value now = some value
kept_until written (some zero) value now = some value
kept_until written (some (suc s)) value now =
    if ltb now (written + 1000 * suc s) then some value else none

live-expiry_of :
    (written : ℕ) (ex_seconds : Option ℕ) (value : Bytes) (now : ℕ)
    → live now (some (record { value = value; expires_at = expiry_of written ex_seconds }))
      ≡ kept_until written ex_seconds value now
unfolding is_expired expiry_of kept_until
live-expiry_of written none value now = refl
live-expiry_of written (some zero) value now = refl
live-expiry_of written (some (suc s)) value now = ground arith

-- Without limits, what `get` returns after `set`: under the key the value, until its seconds have
-- passed, and under any other key what it returned before.
pub get-set_key :
    (r : Readings) (key : JsString) (value : Bytes) (ex_seconds : Option ℕ) (e : StorageEngine)
    → Unlimited e
    → ((now : ℕ)
        → (get now key (set_key r key value ex_seconds e)).0
          ≡ kept_until r.now ex_seconds value now)
      × ((now : ℕ) (other : JsString)
          → key ≢ other
          → (get now other (set_key r key value ex_seconds e)).0 ≡ (get now other e).0)
unfolding set_key count_op
get-set_key r key value ex_seconds e h =
    let node : LruNode = record { value = value; expires_at = expiry_of r.now ex_seconds } in
    let (stored, same) = put-entries r key node (count_op e) h in
    let idle = evict_default_idle r.heap_after (put r key node (count_op e)) (rw same h) in
    let all = ap (λ (x : StorageEngine). x.entries) idle ∙ stored in
    (
      λ now.
          get-live now key _
          ∙ ap (λ m. live now (lookup m key)) all
          ∙ ap (live now) (lookup-insert e.entries key node)
          ∙ live-expiry_of r.now ex_seconds value now,
      λ now other ne.
          get-live now other _
          ∙ ap (λ m. live now (lookup m other)) all
          ∙ ap (live now) (lookup-insert_other e.entries key other node ne)
          ∙ sym (get-live now other e),
    )
