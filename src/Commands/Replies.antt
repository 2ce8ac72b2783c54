-- ===== src/Commands/Replies.antt =====
-- src/command-handler.ts: a stored value is logged as its command, and comes back.
use radix_kv.Prelude.{
  All, List, Option, [], ap, arith, false, length, list_eq, map, none, refl, some, ◌++◌, ◌+◌, ◌∙◌,
  ◌∷◌, ◌≡◌,
}
use radix_kv.Prelude.Text.{Bytes, IsAscii, JsString, Utf8, codes, decode, decode-ascii, encode}
use radix_kv.Result.{Result, err, ok}
use radix_kv.Resp.Serializer.{bulk_string_bytes, serialize, static_ok}
use radix_kv.Storage.Engine.{Readings, StorageEngine, set_key}
use radix_kv.Storage.Lookups.{Unlimited, get-set_key, kept_until}
use radix_kv.Aof.Logger.{AofLogger, enqueue_write, log_set}
use radix_kv.Aof.Entries.{command_value, set_entry-serialize}
use radix_kv.Commands.Arguments.{UpperCase, upper_ascii}
use radix_kv.Commands.Handlers.{
  Context, Reply, answer, command_of, dispatch, execute_arguments, handle_get, handle_set, logged,
  reply, run_named, set_options, store, with_aof,
}

logged-open :
    (f : AofLogger → Result JsString AofLogger) (e : StorageEngine) (l l' : AofLogger) (b : Bytes)
    → f l ≡ ok l'
    → logged f e (some l) b ≡ answer b (record { engine = e; aof = some l' })
unfolding logged with_aof
logged-open f e l l' b h =
    ap
      (λ (q : Result JsString AofLogger).
        elim (elim q as (λ _. Result JsString (Option AofLogger)) [
          | ok l' ↦ ok (some l')
          | err m ↦ err m
        ])
          as (λ _. Reply) [
            | ok aof' ↦ answer b (record { engine = e; aof = aof' })
            | err m ↦ (err m, record { engine = e; aof = some l })
          ])
      h

module _ ⦃u : Utf8⦄ ⦃c : UpperCase⦄ where
  -- A name in ASCII is decoded and put into upper case letter by letter.
  pub upper_name : (s : JsString) → All IsAscii s → c.to_upper (decode s) ≡ map upper_ascii s
  upper_name s h = ap c.to_upper (decode-ascii s h) ∙ c.to_upper-ascii s h

  pub execute_set :
      (r : Readings) (args : List Bytes) (x : Context)
      → execute_arguments r (codes "SET" ∷ args) x ≡ handle_set r args x
  unfolding execute_arguments run_named command_of dispatch list_eq
  execute_set r args x =
      ap (λ name. run_named r name args x) (upper_name (codes "SET") (omega arith))

  pub execute_get :
      (r : Readings) (args : List Bytes) (x : Context)
      → execute_arguments r (codes "get" ∷ args) x ≡ handle_get r args x
  unfolding execute_arguments run_named command_of dispatch list_eq
  execute_get r args x =
      ap (λ name. run_named r name args x) (upper_name (codes "get") (omega arith))

  -- The log behind an open log's entry for `SET key value`: the command, serialized.
  abbrev pub with_set_entry : JsString → Bytes → AofLogger → AofLogger
  with_set_entry key value l =
      let entry = serialize (command_value (codes "SET" ∷ (encode key ∷ (value ∷ [])))) in
      record l {
        write_queue = l.write_queue ++ (entry ∷ []);
        dirty_bytes = l.dirty_bytes + length entry;
      }

  log_set-open :
      (key : JsString) (value : Bytes) (l : AofLogger)
      → l.is_closed ≡ false
      → log_set key value none l ≡ ok (with_set_entry key value l)
  unfolding log_set enqueue_write
  log_set-open key value l h = rw (h, set_entry-serialize (encode key) value) refl

  -- With an open log, `SET key value` replies `OK`, stores the value without an expiry, and appends
  -- the serialized form of the command to the log.
  pub execute_arguments-set_key :
      (r : Readings) (key value : Bytes) (x : Context) (l : AofLogger)
      → x.aof ≡ some l
      → l.is_closed ≡ false
      → execute_arguments r (codes "SET" ∷ (key ∷ (value ∷ []))) x
        ≡ answer static_ok (record {
          engine = set_key r (decode key) value none x.engine;
          aof = some (with_set_entry (decode key) value l);
        })
  unfolding handle_set set_options store logged with_aof
  execute_arguments-set_key r key value x l h open_log =
      execute_set r (key ∷ (value ∷ [])) x
      ∙ rw h (
          logged-open (log_set (decode key) value none) _ l _ static_ok
            (log_set-open (decode key) value l open_log))

  -- Without limits and with an open log, a client that sends `get key` behind `SET key value` is sent the value.
  pub execute_arguments-get :
      (r r' : Readings) (key value : Bytes) (x : Context) (l : AofLogger)
      → x.aof ≡ some l
      → l.is_closed ≡ false
      → Unlimited x.engine
      → (execute_arguments r'
          (codes "get" ∷ (key ∷ []))
          (execute_arguments r (codes "SET" ∷ (key ∷ (value ∷ []))) x).1).0
        ≡ ok (reply (bulk_string_bytes (some value)))
  unfolding handle_get kept_until
  execute_arguments-get r r' key value x l h open_log free =
      ap (λ (q : Reply). (execute_arguments r' (codes "get" ∷ (key ∷ [])) q.1).0)
        (execute_arguments-set_key r key value x l h open_log)
      ∙ ap (λ (q : Reply). q.0) (execute_get r' (key ∷ []) _)
      ∙ ap (λ v. ok (reply (bulk_string_bytes v)))
          ((get-set_key r (decode key) value none x.engine free).0 r'.now)
