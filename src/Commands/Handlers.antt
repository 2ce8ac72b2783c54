-- ===== src/Commands/Handlers.antt =====
-- src/command-handler.ts: the handlers and the dispatch. A handler returns its reply, or rejects
-- with a message where the log refuses an entry, beside the engine and the log after it.
use radix_kv.Prelude.{
  List, Option, String, [], false, if◌then◌else◌, list_eq, map, none, some, suc, true, zero, ℕ,
  ◌++◌, ◌∷◌,
}
use radix_kv.Prelude.Int.{negsuc, pos, ℤ}
use radix_kv.Prelude.Text.{Bytes, JsString, Utf8, codes, decode}
use radix_kv.Types.{CommandExecutionResult, RespValue}
use radix_kv.Result.{Result, err, ok}
use radix_kv.Resp.Serializer.{
  bulk_string_bytes, empty_array, error_bytes, integer_bytes, raw_error, static_ok, static_pong,
}
use radix_kv.Storage.Engine.{Readings, StorageEngine, del, get, set_key}
use radix_kv.Storage.Numbers.{incr, ttl}
use radix_kv.Aof.Logger.{AofLogger, log_del, log_incr, log_set}
use radix_kv.Commands.Arguments.{UpperCase, extract_command_arguments, parse_int}

-- `aof` is the optional argument.
pub record Context : Type 0 where
  pub engine : StorageEngine
  pub aof : Option AofLogger

abbrev pub Reply : Type 0
Reply = Result JsString CommandExecutionResult × Context

abbrev pub reply : Bytes → CommandExecutionResult
reply b = record { response = b; should_close = false }

abbrev pub answer : Bytes → Context → Reply
answer b x = (ok (reply b), x)

-- `RespSerializer.error(message)`, whose default prefix is `ERR`.
abbrev pub default_error : ⦃u : Utf8⦄ → String → Bytes
default_error message = error_bytes (codes message) (codes "ERR")

-- What `if (aof) await aof.log…` does.
unfoldable pub with_aof :
    (AofLogger → Result JsString AofLogger) → Option AofLogger → Result JsString (Option AofLogger)
with_aof f none = ok none
with_aof f (some l) = elim (f l) [ ok l' ↦ ok (some l') | err m ↦ err m ]

-- The reply, once the entry is in the log; the engine has changed before.
unfoldable pub logged :
    (AofLogger → Result JsString AofLogger) → StorageEngine → Option AofLogger → Bytes → Reply
logged f e aof response = elim (with_aof f aof) [
  | ok aof' ↦ answer response (record { engine = e; aof = aof' })
  | err m ↦ (err m, record { engine = e; aof = aof })
]

unfoldable pub handle_ping : ⦃u : Utf8⦄ → List Bytes → CommandExecutionResult
handle_ping [] = reply static_pong
handle_ping (a ∷ []) = reply (bulk_string_bytes (some a))
handle_ping _ = reply (default_error "wrong number of arguments for 'ping' command")

unfoldable pub handle_echo : ⦃u : Utf8⦄ → List Bytes → CommandExecutionResult
handle_echo (a ∷ []) = reply (bulk_string_bytes (some a))
handle_echo _ = reply (default_error "wrong number of arguments for 'echo' command")

unfoldable pub handle_quit : ⦃u : Utf8⦄ → List Bytes → CommandExecutionResult
handle_quit [] = record { response = static_ok; should_close = true }
handle_quit _ = reply (default_error "wrong number of arguments for 'quit' command")

-- `isNaN(exSeconds) || exSeconds <= 0`, or the seconds.
unfoldable pub positive : Option ℤ → Option ℕ
positive none = none
positive (some (negsuc n)) = none
positive (some (pos zero)) = none
positive (some (pos (suc n))) = some (suc n)

-- The options of `SET`, which are the arguments from the third on: an error reply, or the expiry.
unfoldable pub set_options : ⦃u : Utf8⦄ → ⦃c : UpperCase⦄ → List Bytes → Result Bytes (Option ℕ)
set_options [] = ok none
set_options ⦃u⦄ ⦃c⦄ (opt ∷ (n ∷ [])) =
    if list_eq (c.to_upper (decode opt)) (codes "EX")
    then elim (positive (parse_int (decode n))) [
      | none ↦ err (raw_error (codes "ERR value is not an integer or out of range"))
      | some s ↦ ok (some s)
    ]
    else err (raw_error (codes "ERR syntax error"))
set_options _ = err (raw_error (codes "ERR syntax error"))

unfoldable pub store : ⦃u : Utf8⦄ → Readings → JsString → Bytes → Option ℕ → Context → Reply
store r key value ex_seconds x =
    logged (log_set key value ex_seconds) (set_key r key value ex_seconds x.engine) x.aof static_ok

unfoldable pub handle_set : ⦃u : Utf8⦄ → ⦃c : UpperCase⦄ → Readings → List Bytes → Context → Reply
handle_set r (key ∷ (value ∷ opts)) x = elim (set_options opts) [
  | err response ↦ answer response x
  | ok ex_seconds ↦ store r (decode key) value ex_seconds x
]
handle_set r _ x = answer (default_error "wrong number of arguments for 'set' command") x

unfoldable pub handle_get : ⦃u : Utf8⦄ → Readings → List Bytes → Context → Reply
handle_get r (key ∷ []) x =
    let (val, e) = get r.now (decode key) x.engine in
    answer (bulk_string_bytes val) (record x { engine = e })
handle_get r _ x = answer (default_error "wrong number of arguments for 'get' command") x

-- Nothing is logged where nothing was deleted.
unfoldable pub deleted : ⦃u : Utf8⦄ → List JsString → Option AofLogger → ℕ × StorageEngine → Reply
deleted keys aof (zero, e) = answer (integer_bytes (pos 0)) (record { engine = e; aof = aof })
deleted keys aof (suc n, e) = logged (log_del keys) e aof (integer_bytes (pos (suc n)))

unfoldable pub handle_del : ⦃u : Utf8⦄ → Readings → List Bytes → Context → Reply
handle_del r [] x = answer (default_error "wrong number of arguments for 'del' command") x
handle_del r (a ∷ args) x =
    let keys = map decode (a ∷ args) in deleted keys x.aof (del r.now keys x.engine)

-- The `catch` answers what the engine throws, and what the log throws.
unfoldable pub incremented :
    ⦃u : Utf8⦄ → JsString → Option AofLogger → Result JsString ℤ × StorageEngine → Reply
incremented key aof (err m, e) = answer (raw_error m) (record { engine = e; aof = aof })
incremented key aof (ok n, e) = elim (with_aof (log_incr key) aof) [
  | ok aof' ↦ answer (integer_bytes n) (record { engine = e; aof = aof' })
  | err m ↦ answer (raw_error m) (record { engine = e; aof = aof })
]

unfoldable pub handle_incr : ⦃u : Utf8⦄ → Readings → List Bytes → Context → Reply
handle_incr r (key ∷ []) x = incremented (decode key) x.aof (incr r (decode key) x.engine)
handle_incr r _ x = answer (default_error "wrong number of arguments for 'incr' command") x

unfoldable pub handle_ttl : ⦃u : Utf8⦄ → Readings → List Bytes → Context → Reply
handle_ttl r (key ∷ []) x =
    let (val, e) = ttl r.now (decode key) x.engine in
    answer (integer_bytes val) (record x { engine = e })
handle_ttl r _ x = answer (default_error "wrong number of arguments for 'ttl' command") x

-- The names of the `switch`.
pub data Command : Type 0 where
  cmd_ping cmd_echo cmd_set cmd_get cmd_del cmd_incr cmd_ttl cmd_quit cmd_command : Command

unfoldable pub command_of : JsString → Option Command
command_of name =
    if list_eq name (codes "PING")
    then some cmd_ping
    else if list_eq name (codes "ECHO")
    then some cmd_echo
    else if list_eq name (codes "SET")
    then some cmd_set
    else if list_eq name (codes "GET")
    then some cmd_get
    else if list_eq name (codes "DEL")
    then some cmd_del
    else if list_eq name (codes "INCR")
    then some cmd_incr
    else if list_eq name (codes "TTL")
    then some cmd_ttl
    else if list_eq name (codes "QUIT")
    then some cmd_quit
    else if list_eq name (codes "COMMAND")
    then some cmd_command
    else none

unfoldable pub dispatch :
    ⦃u : Utf8⦄ → ⦃c : UpperCase⦄ → Readings → Command → List Bytes → Context → Reply
dispatch r cmd_ping args x = (ok (handle_ping args), x)
dispatch r cmd_echo args x = (ok (handle_echo args), x)
dispatch r cmd_set args x = handle_set r args x
dispatch r cmd_get args x = handle_get r args x
dispatch r cmd_del args x = handle_del r args x
dispatch r cmd_incr args x = handle_incr r args x
dispatch r cmd_ttl args x = handle_ttl r args x
dispatch r cmd_quit args x = (ok (handle_quit args), x)
dispatch r cmd_command args x = answer empty_array x

-- The `switch` on the name, with its default.
unfoldable pub run_named :
    ⦃u : Utf8⦄ → ⦃c : UpperCase⦄ → Readings → JsString → List Bytes → Context → Reply
run_named r command_name args x = elim (command_of command_name) [
  | none ↦
      answer (error_bytes (codes "unknown command '" ++ (command_name ++ codes "'")) (codes "ERR"))
        x
  | some k ↦ dispatch r k args x
]

unfoldable pub execute_arguments :
    ⦃u : Utf8⦄ → ⦃c : UpperCase⦄ → Readings → List Bytes → Context → Reply
execute_arguments r [] x = answer (default_error "Operation not permitted or empty command") x
execute_arguments ⦃u⦄ ⦃c⦄ r (name ∷ args) x = run_named r (c.to_upper (decode name)) args x

unfoldable pub execute : ⦃u : Utf8⦄ → ⦃c : UpperCase⦄ → Readings → RespValue → Context → Reply
execute r val x = elim (extract_command_arguments val) [
  | none ↦ answer (default_error "Operation not permitted or empty command") x
  | some args ↦ execute_arguments r args x
]
