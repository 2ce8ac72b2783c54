-- ===== src/Aof/Logger.antt =====
-- src/aof-logger.ts: the entries of the log, and the queue of what is written. The queue holds
-- all that was enqueued, in order: the file, its flushes and their errors are not modelled.
use radix_kv.Prelude.{
  Bool, List, Option, [], if◌then◌else◌, length, none, some, suc, zero, ℕ, ◌++◌, ◌+◌, ◌∷◌,
}
use radix_kv.Prelude.Text.{Bytes, JsString, Utf8, codes, encode}
use radix_kv.Result.{Result, err, ok}
use radix_kv.Resp.Decimal.{print_nat}
use radix_kv.Resp.Serializer.{crlf}

pub record AofLogger : Type 0 where
  pub is_closed : Bool
  pub write_queue : List Bytes
  pub dirty_bytes : ℕ

-- The message of the `Error` that a closed logger throws.
abbrev pub logger_is_closed : JsString
logger_is_closed = codes "AofLogger is closed"

unfoldable pub enqueue_write : Bytes → AofLogger → Result JsString AofLogger
enqueue_write buffer l =
    if l.is_closed
    then err logger_is_closed
    else ok (record l {
      write_queue = l.write_queue ++ (buffer ∷ []);
      dirty_bytes = l.dirty_bytes + length buffer;
    })

-- `$<length>`, a line.
unfoldable pub length_line : ⦃u : Utf8⦄ → ℕ → Bytes
length_line n = encode (b'$' ∷ (print_nat n ++ crlf))

-- The entry of `SET` with an expiry.
unfoldable pub set_ex_entry : ⦃u : Utf8⦄ → Bytes → Bytes → Bytes → Bytes
set_ex_entry key_buf value ex_buf =
    encode (
      codes "*5"
      ++ (crlf
          ++ (codes "$3"
              ++ (crlf
                  ++ (codes "SET" ++ (crlf ++ (b'$' ∷ (print_nat (length key_buf) ++ crlf))))))))
    ++ (key_buf
        ++ (encode (crlf ++ (b'$' ∷ (print_nat (length value) ++ crlf)))
            ++ (value
                ++ (encode (
                      crlf
                      ++ (codes "$2"
                          ++ (crlf
                              ++ (codes "EX"
                                  ++ (crlf ++ (b'$' ∷ (print_nat (length ex_buf) ++ crlf)))))))
                    ++ (ex_buf ++ encode crlf)))))

-- The entry of `SET` without one.
unfoldable pub set_entry : ⦃u : Utf8⦄ → Bytes → Bytes → Bytes
set_entry key_buf value =
    encode (
      codes "*3"
      ++ (crlf
          ++ (codes "$3"
              ++ (crlf
                  ++ (codes "SET" ++ (crlf ++ (b'$' ∷ (print_nat (length key_buf) ++ crlf))))))))
    ++ (key_buf
        ++ (encode (crlf ++ (b'$' ∷ (print_nat (length value) ++ crlf))) ++ (value ++ encode crlf)))

unfoldable pub log_set :
    ⦃u : Utf8⦄ → JsString → Bytes → Option ℕ → AofLogger → Result JsString AofLogger
log_set key value none l = enqueue_write (set_entry (encode key) value) l
log_set key value (some zero) l = enqueue_write (set_entry (encode key) value) l
log_set key value (some (suc s)) l =
    enqueue_write (set_ex_entry (encode key) value (encode (print_nat (suc s)))) l

-- The parts of one key in the entry of `DEL`.
unfoldable pub del_key_parts : ⦃u : Utf8⦄ → Bytes → Bytes
del_key_parts key_buf = length_line (length key_buf) ++ (key_buf ++ encode crlf)

unfoldable pub del_parts : ⦃u : Utf8⦄ → List JsString → Bytes
del_parts [] = []
del_parts (key ∷ keys) = del_key_parts (encode key) ++ del_parts keys

unfoldable pub del_entry : ⦃u : Utf8⦄ → List JsString → Bytes
del_entry keys =
    encode (
      b'*'
      ∷ (print_nat (length keys + 1) ++ (crlf ++ (codes "$3" ++ (crlf ++ (codes "DEL" ++ crlf))))))
    ++ del_parts keys

unfoldable pub log_del : ⦃u : Utf8⦄ → List JsString → AofLogger → Result JsString AofLogger
log_del [] l = ok l
log_del (key ∷ keys) l = enqueue_write (del_entry (key ∷ keys)) l

unfoldable pub incr_entry : ⦃u : Utf8⦄ → Bytes → Bytes
incr_entry key_buf =
    encode (
      codes "*2"
      ++ (crlf
          ++ (codes "$4"
              ++ (crlf
                  ++ (codes "INCR" ++ (crlf ++ (b'$' ∷ (print_nat (length key_buf) ++ crlf))))))))
    ++ (key_buf ++ encode crlf)

unfoldable pub log_incr : ⦃u : Utf8⦄ → JsString → AofLogger → Result JsString AofLogger
log_incr key l = enqueue_write (incr_entry (encode key)) l
