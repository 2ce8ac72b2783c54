-- ===== src/Resp/Parser/Ended.antt =====
-- src/resp-parser.ts: the loop of `execute` ends by itself.
use radix_kv.Prelude.{
  List, [], arith, length, none, refl, some, subst, suc, zero, ℕ, ◌+◌, ◌<◌, ◌≡◌, ◌≤◌,
}
use radix_kv.Prelude.Text.{Bytes, Utf8}
use radix_kv.Types.{Exception, ParserOptions, RespValue}
use radix_kv.Result.{Result, err, ok}
use radix_kv.ByteBuffer.{readable_bytes}
use radix_kv.ByteBuffer.Window.{IsValid}
use radix_kv.Resp.Parser.{RespParser, Turn, execute}
use radix_kv.Resp.Parser.Machine.{
  Machine, Run, Shorter, and_then, emit_first, fed, spec_loop, spec_run, spec_turn,
  spec_turn-Shorter,
}
use radix_kv.Resp.Parser.Refine.{Executed, execute-Executed, view}

-- A run of the specification with no fuel: it turns until a turn waits for more input, or throws.
pub data Runs ⦃u : Utf8⦄ (o : ParserOptions) : Machine → Run → Type 0 where
  waits : {m : Machine} → spec_turn o m ≡ ok none → Runs o m (ok ([], m))
  throws : {m : Machine} (e : Exception) → spec_turn o m ≡ err e → Runs o m (err e)
  turns :
      {m : Machine} (m' : Machine) (out : List RespValue) {r : Run}
      → spec_turn o m ≡ ok (some (m', out))
      → Runs o m' r
      → Runs o m (emit_first out r)

module _ ⦃u : Utf8⦄ (o : ParserOptions) where
  spec_loop-Runs : (fuel : ℕ) (m : Machine) → length m.input < fuel → Runs o m (spec_loop o fuel m)
  unfolding spec_loop
  spec_loop-Runs zero m h = absurd (omega arith)
  spec_loop-Runs (suc fuel) m h =
      by_turn (spec_turn o m) refl (spec_turn-Shorter o m)
        (λ m' s. spec_loop-Runs fuel m' (omega arith))
    where
      by_turn :
          (t : Turn Machine)
          → spec_turn o m ≡ t
          → Shorter m t
          → ((m' : Machine)
              → length m'.input + 2 ≤ length m.input
              → Runs o m' (spec_loop o fuel m'))
          → Runs o m (and_then m t (spec_loop o fuel))
      by_turn (err e) q s ih = Runs.throws e q
      by_turn (ok none) q s ih = Runs.waits q
      by_turn (ok (some (m', out))) q s ih = Runs.turns m' out q (ih m' s)

  spec_run-Runs : (m : Machine) → Runs o m (spec_run o m)
  unfolding spec_run
  spec_run-Runs m = spec_loop-Runs (length m.input + 1) m (omega arith)

module _ ⦃u : Utf8⦄ where
  -- What `execute` returns on a chunk, beside the run on all unread bytes: its error; or its values, and a
  -- parser that stands where it waits.
  abbrev pub RunsTo : RespParser → Bytes → Result Exception (List RespValue × RespParser) → Type 0
  RunsTo p chunk (err e) = Runs p.options (fed (view p) chunk) (err e)
  RunsTo p chunk (ok (vals, p')) =
      Runs p.options (fed (view p) chunk) (ok (vals, view p'))
      × IsValid p'.buffer
      × (p'.options ≡ p.options)
      × (p'.total_bytes_processed ≡ p.total_bytes_processed + length chunk)
      × (p'.buffer.max_capacity ≡ p.buffer.max_capacity)

  Executed-RunsTo :
      (p : RespParser) (chunk : Bytes) (r : Result Exception (List RespValue × RespParser))
      → Executed p chunk r
      → RunsTo p chunk r
  Executed-RunsTo p chunk (err e) h =
      subst (Runs p.options (fed (view p) chunk)) h (spec_run-Runs p.options (fed (view p) chunk))
  Executed-RunsTo p chunk (ok (vals, p')) (run, v, o, t, l) = (
    subst (Runs p.options (fed (view p) chunk)) run (spec_run-Runs p.options (fed (view p) chunk)),
    v,
    o,
    t,
    l,
  )

  -- While the unread bytes fit into the buffer, `execute` does what the specification does on the unread
  -- bytes with the chunk behind them, whose runs have no fuel and end only in a turn that waits for more
  -- input or throws: it returns such a run's values and stands where that run waits, in a valid buffer with
  -- the chunk's bytes counted, or throws the same error.
  pub execute-RunsTo :
      (p : RespParser) (chunk : Bytes)
      → IsValid p.buffer
      → readable_bytes p.buffer + length chunk ≤ p.buffer.max_capacity
      → RunsTo p chunk (execute p chunk)
  execute-RunsTo p chunk v fits =
      Executed-RunsTo p chunk (execute p chunk) (execute-Executed p chunk v fits)
