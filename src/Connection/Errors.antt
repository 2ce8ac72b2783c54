-- ===== src/Connection/Errors.antt =====
-- src/connection.ts: a chunk that breaks the protocol.
use radix_kv.Prelude.{[], ap, arith, false, none, refl, true, ◌++◌, ◌∙◌, ◌∷◌, ◌≡◌}
use radix_kv.Prelude.Text.{Bytes, Utf8}
use radix_kv.Types.{Exception}
use radix_kv.Result.{err}
use radix_kv.Resp.Parser
use radix_kv.Resp.Parser.{RespParser}
use radix_kv.Commands.Arguments.{UpperCase}
use radix_kv.Commands.Handlers.{Context}
use radix_kv.Connection.{
  Connection, SocketReadings, Turned, after_parse, chunk_turn, cleanup, data_event, destroy,
  destroy_socket, emit, emit_protocol_error, error_written, handle_parsing_error, is_shut, live,
  next_chunk, parse_chunk, react, start_chunk, thrown, write_error,
}
use radix_kv.Connection.Batches.{handle_data_of_idle}

-- The connection after an error has been written.
abbrev pub broken_off : RespParser → Connection → Connection
broken_off broken c = cleanup (record c {
  parser = broken;
  chunks = [];
  batch = none;
  is_closing = true;
  is_destroyed = true;
})

not_destroyed : (c : Connection) → is_shut c ≡ false → c.is_destroyed ≡ false
unfolding is_shut
not_destroyed c h = ground (arith, h)

module _ ⦃u : Utf8⦄ ⦃k : UpperCase⦄ (w : SocketReadings) where
  start_chunk_of_error :
      (broken : RespParser) (chunk : Bytes) (e : Exception) (c : Connection)
      → is_shut c ≡ false
      → w.write_throws ≡ false
      → Parser.execute c.parser chunk ≡ err e
      → start_chunk w broken (record c { chunks = chunk ∷ []; batch = none }) ≡ (
        write_error (thrown e) ∷ emit (emit_protocol_error (thrown e)) c,
        record c { parser = broken; chunks = []; batch = none },
      )
  unfolding start_chunk next_chunk parse_chunk is_shut after_parse handle_parsing_error emit
  start_chunk_of_error broken chunk e c opened writes fails =
      rw (opened, fails) (rw (opened, writes) refl)

  -- A chunk that arrives at an open connection with nothing under way, and on which the parser throws:
  -- once its turn has come and its error is written, one error has gone out and the socket is destroyed;
  -- no command of the chunk is run, not even one in front of the fault.
  pub live_of_error :
      (broken : RespParser) (chunk : Bytes) (e : Exception) (c : Connection) (x : Context)
      → is_shut c ≡ false
      → c.chunks ≡ []
      → c.batch ≡ none
      → w.write_throws ≡ false
      → Parser.execute c.parser chunk ≡ err e
      → live (data_event chunk ∷ (chunk_turn w broken ∷ (error_written ∷ []))) c x ≡ (
        (
          write_error (thrown e)
              ∷ (emit (emit_protocol_error (thrown e)) c ++ (destroy_socket ∷ [])),
          broken_off broken c,
        ),
        x,
      )
  unfolding live react destroy cleanup
  live_of_error broken chunk e c x opened no_chunks idle writes fails =
      let F : Turned → Turned × Context =
        λ t. ((t.0 ++ ((destroy t.1).0 ++ []), (destroy t.1).1), x) in
      ap (λ (c' : Connection). F (start_chunk w broken c'))
        (handle_data_of_idle w chunk c opened no_chunks idle)
      ∙ ap F (start_chunk_of_error broken chunk e c opened writes fails)
      ∙ rw (not_destroyed c opened, destroy) refl
