-- ===== src/Connection/Tests.antt =====
-- src/connection.ts: runs and instances.
use radix_kv.Prelude.{All, list_eq, List, [], false, map, none, refl, true, ◌++◌, ◌∷◌, ◌≡◌}
use radix_kv.Prelude.Text.{Bytes, codes}
use radix_kv.Prelude.Ascii.{ascii_codec}
use radix_kv.Types.{protocol_error, simple_string, unknown_prefix}
use radix_kv.Result.{ok, err}
use radix_kv.ByteBuffer.{
  alloc, check_auto_reset, compact, find_crlf, grow, is_byte, make_room, put_chunk,
  read_line_at_crlf, scan_crlf,
}
use radix_kv.ByteBuffer
use radix_kv.Resp.Parser.{
  RespParser, apply_header, complete_value, emit_completed, feed, header_turn, line_turn, loop,
  parse_header, turn,
}
use radix_kv.Resp.Parser
use radix_kv.Storage.Engine.{Readings, new_engine}
use radix_kv.Commands.Handlers
use radix_kv.Storage.BigInt.{is_space, keep_inner, trim, trim_end, trim_start}
use radix_kv.Commands.Arguments.{
  add_char, extract_command_arguments, split_spaces, starts_with_space, UpperCase, upper_ascii,
}
use radix_kv.Commands.Handlers.{Context, command_of, execute_arguments, run_named}
use radix_kv.Connection.{
  graceful_close, handle_end, after_command, after_parse, finish_batch, handle_data, next_chunk,
  parse_chunk, run_values, start_chunk, write, Connection, Event, SocketReadings, chunk_turn,
  command_turn, data_event, destroy_call, destroy_socket, emit, emit_protocol_error, end_event,
  error_written, is_shut, live, new_connection, react, run_command, thrown, write_error,
}
use radix_kv.Connection.Silence.{asks_socket, live-silent}
use radix_kv.Connection.Phases.{after_effect, opened, run_phase, Taken, is_ended}
use radix_kv.Connection.Taken.{AllPatient, live-Taken}
use radix_kv.Connection.Batches.{answers, turns_of}
use radix_kv.Connection.Answers.{live-answers, outcome}
use radix_kv.Connection.Errors.{broken_off, live_of_error}

instance abbrev ascii_case : UpperCase
ascii_case = record { to_upper = λ s. map upper_ascii s; to_upper-ascii = λ s h. refl }

abbrev readings : Readings
readings = record { now = 5000; heap_before = λ i. 0; heap_after = λ i. 0 }

abbrev socket : SocketReadings
socket = record { is_socket_destroyed = false; can_accept_more = true; write_throws = false }

abbrev fresh_parser : RespParser
fresh_parser = record {
  buffer = record { buffer = alloc 8; read_offset = 0; write_offset = 0; max_capacity = 64 };
  options = record {
    max_inline_length = 16;
    max_bulk_length = 20;
    max_array_depth = 2;
    initial_buffer_size = 8;
    max_buffer_size = 64;
  };
  array_stack = [];
  pending_bulk_length = none;
  total_bytes_processed = 0;
  last_completed_offset = 0;
}

abbrev context : Context
context = record {
  engine = new_engine (record {
    max_memory_bytes = 0;
    max_keys = 0;
    ttl_sample_size = 20;
    ttl_sweep_max_time_ms = 5;
  });
  aof = none;
}

-- `+a` and `!a`, each with its CRLF. The second is no value.
abbrev good_chunk : Bytes
good_chunk = 43 ∷ (97 ∷ (13 ∷ (10 ∷ [])))

abbrev bad_chunk : Bytes
bad_chunk = 33 ∷ (97 ∷ (13 ∷ (10 ∷ [])))

-- The end of the client comes behind the command, whose reply is the last that goes out.
abbrev script : List Event
script =
    data_event good_chunk
    ∷ (chunk_turn socket fresh_parser
        ∷ (command_turn socket readings ∷ (end_event ∷ (destroy_call ∷ []))))

script-AllPatient : AllPatient script (new_connection fresh_parser) context
unfolding react new_connection handle_data start_chunk next_chunk parse_chunk is_shut after_parse
    run_command run_values after_command finish_batch write Handlers.execute
    extract_command_arguments split_spaces starts_with_space add_char trim trim_start trim_end
    keep_inner is_space execute_arguments run_named command_of list_eq Parser.execute feed loop turn
    header_turn line_turn parse_header apply_header complete_value emit_completed ByteBuffer.append
    make_room grow compact ByteBuffer.capacity put_chunk check_auto_reset find_crlf scan_crlf
    is_byte read_line_at_crlf
script-AllPatient = (tt, (tt, (tt, (refl, (tt, tt)))))

-- With the end of the client in front of the command, the reply is asked for behind the end of the socket,
-- which does not take it.
abbrev hasty_script : List Event
hasty_script =
    data_event good_chunk
    ∷ (chunk_turn socket fresh_parser ∷ (end_event ∷ (command_turn socket readings ∷ [])))

hasty_reply : run_phase opened (live hasty_script (new_connection fresh_parser) context).0.0 ≡ none
unfolding live handle_end graceful_close run_phase after_effect react new_connection handle_data
    start_chunk next_chunk parse_chunk is_shut after_parse run_command run_values after_command
    finish_batch write Handlers.execute extract_command_arguments split_spaces starts_with_space
    add_char trim trim_start trim_end keep_inner is_space execute_arguments run_named command_of
    list_eq Parser.execute feed loop turn header_turn line_turn parse_header apply_header
    complete_value emit_completed ByteBuffer.append make_room grow compact ByteBuffer.capacity
    put_chunk check_auto_reset find_crlf scan_crlf is_byte read_line_at_crlf
hasty_reply = refl

live-Taken_example :
    Taken (new_connection fresh_parser) (live script (new_connection fresh_parser) context).0
unfolding is_ended new_connection
live-Taken_example = live-Taken script (new_connection fresh_parser) context refl script-AllPatient

abbrev destroyed : Connection
destroyed = record (new_connection fresh_parser) { is_destroyed = true }

live-silent_example :
    All (λ e. asks_socket e ≡ false) (live script destroyed context).0.0
    × ((live script destroyed context).0.1.is_destroyed ≡ true)
live-silent_example = live-silent script destroyed context refl

abbrev after_good : RespParser
after_good = record fresh_parser {
  buffer = record fresh_parser.buffer { buffer = good_chunk ++ alloc 4 };
  total_bytes_processed = 4;
  last_completed_offset = 4;
}

good_chunk_parsed :
    Parser.execute fresh_parser good_chunk ≡ ok (simple_string (codes "a") ∷ [], after_good)
unfolding Parser.execute feed loop turn header_turn line_turn parse_header apply_header
    complete_value emit_completed ByteBuffer.append make_room grow compact ByteBuffer.capacity
    put_chunk check_auto_reset find_crlf scan_crlf is_byte read_line_at_crlf
good_chunk_parsed = refl

bad_chunk_parsed : Parser.execute fresh_parser bad_chunk ≡ err (protocol_error unknown_prefix)
unfolding Parser.execute feed loop turn header_turn line_turn parse_header apply_header
    complete_value emit_completed ByteBuffer.append make_room grow compact ByteBuffer.capacity
    put_chunk check_auto_reset find_crlf scan_crlf is_byte read_line_at_crlf
bad_chunk_parsed = refl

-- `+a` is no command, to which the handler replies with an error.
live-answers_example :
    let (replies, x) = answers ((readings, simple_string (codes "a")) ∷ []) context in
    live
      (data_event good_chunk
        ∷ (chunk_turn socket fresh_parser
            ∷ turns_of socket ((readings, simple_string (codes "a")) ∷ [])))
      (new_connection fresh_parser)
      context
    ≡ (
      outcome socket replies
          (record (new_connection fresh_parser) { parser = after_good; chunks = [] }),
      x,
    )
unfolding is_shut new_connection
live-answers_example =
    live-answers socket fresh_parser after_good good_chunk readings (simple_string (codes "a")) []
      (new_connection fresh_parser) context refl refl refl good_chunk_parsed

live_of_error_example :
    live
      (data_event bad_chunk ∷ (chunk_turn socket fresh_parser ∷ (error_written ∷ [])))
      (new_connection fresh_parser)
      context
    ≡ (
      (
        write_error (thrown (protocol_error unknown_prefix))
            ∷ (emit
                  (emit_protocol_error (thrown (protocol_error unknown_prefix)))
                  (new_connection fresh_parser)
                ++ (destroy_socket ∷ [])),
        broken_off fresh_parser (new_connection fresh_parser),
      ),
      context,
    )
unfolding is_shut new_connection
live_of_error_example =
    live_of_error socket fresh_parser bad_chunk (protocol_error unknown_prefix)
      (new_connection fresh_parser) context refl refl refl refl bad_chunk_parsed
