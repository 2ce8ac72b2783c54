-- ===== src/Server/Tests.antt =====
-- src/server.ts: runs and instances.
use radix_kv.Prelude.{List, [], map, none, refl, ◌∷◌, ◌≡◌}
use radix_kv.Prelude.Ascii.{ascii_codec}
use radix_kv.ByteBuffer.{alloc}
use radix_kv.Resp.Parser.{RespParser}
use radix_kv.Storage.Engine.{new_engine}
use radix_kv.Commands.Arguments.{UpperCase, upper_ascii}
use radix_kv.Commands.Handlers.{Context}
use radix_kv.Connection.{
  cleanup, close_event, emit, end_event, graceful_close, handle_close, handle_end, is_shut,
  new_connection, react,
}
use radix_kv.Server.{
  ServerEvent, at_connection, at_id, begin_stop, close_all, close_connections, connected,
  get_metrics, handle_new_connection, hears_close, log_closed, new_server, serve, serve_one,
  stop_called,
}
use radix_kv.Server.Counting.{get_metrics-serve}

instance abbrev ascii_case : UpperCase
ascii_case = record { to_upper = λ s. map upper_ascii s; to_upper-ascii = λ s h. refl }

abbrev fresh_parser : RespParser
fresh_parser = record {
  buffer = record { buffer = alloc 8; read_offset = 0; write_offset = 0; max_capacity = 64 };
  options = record {
    max_inline_length = 16;
    max_bulk_length = 20;
    max_array_depth = 2;
    initial_buffer_size = 8;
    max_buffer_size = 64;
  };
  array_stack = [];
  pending_bulk_length = none;
  total_bytes_processed = 0;
  last_completed_offset = 0;
}

abbrev context : Context
context = record {
  engine = new_engine (record {
    max_memory_bytes = 0;
    max_keys = 0;
    ttl_sample_size = 20;
    ttl_sweep_max_time_ms = 5;
  });
  aof = none;
}

abbrev two_clients : List ServerEvent
two_clients =
    connected fresh_parser
    ∷ (connected fresh_parser
        ∷ (at_id 1 end_event ∷ (at_id 1 close_event ∷ (stop_called ∷ (log_closed ∷ [])))))

get_metrics-serve_example :
    (get_metrics (serve two_clients new_server context).0).active_connections
    ≡ (get_metrics (serve two_clients new_server context).0).total_accepted
get_metrics-serve_example = get_metrics-serve two_clients context

-- The first client is gone, and still counts.
two_clients_run : (get_metrics (serve two_clients new_server context).0).active_connections ≡ 2
unfolding get_metrics serve serve_one handle_new_connection at_connection begin_stop
    close_connections close_all new_server react handle_end handle_close graceful_close is_shut
    cleanup emit hears_close new_connection
two_clients_run = refl
