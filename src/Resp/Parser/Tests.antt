-- ===== src/Resp/Parser/Tests.antt =====
-- src/resp-parser.ts: runs and instances.
use radix_kv.Prelude.{[], arith, none, refl, some, ◌++◌, ◌≡◌}
use radix_kv.Prelude.Text.{Bytes, codes}
use radix_kv.Prelude.Ascii.{ascii_codec}
use radix_kv.Types.{ParserOptions, RespValue, array, bulk_string, cons, nil, of_elements}
use radix_kv.Result.{ok}
use radix_kv.ByteBuffer.{alloc}
use radix_kv.ByteBuffer.Window.{IsValid, contents}
use radix_kv.Resp.Decimal.{print_nat}
use radix_kv.Resp.Serializer.{bulk_string_bytes, count_line, crlf, header, serialize, serialize_all}
use radix_kv.Resp.Parser.{RespParser, execute}
use radix_kv.Resp.Parser.Refine.{view}
use radix_kv.Resp.Parser.Ended.{RunsTo, execute-RunsTo}
use radix_kv.Resp.Parser.Fragments.{Joins, execute-append, observe}
use radix_kv.Resp.Parser.RoundTrip.{FitsAll, execute-serialize_all, machine}

abbrev small : ParserOptions
small = record {
  max_inline_length = 16;
  max_bulk_length = 20;
  max_array_depth = 2;
  initial_buffer_size = 8;
  max_buffer_size = 64;
}

abbrev idle : RespParser
idle = record {
  buffer = record { buffer = alloc 8; read_offset = 0; write_offset = 0; max_capacity = 64 };
  options = small;
  array_stack = [];
  pending_bulk_length = none;
  total_bytes_processed = 0;
  last_completed_offset = 0;
}

idle-IsValid : IsValid idle.buffer
idle-IsValid = omega arith

-- `*2 $3 GET $1 a`, cut in the middle of the payload.
abbrev first_part : Bytes
first_part = codes "*2" ++ crlf ++ codes "$3" ++ crlf ++ codes "GE"

abbrev second_part : Bytes
second_part = codes "T" ++ crlf ++ codes "$1" ++ crlf ++ codes "a" ++ crlf

abbrev get_a : RespValue
get_a = array (cons (bulk_string (some (codes "GET"))) (cons (bulk_string (some (codes "a"))) nil))

execute-append_example :
    Joins second_part (execute idle first_part) (execute idle (first_part ++ second_part))
execute-append_example = execute-append idle first_part second_part idle-IsValid (omega arith)

execute-RunsTo_example : RunsTo idle first_part (execute idle first_part)
execute-RunsTo_example = execute-RunsTo idle first_part idle-IsValid (omega arith)

get_a-Fits : FitsAll small 0 (cons get_a nil)
unfolding print_nat of_elements
get_a-Fits = omega arith

execute-serialize_all_example :
    observe (execute idle (serialize_all (cons get_a nil)))
    ≡ ok (of_elements (cons get_a nil), machine [] [])
execute-serialize_all_example =
    execute-serialize_all idle (cons get_a nil) idle-IsValid (unfold view contents in refl)
      (omega arith) get_a-Fits
      (unfold serialize count_line bulk_string_bytes header print_nat of_elements in omega arith)
