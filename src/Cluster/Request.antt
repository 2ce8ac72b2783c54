-- ===== src/Cluster/Request.antt =====
-- src/cluster/cluster-coordinator.ts: what the coordinator reads from a command.
use radix_kv.Prelude.{Bool, List, Option, [], if◌then◌else◌, list_eq, none, some, take, ◌||◌, ◌∷◌}
use radix_kv.Prelude.Text.{Bytes, JsString, Utf8, codes, decode}
use radix_kv.Types.{
  RespValue, array, bulk_string, cons, error, integer, nil, null_array, of_elements, simple_string,
}
use radix_kv.Commands.Arguments.{UpperCase}

-- The payload of a bulk string; of any other value, nothing.
unfoldable pub bulk_payload : RespValue → Option Bytes
bulk_payload (bulk_string b) = b
bulk_payload (simple_string s) = none
bulk_payload (error s) = none
bulk_payload (integer n) = none
bulk_payload null_array = none
bulk_payload (array vs) = none

-- The name of the command, and the empty text for an item that has none.
unfoldable pub name_of : ⦃u : Utf8⦄ → ⦃c : UpperCase⦄ → RespValue → JsString
name_of ⦃u⦄ ⦃c⦄ item = elim (bulk_payload item) [ none ↦ [] | some b ↦ c.to_upper (decode b) ]

-- The keys among these items.
unfoldable pub keys_of : ⦃u : Utf8⦄ → List RespValue → List JsString
keys_of [] = []
keys_of (item ∷ items) = elim (bulk_payload item) [
  | none ↦ keys_of items
  | some b ↦ decode b ∷ keys_of items
]

-- The commands whose key is the item behind the name.
unfoldable pub is_single_key : JsString → Bool
is_single_key name =
    list_eq name (codes "GET")
    || list_eq name (codes "SET")
    || list_eq name (codes "INCR")
    || list_eq name (codes "TTL")

unfoldable pub command_keys : ⦃u : Utf8⦄ → JsString → List RespValue → List JsString
command_keys name items =
    if is_single_key name
    then keys_of (take 1 items)
    else if list_eq name (codes "DEL")
    then keys_of items
    else []

pub record CommandInfo : Type 0 where
  pub command_name : JsString
  pub keys : List JsString

-- `none` for an invalid structure.
unfoldable pub extract_command_info : ⦃u : Utf8⦄ → ⦃c : UpperCase⦄ → RespValue → Option CommandInfo
extract_command_info (array nil) = none
extract_command_info (array (cons item items)) =
    some (record {
      command_name = name_of item;
      keys = command_keys (name_of item) (of_elements items);
    })
extract_command_info null_array = none
extract_command_info (bulk_string b) = none
extract_command_info (simple_string s) = none
extract_command_info (error s) = none
extract_command_info (integer n) = none
