-- ===== src/Cluster/Console.antt =====
-- src/cluster/cluster-coordinator.ts: `executeRawCommand` reads a command line and shows the reply.
pub mod RoundTrip
use radix_kv.Prelude.{
  Bool, List, Option, [], false, if◌then◌else◌, is_some, length, max, min, none, not, slice, some,
  suc, true, ℕ, ◌&&◌, ◌++◌, ◌+◌, ◌-◌, ◌==◌, ◌||◌, ◌∷◌,
}
use radix_kv.Prelude.Text.{Bytes, JsString, Utf8, codes, decode, encode}
use radix_kv.Types.{Elements, RespValue, array, bulk_string, cons, error, integer, nil}
use radix_kv.Storage.BigInt.{trim}

-- The loop's variables: the finished tokens, the token that grows, and the quote that is open.
pub record Scanner : Type 0 where
  pub tokens : List JsString
  pub current : JsString
  pub quote : Option ℕ

unfoldable pub is_quote : ℕ → Bool
is_quote char = (char == 34) || (char == 39)

-- A quote opens where none is open, and closes one like it.
unfoldable pub toggles : Option ℕ → ℕ → Bool
toggles none char = is_quote char
toggles (some q) char = is_quote char && (q == char)

unfoldable pub toggled : Option ℕ → ℕ → Option ℕ
toggled none char = some char
toggled (some q) char = none

-- An empty token is not one.
unfoldable pub finish_token : Scanner → List JsString
finish_token s = elim s.current [ [] ↦ s.tokens | c ∷ cs ↦ s.tokens ++ ((c ∷ cs) ∷ []) ]

unfoldable pub scan_char : ℕ → Scanner → Scanner
scan_char char s =
    if toggles s.quote char
    then record s { quote = toggled s.quote char }
    else if (char == 32) && not (is_some s.quote)
    then record s { tokens = finish_token s; current = [] }
    else record s { current = s.current ++ (char ∷ []) }

unfoldable pub scan_line : JsString → Scanner → Scanner
scan_line [] s = s
scan_line (char ∷ line) s = scan_line line (scan_char char s)

unfoldable pub tokenize_command_line : JsString → List JsString
tokenize_command_line line =
    finish_token (scan_line line (record { tokens = []; current = []; quote = none }))

-- The command that the tokens stand for.
unfoldable pub bulk_items : ⦃u : Utf8⦄ → List JsString → Elements
bulk_items [] = nil
bulk_items (t ∷ ts) = cons (bulk_string (some (encode t))) (bulk_items ts)

-- `none` is the error of an empty command.
unfoldable pub raw_command : ⦃u : Utf8⦄ → JsString → Option RespValue
raw_command line = elim (tokenize_command_line line) [
  | [] ↦ none
  | t ∷ ts ↦ some (array (bulk_items (t ∷ ts)))
]

unfoldable pub starts_with : JsString → JsString → Bool
starts_with [] s = true
starts_with (p ∷ ps) [] = false
starts_with (p ∷ ps) (c ∷ s) = (c == p) && starts_with ps s

-- `str.slice(1, -2)`
unfoldable pub inner : JsString → JsString
inner s = slice s 1 (length s - 2)

-- `indexOf('\r\n')`
unfoldable pub index_of_crlf : JsString → Option ℕ
index_of_crlf [] = none
index_of_crlf (c ∷ s) =
    let rest = index_of_crlf s in
    if starts_with (13 ∷ 10 ∷ []) (c ∷ s)
    then some 0
    else elim rest [ none ↦ none | some i ↦ some (suc i) ]

-- `substring` swaps its ends where the second comes first.
unfoldable pub substring : JsString → ℕ → ℕ → JsString
substring s i j = slice s (min (min i j) (length s)) (min (max i j) (length s))

unfoldable pub format_resp_response : ⦃u : Utf8⦄ → Bytes → JsString
format_resp_response buf =
    let str = decode buf in
    if starts_with (codes "+") str
    then inner str
    else if starts_with (codes "-") str
    then codes "(error) " ++ inner str
    else if starts_with (codes ":") str
    then codes "(integer) " ++ inner str
    else if starts_with (codes "$-1" ++ (13 ∷ 10 ∷ [])) str
    then codes "(nil)"
    else if starts_with (codes "$") str
    then elim (index_of_crlf str) [
      | none ↦ trim str
      | some i ↦ 34 ∷ (substring str (i + 2) (length str - 2) ++ (34 ∷ []))
    ]
    else trim str
