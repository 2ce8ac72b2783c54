-- ===== src/Prelude/Text.antt =====
-- Bytes, JavaScript strings, and the codec between them.
use Prim.Native.Nat.{ℕ, ◌<◌}
use Prim.Native.Char.{code}
use Prim.Native.String.{String}
use mathlib.Core.Path.{◌≡◌, ap, ◌∙◌}
use mathlib.Core.List.{List, [], ◌∷◌, ◌++◌}
use radix_kv.Prelude.Predicates.{All}

abbrev pub Bytes : Type 0
Bytes = List ℕ

-- A string is the list of its UTF-16 code units.
abbrev pub JsString : Type 0
JsString = List ℕ

-- The code points of a literal: its bytes and its code units, if it is ASCII.
abbrev pub codes : String → List ℕ
codes String.[] = []
codes (String.◌∷◌ c s) = code c ∷ codes s

abbrev pub IsAscii : ℕ → Type 0
IsAscii c = c < 128

-- Node's `Buffer.from(s, 'utf-8')` and `buf.toString('utf-8')`. An ASCII unit and an ASCII byte
-- stand for one another, and no other unit or byte joins with them.
pub record Utf8 : Type 0 where
  pub encode : JsString → Bytes
  pub decode : Bytes → JsString
  pub encode-nil : encode [] ≡ []
  pub encode-cons : (c : ℕ) (s : JsString) → IsAscii c → encode (c ∷ s) ≡ c ∷ encode s
  pub encode-append_ascii : (s t : JsString) → All IsAscii t → encode (s ++ t) ≡ encode s ++ t
  pub decode-nil : decode [] ≡ []
  pub decode-cons : (c : ℕ) (s : Bytes) → IsAscii c → decode (c ∷ s) ≡ c ∷ decode s

abbrev pub encode : ⦃u : Utf8⦄ → JsString → Bytes
encode ⦃u⦄ = u.encode

abbrev pub decode : ⦃u : Utf8⦄ → Bytes → JsString
decode ⦃u⦄ = u.decode

module _ ⦃u : Utf8⦄ where
  pub encode-ascii : (s : JsString) → All IsAscii s → encode s ≡ s
  encode-ascii [] h = u.encode-nil
  encode-ascii (c ∷ s) h = u.encode-cons c s h.0 ∙ ap (λ (l : List ℕ). c ∷ l) (encode-ascii s h.1)

  pub decode-ascii : (s : Bytes) → All IsAscii s → decode s ≡ s
  decode-ascii [] h = u.decode-nil
  decode-ascii (c ∷ s) h = u.decode-cons c s h.0 ∙ ap (λ (l : List ℕ). c ∷ l) (decode-ascii s h.1)
