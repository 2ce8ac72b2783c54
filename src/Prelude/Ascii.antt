-- ===== src/Prelude/Ascii.antt =====
-- A codec that meets what is asked of one, for texts of ASCII.
use mathlib.Core.Path.{refl}
use radix_kv.Prelude.Text.{Utf8}

instance abbrev pub ascii_codec : Utf8
ascii_codec = record {
  encode = λ s. s;
  decode = λ s. s;
  encode-nil = refl;
  encode-cons = λ c s h. refl;
  encode-append_ascii = λ s t h. refl;
  decode-nil = refl;
  decode-cons = λ c s h. refl;
}
