-- ===== src/Cluster/Console/RoundTrip.antt =====
-- src/cluster/cluster-coordinator.ts: a command line that is written with quotes reads back.
use radix_kv.Prelude.{
  All, List, [], ap, append-nil, append_assoc, arith, length, none, refl, some, ℕ, ◌++◌, ◌<◌, ◌∙◌,
  ◌∷◌, ◌≡◌, ◌≢◌,
}
use radix_kv.Prelude.Text.{JsString}
use radix_kv.Cluster.Console.{
  finish_token, is_quote, scan_char, scan_line, toggled, toggles, tokenize_command_line,
}

-- A token between double quotes, with what follows.
abbrev pub quoted : JsString → JsString → JsString
quoted token rest = 34 ∷ (token ++ (34 ∷ rest))

unfoldable pub more_tokens : List JsString → JsString
more_tokens [] = []
more_tokens (t ∷ ts) = 32 ∷ quoted t (more_tokens ts)

-- The tokens between double quotes, with a space between two of them.
unfoldable pub command_line : List JsString → JsString
command_line [] = []
command_line (t ∷ ts) = quoted t (more_tokens ts)

-- A token that double quotes can hold: it is not empty and has none.
abbrev pub IsToken : JsString → Type 0
IsToken token = (0 < length token) × All (λ c. c ≢ 34) token

scan_char_inside :
    (tokens : List JsString) (current : JsString) (c : ℕ)
    → c ≢ 34
    → scan_char c (record { tokens = tokens; current = current; quote = some 34 })
      ≡ record { tokens = tokens; current = current ++ (c ∷ []); quote = some 34 }
unfolding scan_char toggles is_quote
scan_char_inside tokens current c h = ground arith

-- Up to the closing quote, every character joins the token.
scan_line-quote :
    (token rest : JsString) (tokens : List JsString) (current : JsString)
    → All (λ c. c ≢ 34) token
    → scan_line
        (token ++ (34 ∷ rest))
        (record { tokens = tokens; current = current; quote = some 34 })
      ≡ scan_line rest (record { tokens = tokens; current = current ++ token; quote = none })
unfolding scan_line
scan_line-quote [] rest tokens current h =
    unfold scan_char toggles is_quote toggled in rw append-nil refl
scan_line-quote (c ∷ token) rest tokens current h =
    ap (scan_line (token ++ (34 ∷ rest))) (scan_char_inside tokens current c h.0)
    ∙ scan_line-quote token rest tokens (current ++ (c ∷ [])) h.1
    ∙ ap (λ (x : JsString). scan_line rest (record { tokens = tokens; current = x; quote = none }))
        (append_assoc current (c ∷ []) token)

scan_line-more_tokens :
    (ts : List JsString) (tokens : List JsString) (c : ℕ) (cs : JsString)
    → All IsToken ts
    → finish_token
        (scan_line (more_tokens ts) (record { tokens = tokens; current = c ∷ cs; quote = none }))
      ≡ tokens ++ ((c ∷ cs) ∷ ts)
unfolding scan_line more_tokens finish_token scan_char toggles is_quote toggled
scan_line-more_tokens [] tokens c cs h = refl
scan_line-more_tokens ([] ∷ ts) tokens c cs h = absurd (omega (arith, h.0.0))
scan_line-more_tokens ((d ∷ ds) ∷ ts) tokens c cs h =
    ap finish_token (scan_line-quote (d ∷ ds) (more_tokens ts) (tokens ++ ((c ∷ cs) ∷ [])) [] h.0.1)
    ∙ scan_line-more_tokens ts (tokens ++ ((c ∷ cs) ∷ [])) d ds h.1
    ∙ append_assoc tokens ((c ∷ cs) ∷ []) ((d ∷ ds) ∷ ts)

-- A command line that holds the tokens between double quotes, a space between two of them, is read as
-- these tokens, spaces and apostrophes included, if no token is empty or has a double quote.
pub tokenize_command_line-command_line :
    (ts : List JsString) → All IsToken ts → tokenize_command_line (command_line ts) ≡ ts
unfolding tokenize_command_line command_line scan_line scan_char toggles is_quote toggled
    finish_token
tokenize_command_line-command_line [] h = refl
tokenize_command_line-command_line ([] ∷ ts) h = absurd (omega (arith, h.0.0))
tokenize_command_line-command_line ((c ∷ cs) ∷ ts) h =
    ap finish_token (scan_line-quote (c ∷ cs) (more_tokens ts) [] [] h.0.1)
    ∙ scan_line-more_tokens ts [] c cs h.1
