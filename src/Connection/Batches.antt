-- ===== src/Connection/Batches.antt =====
-- src/connection.ts: the replies to the commands of a chunk.
use radix_kv.Prelude.{
  Bool, Bool-cases, List, Option, [], ap, append-nil, append_assoc, ap₂, arith, false,
  if◌then◌else◌, inl, inr, none, refl, some, subst, sym, true, ◌++◌, ◌∙◌, ◌∷◌, ◌≡◌,
}
use radix_kv.Prelude.Text.{Bytes, JsString, Utf8}
use radix_kv.Types.{CommandExecutionResult, RespValue}
use radix_kv.Result.{Result, ok, err}
use radix_kv.Resp.Parser
use radix_kv.Resp.Parser.{RespParser}
use radix_kv.Storage.Engine.{Readings}
use radix_kv.Commands.Arguments.{UpperCase}
use radix_kv.Commands.Handlers.{Context}
use radix_kv.Commands.Handlers
use radix_kv.Connection.{
  Batch, Connection, Effect, Event, Failure, SocketReadings, Turned, after_command, after_parse,
  chunk_turn, cleanup, command_turn, data_event, destroy, finish_batch, graceful_close, handle_data,
  handle_parsing_error, is_shut, live, next_chunk, parse_chunk, react, rejected, run_command,
  run_values, start_chunk, write,
}

-- Commands, each with the readings at its turn.
abbrev pub Commands : Type 0
Commands = List (Readings × RespValue)

abbrev pub values_of : Commands → List RespValue
values_of [] = []
values_of ((r, v) ∷ cs) = v ∷ values_of cs

abbrev pub turns_of : SocketReadings → Commands → List Event
turns_of w [] = []
turns_of w ((r, v) ∷ cs) = command_turn w r ∷ turns_of w cs

-- One more reply in front.
abbrev pub with_reply :
    CommandExecutionResult
    → Result JsString (List Bytes × Bool)
    → Result JsString (List Bytes × Bool)
with_reply result (ok (bs, closes)) = ok (result.response ∷ bs, closes)
with_reply result (err message) = err message

-- The replies behind a command with this result: those of the others, unless it closes or rejects.
unfoldable pub answers_from :
    Result JsString CommandExecutionResult
    → Result JsString (List Bytes × Bool) × Context
    → Context
    → Result JsString (List Bytes × Bool) × Context
answers_from (err message) rest x = (err message, x)
answers_from (ok result) rest x =
    if result.should_close
    then (ok (result.response ∷ [], true), x)
    else (with_reply result rest.0, rest.1)

-- The replies of the commands, one after the other, up to the first that closes or rejects.
unfoldable pub answers :
    ⦃u : Utf8⦄
    → ⦃k : UpperCase⦄ → Commands
    → Context
    → Result JsString (List Bytes × Bool) × Context
answers [] x = (ok ([], false), x)
answers ((r, v) ∷ cs) x =
    let (result, x') = Handlers.execute r v x in answers_from result (answers cs x') x'

-- What becomes of a batch with these replies already, whose commands have these.
unfoldable pub settled_batch :
    SocketReadings
    → List Bytes
    → Result JsString (List Bytes × Bool) × Context
    → Connection
    → Turned × Context
settled_batch w rs (ok (bs, closes), x) c = (finish_batch w (rs ++ bs) closes c, x)
settled_batch w rs (err message, x) c =
    (handle_parsing_error w (rejected message) (record c { batch = none }), x)

abbrev pub with_batch : List RespValue → List Bytes → Connection → Connection
with_batch vs rs c = record c { batch = some (record { values = vs; responses = rs }) }

settled_batch-with_reply :
    (w : SocketReadings) (rs : List Bytes) (result : CommandExecutionResult)
    (rest : Result JsString (List Bytes × Bool)) (x : Context) (c : Connection)
    → settled_batch w (rs ++ (result.response ∷ [])) (rest, x) c
      ≡ settled_batch w rs (with_reply result rest, x) c
unfolding settled_batch
settled_batch-with_reply w rs result (ok (bs, closes)) x c =
    ap (λ (all : List Bytes). (finish_batch w all closes c, x))
      (append_assoc rs (result.response ∷ []) bs)
settled_batch-with_reply w rs result (err message) x c = refl

-- A batch is over when its replies are written, or when it has failed.
pub handle_parsing_error-batch :
    (w : SocketReadings) (f : Failure) (c : Connection)
    → (handle_parsing_error w f c).1.batch ≡ c.batch
unfolding handle_parsing_error destroy cleanup is_shut
handle_parsing_error-batch w f c = ground arith

pub finish_batch-batch :
    (w : SocketReadings) (rs : List Bytes) (closes : Bool) (c : Connection)
    → (finish_batch w rs closes c).1.batch ≡ none
unfolding finish_batch write graceful_close is_shut
finish_batch-batch w rs closes c = ground arith

module _ ⦃u : Utf8⦄ ⦃k : UpperCase⦄ (w : SocketReadings) where
  abbrev then_turns : Commands → Turned → Context → Turned × Context
  then_turns cs t x = let ((others, c), x') = live (turns_of w cs) t.1 x in ((t.0 ++ others, c), x')

  live_of_idle :
      (cs : Commands) (c : Connection) (x : Context)
      → live (turns_of w cs) (record c { batch = none }) x ≡ (([], record c { batch = none }), x)
  unfolding live react run_command
  live_of_idle [] c x = refl
  live_of_idle ((r, v) ∷ cs) c x = live_of_idle cs c x

  then_turns_of_idle :
      (cs : Commands) (t : Turned) (x : Context) → t.1.batch ≡ none → then_turns cs t x ≡ (t, x)
  then_turns_of_idle cs t x idle =
      let same : t.1 ≡ record t.1 { batch = none } =
        ap (λ (b : Option Batch). record t.1 { batch = b }) idle in
      let still =
        subst (λ (c : Connection). live (turns_of w cs) c x ≡ (([], c), x)) (sym same)
          (live_of_idle cs t.1 x) in
      ap (λ (l : Turned × Context). ((t.0 ++ l.0.0, l.0.1), l.1)) still
      ∙ ap (λ (es : List Effect). ((es, t.1), x)) (append-nil t.0)

  then_turns-after_command :
      (rs : List Bytes) (cs : Commands) (c : Connection) (x : Context)
      (result : Result JsString CommandExecutionResult) (batch : Option Batch)
      → then_turns cs (after_command w (values_of cs) rs result (record c { batch = batch })) x
        ≡ settled_batch w rs (answers_from result (answers cs x) x) c
  unfolding after_command answers_from settled_batch answers live react run_command run_values
      finish_batch
  then_turns-after_command rs cs c x (err message) b =
      then_turns_of_idle cs _ x
        (handle_parsing_error-batch w (rejected message) (record c { batch = none }))
  then_turns-after_command rs [] c x (ok result) b = elim (Bool-cases result.should_close) [
    | inl closes ↦
        rw (closes, answers_from)
          (then_turns_of_idle [] _ x
            (finish_batch-batch w (rs ++ (result.response ∷ [])) true (record c { batch = b })))
    | inr goes_on ↦
        rw (goes_on, answers_from)
          (then_turns_of_idle [] _ x
            (finish_batch-batch w (rs ++ (result.response ∷ [])) false (record c { batch = b })))
  ]
  then_turns-after_command rs ((r, v) ∷ cs) c x (ok result) b =
      elim (Bool-cases result.should_close) [
        | inl closes ↦
            rw (closes, after_command)
              (then_turns_of_idle ((r, v) ∷ cs) _ x
                (finish_batch-batch w (rs ++ (result.response ∷ [])) true (record c { batch = b })))
        | inr goes_on ↦
            let all = rs ++ (result.response ∷ []) in
            let (first, x') = Handlers.execute r v x in
            let rest = answers ((r, v) ∷ cs) x in
            rw (goes_on, after_command)
              (then_turns-after_command all cs c x' first
                  (some (record { values = v ∷ values_of cs; responses = all }))
                ∙ settled_batch-with_reply w rs result rest.0 rest.1 c)
      ]

  live_of_batch :
      (rs : List Bytes) (r : Readings) (v : RespValue) (cs : Commands) (c : Connection)
      (x : Context)
      → live (turns_of w ((r, v) ∷ cs)) (with_batch (v ∷ values_of cs) rs c) x
        ≡ settled_batch w rs (answers ((r, v) ∷ cs) x) c
  unfolding live react run_command run_values answers
  live_of_batch rs r v cs c x =
      let (first, x') = Handlers.execute r v x in
      then_turns-after_command rs cs c x' first
        (some (record { values = v ∷ values_of cs; responses = rs }))

  pub handle_data_of_idle :
      (chunk : Bytes) (c : Connection)
      → is_shut c ≡ false
      → c.chunks ≡ []
      → c.batch ≡ none
      → handle_data chunk c ≡ record c { chunks = chunk ∷ []; batch = none }
  unfolding handle_data
  handle_data_of_idle chunk c opened no_chunks idle =
      rw (opened, handle_data)
        (ap₂
          (λ (bs : List Bytes) (b : Option Batch). record c {
            chunks = bs ++ (chunk ∷ []);
            batch = b;
          })
          no_chunks idle)

  start_chunk_of_values :
      (broken p : RespParser) (chunk : Bytes) (v : RespValue) (vs : List RespValue) (c : Connection)
      → is_shut c ≡ false
      → Parser.execute c.parser chunk ≡ ok (v ∷ vs, p)
      → start_chunk w broken (record c { chunks = chunk ∷ []; batch = none })
        ≡ ([], with_batch (v ∷ vs) [] (record c { parser = p; chunks = [] }))
  unfolding start_chunk next_chunk parse_chunk is_shut after_parse
  start_chunk_of_values broken p chunk v vs c opened parsed = rw (opened, parsed) refl

  pub live-settled_batch :
      (broken p : RespParser) (chunk : Bytes) (r : Readings) (v : RespValue) (cs : Commands)
      (c : Connection) (x : Context)
      → is_shut c ≡ false
      → c.chunks ≡ []
      → c.batch ≡ none
      → Parser.execute c.parser chunk ≡ ok (v ∷ values_of cs, p)
      → live (data_event chunk ∷ (chunk_turn w broken ∷ turns_of w ((r, v) ∷ cs))) c x
        ≡ settled_batch w [] (answers ((r, v) ∷ cs) x) (record c { parser = p; chunks = [] })
  unfolding live react
  live-settled_batch broken p chunk r v cs c x opened no_chunks idle parsed =
      let F : Turned → Turned × Context = λ t. then_turns ((r, v) ∷ cs) t x in
      ap (λ (c' : Connection). F (start_chunk w broken c'))
        (handle_data_of_idle chunk c opened no_chunks idle)
      ∙ ap F (start_chunk_of_values broken p chunk v (values_of cs) c opened parsed)
      ∙ live_of_batch [] r v cs (record c { parser = p; chunks = [] }) x
