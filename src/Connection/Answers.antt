-- ===== src/Connection/Answers.antt =====
-- src/connection.ts: what goes out for a chunk of commands.
use radix_kv.Prelude.{
  Bool, List, Option, [], ap, ap₂, arith, false, if◌then◌else◌, none, not, refl, subst, true, ◌++◌,
  ◌∙◌, ◌∷◌, ◌≡◌,
}
use radix_kv.Prelude.Text.{Bytes, JsString, Utf8}
use radix_kv.Types.{RespValue}
use radix_kv.Result.{Result, ok, err}
use radix_kv.Resp.Parser
use radix_kv.Resp.Parser.{RespParser}
use radix_kv.Storage.Engine.{Readings}
use radix_kv.Commands.Arguments.{UpperCase}
use radix_kv.Commands.Handlers.{Context}
use radix_kv.Connection.{
  Batch, Connection, Effect, SocketReadings, Turned, chunk_turn, cleanup, concat_bytes, data_event,
  destroy, destroy_socket, emit, emit_protocol_error, end_socket, finish_batch, graceful_close,
  handle_parsing_error, is_shut, live, pause_socket, rejected, write, write_error, write_reply,
}
use radix_kv.Connection.Batches.{
  Commands, answers, live-settled_batch, settled_batch, turns_of, values_of,
}

-- The replies, the first one first.
abbrev pub joined : List Bytes → Bytes
joined [] = []
joined (b ∷ bs) = b ++ joined bs

joined-eq-concat_bytes : (bs : List Bytes) → concat_bytes bs ≡ joined bs
joined-eq-concat_bytes [] = refl
joined-eq-concat_bytes (b ∷ bs) = ap (λ rest. b ++ rest) (joined-eq-concat_bytes bs)

abbrev pub when : Bool → List Effect → List Effect
when b es = if b then es else []

-- The socket is paused where it takes no more, and the connection has not paused it before.
abbrev pub must_pause : SocketReadings → Connection → Bool
must_pause w c = if w.can_accept_more then false else not c.is_draining

-- What goes out, and the connection behind it, for commands with these replies: one write of the replies in
-- their order, unless the socket is destroyed, a pause where the socket takes no more, and the end of the socket
-- if a command closes; or one protocol error, and where its write throws, the end of the connection.
abbrev pub outcome : SocketReadings → Result JsString (List Bytes × Bool) → Connection → Turned
outcome w (ok (bs, closes)) c = (
  when (not w.is_socket_destroyed)
        (write_reply (joined bs) ∷ when (must_pause w c) (pause_socket ∷ []))
      ++ when closes (end_socket ∷ []),
  record c {
    batch = none;
    is_closing = closes;
    is_draining =
        if w.is_socket_destroyed
        then c.is_draining
        else if w.can_accept_more
        then c.is_draining
        else true;
  },
)
outcome w (err message) c =
    if w.write_throws
    then (
      destroy_socket ∷ [],
      record c {
        batch = none;
        is_closing = true;
        is_destroyed = true;
        has_listeners = false;
        parser = Parser.reset c.parser;
      },
    )
    else (
      write_error (rejected message)
          ∷ when c.has_listeners (emit_protocol_error (rejected message) ∷ []),
      record c { batch = none },
    )

-- A socket and a connection that is not shut, by their fields.
abbrev socket_of : (gone accepts throws : Bool) → SocketReadings
socket_of gone accepts throws = record {
  is_socket_destroyed = gone;
  can_accept_more = accepts;
  write_throws = throws;
}

abbrev open_connection :
    (draining listeners : Bool) → RespParser → List Bytes → Option Batch → Connection
open_connection draining listeners p chunks b = record {
  parser = p;
  is_closing = false;
  is_destroyed = false;
  is_draining = draining;
  chunks = chunks;
  batch = b;
  has_listeners = listeners;
}

-- `outcome`, of replies that are joined already.
abbrev sent : SocketReadings → Bytes → Bool → Connection → Turned
sent w bytes closes c = (
  when (not w.is_socket_destroyed) (write_reply bytes ∷ when (must_pause w c) (pause_socket ∷ []))
      ++ when closes (end_socket ∷ []),
  record c {
    batch = none;
    is_closing = closes;
    is_draining =
        if w.is_socket_destroyed
        then c.is_draining
        else if w.can_accept_more
        then c.is_draining
        else true;
  },
)

finish_batch-sent :
    (gone accepts throws draining listeners closes : Bool) (rs : List Bytes) (p : RespParser)
    (chunks : List Bytes) (b : Option Batch)
    → let c = open_connection draining listeners p chunks b in
      let w = socket_of gone accepts throws in
      finish_batch w rs closes c ≡ sent w (concat_bytes rs) closes c
unfolding finish_batch write graceful_close is_shut
finish_batch-sent true a t d l false rs p chunks b = refl
finish_batch-sent true a t d l true rs p chunks b = refl
finish_batch-sent false true t d l false rs p chunks b = refl
finish_batch-sent false true t d l true rs p chunks b = refl
finish_batch-sent false false t true l false rs p chunks b = refl
finish_batch-sent false false t true l true rs p chunks b = refl
finish_batch-sent false false t false l false rs p chunks b = refl
finish_batch-sent false false t false l true rs p chunks b = refl

handle_parsing_error-outcome :
    (gone accepts throws draining listeners : Bool) (message : JsString) (p : RespParser)
    (chunks : List Bytes) (b : Option Batch)
    → let c = open_connection draining listeners p chunks b in
      let w = socket_of gone accepts throws in
      handle_parsing_error w (rejected message) (record c { batch = none })
      ≡ outcome w (err message) c
unfolding handle_parsing_error destroy cleanup emit is_shut
handle_parsing_error-outcome g a true d l message p chunks b = refl
handle_parsing_error-outcome g a false d true message p chunks b = refl
handle_parsing_error-outcome g a false d false message p chunks b = refl

open_outcome :
    (w : SocketReadings) (r : Result JsString (List Bytes × Bool)) (x : Context) (c : Connection)
    → settled_batch w [] (r, x) (record c { is_closing = false; is_destroyed = false })
      ≡ (outcome w r (record c { is_closing = false; is_destroyed = false }), x)
unfolding settled_batch
open_outcome w (ok (bs, closes)) x c =
    ap (λ t. (t, x))
      (finish_batch-sent w.is_socket_destroyed w.can_accept_more w.write_throws c.is_draining
          c.has_listeners closes bs c.parser c.chunks c.batch
        ∙ ap (λ bytes. sent w bytes closes (record c { is_closing = false; is_destroyed = false }))
            (joined-eq-concat_bytes bs))
open_outcome w (err message) x c =
    ap (λ t. (t, x))
      (handle_parsing_error-outcome w.is_socket_destroyed w.can_accept_more w.write_throws
        c.is_draining c.has_listeners message c.parser c.chunks c.batch)

settled_batch-outcome :
    (w : SocketReadings) (r : Result JsString (List Bytes × Bool)) (x : Context) (c : Connection)
    → is_shut c ≡ false
    → settled_batch w [] (r, x) c ≡ (outcome w r c, x)
unfolding is_shut
settled_batch-outcome w r x c h =
    let same : record c { is_closing = false; is_destroyed = false } ≡ c =
      ap₂ (λ (i d : Bool). record c { is_closing = i; is_destroyed = d }) (ground (arith, h))
        (ground (arith, h)) in
    subst (λ (c' : Connection). settled_batch w [] (r, x) c' ≡ (outcome w r c', x)) same
      (open_outcome w r x c)

module _ ⦃u : Utf8⦄ ⦃k : UpperCase⦄ (w : SocketReadings) where
  -- A chunk that arrives at an open connection with nothing under way, and that holds complete commands:
  -- its turn and the turns of the commands, with nothing in between, run the commands in their order up to
  -- the first that closes or is rejected. Where none is rejected, the replies of those that were run go out
  -- in that order as one write, unless the socket is destroyed; behind it the socket is paused if it takes no
  -- more and was not paused before, and is ended if the last command closes. If one is rejected, one protocol
  -- error goes out in place of all the replies, and the listeners hear of it; where that write throws, the
  -- socket is destroyed instead. The connection's flags say so, nothing is under way, and the context is
  -- that of the commands.
  pub live-answers :
      (broken p : RespParser) (chunk : Bytes) (r : Readings) (v : RespValue) (cs : Commands)
      (c : Connection) (x : Context)
      → is_shut c ≡ false
      → c.chunks ≡ []
      → c.batch ≡ none
      → Parser.execute c.parser chunk ≡ ok (v ∷ values_of cs, p)
      → let (replies, x') = answers ((r, v) ∷ cs) x in
        live (data_event chunk ∷ (chunk_turn w broken ∷ turns_of w ((r, v) ∷ cs))) c x
        ≡ (outcome w replies (record c { parser = p; chunks = [] }), x')
  unfolding is_shut
  live-answers broken p chunk r v cs c x opened no_chunks idle parsed =
      let a = answers ((r, v) ∷ cs) x in
      live-settled_batch w broken p chunk r v cs c x opened no_chunks idle parsed
      ∙ settled_batch-outcome w a.0 a.1 (record c { parser = p; chunks = [] }) opened
