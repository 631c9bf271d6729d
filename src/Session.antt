-- ===== src/Session.antt =====
-- http_session.hpp: the session that forwards requests, with its operations as steps. A completion of an
-- operation and the error that it brings are arguments of the handler.
use project_test_demo.Common.{
  ℕ, Bool, true, false, not, if◌then◌else◌, Option, none, some, List, [], ◌∷◌, ◌++◌, ◌≡◌,
}
pub mod Forwarding
mod Tests

-- The operation that the session waits for. `over` is a session that waits for none, `upgraded` one
-- that was handed to a WebSocket session, and `crashed` one that reads through a null pointer.
pub data Waiting : Type 0 where
  reading : Waiting
  connecting : Waiting
  handshaking : Waiting
  sending : Waiting
  receiving : Waiting
  responding : Waiting
  upgraded : Waiting
  over : Waiting
  crashed : Waiting

-- What `on_read` is told: the error, or the request and whether it asks for an upgrade.
pub data ReadResult (Q : Type 0) : Type 0 where
  end_of_stream : ReadResult Q
  read_error : ReadResult Q
  got : Bool → Q → ReadResult Q

-- The members that the handlers use; `csstream` is whether `csstream_` is set. `sent` and `written` are
-- the requests that were written to the server and the responses that were written to the client.
pub record HttpSession (Q R : Type 0) : Type 0 where
  pub csstream : Bool
  pub is_connect : Bool
  pub msg : R
  pub client_msg : Q
  pub waiting : Waiting
  pub sent : List Q
  pub written : List R

-- `do_read`
abbrev pub do_read : {Q R : Type 0} → HttpSession Q R → HttpSession Q R
do_read s = record s { waiting = reading }

abbrev pub finish : {Q R : Type 0} → HttpSession Q R → HttpSession Q R
finish s = record s { waiting = over }

-- `client_send_write_https_msg`
abbrev pub client_send_write_https_msg : {Q R : Type 0} → HttpSession Q R → HttpSession Q R
client_send_write_https_msg s =
    if s.csstream
    then record s { waiting = sending; sent = s.sent ++ (s.client_msg ∷ []) }
    else finish s

-- `client_run` and `client_connect`
abbrev pub client_run : {Q R : Type 0} → HttpSession Q R → HttpSession Q R
client_run s = record s { waiting = if s.csstream then connecting else crashed }

-- `client_send_msg`
abbrev pub client_send_msg : {Q R : Type 0} → Q → HttpSession Q R → HttpSession Q R
client_send_msg q s =
    let t = record s { client_msg = q } in
    if not s.is_connect then client_run t else client_send_write_https_msg t

-- `on_read`
unfoldable pub on_read : {Q R : Type 0} → ReadResult Q → HttpSession Q R → HttpSession Q R
on_read end_of_stream s = finish s
on_read read_error s = finish s
on_read (got true q) s = record s { waiting = upgraded }
on_read (got false q) s = client_send_msg q s

-- `client_on_connect`, which does not look at the error.
abbrev pub client_on_connect : {Q R : Type 0} → Bool → HttpSession Q R → HttpSession Q R
client_on_connect ec s = record s { waiting = if s.csstream then handshaking else crashed }

-- The handlers of the handshake, and of the request that was written.
abbrev pub on_client_handshake : {Q R : Type 0} → Bool → HttpSession Q R → HttpSession Q R
on_client_handshake ec s = if ec then finish s else client_send_write_https_msg s

abbrev pub on_client_write : {Q R : Type 0} → Bool → HttpSession Q R → HttpSession Q R
on_client_write ec s = if ec then finish s else record s { waiting = receiving }

-- `server_send_msg`: the parameter is moved to itself, and the member is written.
abbrev pub server_send_msg : {Q R : Type 0} → R → HttpSession Q R → HttpSession Q R
server_send_msg parameter s = record s { waiting = responding; written = s.written ++ (s.msg ∷ []) }

-- The handlers of the response that was read, with `none` for an error, and of the one that was written.
unfoldable pub on_client_read : {Q R : Type 0} → Option R → HttpSession Q R → HttpSession Q R
on_client_read none s = finish s
on_client_read (some r) s = server_send_msg r s

abbrev pub on_server_write : {Q R : Type 0} → Bool → HttpSession Q R → HttpSession Q R
on_server_write ec s = if ec then finish s else do_read s

-- A completion of the operation that is waited for.
pub data Completion {Q R : Type 0} (s : HttpSession Q R) : HttpSession Q R → Type 0 where
  read_done : (r : ReadResult Q) → s.waiting ≡ reading → Completion s (on_read r s)
  connect_done : (ec : Bool) → s.waiting ≡ connecting → Completion s (client_on_connect ec s)
  handshake_done : (ec : Bool) → s.waiting ≡ handshaking → Completion s (on_client_handshake ec s)
  client_write_done : (ec : Bool) → s.waiting ≡ sending → Completion s (on_client_write ec s)
  client_read_done : (r : Option R) → s.waiting ≡ receiving → Completion s (on_client_read r s)
  server_write_done : (ec : Bool) → s.waiting ≡ responding → Completion s (on_server_write ec s)

-- The constructor and the first `do_read`, with whether `set_io_servrer` was called.
abbrev pub new_session : {Q R : Type 0} → Bool → R → Q → HttpSession Q R
new_session csstream msg client_msg = record {
  csstream = csstream;
  is_connect = false;
  msg = msg;
  client_msg = client_msg;
  waiting = reading;
  sent = [];
  written = [];
}

pub data Served {Q R : Type 0} (b : Bool) (m : R) (q : Q) : HttpSession Q R → Type 0 where
  begun : Served b m q (new_session b m q)
  served : {s t : HttpSession Q R} → Served b m q s → Completion s t → Served b m q t
