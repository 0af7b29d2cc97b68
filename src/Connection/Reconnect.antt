-- ===== src/Connection/Reconnect.antt =====
-- `mio_handler_conn_generic` of src/mio_handlers.c: what the event loop does when the connection to
-- the server comes up or goes down; with `mio_listen_start` of src/mio_connection.c.
pub mod Triggered
pub mod Handled
use libmio.Base.{
  ℕ, ◌+◌, String, Bool, true, false, not, List, [], ◌∷◌, ◌++◌, Option, none, some, str_eq, ltb,
  if◌then◌else◌,
}
use libmio.Decimal.{ℤ}
use libmio.Run.{Ptr, write, Run, done, ◌>>=◌, load}
use libmio.Response.{Code, Response, ResponseType, ResponseError, err, null}
use libmio.Connection.{HashTable, Conn, Request, Presence, request_get, cond_signal}

pub data ConnEvent : Type 0 where
  conn_connect conn_fail conn_disconnect : ConnEvent

-- The connection, and the response of the handler, if it has one yet.
pub record Session (T P : Type 0) : Type 0 where
  pub conn : Conn T P
  pub has_connected : Bool
  pub retries : ℕ
  pub response : Option (Response P)

module _ {T P : Type 0} where
  -- `mio_listen_start`, which sends the text `presence`
  unfoldable pub listen_start : (presence : String) → Conn T P → Code × Conn T P
  listen_start presence c = if not c.authenticated then (Code.error_disconnected, c) else (
    Code.ok,
    record c { sent = c.sent ++ (presence ∷ []); presence_status = Presence.present },
  )

  -- `mio_cond_broadcast` on `conn_cond`
  abbrev pub cond_broadcast : Conn T P → Conn T P
  cond_broadcast c = record c { conn_predicate = true }

module _ (H : HashTable) {P : Type 0} where
  open H use {Table, del}

  -- A request that waits for an answer is signalled, taken out of the table, and freed.
  abbrev pub trigger : Conn Table P → Ptr → Request → Run (Conn Table P)
  trigger c p r = if str_eq r.id "pubsub_data_rx" then done c else do
    signalled ← cond_signal H c p
    done (record signalled {
      table = del signalled.table r.id;
      requests = write signalled.requests p none;
    })

  -- The loop over the requests that the table has, in the order that `HASH_ITER` visits them.
  unfoldable pub trigger_all : List Ptr → Conn Table P → Run (Conn Table P)
  trigger_all [] c = done c
  trigger_all (p ∷ ps) c = do r ← load c.requests p; c' ← trigger c p r; trigger_all ps c'

  -- The thread that waits for publications is woken if there is one in the queue.
  abbrev pub wake_receiver : (locked : Bool) → Conn Table P → Run (Conn Table P)
  wake_receiver locked c =
      if ltb 0 c.rx_queue_len
      then (elim (request_get H locked c "pubsub_data_rx") [
        | none ↦ done c
        | some p ↦ cond_signal H c p
      ])
      else done c

  -- What a reconnection does, before the broadcast.
  unfoldable pub reconnected :
      (locked : Bool) (presence : String) (entries : List Ptr) → Conn Table P → Run (Conn Table P)
  reconnected locked presence entries c = do
    let listening = if c.rx_listening then (listen_start presence c).1 else c
    woken ← wake_receiver locked listening
    trigger_all entries woken

  abbrev pub response_or_new : Option (Response P) → Response P
  response_or_new none = record { id = ""; response_type = ResponseType.unknown; response = null }
  response_or_new (some r) = r

  abbrev pub failed : ℤ → Response P → Response P
  failed error_connection r = record r {
    response_type = ResponseType.error;
    response =
        err (record { err_num = error_connection; description = some "MIO_ERROR_CONNECTION" });
  }

  -- `mio_handler_conn_generic`. `entries` are the requests in the table, `error_connection` the
  -- number of that code, `conn_handler` the caller's handler, if any, and `reconnect` is
  -- `mio_reconnect` of src/mio_user.c.
  unfoldable pub handler_conn_generic :
      (locked : Bool) (presence : String) (entries : Conn Table P → List Ptr) (error_connection : ℤ)
      (conn_handler reconnect : Session Table P → Session Table P)
      → ConnEvent
      → Session Table P
      → Run (Session Table P)
  handler_conn_generic locked presence entries error_connection conn_handler reconnect event s =
      let r = response_or_new s.response in
      let lost = record s {
        response = some (failed error_connection r);
        conn = cond_broadcast s.conn;
      } in
      elim event [
        | conn_connect ↦ do
          let told =
              conn_handler
                (record s { response = some (record r { response_type = ResponseType.ok }) })
          c ←
              if ltb 0 told.retries
              then reconnected locked presence (entries told.conn) told.conn
              else done told.conn
          done (record told { conn = cond_broadcast c; has_connected = true; retries = 0 })
        | conn_fail ↦ done lost
        | conn_disconnect ↦
            if not s.has_connected
            then done lost
            else done (reconnect (record s { response = some r }))
      ]
