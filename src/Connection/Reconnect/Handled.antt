-- ===== src/Connection/Reconnect/Handled.antt =====
-- What `mio_handler_conn_generic` of src/mio_handlers.c does when the connection is back.
use libmio.Base.{
  ◌≡◌, refl, ap, sym, subst, some, ◌∙◌, ◌<◌, String, Bool, true, false, inl, inr, List, arith, ltb,
  Bool-cases, if◌then◌else◌,
}
use libmio.Decimal.{ℤ}
use libmio.Run.{Ptr, done}
use libmio.Response.{ResponseType}
use libmio.Connection.{HashTable, Conn}
use libmio.Connection.Reconnect.{
  Session, conn_connect, cond_broadcast, listen_start, response_or_new, reconnected,
  handler_conn_generic,
}
use libmio.Connection.Reconnect.Triggered.{AreRequests, freed_requests, trigger_all-runs}

module _ {T P : Type 0} where
  abbrev listening : String → Conn T P → Conn T P
  listening presence c = if c.rx_listening then (listen_start presence c).1 else c

  listening-same :
      (presence : String) (c : Conn T P)
      → ((listening presence c).requests ≡ c.requests)
        × ((listening presence c).open_requests ≡ c.open_requests)
        × ((listening presence c).rx_queue_len ≡ c.rx_queue_len)
  unfolding listen_start
  listening-same presence c = elim (Bool-cases c.rx_listening) [
    | inl on ↦ elim (Bool-cases c.authenticated) [
      | inl up ↦ (rw (on, up) refl, rw (on, up) refl, rw (on, up) refl)
      | inr down ↦ (rw (on, down) refl, rw (on, down) refl, rw (on, down) refl)
    ]
    | inr off ↦ (rw off refl, rw off refl, rw off refl)
  ]

module _ (H : HashTable) {P : Type 0} where
  open H use {Table}

  -- The session, once the caller's handler was told.
  abbrev pub told : (Session Table P → Session Table P) → Session Table P → Session Table P
  told conn_handler s = conn_handler (record s {
    response = some (record (response_or_new H s.response) { response_type = ResponseType.ok });
  })

  reconnected-runs :
      (locked : Bool) (presence : String) (ps : List Ptr) (c : Conn Table P)
      → c.rx_queue_len ≡ 0
      → AreRequests ps c.requests
      → (c' : Conn Table P) × (reconnected H locked presence ps c ≡ done c')
        × (c'.requests ≡ freed_requests ps c.requests)
        × (c'.open_requests ≡ c.open_requests)
  unfolding reconnected
  reconnected-runs locked presence ps c idle live =
      let (same, slots, len) = listening-same presence c in
      let (c', ran, left, kept) =
        trigger_all-runs H ps (listening presence c) (subst (AreRequests ps) (sym same) live) in
      let quiet : ltb 0 (listening presence c).rx_queue_len ≡ false = rw (len, idle) refl in
      (c', rw quiet ran, left ∙ ap (freed_requests ps) same, kept ∙ slots)

  -- When the connection is back after a failure, no publication is in the queue, and each of the
  -- requests in the table is allocated when its turn comes, all this once the caller's handler was
  -- told: mio_handler_conn_generic ends, of the requests it has freed exactly those it met in the
  -- table, but the one for publications, no slot is given back, those who wait for a connection
  -- are woken, and the count of retries is zero.
  pub handler_conn_generic-Reconnects :
      (locked : Bool) (presence : String) (entries : Conn Table P → List Ptr) (error_connection : ℤ)
      (conn_handler reconnect : Session Table P → Session Table P) (s : Session Table P)
      → 0 < (told conn_handler s).retries
      → (told conn_handler s).conn.rx_queue_len ≡ 0
      → AreRequests (entries (told conn_handler s).conn) (told conn_handler s).conn.requests
      → (s' : Session Table P) × (handler_conn_generic H locked presence entries error_connection
            conn_handler reconnect conn_connect s
          ≡ done s')
        × (s'.conn.requests
            ≡ freed_requests
                (entries (told conn_handler s).conn)
                (told conn_handler s).conn.requests)
        × (s'.conn.open_requests ≡ (told conn_handler s).conn.open_requests)
        × (s'.conn.conn_predicate ≡ true)
        × (s'.has_connected ≡ true)
        × (s'.retries ≡ 0)
  unfolding handler_conn_generic
  handler_conn_generic-Reconnects locked presence entries error_connection conn_handler reconnect s
        again idle live =
      let t : Session Table P = told conn_handler s in
      let (c', ran, left, kept) =
        reconnected-runs locked presence (entries t.conn) t.conn idle live in
      let retried : ltb 0 t.retries ≡ true = ground arith in
      (
        record t { conn = cond_broadcast c'; has_connected = true; retries = 0 },
        rw (retried, ran) refl,
        left,
        kept,
        refl,
        refl,
        refl,
      )
