-- ===== src/Receive.antt =====
-- Receiving publications: `mio_pubsub_data_listen_start`, `mio_pubsub_data_listen_stop`,
-- `mio_pubsub_data_receive` and `mio_handler_pubsub_data_receive` of src/mio_pubsub.c, with
-- `mio_handler_add` and `mio_handler_generic` of src/mio_handlers.c.
pub mod Delivered
use libmio.Base.{
  String, Bool, true, false, not, List, [], ◌∷◌, ◌++◌, Option, none, some, str_eq, ltb, ◌==◌, ◌-◌,
  ◌||◌, if◌then◌else◌,
}
use libmio.Run.{Ptr, write, Run, done, fault, blocked, ◌>>=◌, load}
use libmio.Response.{Code, Response, ResponseType, PacketType, packet, packet_new}
use libmio.Handlers.{Document, xml_parse}
use libmio.Connection.{
  HashTable, Conn, Presence, handler, request_new, request_get, request_add, request_delete,
  cond_signal, rx_queue_enqueue, rx_queue_dequeue,
}
use libmio.Connection.Reconnect.{listen_start}
use libmio.Answer.{or_fault}
use libmio.Transducer.{MioData, data_new}
use libmio.Transducer.Query.{Receiving, data_reader}

abbrev pub data_rx : String
data_rx = "pubsub_data_rx"

-- One wait for the request, or one round without a wait: whether the mutex was had, what the other
-- threads do meanwhile, and whether the wait succeeds.
pub record Turn (C : Type 0) : Type 0 where
  pub locked : Bool
  pub others : C → C
  pub woken : Bool

-- `locked` tells whether the lock of the table is had, `register` is `xmpp_handler_add`, `uuid` and
-- `fresh` are what `uuid_generate` and `malloc` return, and `address` is that of the handler.
pub record Surroundings (C : Type 0) : Type 0 where
  pub locked : Bool
  pub presence : String
  pub register : C → C
  pub uuid : String
  pub fresh : Ptr
  pub address : Ptr
  pub turns : List (Turn C)

module _ {T P : Type 0} where
  -- `mio_listen_stop` of src/mio_connection.c
  unfoldable pub listen_stop : (presence : String) → Conn T P → Code × Conn T P
  listen_stop presence c = if not c.authenticated then (Code.error_disconnected, c) else (
    Code.ok,
    record c { sent = c.sent ++ (presence ∷ []); presence_status = Presence.unavailable },
  )

  -- The server is told that this client is there, once.
  abbrev pub seen : (presence : String) → Conn T P → Conn T P
  seen presence c = elim c.presence_status [
    | Presence.present ↦ c
    | _ ↦ (listen_start presence c).1
  ]

  -- The copy of what a handler is registered for into its response; `response->name` is `NULL`.
  abbrev pub label_response : (name : Option String) → Option Ptr → Conn T P → Run (Conn T P)
  label_response name none c = done c
  label_response none (some a) c = do _ ← load c.responses a; done c
  label_response (some n) (some a) c = fault

  -- A received response goes to the caller's.
  abbrev pub hand_over : (response rx : Ptr) → Conn T P → Run (Code × Conn T P)
  hand_over response rx c = do
    a ← load c.responses rx
    _ ← load c.responses response
    done (Code.ok, record c { responses = write (write c.responses response (some a)) rx none })

  -- Whether the outer loop of `mio_pubsub_data_receive` ends.
  abbrev pub is_over : Conn T P → Bool
  is_over c = ltb 0 c.rx_queue_len || not c.rx_listening

module _ (H : HashTable) {P : Type 0} where
  open H use {Table}

  -- `mio_handler_add`
  unfoldable pub handler_add :
      Surroundings (Conn Table P)
      → (ns name type : Option String) (request response : Option Ptr) → Conn Table P
      → Run (Code × Conn Table P)
  handler_add s none none none request response c = done (Code.error_handler_add, c)
  handler_add s ns name type request response c = do
    d ← label_response name response c
    elim request [
      | none ↦ done (Code.ok, s.register d)
      | some p ↦ do
        r ← load d.requests p
        let id = if str_eq r.id "" then s.uuid else r.id
        let named = record d { requests = write d.requests p (some (record r { id = id })) }
        (err, e) ← request_add H s.locked named id s.address handler response p
        done (err, elim err [ Code.ok ↦ s.register e | _ ↦ e ])
    ]

  -- `mio_handler_generic`, with whether libstrophe keeps the handler
  unfoldable pub handler_generic :
      (Conn Table P → Run (Code × Conn Table P)) → Conn Table P → Run (Bool × Conn Table P)
  handler_generic f c = do
    (code, d) ← f c
    done (elim code [ Code.handler_remove ↦ false | _ ↦ true ], d)

  abbrev pub if_listening : Code × Conn Table P → Code × Conn Table P
  if_listening (Code.ok, c) = (Code.ok, record c { rx_listening = true })
  if_listening (code, c) = (code, c)

  -- `mio_pubsub_data_listen_start`. `sem_wait` blocks where no slot is free.
  unfoldable pub data_listen_start :
      Surroundings (Conn Table P) → Conn Table P → Run (Code × Conn Table P)
  data_listen_start s c =
      if not c.authenticated
      then done (Code.error_disconnected, c)
      else (let here = seen s.presence c in
          if here.open_requests == 0 then blocked else do
            let made = record here {
              requests = write here.requests s.fresh (some (record request_new { id = data_rx }));
              open_requests = here.open_requests - 1;
            }
            added ←
                handler_add s (some "http://jabber.org/protocol/pubsub#event") none none
                  (some s.fresh) none made
            done (if_listening added))

  -- `mio_pubsub_data_listen_stop`
  unfoldable pub data_listen_stop : (locked : Bool) → Conn Table P → Run (Code × Conn Table P)
  data_listen_stop locked c = elim (request_get H locked c data_rx) [
    | none ↦ done (Code.ok, c)
    | some p ↦ do
      d ← cond_signal H (record c { rx_listening = false }) p
      (_, e) ← request_delete H locked d data_rx
      done (Code.ok, e)
  ]

  -- The loops of `mio_pubsub_data_receive`, from the test of the predicate. The outer loop goes
  -- round without a wait as long as the predicate is set.
  unfoldable pub data_wait :
      List (Turn (Conn Table P)) → Ptr → Conn Table P → Run (Option Code × Conn Table P)
  data_wait [] p c = do
    r ← load c.requests p
    if r.predicate then (if is_over c then done (none, c) else blocked) else blocked
  data_wait (t ∷ ts) p c =
      let again = data_wait ts p (t.others c) in
      load c.requests p >>= λ r.
      if r.predicate
      then (if is_over c then done (none, c) else again)
      else if not t.locked
      then done (some Code.error_mutex, c)
      else if t.woken
      then again
      else (do _ ← load (t.others c).requests p; done (some Code.error_cond_wait, t.others c))

  -- From the wait on, with the request.
  unfoldable pub receive_next :
      List (Turn (Conn Table P)) → Ptr → (response : Ptr) → Conn Table P → Run (Code × Conn Table P)
  receive_next turns p response c = do
    (early, d) ← if is_over c then done (none, c) else data_wait turns p c
    elim early [
      | some e ↦ done (e, d)
      | none ↦ do
        r ← load d.requests p
        let reset = record d {
          requests = write d.requests p (some (record r { predicate = false }));
        }
        (rx, e) ← rx_queue_dequeue reset
        elim rx [ none ↦ done (Code.error_no_response, e) | some q ↦ hand_over response q e ]
    ]

  -- What follows `mio_pubsub_data_listen_start`; without a request the loop reads through `NULL`.
  abbrev pub receive_first :
      Surroundings (Conn Table P)
      → (response : Ptr) → Code × Conn Table P
      → Run (Code × Conn Table P)
  receive_first s response (Code.ok, c) = elim (request_get H s.locked c data_rx) [
    | none ↦ fault
    | some p ↦ receive_next s.turns p response c
  ]
  receive_first s response (code, c) = done (code, c)

  -- The listening is started where there is no request yet.
  abbrev pub receive_with :
      Surroundings (Conn Table P)
      → (response : Ptr) → Conn Table P
      → Option Ptr
      → Run (Code × Conn Table P)
  receive_with s response c (some p) = receive_next s.turns p response c
  receive_with s response c none = data_listen_start s c >>= receive_first s response

  -- `mio_pubsub_data_receive`
  unfoldable pub data_receive :
      Surroundings (Conn Table P) → (response : Ptr) → Conn Table P → Run (Code × Conn Table P)
  data_receive s response c = if not c.authenticated then done (Code.error_disconnected, c) else do
    (rx, d) ← rx_queue_dequeue c
    elim rx [
      | some q ↦ hand_over response q d
      | none ↦ receive_with s response d (request_get H s.locked d data_rx)
    ]

-- The response that the handler makes, with its packet.
abbrev pub data_response : Receiving
data_response = record {
  response = record {
    id = data_rx;
    response_type = ResponseType.unknown;
    response = packet (record (packet_new data_new) { type = PacketType.data_packet });
  };
  pointed = false;
}

module _ (H : HashTable) where
  open H use {Table}

  -- Behind the parser: a publication is queued and signalled; anything else is dropped.
  abbrev pub publication :
      (fresh p : Ptr) → Conn Table MioData → Code × Receiving → Run (Code × Conn Table MioData)
  publication fresh p c (Code.ok, s) = elim s.response.response_type [
    | ResponseType.packet ↦ do
      d ←
          rx_queue_enqueue (record c { responses = write c.responses fresh (some s.response) })
            fresh
      e ← cond_signal H d p
      done (Code.handler_keep, e)
    | _ ↦ done (Code.handler_keep, c)
  ]
  publication fresh p c (code, s) = done (code, c)

  -- `mio_handler_pubsub_data_receive`, without a response, as it is registered; `fresh` is the
  -- address of the one it makes.
  unfoldable pub handler_data_receive :
      (locked : Bool) (now : String) (fresh : Ptr)
      → Document
      → Conn Table MioData
      → Run (Code × Conn Table MioData)
  handler_data_receive locked now fresh document c = elim (request_get H locked c data_rx) [
    | none ↦ done (Code.error_request_not_found, c)
    | some p ↦ do
      read ← or_fault (xml_parse (data_reader now) data_response document)
      publication fresh p c read
  ]
