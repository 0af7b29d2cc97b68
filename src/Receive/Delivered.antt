-- ===== src/Receive/Delivered.antt =====
-- One publication from the handler to the caller that waits for it.
use libmio.Base.{
  ◌+◌, ◌≡◌, ◌≢◌, refl, ap, sym, ◌∙◌, String, true, false, List, [], ◌∷◌, none, some, arith,
}
use libmio.Run.{
  Ptr, write, done, fault, run_or, load-some, load-none, load-write, write-same, write-other,
  write-write,
}
use libmio.Response.{Code, Response, ResponseType}
use libmio.Handlers.{Document, xml_parse}
use libmio.Connection.{
  HashTable, Conn, Request, request_get, request_delete, cond_signal, rx_queue_enqueue,
  rx_queue_dequeue,
}
use libmio.Transducer.{MioData}
use libmio.Transducer.Query.{Receiving, data_reader}
use libmio.Receive.{
  data_rx, Turn, Surroundings, data_listen_stop, data_wait, receive_next, data_receive,
  data_response, handler_data_receive,
}

module _ (H : HashTable) where
  open H use {Table, find, del}

  abbrev pub C : Type 0
  C = Conn Table MioData

  -- A client that listens, without a publication in its queue; its request is at `p`.
  pub record Listens (c : C) (p : Ptr) (r : Request) : Type 0 where
    pub authenticated : c.authenticated ≡ true
    pub empty : c.rx_queue ≡ []
    pub counted : c.rx_queue_len ≡ 0
    pub listening : c.rx_listening ≡ true
    pub found : find c.table data_rx ≡ some p
    pub allocated : c.requests p ≡ some r
    pub quiet : r.predicate ≡ false

  -- The event loop hands a publication to the handler during a wait that succeeds.
  abbrev pub published : (now : String) (fresh : Ptr) → Document → Turn C
  published now fresh document = record {
    locked = true;
    others = λ d. (run_or (Code.ok, d) (handler_data_receive H true now fresh document d)).1;
    woken = true;
  }

  -- Another thread stops the listening, and the waiter goes on once that is done.
  abbrev pub stopped : Turn C
  stopped = record {
    locked = true;
    others = λ d. (run_or (Code.ok, d) (data_listen_stop H true d)).1;
    woken = true;
  }

  -- Such a client, with its fields written out.
  abbrev idle : C → C
  idle c = record c { authenticated = true; rx_queue = []; rx_queue_len = 0; rx_listening = true }

  Listens-idle : (c : C) (p : Ptr) (r : Request) → Listens c p r → c ≡ idle c
  Listens-idle c p r l = grind (arith, l.authenticated, l.empty, l.counted, l.listening)

  abbrev queued : (fresh p : Ptr) → Request → Response MioData → C → C
  queued fresh p r a c = record (idle c) {
    responses = write c.responses fresh (some a);
    rx_queue = fresh ∷ [];
    rx_queue_len = 1;
    requests = write c.requests p (some (record r { predicate = true }));
  }

  handler_data_receive-queued :
      (now : String) (fresh p : Ptr) (document : Document) (c : C) (r : Request) (s : Receiving)
      → find c.table data_rx ≡ some p
      → c.requests p ≡ some r
      → xml_parse (data_reader now) data_response document ≡ some (Code.ok, s)
      → s.response.response_type ≡ ResponseType.packet
      → handler_data_receive H true now fresh document (idle c)
        ≡ done (Code.handler_keep, queued fresh p r s.response c)
  unfolding handler_data_receive request_get rx_queue_enqueue cond_signal
  handler_data_receive-queued now fresh p document c r s found here parsed marked =
      simp (handler_data_receive, found, parsed, marked, load-some c.requests p r here)

  data_wait-over :
      (ts : List (Turn C)) (p : Ptr) (c : C) (r : Request)
      → c.requests p ≡ some (record r { predicate = true })
      → data_wait H ts p (record c { rx_queue_len = 1 })
        ≡ done (none, record c { rx_queue_len = 1 })
  unfolding data_wait
  data_wait-over [] p c r here = rw (load-some c.requests p _ here)
  data_wait-over (t ∷ ts) p c r here = rw (load-some c.requests p _ here)

  -- The connection once the publication is handed over.
  abbrev received : (fresh p response : Ptr) → Request → Response MioData → C → C
  received fresh p response r a c = record (idle c) {
    responses = write (write (write c.responses fresh (some a)) response (some a)) fresh none;
    requests = write c.requests p (some (record r { predicate = false }));
  }

  receive_next-received :
      (now : String) (fresh p response : Ptr) (document : Document) (turns : List (Turn C)) (c : C)
      (r : Request) (s : Receiving) (old : Response MioData)
      → find c.table data_rx ≡ some p
      → c.requests p ≡ some (record r { predicate = false })
      → response ≢ fresh
      → c.responses response ≡ some old
      → xml_parse (data_reader now) data_response document ≡ some (Code.ok, s)
      → s.response.response_type ≡ ResponseType.packet
      → receive_next H (published now fresh document ∷ turns) p response (idle c)
        ≡ done (Code.ok, received fresh p response r s.response c)
  unfolding receive_next data_wait rx_queue_dequeue
  receive_next-received now fresh p response document turns c r s old found here other caller parsed
        marked =
      let d : C = queued fresh p r s.response c in
      let set : d.requests p ≡ some (record r { predicate = true }) = write-same c.requests p _ in
      simp (
        load-some c.requests p _ here,
        handler_data_receive-queued now fresh p document c _ s found here parsed marked,
        data_wait-over turns p d r set,
        load-some d.requests p _ set,
        write-write c.requests p (some (record r { predicate = true }))
            (some (record r { predicate = false })),
        load-write c.responses fresh s.response,
        load-some d.responses response old (
            write-other c.responses fresh response (some s.response) (λ e. other (sym e)) ∙ caller),
      )

  quiet_request : (r : Request) → r.predicate ≡ false → r ≡ record r { predicate = false }
  quiet_request r quiet = grind (arith, quiet)

  -- The connection once another thread has stopped the listening.
  abbrev freed : Ptr → Request → C → C
  freed p r c = record (idle c) {
    requests = write (write c.requests p (some (record r { predicate = true }))) p none;
    table = del c.table data_rx;
    open_requests = c.open_requests + 1;
    rx_listening = false;
  }

  data_wait-freed :
      (ts : List (Turn C)) (p : Ptr) (c : C) → c.requests p ≡ none → data_wait H ts p c ≡ fault
  unfolding data_wait
  data_wait-freed [] p c gone = rw (load-none c.requests p gone)
  data_wait-freed (t ∷ ts) p c gone = rw (load-none c.requests p gone)

  receive_next-stopped :
      (p response : Ptr) (turns : List (Turn C)) (c : C) (r : Request)
      → find c.table data_rx ≡ some p
      → c.requests p ≡ some (record r { predicate = false })
      → receive_next H (stopped ∷ turns) p response (idle c) ≡ fault
  unfolding receive_next data_wait data_listen_stop request_delete cond_signal request_get
  receive_next-stopped p response turns c r found here = simp (
    load-some c.requests p _ here,
    data_listen_stop,
    found,
    load-write c.requests p (record r { predicate = true }),
    data_wait-freed turns p (freed p r c) (write-same _ p none),
  )

  -- One publication from the event loop to its receiver: when an authenticated client listens, its
  -- queue is empty, its request is allocated in the table with its predicate not set, the caller's
  -- response is allocated and is not what malloc returns for the handler, and during the first
  -- wait, which succeeds, the event loop hands over a document that the callbacks read as a
  -- packet: mio_pubsub_data_receive returns MIO_OK, the caller's response is what the handler
  -- read, the handler's response is freed, and the client listens as before, with an empty queue
  -- and the predicate not set.
  pub data_receive-received :
      (now : String) (fresh p response : Ptr) (document : Document) (s : Surroundings C)
      (turns : List (Turn C)) (c : C) (r : Request) (a : Receiving) (old : Response MioData)
      → s.locked ≡ true
      → s.turns ≡ published now fresh document ∷ turns
      → Listens c p r
      → response ≢ fresh
      → c.responses response ≡ some old
      → xml_parse (data_reader now) data_response document ≡ some (Code.ok, a)
      → a.response.response_type ≡ ResponseType.packet
      → (d : C) × (data_receive H s response c ≡ done (Code.ok, d))
        × (d.responses response ≡ some a.response)
        × (d.responses fresh ≡ none)
        × Listens d p r
  unfolding data_receive rx_queue_dequeue request_get
  data_receive-received now fresh p response document s turns c r a old locked said l other caller
        parsed marked =
      let same = quiet_request r l.quiet in
      let filled = write (write c.responses fresh (some a.response)) response (some a.response) in
      (
        received fresh p response r a.response c,
        ap (data_receive H s response) (Listens-idle c p r l)
            ∙ simp (locked, l.found, said)
                (receive_next-received now fresh p response document turns c r a old l.found
                  (l.allocated ∙ ap some same) other caller parsed marked),
        write-other filled fresh response none (λ e. other (sym e)) ∙ write-same _ response _,
        write-same filled fresh none,
        record {
          authenticated = refl;
          empty = refl;
          counted = refl;
          listening = refl;
          found = l.found;
          allocated = write-same c.requests p _ ∙ ap some (sym same);
          quiet = l.quiet;
        },
      )

  -- When an authenticated client listens, its queue is empty, and its request is allocated in the
  -- table with its predicate not set: if another thread calls mio_pubsub_data_listen_stop during
  -- the wait of mio_pubsub_data_receive, and the waiter goes on only once that call has returned,
  -- the waiter reads the request that was freed: undefined behaviour.
  pub data_receive-stopped :
      (p response : Ptr) (s : Surroundings C) (turns : List (Turn C)) (c : C) (r : Request)
      → s.locked ≡ true
      → s.turns ≡ stopped ∷ turns
      → Listens c p r
      → data_receive H s response c ≡ fault
  unfolding data_receive rx_queue_dequeue request_get
  data_receive-stopped p response s turns c r locked said l =
      ap (data_receive H s response) (Listens-idle c p r l)
      ∙ simp (locked, l.found, said)
          (receive_next-stopped p response turns c r l.found
            (l.allocated ∙ ap some (quiet_request r l.quiet)))
