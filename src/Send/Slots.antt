-- ===== src/Send/Slots.antt =====
-- What goes wrong around the limit on open requests and around a lost connection.
use libmio.Base.{
  ℕ, suc, ◌≡◌, refl, sym, subst, ◌<◌, ◌∙◌, String, Bool, true, false, Option, none, some, arith,
  ◌==◌, List, [], ◌∷◌, ◌++◌,
}
use libmio.Run.{Ptr, write, Run, done, blocked, load-some, write-same}
use libmio.Response.{Code, Response}
use libmio.Connection.{HashTable, Conn, Request, request_new, request_delete, handler_id_add}
use libmio.Connection.Requests.{handler_id_add-full, handler_id_add-free}
use libmio.Send.Stages.{send_loop-ok, started, send_blocking-stages}
use libmio.Send.{
  retry, World, Wake, Attempt, timed_out, send_nonblocking, reconnect_wait, give_up, send_loop,
  response_wait, send_blocking, handler_delete,
}

module _ (H : HashTable) {P : Type 0} where
  open H use {Table, find}

  -- `f` leaves an unregistered request at `p`, and the number of slots, alone.
  abbrev pub Leaves : Ptr → (Conn Table P → Conn Table P) → Type 0
  Leaves p f =
      (d : Conn Table P) (r : Request)
      → d.requests p ≡ some r
      → find d.table r.id ≡ none
      → ((f d).requests p ≡ some r)
        × (find (f d).table r.id ≡ none)
        × ((f d).open_requests ≡ d.open_requests)

  give_up-missing :
      (locked : Bool) (d : Conn Table P) (p : Ptr) (r : Request)
      → d.requests p ≡ some r
      → find d.table r.id ≡ none
      → give_up H locked d p ≡ done (handler_delete d r.id)
  unfolding give_up request_delete
  give_up-missing true d p r here missing = rw (load-some d.requests p r here, missing)
  give_up-missing false d p r here missing = rw (load-some d.requests p r here)

  response_wait-unregistered :
      (w : World (Conn Table P)) (d e : Conn Table P) (p : Ptr) (r r' : Request)
      → d.requests p ≡ some r
      → r.predicate ≡ false
      → w.request_locked ≡ true
      → w.wait ≡ timed_out
      → give_up H w.delete_locked (w.meanwhile d) p ≡ done e
      → e.requests p ≡ some r'
      → response_wait H w d p ≡ done (Code.error_timeout, e)
  unfolding response_wait
  response_wait-unregistered w d e p r r' here quiet locked wait ended there =
      rw
        (load-some d.requests p r here, quiet, locked, wait, ended, load-some e.requests p r' there)

  send_nonblocking-sent :
      (a : Attempt) (c : Conn Table P) {t : String}
      → a.text ≡ some t
      → a.authenticated ≡ true
      → a.locked ≡ true
      → send_nonblocking a c ≡ (Code.ok, record c { sent = c.sent ++ (t ∷ []) })
  unfolding send_nonblocking
  send_nonblocking-sent a c e session lock = rw (e, session, lock)

  -- When one slot is free, the id is not in the table, the response is allocated, the stanza can
  -- be rendered, the first attempt is taken, the mutex of the request is had, the other threads
  -- leave the unregistered request and the slots alone, and the wait times out: mio_handler_id_add
  -- returns MIO_ERROR_TOO_MANY_OPEN_REQUESTS, and the stanza is sent behind it all the same;
  -- mio_send_blocking returns MIO_ERROR_TIMEOUT, with no slot free and the request still
  -- allocated.
  pub send_blocking-last_slot :
      (w : World (Conn Table P)) (c : Conn Table P) (handler : Ptr) (id : String) (response : Ptr)
      {a : Response P} {t : String}
      → c.open_requests ≡ 1
      → find c.table id ≡ none
      → c.responses response ≡ some a
      → (w.attempts 0).text ≡ some t
      → (w.attempts 0).authenticated ≡ true
      → (w.attempts 0).locked ≡ true
      → w.request_locked ≡ true
      → Leaves w.fresh w.others
      → Leaves w.fresh w.meanwhile
      → w.wait ≡ timed_out
      → (e : Conn Table P) × (d : Conn Table P) × (r : Request) × (handler_id_add H w.locked
            (started H w c)
            handler
            id
            w.fresh
            response
          ≡ done (Code.error_too_many_open_requests, e))
        × (send_nonblocking (w.attempts 0) e ≡ (Code.ok, record e { sent = c.sent ++ (t ∷ []) }))
        × (send_blocking H w c handler id response ≡ done (Code.error_timeout, d))
        × (d.open_requests ≡ 0)
        × (d.requests w.fresh ≡ some r)
  send_blocking-last_slot w c handler id response {a} {t} one unused answerable text session lock
        rlock left left' wait =
      let r : Request = record request_new { id = id } in
      let added : Conn Table P = record (started H w c) {
        requests = write (started H w c).requests w.fresh (some r);
        responses = write c.responses response (some (record a { id = id }));
      } in
      let full =
        handler_id_add-full H (started H w c) handler id w.fresh response w.locked {r = request_new}
          {a = a} (write-same c.requests w.fresh (some request_new)) answerable (omega arith) in
      let d : Conn Table P = record added { sent = c.sent ++ (t ∷ []) } in
      let sent = send_nonblocking-sent (w.attempts 0) added text session lock in
      let waits =
        send_blocking-stages H w c added d handler id response _ (ground arith) full
          (send_loop-ok H w 2 0 added d w.fresh sent) in
      let here = write-same (started H w c).requests w.fresh (some r) in
      let (here', missing, slots) = left d r here unused in
      let (there, missing', slots') = left' (w.others d) r here' missing in
      (
        added,
        handler_delete (w.meanwhile (w.others d)) id,
        r,
        full,
        sent,
        waits
            ∙ response_wait-unregistered w (w.others d) _ w.fresh r r here' refl rlock wait
                (give_up-missing w.delete_locked (w.meanwhile (w.others d)) w.fresh r there
                  missing')
                there,
        omega (arith, slots, slots'),
        there,
      )

  reconnect_wait-connected :
      (ws : List Wake) (c : Conn Table P)
      → c.conn_predicate ≡ true
      → reconnect_wait ws c ≡ done (none, c)
  unfolding reconnect_wait
  reconnect_wait-connected [] c e = rw e
  reconnect_wait-connected (w ∷ ws) c e = rw e

  send_nonblocking-down :
      (a : Attempt) (c : Conn Table P) {t : String}
      → a.text ≡ some t
      → a.authenticated ≡ false
      → send_nonblocking a c ≡ (Code.error_connection, c)
  unfolding send_nonblocking
  send_nonblocking-down a c e no_session = rw (e, no_session)

  retry-held :
      (locked : Bool) (ws : List Wake) (p : Ptr)
      (next : Conn Table P → Run (Option Code × Conn Table P)) (c : Conn Table P)
      → c.conn_mutex_held ≡ true
      → retry H locked ws p next c ≡ blocked
  unfolding retry
  retry-held locked ws p next c held = rw held

  retry-connected :
      (locked : Bool) (ws : List Wake) (p : Ptr)
      (next : Conn Table P → Run (Option Code × Conn Table P)) (c : Conn Table P)
      → c.conn_mutex_held ≡ false
      → c.conn_predicate ≡ true
      → retry H locked ws p next c ≡ next (record c { conn_mutex_held = true })
  unfolding retry
  retry-connected locked ws p next c free connected =
      rw (free, reconnect_wait-connected ws (record c { conn_mutex_held = true }) connected)

  round_of :
      World (Conn Table P)
      → (left round : ℕ) → Ptr
      → Conn Table P
      → Run (Option Code × Conn Table P)
  round_of w left round p d = send_loop H w left round d p

  send_loop-down :
      (w : World (Conn Table P)) (left round : ℕ) (c : Conn Table P) (p : Ptr) {t : String}
      → (w.attempts round).text ≡ some t
      → (w.attempts round).authenticated ≡ false
      → send_loop H w (suc left) round c p
        ≡ retry H w.delete_locked (w.attempts round).wakes p (round_of w left (suc round) p) c
  unfolding send_loop round_of
  send_loop-down w left round c p text down =
      rw (send_nonblocking-down (w.attempts round) c text down)

  send_loop-blocked :
      (w : World (Conn Table P)) (c : Conn Table P) (p : Ptr) {s t : String}
      → (w.attempts 0).text ≡ some s
      → (w.attempts 0).authenticated ≡ false
      → (w.attempts 1).text ≡ some t
      → (w.attempts 1).authenticated ≡ false
      → c.conn_mutex_held ≡ false
      → c.conn_predicate ≡ true
      → send_loop H w 2 0 c p ≡ blocked
  unfolding round_of
  send_loop-blocked w c p text down text' down' free connected =
      let held : Conn Table P = record c { conn_mutex_held = true } in
      send_loop-down w 1 0 c p text down
      ∙ retry-connected w.delete_locked (w.attempts 0).wakes p (round_of w 1 1 p) c free connected
      ∙ send_loop-down w 0 1 held p text' down'
      ∙ retry-held w.delete_locked (w.attempts 1).wakes p (round_of w 0 2 p) held refl

  -- When more than one slot is free, the id is not in the table, the response is allocated, the
  -- lock of the table is had, conn_mutex is free and conn_predicate is set: where the first two
  -- attempts have a text and meet a session that is not authenticated, the call blocks for ever,
  -- since the first leaves conn_mutex locked, and the second locks it again.
  pub send_blocking-deadlock :
      (w : World (Conn Table P)) (c : Conn Table P) (handler : Ptr) (id : String) (response : Ptr)
      {a : Response P} {s t : String}
      → 1 < c.open_requests
      → find c.table id ≡ none
      → c.responses response ≡ some a
      → w.locked ≡ true
      → (w.attempts 0).text ≡ some s
      → (w.attempts 0).authenticated ≡ false
      → (w.attempts 1).text ≡ some t
      → (w.attempts 1).authenticated ≡ false
      → c.conn_mutex_held ≡ false
      → c.conn_predicate ≡ true
      → send_blocking H w c handler id response ≡ blocked
  unfolding send_blocking
  send_blocking-deadlock w c handler id response room unused answerable locked text down text' down'
        free connected =
      let (added, registered, reg) =
        handler_id_add-free H (started H w c) handler id w.fresh response {r = request_new}
          (write-same c.requests w.fresh (some request_new)) answerable unused (omega arith) refl in
      let busy : (c.open_requests == 0) ≡ false = ground arith in
      let stuck =
        send_loop-blocked w added w.fresh text down text' down' (reg.mutex ∙ free)
          (reg.connected ∙ connected) in
      rw busy (
        rw
          (subst
            (λ b.
              handler_id_add H b (started H w c) handler id w.fresh response
              ≡ done (Code.ok, added))
            (sym locked) registered)
          (rw stuck))
