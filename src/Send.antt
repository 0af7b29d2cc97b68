-- ===== src/Send.antt =====
-- `mio_send_blocking` and `mio_send_nonblocking` of src/mio_pubsub.c: one request, from its id in
-- the table to the answer. What the kernel, libstrophe and the other threads do is an argument.

pub mod Stages
pub mod Outcomes
pub mod Slots
use libmio.Base.{
  ℕ, zero, suc, ◌-◌, ◌++◌, String, Bool, true, false, not, List, [], ◌∷◌, Option, none, some,
  str_eq, ◌==◌, if◌then◌else◌,
}
use libmio.Run.{Ptr, write, Run, done, fault, blocked, ◌>>=◌, load}
use libmio.Response.{Code}
use libmio.Connection.{HashTable, Conn, request_new, request_delete, handler_id_add}

pub data Wait : Type 0 where
  signalled timed_out failed : Wait

-- One `pthread_cond_timedwait` on `conn_cond`, and `conn_predicate` when it returns.
pub record Wake : Type 0 where
  pub result : Wait
  pub connected : Bool

-- What one round of the sending loop meets: the text of the stanza, if it can be rendered; whether
-- the session is authenticated; whether the mutex of the event loop was had; and the waits for a
-- connection that may follow.
pub record Attempt : Type 0 where
  pub text : Option String
  pub authenticated : Bool
  pub locked : Bool
  pub wakes : List Wake

-- `fresh` is the address that `malloc` returns, `locked` tells whether the lock of the table was
-- had at the start, `delete_locked` whether it is had when the request is deleted, and
-- `request_locked` whether the mutex of the request is. `others` is what the other threads do between the sending and the wait for the
-- answer, `meanwhile` what they do during that wait.
pub record World (C : Type 0) : Type 0 where
  pub fresh : Ptr
  pub locked : Bool
  pub attempts : ℕ → Attempt
  pub others : C → C
  pub request_locked : Bool
  pub delete_locked : Bool
  pub meanwhile : C → C
  pub wait : Wait

abbrev pub send_retries : ℕ
send_retries = 3

abbrev pub remove_id : String → List String → List String
remove_id id [] = []
remove_id id (j ∷ js) = if str_eq j id then remove_id id js else j ∷ remove_id id js

module _ {T P : Type 0} where
  -- `mio_send_nonblocking`
  unfoldable pub send_nonblocking : Attempt → Conn T P → Code × Conn T P
  send_nonblocking a c = elim a.text [
    | none ↦ (Code.ok, c)
    | some t ↦
        if not a.authenticated
        then (Code.error_connection, c)
        else if not a.locked
        then (Code.error_mutex, c)
        else (Code.ok, record c { sent = c.sent ++ (t ∷ []) })
  ]

  -- `xmpp_id_handler_delete`
  abbrev pub handler_delete : Conn T P → String → Conn T P
  handler_delete c id = record c { handlers = remove_id id c.handlers }

  -- The loop that waits for `conn_predicate`. It gives the lock back in every round, and a wait
  -- without the lock is a fault.
  unfoldable pub reconnect_wait : List Wake → Conn T P → Run (Option Code × Conn T P)
  reconnect_wait [] c = if c.conn_predicate then done (none, c) else blocked
  reconnect_wait (w ∷ ws) c =
      let released = record c { conn_mutex_held = false; conn_predicate = w.connected } in
      let again = reconnect_wait ws released in
      if c.conn_predicate
      then done (none, c)
      else if not c.conn_mutex_held
      then fault
      else elim w.result [
        | timed_out ↦ done (some Code.error_timeout, released)
        | failed ↦ done (some Code.error_cond_wait, released)
        | signalled ↦ again
      ]

  -- `pthread_mutex_lock` of `conn_mutex`: `mio_conn_new` sets up a recursive attribute, but initialises
  -- the mutex without it
  abbrev pub lock_conn : Conn T P → Run (Conn T P)
  lock_conn c = if c.conn_mutex_held then blocked else done (record c { conn_mutex_held = true })

  -- The test of the sending loop: any other code ends it.
  abbrev on_failure :
      Code × Conn T P → (Conn T P → Run (Option Code × Conn T P)) → Run (Option Code × Conn T P)
  on_failure (Code.error_connection, c) body = body c
  on_failure (_, c) body = done (none, c)

module _ (H : HashTable) {P : Type 0} where
  open H use {Table}

  -- The end of a branch that gives up: the handler and the request go.
  unfoldable pub give_up : (locked : Bool) → Conn Table P → Ptr → Run (Conn Table P)
  give_up locked c p = do
    r ← load c.requests p
    (_, c') ← request_delete H locked (handler_delete c r.id) r.id
    done c'

  -- The body of the sending loop: wait for a connection, then go on with `next`.
  unfoldable pub retry :
      (locked : Bool)
      → List Wake
      → Ptr
      → (Conn Table P → Run (Option Code × Conn Table P))
      → Conn Table P
      → Run (Option Code × Conn Table P)
  retry locked wakes p next c = do
    held ← lock_conn c
    (early, d) ← reconnect_wait wakes held
    elim early [ none ↦ next d | some e ↦ do d' ← give_up locked d p; done (some e, d') ]

  -- The loop that sends, from the round with the given number; `left` rounds may follow. The
  -- result has a code where the function returns from here.
  unfoldable pub send_loop :
      World (Conn Table P)
      → (left round : ℕ) → Conn Table P
      → Ptr
      → Run (Option Code × Conn Table P)
  send_loop w zero round c p =
      on_failure (send_nonblocking (w.attempts round) c)
        λ c'. do d ← give_up w.delete_locked c' p; done (some Code.error_connection, d)
  send_loop w (suc left) round c p =
      on_failure (send_nonblocking (w.attempts round) c)
        (retry w.delete_locked (w.attempts round).wakes p (λ d. send_loop w left (suc round) d p))

  -- The wait for the answer. The branches that fail report the request's id after `give_up`.
  unfoldable pub response_wait :
      World (Conn Table P) → Conn Table P → Ptr → Run (Code × Conn Table P)
  response_wait w c p = do
    r ← load c.requests p
    let waited = w.meanwhile c
    if r.predicate
        then done (Code.error_predicate, c)
        else if not w.request_locked
        then done (Code.error_mutex, c)
        else elim w.wait [
          | timed_out ↦ do
            d ← give_up w.delete_locked waited p
            _ ← load d.requests p
            done (Code.error_timeout, d)
          | failed ↦ do
            d ← give_up w.delete_locked waited p
            _ ← load d.requests p
            done (Code.error_cond_wait, d)
          | signalled ↦ do
            r' ← load waited.requests p
            (_, d) ← request_delete H w.delete_locked waited r'.id
            done (Code.ok, d)
        ]

  -- `mio_send_blocking`
  unfoldable pub send_blocking :
      World (Conn Table P) → Conn Table P → Ptr → String → Ptr → Run (Code × Conn Table P)
  send_blocking w c handler stanza_id response = do
    let created = record c { requests = write c.requests w.fresh (some request_new) }
    waited ←
        if c.open_requests == 0
        then blocked
        else done (record created { open_requests = c.open_requests - 1 })
    (_, added) ← handler_id_add H w.locked waited handler stanza_id w.fresh response
    (early, tried) ← send_loop w (send_retries - 1) 0 added w.fresh
    elim early [ some code ↦ done (code, tried) | none ↦ response_wait w (w.others tried) w.fresh ]
