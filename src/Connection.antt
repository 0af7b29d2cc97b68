-- ===== src/Connection.antt =====
-- The connection of src/mio_connection.h and src/mio_connection.c: the table of open requests and
-- the queue of received publications. Requests and responses are objects in stores, since the
-- threads share them by pointers. `P` is what a packet's payload points to.
pub mod Queue
pub mod Requests
pub mod Clear
pub mod Reconnect
use libmio.Base.{
  ℕ, zero, suc, ◌+◌, ◌-◌, ◌≡◌, refl, String, Bool, true, false, not, List, [], ◌∷◌, ◌++◌, Option,
  none, some, str_eq, ◌==◌, ltb, leb, if◌then◌else◌,
}
use libmio.Run.{Ptr, Store, write, Run, done, fault, ◌>>=◌, load}
use libmio.Response.{Code, Response}

-- What the code calls of uthash: `HASH_FIND_STR`, `HASH_ADD_STR` and `HASH_DEL` of an entry that
-- was just found. An entry is the pointer to a request.
pub record HashTable : Type 1 where
  pub Table : Type 0
  pub empty : Table
  pub find : Table → String → Option Ptr
  pub add : Table → String → Ptr → Table
  pub del : Table → String → Table
  pub find-empty : (k : String) → find empty k ≡ none
  pub find-add :
      (t : Table) (k j : String) (p : Ptr)
      → find t k ≡ none
      → find (add t k p) j ≡ (if str_eq k j then some p else find t j)
  pub find-del :
      (t : Table) (k j : String) → find (del t k) j ≡ (if str_eq k j then none else find t j)

-- Tables as functions.
abbrev pub functions : HashTable
functions = record {
  Table = String → Option Ptr;
  empty = λ _. none;
  find = λ t k. t k;
  add = λ t k p j. if str_eq k j then some p else t j;
  del = λ t k j. if str_eq k j then none else t j;
  find-empty = λ _. refl;
  find-add = λ _ _ _ _ _. refl;
  find-del = λ _ _ _. refl;
}

pub data HandlerType : Type 0 where
  handler handler_id handler_timed : HandlerType

-- `handler` is the address of the function.
pub record Request : Type 0 where
  pub id : String
  pub predicate : Bool
  pub handler : Option Ptr
  pub handler_type : HandlerType
  pub response : Option Ptr

pub data Presence : Type 0 where
  unknown present unavailable : Presence

-- `open_requests` is the value of the semaphore, `handlers` the ids for which libstrophe has a
-- handler, `sent` what was handed to it, oldest first. `conn_mutex_held` tells whether the calling
-- thread holds `conn_mutex`.
pub record Conn (T P : Type 0) : Type 0 where
  pub requests : Store Request
  pub responses : Store (Response P)
  pub table : T
  pub open_requests : ℕ
  pub handlers : List String
  pub sent : List String
  pub authenticated : Bool
  pub presence_status : Presence
  pub conn_predicate : Bool
  pub conn_mutex_held : Bool
  pub rx_queue : List Ptr
  pub rx_queue_len : ℕ
  pub rx_listening : Bool

abbrev pub rx_queue_max_len : ℕ
rx_queue_max_len = 100

abbrev pub request_new : Request
request_new = record {
  id = "";
  predicate = false;
  handler = none;
  handler_type = handler;
  response = none;
}

-- `TAILQ_REMOVE` of `TAILQ_FIRST`, a fault where there is no first
abbrev rest : List Ptr → Run (Ptr × List Ptr)
rest [] = fault
rest (p ∷ q) = done (p, q)

-- `mio_response_free`
abbrev pub response_free : {P : Type 0} → Store (Response P) → Option Ptr → Run (Store (Response P))
response_free h none = done h
response_free h (some p) = do _ ← load h p; done (write h p none)

module _ {T P : Type 0} where
  -- `_mio_pubsub_rx_queue_enqueue`
  unfoldable pub rx_queue_enqueue : Conn T P → Ptr → Run (Conn T P)
  rx_queue_enqueue c p =
      if leb rx_queue_max_len c.rx_queue_len
      then (do (oldest, q) ← rest c.rx_queue; done (record c { rx_queue = q ++ (p ∷ []) }))
      else done (record c { rx_queue = c.rx_queue ++ (p ∷ []); rx_queue_len = c.rx_queue_len + 1 })

  -- `_mio_pubsub_rx_queue_dequeue`
  unfoldable pub rx_queue_dequeue : Conn T P → Run (Option Ptr × Conn T P)
  rx_queue_dequeue c =
      if ltb 0 c.rx_queue_len
      then (do
        (p, q) ← rest c.rx_queue
        done (some p, record c { rx_queue = q; rx_queue_len = c.rx_queue_len - 1 }))
      else done (none, c)

  -- The loop of `mio_pubsub_data_rx_queue_clear`, which frees what it unlinks next. `none` is the end
  -- of the fuel.
  pub clear_loop : (fuel : ℕ) → Option Ptr → Conn T P → Run (Option (Conn T P))
  clear_loop fuel none c = done (some c)
  clear_loop zero (some p) c = done none
  clear_loop (suc fuel) (some p) c = do
    (next, c') ← rx_queue_dequeue c
    h ← response_free c'.responses next
    clear_loop fuel next (record c' { responses = h })

  -- `mio_pubsub_data_rx_queue_clear` of src/mio_pubsub.c
  unfoldable pub rx_queue_clear : (fuel : ℕ) → Conn T P → Run (Option (Conn T P))
  unfolding clear_loop
  rx_queue_clear fuel c = do (first, c') ← rx_queue_dequeue c; clear_loop fuel first c'

module _ (H : HashTable) {P : Type 0} where
  open H use {Table, find, add, del}

  -- `_mio_request_get`; `locked` tells whether the lock was had.
  unfoldable pub request_get : (locked : Bool) → Conn Table P → String → Option Ptr
  request_get locked c id = if locked then find c.table id else none

  -- The branch of `_mio_request_add` for an id that is not in the table. The key is the request's
  -- own id.
  abbrev insert : Conn Table P → String → Ptr → Request → Conn Table P
  insert c id p r =
      let named = if str_eq r.id "" then record r { id = id } else r in
      record c { requests = write c.requests p (some named); table = add c.table named.id p }

  -- `_mio_request_add` on Linux. (The id that it may copy into the response is empty.)
  unfoldable pub request_add :
      (locked : Bool)
      → Conn Table P
      → String
      → Ptr
      → HandlerType
      → Option Ptr
      → Ptr
      → Run (Code × Conn Table P)
  request_add locked c id f ht response p =
      if c.open_requests == 0
      then done (Code.error_too_many_open_requests, c)
      else if not locked
      then done (Code.error_rw_lock, c)
      else do
        r ← load c.requests p
        let added : Conn Table P = elim (find c.table id) [ none ↦ insert c id p r | some _ ↦ c ]
        r' ← load added.requests p
        let filled = record r' { handler = some f; handler_type = ht; response = response }
        done (Code.ok, record added { requests = write added.requests p (some filled) })

  -- `_mio_request_delete`, with `_mio_request_free`
  unfoldable pub request_delete :
      (locked : Bool) → Conn Table P → String → Run (Code × Conn Table P)
  request_delete locked c id =
      if not locked then done (Code.error_rw_lock, c) else elim (find c.table id) [
        | none ↦ done (Code.error_request_not_found, c)
        | some p ↦ do
          _ ← load c.requests p
          done (
            Code.ok,
            record c {
              table = del c.table id;
              requests = write c.requests p none;
              open_requests = c.open_requests + 1;
            },
          )
      ]

  -- `mio_cond_signal` on the request at `p`
  unfoldable pub cond_signal : Conn Table P → Ptr → Run (Conn Table P)
  cond_signal c p = do
    r ← load c.requests p
    done (record c { requests = write c.requests p (some (record r { predicate = true })) })

  -- `mio_handler_id_add` of src/mio_handlers.c
  unfoldable pub handler_id_add :
      (locked : Bool) → Conn Table P → Ptr → String → Ptr → Ptr → Run (Code × Conn Table P)
  handler_id_add locked c f id p response = do
    r ← load c.requests p
    let named = record c { requests = write c.requests p (some (record r { id = id })) }
    (err, added) ← request_add locked named id f handler_id (some response) p
    a ← load added.responses response
    let labelled = record added {
      responses = write added.responses response (some (record a { id = id }));
    }
    done (
      err,
      elim err [ Code.ok ↦ record labelled { handlers = id ∷ labelled.handlers } | _ ↦ labelled ],
    )
