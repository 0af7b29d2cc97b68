-- ===== src/Connection/Requests.antt =====
-- The table of open requests: what registration and removal do to it and to the slots.
use libmio.Base.{
  ◌+◌, ◌<◌, ◌≡◌, ◌≢◌, refl, ◌∙◌, String, Bool, true, false, inl, inr, ◌∷◌, none, some, arith, ◌==◌,
  str_eq, if◌then◌else◌, Bool-cases, ap, sym,
}
use mathlib.Core.Option.{some-injective}
use libmio.Run.{Ptr, write, done, load-some, load-write, write-same, write-other}
use libmio.Response.{Code, Response}
use libmio.Connection.{
  HashTable, Conn, Request, handler_id, request_add, request_delete, handler_id_add,
}

module _ (H : HashTable) {P : Type 0} where
  open H use {Table, find, find-add, find-del}

  -- What registration leaves behind, from `c` to `d`, for the request at `p`.
  pub record Registered (c d : Conn Table P) (id : String) (p f response : Ptr) : Type 0 where
    pub request :
        d.requests p
        ≡ some (record {
          id = id;
          predicate = false;
          handler = some f;
          handler_type = handler_id;
          response = some response;
        })
    pub table : (j : String) → find d.table j ≡ (if str_eq id j then some p else find c.table j)
    pub others : (q : Ptr) → p ≢ q → d.requests q ≡ c.requests q
    pub slots : d.open_requests ≡ c.open_requests
    pub mutex : d.conn_mutex_held ≡ c.conn_mutex_held
    pub connected : d.conn_predicate ≡ c.conn_predicate
    pub handlers : d.handlers ≡ id ∷ c.handlers
    pub answer :
        (b : Response P)
        → c.responses response ≡ some b
        → d.responses response ≡ some (record b { id = id })

  module _ (c : Conn Table P) (f : Ptr) (id : String) (p response : Ptr) {r : Request}
      {a : Response P} (allocated : c.requests p ≡ some r)
      (answerable : c.responses response ≡ some a) where
    request_of : Request
    request_of = record r {
      id = id;
      handler = some f;
      handler_type = handler_id;
      response = some response;
    }

    registered : Conn Table P
    registered = record c {
      requests =
          write
            (write (write c.requests p (some (record r { id = id }))) p
              (some (record r { id = id })))
            p (some request_of);
      responses = write c.responses response (some (record a { id = id }));
      table = H.add c.table id p;
      handlers = id ∷ c.handlers;
    }

    pub handler_id_add-free :
        find c.table id ≡ none
        → 0 < c.open_requests
        → r.predicate ≡ false
        → (d : Conn Table P) × (handler_id_add H true c f id p response ≡ done (Code.ok, d))
          × Registered c d id p f response
    unfolding handler_id_add request_add registered request_of
    handler_id_add-free free room quiet = (
      registered,
      added,
      record {
        request = write-same _ p _ ∙ ground arith;
        table = λ j. find-add c.table id j p free;
        others = λ q ne.
            write-other _ p q _ ne ∙ write-other _ p q _ ne ∙ write-other c.requests p q _ ne;
        slots = refl;
        mutex = refl;
        connected = refl;
        handlers = refl;
        answer = λ b e.
            write-same c.responses response _
            ∙ ap (λ (m : Response P). some (record m { id = id }))
                (some-injective _ _ (sym answerable ∙ e));
      },
    )
      where
        busy : (c.open_requests == 0) ≡ false
        busy = ground arith

        added : handler_id_add H true c f id p response ≡ done (Code.ok, registered)
        added = elim (Bool-cases (str_eq id "")) [
          | inl e ↦ rw (
            load-some c.requests p r allocated,
            busy,
            load-write,
            free,
            e,
            load-write,
            load-some c.responses response a answerable,
          )
          | inr e ↦ rw (
            load-some c.requests p r allocated,
            busy,
            load-write,
            free,
            e,
            load-write,
            load-some c.responses response a answerable,
          )
        ]

  -- With no slot left, registration names the request and the response, and does no more.
  pub handler_id_add-full :
      (c : Conn Table P) (f : Ptr) (id : String) (p response : Ptr) (locked : Bool) {r : Request}
      {a : Response P}
      → c.requests p ≡ some r
      → c.responses response ≡ some a
      → c.open_requests ≡ 0
      → handler_id_add H locked c f id p response
        ≡ done (
          Code.error_too_many_open_requests,
          record c {
            requests = write c.requests p (some (record r { id = id }));
            responses = write c.responses response (some (record a { id = id }));
          },
        )
  unfolding handler_id_add request_add
  handler_id_add-full c f id p response locked {r} {a} allocated answerable full =
      let busy : (c.open_requests == 0) ≡ true = ground arith in
      rw (load-some c.requests p r allocated, busy, load-some c.responses response a answerable)

  -- Removal of the request that the table has for an id.
  pub record Removed (c d : Conn Table P) (id : String) (p : Ptr) : Type 0 where
    pub request : d.requests p ≡ none
    pub table : (j : String) → find d.table j ≡ (if str_eq id j then none else find c.table j)
    pub others : (q : Ptr) → p ≢ q → d.requests q ≡ c.requests q
    pub slots : d.open_requests ≡ c.open_requests + 1
    pub responses : d.responses ≡ c.responses

  pub request_delete-found :
      (c : Conn Table P) (id : String) (p : Ptr) {r : Request}
      → find c.table id ≡ some p
      → c.requests p ≡ some r
      → (d : Conn Table P) × (request_delete H true c id ≡ done (Code.ok, d)) × Removed c d id p
  unfolding request_delete
  request_delete-found c id p {r} found allocated = (
    record c {
      table = H.del c.table id;
      requests = write c.requests p none;
      open_requests = c.open_requests + 1;
    },
    rw (found, load-some c.requests p r allocated),
    record {
      request = write-same c.requests p none;
      table = λ j. find-del c.table id j;
      others = λ q ne. write-other c.requests p q none ne;
      slots = refl;
      responses = refl;
    },
  )
