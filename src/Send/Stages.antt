-- ===== src/Send/Stages.antt =====
-- One blocking request up to the wait for its answer.
use libmio.Base.{
  ℕ, zero, suc, ◌+◌, ◌-◌, ◌<◌, ◌≡◌, refl, sym, ap, subst, ◌∙◌, String, true, false, inl, inr, [],
  ◌∷◌, ◌++◌, none, some, arith, ◌==◌, str_eq_refl, Option-cases,
}
use libmio.Run.{Ptr, write, done, write-same}
use libmio.Response.{Code, Response}
use libmio.Connection.{HashTable, Conn, Request, request_new, handler_id_add}
use libmio.Connection.Requests.{handler_id_add-free}
use libmio.Send.{World, Attempt, send_nonblocking, send_loop, response_wait, send_blocking}

module _ (H : HashTable) {P : Type 0} where
  open H use {Table, find}

  -- What the caller and its surroundings provide: two free slots, an id that is not in the table, a
  -- response, the locks, and a session that takes the first attempt.
  pub record Ready (w : World (Conn Table P)) (c : Conn Table P) (id : String) (response : Ptr)
      : Type 0 where
    pub slots : 1 < c.open_requests
    pub unused : find c.table id ≡ none
    pub label : Response P
    pub answerable : c.responses response ≡ some label
    pub locked : w.locked ≡ true
    pub request_locked : w.request_locked ≡ true
    pub delete_locked : w.delete_locked ≡ true
    pub authenticated : (w.attempts 0).authenticated ≡ true
    pub loop_locked : (w.attempts 0).locked ≡ true

  -- `f` leaves the request at `p`, its entry in the table and the number of slots alone.
  abbrev pub Keeps : Ptr → (Conn Table P → Conn Table P) → Type 0
  Keeps p f =
      (d : Conn Table P) (r : Request)
      → d.requests p ≡ some r
      → find d.table r.id ≡ some p
      → ((f d).requests p ≡ some r)
        × (find (f d).table r.id ≡ some p)
        × ((f d).open_requests ≡ d.open_requests)

  -- The same, but the answer comes: a handler signals the request.
  abbrev pub Answers : Ptr → (Conn Table P → Conn Table P) → Type 0
  Answers p f =
      (d : Conn Table P) (r : Request)
      → d.requests p ≡ some r
      → find d.table r.id ≡ some p
      → ((f d).requests p ≡ some (record r { predicate = true }))
        × (find (f d).table r.id ≡ some p)
        × ((f d).open_requests ≡ d.open_requests)

  -- A request that waits for its answer.
  pub record Pending (c d : Conn Table P) (id : String) (p response : Ptr) : Type 0 where
    pub request : Request
    pub allocated : d.requests p ≡ some request
    pub named : request.id ≡ id
    pub quiet : request.predicate ≡ false
    pub found : find d.table id ≡ some p
    pub slots : d.open_requests + 1 ≡ c.open_requests
    pub answer :
        (b : Response P)
        → c.responses response ≡ some b
        → d.responses response ≡ some (record b { id = id })

  pub send_nonblocking-ok :
      (a : Attempt) (d : Conn Table P)
      → a.authenticated ≡ true
      → a.locked ≡ true
      → (d' : Conn Table P) × (send_nonblocking a d ≡ (Code.ok, d'))
        × (d'.requests ≡ d.requests)
        × (d'.table ≡ d.table)
        × (d'.open_requests ≡ d.open_requests)
        × (d'.responses ≡ d.responses)
  unfolding send_nonblocking
  send_nonblocking-ok a d yes_session yes_lock = elim (Option-cases a.text) [
    | inl e ↦ (d, rw (e, send_nonblocking) refl, refl, refl, refl, refl)
    | inr (t, e) ↦ (
      record d { sent = d.sent ++ (t ∷ []) },
      rw (e, send_nonblocking, yes_session, yes_lock) refl,
      refl,
      refl,
      refl,
      refl,
    )
  ]

  pub send_loop-ok :
      (w : World (Conn Table P)) (left round : ℕ) (d d' : Conn Table P) (p : Ptr)
      → send_nonblocking (w.attempts round) d ≡ (Code.ok, d')
      → send_loop H w left round d p ≡ done (none, d')
  unfolding send_loop
  send_loop-ok w zero round d d' p e = rw e
  send_loop-ok w (suc left) round d d' p e = rw e

  -- The connection with the new request, one slot taken.
  abbrev pub started : World (Conn Table P) → Conn Table P → Conn Table P
  started w c = record c {
    requests = write c.requests w.fresh (some request_new);
    open_requests = c.open_requests - 1;
  }

  pub send_blocking-stages :
      (w : World (Conn Table P)) (c added d : Conn Table P) (handler : Ptr) (id : String)
      (response : Ptr) (code : Code)
      → (c.open_requests == 0) ≡ false
      → handler_id_add H w.locked (started w c) handler id w.fresh response ≡ done (code, added)
      → send_loop H w 2 0 added w.fresh ≡ done (none, d)
      → send_blocking H w c handler id response ≡ response_wait H w (w.others d) w.fresh
  unfolding send_blocking
  send_blocking-stages w c added d handler id response code free registered sent =
      rw (free, registered, sent)

  -- Up to the wait for the answer.
  pub send_blocking-waits :
      (w : World (Conn Table P)) (c : Conn Table P) (handler : Ptr) (id : String) (response : Ptr)
      → Ready w c id response
      → (d : Conn Table P) × (send_blocking H w c handler id response
          ≡ response_wait H w (w.others d) w.fresh)
        × Pending c d id w.fresh response
  send_blocking-waits w c handler id response ready =
      let (added, registered, reg) =
        handler_id_add-free H (started w c) handler id w.fresh response {r = request_new}
          {a = ready.label} (write-same c.requests w.fresh (some request_new)) ready.answerable
          ready.unused (omega (arith, ready.slots)) refl in
      let (d, sent, same_requests, same_table, same_slots, same_responses) =
        send_nonblocking-ok (w.attempts 0) added ready.authenticated ready.loop_locked in
      (
        d,
        send_blocking-stages w c added d handler id response Code.ok (ground (arith, ready.slots))
            (subst
              (λ b.
                handler_id_add H b (started w c) handler id w.fresh response
                ≡ done (Code.ok, added))
              (sym ready.locked) registered)
            (send_loop-ok w 2 0 added d w.fresh sent),
        record {
          request = _;
          allocated = ap (λ h. h w.fresh) same_requests ∙ reg.request;
          named = refl;
          quiet = refl;
          found = ap (λ t. find t id) same_table ∙ reg.table id ∙ rw (str_eq_refl id);
          slots = omega (arith, same_slots, reg.slots, ready.slots);
          answer = λ b e. ap (λ h. h response) same_responses ∙ reg.answer b e;
        },
      )
