-- ===== src/Send/Outcomes.antt =====
-- How one blocking request ends: answered in time, answered before the wait, timed out, refused for
-- want of a slot.
use libmio.Base.{
  ◌+◌, ◌≡◌, ◌⊎◌, sym, subst, ◌∙◌, String, true, false, inl, inr, none, some, arith, str_eq_refl,
}
use libmio.Run.{Ptr, done, fault, load-some, load-none}
use libmio.Response.{Code}
use libmio.Connection.{HashTable, Conn, Request, request_delete}
use libmio.Connection.Requests.{request_delete-found}
use libmio.Send.Stages.{Ready, Keeps, Answers, send_blocking-waits}
use libmio.Send.{
  handler_delete, World, signalled, timed_out, failed, give_up, response_wait, send_blocking,
}

module _ (H : HashTable) {P : Type 0} where
  open H use {Table, find}

  pub response_wait-signalled :
      (w : World (Conn Table P)) (d e : Conn Table P) (p : Ptr) (r r' : Request) (code : Code)
      → d.requests p ≡ some r
      → r.predicate ≡ false
      → w.request_locked ≡ true
      → w.delete_locked ≡ true
      → w.wait ≡ signalled
      → (w.meanwhile d).requests p ≡ some r'
      → request_delete H true (w.meanwhile d) r'.id ≡ done (code, e)
      → response_wait H w d p ≡ done (Code.ok, e)
  unfolding response_wait
  response_wait-signalled w d e p r r' code here quiet locked delete_locked wait there removed =
      rw (
        load-some d.requests p r here,
        quiet,
        locked,
        wait,
        load-some _ p r' there,
        delete_locked,
        removed,
      )

  -- When two slots are free, the id is not in the table, the response is allocated, the locks are
  -- had, that of the deletion included, and the first attempt is taken, and the other threads
  -- leave the request alone until the wait, during which a handler signals it: the call returns
  -- MIO_OK, the request is freed and gone from the table, and the slot is given back.
  pub send_blocking-answered :
      (w : World (Conn Table P)) (c : Conn Table P) (handler : Ptr) (id : String) (response : Ptr)
      → Ready H w c id response
      → Keeps H w.fresh w.others
      → Answers H w.fresh w.meanwhile
      → w.wait ≡ signalled
      → (d : Conn Table P) × (send_blocking H w c handler id response ≡ done (Code.ok, d))
        × (d.requests w.fresh ≡ none)
        × (find d.table id ≡ none)
        × (d.open_requests ≡ c.open_requests)
  send_blocking-answered w c handler id response ready kept answered wait =
      let (d, waits, pending) = send_blocking-waits H w c handler id response ready in
      let at_id = subst (λ j. find d.table j ≡ some w.fresh) (sym pending.named) pending.found in
      let (here, found, slots) = kept d pending.request pending.allocated at_id in
      let (there, found', slots') = answered (w.others d) pending.request here found in
      let (e, removed, gone) =
        request_delete-found H (w.meanwhile (w.others d)) pending.request.id w.fresh found' there in
      (
        e,
        waits
            ∙ response_wait-signalled w (w.others d) e w.fresh pending.request _ Code.ok here
                pending.quiet ready.request_locked ready.delete_locked wait there removed,
        gone.request,
        gone.table id ∙ rw (pending.named, str_eq_refl id),
        omega (arith, gone.slots, slots, slots', pending.slots),
      )

  -- When two slots are free, the id is not in the table, the response is allocated, the locks are
  -- had, that of the deletion included, and the first attempt is taken, and a handler signals the
  -- request before the wait: the call returns MIO_ERROR_PREDICATE, the request stays in the table,
  -- and its slot is not given back.
  pub send_blocking-early :
      (w : World (Conn Table P)) (c : Conn Table P) (handler : Ptr) (id : String) (response : Ptr)
      → Ready H w c id response
      → Answers H w.fresh w.others
      → (d : Conn Table P) × (send_blocking H w c handler id response
          ≡ done (Code.error_predicate, d))
        × (find d.table id ≡ some w.fresh)
        × (d.open_requests + 1 ≡ c.open_requests)
  unfolding response_wait
  send_blocking-early w c handler id response ready answered =
      let (d, waits, pending) = send_blocking-waits H w c handler id response ready in
      let at_id = subst (λ j. find d.table j ≡ some w.fresh) (sym pending.named) pending.found in
      let (here, found, slots) = answered d pending.request pending.allocated at_id in
      (
        w.others d,
        waits ∙ rw (load-some (w.others d).requests w.fresh _ here),
        subst (λ j. find (w.others d).table j ≡ some w.fresh) pending.named found,
        omega (arith, slots, pending.slots),
      )

  give_up-found :
      (d : Conn Table P) (p : Ptr) (r : Request)
      → d.requests p ≡ some r
      → find d.table r.id ≡ some p
      → (e : Conn Table P) × (give_up H true d p ≡ done e) × (e.requests p ≡ none)
  unfolding give_up
  give_up-found d p r here found =
      let (e, removed, gone) = request_delete-found H (handler_delete d r.id) r.id p found here in
      (e, rw (load-some d.requests p r here, removed), gone.request)

  response_wait-given_up :
      (w : World (Conn Table P)) (d e : Conn Table P) (p : Ptr) (r : Request)
      → d.requests p ≡ some r
      → r.predicate ≡ false
      → w.request_locked ≡ true
      → w.delete_locked ≡ true
      → (w.wait ≡ timed_out) ⊎ (w.wait ≡ failed)
      → give_up H true (w.meanwhile d) p ≡ done e
      → e.requests p ≡ none
      → response_wait H w d p ≡ fault
  unfolding response_wait
  response_wait-given_up w d e p r here quiet locked delete_locked (inl wait) ended gone = rw (
    load-some d.requests p r here,
    quiet,
    locked,
    wait,
    delete_locked,
    ended,
    load-none e.requests p gone,
  )
  response_wait-given_up w d e p r here quiet locked delete_locked (inr wait) ended gone = rw (
    load-some d.requests p r here,
    quiet,
    locked,
    wait,
    delete_locked,
    ended,
    load-none e.requests p gone,
  )

  -- When two slots are free, the id is not in the table, the response is allocated, the locks are
  -- had, that of the deletion included, and the first attempt is taken, and the other threads
  -- leave the request alone: where the wait for the answer times out or fails, the request is
  -- freed, and its id is read afterwards, for the message: undefined behaviour.
  pub send_blocking-timed_out :
      (w : World (Conn Table P)) (c : Conn Table P) (handler : Ptr) (id : String) (response : Ptr)
      → Ready H w c id response
      → Keeps H w.fresh w.others
      → Keeps H w.fresh w.meanwhile
      → (w.wait ≡ timed_out) ⊎ (w.wait ≡ failed)
      → send_blocking H w c handler id response ≡ fault
  send_blocking-timed_out w c handler id response ready kept kept' wait =
      let (d, waits, pending) = send_blocking-waits H w c handler id response ready in
      let at_id = subst (λ j. find d.table j ≡ some w.fresh) (sym pending.named) pending.found in
      let (here, found, _) = kept d pending.request pending.allocated at_id in
      let (here', found', _) = kept' (w.others d) pending.request here found in
      let (e, ended, gone) =
        give_up-found (w.meanwhile (w.others d)) w.fresh pending.request here' found' in
      waits
      ∙ response_wait-given_up w (w.others d) e w.fresh pending.request here pending.quiet
          ready.request_locked ready.delete_locked wait ended gone
