-- ===== src/Answer/Delivered.antt =====
-- A blocking request from its stanza to the content of its answer: src/mio_pubsub.c with the
-- handlers.
use libmio.Base.{◌≡◌, ap, sym, subst, ◌∙◌, String, true, none, some, arith, str_eq_refl}
use libmio.Run.{Ptr, write, done, run_or, load-some, write-same}
use libmio.Response.{Code, Response}
use libmio.Handlers.{Document, xml_parse}
use libmio.Connection.{HashTable, Conn, Request, request_get, cond_signal, request_delete}
use libmio.Connection.Requests.{request_delete-found}
use libmio.Send.{remove_id, World, signalled, send_blocking}
use libmio.Send.Stages.{Ready, Keeps, send_blocking-waits}
use libmio.Send.Outcomes.{response_wait-signalled}
use libmio.Answer.{Answering, answer_handler, handler_generic_id}

module _ (H : HashTable) {P : Type 0} where
  open H use {Table, find}

  -- The event loop hands the answer to the handler during the wait.
  abbrev pub delivers :
      Answering P
      → (response : Ptr) → (id : String) → Document
      → World (Conn Table P)
      → World (Conn Table P)
  delivers h response id document w = record w {
    meanwhile =
        λ d. run_or d (handler_generic_id H (answer_handler H h true response document) id d);
  }

  -- The connection, once the handler is done.
  abbrev pub told :
      (response p : Ptr) (id : String) → Response P → Request → Conn Table P → Conn Table P
  told response p id res r d = record d {
    responses = write d.responses response (some res);
    requests = write d.requests p (some (record r { predicate = true }));
    handlers = remove_id id d.handlers;
  }

  handler_generic_id-told :
      (h : Answering P) (response p : Ptr) (id : String) (document : Document) (d : Conn Table P)
      (a res : Response P) (r : Request)
      → d.responses response ≡ some a
      → find d.table a.id ≡ some p
      → d.requests p ≡ some r
      → xml_parse h.reader (h.prepare a) document ≡ some (Code.ok, res)
      → handler_generic_id H (answer_handler H h true response document) id d
        ≡ done (told response p id (h.finish res) r d)
  unfolding handler_generic_id answer_handler request_get cond_signal
  handler_generic_id-told h response p id document d a res r labelled found here parsed =
      rw (load-some d.responses response a labelled, found, parsed, load-some d.requests p r here)

  -- A request from its stanza to the content of its answer: when two slots are free, the id is
  -- new, the locks are had and the first attempt is taken, the other threads leave the request and
  -- the responses alone until the wait, and the event loop then hands the answer to the handler,
  -- whose callbacks read it to its end: mio_send_blocking returns MIO_OK, the caller's response is
  -- what the handler read, the request is freed and gone from the table, and the slot is given
  -- back.
  pub send_blocking-delivers :
      (h : Answering P) (w : World (Conn Table P)) (c : Conn Table P) (handler : Ptr) (id : String)
      (response : Ptr) (document : Document) (a res : Response P)
      → Ready H w c id response
      → c.responses response ≡ some a
      → Keeps H w.fresh w.others
      → ((d : Conn Table P) → (w.others d).responses ≡ d.responses)
      → w.wait ≡ signalled
      → xml_parse h.reader (h.prepare (record a { id = id })) document ≡ some (Code.ok, res)
      → (d : Conn Table P) × (send_blocking H
            (delivers h response id document w)
            c
            handler
            id
            response
          ≡ done (Code.ok, d))
        × (d.responses response ≡ some (h.finish res))
        × (d.requests w.fresh ≡ none)
        × (find d.table id ≡ none)
        × (d.open_requests ≡ c.open_requests)
  send_blocking-delivers h w c handler id response document a res ready label kept untouched wait
        parsed =
      let v : World (Conn Table P) = delivers h response id document w in
      let ready' : Ready H v c id response = record {
        slots = ready.slots;
        unused = ready.unused;
        label = ready.label;
        answerable = ready.answerable;
        locked = ready.locked;
        request_locked = ready.request_locked;
        delete_locked = ready.delete_locked;
        authenticated = ready.authenticated;
        loop_locked = ready.loop_locked;
      } in
      let (d, waits, pending) = send_blocking-waits H v c handler id response ready' in
      let (here, found, slots) =
        kept d pending.request pending.allocated
          (subst (λ j. find d.table j ≡ some w.fresh) (sym pending.named) pending.found) in
      let named : (w.others d).responses response ≡ some (record a { id = id }) =
        ap (λ k. k response) (untouched d) ∙ pending.answer a label in
      let after : Conn Table P =
        told response w.fresh id (h.finish res) pending.request (w.others d) in
      let handled : v.meanwhile (w.others d) ≡ after = ap (run_or (w.others d)) (
        handler_generic_id-told h response w.fresh id document (w.others d) (record a { id = id })
          res pending.request named
          (subst (λ j. find (w.others d).table j ≡ some w.fresh) pending.named found) here
          parsed) in
      let there : after.requests w.fresh ≡ some (record pending.request { predicate = true }) =
        write-same (w.others d).requests w.fresh _ in
      let (e, removed, gone) =
        request_delete-found H after pending.request.id w.fresh found there in
      (
        e,
        waits
            ∙ response_wait-signalled H v (w.others d) e w.fresh pending.request _ Code.ok here
                pending.quiet ready.request_locked ready.delete_locked wait
                (ap (λ k. k.requests w.fresh) handled ∙ there)
                (ap (λ k. request_delete H true k pending.request.id) handled ∙ removed),
        ap (λ k. k response) gone.responses ∙ write-same (w.others d).responses response _,
        gone.request,
        gone.table id ∙ rw (pending.named, str_eq_refl id),
        omega (arith, gone.slots, slots, pending.slots),
      )
