-- ===== src/Connection/Clear.antt =====
-- What `mio_pubsub_data_rx_queue_clear` of src/mio_pubsub.c leaves.
use libmio.Base.{ℕ, zero, suc, ◌<◌, ◌≡◌, refl, ap, ◌∙◌, List, [], ◌∷◌, none, some, arith, length}
use libmio.Run.{Ptr, Store, write, done, load-some}
use libmio.Response.{Response}
use libmio.Connection.{Conn, rx_queue_dequeue, clear_loop, rx_queue_clear}
use libmio.Connection.Queue.{IsQueue, with_queue, drop_first}

module _ {P : Type 0} where
  abbrev pub without_all : List Ptr → Store (Response P) → Store (Response P)
  without_all [] h = h
  without_all (p ∷ q) h = without_all q (write h p none)

  -- Each response of a queue is allocated, and stands there once.
  abbrev pub AreLive : List Ptr → Store (Response P) → Type 0
  AreLive [] h = Unit
  AreLive (p ∷ q) h = (a : Response P) × (h p ≡ some a) × AreLive q (write h p none)

module _ {T P : Type 0} where
  dequeue-cons :
      (c : Conn T P) (p : Ptr) (q : List Ptr)
      → rx_queue_dequeue (with_queue c (p ∷ q)) ≡ done (some p, with_queue c q)
  unfolding rx_queue_dequeue
  dequeue-cons c p q = ground arith

  dequeue-nil : (c : Conn T P) → rx_queue_dequeue (with_queue c []) ≡ done (none, with_queue c [])
  unfolding rx_queue_dequeue
  dequeue-nil c = refl

  clear_loop-freed :
      (q : List Ptr) (fuel : ℕ) (p : Ptr) (c : Conn T P)
      → length q < fuel
      → AreLive q c.responses
      → clear_loop fuel (some p) (with_queue c q)
        ≡ done (some (record (with_queue c []) { responses = without_all q c.responses }))
  unfolding clear_loop
  clear_loop-freed q zero p c h live = absurd (omega arith)
  clear_loop-freed [] (suc fuel) p c h live = rw (dequeue-nil c)
  clear_loop-freed (r ∷ q) (suc fuel) p c h (a, here, live) =
      let less : length q < fuel = omega arith in
      rw (dequeue-cons c r q, load-some c.responses r a here)
        (clear_loop-freed q fuel r (record c { responses = write c.responses r none }) less live)

  -- With fuel for each entry and one round more, from a queue whose counter is right and at most
  -- the maximum, and whose entries but the first are allocated responses when their turn comes:
  -- clearing the queue ends, the queue is empty, the responses of all entries but the first are
  -- freed, and all else, the first response included, is as before.
  pub rx_queue_clear-freed :
      (fuel : ℕ) (c : Conn T P)
      → IsQueue c
      → length c.rx_queue < fuel
      → AreLive (drop_first c.rx_queue) c.responses
      → rx_queue_clear fuel c
        ≡ done (
            some (record (with_queue c []) {
              responses = without_all (drop_first c.rx_queue) c.responses;
            }))
  unfolding rx_queue_clear
  rx_queue_clear-freed fuel c valid h live =
      let same : c ≡ with_queue c c.rx_queue = ground arith in
      ap (rx_queue_clear fuel) same ∙ cleared c.rx_queue h live
    where
      cleared :
          (q : List Ptr)
          → length q < fuel
          → AreLive (drop_first q) c.responses
          → rx_queue_clear fuel (with_queue c q)
            ≡ done (
                some
                  (record (with_queue c []) { responses = without_all (drop_first q) c.responses }))
      cleared [] h' live' = rw (dequeue-nil c)
      cleared (p ∷ q) h' live' =
          let less : length q < fuel = omega arith in
          rw (dequeue-cons c p q) (clear_loop-freed q fuel p c less live')
