-- ===== src/Connection/Queue.antt =====
-- The queue of received publications refines a bounded list that forgets its oldest entries.
use libmio.Base.{
  suc, ◌≤◌, ◌≡◌, refl, ap, ◌∙◌, List, [], ◌∷◌, ◌++◌, Option, none, some, arith, leb, if◌then◌else◌,
  length, length-append,
}
use libmio.Run.{Ptr, Run, done, ◌>>=◌}
use libmio.Connection.{Conn, rx_queue_max_len, rx_queue_enqueue, rx_queue_dequeue}

abbrev pub drop_first : List Ptr → List Ptr
drop_first [] = []
drop_first (_ ∷ q) = q

pub data Command : Type 0 where
  enqueue : Ptr → Command
  dequeue : Command

-- What a client of the queue sees: the entries in order of arrival, the oldest gone beyond the
-- bound.
abbrev pub spec_step : Command → List Ptr → List (Option Ptr) × List Ptr
spec_step (enqueue p) q =
    ([], (if leb rx_queue_max_len (length q) then drop_first q else q) ++ (p ∷ []))
spec_step dequeue [] = (none ∷ [], [])
spec_step dequeue (p ∷ q) = (some p ∷ [], q)

pub spec_run : List Command → List Ptr → List (Option Ptr) × List Ptr
spec_run [] q = ([], q)
spec_run (k ∷ ks) q =
    let (out, q') = spec_step k q in let (outs, last) = spec_run ks q' in (out ++ outs, last)

length-snoc : (q : List Ptr) (p : Ptr) → length (q ++ (p ∷ [])) ≡ suc (length q)
length-snoc q p = omega (arith, length-append q (p ∷ []))

spec_step-bounded :
    (k : Command) (q : List Ptr)
    → length q ≤ rx_queue_max_len
    → length (spec_step k q).1 ≤ rx_queue_max_len
spec_step-bounded (enqueue p) [] h = omega arith
spec_step-bounded (enqueue p) (x ∷ q) h = ground (arith, length-snoc (x ∷ q) p, length-snoc q p)
spec_step-bounded dequeue [] h = omega arith
spec_step-bounded dequeue (x ∷ q) h = omega arith

module _ {T P : Type 0} where
  abbrev pub step : Command → Conn T P → Run (List (Option Ptr) × Conn T P)
  step (enqueue p) c = rx_queue_enqueue c p >>= λ c'. done ([], c')
  step dequeue c = rx_queue_dequeue c >>= λ (out, c'). done (out ∷ [], c')

  pub run : List Command → Conn T P → Run (List (Option Ptr) × Conn T P)
  run [] c = done ([], c)
  run (k ∷ ks) c = step k c >>= λ (out, c'). run ks c' >>= λ (outs, last). done (out ++ outs, last)

  pub record IsQueue (c : Conn T P) : Type 0 where
    pub counted : c.rx_queue_len ≡ length c.rx_queue
    pub bounded : c.rx_queue_len ≤ rx_queue_max_len

  -- the connection with another queue
  abbrev pub with_queue : Conn T P → List Ptr → Conn T P
  with_queue c q = record c { rx_queue = q; rx_queue_len = length q }

  step-spec_step :
      (k : Command) (c : Conn T P) (q : List Ptr)
      → length q ≤ rx_queue_max_len
      → step k (with_queue c q) ≡ done ((spec_step k q).0, with_queue c (spec_step k q).1)
  unfolding rx_queue_enqueue rx_queue_dequeue
  step-spec_step (enqueue p) c [] h = refl
  step-spec_step (enqueue p) c (x ∷ q) h = ground (arith, length-snoc (x ∷ q) p, length-snoc q p)
  step-spec_step dequeue c [] h = refl
  step-spec_step dequeue c (x ∷ q) h = ground arith

  run-with_queue :
      (ks : List Command) (c : Conn T P) (q : List Ptr)
      → length q ≤ rx_queue_max_len
      → (run ks (with_queue c q) ≡ done ((spec_run ks q).0, with_queue c (spec_run ks q).1))
        × (length (spec_run ks q).1 ≤ rx_queue_max_len)
  unfolding run spec_run
  run-with_queue [] c q h = (refl, h)
  run-with_queue (k ∷ ks) c q h =
      let (rest, bound) = run-with_queue ks c (spec_step k q).1 (spec_step-bounded k q h) in
      (rw (step-spec_step k c q h, rest), bound)

  -- For any series of arrivals and removals, from a queue whose counter is right and within the
  -- bound: no fault, the removals give what they give on the list that drops its oldest entry when
  -- full, nothing but the queue changes, and the counter stays right and at most 100.
  pub run-spec_run :
      (ks : List Command) (c : Conn T P)
      → IsQueue c
      → (run ks c ≡ done ((spec_run ks c.rx_queue).0, with_queue c (spec_run ks c.rx_queue).1))
        × IsQueue (with_queue c (spec_run ks c.rx_queue).1)
  run-spec_run ks c valid =
      let small : length c.rx_queue ≤ rx_queue_max_len = omega arith in
      let same : c ≡ with_queue c c.rx_queue = ground arith in
      let (ran, bound) = run-with_queue ks c c.rx_queue small in
      (ap (run ks) same ∙ ran, record { counted = refl; bounded = bound })
