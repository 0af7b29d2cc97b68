-- ===== src/Connection/Reconnect/Triggered.antt =====
-- What a reconnection leaves of the requests, and of the threads that wait for their answers.
use libmio.Base.{
  ◌≡◌, refl, ap, sym, subst, ◌∙◌, ◌⊎◌, inl, inr, Bool, true, false, List, [], ◌∷◌, ◌++◌, Option,
  none, some, str_eq, ◌==◌, ==_iff, if◌then◌else◌, Bool-cases,
}
use libmio.Run.{
  run_or, Ptr, Store, write, done, fault, load-some, load-none, write-same, write-other,
  write-write,
}
use libmio.Connection.{HashTable, Conn, Request, cond_signal}
use libmio.Connection.Reconnect.{trigger, trigger_all}
use libmio.Send.{World, Wait, signalled, timed_out, failed, response_wait, give_up}

abbrev pub is_receiver : Request → Bool
is_receiver r = str_eq r.id "pubsub_data_rx"

-- The store, once the request at a pointer is triggered.
abbrev pub without_request : Ptr → Request → Store Request → Store Request
without_request p r h = if is_receiver r then h else write h p none

-- Each pointer is to a request that is not freed when its turn comes.
abbrev pub AreRequests : List Ptr → Store Request → Type 0
AreRequests [] h = Unit
AreRequests (p ∷ ps) h = (r : Request) × (h p ≡ some r) × AreRequests ps (without_request p r h)

abbrev pub if_request : Ptr → Option Request → Store Request → Store Request
if_request p none h = h
if_request p (some r) h = without_request p r h

-- The store, once all are triggered.
pub freed_requests : List Ptr → Store Request → Store Request
freed_requests [] h = h
freed_requests (p ∷ ps) h = freed_requests ps (if_request p (h p) h)

Wait-cases : (k : Wait) → (k ≡ timed_out) ⊎ ((k ≡ failed) ⊎ (k ≡ signalled))
Wait-cases timed_out = inl refl
Wait-cases failed = inr (inl refl)
Wait-cases signalled = inr (inr refl)

if_request-none :
    (p q : Ptr) (o : Option Request) (h : Store Request) → h p ≡ none → if_request q o h p ≡ none
if_request-none p q none h e = e
if_request-none p q (some r) h e = elim (Bool-cases (is_receiver r)) [
  | inl hit ↦ rw hit e
  | inr miss ↦ elim (Bool-cases (q == p)) [
    | inl same ↦ rw miss (ap (λ k. write h k none p) ((==_iff q p).0 same) ∙ write-same h p none)
    | inr other ↦ rw miss (write-other h q p none (λ e'. cc (sym ((==_iff q p).1 e') ∙ other)) ∙ e)
  ]
]

if_request-other :
    (p q : Ptr) (o : Option Request) (h : Store Request)
    → (q == p) ≡ false
    → if_request q o h p ≡ h p
if_request-other p q none h other = refl
if_request-other p q (some r) h other = elim (Bool-cases (is_receiver r)) [
  | inl hit ↦ rw hit refl
  | inr miss ↦ rw miss (write-other h q p none (λ e. cc (sym ((==_iff q p).1 e) ∙ other)))
]

freed_requests-none :
    (p : Ptr) (ps : List Ptr) (h : Store Request) → h p ≡ none → freed_requests ps h p ≡ none
unfolding freed_requests
freed_requests-none p [] h e = e
freed_requests-none p (q ∷ ps) h e =
    freed_requests-none p ps (if_request q (h q) h) (if_request-none p q (h q) h e)

-- A request that does not wait for publications is freed.
freed_requests-freed :
    (p : Ptr) (r : Request) (xs ys : List Ptr) (h : Store Request)
    → h p ≡ some r
    → is_receiver r ≡ false
    → freed_requests (xs ++ (p ∷ ys)) h p ≡ none
unfolding freed_requests
freed_requests-freed p r [] ys h e other =
    freed_requests-none p ys (if_request p (h p) h) (rw (e, other) (write-same h p none))
freed_requests-freed p r (q ∷ xs) ys h e other = elim (Bool-cases (q == p)) [
  | inl same ↦
      let q_is : q ≡ p = (==_iff q p).0 same in
      freed_requests-none p (xs ++ (p ∷ ys)) (if_request q (h q) h) (
        subst (λ k. if_request k (h k) h p ≡ none) (sym q_is) (rw (e, other) (write-same h p none)))
  | inr apart ↦
      freed_requests-freed p r xs ys (if_request q (h q) h) (if_request-other p q (h q) h apart ∙ e)
        other
]

module _ (H : HashTable) {P : Type 0} where
  open H use {Table}

  trigger-without :
      (c : Conn Table P) (p : Ptr) (r : Request)
      → c.requests p ≡ some r
      → (c' : Conn Table P) × (trigger H c p r ≡ done c')
        × (c'.requests ≡ without_request p r c.requests)
        × (c'.open_requests ≡ c.open_requests)
  unfolding cond_signal
  trigger-without c p r e = elim (Bool-cases (is_receiver r)) [
    | inl hit ↦ (c, rw hit, rw hit, refl)
    | inr miss ↦ (
      record c {
        table = H.del c.table r.id;
        requests = write (write c.requests p (some (record r { predicate = true }))) p none;
      },
      rw (miss, load-some c.requests p r e),
      rw miss (write-write c.requests p (some (record r { predicate = true })) none),
      refl,
    )
  ]

  pub trigger_all-runs :
      (ps : List Ptr) (c : Conn Table P)
      → AreRequests ps c.requests
      → (c' : Conn Table P) × (trigger_all H ps c ≡ done c')
        × (c'.requests ≡ freed_requests ps c.requests)
        × (c'.open_requests ≡ c.open_requests)
  unfolding trigger_all freed_requests
  trigger_all-runs [] c live = (c, refl, refl, refl)
  trigger_all-runs (p ∷ ps) c (r, here, live) =
      let (c1, ran, left, slots) = trigger-without c p r here in
      let (c2, ran2, left2, slots2) =
        trigger_all-runs ps c1 (subst (AreRequests ps) (sym left) live) in
      (
        c2,
        rw (load-some c.requests p r here, ran) ran2,
        left2 ∙ ap (freed_requests ps) left ∙ rw here refl,
        slots2 ∙ slots,
      )

  -- The thread wakes, or its wait ends, with the request gone.
  response_wait-gone :
      (w : World (Conn Table P)) (c : Conn Table P) (p : Ptr) (r : Request)
      → c.requests p ≡ some r
      → r.predicate ≡ false
      → w.request_locked ≡ true
      → (w.meanwhile c).requests p ≡ none
      → response_wait H w c p ≡ fault
  unfolding response_wait give_up
  response_wait-gone w c p r here quiet locked gone = elim (Wait-cases w.wait) [
    | inl late ↦
        rw
          (
            load-some c.requests p r here,
            quiet,
            locked,
            late,
            load-none (w.meanwhile c).requests p gone,
          )
          refl
    | inr (inl broken) ↦
        rw
          (
            load-some c.requests p r here,
            quiet,
            locked,
            broken,
            load-none (w.meanwhile c).requests p gone,
          )
          refl
    | inr (inr woken) ↦
        rw
          (
            load-some c.requests p r here,
            quiet,
            locked,
            woken,
            load-none (w.meanwhile c).requests p gone,
          )
          refl
  ]

  -- a wait during which the loop over these requests runs
  abbrev pub interrupted : World (Conn Table P) → List Ptr → World (Conn Table P)
  interrupted w ps = record w { meanwhile = λ d. run_or d (trigger_all H ps d) }

  -- Where each of the requests is allocated when its turn comes, and a thread waits for the answer
  -- to one of them, which is not the one for publications, with its predicate not yet set and its
  -- mutex to be had: when the loop of a reconnection over these requests runs during the wait, the
  -- thread, however the wait ends, goes on with a freed request, which is undefined behaviour; the
  -- loop ends, and gives back no slot.
  pub trigger_all-Strands :
      (w : World (Conn Table P)) (c : Conn Table P) (xs ys : List Ptr) (p : Ptr) (r : Request)
      → AreRequests (xs ++ (p ∷ ys)) c.requests
      → c.requests p ≡ some r
      → is_receiver r ≡ false
      → r.predicate ≡ false
      → w.request_locked ≡ true
      → (response_wait H (interrupted w (xs ++ (p ∷ ys))) c p ≡ fault)
        × ((c' : Conn Table P) × (trigger_all H (xs ++ (p ∷ ys)) c ≡ done c')
            × (c'.open_requests ≡ c.open_requests))
  trigger_all-Strands w c xs ys p r live here other quiet locked =
      let ps : List Ptr = xs ++ (p ∷ ys) in
      let (c', ran, left, slots) = trigger_all-runs ps c live in
      let gone : (run_or c (trigger_all H ps c)).requests p ≡ none =
        ap (λ k. (run_or c k).requests p) ran
        ∙ ap (λ h. h p) left
        ∙ freed_requests-freed p r xs ys c.requests here other in
      (response_wait-gone (interrupted w ps) c p r here quiet locked gone, (c', ran, slots))
