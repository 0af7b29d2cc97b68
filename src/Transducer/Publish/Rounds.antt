-- ===== src/Transducer/Publish/Rounds.antt =====
-- The rounds of `mio_publish_data` of src/mio_transducer.c.
use libmio.Base.{
  ℕ, suc, ◌+◌, ◌≡◌, ◌≢◌, ◌⊎◌, inl, inr, refl, sym, ap, ◌∙◌, String, false, List, [], ◌∷◌, Option,
  none, some, arith, ◌==◌, length,
}
use libmio.Run.{
  Ptr, Store, write, Run, done, load-some, load-write, write-same, write-other, write-write,
  write-unchanged,
}
use libmio.Connection.{response_free}
use libmio.Xml.{Strophe}
use libmio.Response.{Code, is_ok, Response, response_new}
use libmio.Transducer.{TransducerData, transducer_data_to_item}
use libmio.Transducer.Publish.{publish_from}

-- The store, once the response of the round before is freed.
abbrev without : {P : Type 0} → Option Ptr → Store P → Store P
without none h = h
without (some p) h = write h p none

abbrev IsLive : {P : Type 0} → Option Ptr → Store P → Type 0
IsLive none h = Unit
IsLive {P} (some p) h = (a : P) × (h p ≡ some a)

response_free-without :
    {P : Type 0} (h : Store (Response P)) (tmp : Option Ptr)
    → IsLive tmp h
    → response_free h tmp ≡ done (without tmp h)
response_free-without h none live = refl
response_free-without h (some p) (a, e) = rw (load-some h p a e)

module _ (x : Strophe) {N P : Type 0}
    (item_publish : N → Option x.Stanza → Option String → Response P → Run (Code × N × Response P))
    (event : Option String) (r : Response P) where
  -- Every value is published, in order, each into a response of its own and the last into `r`, which
  -- becomes `r'`.
  abbrev pub Delivers : N → List TransducerData → N → Response P → Type 0
  Delivers n [] n' r' = ⊥
  Delivers n (t ∷ []) n' r' =
      (item : x.Stanza) × (transducer_data_to_item x (t ∷ []) ≡ some (some item))
      × (item_publish n (some item) event r ≡ done (Code.ok, n', r'))
  Delivers n (t ∷ u ∷ ts) n' r' =
      (item : x.Stanza) × (m : N) × (a : Response P) × (transducer_data_to_item x (t ∷ u ∷ ts)
        ≡ some (some item))
      × (item_publish n (some item) event response_new ≡ done (Code.ok, m, a))
      × Delivers m (u ∷ ts) n' r'

  -- The response of a round before which `ts` are left.
  abbrev pub response_of : List TransducerData → Response P
  response_of [] = r
  response_of (_ ∷ _) = response_new

  -- The values before one are published, and that one is not.
  abbrev pub Fails : N → List TransducerData → Code → N → Type 0
  Fails n [] err n' = ⊥
  Fails n (t ∷ ts) err n' =
      (item : x.Stanza) × (transducer_data_to_item x (t ∷ ts) ≡ some (some item))
      × (((a : Response P) × (is_ok err ≡ false)
            × (item_publish n (some item) event (response_of ts) ≡ done (err, n', a)))
          ⊎ ((m : N) × (a : Response P) × (item_publish n (some item) event (response_of ts)
                ≡ done (Code.ok, m, a))
              × Fails m ts err n'))

  module _ (fresh : ℕ → Ptr) (response : Ptr) (old : Store (Response P))
      (answerable : old response ≡ some r) (unused : (i : ℕ) → old (fresh i) ≡ none) where
    -- A round that publishes a value and is not the last.
    next_round :
        (t : TransducerData) (ts : List TransducerData) (k i : ℕ) (tmp : Option Ptr) (n m : N)
        (item : x.Stanza) (a : Response P) (h : Store (Response P))
        → IsLive tmp h
        → without tmp h ≡ old
        → transducer_data_to_item x (t ∷ ts) ≡ some (some item)
        → item_publish n (some item) event response_new ≡ done (Code.ok, m, a)
        → publish_from x item_publish fresh (suc (suc k)) i (t ∷ ts) event response tmp n h
          ≡ publish_from x item_publish fresh
              (suc k)
              (i + 1)
              ts
              event
              response
              (some (fresh i))
              m
              (write old (fresh i) (some a))
    unfolding publish_from
    next_round t ts k i tmp n m item a h live same built sent =
        let more : (suc k == 0) ≡ false = ground arith in
        rw (
          response_free-without h tmp live,
          same,
          more,
          built,
          load-write old (fresh i) response_new,
          sent,
          write-write old (fresh i) (some response_new) (some a),
        )

    -- The last round.
    last_round :
        (t : TransducerData) (i : ℕ) (tmp : Option Ptr) (n n' : N) (item : x.Stanza)
        (a : Response P) (h : Store (Response P))
        → IsLive tmp h
        → without tmp h ≡ old
        → transducer_data_to_item x (t ∷ []) ≡ some (some item)
        → item_publish n (some item) event r ≡ done (Code.ok, n', a)
        → publish_from x item_publish fresh 1 i (t ∷ []) event response tmp n h
          ≡ done (Code.ok, n', write old response (some a))
    unfolding publish_from
    last_round t i tmp n n' item a h live same built sent =
        rw
          (response_free-without h tmp live, same, built, load-some old response r answerable, sent)

    -- A round that fails: it is the last, or publishes into a response of its own.
    failing_last :
        (t : TransducerData) (i : ℕ) (tmp : Option Ptr) (n n' : N) (item : x.Stanza) (err : Code)
        (a : Response P) (h : Store (Response P))
        → IsLive tmp h
        → without tmp h ≡ old
        → transducer_data_to_item x (t ∷ []) ≡ some (some item)
        → is_ok err ≡ false
        → item_publish n (some item) event r ≡ done (err, n', a)
        → publish_from x item_publish fresh 1 i (t ∷ []) event response tmp n h
          ≡ done (err, n', write (write old response (some a)) response none)
    unfolding publish_from
    failing_last t i tmp n n' item err a h live same built failed sent = rw (
      response_free-without h tmp live,
      same,
      built,
      load-some old response r answerable,
      sent,
      failed,
      load-write old response a,
    )

    failing_round :
        (t : TransducerData) (ts : List TransducerData) (k i : ℕ) (tmp : Option Ptr) (n n' : N)
        (item : x.Stanza) (err : Code) (a : Response P) (h : Store (Response P))
        → fresh i ≢ response
        → IsLive tmp h
        → without tmp h ≡ old
        → transducer_data_to_item x (t ∷ ts) ≡ some (some item)
        → is_ok err ≡ false
        → item_publish n (some item) event response_new ≡ done (err, n', a)
        → publish_from x item_publish fresh (suc (suc k)) i (t ∷ ts) event response tmp n h
          ≡ done (err, n', write (write old (fresh i) (some a)) response none)
    unfolding publish_from
    failing_round t ts k i tmp n n' item err a h apart live same built failed sent =
        let more : (suc k == 0) ≡ false = ground arith in
        let there : write old (fresh i) (some a) response ≡ some r =
          write-other old (fresh i) response (some a) apart ∙ answerable in
        rw (
          response_free-without h tmp live,
          same,
          more,
          built,
          load-write old (fresh i) response_new,
          sent,
          failed,
          write-write old (fresh i) (some response_new) (some a),
          load-some (write old (fresh i) (some a)) response r there,
        )

    next-IsLive : (i : ℕ) (a : Response P) → IsLive (some (fresh i)) (write old (fresh i) (some a))
    next-IsLive i a = (a, write-same old (fresh i) (some a))

    next_same :
        (i : ℕ) (a : Response P) → without (some (fresh i)) (write old (fresh i) (some a)) ≡ old
    next_same i a =
        write-write old (fresh i) (some a) none ∙ write-unchanged old (fresh i) none (unused i)

    pub publish_from-Delivers :
        (ts : List TransducerData) (i : ℕ) (tmp : Option Ptr) (n n' : N) (r' : Response P)
        (h : Store (Response P))
        → IsLive tmp h
        → without tmp h ≡ old
        → Delivers n ts n' r'
        → publish_from x item_publish fresh (length ts) i ts event response tmp n h
          ≡ done (Code.ok, n', write old response (some r'))
    publish_from-Delivers [] i tmp n n' r' h live same d = absurd d
    publish_from-Delivers (t ∷ []) i tmp n n' r' h live same (item, built, sent) =
        last_round t i tmp n n' item r' h live same built sent
    publish_from-Delivers (t ∷ u ∷ ts) i tmp n n' r' h live same (item, m, a, built, sent, others) =
        next_round t (u ∷ ts) (length ts) i tmp n m item a h live same built sent
        ∙ publish_from-Delivers (u ∷ ts) (i + 1) (some (fresh i)) m n' r'
            (write old (fresh i) (some a)) (next-IsLive i a) (next_same i a) others

    -- `response` is allocated, and what `malloc` returns is not.
    distinct : (i : ℕ) → fresh i ≢ response
    distinct i e = cc (sym (unused i) ∙ ap old e ∙ answerable)

    pub publish_from-Fails :
        (ts : List TransducerData) (i : ℕ) (tmp : Option Ptr) (n n' : N) (err : Code)
        (h : Store (Response P))
        → IsLive tmp h
        → without tmp h ≡ old
        → Fails n ts err n'
        → (h' : Store (Response P)) × (publish_from x item_publish fresh
              (length ts)
              i
              ts
              event
              response
              tmp
              n
              h
            ≡ done (err, n', h'))
          × (h' response ≡ none)
    publish_from-Fails [] i tmp n n' err h live same d = absurd d
    publish_from-Fails (t ∷ []) i tmp n n' err h live same (item, built, inl (a, failed, sent)) = (
      _,
      failing_last t i tmp n n' item err a h live same built failed sent,
      write-same (write old response (some a)) response none,
    )
    publish_from-Fails (t ∷ []) i tmp n n' err h live same (item, built, inr (m, a, sent, d)) =
        absurd d
    publish_from-Fails (t ∷ u ∷ ts) i tmp n n' err h live same
          (item, built, inl (a, failed, sent)) =
        (
          _,
          failing_round t (u ∷ ts) (length ts) i tmp n n' item err a h (distinct i) live same built
              failed sent,
          write-same (write old (fresh i) (some a)) response none,
        )
    publish_from-Fails (t ∷ u ∷ ts) i tmp n n' err h live same (item, built, inr (m, a, sent, d)) =
        let (h', runs, gone) =
          publish_from-Fails (u ∷ ts) (i + 1) (some (fresh i)) m n' err
            (write old (fresh i) (some a)) (next-IsLive i a) (next_same i a) d in
        (h', next_round t (u ∷ ts) (length ts) i tmp n m item a h live same built sent ∙ runs, gone)
