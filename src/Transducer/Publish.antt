-- ===== src/Transducer/Publish.antt =====
-- `mio_publish_data` of src/mio_transducer.c. The responses are objects in a store, since the
-- function allocates and frees some of them.
pub mod Rounds
pub mod Outcomes
use libmio.Base.{
  ℕ, zero, suc, ◌+◌, ◌≡◌, ◌≢◌, refl, sym, ap, subst, ◌∙◌, String, Bool, true, false, List, [], ◌∷◌,
  Option, none, some, arith, ◌==◌, if◌then◌else◌, length,
}
use libmio.Run.{
  Ptr, Store, write, Run, done, fault, blocked, ◌>>=◌, load, load-some, write-same, write-other,
}
use libmio.Connection.{response_free}
use libmio.Xml.{Strophe}
use libmio.Response.{Code, is_ok, Response, response_new}
use libmio.Transducer.{TransducerData, MioData, Chain, linked, dangling, transducer_data_to_item}

-- A fault of a function that has no other.
abbrev run_of : {A : Type 0} → Option A → Run A
run_of none = fault
run_of (some a) = done a

-- `tran_tmp->next`
abbrev behind : List TransducerData → Run (List TransducerData)
behind [] = fault
behind (_ ∷ ts) = done ts

-- `item_publish` is `mio_item_publish` with the node of the event: what it makes of the state `N`
-- of the connection and of a response. `fresh` is what `malloc` returns in each round.
module _ (x : Strophe) {N P : Type 0}
    (item_publish : N → Option x.Stanza → Option String → Response P → Run (Code × N × Response P))
    (fresh : ℕ → Ptr) where
  -- The loop of `mio_publish_data`, with `left` rounds to go.
  pub publish_from :
      (left i : ℕ)
      → List TransducerData
      → Option String
      → Ptr
      → Option Ptr
      → N
      → Store (Response P)
      → Run (Code × N × Store (Response P))
  publish_from zero i ts event response tmp n h = done (Code.ok, n, h)
  publish_from (suc left) i ts event response tmp n h = do
    freed ← response_free h tmp
    let last = left == 0
    let p : Ptr = if last then response else fresh i
    let allocated : Store (Response P) = if last then freed else write freed p (some response_new)
    item ← run_of (transducer_data_to_item x ts)
    a ← load allocated p
    (err, n', a') ← item_publish n item event a
    let answered = write allocated p (some a')
    let gives_up : Run (Code × N × Store (Response P)) = do
      h' ← response_free answered (some response)
      done (err, n', h')
    let goes_on : Run (Code × N × Store (Response P)) = do
      ts' ← behind ts
      publish_from left (i + 1) ts' event response (some p) n' answered
    if is_ok err then goes_on else gives_up

  -- `mio_publish_data`
  unfoldable pub publish_data :
      MioData → Ptr → N → Store (Response P) → Run (Code × N × Store (Response P))
  unfolding publish_from
  publish_data d response n h = elim d.transducers [
    | linked ts ↦ publish_from d.num_transducers 0 ts d.event response none n h
    | dangling ↦ fault
  ]
