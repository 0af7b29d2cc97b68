-- ===== src/Transducer/Publish/Outcomes.antt =====
-- What `mio_publish_data` of src/mio_transducer.c leaves of the responses.
use libmio.Base.{ℕ, ◌≡◌, refl, String, List, Option, none, some, length}
use libmio.Run.{Ptr, Store, write, Run, done}
use libmio.Xml.{Strophe}
use libmio.Response.{Code, Response}
use libmio.Transducer.{TransducerData, linked}
use libmio.Transducer.Publish.{publish_data}
use libmio.Transducer.Publish.Rounds.{Delivers, Fails, publish_from-Delivers, publish_from-Fails}

-- When the count of the data is the length of its list, the caller's response is allocated, what
-- malloc returns is not, and every value has an item that is published with MIO_OK, in order:
-- mio_publish_data returns MIO_OK, the state of the connection is the one behind the last
-- publication, and of the responses only the caller's has changed, to the answer to the last one.
pub publish_data-Delivers :
    (x : Strophe) {N P : Type 0}
    (item_publish : N → Option x.Stanza → Option String → Response P → Run (Code × N × Response P))
    (fresh : ℕ → Ptr) (ts : List TransducerData) (event : Option String) (response : Ptr) (n n' : N)
    (r r' : Response P) (h : Store (Response P))
    → h response ≡ some r
    → ((i : ℕ) → h (fresh i) ≡ none)
    → Delivers x item_publish event r n ts n' r'
    → publish_data x item_publish fresh
        (record { event = event; num_transducers = length ts; transducers = linked ts })
        response
        n
        h
      ≡ done (Code.ok, n', write h response (some r'))
unfolding publish_data
publish_data-Delivers x item_publish fresh ts event response n n' r r' h answerable unused d =
    publish_from-Delivers x item_publish event r fresh response h answerable unused ts 0 none n n'
      r' h tt refl d

-- When the count of the data is the length of its list, the caller's response is allocated, what
-- malloc returns is not, and the publication of a value fails behind others that succeed:
-- mio_publish_data returns that code, the state of the connection is the one behind the failure,
-- and the caller's response is freed.
pub publish_data-Fails :
    (x : Strophe) {N P : Type 0}
    (item_publish : N → Option x.Stanza → Option String → Response P → Run (Code × N × Response P))
    (fresh : ℕ → Ptr) (ts : List TransducerData) (event : Option String) (response : Ptr) (n n' : N)
    (r : Response P) (err : Code) (h : Store (Response P))
    → h response ≡ some r
    → ((i : ℕ) → h (fresh i) ≡ none)
    → Fails x item_publish event r n ts err n'
    → (h' : Store (Response P)) × (publish_data x item_publish fresh
          (record { event = event; num_transducers = length ts; transducers = linked ts })
          response
          n
          h
        ≡ done (err, n', h'))
      × (h' response ≡ none)
unfolding publish_data
publish_data-Fails x item_publish fresh ts event response n n' r err h answerable unused d =
    publish_from-Fails x item_publish event r fresh response h answerable unused ts 0 none n n' err
      h tt refl d
