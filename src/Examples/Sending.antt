-- ===== src/Examples/Sending.antt =====
-- The theorems on the receive queue and on blocking requests at small connections.
use libmio.Base.{
  ℕ, ◌+◌, ◌≡◌, refl, ap, ◌∙◌, Bool, true, false, inl, List, [], ◌∷◌, Option, none, some, arith,
}
use libmio.Run.{write, done, fault, blocked, write-same}
use libmio.Response.{Code, response_new}
use libmio.Connection.{HashTable, functions, Conn, Request, Presence, handler_id_add}
use libmio.Connection.Queue.{
  Command, enqueue, dequeue, run, IsQueue, spec_run, with_queue, run-spec_run,
}
use libmio.Send.{send_nonblocking, World, Wait, signalled, timed_out, send_blocking}
use libmio.Send.Stages.{started, Ready, Keeps, Answers}
use libmio.Send.Outcomes.{send_blocking-answered, send_blocking-early, send_blocking-timed_out}
use libmio.Send.Slots.{Leaves, send_blocking-last_slot, send_blocking-deadlock}

abbrev Table : Type 0
Table = HashTable.Table functions

abbrev C : Type 0
C = Conn Table ℕ

-- A connection with `n` free slots, an empty table, and a response at address 7.
abbrev idle : ℕ → C
idle n = record {
  requests = λ _. none;
  responses = λ _. some response_new;
  table = λ _. none;
  open_requests = n;
  handlers = [];
  sent = [];
  authenticated = true;
  presence_status = Presence.present;
  conn_predicate = false;
  conn_mutex_held = false;
  rx_queue = 4 ∷ 5 ∷ [];
  rx_queue_len = 2;
  rx_listening = true;
}

-- the handler signals the request
abbrev signal : Option Request → Option Request
signal none = none
signal (some r) = some (record r { predicate = true })

abbrev answer : C → C
answer c = record c { requests = write c.requests 9 (signal (c.requests 9)) }

-- `malloc` returns 9, and the first attempt is taken if `up`.
abbrev world : Bool → (C → C) → (C → C) → Wait → World C
world up others meanwhile wait = record {
  fresh = 9;
  locked = true;
  attempts = λ _. record { text = some "<iq/>"; authenticated = up; locked = true; wakes = [] };
  others = others;
  request_locked = true;
  delete_locked = true;
  meanwhile = meanwhile;
  wait = wait;
}

abbrev nothing : C → C
nothing c = c

keeps : Keeps functions {P = ℕ} 9 nothing
keeps d r here found = (here, found, refl)

answers : Answers functions {P = ℕ} 9 answer
answers d r here found = (write-same d.requests 9 _ ∙ ap signal here, found, refl)

leaves : Leaves functions {P = ℕ} 9 nothing
leaves d r here missing = (here, missing, refl)

ready :
    (others meanwhile : C → C) (w : Wait)
    → Ready functions (world true others meanwhile w) (idle 100) "q1" 7
ready others meanwhile w = record {
  slots = omega arith;
  unused = refl;
  label = response_new;
  answerable = refl;
  locked = refl;
  request_locked = refl;
  delete_locked = refl;
  authenticated = refl;
  loop_locked = refl;
}

send_blocking-answered_example :
    (d : C) × (send_blocking functions (world true nothing answer signalled) (idle 100) 1 "q1" 7
      ≡ done (Code.ok, d))
    × (d.requests 9 ≡ none)
    × (d.table "q1" ≡ none)
    × (d.open_requests ≡ 100)
send_blocking-answered_example =
    send_blocking-answered functions (world true nothing answer signalled) (idle 100) 1 "q1" 7
      (ready nothing answer signalled) keeps answers refl

send_blocking-early_example :
    (d : C) × (send_blocking functions (world true answer nothing signalled) (idle 100) 1 "q1" 7
      ≡ done (Code.error_predicate, d))
    × (d.table "q1" ≡ some 9)
    × (d.open_requests + 1 ≡ 100)
send_blocking-early_example =
    send_blocking-early functions (world true answer nothing signalled) (idle 100) 1 "q1" 7
      (ready answer nothing signalled) answers

send_blocking-timed_out_example :
    send_blocking functions (world true nothing nothing timed_out) (idle 100) 1 "q1" 7 ≡ fault
send_blocking-timed_out_example =
    send_blocking-timed_out functions (world true nothing nothing timed_out) (idle 100) 1 "q1" 7
      (ready nothing nothing timed_out) keeps keeps (inl refl)

send_blocking-last_slot_example :
    (e : C) × (d : C) × (r : Request) × (handler_id_add functions true
        (started functions (world true nothing nothing timed_out) (idle 1))
        1
        "q1"
        9
        7
      ≡ done (Code.error_too_many_open_requests, e))
    × (send_nonblocking
          (record { text = some "<iq/>"; authenticated = true; locked = true; wakes = [] })
          e
        ≡ (Code.ok, record e { sent = "<iq/>" ∷ [] }))
    × (send_blocking functions (world true nothing nothing timed_out) (idle 1) 1 "q1" 7
        ≡ done (Code.error_timeout, d))
    × (d.open_requests ≡ 0)
    × (d.requests 9 ≡ some r)
send_blocking-last_slot_example =
    send_blocking-last_slot functions (world true nothing nothing timed_out) (idle 1) 1 "q1" 7 refl
      refl refl refl refl refl refl leaves leaves refl

send_blocking-deadlock_example :
    send_blocking functions
      (world false nothing nothing timed_out)
      (record (idle 100) { conn_predicate = true })
      1
      "q1"
      7
    ≡ blocked
send_blocking-deadlock_example =
    send_blocking-deadlock functions (world false nothing nothing timed_out)
      (record (idle 100) { conn_predicate = true }) 1 "q1" 7 (omega arith) refl refl refl refl refl
      refl refl refl refl

abbrev commands : List Command
commands = enqueue 6 ∷ dequeue ∷ dequeue ∷ []

run-spec_run_example :
    (run commands (idle 100)
      ≡ done (
        (spec_run commands (4 ∷ 5 ∷ [])).0,
        with_queue (idle 100) (spec_run commands (4 ∷ 5 ∷ [])).1,
      ))
    × IsQueue (with_queue (idle 100) (spec_run commands (4 ∷ 5 ∷ [])).1)
run-spec_run_example = run-spec_run commands (idle 100) (omega arith)
