-- ===== src/Schedule/Invariant.antt =====
-- What the callbacks of the schedule query keep, whatever the server sends.
use libmio.Base.{
  ℕ, ◌+◌, ◌≡◌, refl, sym, subst, String, true, false, inl, inr, List, [], ◌∷◌, Option, none, some,
  arith, length, str_eq, Bool-cases, ◌>>=◌, add_last, update_last,
}
use libmio.Response.{
  Code, Response, ResponseType, PacketType, Packet, Body, packet, err, null, on_packet,
  xml_error_handler, error_attribute, response_error_new,
}
use libmio.Xml.{Attrs}
use libmio.Xml.Scan.{scan}
use libmio.Handlers.{Document, xml_parse}
use libmio.Handlers.Invariant.{IfSome, IfSome->>=, IfSome-any, IfSome-if, xml_parse-Keeps}
use libmio.Schedule.{Event, event_new, recurrence_new}
use libmio.Schedule.Query.{
  Reading, on_event, event_attribute, recurrence_chars, start_schedule_query, string_recurrence,
  schedule_reader,
}
use libmio.Schedule.Bounds.{IsInt, scan-event-IsInt}

-- The id of each event fits into an `int`.
abbrev pub AreInts : List Event → Type 0
AreInts [] = Unit
AreInts (e ∷ es) = IsInt e.id × AreInts es

-- A packet counts its events, and their ids are those of an `int`.
abbrev pub IsCounted : Packet (List Event) → Type 0
IsCounted p = (p.num_payloads ≡ length p.payload) × AreInts p.payload

abbrev pub HasCounted : Body (List Event) → Type 0
HasCounted (packet p) = IsCounted p
HasCounted _ = Unit

abbrev pub IsFine : Response (List Event) → Type 0
IsFine r = HasCounted r.response

abbrev pub IsSound : Reading → Type 0
IsSound s = IsFine s.response

AreInts-add_last : (l : List Event) (e : Event) → AreInts l → IsInt e.id → AreInts (add_last l e)
AreInts-add_last [] e h i = (i, tt)
AreInts-add_last (x ∷ xs) e (j, h) i = (j, AreInts-add_last xs e h i)

length-add_last : (l : List Event) (e : Event) → length (add_last l e) ≡ length l + 1
length-add_last [] e = refl
length-add_last (x ∷ xs) e = let ih = length-add_last xs e in omega (arith, ih)

-- A change of the last event that leaves the id.
update_last-Keeps :
    (f : Event → Option Event) (l : List Event) (n : ℕ)
    → ((e : Event) → IfSome (λ e'. e'.id ≡ e.id) (f e))
    → n ≡ length l
    → AreInts l
    → IfSome (λ l'. (n ≡ length l') × AreInts l') (update_last f l)
update_last-Keeps f [] n keeps e h = tt
update_last-Keeps f (x ∷ []) n keeps e (i, h) =
    IfSome->>= (λ x'. x'.id ≡ x.id) (λ l'. (n ≡ length l') × AreInts l') (f x) _
      (λ x' same. (e, (subst IsInt (sym same) i, tt))) (keeps x)
update_last-Keeps f (x ∷ y ∷ r) n keeps e (i, h) =
    IfSome->>= (λ l. (length (y ∷ r) ≡ length l) × AreInts l) (λ l'. (n ≡ length l') × AreInts l')
      (update_last f (y ∷ r)) _ (λ l (counted, ints). (omega (arith, e, counted), (i, ints)))
      (update_last-Keeps f (y ∷ r) (length (y ∷ r)) keeps refl h)

IsFine-on_packet :
    (r : Response (List Event)) (f : Packet (List Event) → Packet (List Event))
    → ((p : Packet (List Event)) → IsCounted p → IsCounted (f p))
    → IsFine r
    → IfSome IsFine (on_packet r f)
IsFine-on_packet r f keeps h = by_body r.response refl h
  where
    by_body :
        (b : Body (List Event)) → r.response ≡ b → HasCounted b → IfSome IsFine (on_packet r f)
    by_body (packet p) e h' = rw e (keeps p h')
    by_body (err _) e h' = rw e tt
    by_body null e h' = rw e tt

IsFine-xml_error_handler :
    (a : Attrs) (r : Response (List Event)) → IsFine r → IsFine (xml_error_handler a r)
unfolding xml_error_handler
IsFine-xml_error_handler a r h =
    elim (Bool-cases (scan error_attribute (response_error_new, false) a).1) [
      | inl linked ↦ rw linked tt
      | inr ignored ↦ rw ignored h
    ]

IsSound-on_event :
    (s : Reading) (f : Event → Option Event)
    → ((e : Event) → IfSome (λ e'. e'.id ≡ e.id) (f e))
    → IsSound s
    → IfSome IsSound (on_event s f)
IsSound-on_event s f keeps h = elim (Bool-cases s.pointed) [
  | inl there ↦ by_body there s.response.response refl h
  | inr missing ↦ rw missing tt
]
  where
    by_body :
        s.pointed ≡ true
        → (b : Body (List Event)) → s.response.response ≡ b
        → HasCounted b
        → IfSome IsSound (on_event s f)
    by_body there (packet p) e (counted, ints) =
        rw (there, e)
          (IfSome->>= (λ l. (p.num_payloads ≡ length l) × AreInts l) IsSound
            (update_last f p.payload) _ (λ l kept. kept)
            (update_last-Keeps f p.payload p.num_payloads keeps counted ints))
    by_body there (err _) e h' = rw (there, e) h
    by_body there null e h' = rw (there, e) h

start-IsSound :
    (s : Reading) (name : String) (a : Attrs)
    → IsSound s
    → IfSome IsSound (start_schedule_query s name a)
unfolding start_schedule_query
start-IsSound s name a h =
    IfSome->>= IsFine IsSound _ _
      (λ r h'. IfSome-if IsSound (str_eq name "event") _ _ (added r h') (
        IfSome-if IsSound (str_eq name "recurrence") _ _ (repeated r h')
          (IfSome-if IsSound (str_eq name "error") _ _ (IsFine-xml_error_handler a r h') h')))
      (IfSome-if IsFine (str_eq name "items") _ _
        (IsFine-on_packet (record s.response { response_type = ResponseType.packet })
          (λ p. record p { type = PacketType.schedule }) (λ p h'. h') h)
        h)
  where
    added :
        (r : Response (List Event))
        → IsFine r
        → IfSome IsSound (
            on_packet r (λ p. record p {
              num_payloads = p.num_payloads + 1;
              payload = add_last p.payload (scan event_attribute event_new a);
            })
            >>= λ r'. some (record { response = r'; filling = false; pointed = true }))
    added r h' =
        IfSome->>= IsFine IsSound _ _ (λ r' fine. fine)
          (IsFine-on_packet r _
            (λ p (counted, ints). (
              omega (arith, counted, length-add_last p.payload (scan event_attribute event_new a)),
              AreInts-add_last p.payload (scan event_attribute event_new a) ints
                  (scan-event-IsInt a).0,
            ))
            h')

    repeated :
        (r : Response (List Event))
        → IsFine r
        → IfSome IsSound (
            on_event
              (record s { response = r })
              (λ e. some (record e { recurrence = some recurrence_new }))
            >>= λ s'. some (record s' { filling = true }))
    repeated r h' =
        IfSome->>= IsSound IsSound _ _ (λ s' sound. sound)
          (IsSound-on_event (record s { response = r })
            (λ e. some (record e { recurrence = some recurrence_new })) (λ e. refl) h')

string-IsSound :
    (s : Reading) (curr : Option String) (t : String)
    → IsSound s
    → IfSome IsSound (string_recurrence s curr t)
unfolding string_recurrence
string-IsSound s none t h = tt
string-IsSound s (some name) t h =
    IsSound-on_event s
      (λ e. e.recurrence >>= λ r. some (record e { recurrence = some (recurrence_chars name t r) }))
      (λ e. IfSome-any (λ e'. e'.id ≡ e.id) e.recurrence _ (λ r. refl)) h

-- For any document whatever, well-formed or not: when a packet counts its events and their ids fit
-- into an int, and the schedule query's callbacks run over the document without undefined
-- behaviour, then in what they leave, if the response still is a packet, the count is the length
-- of the list and each id fits into an int.
pub schedule_reader-IsSound :
    (s s' : Reading) (d : Document) (code : Code)
    → IsSound s
    → xml_parse schedule_reader s d ≡ some (code, s')
    → IsSound s'
schedule_reader-IsSound =
    xml_parse-Keeps schedule_reader IsSound (λ s _ _ n a h. start-IsSound s n a h)
      (λ s curr t h. IfSome-if IsSound s.filling _ _ (string-IsSound s curr t h) h)
