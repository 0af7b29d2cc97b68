-- ===== src/Examples/Sent.antt =====
-- The theorems on the ids and counts of a schedule, for what a server may send.
use libmio.Base.{refl, true, false, List, [], ◌∷◌}
use libmio.Decimal.{pos, negsuc}
use libmio.Decimal
use libmio.Response.{Code, ResponseType, PacketType, packet}
use libmio.Xml.{Attrs, start, stop}
use libmio.Xml.Scan.{scan}
use libmio.Handlers.{Document, complete, xml_parse, read, update_start, update_end}
use libmio.Schedule.{Event, event_new}
use libmio.Schedule.Query.{Reading, start_schedule_query}
use libmio.Schedule.Invariant.{IsSound, schedule_reader-IsSound}

-- one more than an `unsigned` holds, and the id twice
abbrev attributes : Attrs
attributes = ("id", "4294967298") ∷ ("id", "4294967295") ∷ []

abbrev reading : List Event → Reading
reading l = record {
  response = record {
    id = "q1";
    response_type = ResponseType.packet;
    response = packet (record { type = PacketType.schedule; num_payloads = 2; payload = l });
  };
  filling = false;
  pointed = true;
}

abbrev before : Reading
before = record {
  response = record {
    id = "q1";
    response_type = ResponseType.packet;
    response = packet (record { type = PacketType.schedule; num_payloads = 0; payload = [] });
  };
  filling = false;
  pointed = false;
}

-- two events, the first within no items, the second within the first
abbrev document : Document
document =
    complete (start "event" (("id", "7") ∷ []) ∷ start "event" attributes ∷ stop "event" ∷ [])

schedule_reader-IsSound_example :
    IsSound (reading (record event_new { id = pos 7 } ∷ record event_new { id = negsuc 0 } ∷ []))
unfolding xml_parse read scan Decimal.read Decimal.starts_with_digit update_start update_end
    start_schedule_query
schedule_reader-IsSound_example =
    schedule_reader-IsSound before
      (reading (record event_new { id = pos 7 } ∷ record event_new { id = negsuc 0 } ∷ [])) document
      Code.ok (refl, tt) refl
