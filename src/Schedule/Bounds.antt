-- ===== src/Schedule/Bounds.antt =====
-- The id that a schedule query reads into an `int`, with `sscanf("%u")`.
use libmio.Base.{ℕ, ◌%◌, ◌-◌, ◌==◌, ◌<◌, String, inl, inr, arith, str_eq, Bool-cases, ltb}
use Prim.Native.Char.{code}
use libmio.Decimal.{ℤ, pos, negsuc, read, starts_with_digit}
use libmio.Xml.{Attrs}
use libmio.Xml.Scan.{scan, scan-Keeps}
use libmio.Schedule.{Event, event_new, scan_digits, scan_id, as_int, as_unsigned}
use libmio.Schedule.Query.{event_attribute}

-- the numbers of an `int`
abbrev pub IsInt : ℤ → Type 0
IsInt (pos n) = n < 2147483648
IsInt (negsuc n) = n < 2147483648

as_int-IsInt : (n : ℕ) → IsInt (as_int n)
as_int-IsInt n = ground arith

as_unsigned-bound : (i : ℤ) → IsInt i → as_unsigned i < 4294967296
as_unsigned-bound (pos n) h = omega arith
as_unsigned-bound (negsuc n) h = omega arith

scan_digits-IsInt :
    (f : ℕ → ℤ) (s : String) (old : ℤ)
    → ((n : ℕ) → IsInt (f n))
    → IsInt old
    → IsInt (scan_digits f s old)
scan_digits-IsInt f s old fits h = elim (Bool-cases (starts_with_digit s)) [
  | inl e ↦ elim (Bool-cases (ltb (read s) 18446744073709551616)) [
    | inl small ↦ rw (e, small) (fits (read s))
    | inr large ↦ rw (e, large) (omega arith)
  ]
  | inr e ↦ rw e h
]

scan_id-IsInt : (s : String) (old : ℤ) → IsInt old → IsInt (scan_id s old)
scan_id-IsInt String.[] old h = h
scan_id-IsInt (String.◌∷◌ c s) old h = elim (Bool-cases (code c == b'-')) [
  | inl minus ↦ rw minus (
      scan_digits-IsInt (λ n. as_int (4294967296 - n % 4294967296)) s old
        (λ n. as_int-IsInt (4294967296 - n % 4294967296)) h)
  | inr other ↦ elim (Bool-cases (code c == b'+')) [
    | inl plus ↦ rw (other, plus) (scan_digits-IsInt as_int s old as_int-IsInt h)
    | inr digits ↦ rw (other, digits) (scan_digits-IsInt as_int (String.◌∷◌ c s) old as_int-IsInt h)
  ]
]

event_attribute-IsInt : (k v : String) (e : Event) → IsInt e.id → IsInt (event_attribute k v e).id
event_attribute-IsInt k v e h = elim (Bool-cases (str_eq k "id")) [
  | inl hit ↦ rw hit (scan_id-IsInt v e.id h)
  | inr miss ↦ rw miss h
]

-- Whatever the attributes of an event element, its id among them several times or not at all: the
-- id that is read fits into an int, and printed with %u it is below 2^32.
pub scan-event-IsInt :
    (attrs : Attrs)
    → IsInt (scan event_attribute event_new attrs).id
      × (as_unsigned (scan event_attribute event_new attrs).id < 4294967296)
scan-event-IsInt attrs =
    let fits : IsInt (scan event_attribute event_new attrs).id =
      scan-Keeps event_attribute (λ e. IsInt e.id) event_attribute-IsInt attrs event_new
        (omega arith) in
    (fits, as_unsigned-bound _ fits)
