-- ===== src/Schedule/Ids.antt =====
-- The id of an event, printed and read back.
use libmio.Base.{ℕ, ◌%◌, ◌^◌, ◌<◌, ◌≡◌, ap, ◌∙◌, String, true, arith, ltb}
use libmio.Decimal.{
  ℤ, pos, negsuc, read, write, truncate, truncate-write, starts_with_digit, starts_with_digit-write,
  starts_with_digit-sign, read-write,
}
use libmio.Schedule.{scan_id, as_int}

pub scan_id-digits :
    (s : String) (old : ℤ)
    → starts_with_digit s ≡ true
    → ltb (read s) 18446744073709551616 ≡ true
    → scan_id s old ≡ as_int (read s)
unfolding starts_with_digit
scan_id-digits String.[] old h small = cc
scan_id-digits (String.◌∷◌ c s) old h small =
    let (minus, plus) = starts_with_digit-sign c s h in rw (minus, plus, h, small)

as_int-small : (n : ℕ) → n < 10000000 → as_int n ≡ pos n
as_int-small n h =
    let whole : n % 4294967296 ≡ n = omega arith in
    let below : ltb n 2147483648 ≡ true = ground arith in rw (whole, below)

-- An id of at most seven digits comes back.
pub scan_id-write : (n : ℕ) → n < 10 ^ 7 → scan_id (truncate 7 (write n)) (negsuc 0) ≡ pos n
scan_id-write n h =
    ap (λ s. scan_id s (negsuc 0)) (truncate-write 6 n h)
    ∙ scan_id-digits (write n) (negsuc 0) (starts_with_digit-write n)
        (rw (read-write n) (ground arith))
    ∙ ap as_int (read-write n)
    ∙ as_int-small n h
