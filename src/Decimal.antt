-- ===== src/Decimal.antt =====
-- Decimal text: what `snprintf("%u")` writes and `sscanf("%u")` reads back.
use Prim.Native.Char.{Char, code}
use native.Mathlib.Nat.{pow-suc}
use libmio.Base.{
  ℕ, zero, suc, ◌+◌, ◌-◌, ◌*◌, ◌/◌, ◌%◌, ◌^◌, ◌≤◌, ◌<◌, ◌≡◌, refl, ap, ◌∙◌, String, arith, Bool,
  inl, inr, true, false, ltb, leb, ltb→lt, ◌==◌, ◌&&◌, if◌then◌else◌, Bool-cases,
}

digit : ℕ → Char
digit zero = "0"
digit (suc zero) = "1"
digit (suc (suc zero)) = "2"
digit (suc (suc (suc zero))) = "3"
digit (suc (suc (suc (suc zero)))) = "4"
digit (suc (suc (suc (suc (suc zero))))) = "5"
digit (suc (suc (suc (suc (suc (suc zero)))))) = "6"
digit (suc (suc (suc (suc (suc (suc (suc zero))))))) = "7"
digit (suc (suc (suc (suc (suc (suc (suc (suc zero)))))))) = "8"
digit _ = "9"

-- the digits of `n` in front of `acc`
write_onto : ℕ → ℕ → String → String
write_onto zero n acc = acc
write_onto (suc f) n acc =
    let s = String.◌∷◌ (digit (n % 10)) acc in
    let rest = write_onto f (n / 10) s in if ltb n 10 then s else rest

-- `%u`; the fuel is above the number of digits
unfoldable pub write : ℕ → String
unfolding write_onto digit
write n = write_onto (suc n) n String.[]

is_digit : Char → Bool
is_digit c = leb b'0' (code c) && leb (code c) b'9'

-- the longest prefix of digits, behind the value `acc` read so far
read_onto : ℕ → String → ℕ
read_onto acc String.[] = acc
read_onto acc (String.◌∷◌ c s) =
    let rest = read_onto (acc * 10 + (code c - b'0')) s in if is_digit c then rest else acc

-- `sscanf(s, "%u", &n)`: the value of the leading digits. A text with none leaves the variable
-- alone, and that case is the caller's.
unfoldable pub read : String → ℕ
unfolding read_onto is_digit
read = read_onto 0

unfoldable pub starts_with_digit : String → Bool
unfolding is_digit
starts_with_digit String.[] = false
starts_with_digit (String.◌∷◌ c s) = is_digit c

-- A digit is no sign.
pub starts_with_digit-sign :
    (c : Char) (s : String)
    → starts_with_digit (String.◌∷◌ c s) ≡ true
    → ((code c == b'-') ≡ false) × ((code c == b'+') ≡ false)
unfolding starts_with_digit is_digit
starts_with_digit-sign c s h = ground arith

-- what a buffer of `k + 1` bytes keeps of a text
unfoldable pub truncate : ℕ → String → String
truncate zero s = String.[]
truncate (suc k) String.[] = String.[]
truncate (suc k) (String.◌∷◌ c s) = String.◌∷◌ c (truncate k s)

below_ten : (d : ℕ) → d < 10 → (is_digit (digit d) ≡ true) × (code (digit d) - b'0' ≡ d)
unfolding digit is_digit
below_ten zero h = (refl, refl)
below_ten (suc zero) h = (refl, refl)
below_ten (suc (suc zero)) h = (refl, refl)
below_ten (suc (suc (suc zero))) h = (refl, refl)
below_ten (suc (suc (suc (suc zero)))) h = (refl, refl)
below_ten (suc (suc (suc (suc (suc zero))))) h = (refl, refl)
below_ten (suc (suc (suc (suc (suc (suc zero)))))) h = (refl, refl)
below_ten (suc (suc (suc (suc (suc (suc (suc zero))))))) h = (refl, refl)
below_ten (suc (suc (suc (suc (suc (suc (suc (suc zero)))))))) h = (refl, refl)
below_ten (suc (suc (suc (suc (suc (suc (suc (suc (suc zero))))))))) h = (refl, refl)
below_ten (suc (suc (suc (suc (suc (suc (suc (suc (suc (suc d)))))))))) h = absurd (omega arith)

read_onto-digit :
    (acc d : ℕ) (s : String)
    → d < 10
    → read_onto acc (String.◌∷◌ (digit d) s) ≡ read_onto (acc * 10 + d) s
unfolding read_onto
read_onto-digit acc d s h = rw ((below_ten d h).0, (below_ten d h).1)

read_onto-write_onto :
    (f n : ℕ) (s : String) → n < f → read_onto 0 (write_onto f n s) ≡ read_onto n s
unfolding write_onto
read_onto-write_onto zero n s h = elim h [ ]
read_onto-write_onto (suc f) n s h = elim (Bool-cases (ltb n 10)) [
  | inl small ↦
      let small' : n < 10 = ltb→lt n 10 small in
      let e : n % 10 ≡ n = omega arith in
      rw (small, e) (read_onto-digit 0 n s small' ∙ ap (λ m. read_onto m s) (omega arith))
  | inr large ↦
      let e : (n / 10) * 10 + n % 10 ≡ n = omega arith in
      rw large (
        read_onto-write_onto f (n / 10) _ (ground arith)
        ∙ read_onto-digit (n / 10) (n % 10) s (omega arith)
        ∙ ap (λ m. read_onto m s) e)
]

-- Reading what was written gives the number back.
pub read-write : (n : ℕ) → read (write n) ≡ n
unfolding read write
read-write n = read_onto-write_onto (suc n) n String.[] (omega arith)

write_onto-starts_with_digit :
    (f n : ℕ) (s : String) → n < f → starts_with_digit (write_onto f n s) ≡ true
unfolding write_onto starts_with_digit
write_onto-starts_with_digit zero n s h = elim h [ ]
write_onto-starts_with_digit (suc f) n s h = elim (Bool-cases (ltb n 10)) [
  | inl small ↦ rw small (below_ten (n % 10) (omega arith)).0
  | inr large ↦ rw large (write_onto-starts_with_digit f (n / 10) _ (ground arith))
]

pub starts_with_digit-write : (n : ℕ) → starts_with_digit (write n) ≡ true
unfolding write
starts_with_digit-write n = write_onto-starts_with_digit (suc n) n String.[] (omega arith)

abbrev len : String → ℕ
len String.[] = 0
len (String.◌∷◌ c s) = suc (len s)

len-write_onto :
    (f n k : ℕ) (s : String) → n < f → n < 10 ^ suc k → len (write_onto f n s) ≤ suc k + len s
unfolding write_onto
len-write_onto zero n k s h b = elim h [ ]
len-write_onto (suc f) n zero s h b =
    let small : ltb n 10 ≡ true = ground arith in rw small (omega arith)
len-write_onto (suc f) n (suc k) s h b = elim (Bool-cases (ltb n 10)) [
  | inl small ↦ rw small (omega arith)
  | inr large ↦
      let p : 10 ^ suc (suc k) ≡ 10 ^ suc k * 10 = pow-suc 10 (suc k) in
      rw large (
        omega (
          arith,
          len-write_onto f (n / 10) k (String.◌∷◌ (digit (n % 10)) s) (ground arith) (omega arith),
        ))
]

truncate_short : (k : ℕ) (s : String) → len s ≤ k → truncate k s ≡ s
unfolding truncate
truncate_short zero String.[] h = refl
truncate_short zero (String.◌∷◌ c s) h = absurd (omega arith)
truncate_short (suc k) String.[] h = refl
truncate_short (suc k) (String.◌∷◌ c s) h = ap (String.◌∷◌ c) (truncate_short k s (omega arith))

-- A number of at most `k + 1` digits fits a buffer of `k + 2` bytes.
pub truncate-write : (k n : ℕ) → n < 10 ^ suc k → truncate (suc k) (write n) ≡ write n
unfolding write
truncate-write k n h =
    truncate_short (suc k) _ (omega (arith, len-write_onto (suc n) n k String.[] (omega arith) h))

pub data ℤ : Type 0 where
  pos : ℕ → ℤ
  negsuc : ℕ → ℤ

-- `-n`
abbrev pub negate : ℕ → ℤ
negate zero = pos 0
negate (suc n) = negsuc n

-- `atoi`: a sign, then digits; 0 for a text without a number. (The blanks that `atoi` skips do not
-- stand at the front of an attribute's number.)
unfoldable pub atoi : String → ℤ
unfolding read
atoi String.[] = pos 0
atoi (String.◌∷◌ c s) =
    if code c == b'-'
    then negate (read s)
    else if code c == b'+'
    then pos (read s)
    else pos (read (String.◌∷◌ c s))
