-- ===== src/Prelude/Digits.antt =====
-- Numbers as text: `std::to_string` of an unsigned number of at most 64 bits, `std::stoull`, `atoi`.
use Prim.Native.Char.{Char, code}
use Prim.Native.Nat.{ℕ, zero, suc, ◌+◌, ◌-◌, ◌*◌, ◌/◌, ◌%◌, ◌^◌, ◌<◌}
use Prim.Native.String.{String}
use mathlib.Core.Path.{◌≡◌, refl, ap, ◌∙◌}
use mathlib.Core.Logic.{inl, inr}
use mathlib.Core.Bool.{Bool, true, false, ◌&&◌, ◌||◌}
use mathlib.Core.Option.{Option, none, some}
use native.Mathlib.Omega.{arith}
use multi_market_prices.Prelude.Keys.{
  Bool-cases, eq_of_==, ◌==◌, if◌then◌else◌, leb, nat_eq, nat_dec,
}
use multi_market_prices.Prelude.Chars.{chr, code-chr, lacks}

-- The digits of a number below ten to the fuel, before a text.
unfoldable pub digits : ℕ → ℕ → String → String
unfolding chr nat_dec
digits zero n rest = rest
digits (suc fuel) n rest =
    let with_last = String.◌∷◌ (chr (48 + n % 10)) rest in
    let more = digits fuel (n / 10) with_last in if n / 10 == 0 then with_last else more

-- A number of 64 bits has at most twenty digits.
unfoldable pub to_string : ℕ → String
unfolding digits
to_string n = digits 20 n String.[]

abbrev is_digit : Char → Bool
is_digit c = leb 48 (code c) && leb (code c) 57

-- The number of the digits that a text begins with, after the number read so far.
unfoldable pub read_digits : String → ℕ → ℕ
read_digits String.[] n = n
read_digits (String.◌∷◌ c s) n =
    let rest = read_digits s (n * 10 + (code c - 48)) in if is_digit c then rest else n

abbrev begins_with_digit : String → Bool
begins_with_digit String.[] = false
begins_with_digit (String.◌∷◌ c s) = is_digit c

abbrev is_space : Char → Bool
is_space c = (leb 9 (code c) && leb (code c) 13) || leb 32 (code c) && leb (code c) 32

unfoldable skip_spaces : String → String
skip_spaces String.[] = String.[]
skip_spaces (String.◌∷◌ c s) =
    let rest = skip_spaces s in if is_space c then rest else String.◌∷◌ c s

-- The sign (true for minus) and the rest.
abbrev sign_of : String → Bool × String
sign_of String.[] = (false, String.[])
sign_of (String.◌∷◌ c s) =
    if leb 45 (code c) && leb (code c) 45
    then (true, s)
    else if leb 43 (code c) && leb (code c) 43
    then (false, s)
    else (false, String.◌∷◌ c s)

-- The sign and the number of digits, `none` where there is no digit.
unfoldable read_number : String → Option (Bool × ℕ)
unfolding read_digits skip_spaces
read_number s =
    let (minus, rest) = sign_of (skip_spaces s) in
    if begins_with_digit rest then some (minus, read_digits rest 0) else none

-- `std::stoull`: `none` where it throws, without a digit or at 2 ^ 64 and above. A minus sign negates
-- modulo 2 ^ 64, and what follows the digits is not read.
unfoldable pub stoull : String → Option ℕ
unfolding read_number
stoull s = elim (read_number s) [
  | none ↦ none
  | some r ↦ if leb (2 ^ 64) r.1 then none else some (if r.0 then (2 ^ 64 - r.1) % 2 ^ 64 else r.1)
]

-- `atoi`: 0 without a digit; `none` for a negative number and outside the range of `int`.
unfoldable pub atoi : String → Option ℕ
unfolding read_number
atoi s = elim (read_number s) [
  | none ↦ some 0
  | some r ↦ if leb (2 ^ 31) r.1 || (r.0 && leb 1 r.1) then none else some r.1
]

code_digit : (n : ℕ) → code (chr (48 + n % 10)) ≡ 48 + n % 10
code_digit n = code-chr (48 + n % 10) (omega arith)

read_digits_path : (s : String) (m n : ℕ) → m ≡ n → read_digits s m ≡ read_digits s n
read_digits_path s m n e = ap (read_digits s) e

read_digits-digit :
    (n m : ℕ) (rest : String)
    → read_digits (String.◌∷◌ (chr (48 + n % 10)) rest) m ≡ read_digits rest (m * 10 + n % 10)
unfolding read_digits
read_digits-digit n m rest = rw (code_digit n) (
    ground
      (arith, read_digits_path rest (m * 10 + (48 + n % 10 - 48)) (m * 10 + n % 10) (omega arith)))

read_digits-digits :
    (fuel n : ℕ) (rest : String)
    → n < 10 ^ fuel
    → read_digits (digits fuel n rest) 0 ≡ read_digits rest n
unfolding digits
read_digits-digits zero n rest h = ap (read_digits rest) (omega (arith, h))
read_digits-digits (suc fuel) n rest h = elim (Bool-cases (n / 10 == 0)) [
  | inl e ↦
      rw e
        (read_digits-digit n 0 rest ∙ ap (read_digits rest) (omega (arith, eq_of_== (n / 10) 0 e)))
  | inr e ↦ rw e (
      read_digits-digits fuel (n / 10) (String.◌∷◌ (chr (48 + n % 10)) rest) (omega (arith, h))
      ∙ read_digits-digit n (n / 10) rest
      ∙ ap (read_digits rest) (omega arith))
]

begins_with_digit-digits :
    (fuel n : ℕ) (rest : String)
    → begins_with_digit rest ≡ true
    → begins_with_digit (digits fuel n rest) ≡ true
unfolding digits
begins_with_digit-digits zero n rest h = h
begins_with_digit-digits (suc fuel) n rest h =
    let first : begins_with_digit (String.◌∷◌ (chr (48 + n % 10)) rest) ≡ true =
      rw (code_digit n) (ground arith) in
    let more = begins_with_digit-digits fuel (n / 10) (String.◌∷◌ (chr (48 + n % 10)) rest) first in
    elim (Bool-cases (n / 10 == 0)) [ inl e ↦ rw e first | inr e ↦ rw e more ]

begins_with_digit-to_string : (n : ℕ) → begins_with_digit (to_string n) ≡ true
unfolding to_string digits
begins_with_digit-to_string n =
    let first : begins_with_digit (String.◌∷◌ (chr (48 + n % 10)) String.[]) ≡ true =
      rw (code_digit n) (ground arith) in
    let more =
      begins_with_digit-digits 19 (n / 10) (String.◌∷◌ (chr (48 + n % 10)) String.[]) first in
    elim (Bool-cases (n / 10 == 0)) [ inl e ↦ rw e first | inr e ↦ rw e more ]

read_number-digit :
    (s : String) → begins_with_digit s ≡ true → read_number s ≡ some (false, read_digits s 0)
unfolding read_number skip_spaces
read_number-digit String.[] h = ground arith
read_number-digit (String.◌∷◌ c s) h = ground (arith, h)

read_number-to_string : (n : ℕ) → n < 10 ^ 20 → read_number (to_string n) ≡ some (false, n)
unfolding to_string read_digits
read_number-to_string n h =
    read_number-digit (to_string n) (begins_with_digit-to_string n)
    ∙ ap (λ m. some (false, m)) (read_digits-digits 20 n String.[] h)

-- A number of 64 bits is read back.
pub stoull-to_string : (n : ℕ) → n < 2 ^ 64 → stoull (to_string n) ≡ some n
unfolding stoull
stoull-to_string n h = rw (read_number-to_string n (omega (arith, h)), stoull) (ground (arith, h))

-- A non-negative number of the type `int` is read back.
pub atoi-to_string : (n : ℕ) → n < 2 ^ 31 → atoi (to_string n) ≡ some n
unfolding atoi
atoi-to_string n h = rw (read_number-to_string n (omega (arith, h)), atoi) (ground (arith, h))

pub stoull-lt : (s : String) (n : ℕ) → stoull s ≡ some n → n < 2 ^ 64
unfolding stoull
stoull-lt s n h = ground (arith, h)

lacks-digits :
    (d fuel n : ℕ) (rest : String)
    → 57 < d
    → lacks d rest ≡ true
    → lacks d (digits fuel n rest) ≡ true
unfolding digits lacks
lacks-digits d zero n rest b h = h
lacks-digits d (suc fuel) n rest b h =
    let first : lacks d (String.◌∷◌ (chr (48 + n % 10)) rest) ≡ true =
      ground (arith, code_digit n, h) in
    ground
      (arith, first, lacks-digits d fuel (n / 10) (String.◌∷◌ (chr (48 + n % 10)) rest) b first)

-- No separator above the digits occurs in a number's text.
pub lacks-to_string : (d n : ℕ) → 57 < d → lacks d (to_string n) ≡ true
unfolding to_string lacks
lacks-to_string d n b = lacks-digits d 20 n String.[] b refl
