-- ===== src/Config/Numbers.antt =====
-- The numbers of daemons/config_file.c: `s_strtocode`, `s_strtou32`, `s_strtoi`, `s_strtoui` and
-- `s_strtolirc_t`, over `strtoull`, `strtoul` and `strtol` of the C library with the base 0, where
-- `long` has 64 bits. A text is the list of the numbers of its characters.
pub mod Hex
mod Tests
use lirc_port_for_mac_os_x.Prelude.{
  ℕ, ℤ, pos, negsuc, ◌+◌, ◌-◌, ◌*◌, ◌%◌, ◌^◌, List, [], ◌∷◌, Bool, true, false, ◌&&◌, ◌||◌, not,
  leb, ltb, ◌==◌, if◌then◌else◌,
}

-- The value that a function returns, and whether it has set `parse_error`.
pub record Checked {ℓ} (A : Type ℓ) : Type ℓ where
  pub value : A
  pub failed : Bool

abbrev pub accept {ℓ} : {A : Type ℓ} → A → Checked A
accept x = record { value = x; failed = false }

abbrev pub fail {ℓ} : {A : Type ℓ} → A → Checked A
fail x = record { value = x; failed = true }

abbrev pub is_empty : List ℕ → Bool
is_empty [] = true
is_empty (c ∷ cs) = false

-- The value of a digit in any base, and 36 for what is none.
unfoldable pub digit_value : ℕ → ℕ
digit_value c =
    if leb 48 c && leb c 57
    then c - 48
    else if leb 65 c && leb c 90
    then c - 55
    else if leb 97 c && leb c 122
    then c - 87
    else 36

-- The number that the digits spell behind `n`, and what follows them.
unfoldable pub scan_digits : ℕ → ℕ → List ℕ → ℕ × List ℕ
scan_digits base n [] = (n, [])
scan_digits base n (c ∷ cs) =
    let rest = scan_digits base (n * base + digit_value c) cs in
    if ltb (digit_value c) base then rest else (n, c ∷ cs)

unfoldable pub is_digit : ℕ → List ℕ → Bool
is_digit base [] = false
is_digit base (c ∷ cs) = ltb (digit_value c) base

-- A number without a sign. With no digits nothing is read, which is `whole`.
unfoldable pub scan_plain : List ℕ → List ℕ → ℕ × List ℕ
unfolding scan_digits is_digit
scan_plain whole [] = (0, whole)
scan_plain whole (c ∷ cs) =
    if c == 48
    then scan_digits 8 0 (c ∷ cs)
    else if is_digit 10 (c ∷ cs)
    then scan_digits 10 0 (c ∷ cs)
    else (0, whole)

unfoldable pub scan_number : List ℕ → List ℕ → ℕ × List ℕ
unfolding scan_plain
scan_number whole (c ∷ x ∷ cs) =
    if c == 48 && (x == 120 || x == 88) && is_digit 16 cs
    then scan_digits 16 0 cs
    else scan_plain whole (c ∷ x ∷ cs)
scan_number whole cs = scan_plain whole cs

-- The white space of the C library that may come before a number.
abbrev pub is_white : ℕ → Bool
is_white c = c == 32 || leb 9 c && leb c 13

unfoldable pub skip_space : List ℕ → List ℕ
skip_space [] = []
skip_space (c ∷ cs) = let rest = skip_space cs in if is_white c then rest else c ∷ cs

-- Whether there is a minus, the number without it, and what follows.
pub record Scanned : Type 0 where
  pub minus : Bool
  pub magnitude : ℕ
  pub rest : List ℕ

abbrev pub with_sign : Bool → ℕ × List ℕ → Scanned
with_sign minus (n, rest) = record { minus = minus; magnitude = n; rest = rest }

unfoldable pub scan_signed : List ℕ → List ℕ → Scanned
unfolding scan_number
scan_signed whole [] = with_sign false (0, whole)
scan_signed whole (c ∷ cs) =
    if c == 45
    then with_sign true (scan_number whole cs)
    else if c == 43
    then with_sign false (scan_number whole cs)
    else with_sign false (scan_number whole (c ∷ cs))

unfoldable pub scan : List ℕ → Scanned
unfolding scan_signed skip_space
scan val = scan_signed val (skip_space val)

-- What `strtoull` and, for a `long` of 64 bits, `strtoul` return and leave at `endptr` and in
-- `errno`.
pub record Converted : Type 0 where
  pub number : ℕ
  pub rest : List ℕ
  pub is_out_of_range : Bool

unfoldable pub strtoull : List ℕ → Converted
unfolding scan
strtoull val =
    let s = scan val in
    if ltb s.magnitude (2 ^ 64)
    then record {
      number = if s.minus then (2 ^ 64 - s.magnitude) % 2 ^ 64 else s.magnitude;
      rest = s.rest;
      is_out_of_range = false;
    }
    else record { number = 2 ^ 64 - 1; rest = s.rest; is_out_of_range = true }

-- `-n` as an integer.
abbrev pub negated : ℕ → ℤ
negated n = if n == 0 then pos 0 else negsuc (n - 1)

unfoldable pub strtol : List ℕ → ℤ × List ℕ
unfolding scan
strtol val =
    let s = scan val in
    let n = s.magnitude in
    if s.minus
    then (negated (if ltb (2 ^ 63) n then 2 ^ 63 else n), s.rest)
    else (pos (if ltb n (2 ^ 63) then n else 2 ^ 63 - 1), s.rest)

unfoldable pub s_strtocode : List ℕ → Checked ℕ
unfolding strtoull
s_strtocode val =
    let c = strtoull val in
    if c.number == 2 ^ 64 - 1 && c.is_out_of_range || not (is_empty c.rest) || is_empty val
    then fail 0
    else accept c.number

-- The assignment to the 32 bits of `n` drops what does not fit.
unfoldable pub s_strtou32 : List ℕ → Checked ℕ
unfolding strtoull
s_strtou32 val =
    let c = strtoull val in
    if is_empty val || not (is_empty c.rest) then fail 0 else accept (c.number % 2 ^ 32)

-- `(int)n == n`.
abbrev pub fits_int : ℤ → Bool
fits_int (pos n) = ltb n (2 ^ 31)
fits_int (negsuc n) = ltb n (2 ^ 31)

unfoldable pub s_strtoi : List ℕ → Checked ℤ
unfolding strtol
s_strtoi val =
    let (n, rest) = strtol val in
    if is_empty val || not (is_empty rest) || not (fits_int n) then fail (pos 0) else accept n

-- `n` has 32 bits, so that its test against itself as an `unsigned int` always holds.
unfoldable pub s_strtoui : List ℕ → Checked ℕ
unfolding strtoull
s_strtoui val =
    let c = strtoull val in
    let n = c.number % 2 ^ 32 in
    if is_empty val || not (is_empty c.rest) || not (n == n) then fail 0 else accept n

-- `(lirc_t)n`.
abbrev pub as_lirc : ℕ → ℤ
as_lirc n = if ltb n (2 ^ 31) then pos n else negsuc (2 ^ 32 - 1 - n)

-- A duration below 0 is warned of and returned.
unfoldable pub s_strtolirc_t : List ℕ → Checked ℤ
unfolding strtoull
s_strtolirc_t val =
    let c = strtoull val in
    let n = c.number % 2 ^ 32 in
    if is_empty val || not (is_empty c.rest) || not (n == n)
    then fail (pos 0)
    else accept (as_lirc n)
