-- ===== src/Config/Numbers/Hex.antt =====
-- A code that is printed as a hexadecimal number is read again.
use native.Mathlib.Nat.{pow-suc, div-div-eq-div-mul, div-eq_of_lt}
use lirc_port_for_mac_os_x.Prelude.{
  ℕ, zero, suc, ◌+◌, ◌*◌, ◌/◌, ◌%◌, ◌^◌, ◌<◌, List, [], ◌∷◌, Bool, true, false, ltb, if◌then◌else◌,
  ◌≡◌, refl, sym, ap, ◌∙◌, arith,
}
use lirc_port_for_mac_os_x.Config.Numbers.{
  accept, Scanned, with_sign, is_empty, scan_plain, digit_value, scan_digits, is_digit, scan_number,
  skip_space, scan_signed, scan, strtoull, s_strtocode,
}

abbrev pub upper_digit : ℕ → ℕ
upper_digit d = if ltb d 10 then d + 48 else d + 55

-- The `k` lowest digits of `n`, the highest first.
unfoldable pub hex_digits : ℕ → ℕ → List ℕ
hex_digits zero n = []
hex_digits (suc k) n = upper_digit (n / 16 ^ k % 16) ∷ hex_digits k n

-- What `printf` writes for `0x%0*llX` with a code of at most `k` digits.
unfoldable pub print_code : ℕ → ℕ → List ℕ
unfolding hex_digits
print_code k n = 48 ∷ 120 ∷ hex_digits k n

digit_value-upper_digit : (d : ℕ) → d < 16 → digit_value (upper_digit d) ≡ d
unfolding digit_value
digit_value-upper_digit d h = ground arith

digit-lt : (n : ℕ) → n % 16 < 16
digit-lt n = omega arith

scan_digits-hex_digits : (k n : ℕ) → scan_digits 16 (n / 16 ^ k) (hex_digits k n) ≡ (n, [])
unfolding scan_digits hex_digits
scan_digits-hex_digits zero n = ap (λ (t : ℕ). (t, [])) (omega arith)
scan_digits-hex_digits (suc k) n =
    rw (digit_value-upper_digit (n / 16 ^ k % 16) (digit-lt (n / 16 ^ k))) (
      in_base (n / 16 ^ k % 16) (digit-lt (n / 16 ^ k))
      ∙ ap (λ (t : ℕ). scan_digits 16 t (hex_digits k n)) carried
      ∙ scan_digits-hex_digits k n)
  where
    stepped : n / 16 ^ suc k ≡ n / 16 ^ k / 16
    stepped = ap (λ (t : ℕ). n / t) (pow-suc 16 k) ∙ sym (div-div-eq-div-mul n (16 ^ k) 16)

    carried : n / 16 ^ suc k * 16 + n / 16 ^ k % 16 ≡ n / 16 ^ k
    carried = omega (arith, stepped)

    in_base :
        (d : ℕ)
        → d < 16
        → (if ltb d 16
            then scan_digits 16 (n / 16 ^ suc k * 16 + d) (hex_digits k n)
            else (n / 16 ^ suc k, upper_digit (n / 16 ^ k % 16) ∷ hex_digits k n))
          ≡ scan_digits 16 (n / 16 ^ suc k * 16 + d) (hex_digits k n)
    in_base d h = ground arith

is_digit-hex_digits : (k n : ℕ) → is_digit 16 (hex_digits (suc k) n) ≡ true
unfolding is_digit hex_digits
is_digit-hex_digits k n =
    rw (digit_value-upper_digit (n / 16 ^ k % 16) (digit-lt (n / 16 ^ k))) (ground arith)

abbrev number : ℕ → Scanned
number n = with_sign false (n, [])

scan-print_code : (k n : ℕ) → n < 16 ^ suc k → scan (print_code (suc k) n) ≡ number n
unfolding scan skip_space scan_signed scan_number print_code
scan-print_code k n h =
    ap
      (λ (b : Bool).
        with_sign false (if b then scan_digits 16 0 digits else scan_plain printed printed))
      (is_digit-hex_digits k n)
    ∙ ap (with_sign false) (
        ap (λ (t : ℕ). scan_digits 16 t digits) (sym (div-eq_of_lt h))
        ∙ scan_digits-hex_digits (suc k) n)
  where
    digits : List ℕ
    digits = hex_digits (suc k) n

    printed : List ℕ
    printed = 48 ∷ 120 ∷ digits

s_strtocode_of_scan :
    (val : List ℕ) (n : ℕ)
    → is_empty val ≡ false
    → scan val ≡ number n
    → n < 2 ^ 64
    → s_strtocode val ≡ accept n
unfolding s_strtocode strtoull
s_strtocode_of_scan val n v e l = rw (e, v) (ground arith)

-- A code that is printed after 0x with a fixed number of hexadecimal digits, enough for it, is read
-- by s_strtocode as the same code, without an error.
pub s_strtocode-print_code :
    (k n : ℕ) → n < 16 ^ suc k → n < 2 ^ 64 → s_strtocode (print_code (suc k) n) ≡ accept n
unfolding print_code
s_strtocode-print_code k n h l =
    s_strtocode_of_scan (print_code (suc k) n) n refl (scan-print_code k n h) l
