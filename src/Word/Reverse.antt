-- ===== src/Word/Reverse.antt =====
-- `reverse` against the recursion that it stands for.
use native.Mathlib.Nat.{pow-suc}
use lirc_port_for_mac_os_x.Prelude.{
  ℕ, zero, suc, ◌+◌, ◌-◌, ◌*◌, ◌/◌, ◌%◌, ◌^◌, ◌≤◌, ◌<◌, ◌≡◌, refl, ap, ◌∙◌, arith, bit_and, bit_or,
  if◌then◌else◌, bit_or_fields, pow_pos, div-pow-suc, div-pow-suc', mul-pow-suc, fields_div,
  fields_mod, mod-pow-suc,
}
use lirc_port_for_mac_os_x.Word.Shift.{bit_mul-le, shl_bit, tested_bit}
use lirc_port_for_mac_os_x.Word.{shl, is_set, reverse_loop, reverse}

-- The `n` low bits of a number in the opposite order: the lowest comes out on top.
abbrev pub mirrored : ℕ → ℕ → ℕ
mirrored zero a = 0
mirrored (suc n) a = a % 2 * 2 ^ n + mirrored n (a / 2)

pub mirrored-lt : (n a : ℕ) → mirrored n a < 2 ^ n
mirrored-lt zero a = omega arith
mirrored-lt (suc n) a =
    omega (arith, bit_mul-le (a % 2) (2 ^ n) (omega arith), mirrored-lt n (a / 2), pow-suc 2 n)

-- One more digit seen from the other end: the digit at `n` comes out lowest.
pub mirrored-suc : (n a : ℕ) → mirrored (suc n) a ≡ a / 2 ^ n % 2 + 2 * mirrored n a
mirrored-suc zero a = omega arith
mirrored-suc (suc n) a = omega (
  arith,
  mirrored-suc n (a / 2),
  ap (λ (t : ℕ). t % 2) (div-pow-suc n a),
  ap (λ (t : ℕ). a % 2 * t) (pow-suc 2 n),
)

-- Only the `n` low bits matter.
mirrored-mod : (n a : ℕ) → mirrored n (a % 2 ^ n) ≡ mirrored n a
mirrored-mod zero a = refl
mirrored-mod (suc n) a =
    rw (mod-pow-suc n a)
      (omega (arith, mirrored-mod n (a / 2), ap (λ (t : ℕ). t * 2 ^ n) low, ap (mirrored n) high))
  where
    low : (a / 2 % 2 ^ n * 2 + a % 2) % 2 ≡ a % 2
    low = omega arith

    high : (a / 2 % 2 ^ n * 2 + a % 2) / 2 ≡ a / 2 % 2 ^ n
    high = omega arith

mirrored-mirrored : (n a : ℕ) → mirrored n (mirrored n a) ≡ a % 2 ^ n
mirrored-mirrored zero a = omega arith
mirrored-mirrored (suc n) a = omega (
  arith,
  mirrored-suc n (mirrored (suc n) a),
  ap (λ (t : ℕ). t % 2) (fields_div n (a % 2) (mirrored n (a / 2)) (mirrored-lt n (a / 2))),
  mirrored-mod n (mirrored (suc n) a),
  ap (mirrored n) (fields_mod n (a % 2) (mirrored n (a / 2)) (mirrored-lt n (a / 2))),
  mirrored-mirrored n (a / 2),
  mod-pow-suc n a,
)

-- The bit that the loop of `reverse` tests at `i`, moved to the place `k`.
moved_bit :
    (a i k : ℕ)
    → i < 64
    → k < 64
    → shl (if is_set (bit_and a (shl 1 i)) then 1 else 0) k ≡ a / 2 ^ i % 2 * 2 ^ k
moved_bit a i k hi hk = rw (tested_bit a i hi) (shl_bit (a / 2 ^ i % 2) k (omega arith) hk)

reverse_loop-eq-mirrored :
    (left i bits a q : ℕ)
    → i + left ≡ bits
    → bits ≤ 64
    → reverse_loop left i bits a (q * 2 ^ left) ≡ q * 2 ^ left + mirrored left (a / 2 ^ i)
unfolding reverse_loop
reverse_loop-eq-mirrored zero i bits a q e h = omega arith
reverse_loop-eq-mirrored (suc left) i bits a q e h =
    ap (reverse_loop left (i + 1) bits a) added
    ∙ reverse_loop-eq-mirrored left (i + 1) bits a (2 * q + b) (omega arith) h
    ∙ omega (arith, regrouped, ap (mirrored left) shifted)
  where
    b : ℕ
    b = a / 2 ^ i % 2

    place : bits - 1 - i ≡ left
    place = omega arith

    added :
        bit_or
          (q * 2 ^ suc left)
          (shl (if is_set (bit_and a (shl 1 i)) then 1 else 0) (bits - 1 - i))
        ≡ (2 * q + b) * 2 ^ left
    added =
        rw (moved_bit a i (bits - 1 - i) (omega arith) (omega arith), place)
          (omega (
            arith,
            bit_or_fields (suc left) q (b * 2 ^ left) (
                omega (arith, bit_mul-le b (2 ^ left) (omega arith), pow-suc 2 left, pow_pos left)),
            mul-pow-suc q left,
          ))

    regrouped : (2 * q + b) * 2 ^ left ≡ q * 2 ^ suc left + b * 2 ^ left
    regrouped = omega (arith, mul-pow-suc q left)

    shifted : a / 2 ^ (i + 1) ≡ a / 2 ^ i / 2
    shifted = ap (λ (t : ℕ). a / 2 ^ t) (omega arith) ∙ div-pow-suc' i a

-- `reverse` is the mirror image of the `bits` low bits, up to the full width.
pub reverse-eq-mirrored : (a bits : ℕ) → bits ≤ 64 → reverse a bits ≡ mirrored bits a
unfolding reverse
reverse-eq-mirrored a bits h =
    ap (reverse_loop bits 0 bits a) start
    ∙ reverse_loop-eq-mirrored bits 0 bits a 0 (omega arith) h
    ∙ omega (arith, ap (mirrored bits) whole)
  where
    start : 0 ≡ 0 * 2 ^ bits
    start = omega arith

    whole : a / 2 ^ 0 ≡ a
    whole = omega arith

-- Reversing the `bits` low bits of a code twice gives back those bits, for any width up to 64.
pub reverse-reverse : (a bits : ℕ) → bits ≤ 64 → reverse (reverse a bits) bits ≡ a % 2 ^ bits
reverse-reverse a bits h =
    rw (reverse-eq-mirrored a bits h, reverse-eq-mirrored (mirrored bits a) bits h)
      (mirrored-mirrored bits a)
