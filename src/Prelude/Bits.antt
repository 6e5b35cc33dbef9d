-- ===== src/Prelude/Bits.antt =====
-- The bit operations on native numbers at variables: one law for the lowest digit of each, from
-- the digit recursion that the native operations stand for, and what follows for fields and masks.
use Prim.Native.Nat.{
  ℕ, zero, suc, ◌+◌, ◌-◌, ◌*◌, ◌/◌, ◌%◌, ◌^◌, ◌≤◌, ◌<◌, min, max, bit_and, bit_or, bit_xor, digits,
  differ, bitwise, bit_and-bitwise, bit_or-bitwise, bit_xor-bitwise,
}
use mathlib.Core.Path.{◌≡◌, refl}
use native.Mathlib.Nat.{le_refl, pow-suc}
use native.Mathlib.Omega.{arith}
use lirc_port_for_mac_os_x.Prelude.Powers.{pow_pos, div-pow-suc, mul-pow-suc, mod-pow-suc}

module _ (rest : ℕ → ℕ) (digit : ℕ → ℕ → ℕ) where
  -- A round that finds no digit left changes nothing.
  spare_round : (n a b : ℕ) → a ≤ n → digits rest digit (suc n) a b ≡ digits rest digit n a b
  spare_round n zero b h =
      elim n as (λ k. digits rest digit (suc k) 0 b ≡ digits rest digit k 0 b) [
        | zero ↦ refl
        | suc k ↦ refl
      ]
  spare_round zero (suc a) b h = absurd (omega arith)
  spare_round (suc n) (suc a) b h = rw (spare_round n (suc a / 2) (b / 2) (omega arith))

  spare_rounds :
      (extra n a b : ℕ) → a ≤ n → digits rest digit (n + extra) a b ≡ digits rest digit n a b
  spare_rounds zero n a b h = let e : n + 0 ≡ n = omega arith in rw e refl
  spare_rounds (suc extra) n a b h =
      let e : n + suc extra ≡ suc (n + extra) = omega arith in
      let spare = spare_round (n + extra) a b (omega arith) in
      rw (e, spare) (spare_rounds extra n a b h)

  -- The number without its lowest digit, and that digit.
  low_digit :
      (a b : ℕ)
      → digits rest digit (suc a) (suc a) b
        ≡ bitwise rest digit (suc a / 2) (b / 2) * 2 + digit (suc a % 2) (b % 2)
  low_digit a b =
      let half = suc a / 2 in
      let e : half + (a - half) ≡ a = omega arith in
      let enough : digits rest digit a half (b / 2) ≡ digits rest digit half half (b / 2) =
        rw e at (spare_rounds (a - half) half half (b / 2) (le_refl half)) in
      omega (arith, enough)

pub bit_xor_step : (a b : ℕ) → bit_xor a b ≡ bit_xor (a / 2) (b / 2) * 2 + differ (a % 2) (b % 2)
bit_xor_step zero b = simp bit_xor-bitwise (differ_digits b)
  where
    differ_digits : (b : ℕ) → b ≡ b / 2 * 2 + differ 0 (b % 2)
    differ_digits b = omega arith
bit_xor_step (suc a) b = simp bit_xor-bitwise (low_digit (λ y. y) differ a b)

pub bit_and_step : (x y : ℕ) → bit_and x y ≡ min (x % 2) (y % 2) + bit_and (x / 2) (y / 2) * 2
bit_and_step zero y = let e = bit_and-bitwise 0 in rw (e y, e (y / 2)) (omega arith)
bit_and_step (suc x) y =
    let e = low_digit (λ rest. 0) min x y in simp bit_and-bitwise (omega (arith, e))

pub bit_or_step : (x y : ℕ) → bit_or x y ≡ max (x % 2) (y % 2) + bit_or (x / 2) (y / 2) * 2
bit_or_step zero y = let e = bit_or-bitwise 0 in rw (e y, e (y / 2)) (omega arith)
bit_or_step (suc x) y =
    let e = low_digit (λ rest. rest) max x y in simp bit_or-bitwise (omega (arith, e))

pub zero-bit_and : (b : ℕ) → bit_and 0 b ≡ 0
zero-bit_and b = bit_and-bitwise 0 b

pub zero-bit_or : (b : ℕ) → bit_or 0 b ≡ b
zero-bit_or b = bit_or-bitwise 0 b

bit_and-zero_below : (n a : ℕ) → a ≤ n → bit_and a 0 ≡ 0
bit_and-zero_below n zero h = refl
bit_and-zero_below zero (suc a) h = absurd (omega arith)
bit_and-zero_below (suc n) (suc a) h =
    omega (arith, bit_and_step (suc a) 0, bit_and-zero_below n (suc a / 2) (omega arith))

pub bit_and-zero : (a : ℕ) → bit_and a 0 ≡ 0
bit_and-zero a = bit_and-zero_below a a (le_refl a)

bit_or-zero_below : (n a : ℕ) → a ≤ n → bit_or a 0 ≡ a
bit_or-zero_below n zero h = refl
bit_or-zero_below zero (suc a) h = absurd (omega arith)
bit_or-zero_below (suc n) (suc a) h =
    omega (arith, bit_or_step (suc a) 0, bit_or-zero_below n (suc a / 2) (omega arith))

pub bit_or-zero : (a : ℕ) → bit_or a 0 ≡ a
bit_or-zero a = bit_or-zero_below a a (le_refl a)

-- `(q << k) | r` is a sum when `r` fits in `k` bits.
pub bit_or_fields : (k q r : ℕ) → r < 2 ^ k → bit_or (q * 2 ^ k) r ≡ q * 2 ^ k + r
bit_or_fields zero q r h = let e : r ≡ 0 = omega arith in rw (e, bit_or-zero) (omega arith)
bit_or_fields (suc k) q r h = ground (
  arith,
  bit_or_step (q * 2 ^ suc k) r,
  mul-pow-suc q k,
  bit_or_fields k q (r / 2) (omega (arith, pow-suc 2 k)),
)

-- `a & ((1 << k) - 1)` is the remainder by `2 ^ k`.
pub bit_and_mask : (k a : ℕ) → bit_and a (2 ^ k - 1) ≡ a % 2 ^ k
bit_and_mask zero a = rw bit_and-zero (omega arith)
bit_and_mask (suc k) a = ground (
  arith,
  bit_and_step a (2 ^ suc k - 1),
  pow-suc 2 k,
  pow_pos k,
  bit_and_mask k (a / 2),
  mod-pow-suc k a,
)

pub bit_and-one : (a : ℕ) → bit_and a 1 ≡ a % 2
bit_and-one a = omega (arith, bit_and_step a 1, bit_and-zero (a / 2))

-- `a & (1 << i)` keeps the binary digit at `i`.
pub bit_and_power : (i a : ℕ) → bit_and a (2 ^ i) ≡ a / 2 ^ i % 2 * 2 ^ i
bit_and_power zero a = omega (arith, bit_and-one a)
bit_and_power (suc i) a = ground (
  arith,
  bit_and_step a (2 ^ suc i),
  pow-suc 2 i,
  bit_and_power i (a / 2),
  div-pow-suc i a,
  mul-pow-suc (a / 2 / 2 ^ i % 2) i,
)

differ-zero : (b : ℕ) → b ≤ 1 → differ b 0 ≡ b
differ-zero zero h = refl
differ-zero (suc zero) h = refl
differ-zero (suc (suc b)) h = absurd (omega arith)

differ-one : (b : ℕ) → b ≤ 1 → differ b 1 ≡ 1 - b
differ-one zero h = refl
differ-one (suc zero) h = refl
differ-one (suc (suc b)) h = absurd (omega arith)

bit_xor-zero_below : (n a : ℕ) → a ≤ n → bit_xor a 0 ≡ a
bit_xor-zero_below n zero h = refl
bit_xor-zero_below zero (suc a) h = absurd (omega arith)
bit_xor-zero_below (suc n) (suc a) h = omega (
  arith,
  bit_xor_step (suc a) 0,
  differ-zero (suc a % 2) (omega arith),
  bit_xor-zero_below n (suc a / 2) (omega arith),
)

-- `a ^ 1`, `a | 1` and `a & ~1` change the lowest digit alone.
pub bit_xor-one : (a : ℕ) → bit_xor a 1 ≡ a / 2 * 2 + (1 - a % 2)
bit_xor-one a = omega (
  arith,
  bit_xor_step a 1,
  differ-one (a % 2) (omega arith),
  bit_xor-zero_below (a / 2) (a / 2) (le_refl (a / 2)),
)

pub bit_or-one : (a : ℕ) → bit_or a 1 ≡ a / 2 * 2 + 1
bit_or-one a = omega (arith, bit_or_step a 1, bit_or-zero (a / 2))

pub bit_and-clear_lowest : (a : ℕ) → a < 2 ^ 64 → bit_and a (2 ^ 64 - 2) ≡ a / 2 * 2
bit_and-clear_lowest a h = omega (arith, bit_and_step a (2 ^ 64 - 2), bit_and_mask 63 (a / 2))
