-- ===== src/Word/Shift.antt =====
-- A shift that pushes nothing out at the top, and the single bits that the loops test and set.
use native.Mathlib.Nat.{mod-eq_of_lt, pow-suc}
use lirc_port_for_mac_os_x.Prelude.{
  ℕ, ◌+◌, ◌*◌, ◌/◌, ◌%◌, ◌^◌, ◌≤◌, ◌<◌, ◌≡◌, ap, ◌∙◌, arith, bit_and, if◌then◌else◌, bit_and_power,
  pow_mono, pow_pos,
}
use lirc_port_for_mac_os_x.Word.{code_mod, shl, is_set}

pub shl_exact : (x k : ℕ) → x * 2 ^ k < code_mod → shl x k ≡ x * 2 ^ k
shl_exact x k h = mod-eq_of_lt h

pub bit_mul-le : (b p : ℕ) → b ≤ 1 → b * p ≤ p
bit_mul-le b p h = grind arith

pub shl_bit : (b k : ℕ) → b ≤ 1 → k < 64 → shl b k ≡ b * 2 ^ k
shl_bit b k hb hk =
    shl_exact b k (
      omega
        (arith, bit_mul-le b (2 ^ k) hb, pow_mono (k + 1) 64 (omega arith), pow_step, pow_pos k))
  where
    pow_step : 2 ^ (k + 1) ≡ 2 * 2 ^ k
    pow_step = ap (λ (t : ℕ). 2 ^ t) next ∙ omega (arith, pow-suc 2 k)
      where
        next : k + 1 ≡ Prim.Native.Nat.suc k
        next = omega arith

is_set-mul : (b p : ℕ) → b ≤ 1 → 0 < p → (if is_set (b * p) then 1 else 0) ≡ b
is_set-mul b p hb hp = ground (arith, bit_mul-le b p hb)

-- The digit that a loop reads at `i` by `data & (1 << i)`.
pub tested_bit :
    (a i : ℕ) → i < 64 → (if is_set (bit_and a (shl 1 i)) then 1 else 0) ≡ a / 2 ^ i % 2
tested_bit a i h =
    rw (shl_bit 1 i (omega arith) h, one, bit_and_power i a)
      (is_set-mul (a / 2 ^ i % 2) (2 ^ i) (omega arith) (pow_pos i))
  where
    one : 1 * 2 ^ i ≡ 2 ^ i
    one = omega arith
