-- ===== src/Word/Masks.antt =====
-- `gen_mask` as a number, and what the masks of daemons/ir_remote.h keep of a code.
use native.Mathlib.Nat.{pow-suc}
use lirc_port_for_mac_os_x.Prelude.{
  ℕ, zero, suc, ◌+◌, ◌-◌, ◌*◌, ◌%◌, ◌^◌, ◌≤◌, ◌<◌, bit_and, bit_or, ◌≡◌, ap, ◌∙◌, arith,
  bit_or_fields, bit_and_mask, pow_mono, pow_pos,
}
use lirc_port_for_mac_os_x.Word.Shift.{shl_exact}
use lirc_port_for_mac_os_x.Word.{code_mod, shl, gen_mask_loop, gen_mask}

-- A mask of `j` ones grows by one: `(mask << 1) | 1`.
push_one : (j : ℕ) → j < 64 → bit_or (shl (2 ^ j - 1) 1) 1 ≡ 2 ^ suc j - 1
push_one j h =
    rw (shl_exact (2 ^ j - 1) 1 below)
      (omega (arith, bit_or_fields 1 (2 ^ j - 1) 1 (omega arith), pow-suc 2 j, pow_pos j))
  where
    below : (2 ^ j - 1) * 2 ^ 1 < code_mod
    below = omega (arith, pow_mono (suc j) 64 h, pow-suc 2 j, pow_pos j)

gen_mask_loop-eq-pow :
    (left j : ℕ) → j + left ≤ 64 → gen_mask_loop left (2 ^ j - 1) ≡ 2 ^ (j + left) - 1
unfolding gen_mask_loop
gen_mask_loop-eq-pow zero j h = ap (λ (t : ℕ). 2 ^ t - 1) (omega arith)
gen_mask_loop-eq-pow (suc left) j h =
    ap (gen_mask_loop left) (push_one j (omega arith))
    ∙ gen_mask_loop-eq-pow left (suc j) (omega arith)
    ∙ ap (λ (t : ℕ). 2 ^ t - 1) (omega arith)

pub gen_mask-eq-pow : (bits : ℕ) → bits ≤ 64 → gen_mask bits ≡ 2 ^ bits - 1
unfolding gen_mask
gen_mask-eq-pow bits h =
    gen_mask_loop-eq-pow bits 0 (omega arith) ∙ ap (λ (t : ℕ). 2 ^ t - 1) (omega arith)

-- Masking with `gen_mask` is the remainder by a power of two.
pub bit_and-gen_mask : (bits a : ℕ) → bits ≤ 64 → bit_and a (gen_mask bits) ≡ a % 2 ^ bits
bit_and-gen_mask bits a h = rw (gen_mask-eq-pow bits h) (bit_and_mask bits a)
