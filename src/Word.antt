-- ===== src/Word.antt =====
-- The 64-bit operations on an `ir_code` that daemons/ir_remote.h defines inline, and `set_bit` of
-- daemons/transmit.c. A code is a number below 2 ^ 64; what a shift pushes out at the top is lost.
pub mod Shift
pub mod Reverse
pub mod Masks
pub mod Digits
mod Tests
use lirc_port_for_mac_os_x.Prelude.{
  ℕ, zero, suc, ◌+◌, ◌-◌, ◌*◌, ◌/◌, ◌%◌, ◌^◌, bit_and, bit_or, Bool, ◌==◌, if◌then◌else◌,
}

-- `ir_code` values are of type `__u64`.
abbrev pub code_mod : ℕ
code_mod = 2 ^ 64

-- `x << k` and `x >> k` on an `ir_code`.
abbrev pub shl : ℕ → ℕ → ℕ
shl x k = x * 2 ^ k % code_mod

abbrev pub shr : ℕ → ℕ → ℕ
shr x k = x / 2 ^ k

-- `~x` on an `ir_code`.
abbrev pub complement : ℕ → ℕ
complement x = code_mod - 1 - x

-- The test of C: any number but 0 counts as true.
abbrev pub is_set : ℕ → Bool
is_set n = if n == 0 then Bool.false else Bool.true

-- The rounds of the loop are bounded by the width of a code.
unfoldable pub bits_set_loop : ℕ → ℕ → ℕ → ℕ
bits_set_loop zero data' ret = ret
bits_set_loop (suc rounds) data' ret =
    let rest =
      bits_set_loop rounds (shr data' 1) (if is_set (bit_and data' 1) then ret + 1 else ret) in
    if is_set data' then rest else ret

unfoldable pub bits_set : ℕ → ℕ
unfolding bits_set_loop
bits_set data' = bits_set_loop 64 data' 0

-- One round of the loop of `reverse`: the bit at `i` goes to the place `bits - 1 - i`.
unfoldable pub reverse_loop : ℕ → ℕ → ℕ → ℕ → ℕ → ℕ
reverse_loop zero i bits data' c = c
reverse_loop (suc left) i bits data' c =
    reverse_loop left (i + 1) bits data'
      (bit_or c (shl (if is_set (bit_and data' (shl 1 i)) then 1 else 0) (bits - 1 - i)))

unfoldable pub reverse : ℕ → ℕ → ℕ
unfolding reverse_loop
reverse data' bits = reverse_loop bits 0 bits data' 0

unfoldable pub gen_mask_loop : ℕ → ℕ → ℕ
gen_mask_loop zero mask = mask
gen_mask_loop (suc left) mask = gen_mask_loop left (bit_or (shl mask 1) 1)

unfoldable pub gen_mask : ℕ → ℕ
unfolding gen_mask_loop
gen_mask bits = gen_mask_loop bits 0

-- `set_bit` of transmit.c; the caller gets the new value of `*code`.
unfoldable pub set_bit : ℕ → ℕ → ℕ → ℕ
set_bit code bit data' =
    bit_or (bit_and code (complement (shl 1 bit))) (shl (if is_set data' then 1 else 0) bit)
