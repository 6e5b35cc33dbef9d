-- ===== src/Word/Tests.antt =====
-- Tests of the 64-bit operations.
use lirc_port_for_mac_os_x.Prelude.{◌≡◌, refl, arith, bit_and}
use lirc_port_for_mac_os_x.Word.{bits_set, reverse, gen_mask, set_bit}
use lirc_port_for_mac_os_x.Word.Reverse.{reverse-reverse}
use lirc_port_for_mac_os_x.Word.Masks.{bit_and-gen_mask}

bits_set-ff00 : bits_set 0xff01 ≡ 9
unfolding bits_set
bits_set-ff00 = refl

reverse_nibble : reverse 0x1 4 ≡ 0x8
unfolding reverse
reverse_nibble = refl

gen_mask_byte : gen_mask 8 ≡ 0xff
unfolding gen_mask
gen_mask_byte = refl

set_bit_both : set_bit 0x10 0 1 ≡ 0x11
unfolding set_bit
set_bit_both = refl

reverse-reverse_example : reverse (reverse 0x1234 12) 12 ≡ 0x234
reverse-reverse_example = reverse-reverse 0x1234 12 (omega arith)

bit_and-gen_mask_example : bit_and 0x1234 (gen_mask 8) ≡ 0x34
bit_and-gen_mask_example = bit_and-gen_mask 8 0x1234 (omega arith)
