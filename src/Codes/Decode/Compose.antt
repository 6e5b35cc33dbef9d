-- ===== src/Codes/Decode/Compose.antt =====
-- The code that `set_code` reports, against the one that `gen_ir_code` matches.
use lirc_port_for_mac_os_x.Prelude.{
  ℕ, zero, suc, ◌+◌, ◌^◌, ◌≤◌, ◌<◌, ◌≡◌, ◌∙◌, arith, bit_and, bit_or, false, ltb, if◌then◌else◌,
}
use native.Mathlib.Nat.{mod-eq_of_lt}
use lirc_port_for_mac_os_x.Word.{shl, gen_mask}
use lirc_port_for_mac_os_x.Word.Masks.{bit_and-gen_mask}
use lirc_port_for_mac_os_x.Remote.{Remote}
use lirc_port_for_mac_os_x.Remote.Flags.{
  has_flag, compat_reverse, has_pre, has_post, is_raw, bit_count,
}
use lirc_port_for_mac_os_x.Codes.Mapping.{gen_ir_code}
use lirc_port_for_mac_os_x.Codes.Mapping.Fields.{shift_in}
use lirc_port_for_mac_os_x.Codes.Decode.{compose_code}

-- The data of the remote and the code have the widths that the remote declares.
pub record FitsWidths (remote : Remote) (code : ℕ) : Type 0 where
  pub pre_fits : remote.pre_data < 2 ^ remote.pre_data_bits
  pub code_fits : code < 2 ^ remote.bits
  pub post_fits : remote.post_data < 2 ^ remote.post_data_bits
  pub all_fit : bit_count remote ≤ 64

kept : (bits x : ℕ) → bits ≤ 64 → x < 2 ^ bits → bit_and x (gen_mask bits) ≡ x
kept bits x h l = bit_and-gen_mask bits x h ∙ mod-eq_of_lt l

-- Data of no width are 0.
pre_shifted : (n k p : ℕ) → p < 2 ^ n → (if ltb 0 n then shl p k else 0) ≡ shl p k
pre_shifted zero k p h = let z : p ≡ 0 = omega arith in rw z (omega arith)
pre_shifted (suc n) k p h = ground arith

post_shifted :
    (j n q r : ℕ)
    → j + n ≤ 64
    → {e : ℕ} → (q ≡ e) × (e < 2 ^ j)
    → r < 2 ^ n
    → (if ltb 0 n then bit_or (shl q n) r else q) ≡ bit_or (shl q n) r
post_shifted j zero q r h (e, l) hr =
    let q-lt : q < 2 ^ j = rw e l in omega (arith, (shift_in j 0 q r h q-lt hr).0)
post_shifted j (suc n) q r h l hr = ground arith

-- For a remote that is not raw and not kept in the reversed order, whose data and code have the
-- widths that it declares, at most 64 bits in all, the code that `set_code` reports is the one that
-- `get_code` compares with what was received.
pub compose_code-eq-gen_ir_code :
    (remote : Remote) (code : ℕ)
    → FitsWidths remote code
    → is_raw remote ≡ false
    → has_flag remote compat_reverse ≡ false
    → compose_code remote code ≡ gen_ir_code remote remote.pre_data code remote.post_data
unfolding compose_code gen_ir_code has_pre has_post bit_count
compose_code-eq-gen_ir_code remote code w r c =
    let pre_bound : remote.pre_data_bits ≤ 64 = omega (arith, w.all_fit) in
    let code_bound : remote.bits ≤ 64 = omega (arith, w.all_fit) in
    let post_bound : remote.post_data_bits ≤ 64 = omega (arith, w.all_fit) in
    let upper_bound : remote.pre_data_bits + remote.bits ≤ 64 = omega (arith, w.all_fit) in
    let all_bound : remote.pre_data_bits + remote.bits + remote.post_data_bits ≤ 64 = w.all_fit in
    rw
      (
        r,
        c,
        kept remote.pre_data_bits remote.pre_data pre_bound w.pre_fits,
        kept remote.bits code code_bound w.code_fits,
        kept remote.post_data_bits remote.post_data post_bound w.post_fits,
        pre_shifted remote.pre_data_bits remote.bits remote.pre_data w.pre_fits,
      )
      (post_shifted (remote.pre_data_bits + remote.bits) remote.post_data_bits _ remote.post_data
        all_bound
        (shift_in remote.pre_data_bits remote.bits remote.pre_data code upper_bound w.pre_fits
          w.code_fits)
        w.post_fits)
