-- ===== src/Transmit/Encode/Induction.antt =====
-- What every pulse and every space keeps, the whole encoder keeps.
use lirc_port_for_mac_os_x.Prelude.{
  ℕ, ℤ, zero, suc, ◌*◌, ◌+◌, ◌-◌, ◌/◌, ◌%◌, ◌==◌, ◌||◌, Bool, true, false, if◌then◌else◌, bit_and,
}
use lirc_port_for_mac_os_x.Word.{shl, shr, is_set, reverse}
use lirc_port_for_mac_os_x.Remote.{Remote}
use lirc_port_for_mac_os_x.Remote.Flags.{bit_count, is_rcmm, is_xmp}
use lirc_port_for_mac_os_x.Transmit.Buffer.{SendBuffer, send_pulse, send_space}
use lirc_port_for_mac_os_x.Transmit.Encode.{
  send_header, send_foot, send_lead, send_trail, send_rcmm_pair, send_rcmm_loop, send_xmp_loop,
  apply_toggle_bit_mask, apply_toggle_mask, send_one, send_zero, send_bit, send_bits_loop,
  send_data, send_pre, send_post, send_repeat, send_code,
}

pub keep_if {ℓ} :
    {A : Type ℓ} (P : A → Type 0) (c : Bool) {x y : A} → P x → P y → P (if c then x else y)
keep_if P true p q = p
keep_if P false p q = q

module _ (P : SendBuffer → Type 0)
    (pulse_kept : (d : ℕ) (b : SendBuffer) → P b → P (send_pulse d b))
    (space_kept : (d : ℕ) (b : SendBuffer) → P b → P (send_space d b)) (remote : Remote) where
  pub send_header_kept : (b : SendBuffer) → P b → P (send_header remote b)
  unfolding send_header
  send_header_kept b p = keep_if P _ (space_kept _ _ (pulse_kept _ b p)) p

  send_foot_kept : (b : SendBuffer) → P b → P (send_foot remote b)
  unfolding send_foot
  send_foot_kept b p = keep_if P _ (pulse_kept _ _ (space_kept _ b p)) p

  send_lead_kept : (b : SendBuffer) → P b → P (send_lead remote b)
  unfolding send_lead
  send_lead_kept b p = keep_if P _ p (pulse_kept _ b p)

  send_trail_kept : (b : SendBuffer) → P b → P (send_trail remote b)
  unfolding send_trail
  send_trail_kept b p = keep_if P _ p (pulse_kept _ b p)

  pulse_space_kept : (p s : ℕ) (b : SendBuffer) → P b → P (send_space s (send_pulse p b))
  pulse_space_kept p s b k = space_kept s _ (pulse_kept p b k)

  space_pulse_kept : (s p : ℕ) (b : SendBuffer) → P b → P (send_pulse p (send_space s b))
  space_pulse_kept s p b k = pulse_kept p _ (space_kept s b k)

  send_rcmm_pair_kept : (pair : ℕ) (b : SendBuffer) → P b → P (send_rcmm_pair remote pair b)
  unfolding send_rcmm_pair
  send_rcmm_pair_kept pair b p =
      keep_if P (pair == 0) (pulse_space_kept remote.pzero remote.szero b p) (
        keep_if P (pair == 2) (pulse_space_kept remote.pone remote.sone b p) (
          keep_if P (pair == 1) (pulse_space_kept remote.ptwo remote.stwo b p)
            (pulse_space_kept remote.pthree remote.sthree b p)))

  send_rcmm_loop_kept :
      (left code : ℕ) (b : SendBuffer) → P b → P (send_rcmm_loop remote left code b)
  unfolding send_rcmm_loop
  send_rcmm_loop_kept zero code b p = p
  send_rcmm_loop_kept (suc left) code b p =
      send_rcmm_loop_kept left (shr code 2) (send_rcmm_pair remote (bit_and code 3) b)
        (send_rcmm_pair_kept (bit_and code 3) b p)

  send_xmp_loop_kept : (left code : ℕ) (b : SendBuffer) → P b → P (send_xmp_loop remote left code b)
  unfolding send_xmp_loop
  send_xmp_loop_kept zero code b p = p
  send_xmp_loop_kept (suc left) code b p =
      let nibble = reverse (bit_and code 0xf) 4 in
      send_xmp_loop_kept left (shr code 4)
        (send_space (remote.szero + nibble * remote.sone) (send_pulse remote.pzero b))
        (pulse_space_kept _ _ b p)

  send_one_kept : (mask : ℕ) (b : SendBuffer) → P b → P (send_one remote mask b)
  unfolding send_one
  send_one_kept mask b p =
      keep_if P _ (keep_if P _ (space_pulse_kept _ _ b p) (space_pulse_kept _ _ b p))
        (keep_if P _ (space_pulse_kept _ _ b p) (pulse_space_kept _ _ b p))

  send_zero_kept : (mask : ℕ) (b : SendBuffer) → P b → P (send_zero remote mask b)
  unfolding send_zero
  send_zero_kept mask b p =
      keep_if P _ (pulse_space_kept _ _ b p)
        (keep_if P _ (space_pulse_kept _ _ b p) (pulse_space_kept _ _ b p))

  send_bit_kept : (mask code : ℕ) (b : SendBuffer) → P b → P (send_bit remote mask code b)
  unfolding send_bit
  send_bit_kept mask code b p = keep_if P _ (send_one_kept mask b p) (send_zero_kept mask b p)

  send_bits_loop_kept :
      (left mask code : ℕ) (b : SendBuffer) → P b → P (send_bits_loop remote left mask code b)
  unfolding send_bits_loop
  send_bits_loop_kept zero mask code b p = p
  send_bits_loop_kept (suc left) mask code b p =
      let toggled = apply_toggle_mask remote mask (apply_toggle_bit_mask remote mask code) in
      send_bits_loop_kept left (shr mask 1) (shr toggled 1) (send_bit remote mask toggled b)
        (send_bit_kept mask toggled b p)

  send_data_kept :
      (code bits done : ℕ) (b : SendBuffer) → P b → P (send_data remote code bits done b)
  unfolding send_data
  send_data_kept code bits done b p =
      let data' = reverse code bits in
      keep_if P (is_rcmm remote)
        (keep_if P (is_set (bits % 2) || is_set (done % 2)) p
          (send_rcmm_loop_kept (bits / 2) data' b p))
        (keep_if P (is_xmp remote)
          (keep_if P (is_set (bits % 4) || is_set (done % 4)) p
            (send_xmp_loop_kept (bits / 4) data' b p))
          (send_bits_loop_kept bits (shl 1 (bit_count remote - 1 - done)) data' b p))

  send_pre_kept : (b : SendBuffer) → P b → P (send_pre remote b)
  unfolding send_pre
  send_pre_kept b p =
      let sent = send_data_kept remote.pre_data remote.pre_data_bits 0 b p in
      keep_if P _ (keep_if P _ (pulse_space_kept _ _ _ sent) sent) p

  send_post_kept : (b : SendBuffer) → P b → P (send_post remote b)
  unfolding send_post
  send_post_kept b p =
      keep_if P _ (send_data_kept _ _ _ _ (keep_if P _ (pulse_space_kept _ _ b p) p)) p

  pub send_repeat_kept : (b : SendBuffer) → P b → P (send_repeat remote b)
  unfolding send_repeat
  send_repeat_kept b p = send_trail_kept _ (pulse_space_kept _ _ _ (send_lead_kept b p))

  pub send_code_kept :
      ((b : SendBuffer) (sum : ℤ) → P b → P (record b { sum = sum }))
      → (code : ℕ) (repeat : Bool) (b : SendBuffer) → P b
      → P (send_code remote code repeat b)
  unfolding send_code
  send_code_kept sum_kept code repeat b p =
      let headed = keep_if P _ (send_header_kept b p) p in
      let coded =
        send_trail_kept _
          (send_post_kept _ (send_data_kept _ _ _ _ (send_pre_kept _ (send_lead_kept _ headed)))) in
      let footed = keep_if P _ (send_foot_kept _ coded) coded in
      keep_if P _ (sum_kept _ _ footed) footed
