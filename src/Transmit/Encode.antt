-- ===== src/Transmit/Encode.antt =====
-- The encoder of daemons/transmit.c: `send_header` up to `send_code`. Each function takes the send
-- buffer and returns it; the remote is only read.
pub mod Induction
pub mod Order
use lirc_port_for_mac_os_x.Prelude.{
  ℕ, zero, suc, ◌+◌, ◌-◌, ◌*◌, ◌/◌, ◌%◌, bit_and, bit_or, bit_xor, Bool, true, false, ◌&&◌, ◌||◌,
  not, sub_lirc, ltb, ◌==◌, if◌then◌else◌,
}
use lirc_port_for_mac_os_x.Word.{shl, shr, complement, is_set, bits_set, reverse}
use lirc_port_for_mac_os_x.Remote.{Remote}
use lirc_port_for_mac_os_x.Remote.Flags.{
  has_flag, no_head_rep, no_foot_rep, const_length, bit_count, has_header, has_foot, has_pre,
  has_post, has_toggle_bit_mask, has_toggle_mask, is_rcmm, is_xmp, is_biphase, is_space_first,
}
use lirc_port_for_mac_os_x.Transmit.Buffer.{SendBuffer, send_pulse, send_space}

module _ (remote : Remote) where
  unfoldable pub send_header : SendBuffer → SendBuffer
  send_header b =
      if has_header remote then send_space remote.shead (send_pulse remote.phead b) else b

  unfoldable pub send_foot : SendBuffer → SendBuffer
  send_foot b = if has_foot remote then send_pulse remote.pfoot (send_space remote.sfoot b) else b

  unfoldable pub send_lead : SendBuffer → SendBuffer
  send_lead b = if remote.plead == 0 then b else send_pulse remote.plead b

  unfoldable pub send_trail : SendBuffer → SendBuffer
  send_trail b = if remote.ptrail == 0 then b else send_pulse remote.ptrail b

  -- The `switch (data & 3)` of RC-MM; 2 and 1 are swapped, since `reverse` swaps the two bits.
  unfoldable pub send_rcmm_pair : ℕ → SendBuffer → SendBuffer
  send_rcmm_pair pair b =
      if pair == 0
      then send_space remote.szero (send_pulse remote.pzero b)
      else if pair == 2
      then send_space remote.sone (send_pulse remote.pone b)
      else if pair == 1
      then send_space remote.stwo (send_pulse remote.ptwo b)
      else send_space remote.sthree (send_pulse remote.pthree b)

  unfoldable pub send_rcmm_loop : ℕ → ℕ → SendBuffer → SendBuffer
  unfolding send_rcmm_pair
  send_rcmm_loop zero data' b = b
  send_rcmm_loop (suc left) data' b =
      send_rcmm_loop left (shr data' 2) (send_rcmm_pair (bit_and data' 3) b)

  unfoldable pub send_xmp_loop : ℕ → ℕ → SendBuffer → SendBuffer
  send_xmp_loop zero data' b = b
  send_xmp_loop (suc left) data' b =
      let nibble = reverse (bit_and data' 0xf) 4 in
      send_xmp_loop left (shr data' 4)
        (send_space (remote.szero + nibble * remote.sone) (send_pulse remote.pzero b))

  -- What the toggle masks make of `data`, whose lowest bit is sent next.
  unfoldable pub apply_toggle_bit_mask : ℕ → ℕ → ℕ
  apply_toggle_bit_mask mask data' =
      let state = is_set (bit_and remote.toggle_bit_mask_state mask) in
      if has_toggle_bit_mask remote && is_set (bit_and mask remote.toggle_bit_mask)
      then if bits_set remote.toggle_bit_mask == 1
        then if state then bit_or (bit_and data' (complement 1)) 1 else bit_and data' (complement 1)
        else if state
        then bit_xor data' 1
        else data'
      else data'

  unfoldable pub apply_toggle_mask : ℕ → ℕ → ℕ
  apply_toggle_mask mask data' =
      if has_toggle_mask remote
        && is_set (bit_and mask remote.toggle_mask)
        && is_set (remote.toggle_mask_state % 2)
      then bit_xor data' 1
      else data'

  unfoldable pub send_one : ℕ → SendBuffer → SendBuffer
  send_one mask b =
      if is_biphase remote
      then if is_set (bit_and mask remote.rc6_mask)
        then send_pulse (2 * remote.pone) (send_space (2 * remote.sone) b)
        else send_pulse remote.pone (send_space remote.sone b)
      else if is_space_first remote
      then send_pulse remote.pone (send_space remote.sone b)
      else send_space remote.sone (send_pulse remote.pone b)

  unfoldable pub send_zero : ℕ → SendBuffer → SendBuffer
  send_zero mask b =
      if is_set (bit_and mask remote.rc6_mask)
      then send_space (2 * remote.szero) (send_pulse (2 * remote.pzero) b)
      else if is_space_first remote
      then send_pulse remote.pzero (send_space remote.szero b)
      else send_space remote.szero (send_pulse remote.pzero b)

  unfoldable pub send_bit : ℕ → ℕ → SendBuffer → SendBuffer
  unfolding send_one send_zero
  send_bit mask data' b = if is_set (bit_and data' 1) then send_one mask b else send_zero mask b

  -- The rounds of the last loop of `send_data`.
  unfoldable pub send_bits_loop : ℕ → ℕ → ℕ → SendBuffer → SendBuffer
  unfolding apply_toggle_bit_mask apply_toggle_mask send_bit
  send_bits_loop zero mask data' b = b
  send_bits_loop (suc left) mask data' b =
      let toggled = apply_toggle_mask mask (apply_toggle_bit_mask mask data') in
      send_bits_loop left (shr mask 1) (shr toggled 1) (send_bit mask toggled b)

  -- A number of bits that the protocol cannot send leaves the buffer alone.
  unfoldable pub send_data : ℕ → ℕ → ℕ → SendBuffer → SendBuffer
  unfolding send_rcmm_loop send_xmp_loop send_bits_loop
  send_data code bits done b =
      let data' = reverse code bits in
      if is_rcmm remote
      then if is_set (bits % 2) || is_set (done % 2) then b else send_rcmm_loop (bits / 2) data' b
      else if is_xmp remote
      then if is_set (bits % 4) || is_set (done % 4) then b else send_xmp_loop (bits / 4) data' b
      else send_bits_loop bits (shl 1 (bit_count remote - 1 - done)) data' b

  unfoldable pub send_pre : SendBuffer → SendBuffer
  send_pre b =
      let sent = send_data remote.pre_data remote.pre_data_bits 0 b in
      if has_pre remote
      then if ltb 0 remote.pre_p && ltb 0 remote.pre_s
        then send_space remote.pre_s (send_pulse remote.pre_p sent)
        else sent
      else b

  unfoldable pub send_post : SendBuffer → SendBuffer
  send_post b =
      let separated =
        if ltb 0 remote.post_p && ltb 0 remote.post_s
        then send_space remote.post_s (send_pulse remote.post_p b)
        else b in
      if has_post remote
      then send_data remote.post_data remote.post_data_bits (remote.pre_data_bits + remote.bits)
          separated
      else b

  unfoldable pub send_repeat : SendBuffer → SendBuffer
  send_repeat b = send_trail (send_space remote.srepeat (send_pulse remote.prepeat (send_lead b)))

  unfoldable pub send_code : ℕ → Bool → SendBuffer → SendBuffer
  send_code code repeat b =
      let headed = if not repeat || not (has_flag remote no_head_rep) then send_header b else b in
      let coded = send_trail (
        send_post
          (send_data code remote.bits remote.pre_data_bits (send_pre (send_lead headed)))) in
      let footed =
        if not repeat || not (has_flag remote no_foot_rep) then send_foot coded else coded in
      if not repeat && has_flag remote no_head_rep && has_flag remote const_length
      then record footed { sum = sub_lirc footed.sum (remote.phead + remote.shead) }
      else footed
