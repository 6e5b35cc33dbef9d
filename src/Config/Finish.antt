-- ===== src/Config/Finish.antt =====
-- What `read_config_recursive` of daemons/config_file.c derives from each remote after the last
-- line: the reversed order, the masks of the toggle bits, the timing of a serial port, the least
-- number of repeats and the lengths. `codes` is an array, so a remote has a section of codes.
pub mod Derived
pub mod Fits
pub mod All
use lirc_port_for_mac_os_x.Prelude.{
  ℕ, ◌-◌, ◌/◌, List, [], ◌∷◌, map, bit_and, bit_or, bit_xor, Bool, true, false, ◌&&◌, ◌||◌, not,
  ltb, ◌==◌, if◌then◌else◌,
}
use lirc_port_for_mac_os_x.Word.{shl, is_set, reverse}
use lirc_port_for_mac_os_x.Remote.{Remote, Ncode}
use lirc_port_for_mac_os_x.Remote.Flags.{
  has_flag, rc6, reverse_flag, compat_reverse, is_raw, is_serial, has_pre, has_post, has_repeat,
  has_toggle_bit_mask, bit_count,
}
use lirc_port_for_mac_os_x.Transmit.Buffer.{SendBuffer}
use lirc_port_for_mac_os_x.Config.Lengths.{calculate_signal_lengths}
use lirc_port_for_mac_os_x.Config.Sort.{sort_by_bit_count}

-- Only the code of the button itself is reversed, not those of its nodes.
abbrev pub reverse_code : ℕ → Ncode → Ncode
reverse_code bits c = record c { code = reverse c.code bits }

-- `~REVERSE` on a 32-bit int has the bits 0xfffff7ff.
abbrev pub reverse_remote : Remote → Remote
reverse_remote rem = record rem {
  pre_data = if has_pre rem then reverse rem.pre_data rem.pre_data_bits else rem.pre_data;
  post_data = if has_post rem then reverse rem.post_data rem.post_data_bits else rem.post_data;
  codes = map (reverse_code rem.bits) rem.codes;
  flags = bit_or (bit_and rem.flags 0xfffff7ff) compat_reverse;
}

unfoldable pub kick_reverse : Remote → Remote
kick_reverse rem = if not (is_raw rem) && has_flag rem reverse_flag then reverse_remote rem else rem

-- `((ir_code) 1) << (all_bits - rem->toggle_bit)`, for a toggle bit within the signal.
abbrev pub toggle_place : Remote → ℕ
toggle_place rem = shl 1 (bit_count rem - rem.toggle_bit)

unfoldable pub set_rc6_mask : Remote → Remote
set_rc6_mask rem =
    if has_flag rem rc6 && rem.rc6_mask == 0 && ltb 0 rem.toggle_bit
    then record rem { rc6_mask = toggle_place rem }
    else rem

unfoldable pub set_toggle_bit_mask : Remote → Remote
set_toggle_bit_mask rem =
    if ltb 0 rem.toggle_bit
    then record rem {
      toggle_bit_mask = if has_toggle_bit_mask rem then rem.toggle_bit_mask else toggle_place rem;
      toggle_bit = 0;
    }
    else rem

-- `rem->codes->code`; the terminator of the array has the code 0.
abbrev pub first_code : List Ncode → ℕ
first_code [] = 0
first_code (c ∷ codes) = c.code

unfoldable pub set_toggle_state : Remote → Remote
set_toggle_state rem =
    let state = bit_and (first_code rem.codes) rem.toggle_bit_mask in
    if has_toggle_bit_mask rem && not (is_raw rem)
    then record rem {
      toggle_bit_mask_state = if is_set state then bit_xor state rem.toggle_bit_mask else state;
    }
    else rem

abbrev pub set_base : Remote → ℕ → Remote
set_base rem base = record rem {
  pzero = if rem.pzero == 0 && rem.szero == 0 then base else rem.pzero;
  sone = if rem.pone == 0 && rem.sone == 0 then base else rem.sone;
}

abbrev pub set_bits_in_byte : Remote → Remote
set_bits_in_byte rem = if rem.bits_in_byte == 0 then record rem { bits_in_byte = 8 } else rem

unfoldable pub set_serial : Remote → Remote
set_serial rem =
    if is_serial rem
    then set_bits_in_byte (if ltb 0 rem.baud then set_base rem (1000000 / rem.baud) else rem)
    else rem

unfoldable pub check_min_code_repeat : Remote → Remote
check_min_code_repeat rem =
    if ltb 0 rem.min_code_repeat && (not (has_repeat rem) || ltb rem.min_repeat rem.min_code_repeat)
    then record rem { min_code_repeat = 0 }
    else rem

-- One round of the loop over the remotes, up to the lengths.
unfoldable pub derive : Remote → Remote
unfolding kick_reverse set_rc6_mask set_toggle_bit_mask set_toggle_state set_serial
    check_min_code_repeat
derive rem =
    check_min_code_repeat
      (set_serial (set_toggle_state (set_toggle_bit_mask (set_rc6_mask (kick_reverse rem)))))

unfoldable pub finish_loop : List Remote → SendBuffer → List Remote × SendBuffer
unfolding derive
finish_loop [] b = ([], b)
finish_loop (rem ∷ next) b =
    let (ranged, b0) = calculate_signal_lengths (derive rem) b in
    let (rest, b1) = finish_loop next b0 in (ranged ∷ rest, b1)

unfoldable pub finish_config : List Remote → SendBuffer → List Remote × SendBuffer
unfolding finish_loop
finish_config top_rem b =
    let (finished, b0) = finish_loop top_rem b in (sort_by_bit_count finished, b0)
