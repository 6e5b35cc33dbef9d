-- ===== src/Codes/Decode.antt =====
-- `set_code` and `write_message` of daemons/ir_remote.c. The time that `gettimeofday` answers is an
-- argument, and the code that was found is given by its index and by what stands there.
pub mod Reps
pub mod Compose
use lirc_port_for_mac_os_x.Prelude.{
  ℕ, zero, suc, ◌+◌, ◌-◌, ◌*◌, ◌/◌, ◌%◌, ◌^◌, bit_or, String, List, [], ◌∷◌, ◌++◌, map, Option,
  none, some, Bool, true, false, not, ◌&&◌, ◌||◌, ltb, leb, length, get_elem?, set, ◌==◌,
  if◌then◌else◌, ℤ, pos, negsuc,
}
use Prim.Native.String.{len, char_at}
use Prim.Native.String as native_string
use lirc_port_for_mac_os_x.Word.{shl, reverse, is_set}
use lirc_port_for_mac_os_x.Remote.{Remote, Ncode, Timeval, is_null}
use lirc_port_for_mac_os_x.Remote.Flags.{
  has_pre, has_post, has_toggle_mask, has_toggle_bit_mask, has_flag, compat_reverse, bit_count,
  is_xmp,
}
use lirc_port_for_mac_os_x.Remote.Time.{time_elapsed, time_left}
use lirc_port_for_mac_os_x.Codes.Match.{same_code}

-- The variables `last_decoded` and `last_remote`, by the address of the remote.
pub record Memory : Type 0 where
  pub last_decoded : Option ℕ
  pub last_remote : Option ℕ

-- The condition under which a code counts as a repeat.
unfoldable pub is_repeated : Memory → Remote → ℕ → Ncode → ℕ → Bool → Timeval → Bool
is_repeated m remote found ncode state repeat_flag current =
    same_code (some remote.address) m.last_decoded
    && (same_code (some found) remote.last_code
        || (not (is_null ncode.next) && not (is_null ncode.current)))
    && repeat_flag
    && ltb (time_elapsed remote.last_send current) 1000000
    && (not (has_toggle_bit_mask remote) || state == remote.toggle_bit_mask_state)

unfoldable pub count_repeat : Remote → Ncode → Remote
count_repeat remote ncode =
    if has_toggle_mask remote
    then if remote.toggle_mask_state + 1 == 4
      then record remote { reps = remote.reps + 1; toggle_mask_state = 2 }
      else record remote { toggle_mask_state = remote.toggle_mask_state + 1 }
    else if is_null ncode.current
    then record remote { reps = remote.reps + 1 }
    else remote

unfoldable pub first_reps : Ncode → ℕ
first_reps ncode = if not (is_null ncode.next) && is_null ncode.current then 1 else 0

unfoldable pub start_count : Remote → ℕ → Ncode → ℕ → Remote
start_count remote found ncode state =
    let counted = record remote { reps = first_reps ncode } in
    let toggled =
      if has_toggle_mask remote
      then record counted { toggle_mask_state = 1; toggle_code = some found }
      else counted in
    if has_toggle_bit_mask remote then record toggled { toggle_bit_mask_state = state } else toggled

unfoldable pub compose_code : Remote → ℕ → ℕ
compose_code remote found_code =
    let high = if has_pre remote then shl remote.pre_data remote.bits else 0 in
    let whole = bit_or high found_code in
    let all =
      if has_post remote
      then bit_or (shl whole remote.post_data_bits) remote.post_data
      else whole in
    if has_flag remote compat_reverse then reverse all (bit_count remote) else all

-- What `set_code` leaves behind and returns.
pub record Decoded : Type 0 where
  pub memory : Memory
  pub remote : Remote
  pub code : ℕ

-- The counters after the code, for a remote whose `release_detected` is cleared.
unfoldable pub count_code : Memory → Remote → ℕ → Ncode → ℕ → Bool → Timeval → Remote
count_code m remote found ncode state repeat_flag current =
    if is_repeated m remote found ncode state repeat_flag current
    then count_repeat remote ncode
    else start_count remote found ncode state

unfoldable pub remember : ℕ → Ncode → ℕ → ℕ → Timeval → Remote → Remote
remember found ncode min_gap max_gap current remote = record remote {
  last_code = if is_null ncode.current then some found else remote.last_code;
  last_send = current;
  min_remaining_gap = min_gap;
  max_remaining_gap = max_gap;
}

unfoldable pub set_code : Memory → Remote → ℕ → Ncode → ℕ → Bool → ℕ → ℕ → Timeval → Decoded
set_code m remote found ncode state repeat_flag min_gap max_gap current =
    let flagged = if remote.release_detected then false else repeat_flag in
    let counted =
      count_code m (record remote { release_detected = false }) found ncode state flagged current in
    let set = remember found ncode min_gap max_gap current counted in
    record {
      memory = record { last_decoded = some remote.address; last_remote = some remote.address };
      remote = set;
      code = compose_code set ncode.code;
    }

abbrev hex_digit : ℕ → String
hex_digit d = native_string.◌∷◌ (char_at "0123456789abcdef" d) ""

-- At least `width` digits; `fuel` is more than a number of that type has.
unfoldable pub hex : ℕ → ℕ → ℕ → String
hex zero width n = ""
hex (suc fuel) width n =
    let higher = hex fuel (width - 1) (n / 16) in
    if n == 0 && width == 0 then "" else native_string.◌++◌ higher (hex_digit (n % 16))

-- `%x` reads an `int` as an unsigned number.
abbrev pub as_unsigned : ℤ → ℕ
as_unsigned (pos n) = n
as_unsigned (negsuc n) = 2 ^ 32 - 1 - n

-- The text that `snprintf` makes, cut or not; its result is the length of it.
unfoldable pub write_message : String → String → String → ℕ → ℤ → String
unfolding hex
write_message remote_name button_name button_suffix code reps =
    native_string.◌++◌ (hex 17 16 code) (
      native_string.◌++◌ " " (
        native_string.◌++◌ (hex 9 2 (as_unsigned reps)) (
          native_string.◌++◌ " " (
            native_string.◌++◌ button_name (
              native_string.◌++◌ button_suffix
                (native_string.◌++◌ " " (native_string.◌++◌ remote_name "\n")))))))

-- `PACKET_SIZE` of daemons/lircd.h.
abbrev pub packet_size : ℕ
packet_size = 256

-- `none` where the message does not fit.
unfoldable pub fitting : String → Option String
fitting message = if leb (packet_size + 1) (len message) then none else some message
