-- ===== src/Remote/Flags.antt =====
-- The flags of a remote, and what daemons/ir_remote.h reads from them and from the lengths.
use lirc_port_for_mac_os_x.Prelude.{ℕ, ◌+◌, bit_and, bit_or, Bool, ◌&&◌, ◌||◌, ltb, ◌==◌}
use lirc_port_for_mac_os_x.Word.{is_set}
use lirc_port_for_mac_os_x.Remote.{Remote}

abbrev pub ir_protocol_mask : ℕ
ir_protocol_mask = 0x07ff

abbrev pub raw_codes : ℕ
raw_codes = 0x0001

abbrev pub rc5 : ℕ
rc5 = 0x0002

abbrev pub rc6 : ℕ
rc6 = 0x0004

abbrev pub rcmm : ℕ
rcmm = 0x0008

abbrev pub space_enc : ℕ
space_enc = 0x0010

abbrev pub space_first : ℕ
space_first = 0x0020

abbrev pub goldstar : ℕ
goldstar = 0x0040

abbrev pub grundig : ℕ
grundig = 0x0080

abbrev pub bo : ℕ
bo = 0x0100

abbrev pub serial : ℕ
serial = 0x0200

abbrev pub xmp : ℕ
xmp = 0x0400

abbrev pub reverse_flag : ℕ
reverse_flag = 0x0800

abbrev pub no_head_rep : ℕ
no_head_rep = 0x1000

abbrev pub no_foot_rep : ℕ
no_foot_rep = 0x2000

abbrev pub const_length : ℕ
const_length = 0x4000

abbrev pub repeat_header : ℕ
repeat_header = 0x8000

abbrev pub compat_reverse : ℕ
compat_reverse = 0x00010000

-- `remote->flags & flag` as a truth value.
abbrev pub has_flag : Remote → ℕ → Bool
has_flag remote flag = is_set (bit_and remote.flags flag)

abbrev pub protocol : Remote → ℕ
protocol remote = bit_and remote.flags ir_protocol_mask

-- `flags` is a 32-bit int, so `~(IR_PROTOCOL_MASK)` has the bits 0xfffff800.
unfoldable pub set_protocol : Remote → ℕ → Remote
set_protocol remote new_protocol = record remote {
  flags = bit_or (bit_and remote.flags 0xfffff800) new_protocol;
}

unfoldable pub bit_count : Remote → ℕ
bit_count remote = remote.pre_data_bits + remote.bits + remote.post_data_bits

unfoldable pub has_repeat : Remote → Bool
has_repeat remote = ltb 0 remote.prepeat && ltb 0 remote.srepeat

unfoldable pub is_raw : Remote → Bool
is_raw remote = protocol remote == raw_codes

unfoldable pub is_space_enc : Remote → Bool
is_space_enc remote = protocol remote == space_enc

unfoldable pub is_space_first : Remote → Bool
is_space_first remote = protocol remote == space_first

unfoldable pub is_rc5 : Remote → Bool
is_rc5 remote = protocol remote == rc5

unfoldable pub is_rc6 : Remote → Bool
is_rc6 remote = protocol remote == rc6 || is_set remote.rc6_mask

unfoldable pub is_biphase : Remote → Bool
unfolding is_rc5 is_rc6
is_biphase remote = is_rc5 remote || is_rc6 remote

unfoldable pub is_rcmm : Remote → Bool
is_rcmm remote = protocol remote == rcmm

unfoldable pub is_goldstar : Remote → Bool
is_goldstar remote = protocol remote == goldstar

unfoldable pub is_grundig : Remote → Bool
is_grundig remote = protocol remote == grundig

unfoldable pub is_bo : Remote → Bool
is_bo remote = protocol remote == bo

unfoldable pub is_serial : Remote → Bool
is_serial remote = protocol remote == serial

unfoldable pub is_xmp : Remote → Bool
is_xmp remote = protocol remote == xmp

unfoldable pub is_const : Remote → Bool
is_const remote = has_flag remote const_length

unfoldable pub has_repeat_gap : Remote → Bool
has_repeat_gap remote = ltb 0 remote.repeat_gap

unfoldable pub has_pre : Remote → Bool
has_pre remote = ltb 0 remote.pre_data_bits

unfoldable pub has_post : Remote → Bool
has_post remote = ltb 0 remote.post_data_bits

unfoldable pub has_header : Remote → Bool
has_header remote = ltb 0 remote.phead && ltb 0 remote.shead

unfoldable pub has_foot : Remote → Bool
has_foot remote = ltb 0 remote.pfoot && ltb 0 remote.sfoot

unfoldable pub has_toggle_bit_mask : Remote → Bool
has_toggle_bit_mask remote = ltb 0 remote.toggle_bit_mask

unfoldable pub has_ignore_mask : Remote → Bool
has_ignore_mask remote = ltb 0 remote.ignore_mask

unfoldable pub has_toggle_mask : Remote → Bool
has_toggle_mask remote = ltb 0 remote.toggle_mask
