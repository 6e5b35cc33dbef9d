-- ===== src/Receive/Decode.antt =====
-- `receive_decode` of daemons/receive.c. `mode`, `code_length` and `resolution` are the driver's `hw.rec_mode`,
-- `hw.code_length` and `hw.resolution`; `fuel` is for the loop that reads serial data. The time that
-- `gettimeofday` gives and the global `last_remote` are arguments. A `lirc_t` is an integer; the
-- sums of lengths are taken to fit one.
mod Tests
pub mod Gaps
pub mod Heard
pub mod Code
use lirc_port_for_mac_os_x.Prelude.{
  ℕ, ℤ, pos, negsuc, ◌+◌, ◌*◌, ◌%◌, ◌^◌, Option, none, some, Bool, true, false, not, ◌&&◌, ◌||◌,
  ltb, leb, ◌==◌, if◌then◌else◌, bit_and, sub_ℕ, pos_part, neg_part, get_elem?,
}
use mathlib.Core.Option
use lirc_port_for_mac_os_x.Word.{shr, gen_mask}
use lirc_port_for_mac_os_x.Remote.{Remote, Ncode, Timeval}
use lirc_port_for_mac_os_x.Remote.Flags.{
  is_raw, is_const, is_biphase, has_flag, repeat_header, no_head_rep, has_repeat, has_header,
  has_repeat_gap, bit_count,
}
use lirc_port_for_mac_os_x.Remote.Gaps.{min_gap, max_gap}
use lirc_port_for_mac_os_x.Remote.Tolerance.{expect_at_most}
use lirc_port_for_mac_os_x.Remote.Time.{time_elapsed, ulong_mod, sub_ulong}
use lirc_port_for_mac_os_x.Codes.Mapping.{Fields3}
use lirc_port_for_mac_os_x.Codes.Dispatch.{Received}
use lirc_port_for_mac_os_x.Codes.Match.{same_code}
use lirc_port_for_mac_os_x.Receive.Buffer.{Rbuf, lirc_t_max, rewind_rec_buffer}
use lirc_port_for_mac_os_x.Receive.Signal.{remaining, sync_rec_buffer, get_header, get_repeat}
use lirc_port_for_mac_os_x.Receive.Fields.{left_of_gap, read_fields}
use lirc_port_for_mac_os_x.Receive.Raw.{search_raw}

-- `LIRC_MODE_RAW`, `LIRC_MODE_PULSE`, `LIRC_MODE_MODE2` and `LIRC_MODE_LIRCCODE`
abbrev pub mode_raw : ℕ
mode_raw = 0x1

abbrev pub mode_pulse : ℕ
mode_pulse = 0x2

abbrev pub mode_mode2 : ℕ
mode_mode2 = 0x4

abbrev pub mode_lirccode : ℕ
mode_lirccode = 0x10

-- The value of an `unsigned long` in a `lirc_t`.
unfoldable pub to_lirc : ℕ → ℤ
unfolding sub_ℕ
to_lirc n = let low = n % 2 ^ 32 in if ltb low (2 ^ 31) then pos low else sub_ℕ low (2 ^ 32)

-- A negative length is at most any other.
unfoldable pub at_most : ℕ → Remote → ℤ → ℕ → Bool
at_most resolution remote (pos n) exdelta = expect_at_most resolution remote n exdelta
at_most resolution remote (negsuc n) exdelta = true

-- The gap that is left after the signal for a repeat.
unfoldable pub left_of_repeat : Remote → ℕ → ℤ → ℕ
left_of_repeat remote gap sum =
    if is_const remote
    then remaining gap sum
    else if has_repeat_gap remote
    then remote.repeat_gap
    else gap

-- `remote->last_code`, an element of the array `codes`.
abbrev pub last_code_of : Remote → Option Ncode
last_code_of remote = elim remote.last_code [ none ↦ none | some i ↦ get_elem? remote.codes i ]

-- What the first part of `receive_decode` finds, where it does not return: the length of the gap
-- before the signal, and whether there was a header.
pub record Begun : Type 0 where
  pub sync : ℕ
  pub header : Bool
  pub remote : Remote
  pub buffer : Rbuf

-- The fields, the length of the gap and what is changed; `none` where the function returns 0.
pub record Read : Type 0 where
  pub fields : Option Fields3
  pub sync : ℤ
  pub remote : Remote
  pub buffer : Rbuf

-- A signal for a repeat is a repeat of the last code.
unfoldable pub repeated : Remote → Rbuf → Option Received
unfolding left_of_repeat
repeated remote b = elim (last_code_of remote) [
  | none ↦ none
  | some ncode ↦ some (record {
    fields = record { pre = remote.pre_data; code = ncode.code; post = remote.post_data };
    repeat_flag = true;
    min_remaining_gap = left_of_repeat remote (min_gap remote) b.sum;
    max_remaining_gap = left_of_repeat remote (max_gap remote) b.sum;
  })
]

-- The length of a signal that a driver gave as a code.
unfoldable pub code_duration : Remote → ℕ
unfolding lirc_t_max
code_duration remote =
    remote.phead
    + remote.shead
    + lirc_t_max (remote.pone + remote.sone) (remote.pzero + remote.szero) * bit_count remote
    + remote.plead
    + remote.ptrail
    + remote.pfoot
    + remote.sfoot
    + remote.pre_p
    + remote.pre_s
    + remote.post_p
    + remote.post_s

unfoldable pub code_sum : Remote → ℤ
unfolding code_duration sub_ℕ
code_sum remote =
    if leb remote.gap (code_duration remote) then sub_ℕ remote.gap 1 else pos (code_duration remote)

-- The fields of the code that a driver gave.
unfoldable pub cut_decoded : Remote → ℕ → Fields3
cut_decoded remote decoded = record {
  pre = shr (shr decoded remote.post_data_bits) remote.bits;
  code = bit_and (shr decoded remote.post_data_bits) (gen_mask remote.bits);
  post = bit_and decoded (gen_mask remote.post_data_bits);
}

-- `sync` from the time since the last signal, an `unsigned long`.
unfoldable pub code_sync : Remote → Timeval → ℤ
unfolding to_lirc code_sum
code_sync remote current =
    let elapsed = time_elapsed remote.last_send current in
    to_lirc
      (sub_ulong ((elapsed + neg_part (code_sum remote)) % ulong_mod) (pos_part (code_sum remote)))

module _ (resolution : ℕ) where
  -- The header, which may be missing from a repeated signal.
  unfoldable pub begin_signal : ℕ → Remote → Rbuf → Option Begun × Remote × Rbuf
  begin_signal sync remote b =
      let (ok, b') = get_header resolution remote b in
      let may_lack =
        has_flag remote no_head_rep && expect_at_most resolution remote sync (max_gap remote) in
      let with_header : Begun = record {
        sync = sync;
        header = true;
        remote = remote;
        buffer = b';
      } in
      let without : Begun = record { sync = sync; header = false; remote = remote; buffer = b' } in
      if has_header remote
      then if ok
        then (some with_header, remote, b')
        else if may_lack
        then (some without, remote, b')
        else (none, remote, b')
      else (some (record { sync = sync; header = false; remote = remote; buffer = b }), remote, b)

module _ (resolution fuel mode code_length : ℕ) (current : Timeval)
    (last_remote : Option Remote) where
  abbrev pub is_timed : Bool
  is_timed = mode == mode_mode2 || mode == mode_pulse || mode == mode_raw

  unfoldable pub read_code : ℤ → Bool → Remote → Rbuf → Read
  unfolding search_raw read_fields cut_decoded code_sum code_sync
  read_code sync header remote b =
      let (raw, raw_remote, raw_b) = search_raw resolution last_remote remote remote.codes b in
      let (fields, timed_remote, timed_b) = read_fields resolution fuel header remote b in
      if is_raw remote
      then if mode == mode_lirccode
        then record { fields = none; sync = sync; remote = remote; buffer = b }
        else record {
          fields = Option.map (λ code. record { pre = 0; code = code; post = 0 }) raw;
          sync = sync;
          remote = raw_remote;
          buffer = raw_b;
        }
      else if mode == mode_lirccode
      then if code_length == bit_count remote
        then record {
          fields = some (cut_decoded remote b.decoded);
          sync = code_sync remote current;
          remote = remote;
          buffer = record b { sum = code_sum remote };
        }
        else record { fields = none; sync = sync; remote = remote; buffer = b }
      else record { fields = fields; sync = sync; remote = timed_remote; buffer = timed_b }

  -- Whether a code that was received is a repeat of the one before.
  unfoldable pub is_repeat : ℤ → Remote → Bool
  unfolding at_most
  is_repeat sync remote =
      (not (has_repeat remote) || ltb remote.reps remote.min_code_repeat)
        && at_most resolution remote sync remote.max_remaining_gap
      || mode == mode_lirccode && ltb (time_elapsed remote.last_send current) 325000

  unfoldable pub finish : Read → Option Received × Remote × Rbuf
  unfolding is_repeat left_of_gap
  finish read = (
    Option.map
        (λ fields. record {
          fields = fields;
          repeat_flag = is_repeat read.sync read.remote;
          min_remaining_gap = left_of_gap read.remote (min_gap read.remote) read.buffer.sum;
          max_remaining_gap = left_of_gap read.remote (max_gap read.remote) read.buffer.sum;
        })
        read.fields,
    read.remote,
    read.buffer,
  )

  unfoldable pub after_begin : Option Begun × Remote × Rbuf → Option Received × Remote × Rbuf
  unfolding finish read_code
  after_begin (none, remote, b) = (none, remote, b)
  after_begin (some begun, remote, b) =
      finish (read_code (pos begun.sync) begun.header begun.remote begun.buffer)

  -- The signal for a repeat, of the remote that sent last.
  unfoldable pub try_repeat : ℕ → Remote → Rbuf → Option Received × Remote × Rbuf
  unfolding repeated begin_signal after_begin
  try_repeat sync remote b =
      let (header, b1) =
        if has_flag remote repeat_header && has_header remote
        then get_header resolution remote b
        else (true, b) in
      let (ok, b2) = get_repeat resolution remote b1 in
      let (_, remote', b3) = sync_rec_buffer resolution last_remote remote (rewind_rec_buffer b2) in
      if header
      then if ok
        then (repeated remote b2, remote, b2)
        else after_begin (begin_signal resolution sync remote' b3)
      else (none, remote, b1)

  unfoldable pub is_last : Remote → Bool
  is_last remote =
      same_code (Option.map (λ (r : Remote). r.address) last_remote) (some remote.address)

  unfoldable pub receive_timed : Remote → Rbuf → Option Received × Remote × Rbuf
  unfolding try_repeat is_last begin_signal after_begin
  receive_timed remote b =
      let b1 = record (rewind_rec_buffer b) { is_biphase = is_biphase remote } in
      let (sync, remote', b2) = sync_rec_buffer resolution last_remote remote b1 in
      if sync == 0
      then (none, remote', b2)
      else if has_repeat remote' && is_last remote'
      then try_repeat sync remote' b2
      else after_begin (begin_signal resolution sync remote' b2)

  unfoldable pub receive_decode : Rbuf → Remote → Option Received × Remote × Rbuf
  unfolding receive_timed read_code finish
  receive_decode b remote =
      if is_timed then receive_timed remote b else finish (read_code (pos 0) false remote b)
