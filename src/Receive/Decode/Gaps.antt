-- ===== src/Receive/Decode/Gaps.antt =====
-- The range of the gap that `receive_decode` reports.
use lirc_port_for_mac_os_x.Prelude.{
  ℕ, ℤ, pos, negsuc, ◌≤◌, arith, Option, none, some, Bool, true, false, ◌&&◌, ◌==◌, if◌then◌else◌,
}
use mathlib.Core.Option
use lirc_port_for_mac_os_x.Remote.{Remote, Ncode, Timeval}
use lirc_port_for_mac_os_x.Remote.Flags.{
  is_biphase, has_repeat, has_flag, repeat_header, has_header,
}
use lirc_port_for_mac_os_x.Remote.Gaps.{min_gap, max_gap, min_gap-le-max_gap}
use lirc_port_for_mac_os_x.Codes.Mapping.{Fields3}
use lirc_port_for_mac_os_x.Codes.Dispatch.{Received}
use lirc_port_for_mac_os_x.Receive.Buffer.{Rbuf, rewind_rec_buffer}
use lirc_port_for_mac_os_x.Receive.Signal.{remaining, sync_rec_buffer, get_header, get_repeat}
use lirc_port_for_mac_os_x.Receive.Fields.{left_of_gap}
use lirc_port_for_mac_os_x.Receive.Decode.{
  Begun, Read, left_of_repeat, last_code_of, repeated, begin_signal, is_timed, is_repeat, finish,
  after_begin, try_repeat, is_last, receive_timed, receive_decode,
}

remaining_mono : (g h : ℕ) (sum : ℤ) → g ≤ h → remaining g sum ≤ remaining h sum
unfolding remaining
remaining_mono g h (pos n) l = ground arith
remaining_mono g h (negsuc n) l = ground arith

left_of_gap_mono :
    (remote : Remote) (g h : ℕ) (sum : ℤ)
    → g ≤ h
    → left_of_gap remote g sum ≤ left_of_gap remote h sum
unfolding left_of_gap
left_of_gap_mono remote g h sum l = ground (arith, remaining_mono g h sum l)

left_of_repeat_mono :
    (remote : Remote) (g h : ℕ) (sum : ℤ)
    → g ≤ h
    → left_of_repeat remote g sum ≤ left_of_repeat remote h sum
unfolding left_of_repeat
left_of_repeat_mono remote g h sum l = ground (arith, remaining_mono g h sum l)

-- What is received has a gap whose bounds are in order.
unfoldable pub HasRange : Option Received × Remote × Rbuf → Type 0
HasRange (none, remote, b) = Unit
HasRange (some r, remote, b) = r.min_remaining_gap ≤ r.max_remaining_gap

either-HasRange :
    (t : Bool) (x y : Option Received × Remote × Rbuf)
    → HasRange x
    → HasRange y
    → HasRange (if t then x else y)
either-HasRange true x y hx hy = hx
either-HasRange false x y hx hy = hy

nothing-HasRange : (remote : Remote) (b : Rbuf) → HasRange (none, remote, b)
unfolding HasRange
nothing-HasRange remote b = tt

repeated-HasRange : (remote : Remote) (b : Rbuf) → HasRange (repeated remote b, remote, b)
unfolding repeated HasRange
repeated-HasRange remote b = by_code (last_code_of remote)
  where
    by_code :
        (last : Option Ncode)
        → HasRange (
          elim last as (λ _. Option Received) [
            | none ↦ none
            | some ncode ↦ some (record {
              fields = record { pre = remote.pre_data; code = ncode.code; post = remote.post_data };
              repeat_flag = true;
              min_remaining_gap = left_of_repeat remote (min_gap remote) b.sum;
              max_remaining_gap = left_of_repeat remote (max_gap remote) b.sum;
            })
          ],
          remote,
          b,
        )
    by_code none = tt
    by_code (some ncode) =
        left_of_repeat_mono remote (min_gap remote) (max_gap remote) b.sum
          (min_gap-le-max_gap remote)

module _ (resolution fuel mode code_length : ℕ) (current : Timeval)
    (last_remote : Option Remote) where
  finish-HasRange :
      (read : Read) → HasRange (finish resolution fuel mode code_length current last_remote read)
  unfolding finish HasRange
  finish-HasRange read = by_fields read.fields
    where
      by_fields :
          (fields : Option Fields3)
          → HasRange (
            Option.map
                (λ (f : Fields3). record {
                  fields = f;
                  repeat_flag =
                      is_repeat resolution fuel mode code_length current last_remote read.sync
                        read.remote;
                  min_remaining_gap = left_of_gap read.remote (min_gap read.remote) read.buffer.sum;
                  max_remaining_gap = left_of_gap read.remote (max_gap read.remote) read.buffer.sum;
                })
                fields,
            read.remote,
            read.buffer,
          )
      by_fields none = tt
      by_fields (some f) =
          left_of_gap_mono read.remote (min_gap read.remote) (max_gap read.remote) read.buffer.sum
            (min_gap-le-max_gap read.remote)

  after_begin-HasRange :
      (begun : Option Begun × Remote × Rbuf)
      → HasRange (after_begin resolution fuel mode code_length current last_remote begun)
  unfolding after_begin HasRange
  after_begin-HasRange (none, remote, b) = tt
  after_begin-HasRange (some begun, remote, b) = finish-HasRange _

  try_repeat-HasRange :
      (sync : ℕ) (remote : Remote) (b : Rbuf)
      → HasRange (try_repeat resolution fuel mode code_length current last_remote sync remote b)
  unfolding try_repeat
  try_repeat-HasRange sync remote b =
      let (header, b1) =
        if has_flag remote repeat_header && has_header remote
        then get_header resolution remote b
        else (true, b) in
      let (ok, b2) = get_repeat resolution remote b1 in
      let (_, remote', b3) = sync_rec_buffer resolution last_remote remote (rewind_rec_buffer b2) in
      either-HasRange header _ _
        (either-HasRange ok _ _ (repeated-HasRange remote b2)
          (after_begin-HasRange (begin_signal resolution sync remote' b3)))
        (nothing-HasRange remote b1)

  receive_timed-HasRange :
      (remote : Remote) (b : Rbuf)
      → HasRange (receive_timed resolution fuel mode code_length current last_remote remote b)
  unfolding receive_timed
  receive_timed-HasRange remote b =
      let b1 : Rbuf = record (rewind_rec_buffer b) { is_biphase = is_biphase remote } in
      let (sync, remote', b2) = sync_rec_buffer resolution last_remote remote b1 in
      either-HasRange (sync == 0) _ _ (nothing-HasRange remote' b2) (
        either-HasRange
          (has_repeat remote'
            && is_last resolution fuel mode code_length current last_remote remote')
          _ _ (try_repeat-HasRange sync remote' b2)
          (after_begin-HasRange (begin_signal resolution sync remote' b2)))

  -- Whatever the driver delivers and however the remote encodes its signals, a signal that
  -- `receive_decode` accepts, whether it is a signal for a repeat or has a code, is reported with
  -- a gap whose least length is at most its greatest.
  pub receive_decode-HasRange :
      (b : Rbuf) (remote : Remote)
      → HasRange (receive_decode resolution fuel mode code_length current last_remote b remote)
  unfolding receive_decode
  receive_decode-HasRange b remote =
      either-HasRange (is_timed resolution fuel mode code_length current last_remote) _ _
        (receive_timed-HasRange remote b) (finish-HasRange _)
