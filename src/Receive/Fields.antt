-- ===== src/Receive/Fields.antt =====
-- The fields of a signal: `get_data`, `get_pre` and `get_post` of daemons/receive.c, and the part of
-- `receive_decode` that reads them and what follows them. `fuel` is for the loop that reads serial
-- data.
pub mod Heard
pub mod LeadIn
pub mod End
use lirc_port_for_mac_os_x.Prelude.{
  ℕ, ℤ, ◌+◌, Option, none, some, Bool, true, false, ◌&&◌, ltb, ◌==◌, if◌then◌else◌, sub_lirc,
}
use lirc_port_for_mac_os_x.Remote.{Remote}
use lirc_port_for_mac_os_x.Remote.Flags.{
  is_rcmm, is_grundig, is_serial, is_bo, is_xmp, is_const, has_flag, no_head_rep, has_pre, has_post,
  has_foot,
}
use lirc_port_for_mac_os_x.Remote.Gaps.{min_gap}
use lirc_port_for_mac_os_x.Codes.Mapping.{Fields3}
use lirc_port_for_mac_os_x.Receive.Buffer.{Rbuf, set_pending_space}
use lirc_port_for_mac_os_x.Receive.Expect.{and_then, expectpulse}
use lirc_port_for_mac_os_x.Receive.Signal.{remaining, get_lead, get_trail, get_foot, get_gap}
use lirc_port_for_mac_os_x.Receive.Data.{
  no_data, get_data_rcmm, get_data_grundig, get_data_bo, get_data_xmp, get_data_bits,
}
use lirc_port_for_mac_os_x.Receive.Serial.{get_data_serial}

-- The part of a remote that a function changes goes with the buffer.
abbrev pub with_remote : Remote → ℕ × Rbuf → ℕ × Remote × Rbuf
with_remote remote (code, b) = (code, remote, b)

abbrev pub serial_data : Remote → Rbuf → Option (ℕ × Rbuf) → ℕ × Remote × Rbuf
serial_data remote b none = (no_data, remote, b)
serial_data remote b (some r) = with_remote remote r

-- What is left of the gap once a signal has been received.
unfoldable pub left_of_gap : Remote → ℕ → ℤ → ℕ
left_of_gap remote gap sum = if is_const remote then remaining gap sum else gap

-- The gap that has to follow a signal.
unfoldable pub gap_after : Remote → ℤ → ℕ
unfolding left_of_gap
gap_after remote sum = if is_rcmm remote then 1000 else left_of_gap remote (min_gap remote) sum

-- The length of a signal of constant length with a header is counted without it, if a repeated
-- signal has none.
unfoldable pub without_header : Bool → Remote → Rbuf → Rbuf
without_header header remote b =
    if header && (is_const remote && has_flag remote no_head_rep)
    then record b { sum = sub_lirc b.sum (remote.phead + remote.shead) }
    else b

module _ (resolution : ℕ) where
  -- The signal between two fields, where the remote has one.
  unfoldable pub get_between : Remote → ℕ → ℕ → Rbuf → Bool × Rbuf
  get_between remote p s b =
      let (ok, b') = expectpulse resolution remote p b in
      if ltb 0 p && ltb 0 s
      then if ok then (true, set_pending_space s b') else (false, b')
      else (true, b)

  -- What follows the data: the trail, the foot and the gap.
  unfoldable pub end_signal : Bool → Remote → Rbuf → Bool × Rbuf
  unfolding gap_after without_header
  end_signal header remote b = and_then (get_trail resolution remote b) (λ b1.
      and_then (if has_foot remote then get_foot resolution remote b1 else (true, b1)) (λ b2.
        let b3 = without_header header remote b2 in
        get_gap resolution remote (gap_after remote b3.sum) b3))

module _ (resolution fuel : ℕ) where
  unfoldable pub get_data : Remote → ℕ → ℕ → Rbuf → ℕ × Remote × Rbuf
  get_data remote bits done b =
      if is_rcmm remote
      then with_remote remote (get_data_rcmm resolution remote bits done b)
      else if is_grundig remote
      then with_remote remote (get_data_grundig resolution remote bits done b)
      else if is_serial remote
      then serial_data remote b (get_data_serial resolution remote fuel bits b)
      else if is_bo remote
      then with_remote remote (get_data_bo resolution remote bits b)
      else if is_xmp remote
      then with_remote remote (get_data_xmp resolution remote bits done b)
      else get_data_bits resolution remote bits done b

  unfoldable pub get_pre : Remote → Rbuf → ℕ × Remote × Rbuf
  unfolding get_between
  get_pre remote b =
      let (pre, remote', b') = get_data remote remote.pre_data_bits 0 b in
      let (ok, b'') = get_between resolution remote' remote'.pre_p remote'.pre_s b' in
      if pre == no_data then (no_data, remote', b') else (if ok then pre else no_data, remote', b'')

  unfoldable pub get_post : Remote → Rbuf → ℕ × Remote × Rbuf
  unfolding get_between
  get_post remote b =
      let (ok, b') = get_between resolution remote remote.post_p remote.post_s b in
      if ok
      then get_data remote remote.post_data_bits (remote.pre_data_bits + remote.bits) b'
      else (no_data, remote, b')

  -- A step that can fail, and the rest after it.
  abbrev pub and_read :
      Bool × Rbuf
      → Remote
      → (Rbuf → Option Fields3 × Remote × Rbuf)
      → Option Fields3 × Remote × Rbuf
  and_read (true, b) remote next = next b
  and_read (false, b) remote next = (none, remote, b)

  abbrev pub and_data :
      ℕ × Remote × Rbuf
      → (ℕ → Remote → Rbuf → Option Fields3 × Remote × Rbuf)
      → Option Fields3 × Remote × Rbuf
  and_data (code, remote, b) next =
      if code == no_data then (none, remote, b) else next code remote b

  -- The end of the signal, once its fields are read.
  abbrev pub then_end : Bool → ℕ → ℕ → ℕ → Remote → Rbuf → Option Fields3 × Remote × Rbuf
  then_end header pre code post remote b =
      and_read (end_signal resolution header remote b) remote
        (λ b'. (some (record { pre = pre; code = code; post = post }), remote, b'))

  abbrev pub then_post : Bool → ℕ → ℕ → Remote → Rbuf → Option Fields3 × Remote × Rbuf
  then_post header pre code remote b =
      and_data (if has_post remote then get_post remote b else (0, remote, b))
        (λ post r b'. then_end header pre code post r b')

  abbrev pub then_code : Bool → ℕ → Remote → Rbuf → Option Fields3 × Remote × Rbuf
  then_code header pre remote b =
      and_data (get_data remote remote.bits remote.pre_data_bits b)
        (λ code r b'. then_post header pre code r b')

  -- The fields of a signal after its header.
  unfoldable pub read_fields : Bool → Remote → Rbuf → Option Fields3 × Remote × Rbuf
  unfolding get_pre get_post get_data end_signal
  read_fields header remote b = and_read (get_lead resolution remote b) remote (λ b1.
      and_data (if has_pre remote then get_pre remote b1 else (0, remote, b1))
        (λ pre r b2. then_code header pre r b2))
