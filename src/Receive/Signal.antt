-- ===== src/Receive/Signal.antt =====
-- The parts of a signal around its data, from daemons/receive.c: the gap before it, the header, the
-- lead, the trail, the foot, the gap after it and the signal for a repeat.
pub mod Safe
use lirc_port_for_mac_os_x.Prelude.{
  ℕ, zero, suc, ℤ, pos, negsuc, ◌+◌, ◌-◌, ◌*◌, ◌/◌, Option, none, some, Bool, true, false, not, ltb,
  ◌==◌, if◌then◌else◌,
}
use lirc_port_for_mac_os_x.Remote.{Remote}
use lirc_port_for_mac_os_x.Remote.Flags.{
  is_rcmm, is_bo, is_biphase, is_const, has_flag, no_head_rep, has_toggle_mask, has_repeat_gap,
}
use lirc_port_for_mac_os_x.Remote.Gaps.{min_gap}
use lirc_port_for_mac_os_x.Remote.Tolerance.{expect, expect_at_least, expect_at_most}
use lirc_port_for_mac_os_x.Receive.Buffer.{
  Rbuf, set_pending_pulse, set_pending_space, unget_rec_buffer, get_next_pulse, get_next_space,
  get_next_rec_buffer, is_space,
}
use lirc_port_for_mac_os_x.Receive.Expect.{
  and_then, or_unget, done, sync_pending_pulse, sync_pending_space, expectpulse, expectspace,
}

abbrev pub rec_sync : ℕ
rec_sync = 8

-- What is left of a gap after a signal of the length `sum`, which can be negative.
unfoldable pub remaining : ℕ → ℤ → ℕ
remaining gap (pos n) = if ltb n gap then gap - n else 0
remaining gap (negsuc n) = gap + n + 1

module _ (resolution : ℕ) where
  -- The loop that looks for a space that can be the gap of the last remote; `left` counts down
  -- where `count` counts up to more than `REC_SYNC`.
  unfoldable pub sync_loop : ℕ → Remote → ℕ → Rbuf → ℕ × Rbuf
  sync_loop zero last_remote deltas b = (0, b)
  sync_loop (suc left) last_remote deltas b =
      let (deltap, b') = get_next_pulse 1000000 b in
      let (next, b'') = get_next_space 1000000 b' in
      let rest = sync_loop left last_remote next b'' in
      if expect_at_least resolution last_remote deltas last_remote.min_remaining_gap
      then (deltas, b)
      else if deltap == 0
      then (0, b')
      else if next == 0
      then (0, b'')
      else rest

  -- The toggle state is reset where the gap is too long.
  unfoldable pub reset_toggle : Remote → Remote → ℕ → Remote
  reset_toggle last_remote remote deltas =
      if has_toggle_mask remote
      then if not (expect_at_most resolution last_remote deltas last_remote.max_remaining_gap)
        then record remote { toggle_mask_state = 0; toggle_code = none }
        else remote
      else remote

  unfoldable pub sync_rec_buffer : Option Remote → Remote → Rbuf → ℕ × Remote × Rbuf
  sync_rec_buffer none remote b =
      let (deltas, b') = get_next_space 1000000 b in
      if deltas == 0 then (0, remote, b') else (deltas, remote, record b' { sum = pos 0 })
  sync_rec_buffer (some last_remote) remote b =
      let (deltas, b') = get_next_space 1000000 b in
      let (found, b'') = sync_loop (rec_sync + 1) last_remote deltas b' in
      if deltas == 0
      then (0, remote, b')
      else if is_rcmm remote
      then (deltas, remote, record b' { sum = pos 0 })
      else if found == 0
      then (0, remote, b'')
      else (found, reset_toggle last_remote remote found, record b'' { sum = pos 0 })

  module _ (remote : Remote) where
    unfoldable pub get_header_rcmm : Rbuf → Bool × Rbuf
    get_header_rcmm b =
        let (deltap, b') = get_next_pulse remote.phead b in
        let (deltas, b'') = get_next_space remote.shead b' in
        if deltap == 0
        then (false, unget_rec_buffer 1 b')
        else if deltas == 0
        then (false, unget_rec_buffer 2 b'')
        else if expect resolution remote (deltap + deltas) (remote.phead + remote.shead)
        then (true, b'')
        else (false, unget_rec_buffer 2 b'')

    unfoldable pub get_header_bo : Rbuf → Bool × Rbuf
    get_header_bo b = and_then (expectpulse resolution remote remote.pone b) (λ b1.
        and_then (expectspace resolution remote remote.sone b1) (λ b2.
          and_then (expectpulse resolution remote remote.pone b2) (λ b3.
            and_then (expectspace resolution remote remote.sone b3) (λ b4.
              and_then (expectpulse resolution remote remote.phead b4)
                (λ b5. expectspace resolution remote remote.shead b5)))))

    -- The space of a header that may be missing.
    unfoldable pub decide_header : Rbuf → Bool × Rbuf
    decide_header b =
        let (deltas, b') = get_next_space remote.shead b in
        if not (deltas == 0)
        then if expect resolution remote remote.shead deltas
          then (true, b')
          else (false, unget_rec_buffer 2 b')
        else (true, set_pending_space remote.shead b')

    unfoldable pub get_header : Rbuf → Bool × Rbuf
    get_header b =
        if is_rcmm remote
        then get_header_rcmm b
        else if is_bo remote
        then get_header_bo b
        else if remote.shead == 0
        then and_then (sync_pending_space resolution remote b)
            (λ s. done (set_pending_pulse remote.phead s))
        else and_then (or_unget 1 (expectpulse resolution remote remote.phead b)) (λ s.
          if has_flag remote no_head_rep
          then decide_header s
          else done (set_pending_space remote.shead s))

    unfoldable pub get_foot : Rbuf → Bool × Rbuf
    get_foot b =
        and_then (expectspace resolution remote remote.sfoot b)
          (λ s. expectpulse resolution remote remote.pfoot s)

    unfoldable pub get_lead : Rbuf → Bool × Rbuf
    get_lead b =
        if remote.plead == 0
        then (true, b)
        else and_then (sync_pending_space resolution remote b)
            (λ s. done (set_pending_pulse remote.plead s))

    unfoldable pub get_trail : Rbuf → Bool × Rbuf
    get_trail b =
        and_then
          (if not (remote.ptrail == 0)
            then expectpulse resolution remote remote.ptrail b
            else (true, b))
          (λ s. if ltb 0 s.pendingp then sync_pending_pulse resolution remote s else (true, s))

    unfoldable pub get_gap : ℕ → Rbuf → Bool × Rbuf
    get_gap gap b =
        let (data', b') = get_next_rec_buffer (gap - gap * remote.eps / 100) b in
        if data' == 0
        then (true, b')
        else if not (is_space data')
        then (false, b')
        else (expect_at_least resolution remote data' gap, unget_rec_buffer 1 b')

    -- The gap after the signal for a repeat.
    unfoldable pub repeat_gap_left : Rbuf → ℕ
    repeat_gap_left b =
        if is_const remote
        then remaining (min_gap remote) b.sum
        else if has_repeat_gap remote
        then remote.repeat_gap
        else min_gap remote

    unfoldable pub get_repeat_signal : Rbuf → Bool × Rbuf
    get_repeat_signal b =
        if is_biphase remote
        then and_then (expectspace resolution remote remote.srepeat b)
            (λ s. expectpulse resolution remote remote.prepeat s)
        else and_then (expectpulse resolution remote remote.prepeat b)
            (λ s. done (set_pending_space remote.srepeat s))

    unfoldable pub get_repeat : Rbuf → Bool × Rbuf
    get_repeat b = and_then (get_lead b) (λ b1.
        and_then (get_repeat_signal b1)
          (λ b2. and_then (get_trail b2) (λ b3. get_gap (repeat_gap_left b3) b3)))
