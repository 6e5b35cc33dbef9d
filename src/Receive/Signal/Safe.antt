-- ===== src/Receive/Signal/Safe.antt =====
-- What reading the parts of a signal keeps of the receive buffer.
use lirc_port_for_mac_os_x.Prelude.{
  ℕ, zero, suc, ◌+◌, ◌-◌, ◌*◌, ◌/◌, Option, none, some, Bool, true, false, not, ltb, ◌==◌,
  if◌then◌else◌, pos,
}
use lirc_port_for_mac_os_x.Remote.{Remote}
use lirc_port_for_mac_os_x.Remote.Flags.{is_rcmm, is_bo, is_biphase, has_flag, no_head_rep}
use lirc_port_for_mac_os_x.Remote.Tolerance.{expect, expect_at_least}
use lirc_port_for_mac_os_x.Receive.Buffer.{
  Rbuf, get_next_pulse, get_next_space, get_next_rec_buffer, is_space,
}
use lirc_port_for_mac_os_x.Receive.Buffer.Bounds.{
  InArray, get_next-InArray, get_next_pulse-InArray, get_next_space-InArray, unget-InArray,
}
use lirc_port_for_mac_os_x.Receive.Expect.Kept.{
  Kept, kept, either, and_then-Kept, or_unget-Kept, pending_pulse-Kept, pending_space-Kept,
  sync_pending_pulse-Kept, sync_pending_space-Kept, expectpulse-Kept, expectspace-Kept,
}
use lirc_port_for_mac_os_x.Receive.Signal.{
  rec_sync, sync_loop, sync_rec_buffer, reset_toggle, get_header_rcmm, get_header_bo, decide_header,
  get_header, get_foot, get_lead, get_trail, get_gap, repeat_gap_left, get_repeat_signal,
  get_repeat,
}

module _ (resolution : ℕ) where
  number-if :
      (t : Bool) (x y : ℕ × Rbuf) → InArray x.1 → InArray y.1 → InArray (if t then x else y).1
  number-if true x y hx hy = hx
  number-if false x y hx hy = hy

  sync_loop-InArray :
      (left : ℕ) (last_remote : Remote) (deltas : ℕ) (b : Rbuf)
      → InArray b
      → InArray (sync_loop resolution left last_remote deltas b).1
  unfolding sync_loop
  sync_loop-InArray zero last_remote deltas b h = h
  sync_loop-InArray (suc left) last_remote deltas b h =
      let (deltap, b') = get_next_pulse 1000000 b in
      let (next, b'') = get_next_space 1000000 b' in
      let h' : InArray b' = get_next_pulse-InArray 1000000 b h in
      let h'' : InArray b'' = get_next_space-InArray 1000000 b' h' in
      let rest = sync_loop resolution left last_remote next b'' in
      let found = expect_at_least resolution last_remote deltas last_remote.min_remaining_gap in
      number-if found (deltas, b)
        (if deltap == 0 then (0, b') else if next == 0 then (0, b'') else rest) h
        (number-if (deltap == 0) (0, b') (if next == 0 then (0, b'') else rest) h'
          (number-if (next == 0) (0, b'') rest h''
            (sync_loop-InArray left last_remote next b'' h'')))

  triple-if :
      (t : Bool) (x y : ℕ × Remote × Rbuf)
      → InArray x.2
      → InArray y.2
      → InArray (if t then x else y).2
  triple-if true x y hx hy = hx
  triple-if false x y hx hy = hy

  no_sum-InArray : (b : Rbuf) → InArray b → InArray (record b { sum = pos 0 })
  no_sum-InArray b h = record { sized = h.sized; written = h.written; read = h.read }

  sync-InArray :
      (last_remote : Option Remote) (remote : Remote) (b : Rbuf)
      → InArray b
      → InArray (sync_rec_buffer resolution last_remote remote b).2
  unfolding sync_rec_buffer
  sync-InArray none remote b h =
      let (deltas, b') = get_next_space 1000000 b in
      let h' : InArray b' = get_next_space-InArray 1000000 b h in
      triple-if (deltas == 0) (0, remote, b') (deltas, remote, record b' { sum = pos 0 }) h'
        (no_sum-InArray b' h')
  sync-InArray (some last_remote) remote b h =
      let (deltas, b') = get_next_space 1000000 b in
      let (found, b'') = sync_loop resolution (rec_sync + 1) last_remote deltas b' in
      let h' : InArray b' = get_next_space-InArray 1000000 b h in
      let h'' : InArray b'' = sync_loop-InArray (rec_sync + 1) last_remote deltas b' h' in
      let reset = reset_toggle resolution last_remote remote found in
      let after : ℕ × Remote × Rbuf =
        if found == 0 then (0, remote, b'') else (found, reset, record b'' { sum = pos 0 }) in
      let now : ℕ × Remote × Rbuf = (deltas, remote, record b' { sum = pos 0 }) in
      triple-if (deltas == 0) (0, remote, b') (if is_rcmm remote then now else after) h'
        (triple-if (is_rcmm remote) now after (no_sum-InArray b' h') (
          triple-if (found == 0) (0, remote, b'') (found, reset, record b'' { sum = pos 0 }) h''
            (no_sum-InArray b'' h'')))

  module _ (remote : Remote) where
    get_header_rcmm-Kept : (b : Rbuf) → InArray b → Kept (get_header_rcmm resolution remote b)
    unfolding get_header_rcmm
    get_header_rcmm-Kept b h =
        let (deltap, b') = get_next_pulse remote.phead b in
        let (deltas, b'') = get_next_space remote.shead b' in
        let h' : InArray b' = get_next_pulse-InArray remote.phead b h in
        let h'' : InArray b'' = get_next_space-InArray remote.shead b' h' in
        either (deltap == 0) _ _ (kept false _ (unget-InArray 1 b' h')) (
          either (deltas == 0) _ _ (kept false _ (unget-InArray 2 b'' h'')) (
            either (expect resolution remote (deltap + deltas) (remote.phead + remote.shead)) _ _
              (kept true b'' h'') (kept false _ (unget-InArray 2 b'' h''))))

    get_header_bo-Kept : (b : Rbuf) → InArray b → Kept (get_header_bo resolution remote b)
    unfolding get_header_bo
    get_header_bo-Kept b h =
        and_then-Kept _ _ (expectpulse-Kept resolution remote remote.pone b h) (λ b1 h1.
          and_then-Kept _ _ (expectspace-Kept resolution remote remote.sone b1 h1) (λ b2 h2.
            and_then-Kept _ _ (expectpulse-Kept resolution remote remote.pone b2 h2) (λ b3 h3.
              and_then-Kept _ _ (expectspace-Kept resolution remote remote.sone b3 h3) (λ b4 h4.
                and_then-Kept _ _ (expectpulse-Kept resolution remote remote.phead b4 h4)
                  (λ b5 h5. expectspace-Kept resolution remote remote.shead b5 h5)))))

    decide_header-Kept : (b : Rbuf) → InArray b → Kept (decide_header resolution remote b)
    unfolding decide_header
    decide_header-Kept b h =
        let (deltas, b') = get_next_space remote.shead b in
        let h' : InArray b' = get_next_space-InArray remote.shead b h in
        either (not (deltas == 0)) _ _
          (either (expect resolution remote remote.shead deltas) _ _ (kept true b' h')
            (kept false _ (unget-InArray 2 b' h')))
          (pending_space-Kept remote.shead b' h')

    get_header-Kept : (b : Rbuf) → InArray b → Kept (get_header resolution remote b)
    unfolding get_header
    get_header-Kept b h = either (is_rcmm remote) _ _ (get_header_rcmm-Kept b h) (
        either (is_bo remote) _ _ (get_header_bo-Kept b h) (
          either (remote.shead == 0) _ _
            (and_then-Kept _ _ (sync_pending_space-Kept resolution remote b h)
              (pending_pulse-Kept remote.phead))
            (and_then-Kept _ _
              (or_unget-Kept 1 _ (expectpulse-Kept resolution remote remote.phead b h))
              (λ s k.
                either (has_flag remote no_head_rep) _ _ (decide_header-Kept s k)
                  (pending_space-Kept remote.shead s k)))))

    get_foot-Kept : (b : Rbuf) → InArray b → Kept (get_foot resolution remote b)
    unfolding get_foot
    get_foot-Kept b h =
        and_then-Kept _ _ (expectspace-Kept resolution remote remote.sfoot b h)
          (expectpulse-Kept resolution remote remote.pfoot)

    get_lead-Kept : (b : Rbuf) → InArray b → Kept (get_lead resolution remote b)
    unfolding get_lead
    get_lead-Kept b h = either (remote.plead == 0) _ _ (kept true b h) (
        and_then-Kept _ _ (sync_pending_space-Kept resolution remote b h)
          (pending_pulse-Kept remote.plead))

    get_trail-Kept : (b : Rbuf) → InArray b → Kept (get_trail resolution remote b)
    unfolding get_trail
    get_trail-Kept b h =
        and_then-Kept _ _
          (either (not (remote.ptrail == 0)) _ _
            (expectpulse-Kept resolution remote remote.ptrail b h) (kept true b h))
          (λ s k.
            either (ltb 0 s.pendingp) _ _ (sync_pending_pulse-Kept resolution remote s k)
              (kept true s k))

    get_gap-Kept : (gap : ℕ) (b : Rbuf) → InArray b → Kept (get_gap resolution remote gap b)
    unfolding get_gap
    get_gap-Kept gap b h =
        let maxusec = gap - gap * remote.eps / 100 in
        let (data', b') = get_next_rec_buffer maxusec b in
        let h' : InArray b' = get_next-InArray maxusec b h in
        either (data' == 0) _ _ (kept true b' h')
          (either (not (is_space data')) _ _ (kept false b' h') (kept _ _ (unget-InArray 1 b' h')))

    get_repeat_signal-Kept : (b : Rbuf) → InArray b → Kept (get_repeat_signal resolution remote b)
    unfolding get_repeat_signal
    get_repeat_signal-Kept b h =
        either (is_biphase remote) _ _
          (and_then-Kept _ _ (expectspace-Kept resolution remote remote.srepeat b h)
            (expectpulse-Kept resolution remote remote.prepeat))
          (and_then-Kept _ _ (expectpulse-Kept resolution remote remote.prepeat b h)
            (pending_space-Kept remote.srepeat))

    get_repeat-Kept : (b : Rbuf) → InArray b → Kept (get_repeat resolution remote b)
    unfolding get_repeat
    get_repeat-Kept b h = and_then-Kept _ _ (get_lead-Kept b h) (λ b1 h1.
        and_then-Kept _ _ (get_repeat_signal-Kept b1 h1) (λ b2 h2.
          and_then-Kept _ _ (get_trail-Kept b2 h2)
            (λ b3 h3. get_gap-Kept (repeat_gap_left resolution remote b3) b3 h3)))

    -- Whatever the receiver reads, and whichever remote sent last, looking for the gap before a
    -- signal, the header, the foot, the gap after it and the signal for a repeat does not let the
    -- read index of the receive buffer pass the write index, nor the write index the end of the
    -- array, if they had not before; also where they are not found. This bounds the indices from
    -- above only.
    pub signal_parts-InArray :
        (last_remote : Option Remote) (gap : ℕ) (b : Rbuf)
        → InArray b
        → InArray (sync_rec_buffer resolution last_remote remote b).2
          × InArray (get_header resolution remote b).1
          × InArray (get_foot resolution remote b).1
          × InArray (get_gap resolution remote gap b).1
          × InArray (get_repeat resolution remote b).1
    unfolding Kept
    signal_parts-InArray last_remote gap b h = (
      sync-InArray last_remote remote b h,
      get_header-Kept b h,
      get_foot-Kept b h,
      get_gap-Kept gap b h,
      get_repeat-Kept b h,
    )
