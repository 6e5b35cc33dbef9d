-- ===== src/Receive/Expect/Kept.antt =====
-- What the functions that read a signal keep of the receive buffer.
use lirc_port_for_mac_os_x.Prelude.{ℕ, ◌-◌, ◌*◌, ◌==◌, Bool, true, false, ltb, if◌then◌else◌}
use lirc_port_for_mac_os_x.Remote.{Remote}
use lirc_port_for_mac_os_x.Remote.Flags.{is_biphase, is_space_first}
use lirc_port_for_mac_os_x.Remote.Tolerance.{expect}
use lirc_port_for_mac_os_x.Receive.Buffer.{
  Rbuf, set_pending_pulse, set_pending_space, get_next_pulse, get_next_space,
}
use lirc_port_for_mac_os_x.Receive.Buffer.Bounds.{
  InArray, get_next_pulse-InArray, get_next_space-InArray, set_pending-InArray, unget-InArray,
}
use lirc_port_for_mac_os_x.Receive.Expect.{
  and_then, or_unget, sync_pending_pulse, sync_pending_space, check_pulse, check_space, expectpulse,
  expectspace, optional_pulse, optional_space, is_double, expectone, expectzero,
}

-- The indices do not pass their upper bounds in a step, whether it succeeds or not.
unfoldable pub Kept : Bool × Rbuf → Type 0
Kept x = InArray x.1

pub kept : (ok : Bool) (b : Rbuf) → InArray b → Kept (ok, b)
unfolding Kept
kept ok b h = h

pub either : (t : Bool) (x y : Bool × Rbuf) → Kept x → Kept y → Kept (if t then x else y)
either true x y hx hy = hx
either false x y hx hy = hy

pub and_then-Kept :
    (x : Bool × Rbuf) (next : Rbuf → Bool × Rbuf)
    → Kept x
    → ((b : Rbuf) → InArray b → Kept (next b))
    → Kept (and_then x next)
unfolding Kept
and_then-Kept (true, b) next h n = n b h
and_then-Kept (false, b) next h n = h

pub or_unget-Kept : (count : ℕ) (x : Bool × Rbuf) → Kept x → Kept (or_unget count x)
unfolding Kept
or_unget-Kept count (true, b) h = h
or_unget-Kept count (false, b) h = unget-InArray count b h

pub pending_pulse-Kept : (n : ℕ) (b : Rbuf) → InArray b → Kept (true, set_pending_pulse n b)
pending_pulse-Kept n b h = kept true _ (set_pending-InArray n b h).0

pub pending_space-Kept : (n : ℕ) (b : Rbuf) → InArray b → Kept (true, set_pending_space n b)
pending_space-Kept n b h = kept true _ (set_pending-InArray n b h).1

module _ (resolution : ℕ) (remote : Remote) where
  pub sync_pending_pulse-Kept :
      (b : Rbuf) → InArray b → Kept (sync_pending_pulse resolution remote b)
  unfolding sync_pending_pulse
  sync_pending_pulse-Kept b h =
      let read = get_next_pulse-InArray b.pendingp b h in
      let (deltap, b') = get_next_pulse b.pendingp b in
      either (ltb 0 b.pendingp) _ _
        (either (deltap == 0) _ _ (kept false _ read) (
          either (expect resolution remote deltap b'.pendingp) _ _ (pending_pulse-Kept 0 _ read)
            (kept false _ read)))
        (kept true b h)

  pub sync_pending_space-Kept :
      (b : Rbuf) → InArray b → Kept (sync_pending_space resolution remote b)
  unfolding sync_pending_space
  sync_pending_space-Kept b h =
      let read = get_next_space-InArray b.pendings b h in
      let (deltas, b') = get_next_space b.pendings b in
      either (ltb 0 b.pendings) _ _
        (either (deltas == 0) _ _ (kept false _ read) (
          either (expect resolution remote deltas b'.pendings) _ _ (pending_space-Kept 0 _ read)
            (kept false _ read)))
        (kept true b h)

  check_pulse-Kept :
      (deltap exdelta : ℕ) (b : Rbuf)
      → InArray b
      → Kept (check_pulse resolution remote deltap exdelta b)
  unfolding check_pulse
  check_pulse-Kept deltap exdelta b h =
      let no = kept false b h in
      let near = expect resolution remote (deltap - b.pendingp) exdelta in
      either (deltap == 0) _ _ no (
        either (ltb 0 b.pendingp) _ _
          (either (ltb deltap b.pendingp) _ _ no (either near _ _ (pending_pulse-Kept 0 b h) no))
          (kept (expect resolution remote deltap exdelta) b h))

  check_space-Kept :
      (deltas exdelta : ℕ) (b : Rbuf)
      → InArray b
      → Kept (check_space resolution remote deltas exdelta b)
  unfolding check_space
  check_space-Kept deltas exdelta b h =
      let no = kept false b h in
      let near = expect resolution remote (deltas - b.pendings) exdelta in
      either (deltas == 0) _ _ no (
        either (ltb 0 b.pendings) _ _
          (either (ltb deltas b.pendings) _ _ no (either near _ _ (pending_space-Kept 0 b h) no))
          (kept (expect resolution remote deltas exdelta) b h))

  pub expectpulse-Kept :
      (exdelta : ℕ) (b : Rbuf) → InArray b → Kept (expectpulse resolution remote exdelta b)
  unfolding expectpulse
  expectpulse-Kept exdelta b h =
      and_then-Kept _ _ (sync_pending_space-Kept b h)
        (λ s k. check_pulse-Kept _ exdelta _ (get_next_pulse-InArray _ s k))

  pub expectspace-Kept :
      (exdelta : ℕ) (b : Rbuf) → InArray b → Kept (expectspace resolution remote exdelta b)
  unfolding expectspace
  expectspace-Kept exdelta b h =
      and_then-Kept _ _ (sync_pending_pulse-Kept b h)
        (λ s k. check_space-Kept _ exdelta _ (get_next_space-InArray _ s k))

  optional_pulse-Kept : (n : ℕ) (b : Rbuf) → InArray b → Kept (optional_pulse resolution remote n b)
  unfolding optional_pulse
  optional_pulse-Kept n b h = either _ _ _ (expectpulse-Kept n b h) (kept true b h)

  optional_space-Kept : (n : ℕ) (b : Rbuf) → InArray b → Kept (optional_space resolution remote n b)
  unfolding optional_space
  optional_space-Kept n b h = either _ _ _ (expectspace-Kept n b h) (kept true b h)

  pub expectone-Kept : (bit : ℕ) (b : Rbuf) → InArray b → Kept (expectone resolution remote bit b)
  unfolding expectone
  expectone-Kept bit b h =
      either (is_biphase remote) _ _
        (either (is_double resolution remote bit) _ _
          (and_then-Kept _ _
            (or_unget-Kept 1 _ (
              either (ltb 0 remote.sone) _ _ (expectspace-Kept (2 * remote.sone) b h)
                (kept true b h)))
            (pending_pulse-Kept (2 * remote.pone)))
          (and_then-Kept _ _ (or_unget-Kept 1 _ (optional_space-Kept remote.sone b h))
            (pending_pulse-Kept remote.pone)))
        (either (is_space_first remote) _ _
          (and_then-Kept _ _ (or_unget-Kept 1 _ (optional_space-Kept remote.sone b h))
            (λ s k. or_unget-Kept 2 _ (optional_pulse-Kept remote.pone s k)))
          (and_then-Kept _ _ (or_unget-Kept 1 _ (optional_pulse-Kept remote.pone b h)) (λ s k.
            either (ltb 0 remote.ptrail) _ _
              (or_unget-Kept 2 _ (optional_space-Kept remote.sone s k))
              (pending_space-Kept remote.sone s k))))

  pub expectzero-Kept : (bit : ℕ) (b : Rbuf) → InArray b → Kept (expectzero resolution remote bit b)
  unfolding expectzero
  expectzero-Kept bit b h =
      either (is_biphase remote) _ _
        (either (is_double resolution remote bit) _ _
          (and_then-Kept _ _ (or_unget-Kept 1 _ (expectpulse-Kept (2 * remote.pzero) b h))
            (pending_space-Kept (2 * remote.szero)))
          (and_then-Kept _ _ (or_unget-Kept 1 _ (expectpulse-Kept remote.pzero b h))
            (pending_space-Kept remote.szero)))
        (either (is_space_first remote) _ _
          (and_then-Kept _ _ (or_unget-Kept 1 _ (optional_space-Kept remote.szero b h))
            (λ s k. or_unget-Kept 2 _ (optional_pulse-Kept remote.pzero s k)))
          (and_then-Kept _ _ (or_unget-Kept 1 _ (expectpulse-Kept remote.pzero b h)) (λ s k.
            either (ltb 0 remote.ptrail) _ _ (or_unget-Kept 2 _ (expectspace-Kept remote.szero s k))
              (pending_space-Kept remote.szero s k))))

  -- Whichever way the remote encodes its bits and whatever the receiver reads, looking for a one and
  -- looking for a zero do not let the read index of the receive buffer pass the write index, nor the
  -- write index the end of the array, if they had not before; also where they fail. This bounds the
  -- indices from above only.
  pub expect_bit-InArray :
      (bit : ℕ) (b : Rbuf)
      → InArray b
      → InArray (expectone resolution remote bit b).1
        × InArray (expectzero resolution remote bit b).1
  unfolding Kept
  expect_bit-InArray bit b h = (expectone-Kept bit b h, expectzero-Kept bit b h)
