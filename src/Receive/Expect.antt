-- ===== src/Receive/Expect.antt =====
-- The functions of daemons/receive.c that take one bit, or a part of one, from the receive buffer.
pub mod Kept
pub mod PutBack
pub mod Reached
use lirc_port_for_mac_os_x.Prelude.{
  ℕ, ◌+◌, ◌-◌, ◌*◌, Bool, true, false, ltb, ◌==◌, if◌then◌else◌, bit_and,
}
use lirc_port_for_mac_os_x.Word.{is_set, shl}
use lirc_port_for_mac_os_x.Remote.{Remote}
use lirc_port_for_mac_os_x.Remote.Flags.{is_biphase, is_space_first, bit_count}
use lirc_port_for_mac_os_x.Remote.Tolerance.{expect}
use lirc_port_for_mac_os_x.Receive.Buffer.{
  Rbuf, set_pending_pulse, set_pending_space, unget_rec_buffer, get_next_pulse, get_next_space,
}

-- `if (!a) return 0; b`
abbrev pub and_then : Bool × Rbuf → (Rbuf → Bool × Rbuf) → Bool × Rbuf
and_then (true, b) next = next b
and_then (false, b) next = (false, b)

-- `if (!a) { unget_rec_buffer(count); return 0; }`
abbrev pub or_unget : ℕ → Bool × Rbuf → Bool × Rbuf
or_unget count (true, b) = (true, b)
or_unget count (false, b) = (false, unget_rec_buffer count b)

abbrev pub done : Rbuf → Bool × Rbuf
done b = (true, b)

module _ (resolution : ℕ) (remote : Remote) where
  unfoldable pub sync_pending_pulse : Rbuf → Bool × Rbuf
  sync_pending_pulse b =
      let (deltap, b') = get_next_pulse b.pendingp b in
      if ltb 0 b.pendingp
      then if deltap == 0
        then (false, b')
        else if expect resolution remote deltap b'.pendingp
        then (true, set_pending_pulse 0 b')
        else (false, b')
      else (true, b)

  unfoldable pub sync_pending_space : Rbuf → Bool × Rbuf
  sync_pending_space b =
      let (deltas, b') = get_next_space b.pendings b in
      if ltb 0 b.pendings
      then if deltas == 0
        then (false, b')
        else if expect resolution remote deltas b'.pendings
        then (true, set_pending_space 0 b')
        else (false, b')
      else (true, b)

  -- The rest of `expectpulse` for the pulse `deltap` that was read.
  unfoldable pub check_pulse : ℕ → ℕ → Rbuf → Bool × Rbuf
  check_pulse deltap exdelta b =
      if deltap == 0
      then (false, b)
      else if ltb 0 b.pendingp
      then if ltb deltap b.pendingp
        then (false, b)
        else if expect resolution remote (deltap - b.pendingp) exdelta
        then (true, set_pending_pulse 0 b)
        else (false, b)
      else (expect resolution remote deltap exdelta, b)

  unfoldable pub expectpulse : ℕ → Rbuf → Bool × Rbuf
  expectpulse exdelta b = and_then (sync_pending_space b) (λ s.
      let (deltap, t) = get_next_pulse (s.pendingp + exdelta) s in check_pulse deltap exdelta t)

  unfoldable pub check_space : ℕ → ℕ → Rbuf → Bool × Rbuf
  check_space deltas exdelta b =
      if deltas == 0
      then (false, b)
      else if ltb 0 b.pendings
      then if ltb deltas b.pendings
        then (false, b)
        else if expect resolution remote (deltas - b.pendings) exdelta
        then (true, set_pending_space 0 b)
        else (false, b)
      else (expect resolution remote deltas exdelta, b)

  unfoldable pub expectspace : ℕ → Rbuf → Bool × Rbuf
  expectspace exdelta b = and_then (sync_pending_pulse b) (λ s.
      let (deltas, t) = get_next_space (s.pendings + exdelta) s in check_space deltas exdelta t)

  -- `remote->x > 0 && !expectpulse(remote, remote->x)`: a part of no length is not looked for.
  unfoldable pub optional_pulse : ℕ → Rbuf → Bool × Rbuf
  optional_pulse exdelta b = if ltb 0 exdelta then expectpulse exdelta b else (true, b)

  unfoldable pub optional_space : ℕ → Rbuf → Bool × Rbuf
  optional_space exdelta b = if ltb 0 exdelta then expectspace exdelta b else (true, b)

  -- `mask & remote->rc6_mask`: the bit has twice the length.
  unfoldable pub is_double : ℕ → Bool
  is_double bit = is_set (bit_and (shl 1 (bit_count remote - 1 - bit)) remote.rc6_mask)

  unfoldable pub expectone : ℕ → Rbuf → Bool × Rbuf
  expectone bit b =
      if is_biphase remote
      then if is_double bit
        then and_then
            (or_unget 1 (if ltb 0 remote.sone then expectspace (2 * remote.sone) b else (true, b)))
            (λ s. done (set_pending_pulse (2 * remote.pone) s))
        else and_then (or_unget 1 (optional_space remote.sone b))
            (λ s. done (set_pending_pulse remote.pone s))
      else if is_space_first remote
      then and_then (or_unget 1 (optional_space remote.sone b))
          (λ s. or_unget 2 (optional_pulse remote.pone s))
      else and_then (or_unget 1 (optional_pulse remote.pone b)) (λ s.
        if ltb 0 remote.ptrail
        then or_unget 2 (optional_space remote.sone s)
        else done (set_pending_space remote.sone s))

  unfoldable pub expectzero : ℕ → Rbuf → Bool × Rbuf
  expectzero bit b =
      if is_biphase remote
      then if is_double bit
        then and_then (or_unget 1 (expectpulse (2 * remote.pzero) b))
            (λ s. done (set_pending_space (2 * remote.szero) s))
        else and_then (or_unget 1 (expectpulse remote.pzero b))
            (λ s. done (set_pending_space remote.szero s))
      else if is_space_first remote
      then and_then (or_unget 1 (optional_space remote.szero b))
          (λ s. or_unget 2 (optional_pulse remote.pzero s))
      else and_then (or_unget 1 (expectpulse remote.pzero b)) (λ s.
        if ltb 0 remote.ptrail
        then or_unget 2 (expectspace remote.szero s)
        else done (set_pending_space remote.szero s))
