-- ===== src/Receive/Expect/Reached.antt =====
-- That the parts of the functions that read a bit do not put the index of the receive buffer back.
use lirc_port_for_mac_os_x.Prelude.{
  ℕ, ◌+◌, ◌-◌, ◌≤◌, ◌≡◌, refl, ◌∙◌, arith, ◌==◌, Bool, true, false, ltb, if◌then◌else◌, get_or,
  bit_and, add_lirc,
}
use lirc_port_for_mac_os_x.Remote.{Remote}
use lirc_port_for_mac_os_x.Remote.Tolerance.{expect}
use lirc_port_for_mac_os_x.Receive.Timeout.{receive_timeout}
use lirc_port_for_mac_os_x.Receive.Buffer.{
  Rbuf, rbuf_size, set_pending_pulse, set_pending_space, get_next_pulse, get_next_space,
  get_next_rec_buffer, get_next_rec_buffer_internal, read_hardware, read_loop, store, pulse_mask,
}
use lirc_port_for_mac_os_x.Receive.Expect.{
  and_then, sync_pending_pulse, sync_pending_space, check_pulse, check_space, expectpulse,
  expectspace, optional_pulse, optional_space,
}

-- Nothing was put back below the index of `a`, and no index was less than 0 since.
pub record From (a b : Rbuf) : Type 0 where
  pub same_fault : b.fault ≡ a.fault
  pub not_before : a.rptr ≤ b.rptr

unfoldable pub Reached : Rbuf → Bool × Rbuf → Type 0
Reached a x = From a x.1

pub reached : (a : Rbuf) (ok : Bool) (b : Rbuf) → From a b → Reached a (ok, b)
unfolding Reached
reached a ok b h = h

pub either-Reached :
    (a : Rbuf) (t : Bool) (x y : Bool × Rbuf)
    → Reached a x
    → Reached a y
    → Reached a (if t then x else y)
either-Reached a true x y hx hy = hx
either-Reached a false x y hx hy = hy

and_then-Reached :
    (a : Rbuf) (x : Bool × Rbuf) (next : Rbuf → Bool × Rbuf)
    → Reached a x
    → ((b : Rbuf) → From a b → Reached a (next b))
    → Reached a (and_then x next)
unfolding Reached
and_then-Reached a (true, b) next h n = n b h
and_then-Reached a (false, b) next h n = h

pending_pulse-Reached :
    (a : Rbuf) (n : ℕ) (b : Rbuf) → From a b → Reached a (true, set_pending_pulse n b)
unfolding Reached set_pending_pulse
pending_pulse-Reached a n b h = record { same_fault = h.same_fault; not_before = h.not_before }

pending_space-Reached :
    (a : Rbuf) (n : ℕ) (b : Rbuf) → From a b → Reached a (true, set_pending_space n b)
unfolding Reached set_pending_space
pending_space-Reached a n b h = record { same_fault = h.same_fault; not_before = h.not_before }

From-if :
    (a : Rbuf) (t : Bool) (x y : ℕ × Rbuf) → From a x.1 → From a y.1 → From a (if t then x else y).1
From-if a true x y hx hy = hx
From-if a false x y hx hy = hy

From-same : (a b c : Rbuf) → From a b → c.fault ≡ b.fault → b.rptr ≤ c.rptr → From a c
From-same a b c h e n = record {
  same_fault = e ∙ h.same_fault;
  not_before = omega (arith, h.not_before, n);
}

read_hardware-From :
    (a : Rbuf) (maxusec : ℕ) (b : Rbuf) → From a b → From a (read_hardware maxusec b).1
unfolding read_hardware store
read_hardware-From a maxusec b h =
    let (data', answers) = read_loop b.last_signal_time b.answers maxusec in
    let read : Rbuf = record b { answers = answers } in
    From-if a (data' == 0) (0, read) (get_or (store data' read).cells b.rptr 0, store data' read)
      (From-same a b _ h refl (omega arith)) (From-same a b _ h refl (omega arith))

get_next-From :
    (a : Rbuf) (maxusec : ℕ) (b : Rbuf) → From a b → From a (get_next_rec_buffer maxusec b).1
unfolding get_next_rec_buffer get_next_rec_buffer_internal
get_next-From a maxusec b h =
    let usec = receive_timeout maxusec in
    let cell = get_or b.cells b.rptr 0 in
    let next : Rbuf = record b {
      sum = add_lirc b.sum (bit_and cell pulse_mask);
      rptr = b.rptr + 1;
    } in
    let full : Rbuf = record b { too_long = true } in
    let rest : ℕ × Rbuf = if ltb b.wptr rbuf_size then read_hardware usec b else (0, full) in
    From-if a (ltb b.rptr b.wptr) (cell, next) rest (From-same a b _ h refl (omega arith))
      (From-if a (ltb b.wptr rbuf_size) (read_hardware usec b) (0, full)
        (read_hardware-From a usec b h) (From-same a b _ h refl (omega arith)))

get_next_pulse-From :
    (a : Rbuf) (maxusec : ℕ) (b : Rbuf) → From a b → From a (get_next_pulse maxusec b).1
unfolding get_next_pulse
get_next_pulse-From a maxusec b h = get_next-From a maxusec b h

get_next_space-From :
    (a : Rbuf) (maxusec : ℕ) (b : Rbuf) → From a b → From a (get_next_space maxusec b).1
unfolding get_next_space
get_next_space-From a maxusec b h = get_next-From a maxusec b h

module _ (resolution : ℕ) (remote : Remote) where
  sync_pending_pulse-Reached :
      (a : Rbuf) → (b : Rbuf) → From a b → Reached a (sync_pending_pulse resolution remote b)
  unfolding sync_pending_pulse
  sync_pending_pulse-Reached a b h =
      let read = get_next_pulse-From a b.pendingp b h in
      let (deltap, b') = get_next_pulse b.pendingp b in
      either-Reached a (ltb 0 b.pendingp) _ _
        (either-Reached a (deltap == 0) _ _ (reached a false _ read) (
          either-Reached a (expect resolution remote deltap b'.pendingp) _ _
            (pending_pulse-Reached a 0 _ read) (reached a false _ read)))
        (reached a true b h)

  sync_pending_space-Reached :
      (a : Rbuf) → (b : Rbuf) → From a b → Reached a (sync_pending_space resolution remote b)
  unfolding sync_pending_space
  sync_pending_space-Reached a b h =
      let read = get_next_space-From a b.pendings b h in
      let (deltas, b') = get_next_space b.pendings b in
      either-Reached a (ltb 0 b.pendings) _ _
        (either-Reached a (deltas == 0) _ _ (reached a false _ read) (
          either-Reached a (expect resolution remote deltas b'.pendings) _ _
            (pending_space-Reached a 0 _ read) (reached a false _ read)))
        (reached a true b h)

  check_pulse-Reached :
      (a : Rbuf)
      → (deltap exdelta : ℕ) (b : Rbuf) → From a b
      → Reached a (check_pulse resolution remote deltap exdelta b)
  unfolding check_pulse
  check_pulse-Reached a deltap exdelta b h =
      let no = reached a false b h in
      let near = expect resolution remote (deltap - b.pendingp) exdelta in
      either-Reached a (deltap == 0) _ _ no (
        either-Reached a (ltb 0 b.pendingp) _ _
          (either-Reached a (ltb deltap b.pendingp) _ _ no
            (either-Reached a near _ _ (pending_pulse-Reached a 0 b h) no))
          (reached a (expect resolution remote deltap exdelta) b h))

  check_space-Reached :
      (a : Rbuf)
      → (deltas exdelta : ℕ) (b : Rbuf) → From a b
      → Reached a (check_space resolution remote deltas exdelta b)
  unfolding check_space
  check_space-Reached a deltas exdelta b h =
      let no = reached a false b h in
      let near = expect resolution remote (deltas - b.pendings) exdelta in
      either-Reached a (deltas == 0) _ _ no (
        either-Reached a (ltb 0 b.pendings) _ _
          (either-Reached a (ltb deltas b.pendings) _ _ no
            (either-Reached a near _ _ (pending_space-Reached a 0 b h) no))
          (reached a (expect resolution remote deltas exdelta) b h))

  pub expectpulse-Reached :
      (a : Rbuf)
      → (exdelta : ℕ) (b : Rbuf) → From a b
      → Reached a (expectpulse resolution remote exdelta b)
  unfolding expectpulse
  expectpulse-Reached a exdelta b h =
      and_then-Reached a _ _ (sync_pending_space-Reached a b h)
        (λ s k. check_pulse-Reached a _ exdelta _ (get_next_pulse-From a _ s k))

  pub expectspace-Reached :
      (a : Rbuf)
      → (exdelta : ℕ) (b : Rbuf) → From a b
      → Reached a (expectspace resolution remote exdelta b)
  unfolding expectspace
  expectspace-Reached a exdelta b h =
      and_then-Reached a _ _ (sync_pending_pulse-Reached a b h)
        (λ s k. check_space-Reached a _ exdelta _ (get_next_space-From a _ s k))

  pub optional_pulse-Reached :
      (a : Rbuf) → (n : ℕ) (b : Rbuf) → From a b → Reached a (optional_pulse resolution remote n b)
  unfolding optional_pulse
  optional_pulse-Reached a n b h =
      either-Reached a _ _ _ (expectpulse-Reached a n b h) (reached a true b h)

  pub optional_space-Reached :
      (a : Rbuf) → (n : ℕ) (b : Rbuf) → From a b → Reached a (optional_space resolution remote n b)
  unfolding optional_space
  optional_space-Reached a n b h =
      either-Reached a _ _ _ (expectspace-Reached a n b h) (reached a true b h)
