-- ===== src/Receive/Expect/PutBack.antt =====
-- How far the functions that read a bit can put the index of the receive buffer back.
use lirc_port_for_mac_os_x.Prelude.{
  ℕ, ◌+◌, ◌*◌, ◌≤◌, ◌≡◌, refl, ◌∙◌, arith, Bool, true, false, ◌||◌, ltb, if◌then◌else◌,
}
use lirc_port_for_mac_os_x.Remote.{Remote}
use lirc_port_for_mac_os_x.Remote.Flags.{is_biphase, is_space_first}
use lirc_port_for_mac_os_x.Receive.Buffer.{
  Rbuf, set_pending_pulse, set_pending_space, unget_rec_buffer,
}
use lirc_port_for_mac_os_x.Receive.Expect.{and_then, or_unget, is_double, expectone, expectzero}
use lirc_port_for_mac_os_x.Receive.Expect.Reached.{
  From, Reached, reached, either-Reached, expectpulse-Reached, expectspace-Reached,
  optional_pulse-Reached, optional_space-Reached,
}

-- No index was less than 0 since `a`, and the index is at most two values before that of `a`.
pub record Near (a b : Rbuf) : Type 0 where
  pub same_fault : b.fault ≡ a.fault
  pub at_most_two : a.rptr ≤ b.rptr + 2

unfoldable PutBack : Rbuf → Bool × Rbuf → Type 0
PutBack a (true, b) = From a b
PutBack a (false, b) = Near a b

PutBack-Near : (a : Rbuf) (x : Bool × Rbuf) → PutBack a x → Near a x.1
unfolding PutBack
PutBack-Near a (true, b) h = record {
  same_fault = h.same_fault;
  at_most_two = omega (arith, h.not_before);
}
PutBack-Near a (false, b) h = h

either-PutBack :
    (a : Rbuf) (t : Bool) (x y : Bool × Rbuf)
    → PutBack a x
    → PutBack a y
    → PutBack a (if t then x else y)
either-PutBack a true x y hx hy = hx
either-PutBack a false x y hx hy = hy

and_then-PutBack :
    (a : Rbuf) (x : Bool × Rbuf) (next : Rbuf → Bool × Rbuf)
    → PutBack a x
    → ((b : Rbuf) → From a b → PutBack a (next b))
    → PutBack a (and_then x next)
unfolding PutBack
and_then-PutBack a (true, b) next h n = n b h
and_then-PutBack a (false, b) next h n = h

no_less : (n k : ℕ) (t : Bool) → k ≤ n → (t || ltb n k) ≡ t
no_less n k true h = refl
no_less n k false h = ground (arith, h)

unget_one-Near : (a b : Rbuf) → 2 ≤ a.rptr → From a b → Near a (unget_rec_buffer 1 b)
unfolding unget_rec_buffer
unget_one-Near a b room h = record {
  same_fault = no_less b.rptr 1 b.fault (omega (arith, room, h.not_before)) ∙ h.same_fault;
  at_most_two = omega (arith, h.not_before);
}

unget_two-Near : (a b : Rbuf) → 2 ≤ a.rptr → From a b → Near a (unget_rec_buffer 2 b)
unfolding unget_rec_buffer
unget_two-Near a b room h = record {
  same_fault = no_less b.rptr 2 b.fault (omega (arith, room, h.not_before)) ∙ h.same_fault;
  at_most_two = omega (arith, h.not_before);
}

unget_one-PutBack :
    (a : Rbuf) (x : Bool × Rbuf) → 2 ≤ a.rptr → Reached a x → PutBack a (or_unget 1 x)
unfolding PutBack Reached
unget_one-PutBack a (true, b) room h = h
unget_one-PutBack a (false, b) room h = unget_one-Near a b room h

unget_two-PutBack :
    (a : Rbuf) (x : Bool × Rbuf) → 2 ≤ a.rptr → Reached a x → PutBack a (or_unget 2 x)
unfolding PutBack Reached
unget_two-PutBack a (true, b) room h = h
unget_two-PutBack a (false, b) room h = unget_two-Near a b room h

pulse_done-PutBack :
    (a : Rbuf) (n : ℕ) (b : Rbuf) → From a b → PutBack a (true, set_pending_pulse n b)
unfolding PutBack set_pending_pulse
pulse_done-PutBack a n b h = record { same_fault = h.same_fault; not_before = h.not_before }

space_done-PutBack :
    (a : Rbuf) (n : ℕ) (b : Rbuf) → From a b → PutBack a (true, set_pending_space n b)
unfolding PutBack set_pending_space
space_done-PutBack a n b h = record { same_fault = h.same_fault; not_before = h.not_before }

module _ (resolution : ℕ) (remote : Remote) where
  expectone-PutBack :
      (bit : ℕ) (a : Rbuf) → 2 ≤ a.rptr → PutBack a (expectone resolution remote bit a)
  unfolding expectone
  expectone-PutBack bit a room =
      let here : From a a = record { same_fault = refl; not_before = omega arith } in
      either-PutBack a (is_biphase remote) _ _
        (either-PutBack a (is_double resolution remote bit) _ _
          (and_then-PutBack a _ _
            (unget_one-PutBack a _ room (
              either-Reached a _ _ _
                (expectspace-Reached resolution remote a (2 * remote.sone) a here)
                (reached a true a here)))
            (pulse_done-PutBack a (2 * remote.pone)))
          (and_then-PutBack a _ _
            (unget_one-PutBack a _ room
              (optional_space-Reached resolution remote a remote.sone a here))
            (pulse_done-PutBack a remote.pone)))
        (either-PutBack a (is_space_first remote) _ _
          (and_then-PutBack a _ _
            (unget_one-PutBack a _ room
              (optional_space-Reached resolution remote a remote.sone a here))
            (λ s k.
              unget_two-PutBack a _ room
                (optional_pulse-Reached resolution remote a remote.pone s k)))
          (and_then-PutBack a _ _
            (unget_one-PutBack a _ room
              (optional_pulse-Reached resolution remote a remote.pone a here))
            (λ s k.
              either-PutBack a (ltb 0 remote.ptrail) _ _
                (unget_two-PutBack a _ room
                  (optional_space-Reached resolution remote a remote.sone s k))
                (space_done-PutBack a remote.sone s k))))

  expectzero-PutBack :
      (bit : ℕ) (a : Rbuf) → 2 ≤ a.rptr → PutBack a (expectzero resolution remote bit a)
  unfolding expectzero
  expectzero-PutBack bit a room =
      let here : From a a = record { same_fault = refl; not_before = omega arith } in
      either-PutBack a (is_biphase remote) _ _
        (either-PutBack a (is_double resolution remote bit) _ _
          (and_then-PutBack a _ _
            (unget_one-PutBack a _ room
              (expectpulse-Reached resolution remote a (2 * remote.pzero) a here))
            (space_done-PutBack a (2 * remote.szero)))
          (and_then-PutBack a _ _
            (unget_one-PutBack a _ room
              (expectpulse-Reached resolution remote a remote.pzero a here))
            (space_done-PutBack a remote.szero)))
        (either-PutBack a (is_space_first remote) _ _
          (and_then-PutBack a _ _
            (unget_one-PutBack a _ room
              (optional_space-Reached resolution remote a remote.szero a here))
            (λ s k.
              unget_two-PutBack a _ room
                (optional_pulse-Reached resolution remote a remote.pzero s k)))
          (and_then-PutBack a _ _
            (unget_one-PutBack a _ room
              (expectpulse-Reached resolution remote a remote.pzero a here))
            (λ s k.
              either-PutBack a (ltb 0 remote.ptrail) _ _
                (unget_two-PutBack a _ room
                  (expectspace-Reached resolution remote a remote.szero s k))
                (space_done-PutBack a remote.szero s k))))

  -- If at least two values were read before a bit, then looking for a one and looking for a zero do
  -- not make the read index less than 0, and whether they succeed or fail they leave it at most two
  -- values before the place where the bit began.
  pub expect_bit-Near :
      (bit : ℕ) (b : Rbuf)
      → 2 ≤ b.rptr
      → Near b (expectone resolution remote bit b).1 × Near b (expectzero resolution remote bit b).1
  expect_bit-Near bit b room = (
    PutBack-Near b _ (expectone-PutBack bit b room),
    PutBack-Near b _ (expectzero-PutBack bit b room),
  )
