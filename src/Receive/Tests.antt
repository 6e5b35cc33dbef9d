-- ===== src/Receive/Tests.antt =====
-- A signal that is received.
use lirc_port_for_mac_os_x.Prelude.{
  some, ℕ, ◌+◌, ◌≡◌, refl, arith, [], ◌∷◌, map, pos, inl, inr, false,
}
use lirc_port_for_mac_os_x.Remote.{Remote, blank}
use lirc_port_for_mac_os_x.Remote.Flags.{is_biphase, is_rc5, is_rc6, is_space_first, is_goldstar}
use lirc_port_for_mac_os_x.Remote.Tolerance.{expect}
use lirc_port_for_mac_os_x.Receive.Timeout.{receive_timeout}
use lirc_port_for_mac_os_x.Receive.Buffer.{
  Answer, Rbuf, init_rec_buffer, get_next_rec_buffer, get_next_rec_buffer_internal, read_loop,
  read_hardware, store, get_next_pulse, get_next_space, is_pulse, is_space, set_pending_pulse,
  set_pending_space, unget_rec_buffer, pulses, clear_rec_buffer,
}
use lirc_port_for_mac_os_x.Receive.Buffer.Bounds.{InArray, init-InArray, clear-InArray}
use lirc_port_for_mac_os_x.Receive.Expect.{
  sync_pending_pulse, sync_pending_space, check_pulse, check_space, expectpulse, expectspace,
  optional_pulse, optional_space, expectone, expectzero,
}
use lirc_port_for_mac_os_x.Receive.Expect.Kept.{expect_bit-InArray}
use lirc_port_for_mac_os_x.Receive.Expect.PutBack.{Near, expect_bit-Near}
use lirc_port_for_mac_os_x.Receive.Data.{
  set_lengths, take_bit, bit_loop, get_data_bits, get_data_rcmm, get_data_grundig, get_data_bo,
  get_data_xmp,
}
use lirc_port_for_mac_os_x.Receive.Data.Heard.{Heard}
use lirc_port_for_mac_os_x.Receive.Data.Recover.{IsHeard, get_data_bits-heard}
use lirc_port_for_mac_os_x.Receive.Data.PulseSpace.{IsPulseSpace}
use lirc_port_for_mac_os_x.Receive.Signal.{
  sync_rec_buffer, get_header, get_foot, get_gap, get_repeat,
}
use lirc_port_for_mac_os_x.Receive.Signal.Safe.{signal_parts-InArray}
use lirc_port_for_mac_os_x.Receive.Data.Width.{Within, get_data-Within}

abbrev nec : Remote
nec = record blank {
  bits = 4;
  flags = 0x10;
  eps = 30;
  aeps = 100;
  pone = 560;
  sone = 1690;
  pzero = 560;
  szero = 560;
  ptrail = 560;
}

abbrev answer : ℕ → Answer
answer value = record { current = record { tv_sec = 1; tv_usec = 0 }; value = value }

abbrev pulse : ℕ → ℕ
pulse n = 0x01000000 + n

-- 1, 0, 1, 0 with lengths that are a little off.
abbrev heard : Rbuf
unfolding init_rec_buffer
heard = init_rec_buffer (
    map answer
      (pulse 540 ∷ 1700 ∷ pulse 560 ∷ 600 ∷ pulse 590 ∷ 1650 ∷ pulse 560 ∷ 550 ∷ pulse 560 ∷ []))

received_nec : (get_data_bits 10 nec 4 0 heard).0 ≡ 0xa
unfolding get_data_bits bit_loop take_bit expectone expectzero optional_pulse optional_space
    expectpulse expectspace check_pulse check_space sync_pending_pulse sync_pending_space
    get_next_pulse get_next_space get_next_rec_buffer get_next_rec_buffer_internal read_hardware
    read_loop store is_pulse is_space set_pending_pulse set_pending_space unget_rec_buffer
    receive_timeout expect is_biphase is_rc5 is_rc6 is_space_first is_goldstar set_lengths heard
received_nec = refl

get_data-Within_example :
    Within 4 (get_data_rcmm 10 nec 4 0 heard).0
    × Within 4 (get_data_grundig 10 nec 4 0 heard).0
    × Within 4 (get_data_bo 10 nec 4 heard).0
    × Within 4 (get_data_xmp 10 nec 4 0 heard).0
    × Within 4 (get_data_bits 10 nec 4 0 heard).0
get_data-Within_example = get_data-Within 10 nec 4 0 heard (omega arith)

expect_bit-InArray_example :
    InArray (expectone 10 nec 0 heard).1 × InArray (expectzero 10 nec 0 heard).1
unfolding init_rec_buffer
expect_bit-InArray_example = expect_bit-InArray 10 nec 0 heard (init-InArray _)

-- The buffer after two values.
abbrev two_read : Rbuf
two_read = record heard { cells = pulse 9000 ∷ 4500 ∷ []; rptr = 2; wptr = 2 }

expect_bit-Near_example :
    Near two_read (expectone 10 nec 0 two_read).1 × Near two_read (expectzero 10 nec 0 two_read).1
expect_bit-Near_example = expect_bit-Near 10 nec 0 two_read (omega arith)

clear-InArray_example : InArray (clear_rec_buffer pulses heard).1
unfolding init_rec_buffer
clear-InArray_example = clear-InArray pulses heard (init-InArray _)

abbrev buffered : Rbuf
buffered = record {
  cells = pulse 540 ∷ 1700 ∷ pulse 560 ∷ 600 ∷ [];
  decoded = 0;
  rptr = 0;
  wptr = 4;
  too_long = false;
  is_biphase = false;
  pendingp = 0;
  pendings = 0;
  sum = pos 0;
  last_signal_time = record { tv_sec = 0; tv_usec = 0 };
  answers = [];
  fault = false;
}

abbrev one : Heard
one = record { bit = 1; pulse = 540; space = 1700 }

abbrev nought : Heard
nought = record { bit = 0; pulse = 560; space = 600 }

one-IsHeard : IsHeard 10 nec one
unfolding expect
one-IsHeard = record {
  pulse_length = (omega arith, omega arith);
  space_length = (omega arith, omega arith);
  fits = inl (refl, refl);
}

nought-IsHeard : IsHeard 10 nec nought
unfolding expect
nought-IsHeard = record {
  pulse_length = (omega arith, omega arith);
  space_length = (omega arith, omega arith);
  fits = inr (refl, (refl, refl));
}

nec-IsPulseSpace : IsPulseSpace 10 nec
unfolding is_biphase is_rc5 is_rc6 is_space_first is_goldstar
nec-IsPulseSpace = record {
  not_biphase = refl;
  not_space_first = refl;
  not_goldstar = refl;
  has_trail = omega arith;
  one_pulse = omega arith;
  one_space = omega arith;
}

get_data_bits-heard_example : (get_data_bits 10 nec 2 0 buffered).0 ≡ 2
get_data_bits-heard_example =
    get_data_bits-heard 10 nec (one ∷ nought ∷ []) 0 buffered nec-IsPulseSpace
      (one-IsHeard, (nought-IsHeard, tt))
      (record {
        no_pulse = refl;
        no_space = refl;
        next = (refl, (refl, (refl, (refl, tt))));
        available = omega arith;
      })
      (omega arith)

signal_parts-InArray_example :
    InArray (sync_rec_buffer 10 (some nec) nec heard).2
    × InArray (get_header 10 nec heard).1
    × InArray (get_foot 10 nec heard).1
    × InArray (get_gap 10 nec 1000 heard).1
    × InArray (get_repeat 10 nec heard).1
unfolding heard
signal_parts-InArray_example = signal_parts-InArray 10 nec (some nec) 1000 heard (init-InArray _)
