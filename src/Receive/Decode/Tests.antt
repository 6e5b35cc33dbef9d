-- ===== src/Receive/Decode/Tests.antt =====
-- Whole signals that are received.
use lirc_port_for_mac_os_x.Prelude.{
  ℕ, pos, ◌+◌, ◌≡◌, ◌==◌, if◌then◌else◌, refl, inl, inr, arith, [], ◌∷◌, none, some, false,
}
use mathlib.Core.Option
use lirc_port_for_mac_os_x.Word.{gen_mask}
use lirc_port_for_mac_os_x.Remote.{Remote, Timeval, blank}
use lirc_port_for_mac_os_x.Remote.Flags.{
  is_biphase, is_rc5, is_rc6, is_space_first, is_goldstar, is_rcmm, is_xmp, is_raw, is_grundig,
  is_serial, is_bo, has_foot, has_header, bit_count,
}
use lirc_port_for_mac_os_x.Remote.Gaps.{min_gap}
use lirc_port_for_mac_os_x.Remote.Tolerance.{expect}
use lirc_port_for_mac_os_x.Codes.Mapping.{gen_ir_code}
use lirc_port_for_mac_os_x.Codes.Dispatch.{Received}
use lirc_port_for_mac_os_x.Receive.Buffer.{Rbuf, init_rec_buffer, rewind_rec_buffer}
use lirc_port_for_mac_os_x.Receive.Buffer.Bounds.{init-InArray}
use lirc_port_for_mac_os_x.Receive.Data.Heard.{Heard}
use lirc_port_for_mac_os_x.Receive.Serial.{get_data_serial}
use lirc_port_for_mac_os_x.Receive.Serial.Ends.{get_data_serial-ends}
use lirc_port_for_mac_os_x.Receive.Decode.{mode_mode2, mode_lirccode, receive_decode}
use lirc_port_for_mac_os_x.Receive.Decode.Gaps.{HasRange, receive_decode-HasRange}
use lirc_port_for_mac_os_x.Receive.Decode.Code.{receive_decode-gen_ir_code}
use lirc_port_for_mac_os_x.Receive.Decode.Heard.{Around, FitsRemote, receive_decode-heard}

abbrev start : Timeval
start = record { tv_sec = 0; tv_usec = 0 }

-- A remote with a header, two bits of a code and one of post-data.
abbrev nec : Remote
nec = record blank {
  bits = 2;
  flags = 0x10;
  eps = 30;
  aeps = 100;
  phead = 9000;
  shead = 4500;
  pone = 560;
  sone = 1690;
  pzero = 560;
  szero = 560;
  ptrail = 560;
  post_data_bits = 1;
  gap = 40000;
}

-- Lengths that are a little off.
abbrev measured : Around
measured = record {
  before = 60000;
  head_pulse = 9100;
  head_space = 4400;
  trail = 600;
  after = 41000;
}

abbrev one : Heard
one = record { bit = 1; pulse = 540; space = 1700 }

abbrev nought : Heard
nought = record { bit = 0; pulse = 560; space = 600 }

abbrev pulse : ℕ → ℕ
pulse n = 0x01000000 + n

abbrev buffered : Rbuf
buffered = record {
  cells =
      60000
      ∷ pulse 9100
      ∷ 4400
      ∷ pulse 540
      ∷ 1700
      ∷ pulse 560
      ∷ 600
      ∷ pulse 540
      ∷ 1700
      ∷ pulse 600
      ∷ 41000
      ∷ [];
  decoded = 5;
  rptr = 0;
  wptr = 11;
  too_long = false;
  is_biphase = false;
  pendingp = 0;
  pendings = 0;
  sum = pos 0;
  last_signal_time = start;
  answers = [];
  fault = false;
}

nec-FitsRemote : FitsRemote 10 nec measured
unfolding is_biphase is_rc5 is_rc6 is_space_first is_goldstar is_rcmm is_xmp expect is_raw
    is_grundig is_serial is_bo has_foot has_header min_gap
nec-FitsRemote = record {
  plain = record {
    pulse_space = record {
      not_biphase = refl;
      not_space_first = refl;
      not_goldstar = refl;
      has_trail = omega arith;
      one_pulse = omega arith;
      one_space = omega arith;
    };
    not_rcmm = refl;
    not_grundig = refl;
    not_serial = refl;
    not_bo = refl;
    not_xmp = refl;
    no_lead = refl;
    after_pre = refl;
    before_post = refl;
  };
  not_raw = refl;
  no_foot = refl;
  always_header = refl;
  some_bits = omega arith;
  before_reading = (omega arith, omega arith);
  trail_reading = (omega arith, omega arith);
  after_reading = (omega arith, omega arith);
  head_fits = (omega arith, omega arith, omega arith, omega arith, refl, refl);
  trail_fits = refl;
  after_fits = omega arith;
}

receive_decode-heard_example :
    Option.map
      (λ (d : Received). d.fields)
      (receive_decode 10 100 mode_mode2 0 start none buffered nec).0
    ≡ some (record { pre = 0; code = 2; post = 1 })
unfolding expect has_header rewind_rec_buffer
receive_decode-heard_example =
    receive_decode-heard 10 100 nec measured nec-FitsRemote [] (one ∷ nought ∷ []) (one ∷ [])
      (record {
        pre_heard = tt;
        code_heard = (
          record {
            pulse_length = (omega arith, omega arith);
            space_length = (omega arith, omega arith);
            fits = inl (refl, refl);
          },
          (
            record {
              pulse_length = (omega arith, omega arith);
              space_length = (omega arith, omega arith);
              fits = inr (refl, (refl, refl));
            },
            tt,
          ),
        );
        post_heard = (
          record {
            pulse_length = (omega arith, omega arith);
            space_length = (omega arith, omega arith);
            fits = inl (refl, refl);
          },
          tt,
        );
        pre_bits = refl;
        code_bits = refl;
        post_bits = refl;
        all_bits = omega arith;
      })
      0 start buffered
      (record {
        no_pulse = refl;
        no_space = refl;
        next = (
          refl,
          (refl, (refl, (refl, (refl, (refl, (refl, (refl, (refl, (refl, (refl, tt)))))))))),
        );
        available = omega arith;
      })

receive_decode-gen_ir_code_example :
    Option.map
      (λ (d : Received). d.fields)
      (receive_decode 10 0 mode_lirccode 3 start none buffered nec).0
    ≡ (if 3 == bit_count nec then some (record { pre = 0; code = 2; post = 1 }) else none)
unfolding bit_count is_raw gen_ir_code gen_mask
receive_decode-gen_ir_code_example =
    receive_decode-gen_ir_code 10 0 3 start none buffered nec
      (record { pre = 0; code = 2; post = 1 })
      (record {
        pre_fits = omega arith;
        code_fits = omega arith;
        post_fits = omega arith;
        all_fit = omega arith;
      })
      refl refl

receive_decode-HasRange_example :
    HasRange (receive_decode 10 100 mode_mode2 0 start none buffered nec)
receive_decode-HasRange_example =
    receive_decode-HasRange 10 100 mode_mode2 0 start none buffered nec

-- A serial remote at 1200 baud.
abbrev serial_remote : Remote
serial_remote = record blank {
  bits = 8;
  flags = 0x200;
  eps = 30;
  aeps = 100;
  pzero = 833;
  sone = 833;
  baud = 1200;
  bits_in_byte = 8;
  stop_bits = 2;
}

get_data_serial-ends_example :
    (fuel : ℕ) × (r : ℕ × Rbuf) × ((more : ℕ)
      → get_data_serial 10 serial_remote (fuel + more) 8 (init_rec_buffer []) ≡ some r)
get_data_serial-ends_example =
    get_data_serial-ends 10 serial_remote (omega arith) (omega arith) 8 (init_rec_buffer [])
      (init-InArray [])
