-- ===== src/RoundTrip/Tests.antt =====
-- Two bits that are sent and read back.
use lirc_port_for_mac_os_x.Prelude.{none, some, pos, ◌%◌, ◌^◌, ◌≡◌, refl, arith, [], ◌∷◌, false}
use mathlib.Core.Option
use lirc_port_for_mac_os_x.Remote.{Remote, blank}
use lirc_port_for_mac_os_x.Remote.Gaps.{min_gap}
use lirc_port_for_mac_os_x.Codes.Dispatch.{Received}
use lirc_port_for_mac_os_x.Receive.Decode.{mode_mode2, receive_decode}
use lirc_port_for_mac_os_x.Remote.Flags.{
  is_rcmm, is_xmp, is_biphase, is_rc5, is_rc6, is_space_first, is_goldstar, bit_count, is_raw,
  is_grundig, is_serial, is_bo, has_foot, has_header,
}
use lirc_port_for_mac_os_x.Remote.Tolerance.{expect}
use lirc_port_for_mac_os_x.Transmit.Buffer.{init_send_buffer}
use lirc_port_for_mac_os_x.Transmit.Buffer.Play.{play}
use lirc_port_for_mac_os_x.Transmit.Encode.{send_data, send_code}
use lirc_port_for_mac_os_x.Receive.Buffer.{Rbuf, rewind_rec_buffer}
use lirc_port_for_mac_os_x.Receive.Data.{get_data_bits}
use lirc_port_for_mac_os_x.RoundTrip.{sent_bits, signals, SendsPulseSpace, get_data-send_data}
use lirc_port_for_mac_os_x.RoundTrip.Code.{sent_signal, SendsSignal, receive_decode-send_code}

abbrev nec : Remote
nec = record blank {
  bits = 2;
  flags = 0x10;
  eps = 30;
  aeps = 100;
  pone = 560;
  sone = 1690;
  pzero = 560;
  szero = 560;
  ptrail = 560;
}

abbrev delivered : Rbuf
delivered = record {
  cells = 0x01000230 ∷ 1690 ∷ 0x01000230 ∷ 560 ∷ [];
  decoded = 0;
  rptr = 0;
  wptr = 4;
  too_long = false;
  is_biphase = false;
  pendingp = 0;
  pendings = 0;
  sum = pos 0;
  last_signal_time = record { tv_sec = 0; tv_usec = 0 };
  answers = [];
  fault = false;
}

nec-SendsPulseSpace : SendsPulseSpace 10 nec
unfolding is_biphase is_rc5 is_rc6 is_space_first is_goldstar is_rcmm is_xmp expect
nec-SendsPulseSpace = record {
  pulse_space = record {
    not_biphase = refl;
    not_space_first = refl;
    not_goldstar = refl;
    has_trail = omega arith;
    one_pulse = omega arith;
    one_space = omega arith;
  };
  not_rcmm = refl;
  not_xmp = refl;
  no_double = refl;
  no_toggle_bit = refl;
  no_toggle = refl;
  one_below = (omega arith, omega arith);
  zero_pulse = (omega arith, omega arith);
  zero_space = (omega arith, omega arith);
  distinct = refl;
}

get_data-send_data_example :
    (send_data nec 2 2 0 init_send_buffer ≡ play (signals (sent_bits nec 2 2)) init_send_buffer)
    × ((get_data_bits 10 nec 2 0 delivered).0 ≡ 2 % 2 ^ 2)
unfolding bit_count
get_data-send_data_example =
    get_data-send_data 10 nec 2 2 0 init_send_buffer delivered nec-SendsPulseSpace (omega arith)
      (omega arith)
      (record {
        no_pulse = refl;
        no_space = refl;
        next = (refl, (refl, (refl, (refl, tt))));
        available = omega arith;
      })

-- A remote with a header and pre-data, and a signal of it between two gaps.
abbrev headed : Remote
headed = record nec { phead = 9000; shead = 4500; pre_data_bits = 1; pre_data = 1; gap = 40000 }

abbrev signal_delivered : Rbuf
signal_delivered = record delivered {
  cells =
      50000 ∷ 0x01002328 ∷ 4500 ∷ 0x01000230 ∷ 1690 ∷ 0x01000230 ∷ 1690 ∷ 0x01000230 ∷ 560
      ∷ 0x01000230 ∷ 40000 ∷ [];
  wptr = 11;
}

headed-SendsSignal : SendsSignal 10 headed
unfolding is_biphase is_rc5 is_rc6 is_space_first is_goldstar is_rcmm is_xmp expect is_raw
    is_grundig is_serial is_bo has_foot bit_count
headed-SendsSignal = record {
  sends = record {
    pulse_space = record {
      not_biphase = refl;
      not_space_first = refl;
      not_goldstar = refl;
      has_trail = omega arith;
      one_pulse = omega arith;
      one_space = omega arith;
    };
    not_rcmm = refl;
    not_xmp = refl;
    no_double = refl;
    no_toggle_bit = refl;
    no_toggle = refl;
    one_below = (omega arith, omega arith);
    zero_pulse = (omega arith, omega arith);
    zero_space = (omega arith, omega arith);
    distinct = refl;
  };
  not_raw = refl;
  not_grundig = refl;
  not_serial = refl;
  not_bo = refl;
  no_lead = refl;
  after_pre = refl;
  before_post = refl;
  no_foot = refl;
  always_header = refl;
  some_bits = omega arith;
  all_bits = omega arith;
  trail_below = omega arith;
  head_below = (omega arith, omega arith);
}

receive_decode-send_code_example :
    (send_code headed 2 false init_send_buffer ≡ play (sent_signal headed 2) init_send_buffer)
    × (Option.map
          (λ (d : Received). d.fields)
          (receive_decode 10 100 mode_mode2 0
            (record { tv_sec = 0; tv_usec = 0 })
            none
            signal_delivered
            headed).0
        ≡ some (record { pre = 1 % 2 ^ 1; code = 2 % 2 ^ 2; post = 0 % 2 ^ 0 }))
unfolding has_header min_gap rewind_rec_buffer
receive_decode-send_code_example =
    receive_decode-send_code 10 headed headed-SendsSignal 100 0 (record { tv_sec = 0; tv_usec = 0 })
      2 50000 40000 init_send_buffer signal_delivered (omega arith, omega arith)
      (omega arith, omega arith) (omega arith)
      (record {
        no_pulse = refl;
        no_space = refl;
        next = (
          refl,
          (refl, (refl, (refl, (refl, (refl, (refl, (refl, (refl, (refl, (refl, tt)))))))))),
        );
        available = omega arith;
      })
