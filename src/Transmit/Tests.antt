-- ===== src/Transmit/Tests.antt =====
-- An NEC-like remote that is sent, and the theorems on sending at it.
use lirc_port_for_mac_os_x.Prelude.{
  ℕ, ◌%◌, ◌≡◌, ◌≢◌, ◌⊎◌, refl, arith, List, [], ◌∷◌, ◌++◌, Option, none, some, true, false, take,
  replicate, ◌-ℤ◌,
}
use lirc_port_for_mac_os_x.Word.{bits_set, reverse}
use lirc_port_for_mac_os_x.Remote.{Remote, Ncode, blank}
use lirc_port_for_mac_os_x.Remote.Flags.{
  is_grundig, is_goldstar, is_serial, is_bo, is_biphase, is_raw, is_xmp, is_const, is_rcmm,
  is_space_first, has_repeat, has_repeat_gap, has_header, has_foot, has_pre, has_post,
  has_toggle_bit_mask, has_toggle_mask, bit_count,
}
use lirc_port_for_mac_os_x.Remote.Gaps.{min_gap, max_gap}
use lirc_port_for_mac_os_x.Transmit.Buffer.{
  init_send_buffer, clear_send_buffer, sync_send_buffer, send_pulse, send_space, bad_send_buffer,
  flush_send_buffer, check_send_buffer, check_written, check_loop,
}
use lirc_port_for_mac_os_x.Transmit.Buffer.Levels.{pulse, space, levels, trim, alternate}
use lirc_port_for_mac_os_x.Transmit.Buffer.Play.{play, play-levels}
use lirc_port_for_mac_os_x.Transmit.Encode.{
  send_header, send_foot, send_lead, send_trail, send_data, send_pre, send_post, send_repeat,
  send_code,
}
use lirc_port_for_mac_os_x.Transmit.Encode.Order.{send_msb_first, send_data-msb_first}
use lirc_port_for_mac_os_x.Transmit.Send.{
  Sending, Outcome, ready, undefined, init_send, as_given, cannot_send, prepared, send_loop,
  send_round, emit, settle_emitted, settle, remaining_gaps, advance_code, wants_more, synced,
  final_check, step_toggle_mask,
}
use lirc_port_for_mac_os_x.Transmit.Send.Ready.{IsTransmittable, init_send_or_sim-IsTransmittable}
use lirc_port_for_mac_os_x.Transmit.Send.Memory.{InRange}
use lirc_port_for_mac_os_x.Transmit.Send.Safe.{init_send-IsSafe}
use lirc_port_for_mac_os_x.Transmit.Send.Ends.{init_send-ends}

abbrev nec : Remote
nec = record blank {
  bits = 4;
  flags = 0x10;
  eps = 30;
  aeps = 100;
  phead = 9000;
  shead = 4500;
  pone = 560;
  sone = 1690;
  pzero = 560;
  szero = 560;
  ptrail = 560;
  gap = 40000;
}

abbrev button : Ncode
button = record {
  name = "OK";
  code = 0xa;
  length = 0;
  signals = none;
  next = [];
  current = [];
  transmit_state = [];
}

abbrev sent_array : List ℕ
sent_array = 9000 ∷ 4500 ∷ 560 ∷ 1690 ∷ 560 ∷ 560 ∷ 560 ∷ 1690 ∷ 560 ∷ 560 ∷ 560 ∷ []

abbrev result_array : Option (Outcome × Sending) → Option (Outcome × List ℕ)
result_array none = none
result_array (some (o, t)) = some (o, take t.buffer.wptr t.buffer.cells)

-- Opens all that a send computes with.
run : ℕ → Remote → Ncode → Option (Outcome × Sending)
unfolding init_send init_send_buffer cannot_send prepared send_loop send_round emit settle_emitted
    settle remaining_gaps advance_code wants_more synced final_check step_toggle_mask
    clear_send_buffer send_pulse send_space bad_send_buffer flush_send_buffer sync_send_buffer
    check_send_buffer check_written check_loop send_header send_foot send_lead send_trail send_data
    send_pre send_post send_repeat send_code bits_set reverse is_grundig is_goldstar is_serial is_bo
    is_biphase is_raw is_xmp is_const is_rcmm is_space_first has_repeat has_repeat_gap has_header
    has_foot has_pre has_post has_toggle_bit_mask has_toggle_mask bit_count min_gap max_gap
run fuel remote code = init_send fuel true remote code init_send_buffer

-- 0xa is sent from its highest bit: 1, 0, 1, 0.
sends_nec : result_array (run 1 nec button) ≡ some (ready, sent_array)
unfolding run
sends_nec = refl

play-levels_example :
    let played =
      play (space 7 ∷ pulse 3 ∷ pulse 2 ∷ space 4 ∷ []) (clear_send_buffer init_send_buffer) in
    let s = sync_send_buffer played in
    (levels (trim (space 7 ∷ pulse 3 ∷ pulse 2 ∷ space 4 ∷ []))
      ≡ alternate true (take s.wptr s.cells) ++ replicate played.pendings false)
    × ((s.wptr ≡ 0) ⊎ (s.wptr % 2 ≡ 1))
unfolding run
play-levels_example =
    play-levels (space 7 ∷ pulse 3 ∷ pulse 2 ∷ space 4 ∷ []) init_send_buffer refl (omega arith)
      refl refl

send_data-msb_first_example :
    send_data nec 0xa 4 0 init_send_buffer ≡ send_msb_first nec 4 3 0xa init_send_buffer
unfolding run
send_data-msb_first_example =
    send_data-msb_first nec 0xa 4 0 init_send_buffer refl refl (omega arith) (omega arith)

state_of : Option (Outcome × Sending) → Sending
state_of none = as_given nec button init_send_buffer false
state_of (some (o, t)) = t

init_send_or_sim-IsTransmittable_example : IsTransmittable (state_of (run 1 nec button)).buffer
unfolding run state_of
init_send_or_sim-IsTransmittable_example =
    init_send_or_sim-IsTransmittable 1 true nec button init_send_buffer false false
      (state_of (run 1 nec button)) refl

-- Two signals of a raw button, joined: the first is copied from the button's own signals.
abbrev raw_remote : Remote
raw_remote = record nec { flags = 0x1; min_repeat = 1; gap = 9000 }

abbrev raw_button : Ncode
raw_button = record button { length = 3; signals = some (560 ∷ 1690 ∷ 560 ∷ []) }

sends_raw_twice :
    result_array (run 2 raw_remote raw_button)
    ≡ some (ready, 560 ∷ 1690 ∷ 560 ∷ 9000 ∷ 560 ∷ 1690 ∷ 560 ∷ [])
unfolding run ◌-ℤ◌
sends_raw_twice = refl

init_send-IsSafe_example :
    (ready ≢ undefined)
    × ((ready ≢ ready) ⊎ InRange (state_of (run 2 raw_remote raw_button)).buffer)
unfolding run state_of ◌-ℤ◌
init_send-IsSafe_example =
    init_send-IsSafe 2 raw_remote raw_button init_send_buffer
      (state_of (run 2 raw_remote raw_button)) ready refl (omega arith) refl

-- Three repeats want four rounds.
abbrev repeating : Remote
repeating = record nec { min_repeat = 3; gap = 9000 }

init_send-ends_example :
    (r : Outcome × Sending) × (init_send 4 true repeating button init_send_buffer ≡ some r)
unfolding run
init_send-ends_example =
    init_send-ends 4 true repeating button init_send_buffer (omega arith) refl (omega arith)
