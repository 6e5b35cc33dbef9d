-- ===== src/Config/Lengths.antt =====
-- `calculate_signal_lengths` of daemons/config_file.c. Each button is simulated without and with
-- the repeat; the simulation takes one round of the loop of `init_send`. `repeat_remote` does not
-- matter to a simulation. The differences and sums of durations are taken to fit a `lirc_t`, and
-- what is stored of a total that is below 0 is 0.
pub mod Simulated
pub mod Ranges
pub mod Keeps
use lirc_port_for_mac_os_x.Prelude.{
  ℕ, ℤ, pos, pos_part, neg_part, ◌+◌, List, [], ◌∷◌, Option, none, some, Bool, true, false, ◌||◌,
  ltb_ℤ, add_lirc, ◌-ℤ◌, ltb, ◌==◌, if◌then◌else◌,
}
use lirc_port_for_mac_os_x.Remote.{Remote, Ncode}
use lirc_port_for_mac_os_x.Remote.Flags.{is_const}
use lirc_port_for_mac_os_x.Remote.Gaps.{min_gap, max_gap}
use lirc_port_for_mac_os_x.Transmit.Buffer.{SendBuffer, written}
use lirc_port_for_mac_os_x.Transmit.Send.{Outcome, ready, refused, undefined, Sending, init_sim}

pub record Lengths : Type 0 where
  pub min_signal_length : ℤ
  pub max_signal_length : ℤ
  pub max_pulse : ℕ
  pub max_space : ℕ
  pub first_sum : Bool

-- The locals of the function, with the globals that the simulation changes.
pub record Measuring : Type 0 where
  pub remote : Remote
  pub code : Ncode
  pub buffer : SendBuffer
  pub lengths : Lengths

abbrev pub no_lengths : Lengths
no_lengths = record {
  min_signal_length = pos 0;
  max_signal_length = pos 0;
  max_pulse = 0;
  max_space = 0;
  first_sum = true;
}

abbrev pub is_zero_sum : ℤ → Bool
is_zero_sum sum = pos_part sum + neg_part sum == 0

unfoldable pub add_sum : ℤ → Lengths → Lengths
add_sum sum l = if is_zero_sum sum then l else record l {
  min_signal_length =
      if l.first_sum || ltb_ℤ sum l.min_signal_length then sum else l.min_signal_length;
  max_signal_length =
      if l.first_sum || ltb_ℤ l.max_signal_length sum then sum else l.max_signal_length;
  first_sum = false;
}

-- The entries of the send buffer, which are pulses and spaces in turn.
unfoldable pub add_entries : Bool → List ℕ → Lengths → Lengths
add_entries is_space [] l = l
add_entries true (x ∷ xs) l =
    add_entries false xs (if ltb l.max_space x then record l { max_space = x } else l)
add_entries false (x ∷ xs) l =
    add_entries true xs (if ltb l.max_pulse x then record l { max_pulse = x } else l)

unfoldable pub add_signal : SendBuffer → Lengths → Lengths
unfolding add_sum add_entries
add_signal b l = add_entries false (written b) (add_sum b.sum l)

abbrev pub lengths_after : Outcome → SendBuffer → Lengths → Lengths
lengths_after ready b l = add_signal b l
lengths_after refused b l = l
lengths_after undefined b l = l

abbrev pub after_sim : Measuring → Option (Outcome × Sending) → Measuring
after_sim m none = m
after_sim m (some (outcome, t)) = record {
  remote = t.remote;
  code = t.code;
  buffer = t.buffer;
  lengths = lengths_after outcome t.buffer m.lengths;
}

unfoldable pub measure : Bool → Measuring → Measuring
measure repeat m = after_sim m (init_sim 1 true m.remote m.code m.buffer repeat)

-- The codes of a button: its own and those of its nodes.
unfoldable pub measure_codes : List ℕ → Measuring → Measuring
unfolding measure
measure_codes [] m = m
measure_codes (value ∷ next) m =
    let m0 = measure false (record m { code = record m.code { code = value } }) in
    measure_codes next (measure true m0)

unfoldable pub measure_buttons : List Ncode → Measuring → Measuring
unfolding measure_codes
measure_buttons [] m = m
measure_buttons (c ∷ codes) m =
    measure_buttons codes (measure_codes (c.code ∷ c.next) (record m { code = c }))

-- `*_total_signal_length` and `*_gap_length` set to the range of the gap.
abbrev pub with_total : Remote → Remote
with_total remote = record remote {
  min_total_signal_length = min_gap remote;
  max_total_signal_length = max_gap remote;
}

abbrev pub with_gap : Remote → Remote
with_gap remote = record remote { min_gap_length = min_gap remote; max_gap_length = max_gap remote }

unfoldable pub start_lengths : Remote → Remote
start_lengths remote = if is_const remote then with_total remote else with_gap remote

-- What is left of the total length after the longest signal, and after the shortest.
abbrev pub gap_from_total : Remote → Lengths → Remote
gap_from_total remote l = record remote {
  min_gap_length =
      if ltb_ℤ l.max_signal_length (pos remote.min_total_signal_length)
      then pos_part (pos remote.min_total_signal_length -ℤ l.max_signal_length)
      else 0;
  max_gap_length =
      if ltb_ℤ l.min_signal_length (pos remote.max_total_signal_length)
      then pos_part (pos remote.max_total_signal_length -ℤ l.min_signal_length)
      else 0;
}

abbrev pub total_from_gap : Remote → Lengths → Remote
total_from_gap remote l = record remote {
  min_total_signal_length = pos_part (add_lirc l.min_signal_length remote.min_gap_length);
  max_total_signal_length = pos_part (add_lirc l.max_signal_length remote.max_gap_length);
}

unfoldable pub end_lengths : Remote → Lengths → Remote
end_lengths remote l =
    if l.first_sum
    then with_gap (with_total remote)
    else if is_const remote
    then gap_from_total remote l
    else total_from_gap remote l

-- The button that the loop starts from does not matter: each round sets it.
abbrev pub measuring : Remote → SendBuffer → Measuring
measuring remote b = record {
  remote = remote;
  code = record {
    name = "";
    code = 0;
    length = 0;
    signals = none;
    next = [];
    current = [];
    transmit_state = [];
  };
  buffer = b;
  lengths = no_lengths;
}

unfoldable pub calculate_signal_lengths : Remote → SendBuffer → Remote × SendBuffer
unfolding start_lengths measure_buttons end_lengths
calculate_signal_lengths remote b =
    let m = measure_buttons remote.codes (measuring (start_lengths remote) b) in
    (end_lengths m.remote m.lengths, m.buffer)
