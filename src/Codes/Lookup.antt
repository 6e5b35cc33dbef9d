-- ===== src/Codes/Lookup.antt =====
-- The searches over the list of remotes in daemons/ir_remote.c. The `next` pointers of the remotes
-- are the order of a list; a code whose name is NULL ends the array `codes`, here the list.
pub mod Ranges
use lirc_port_for_mac_os_x.Prelude.{
  ℕ, zero, suc, ◌+◌, String, same_name, List, [], ◌∷◌, Option, none, some, Bool, true, false, ◌||◌,
  not, ◌&&◌, ltb, ◌==◌, if◌then◌else◌,
}
use lirc_port_for_mac_os_x.Remote.{Remote, Ncode}
use lirc_port_for_mac_os_x.Remote.Tolerance.{upper_limit, lower_limit}

-- `*min_freq` and `*max_freq`.
pub record Frequencies : Type 0 where
  pub min_freq : ℕ
  pub max_freq : ℕ

unfoldable pub widen : Frequencies → ℕ → Frequencies
widen f freq =
    if freq == 0
    then f
    else if ltb f.max_freq freq
    then record f { max_freq = freq }
    else if ltb freq f.min_freq
    then record f { min_freq = freq }
    else f

unfoldable pub frequency_loop : Frequencies → List Remote → Frequencies
unfolding widen
frequency_loop f [] = f
frequency_loop f (scan ∷ rest) = frequency_loop (widen f scan.freq) rest

unfoldable pub get_frequency_range : List Remote → Frequencies
unfolding frequency_loop
get_frequency_range [] = record { min_freq = 0; max_freq = 0 }
get_frequency_range (first ∷ rest) =
    frequency_loop (record { min_freq = first.freq; max_freq = first.freq }) rest

-- What `get_filter_parameters` writes through its pointers.
pub record Filter : Type 0 where
  pub max_gap_length : ℕ
  pub min_pulse_length : ℕ
  pub min_space_length : ℕ
  pub max_pulse_length : ℕ
  pub max_space_length : ℕ

module _ (resolution : ℕ) where
  unfoldable pub filter_step : Filter → Remote → Filter
  filter_step f scan =
      let gap = upper_limit resolution scan scan.max_gap_length in
      let short_pulse = lower_limit resolution scan scan.min_pulse_length in
      let short_space = lower_limit resolution scan scan.min_space_length in
      let long_pulse = upper_limit resolution scan scan.max_pulse_length in
      let long_space = upper_limit resolution scan scan.max_space_length in
      record {
        max_gap_length = if ltb f.max_gap_length gap then gap else f.max_gap_length;
        min_pulse_length =
            if f.min_pulse_length == 0 || ltb short_pulse f.min_pulse_length
            then short_pulse
            else f.min_pulse_length;
        min_space_length =
            if f.min_space_length == 0 || ltb f.min_space_length short_space
            then short_space
            else f.min_space_length;
        max_pulse_length =
            if ltb f.max_pulse_length long_pulse then long_pulse else f.max_pulse_length;
        max_space_length =
            if ltb f.max_space_length long_space then long_space else f.max_space_length;
      }

  unfoldable pub filter_loop : Filter → List Remote → Filter
  unfolding filter_step
  filter_loop f [] = f
  filter_loop f (scan ∷ rest) = filter_loop (filter_step f scan) rest

  unfoldable pub get_filter_parameters : List Remote → Filter
  unfolding filter_loop
  get_filter_parameters remotes =
      filter_loop
        (record {
          max_gap_length = 0;
          min_pulse_length = 0;
          min_space_length = 0;
          max_pulse_length = 0;
          max_space_length = 0;
        })
        remotes

-- Whether the pointer is one of the list.
unfoldable pub is_in_remotes : List Remote → ℕ → Bool
is_in_remotes [] address = false
is_in_remotes (remote ∷ rest) address =
    if remote.address == address then true else is_in_remotes rest address

unfoldable pub get_ir_remote : List Remote → String → Option Remote
get_ir_remote [] name = none
get_ir_remote (all ∷ rest) name =
    if same_name all.name name then some all else get_ir_remote rest name

-- The index of the code, from `i` on.
unfoldable pub code_index : ℕ → List Ncode → String → Option ℕ
code_index i [] name = none
code_index i (all ∷ rest) name =
    if same_name all.name name then some i else code_index (i + 1) rest name

unfoldable pub get_code_by_name : Remote → String → Option ℕ
unfolding code_index
get_code_by_name remote name = code_index 0 remote.codes name
