-- ===== src/Codes/Mapping/Gap.antt =====
-- The gap that `map_gap` expects after a signal.
use lirc_port_for_mac_os_x.Prelude.{ℕ, ◌-◌, ◌≤◌, ◌≡◌, arith, if◌then◌else◌}
use lirc_port_for_mac_os_x.Remote.{Remote, Timeval}
use lirc_port_for_mac_os_x.Remote.Flags.{is_const}
use lirc_port_for_mac_os_x.Remote.Gaps.{min_gap, max_gap, min_gap-le-max_gap}
use lirc_port_for_mac_os_x.Codes.Mapping.{map_gap}

-- The remaining gap is a range. For a remote with constant length its bounds are those of the
-- whole gap less the length of the signal, but not less than 0; for any other remote they are
-- those of the gap, whatever the signal.
pub map_gap-range :
    (resolution : ℕ) (remote : Remote) (start last : Timeval) (signal_length : ℕ)
    → let g = map_gap resolution remote start last signal_length in
      let used = if is_const remote then signal_length else 0 in
      (g.min_remaining_gap ≤ g.max_remaining_gap)
      × (g.min_remaining_gap ≡ min_gap remote - used)
      × (g.max_remaining_gap ≡ max_gap remote - used)
unfolding map_gap
map_gap-range resolution remote start last signal_length = ground (arith, min_gap-le-max_gap remote)
