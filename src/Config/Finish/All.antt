-- ===== src/Config/Finish/All.antt =====
-- The remotes that the reader returns.
use lirc_port_for_mac_os_x.Prelude.{ℕ, List, [], ◌∷◌}
use lirc_port_for_mac_os_x.Remote.{Remote}
use lirc_port_for_mac_os_x.Remote.Flags.{is_serial}
use lirc_port_for_mac_os_x.Transmit.Buffer.{SendBuffer}
use lirc_port_for_mac_os_x.Config.Sort.All.{AllOf, sort_by_bit_count-AllOf}
use lirc_port_for_mac_os_x.Config.Sort.Order.{IsSorted, sort_by_bit_count-sorts}
use lirc_port_for_mac_os_x.Config.Lengths.{calculate_signal_lengths}
use lirc_port_for_mac_os_x.Config.Lengths.Ranges.{IsRanged, calculate_signal_lengths-IsRanged}
use lirc_port_for_mac_os_x.Config.Lengths.Keeps.{relengthed, calculate_signal_lengths_holds}
use lirc_port_for_mac_os_x.Config.Finish.{derive, finish_loop, finish_config}
use lirc_port_for_mac_os_x.Config.Finish.Derived.{IsDerived, derive-IsDerived}

-- A remote that was read: its fields are derived and its lengths are in order.
unfoldable pub IsFinished : Remote → Type 0
IsFinished remote = IsDerived remote × IsRanged remote

unfoldable pub AllFinished : List Remote → Type 0
AllFinished = AllOf IsFinished

-- The lengths are no fields of what is derived.
relengthed-IsDerived :
    (remote : Remote) (t u g k : ℕ) → IsDerived remote → IsDerived (relengthed remote t u g k)
unfolding is_serial
relengthed-IsDerived remote t u g k h = record {
  no_toggle_bit = h.no_toggle_bit;
  few_repeats = h.few_repeats;
  has_bits = h.has_bits;
  has_zero = h.has_zero;
  has_one = h.has_one;
}

finish_loop-AllFinished :
    (remotes : List Remote) (b : SendBuffer) → AllFinished (finish_loop remotes b).0
unfolding finish_loop AllFinished IsFinished
finish_loop-AllFinished [] b = tt
finish_loop-AllFinished (rem ∷ next) b = (
  (
    calculate_signal_lengths_holds IsDerived relengthed-IsDerived (derive rem) b
        (derive-IsDerived rem),
    calculate_signal_lengths-IsRanged (derive rem) b,
  ),
  finish_loop-AllFinished next (calculate_signal_lengths (derive rem) b).1,
)

-- Whatever was read, the remotes that the reader returns are ordered by their number of bits, and
-- each has no obsolete toggle bit, at most as many repeats of a code as of a signal, the timing of
-- a serial port where it is one with a rate of at most a million, and a least total length and a
-- least gap that are at most the greatest ones.
pub finish_config-AllFinished :
    (top_rem : List Remote) (b : SendBuffer)
    → IsSorted (finish_config top_rem b).0 × AllFinished (finish_config top_rem b).0
unfolding finish_config AllFinished
finish_config-AllFinished top_rem b =
    let finished = (finish_loop top_rem b).0 in
    (
      (sort_by_bit_count-sorts finished).0,
      sort_by_bit_count-AllOf IsFinished finished (finish_loop-AllFinished top_rem b),
    )
