-- ===== src/Config/Lengths/Keeps.antt =====
-- What `calculate_signal_lengths` keeps: all that does not speak of lengths.
use lirc_port_for_mac_os_x.Prelude.{ℕ, Bool, true, false, if◌then◌else◌, refl, sym, subst, arith}
use lirc_port_for_mac_os_x.Remote.{Remote}
use lirc_port_for_mac_os_x.Remote.Flags.{is_const}
use lirc_port_for_mac_os_x.Transmit.Buffer.{SendBuffer}
use lirc_port_for_mac_os_x.Config.Lengths.{
  Lengths, start_lengths, end_lengths, measuring, measure_buttons, calculate_signal_lengths,
}
use lirc_port_for_mac_os_x.Config.Lengths.Ranges.{InOrder, Keeps, measure_buttons-Keeps}

-- A remote with other lengths.
abbrev pub relengthed : Remote → ℕ → ℕ → ℕ → ℕ → Remote
relengthed remote t u g k = record remote {
  min_total_signal_length = t;
  max_total_signal_length = u;
  min_gap_length = g;
  max_gap_length = k;
}

module _ (P : Remote → Type 0)
    (free : (remote : Remote) (t u g k : ℕ) → P remote → P (relengthed remote t u g k)) where
  either_holds : (b : Bool) (x y : Remote) → P x → P y → P (if b then x else y)
  either_holds true x y h k = h
  either_holds false x y h k = k

  start_lengths_holds : (remote : Remote) → P remote → P (start_lengths remote)
  unfolding start_lengths
  start_lengths_holds remote h =
      either_holds (is_const remote) _ _ (free remote _ _ _ _ h) (free remote _ _ _ _ h)

  end_lengths_holds : (remote : Remote) (l : Lengths) → P remote → P (end_lengths remote l)
  unfolding end_lengths
  end_lengths_holds remote l h =
      either_holds l.first_sum _ _ (free remote _ _ _ _ h)
        (either_holds (is_const remote) _ _ (free remote _ _ _ _ h) (free remote _ _ _ _ h))

  pub calculate_signal_lengths_holds :
      (remote : Remote) (b : SendBuffer) → P remote → P (calculate_signal_lengths remote b).0
  unfolding calculate_signal_lengths Keeps InOrder
  calculate_signal_lengths_holds remote b h =
      let started = start_lengths remote in
      let measured = measure_buttons remote.codes (measuring started b) in
      let (same, ordered) =
        measure_buttons-Keeps started remote.codes (measuring started b) (refl, omega arith) in
      end_lengths_holds measured.remote measured.lengths
        (subst P (sym same) (start_lengths_holds remote h))
