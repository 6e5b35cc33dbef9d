-- ===== src/Config/Lengths/Ranges.antt =====
-- The ranges of the lengths that `calculate_signal_lengths` derives.
use lirc_port_for_mac_os_x.Prelude.{
  ℕ, ℤ, pos, pos_part, neg_part, ◌+◌, ◌≤◌, List, [], ◌∷◌, Option, none, some, Bool, true, false,
  ltb_ℤ, ◌+ℤ◌, ◌-ℤ◌, add_lirc, if◌then◌else◌, ◌≡◌, refl, sym, ap, subst, ◌∙◌, arith, -ℤ_parts,
}
use mathlib.Core.Option.{some-injective}
use lirc_port_for_mac_os_x.Remote.{Remote, Ncode}
use lirc_port_for_mac_os_x.Remote.Flags.{is_const, has_flag, const_length}
use lirc_port_for_mac_os_x.Remote.Gaps.{min_gap, max_gap, min_gap-le-max_gap}
use lirc_port_for_mac_os_x.Transmit.Buffer.{SendBuffer, written}
use lirc_port_for_mac_os_x.Transmit.Send.{Outcome, ready, refused, undefined, Sending}
use lirc_port_for_mac_os_x.Config.Lengths.Simulated.{EndsWith, init_sim-EndsWith}
use lirc_port_for_mac_os_x.Config.Lengths.{
  Lengths, Measuring, add_sum, add_entries, add_signal, lengths_after, after_sim, measure,
  measure_codes, measure_buttons, with_total, with_gap, gap_from_total, total_from_gap,
  start_lengths, end_lengths, measuring, calculate_signal_lengths,
}

-- a ≤ b on integers.
abbrev LeqParts : ℤ → ℤ → Type 0
LeqParts a b = pos_part a + neg_part b ≤ pos_part b + neg_part a

-- The shortest signal is not longer than the longest.
unfoldable pub InOrder : Lengths → Type 0
InOrder l = LeqParts l.min_signal_length l.max_signal_length

add_sum-InOrder : (sum : ℤ) (l : Lengths) → InOrder l → InOrder (add_sum sum l)
unfolding InOrder add_sum
add_sum-InOrder sum l h = ground arith

add_entries-InOrder :
    (is_space : Bool) (xs : List ℕ) (l : Lengths) → InOrder l → InOrder (add_entries is_space xs l)
unfolding InOrder add_entries
add_entries-InOrder is_space [] l h = h
add_entries-InOrder true (x ∷ xs) l h = add_entries-InOrder false xs _ (ground arith)
add_entries-InOrder false (x ∷ xs) l h = add_entries-InOrder true xs _ (ground arith)

-- For a remote of constant length, the total length is the gap, and for another the gap is.
pub record IsRanged (remote : Remote) : Type 0 where
  pub total : remote.min_total_signal_length ≤ remote.max_total_signal_length
  pub gaps : remote.min_gap_length ≤ remote.max_gap_length

-- What the function has set before it measures.
unfoldable HasStarted : Remote → Type 0
HasStarted remote =
    (is_const remote ≡ true → remote.min_total_signal_length ≤ remote.max_total_signal_length)
    × (is_const remote ≡ false → remote.min_gap_length ≤ remote.max_gap_length)

start_lengths-HasStarted : (remote : Remote) → HasStarted (start_lengths remote)
unfolding HasStarted start_lengths is_const
start_lengths-HasStarted remote = by_const (has_flag remote const_length) refl
  where
    by_const :
        (b : Bool)
        → has_flag remote const_length ≡ b
        → HasStarted (if b then with_total remote else with_gap remote)
    by_const true e = (λ t. min_gap-le-max_gap remote, λ f. ground arith)
    by_const false e = (λ t. ground arith, λ f. min_gap-le-max_gap remote)

between_mono :
    (a b : ℕ) (x y : ℤ)
    → a ≤ b
    → LeqParts x y
    → (if ltb_ℤ y (pos a) then pos_part (pos a -ℤ y) else 0)
      ≤ (if ltb_ℤ x (pos b) then pos_part (pos b -ℤ x) else 0)
between_mono a b x y l h = ground (arith, -ℤ_parts (pos a) y, -ℤ_parts (pos b) x)

sum_mono :
    (a b : ℕ) (x y : ℤ) → a ≤ b → LeqParts x y → pos_part (add_lirc x a) ≤ pos_part (add_lirc y b)
unfolding ◌+ℤ◌
sum_mono a b x y l h = ground arith

end_lengths-IsRanged :
    (remote : Remote) (l : Lengths)
    → InOrder l
    → HasStarted remote
    → IsRanged (end_lengths remote l)
unfolding InOrder end_lengths HasStarted is_const min_gap max_gap
end_lengths-IsRanged remote l h (total, gaps) =
    by_tests l.first_sum (has_flag remote const_length) refl
  where
    by_tests :
        (first const : Bool)
        → has_flag remote const_length ≡ const
        → IsRanged (
            if first
            then with_gap (with_total remote)
            else if const
            then gap_from_total remote l
            else total_from_gap remote l)
    by_tests true const e = record {
      total = min_gap-le-max_gap remote;
      gaps = min_gap-le-max_gap remote;
    }
    by_tests false true e = record {
      total = total e;
      gaps =
          between_mono remote.min_total_signal_length remote.max_total_signal_length
            l.min_signal_length l.max_signal_length (total e) h;
    }
    by_tests false false e = record {
      total =
          sum_mono remote.min_gap_length remote.max_gap_length l.min_signal_length
            l.max_signal_length (gaps e) h;
      gaps = gaps e;
    }

-- What the loops keep.
unfoldable pub Keeps : Remote → Measuring → Type 0
Keeps remote m = (m.remote ≡ remote) × InOrder m.lengths

lengths_after-InOrder :
    (outcome : Outcome) (b : SendBuffer) (l : Lengths)
    → InOrder l
    → InOrder (lengths_after outcome b l)
unfolding add_signal
lengths_after-InOrder ready b l h =
    add_entries-InOrder false (written b) (add_sum b.sum l) (add_sum-InOrder b.sum l h)
lengths_after-InOrder refused b l h = h
lengths_after-InOrder undefined b l h = h

after_sim-Keeps :
    (remote : Remote) (m : Measuring) (o : Option (Outcome × Sending))
    → Keeps remote m
    → EndsWith m.remote o
    → Keeps remote (after_sim m o)
unfolding Keeps EndsWith
after_sim-Keeps remote m none h e = h
after_sim-Keeps remote m (some (outcome, t)) (same, h) (o, u, e, k) = (
  ap (λ (r : Outcome × Sending). r.1.remote) (some-injective _ _ e) ∙ k ∙ same,
  lengths_after-InOrder outcome t.buffer m.lengths h,
)

measure-Keeps :
    (remote : Remote) (repeat : Bool) (m : Measuring)
    → Keeps remote m
    → Keeps remote (measure repeat m)
unfolding measure
measure-Keeps remote repeat m h =
    after_sim-Keeps remote m _ h (init_sim-EndsWith m.remote m.code m.buffer repeat)

measure_codes-Keeps :
    (remote : Remote) (values : List ℕ) (m : Measuring)
    → Keeps remote m
    → Keeps remote (measure_codes values m)
unfolding measure_codes Keeps
measure_codes-Keeps remote [] m h = h
measure_codes-Keeps remote (value ∷ next) m h =
    measure_codes-Keeps remote next _ (measure-Keeps remote true _ (measure-Keeps remote false _ h))

pub measure_buttons-Keeps :
    (remote : Remote) (codes : List Ncode) (m : Measuring)
    → Keeps remote m
    → Keeps remote (measure_buttons codes m)
unfolding measure_buttons Keeps
measure_buttons-Keeps remote [] m h = h
measure_buttons-Keeps remote (c ∷ codes) m h =
    measure_buttons-Keeps remote codes _
      (measure_codes-Keeps remote (c.code ∷ c.next) (record m { code = c }) h)

-- Whatever the buttons of a remote send, calculate_signal_lengths gives it a least total length and
-- a least gap that are at most the greatest ones.
pub calculate_signal_lengths-IsRanged :
    (remote : Remote) (b : SendBuffer) → IsRanged (calculate_signal_lengths remote b).0
unfolding calculate_signal_lengths Keeps InOrder
calculate_signal_lengths-IsRanged remote b =
    let started = start_lengths remote in
    let (same, ordered) =
      measure_buttons-Keeps started remote.codes (measuring started b) (refl, omega arith) in
    let measured = measure_buttons remote.codes (measuring started b) in
    end_lengths-IsRanged measured.remote measured.lengths ordered
      (subst HasStarted (sym same) (start_lengths-HasStarted remote))
