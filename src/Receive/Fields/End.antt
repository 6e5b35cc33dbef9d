-- ===== src/Receive/Fields/End.antt =====
-- The trail and the gap of a signal that is in the receive buffer.
use lirc_port_for_mac_os_x.Prelude.{
  ℕ, ℤ, zero, suc, pos, negsuc, pos_part, neg_part, ◌+◌, ◌-◌, ◌*◌, ◌/◌, ◌^◌, ◌≤◌, ◌<◌, ◌≡◌, refl,
  ap, ◌∙◌, arith, List, [], ◌∷◌, Bool, true, false, ◌&&◌, ltb, ◌==◌, if◌then◌else◌,
}
use lirc_port_for_mac_os_x.Remote.{Remote}
use lirc_port_for_mac_os_x.Remote.Flags.{is_rcmm, is_const, has_foot, has_flag, no_head_rep}
use lirc_port_for_mac_os_x.Remote.Gaps.{min_gap}
use lirc_port_for_mac_os_x.Remote.Tolerance.{expect, expect_at_least}
use lirc_port_for_mac_os_x.Receive.Buffer.{Rbuf, pulse_bit}
use lirc_port_for_mac_os_x.Receive.Expect.{and_then, sync_pending_pulse, expectpulse}
use lirc_port_for_mac_os_x.Receive.Signal.{remaining, get_trail, get_gap}
use lirc_port_for_mac_os_x.Receive.Data.Heard.{
  Ahead, Took, Took-one, Took-trans, total, next_value, space_value,
}
use lirc_port_for_mac_os_x.Receive.Data.PulseSpace.{expectpulse-heard}
use lirc_port_for_mac_os_x.Receive.Fields.{left_of_gap, gap_after, without_header, end_signal}

-- Nothing was taken off the sum.
pub total_mono : (cells : List ℕ) (n k : ℕ) → total cells n ≤ total cells (k + n)
unfolding total
total_mono cells n zero = let e : 0 + n ≡ n = omega arith in rw e (omega arith)
total_mono cells n (suc k) =
    let e : suc k + n ≡ suc (k + n) = omega arith in rw e (omega (arith, total_mono cells n k))

not_negative : (sum : ℤ) → neg_part sum ≤ pos_part sum → neg_part sum ≡ 0
not_negative (pos n) h = refl
not_negative (negsuc n) h = absurd (omega arith)

-- The sum of a signal that is counted from 0.
pub Took-sum : (b c : Rbuf) (k : ℕ) → Took b c k → b.sum ≡ pos 0 → neg_part c.sum ≡ 0
Took-sum b c k t z =
    let grown : total b.cells b.rptr ≤ total c.cells c.rptr =
      let e : c.rptr ≡ k + b.rptr = omega (arith, t.moved) in
      rw (t.same_cells, e) (total_mono b.cells b.rptr k) in
    not_negative c.sum (omega (arith, t.balanced, grown, ap pos_part z, ap neg_part z))

remaining-le : (gap : ℕ) (sum : ℤ) → neg_part sum ≡ 0 → remaining gap sum ≤ gap
unfolding remaining
remaining-le gap (pos n) h = ground arith
remaining-le gap (negsuc n) h = absurd (omega (arith, h))

left_of_gap-le :
    (remote : Remote) (gap : ℕ) (sum : ℤ) → neg_part sum ≡ 0 → left_of_gap remote gap sum ≤ gap
unfolding left_of_gap
left_of_gap-le remote gap sum h = ground (arith, remaining-le gap sum h)

module _ (resolution : ℕ) (remote : Remote) where
  long_enough : (delta gap : ℕ) → gap ≤ delta → expect_at_least resolution remote delta gap ≡ true
  unfolding expect_at_least
  long_enough delta gap h = ground arith

  get_trail-heard :
      (p : ℕ) (xs : List ℕ) (b : Rbuf)
      → 0 < remote.ptrail
      → 0 < p
      → p < 2 ^ 24
      → expect resolution remote p remote.ptrail ≡ true
      → Ahead b ((pulse_bit + p) ∷ xs)
      → (c : Rbuf) × (get_trail resolution remote b ≡ (true, c)) × Took b c 1
  unfolding get_trail
  get_trail-heard p xs b trail y l e a =
      let (ok, took) = expectpulse-heard resolution remote remote.ptrail p xs b y l a in
      let positive : (remote.ptrail == 0) ≡ false = ground arith in
      let r = expectpulse resolution remote remote.ptrail b in
      (r.1, rw positive (then_clear r (ok ∙ e) took.no_pulse), took)
    where
      then_clear :
          (r : Bool × Rbuf)
          → r.0 ≡ true
          → r.1.pendingp ≡ 0
          → and_then r
              (λ s. if ltb 0 s.pendingp then sync_pending_pulse resolution remote s else (true, s))
            ≡ (true, r.1)
      then_clear (true, s) h z = rw z refl
      then_clear (false, s) h z = absurd (cc)

  get_gap-heard :
      (g gap : ℕ) (xs : List ℕ) (b : Rbuf)
      → 0 < g
      → g < 2 ^ 24
      → gap ≤ g
      → Ahead b (g ∷ xs)
      → (get_gap resolution remote gap b).0 ≡ true
  unfolding get_gap
  get_gap-heard g gap xs b y l h a =
      let (e, took) = next_value (gap - gap * remote.eps / 100) g xs b a in
      let positive : (g == 0) ≡ false = ground arith in
      rw (e, positive, space_value g l) (long_enough g gap h)

  -- A trailing pulse within the tolerance and a gap that is long enough end a signal.
  pub end_signal-heard :
      (header : Bool) (p g k : ℕ) (start b : Rbuf)
      → 0 < remote.ptrail
      → has_foot remote ≡ false
      → has_flag remote no_head_rep ≡ false
      → is_rcmm remote ≡ false
      → 0 < p
      → p < 2 ^ 24
      → expect resolution remote p remote.ptrail ≡ true
      → 0 < g
      → g < 2 ^ 24
      → min_gap remote ≤ g
      → Ahead b ((pulse_bit + p) ∷ g ∷ [])
      → Took start b k
      → start.sum ≡ pos 0
      → (end_signal resolution header remote b).0 ≡ true
  unfolding end_signal without_header gap_after
  end_signal-heard header p g k start b trail foot flag rcmm y l e yg lg gap a t z =
      let (c, found, took) = get_trail-heard p (g ∷ []) b trail y l e a in
      let whole = Took-trans start b c k 1 t took in
      let counted = Took-sum start c (k + 1) whole z in
      let least = left_of_gap-le remote (min_gap remote) c.sum counted in
      let uncut : (header && (is_const remote && has_flag remote no_head_rep)) ≡ false =
        rw flag (no_cut header (is_const remote)) in
      rw (found, foot, uncut, rcmm)
        (get_gap-heard g (left_of_gap remote (min_gap remote) c.sum) [] c yg lg
          (omega (arith, least, gap)) (Took-one (pulse_bit + p) (g ∷ []) b c a took))
    where
      no_cut : (s t : Bool) → (s && (t && false)) ≡ false
      no_cut s t = ground arith
