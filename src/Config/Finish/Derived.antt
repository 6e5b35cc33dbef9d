-- ===== src/Config/Finish/Derived.antt =====
-- What holds of a remote after the steps that derive its fields.
use native.Mathlib.Nat.{div-eq-sub-div}
use lirc_port_for_mac_os_x.Prelude.{
  ℕ, ◌+◌, ◌/◌, ◌≤◌, ◌<◌, Bool, true, false, ◌&&◌, ◌||◌, not, ltb, leb, ◌⊎◌, inl, inr, refl,
  if◌then◌else◌, ◌≡◌, ◌∙◌, arith,
}
use lirc_port_for_mac_os_x.Remote.{Remote}
use lirc_port_for_mac_os_x.Remote.Flags.{is_serial, has_repeat}
use lirc_port_for_mac_os_x.Config.Finish.{
  kick_reverse, set_rc6_mask, set_toggle_bit_mask, set_toggle_state, set_serial,
  check_min_code_repeat, derive,
}

-- The obsolete toggle bit is replaced by a mask, the repeats of a code are within the repeats of a
-- signal, and a serial port has bits in a byte and, at a rate that a microsecond can hold, a length
-- for a zero and for a one.
pub record IsDerived (remote : Remote) : Type 0 where
  pub no_toggle_bit : remote.toggle_bit ≡ 0
  pub few_repeats : remote.min_code_repeat ≤ remote.min_repeat
  pub has_bits : (is_serial remote ≡ false) ⊎ (0 < remote.bits_in_byte)
  pub has_zero :
      (is_serial remote ≡ false)
      ⊎ ((remote.baud ≡ 0) ⊎ ((1000000 < remote.baud) ⊎ (0 < remote.pzero + remote.szero)))
  pub has_one :
      (is_serial remote ≡ false)
      ⊎ ((remote.baud ≡ 0) ⊎ ((1000000 < remote.baud) ⊎ (0 < remote.pone + remote.sone)))

or_else : (b : Bool) (P : Type 0) → (b ≡ true → P) → (b ≡ false) ⊎ P
or_else true P f = inr (f refl)
or_else false P f = inl refl

rate_or_else :
    (baud : ℕ) (P : Type 0) → (0 < baud → baud ≤ 1000000 → P) → (baud ≡ 0) ⊎ ((1000000 < baud) ⊎ P)
rate_or_else baud P f =
    elim (or_else (ltb 0 baud) ((1000000 < baud) ⊎ P) (λ e.
      elim (or_else (leb baud 1000000) P (λ l. f (ground arith) (ground arith))) [
        | inl g ↦ inl (ground arith)
        | inr x ↦ inr x
      ])) [ inl e ↦ inl (ground arith) | inr x ↦ inr x ]

set_toggle_bit_mask-zero : (rem : Remote) → (set_toggle_bit_mask rem).toggle_bit ≡ 0
unfolding set_toggle_bit_mask
set_toggle_bit_mask-zero rem = ground arith

set_toggle_state-keeps : (rem : Remote) → (set_toggle_state rem).toggle_bit ≡ rem.toggle_bit
unfolding set_toggle_state
set_toggle_state-keeps rem = ground arith

set_serial-keeps : (rem : Remote) → (set_serial rem).toggle_bit ≡ rem.toggle_bit
unfolding set_serial
set_serial-keeps rem = ground arith

check-keeps : (rem : Remote) → (check_min_code_repeat rem).toggle_bit ≡ rem.toggle_bit
unfolding check_min_code_repeat
check-keeps rem = ground arith

base-pos : (baud : ℕ) → 0 < baud → baud ≤ 1000000 → 0 < 1000000 / baud
base-pos baud h l = rw (div-eq-sub-div h l) (omega arith)

check-few :
    (rem : Remote)
    → (check_min_code_repeat rem).min_code_repeat ≤ (check_min_code_repeat rem).min_repeat
unfolding check_min_code_repeat has_repeat
check-few rem = ground arith

-- The timing of a serial port.
record HasTiming (rem : Remote) : Type 0 where
  has_bits : is_serial rem ≡ true → 0 < rem.bits_in_byte
  has_zero : is_serial rem ≡ true → 0 < rem.baud → rem.baud ≤ 1000000 → 0 < rem.pzero + rem.szero
  has_one : is_serial rem ≡ true → 0 < rem.baud → rem.baud ≤ 1000000 → 0 < rem.pone + rem.sone

set_serial-HasTiming : (rem : Remote) → HasTiming (set_serial rem)
unfolding set_serial is_serial
set_serial-HasTiming rem = record {
  has_bits = λ s. ground arith;
  has_zero = λ s h l. ground (arith, base-pos rem.baud);
  has_one = λ s h l. ground (arith, base-pos rem.baud);
}

check-HasTiming : (rem : Remote) → HasTiming rem → HasTiming (check_min_code_repeat rem)
unfolding check_min_code_repeat is_serial
check-HasTiming rem h =
    by_test (
      ltb 0 rem.min_code_repeat && (not (has_repeat rem) || ltb rem.min_repeat rem.min_code_repeat))
  where
    by_test : (b : Bool) → HasTiming (if b then record rem { min_code_repeat = 0 } else rem)
    by_test true = record { has_bits = h.has_bits; has_zero = h.has_zero; has_one = h.has_one }
    by_test false = h

-- Whatever the file says of a remote, what is derived from it has no obsolete toggle bit, at most
-- as many repeats of a code as of a signal, and for a serial port a number of bits in a byte and,
-- at a rate of at most a million, a length for a zero and for a one.
pub derive-IsDerived : (rem : Remote) → IsDerived (derive rem)
unfolding derive
derive-IsDerived rem =
    let masked = set_toggle_bit_mask (set_rc6_mask (kick_reverse rem)) in
    let timed = set_serial (set_toggle_state masked) in
    let timing = check-HasTiming timed (set_serial-HasTiming (set_toggle_state masked)) in
    record {
      no_toggle_bit =
          check-keeps timed
          ∙ set_serial-keeps (set_toggle_state masked)
          ∙ set_toggle_state-keeps masked
          ∙ set_toggle_bit_mask-zero (set_rc6_mask (kick_reverse rem));
      few_repeats = check-few timed;
      has_bits = or_else _ _ timing.has_bits;
      has_zero = or_else _ _ (λ s. rate_or_else _ _ (timing.has_zero s));
      has_one = or_else _ _ (λ s. rate_or_else _ _ (timing.has_one s));
    }
