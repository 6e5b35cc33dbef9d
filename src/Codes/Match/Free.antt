-- ===== src/Codes/Match/Free.antt =====
-- The digits of the masks that `get_code` lays over the data before and after the code.
use lirc_port_for_mac_os_x.Prelude.{
  ℕ, ◌+◌, ◌%◌, ◌^◌, ◌≤◌, ◌<◌, ◌≡◌, refl, sym, ap, ◌∙◌, ◌⊎◌, inl, inr, arith, bit_and, bit_or,
  zero-bit_and, bit_or-zero, pow_pos, Bool-cases, ltb→lt, ltb, if◌then◌else◌,
}
use Prim.Native.Nat.{max}
use native.Mathlib.Nat.{div-eq_of_lt}
use lirc_port_for_mac_os_x.Word.{shr, gen_mask}
use lirc_port_for_mac_os_x.Word.Masks.{bit_and-gen_mask}
use lirc_port_for_mac_os_x.Word.Digits.{
  digit, digit-bit_or, digit-shift, digit-mod_below, digit-mod_above,
}
use lirc_port_for_mac_os_x.Remote.{Remote}
use lirc_port_for_mac_os_x.Remote.Flags.{has_toggle_bit_mask, has_ignore_mask}
use lirc_port_for_mac_os_x.Codes.Match.{pre_mask, post_mask}

-- A place of the whole code that may have any digit.
abbrev pub IsFree : Remote → ℕ → Type 0
IsFree remote i = (digit i remote.toggle_bit_mask ≡ 1) ⊎ (digit i remote.ignore_mask ≡ 1)

-- The masks over the data before and after the code are the same without the tests.
module _ (cut : ℕ → ℕ) (cut-zero : cut 0 ≡ 0) where
  tested : (x : ℕ) → (if ltb 0 x then cut x else 0) ≡ cut x
  tested x = elim (Bool-cases (ltb 0 x)) [
    | inl e ↦ rw e refl
    | inr e ↦ let none_set : x ≡ 0 = ground arith in rw (e, none_set) (sym cut-zero)
  ]

  tested_or : (t x : ℕ) → (if ltb 0 x then bit_or t (cut x) else t) ≡ bit_or t (cut x)
  tested_or t x = elim (Bool-cases (ltb 0 x)) [
    | inl e ↦ rw e refl
    | inr e ↦
        let none_set : x ≡ 0 = ground arith in rw (e, none_set, cut-zero) (sym (bit_or-zero t))
  ]

  tested_both :
      (t x : ℕ)
      → (if ltb 0 x
          then bit_or (if ltb 0 t then cut t else 0) (cut x)
          else (if ltb 0 t then cut t else 0))
        ≡ bit_or (cut t) (cut x)
  tested_both t x = tested_or _ x ∙ ap (λ (y : ℕ). bit_or y (cut x)) (tested t)

max_one : (x y : ℕ) → x < 2 → y < 2 → max x y ≡ 1 → (x ≡ 1) ⊎ (y ≡ 1)
max_one x y hx hy e = ground arith

one_max : (x y : ℕ) → x < 2 → y < 2 → (x ≡ 1) ⊎ (y ≡ 1) → max x y ≡ 1
one_max x y hx hy e = ground arith

module _ (remote : Remote) where
  unfoldable pub pre_place : ℕ → ℕ
  pre_place i = remote.bits + remote.post_data_bits + i

  pre_mask-digit :
      (i : ℕ)
      → digit i (pre_mask remote)
        ≡ max (digit (pre_place i) remote.toggle_bit_mask) (digit (pre_place i) remote.ignore_mask)
  unfolding pre_mask has_toggle_bit_mask has_ignore_mask pre_place
  pre_mask-digit i =
      let k = remote.bits + remote.post_data_bits in
      ap (digit i)
        (tested_both (λ x. shr x k) (zero-div k) remote.toggle_bit_mask remote.ignore_mask)
      ∙ digit-bit_or i (shr remote.toggle_bit_mask k) (shr remote.ignore_mask k)
      ∙ ap2 (digit-shift i k remote.toggle_bit_mask) (digit-shift i k remote.ignore_mask)
    where
      zero-div : (k : ℕ) → shr 0 k ≡ 0
      zero-div k = div-eq_of_lt (pow_pos k)

      ap2 : {a b c d : ℕ} → a ≡ b → c ≡ d → max a c ≡ max b d
      ap2 p q = omega arith

  post_mask-or :
      remote.post_data_bits ≤ 64
      → post_mask remote
        ≡ bit_or
            (remote.toggle_bit_mask % 2 ^ remote.post_data_bits)
            (remote.ignore_mask % 2 ^ remote.post_data_bits)
  unfolding post_mask has_toggle_bit_mask has_ignore_mask
  post_mask-or h =
      let p = remote.post_data_bits in
      tested_both (λ x. bit_and x (gen_mask p)) (zero-bit_and (gen_mask p)) remote.toggle_bit_mask
        remote.ignore_mask
      ∙ rw (bit_and-gen_mask p remote.toggle_bit_mask h, bit_and-gen_mask p remote.ignore_mask h)
          refl

  post_mask-below :
      (i : ℕ)
      → remote.post_data_bits ≤ 64
      → i < remote.post_data_bits
      → digit i (post_mask remote)
        ≡ max (digit i remote.toggle_bit_mask) (digit i remote.ignore_mask)
  post_mask-below i h below =
      let p = remote.post_data_bits in
      let t = digit-mod_below i p remote.toggle_bit_mask below in
      let g = digit-mod_below i p remote.ignore_mask below in
      ap (digit i) (post_mask-or h)
      ∙ digit-bit_or i (remote.toggle_bit_mask % 2 ^ p) (remote.ignore_mask % 2 ^ p)
      ∙ rw (t, g) refl

  post_mask-above :
      (i : ℕ)
      → remote.post_data_bits ≤ 64
      → remote.post_data_bits ≤ i
      → digit i (post_mask remote) ≡ 0
  post_mask-above i h above =
      let p = remote.post_data_bits in
      let t = digit-mod_above i p remote.toggle_bit_mask above in
      let g = digit-mod_above i p remote.ignore_mask above in
      ap (digit i) (post_mask-or h)
      ∙ digit-bit_or i (remote.toggle_bit_mask % 2 ^ p) (remote.ignore_mask % 2 ^ p)
      ∙ rw (t, g) refl

  pub pre_mask-IsFree : (i : ℕ) → digit i (pre_mask remote) ≡ 1 → IsFree remote (pre_place i)
  pre_mask-IsFree i e = max_one _ _ (omega arith) (omega arith) (sym (pre_mask-digit i) ∙ e)

  pub IsFree-pre_mask : (i : ℕ) → IsFree remote (pre_place i) → digit i (pre_mask remote) ≡ 1
  IsFree-pre_mask i f =
      pre_mask-digit i
      ∙ one_max (digit (pre_place i) remote.toggle_bit_mask)
          (digit (pre_place i) remote.ignore_mask) (omega arith) (omega arith) f

  pub post_mask-IsFree :
      (i : ℕ)
      → remote.post_data_bits ≤ 64
      → digit i (post_mask remote) ≡ 1
      → (i < remote.post_data_bits) × IsFree remote i
  post_mask-IsFree i h e = elim (Bool-cases (ltb i remote.post_data_bits)) [
    | inl b ↦
        let below = ltb→lt i remote.post_data_bits b in
        (below, max_one _ _ (omega arith) (omega arith) (sym (post_mask-below i h below) ∙ e))
    | inr b ↦
        let above : remote.post_data_bits ≤ i = ground arith in
        absurd (omega (arith, post_mask-above i h above))
  ]

  pub IsFree-post_mask :
      (i : ℕ)
      → remote.post_data_bits ≤ 64
      → (i < remote.post_data_bits) × IsFree remote i
      → digit i (post_mask remote) ≡ 1
  IsFree-post_mask i h (below, f) =
      post_mask-below i h below
      ∙ one_max (digit i remote.toggle_bit_mask) (digit i remote.ignore_mask) (omega arith)
          (omega arith) f
