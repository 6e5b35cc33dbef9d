-- ===== src/Transmit/Encode/Order.antt =====
-- In which order and with which toggling `send_data` sends the bits of a code.
use native.Mathlib.Nat.{pow-suc}
use lirc_port_for_mac_os_x.Prelude.{
  ℕ, zero, suc, ◌+◌, ◌-◌, ◌*◌, ◌/◌, ◌%◌, ◌^◌, ◌≤◌, ◌<◌, ◌≡◌, refl, ap, ◌∙◌, arith, bit_and, false,
  ◌&&◌, ◌==◌, if◌then◌else◌, bit_and-one, bit_xor-one, bit_or-one, bit_and-clear_lowest, pow_mono,
}
use lirc_port_for_mac_os_x.Word.{code_mod, shl, shr, complement, is_set, bits_set}
use lirc_port_for_mac_os_x.Word.Shift.{shl_bit}
use lirc_port_for_mac_os_x.Word.Reverse.{mirrored, mirrored-lt, mirrored-suc, reverse-eq-mirrored}
use lirc_port_for_mac_os_x.Remote.{Remote}
use lirc_port_for_mac_os_x.Remote.Flags.{
  bit_count, has_toggle_bit_mask, has_toggle_mask, is_rcmm, is_xmp,
}
use lirc_port_for_mac_os_x.Transmit.Buffer.{SendBuffer}
use lirc_port_for_mac_os_x.Transmit.Encode.{
  apply_toggle_bit_mask, apply_toggle_mask, send_one, send_zero, send_bit, send_bits_loop,
  send_data,
}

module _ (remote : Remote) where
  -- The digit that stands for one of the code after the toggle bit mask, whose single bit is
  -- replaced by the state and whose several bits are inverted by it.
  abbrev pub toggle_bit_digit : ℕ → ℕ → ℕ
  toggle_bit_digit mask digit =
      let state = is_set (bit_and remote.toggle_bit_mask_state mask) in
      if has_toggle_bit_mask remote && is_set (bit_and mask remote.toggle_bit_mask)
      then if bits_set remote.toggle_bit_mask == 1
        then if state then 1 else 0
        else if state
        then 1 - digit
        else digit
      else digit

  -- The same after the toggle mask, which inverts its bits at an odd state.
  abbrev pub toggle_digit : ℕ → ℕ → ℕ
  toggle_digit mask digit =
      if has_toggle_mask remote
        && is_set (bit_and mask remote.toggle_mask)
        && is_set (remote.toggle_mask_state % 2)
      then 1 - digit
      else digit

  toggle_bit_lowest :
      (mask x : ℕ)
      → x < code_mod
      → apply_toggle_bit_mask remote mask x ≡ x / 2 * 2 + toggle_bit_digit mask (x % 2)
  unfolding apply_toggle_bit_mask
  toggle_bit_lowest mask x h =
      ground (arith, bit_xor-one x, bit_and-clear_lowest x h, bit_or-one (bit_and x (complement 1)))

  toggle_lowest :
      (mask x : ℕ) → apply_toggle_mask remote mask x ≡ x / 2 * 2 + toggle_digit mask (x % 2)
  unfolding apply_toggle_mask
  toggle_lowest mask x = ground (arith, bit_xor-one x)

  toggle_bit_digit-le : (mask digit : ℕ) → digit ≤ 1 → toggle_bit_digit mask digit ≤ 1
  toggle_bit_digit-le mask digit h = ground arith

  toggle_digit-le : (mask digit : ℕ) → digit ≤ 1 → toggle_digit mask digit ≤ 1
  toggle_digit-le mask digit h = ground arith

  -- The bits of a code from the highest of `n` down to the lowest. The bit that is sent when `top`
  -- bits of the whole signal are still to come has the mask `1 << top`.
  abbrev pub send_digit : ℕ → ℕ → SendBuffer → SendBuffer
  send_digit mask digit b =
      if is_set (toggle_digit mask (toggle_bit_digit mask digit))
      then send_one remote mask b
      else send_zero remote mask b

  abbrev pub send_msb_first : ℕ → ℕ → ℕ → SendBuffer → SendBuffer
  send_msb_first zero top code b = b
  send_msb_first (suc n) top code b =
      send_msb_first n (top - 1) code (send_digit (2 ^ top) (code / 2 ^ n % 2) b)

  send_bit-eq-digit :
      (mask q digit : ℕ) (b : SendBuffer)
      → digit ≤ 1
      → send_bit remote mask (q * 2 + digit) b
        ≡ (if is_set digit then send_one remote mask b else send_zero remote mask b)
  unfolding send_bit
  send_bit-eq-digit mask q digit b h = rw (bit_and-one (q * 2 + digit), low) refl
    where
      low : (q * 2 + digit) % 2 ≡ digit
      low = omega arith

  toggle_parts :
      (mask q digit : ℕ)
      → digit ≤ 1
      → apply_toggle_mask remote mask (q * 2 + digit) ≡ q * 2 + toggle_digit mask digit
  toggle_parts mask q digit h = rw (toggle_lowest mask (q * 2 + digit), high, low) refl
    where
      high : (q * 2 + digit) / 2 ≡ q
      high = omega arith

      low : (q * 2 + digit) % 2 ≡ digit
      low = omega arith

  both_toggles :
      (mask x : ℕ)
      → x < code_mod
      → apply_toggle_mask remote mask (apply_toggle_bit_mask remote mask x)
        ≡ x / 2 * 2 + toggle_digit mask (toggle_bit_digit mask (x % 2))
  both_toggles mask x h =
      ap (apply_toggle_mask remote mask) (toggle_bit_lowest mask x h)
      ∙ toggle_parts mask (x / 2) (toggle_bit_digit mask (x % 2))
          (toggle_bit_digit-le mask (x % 2) (omega arith))

  -- One round of the loop, on a code whose mirror image is a lowest digit and a rest.
  loop_round :
      (n mask x : ℕ) (b : SendBuffer)
      → x < code_mod
      → send_bits_loop remote (suc n) mask x b
        ≡ send_bits_loop remote n (shr mask 1) (x / 2) (send_digit mask (x % 2) b)
  unfolding send_bits_loop
  loop_round n mask x b h =
      rw (both_toggles mask x h, halved)
        (ap (send_bits_loop remote n (shr mask 1) (x / 2))
          (send_bit-eq-digit mask (x / 2) sent b sent-le))
    where
      sent : ℕ
      sent = toggle_digit mask (toggle_bit_digit mask (x % 2))

      sent-le : sent ≤ 1
      sent-le =
          toggle_digit-le mask (toggle_bit_digit mask (x % 2))
            (toggle_bit_digit-le mask (x % 2) (omega arith))

      halved : shr (x / 2 * 2 + sent) 1 ≡ x / 2
      halved = omega (arith, sent-le)

  mirrored_round :
      (n mask code : ℕ) (b : SendBuffer)
      → suc n ≤ 64
      → send_bits_loop remote (suc n) mask (mirrored (suc n) code) b
        ≡ send_bits_loop remote n
            (shr mask 1)
            (mirrored n code)
            (send_digit mask (code / 2 ^ n % 2) b)
  mirrored_round n mask code b h =
      loop_round n mask (mirrored (suc n) code) b
        (omega (arith, mirrored-lt (suc n) code, pow_mono (suc n) 64 h))
      ∙ ap
          (λ q.
            send_bits_loop remote n (shr mask 1) q (send_digit mask (mirrored (suc n) code % 2) b))
          rest
      ∙ ap (λ d. send_bits_loop remote n (shr mask 1) (mirrored n code) (send_digit mask d b))
          lowest
    where
      rest : mirrored (suc n) code / 2 ≡ mirrored n code
      rest = omega (arith, mirrored-suc n code)

      lowest : mirrored (suc n) code % 2 ≡ code / 2 ^ n % 2
      lowest = omega (arith, mirrored-suc n code)

  send_bits_loop-msb :
      (n top code : ℕ) (b : SendBuffer)
      → n ≤ top + 1
      → n ≤ 64
      → send_bits_loop remote n (2 ^ top) (mirrored n code) b ≡ send_msb_first n top code b
  unfolding send_bits_loop
  send_bits_loop-msb zero top code b h k = refl
  send_bits_loop-msb (suc zero) top code b h k = mirrored_round zero (2 ^ top) code b k
  send_bits_loop-msb (suc (suc n)) zero code b h k = absurd (omega arith)
  send_bits_loop-msb (suc (suc n)) (suc top) code b h k =
      mirrored_round (suc n) (2 ^ suc top) code b k
      ∙ ap
          (λ m.
            send_bits_loop remote (suc n) m (mirrored (suc n) code)
              (send_digit (2 ^ suc top) (code / 2 ^ suc n % 2) b))
          halved
      ∙ send_bits_loop-msb (suc n) top code (send_digit (2 ^ suc top) (code / 2 ^ suc n % 2) b)
          (omega arith) (omega arith)
      ∙ ap (λ t. send_msb_first (suc n) t code (send_digit (2 ^ suc top) (code / 2 ^ suc n % 2) b))
          before
    where
      halved : shr (2 ^ suc top) 1 ≡ 2 ^ top
      halved = omega (arith, pow-suc 2 top)

      before : top ≡ suc top - 1
      before = omega arith

  -- For a remote whose protocol is neither RC-MM nor XMP, and a field of `bits` bits that ends
  -- within the at most 64 bits of the whole signal, `send_data` sends the bits of the field from
  -- the highest to the lowest, each as the pulse and space of a one or a zero. A bit under the
  -- toggle bit mask is sent as, or inverted by, the toggle state, and a bit under the toggle mask
  -- is inverted at an odd state; the bit with `top` bits of the signal after it is looked up in
  -- all masks at `1 << top`.
  pub send_data-msb_first :
      (code bits done : ℕ) (b : SendBuffer)
      → is_rcmm remote ≡ false
      → is_xmp remote ≡ false
      → bits + done ≤ bit_count remote
      → bit_count remote ≤ 64
      → send_data remote code bits done b ≡ send_msb_first bits (bit_count remote - 1 - done) code b
  unfolding send_data
  send_data-msb_first code bits done b rcmm xmp inside width =
      rw (rcmm, xmp, reverse-eq-mirrored code bits (omega arith))
        (ap (λ m. send_bits_loop remote bits m (mirrored bits code) b) first_mask
          ∙ send_bits_loop-msb bits (bit_count remote - 1 - done) code b (omega arith)
              (omega arith))
    where
      first_mask : shl 1 (bit_count remote - 1 - done) ≡ 2 ^ (bit_count remote - 1 - done)
      first_mask =
          omega (arith, shl_bit 1 (bit_count remote - 1 - done) (omega arith) (omega arith))
