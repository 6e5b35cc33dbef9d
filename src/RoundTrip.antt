-- ===== src/RoundTrip.antt =====
-- The data that `send_data` of daemons/transmit.c sends, read back by `get_data` of
-- daemons/receive.c.
mod Tests
pub mod Code
use lirc_port_for_mac_os_x.Prelude.{
  ℕ, zero, suc, ◌+◌, ◌-◌, ◌*◌, ◌/◌, ◌%◌, ◌^◌, ◌≤◌, ◌<◌, ◌≡◌, refl, sym, ap, subst, ◌∙◌, ◌⊎◌, inl,
  inr, arith, bit_and, List, [], ◌∷◌, Bool, true, false, ◌&&◌, if◌then◌else◌, length, ltb, ◌==◌,
  bit_and-zero, split_pow, fields_mod, fields-lt, mod_pow-lt, mul-pow-suc,
}
use native.Mathlib.Nat.{pow-suc}
use lirc_port_for_mac_os_x.Word.{is_set}
use lirc_port_for_mac_os_x.Remote.{Remote}
use lirc_port_for_mac_os_x.Remote.Flags.{
  is_rcmm, is_xmp, is_biphase, is_space_first, bit_count, has_toggle_bit_mask, has_toggle_mask,
}
use lirc_port_for_mac_os_x.Remote.Tolerance.{expect}
use lirc_port_for_mac_os_x.Remote.Tolerance.Laws.{expect_refl}
use lirc_port_for_mac_os_x.Transmit.Buffer.{SendBuffer, send_pulse, send_space}
use lirc_port_for_mac_os_x.Transmit.Buffer.Levels.{Signal, pulse, space}
use lirc_port_for_mac_os_x.Transmit.Buffer.Play.{play}
use lirc_port_for_mac_os_x.Transmit.Encode.{send_one, send_zero, send_data}
use lirc_port_for_mac_os_x.Transmit.Encode.Order.{send_digit, send_msb_first, send_data-msb_first}
use lirc_port_for_mac_os_x.Receive.Buffer.{Rbuf}
use lirc_port_for_mac_os_x.Receive.Data.{get_data_bits}
use lirc_port_for_mac_os_x.Receive.Data.Heard.{Heard, readings, number, Ahead}
use lirc_port_for_mac_os_x.Receive.Data.PulseSpace.{IsPulseSpace}
use lirc_port_for_mac_os_x.Receive.Data.Recover.{IsHeard, AllHeard, get_data_bits-heard}

-- The pulse and the space of a bit, and those of the lowest `n` bits of a code, the highest first.
abbrev pub sent_bit : Remote → ℕ → Heard
sent_bit remote digit =
    if is_set digit
    then record { bit = 1; pulse = remote.pone; space = remote.sone }
    else record { bit = 0; pulse = remote.pzero; space = remote.szero }

abbrev pub sent_bits : Remote → ℕ → ℕ → List Heard
sent_bits remote zero code = []
sent_bits remote (suc n) code = sent_bit remote (code / 2 ^ n % 2) ∷ sent_bits remote n code

abbrev pub signals : List Heard → List Signal
signals [] = []
signals (h ∷ hs) = pulse h.pulse ∷ space h.space ∷ signals hs

pub length-sent_bits : (remote : Remote) (n code : ℕ) → length (sent_bits remote n code) ≡ n
length-sent_bits remote zero code = refl
length-sent_bits remote (suc n) code = ap suc (length-sent_bits remote n code)

low_bits : (n code : ℕ) → code % 2 ^ suc n ≡ code / 2 ^ n % 2 * 2 ^ n + code % 2 ^ n
low_bits n code =
    ap (λ (t : ℕ). t % 2 ^ suc n) regrouped ∙ fields_mod (suc n) (code / 2 ^ n / 2) _ below
  where
    below : code / 2 ^ n % 2 * 2 ^ n + code % 2 ^ n < 2 ^ suc n
    below =
        let e : 1 + n ≡ suc n = omega arith in
        rw e at (fields-lt 1 n (code / 2 ^ n % 2) (code % 2 ^ n) (omega arith) (mod_pow-lt n code))

    regrouped : code ≡ code / 2 ^ n / 2 * 2 ^ suc n + (code / 2 ^ n % 2 * 2 ^ n + code % 2 ^ n)
    regrouped =
        let q = code / 2 ^ n in
        let halves : q * 2 ^ n ≡ (q / 2 * 2 + q % 2) * 2 ^ n =
          ap (λ (t : ℕ). t * 2 ^ n) (omega arith) in
        grind (arith, split_pow n code, mul-pow-suc (q / 2) n, halves)

sent_bit-digit : (remote : Remote) (digit : ℕ) → digit < 2 → (sent_bit remote digit).bit ≡ digit
sent_bit-digit remote digit h = ground arith

pub number-sent_bits :
    (remote : Remote) (n code high : ℕ)
    → number high (sent_bits remote n code) ≡ high * 2 ^ n + code % 2 ^ n
number-sent_bits remote zero code high = omega arith
number-sent_bits remote (suc n) code high =
    number-sent_bits remote n code (2 * high + (sent_bit remote (code / 2 ^ n % 2)).bit)
    ∙ grind (
      arith,
      sent_bit-digit remote (code / 2 ^ n % 2) (omega arith),
      low_bits n code,
      mul-pow-suc high n,
    )

-- A remote whose bits are a pulse and a space each and are not toggled.
pub record SendsPulseSpace (resolution : ℕ) (remote : Remote) : Type 0 where
  pub pulse_space : IsPulseSpace resolution remote
  pub not_rcmm : is_rcmm remote ≡ false
  pub not_xmp : is_xmp remote ≡ false
  pub no_double : remote.rc6_mask ≡ 0
  pub no_toggle_bit : remote.toggle_bit_mask ≡ 0
  pub no_toggle : remote.toggle_mask ≡ 0
  pub one_below : (remote.pone < 2 ^ 24) × (remote.sone < 2 ^ 24)
  pub zero_pulse : (0 < remote.pzero) × (remote.pzero < 2 ^ 24)
  pub zero_space : (0 < remote.szero) × (remote.szero < 2 ^ 24)
  pub distinct :
      (expect resolution remote remote.pzero remote.pone
        && expect resolution remote remote.szero remote.sone)
      ≡ false

module _ (resolution : ℕ) (remote : Remote) where
  send_one-plays :
      (mask : ℕ) (b : SendBuffer)
      → IsPulseSpace resolution remote
      → send_one remote mask b ≡ send_space remote.sone (send_pulse remote.pone b)
  unfolding send_one
  send_one-plays mask b k = rw (k.not_biphase, k.not_space_first) refl

  send_zero-plays :
      (mask : ℕ) (b : SendBuffer)
      → IsPulseSpace resolution remote
      → remote.rc6_mask ≡ 0
      → send_zero remote mask b ≡ send_space remote.szero (send_pulse remote.pzero b)
  unfolding send_zero
  send_zero-plays mask b k d =
      let single : bit_and mask remote.rc6_mask ≡ 0 =
        ap (λ (t : ℕ). bit_and mask t) d ∙ bit_and-zero mask in
      rw (single, k.not_space_first) refl

  no_toggle_bit_mask : remote.toggle_bit_mask ≡ 0 → has_toggle_bit_mask remote ≡ false
  unfolding has_toggle_bit_mask
  no_toggle_bit_mask h = ap (λ (t : ℕ). ltb 0 t) h

  no_toggle_mask : remote.toggle_mask ≡ 0 → has_toggle_mask remote ≡ false
  unfolding has_toggle_mask
  no_toggle_mask h = ap (λ (t : ℕ). ltb 0 t) h

  send_digit-plays :
      (mask digit : ℕ) (b : SendBuffer)
      → SendsPulseSpace resolution remote
      → send_digit remote mask digit b ≡ play (signals (sent_bit remote digit ∷ [])) b
  send_digit-plays mask digit b k =
      rw
        (
          no_toggle_bit_mask k.no_toggle_bit,
          no_toggle_mask k.no_toggle,
          send_one-plays mask b k.pulse_space,
          send_zero-plays mask b k.pulse_space k.no_double,
        )
        (by_digit (is_set digit))
    where
      one : Heard
      one = record { bit = 1; pulse = remote.pone; space = remote.sone }

      nought : Heard
      nought = record { bit = 0; pulse = remote.pzero; space = remote.szero }

      by_digit :
          (t : Bool)
          → (if t
              then send_space remote.sone (send_pulse remote.pone b)
              else send_space remote.szero (send_pulse remote.pzero b))
            ≡ send_space
                (if t then one else nought).space
                (send_pulse (if t then one else nought).pulse b)
      by_digit true = refl
      by_digit false = refl

  pub send_msb_first-plays :
      (n top code : ℕ) (b : SendBuffer)
      → SendsPulseSpace resolution remote
      → send_msb_first remote n top code b ≡ play (signals (sent_bits remote n code)) b
  send_msb_first-plays zero top code b k = refl
  send_msb_first-plays (suc n) top code b k =
      rw (send_digit-plays (2 ^ top) (code / 2 ^ n % 2) b k)
        (send_msb_first-plays n (top - 1) code _ k)

  sent_bit-IsHeard :
      (digit : ℕ)
      → SendsPulseSpace resolution remote
      → IsHeard resolution remote (sent_bit remote digit)
  sent_bit-IsHeard digit k = by_digit (is_set digit)
    where
      one : Heard
      one = record { bit = 1; pulse = remote.pone; space = remote.sone }

      nought : Heard
      nought = record { bit = 0; pulse = remote.pzero; space = remote.szero }

      by_digit : (t : Bool) → IsHeard resolution remote (if t then one else nought)
      by_digit true = record {
        pulse_length = (k.pulse_space.one_pulse, k.one_below.0);
        space_length = (k.pulse_space.one_space, k.one_below.1);
        fits = inl (
          refl,
          rw (expect_refl resolution remote remote.pone, expect_refl resolution remote remote.sone)
              refl,
        );
      }
      by_digit false = record {
        pulse_length = k.zero_pulse;
        space_length = k.zero_space;
        fits = inr (
          refl,
          (
            k.distinct,
            rw
                (
                  expect_refl resolution remote remote.pzero,
                  expect_refl resolution remote remote.szero,
                )
                refl,
          ),
        );
      }

  pub sent_bits-AllHeard :
      (n code : ℕ)
      → SendsPulseSpace resolution remote
      → AllHeard resolution remote (sent_bits remote n code)
  sent_bits-AllHeard zero code k = tt
  sent_bits-AllHeard (suc n) code k =
      (sent_bit-IsHeard (code / 2 ^ n % 2) k, sent_bits-AllHeard n code k)

  -- For a remote whose bits are each a pulse and a space, with a trailing pulse, with no toggled
  -- bits and no zero that can be taken for a one, `send_data` sends a pulse and a space for each bit
  -- of a field that ends within the at most 64 bits of the whole signal; and where the receive
  -- buffer has these pulses and spaces next, `get_data` gives the field again.
  pub get_data-send_data :
      (code bits done : ℕ) (b : SendBuffer) (c : Rbuf)
      → SendsPulseSpace resolution remote
      → bits + done ≤ bit_count remote
      → bit_count remote ≤ 64
      → Ahead c (readings (sent_bits remote bits code))
      → (send_data remote code bits done b ≡ play (signals (sent_bits remote bits code)) b)
        × ((get_data_bits resolution remote bits done c).0 ≡ code % 2 ^ bits)
  get_data-send_data code bits done b c k inside width ahead =
      let hs = sent_bits remote bits code in
      let count : length hs ≡ bits = length-sent_bits remote bits code in
      let found : (get_data_bits resolution remote (length hs) done c).0 ≡ number 0 hs =
        get_data_bits-heard resolution remote hs done c k.pulse_space
          (sent_bits-AllHeard bits code k) ahead (omega (arith, count, inside, width)) in
      (
        send_data-msb_first remote code bits done b k.not_rcmm k.not_xmp inside width
            ∙ send_msb_first-plays bits (bit_count remote - 1 - done) code b k,
        subst (λ (n : ℕ). (get_data_bits resolution remote n done c).0 ≡ number 0 hs) count found
            ∙ number-sent_bits remote bits code 0
            ∙ omega arith,
      )
