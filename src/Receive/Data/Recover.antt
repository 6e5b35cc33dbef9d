-- ===== src/Receive/Data/Recover.antt =====
-- The number that `get_data` gives for bits that each have a pulse and a space.
use lirc_port_for_mac_os_x.Prelude.{
  ℕ, suc, ◌+◌, ◌*◌, ◌^◌, ◌≤◌, ◌<◌, ◌≡◌, refl, ◌∙◌, ◌⊎◌, inl, inr, arith, List, [], ◌∷◌, Option,
  none, some, Bool, true, false, ◌&&◌, if◌then◌else◌, length, bit_or, ◌++◌, append-nil,
}
use lirc_port_for_mac_os_x.Word.{shl}
use lirc_port_for_mac_os_x.Remote.{Remote}
use lirc_port_for_mac_os_x.Remote.Tolerance.{expect}
use lirc_port_for_mac_os_x.Receive.Buffer.{Rbuf, pulse_bit}
use lirc_port_for_mac_os_x.Receive.Data.{set_lengths, take_bit, bit_loop, get_data_bits}
use lirc_port_for_mac_os_x.Codes.Mapping.Fields.{shift_in}
use lirc_port_for_mac_os_x.Receive.Data.Heard.{
  Heard, readings, number, Ahead, Took, Took-two, Took-none, Took-trans,
}
use lirc_port_for_mac_os_x.Receive.Data.PulseSpace.{
  pulse_space, Tried, pulse_space-heard, IsPulseSpace, expectone-plain, expectzero-plain,
}

module _ (resolution : ℕ) (remote : Remote) where
  -- Whether the lengths are taken for a one, or for a zero.
  abbrev pub fits_one : Heard → Bool
  fits_one h =
      expect resolution remote h.pulse remote.pone && expect resolution remote h.space remote.sone

  abbrev pub fits_zero : Heard → Bool
  fits_zero h =
      expect resolution remote h.pulse remote.pzero && expect resolution remote h.space remote.szero

  -- The lengths fit a driver's reading, and those of the bit; a zero cannot be taken for a one.
  pub record IsHeard (h : Heard) : Type 0 where
    pub pulse_length : (0 < h.pulse) × (h.pulse < 2 ^ 24)
    pub space_length : (0 < h.space) × (h.space < 2 ^ 24)
    pub fits :
        ((h.bit ≡ 1) × (fits_one h ≡ true))
        ⊎ ((h.bit ≡ 0) × ((fits_one h ≡ false) × (fits_zero h ≡ true)))

  take_bit-heard :
      (at : ℕ) (h : Heard) (xs : List ℕ) (b : Rbuf)
      → IsPulseSpace resolution remote
      → IsHeard h
      → Ahead b ((pulse_bit + h.pulse) ∷ h.space ∷ xs)
      → let (bit, b') = take_bit resolution remote at b in (bit ≡ some h.bit) × Took b b' 2
  unfolding take_bit
  take_bit-heard at h xs b k i a =
      rw
        (
          expectone-plain resolution remote at b k,
          expectzero-plain resolution remote at
              (pulse_space resolution remote remote.pone remote.sone b).1 k,
        )
        (by_fit i.fits)
    where
      first : Rbuf → Bool × Rbuf
      first c = pulse_space resolution remote remote.pone remote.sone c

      second : Rbuf → Bool × Rbuf
      second c = pulse_space resolution remote remote.pzero remote.szero c

      try_one : Tried resolution remote b (first b) (fits_one h)
      try_one =
          pulse_space-heard resolution remote remote.pone remote.sone h.pulse h.space xs b
            i.pulse_length.0 i.pulse_length.1 i.space_length.0 i.space_length.1 a

      result : Option ℕ × Rbuf
      result =
          if (first b).0
          then (some 1, (first b).1)
          else if (second (first b).1).0
          then (some 0, (second (first b).1).1)
          else (none, (second (first b).1).1)

      by_fit :
          ((h.bit ≡ 1) × (fits_one h ≡ true))
            ⊎ ((h.bit ≡ 0) × ((fits_one h ≡ false) × (fits_zero h ≡ true)))
          → (result.0 ≡ some h.bit) × Took b result.1 2
      by_fit (inl (bit, one)) =
          let is_one : (first b).0 ≡ true = try_one.answer ∙ one in
          let took : Took b (first b).1 2 = rw one at try_one.took in rw (is_one, bit) (refl, took)
      by_fit (inr (bit, (not_one, is_zero))) =
          let failed : (first b).0 ≡ false = try_one.answer ∙ not_one in
          let back : Took b (first b).1 0 = rw not_one at try_one.took in
          let again : Ahead (first b).1 ((pulse_bit + h.pulse) ∷ h.space ∷ xs) =
            Took-none ((pulse_bit + h.pulse) ∷ h.space ∷ xs) b (first b).1 a back in
          let try_zero : Tried resolution remote (first b).1 (second (first b).1) (fits_zero h) =
            pulse_space-heard resolution remote remote.pzero remote.szero h.pulse h.space xs
              (first b).1 i.pulse_length.0 i.pulse_length.1 i.space_length.0 i.space_length.1
              again in
          let ok : (second (first b).1).0 ≡ true = try_zero.answer ∙ is_zero in
          let took : Took (first b).1 (second (first b).1).1 2 = rw is_zero at try_zero.took in
          rw (failed, ok, bit) (refl, Took-trans b (first b).1 (second (first b).1).1 0 2 back took)

  pub same_lengths : (at : ℕ) → IsPulseSpace resolution remote → set_lengths remote at ≡ remote
  unfolding set_lengths
  same_lengths at k = rw k.not_goldstar refl

  abbrev pub AllHeard : List Heard → Type 0
  AllHeard [] = Unit
  AllHeard (h ∷ hs) = IsHeard h × AllHeard hs

  pub bit_below : (h : Heard) → IsHeard h → h.bit < 2 ^ 1
  bit_below h i = elim i.fits [
    | inl one ↦ omega (arith, one.0)
    | inr nought ↦ omega (arith, nought.0)
  ]

  bit_loop-round :
      (left at code n : ℕ) (b : Rbuf)
      → IsPulseSpace resolution remote
      → (take_bit resolution remote at b).0 ≡ some n
      → bit_loop resolution (suc left) remote at code b
        ≡ bit_loop resolution left remote
            (at + 1)
            (bit_or (shl code 1) n)
            (take_bit resolution remote at b).1
  unfolding bit_loop
  bit_loop-round left at code n b k e =
      rw (bit_loop, same_lengths at k, e) (rw (same_lengths at k) refl)

  -- The bits are read, and nothing after them.
  pub bit_loop-heard :
      (hs : List Heard) (rest : List ℕ) (at j code : ℕ) (b : Rbuf)
      → IsPulseSpace resolution remote
      → AllHeard hs
      → Ahead b (readings hs ++ rest)
      → j + length hs ≤ 64
      → code < 2 ^ j
      → let (found, remote', b') = bit_loop resolution (length hs) remote at code b in
        (found ≡ number code hs) × (remote' ≡ remote) × Took b b' (2 * length hs)
  unfolding bit_loop
  bit_loop-heard [] rest at j code b k i a w l = (
    refl,
    refl,
    record {
      no_pulse = a.no_pulse;
      no_space = a.no_space;
      same_cells = refl;
      same_end = refl;
      moved = omega arith;
      balanced = omega arith;
    },
  )
  bit_loop-heard (h ∷ hs) rest at j code b k (i, is) a w l =
      let xs = readings hs ++ rest in
      let (bit, took) = take_bit-heard at h xs b k i a in
      let b' = (take_bit resolution remote at b).1 in
      let ahead = Took-two (pulse_bit + h.pulse) h.space xs b b' a took in
      let (grown, bound) = shift_in j 1 code h.bit (omega arith) l (bit_below h i) in
      let next : bit_or (shl code 1) h.bit ≡ 2 * code + h.bit = omega (arith, grown) in
      let below : 2 * code + h.bit < 2 ^ (j + 1) = omega (arith, bound) in
      let (found, same, all) =
        bit_loop-heard hs rest (at + 1) (j + 1) (2 * code + h.bit) b' k is ahead (omega arith)
          below in
      let count : 2 + 2 * length hs ≡ 2 * length (h ∷ hs) = omega arith in
      rw (bit_loop-round (length hs) at code h.bit b k bit, next)
        (found, same, rw count at (Took-trans b b' _ 2 (2 * length hs) took all))

  -- A remote that sends each bit as a pulse and a space, with lengths of a one that are not 0 and a
  -- trailing pulse: if the next readings in the receive buffer are a pulse and a space for each of
  -- at most 64 bits, each within the tolerance of its bit and none of a zero within that of a one,
  -- then `get_data` gives the number with these bits, the highest first.
  pub get_data_bits-heard :
      (hs : List Heard) (done : ℕ) (b : Rbuf)
      → IsPulseSpace resolution remote
      → AllHeard hs
      → Ahead b (readings hs)
      → length hs ≤ 64
      → (get_data_bits resolution remote (length hs) done b).0 ≡ number 0 hs
  unfolding get_data_bits
  get_data_bits-heard hs done b k i a w =
      (bit_loop-heard hs [] done 0 0 b k i (rw append-nil a) (omega arith) (omega arith)).0
