-- ===== src/Receive/Data/Width.antt =====
-- How many bits the codes have that a receiver reads.
use lirc_port_for_mac_os_x.Prelude.{
  ℕ, zero, suc, ◌+◌, ◌*◌, ◌/◌, ◌%◌, ◌^◌, ◌≤◌, ◌<◌, ◌≡◌, ◌⊎◌, inl, inr, refl, subst, arith, Option,
  none, some, Bool, true, false, ◌||◌, ◌==◌, if◌then◌else◌, bit_or, pow_pos,
}
use native.Mathlib.Nat.{mul-suc}
use lirc_port_for_mac_os_x.Word.{shl, is_set}
use lirc_port_for_mac_os_x.Remote.{Remote}
use lirc_port_for_mac_os_x.Receive.Buffer.{Rbuf, get_next_pulse, get_next_space}
use lirc_port_for_mac_os_x.Receive.Expect.{sync_pending_pulse, sync_pending_space}
use lirc_port_for_mac_os_x.Codes.Mapping.Fields.{shift_in}
use lirc_port_for_mac_os_x.Receive.Data.{
  no_data, read_symbol, rcmm_loop, get_data_rcmm, read_pair, grundig_loop, get_data_grundig, bo_bit,
  bo_loop, get_data_bo, any_pulse, any_space, xmp_nibble, xmp_loop, get_data_xmp, set_lengths,
  take_bit, bit_loop, get_data_bits,
}
use lirc_port_for_mac_os_x.Receive.Data.Symbols.{
  Below, Below-if, none-Below, read_symbol-Below, read_pair-Below, bo_bit-Below, xmp_nibble-Below,
  take_bit-Below,
}

-- Failure, or a number of that many bits.
unfoldable pub Within : ℕ → ℕ → Type 0
Within bits code = (code ≡ no_data) ⊎ (code < 2 ^ bits)

-- One more symbol of `k` bits.
widened :
    (j k code n : ℕ) → j + k ≤ 64 → code < 2 ^ j → n < 2 ^ k → bit_or (shl code k) n < 2 ^ (j + k)
widened j k code n h c l = let (e, bound) = shift_in j k code n h c l in rw e bound

-- A round that reads a symbol and goes on with it.
after_symbol :
    (bits m : ℕ) (o : Option ℕ) (rest : Rbuf) (next : ℕ → ℕ × Rbuf)
    → Below m o
    → ((n : ℕ) → n < m → Within bits (next n).0)
    → Within bits (elim o as (λ u. ℕ × Rbuf) [ none ↦ (no_data, rest) | some n ↦ next n ]).0
unfolding Within Below
after_symbol bits m none rest next h k = inl refl
after_symbol bits m (some n) rest next h k = k n h

after_bit :
    (bits m : ℕ) (o : Option ℕ) (r : Remote) (b : Rbuf) (next : ℕ → ℕ × Remote × Rbuf)
    → Below m o
    → ((n : ℕ) → n < m → Within bits (next n).0)
    → Within bits
        (elim o as (λ u. ℕ × Remote × Rbuf) [ none ↦ (no_data, r, b) | some n ↦ next n ]).0
unfolding Within Below
after_bit bits m none r b next h k = inl refl
after_bit bits m (some n) r b next h k = k n h

finished : (j bits code : ℕ) → j ≡ bits → code < 2 ^ j → Within bits code
unfolding Within
finished j bits code e c = inr (subst (λ (t : ℕ). code < 2 ^ t) e c)

-- One more symbol of `k` bits, where `left` more of them follow.
next_symbol :
    (j k left bits code n : ℕ)
    → j + k * suc left ≡ bits
    → bits ≤ 64
    → code < 2 ^ j
    → n < 2 ^ k
    → (j + k + k * left ≡ bits) × (bit_or (shl code k) n < 2 ^ (j + k))
next_symbol j k left bits code n e h c l =
    let total : j + k + k * left ≡ bits = omega (arith, e, mul-suc k left) in
    (total, widened j k code n (omega (arith, total, h)) c l)

Within-if :
    (bits : ℕ) (t : Bool) (x y : ℕ × Rbuf)
    → Within bits x.0
    → Within bits y.0
    → Within bits (if t then x else y).0
Within-if bits true x y hx hy = hx
Within-if bits false x y hx hy = hy

-- The number of bits is a whole number of symbols where it was not refused.
Within-unless :
    (bits : ℕ) (t : Bool) (x y : ℕ × Rbuf)
    → Within bits x.0
    → (t ≡ false → Within bits y.0)
    → Within bits (if t then x else y).0
Within-unless bits true x y hx hy = hx
Within-unless bits false x y hx hy = hy refl

even_bits : (m bits other : ℕ) → (is_set (bits % m) || is_set other) ≡ false → bits % m ≡ 0
even_bits m bits other h = ground arith

failed : (bits : ℕ) → Within bits no_data
unfolding Within
failed bits = inl refl

nothing : (bits : ℕ) → Within bits 0
unfolding Within
nothing bits = inr (pow_pos bits)

module _ (resolution : ℕ) where
  rcmm_loop-Within :
      (left : ℕ) (remote : Remote) (j bits code : ℕ) (b : Rbuf)
      → j + 2 * left ≡ bits
      → bits ≤ 64
      → code < 2 ^ j
      → Within bits (rcmm_loop resolution left remote code b).0
  unfolding rcmm_loop
  rcmm_loop-Within zero remote j bits code b e h c = finished j bits code (omega arith) c
  rcmm_loop-Within (suc left) remote j bits code b e h c =
      let (symbol, b') = read_symbol resolution remote b in
      after_symbol bits (2 ^ 2) symbol b'
        (λ n. rcmm_loop resolution left remote (bit_or (shl code 2) n) b')
        (read_symbol-Below resolution remote b)
        (λ n l.
          let (total, below) = next_symbol j 2 left bits code n e h c l in
          rcmm_loop-Within left remote (j + 2) bits (bit_or (shl code 2) n) b' total h below)

  get_data_rcmm-Within :
      (remote : Remote) (bits done : ℕ) (b : Rbuf)
      → bits ≤ 64
      → Within bits (get_data_rcmm resolution remote bits done b).0
  unfolding get_data_rcmm
  get_data_rcmm-Within remote bits done b h =
      let (synced, b') = sync_pending_space resolution remote b in
      Within-unless bits (is_set (bits % 2) || is_set (done % 2)) (no_data, b) _ (failed bits)
        (λ e.
          Within-if bits synced _ (0, b')
            (rcmm_loop-Within (bits / 2) remote 0 bits 0 b'
              (omega (arith, even_bits 2 bits (done % 2) e)) h (omega arith))
            (nothing bits))

  grundig_loop-Within :
      (left : ℕ) (remote : Remote) (j bits code : ℕ) (b : Rbuf)
      → j + 2 * left ≡ bits
      → bits ≤ 64
      → code < 2 ^ j
      → Within bits (grundig_loop resolution left remote code b).0
  unfolding grundig_loop
  grundig_loop-Within zero remote j bits code b e h c = finished j bits code (omega arith) c
  grundig_loop-Within (suc left) remote j bits code b e h c =
      let (pair, b') = read_pair resolution remote b in
      after_symbol bits (2 ^ 2) pair b'
        (λ n. grundig_loop resolution left remote (bit_or (shl code 2) n) b')
        (read_pair-Below resolution remote b)
        (λ n l.
          let (total, below) = next_symbol j 2 left bits code n e h c l in
          grundig_loop-Within left remote (j + 2) bits (bit_or (shl code 2) n) b' total h below)

  get_data_grundig-Within :
      (remote : Remote) (bits done : ℕ) (b : Rbuf)
      → bits ≤ 64
      → Within bits (get_data_grundig resolution remote bits done b).0
  unfolding get_data_grundig
  get_data_grundig-Within remote bits done b h =
      let (synced, b') = sync_pending_pulse resolution remote b in
      Within-unless bits (is_set (bits % 2) || is_set (done % 2)) (no_data, b) _ (failed bits)
        (λ e.
          Within-if bits synced _ (no_data, b')
            (grundig_loop-Within (bits / 2) remote 0 bits 0 b'
              (omega (arith, even_bits 2 bits (done % 2) e)) h (omega arith))
            (failed bits))

  bo_loop-Within :
      (left : ℕ) (remote : Remote) (last_one : Bool) (j bits code : ℕ) (b : Rbuf)
      → j + 1 * left ≡ bits
      → bits ≤ 64
      → code < 2 ^ j
      → Within bits (bo_loop resolution left remote last_one code b).0
  unfolding bo_loop
  bo_loop-Within zero remote last_one j bits code b e h c = finished j bits code (omega arith) c
  bo_loop-Within (suc left) remote last_one j bits code b e h c =
      let (deltap, b') = get_next_pulse (any_pulse remote) b in
      let (deltas, b'') = get_next_space (any_space remote) b' in
      let bit =
        if deltap == 0 || deltas == 0
        then none
        else bo_bit resolution remote last_one deltap deltas in
      after_symbol bits (2 ^ 1) bit b''
        (λ n. bo_loop resolution left remote (n == 1) (bit_or (shl code 1) n) b'')
        (Below-if 2 (deltap == 0 || deltas == 0) none _ (none-Below 2)
          (bo_bit-Below resolution remote last_one deltap deltas))
        (λ n l.
          let (total, below) = next_symbol j 1 left bits code n e h c l in
          bo_loop-Within left remote (n == 1) (j + 1) bits (bit_or (shl code 1) n) b'' total h
            below)

  xmp_loop-Within :
      (left : ℕ) (remote : Remote) (j bits code : ℕ) (b : Rbuf)
      → j + 4 * left ≡ bits
      → bits ≤ 64
      → code < 2 ^ j
      → Within bits (xmp_loop resolution left remote code b).0
  unfolding xmp_loop
  xmp_loop-Within zero remote j bits code b e h c = finished j bits code (omega arith) c
  xmp_loop-Within (suc left) remote j bits code b e h c =
      let (deltap, b') = get_next_pulse remote.pzero b in
      let (deltas, b'') = get_next_space (remote.szero + 16 * remote.sone) b' in
      after_symbol bits (2 ^ 4) (xmp_nibble remote deltap deltas) b''
        (λ n. xmp_loop resolution left remote (bit_or (shl code 4) n) b'')
        (xmp_nibble-Below resolution remote deltap deltas)
        (λ n l.
          let (total, below) = next_symbol j 4 left bits code n e h c l in
          xmp_loop-Within left remote (j + 4) bits (bit_or (shl code 4) n) b'' total h below)

  get_data_xmp-Within :
      (remote : Remote) (bits done : ℕ) (b : Rbuf)
      → bits ≤ 64
      → Within bits (get_data_xmp resolution remote bits done b).0
  unfolding get_data_xmp
  get_data_xmp-Within remote bits done b h =
      let (synced, b') = sync_pending_space resolution remote b in
      Within-unless bits (is_set (bits % 4) || is_set (done % 4)) (no_data, b) _ (failed bits)
        (λ e.
          Within-if bits synced _ (0, b')
            (xmp_loop-Within (bits / 4) remote 0 bits 0 b'
              (omega (arith, even_bits 4 bits (done % 4) e)) h (omega arith))
            (nothing bits))

  bit_loop-Within :
      (left : ℕ) (remote : Remote) (at j bits code : ℕ) (b : Rbuf)
      → j + 1 * left ≡ bits
      → bits ≤ 64
      → code < 2 ^ j
      → Within bits (bit_loop resolution left remote at code b).0
  unfolding bit_loop
  bit_loop-Within zero remote at j bits code b e h c = finished j bits code (omega arith) c
  bit_loop-Within (suc left) remote at j bits code b e h c =
      let set = set_lengths remote at in
      let (bit, b') = take_bit resolution set at b in
      after_bit bits (2 ^ 1) bit set b'
        (λ n. bit_loop resolution left set (at + 1) (bit_or (shl code 1) n) b')
        (take_bit-Below resolution set at b)
        (λ n l.
          let (total, below) = next_symbol j 1 left bits code n e h c l in
          bit_loop-Within left set (at + 1) (j + 1) bits (bit_or (shl code 1) n) b' total h below)

  -- If the data have at most 64 bits, each of the encodings either fails or gives a code of at most
  -- that many bits, whatever the receiver reads.
  pub get_data-Within :
      (remote : Remote) (bits done : ℕ) (b : Rbuf)
      → bits ≤ 64
      → Within bits (get_data_rcmm resolution remote bits done b).0
        × Within bits (get_data_grundig resolution remote bits done b).0
        × Within bits (get_data_bo resolution remote bits b).0
        × Within bits (get_data_xmp resolution remote bits done b).0
        × Within bits (get_data_bits resolution remote bits done b).0
  unfolding get_data_bo get_data_bits
  get_data-Within remote bits done b h = (
    get_data_rcmm-Within remote bits done b h,
    get_data_grundig-Within remote bits done b h,
    bo_loop-Within bits remote true 0 bits 0 b (omega arith) h (omega arith),
    get_data_xmp-Within remote bits done b h,
    bit_loop-Within bits remote done 0 bits 0 b (omega arith) h (omega arith),
  )
