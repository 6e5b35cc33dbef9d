-- ===== src/Receive/Serial/Ends.antt =====
-- The end of the loop for serial data.
use lirc_port_for_mac_os_x.Prelude.{
  ℕ, zero, suc, ◌+◌, ◌≤◌, ◌<◌, ◌≡◌, ◌⊎◌, inl, inr, refl, ◌∙◌, arith, some, true, false, ◌==◌,
  if◌then◌else◌, Bool-cases,
}
use lirc_port_for_mac_os_x.Remote.{Remote}
use lirc_port_for_mac_os_x.Receive.Buffer.{Rbuf, set_pending_pulse}
use lirc_port_for_mac_os_x.Receive.Buffer.Bounds.{InArray, set_pending-InArray}
use lirc_port_for_mac_os_x.Receive.Data.{no_data}
use lirc_port_for_mac_os_x.Receive.Serial.{
  Serial, Round, failed, on, fetch, use_delta, serial_round, is_complete, serial_end, serial_loop,
  serial_start, base, bits_to_read, get_data_serial,
}
use lirc_port_for_mac_os_x.Receive.Serial.Step.{
  rank, inside, Used, use_delta-Used, fetch_same, fetch-rank, level_used,
}

-- A round that goes on lowers the rank, or uses a part of the length and does not raise the rank.
unfoldable Falls : Serial → Rbuf → Round → Type 0
Falls s b (failed b') = Unit
Falls s b (on s' b') =
    InArray b' × ((rank s' b' < rank s b) ⊎ ((rank s' b' ≤ rank s b) × (s'.delta < s.delta)))

Used-Falls :
    (s : Serial) (b : Rbuf) (r : Round)
    → InArray b
    → 0 < s.delta
    → Used s.delta (inside s.space) b r
    → Falls s b r
unfolding Falls Used
Used-Falls s b (failed b') k p u = tt
Used-Falls s b (on s' b') k p (less, low, place, kept) =
    (kept k, inr (omega (arith, low, place, level_used s s.space p refl), less))

fetched-Falls :
    (s t : Serial) (b c : Rbuf) (r : Round) → rank t c < rank s b → Falls t c r → Falls s b r
unfolding Falls
fetched-Falls s t b c (failed b') l f = tt
fetched-Falls s t b c (on s' b') l (kept, f) = (
  kept,
  elim f [ inl less ↦ inl (omega (arith, l, less)) | inr even ↦ inl (omega (arith, l, even.0)) ],
)

failed-Falls : (s : Serial) (b b' : Rbuf) → Falls s b (failed b')
unfolding Falls
failed-Falls s b b' = tt

module _ (resolution : ℕ) (remote : Remote) (one : 0 < remote.sone)
    (nought : 0 < remote.pzero) where
  serial_round-Falls :
      (bits : ℕ) (s : Serial) (b : Rbuf)
      → InArray b
      → Falls s b (serial_round resolution remote bits s b)
  unfolding serial_round
  serial_round-Falls bits s b k = elim (Bool-cases (s.delta == 0)) [
    | inl z ↦ read (ground (arith, z)) (fetch resolution remote bits s b) refl
    | inr n ↦
        rw (fetch_same resolution remote bits s b (ground (arith, n)), n)
          (Used-Falls s b _ k (ground (arith, n))
            (use_delta-Used resolution remote s b one nought (ground (arith, n))))
  ]
    where
      read :
          s.delta ≡ 0
          → (x : Serial × Rbuf) → x ≡ fetch resolution remote bits s b
          → Falls s b (if x.0.delta == 0 then failed x.1 else use_delta resolution remote x.0 x.1)
      read e x same = elim (Bool-cases (x.0.delta == 0)) [
        | inl z ↦ rw z (failed-Falls s b x.1)
        | inr n ↦
            (let p : 0 < x.0.delta = ground (arith, n) in
              let (less, kept) = rw (← same) at (fetch-rank resolution remote bits s b k e) p in
              rw n (
                fetched-Falls s x.0 b x.1 _ less (
                  Used-Falls x.0 x.1 _ kept p
                    (use_delta-Used resolution remote x.0 x.1 one nought p))))
      ]

  -- A round, and then the loop on the rest of the fuel.
  serial_loop_complete :
      (fuel bits : ℕ) (s : Serial) (b : Rbuf)
      → is_complete resolution remote bits s ≡ true
      → serial_loop resolution remote (suc fuel) bits s b ≡ some (serial_end resolution remote s b)
  unfolding serial_loop
  serial_loop_complete fuel bits s b t = rw (serial_loop, t) refl

  serial_loop-failed :
      (fuel bits : ℕ) (s : Serial) (b b' : Rbuf)
      → is_complete resolution remote bits s ≡ false
      → serial_round resolution remote bits s b ≡ failed b'
      → serial_loop resolution remote (suc fuel) bits s b ≡ some (no_data, b')
  unfolding serial_loop
  serial_loop-failed fuel bits s b b' t e = rw (serial_loop, t, e) refl

  serial_loop-on :
      (fuel bits : ℕ) (s t : Serial) (b c : Rbuf)
      → is_complete resolution remote bits s ≡ false
      → serial_round resolution remote bits s b ≡ on t c
      → serial_loop resolution remote (suc fuel) bits s b
        ≡ serial_loop resolution remote fuel bits t c
  unfolding serial_loop
  serial_loop-on fuel bits s t b c f e = rw (serial_loop, f, e) refl

  -- From some fuel on the loop gives a result, and always the same.
  abbrev LoopEnds : ℕ → Serial → Rbuf → Type 0
  LoopEnds bits s b =
      (fuel : ℕ) × (r : ℕ × Rbuf) × ((more : ℕ)
        → serial_loop resolution remote (fuel + more) bits s b ≡ some r)

  more_fuel :
      (bits : ℕ) (s : Serial) (b : Rbuf) (r : ℕ × Rbuf) (fuel : ℕ)
      → ((more : ℕ) → serial_loop resolution remote (suc (fuel + more)) bits s b ≡ some r)
      → LoopEnds bits s b
  more_fuel bits s b r fuel h = (
    suc fuel,
    r,
    λ more. let e : suc fuel + more ≡ suc (fuel + more) = omega arith in rw e (h more),
  )

  loop-LoopEnds :
      (n d bits : ℕ) (s : Serial) (b : Rbuf)
      → InArray b
      → rank s b < n
      → s.delta < d
      → LoopEnds bits s b
  unfolding Falls
  loop-LoopEnds zero d bits s b k l m = absurd (omega arith)
  loop-LoopEnds (suc n) zero bits s b k l m = absurd (omega arith)
  loop-LoopEnds (suc n) (suc d) bits s b k l m =
      elim (Bool-cases (is_complete resolution remote bits s)) [
        | inl t ↦
            more_fuel bits s b (serial_end resolution remote s b) 0
              (λ more. serial_loop_complete (0 + more) bits s b t)
        | inr f ↦
            after f (serial_round resolution remote bits s b) refl (serial_round-Falls bits s b k)
              (λ t c kept less.
                loop-LoopEnds n (suc t.delta) bits t c kept (omega (arith, l, less)) (omega arith))
              (λ t c kept low less.
                loop-LoopEnds (suc n) d bits t c kept (omega (arith, l, low))
                  (omega (arith, m, less)))
      ]
    where
      after :
          is_complete resolution remote bits s ≡ false
          → (round : Round) → serial_round resolution remote bits s b ≡ round
          → Falls s b round
          → ((t : Serial) (c : Rbuf) → InArray c → rank t c < rank s b → LoopEnds bits t c)
          → ((t : Serial) (c : Rbuf)
              → InArray c
              → rank t c ≤ rank s b
              → t.delta < s.delta
              → LoopEnds bits t c)
          → LoopEnds bits s b
      after f (failed c) e h lower shorter =
          more_fuel bits s b (no_data, c) 0 (λ more. serial_loop-failed (0 + more) bits s b c f e)
      after f (on t c) e h lower shorter =
          let (kept, falls) = h in
          let (fuel, r, ends) : LoopEnds bits t c = elim falls [
            | inl less ↦ lower t c kept less
            | inr even ↦ shorter t c kept even.0 even.1
          ] in
          more_fuel bits s b r fuel
            (λ more. serial_loop-on (fuel + more) bits s t b c f e ∙ ends more)

  -- For a remote whose lengths of a pulse and of a space of one bit are not 0, and a receive buffer
  -- with its indices in order, the loop that reads serial data ends, whatever the receiver reads:
  -- from some amount of fuel on, `get_data` has a result, and with more fuel the same one.
  pub get_data_serial-ends :
      (bits : ℕ) (b : Rbuf)
      → InArray b
      → (fuel : ℕ) × (r : ℕ × Rbuf) × ((more : ℕ)
          → get_data_serial resolution remote (fuel + more) bits b ≡ some r)
  unfolding get_data_serial serial_start
  get_data_serial-ends bits b k =
      let started = set_pending_pulse (base resolution remote) b in
      let first = serial_start resolution remote started in
      loop-LoopEnds (suc (rank first started)) (suc first.delta)
        (bits_to_read resolution remote bits) first started
        (set_pending-InArray (base resolution remote) b k).0 (omega arith) (omega arith)
