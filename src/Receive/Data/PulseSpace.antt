-- ===== src/Receive/Data/PulseSpace.antt =====
-- A pulse and a space from the receive buffer, as `expectone` and `expectzero` take them.
use lirc_port_for_mac_os_x.Prelude.{
  ℕ, ◌+◌, ◌^◌, ◌<◌, ◌≡◌, refl, arith, List, ◌∷◌, Bool, true, false, ◌&&◌, ◌==◌, if◌then◌else◌,
  lt→ltb,
}
use lirc_port_for_mac_os_x.Remote.{Remote}
use lirc_port_for_mac_os_x.Remote.Flags.{is_biphase, is_space_first, is_goldstar}
use lirc_port_for_mac_os_x.Remote.Tolerance.{expect}
use lirc_port_for_mac_os_x.Receive.Buffer.{Rbuf, pulse_bit, get_next_pulse, get_next_space}
use lirc_port_for_mac_os_x.Receive.Expect.{
  and_then, or_unget, sync_pending_pulse, sync_pending_space, check_pulse, check_space, expectpulse,
  expectspace, optional_pulse, optional_space, expectone, expectzero,
}
use lirc_port_for_mac_os_x.Receive.Data.Heard.{
  Ahead, Took, Took-one, Took-trans, unget_one-Took, unget_two-Took, next_pulse, next_space,
}

module _ (resolution : ℕ) (remote : Remote) where
  pub no_pending_space :
      (b : Rbuf) → b.pendings ≡ 0 → sync_pending_space resolution remote b ≡ (true, b)
  unfolding sync_pending_space
  no_pending_space b h = rw h refl

  no_pending_pulse :
      (b : Rbuf) → b.pendingp ≡ 0 → sync_pending_pulse resolution remote b ≡ (true, b)
  unfolding sync_pending_pulse
  no_pending_pulse b h = rw h refl

  check_pulse-clear :
      (p d : ℕ) (b : Rbuf)
      → 0 < p
      → b.pendingp ≡ 0
      → check_pulse resolution remote p d b ≡ (expect resolution remote p d, b)
  unfolding check_pulse
  check_pulse-clear p d b z h =
      let positive : (p == 0) ≡ false = ground arith in rw (positive, h) refl

  check_space-clear :
      (s d : ℕ) (b : Rbuf)
      → 0 < s
      → b.pendings ≡ 0
      → check_space resolution remote s d b ≡ (expect resolution remote s d, b)
  unfolding check_space
  check_space-clear s d b z h =
      let positive : (s == 0) ≡ false = ground arith in rw (positive, h) refl

  pub expectpulse-heard :
      (d p : ℕ) (xs : List ℕ) (b : Rbuf)
      → 0 < p
      → p < 2 ^ 24
      → Ahead b ((pulse_bit + p) ∷ xs)
      → let (ok, b') = expectpulse resolution remote d b in
        (ok ≡ expect resolution remote p d) × Took b b' 1
  unfolding expectpulse
  expectpulse-heard d p xs b z l h =
      let (e, took) = next_pulse (b.pendingp + d) p xs b z l h in
      let b' = (get_next_pulse (b.pendingp + d) b).1 in
      rw (no_pending_space b h.no_space, e, check_pulse-clear p d b' z took.no_pulse) (refl, took)

  expectspace-heard :
      (d s : ℕ) (xs : List ℕ) (b : Rbuf)
      → 0 < s
      → s < 2 ^ 24
      → Ahead b (s ∷ xs)
      → let (ok, b') = expectspace resolution remote d b in
        (ok ≡ expect resolution remote s d) × Took b b' 1
  unfolding expectspace
  expectspace-heard d s xs b z l h =
      let (e, took) = next_space (b.pendings + d) s xs b z l h in
      let b' = (get_next_space (b.pendings + d) b).1 in
      rw (no_pending_pulse b h.no_pulse, e, check_space-clear s d b' z took.no_space) (refl, took)

  -- A pulse and a space of these lengths, or nothing taken.
  abbrev pub pulse_space : ℕ → ℕ → Rbuf → Bool × Rbuf
  pulse_space d e b =
      and_then (or_unget 1 (expectpulse resolution remote d b))
        (λ s. or_unget 2 (expectspace resolution remote e s))

  pub record Tried (b : Rbuf) (r : Bool × Rbuf) (ok : Bool) : Type 0 where
    pub answer : r.0 ≡ ok
    pub took : Took b r.1 (if ok then 2 else 0)

  after_space :
      (b b1 : Rbuf) (r : Bool × Rbuf) (ok : Bool)
      → Took b b1 1
      → r.0 ≡ ok
      → Took b1 r.1 1
      → Tried b (or_unget 2 r) ok
  after_space b b1 (true, b2) true t e u = record { answer = e; took = Took-trans b b1 b2 1 1 t u }
  after_space b b1 (true, b2) false t e u = absurd (cc)
  after_space b b1 (false, b2) true t e u = absurd (cc)
  after_space b b1 (false, b2) false t e u = record {
    answer = e;
    took = unget_two-Took b b2 (Took-trans b b1 b2 1 1 t u);
  }

  after_pulse :
      (e s : ℕ) (xs : List ℕ) (p : ℕ) (b : Rbuf) (r : Bool × Rbuf) (ok : Bool)
      → 0 < s
      → s < 2 ^ 24
      → Ahead b ((pulse_bit + p) ∷ s ∷ xs)
      → r.0 ≡ ok
      → Took b r.1 1
      → Tried b
          (and_then (or_unget 1 r) (λ c. or_unget 2 (expectspace resolution remote e c)))
          (ok && expect resolution remote s e)
  after_pulse e s xs p b (true, b1) true z l h q t =
      let (f, u) = expectspace-heard e s xs b1 z l (Took-one (pulse_bit + p) (s ∷ xs) b b1 h t) in
      after_space b b1 (expectspace resolution remote e b1) (expect resolution remote s e) t f u
  after_pulse e s xs p b (true, b1) false z l h q t = absurd (cc)
  after_pulse e s xs p b (false, b1) true z l h q t = absurd (cc)
  after_pulse e s xs p b (false, b1) false z l h q t = record {
    answer = refl;
    took = unget_one-Took b b1 t;
  }

  pub pulse_space-heard :
      (d e p s : ℕ) (xs : List ℕ) (b : Rbuf)
      → 0 < p
      → p < 2 ^ 24
      → 0 < s
      → s < 2 ^ 24
      → Ahead b ((pulse_bit + p) ∷ s ∷ xs)
      → Tried b (pulse_space d e b) (expect resolution remote p d && expect resolution remote s e)
  pulse_space-heard d e p s xs b zp lp zs ls h =
      let (f, t) = expectpulse-heard d p (s ∷ xs) b zp lp h in
      after_pulse e s xs p b (expectpulse resolution remote d b) (expect resolution remote p d) zs
        ls h f t

  -- The remote has a space after each pulse of a bit, and the lengths of a one are not 0.
  pub record IsPulseSpace : Type 0 where
    pub not_biphase : is_biphase remote ≡ false
    pub not_space_first : is_space_first remote ≡ false
    pub not_goldstar : is_goldstar remote ≡ false
    pub has_trail : 0 < remote.ptrail
    pub one_pulse : 0 < remote.pone
    pub one_space : 0 < remote.sone

  pub expectone-plain :
      (at : ℕ) (b : Rbuf)
      → IsPulseSpace
      → expectone resolution remote at b ≡ pulse_space remote.pone remote.sone b
  unfolding expectone optional_pulse optional_space
  expectone-plain at b k =
      rw
        (
          k.not_biphase,
          k.not_space_first,
          lt→ltb 0 remote.ptrail k.has_trail,
          lt→ltb 0 remote.pone k.one_pulse,
          lt→ltb 0 remote.sone k.one_space,
        )
        refl

  pub expectzero-plain :
      (at : ℕ) (b : Rbuf)
      → IsPulseSpace
      → expectzero resolution remote at b ≡ pulse_space remote.pzero remote.szero b
  unfolding expectzero
  expectzero-plain at b k =
      rw (k.not_biphase, k.not_space_first, lt→ltb 0 remote.ptrail k.has_trail) refl
