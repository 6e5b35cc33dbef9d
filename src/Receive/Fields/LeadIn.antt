-- ===== src/Receive/Fields/LeadIn.antt =====
-- The space of a header is taken together with the first bit after it.
use lirc_port_for_mac_os_x.Prelude.{
  ℕ, zero, suc, pos, ◌+◌, ◌^◌, ◌<◌, ◌≡◌, refl, ap, arith, List, ◌∷◌, Option, Bool, true, false, ltb,
  lt→ltb, ltb→lt, none, some, bit_or, ◌==◌, bit_and, get_or, add_lirc, +ℤ_parts, if◌then◌else◌,
}
use lirc_port_for_mac_os_x.Word.{shl}
use lirc_port_for_mac_os_x.Remote.{Remote}
use lirc_port_for_mac_os_x.Remote.Flags.{has_pre}
use lirc_port_for_mac_os_x.Remote.Tolerance.{expect}
use lirc_port_for_mac_os_x.Receive.Buffer.{
  Rbuf, pulse_mask, set_pending_space, get_next_space, get_next_rec_buffer,
  get_next_rec_buffer_internal,
}
use lirc_port_for_mac_os_x.Receive.Expect.{sync_pending_space, expectpulse}
use lirc_port_for_mac_os_x.Receive.Data.{no_data, set_lengths, take_bit, bit_loop, get_data_bits}
use lirc_port_for_mac_os_x.Receive.Data.Heard.{Ahead, Took, space_value, total-next}
use lirc_port_for_mac_os_x.Receive.Data.PulseSpace.{pulse_space, no_pending_space, expectone-plain}
use lirc_port_for_mac_os_x.Receive.Data.Recover.{same_lengths}
use lirc_port_for_mac_os_x.Receive.Fields.{
  get_data, get_between, get_pre, and_data, then_code, then_post, read_fields,
}
use lirc_port_for_mac_os_x.Receive.Fields.Heard.{IsPlain, get_data-plain, no_lead_lem}

-- A space that is pending, and then is found.
pub pending_space-heard :
    (resolution : ℕ) (remote : Remote) (sh s : ℕ) (xs : List ℕ) (b : Rbuf)
    → 0 < sh
    → 0 < s
    → s < 2 ^ 24
    → Ahead b (s ∷ xs)
    → expect resolution remote s sh ≡ true
    → (c : Rbuf) × (sync_pending_space resolution remote (set_pending_space sh b) ≡ (true, c))
      × Took b c 1
unfolding sync_pending_space get_next_space get_next_rec_buffer get_next_rec_buffer_internal
    set_pending_space
pending_space-heard resolution remote sh s xs b z y l a e =
    let some_left : ltb b.rptr b.wptr ≡ true = lt→ltb b.rptr b.wptr (omega (arith, a.available)) in
    let positive : (s == 0) ≡ false = ground arith in
    let cell : get_or b.cells b.rptr 0 ≡ s = a.next.0 in
    let c : Rbuf = record b {
      sum = add_lirc b.sum (bit_and (get_or b.cells b.rptr 0) pulse_mask);
      rptr = b.rptr + 1;
      pendings = 0;
    } in
    (
      c,
      rw (lt→ltb 0 sh z, some_left, cell, positive, space_value s l, positive, e) refl,
      record {
        no_pulse = a.no_pulse;
        no_space = refl;
        same_cells = refl;
        same_end = refl;
        moved = refl;
        balanced = omega (
          arith,
          +ℤ_parts b.sum (pos (bit_and (get_or b.cells b.rptr 0) pulse_mask)),
          total-next b.cells b.rptr,
        );
      },
    )

module _ (resolution fuel : ℕ) (remote : Remote) (k : IsPlain resolution remote) (b c : Rbuf)
    (synced : sync_pending_space resolution remote b ≡ (true, c)) (clear : c.pendings ≡ 0) where
  expectpulse-synced :
      (d : ℕ) → expectpulse resolution remote d b ≡ expectpulse resolution remote d c
  unfolding expectpulse
  expectpulse-synced d = rw (synced, no_pending_space resolution remote c clear) refl

  pulse_space-synced :
      (d e : ℕ) → pulse_space resolution remote d e b ≡ pulse_space resolution remote d e c
  pulse_space-synced d e = rw (expectpulse-synced d) refl

  take_bit-synced : (at : ℕ) → take_bit resolution remote at b ≡ take_bit resolution remote at c
  unfolding take_bit
  take_bit-synced at =
      rw
        (
          expectone-plain resolution remote at b k.pulse_space,
          expectone-plain resolution remote at c k.pulse_space,
          pulse_space-synced remote.pone remote.sone,
        )
        refl

  bit_loop-synced :
      (n at code : ℕ)
      → bit_loop resolution (suc n) remote at code b ≡ bit_loop resolution (suc n) remote at code c
  unfolding bit_loop
  bit_loop-synced n at code =
      let set = set_lengths remote at in
      let same : take_bit resolution set at b ≡ take_bit resolution set at c =
        rw (same_lengths resolution remote at k.pulse_space) (take_bit-synced at) in
      ap
        (λ (r : Option ℕ × Rbuf). elim r.0 as (λ _. ℕ × Remote × Rbuf) [
          | none ↦ (no_data, set, r.1)
          | some d ↦ bit_loop resolution n set (at + 1) (bit_or (shl code 1) d) r.1
        ])
        same

  get_data-synced :
      (bits done : ℕ)
      → 0 < bits
      → get_data resolution fuel remote bits done b ≡ get_data resolution fuel remote bits done c
  unfolding get_data_bits
  get_data-synced zero done h = absurd (omega arith)
  get_data-synced (suc n) done h =
      rw
        (
          get_data-plain resolution fuel remote k (suc n) done b,
          get_data-plain resolution fuel remote k (suc n) done c,
        )
        (bit_loop-synced n done 0)

  get_pre-synced :
      0 < remote.pre_data_bits → get_pre resolution fuel remote b ≡ get_pre resolution fuel remote c
  unfolding get_pre
  get_pre-synced h =
      ap
        (λ (r : ℕ × Remote × Rbuf).
          let (ok, b'') = get_between resolution r.1 r.1.pre_p r.1.pre_s r.2 in
          if r.0 == no_data then (no_data, r.1, r.2) else (if ok then r.0 else no_data, r.1, b''))
        (get_data-synced remote.pre_data_bits 0 h)

  then_code-synced :
      (header : Bool)
      → 0 < remote.bits
      → then_code resolution fuel header 0 remote b ≡ then_code resolution fuel header 0 remote c
  then_code-synced header h =
      ap
        (λ (r : ℕ × Remote × Rbuf).
          and_data resolution fuel r (λ code r' b'. then_post resolution fuel header 0 code r' b'))
        (get_data-synced remote.bits remote.pre_data_bits h)

  first-synced :
      (header : Bool) (t : Bool)
      → ltb 0 remote.pre_data_bits ≡ t
      → 0 < remote.bits
      → let next =
          λ (pre : ℕ) (r : Remote) (b' : Rbuf). then_code resolution fuel header pre r b' in
        and_data resolution fuel
          (if t then get_pre resolution fuel remote b else (0, remote, b))
          next
        ≡ and_data resolution fuel
            (if t then get_pre resolution fuel remote c else (0, remote, c))
            next
  first-synced header true e h =
      ap
        (λ (r : ℕ × Remote × Rbuf).
          and_data resolution fuel r (λ pre r' b'. then_code resolution fuel header pre r' b'))
        (get_pre-synced (ltb→lt 0 remote.pre_data_bits e))
  first-synced header false e h = then_code-synced header h

  pub read_fields-synced :
      (header : Bool)
      → 0 < remote.bits
      → read_fields resolution fuel header remote b ≡ read_fields resolution fuel header remote c
  unfolding read_fields has_pre
  read_fields-synced header h =
      rw (no_lead_lem resolution fuel remote k b, no_lead_lem resolution fuel remote k c)
        (first-synced header (ltb 0 remote.pre_data_bits) refl h)
