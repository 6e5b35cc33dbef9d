-- ===== src/Receive/Decode/Heard.antt =====
-- A whole signal in the receive buffer, from the gap before it to the gap after it.
use lirc_port_for_mac_os_x.Prelude.{
  ℕ, pos, ◌+◌, ◌^◌, ◌≤◌, ◌<◌, ◌≡◌, refl, ap, ◌∙◌, inl, inr, arith, List, [], ◌∷◌, ◌++◌, Option,
  none, some, Bool, true, false, ◌&&◌, ◌==◌, Bool-cases, length, append_assoc, length-append,
}
use mathlib.Core.Option
use lirc_port_for_mac_os_x.Remote.{Remote, Timeval}
use lirc_port_for_mac_os_x.Remote.Flags.{
  is_raw, is_biphase, has_header, has_foot, has_repeat, has_flag, no_head_rep,
}
use lirc_port_for_mac_os_x.Remote.Gaps.{min_gap}
use lirc_port_for_mac_os_x.Remote.Tolerance.{expect}
use lirc_port_for_mac_os_x.Codes.Mapping.{Fields3}
use lirc_port_for_mac_os_x.Codes.Dispatch.{Received}
use lirc_port_for_mac_os_x.Receive.Buffer.{
  Rbuf, pulse_bit, set_pending_space, get_next_space, rewind_rec_buffer,
}
use lirc_port_for_mac_os_x.Receive.Expect.{and_then, or_unget, done, expectpulse}
use lirc_port_for_mac_os_x.Receive.Signal.{get_header, sync_rec_buffer}
use lirc_port_for_mac_os_x.Receive.Data.Heard.{
  Heard, readings, number, Ahead, Took, Took-one, Took-trans, next_space,
}
use lirc_port_for_mac_os_x.Receive.Data.PulseSpace.{expectpulse-heard}
use lirc_port_for_mac_os_x.Receive.Fields.{read_fields, and_read}
use lirc_port_for_mac_os_x.Receive.Fields.Heard.{
  IsPlain, Fields, Took-Ahead, Took-zero, read_fields-heard,
}
use lirc_port_for_mac_os_x.Receive.Fields.LeadIn.{pending_space-heard, read_fields-synced}
use lirc_port_for_mac_os_x.Receive.Fields.End.{end_signal-heard}
use lirc_port_for_mac_os_x.Receive.Decode.{
  mode_mode2, begin_signal, read_code, finish, after_begin, is_last, receive_timed, receive_decode,
}

-- The lengths that were measured of the gap before a signal, of the pulse and the space of its
-- header, of its trailing pulse and of the gap after it.
pub record Around : Type 0 where
  pub before : ℕ
  pub head_pulse : ℕ
  pub head_space : ℕ
  pub trail : ℕ
  pub after : ℕ

-- The lengths of the header, where there is one, fit a driver's reading and those of the remote.
abbrev pub HeadFits : ℕ → Remote → Around → Bool → Type 0
HeadFits resolution remote r false = Unit
HeadFits resolution remote r true =
    (0 < r.head_pulse)
    × (r.head_pulse < 2 ^ 24)
    × (0 < r.head_space)
    × (r.head_space < 2 ^ 24)
    × (expect resolution remote r.head_pulse remote.phead ≡ true)
    × (expect resolution remote r.head_space remote.shead ≡ true)

-- The lengths fit a driver's reading and those of the remote, which has neither a foot nor signals
-- without a header.
pub record FitsRemote (resolution : ℕ) (remote : Remote) (r : Around) : Type 0 where
  pub plain : IsPlain resolution remote
  pub not_raw : is_raw remote ≡ false
  pub no_foot : has_foot remote ≡ false
  pub always_header : has_flag remote no_head_rep ≡ false
  pub some_bits : 0 < remote.bits
  pub before_reading : (0 < r.before) × (r.before < 2 ^ 24)
  pub trail_reading : (0 < r.trail) × (r.trail < 2 ^ 24)
  pub after_reading : (0 < r.after) × (r.after < 2 ^ 24)
  pub head_fits : HeadFits resolution remote r (has_header remote)
  pub trail_fits : expect resolution remote r.trail remote.ptrail ≡ true
  pub after_fits : min_gap remote ≤ r.after

-- The readings of the header, where there is one, and of the fields and what follows them.
abbrev pub header_readings : Bool → Around → List ℕ
header_readings true r = (pulse_bit + r.head_pulse) ∷ r.head_space ∷ []
header_readings false r = []

abbrev pub field_readings : List Heard → List Heard → List Heard → Around → List ℕ
field_readings pre code post r =
    readings pre ++ (readings code ++ (readings post ++ (pulse_bit + r.trail) ∷ r.after ∷ []))

abbrev pub signal_readings : Remote → List Heard → List Heard → List Heard → Around → List ℕ
signal_readings remote pre code post r =
    r.before ∷ (header_readings (has_header remote) r ++ field_readings pre code post r)

header_space : (remote : Remote) → has_header remote ≡ true → 0 < remote.shead
unfolding has_header
header_space remote h = ground (arith, h)

module _ (resolution fuel : ℕ) (remote : Remote) (r : Around)
    (fits : FitsRemote resolution remote r) (pre code post : List Heard)
    (fields : Fields resolution remote pre code post) where
  abbrev pub found : Fields3
  found = record { pre = number 0 pre; code = number 0 code; post = number 0 post }

  ended :
      (x : Bool × Rbuf)
      → x.0 ≡ true
      → (and_read resolution fuel x remote (λ b. (some found, remote, b))).0 ≡ some found
  ended (true, b) e = refl
  ended (false, b) e = absurd (cc)

  -- From the first bit on.
  read_fields-found :
      (header : Bool) (k : ℕ) (start b : Rbuf)
      → Ahead b (field_readings pre code post r)
      → Took start b k
      → start.sum ≡ pos 0
      → (read_fields resolution fuel header remote b).0 ≡ some found
  read_fields-found header k start b a t z =
      let tail = (pulse_bit + r.trail) ∷ r.after ∷ [] in
      let (c, reads, took) =
        read_fields-heard resolution fuel remote fits.plain header pre code post tail b fields a in
      let regroup : readings pre ++ (readings code ++ (readings post ++ tail))
          ≡ ((readings pre ++ readings code) ++ readings post) ++ tail =
        simp append_assoc in
      let count : length ((readings pre ++ readings code) ++ readings post)
          ≡ length (readings pre) + length (readings code) + length (readings post) =
        omega (
          arith,
          length-append (readings pre ++ readings code) (readings post),
          length-append (readings pre) (readings code),
        ) in
      let left : Ahead c tail =
        Took-Ahead ((readings pre ++ readings code) ++ readings post) tail b c (rw (← regroup) a)
          (rw count took) in
      let whole = Took-trans start b c k _ t took in
      ap (λ (x : Option Fields3 × Remote × Rbuf). x.0) reads
      ∙ ended _ (
          end_signal-heard resolution remote header r.trail r.after _ start c
            fits.plain.pulse_space.has_trail fits.no_foot fits.always_header fits.plain.not_rcmm
            fits.trail_reading.0 fits.trail_reading.1 fits.trail_fits fits.after_reading.0
            fits.after_reading.1 fits.after_fits left whole z)

  -- A header, whose space is pending after it.
  get_header-found :
      (xs : List ℕ) (b : Rbuf)
      → has_header remote ≡ true
      → Ahead b ((pulse_bit + r.head_pulse) ∷ r.head_space ∷ xs)
      → (c : Rbuf) × (get_header resolution remote b ≡ (true, set_pending_space remote.shead c))
        × Took b c 1
  unfolding get_header has_header
  get_header-found xs b h a =
      let head = rw h at fits.head_fits in
      let (ok, took) =
        expectpulse-heard resolution remote remote.phead r.head_pulse (r.head_space ∷ xs) b head.0
          head.1 a in
      let positive : (remote.shead == 0) ≡ false = ground (arith, h) in
      let x = expectpulse resolution remote remote.phead b in
      (
        x.1,
        rw (fits.plain.not_rcmm, fits.plain.not_bo, positive, fits.always_header)
            (then_pending x (ok ∙ head.4)),
        took,
      )
    where
      then_pending :
          (x : Bool × Rbuf)
          → x.0 ≡ true
          → and_then (or_unget 1 x) (λ s. done (set_pending_space remote.shead s))
            ≡ (true, set_pending_space remote.shead x.1)
      then_pending (true, s) e = refl
      then_pending (false, s) e = absurd (cc)

  -- The fields after a header.
  with_header :
      (b : Rbuf)
      → has_header remote ≡ true
      → b.sum ≡ pos 0
      → Ahead b (header_readings true r ++ field_readings pre code post r)
      → (c : Rbuf) × (get_header resolution remote b ≡ (true, c))
        × ((read_fields resolution fuel true remote c).0 ≡ some found)
  with_header b h z a =
      let head = rw h at fits.head_fits in
      let xs = field_readings pre code post r in
      let (c, is, took) = get_header-found xs b h a in
      let space_ahead = Took-one (pulse_bit + r.head_pulse) (r.head_space ∷ xs) b c a took in
      let (d, synced, took') =
        pending_space-heard resolution remote remote.shead r.head_space xs c (header_space remote h)
          head.2 head.3 space_ahead head.5 in
      let bits_ahead = Took-one r.head_space xs c d space_ahead took' in
      (
        set_pending_space remote.shead c,
        is,
        ap (λ (x : Option Fields3 × Remote × Rbuf). x.0)
              (read_fields-synced resolution fuel remote fits.plain _ d synced took'.no_space true
                fits.some_bits)
            ∙ read_fields-found true 2 b d bits_ahead (Took-trans b c d 1 1 took took') z,
      )

  module _ (code_length : ℕ) (current : Timeval) where
    -- What is reported once the header was dealt with.
    finish-found :
        (sync : ℕ) (header : Bool) (b : Rbuf)
        → (read_fields resolution fuel header remote b).0 ≡ some found
        → Option.map
            (λ (d : Received). d.fields)
            (finish resolution fuel mode_mode2 code_length current none (
              read_code resolution fuel mode_mode2 code_length current none
                (pos sync)
                header
                remote
                b)).0
          ≡ some found
    unfolding finish read_code
    finish-found sync header b e = rw (fits.not_raw, e) refl

    begun-found :
        (sync : ℕ) (b : Rbuf)
        → b.sum ≡ pos 0
        → Ahead b (header_readings (has_header remote) r ++ field_readings pre code post r)
        → Option.map
            (λ (d : Received). d.fields)
            (after_begin resolution fuel mode_mode2 code_length current none
              (begin_signal resolution sync remote b)).0
          ≡ some found
    unfolding after_begin begin_signal
    begun-found sync b z a = elim (Bool-cases (has_header remote)) [
      | inl h ↦
          (let (c, is, read) = with_header b h z (rw h at a) in
            rw (h, is) (finish-found sync true c read))
      | inr h ↦ rw h (
          finish-found sync false b (
            read_fields-found false 0 b b (rw h at a)
              (Took-zero resolution fuel remote fits.plain _ b (rw h at a)) z))
    ]

    sync-found :
        (deltas : ℕ) (b : Rbuf)
        → (get_next_space 1000000 b).0 ≡ deltas
        → (deltas == 0) ≡ false
        → sync_rec_buffer resolution none remote b
          ≡ (deltas, remote, record (get_next_space 1000000 b).1 { sum = pos 0 })
    unfolding sync_rec_buffer
    sync-found deltas b e n = rw (e, n) refl

    receive_timed-synced :
        (sync : ℕ) (b c : Rbuf)
        → sync_rec_buffer resolution none remote
            (record (rewind_rec_buffer b) { is_biphase = is_biphase remote })
          ≡ (sync, remote, c)
        → (sync == 0) ≡ false
        → receive_timed resolution fuel mode_mode2 code_length current none remote b
          ≡ after_begin resolution fuel mode_mode2 code_length current none
              (begin_signal resolution sync remote c)
    unfolding receive_timed is_last
    receive_timed-synced sync b c e n =
        let not_last : (has_repeat remote && false) ≡ false = ground arith in
        rw (e, n, not_last) refl

    -- From a driver that delivers pulses and spaces: if the receive buffer starts with a gap, the
    -- header of the remote (if it has one), a pulse and a space for each bit of the three fields,
    -- the trailing pulse and a gap that is long enough, each within the tolerance of the remote,
    -- none of the zeros within the tolerance of a one, all lengths positive and below 2 ^ 24, and
    -- no signal came before, then `receive_decode` accepts the signal and reports the numbers with
    -- these bits; for a remote that is not raw, RC-MM, XMP, Grundig, serial or BO, encodes bits as
    -- a pulse and a space each, those of a one not of length 0, ends with a pulse, and has at least
    -- one bit in a code, at most 63 bits in all, no foot, no lead, no signals between its fields,
    -- and a header in every signal or in none.
    pub receive_decode-heard :
        (b : Rbuf)
        → Ahead (rewind_rec_buffer b) (signal_readings remote pre code post r)
        → Option.map
            (λ (d : Received). d.fields)
            (receive_decode resolution fuel mode_mode2 code_length current none b remote).0
          ≡ some found
    unfolding receive_decode
    receive_decode-heard b a =
        let xs = header_readings (has_header remote) r ++ field_readings pre code post r in
        let start : Rbuf = record (rewind_rec_buffer b) { is_biphase = is_biphase remote } in
        let ready : Ahead start (r.before ∷ xs) = record {
          no_pulse = a.no_pulse;
          no_space = a.no_space;
          next = a.next;
          available = a.available;
        } in
        let (gap, took) =
          next_space 1000000 r.before xs start fits.before_reading.0 fits.before_reading.1 ready in
        let synced : Rbuf = record (get_next_space 1000000 start).1 { sum = pos 0 } in
        let first = Took-one r.before xs start _ ready took in
        let ahead : Ahead synced xs = record {
          no_pulse = first.no_pulse;
          no_space = first.no_space;
          next = first.next;
          available = first.available;
        } in
        let positive : (r.before == 0) ≡ false = ground (arith, fits.before_reading) in
        ap (λ (x : Option Received × Remote × Rbuf). Option.map (λ (d : Received). d.fields) x.0)
          (receive_timed-synced r.before b synced (sync-found r.before start gap positive) positive)
        ∙ begun-found r.before synced refl ahead
