-- ===== src/RoundTrip/Code.antt =====
-- A whole signal that `send_code` of daemons/transmit.c sends, read back by `receive_decode` of
-- daemons/receive.c.
use lirc_port_for_mac_os_x.Prelude.{
  ℕ, zero, suc, ◌+◌, ◌-◌, ◌%◌, ◌^◌, ◌≤◌, ◌<◌, ◌≡◌, refl, sym, ap, ◌∙◌, arith, List, [], ◌∷◌, ◌++◌,
  map, none, some, Bool, true, false, ◌&&◌, ltb, if◌then◌else◌, append_assoc, lt→ltb, ==_iff, ◌==◌,
}
use mathlib.Core.Option
use lirc_port_for_mac_os_x.Remote.{Remote, Timeval}
use lirc_port_for_mac_os_x.Remote.Flags.{
  is_raw, is_grundig, is_serial, is_bo, has_header, has_foot, has_pre, has_post, has_flag,
  no_head_rep, bit_count,
}
use lirc_port_for_mac_os_x.Remote.Gaps.{min_gap}
use lirc_port_for_mac_os_x.Remote.Tolerance.Laws.{expect_refl}
use lirc_port_for_mac_os_x.Codes.Dispatch.{Received}
use lirc_port_for_mac_os_x.Transmit.Buffer.{SendBuffer, send_pulse, send_space}
use lirc_port_for_mac_os_x.Transmit.Buffer.Levels.{Signal, pulse, space}
use lirc_port_for_mac_os_x.Transmit.Buffer.Play.{play}
use lirc_port_for_mac_os_x.Transmit.Encode.{
  send_header, send_foot, send_lead, send_trail, send_pre, send_post, send_data, send_code,
}
use lirc_port_for_mac_os_x.Transmit.Encode.Order.{send_data-msb_first}
use lirc_port_for_mac_os_x.Receive.Buffer.{Rbuf, pulse_bit, rewind_rec_buffer}
use lirc_port_for_mac_os_x.Receive.Data.Heard.{Heard, readings, number, Ahead}
use lirc_port_for_mac_os_x.Receive.Fields.Heard.{IsPlain, Fields}
use lirc_port_for_mac_os_x.Receive.Decode.{mode_mode2, receive_decode}
use lirc_port_for_mac_os_x.Receive.Decode.Heard.{
  Around, HeadFits, FitsRemote, header_readings, field_readings, receive_decode-heard,
}
use lirc_port_for_mac_os_x.RoundTrip.{
  sent_bits, signals, length-sent_bits, number-sent_bits, SendsPulseSpace, sent_bits-AllHeard,
  send_msb_first-plays,
}

-- What a driver delivers for a signal.
abbrev pub reading : Signal → ℕ
reading (pulse d) = pulse_bit + d
reading (space d) = d

abbrev pub sent_header : Bool → Remote → List Signal
sent_header true remote = pulse remote.phead ∷ space remote.shead ∷ []
sent_header false remote = []

-- The header, the bits of the three fields and the trailing pulse.
abbrev pub sent_signal : Remote → ℕ → List Signal
sent_signal remote code =
    sent_header (has_header remote) remote
    ++ (signals (sent_bits remote remote.pre_data_bits remote.pre_data)
        ++ (signals (sent_bits remote remote.bits code)
            ++ (signals (sent_bits remote remote.post_data_bits remote.post_data)
                ++ pulse remote.ptrail ∷ [])))

-- A remote whose bits are a pulse and a space each, with a trailing pulse, at most 63 bits, no
-- lead, no foot, no signals between the fields, and a header in every signal or in none.
pub record SendsSignal (resolution : ℕ) (remote : Remote) : Type 0 where
  pub sends : SendsPulseSpace resolution remote
  pub not_raw : is_raw remote ≡ false
  pub not_grundig : is_grundig remote ≡ false
  pub not_serial : is_serial remote ≡ false
  pub not_bo : is_bo remote ≡ false
  pub no_lead : remote.plead ≡ 0
  pub after_pre : (ltb 0 remote.pre_p && ltb 0 remote.pre_s) ≡ false
  pub before_post : (ltb 0 remote.post_p && ltb 0 remote.post_s) ≡ false
  pub no_foot : has_foot remote ≡ false
  pub always_header : has_flag remote no_head_rep ≡ false
  pub some_bits : 0 < remote.bits
  pub all_bits : bit_count remote ≤ 63
  pub trail_below : remote.ptrail < 2 ^ 24
  pub head_below : (remote.phead < 2 ^ 24) × (remote.shead < 2 ^ 24)

play-append : (xs ys : List Signal) (b : SendBuffer) → play (xs ++ ys) b ≡ play ys (play xs b)
play-append [] ys b = refl
play-append (pulse d ∷ xs) ys b = play-append xs ys (send_pulse d b)
play-append (space d ∷ xs) ys b = play-append xs ys (send_space d b)

map-reading-append :
    (xs ys : List Signal) → map reading (xs ++ ys) ≡ map reading xs ++ map reading ys
map-reading-append [] ys = refl
map-reading-append (x ∷ xs) ys = ap (λ t. reading x ∷ t) (map-reading-append xs ys)

map-reading-signals : (hs : List Heard) → map reading (signals hs) ≡ readings hs
map-reading-signals [] = refl
map-reading-signals (h ∷ hs) =
    ap (λ t. (pulse_bit + h.pulse) ∷ h.space ∷ t) (map-reading-signals hs)

module _ (resolution : ℕ) (remote : Remote) (k : SendsSignal resolution remote) where
  send_data-plays :
      (code bits done : ℕ) (b : SendBuffer)
      → bits + done ≤ bit_count remote
      → send_data remote code bits done b ≡ play (signals (sent_bits remote bits code)) b
  send_data-plays code bits done b inside =
      send_data-msb_first remote code bits done b k.sends.not_rcmm k.sends.not_xmp inside
        (omega (arith, k.all_bits))
      ∙ send_msb_first-plays resolution remote bits (bit_count remote - 1 - done) code b k.sends

  send_header-plays :
      (b : SendBuffer) → send_header remote b ≡ play (sent_header (has_header remote) remote) b
  unfolding send_header
  send_header-plays b = by_header (has_header remote)
    where
      by_header :
          (t : Bool)
          → (if t then send_space remote.shead (send_pulse remote.phead b) else b)
            ≡ play (sent_header t remote) b
      by_header true = refl
      by_header false = refl

  send_pre-plays :
      (b : SendBuffer)
      → send_pre remote b ≡ play (signals (sent_bits remote remote.pre_data_bits remote.pre_data)) b
  unfolding send_pre has_pre bit_count
  send_pre-plays b = by_bits remote.pre_data_bits (omega arith)
    where
      by_bits :
          (n : ℕ)
          → n + 0 ≤ remote.pre_data_bits + remote.bits + remote.post_data_bits
          → (if ltb 0 n
              then if ltb 0 remote.pre_p && ltb 0 remote.pre_s
                then send_space remote.pre_s
                    (send_pulse remote.pre_p (send_data remote remote.pre_data n 0 b))
                else send_data remote remote.pre_data n 0 b
              else b)
            ≡ play (signals (sent_bits remote n remote.pre_data)) b
      by_bits zero h = refl
      by_bits (suc n) h =
          rw (lt→ltb 0 (suc n) (omega arith), k.after_pre)
            (send_data-plays remote.pre_data (suc n) 0 b h)

  send_post-plays :
      (b : SendBuffer)
      → send_post remote b
        ≡ play (signals (sent_bits remote remote.post_data_bits remote.post_data)) b
  unfolding send_post has_post bit_count
  send_post-plays b = by_bits remote.post_data_bits (omega arith)
    where
      done : ℕ
      done = remote.pre_data_bits + remote.bits

      by_bits :
          (n : ℕ)
          → n + done ≤ remote.pre_data_bits + remote.bits + remote.post_data_bits
          → (if ltb 0 n
              then send_data remote remote.post_data n done (
                  if ltb 0 remote.post_p && ltb 0 remote.post_s
                  then send_space remote.post_s (send_pulse remote.post_p b)
                  else b)
              else b)
            ≡ play (signals (sent_bits remote n remote.post_data)) b
      by_bits zero h = refl
      by_bits (suc n) h =
          rw (lt→ltb 0 (suc n) (omega arith), k.before_post)
            (send_data-plays remote.post_data (suc n) done b h)

  send_lead-none : (b : SendBuffer) → send_lead remote b ≡ b
  unfolding send_lead
  send_lead-none b =
      let none' : (remote.plead == 0) ≡ true = (==_iff remote.plead 0).1 k.no_lead in rw none' refl

  send_trail-plays : (b : SendBuffer) → send_trail remote b ≡ send_pulse remote.ptrail b
  unfolding send_trail
  send_trail-plays b =
      let trailing : (remote.ptrail == 0) ≡ false = ground (arith, k.sends.pulse_space.has_trail) in
      rw trailing refl

  play_parts :
      (header pre coded post : List Signal) (b : SendBuffer)
      → play (header ++ (pre ++ (coded ++ (post ++ pulse remote.ptrail ∷ [])))) b
        ≡ send_pulse remote.ptrail (play post (play coded (play pre (play header b))))
  play_parts header pre coded post b =
      play-append header _ b
      ∙ play-append pre _ (play header b)
      ∙ play-append coded _ (play pre (play header b))
      ∙ play-append post _ (play coded (play pre (play header b)))

  send_code-plays :
      (code : ℕ) (b : SendBuffer) → send_code remote code false b ≡ play (sent_signal remote code) b
  unfolding send_code send_foot bit_count
  send_code-plays code b =
      let inside : remote.bits + remote.pre_data_bits
          ≤ remote.pre_data_bits + remote.bits + remote.post_data_bits =
        omega arith in
      let head = play (sent_header (has_header remote) remote) b in
      let pre = play (signals (sent_bits remote remote.pre_data_bits remote.pre_data)) head in
      let coded = play (signals (sent_bits remote remote.bits code)) pre in
      let parts =
        play_parts (sent_header (has_header remote) remote)
          (signals (sent_bits remote remote.pre_data_bits remote.pre_data))
          (signals (sent_bits remote remote.bits code))
          (signals (sent_bits remote remote.post_data_bits remote.post_data)) b in
      rw
        (
          k.always_header,
          k.no_foot,
          send_header-plays b,
          send_lead-none head,
          send_pre-plays head,
          send_data-plays code remote.bits remote.pre_data_bits pre inside,
          send_post-plays coded,
          send_trail-plays,
        )
        (sym parts)

  -- What is around the fields if a driver delivers what was sent.
  abbrev pub around : ℕ → ℕ → Around
  around before after = record {
    before = before;
    head_pulse = remote.phead;
    head_space = remote.shead;
    trail = remote.ptrail;
    after = after;
  }

  sent-IsPlain : IsPlain resolution remote
  sent-IsPlain = record {
    pulse_space = k.sends.pulse_space;
    not_rcmm = k.sends.not_rcmm;
    not_grundig = k.not_grundig;
    not_serial = k.not_serial;
    not_bo = k.not_bo;
    not_xmp = k.sends.not_xmp;
    no_lead = k.no_lead;
    after_pre = k.after_pre;
    before_post = k.before_post;
  }

  sent-HeadFits :
      (before after : ℕ) → HeadFits resolution remote (around before after) (has_header remote)
  unfolding has_header
  sent-HeadFits before after = by_header (has_header remote) refl
    where
      by_header :
          (t : Bool) → has_header remote ≡ t → HeadFits resolution remote (around before after) t
      by_header false e = tt
      by_header true e = (
        ground (arith, e),
        k.head_below.0,
        ground (arith, e),
        k.head_below.1,
        expect_refl resolution remote remote.phead,
        expect_refl resolution remote remote.shead,
      )

  sent-FitsRemote :
      (before after : ℕ)
      → (0 < before) × (before < 2 ^ 24)
      → (0 < after) × (after < 2 ^ 24)
      → min_gap remote ≤ after
      → FitsRemote resolution remote (around before after)
  sent-FitsRemote before after hb ha gap = record {
    plain = sent-IsPlain;
    not_raw = k.not_raw;
    no_foot = k.no_foot;
    always_header = k.always_header;
    some_bits = k.some_bits;
    before_reading = hb;
    trail_reading = (k.sends.pulse_space.has_trail, k.trail_below);
    after_reading = ha;
    head_fits = sent-HeadFits before after;
    trail_fits = expect_refl resolution remote remote.ptrail;
    after_fits = gap;
  }

  sent_header-readings :
      (before after : ℕ) (t : Bool)
      → map reading (sent_header t remote) ≡ header_readings t (around before after)
  sent_header-readings before after true = refl
  sent_header-readings before after false = refl

  sent_signal-readings :
      (code before after : ℕ)
      → map reading (sent_signal remote code) ++ after ∷ []
        ≡ header_readings (has_header remote) (around before after)
          ++ field_readings
              (sent_bits remote remote.pre_data_bits remote.pre_data)
              (sent_bits remote remote.bits code)
              (sent_bits remote remote.post_data_bits remote.post_data)
              (around before after)
  sent_signal-readings code before after = simp (
    map-reading-append,
    map-reading-signals,
    sent_header-readings before after (has_header remote),
    append_assoc,
  )

  sent-Fields :
      (code : ℕ)
      → Fields resolution remote
          (sent_bits remote remote.pre_data_bits remote.pre_data)
          (sent_bits remote remote.bits code)
          (sent_bits remote remote.post_data_bits remote.post_data)
  unfolding bit_count
  sent-Fields code = record {
    pre_heard = sent_bits-AllHeard resolution remote remote.pre_data_bits remote.pre_data k.sends;
    code_heard = sent_bits-AllHeard resolution remote remote.bits code k.sends;
    post_heard =
        sent_bits-AllHeard resolution remote remote.post_data_bits remote.post_data k.sends;
    pre_bits = length-sent_bits remote remote.pre_data_bits remote.pre_data;
    code_bits = length-sent_bits remote remote.bits code;
    post_bits = length-sent_bits remote remote.post_data_bits remote.post_data;
    all_bits = k.all_bits;
  }

  -- The low bits of a code, as the bits that are sent of it.
  sent_value : (n x : ℕ) → number 0 (sent_bits remote n x) ≡ x % 2 ^ n
  sent_value n x = number-sent_bits remote n x 0 ∙ omega arith

  module _ (fuel code_length : ℕ) (current : Timeval) where
    -- For a remote that is not raw, RC-MM, XMP, Grundig, serial or BO and has no rc6 mask, whose
    -- bits are a pulse and a space each, with a trailing pulse, at least one bit in a code, at most
    -- 63 bits in all, a header in every signal or in none, no lead, foot, toggled bits or signals
    -- between its fields, with lengths below 2 ^ 24, those of a pulse and of a space positive, and
    -- with no zero within the tolerance of a one: `send_code` sends the header, the bits of the
    -- pre-data, of the code and of the post-data and the trailing pulse; and where the receive
    -- buffer starts with a gap, these pulses and spaces and a gap that is long enough, the gaps
    -- below 2 ^ 24, and no signal came before, `receive_decode`, from a driver that delivers pulses
    -- and spaces, accepts the signal and reports these three fields again, each cut to its width.
    pub receive_decode-send_code :
        (code before after : ℕ) (sb : SendBuffer) (b : Rbuf)
        → (0 < before) × (before < 2 ^ 24)
        → (0 < after) × (after < 2 ^ 24)
        → min_gap remote ≤ after
        → Ahead
            (rewind_rec_buffer b)
            (before ∷ (map reading (sent_signal remote code) ++ after ∷ []))
        → (send_code remote code false sb ≡ play (sent_signal remote code) sb)
          × (Option.map
                (λ (d : Received). d.fields)
                (receive_decode resolution fuel mode_mode2 code_length current none b remote).0
              ≡ some (record {
                pre = remote.pre_data % 2 ^ remote.pre_data_bits;
                code = code % 2 ^ remote.bits;
                post = remote.post_data % 2 ^ remote.post_data_bits;
              }))
    receive_decode-send_code code before after sb b hb ha gap a =
        let pre = sent_bits remote remote.pre_data_bits remote.pre_data in
        let mid = sent_bits remote remote.bits code in
        let post = sent_bits remote remote.post_data_bits remote.post_data in
        let read =
          receive_decode-heard resolution fuel remote (around before after)
            (sent-FitsRemote before after hb ha gap) pre mid post (sent-Fields code) code_length
            current b (rw (sent_signal-readings code before after) at a) in
        (
          send_code-plays code sb,
          rw
              (
                sent_value remote.pre_data_bits remote.pre_data,
                sent_value remote.bits code,
                sent_value remote.post_data_bits remote.post_data,
              )
              at read,
        )
