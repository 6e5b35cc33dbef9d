-- ===== src/Receive/Fields/Heard.antt =====
-- The fields of a signal that is in the receive buffer, for remotes that encode each bit as a pulse
-- and a space.
use lirc_port_for_mac_os_x.Prelude.{
  ℕ, suc, ◌+◌, ◌*◌, ◌^◌, ◌≤◌, ◌<◌, ◌≡◌, refl, ◌∙◌, arith, List, [], ◌∷◌, ◌++◌, Option, Bool, true,
  false, ◌&&◌, ltb, ◌==◌, if◌then◌else◌, Bool-cases, inl, inr, length, length-append, pow_mono,
}
use lirc_port_for_mac_os_x.Remote.{Remote}
use lirc_port_for_mac_os_x.Remote.Flags.{
  is_rcmm, is_grundig, is_serial, is_bo, is_xmp, has_pre, has_post,
}
use lirc_port_for_mac_os_x.Codes.Mapping.{Fields3}
use lirc_port_for_mac_os_x.Codes.Mapping.Fields.{shift_in}
use lirc_port_for_mac_os_x.Receive.Buffer.{Rbuf}
use lirc_port_for_mac_os_x.Receive.Signal.{get_lead}
use lirc_port_for_mac_os_x.Receive.Data.{no_data, get_data_bits}
use lirc_port_for_mac_os_x.Receive.Data.Heard.{Heard, readings, number, At, Ahead, Took, Took-trans}
use lirc_port_for_mac_os_x.Receive.Data.PulseSpace.{IsPulseSpace}
use lirc_port_for_mac_os_x.Receive.Data.Recover.{AllHeard, bit_below, bit_loop-heard}
use lirc_port_for_mac_os_x.Receive.Fields.{
  get_data, get_between, get_pre, get_post, and_data, then_end, then_post, then_code, read_fields,
}

At-append :
    (xs ys : List ℕ) (cells : List ℕ) (p : ℕ) → At cells p (xs ++ ys) → At cells (p + length xs) ys
At-append [] ys cells p h = let e : p + 0 ≡ p = omega arith in rw e h
At-append (x ∷ xs) ys cells p h =
    let e : p + suc (length xs) ≡ suc p + length xs = omega arith in
    rw e (At-append xs ys cells (suc p) h.1)

-- What is ahead once the first values were taken.
pub Took-Ahead :
    (xs ys : List ℕ) (b b' : Rbuf) → Ahead b (xs ++ ys) → Took b b' (length xs) → Ahead b' ys
Took-Ahead xs ys b b' h t = record {
  no_pulse = t.no_pulse;
  no_space = t.no_space;
  next = rw (t.same_cells, t.moved) (At-append xs ys b.cells b.rptr h.next);
  available = omega (arith, h.available, t.same_end, t.moved, length-append xs ys);
}

length-readings : (hs : List Heard) → length (readings hs) ≡ 2 * length hs
length-readings [] = refl
length-readings (h ∷ hs) = omega (arith, length-readings hs)

-- The remote encodes bits as pulses and spaces, and has no signals between its fields.
pub record IsPlain (resolution : ℕ) (remote : Remote) : Type 0 where
  pub pulse_space : IsPulseSpace resolution remote
  pub not_rcmm : is_rcmm remote ≡ false
  pub not_grundig : is_grundig remote ≡ false
  pub not_serial : is_serial remote ≡ false
  pub not_bo : is_bo remote ≡ false
  pub not_xmp : is_xmp remote ≡ false
  pub no_lead : remote.plead ≡ 0
  pub after_pre : (ltb 0 remote.pre_p && ltb 0 remote.pre_s) ≡ false
  pub before_post : (ltb 0 remote.post_p && ltb 0 remote.post_s) ≡ false

-- The three fields, each with the width of the remote.
pub record Fields (resolution : ℕ) (remote : Remote) (pre code post : List Heard) : Type 0 where
  pub pre_heard : AllHeard resolution remote pre
  pub code_heard : AllHeard resolution remote code
  pub post_heard : AllHeard resolution remote post
  pub pre_bits : length pre ≡ remote.pre_data_bits
  pub code_bits : length code ≡ remote.bits
  pub post_bits : length post ≡ remote.post_data_bits
  pub all_bits : remote.pre_data_bits + remote.bits + remote.post_data_bits ≤ 63

module _ (resolution fuel : ℕ) (remote : Remote) (k : IsPlain resolution remote) where
  number-lt :
      (hs : List Heard) (j code : ℕ)
      → AllHeard resolution remote hs
      → j + length hs ≤ 64
      → code < 2 ^ j
      → number code hs < 2 ^ (j + length hs)
  number-lt [] j code i w l = let e : j + 0 ≡ j = omega arith in rw e l
  number-lt (h ∷ hs) j code (i, is) w l =
      let (_, bound) = shift_in j 1 code h.bit (omega arith) l (bit_below resolution remote h i) in
      let below : 2 * code + h.bit < 2 ^ (j + 1) = omega (arith, bound) in
      let e : j + suc (length hs) ≡ (j + 1) + length hs = omega arith in
      rw e (number-lt hs (j + 1) (2 * code + h.bit) is (omega arith) below)

  number-ne-no_data :
      (hs : List Heard)
      → AllHeard resolution remote hs
      → length hs ≤ 63
      → (number 0 hs == no_data) ≡ false
  number-ne-no_data hs i w =
      let small = number-lt hs 0 0 i (omega arith) (omega arith) in
      let e : 0 + length hs ≡ length hs = omega arith in
      let below : number 0 hs < 2 ^ 63 = omega (arith, rw e at small, pow_mono (length hs) 63 w) in
      ground (arith, below)

  pub get_data-plain :
      (bits done : ℕ) (b : Rbuf)
      → get_data resolution fuel remote bits done b ≡ get_data_bits resolution remote bits done b
  unfolding get_data
  get_data-plain bits done b =
      rw (k.not_rcmm, k.not_grundig, k.not_serial, k.not_bo, k.not_xmp) refl

  -- What reading a field gives where its bits are ahead.
  pub record FieldRead (hs : List Heard) (b : Rbuf) (r : ℕ × Remote × Rbuf) : Type 0 where
    pub value : r.0 ≡ number 0 hs
    pub same_remote : r.1 ≡ remote
    pub took : Took b r.2 (length (readings hs))

  get_data-FieldRead :
      (hs : List Heard) (rest : List ℕ) (bits done : ℕ) (b : Rbuf)
      → AllHeard resolution remote hs
      → length hs ≡ bits
      → bits ≤ 63
      → Ahead b (readings hs ++ rest)
      → FieldRead hs b (get_data resolution fuel remote bits done b)
  unfolding get_data_bits
  get_data-FieldRead hs rest bits done b i e w a =
      let (value, same, took) =
        bit_loop-heard resolution remote hs rest done 0 0 b k.pulse_space i a (omega (arith, e, w))
          (omega arith) in
      rw (get_data-plain bits done b, ← e)
        (record { value = value; same_remote = same; took = rw (length-readings hs) took })

  no_between :
      (p s : ℕ) (b : Rbuf)
      → (ltb 0 p && ltb 0 s) ≡ false
      → get_between resolution remote p s b ≡ (true, b)
  unfolding get_between
  no_between p s b h = rw h refl

  -- `get_pre` on what `get_data` gave.
  pre_read :
      (hs : List Heard) (b : Rbuf) (r : ℕ × Remote × Rbuf)
      → FieldRead hs b r
      → (number 0 hs == no_data) ≡ false
      → FieldRead hs b (
          let (ok, b'') = get_between resolution r.1 r.1.pre_p r.1.pre_s r.2 in
          if r.0 == no_data then (no_data, r.1, r.2) else (if ok then r.0 else no_data, r.1, b''))
  pre_read hs b (pre, remote', b') f n =
      rw (f.value, n, f.same_remote, no_between remote.pre_p remote.pre_s b' k.after_pre)
        (record { value = refl; same_remote = refl; took = f.took })

  nothing_read :
      (hs : List Heard) (b : Rbuf) → Took b b 0 → length hs ≡ 0 → FieldRead hs b (0, remote, b)
  nothing_read [] b t e = record { value = refl; same_remote = refl; took = t }
  nothing_read (h ∷ hs) b t e = absurd (omega (arith, e))

  pub Took-zero : (xs : List ℕ) (b : Rbuf) → Ahead b xs → Took b b 0
  Took-zero xs b a = record {
    no_pulse = a.no_pulse;
    no_space = a.no_space;
    same_cells = refl;
    same_end = refl;
    moved = omega arith;
    balanced = omega arith;
  }

  pre-FieldRead :
      (hs : List Heard) (rest : List ℕ) (b : Rbuf)
      → AllHeard resolution remote hs
      → length hs ≡ remote.pre_data_bits
      → remote.pre_data_bits ≤ 63
      → Ahead b (readings hs ++ rest)
      → FieldRead hs b (if has_pre remote then get_pre resolution fuel remote b else (0, remote, b))
  unfolding has_pre get_pre
  pre-FieldRead hs rest b i e w a = elim (Bool-cases (ltb 0 remote.pre_data_bits)) [
    | inl some_bits ↦ rw some_bits (
        pre_read hs b (get_data resolution fuel remote remote.pre_data_bits 0 b)
          (get_data-FieldRead hs rest remote.pre_data_bits 0 b i e w a)
          (number-ne-no_data hs i (omega (arith, e, w))))
    | inr no_bits ↦ rw no_bits (nothing_read hs b (Took-zero _ b a) (ground (arith, e, no_bits)))
  ]

  post-FieldRead :
      (hs : List Heard) (rest : List ℕ) (b : Rbuf)
      → AllHeard resolution remote hs
      → length hs ≡ remote.post_data_bits
      → remote.post_data_bits ≤ 63
      → Ahead b (readings hs ++ rest)
      → FieldRead hs b
          (if has_post remote then get_post resolution fuel remote b else (0, remote, b))
  unfolding has_post get_post
  post-FieldRead hs rest b i e w a = elim (Bool-cases (ltb 0 remote.post_data_bits)) [
    | inl some_bits ↦
        rw (some_bits, no_between remote.post_p remote.post_s b k.before_post)
          (get_data-FieldRead hs rest remote.post_data_bits (remote.pre_data_bits + remote.bits) b i
            e w a)
    | inr no_bits ↦ rw no_bits (nothing_read hs b (Took-zero _ b a) (ground (arith, e, no_bits)))
  ]

  -- A field that was read goes to the rest of the function.
  and_data-FieldRead :
      (hs : List Heard) (b : Rbuf) (r : ℕ × Remote × Rbuf)
      (next : ℕ → Remote → Rbuf → Option Fields3 × Remote × Rbuf)
      → FieldRead hs b r
      → (number 0 hs == no_data) ≡ false
      → and_data resolution fuel r next ≡ next (number 0 hs) remote r.2
  and_data-FieldRead hs b (code, remote', b') next f n = rw (f.value, n, f.same_remote) refl

  pub no_lead_lem : (b : Rbuf) → get_lead resolution remote b ≡ (true, b)
  unfolding get_lead
  no_lead_lem b = rw k.no_lead refl

  pub read_fields-heard :
      (header : Bool) (pre code post : List Heard) (rest : List ℕ) (b : Rbuf)
      → Fields resolution remote pre code post
      → Ahead b (readings pre ++ (readings code ++ (readings post ++ rest)))
      → (c : Rbuf) × (read_fields resolution fuel header remote b
          ≡ then_end resolution fuel header (number 0 pre) (number 0 code) (number 0 post) remote c)
        × Took b c (length (readings pre) + length (readings code) + length (readings post))
  unfolding read_fields
  read_fields-heard header pre code post rest b f a =
      let all = f.all_bits in
      let r1 = if has_pre remote then get_pre resolution fuel remote b else (0, remote, b) in
      let f1 =
        pre-FieldRead pre (readings code ++ (readings post ++ rest)) b f.pre_heard f.pre_bits
          (omega (arith, all)) a in
      let a1 =
        Took-Ahead (readings pre) (readings code ++ (readings post ++ rest)) b r1.2 a f1.took in
      let r2 = get_data resolution fuel remote remote.bits remote.pre_data_bits r1.2 in
      let f2 =
        get_data-FieldRead code (readings post ++ rest) remote.bits remote.pre_data_bits r1.2
          f.code_heard f.code_bits (omega (arith, all)) a1 in
      let a2 = Took-Ahead (readings code) (readings post ++ rest) r1.2 r2.2 a1 f2.took in
      let r3 =
        if has_post remote then get_post resolution fuel remote r2.2 else (0, remote, r2.2) in
      let f3 = post-FieldRead post rest r2.2 f.post_heard f.post_bits (omega (arith, all)) a2 in
      (
        r3.2,
        rw (no_lead_lem b) (
            and_data-FieldRead pre b r1 (λ n r b'. then_code resolution fuel header n r b') f1
              (number-ne-no_data pre f.pre_heard (omega (arith, all, f.pre_bits)))
            ∙ and_data-FieldRead code r1.2 r2
                (λ n r b'. then_post resolution fuel header (number 0 pre) n r b') f2
                (number-ne-no_data code f.code_heard (omega (arith, all, f.code_bits)))
            ∙ and_data-FieldRead post r2.2 r3
                (λ n r b'. then_end resolution fuel header (number 0 pre) (number 0 code) n r b') f3
                (number-ne-no_data post f.post_heard (omega (arith, all, f.post_bits)))),
        Took-trans b r2.2 r3.2 (length (readings pre) + length (readings code))
            (length (readings post))
            (Took-trans b r1.2 r2.2 (length (readings pre)) (length (readings code)) f1.took
              f2.took)
            f3.took,
      )
