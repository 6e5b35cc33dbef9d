-- ===== src/Receive/Serial/Step.antt =====
-- What one round of the loop for serial data uses up: a value of the receive buffer, or a part of
-- the pulse or space that was read.
use lirc_port_for_mac_os_x.Prelude.{
  ℕ, ◌+◌, ◌-◌, ◌*◌, ◌%◌, ◌≤◌, ◌<◌, ◌≡◌, ◌⊎◌, inl, inr, refl, sym, ap, arith, Option, none, some,
  Bool, true, false, ◌&&◌, ◌||◌, ltb, ◌==◌, ==_iff, if◌then◌else◌, Bool-cases, ltb→lt, get_or,
  bit_and, add_lirc,
}
use lirc_port_for_mac_os_x.Remote.{Remote}
use lirc_port_for_mac_os_x.Remote.Tolerance.{expect}
use lirc_port_for_mac_os_x.Receive.Timeout.{receive_timeout}
use lirc_port_for_mac_os_x.Receive.Buffer.{
  Rbuf, rbuf_size, get_next_pulse, get_next_space, get_next_rec_buffer,
  get_next_rec_buffer_internal, read_hardware, read_loop, store, pulse_mask, set_pending_pulse,
  set_pending_space,
}
use lirc_port_for_mac_os_x.Receive.Buffer.Bounds.{
  InArray, get_next_pulse-InArray, get_next_space-InArray, set_pending-InArray,
}
use lirc_port_for_mac_os_x.Receive.Serial.{
  Serial, Round, failed, on, max_space, max_pulse, is_open_end, fetch, less_pending, pending_found,
  end_of_byte, expecting, add_bit, take_level, use_delta, next_level, clear_pending,
  is_parity_wrong, base, byte_done, stop, parity_bit,
}

-- The index does not go back, and a value that is not 0 was taken.
record Moved (b : Rbuf) (x : ℕ × Rbuf) : Type 0 where
  not_back : b.rptr ≤ x.1.rptr
  taken : (x.0 ≡ 0) ⊎ (b.rptr < x.1.rptr)

Moved-if :
    (b : Rbuf) (t : Bool) (x y : ℕ × Rbuf) → Moved b x → Moved b y → Moved b (if t then x else y)
Moved-if b true x y hx hy = hx
Moved-if b false x y hx hy = hy

-- The value is 0 where the other one is.
Moved-less : (b : Rbuf) (n m : ℕ) (c : Rbuf) → (n ≡ 0 → m ≡ 0) → Moved b (n, c) → Moved b (m, c)
Moved-less b n m c z h = record { not_back = h.not_back; taken = by_taken h.taken }
  where
    by_taken : (n ≡ 0) ⊎ (b.rptr < c.rptr) → (m ≡ 0) ⊎ (b.rptr < c.rptr)
    by_taken (inl e) = inl (z e)
    by_taken (inr l) = inr l

hardware-Moved : (maxusec : ℕ) (b : Rbuf) → Moved b (read_hardware maxusec b)
unfolding read_hardware store
hardware-Moved maxusec b =
    let (data', answers) = read_loop b.last_signal_time b.answers maxusec in
    let read : Rbuf = record b { answers = answers } in
    Moved-if b (data' == 0) (0, read) (get_or (store data' read).cells b.rptr 0, store data' read)
      (record { not_back = omega arith; taken = inl refl })
      (record { not_back = omega arith; taken = inr (omega arith) })

get_next-Moved : (maxusec : ℕ) (b : Rbuf) → Moved b (get_next_rec_buffer maxusec b)
unfolding get_next_rec_buffer get_next_rec_buffer_internal
get_next-Moved maxusec b =
    let usec = receive_timeout maxusec in
    let cell = get_or b.cells b.rptr 0 in
    let next : Rbuf = record b {
      sum = add_lirc b.sum (bit_and cell pulse_mask);
      rptr = b.rptr + 1;
    } in
    let full : Rbuf = record b { too_long = true } in
    let rest : ℕ × Rbuf = if ltb b.wptr rbuf_size then read_hardware usec b else (0, full) in
    Moved-if b (ltb b.rptr b.wptr) (cell, next) rest
      (record { not_back = omega arith; taken = inr (omega arith) })
      (Moved-if b (ltb b.wptr rbuf_size) (read_hardware usec b) (0, full) (hardware-Moved usec b)
        (record { not_back = omega arith; taken = inl refl }))

nothing_read : (t : Bool) (n m : ℕ) → n ≡ 0 → (if n == 0 || t then 0 else m) ≡ 0
nothing_read t n m h = rw h refl

get_next_pulse-Moved : (maxusec : ℕ) (b : Rbuf) → Moved b (get_next_pulse maxusec b)
unfolding get_next_pulse
get_next_pulse-Moved maxusec b =
    Moved-less b (get_next_rec_buffer maxusec b).0 _ (get_next_rec_buffer maxusec b).1
      (nothing_read _ (get_next_rec_buffer maxusec b).0 _) (get_next-Moved maxusec b)

get_next_space-Moved : (maxusec : ℕ) (b : Rbuf) → Moved b (get_next_space maxusec b)
unfolding get_next_space
get_next_space-Moved maxusec b =
    Moved-less b (get_next_rec_buffer maxusec b).0 _ (get_next_rec_buffer maxusec b).1
      (nothing_read _ (get_next_rec_buffer maxusec b).0 _) (get_next-Moved maxusec b)

-- Where the loop is: the value of a space that is to be read, of one that is partly used, of a
-- pulse that is to be read, and of one that is partly used.
abbrev pub level : Serial → ℕ
level s = if s.delta == 0 then if s.space then 2 else 0 else if s.space then 1 else 3

abbrev pub rank : Serial → Rbuf → ℕ
rank s b = 4 * (rbuf_size - b.rptr) + level s

-- The level of a space or a pulse that is partly used.
abbrev pub inside : Bool → ℕ
inside space = if space then 1 else 3

-- A round that goes on has used a part of the length `d`, is not at a higher level than `l`, and
-- takes nothing from the buffer.
unfoldable pub Used : ℕ → ℕ → Rbuf → Round → Type 0
Used d l b (failed b') = Unit
Used d l b (on s' b') =
    (s'.delta < d) × (level s' ≤ l) × (b'.rptr ≡ b.rptr) × (InArray b → InArray b')

failed-Used : (d l : ℕ) (b b' : Rbuf) → Used d l b (failed b')
unfolding Used
failed-Used d l b b' = tt

Used-if :
    (d l : ℕ) (b : Rbuf) (t : Bool) (x y : Round)
    → (t ≡ true → Used d l b x)
    → (t ≡ false → Used d l b y)
    → Used d l b (if t then x else y)
Used-if d l b true x y hx hy = hx refl
Used-if d l b false x y hx hy = hy refl

next_level-delta : (s : Serial) → (next_level s).delta ≡ s.delta
unfolding next_level
next_level-delta s = ground arith

next_level-inside : (s : Serial) → level (next_level s) ≤ inside s.space
unfolding next_level
next_level-inside s = ground arith

-- The loop goes on with what is left of the length, or with the other level if nothing is.
next_level-Used :
    (d : ℕ) (s : Serial) (b b' : Rbuf)
    → s.delta < d
    → b'.rptr ≡ b.rptr
    → (InArray b → InArray b')
    → Used d (inside s.space) b (on (next_level s) b')
unfolding Used
next_level-Used d s b b' h r k = (omega (arith, h, next_level-delta s), next_level-inside s, r, k)

level_unread :
    (s : Serial) (space : Bool) → s.delta ≡ 0 → s.space ≡ space → level s ≡ (if space then 2 else 0)
level_unread s space e t = let z : (s.delta == 0) ≡ true = (==_iff s.delta 0).1 e in rw (z, t) refl

pub level_used :
    (s : Serial) (space : Bool) → 0 < s.delta → s.space ≡ space → level s ≡ inside space
level_used s space p t = let z : (s.delta == 0) ≡ false = ground arith in rw (z, t) refl

was_taken : (b : Rbuf) (x : ℕ × Rbuf) → Moved b x → 0 < x.0 → b.rptr < x.1.rptr
was_taken b x h p = elim h.taken [ inl z ↦ absurd (omega (arith, z)) | inr l ↦ l ]

pending-InArray :
    (m n : ℕ) (b : Rbuf) → InArray b → InArray (set_pending_space n (set_pending_pulse m b))
pending-InArray m n b h =
    (set_pending-InArray n (set_pending_pulse m b) (set_pending-InArray m b h).0).1

module _ (resolution : ℕ) (remote : Remote) where
  pending_found-Used :
      (d : ℕ) (s : Serial) (b : Rbuf)
      → s.delta < d
      → Used d (inside s.space) b (pending_found resolution remote s b)
  unfolding pending_found set_pending_pulse set_pending_space
  pending_found-Used d s b h =
      Used-if d (inside s.space) b s.stop_bit _ _ (λ e. stopped)
        (λ e. next_level-Used d s b (clear_pending b) h refl (pending-InArray 0 0 b))
    where
      stopped : Used d (inside s.space) b (
          on
            (record s { gap_delta = s.delta; delta = 0; stop_bit = false; space = false })
            (set_pending_space 0 (set_pending_pulse (base resolution remote) b)))
      stopped =
          unfold Used in
          (omega arith, omega arith, refl, pending-InArray (base resolution remote) 0 b)

  add_bit-delta :
      (d : ℕ) (s : Serial)
      → 0 < remote.sone
      → 0 < remote.pzero
      → 0 < d
      → s.delta ≤ d
      → (add_bit resolution remote s).delta < d
  unfolding add_bit
  add_bit-delta d s one nought p h = ground arith

  end_of_byte-Used :
      (d : ℕ) (s : Serial) (b : Rbuf)
      → s.delta < d
      → Used d (inside s.space) b (end_of_byte resolution remote s b)
  unfolding end_of_byte set_pending_space
  end_of_byte-Used d s b h =
      Used-if d (inside s.space) b (is_parity_wrong resolution remote s.parity) _ _
        (λ e. failed-Used d (inside s.space) b b)
        (λ e.
          Used-if d (inside s.space) b (s.space && s.delta == 0) _ _
            (λ e. failed-Used d (inside s.space) b b)
            (λ e.
              next_level-Used d
                (record s {
                  parity = false;
                  code = byte_done resolution remote s.code;
                  stop_bit = true;
                })
                b (set_pending_space (stop resolution remote) b) h refl
                (λ k. (set_pending-InArray (stop resolution remote) b k).1)))

  take_level-Used :
      (d : ℕ) (s : Serial) (b : Rbuf)
      → 0 < remote.sone
      → 0 < remote.pzero
      → 0 < d
      → s.delta ≤ d
      → Used d (inside s.space) b (take_level resolution remote s b)
  unfolding take_level add_bit
  take_level-Used d s b one nought p h =
      let less = add_bit-delta d s one nought p h in
      let wide =
        ltb (expecting resolution remote s) s.delta
        || expect resolution remote s.delta (expecting resolution remote s) in
      Used-if d (inside s.space) b wide _ _
        (λ e.
          Used-if d (inside s.space) b
            ((s.received + 1) % (remote.bits_in_byte + parity_bit resolution remote) == 0) _ _
            (λ e. end_of_byte-Used d (add_bit resolution remote s) b less)
            (λ e. next_level-Used d (add_bit resolution remote s) b b less refl (λ k. k)))
        (λ e.
          Used-if d (inside s.space) b (s.delta == s.origdelta) _ _
            (λ e. failed-Used d (inside s.space) b b)
            (λ e. next_level-Used d (record s { delta = 0 }) b b p refl (λ k. k)))

  less_pending-le :
      (delta pending d : ℕ) → less_pending resolution remote delta pending ≡ some d → d ≤ delta
  unfolding less_pending
  less_pending-le delta pending d h = ground arith

  less_pending-lt :
      (delta pending d : ℕ)
      → 0 < delta
      → 0 < pending
      → less_pending resolution remote delta pending ≡ some d
      → d < delta
  unfolding less_pending
  less_pending-lt delta pending d p q h = ground arith

  pub use_delta-Used :
      (s : Serial) (b : Rbuf)
      → 0 < remote.sone
      → 0 < remote.pzero
      → 0 < s.delta
      → Used s.delta (inside s.space) b (use_delta resolution remote s b)
  unfolding use_delta
  use_delta-Used s b one nought p = by_left (less_pending resolution remote s.delta pending) refl
    where
      pending : ℕ
      pending = if s.space then b.pendings else b.pendingp

      by_left :
          (left : Option ℕ)
          → less_pending resolution remote s.delta pending ≡ left
          → Used s.delta (inside s.space) b (elim left as (λ _. Round) [
            | none ↦ failed b
            | some delta ↦
                (if ltb 0 pending
                  then pending_found resolution remote (record s { delta = delta }) b
                  else take_level resolution remote (record s { delta = delta }) b)
          ])
      by_left none e = failed-Used s.delta (inside s.space) b b
      by_left (some delta) e =
          Used-if s.delta (inside s.space) b (ltb 0 pending) _ _
            (λ t.
              pending_found-Used s.delta (record s { delta = delta }) b
                (less_pending-lt s.delta pending delta p (ltb→lt 0 pending t) e))
            (λ t.
              take_level-Used s.delta (record s { delta = delta }) b one nought p
                (less_pending-le s.delta pending delta e))

  pub fetch_same :
      (bits : ℕ) (s : Serial) (b : Rbuf) → 0 < s.delta → fetch resolution remote bits s b ≡ (s, b)
  unfolding fetch
  fetch_same bits s b p = let z : (s.delta == 0) ≡ false = ground arith in rw z refl

  -- A space is read, or the open end counts as one.
  fetch_space :
      (bits : ℕ) (s : Serial) (b : Rbuf)
      → s.delta ≡ 0
      → s.space ≡ true
      → ((fetch resolution remote bits s b).0.space ≡ true)
        × ((fetch resolution remote bits s b).1
            ≡ (get_next_space (max_space resolution remote) b).1)
  unfolding fetch
  fetch_space bits s b e t =
      let z : (s.delta == 0) ≡ true = (==_iff s.delta 0).1 e in rw (z, t) (refl, refl)

  fetch_pulse :
      (bits : ℕ) (s : Serial) (b : Rbuf)
      → s.delta ≡ 0
      → s.space ≡ false
      → let (read, b') = get_next_pulse (max_pulse resolution remote) b in
        ((fetch resolution remote bits s b).0.space ≡ false)
        × ((fetch resolution remote bits s b).0.delta ≡ read)
        × ((fetch resolution remote bits s b).1 ≡ b')
  unfolding fetch is_open_end
  fetch_pulse bits s b e t =
      let z : (s.delta == 0) ≡ true = (==_iff s.delta 0).1 e in
      let read = (get_next_pulse (max_pulse resolution remote) b).0 in
      let closed : (read == 0 && false) ≡ false = ground arith in
      rw (z, t, closed) (refl, refl, refl)

  -- To fetch a value lowers the rank.
  pub fetch-rank :
      (bits : ℕ) (s : Serial) (b : Rbuf)
      → InArray b
      → s.delta ≡ 0
      → let (s', b') = fetch resolution remote bits s b in
        0 < s'.delta → (rank s' b' < rank s b) × InArray b'
  fetch-rank bits s b k e p = elim (Bool-cases s.space) [
    | inl t ↦
        (let (same, place) = fetch_space bits s b e t in
          let moved = (get_next_space-Moved (max_space resolution remote) b).not_back in
          let here : level s ≡ 2 = level_unread s true e t in
          let there : level (fetch resolution remote bits s b).0 ≡ 1 =
            level_used (fetch resolution remote bits s b).0 true p same in
          (
            omega (arith, here, there, moved, ap (λ (c : Rbuf). c.rptr) place),
            rw place (get_next_space-InArray (max_space resolution remote) b k),
          ))
    | inr t ↦
        (let (same, read, place) = fetch_pulse bits s b e t in
          let moved : b.rptr < (get_next_pulse (max_pulse resolution remote) b).1.rptr =
            was_taken _ (get_next_pulse (max_pulse resolution remote) b)
              (get_next_pulse-Moved (max_pulse resolution remote) b) (rw (sym read) p) in
          let kept = get_next_pulse-InArray (max_pulse resolution remote) b k in
          let here : level s ≡ 0 = level_unread s false e t in
          let there : level (fetch resolution remote bits s b).0 ≡ 3 =
            level_used (fetch resolution remote bits s b).0 false p same in
          (
            omega (
              arith,
              here,
              there,
              moved,
              ap (λ (c : Rbuf). c.rptr) place,
              kept.read,
              kept.written,
            ),
            rw place kept,
          ))
  ]
