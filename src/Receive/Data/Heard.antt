-- ===== src/Receive/Data/Heard.antt =====
-- The data of a signal whose pulses and spaces are in the receive buffer, for remotes that encode
-- each bit as a pulse and a space.
use lirc_port_for_mac_os_x.Prelude.{
  ℕ, zero, suc, pos, pos_part, neg_part, sub_lirc, +ℤ_parts, -ℤ_parts, ◌+◌, ◌-◌, ◌*◌, ◌^◌, ◌≤◌, ◌<◌,
  ◌≡◌, refl, ap, ◌∙◌, arith, List, [], ◌∷◌, true, false, ltb, ◌==◌, length, get_or, bit_and,
  bit_and_power, bit_and_mask, lt→ltb,
}
use lirc_port_for_mac_os_x.Receive.Buffer.{
  Rbuf, pulse_bit, pulse_mask, is_pulse, is_space, get_next_pulse, get_next_space,
  get_next_rec_buffer, get_next_rec_buffer_internal, unget_rec_buffer,
}

-- A bit with the lengths that were measured.
pub record Heard : Type 0 where
  pub bit : ℕ
  pub pulse : ℕ
  pub space : ℕ

-- What the driver delivers for it.
abbrev pub readings : List Heard → List ℕ
readings [] = []
readings (h ∷ hs) = (pulse_bit + h.pulse) ∷ h.space ∷ readings hs

-- The number with these bits, the highest first, after those of `code`.
abbrev pub number : ℕ → List Heard → ℕ
number code [] = code
number code (h ∷ hs) = number (2 * code + h.bit) hs

-- The cells from `p` on.
abbrev pub At : List ℕ → ℕ → List ℕ → Type 0
At cells p [] = Unit
At cells p (x ∷ xs) = (get_or cells p 0 ≡ x) × At cells (suc p) xs

-- The values come next, and nothing is pending.
pub record Ahead (b : Rbuf) (xs : List ℕ) : Type 0 where
  pub no_pulse : b.pendingp ≡ 0
  pub no_space : b.pendings ≡ 0
  pub next : At b.cells b.rptr xs
  pub available : b.rptr + length xs ≤ b.wptr

pulse_value :
    (p : ℕ)
    → p < 2 ^ 24
    → (is_pulse (pulse_bit + p) ≡ true) × (bit_and (pulse_bit + p) pulse_mask ≡ p)
unfolding is_pulse
pulse_value p h =
    let e : bit_and (pulse_bit + p) pulse_bit ≡ pulse_bit =
      omega (arith, bit_and_power 24 (pulse_bit + p)) in
    let m : bit_and (pulse_bit + p) pulse_mask ≡ p =
      omega (arith, bit_and_mask 24 (pulse_bit + p)) in
    (rw e refl, m)

pub space_value : (s : ℕ) → s < 2 ^ 24 → is_space s ≡ true
unfolding is_space is_pulse
space_value s h = let e : bit_and s pulse_bit ≡ 0 = omega (arith, bit_and_power 24 s) in rw e refl

-- The lengths of the first `n` values together.
unfoldable pub total : List ℕ → ℕ → ℕ
total cells zero = 0
total cells (suc n) = total cells n + bit_and (get_or cells n 0) pulse_mask

pub total-next :
    (cells : List ℕ) (n : ℕ)
    → total cells (n + 1) ≡ total cells n + bit_and (get_or cells n 0) pulse_mask
unfolding total
total-next cells n = let e : n + 1 ≡ suc n = omega arith in rw e refl

-- The sum has grown by what lies between the two indices.
abbrev pub Balanced : Rbuf → Rbuf → Type 0
Balanced b b' =
    pos_part b'.sum + neg_part b.sum + total b.cells b.rptr
    ≡ neg_part b'.sum + pos_part b.sum + total b'.cells b'.rptr

-- `b'` is the buffer after `k` of its values were taken.
pub record Took (b b' : Rbuf) (k : ℕ) : Type 0 where
  pub no_pulse : b'.pendingp ≡ 0
  pub no_space : b'.pendings ≡ 0
  pub same_cells : b'.cells ≡ b.cells
  pub same_end : b'.wptr ≡ b.wptr
  pub moved : b'.rptr ≡ b.rptr + k
  pub balanced : Balanced b b'

pub Took-one : (x : ℕ) (xs : List ℕ) (b b' : Rbuf) → Ahead b (x ∷ xs) → Took b b' 1 → Ahead b' xs
Took-one x xs b b' h t =
    let place : b'.rptr ≡ suc b.rptr = omega (arith, t.moved) in
    record {
      no_pulse = t.no_pulse;
      no_space = t.no_space;
      next = rw (t.same_cells, place) h.next.1;
      available = omega (arith, h.available, t.same_end, place);
    }

pub Took-two :
    (x y : ℕ) (xs : List ℕ) (b b' : Rbuf) → Ahead b (x ∷ y ∷ xs) → Took b b' 2 → Ahead b' xs
Took-two x y xs b b' h t =
    let place : b'.rptr ≡ suc (suc b.rptr) = omega (arith, t.moved) in
    record {
      no_pulse = t.no_pulse;
      no_space = t.no_space;
      next = rw (t.same_cells, place) h.next.1.1;
      available = omega (arith, h.available, t.same_end, place);
    }

pub Took-none : (xs : List ℕ) (b b' : Rbuf) → Ahead b xs → Took b b' 0 → Ahead b' xs
Took-none xs b b' h t =
    let place : b'.rptr ≡ b.rptr = omega (arith, t.moved) in
    record {
      no_pulse = t.no_pulse;
      no_space = t.no_space;
      next = rw (t.same_cells, place) h.next;
      available = omega (arith, h.available, t.same_end, place);
    }

pub Took-trans : (a b c : Rbuf) (j k : ℕ) → Took a b j → Took b c k → Took a c (j + k)
Took-trans a b c j k t u = record {
  no_pulse = u.no_pulse;
  no_space = u.no_space;
  same_cells = u.same_cells ∙ t.same_cells;
  same_end = u.same_end ∙ t.same_end;
  moved = omega (arith, t.moved, u.moved);
  balanced = omega (arith, t.balanced, u.balanced);
}

-- The sum once the index is put back by `k`, of the buffer `b'` that is at `r + k`.
unget_one-sum :
    (b' : Rbuf) (r : ℕ)
    → b'.rptr ≡ r + 1
    → let sum = sub_lirc b'.sum (bit_and (get_or b'.cells (b'.rptr - 1) 0) pulse_mask) in
      pos_part sum + neg_part b'.sum + total b'.cells b'.rptr
      ≡ neg_part sum + pos_part b'.sum + total b'.cells r
unget_one-sum b' r e =
    let place : b'.rptr - 1 ≡ r = omega (arith, e) in
    rw (place, e)
      (omega (
        arith,
        -ℤ_parts b'.sum (pos (bit_and (get_or b'.cells r 0) pulse_mask)),
        total-next b'.cells r,
      ))

unget_two-sum :
    (b' : Rbuf) (r : ℕ)
    → b'.rptr ≡ r + 2
    → let rptr = b'.rptr - 2 in
      let first = sub_lirc b'.sum (bit_and (get_or b'.cells rptr 0) pulse_mask) in
      let sum = sub_lirc first (bit_and (get_or b'.cells (rptr + 1) 0) pulse_mask) in
      pos_part sum + neg_part b'.sum + total b'.cells b'.rptr
      ≡ neg_part sum + pos_part b'.sum + total b'.cells r
unget_two-sum b' r e =
    let place : b'.rptr - 2 ≡ r = omega (arith, e) in
    let end : b'.rptr ≡ r + 1 + 1 = omega (arith, e) in
    let m = bit_and (get_or b'.cells r 0) pulse_mask in
    rw (place, end)
      (omega (
        arith,
        -ℤ_parts b'.sum (pos m),
        -ℤ_parts (sub_lirc b'.sum m) (pos (bit_and (get_or b'.cells (r + 1) 0) pulse_mask)),
        total-next b'.cells r,
        total-next b'.cells (r + 1),
      ))

-- What was taken is put back.
pub unget_one-Took : (b b' : Rbuf) → Took b b' 1 → Took b (unget_rec_buffer 1 b') 0
unfolding unget_rec_buffer
unget_one-Took b b' t =
    let place : b'.rptr - 1 ≡ b.rptr = omega (arith, t.moved) in
    let same = ap (total b'.cells) place in
    record {
      no_pulse = t.no_pulse;
      no_space = t.no_space;
      same_cells = t.same_cells;
      same_end = t.same_end;
      moved = omega (arith, t.moved);
      balanced = omega (arith, t.balanced, unget_one-sum b' b.rptr t.moved, same);
    }

pub unget_two-Took : (b b' : Rbuf) → Took b b' 2 → Took b (unget_rec_buffer 2 b') 0
unfolding unget_rec_buffer
unget_two-Took b b' t =
    let place : b'.rptr - 2 ≡ b.rptr = omega (arith, t.moved) in
    let same = ap (total b'.cells) place in
    record {
      no_pulse = t.no_pulse;
      no_space = t.no_space;
      same_cells = t.same_cells;
      same_end = t.same_end;
      moved = omega (arith, t.moved);
      balanced = omega (arith, t.balanced, unget_two-sum b' b.rptr t.moved, same);
    }

pub next_value :
    (maxusec x : ℕ) (xs : List ℕ) (b : Rbuf)
    → Ahead b (x ∷ xs)
    → let (got, b') = get_next_rec_buffer maxusec b in (got ≡ x) × Took b b' 1
unfolding get_next_rec_buffer get_next_rec_buffer_internal
next_value maxusec x xs b h =
    let some_left : ltb b.rptr b.wptr ≡ true = lt→ltb b.rptr b.wptr (omega (arith, h.available)) in
    rw some_left (
      h.next.0,
      record {
        no_pulse = h.no_pulse;
        no_space = h.no_space;
        same_cells = refl;
        same_end = refl;
        moved = refl;
        balanced = omega (
          arith,
          +ℤ_parts b.sum (pos (bit_and (get_or b.cells b.rptr 0) pulse_mask)),
          total-next b.cells b.rptr,
        );
      },
    )

pub next_pulse :
    (maxusec p : ℕ) (xs : List ℕ) (b : Rbuf)
    → 0 < p
    → p < 2 ^ 24
    → Ahead b ((pulse_bit + p) ∷ xs)
    → let (got, b') = get_next_pulse maxusec b in (got ≡ p) × Took b b' 1
unfolding get_next_pulse
next_pulse maxusec p xs b z l h =
    let (e, took) = next_value maxusec (pulse_bit + p) xs b h in
    let (is, value) = pulse_value p l in
    let positive : (pulse_bit + p == 0) ≡ false = ground arith in
    (rw (e, is, value, positive) refl, took)

pub next_space :
    (maxusec s : ℕ) (xs : List ℕ) (b : Rbuf)
    → 0 < s
    → s < 2 ^ 24
    → Ahead b (s ∷ xs)
    → let (got, b') = get_next_space maxusec b in (got ≡ s) × Took b b' 1
unfolding get_next_space
next_space maxusec s xs b z l h =
    let (e, took) = next_value maxusec s xs b h in
    let positive : (s == 0) ≡ false = ground arith in (rw (e, space_value s l, positive) refl, took)
