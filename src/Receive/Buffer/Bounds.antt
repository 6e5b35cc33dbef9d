-- ===== src/Receive/Buffer/Bounds.antt =====
-- Where the indices of the receive buffer can be.
use lirc_port_for_mac_os_x.Prelude.{
  ℕ, ◌-◌, ◌≤◌, ◌<◌, ◌≡◌, refl, ap, ◌∙◌, arith, List, Bool, true, false, ◌||◌, ltb, ◌==◌,
  if◌then◌else◌, ltb→lt, length, take, drop, length-set, length-append, length-take, length-drop,
  length-replicate,
}
use lirc_port_for_mac_os_x.Receive.Buffer.{
  Rbuf, Answer, rbuf_size, Delivery, unread, bytes, pulses, read_loop, store, read_hardware,
  get_next_rec_buffer_internal, get_next_rec_buffer, init_rec_buffer, rewind_rec_buffer,
  first_value, refill, clear_rec_buffer, unget_rec_buffer, unget_rec_buffer_delta, get_next_pulse,
  get_next_space, set_pending_pulse, set_pending_space,
}

-- The array has its size, what was written lies in it, and what was read was written. These are
-- upper bounds; that an index would be less than 0 is recorded by `fault`.
pub record InArray (b : Rbuf) : Type 0 where
  pub sized : length b.cells ≡ rbuf_size
  pub written : b.wptr ≤ rbuf_size
  pub read : b.rptr ≤ b.wptr

pub init-InArray : (answers : List Answer) → InArray (init_rec_buffer answers)
unfolding init_rec_buffer
init-InArray answers = record {
  sized = length-replicate {A = ℕ} rbuf_size 0;
  written = omega arith;
  read = omega arith;
}

pub rewind-InArray : (b : Rbuf) → InArray b → InArray (rewind_rec_buffer b)
unfolding rewind_rec_buffer
rewind-InArray b h = record { sized = h.sized; written = h.written; read = omega arith }

pub set_pending-InArray :
    (n : ℕ) (b : Rbuf)
    → InArray b
    → InArray (set_pending_pulse n b) × InArray (set_pending_space n b)
unfolding set_pending_pulse set_pending_space
set_pending-InArray n b h = (
  record { sized = h.sized; written = h.written; read = h.read },
  record { sized = h.sized; written = h.written; read = h.read },
)

store-InArray : (data' : ℕ) (b : Rbuf) → InArray b → b.wptr < rbuf_size → InArray (store data' b)
unfolding store
store-InArray data' b h l = record {
  sized = length-set b.cells b.wptr data' ∙ h.sized;
  written = omega arith;
  read = omega (arith, h.read);
}

-- The rest of the buffer does not matter.
InArray-same :
    (b c : Rbuf) → InArray b → c.cells ≡ b.cells → c.wptr ≡ b.wptr → c.rptr ≤ c.wptr → InArray c
InArray-same b c h e w r = record {
  sized = ap length e ∙ h.sized;
  written = omega (arith, h.written, w);
  read = r;
}

InArray-if :
    (t : Bool) (b c : Rbuf)
    → (t ≡ true → InArray b)
    → (t ≡ false → InArray c)
    → InArray (if t then b else c)
InArray-if true b c hb hc = hb refl
InArray-if false b c hb hc = hc refl

pair-if :
    (t : Bool) (x y : ℕ × Rbuf)
    → (t ≡ true → InArray x.1)
    → (t ≡ false → InArray y.1)
    → InArray (if t then x else y).1
pair-if true x y hx hy = hx refl
pair-if false x y hx hy = hy refl

hardware-InArray :
    (maxusec : ℕ) (b : Rbuf) → InArray b → b.wptr < rbuf_size → InArray (read_hardware maxusec b).1
unfolding read_hardware
hardware-InArray maxusec b h l =
    let (data', answers) = read_loop b.last_signal_time b.answers maxusec in
    let read : Rbuf = record b { answers = answers } in
    let same : InArray read = InArray-same b read h refl refl h.read in
    pair-if (data' == 0) _ _ (λ e. same) (λ e. store-InArray data' read same l)

-- A value that is asked for comes from the part of the array that was written, or is put there.
pub get_next-InArray :
    (maxusec : ℕ) (b : Rbuf) → InArray b → InArray (get_next_rec_buffer maxusec b).1
unfolding get_next_rec_buffer get_next_rec_buffer_internal
get_next-InArray maxusec b h =
    pair-if (ltb b.rptr b.wptr) _ _
      (λ e. InArray-same b _ h refl refl (omega (arith, ltb→lt b.rptr b.wptr e)))
      (λ e.
        pair-if (ltb b.wptr rbuf_size) _ _ (λ l. hardware-InArray _ b h (ltb→lt b.wptr rbuf_size l))
          (λ l. InArray-same b _ h refl refl h.read))

pub unget-InArray : (count : ℕ) (b : Rbuf) → InArray b → InArray (unget_rec_buffer count b)
unfolding unget_rec_buffer
unget-InArray count b h =
    InArray-if (count == 1 || count == 2) _ _ (λ e. InArray-same b _ h refl refl lower) (λ e. h)
  where
    lower : b.rptr - count ≤ b.wptr
    lower = omega (arith, h.read)

pub unget_delta-InArray :
    (delta : ℕ) (b : Rbuf) → InArray b → InArray (unget_rec_buffer_delta delta b)
unfolding unget_rec_buffer_delta
unget_delta-InArray delta b h = record {
  sized = length-set b.cells (b.rptr - 1) delta ∙ h.sized;
  written = h.written;
  read = omega (arith, h.read);
}

refill-bounds :
    (b : Rbuf) → InArray b → (length (refill b).cells ≡ rbuf_size) × ((refill b).wptr ≤ rbuf_size)
unfolding refill
refill-bounds b h =
    let move = b.wptr - b.rptr in
    ground (
      arith,
      h.sized,
      h.written,
      h.read,
      length-append (take move (drop b.rptr b.cells)) (drop move b.cells),
      length-take move (drop b.rptr b.cells),
      length-drop b.rptr b.cells,
      length-drop move b.cells,
      length-set b.cells 0 (first_value b.answers),
    )

-- Clearing the buffer, whichever way the driver delivers codes and also where reading fails, keeps
-- the size of the array, the write index not past its end and the read index not past the write
-- index, if they were so before.
pub clear-InArray : (d : Delivery) (b : Rbuf) → InArray b → InArray (clear_rec_buffer d b).1
unfolding clear_rec_buffer rewind_rec_buffer
clear-InArray unread b h = record { sized = h.sized; written = h.written; read = h.read }
clear-InArray (bytes buffer) b h = record {
  sized = h.sized;
  written = h.written;
  read = omega arith;
}
clear-InArray pulses b h =
    let cleared : Rbuf = record b { last_signal_time = record { tv_sec = 0; tv_usec = 0 } } in
    let (sized, written) = refill-bounds cleared (InArray-same b cleared h refl refl h.read) in
    record { sized = sized; written = written; read = omega arith }

pub get_next_pulse-InArray :
    (maxusec : ℕ) (b : Rbuf) → InArray b → InArray (get_next_pulse maxusec b).1
unfolding get_next_pulse
get_next_pulse-InArray maxusec b h = get_next-InArray maxusec b h

pub get_next_space-InArray :
    (maxusec : ℕ) (b : Rbuf) → InArray b → InArray (get_next_space maxusec b).1
unfolding get_next_space
get_next_space-InArray maxusec b h = get_next-InArray maxusec b h
