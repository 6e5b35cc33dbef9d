-- ===== src/Receive/Buffer.antt =====
-- The receive buffer (`struct rbuf` and its functions) of daemons/receive.c and daemons/receive.h.
-- The functions that change the global `rec_buffer` take it and return it. What `hw.readdata`
-- answers, each with the time that `gettimeofday` gives before it, is a list that comes with the
-- buffer; where it ends, the receiver has nothing more to read and times out.
pub mod Bounds
use lirc_port_for_mac_os_x.Prelude.{
  ℕ, ℤ, pos, ◌+◌, ◌-◌, ◌*◌, ◌%◌, List, [], ◌∷◌, ◌++◌, Bool, true, false, ◌&&◌, ◌||◌, not, add_lirc,
  sub_lirc, ltb, leb, ◌==◌, if◌then◌else◌, get_or, set, take, drop, replicate, length, bit_and,
}
use lirc_port_for_mac_os_x.Word.{is_set, code_mod, shl}
use lirc_port_for_mac_os_x.Remote.{Timeval}
use lirc_port_for_mac_os_x.Remote.Time.{time_elapsed}
use lirc_port_for_mac_os_x.Receive.Timeout.{receive_timeout}

abbrev pub rbuf_size : ℕ
rbuf_size = 512

-- `PULSE_BIT` and `PULSE_MASK`
abbrev pub pulse_bit : ℕ
pulse_bit = 0x01000000

abbrev pub pulse_mask : ℕ
pulse_mask = 0x00ffffff

unfoldable pub is_pulse : ℕ → Bool
is_pulse data' = is_set (bit_and data' pulse_bit)

unfoldable pub is_space : ℕ → Bool
unfolding is_pulse
is_space data' = not (is_pulse data')

-- `LIRC_VALUE` and `LIRC_IS_TIMEOUT`
abbrev pub lirc_value : ℕ → ℕ
lirc_value val = bit_and val 0x00ffffff

abbrev pub is_timeout : ℕ → Bool
is_timeout val = bit_and val 0xff000000 == 0x03000000

pub record Answer : Type 0 where
  pub current : Timeval
  pub value : ℕ

-- `fault` records that `rptr` would be less than 0, where `data[rptr]` is no cell of the array; in
-- the model it stays at 0 then.
pub record Rbuf : Type 0 where
  pub cells : List ℕ
  pub decoded : ℕ
  pub rptr : ℕ
  pub wptr : ℕ
  pub too_long : Bool
  pub is_biphase : Bool
  pub pendingp : ℕ
  pub pendings : ℕ
  pub sum : ℤ
  pub last_signal_time : Timeval
  pub answers : List Answer
  pub fault : Bool

unfoldable pub lirc_t_max : ℕ → ℕ → ℕ
lirc_t_max a b = if ltb b a then a else b

unfoldable pub set_pending_pulse : ℕ → Rbuf → Rbuf
set_pending_pulse deltap b = record b { pendingp = deltap }

unfoldable pub set_pending_space : ℕ → Rbuf → Rbuf
set_pending_space deltas b = record b { pendings = deltas }

-- `timerisset`
abbrev pub is_timer_set : Timeval → Bool
is_timer_set t = not (t.tv_sec == 0) || not (t.tv_usec == 0)

-- The part of `get_next_rec_buffer_internal` that reads the hardware; 0 where it returns 0. The
-- call of itself after a time-out finds the buffer as it was.
unfoldable pub read_loop : Timeval → List Answer → ℕ → ℕ × List Answer
read_loop last_signal_time [] maxusec = (0, [])
read_loop last_signal_time (answer ∷ rest) maxusec =
    let elapsed =
      if is_timer_set last_signal_time then time_elapsed last_signal_time answer.current else 0 in
    let next = read_loop last_signal_time rest (maxusec - lirc_value answer.value) in
    if ltb elapsed maxusec
    then if is_timeout answer.value
      then if ltb (lirc_value answer.value) maxusec then next else (0, rest)
      else (answer.value, rest)
    else (0, answer ∷ rest)

-- A value that was read goes behind the others.
unfoldable pub store : ℕ → Rbuf → Rbuf
store data' b =
    let cells = set b.cells b.wptr data' in
    record b {
      cells = cells;
      sum = add_lirc b.sum (bit_and (get_or cells b.rptr 0) pulse_mask);
      wptr = b.wptr + 1;
      rptr = b.rptr + 1;
    }

unfoldable pub read_hardware : ℕ → Rbuf → ℕ × Rbuf
read_hardware maxusec b =
    let (data', answers) = read_loop b.last_signal_time b.answers maxusec in
    let read = record b { answers = answers } in
    if data' == 0 then (0, read) else (get_or (store data' read).cells b.rptr 0, store data' read)

unfoldable pub get_next_rec_buffer_internal : ℕ → Rbuf → ℕ × Rbuf
get_next_rec_buffer_internal maxusec b =
    if ltb b.rptr b.wptr
    then (
      get_or b.cells b.rptr 0,
      record b {
        sum = add_lirc b.sum (bit_and (get_or b.cells b.rptr 0) pulse_mask);
        rptr = b.rptr + 1;
      },
    )
    else if ltb b.wptr rbuf_size
    then read_hardware maxusec b
    else (0, record b { too_long = true })

unfoldable pub get_next_rec_buffer : ℕ → Rbuf → ℕ × Rbuf
get_next_rec_buffer maxusec b = get_next_rec_buffer_internal (receive_timeout maxusec) b

-- `memset`; the answers are those of the hardware from then on.
unfoldable pub init_rec_buffer : List Answer → Rbuf
init_rec_buffer answers = record {
  cells = replicate rbuf_size 0;
  decoded = 0;
  rptr = 0;
  wptr = 0;
  too_long = false;
  is_biphase = false;
  pendingp = 0;
  pendings = 0;
  sum = pos 0;
  last_signal_time = record { tv_sec = 0; tv_usec = 0 };
  answers = answers;
  fault = false;
}

unfoldable pub rewind_rec_buffer : Rbuf → Rbuf
rewind_rec_buffer b = record b {
  rptr = 0;
  too_long = false;
  pendingp = 0;
  pendings = 0;
  sum = pos 0;
}

-- The bytes of a code, the highest first.
unfoldable pub decode_bytes : ℕ → List ℕ → ℕ
decode_bytes decoded [] = decoded
decode_bytes decoded (byte ∷ rest) = decode_bytes ((shl decoded 8 + byte) % code_mod) rest

-- `hw.readdata(0)`
abbrev pub first_value : List Answer → ℕ
first_value [] = 0
first_value (answer ∷ rest) = answer.value

-- What was not yet used goes to the front; else one value is read.
unfoldable pub refill : Rbuf → Rbuf
refill b =
    if ltb b.rptr b.wptr && ltb 0 b.rptr
    then (let move = b.wptr - b.rptr in
        record b { cells = take move (drop b.rptr b.cells) ++ drop move b.cells; wptr = move })
    else record b {
      cells = set b.cells 0 (first_value b.answers);
      wptr = 1;
      answers = drop 1 b.answers;
    }

-- How the driver in use delivers codes: `hw.rec_mode == LIRC_MODE_LIRCCODE`, where `read` gives the
-- bytes or fails, or as pulses and spaces.
pub data Delivery : Type 0 where
  unread : Delivery
  bytes : List ℕ → Delivery
  pulses : Delivery

unfoldable pub clear_rec_buffer : Delivery → Rbuf → Bool × Rbuf
clear_rec_buffer unread b =
    (false, record b { last_signal_time = record { tv_sec = 0; tv_usec = 0 } })
clear_rec_buffer (bytes buffer) b =
    let cleared = record b { last_signal_time = record { tv_sec = 0; tv_usec = 0 } } in
    (
      true,
      record (rewind_rec_buffer (record cleared { decoded = decode_bytes 0 buffer })) {
        is_biphase = false;
      },
    )
clear_rec_buffer pulses b =
    let cleared = record b { last_signal_time = record { tv_sec = 0; tv_usec = 0 } } in
    (true, record (rewind_rec_buffer (refill cleared)) { is_biphase = false })

unfoldable pub unget_rec_buffer : ℕ → Rbuf → Rbuf
unget_rec_buffer count b =
    let rptr = b.rptr - count in
    let first = sub_lirc b.sum (bit_and (get_or b.cells rptr 0) pulse_mask) in
    let both = sub_lirc first (bit_and (get_or b.cells (rptr + 1) 0) pulse_mask) in
    if count == 1 || count == 2
    then record b {
      rptr = rptr;
      sum = if count == 2 then both else first;
      fault = b.fault || ltb b.rptr count;
    }
    else b

unfoldable pub unget_rec_buffer_delta : ℕ → Rbuf → Rbuf
unget_rec_buffer_delta delta b = record b {
  rptr = b.rptr - 1;
  sum = sub_lirc b.sum (bit_and delta pulse_mask);
  cells = set b.cells (b.rptr - 1) delta;
  fault = b.fault || ltb b.rptr 1;
}

-- 0 where the next value is not a pulse.
unfoldable pub get_next_pulse : ℕ → Rbuf → ℕ × Rbuf
get_next_pulse maxusec b =
    let (data', b') = get_next_rec_buffer maxusec b in
    (if data' == 0 || not (is_pulse data') then 0 else bit_and data' pulse_mask, b')

unfoldable pub get_next_space : ℕ → Rbuf → ℕ × Rbuf
get_next_space maxusec b =
    let (data', b') = get_next_rec_buffer maxusec b in
    (if data' == 0 || not (is_space data') then 0 else data', b')
