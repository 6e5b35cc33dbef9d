-- ===== src/Transmit/Buffer.antt =====
-- The send buffer of daemons/transmit.c (`struct sbuf` of daemons/transmit.h). The functions that
-- change the global `send_buffer` take it and return it.
pub mod Bounds
pub mod Levels
pub mod Wave
pub mod Play
use lirc_port_for_mac_os_x.Prelude.{
  ℕ, ℤ, pos, ◌+◌, ◌-◌, ◌%◌, List, [], ◌∷◌, Bool, true, false, ◌&&◌, not, add_lirc, ltb, leb, ◌==◌,
  Option, none, some, if◌then◌else◌, set, take, replicate, length,
}

abbrev pub wbuf_size : ℕ
wbuf_size = 256

-- Where `send_buffer.data` points: nowhere yet, to `_data`, or to the signals of a raw code.
pub data Source : Type 0 where
  unset : Source
  own : Source
  raw : List ℕ → Source

pub record SendBuffer : Type 0 where
  pub source : Source
  pub cells : List ℕ
  pub wptr : ℕ
  pub too_long : Bool
  pub is_biphase : Bool
  pub pendingp : ℕ
  pub pendings : ℕ
  pub sum : ℤ

-- `init_send_buffer` sets every byte to zero.
unfoldable pub init_send_buffer : SendBuffer
init_send_buffer = record {
  source = unset;
  cells = replicate wbuf_size 0;
  wptr = 0;
  too_long = false;
  is_biphase = false;
  pendingp = 0;
  pendings = 0;
  sum = pos 0;
}

unfoldable pub clear_send_buffer : SendBuffer → SendBuffer
clear_send_buffer b = record b {
  wptr = 0;
  too_long = false;
  is_biphase = false;
  pendingp = 0;
  pendings = 0;
  sum = pos 0;
}

unfoldable pub add_send_buffer : ℕ → SendBuffer → SendBuffer
add_send_buffer duration b =
    if ltb b.wptr wbuf_size
    then record b {
      sum = add_lirc b.sum duration;
      cells = set b.cells b.wptr duration;
      wptr = b.wptr + 1;
    }
    else record b { too_long = true }

-- `if (send_buffer.pendings > 0) { add_send_buffer(...); send_buffer.pendings = 0; }`
unfoldable pub flush_space : SendBuffer → SendBuffer
unfolding add_send_buffer
flush_space b =
    if ltb 0 b.pendings then record (add_send_buffer b.pendings b) { pendings = 0 } else b

unfoldable pub flush_pulse : SendBuffer → SendBuffer
unfolding add_send_buffer
flush_pulse b =
    if ltb 0 b.pendingp then record (add_send_buffer b.pendingp b) { pendingp = 0 } else b

unfoldable pub send_pulse : ℕ → SendBuffer → SendBuffer
unfolding flush_space
send_pulse duration b =
    if ltb 0 b.pendingp
    then record b { pendingp = b.pendingp + duration }
    else record (flush_space b) { pendingp = duration }

unfoldable pub send_space : ℕ → SendBuffer → SendBuffer
unfolding flush_pulse
send_space duration b =
    if b.wptr == 0 && b.pendingp == 0
    then b
    else if ltb 0 b.pendings
    then record b { pendings = b.pendings + duration }
    else record (flush_pulse b) { pendings = duration }

unfoldable pub bad_send_buffer : SendBuffer → Bool
bad_send_buffer b = if b.too_long then true else b.wptr == wbuf_size && ltb 0 b.pendingp

unfoldable pub flush_send_buffer : SendBuffer → SendBuffer
unfolding flush_pulse flush_space
flush_send_buffer b = flush_space (flush_pulse b)

-- A trailing space is dropped, so that the signal ends with a pulse.
unfoldable pub sync_send_buffer : SendBuffer → SendBuffer
unfolding flush_pulse
sync_send_buffer b =
    let flushed = flush_pulse b in
    if ltb 0 flushed.wptr && flushed.wptr % 2 == 0
    then record flushed { wptr = flushed.wptr - 1 }
    else flushed

-- What `data[0 .. wptr)` holds, for a source that is set.
abbrev pub written_cells : Source → SendBuffer → List ℕ
written_cells unset b = []
written_cells own b = take b.wptr b.cells
written_cells (raw signals) b = take b.wptr signals

abbrev pub written : SendBuffer → List ℕ
written b = written_cells b.source b

pub data Check : Type 0 where
  valid : Check
  invalid : Check
  undefined_read : Check

unfoldable pub check_loop : List ℕ → Check
check_loop [] = valid
check_loop (x ∷ xs) = if x == 0 then invalid else check_loop xs

-- `undefined_read` where `data` points nowhere, or to fewer than `wptr` signals.
unfoldable pub check_written : Source → SendBuffer → Check
unfolding check_loop
check_written unset b = undefined_read
check_written own b = check_loop (take b.wptr b.cells)
check_written (raw signals) b =
    if ltb (length signals) b.wptr then undefined_read else check_loop (take b.wptr signals)

unfoldable pub check_send_buffer : SendBuffer → Check
unfolding check_written
check_send_buffer b = if b.wptr == 0 then invalid else check_written b.source b

-- `send_signals`: the first `n` of the signals, each as an entry of its own.
unfoldable pub send_signals_loop : List ℕ → SendBuffer → SendBuffer
unfolding add_send_buffer
send_signals_loop [] b = b
send_signals_loop (x ∷ xs) b = send_signals_loop xs (add_send_buffer x b)

-- The first `n` entries of an array of signals; `none` where that reads past its end.
unfoldable pub read_signals : ℕ → List ℕ → Option (List ℕ)
read_signals n signals = if leb n (length signals) then some (take n signals) else none

unfoldable pub send_signals : List ℕ → ℕ → SendBuffer → Option SendBuffer
unfolding send_signals_loop read_signals
send_signals signals n b = elim (read_signals n signals) [
  | none ↦ none
  | some read ↦ some (send_signals_loop read b)
]
