-- ===== src/Receive/Serial.antt =====
-- The serial encoding, as `get_data` of daemons/receive.c reads it: bytes with a start bit, the
-- lowest bit first, an optional parity bit and stop bits, where equal bits in a row make one long
-- pulse or space. The `while` loop takes fuel, and its result is `none` where the fuel runs out.
-- The code divides by the baud rate, and by the bits in a byte; neither may be 0.
pub mod Step
pub mod Ends
use lirc_port_for_mac_os_x.Prelude.{
  ℕ, zero, suc, ◌+◌, ◌-◌, ◌*◌, ◌/◌, ◌%◌, Option, none, some, Bool, true, false, not, ◌&&◌, ◌||◌,
  ltb, leb, ◌==◌, if◌then◌else◌, bit_or,
}
use lirc_port_for_mac_os_x.Word.{shl, shr, reverse}
use lirc_port_for_mac_os_x.Remote.{Remote}
use lirc_port_for_mac_os_x.Remote.Tolerance.{expect}
use lirc_port_for_mac_os_x.Receive.Buffer.{
  Rbuf, set_pending_pulse, set_pending_space, get_next_pulse, get_next_space,
  unget_rec_buffer_delta,
}
use lirc_port_for_mac_os_x.Receive.Data.{no_data}

-- `IR_PARITY_NONE`, `IR_PARITY_EVEN` and `IR_PARITY_ODD`
abbrev pub parity_none : ℕ
parity_none = 0

abbrev pub parity_even : ℕ
parity_even = 1

abbrev pub parity_odd : ℕ
parity_odd = 2

-- The locals of the loop that change.
pub record Serial : Type 0 where
  pub received : ℕ
  pub space : Bool
  pub stop_bit : Bool
  pub parity : Bool
  pub delta : ℕ
  pub origdelta : ℕ
  pub gap_delta : ℕ
  pub code : ℕ

-- A round of the loop fails, or the loop goes on.
pub data Round : Type 0 where
  failed : Rbuf → Round
  on : Serial → Rbuf → Round

abbrev pub clear_pending : Rbuf → Rbuf
clear_pending b = set_pending_space 0 (set_pending_pulse 0 b)

-- `space = (space ? 0 : 1)` where nothing is left of the pulse or space.
unfoldable pub next_level : Serial → Serial
next_level s = if s.delta == 0 then record s { space = not s.space } else s

module _ (resolution : ℕ) (remote : Remote) where
  -- The locals of the loop that do not change.
  abbrev pub parity_bit : ℕ
  parity_bit = if remote.parity == parity_none then 0 else 1

  abbrev pub base : ℕ
  base = 1000000 / remote.baud

  abbrev pub stop : ℕ
  stop = base * remote.stop_bits / 2

  abbrev pub max_space : ℕ
  max_space = remote.sone * remote.bits_in_byte + stop + parity_bit * remote.sone

  abbrev pub max_pulse : ℕ
  max_pulse = remote.pzero * (1 + remote.bits_in_byte) + parity_bit * remote.pzero

  abbrev pub bits_to_read : ℕ → ℕ
  bits_to_read bits =
      if remote.parity == parity_none then bits else bits + bits / remote.bits_in_byte

  -- The open end: the last space of a signal has no end.
  unfoldable pub is_open_end : ℕ → Serial → ℕ → Bool
  is_open_end bits s delta =
      delta == 0 && (s.space && leb bits (s.received + remote.bits_in_byte + parity_bit))

  unfoldable pub fetch : ℕ → Serial → Rbuf → Serial × Rbuf
  unfolding is_open_end
  fetch bits s b =
      let (read, b') = if s.space then get_next_space max_space b else get_next_pulse max_pulse b in
      let delta = if is_open_end bits s read then max_space else read in
      if s.delta == 0 then (record s { delta = delta; origdelta = delta }, b') else (s, b)

  -- What is left of the length `delta` after the pending one, or `none` if it is too short.
  unfoldable pub less_pending : ℕ → ℕ → Option ℕ
  less_pending delta pending =
      if expect resolution remote delta pending
      then some 0
      else if ltb pending delta
      then some (delta - pending)
      else none

  -- A start bit or a stop bit was pending.
  unfoldable pub pending_found : Serial → Rbuf → Round
  unfolding next_level
  pending_found s b =
      if s.stop_bit
      then on (record s { gap_delta = s.delta; delta = 0; stop_bit = false; space = false })
          (set_pending_space 0 (set_pending_pulse base b))
      else on (next_level s) (clear_pending b)

  -- The bits of a byte come in with the lowest first; the parity bit is filtered out.
  unfoldable pub byte_done : ℕ → ℕ
  byte_done code =
      bit_or (shl (shr code (remote.bits_in_byte + parity_bit)) remote.bits_in_byte)
        (reverse (shr code parity_bit) remote.bits_in_byte)

  unfoldable pub is_parity_wrong : Bool → Bool
  is_parity_wrong parity =
      remote.parity == parity_even && parity || remote.parity == parity_odd && not parity

  unfoldable pub end_of_byte : Serial → Rbuf → Round
  unfolding is_parity_wrong byte_done next_level
  end_of_byte s b =
      if is_parity_wrong s.parity
      then failed b
      else if s.space && s.delta == 0
      then failed b
      else on (next_level (record s { parity = false; code = byte_done s.code; stop_bit = true }))
          (set_pending_space stop b)

  abbrev pub expecting : Serial → ℕ
  expecting s = if s.space then remote.sone else remote.pzero

  unfoldable pub add_bit : Serial → Serial
  add_bit s = record s {
    delta = s.delta - expecting s;
    received = s.received + 1;
    code = bit_or (shl s.code 1) (if s.space then 1 else 0);
    parity = if s.space then not s.parity else s.parity;
  }

  unfoldable pub take_level : Serial → Rbuf → Round
  unfolding add_bit end_of_byte next_level
  take_level s b =
      if ltb (expecting s) s.delta || expect resolution remote s.delta (expecting s)
      then if (s.received + 1) % (remote.bits_in_byte + parity_bit) == 0
        then end_of_byte (add_bit s) b
        else on (next_level (add_bit s)) b
      else if s.delta == s.origdelta
      then failed b
      else on (next_level (record s { delta = 0 })) b

  unfoldable pub use_delta : Serial → Rbuf → Round
  unfolding less_pending pending_found take_level
  use_delta s b =
      let pending = if s.space then b.pendings else b.pendingp in
      elim (less_pending s.delta pending) [
        | none ↦ failed b
        | some delta ↦
            (if ltb 0 pending
              then pending_found (record s { delta = delta }) b
              else take_level (record s { delta = delta }) b)
      ]

  unfoldable pub serial_round : ℕ → Serial → Rbuf → Round
  unfolding fetch use_delta
  serial_round bits s b =
      let (s', b') = fetch bits s b in if s'.delta == 0 then failed b' else use_delta s' b'

  abbrev pub is_complete : ℕ → Serial → Bool
  is_complete bits s = leb bits s.received && not s.stop_bit

  -- `unget_rec_buffer_delta` where the stop bit left a part of the gap.
  unfoldable pub serial_end : Serial → Rbuf → ℕ × Rbuf
  serial_end s b =
      let b' = if s.gap_delta == 0 then b else unget_rec_buffer_delta s.gap_delta b in
      (s.code, clear_pending b')

  unfoldable pub serial_loop : ℕ → ℕ → Serial → Rbuf → Option (ℕ × Rbuf)
  unfolding serial_round serial_end
  serial_loop zero bits s b = none
  serial_loop (suc fuel) bits s b = elim (is_complete bits s) [
    | true ↦ some (serial_end s b)
    | false ↦ elim (serial_round bits s b) [
      | failed b' ↦ some (no_data, b')
      | on s' b' ↦ serial_loop fuel bits s' b'
    ]
  ]

  unfoldable pub serial_start : Rbuf → Serial
  serial_start b = record {
    received = 0;
    space = b.pendingp == 0;
    stop_bit = false;
    parity = false;
    delta = 0;
    origdelta = 0;
    gap_delta = 0;
    code = 0;
  }

  unfoldable pub get_data_serial : ℕ → ℕ → Rbuf → Option (ℕ × Rbuf)
  unfolding serial_loop serial_start
  get_data_serial fuel bits b =
      let started = set_pending_pulse base b in
      serial_loop fuel (bits_to_read bits) (serial_start started) started
