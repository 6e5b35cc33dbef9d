-- ===== src/Receive/Data.antt =====
-- The data of a signal, as `get_data` of daemons/receive.c reads them: one function for each way of
-- encoding but the serial one. Each returns `(ir_code) - 1` where it does not find the data.
pub mod Symbols
pub mod Width
pub mod Heard
pub mod PulseSpace
pub mod Recover
use lirc_port_for_mac_os_x.Prelude.{
  ℕ, zero, suc, ℤ, pos, negsuc, ◌+◌, ◌-◌, ◌*◌, ◌/◌, ◌%◌, ◌^◌, Option, none, some, Bool, true, false,
  not, ◌&&◌, ◌||◌, ltb, leb, ◌==◌, if◌then◌else◌, bit_or, sub_ℕ,
}
use lirc_port_for_mac_os_x.Word.{is_set, shl, code_mod}
use lirc_port_for_mac_os_x.Remote.{Remote}
use lirc_port_for_mac_os_x.Remote.Flags.{is_goldstar}
use lirc_port_for_mac_os_x.Remote.Tolerance.{expect}
use lirc_port_for_mac_os_x.Receive.Buffer.{Rbuf, get_next_pulse, get_next_space}
use lirc_port_for_mac_os_x.Receive.Expect.{
  sync_pending_pulse, sync_pending_space, expectone, expectzero,
}

-- `(ir_code) - 1`
abbrev pub no_data : ℕ
no_data = code_mod - 1

-- A pulse and a space of any of the four symbols.
abbrev pub any_pulse : Remote → ℕ
any_pulse remote = remote.pzero + remote.pone + remote.ptwo + remote.pthree

abbrev pub any_space : Remote → ℕ
any_space remote = remote.szero + remote.sone + remote.stwo + remote.sthree

-- The two bits of the states of two rounds; the first of them is not 3.
unfoldable pub two_states : ℕ → ℕ → Option ℕ
two_states laststate state =
    if state == 3
    then some 0
    else if laststate == 2 && state == 0
    then some 1
    else if laststate == 1 && state == 1
    then some 2
    else if laststate == 0 && state == 2
    then some 3
    else none

abbrev pub pair_with : ℕ → Option ℕ → Option ℕ
pair_with laststate none = none
pair_with laststate (some state) = two_states laststate state

-- The division of C rounds towards 0, and a negative quotient is a large `ir_code`.
unfoldable pub nibble_of : Remote → ℤ → Option ℕ
nibble_of remote (pos m) = if leb 16 (m / remote.sone) then none else some (m / remote.sone)
nibble_of remote (negsuc m) = if ltb (m + 1) remote.sone then some 0 else none

unfoldable pub xmp_nibble : Remote → ℕ → ℕ → Option ℕ
xmp_nibble remote deltap deltas =
    if deltap == 0 || deltas == 0
    then none
    else nibble_of remote (sub_ℕ (deltap + deltas + remote.sone / 2) (remote.pzero + remote.szero))

-- A Goldstar remote has the lengths of its bits in turn.
unfoldable pub set_lengths : Remote → ℕ → Remote
set_lengths remote at =
    if is_goldstar remote
    then if is_set (at % 2)
      then record remote { pone = remote.ptwo; sone = remote.stwo }
      else record remote { pone = remote.pthree; sone = remote.sthree }
    else remote

module _ (resolution : ℕ) where
  -- Which of the four symbols has the length.
  unfoldable pub symbol_of : Remote → ℕ → Option ℕ
  symbol_of remote sum =
      if expect resolution remote sum (remote.pzero + remote.szero)
      then some 0
      else if expect resolution remote sum (remote.pone + remote.sone)
      then some 1
      else if expect resolution remote sum (remote.ptwo + remote.stwo)
      then some 2
      else if expect resolution remote sum (remote.pthree + remote.sthree)
      then some 3
      else none

  -- A pulse and then a space; `none` where one is missing or they are no symbol.
  unfoldable pub read_symbol : Remote → Rbuf → Option ℕ × Rbuf
  read_symbol remote b =
      let (deltap, b') = get_next_pulse (any_pulse remote) b in
      let (deltas, b'') = get_next_space (any_space remote) b' in
      (if deltap == 0 || deltas == 0 then none else symbol_of remote (deltap + deltas), b'')

  -- Two bits a round.
  unfoldable pub rcmm_loop : ℕ → Remote → ℕ → Rbuf → ℕ × Rbuf
  rcmm_loop zero remote code b = (code, b)
  rcmm_loop (suc left) remote code b =
      let (symbol, b') = read_symbol remote b in
      elim symbol [
        | none ↦ (no_data, b')
        | some n ↦ rcmm_loop left remote (bit_or (shl code 2) n) b'
      ]

  unfoldable pub get_data_rcmm : Remote → ℕ → ℕ → Rbuf → ℕ × Rbuf
  get_data_rcmm remote bits done b =
      let (synced, b') = sync_pending_space resolution remote b in
      if is_set (bits % 2) || is_set (done % 2)
      then (no_data, b)
      else if synced
      then rcmm_loop (bits / 2) remote 0 b'
      else (0, b')

  -- A space and then a pulse.
  unfoldable pub read_state : Remote → Rbuf → Option ℕ × Rbuf
  read_state remote b =
      let (deltas, b') = get_next_space (any_space remote) b in
      let (deltap, b'') = get_next_pulse (any_pulse remote) b' in
      (if deltas == 0 || deltap == 0 then none else symbol_of remote (deltas + deltap), b'')

  -- A round with `laststate == -1`, and the next one unless the state was 3.
  unfoldable pub read_pair : Remote → Rbuf → Option ℕ × Rbuf
  read_pair remote b =
      let (first, b') = read_state remote b in
      let (second, b'') = read_state remote b' in
      elim first [
        | none ↦ (none, b')
        | some state ↦ if state == 3 then (some 0, b') else (pair_with state second, b'')
      ]

  unfoldable pub grundig_loop : ℕ → Remote → ℕ → Rbuf → ℕ × Rbuf
  grundig_loop zero remote code b = (code, b)
  grundig_loop (suc left) remote code b =
      let (pair, b') = read_pair remote b in
      elim pair [
        | none ↦ (no_data, b')
        | some n ↦ grundig_loop left remote (bit_or (shl code 2) n) b'
      ]

  unfoldable pub get_data_grundig : Remote → ℕ → ℕ → Rbuf → ℕ × Rbuf
  get_data_grundig remote bits done b =
      let (synced, b') = sync_pending_pulse resolution remote b in
      if is_set (bits % 2) || is_set (done % 2)
      then (no_data, b)
      else if synced
      then grundig_loop (bits / 2) remote 0 b'
      else (no_data, b')

  -- The lengths of a bit depend on the bit before.
  unfoldable pub bo_bit : Remote → Bool → ℕ → ℕ → Option ℕ
  bo_bit remote last_one deltap deltas =
      let pzero = if last_one then remote.pone else remote.ptwo in
      let szero = if last_one then remote.sone else remote.stwo in
      let pone = if last_one then remote.ptwo else remote.pthree in
      let sone = if last_one then remote.stwo else remote.sthree in
      if expect resolution remote deltap pzero && expect resolution remote deltas szero
      then some 0
      else if expect resolution remote deltap pone && expect resolution remote deltas sone
      then some 1
      else none

  unfoldable pub bo_loop : ℕ → Remote → Bool → ℕ → Rbuf → ℕ × Rbuf
  bo_loop zero remote last_one code b = (code, b)
  bo_loop (suc left) remote last_one code b =
      let (deltap, b') = get_next_pulse (any_pulse remote) b in
      let (deltas, b'') = get_next_space (any_space remote) b' in
      let bit = if deltap == 0 || deltas == 0 then none else bo_bit remote last_one deltap deltas in
      elim bit [
        | none ↦ (no_data, b'')
        | some n ↦ bo_loop left remote (n == 1) (bit_or (shl code 1) n) b''
      ]

  unfoldable pub get_data_bo : Remote → ℕ → Rbuf → ℕ × Rbuf
  get_data_bo remote bits b = bo_loop bits remote true 0 b

  -- Four bits a round.
  unfoldable pub xmp_loop : ℕ → Remote → ℕ → Rbuf → ℕ × Rbuf
  xmp_loop zero remote code b = (code, b)
  xmp_loop (suc left) remote code b =
      let (deltap, b') = get_next_pulse remote.pzero b in
      let (deltas, b'') = get_next_space (remote.szero + 16 * remote.sone) b' in
      elim (xmp_nibble remote deltap deltas) [
        | none ↦ (no_data, b'')
        | some n ↦ xmp_loop left remote (bit_or (shl code 4) n) b''
      ]

  unfoldable pub get_data_xmp : Remote → ℕ → ℕ → Rbuf → ℕ × Rbuf
  get_data_xmp remote bits done b =
      let (synced, b') = sync_pending_space resolution remote b in
      if is_set (bits % 4) || is_set (done % 4)
      then (no_data, b)
      else if synced
      then xmp_loop (bits / 4) remote 0 b'
      else (0, b')

  unfoldable pub take_bit : Remote → ℕ → Rbuf → Option ℕ × Rbuf
  take_bit remote bit b =
      let (one, b') = expectone resolution remote bit b in
      let (zero', b'') = expectzero resolution remote bit b' in
      if one then (some 1, b') else if zero' then (some 0, b'') else (none, b'')

  -- `at` is `done + i`.
  unfoldable pub bit_loop : ℕ → Remote → ℕ → ℕ → Rbuf → ℕ × Remote × Rbuf
  bit_loop zero remote at code b = (code, remote, b)
  bit_loop (suc left) remote at code b =
      let set = set_lengths remote at in
      let (bit, b') = take_bit set at b in
      elim bit [
        | none ↦ (no_data, set, b')
        | some n ↦ bit_loop left set (at + 1) (bit_or (shl code 1) n) b'
      ]

  unfoldable pub get_data_bits : Remote → ℕ → ℕ → Rbuf → ℕ × Remote × Rbuf
  get_data_bits remote bits done b = bit_loop bits remote done 0 b
