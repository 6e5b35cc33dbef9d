-- ===== src/Receive/Raw.antt =====
-- The search for the code of a raw signal in `receive_decode` of daemons/receive.c. Where
-- `min_gap(remote) - rec_buffer.sum` is less than 0, `get_gap` does what it does for 0.
use lirc_port_for_mac_os_x.Prelude.{
  ℕ, List, [], ◌∷◌, Option, none, some, Bool, true, false, not, if◌then◌else◌,
}
use lirc_port_for_mac_os_x.Remote.{Remote, Ncode}
use lirc_port_for_mac_os_x.Remote.Gaps.{min_gap}
use lirc_port_for_mac_os_x.Receive.Buffer.{Rbuf, rewind_rec_buffer}
use lirc_port_for_mac_os_x.Receive.Expect.{expectpulse, expectspace}
use lirc_port_for_mac_os_x.Receive.Signal.{sync_rec_buffer, get_gap}
use lirc_port_for_mac_os_x.Receive.Fields.{left_of_gap}

abbrev pub signals_of : Ncode → List ℕ
signals_of ncode = elim ncode.signals [ none ↦ [] | some signals ↦ signals ]

module _ (resolution : ℕ) where
  -- A pulse and a space for each two entries of `signals`, the first a pulse.
  unfoldable pub match_signals : Bool → Remote → List ℕ → Rbuf → Bool × Rbuf
  match_signals is_pulse remote [] b = (true, b)
  match_signals is_pulse remote (signal ∷ rest) b =
      let (ok, b') =
        if is_pulse
        then expectpulse resolution remote signal b
        else expectspace resolution remote signal b in
      let later = match_signals (not is_pulse) remote rest b' in if ok then later else (false, b')

  -- The code that was found, and what the search changed.
  unfoldable pub search_raw : Option Remote → Remote → List Ncode → Rbuf → Option ℕ × Remote × Rbuf
  unfolding match_signals
  search_raw last_remote remote [] b = (none, remote, b)
  search_raw last_remote remote (ncode ∷ rest) b =
      let (ok, b') = match_signals true remote (signals_of ncode) b in
      let (_, remote', synced) =
        sync_rec_buffer resolution last_remote remote (rewind_rec_buffer b') in
      let (gap, b'') = get_gap resolution remote (left_of_gap remote (min_gap remote) b'.sum) b' in
      elim ok [
        | false ↦ search_raw last_remote remote' rest synced
        | true ↦ elim gap [
          | false ↦ search_raw last_remote remote rest b''
          | true ↦ (some ncode.code, remote, b'')
        ]
      ]
