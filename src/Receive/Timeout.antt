-- ===== src/Receive/Timeout.antt =====
-- `receive_timeout` of daemons/receive.h.
use lirc_port_for_mac_os_x.Prelude.{ℕ, ◌*◌, ltb, if◌then◌else◌}

-- `MIN_RECEIVE_TIMEOUT`
abbrev pub min_receive_timeout : ℕ
min_receive_timeout = 100000

unfoldable pub receive_timeout : ℕ → ℕ
receive_timeout usec = if ltb (2 * usec) min_receive_timeout then min_receive_timeout else 2 * usec
