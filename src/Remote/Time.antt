-- ===== src/Remote/Time.antt =====
-- `time_elapsed` of daemons/ir_remote.h and `time_left` of daemons/ir_remote.c, with the 64-bit
-- unsigned arithmetic of their `unsigned long` variables.
use lirc_port_for_mac_os_x.Prelude.{
  ℕ, ◌+◌, ◌-◌, ◌*◌, ◌%◌, ◌^◌, ◌≤◌, ◌<◌, ◌≡◌, arith, ltb, if◌then◌else◌,
}
use lirc_port_for_mac_os_x.Remote.{Timeval}

abbrev pub ulong_mod : ℕ
ulong_mod = 2 ^ 64

abbrev pub sub_ulong : ℕ → ℕ → ℕ
sub_ulong a b = (a + ulong_mod - b) % ulong_mod

unfoldable pub time_elapsed : Timeval → Timeval → ℕ
time_elapsed last current =
    let secs = sub_ulong current.tv_sec last.tv_sec in
    sub_ulong ((1000000 * secs + current.tv_usec) % ulong_mod) last.tv_usec

-- The result is cast to a `lirc_t`; it is at most `gap`, which is one.
unfoldable pub time_left : Timeval → Timeval → ℕ → ℕ
unfolding time_elapsed
time_left current last gap =
    let diff = time_elapsed last current in if ltb diff gap then gap - diff else 0

-- The microseconds that a time stands for.
abbrev pub micros : Timeval → ℕ
micros t = 1000000 * t.tv_sec + t.tv_usec

pub record IsTimeval (t : Timeval) : Type 0 where
  pub usec_below : t.tv_usec < 1000000
  pub sec_below : t.tv_sec < 2 ^ 40

-- For two times in order the wrapping arithmetic gives the exact distance in microseconds.
pub time_elapsed_exact :
    (last current : Timeval)
    → IsTimeval last
    → IsTimeval current
    → micros last ≤ micros current
    → time_elapsed last current + micros last ≡ micros current
unfolding time_elapsed
time_elapsed_exact last current hl hc h = omega arith
