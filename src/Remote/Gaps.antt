-- ===== src/Remote/Gaps.antt =====
-- The range of the gap after a signal: `min_gap` and `max_gap` of daemons/ir_remote.h. The two
-- values, of type `__u32`, are taken to fit a `lirc_t`.
use lirc_port_for_mac_os_x.Prelude.{ℕ, ◌≤◌, ◌&&◌, not, ltb, ◌==◌, if◌then◌else◌, arith}
use lirc_port_for_mac_os_x.Remote.{Remote}

unfoldable pub min_gap : Remote → ℕ
min_gap remote =
    if not (remote.gap2 == 0) && ltb remote.gap2 remote.gap then remote.gap2 else remote.gap

unfoldable pub max_gap : Remote → ℕ
max_gap remote = if ltb remote.gap remote.gap2 then remote.gap2 else remote.gap

pub min_gap-le-max_gap : (remote : Remote) → min_gap remote ≤ max_gap remote
unfolding min_gap max_gap
min_gap-le-max_gap remote = ground arith
