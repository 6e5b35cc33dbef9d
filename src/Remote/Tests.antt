-- ===== src/Remote/Tests.antt =====
-- Tests of the tolerances and of the time arithmetic.
use lirc_port_for_mac_os_x.Prelude.{◌+◌, ◌≡◌, refl, arith, true, false, ◌&&◌}
use lirc_port_for_mac_os_x.Remote.{Remote, Timeval, blank}
use lirc_port_for_mac_os_x.Remote.Tolerance.{expect, expect_at_least, expect_at_most}
use lirc_port_for_mac_os_x.Remote.Tolerance.Laws.{expect-iff-both}
use lirc_port_for_mac_os_x.Remote.Time.{time_elapsed, time_elapsed_exact}

abbrev tolerant : Remote
tolerant = record blank { eps = 30; aeps = 100 }

expected : expect 10 tolerant 700 560 ≡ true
unfolding expect
expected = refl

not_expected : expect 10 tolerant 400 600 ≡ false
unfolding expect
not_expected = refl

expect-iff-both_example :
    expect 10 tolerant 700 560
    ≡ (expect_at_least 10 tolerant 700 560 && expect_at_most 10 tolerant 700 560)
expect-iff-both_example = expect-iff-both 10 tolerant 700 560

abbrev before : Timeval
before = record { tv_sec = 7; tv_usec = 999000 }

abbrev after : Timeval
after = record { tv_sec = 9; tv_usec = 1000 }

time_elapsed_exact_example : time_elapsed before after + 7999000 ≡ 9001000
time_elapsed_exact_example =
    time_elapsed_exact before after (omega arith) (omega arith) (omega arith)
