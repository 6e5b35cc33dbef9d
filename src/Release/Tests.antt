-- ===== src/Release/Tests.antt =====
-- A button that is held, another one, and the time after it.
use lirc_port_for_mac_os_x.Prelude.{ℕ, pos, ◌≡◌, refl, List, [], ◌∷◌, none}
use lirc_port_for_mac_os_x.Remote.{Timeval, blank}
use lirc_port_for_mac_os_x.Release.{Press, Release}
use lirc_port_for_mac_os_x.Release.Refinement.{
  Input, press, timeout, run, lifts, events, run-refines-lifts,
}

abbrev now : Timeval
now = record { tv_sec = 5; tv_usec = 0 }

abbrev button : ℕ → Press
button code = record {
  remote = blank;
  ncode = record {
    name = "OK";
    code = code;
    length = 0;
    signals = none;
    next = [];
    current = [];
    transmit_state = [];
  };
  code = code;
}

abbrev idle : Release
idle = record {
  release_time = now;
  release_remote = none;
  release_reps = pos 0;
  release_gap = 0;
  release_remote2 = none;
  release_suffix = "_UP";
}

abbrev inputs : List Input
inputs =
    press now (button 1) (pos 0)
    ∷ press now (button 1) (pos 1)
    ∷ press now (button 2) (pos 0)
    ∷ timeout
    ∷ timeout
    ∷ []

-- Each of the two goes up once.
two_lifts : (lifts none inputs).0 ≡ button 1 ∷ button 2 ∷ []
two_lifts = refl

run-refines-lifts_example :
    ((run 10 idle inputs).0 ≡ events "_UP" (lifts none inputs).0)
    × ((run 10 idle inputs).1.release_remote ≡ (lifts none inputs).1)
    × ((run 10 idle inputs).1.release_remote2 ≡ none)
run-refines-lifts_example = run-refines-lifts 10 idle inputs refl
