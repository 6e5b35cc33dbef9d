-- ===== src/Release/Refinement.antt =====
-- The releases that daemons/release.c reports for a sequence of inputs, against a keyboard that
-- holds at most one button.
use lirc_port_for_mac_os_x.Prelude.{
  ℕ, ◌≡◌, refl, ap, arith, String, List, [], ◌∷◌, ◌++◌, map, Option, none, some, if◌then◌else◌, ℤ,
}
use lirc_port_for_mac_os_x.Remote.{Timeval}
use lirc_port_for_mac_os_x.Release.{
  Press, Release, Event, is_zero, displaced, register_input, register_button_press, release_event,
  event_of, check_release_event, trigger_release_event,
}

-- A button, with the count of its repeats, or the passing of the release time.
pub data Input : Type 0 where
  press : Timeval → Press → ℤ → Input
  timeout : Input

abbrev pub listed {ℓ} : {A : Type ℓ} → Option A → List A
listed none = []
listed (some x) = x ∷ []

-- The main loop of the daemon checks for a release after each button that it has registered.
unfoldable pub react : ℕ → Release → Input → List Event × Release
react resolution s (press now p reps) =
    let (event, s') = check_release_event (register_button_press resolution now p reps s) in
    (listed event, s')
react resolution s timeout =
    let (event, s', remotes) = trigger_release_event s [] in (listed event, s')

unfoldable pub run : ℕ → Release → List Input → List Event × Release
unfolding react
run resolution s [] = ([], s)
run resolution s (input ∷ rest) =
    let (events, s') = react resolution s input in
    let (later, last) = run resolution s' rest in (events ++ later, last)

-- The keyboard: the buttons that go up, and the button that is held.
abbrev pub lift : Option Press → Input → List Press × Option Press
lift held (press now p reps) = ((if is_zero reps then listed held else []), some p)
lift held timeout = (listed held, none)

abbrev pub lifts : Option Press → List Input → List Press × Option Press
lifts held [] = ([], held)
lifts held (input ∷ rest) =
    let (up, held') = lift held input in let (later, last) = lifts held' rest in (up ++ later, last)

abbrev pub events : String → List Press → List Event
events suffix ps = map (λ p. release_event suffix p) ps

events-append :
    (suffix : String) (xs ys : List Press)
    → events suffix (xs ++ ys) ≡ events suffix xs ++ events suffix ys
events-append suffix [] ys = refl
events-append suffix (x ∷ xs) ys = ap (λ t. release_event suffix x ∷ t) (events-append suffix xs ys)

-- What one input does.
pub record Reacts (resolution : ℕ) (s : Release) (input : Input) : Type 0 where
  pub reported :
      (react resolution s input).0 ≡ events s.release_suffix (lift s.release_remote input).0
  pub held : (react resolution s input).1.release_remote ≡ (lift s.release_remote input).1
  pub unused : (react resolution s input).1.release_remote2 ≡ none
  pub same_suffix : (react resolution s input).1.release_suffix ≡ s.release_suffix

react-Reacts :
    (resolution : ℕ) (s : Release) (input : Input)
    → s.release_remote2 ≡ none
    → Reacts resolution s input
unfolding react register_button_press displaced register_input check_release_event
    trigger_release_event event_of
react-Reacts resolution s (press now p reps) h = ground arith
react-Reacts resolution s timeout h = ground arith

-- If no release is pending, then for every sequence of buttons and timeouts the releases that are
-- reported, with their names and messages, are exactly those of the keyboard that lets the held
-- button go at a timeout and at a button that does not repeat, in order; the button that is held
-- at the end is that of the keyboard, and no release is pending.
pub run-refines-lifts :
    (resolution : ℕ) (s : Release) (inputs : List Input)
    → s.release_remote2 ≡ none
    → let (reported, last) = run resolution s inputs in
      let (up, held) = lifts s.release_remote inputs in
      (reported ≡ events s.release_suffix up)
      × (last.release_remote ≡ held)
      × (last.release_remote2 ≡ none)
unfolding run
run-refines-lifts resolution s [] h = (refl, refl, h)
run-refines-lifts resolution s (input ∷ rest) h =
    let r = react-Reacts resolution s input h in
    let (events', held', unused') =
      run-refines-lifts resolution (react resolution s input).1 rest r.unused in
    (
      rw
          (
            r.reported,
            events',
            r.held,
            r.same_suffix,
            events-append s.release_suffix (lift s.release_remote input).0
                (lifts (lift s.release_remote input).1 rest).0,
          )
          refl,
      rw (held', r.held) refl,
      unused',
    )
