-- ===== src/Release.antt =====
-- daemons/release.c: the release of a button, which the receiver cannot see and the daemon infers.
-- A pointer to a remote or a button is held as what stands there; the functions read only their
-- names through it, which do not change, and mark a remote by its address.
pub mod Refinement
mod Tests
use lirc_port_for_mac_os_x.Prelude.{
  ℕ, ◌+◌, ◌-◌, String, List, [], ◌∷◌, map, Option, none, some, Bool, true, false, leb, ◌==◌,
  if◌then◌else◌, ℤ, pos, negsuc, get_elem?,
}
use lirc_port_for_mac_os_x.Remote.{Remote, Ncode, Timeval}
use lirc_port_for_mac_os_x.Remote.Tolerance.{upper_limit}
use lirc_port_for_mac_os_x.Receive.Timeout.{receive_timeout}
use lirc_port_for_mac_os_x.Codes.Lookup.{is_in_remotes, get_ir_remote, get_code_by_name}
use lirc_port_for_mac_os_x.Codes.Decode.{write_message, fitting}

-- `release_remote`, `release_ncode` and `release_code`, which are set and cleared together.
pub record Press : Type 0 where
  pub remote : Remote
  pub ncode : Ncode
  pub code : ℕ

-- The static variables.
pub record Release : Type 0 where
  pub release_time : Timeval
  pub release_remote : Option Press
  pub release_reps : ℤ
  pub release_gap : ℕ
  pub release_remote2 : Option Press
  pub release_suffix : String

-- `timeradd`, which carries once.
unfoldable pub timeradd : Timeval → Timeval → Timeval
timeradd a b =
    if leb 1000000 (a.tv_usec + b.tv_usec)
    then record { tv_sec = a.tv_sec + b.tv_sec + 1; tv_usec = a.tv_usec + b.tv_usec - 1000000 }
    else record { tv_sec = a.tv_sec + b.tv_sec; tv_usec = a.tv_usec + b.tv_usec }

unfoldable pub register_input : Timeval → Release → Release
unfolding timeradd
register_input now s = elim s.release_remote [
  | none ↦ s
  | some p ↦ record s {
    release_time = timeradd now (record { tv_sec = 0; tv_usec = s.release_gap });
  }
]

abbrev pub is_zero : ℤ → Bool
is_zero (pos n) = n == 0
is_zero (negsuc n) = false

-- What goes to `release_remote2`: the button that was held, if there is one.
unfoldable pub displaced : ℤ → Release → Option Press
displaced reps s = elim s.release_remote [
  | none ↦ s.release_remote2
  | some p ↦ if is_zero reps then some p else s.release_remote2
]

-- The longest signal holds the gap, so the difference is not negative.
unfoldable pub release_gap_of : ℕ → Remote → ℕ
release_gap_of resolution remote =
    upper_limit resolution remote (remote.max_total_signal_length - remote.min_gap_length)
    + receive_timeout (upper_limit resolution remote remote.min_gap_length)
    + 10000

unfoldable pub register_button_press : ℕ → Timeval → Press → ℤ → Release → Release
unfolding displaced register_input release_gap_of
register_button_press resolution now p reps s = register_input now (record s {
  release_remote2 = displaced reps s;
  release_remote = some p;
  release_reps = reps;
  release_gap = release_gap_of resolution p.remote;
})

-- The names and the count; a caller asks only while a button is held.
unfoldable pub get_release_data : Release → Option (String × String × ℤ)
get_release_data s = elim s.release_remote [
  | none ↦ none
  | some p ↦ some (p.remote.name, p.ncode.name, s.release_reps)
]

unfoldable pub set_release_suffix : String → Release → Release
set_release_suffix s r = record r { release_suffix = s }

unfoldable pub get_release_time : Release → Timeval
get_release_time s = s.release_time

-- What a release writes through its pointers, and the message that it returns, `none` where it does
-- not fit.
pub record Event : Type 0 where
  pub remote_name : String
  pub button_name : String
  pub message : Option String

unfoldable pub release_event : String → Press → Event
unfolding write_message fitting
release_event suffix p = record {
  remote_name = p.remote.name;
  button_name = p.ncode.name;
  message = fitting (write_message p.remote.name p.ncode.name suffix p.code (pos 0));
}

abbrev pub event_of : String → Option Press → Option Event
unfolding release_event
event_of suffix none = none
event_of suffix (some p) = some (release_event suffix p)

unfoldable pub check_release_event : Release → Option Event × Release
unfolding event_of
check_release_event s =
    (event_of s.release_suffix s.release_remote2, record s { release_remote2 = none })

-- `release_detected` of the remote at the address.
unfoldable pub mark_detected : ℕ → List Remote → List Remote
mark_detected address [] = []
mark_detected address (remote ∷ rest) =
    (if remote.address == address then record remote { release_detected = true } else remote)
    ∷ mark_detected address rest

abbrev mark_held : Option Press → List Remote → List Remote
unfolding mark_detected
mark_held none remotes = remotes
mark_held (some p) remotes = mark_detected p.remote.address remotes

abbrev cleared_time : Option Press → Timeval → Timeval
cleared_time none t = t
cleared_time (some p) t = record { tv_sec = 0; tv_usec = 0 }

unfoldable pub trigger_release_event : Release → List Remote → Option Event × Release × List Remote
unfolding event_of mark_held
trigger_release_event s remotes = (
  event_of s.release_suffix s.release_remote,
  record s { release_time = cleared_time s.release_remote s.release_time; release_remote = none },
  mark_held s.release_remote remotes,
)

-- The same button among the new remotes.
unfoldable pub renamed : List Remote → Press → Option Press
unfolding get_ir_remote get_code_by_name
renamed new_remotes p = elim (get_ir_remote new_remotes p.remote.name) [
  | none ↦ none
  | some remote ↦ elim (get_code_by_name remote p.ncode.name) [
    | none ↦ none
    | some i ↦ elim (get_elem? remote.codes i) [
      | none ↦ none
      | some ncode ↦ some (record p { remote = remote; ncode = ncode })
    ]
  ]
]

unfoldable pub release_map_remotes :
    Release → List Remote → List Remote → Option Event × Release × List Remote
unfolding is_in_remotes renamed trigger_release_event
release_map_remotes s old new_remotes =
    let unused = record s { release_remote2 = none } in
    elim s.release_remote [
      | none ↦ (none, unused, old)
      | some p ↦
          if is_in_remotes old p.remote.address
          then elim (renamed new_remotes p) [
            | none ↦ trigger_release_event unused old
            | some q ↦ (none, record unused { release_remote = some q }, old)
          ]
          else (none, unused, old)
    ]
