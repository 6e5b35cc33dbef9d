-- ===== src/Codes/Dispatch.antt =====
-- `decode_all` and `send_ir_ncode` of daemons/ir_remote.c. The functions `decode_func` and
-- `send_func` of the driver in use are parameters on a state of the driver; `decode_func` can
-- change the remote, as `receive_decode` does. The times that `gettimeofday` answers are arguments.
-- The variable `decoding` is the list of the remotes that `decode_all` is given.
pub mod Registered
use lirc_port_for_mac_os_x.Prelude.{
  ℕ, zero, suc, ◌+◌, ◌-◌, ◌*◌, ◌%◌, String, List, [], ◌∷◌, ◌++◌, map, Option, none, some, Bool,
  true, false, not, ◌&&◌, ◌||◌, ltb, leb, get_elem?, set, ◌==◌, if◌then◌else◌, ℤ, pos, negsuc,
  sub_ℕ,
}
use lirc_port_for_mac_os_x.Word.{is_set}
use lirc_port_for_mac_os_x.Remote.{Remote, Ncode, Timeval, is_null}
use lirc_port_for_mac_os_x.Remote.Flags.{has_toggle_mask, is_xmp}
use lirc_port_for_mac_os_x.Remote.Time.{time_left}
use lirc_port_for_mac_os_x.Codes.Mapping.{Fields3}
use lirc_port_for_mac_os_x.Codes.Match.{Found, get_code, same_code}
use lirc_port_for_mac_os_x.Codes.Decode.{Memory, Decoded, set_code, write_message, fitting}
use lirc_port_for_mac_os_x.Release.{Press, Release, register_button_press}

-- What `decode_func` writes through its pointers where it succeeds.
pub record Received : Type 0 where
  pub fields : Fields3
  pub repeat_flag : Bool
  pub min_remaining_gap : ℕ
  pub max_remaining_gap : ℕ

pub record World (H : Type 0) : Type 0 where
  pub memory : Memory
  pub release : Release
  pub driver : H

-- A button that was received.
pub record Hit : Type 0 where
  pub remote : Remote
  pub received : Received
  pub found : ℕ
  pub ncode : Ncode
  pub toggle_bit_mask_state : ℕ

unfoldable pub attempt : Option Received → Remote → Found
attempt none remote = record { remote = remote; ncode = none; toggle_bit_mask_state = none }
attempt (some r) remote = get_code remote r.fields

abbrev pub hit_at : Received → Remote → ℕ → ℕ → Option Ncode → Option Hit
hit_at r remote i state none = none
hit_at r remote i state (some ncode) = some (record {
  remote = remote;
  received = r;
  found = i;
  ncode = ncode;
  toggle_bit_mask_state = state;
})

unfoldable pub hit : Option Received → Found → Option Hit
hit none f = none
hit (some r) f = elim f.ncode [
  | none ↦ none
  | some i ↦ elim f.toggle_bit_mask_state [
    | none ↦ none
    | some state ↦ hit_at r f.remote i state (get_elem? f.remote.codes i)
  ]
]

-- `scan_ncode->current = NULL` for every code of the remote.
unfoldable pub clear_codes : List Ncode → List Ncode
clear_codes [] = []
clear_codes (ncode ∷ rest) = record ncode { current = [] } ∷ clear_codes rest

unfoldable pub clear_current : Remote → Remote
unfolding clear_codes
clear_current remote = record remote { codes = clear_codes remote.codes }

-- The start of the chain of the last code of an XMP remote, which `set_code` has set to `found`.
unfoldable pub expect_next : Hit → Remote → Remote
expect_next h remote =
    if is_xmp remote
    then record remote {
      codes = set remote.codes h.found (record h.ncode { current = h.ncode.next });
    }
    else remote

-- The count that is reported; `none` is a repeat to suppress.
unfoldable pub reported : ℕ → ℤ → Option ℤ
reported suppress_repeat (pos n) =
    if ltb 0 n
    then if leb n suppress_repeat then none else some (pos (n - suppress_repeat))
    else some (pos n)
reported suppress_repeat (negsuc n) = some (negsuc n)

unfoldable pub is_incomplete : Hit → Remote → Bool
is_incomplete h remote =
    (has_toggle_mask remote && is_set (remote.toggle_mask_state % 2))
    || not (is_null h.ncode.current)

unfoldable pub reps_of : Hit → Remote → ℤ
unfolding sub_ℕ
reps_of h remote = sub_ℕ remote.reps (if is_null h.ncode.next then 0 else 1)

module _ (H : Type 0) (decode_func : H → Remote → Option Received × Remote × H)
    (resolution : ℕ) where
  -- The end of `decode_all` for a code that is reported.
  unfoldable pub report :
      Timeval
      → World H
      → List Remote
      → Hit
      → Decoded
      → Option ℤ
      → Option String × List Remote × World H
  unfolding write_message fitting
  report now w remotes h d none = (none, remotes, w)
  report now w remotes h d (some reps) = (
    fitting (write_message d.remote.name h.ncode.name "" d.code reps),
    remotes,
    record w {
      release =
          register_button_press resolution now
            (record { remote = d.remote; ncode = h.ncode; code = d.code }) reps w.release;
    },
  )

  unfoldable pub decoded :
      Timeval
      → Timeval
      → World H
      → List Remote
      → List Remote
      → Hit
      → Option String × List Remote × World H
  decoded current now w done rest h =
      let d =
        set_code w.memory h.remote h.found h.ncode h.toggle_bit_mask_state h.received.repeat_flag
          h.received.min_remaining_gap h.received.max_remaining_gap current in
      let w' = record w { memory = d.memory } in
      let cleared =
        map clear_current done
        ++ (expect_next h (clear_current d.remote) ∷ map clear_current rest) in
      if is_incomplete h d.remote
      then (none, done ++ (d.remote ∷ rest), w')
      else report now w' cleared h d (reported d.remote.suppress_repeat (reps_of h d.remote))

  -- `done` are the remotes that have been tried.
  unfoldable pub decode_loop :
      Timeval
      → Timeval
      → World H
      → List Remote
      → List Remote
      → Option String × List Remote × World H
  decode_loop current now w done [] =
      (none, done, record w { memory = record w.memory { last_remote = none } })
  decode_loop current now w done (remote ∷ rest) =
      let (received, remote', driver) = decode_func w.driver remote in
      let w' = record w { driver = driver } in
      let f = attempt received remote' in
      let later =
        decode_loop current now w' (done ++ (record f.remote { toggle_mask_state = 0 } ∷ []))
          rest in
      elim (hit received f) [ none ↦ later | some h ↦ decoded current now w' done rest h ]

  unfoldable pub decode_all :
      Timeval → Timeval → World H → List Remote → Option String × List Remote × World H
  unfolding decode_loop
  decode_all current now w remotes = decode_loop current now w [] remotes

module _ (H : Type 0) (send_func : H → Remote → ℕ → Bool × Remote × H) where
  -- What the pause before a signal has to be, in microseconds.
  unfoldable pub pause : Option ℕ → Timeval → Remote → ℕ → ℕ
  unfolding time_left
  pause repeat_remote current remote code = elim remote.last_code [
    | none ↦ 0
    | some last ↦
        (let usecs = time_left current remote.last_send (remote.min_remaining_gap * 2) in
          if same_code repeat_remote (some remote.address) && last == code then 0 else usecs)
  ]

  -- The pause, whether the driver sent the code, and the remote and the driver after it.
  unfoldable pub send_ir_ncode :
      Option ℕ → Timeval → Timeval → H → Remote → ℕ → ℕ × Bool × Remote × H
  unfolding pause
  send_ir_ncode repeat_remote current now driver remote code =
      let (ret, sent, driver') = send_func driver remote code in
      (
        pause repeat_remote current remote code,
        ret,
        (if ret then record sent { last_send = now; last_code = some code } else sent),
        driver',
      )
