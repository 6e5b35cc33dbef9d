-- ===== src/Codes/Dispatch/Registered.antt =====
-- What `decode_all` leaves registered for the release of a button.
use lirc_port_for_mac_os_x.Prelude.{
  ℕ, ◌≡◌, ◌⊎◌, inl, inr, refl, String, List, [], ◌∷◌, ◌++◌, Option, none, some, Bool, true, false,
  if◌then◌else◌, ℤ,
}
use lirc_port_for_mac_os_x.Remote.{Remote, Timeval}
use lirc_port_for_mac_os_x.Codes.Decode.{Decoded, set_code, write_message, fitting}
use lirc_port_for_mac_os_x.Codes.Dispatch.{
  Received, World, Hit, attempt, hit, is_incomplete, report, decoded, decode_loop, decode_all,
}
use lirc_port_for_mac_os_x.Release.{Press, Release, register_button_press, register_input}

module _ (H : Type 0) (decode_func : H → Remote → Option Received × Remote × H)
    (resolution : ℕ) where
  -- The button that is held is the one in the message, with its code and its count.
  pub record Reports (s : Release) (message : Option String) : Type 0 where
    pub held : Press
    pub is_held : s.release_remote ≡ some held
    pub is_message :
        message
        ≡ fitting (write_message held.remote.name held.ncode.name "" held.code s.release_reps)

  -- Nothing is reported and nothing registered, or the message is that of the button registered.
  pub Consistent : Release → Option String × List Remote × World H → Type 0
  Consistent before (message, remotes, w) =
      ((message ≡ none) × (w.release ≡ before)) ⊎ Reports w.release message

  registers :
      (now : Timeval) (p : Press) (reps : ℤ) (s : Release)
      → let s' = register_button_press resolution now p reps s in
        (s'.release_remote ≡ some p) × (s'.release_reps ≡ reps)
  unfolding register_button_press register_input
  registers now p reps s = (refl, refl)

  report-Consistent :
      (now : Timeval) (w : World H) (remotes : List Remote) (h : Hit) (d : Decoded)
      (reps : Option ℤ)
      → Consistent w.release (report H decode_func resolution now w remotes h d reps)
  unfolding report Consistent
  report-Consistent now w remotes h d none = inl (refl, refl)
  report-Consistent now w remotes h d (some reps) =
      let p : Press = record { remote = d.remote; ncode = h.ncode; code = d.code } in
      let (r, n) = registers now p reps w.release in
      inr (record { held = p; is_held = r; is_message = rw n refl })

  Consistent-if :
      (s : Release) (b : Bool) (x y : Option String × List Remote × World H)
      → Consistent s x
      → Consistent s y
      → Consistent s (if b then x else y)
  Consistent-if s true x y hx hy = hx
  Consistent-if s false x y hx hy = hy

  unreported : (w : World H) (remotes : List Remote) → Consistent w.release (none, remotes, w)
  unfolding Consistent
  unreported w remotes = inl (refl, refl)

  decoded-Consistent :
      (current now : Timeval) (w : World H) (done rest : List Remote) (h : Hit)
      → Consistent w.release (decoded H decode_func resolution current now w done rest h)
  unfolding decoded
  decoded-Consistent current now w done rest h =
      let d =
        set_code w.memory h.remote h.found h.ncode h.toggle_bit_mask_state h.received.repeat_flag
          h.received.min_remaining_gap h.received.max_remaining_gap current in
      let w' = record w { memory = d.memory } in
      Consistent-if w.release (is_incomplete h d.remote) _ _
        (unreported w' (done ++ (d.remote ∷ rest))) (report-Consistent now w' _ h d _)

  by_hit :
      (s : Release) (later : Option String × List Remote × World H)
      (found : Hit → Option String × List Remote × World H) (o : Option Hit)
      → Consistent s later
      → ((h : Hit) → Consistent s (found h))
      → Consistent s (elim o [ none ↦ later | some h ↦ found h ])
  by_hit s later found none l f = l
  by_hit s later found (some h) l f = f h

  loop-Consistent :
      (current now : Timeval) (w : World H) (done rest : List Remote)
      → Consistent w.release (decode_loop H decode_func resolution current now w done rest)
  unfolding decode_loop
  loop-Consistent current now w done [] =
      unreported (record w { memory = record w.memory { last_remote = none } }) done
  loop-Consistent current now w done (remote ∷ rest) =
      let (received, remote', driver) = decode_func w.driver remote in
      let w' = record w { driver = driver } in
      let f = attempt received remote' in
      let done' = done ++ (record f.remote { toggle_mask_state = 0 } ∷ []) in
      let later = decode_loop H decode_func resolution current now w' done' rest in
      by_hit w.release later (λ h. decoded H decode_func resolution current now w' done rest h)
        (hit received f) (loop-Consistent current now w' done' rest)
        (λ h. decoded-Consistent current now w' done rest h)

  -- Whatever the driver receives, `decode_all` either returns no message and leaves what is
  -- registered for the release alone, or has registered a button, and returns the message with the
  -- names of its remote and of itself, its code and its count, if that fits.
  pub decode_all-Consistent :
      (current now : Timeval) (w : World H) (remotes : List Remote)
      → Consistent w.release (decode_all H decode_func resolution current now w remotes)
  unfolding decode_all
  decode_all-Consistent current now w remotes = loop-Consistent current now w [] remotes
