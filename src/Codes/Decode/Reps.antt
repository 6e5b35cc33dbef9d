-- ===== src/Codes/Decode/Reps.antt =====
-- What `set_code` counts for a button that is held, and the code that it composes.
use lirc_port_for_mac_os_x.Prelude.{
  ℕ, suc, ◌+◌, ◌<◌, ◌≡◌, refl, ◌∙◌, arith, List, [], ◌∷◌, some, Bool, true, false, length,
  if◌then◌else◌,
}
use lirc_port_for_mac_os_x.Remote.{Remote, Ncode, Timeval}
use lirc_port_for_mac_os_x.Remote.Flags.{has_toggle_mask, has_toggle_bit_mask}
use lirc_port_for_mac_os_x.Remote.Time.{time_elapsed}
use lirc_port_for_mac_os_x.Codes.Decode.{
  Memory, Decoded, is_repeated, count_repeat, start_count, first_reps, compose_code, count_code,
  remember, set_code,
}

-- Each time comes less than a second after the one before.
abbrev pub Close : Timeval → List Timeval → Type 0
Close last [] = Unit
Close last (t ∷ ts) = (time_elapsed last t < 1000000) × Close t ts

module _ (found : ℕ) (ncode : Ncode) (state min_gap max_gap : ℕ) where
  -- The button is decoded with the flag of a repeat at each of the times.
  unfoldable pub hold : Decoded → List Timeval → Decoded
  hold d [] = d
  hold d (t ∷ ts) = hold (set_code d.memory d.remote found ncode state true min_gap max_gap t) ts

  -- A decoder that has counted `n` repeats of the button, the last at `last`.
  pub record Held (n : ℕ) (last : Timeval) (d : Decoded) : Type 0 where
    pub counted : d.remote.reps ≡ n
    pub remembered : d.remote.last_code ≡ some found
    pub decoded_last : d.memory.last_decoded ≡ some d.remote.address
    pub sent_at : d.remote.last_send ≡ last
    pub no_release : d.remote.release_detected ≡ false
    pub no_toggle : d.remote.toggle_mask ≡ 0
    pub no_toggle_bit : d.remote.toggle_bit_mask ≡ 0

  count-plain :
      (r : Remote)
      → ncode.current ≡ []
      → r.toggle_mask ≡ 0
      → count_repeat r ncode ≡ record r { reps = r.reps + 1 }
  unfolding count_repeat has_toggle_mask
  count-plain r c h = rw (c, h) refl

  start-plain :
      (r : Remote)
      → ncode.next ≡ []
      → r.toggle_mask ≡ 0
      → r.toggle_bit_mask ≡ 0
      → start_count r found ncode state ≡ record r { reps = 0 }
  unfolding start_count first_reps has_toggle_mask has_toggle_bit_mask
  start-plain r n h b = rw (n, h, b) refl

  is_repeated-held :
      (m : Memory) (r : Remote) (t : Timeval)
      → m.last_decoded ≡ some r.address
      → r.last_code ≡ some found
      → time_elapsed r.last_send t < 1000000
      → r.toggle_bit_mask ≡ 0
      → is_repeated m r found ncode state true t ≡ true
  unfolding is_repeated has_toggle_bit_mask
  is_repeated-held m r t a l e b = rw (a, l, b) (ground arith)

  is_repeated-unflagged :
      (m : Memory) (r : Remote) (t : Timeval) → is_repeated m r found ncode state false t ≡ false
  unfolding is_repeated
  is_repeated-unflagged m r t = ground arith

  count-starts :
      (m : Memory) (r : Remote) (t : Timeval) (flagged : Bool)
      → flagged ≡ false
      → ncode.next ≡ []
      → r.toggle_mask ≡ 0
      → r.toggle_bit_mask ≡ 0
      → count_code m r found ncode state flagged t ≡ record r { reps = 0 }
  unfolding count_code
  count-starts m r t flagged f n h b = rw (f, is_repeated-unflagged m r t) (start-plain r n h b)

  count-repeats :
      (m : Memory) (r : Remote) (t : Timeval) (flagged : Bool)
      → flagged ≡ true
      → ncode.current ≡ []
      → m.last_decoded ≡ some r.address
      → r.last_code ≡ some found
      → time_elapsed r.last_send t < 1000000
      → r.toggle_mask ≡ 0
      → r.toggle_bit_mask ≡ 0
      → count_code m r found ncode state flagged t ≡ record r { reps = r.reps + 1 }
  unfolding count_code
  count-repeats m r t flagged f c a l e h b =
      rw (f, is_repeated-held m r t a l e b) (count-plain r c h)

  remember-Held :
      (n : ℕ) (r : Remote) (t : Timeval)
      → r.reps ≡ n
      → ncode.current ≡ []
      → r.release_detected ≡ false
      → r.toggle_mask ≡ 0
      → r.toggle_bit_mask ≡ 0
      → Held n t (record {
        memory = record { last_decoded = some r.address; last_remote = some r.address };
        remote = remember found ncode min_gap max_gap t r;
        code = compose_code (remember found ncode min_gap max_gap t r) ncode.code;
      })
  unfolding remember
  remember-Held n r t e c d h b = record {
    counted = e;
    remembered = rw c refl;
    decoded_last = refl;
    sent_at = refl;
    no_release = d;
    no_toggle = h;
    no_toggle_bit = b;
  }

  not_flagged : (b : Bool) → (if b then false else false) ≡ false
  not_flagged true = refl
  not_flagged false = refl

  set_code-starts :
      (m : Memory) (r : Remote) (t : Timeval)
      → ncode.next ≡ []
      → ncode.current ≡ []
      → r.toggle_mask ≡ 0
      → r.toggle_bit_mask ≡ 0
      → Held 0 t (set_code m r found ncode state false min_gap max_gap t)
  unfolding set_code
  set_code-starts m r t n c h b =
      rw
        (count-starts m (record r { release_detected = false }) t
          (if r.release_detected then false else false) (not_flagged r.release_detected) n h b)
        (remember-Held 0 (record r { release_detected = false; reps = 0 }) t refl c refl h b)

  set_code-repeats :
      (k : ℕ) (last t : Timeval) (d : Decoded)
      → ncode.current ≡ []
      → Held k last d
      → time_elapsed last t < 1000000
      → Held (suc k) t (set_code d.memory d.remote found ncode state true min_gap max_gap t)
  unfolding set_code
  set_code-repeats k last t d c h close =
      let repeated =
        count-repeats d.memory (record d.remote { release_detected = false }) t
          (if d.remote.release_detected then false else true) (rw h.no_release refl) c
          h.decoded_last h.remembered (rw h.sent_at close) h.no_toggle h.no_toggle_bit in
      let next : d.remote.reps + 1 ≡ suc k = omega (arith, h.counted) in
      rw repeated (
        remember-Held (suc k)
          (record d.remote { release_detected = false; reps = d.remote.reps + 1 }) t next c refl
          h.no_toggle h.no_toggle_bit)

  hold-Held :
      (k : ℕ) (last : Timeval) (d : Decoded) (times : List Timeval)
      → ncode.current ≡ []
      → Held k last d
      → Close last times
      → (hold d times).remote.reps ≡ k + length times
  unfolding hold
  hold-Held k last d [] c h close = h.counted ∙ omega arith
  hold-Held k last d (t ∷ ts) c h (e, close) =
      hold-Held (suc k) t _ ts c (set_code-repeats k last t d c h e) close ∙ omega arith

  -- For a button with one code (no chain), of a remote with no toggle mask and no toggle bit mask,
  -- that is decoded first without and then any number of times with the flag of a repeat, each less
  -- than a second after the one before, the field `reps` of the remote counts the repeats, whatever
  -- was decoded before.
  pub hold-reps :
      (m : Memory) (r : Remote) (first : Timeval) (times : List Timeval)
      → ncode.next ≡ []
      → ncode.current ≡ []
      → r.toggle_mask ≡ 0
      → r.toggle_bit_mask ≡ 0
      → Close first times
      → (hold (set_code m r found ncode state false min_gap max_gap first) times).remote.reps
        ≡ length times
  hold-reps m r first times n c h b close =
      hold-Held 0 first _ times c (set_code-starts m r first n c h b) close ∙ omega arith
