-- ===== src/Transmit/Buffer/Play.antt =====
-- A whole sequence of pulses and spaces, from a cleared buffer to the array that a driver sends.
use lirc_port_for_mac_os_x.Prelude.{
  ℕ, ◌+◌, ◌%◌, ◌<◌, ◌≡◌, refl, sym, subst, ◌∙◌, ◌⊎◌, inl, inr, arith, List, [], ◌∷◌, ◌++◌,
  append_assoc, append-nil, true, false, Bool-cases, length, take, replicate,
}
use lirc_port_for_mac_os_x.Transmit.Buffer.{
  SendBuffer, wbuf_size, clear_send_buffer, send_pulse, send_space, sync_send_buffer,
}
use lirc_port_for_mac_os_x.Transmit.Buffer.Levels.{
  Signal, pulse, space, levels, trim, AllPositive, alternate, replicate_none, alternate_write_pulse,
}
use lirc_port_for_mac_os_x.Transmit.Buffer.Wave.{
  wave, Alternates, send_pulse-Alternates, send_pulse-wave, send_space-Alternates, send_space-wave,
}

-- The calls of a client in order.
abbrev pub play_one : Signal → SendBuffer → SendBuffer
play_one (pulse d) b = send_pulse d b
play_one (space d) b = send_space d b

abbrev pub play : List Signal → SendBuffer → SendBuffer
play [] b = b
play (s ∷ rest) b = play rest (play_one s b)

abbrev IsStarted : SendBuffer → Type 0
IsStarted b = 0 < b.wptr + b.pendingp

play_one-too_long :
    (s : Signal) (b : SendBuffer) → b.too_long ≡ true → (play_one s b).too_long ≡ true
unfolding send_pulse send_space
play_one-too_long (pulse d) b h = ground arith
play_one-too_long (space d) b h = ground arith

play-too_long :
    (ss : List Signal) (b : SendBuffer) → b.too_long ≡ true → (play ss b).too_long ≡ true
play-too_long [] b h = h
play-too_long (s ∷ ss) b h = play-too_long ss (play_one s b) (play_one-too_long s b h)

-- If the whole sequence fitted, the part before it did.
fitted : (ss : List Signal) (b : SendBuffer) → (play ss b).too_long ≡ false → b.too_long ≡ false
fitted ss b h = elim (Bool-cases b.too_long) [
  | inl full ↦ cc (play-too_long ss b full)
  | inr fine ↦ fine
]

send_space-IsStarted :
    (d : ℕ) (b : SendBuffer)
    → Alternates b
    → IsStarted b
    → (send_space d b).too_long ≡ false
    → IsStarted (send_space d b)
unfolding send_space
send_space-IsStarted d b v s e = ground (arith, v.even_pulse)

send_pulse-IsStarted : (d : ℕ) (b : SendBuffer) → 0 < d → IsStarted (send_pulse d b)
unfolding send_pulse
send_pulse-IsStarted d b h = ground arith

play-wave_started :
    (ss : List Signal) (b : SendBuffer)
    → Alternates b
    → AllPositive ss
    → IsStarted b
    → (play ss b).too_long ≡ false
    → (wave (play ss b) ≡ wave b ++ levels ss) × Alternates (play ss b)
play-wave_started [] b v pos s e = (sym (append-nil (wave b)), v)
play-wave_started (pulse d ∷ ss) b v pos s e =
    let f = fitted ss (send_pulse d b) e in
    let rest =
      play-wave_started ss (send_pulse d b) (send_pulse-Alternates d b v pos.0 f) pos.1
        (send_pulse-IsStarted d b pos.0) e in
    (rest.0 ∙ rw (send_pulse-wave d b v pos.0 f) (append_assoc (wave b) _ _), rest.1)
play-wave_started (space d ∷ ss) b v pos s e =
    let f = fitted ss (send_space d b) e in
    let rest =
      play-wave_started ss (send_space d b) (send_space-Alternates d b v pos.0 f) pos.1
        (send_space-IsStarted d b v s f) e in
    (rest.0 ∙ rw (send_space-wave d b v pos.0 s f) (append_assoc (wave b) _ _), rest.1)

-- A space before the first pulse is not sent.
send_space_dropped : (d : ℕ) (b : SendBuffer) → b.wptr ≡ 0 → b.pendingp ≡ 0 → send_space d b ≡ b
unfolding send_space
send_space_dropped d b h k = ground arith

play-wave_idle :
    (ss : List Signal) (b : SendBuffer)
    → Alternates b
    → AllPositive ss
    → b.wptr ≡ 0
    → b.pendingp ≡ 0
    → wave b ≡ []
    → (play ss b).too_long ≡ false
    → (wave (play ss b) ≡ levels (trim ss)) × Alternates (play ss b)
play-wave_idle [] b v pos h k w e = (w, v)
play-wave_idle (pulse d ∷ ss) b v pos h k w e =
    let f = fitted ss (send_pulse d b) e in
    let rest =
      play-wave_started ss (send_pulse d b) (send_pulse-Alternates d b v pos.0 f) pos.1
        (send_pulse-IsStarted d b pos.0) e in
    (rest.0 ∙ rw (send_pulse-wave d b v pos.0 f, w), rest.1)
play-wave_idle (space d ∷ ss) b v pos h k w e =
    subst
      (λ x.
        (play ss x).too_long ≡ false
        → (wave (play ss x) ≡ levels (trim ss)) × Alternates (play ss x))
      (sym (send_space_dropped d b h k)) (play-wave_idle ss b v pos.1 h k w) e

-- `sync_send_buffer` leaves the array without what was pending as a space.
sync-wave :
    (b : SendBuffer)
    → Alternates b
    → (sync_send_buffer b).too_long ≡ false
    → let s = sync_send_buffer b in
      (wave b ≡ alternate true (take s.wptr s.cells) ++ replicate b.pendings false)
      × ((s.wptr ≡ 0) ⊎ (s.wptr % 2 ≡ 1))
unfolding sync_send_buffer
sync-wave b v e = ground (
  arith,
  v.even_pulse,
  v.odd_space,
  v.idle,
  replicate_none b.pendingp true,
  replicate_none b.pendings false,
  alternate_write_pulse b.cells b.wptr b.pendingp,
  append-nil (alternate true (take b.wptr b.cells)),
)

-- Sent from a cleared buffer, positive pulses and spaces become an array of alternating pulses and
-- spaces with the same line levels, microsecond by microsecond: only the spaces before the first
-- pulse and after the last are missing. Stated for sequences that fit the buffer. The array is
-- empty or ends with a pulse.
pub play-levels :
    (ss : List Signal) (b : SendBuffer)
    → length b.cells ≡ wbuf_size
    → AllPositive ss
    → let played = play ss (clear_send_buffer b) in
      let s = sync_send_buffer played in
      played.too_long ≡ false
      → s.too_long ≡ false
      → (levels (trim ss) ≡ alternate true (take s.wptr s.cells) ++ replicate played.pendings false)
        × ((s.wptr ≡ 0) ⊎ (s.wptr % 2 ≡ 1))
unfolding clear_send_buffer
play-levels ss b room pos fits synced =
    let start : Alternates (clear_send_buffer b) = omega arith in
    let (same, alternates) =
      play-wave_idle ss (clear_send_buffer b) start pos refl refl refl fits in
    let (kept, parity) = sync-wave (play ss (clear_send_buffer b)) alternates synced in
    (sym same ∙ kept, parity)
