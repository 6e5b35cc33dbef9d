-- ===== src/Transmit/Send/Ready.antt =====
-- What `init_send` and `init_sim` leave in the buffer when they return 1.
use lirc_port_for_mac_os_x.Prelude.{
  ℕ, zero, suc, ◌%◌, ◌≡◌, ◌≢◌, refl, ◌⊎◌, inl, inr, arith, List, [], ◌∷◌, Option, some, Bool, true,
  false, if◌then◌else◌, take,
}
use lirc_port_for_mac_os_x.Remote.{Remote, Ncode}
use lirc_port_for_mac_os_x.Transmit.Buffer.{
  SendBuffer, Source, unset, own, raw, written, written_cells, Check, valid, check_loop,
  check_written, check_send_buffer, sync_send_buffer,
}
use lirc_port_for_mac_os_x.Transmit.Send.{
  Sending, Loaded, loaded, no_signals, past_signals, Outcome, ready, refused, check_outcome, Round,
  stop, again, emit, synced, settle, settle_emitted, send_round, remaining_gaps, advance_code,
  send_loop, init_send_or_sim, cannot_send, prepared, as_given,
}

abbrev pub AllNonzero : List ℕ → Type 0
AllNonzero [] = Unit
AllNonzero (x ∷ xs) = (x ≢ 0) × AllNonzero xs

-- The array holds an odd number of entries, from a pulse to a pulse, and none of length 0.
pub record IsTransmittable (b : SendBuffer) : Type 0 where
  pub ends_with_pulse : b.wptr % 2 ≡ 1
  pub no_empty_entry : AllNonzero (written b)

check_loop-AllNonzero : (xs : List ℕ) → check_loop xs ≡ valid → AllNonzero xs
unfolding check_loop
check_loop-AllNonzero [] h = tt
check_loop-AllNonzero (x ∷ xs) h = ground (arith, check_loop-AllNonzero xs)

check_written-AllNonzero :
    (source : Source) (b : SendBuffer)
    → check_written source b ≡ valid
    → AllNonzero (written_cells source b)
unfolding check_written
check_written-AllNonzero unset b h = tt
check_written-AllNonzero own b h = check_loop-AllNonzero (take b.wptr b.cells) h
check_written-AllNonzero (raw signals) b h =
    check_loop-AllNonzero (take b.wptr signals) (ground arith)

sync-odd : (b : SendBuffer) → let s = sync_send_buffer b in (s.wptr ≡ 0) ⊎ (s.wptr % 2 ≡ 1)
unfolding sync_send_buffer
sync-odd b = ground arith

check_outcome-ready : (c : Check) → check_outcome c ≡ ready → c ≡ valid
check_outcome-ready c h = ground arith

checked-IsTransmittable :
    (b : SendBuffer)
    → (b.wptr ≡ 0) ⊎ (b.wptr % 2 ≡ 1)
    → check_send_buffer b ≡ valid
    → IsTransmittable b
unfolding check_send_buffer
checked-IsTransmittable b odd h = record {
  ends_with_pulse = ground arith;
  no_empty_entry = check_written-AllNonzero b.source b (ground arith);
}

pub gaps-buffer : (s : Sending) → (remaining_gaps s).0.buffer ≡ s.buffer
unfolding remaining_gaps
gaps-buffer s = ground arith

pub advance-buffer : (s : Sending) → (advance_code s).buffer ≡ s.buffer
unfolding advance_code
advance-buffer s = refl

settle-ready :
    (sim : Bool) (s t : Sending)
    → (s.buffer.wptr ≡ 0) ⊎ (s.buffer.wptr % 2 ≡ 1)
    → settle sim s ≡ stop ready t
    → IsTransmittable t.buffer
unfolding settle
settle-ready sim s t odd h = ground (
  arith,
  gaps-buffer s,
  advance-buffer (remaining_gaps s).0,
  check_outcome-ready (check_send_buffer s.buffer),
  check_outcome-ready (check_send_buffer (advance_code (remaining_gaps s).0).buffer),
  checked-IsTransmittable s.buffer odd,
)

send_round-ready :
    (sim : Bool) (s t : Sending) → send_round sim s ≡ stop ready t → IsTransmittable t.buffer
unfolding send_round
send_round-ready sim s t = by_emitted (emit sim s)
  where
    by_emitted :
        (o : Loaded Sending) → settle_emitted sim s o ≡ stop ready t → IsTransmittable t.buffer
    by_emitted no_signals h = cc
    by_emitted past_signals h = cc
    by_emitted (loaded emitted) h = settle-ready sim (synced emitted) t (sync-odd emitted.buffer) h

pub Round-cases :
    (r : Round) → ((o : Outcome) × (t : Sending) × (r ≡ stop o t)) ⊎ ((t : Sending) × (r ≡ again t))
Round-cases (stop o t) = inl (o, t, refl)
Round-cases (again t) = inr (t, refl)

send_loop-ready :
    (fuel : ℕ) (sim : Bool) (s t : Sending)
    → send_loop fuel sim s ≡ some (ready, t)
    → IsTransmittable t.buffer
unfolding send_loop
send_loop-ready zero sim s t h = cc
send_loop-ready (suc fuel) sim s t h = elim (Round-cases (send_round sim s)) [
  | inl (o, u, e) ↦ send_round-ready sim s t (cc (rw (e, send_loop) at h))
  | inr (u, e) ↦ send_loop-ready fuel sim u t (rw (e, send_loop) at h)
]

-- A result of 1 comes from the loop, not from the test on the protocol.
from_loop :
    (c : Bool) (s t : Sending) (l : Option (Outcome × Sending))
    → (if c then some (refused, s) else l) ≡ some (ready, t)
    → l ≡ some (ready, t)
from_loop true s t l h = cc
from_loop false s t l h = h

-- When `init_send` or `init_sim` returns 1, the array that it leaves for the driver begins and ends
-- with a pulse and has no entry of length 0, whatever the remote, the code, the toggle state, the
-- repeats and the buffer before were.
pub init_send_or_sim-IsTransmittable :
    (fuel : ℕ) (repeat_remote_null : Bool) (remote : Remote) (code : Ncode) (b : SendBuffer)
    (sim repeat_preset : Bool) (t : Sending)
    → init_send_or_sim fuel repeat_remote_null remote code b sim repeat_preset ≡ some (ready, t)
    → IsTransmittable t.buffer
unfolding init_send_or_sim
init_send_or_sim-IsTransmittable fuel null remote code b sim preset t h =
    send_loop-ready fuel sim (prepared null remote code b sim preset) t (
      from_loop (cannot_send remote) (as_given remote code b preset) t
        (send_loop fuel sim (prepared null remote code b sim preset)) h)
