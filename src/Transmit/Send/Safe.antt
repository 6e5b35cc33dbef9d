-- ===== src/Transmit/Send/Safe.antt =====
-- `init_send` reads and writes only where its pointers point, through every round of its loop.
use lirc_port_for_mac_os_x.Prelude.{
  ℕ, zero, suc, ◌≡◌, ◌≢◌, refl, sym, subst, ap, ◌∙◌, ◌⊎◌, inl, inr, arith, List, [], ◌∷◌, Option,
  some, Bool, true, false, if◌then◌else◌, take, length, length-set,
}
use lirc_port_for_mac_os_x.Remote.{Remote, Ncode}
use lirc_port_for_mac_os_x.Transmit.Buffer.{
  SendBuffer, Source, unset, own, raw, wbuf_size, undefined_read, check_loop, check_written,
  check_send_buffer, sync_send_buffer, bad_send_buffer, flush_pulse, flush_space, flush_send_buffer,
  send_space, clear_send_buffer,
}
use lirc_port_for_mac_os_x.Transmit.Buffer.Bounds.{send_space-Fits}
use lirc_port_for_mac_os_x.Transmit.Encode.Induction.{keep_if}
use lirc_port_for_mac_os_x.Transmit.Send.{
  Sending, Outcome, ready, refused, undefined, Round, stop, again, check_outcome, load_raw,
  with_buffer, emit, synced, settle, settle_emitted, send_round, remaining_gaps, advance_code,
  wants_more, continue_with, Loaded, loaded, no_signals, past_signals, loaded-injective, unroll,
  concatenate, final_check, send_loop, init_send, cannot_send, prepared, as_given,
}
use lirc_port_for_mac_os_x.Transmit.Send.Ready.{gaps-buffer, Round-cases}
use lirc_port_for_mac_os_x.Transmit.Send.Memory.{
  EmittedInRange, Backed, InRange, SignalsFit, Before, IsOwn, emit-InRange, send_space-source,
  send_signals-IsOwn,
}

sync-source : (b : SendBuffer) → (sync_send_buffer b).source ≡ b.source
unfolding sync_send_buffer
sync-source b = ground arith

sync-room :
    (b : SendBuffer) → length b.cells ≡ wbuf_size → length (sync_send_buffer b).cells ≡ wbuf_size
unfolding sync_send_buffer
sync-room b h = ground (arith, length-set b.cells b.wptr b.pendingp)

sync-Backed :
    (source : Source) (b : SendBuffer) → Backed source b → Backed source (sync_send_buffer b)
unfolding sync_send_buffer
sync-Backed unset b h = h
sync-Backed own b h = ground arith
sync-Backed (raw signals) b h = ground arith

sync-InRange : (b : SendBuffer) → InRange b → InRange (sync_send_buffer b)
sync-InRange b v = record {
  room = sync-room b v.room;
  backed =
      subst (λ source. Backed source (sync_send_buffer b)) (sym (sync-source b))
        (sync-Backed b.source b v.backed);
}

check_loop-defined : (xs : List ℕ) → check_loop xs ≢ undefined_read
unfolding check_loop
check_loop-defined [] = ground arith
check_loop-defined (x ∷ xs) = ground (arith, check_loop-defined xs)

check_written-defined :
    (source : Source) (b : SendBuffer) → Backed source b → check_written source b ≢ undefined_read
unfolding check_written
check_written-defined unset b h = absurd h
check_written-defined own b h = check_loop-defined (take b.wptr b.cells)
check_written-defined (raw signals) b h = ground (arith, check_loop-defined (take b.wptr signals))

check-defined : (b : SendBuffer) → InRange b → check_outcome (check_send_buffer b) ≢ undefined
unfolding check_send_buffer
check-defined b v = ground (arith, check_written-defined b.source b v.backed)

-- What is in the buffer can be copied into its own array.
unroll-IsOwn :
    (source : Source) (b : SendBuffer)
    → b.source ≡ source
    → length b.cells ≡ wbuf_size
    → Backed source b
    → (c : SendBuffer) × (unroll source b ≡ some c) × IsOwn c
unfolding IsOwn unroll
unroll-IsOwn unset b e r h = absurd h
unroll-IsOwn own b e r h = (b, refl, (record { room = r; inside = h }, e))
unroll-IsOwn (raw signals) b e r h =
    send_signals-IsOwn signals b.wptr (record b { source = own; wptr = 0 })
      (record { room = r; inside = omega arith }) refl h.0

flush_pulse-IsOwn :
    (b : SendBuffer) → IsOwn b → IsOwn (flush_pulse b) × ((flush_pulse b).pendingp ≡ 0)
unfolding flush_pulse IsOwn
flush_pulse-IsOwn b h = ground (arith, length-set b.cells b.wptr b.pendingp)

flush_space-IsOwn :
    (b : SendBuffer) → IsOwn b → IsOwn (flush_space b) × ((flush_space b).pendingp ≡ b.pendingp)
unfolding flush_space IsOwn
flush_space-IsOwn b h = ground (arith, length-set b.cells b.wptr b.pendings)

flush-IsOwn :
    (b : SendBuffer) → IsOwn b → IsOwn (flush_send_buffer b) × ((flush_send_buffer b).pendingp ≡ 0)
unfolding flush_send_buffer
flush-IsOwn b h =
    let (owned, none_pending) = flush_pulse-IsOwn b h in
    let (owned', same) = flush_space-IsOwn (flush_pulse b) owned in (owned', same ∙ none_pending)

send_space-IsOwn : (d : ℕ) (b : SendBuffer) → IsOwn b → IsOwn (send_space d b)
unfolding IsOwn
send_space-IsOwn d b h = (send_space-Fits d b h.0, send_space-source d b ∙ h.1)

-- Another round starts from the buffer's own array.
concatenate-Before :
    (s : Sending) (unrolled : SendBuffer)
    → IsOwn unrolled
    → SignalsFit s.code s.code.signals
    → Before (concatenate s unrolled)
unfolding concatenate IsOwn
concatenate-Before s unrolled h f =
    let (owned, none_pending) =
      flush-IsOwn _ (send_space-IsOwn s.remote.min_remaining_gap unrolled h) in
    record {
      fits = record { room = owned.0.room; inside = owned.0.inside };
      nothing_pending = none_pending;
      signals_fit = f;
      source = inl owned.1;
    }

gaps-code : (s : Sending) → (remaining_gaps s).0.code ≡ s.code
unfolding remaining_gaps
gaps-code s = ground arith

-- What a round leaves: no undefined read, a buffer in range where it returns 1, and what the next
-- round needs.
abbrev RoundIsSafe : Round → Type 0
RoundIsSafe (stop o t) = (o ≢ undefined) × (o ≡ ready → InRange t.buffer)
RoundIsSafe (again t) = Before t

final_check-IsSafe : (s : Sending) → InRange s.buffer → RoundIsSafe (final_check s)
unfolding final_check
final_check-IsSafe s v = (check-defined s.buffer v, λ _. v)

refused-IsSafe : (s : Sending) → RoundIsSafe (stop refused s)
refused-IsSafe s = (ground arith, λ h. cc)

continue-IsSafe :
    (s : Sending)
    → InRange s.buffer
    → SignalsFit s.code s.code.signals
    → RoundIsSafe (continue_with s (unroll s.buffer.source s.buffer))
unfolding continue_with
continue-IsSafe s v f =
    let (unrolled, e, owned) = unroll-IsOwn s.buffer.source s.buffer refl v.room v.backed in
    subst (λ (o : Option SendBuffer). RoundIsSafe (continue_with s o)) (sym e)
      (concatenate-Before s unrolled owned f)

settle-IsSafe :
    (sim : Bool) (s : Sending)
    → InRange s.buffer
    → SignalsFit s.code s.code.signals
    → RoundIsSafe (settle sim s)
unfolding settle advance_code
settle-IsSafe sim s v f =
    let gapped = (remaining_gaps s).0 in
    let advanced = advance_code gapped in
    let fadvanced : SignalsFit advanced.code advanced.code.signals =
      subst (λ c. SignalsFit c c.signals) (sym (gaps-code s)) f in
    let vadvanced : InRange advanced.buffer = subst InRange (sym (gaps-buffer s)) v in
    keep_if RoundIsSafe (bad_send_buffer s.buffer) (refused-IsSafe s) (
      keep_if RoundIsSafe sim (final_check-IsSafe s v) (
        keep_if RoundIsSafe (remaining_gaps s).1 (refused-IsSafe gapped) (
          keep_if RoundIsSafe (wants_more advanced) (continue-IsSafe advanced vadvanced fadvanced)
            (final_check-IsSafe advanced vadvanced))))

with_buffer-code :
    (s t : Sending) (o : Loaded SendBuffer) → with_buffer s o ≡ loaded t → t.code ≡ s.code
with_buffer-code s t no_signals e = cc
with_buffer-code s t past_signals e = cc
with_buffer-code s t (loaded c) e = ap (λ x. x.code) (sym (loaded-injective _ _ e))

emit-code : (sim : Bool) (s t : Sending) → emit sim s ≡ loaded t → t.code ≡ s.code
unfolding emit
emit-code sim s t e = ground (arith, with_buffer-code s t (load_raw s.code s.buffer s.code.signals))

settle_emitted-IsSafe :
    (sim : Bool) (s : Sending) (o : Loaded Sending)
    → EmittedInRange o
    → ((t : Sending) → o ≡ loaded t → t.code ≡ s.code)
    → SignalsFit s.code s.code.signals
    → RoundIsSafe (settle_emitted sim s o)
unfolding settle_emitted
settle_emitted-IsSafe sim s no_signals v k f = refused-IsSafe s
settle_emitted-IsSafe sim s past_signals v k f = absurd v
settle_emitted-IsSafe sim s (loaded emitted) v k f =
    settle-IsSafe sim (synced emitted) (sync-InRange emitted.buffer v)
      (subst (λ c. SignalsFit c c.signals) (sym (k emitted refl)) f)

send_round-IsSafe : (sim : Bool) (s : Sending) → Before s → RoundIsSafe (send_round sim s)
unfolding send_round
send_round-IsSafe sim s v =
    settle_emitted-IsSafe sim s (emit sim s) (emit-InRange sim s v) (λ t e. emit-code sim s t e)
      v.signals_fit

send_loop-IsSafe :
    (fuel : ℕ) (sim : Bool) (s t : Sending) (o : Outcome)
    → Before s
    → send_loop fuel sim s ≡ some (o, t)
    → (o ≢ undefined) × (o ≡ ready → InRange t.buffer)
unfolding send_loop
send_loop-IsSafe zero sim s t o v h = cc
send_loop-IsSafe (suc fuel) sim s t o v h = elim (Round-cases (send_round sim s)) [
  | inl (o', u, e) ↦
      let returned : stop o' u ≡ stop o t = cc (rw (e, send_loop) at h) in
      subst RoundIsSafe (e ∙ returned) (send_round-IsSafe sim s v)
  | inr (u, e) ↦
      send_loop-IsSafe fuel sim u t o (subst RoundIsSafe e (send_round-IsSafe sim s v))
        (rw (e, send_loop) at h)
]

refused_or_looped :
    (c : Bool) (s t : Sending) (l : Option (Outcome × Sending)) (o : Outcome)
    → (if c then some (refused, s) else l) ≡ some (o, t)
    → (o ≡ refused) ⊎ (l ≡ some (o, t))
refused_or_looped true s t l o h = inl (cc)
refused_or_looped false s t l o h = inr h

prepared-Before :
    (remote : Remote) (code : Ncode) (b : SendBuffer)
    → length b.cells ≡ wbuf_size
    → SignalsFit code code.signals
    → Before (prepared true remote code b false false)
unfolding prepared clear_send_buffer
prepared-Before remote code b room f = record {
  fits = ground arith;
  nothing_pending = ground arith;
  signals_fit = f;
  source = inr (ground arith, refl);
}

-- For a send buffer with its 256 cells and a raw code with at least as many signals as its length
-- says, a first send (no repeat going on) never reads through a pointer that points nowhere or past
-- the signals of the raw code, also where it joins several signals, and where it returns 1 the
-- array that it gives has at least wptr entries.
pub init_send-IsSafe :
    (fuel : ℕ) (remote : Remote) (code : Ncode) (b : SendBuffer) (t : Sending) (o : Outcome)
    → length b.cells ≡ wbuf_size
    → SignalsFit code code.signals
    → init_send fuel true remote code b ≡ some (o, t)
    → (o ≢ undefined) × ((o ≢ ready) ⊎ InRange t.buffer)
unfolding init_send
init_send-IsSafe fuel remote code b t o room f h =
    let (defined, ranged) = safe in (defined, by_outcome o ranged)
  where
    safe : (o ≢ undefined) × (o ≡ ready → InRange t.buffer)
    safe =
        elim (refused_or_looped (cannot_send remote) (as_given remote code b false) t
          (send_loop fuel false (prepared true remote code b false false)) o h) [
            | inl refusal ↦ (ground arith, λ r. cc)
            | inr looped ↦
                send_loop-IsSafe fuel false (prepared true remote code b false false) t o
                  (prepared-Before remote code b room f) looped
          ]

    by_outcome : (o' : Outcome) → (o' ≡ ready → InRange t.buffer) → (o' ≢ ready) ⊎ InRange t.buffer
    by_outcome ready r = inr (r refl)
    by_outcome refused r = inl (λ e. cc)
    by_outcome undefined r = inl (λ e. cc)
