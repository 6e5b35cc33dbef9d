-- ===== src/Config/Lengths/Simulated.antt =====
-- What a simulation does to the remote, for the loops of `calculate_signal_lengths`.
use lirc_port_for_mac_os_x.Prelude.{
  Option, none, some, Bool, true, false, if◌then◌else◌, ◌≡◌, refl, sym, ap, ◌∙◌, arith,
}
use lirc_port_for_mac_os_x.Remote.{Remote, Ncode}
use lirc_port_for_mac_os_x.Transmit.Buffer.{SendBuffer, bad_send_buffer, check_send_buffer}
use lirc_port_for_mac_os_x.Transmit.Send.{
  Loaded, loaded, no_signals, past_signals, loaded-injective, undefined, Outcome, refused, Sending,
  Round, stop, again, as_given, check_outcome, synced, load_raw, with_buffer, emit, final_check,
  settle, settle_emitted, send_round, send_loop, cannot_send, prepared, init_send_or_sim, init_sim,
}

with_buffer-same :
    (s t : Sending) (o : Loaded SendBuffer) → with_buffer s o ≡ loaded t → t.remote ≡ s.remote
with_buffer-same s t no_signals e = cc
with_buffer-same s t past_signals e = cc
with_buffer-same s t (loaded b) e = ap Sending.remote (sym (loaded-injective _ _ e))

emit-same : (s t : Sending) → emit true s ≡ loaded t → t.remote ≡ s.remote
unfolding emit
emit-same s t e = ground (arith, with_buffer-same s t (load_raw s.code s.buffer s.code.signals))

-- The round returns, with the remote as it was.
unfoldable StopsWith : Remote → Round → Type 0
StopsWith remote r =
    (outcome : Outcome) × (t : Sending) × (r ≡ stop outcome t) × (t.remote ≡ remote)

settle-stops : (t : Sending) → StopsWith t.remote (settle true t)
unfolding settle final_check StopsWith
settle-stops t = by_bad (bad_send_buffer t.buffer)
  where
    by_bad :
        (b : Bool)
        → StopsWith t.remote
            (if b then stop refused t else stop (check_outcome (check_send_buffer t.buffer)) t)
    by_bad true = (refused, t, refl, refl)
    by_bad false = (check_outcome (check_send_buffer t.buffer), t, refl, refl)

settle_emitted-stops :
    (s : Sending) (o : Loaded Sending)
    → ((t : Sending) → o ≡ loaded t → t.remote ≡ s.remote)
    → StopsWith s.remote (settle_emitted true s o)
unfolding settle_emitted StopsWith synced
settle_emitted-stops s no_signals h = (refused, s, refl, refl)
settle_emitted-stops s past_signals h = (undefined, s, refl, refl)
settle_emitted-stops s (loaded t) h =
    let (outcome, u, e, k) = settle-stops (synced t) in (outcome, u, e, k ∙ h t refl)

unfoldable pub EndsWith : Remote → Option (Outcome × Sending) → Type 0
EndsWith remote o =
    (outcome : Outcome) × (t : Sending) × (o ≡ some (outcome, t)) × (t.remote ≡ remote)

loop-EndsWith :
    (s : Sending)
    → StopsWith s.remote (settle_emitted true s (emit true s))
    → EndsWith s.remote (send_loop 1 true s)
unfolding StopsWith EndsWith send_loop send_round
loop-EndsWith s (outcome, t, e, k) =
    (outcome, t, ap (λ (r : Round). elim r [ stop o u ↦ some (o, u) | again u ↦ none ]) e, k)

-- A simulation ends after a single round, whatever it starts from, and leaves the remote alone.
pub init_sim-EndsWith :
    (remote : Remote) (code : Ncode) (b : SendBuffer) (repeat : Bool)
    → EndsWith remote (init_sim 1 true remote code b repeat)
unfolding init_sim init_send_or_sim EndsWith prepared
init_sim-EndsWith remote code b repeat = by_protocol (cannot_send remote)
  where
    start : Sending
    start = prepared true remote code b true repeat

    by_protocol :
        (c : Bool)
        → EndsWith remote
            (if c then some (refused, as_given remote code b repeat) else send_loop 1 true start)
    by_protocol true = (refused, as_given remote code b repeat, refl, refl)
    by_protocol false =
        let stops = settle_emitted-stops start (emit true start) (emit-same start) in
        loop-EndsWith start stops
