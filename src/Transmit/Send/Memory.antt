-- ===== src/Transmit/Send/Memory.antt =====
-- Which memory `init_send` reads and writes.
use lirc_port_for_mac_os_x.Prelude.{
  ℕ, ◌≤◌, ◌≡◌, refl, sym, ap, if◌then◌else◌, subst, ◌∙◌, ◌⊎◌, inl, inr, arith, List, [], ◌∷◌,
  Option, none, some, Bool, true, false, ◌&&◌, ltb, take, length,
}
use lirc_port_for_mac_os_x.Remote.{Remote, Ncode}
use lirc_port_for_mac_os_x.Remote.Flags.{is_raw, has_repeat, has_flag, has_header, repeat_header}
use lirc_port_for_mac_os_x.Transmit.Buffer.{
  SendBuffer, Source, unset, own, raw, wbuf_size, send_pulse, send_space, send_signals,
  read_signals, send_signals_loop, add_send_buffer,
}
use lirc_port_for_mac_os_x.Transmit.Buffer.Bounds.{
  Fits, add_send_buffer-Fits, send_pulse-Fits, send_space-Fits,
}
use lirc_port_for_mac_os_x.Transmit.Encode.{send_header, send_repeat, send_code}
use lirc_port_for_mac_os_x.Transmit.Encode.Induction.{
  keep_if, send_header_kept, send_repeat_kept, send_code_kept,
}
use lirc_port_for_mac_os_x.Transmit.Send.{
  Loaded, loaded, no_signals, past_signals, add_all, step_toggle_mask, Sending, load_raw,
  with_buffer, code_to_send, emit,
}

-- `data` points to at least `wptr` entries, and nothing is pending beside raw signals.
abbrev pub Backed : Source → SendBuffer → Type 0
Backed unset b = ⊥
Backed own b = b.wptr ≤ wbuf_size
Backed (raw signals) b = (b.wptr ≤ length signals) × (b.pendingp ≡ 0)

pub record InRange (b : SendBuffer) : Type 0 where
  pub room : length b.cells ≡ wbuf_size
  pub backed : Backed b.source b

-- The lengths of a code's raw signals are where `signals` points.
abbrev pub SignalsFit : Ncode → Option (List ℕ) → Type 0
SignalsFit code none = Unit
SignalsFit code (some signals) = code.length ≤ length signals

-- Before a signal the buffer is either empty or its own array.
pub record Before (s : Sending) : Type 0 where
  pub fits : Fits s.buffer
  pub nothing_pending : s.buffer.pendingp ≡ 0
  pub signals_fit : SignalsFit s.code s.code.signals
  pub source : (s.buffer.source ≡ own) ⊎ ((s.buffer.wptr ≡ 0) × (s.repeat ≡ false))

unfoldable pub IsOwn : SendBuffer → Type 0
IsOwn b = Fits b × (b.source ≡ own)

send_pulse-source : (d : ℕ) (b : SendBuffer) → (send_pulse d b).source ≡ b.source
unfolding send_pulse
send_pulse-source d b = ground arith

pub send_space-source : (d : ℕ) (b : SendBuffer) → (send_space d b).source ≡ b.source
unfolding send_space
send_space-source d b = ground arith

send_repeat-IsOwn : (remote : Remote) (b : SendBuffer) → IsOwn b → IsOwn (send_repeat remote b)
unfolding IsOwn
send_repeat-IsOwn remote b h = (
  send_repeat_kept Fits send_pulse-Fits send_space-Fits remote b h.0,
  send_repeat_kept (λ c. c.source ≡ own) (λ d c k. send_pulse-source d c ∙ k)
      (λ d c k. send_space-source d c ∙ k) remote b h.1,
)

send_header-IsOwn : (remote : Remote) (b : SendBuffer) → IsOwn b → IsOwn (send_header remote b)
unfolding IsOwn
send_header-IsOwn remote b h = (
  send_header_kept Fits send_pulse-Fits send_space-Fits remote b h.0,
  send_header_kept (λ c. c.source ≡ own) (λ d c k. send_pulse-source d c ∙ k)
      (λ d c k. send_space-source d c ∙ k) remote b h.1,
)

send_code-Fits :
    (remote : Remote) (code : ℕ) (repeat : Bool) (b : SendBuffer)
    → Fits b
    → Fits (send_code remote code repeat b)
send_code-Fits remote code repeat b h =
    send_code_kept Fits send_pulse-Fits send_space-Fits remote (λ c sum k. omega arith) code repeat
      b h

send_signals_loop-IsOwn : (xs : List ℕ) (b : SendBuffer) → IsOwn b → IsOwn (send_signals_loop xs b)
unfolding send_signals_loop IsOwn
send_signals_loop-IsOwn [] b h = h
send_signals_loop-IsOwn (x ∷ xs) b h =
    send_signals_loop-IsOwn xs (add_send_buffer x b) (add_send_buffer-Fits x b h.0, add_source)
  where
    add_source : (add_send_buffer x b).source ≡ own
    add_source = ground arith

pub read_signals_within :
    (n : ℕ) (xs : List ℕ) → n ≤ length xs → read_signals n xs ≡ some (take n xs)
unfolding read_signals
read_signals_within n xs h = ground arith

pub send_signals-IsOwn :
    (xs : List ℕ) (n : ℕ) (b : SendBuffer)
    → Fits b
    → b.source ≡ own
    → n ≤ length xs
    → (c : SendBuffer) × (send_signals xs n b ≡ some c) × IsOwn c
unfolding send_signals IsOwn
send_signals-IsOwn xs n b f e h = (
  send_signals_loop (take n xs) b,
  ap (λ (o : Option (List ℕ)). elim o [ none ↦ none | some read ↦ some (send_signals_loop read b) ])
      (read_signals_within n xs h),
  send_signals_loop-IsOwn (take n xs) b (f, e),
)

own-InRange : (b : SendBuffer) → IsOwn b → InRange b
unfolding IsOwn
own-InRange b h = record { room = h.0.room; backed = rw h.1 h.0.inside }

-- What a raw code leaves: it is not read past its signals, and the buffer is in range.
abbrev LoadedInRange : Loaded SendBuffer → Type 0
LoadedInRange (loaded c) = InRange c
LoadedInRange no_signals = Unit
LoadedInRange past_signals = ⊥

load_raw-InRange :
    (code : Ncode) (b : SendBuffer) (o : Option (List ℕ))
    → Fits b
    → b.pendingp ≡ 0
    → SignalsFit code o
    → (b.source ≡ own) ⊎ (b.wptr ≡ 0)
    → LoadedInRange (load_raw code b o)
unfolding load_raw
load_raw-InRange code b none f p h s = tt
load_raw-InRange code b (some signals) f p h s = by_use (ltb 0 b.wptr) refl
  where
    own_source : ltb 0 b.wptr ≡ true → (b.source ≡ own) ⊎ (b.wptr ≡ 0) → b.source ≡ own
    own_source used (inl own_already) = own_already
    own_source used (inr empty) = absurd (ground arith)

    added : Option SendBuffer → Loaded SendBuffer
    added o = elim o [ none ↦ past_signals | some filled ↦ loaded filled ]

    kept : Option (List ℕ) → Loaded SendBuffer
    kept o = elim o [
      | none ↦ past_signals
      | some read ↦
          loaded (record b { source = raw signals; wptr = code.length; sum = add_all read b.sum })
    ]

    by_use :
        (u : Bool)
        → ltb 0 b.wptr ≡ u
        → LoadedInRange (
            if u
            then added (send_signals signals code.length b)
            else kept (read_signals code.length signals))
    by_use true used =
        let (c, e, owned) = send_signals-IsOwn signals code.length b f (own_source used s) h in
        subst (λ (o : Option SendBuffer). LoadedInRange (added o)) (sym e) (own-InRange c owned)
    by_use false empty =
        subst (λ (o : Option (List ℕ)). LoadedInRange (kept o))
          (sym (read_signals_within code.length signals h))
          (record { room = f.room; backed = (h, p) })

own_or_empty :
    (s : Sending)
    → (s.buffer.source ≡ own) ⊎ ((s.buffer.wptr ≡ 0) × (s.repeat ≡ false))
    → (s.buffer.source ≡ own) ⊎ (s.buffer.wptr ≡ 0)
own_or_empty s (inl o) = inl o
own_or_empty s (inr (w, r)) = inr w

repeats-IsOwn : (s : Sending) → Before s → (s.repeat && has_repeat s.remote) ≡ true → IsOwn s.buffer
unfolding IsOwn
repeats-IsOwn s v repeats = (v.fits, by_source v.source)
  where
    by_source :
        (s.buffer.source ≡ own) ⊎ ((s.buffer.wptr ≡ 0) × (s.repeat ≡ false)) → s.buffer.source ≡ own
    by_source (inl o) = o
    by_source (inr (w, r)) = ground arith

-- What a signal leaves is in range, and nothing is read past the signals of a raw code.
abbrev pub EmittedInRange : Loaded Sending → Type 0
EmittedInRange (loaded t) = InRange t.buffer
EmittedInRange no_signals = Unit
EmittedInRange past_signals = ⊥

with_buffer-InRange :
    (s : Sending) (o : Loaded SendBuffer) → LoadedInRange o → EmittedInRange (with_buffer s o)
with_buffer-InRange s (loaded c) h = h
with_buffer-InRange s no_signals h = tt
with_buffer-InRange s past_signals h = h

pub emit-InRange : (sim : Bool) (s : Sending) → Before s → EmittedInRange (emit sim s)
unfolding emit
emit-InRange sim s v = by_kind (s.repeat && has_repeat s.remote) (is_raw s.remote) refl
  where
    headed : SendBuffer
    headed =
        if has_flag s.remote repeat_header && has_header s.remote
        then send_header s.remote s.buffer
        else s.buffer

    sent : SendBuffer
    sent = send_code s.remote (code_to_send sim s.code s.code.transmit_state) s.repeat s.buffer

    by_kind :
        (repeats raw_codes : Bool)
        → (s.repeat && has_repeat s.remote) ≡ repeats
        → EmittedInRange (
            if repeats
            then loaded (record s { buffer = send_repeat s.remote headed })
            else if raw_codes
            then with_buffer s (load_raw s.code s.buffer s.code.signals)
            else loaded (record s {
              buffer = record sent { source = own };
              remote = if sim then s.remote else step_toggle_mask s.remote;
            }))
    by_kind true raw_codes e =
        let from_own = repeats-IsOwn s v e in
        own-InRange _ (
          send_repeat-IsOwn s.remote headed (
            keep_if IsOwn (has_flag s.remote repeat_header && has_header s.remote)
              (send_header-IsOwn s.remote s.buffer from_own) from_own))
    by_kind false true e = with_buffer-InRange s (load_raw s.code s.buffer s.code.signals) (
        load_raw-InRange s.code s.buffer s.code.signals v.fits v.nothing_pending v.signals_fit
          (own_or_empty s v.source))
    by_kind false false e =
        let kept =
          send_code-Fits s.remote (code_to_send sim s.code s.code.transmit_state) s.repeat s.buffer
            v.fits in
        record { room = kept.room; backed = kept.inside }
