-- ===== src/Transmit/Send.antt =====
-- `init_send`, `init_sim` and `init_send_or_sim` of daemons/transmit.c. The `goto init_send_loop`
-- is a recursion on fuel. `repeat_remote` enters as whether it is NULL. What the function changes
-- through its pointers is in the state `Sending`.
pub mod Ready
pub mod Memory
pub mod Safe
pub mod Ends
use lirc_port_for_mac_os_x.Prelude.{
  ℕ, ℤ, zero, suc, pos, pos_part, ◌+◌, List, [], ◌∷◌, Option, none, some, Bool, true, false, ◌&&◌,
  ◌||◌, not, ltb_ℤ, sub_lirc, ◌-ℤ◌, add_lirc, ltb, ◌==◌, ◌≡◌, ap, if◌then◌else◌, take,
}
use lirc_port_for_mac_os_x.Remote.{Remote, Ncode, is_null, next_node}
use lirc_port_for_mac_os_x.Remote.Flags.{
  has_flag, repeat_header, is_grundig, is_goldstar, is_serial, is_bo, is_biphase, is_raw, is_xmp,
  is_const, has_repeat, has_repeat_gap, has_header, has_toggle_mask,
}
use lirc_port_for_mac_os_x.Remote.Gaps.{min_gap, max_gap}
use lirc_port_for_mac_os_x.Transmit.Buffer.{
  SendBuffer, Source, unset, own, raw, written, Check, valid, invalid, undefined_read, read_signals,
  clear_send_buffer, send_space, bad_send_buffer, flush_send_buffer, sync_send_buffer,
  check_send_buffer, send_signals,
}
use lirc_port_for_mac_os_x.Transmit.Encode.{send_header, send_repeat, send_code}

abbrev pub exact_gap_threshold : ℕ
exact_gap_threshold = 10000

pub record Sending : Type 0 where
  pub remote : Remote
  pub code : Ncode
  pub buffer : SendBuffer
  pub repeat : Bool

-- What the function returns: 1, 0, or nothing defined, where it reads through a NULL pointer.
pub data Outcome : Type 0 where
  ready : Outcome
  refused : Outcome
  undefined : Outcome

-- `remote->toggle_mask_state++`, and 2 again where it comes to 4.
unfoldable pub step_toggle_mask : Remote → Remote
step_toggle_mask remote =
    let next_state = remote.toggle_mask_state + 1 in
    if has_toggle_mask remote
    then record remote { toggle_mask_state = if next_state == 4 then 2 else next_state }
    else remote

abbrev pub add_all : List ℕ → ℤ → ℤ
add_all [] sum = sum
add_all (x ∷ xs) sum = add_all xs (add_lirc sum x)

-- The code that is sent: the button's own, or that of the node that it has come to.
abbrev pub code_to_send : Bool → Ncode → List ℕ → ℕ
code_to_send sim code [] = code.code
code_to_send sim code (node ∷ rest) = if sim then code.code else node

-- What comes of a signal: it is there, a raw code has no signals, or it has fewer than its `length`
-- and is read past their end.
pub data Loaded {ℓ} (A : Type ℓ) : Type ℓ where
  loaded : A → Loaded A
  no_signals : Loaded A
  past_signals : Loaded A

abbrev loaded_or {ℓ} : {A : Type ℓ} → A → Loaded A → A
loaded_or d (loaded x) = x
loaded_or d no_signals = d
loaded_or d past_signals = d

pub loaded-injective {ℓ} : {A : Type ℓ} (x y : A) → loaded x ≡ loaded y → x ≡ y
loaded-injective x y e = ap (loaded_or x) e

-- Raw signals are sent from where they are, or added to a buffer that is in use.
unfoldable pub load_raw : Ncode → SendBuffer → Option (List ℕ) → Loaded SendBuffer
unfolding send_signals read_signals
load_raw code b none = no_signals
load_raw code b (some signals) =
    if ltb 0 b.wptr
    then elim (send_signals signals code.length b) [
      | none ↦ past_signals
      | some filled ↦ loaded filled
    ]
    else elim (read_signals code.length signals) [
      | none ↦ past_signals
      | some read ↦
          loaded (record b { source = raw signals; wptr = code.length; sum = add_all read b.sum })
    ]

abbrev pub with_buffer : Sending → Loaded SendBuffer → Loaded Sending
with_buffer s (loaded b) = loaded (record s { buffer = b })
with_buffer s no_signals = no_signals
with_buffer s past_signals = past_signals

-- The signal itself; a raw code without signals is the early return.
unfoldable pub emit : Bool → Sending → Loaded Sending
unfolding load_raw step_toggle_mask
emit sim s =
    let remote = s.remote in
    let headed =
      if has_flag remote repeat_header && has_header remote
      then send_header remote s.buffer
      else s.buffer in
    let sent = send_code remote (code_to_send sim s.code s.code.transmit_state) s.repeat s.buffer in
    if s.repeat && has_repeat remote
    then loaded (record s { buffer = send_repeat remote headed })
    else if is_raw remote
    then with_buffer s (load_raw s.code s.buffer s.code.signals)
    else loaded (record s {
      buffer = record sent { source = own };
      remote = if sim then remote else step_toggle_mask remote;
    })

abbrev pub set_gaps : Sending → ℕ → ℕ → Sending
set_gaps s shortest longest = record s {
  remote = record s.remote { min_remaining_gap = shortest; max_remaining_gap = longest };
}

-- How long to wait after the signal. The flag says that the gap is too short for the signal.
unfoldable pub remaining_gaps : Sending → Sending × Bool
remaining_gaps s =
    let remote = s.remote in
    if has_repeat_gap remote && s.repeat && has_repeat remote
    then (set_gaps s remote.repeat_gap remote.repeat_gap, false)
    else if is_const remote
    then if ltb_ℤ s.buffer.sum (pos (min_gap remote))
      then (
        set_gaps s (pos_part (pos (min_gap remote) -ℤ s.buffer.sum))
            (pos_part (pos (max_gap remote) -ℤ s.buffer.sum)),
        false,
      )
      else (set_gaps s (min_gap remote) (max_gap remote), true)
    else (set_gaps s (min_gap remote) (max_gap remote), false)

-- `code->transmit_state` after a code was sent.
unfoldable pub advance : Remote → Ncode → List ℕ
advance remote code =
    if is_null code.next
    then code.transmit_state
    else if is_null code.transmit_state
    then code.next
    else if is_xmp remote && is_null (next_node code.transmit_state)
    then code.next
    else next_node code.transmit_state

unfoldable pub advance_code : Sending → Sending
unfolding advance
advance_code s = record s { code = record s.code { transmit_state = advance s.remote s.code } }

-- Whether another signal is to follow in the same buffer.
unfoldable pub wants_more : Sending → Bool
wants_more s =
    (ltb_ℤ (pos 0) s.remote.repeat_countdown || not (is_null s.code.transmit_state))
    && ltb s.remote.min_remaining_gap exact_gap_threshold

-- `data != _data`: the raw signals are copied into the buffer after all. `none` is a copy from
-- nowhere or from past the signals.
unfoldable pub unroll : Source → SendBuffer → Option SendBuffer
unfolding send_signals
unroll own b = some b
unroll (raw signals) b = send_signals signals b.wptr (record b { source = own; wptr = 0 })
unroll unset b = if ltb 0 b.wptr then none else some (record b { source = own; wptr = 0 })

-- The state for the next signal, which goes behind what is in the buffer.
unfoldable pub concatenate : Sending → SendBuffer → Sending
concatenate s unrolled =
    let spaced = flush_send_buffer (send_space s.remote.min_remaining_gap unrolled) in
    record s {
      remote =
          if is_null s.code.next || is_null s.code.transmit_state
          then record s.remote { repeat_countdown = sub_lirc s.remote.repeat_countdown 1 }
          else s.remote;
      buffer = record spaced { sum = pos 0 };
      repeat = true;
    }

abbrev pub check_outcome : Check → Outcome
check_outcome valid = ready
check_outcome invalid = refused
check_outcome undefined_read = undefined

unfoldable pub synced : Sending → Sending
synced s = record s { buffer = sync_send_buffer s.buffer }

-- How one round of the loop ends: the function returns, or goes back to the label.
pub data Round : Type 0 where
  stop : Outcome → Sending → Round
  again : Sending → Round

unfoldable pub final_check : Sending → Round
final_check s = stop (check_outcome (check_send_buffer s.buffer)) s

unfoldable pub continue_with : Sending → Option SendBuffer → Round
unfolding concatenate
continue_with s none = stop undefined s
continue_with s (some unrolled) = again (concatenate s unrolled)

-- What follows a signal that was emitted: the gaps, the next state, another round or the check.
unfoldable pub settle : Bool → Sending → Round
unfolding final_check unroll continue_with
settle sim t =
    let (gapped, too_short) = remaining_gaps t in
    let advanced = advance_code gapped in
    if bad_send_buffer t.buffer
    then stop refused t
    else if sim
    then final_check t
    else if too_short
    then stop refused gapped
    else if wants_more advanced
    then continue_with advanced (unroll advanced.buffer.source advanced.buffer)
    else final_check advanced

unfoldable pub settle_emitted : Bool → Sending → Loaded Sending → Round
unfolding settle synced
settle_emitted sim s (loaded emitted) = settle sim (synced emitted)
settle_emitted sim s no_signals = stop refused s
settle_emitted sim s past_signals = stop undefined s

unfoldable pub send_round : Bool → Sending → Round
unfolding settle_emitted
send_round sim s = settle_emitted sim s (emit sim s)

unfoldable pub send_loop : ℕ → Bool → Sending → Option (Outcome × Sending)
send_loop zero sim s = none
send_loop (suc fuel) sim s = elim (send_round sim s) [
  | stop outcome t ↦ some (outcome, t)
  | again t ↦ send_loop fuel sim t
]

-- The protocols that the daemon can receive and not send.
unfoldable pub cannot_send : Remote → Bool
cannot_send remote = is_grundig remote || is_goldstar remote || is_serial remote || is_bo remote

-- The state before the loop.
unfoldable pub prepared : Bool → Remote → Ncode → SendBuffer → Bool → Bool → Sending
prepared repeat_remote_null remote code b sim repeat_preset =
    let cleared = clear_send_buffer b in
    record {
      remote =
          if not sim && repeat_remote_null
          then record remote { repeat_countdown = pos remote.min_repeat }
          else remote;
      code = code;
      buffer = if is_biphase remote then record cleared { is_biphase = true } else cleared;
      repeat = if not sim && not repeat_remote_null then true else repeat_preset;
    }

abbrev pub as_given : Remote → Ncode → SendBuffer → Bool → Sending
as_given remote code b repeat = record { remote = remote; code = code; buffer = b; repeat = repeat }

unfoldable pub init_send_or_sim :
    ℕ → Bool → Remote → Ncode → SendBuffer → Bool → Bool → Option (Outcome × Sending)
init_send_or_sim fuel repeat_remote_null remote code b sim repeat_preset =
    if cannot_send remote
    then some (refused, as_given remote code b repeat_preset)
    else send_loop fuel sim (prepared repeat_remote_null remote code b sim repeat_preset)

unfoldable pub init_send : ℕ → Bool → Remote → Ncode → SendBuffer → Option (Outcome × Sending)
unfolding init_send_or_sim
init_send fuel repeat_remote_null remote code b =
    init_send_or_sim fuel repeat_remote_null remote code b false false

unfoldable pub init_sim : ℕ → Bool → Remote → Ncode → SendBuffer → Bool → Option (Outcome × Sending)
unfolding init_send_or_sim
init_sim fuel repeat_remote_null remote code b repeat_preset =
    init_send_or_sim fuel repeat_remote_null remote code b true repeat_preset
