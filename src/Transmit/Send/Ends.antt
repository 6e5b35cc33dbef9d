-- ===== src/Transmit/Send/Ends.antt =====
-- The loop of `init_send` ends.
use lirc_port_for_mac_os_x.Prelude.{
  ℕ, ℤ, zero, suc, pos, pos_part, ◌+◌, ◌*◌, ◌<◌, ◌≤◌, ◌≡◌, refl, sym, ap, subst, ◌∙◌, inl, inr,
  arith, List, [], ◌∷◌, Option, none, some, Bool, true, false, not, ◌&&◌, ◌||◌, if◌then◌else◌,
  Bool-cases, length, ltb_ℤ, sub_lirc, ◌-ℤ◌,
}
use lirc_port_for_mac_os_x.Remote.{Remote, Ncode, is_null, next_node}
use lirc_port_for_mac_os_x.Remote.Flags.{is_xmp}
use lirc_port_for_mac_os_x.Transmit.Buffer.{SendBuffer, bad_send_buffer}
use lirc_port_for_mac_os_x.Transmit.Send.{
  Sending, Loaded, loaded, no_signals, past_signals, continue_with, unroll, Round, stop,
  loaded-injective, Outcome, refused, again, load_raw, with_buffer, emit, synced, settle,
  settle_emitted, final_check, send_round, remaining_gaps, advance, advance_code, wants_more,
  concatenate, send_loop, init_send, cannot_send, prepared, as_given,
}
use lirc_port_for_mac_os_x.Transmit.Send.Ready.{Round-cases}

-- How many more signals can follow: for each repeat once the chain of codes, and what is left of
-- the chain.
abbrev pub due : ℕ → List ℕ → ℕ
due n [] = suc n
due n (x ∷ xs) = suc (length xs)

abbrev pub signals_left : ℤ → List ℕ → List ℕ → ℕ
signals_left countdown chain state =
    pos_part countdown * suc (length chain) + due (length chain) state

due_pos : (n : ℕ) (state : List ℕ) → 0 < due n state
due_pos n [] = omega arith
due_pos n (x ∷ xs) = omega arith

due-le : (n : ℕ) (state : List ℕ) → length state ≤ n → due n state ≤ suc n
due-le n [] h = omega arith
due-le n (x ∷ xs) h = omega arith

-- The parts of the state on which the loop's end rests.
abbrev SameCourse : Sending → Sending → Type 0
SameCourse s t =
    (t.code ≡ s.code)
    × (t.remote.flags ≡ s.remote.flags)
    × (t.remote.repeat_countdown ≡ s.remote.repeat_countdown)

with_buffer-course :
    (s t : Sending) (o : Loaded SendBuffer) → with_buffer s o ≡ loaded t → SameCourse s t
with_buffer-course s t no_signals e = cc
with_buffer-course s t past_signals e = cc
with_buffer-course s t (loaded c) e =
    subst (SameCourse s) (loaded-injective _ _ e) (refl, refl, refl)

emit-course : (sim : Bool) (s t : Sending) → emit sim s ≡ loaded t → SameCourse s t
unfolding emit
emit-course sim s t e =
    ground (arith, with_buffer-course s t (load_raw s.code s.buffer s.code.signals))

gaps-course : (s : Sending) → SameCourse s (remaining_gaps s).0
unfolding remaining_gaps
gaps-course s = ground arith

next_of : Sending → Round → Sending
next_of a (stop o u) = a
next_of a (again u) = u

continued :
    (a t : Sending) (o : Option SendBuffer)
    → continue_with a o ≡ again t
    → (b : SendBuffer) × (t ≡ concatenate a b)
unfolding continue_with next_of
continued a t none e = cc
continued a t (some b) e = (b, ap (next_of a) (sym e))

passed :
    (c : Bool) (x y : Round) (t : Sending)
    → (x ≡ again t → ⊥)
    → (if c then x else y) ≡ again t
    → y ≡ again t
passed true x y t n h = absurd (n h)
passed false x y t n h = h

chosen :
    (c : Bool) (x y : Round) (t : Sending)
    → (y ≡ again t → ⊥)
    → (if c then x else y) ≡ again t
    → (c ≡ true) × (x ≡ again t)
chosen true x y t n h = (refl, h)
chosen false x y t n h = absurd (n h)

stop-ends : (o : Outcome) (s t : Sending) → stop o s ≡ again t → ⊥
stop-ends o s t h = cc

final_check-ends : (s t : Sending) → final_check s ≡ again t → ⊥
unfolding final_check
final_check-ends s t h = cc

settle-again :
    (sim : Bool) (s t : Sending)
    → settle sim s ≡ again t
    → let advanced = advance_code (remaining_gaps s).0 in
      (wants_more advanced ≡ true) × ((b : SendBuffer) × (t ≡ concatenate advanced b))
unfolding settle
settle-again sim s t h =
    let gapped = (remaining_gaps s).0 in
    let advanced = advance_code gapped in
    let good = passed (bad_send_buffer s.buffer) _ _ t (stop-ends refused s t) h in
    let sent = passed sim _ _ t (final_check-ends s t) good in
    let long = passed (remaining_gaps s).1 _ _ t (stop-ends refused gapped t) sent in
    let (more, next) = chosen (wants_more advanced) _ _ t (final_check-ends advanced t) long in
    (more, continued advanced t (unroll advanced.buffer.source advanced.buffer) next)

decrement : (z : ℤ) → ltb_ℤ (pos 0) z ≡ true → pos_part (sub_lirc z 1) + 1 ≡ pos_part z
unfolding ◌-ℤ◌
decrement z h = ground arith

next_countdown : List ℕ → List ℕ → ℤ → ℤ
next_countdown chain state z = if is_null chain || is_null state then sub_lirc z 1 else z

next_state : List ℕ → List ℕ → List ℕ
next_state chain state =
    if is_null chain then state else if is_null state then chain else next_node state

fewer_left :
    (z : ℤ) (chain state : List ℕ)
    → length state ≤ length chain
    → (ltb_ℤ (pos 0) z || not (is_null (next_state chain state))) ≡ true
    → (signals_left (next_countdown chain (next_state chain state) z) chain (next_state chain state)
        < signals_left z chain state)
      × (length (next_state chain state) ≤ length chain)
unfolding next_countdown next_state
fewer_left z [] [] h w = omega (arith, decrement z (ground arith))
fewer_left z [] (x ∷ state) h w = absurd (omega arith)
fewer_left z (c ∷ chain) [] h w = omega arith
fewer_left z (c ∷ chain) (x ∷ []) h w =
    (rw (← decrement z (ground arith)) (omega arith), omega arith)
fewer_left z (c ∷ chain) (x ∷ y ∷ state) h w = omega arith

-- The state of a round for which the measure counts: the place in the chain is one of the chain,
-- and an XMP remote has no chain.
pub record OnCourse (s : Sending) : Type 0 where
  pub in_chain : length s.code.transmit_state ≤ length s.code.next
  pub not_endless : (is_xmp s.remote && not (is_null s.code.next)) ≡ false

abbrev measure : Sending → ℕ
measure s = signals_left s.remote.repeat_countdown s.code.next s.code.transmit_state

advance-eq-next_state :
    (remote : Remote) (code : Ncode)
    → (is_xmp remote && not (is_null code.next)) ≡ false
    → advance remote code ≡ next_state code.next code.transmit_state
unfolding advance next_state
advance-eq-next_state remote code h = ground arith

wants_more-continues :
    (s : Sending)
    → wants_more s ≡ true
    → (ltb_ℤ (pos 0) s.remote.repeat_countdown || not (is_null s.code.transmit_state)) ≡ true
unfolding wants_more
wants_more-continues s h = ground arith

-- Another round has fewer signals left.
concatenate-course :
    (s : Sending) (b : SendBuffer)
    → (concatenate s b).remote.repeat_countdown
      ≡ next_countdown s.code.next s.code.transmit_state s.remote.repeat_countdown
unfolding concatenate next_countdown
concatenate-course s b = ground arith

concatenate-flags : (s : Sending) (b : SendBuffer) → (concatenate s b).remote.flags ≡ s.remote.flags
unfolding concatenate
concatenate-flags s b = ground arith

concatenate-code : (s : Sending) (b : SendBuffer) → (concatenate s b).code ≡ s.code
unfolding concatenate
concatenate-code s b = refl

is_xmp-flags : (r q : Remote) → r.flags ≡ q.flags → is_xmp r ≡ is_xmp q
unfolding is_xmp
is_xmp-flags r q e = rw e

module _ (s : Sending) (v : OnCourse s) (w : wants_more (advance_code s) ≡ true) where
  advanced_state : List ℕ
  advanced_state = advance s.remote s.code

  left_of : List ℕ → ℕ
  left_of state =
      signals_left (next_countdown s.code.next state s.remote.repeat_countdown) s.code.next state

  advanced_fewer :
      (left_of advanced_state < measure s) × (length advanced_state ≤ length s.code.next)
  unfolding left_of advanced_state advance_code
  advanced_fewer =
      let same = advance-eq-next_state s.remote s.code v.not_endless in
      let goes_on = wants_more-continues (advance_code s) w in
      subst (λ state. (left_of state < measure s) × (length state ≤ length s.code.next)) (sym same)
        (fewer_left s.remote.repeat_countdown s.code.next s.code.transmit_state v.in_chain (
          subst (λ state. (ltb_ℤ (pos 0) s.remote.repeat_countdown || not (is_null state)) ≡ true)
            same goes_on))

  again-fewer :
      (b : SendBuffer)
      → (measure (concatenate (advance_code s) b) < measure s)
        × OnCourse (concatenate (advance_code s) b)
  unfolding advance_code left_of advanced_state
  again-fewer b =
      let advanced = advance_code s in
      let same_code = concatenate-code advanced b in
      let counted = concatenate-course advanced b in
      (
        rw counted (
            subst
              (λ c.
                signals_left
                  (next_countdown advanced.code.next advanced.code.transmit_state
                    advanced.remote.repeat_countdown)
                  c.next c.transmit_state
                < measure s)
              (sym same_code) advanced_fewer.0),
        record {
          in_chain =
              subst (λ c. length c.transmit_state ≤ length c.next) (sym same_code) advanced_fewer.1;
          not_endless =
              rw
                (is_xmp-flags (concatenate advanced b).remote s.remote
                  (concatenate-flags advanced b))
                (subst (λ c. (is_xmp s.remote && not (is_null c.next)) ≡ false) (sym same_code)
                  v.not_endless);
        },
      )

course-measure :
    (s t : Sending) → SameCourse s t → OnCourse s → (measure t ≡ measure s) × OnCourse t
course-measure s t (code, flags, countdown) v = (
  rw (code, countdown),
  record {
    in_chain = subst (λ c. length c.transmit_state ≤ length c.next) (sym code) v.in_chain;
    not_endless =
        rw (is_xmp-flags t.remote s.remote flags)
          (subst (λ c. (is_xmp s.remote && not (is_null c.next)) ≡ false) (sym code) v.not_endless);
  },
)

synced-course : (s t : Sending) → SameCourse s t → SameCourse s (remaining_gaps (synced t)).0
unfolding synced
synced-course s t (code, flags, countdown) =
    let (code', flags', countdown') = gaps-course (synced t) in
    (code' ∙ code, flags' ∙ flags, countdown' ∙ countdown)

round-fewer :
    (sim : Bool) (s u : Sending)
    → OnCourse s
    → send_round sim s ≡ again u
    → (measure u < measure s) × OnCourse u
unfolding send_round settle_emitted
round-fewer sim s u v = by_emitted (emit sim s) (λ t e. emit-course sim s t e)
  where
    by_emitted :
        (o : Loaded Sending)
        → ((t : Sending) → o ≡ loaded t → SameCourse s t)
        → settle_emitted sim s o ≡ again u
        → (measure u < measure s) × OnCourse u
    by_emitted no_signals k h = cc
    by_emitted past_signals k h = cc
    by_emitted (loaded emitted) k h =
        let gapped = (remaining_gaps (synced emitted)).0 in
        let (same, on) = course-measure s gapped (synced-course s emitted (k emitted refl)) v in
        let (more, following) = settle-again sim (synced emitted) u h in
        let (unrolled, next) = following in
        let (fewer, on') = again-fewer gapped on more unrolled in
        subst (λ x. (measure x < measure s) × OnCourse x) (sym next)
          (omega (arith, fewer, same), on')

send_loop-ends :
    (fuel : ℕ) (sim : Bool) (s : Sending)
    → OnCourse s
    → measure s ≤ fuel
    → (r : Outcome × Sending) × (send_loop fuel sim s ≡ some r)
unfolding send_loop
send_loop-ends zero sim s v h =
    absurd (omega (arith, due_pos (length s.code.next) s.code.transmit_state))
send_loop-ends (suc fuel) sim s v h = elim (Round-cases (send_round sim s)) [
  | inl (o, t, e) ↦ ((o, t), rw (e, send_loop))
  | inr (u, e) ↦
      let (fewer, on) = round-fewer sim s u v e in
      rw (e, send_loop) (send_loop-ends fuel sim u on (omega (arith, fewer)))
]

repeats-le : (n due_now p q : ℕ) → due_now ≤ suc n → p * suc n + due_now ≤ (q + p + 1) * suc n
repeats-le n due_now p q h = grind arith

prepared-course :
    (null : Bool) (remote : Remote) (code : Ncode) (b : SendBuffer)
    → length code.transmit_state ≤ length code.next
    → (is_xmp remote && not (is_null code.next)) ≡ false
    → let s = prepared null remote code b false false in
      (measure s
        ≤ (remote.min_repeat + pos_part remote.repeat_countdown + 1) * suc (length code.next))
      × OnCourse s
unfolding prepared
prepared-course true remote code b chain xmp =
    let d = due-le (length code.next) code.transmit_state chain in
    let r =
      repeats-le (length code.next) (due (length code.next) code.transmit_state) remote.min_repeat
        (pos_part remote.repeat_countdown) d in
    (omega (arith, r), record { in_chain = chain; not_endless = unfold is_xmp in xmp })
prepared-course false remote code b chain xmp =
    let d = due-le (length code.next) code.transmit_state chain in
    let r =
      repeats-le (length code.next) (due (length code.next) code.transmit_state)
        (pos_part remote.repeat_countdown) remote.min_repeat d in
    (omega (arith, r), record { in_chain = chain; not_endless = xmp })

-- `init_send` returns: the fuel that it needs is one round for each signal, that is for the code
-- itself and every node of its chain, once and again for each of the repeats, `min_repeat` on a
-- first send and what is left of the countdown otherwise. An XMP remote is excluded if its code
-- has a chain, since the loop then goes round the chain until the buffer is full.
pub init_send-ends :
    (fuel : ℕ) (repeat_remote_null : Bool) (remote : Remote) (code : Ncode) (b : SendBuffer)
    → length code.transmit_state ≤ length code.next
    → (is_xmp remote && not (is_null code.next)) ≡ false
    → (remote.min_repeat + pos_part remote.repeat_countdown + 1) * suc (length code.next) ≤ fuel
    → (r : Outcome × Sending) × (init_send fuel repeat_remote_null remote code b ≡ some r)
unfolding init_send
init_send-ends fuel null remote code b chain xmp enough = elim (Bool-cases (cannot_send remote)) [
  | inl unsendable ↦ ((refused, as_given remote code b false), rw unsendable)
  | inr sendable ↦
      let (fits, on) = prepared-course null remote code b chain xmp in
      rw sendable (
        send_loop-ends fuel false (prepared null remote code b false false) on
          (omega (arith, fits, enough)))
]
