-- ===== src/Codes/Match/Plain.antt =====
-- What `get_code` computes where no button has a chain of codes.
use lirc_port_for_mac_os_x.Prelude.{
  ℕ, ◌+◌, ◌≡◌, refl, ap, ◌∙◌, arith, bit_and, List, [], ◌∷◌, Option, none, some, Bool, true, false,
  ◌||◌, if◌then◌else◌,
}
use lirc_port_for_mac_os_x.Remote.{Remote, Ncode}
use lirc_port_for_mac_os_x.Remote.Flags.{has_toggle_mask}
use lirc_port_for_mac_os_x.Codes.Mapping.{Fields3, gen_ir_code}
use lirc_port_for_mac_os_x.Codes.Match.{
  match_ir_code, code_at, step_current, scan_matched, scan_searched, scan_step, Scan, scan_loop,
  nothing_found, pair_toggle, untoggle, bad_pre_data, bad_post_data, lookup_code, get_code,
}

-- No chain, and so no place in one.
abbrev pub IsPlain : Ncode → Type 0
IsPlain codes = (codes.next ≡ []) × (codes.current ≡ [])

abbrev pub AllPlain : List Ncode → Type 0
AllPlain [] = Unit
AllPlain (codes ∷ rest) = IsPlain codes × AllPlain rest

-- The received data and the data that the remote sends for the button agree.
unfoldable pub is_received : Remote → ℕ → Ncode → Bool
is_received remote all codes = match_ir_code remote (code_at remote codes []) all

-- The index of the first button that sends `all`, from `i` on.
unfoldable pub first_received : Remote → ℕ → ℕ → List Ncode → Option ℕ
first_received remote all i [] = none
first_received remote all i (codes ∷ rest) =
    if is_received remote all codes then some i else first_received remote all (i + 1) rest

step-plain :
    (remote : Remote) (all i : ℕ) (codes : Ncode) (s : Scan)
    → IsPlain codes
    → scan_step remote all i codes s ≡ (
      codes,
      (if is_received remote all codes
          then record {
            found = if s.have_code then s.found else some i;
            found_code = true;
            have_code = true;
          }
          else s),
    )
unfolding scan_step scan_matched scan_searched step_current is_received
step-plain remote all i codes s (n, c) = rw (c, n) (ground arith)

step-have :
    (remote : Remote) (all i : ℕ) (codes : Ncode) (s : Scan)
    → IsPlain codes
    → s.have_code ≡ true
    → s.found_code ≡ true
    → scan_step remote all i codes s ≡ (codes, s)
step-have remote all i codes s p h f =
    step-plain remote all i codes s p
    ∙ ap (λ (t : Scan). (codes, t)) (unchanged (is_received remote all codes))
  where
    unchanged :
        (b : Bool)
        → (if b
            then record {
              found = if s.have_code then s.found else some i;
              found_code = true;
              have_code = true;
            }
            else s)
          ≡ s
    unchanged true = ground (arith, h, f)
    unchanged false = refl

loop-have :
    (remote : Remote) (all i : ℕ) (codes : List Ncode) (s : Scan)
    → AllPlain codes
    → s.have_code ≡ true
    → s.found_code ≡ true
    → scan_loop remote all i codes s ≡ (codes, s)
unfolding scan_loop
loop-have remote all i [] s p h f = refl
loop-have remote all i (c ∷ cs) s (p, ps) h f =
    rw (step-have remote all i c s p h f, loop-have remote all (i + 1) cs s ps h f) refl

abbrev answer : Option ℕ → Scan
answer none = nothing_found
answer (some j) = record { found = some j; found_code = true; have_code = true }

loop-first :
    (remote : Remote) (all i : ℕ) (codes : List Ncode)
    → AllPlain codes
    → scan_loop remote all i codes nothing_found
      ≡ (codes, answer (first_received remote all i codes))
unfolding scan_loop first_received
loop-first remote all i [] p = refl
loop-first remote all i (c ∷ cs) (p, ps) =
    by_test (loop-first remote all (i + 1) cs ps) (is_received remote all c) refl
  where
    by_test :
        scan_loop remote all (i + 1) cs nothing_found
          ≡ (cs, answer (first_received remote all (i + 1) cs))
        → (b : Bool) → is_received remote all c ≡ b
        → scan_loop remote all i (c ∷ cs) nothing_found ≡ (
          c ∷ cs,
          answer
              (if is_received remote all c then some i else first_received remote all (i + 1) cs),
        )
    by_test rest true e =
        rw
          (
            step-plain remote all i c nothing_found p,
            e,
            loop-have remote all (i + 1) cs (answer (some i)) ps refl refl,
          )
          refl
    by_test rest false e = rw (step-plain remote all i c nothing_found p, e, rest) refl

untoggle-none :
    (remote : Remote) (f : Fields3) → has_toggle_mask remote ≡ false → untoggle remote f ≡ f
unfolding untoggle
untoggle-none remote f t = rw t refl

pair-none :
    (remote : Remote) (s : Scan) (state : ℕ)
    → has_toggle_mask remote ≡ false
    → pair_toggle remote s state
      ≡ record { remote = remote; ncode = s.found; toggle_bit_mask_state = some state }
unfolding pair_toggle
pair-none remote s state t = rw t (ground arith)

found-answer : (o : Option ℕ) → (answer o).found ≡ o
found-answer none = refl
found-answer (some j) = refl

lookup-first :
    (remote : Remote) (f : Fields3)
    → AllPlain remote.codes
    → has_toggle_mask remote ≡ false
    → let got = lookup_code remote f in
      (got.remote ≡ remote)
      × (got.ncode ≡ first_received remote (gen_ir_code remote f.pre f.code f.post) 0 remote.codes)
unfolding lookup_code
lookup-first remote f p t =
    let all = gen_ir_code remote f.pre f.code f.post in
    rw
      (
        loop-first remote all 0 remote.codes p,
        pair-none remote (answer (first_received remote all 0 remote.codes))
            (bit_and all remote.toggle_bit_mask) t,
      )
      (refl, found-answer (first_received remote all 0 remote.codes))

pub get_code-tested :
    (remote : Remote) (f : Fields3)
    → AllPlain remote.codes
    → has_toggle_mask remote ≡ false
    → let got = get_code remote f in
      let all = gen_ir_code remote f.pre f.code f.post in
      (got.remote ≡ remote)
      × (got.ncode ≡ (
          if bad_pre_data remote f || bad_post_data remote f
          then none
          else first_received remote all 0 remote.codes))
unfolding get_code
get_code-tested remote f p t =
    rw (untoggle-none remote f t) (by_data (bad_pre_data remote f || bad_post_data remote f))
  where
    by_data :
        (b : Bool)
        → let got =
            if b
            then record { remote = remote; ncode = none; toggle_bit_mask_state = none }
            else lookup_code remote f in
          (got.remote ≡ remote)
          × (got.ncode ≡ (
              if b
              then none
              else first_received remote (gen_ir_code remote f.pre f.code f.post) 0 remote.codes))
    by_data true = (refl, refl)
    by_data false = lookup-first remote f p t
