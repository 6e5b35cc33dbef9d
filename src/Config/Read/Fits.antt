-- ===== src/Config/Read/Fits.antt =====
-- The widths of what the reader returns, from the first line of a file to the sorted remotes.
use mathlib.Core.Option.{some-injective}
use lirc_port_for_mac_os_x.Config.Sanity.Fits.{Fits}
use lirc_port_for_mac_os_x.Prelude.{
  ℕ, zero, suc, get_elem?, some, ◌≤◌, String, List, [], ◌∷◌, Bool, true, false, not, ◌&&◌, ◌||◌,
  bit_and, ◌==◌, if◌then◌else◌, ◌≡◌, refl, sym, ap, subst, ◌∙◌, arith, Bool-cases, inl, inr,
}
use lirc_port_for_mac_os_x.Remote.{Remote}
use lirc_port_for_mac_os_x.Remote.Flags.{
  has_flag, reverse_flag, ir_protocol_mask, raw_codes, is_raw, bit_count,
}
use lirc_port_for_mac_os_x.Transmit.Buffer.{SendBuffer}
use lirc_port_for_mac_os_x.Config.Sort.All.{AllOf, sort_by_bit_count-AllOf}
use lirc_port_for_mac_os_x.Config.Lengths.{calculate_signal_lengths}
use lirc_port_for_mac_os_x.Config.Lengths.Keeps.{relengthed, calculate_signal_lengths_holds}
use lirc_port_for_mac_os_x.Config.Finish.{
  reverse_remote, kick_reverse, set_rc6_mask, set_toggle_bit_mask, set_toggle_state, set_serial,
  check_min_code_repeat, derive, finish_loop, finish_config,
}
use lirc_port_for_mac_os_x.Config.Finish.Fits.{derive-Fits}
use lirc_port_for_mac_os_x.Config.Sections.{id_none, Child, Reader, same_mode, push_rem}
use lirc_port_for_mac_os_x.Config.Read.{
  Reading, read, failure, undefined_reading, put_back, chain_of, new_reader, read_lines,
  finish_reading, read_config,
}
use lirc_port_for_mac_os_x.Config.Sections.Sane.{IsChecked, RemOk, IsSane, pushed}
use lirc_port_for_mac_os_x.Config.Read.Sane.{AreOwn, read_lines-IsSane}

-- The same flags and the same number of bits.
unfoldable Steady : Remote → Remote → Type 0
Steady r s = (s.flags ≡ r.flags) × (bit_count s ≡ bit_count r)

Steady-trans : (r s t : Remote) → Steady r s → Steady s t → Steady r t
unfolding Steady
Steady-trans r s t (f, c) (g, d) = (g ∙ f, d ∙ c)

rc6-Steady : (rem : Remote) → Steady rem (set_rc6_mask rem)
unfolding Steady set_rc6_mask bit_count
rc6-Steady rem = ground arith

mask-Steady : (rem : Remote) → Steady rem (set_toggle_bit_mask rem)
unfolding Steady set_toggle_bit_mask bit_count
mask-Steady rem = ground arith

state-Steady : (rem : Remote) → Steady rem (set_toggle_state rem)
unfolding Steady set_toggle_state bit_count
state-Steady rem = ground arith

serial-Steady : (rem : Remote) → Steady rem (set_serial rem)
unfolding Steady set_serial bit_count
serial-Steady rem = ground arith

check-Steady : (rem : Remote) → Steady rem (check_min_code_repeat rem)
unfolding Steady check_min_code_repeat bit_count
check-Steady rem = ground arith

derive-Steady : (rem : Remote) → Steady (kick_reverse rem) (derive rem)
unfolding derive
derive-Steady rem =
    Steady-trans _ _ _
      (Steady-trans _ _ _
        (Steady-trans _ _ _ (Steady-trans _ _ _ (rc6-Steady (kick_reverse rem)) (mask-Steady _))
          (state-Steady _))
        (serial-Steady _))
      (check-Steady _)

kick-count : (rem : Remote) → bit_count (kick_reverse rem) ≡ bit_count rem
unfolding kick_reverse bit_count
kick-count rem = by_test (not (is_raw rem) && has_flag rem reverse_flag)
  where
    by_test : (b : Bool) → bit_count (if b then reverse_remote rem else rem) ≡ bit_count rem
    by_test true = refl
    by_test false = refl

kick_raw : (rem : Remote) → is_raw rem ≡ true → kick_reverse rem ≡ rem
unfolding kick_reverse
kick_raw rem e = rw (e) refl

derived_raw : (rem : Remote) → is_raw (derive rem) ≡ false → is_raw rem ≡ false
unfolding Steady is_raw
derived_raw rem e = elim (Bool-cases (is_raw rem)) [
  | inr f ↦ f
  | inl t ↦
      sym (
        ap (λ (f : ℕ). bit_and f ir_protocol_mask == raw_codes)
          ((derive-Steady rem).0 ∙ ap Remote.flags (kick_raw rem t)))
      ∙ e
]

derive-IsChecked : (rem : Remote) → IsChecked rem → IsChecked (derive rem)
unfolding IsChecked Steady
derive-IsChecked rem c h r =
    let count : bit_count rem ≤ 64 =
      subst (λ (n : ℕ). n ≤ 64) ((derive-Steady rem).1 ∙ kick-count rem) h in
    derive-Fits rem count (c count (derived_raw rem r))

relengthed-IsChecked :
    (remote : Remote) (t u g k : ℕ) → IsChecked remote → IsChecked (relengthed remote t u g k)
unfolding IsChecked bit_count is_raw
relengthed-IsChecked remote t u g k c h r =
    let f = c h r in
    record { pre_fits = f.pre_fits; post_fits = f.post_fits; codes_fit = f.codes_fit }

finish_loop-AllOf :
    (remotes : List Remote) (b : SendBuffer)
    → AllOf IsChecked remotes
    → AllOf IsChecked (finish_loop remotes b).0
unfolding finish_loop
finish_loop-AllOf [] b h = tt
finish_loop-AllOf (rem ∷ next) b (c, h) = (
  calculate_signal_lengths_holds IsChecked relengthed-IsChecked (derive rem) b
      (derive-IsChecked rem c),
  finish_loop-AllOf next (calculate_signal_lengths (derive rem) b).1 h,
)

finish_config-AllOf :
    (remotes : List Remote) (b : SendBuffer)
    → AllOf IsChecked remotes
    → AllOf IsChecked (finish_config remotes b).0
unfolding finish_config
finish_config-AllOf remotes b h =
    sort_by_bit_count-AllOf IsChecked (finish_loop remotes b).0 (finish_loop-AllOf remotes b h)

put_back-AllOf :
    (passed rest : List Remote)
    → AllOf IsChecked passed
    → AllOf IsChecked rest
    → AllOf IsChecked (put_back passed rest)
put_back-AllOf [] rest h k = k
put_back-AllOf (remote ∷ passed) rest (c, h) k = put_back-AllOf passed (remote ∷ rest) h (c, k)

-- What is read, if anything is.
unfoldable AllChecked : Reading → Type 0
AllChecked (read remotes) = AllOf IsChecked remotes
AllChecked failure = Unit
AllChecked undefined_reading = Unit

finish_reading-AllChecked :
    (r : Reader) (b : SendBuffer) → IsSane r → AllChecked (finish_reading r b)
unfolding IsSane finish_reading AllChecked
finish_reading-AllChecked r b (p, q, a) =
    by_tests r.fault (same_mode r.mode id_none) r.parse_error refl
  where
    by_tests :
        (fault none_mode error : Bool)
        → same_mode r.mode id_none ≡ none_mode
        → AllChecked (
            if fault
            then undefined_reading
            else if not none_mode || error
            then failure
            else read (finish_config (chain_of r) b).0)
    by_tests true m error e = tt
    by_tests false false error e = tt
    by_tests false true true e = tt
    by_tests false true false e =
        finish_config-AllOf (chain_of r) b
          (put_back-AllOf (push_rem r.rem r.passed) r.after (pushed r.mode r.rem r.passed e q p) a)

read_config-AllChecked :
    (read_child : String → Child) (lines : List (List String)) (b : SendBuffer)
    → AreOwn lines
    → AllChecked (read_config read_child lines b)
unfolding read_config IsSane RemOk
read_config-AllChecked read_child lines b own =
    finish_reading-AllChecked (read_lines read_child lines new_reader) b
      (read_lines-IsSane read_child lines new_reader own (tt, tt, tt))

AllOf-get :
    (remotes : List Remote) (i : ℕ) (remote : Remote)
    → AllOf IsChecked remotes
    → get_elem? remotes i ≡ some remote
    → IsChecked remote
AllOf-get [] i remote h e = cc
AllOf-get (r ∷ rs) zero remote (c, h) e = subst IsChecked (some-injective _ _ e) c
AllOf-get (r ∷ rs) (suc i) remote (c, h) e = AllOf-get rs i remote h e

-- Every remote that the reader returns for a file that includes no other, and that has at most 64
-- bits and is not raw, has its data and the codes of its buttons within the widths that it declares.
pub read_config-Fits :
    (read_child : String → Child) (lines : List (List String)) (b : SendBuffer)
    (remotes : List Remote) (i : ℕ) (remote : Remote)
    → AreOwn lines
    → read_config read_child lines b ≡ read remotes
    → get_elem? remotes i ≡ some remote
    → bit_count remote ≤ 64
    → is_raw remote ≡ false
    → Fits remote
unfolding AllChecked IsChecked
read_config-Fits read_child lines b remotes i remote own e g =
    AllOf-get remotes i remote (subst AllChecked e (read_config-AllChecked read_child lines b own))
      g
