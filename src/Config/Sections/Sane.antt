-- ===== src/Config/Sections/Sane.antt =====
-- The remotes that were read, through the lines that begin and end a section.
use lirc_port_for_mac_os_x.Prelude.{
  ℕ, ◌≤◌, List, [], Option, none, some, Bool, true, false, if◌then◌else◌, ◌≡◌, refl, sym, ap, ◌∙◌,
  arith, bit_and, ◌==◌,
}
use lirc_port_for_mac_os_x.Remote.{Remote}
use lirc_port_for_mac_os_x.Remote.Flags.{is_raw, bit_count, ir_protocol_mask, raw_codes}
use lirc_port_for_mac_os_x.Config.Sort.All.{AllOf}
use lirc_port_for_mac_os_x.Config.Sanity.{
  Draft, Sanity, sane, no_name, undefined_codes, sanity_checks,
}
use lirc_port_for_mac_os_x.Config.Sanity.Fits.{Fits, sanity_checks-Fits}
use lirc_port_for_mac_os_x.Config.Sanity.Agree.{sanity_checks-same}
use lirc_port_for_mac_os_x.Config.Sections.{
  Mode, id_none, id_remote, id_codes, id_raw_codes, id_raw_name, Reader, same_mode, with_error,
  new_draft, push_rem, codes_defined, begin_codes, begin_raw_codes, begin_remote, end_codes,
  close_open_signal, end_raw_codes, after_checks, check_rem, end_remote,
}

-- A remote of at most 64 bits that is not raw has its data and its codes within its widths.
unfoldable pub IsChecked : Remote → Type 0
IsChecked remote = bit_count remote ≤ 64 → is_raw remote ≡ false → Fits remote

-- Between two sections the last remote is checked, too.
unfoldable pub RemOk : Mode → Option Draft → Type 0
RemOk id_none (some d) = IsChecked d.remote
RemOk _ _ = Unit

unfoldable pub IsSane : Reader → Type 0
IsSane r = AllOf IsChecked r.passed × RemOk r.mode r.rem × AllOf IsChecked r.after

pub either-IsSane : (b : Bool) (x y : Reader) → IsSane x → IsSane y → IsSane (if b then x else y)
either-IsSane true x y h k = h
either-IsSane false x y h k = k

pub with_error-IsSane : (r : Reader) → IsSane r → IsSane (with_error r)
unfolding IsSane
with_error-IsSane r h = h

-- Within a section nothing is asked of the remote that is being read.
pub inside-RemOk : (m : Mode) (o : Option Draft) → same_mode m id_none ≡ false → RemOk m o
unfolding RemOk
inside-RemOk id_none o e = cc
inside-RemOk id_remote o e = tt
inside-RemOk id_codes o e = tt
inside-RemOk id_raw_codes o e = tt
inside-RemOk id_raw_name o e = tt

pub begin_codes-IsSane : (r : Reader) → IsSane r → IsSane (begin_codes r)
unfolding begin_codes IsSane
begin_codes-IsSane r (p, q, a) =
    either-IsSane (same_mode r.mode id_remote) _ _
      (either-IsSane (codes_defined r.rem) _ _ (p, q, a) (p, inside-RemOk id_codes r.rem refl, a))
      (p, q, a)

pub begin_raw_codes-IsSane : (r : Reader) → IsSane r → IsSane (begin_raw_codes r)
unfolding begin_raw_codes IsSane RemOk
begin_raw_codes-IsSane r (p, q, a) =
    either-IsSane (same_mode r.mode id_remote) _ _
      (either-IsSane (codes_defined r.rem) _ _ (p, q, a) (p, tt, a)) (p, q, a)

pub pushed :
    (m : Mode) (o : Option Draft) (passed : List Remote)
    → same_mode m id_none ≡ true
    → RemOk m o
    → AllOf IsChecked passed
    → AllOf IsChecked (push_rem o passed)
unfolding RemOk
pushed id_none none passed e q p = p
pushed id_none (some d) passed e q p = (q, p)
pushed id_remote o passed e q p = cc
pushed id_codes o passed e q p = cc
pushed id_raw_codes o passed e q p = cc
pushed id_raw_name o passed e q p = cc

pub begin_remote-IsSane : (r : Reader) → IsSane r → IsSane (begin_remote r)
unfolding begin_remote IsSane RemOk
begin_remote-IsSane r (p, q, a) = by_mode (same_mode r.mode id_none) refl
  where
    opened : Reader
    opened = record r {
      mode = id_remote;
      passed = push_rem r.rem r.passed;
      rem = some new_draft;
      after = [];
    }

    by_mode :
        (b : Bool) → same_mode r.mode id_none ≡ b → IsSane (if b then opened else with_error r)
    by_mode true e = (pushed r.mode r.rem r.passed e q p, tt, tt)
    by_mode false e = (p, q, a)

pub end_codes-IsSane : (r : Reader) → IsSane r → IsSane (end_codes r)
unfolding end_codes IsSane
end_codes-IsSane r (p, q, a) =
    either-IsSane (same_mode r.mode id_codes) _ _ (p, inside-RemOk id_remote _ refl, a) (p, q, a)

pub close_open_signal-IsSane : (r : Reader) → IsSane r → IsSane (close_open_signal r)
unfolding IsSane
close_open_signal-IsSane r (p, q, a) =
    either-IsSane (same_mode r.mode id_raw_name) _ _ (p, inside-RemOk id_raw_codes r.rem refl, a)
      (p, q, a)

pub end_raw_codes-IsSane : (r : Reader) → IsSane r → IsSane (end_raw_codes r)
unfolding end_raw_codes IsSane
end_raw_codes-IsSane r h =
    let closed = close_open_signal r in
    let (p, q, a) = close_open_signal-IsSane r h in
    either-IsSane (same_mode closed.mode id_raw_codes) _ _ (p, inside-RemOk id_remote _ refl, a)
      (p, q, a)

-- What sanityChecks lets through is checked.
sane-IsChecked : (d e : Draft) → sanity_checks d ≡ sane e → IsChecked e.remote
unfolding IsChecked is_raw
sane-IsChecked d e s h r =
    let (flags, count) = sanity_checks-same d e s in
    sanity_checks-Fits d e (omega arith)
      (ap (λ (f : ℕ). bit_and f ir_protocol_mask == raw_codes) (sym flags) ∙ r) s

forgotten-IsChecked :
    (remote : Remote) → IsChecked remote → IsChecked (record remote { last_code = none })
unfolding IsChecked bit_count is_raw
forgotten-IsChecked remote c h r =
    let f = c h r in
    record { pre_fits = f.pre_fits; post_fits = f.post_fits; codes_fit = f.codes_fit }

after_checks-IsSane :
    (r : Reader) (t : Sanity)
    → ((e : Draft) → t ≡ sane e → IsChecked e.remote)
    → IsSane r
    → IsSane (after_checks r t)
unfolding IsSane RemOk
after_checks-IsSane r (sane d) k (p, q, a) = (p, forgotten-IsChecked d.remote (k d refl), tt)
after_checks-IsSane r no_name k h = h
after_checks-IsSane r undefined_codes k h = h

check_rem-IsSane : (r : Reader) (o : Option Draft) → IsSane r → IsSane (check_rem r o)
unfolding IsSane
check_rem-IsSane r none h = h
check_rem-IsSane r (some d) h = after_checks-IsSane r (sanity_checks d) (sane-IsChecked d) h

pub end_remote-IsSane : (r : Reader) → IsSane r → IsSane (end_remote r)
unfolding end_remote
end_remote-IsSane r h =
    either-IsSane (same_mode r.mode id_remote) _ _ (check_rem-IsSane r r.rem h)
      (with_error-IsSane r h)
