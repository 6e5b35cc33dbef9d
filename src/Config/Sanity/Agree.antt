-- ===== src/Config/Sanity/Agree.antt =====
-- The codes of a remote that `sanityChecks` has cut, and the codes that are reported and matched.
use lirc_port_for_mac_os_x.Prelude.{
  ℕ, zero, suc, ◌≤◌, ◌<◌, ◌^◌, List, [], ◌∷◌, get_elem?, some, false, true, Bool, not,
  if◌then◌else◌, ◌≡◌, refl, ap, ◌∙◌, subst, arith, bit_and, ◌==◌,
}
use mathlib.Core.Option.{some-injective}
use lirc_port_for_mac_os_x.Word.{is_set}
use lirc_port_for_mac_os_x.Remote.{Ncode}
use lirc_port_for_mac_os_x.Remote.Flags.{
  has_flag, ir_protocol_mask, raw_codes, compat_reverse, is_raw, bit_count,
}
use lirc_port_for_mac_os_x.Codes.Mapping.{gen_ir_code}
use lirc_port_for_mac_os_x.Codes.Decode.{compose_code}
use lirc_port_for_mac_os_x.Codes.Decode.Compose.{compose_code-eq-gen_ir_code}
use lirc_port_for_mac_os_x.Config.Sanity.{
  Draft, sane, no_name, undefined_codes, cut_remote, sanity_checks,
}
use lirc_port_for_mac_os_x.Config.Sanity.Fits.{CodesFit, sanity_checks-Fits, sane-injective}

CodesFit-lt :
    (bits : ℕ) (codes : List Ncode) (i : ℕ) (c : Ncode)
    → CodesFit bits codes
    → get_elem? codes i ≡ some c
    → c.code < 2 ^ bits
unfolding CodesFit
CodesFit-lt bits [] i c h e = cc
CodesFit-lt bits (x ∷ codes) zero c (l, n, r) e =
    subst (λ (t : Ncode). t.code < 2 ^ bits) (some-injective _ _ e) l
CodesFit-lt bits (x ∷ codes) (suc i) c (l, n, r) e = CodesFit-lt bits codes i c r e

-- What the checks do not change.
pub sanity_checks-same :
    (d e : Draft)
    → sanity_checks d ≡ sane e
    → (e.remote.flags ≡ d.remote.flags) × (bit_count e.remote ≡ bit_count d.remote)
unfolding sanity_checks cut_remote bit_count
sanity_checks-same d e h = by_tests d.has_name (is_raw d.remote) d.has_codes h
  where
    checked : Draft
    checked = record d { remote = cut_remote d.remote }

    Same : Draft → Type 0
    Same t = (t.remote.flags ≡ d.remote.flags) × (bit_count t.remote ≡ bit_count d.remote)

    by_tests :
        (n raw c : Bool)
        → (if not n
            then no_name
            else if raw
            then sane d
            else if not c
            then undefined_codes
            else sane checked)
          ≡ sane e
        → Same e
    by_tests true true c q = subst Same (sane-injective d e q) (refl, refl)
    by_tests true false true q = subst Same (sane-injective checked e q) (refl, refl)
    by_tests true false false q = cc
    by_tests false raw c q = cc

-- For every button of a remote that sanityChecks lets through, the code that set_code reports is
-- the one that get_code compares with what was received, if the remote is not raw, has at most 64
-- bits and does not keep its codes in the reversed order.
pub checked-compose_code :
    (d e : Draft) (i : ℕ) (c : Ncode)
    → bit_count d.remote ≤ 64
    → is_raw d.remote ≡ false
    → has_flag d.remote compat_reverse ≡ false
    → sanity_checks d ≡ sane e
    → get_elem? e.remote.codes i ≡ some c
    → compose_code e.remote c.code
      ≡ gen_ir_code e.remote e.remote.pre_data c.code e.remote.post_data
unfolding is_raw
checked-compose_code d e i c h r v s g =
    let fits = sanity_checks-Fits d e h r s in
    let (flags, count) = sanity_checks-same d e s in
    compose_code-eq-gen_ir_code e.remote c.code
      (record {
        pre_fits = fits.pre_fits;
        code_fits = CodesFit-lt e.remote.bits e.remote.codes i c fits.codes_fit g;
        post_fits = fits.post_fits;
        all_fit = omega arith;
      })
      (ap (λ (f : ℕ). bit_and f ir_protocol_mask == raw_codes) flags ∙ r)
      (ap (λ (f : ℕ). is_set (bit_and f compat_reverse)) flags ∙ v)
