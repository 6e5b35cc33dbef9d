-- ===== src/Config/Sanity/Fits.antt =====
-- The widths of the data of a remote that `sanityChecks` lets through.
use native.Mathlib.Nat.{mod-lt}
use lirc_port_for_mac_os_x.Prelude.{
  ℕ, ◌^◌, ◌<◌, ◌≤◌, List, [], ◌∷◌, map, bit_and, Bool, true, false, not, if◌then◌else◌, ◌≡◌, ap,
  subst, arith, pow_pos,
}
use lirc_port_for_mac_os_x.Word.{gen_mask}
use lirc_port_for_mac_os_x.Word.Masks.{bit_and-gen_mask}
use lirc_port_for_mac_os_x.Remote.{Remote, Ncode}
use lirc_port_for_mac_os_x.Remote.Flags.{is_raw, bit_count}
use lirc_port_for_mac_os_x.Config.Sanity.{
  Draft, Sanity, sane, no_name, undefined_codes, cut, cut_code, cut_remote, sanity_checks,
}

unfoldable pub AreBelow : ℕ → List ℕ → Type 0
AreBelow n [] = Unit
AreBelow n (x ∷ xs) = (x < n) × AreBelow n xs

unfoldable pub CodesFit : ℕ → List Ncode → Type 0
CodesFit bits [] = Unit
CodesFit bits (c ∷ codes) = (c.code < 2 ^ bits) × AreBelow (2 ^ bits) c.next × CodesFit bits codes

-- The data of the remote and all codes of its buttons have the widths that the remote declares.
pub record Fits (remote : Remote) : Type 0 where
  pub pre_fits : remote.pre_data < 2 ^ remote.pre_data_bits
  pub post_fits : remote.post_data < 2 ^ remote.post_data_bits
  pub codes_fit : CodesFit remote.bits remote.codes

abbrev sane_or : Draft → Sanity → Draft
sane_or d (sane e) = e
sane_or d no_name = d
sane_or d undefined_codes = d

pub sane-injective : (d e : Draft) → sane d ≡ sane e → d ≡ e
sane-injective d e q = ap (sane_or d) q

cut-eq-mask : (bits x : ℕ) → cut bits x ≡ bit_and x (gen_mask bits)
cut-eq-mask bits x = ground arith

cut-lt : (bits x : ℕ) → bits ≤ 64 → cut bits x < 2 ^ bits
cut-lt bits x h = rw (cut-eq-mask bits x, bit_and-gen_mask bits x h) (mod-lt x (pow_pos bits))

map-cut-AreBelow : (bits : ℕ) (xs : List ℕ) → bits ≤ 64 → AreBelow (2 ^ bits) (map (cut bits) xs)
unfolding AreBelow
map-cut-AreBelow bits [] h = tt
map-cut-AreBelow bits (x ∷ xs) h = (cut-lt bits x h, map-cut-AreBelow bits xs h)

map-cut_code-CodesFit :
    (bits : ℕ) (codes : List Ncode) → bits ≤ 64 → CodesFit bits (map (cut_code bits) codes)
unfolding CodesFit cut_code
map-cut_code-CodesFit bits [] h = tt
map-cut_code-CodesFit bits (c ∷ codes) h =
    (cut-lt bits c.code h, map-cut-AreBelow bits c.next h, map-cut_code-CodesFit bits codes h)

cut_remote-Fits : (remote : Remote) → bit_count remote ≤ 64 → Fits (cut_remote remote)
unfolding cut_remote bit_count
cut_remote-Fits remote h = record {
  pre_fits = cut-lt remote.pre_data_bits remote.pre_data (omega arith);
  post_fits = cut-lt remote.post_data_bits remote.post_data (omega arith);
  codes_fit = map-cut_code-CodesFit remote.bits remote.codes (omega arith);
}

-- A remote of at most 64 bits that is not raw comes out of sanityChecks, if it does, with its data
-- and the codes of its buttons cut to the widths that it declares.
pub sanity_checks-Fits :
    (d e : Draft)
    → bit_count d.remote ≤ 64
    → is_raw d.remote ≡ false
    → sanity_checks d ≡ sane e
    → Fits e.remote
unfolding sanity_checks
sanity_checks-Fits d e h r s = by_tests d.has_name (is_raw d.remote) d.has_codes r s
  where
    checked : Draft
    checked = record d { remote = cut_remote d.remote }

    by_tests :
        (n raw c : Bool)
        → raw ≡ false
        → (if not n
            then no_name
            else if raw
            then sane d
            else if not c
            then undefined_codes
            else sane checked)
          ≡ sane e
        → Fits e.remote
    by_tests true true c f q = cc
    by_tests true false true f q =
        subst (λ (t : Draft). Fits t.remote) (sane-injective checked e q)
          (cut_remote-Fits d.remote h)
    by_tests true false false f q = cc
    by_tests false raw c f q = cc
