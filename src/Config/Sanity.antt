-- ===== src/Config/Sanity.antt =====
-- `sanityChecks` of daemons/config_file.c. Whether the pointers to the name and to the codes of a
-- remote are NULL is kept beside it. The warnings are messages to the log only.
pub mod Fits
pub mod Agree
use lirc_port_for_mac_os_x.Prelude.{
  ℕ, List, map, bit_and, Bool, true, false, not, ◌==◌, if◌then◌else◌,
}
use lirc_port_for_mac_os_x.Word.{gen_mask}
use lirc_port_for_mac_os_x.Remote.{Remote, Ncode}
use lirc_port_for_mac_os_x.Remote.Flags.{is_raw}

-- A remote that is being read, and whether its name and its codes are there.
pub record Draft : Type 0 where
  pub has_name : Bool
  pub has_codes : Bool
  pub remote : Remote

-- `x &= gen_mask(bits)` where that changes `x`.
abbrev pub cut : ℕ → ℕ → ℕ
cut bits x = let masked = bit_and x (gen_mask bits) in if not (masked == x) then masked else x

unfoldable pub cut_code : ℕ → Ncode → Ncode
cut_code bits c = record c { code = cut bits c.code; next = map (cut bits) c.next }

unfoldable pub cut_remote : Remote → Remote
unfolding cut_code
cut_remote rem = record rem {
  pre_data = cut rem.pre_data_bits rem.pre_data;
  post_data = cut rem.post_data_bits rem.post_data;
  codes = map (cut_code rem.bits) rem.codes;
}

-- What comes of the checks: the remote, a refusal where it has no name (the function returns 0), or
-- a read through `rem->codes`, which is NULL where the remote has no section of codes.
pub data Sanity : Type 0 where
  sane : Draft → Sanity
  no_name : Sanity
  undefined_codes : Sanity

unfoldable pub sanity_checks : Draft → Sanity
unfolding cut_remote
sanity_checks d =
    if not d.has_name
    then no_name
    else if is_raw d.remote
    then sane d
    else if not d.has_codes
    then undefined_codes
    else sane (record d { remote = cut_remote d.remote })
