-- ===== src/Config/Finish/Fits.antt =====
-- The widths of the data of a remote after the steps that derive its fields.
use lirc_port_for_mac_os_x.Prelude.{
  ℕ, ◌^◌, ◌≤◌, ◌<◌, List, [], ◌∷◌, map, Bool, true, false, ◌&&◌, not, if◌then◌else◌, ◌≡◌, sym,
  arith,
}
use lirc_port_for_mac_os_x.Word.{reverse}
use lirc_port_for_mac_os_x.Word.Reverse.{reverse-eq-mirrored, mirrored-lt}
use lirc_port_for_mac_os_x.Remote.{Remote, Ncode}
use lirc_port_for_mac_os_x.Remote.Flags.{
  has_flag, reverse_flag, is_raw, has_pre, has_post, bit_count,
}
use lirc_port_for_mac_os_x.Config.Sanity.{Draft, sane, sanity_checks}
use lirc_port_for_mac_os_x.Config.Sanity.Fits.{CodesFit, Fits, sanity_checks-Fits}
use lirc_port_for_mac_os_x.Config.Sanity.Agree.{sanity_checks-same}
use lirc_port_for_mac_os_x.Config.Finish.{
  reverse_code, reverse_remote, kick_reverse, set_rc6_mask, set_toggle_bit_mask, set_toggle_state,
  set_serial, check_min_code_repeat, derive,
}

reverse-lt : (bits a : ℕ) → bits ≤ 64 → reverse a bits < 2 ^ bits
reverse-lt bits a h = rw (reverse-eq-mirrored a bits h) (mirrored-lt bits a)

reverse_code-CodesFit :
    (bits : ℕ) (codes : List Ncode)
    → bits ≤ 64
    → CodesFit bits codes
    → CodesFit bits (map (reverse_code bits) codes)
unfolding CodesFit
reverse_code-CodesFit bits [] h f = tt
reverse_code-CodesFit bits (c ∷ codes) h (l, next, rest) =
    (reverse-lt bits c.code h, next, reverse_code-CodesFit bits codes h rest)

either-lt : (b : Bool) (x y n : ℕ) → x < n → y < n → (if b then x else y) < n
either-lt true x y n h l = h
either-lt false x y n h l = l

kick_reverse-Fits : (rem : Remote) → bit_count rem ≤ 64 → Fits rem → Fits (kick_reverse rem)
unfolding kick_reverse bit_count
kick_reverse-Fits rem h f = by_flag (not (is_raw rem) && has_flag rem reverse_flag)
  where
    by_flag : (b : Bool) → Fits (if b then reverse_remote rem else rem)
    by_flag true = record {
      pre_fits =
          either-lt (has_pre rem) (reverse rem.pre_data rem.pre_data_bits) rem.pre_data
            (2 ^ rem.pre_data_bits) (reverse-lt rem.pre_data_bits rem.pre_data (omega arith))
            f.pre_fits;
      post_fits =
          either-lt (has_post rem) (reverse rem.post_data rem.post_data_bits) rem.post_data
            (2 ^ rem.post_data_bits) (reverse-lt rem.post_data_bits rem.post_data (omega arith))
            f.post_fits;
      codes_fit = reverse_code-CodesFit rem.bits rem.codes (omega arith) f.codes_fit;
    }
    by_flag false = f

-- The data of the remote and the widths that it declares for them.
unfoldable SameData : Remote → Remote → Type 0
SameData r s =
    (r.pre_data ≡ s.pre_data)
    × (r.pre_data_bits ≡ s.pre_data_bits)
    × (r.post_data ≡ s.post_data)
    × (r.post_data_bits ≡ s.post_data_bits)
    × (r.codes ≡ s.codes)
    × (r.bits ≡ s.bits)

SameData-Fits : (r s : Remote) → SameData r s → Fits r → Fits s
unfolding SameData
SameData-Fits r s (p, pb, q, qb, c, b) f = record {
  pre_fits = rw (sym p, sym pb) f.pre_fits;
  post_fits = rw (sym q, sym qb) f.post_fits;
  codes_fit = rw (sym c, sym b) f.codes_fit;
}

rc6-same : (rem : Remote) → SameData rem (set_rc6_mask rem)
unfolding SameData set_rc6_mask
rc6-same rem = ground arith

mask-same : (rem : Remote) → SameData rem (set_toggle_bit_mask rem)
unfolding SameData set_toggle_bit_mask
mask-same rem = ground arith

state-same : (rem : Remote) → SameData rem (set_toggle_state rem)
unfolding SameData set_toggle_state
state-same rem = ground arith

serial-same : (rem : Remote) → SameData rem (set_serial rem)
unfolding SameData set_serial
serial-same rem = ground arith

check-same : (rem : Remote) → SameData rem (check_min_code_repeat rem)
unfolding SameData check_min_code_repeat
check-same rem = ground arith

pub derive-Fits : (rem : Remote) → bit_count rem ≤ 64 → Fits rem → Fits (derive rem)
unfolding derive
derive-Fits rem h f =
    let kicked = kick_reverse-Fits rem h f in
    SameData-Fits _ _ (check-same _) (
      SameData-Fits _ _ (serial-same _) (
        SameData-Fits _ _ (state-same _) (
          SameData-Fits _ _ (mask-same _)
            (SameData-Fits _ _ (rc6-same (kick_reverse rem)) kicked))))

-- A remote of at most 64 bits that is not raw and comes out of sanityChecks has, after the steps
-- that derive its fields, reversed or not, its data and the codes of its buttons within the widths
-- that it declares.
pub checked-derive-Fits :
    (d e : Draft)
    → bit_count d.remote ≤ 64
    → is_raw d.remote ≡ false
    → sanity_checks d ≡ sane e
    → Fits (derive e.remote)
checked-derive-Fits d e h r s =
    let (flags, count) = sanity_checks-same d e s in
    derive-Fits e.remote (omega arith) (sanity_checks-Fits d e h r s)
