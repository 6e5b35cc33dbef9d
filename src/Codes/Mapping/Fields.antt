-- ===== src/Codes/Mapping/Fields.antt =====
-- The fields of a code as one number, and what `map_code` keeps of it.
use lirc_port_for_mac_os_x.Prelude.{
  ℕ, ◌+◌, ◌*◌, ◌/◌, ◌%◌, ◌^◌, ◌≤◌, ◌<◌, ◌≡◌, ◌∙◌, refl, sym, ap, subst, arith, bit_or, Bool, true,
  false, none, some, ◌==◌, ==_iff, if◌then◌else◌, bit_or_fields, mod_pow-lt, pow_mono, split_pow,
  fields-lt, high_field-lt,
}
use mathlib.Core.Option.{some-injective}
use native.Mathlib.Nat.{mod-eq_of_lt}
use lirc_port_for_mac_os_x.Word.{shl}
use lirc_port_for_mac_os_x.Word.Shift.{shl_exact}
use lirc_port_for_mac_os_x.Word.Masks.{bit_and-gen_mask}
use lirc_port_for_mac_os_x.Remote.{Remote}
use lirc_port_for_mac_os_x.Remote.Flags.{bit_count}
use lirc_port_for_mac_os_x.Codes.Mapping.{Fields3, join_fields, split_fields, map_code}

-- The fields one after the other, with the widths of the lower two.
abbrev pub joined : ℕ → ℕ → Fields3 → ℕ
joined bits post_bits f = (f.pre * 2 ^ bits + f.code) * 2 ^ post_bits + f.post

-- The low bits that the widths leave of each field.
abbrev pub cut : ℕ → ℕ → ℕ → Fields3 → Fields3
cut pre_bits bits post_bits f = record {
  pre = f.pre % 2 ^ pre_bits;
  code = f.code % 2 ^ bits;
  post = f.post % 2 ^ post_bits;
}

-- `(q << k) | r` for fields of `j` and `k` bits, within the 64 of a code.
pub shift_in :
    (j k q r : ℕ)
    → j + k ≤ 64
    → q < 2 ^ j
    → r < 2 ^ k
    → (bit_or (shl q k) r ≡ q * 2 ^ k + r) × (q * 2 ^ k + r < 2 ^ (j + k))
shift_in j k q r h hq hr =
    let bound = fields-lt j k q r hq hr in
    (
      rw (shl_exact q k (omega (arith, bound, pow_mono (j + k) 64 h))) (bit_or_fields k q r hr),
      bound,
    )

pub join_fields-eq-joined :
    (pre_bits bits post_bits : ℕ) (f : Fields3)
    → pre_bits + bits + post_bits ≤ 64
    → (join_fields pre_bits bits post_bits f
        ≡ joined bits post_bits (cut pre_bits bits post_bits f))
      × (joined bits post_bits (cut pre_bits bits post_bits f) < 2 ^ (pre_bits + bits + post_bits))
unfolding join_fields
join_fields-eq-joined pre_bits bits post_bits f h =
    let (upper, upper-lt) =
      shift_in pre_bits bits (f.pre % 2 ^ pre_bits) (f.code % 2 ^ bits) (omega arith)
        (mod_pow-lt pre_bits f.pre) (mod_pow-lt bits f.code) in
    let (whole, whole-lt) =
      shift_in (pre_bits + bits) post_bits (f.pre % 2 ^ pre_bits * 2 ^ bits + f.code % 2 ^ bits)
        (f.post % 2 ^ post_bits) h upper-lt (mod_pow-lt post_bits f.post) in
    (
      rw
          (
            bit_and-gen_mask pre_bits f.pre (omega arith),
            bit_and-gen_mask bits f.code (omega arith),
            bit_and-gen_mask post_bits f.post (omega arith),
            upper,
          )
          whole,
      whole-lt,
    )

split_fields-joined :
    (remote : Remote) (all : ℕ)
    → bit_count remote ≤ 64
    → all < 2 ^ bit_count remote
    → joined remote.bits remote.post_data_bits (split_fields remote all) ≡ all
unfolding split_fields bit_count
split_fields-joined remote all h small =
    let upper = all / 2 ^ remote.post_data_bits in
    let fits = high_field-lt (remote.pre_data_bits + remote.bits) remote.post_data_bits all small in
    let top = high_field-lt remote.pre_data_bits remote.bits upper fits in
    rw
      (
        bit_and-gen_mask remote.post_data_bits all (omega arith),
        bit_and-gen_mask remote.bits upper (omega arith),
        bit_and-gen_mask remote.pre_data_bits (upper / 2 ^ remote.bits) (omega arith),
        mod-eq_of_lt top,
        split_pow remote.bits upper,
      )
      (split_pow remote.post_data_bits all)

-- Each field within the width that the remote declares for it.
abbrev pub WithinWidths : Remote → Fields3 → Type 0
WithinWidths remote g =
    (g.pre < 2 ^ remote.pre_data_bits)
    × (g.code < 2 ^ remote.bits)
    × (g.post < 2 ^ remote.post_data_bits)

split_fields-WithinWidths :
    (remote : Remote) (all : ℕ)
    → bit_count remote ≤ 64
    → WithinWidths remote (split_fields remote all)
unfolding split_fields bit_count
split_fields-WithinWidths remote all h =
    let upper = all / 2 ^ remote.post_data_bits in
    let top = upper / 2 ^ remote.bits in
    (
      rw (bit_and-gen_mask remote.pre_data_bits top (omega arith))
          (mod_pow-lt remote.pre_data_bits top),
      rw (bit_and-gen_mask remote.bits upper (omega arith)) (mod_pow-lt remote.bits upper),
      rw (bit_and-gen_mask remote.post_data_bits all (omega arith))
          (mod_pow-lt remote.post_data_bits all),
    )

-- If the widths of the fields that come in are at most 64 bits in all and `map_code` returns
-- fields, which it does only if these widths add up to those of the remote, then each of the three
-- is within the width that the remote declares for it, and put one after the other they are the
-- number that the fields that came in, each cut to its width, make: no bit is lost.
pub map_code-joined :
    (remote : Remote) (pre_bits bits post_bits : ℕ) (f g : Fields3)
    → pre_bits + bits + post_bits ≤ 64
    → map_code remote pre_bits bits post_bits f ≡ some g
    → (joined remote.bits remote.post_data_bits g
        ≡ joined bits post_bits (cut pre_bits bits post_bits f))
      × WithinWidths remote g
unfolding map_code
map_code-joined remote pre_bits bits post_bits f g h e =
    by_width (pre_bits + bits + post_bits == bit_count remote) refl e
  where
    all : ℕ
    all = join_fields pre_bits bits post_bits f

    same :
        bit_count remote ≡ pre_bits + bits + post_bits
        → split_fields remote all ≡ g
        → (joined remote.bits remote.post_data_bits g
            ≡ joined bits post_bits (cut pre_bits bits post_bits f))
          × WithinWidths remote g
    same w s =
        let (is_joined, small) = join_fields-eq-joined pre_bits bits post_bits f h in
        let all-lt : all < 2 ^ bit_count remote = rw (w, is_joined) small in
        (
          ap (joined remote.bits remote.post_data_bits) (sym s)
              ∙ split_fields-joined remote all (rw w h) all-lt
              ∙ is_joined,
          subst (WithinWidths remote) s (split_fields-WithinWidths remote all (rw w h)),
        )

    by_width :
        (t : Bool)
        → (pre_bits + bits + post_bits == bit_count remote) ≡ t
        → (if t then some (split_fields remote all) else none) ≡ some g
        → (joined remote.bits remote.post_data_bits g
            ≡ joined bits post_bits (cut pre_bits bits post_bits f))
          × WithinWidths remote g
    by_width true w s =
        same (sym ((==_iff (pre_bits + bits + post_bits) (bit_count remote)).0 w))
          (some-injective _ _ s)
    by_width false w s = cc
