-- ===== src/Config/FlagNames/Protocol.antt =====
-- The protocol of the flags that `parseFlags` returns.
use Prim.Native.Nat.{max}
use mathlib.Core.Option.{some-injective}
use lirc_port_for_mac_os_x.Prelude.{
  ℕ, zero, suc, ◌+◌, ◌*◌, ◌/◌, ◌%◌, ◌^◌, String, codes_of, same_folded, List, [], ◌∷◌, Option, none,
  some, Bool, true, false, ◌&&◌, ◌||◌, bit_and, bit_or, ◌==◌, if◌then◌else◌, ◌≡◌, refl, ap, subst,
  ◌∙◌, arith, bit_or_step, zero-bit_or, bit_or-zero, bit_and_mask, mod-pow-suc,
}
use lirc_port_for_mac_os_x.Word.{is_set}
use lirc_port_for_mac_os_x.Remote.Flags.{ir_protocol_mask}
use lirc_port_for_mac_os_x.Config.Numbers.{Checked, fail}
use lirc_port_for_mac_os_x.Config.FlagNames.{
  all_flags, find_flag, split_flags, parse_flags_loop, parse_flags,
}

-- No protocol, or one of them.
abbrev pub is_one_protocol : ℕ → Bool
is_one_protocol p =
    p == 0
    || p == 1
    || p == 2
    || p == 4
    || p == 8
    || p == 16
    || p == 32
    || p == 64
    || p == 128
    || p == 256
    || p == 512
    || p == 1024

abbrev protocol_of : ℕ → ℕ
protocol_of flags = bit_and flags ir_protocol_mask

halves : (k a : ℕ) → (a % 2 ^ suc k / 2 ≡ a / 2 % 2 ^ k) × (a % 2 ^ suc k % 2 ≡ a % 2)
halves k a = (omega (arith, mod-pow-suc k a), omega (arith, mod-pow-suc k a))

bit_or_halves :
    (a b : ℕ) → (bit_or a b / 2 ≡ bit_or (a / 2) (b / 2)) × (bit_or a b % 2 ≡ max (a % 2) (b % 2))
bit_or_halves a b = (omega (arith, bit_or_step a b), omega (arith, bit_or_step a b))

bit_or-mod-pow : (k a b : ℕ) → bit_or a b % 2 ^ k ≡ bit_or (a % 2 ^ k) (b % 2 ^ k)
bit_or-mod-pow zero a b =
    let a0 : a % 1 ≡ 0 = omega arith in
    let b0 : b % 1 ≡ 0 = omega arith in rw (a0, b0) (omega arith)
bit_or-mod-pow (suc k) a b =
    let (half, low) = bit_or_halves a b in
    let (half_a, low_a) = halves k a in
    let (half_b, low_b) = halves k b in
    let right : bit_or (a % 2 ^ suc k) (b % 2 ^ suc k)
        ≡ max (a % 2) (b % 2) + bit_or (a / 2 % 2 ^ k) (b / 2 % 2 ^ k) * 2 =
      bit_or_step (a % 2 ^ suc k) (b % 2 ^ suc k) ∙ rw (half_a, half_b, low_a, low_b) refl in
    mod-pow-suc k (bit_or a b)
    ∙ ap (λ (t : ℕ). t % 2 ^ k * 2 + bit_or a b % 2) half
    ∙ omega (arith, low, right, bit_or-mod-pow k (a / 2) (b / 2))

protocol_of-bit_or : (a b : ℕ) → protocol_of (bit_or a b) ≡ bit_or (protocol_of a) (protocol_of b)
protocol_of-bit_or a b =
    rw (bit_and_mask 11 (bit_or a b), bit_and_mask 11 a, bit_and_mask 11 b) (bit_or-mod-pow 11 a b)

-- The flags of a table have at most one protocol each.
are_single : List (String × ℕ) → Bool
are_single [] = true
are_single ((name, value) ∷ rest) = is_one_protocol (protocol_of value) && are_single rest

find_flag-single :
    (table : List (String × ℕ)) (flag : List ℕ) (value : ℕ)
    → are_single table ≡ true
    → find_flag table flag ≡ some value
    → is_one_protocol (protocol_of value) ≡ true
unfolding find_flag are_single
find_flag-single [] flag value h e = cc
find_flag-single ((name, v) ∷ rest) flag value h e =
    by_tests (is_one_protocol (protocol_of v)) refl (same_folded (codes_of name) flag) h e
      (find_flag-single rest flag value)
  where
    by_tests :
        (single : Bool)
        → is_one_protocol (protocol_of v) ≡ single
        → (found : Bool) → (single && are_single rest) ≡ true
        → (if found then some v else find_flag rest flag) ≡ some value
        → (are_single rest ≡ true
            → find_flag rest flag ≡ some value
            → is_one_protocol (protocol_of value) ≡ true)
        → is_one_protocol (protocol_of value) ≡ true
    by_tests true k true a q later =
        subst (λ (t : ℕ). is_one_protocol (protocol_of t) ≡ true) (some-injective _ _ q) k
    by_tests true k false a q later = later a q
    by_tests false k found a q later = cc

-- One of the two has no protocol, so that joining them gives at most one.
joined :
    (p q : ℕ)
    → is_one_protocol p ≡ true
    → is_one_protocol q ≡ true
    → (is_set q && is_set p) ≡ false
    → is_one_protocol (bit_or p q) ≡ true
joined zero q hp hq h = rw (zero-bit_or q) hq
joined (suc p) zero hp hq h = rw (bit_or-zero (suc p)) hp
joined (suc p) (suc q) hp hq h = ground arith

abbrev Single : Checked ℕ → Type 0
Single c = is_one_protocol (protocol_of c.value) ≡ true

either-Single :
    (b : Bool) (x y : Checked ℕ)
    → (b ≡ true → Single x)
    → (b ≡ false → Single y)
    → Single (if b then x else y)
either-Single true x y h k = h refl
either-Single false x y h k = k refl

parse_flags_loop-Single :
    (names : List (List ℕ)) (flags : ℕ)
    → is_one_protocol (protocol_of flags) ≡ true
    → Single (parse_flags_loop names flags)
unfolding parse_flags_loop are_single
parse_flags_loop-Single [] flags h = h
parse_flags_loop-Single (flag ∷ rest) flags h =
    by_flag (find_flag all_flags flag) (λ value e. find_flag-single all_flags flag value refl e)
      (λ f. parse_flags_loop-Single rest f)
  where
    clash : ℕ → Bool
    clash value = is_set (bit_and value ir_protocol_mask) && is_set (bit_and flags ir_protocol_mask)

    by_flag :
        (o : Option ℕ)
        → ((value : ℕ) → o ≡ some value → is_one_protocol (protocol_of value) ≡ true)
        → ((f : ℕ) → is_one_protocol (protocol_of f) ≡ true → Single (parse_flags_loop rest f))
        → Single (elim o [
          | none ↦ fail 0
          | some value ↦ if clash value then fail 0 else parse_flags_loop rest (bit_or flags value)
        ])
    by_flag none single later = refl
    by_flag (some value) single later =
        either-Single (clash value) (fail 0) _ (λ t. refl)
          (λ f. later (bit_or flags value) (
            rw (protocol_of-bit_or flags value)
              (joined (protocol_of flags) (protocol_of value) h (single value refl) f)))

-- The flags that parseFlags returns, whatever it reads, have no protocol or a single one.
pub parse_flags-single :
    (val : List ℕ) → is_one_protocol (bit_and (parse_flags val).value ir_protocol_mask) ≡ true
unfolding parse_flags
parse_flags-single val = parse_flags_loop-Single (split_flags val) 0 refl
