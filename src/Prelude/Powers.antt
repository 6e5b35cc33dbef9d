-- ===== src/Prelude/Powers.antt =====
-- Powers of two: order, and quotients and remainders by them.
use Prim.Native.Nat.{ℕ, zero, suc, ◌+◌, ◌*◌, ◌/◌, ◌%◌, ◌^◌, ◌≤◌, ◌<◌}
use mathlib.Core.Path.{◌≡◌, ap, ◌∙◌}
use native.Mathlib.Nat.{
  one-le-pow, pow-suc, pow-le-pow_right, mul-add-div_right, mul-add-mod_self_right, div-eq_of_lt,
  mod-eq_of_lt, div-lt_iff_lt-mul, div-div-eq-div-mul, mod-lt, mod-add-div',
}
use native.Mathlib.Omega.{arith}

pub pow_pos : (k : ℕ) → 0 < 2 ^ k
pow_pos k = one-le-pow k 2 (omega arith)

pub pow_mono : (j k : ℕ) → j ≤ k → 2 ^ j ≤ 2 ^ k
pow_mono j k h = pow-le-pow_right (omega arith) h

pub pow_mono_lt : (j k : ℕ) → j < k → 2 ^ j < 2 ^ k
pow_mono_lt j k h = omega (arith, pow_mono (suc j) k h, pow-suc 2 j, pow_pos j)

-- `q` above `k` bits and `r` within them.
pub fields_div : (k q r : ℕ) → r < 2 ^ k → (q * 2 ^ k + r) / 2 ^ k ≡ q
fields_div k q r h =
    omega (arith, mul-add-div_right (pow_pos k) q r, div-eq_of_lt {n = r} {m = 2 ^ k} h)

pub fields_mod : (k q r : ℕ) → r < 2 ^ k → (q * 2 ^ k + r) % 2 ^ k ≡ r
fields_mod k q r h = mul-add-mod_self_right q (2 ^ k) r ∙ mod-eq_of_lt h

pub mod_pow-lt : (k a : ℕ) → a % 2 ^ k < 2 ^ k
mod_pow-lt k a = mod-lt a (pow_pos k)

pub split_pow : (k a : ℕ) → a / 2 ^ k * 2 ^ k + a % 2 ^ k ≡ a
split_pow k a = omega (arith, mod-add-div' a (2 ^ k))

pub div-pow-suc : (k a : ℕ) → a / 2 ^ suc k ≡ a / 2 / 2 ^ k
div-pow-suc k a =
    ap (λ t. a / t) (omega (arith, pow-suc 2 k)) ∙ sym' (div-div-eq-div-mul a 2 (2 ^ k))
  where
    sym' : {x y : ℕ} → x ≡ y → y ≡ x
    sym' p = omega arith

pub div-pow-suc' : (k a : ℕ) → a / 2 ^ suc k ≡ a / 2 ^ k / 2
div-pow-suc' k a =
    omega (arith, div-div-eq-div-mul a (2 ^ k) 2, ap (λ (t : ℕ). a / t) (pow-suc 2 k))

pub mul-pow-suc : (q k : ℕ) → q * 2 ^ suc k ≡ 2 * (q * 2 ^ k)
mul-pow-suc q k = omega (arith, ap (λ (t : ℕ). q * t) (pow-suc 2 k))

pub mod-pow-suc : (k a : ℕ) → a % 2 ^ suc k ≡ a / 2 % 2 ^ k * 2 + a % 2
mod-pow-suc k a =
    ap (λ (t : ℕ). t % 2 ^ suc k) regrouped ∙ fields_mod (suc k) (a / 2 / 2 ^ k) _ below
  where
    regrouped : a ≡ a / 2 / 2 ^ k * 2 ^ suc k + (a / 2 % 2 ^ k * 2 + a % 2)
    regrouped = omega (arith, split_pow k (a / 2), mul-pow-suc (a / 2 / 2 ^ k) k)

    below : a / 2 % 2 ^ k * 2 + a % 2 < 2 ^ suc k
    below = omega (arith, mod_pow-lt k (a / 2), pow-suc 2 k)

pub pow-add : (a b : ℕ) → 2 ^ (a + b) ≡ 2 ^ a * 2 ^ b
pow-add zero b = ap (λ (t : ℕ). 2 ^ t) none_more ∙ omega arith
  where
    none_more : 0 + b ≡ b
    none_more = omega arith
pow-add (suc a) b =
    ap (λ (t : ℕ). 2 ^ t) next
    ∙ omega (
      arith,
      pow-suc 2 (a + b),
      pow-add a b,
      pow-suc 2 a,
      ap (λ (t : ℕ). t * 2 ^ b) (pow-suc 2 a),
    )
  where
    next : suc a + b ≡ suc (a + b)
    next = omega arith

-- A field of `k` bits put below one of `j` bits makes one of `j + k` bits.
pub fields-lt : (j k q r : ℕ) → q < 2 ^ j → r < 2 ^ k → q * 2 ^ k + r < 2 ^ (j + k)
fields-lt j k q r hq hr = rw (pow-add j k) (grind arith)

-- What lies above `k` bits of a number of `j + k` bits has `j` bits.
pub high_field-lt : (j k a : ℕ) → a < 2 ^ (j + k) → a / 2 ^ k < 2 ^ j
high_field-lt j k a h =
    (div-lt_iff_lt-mul {k = 2 ^ k} {x = a} {y = 2 ^ j} (pow_pos k)).1 (rw (pow-add j k) at h)
