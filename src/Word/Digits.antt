-- ===== src/Word/Digits.antt =====
-- The binary digits of a code, by their place from the lowest: what the operations on codes do to
-- each, and that they determine the code.
use lirc_port_for_mac_os_x.Prelude.{
  ℕ, zero, suc, ◌+◌, ◌*◌, ◌/◌, ◌%◌, ◌^◌, ◌≤◌, ◌<◌, ◌≡◌, refl, sym, ap, ◌∙◌, ◌⊎◌, arith, bit_and,
  bit_or, bit_xor, bit_and_step, bit_or_step, bit_xor_step, div-pow-suc, mod-pow-suc, pow-add,
}
use Prim.Native.Nat.{min, max, differ}
use native.Mathlib.Nat.{div-div-eq-div-mul}

abbrev pub digit : ℕ → ℕ → ℕ
digit i a = a / 2 ^ i % 2

digit-suc : (i a : ℕ) → digit (suc i) a ≡ digit i (a / 2)
digit-suc i a = ap (λ (t : ℕ). t % 2) (div-pow-suc i a)

digit-zero : (a : ℕ) → digit 0 a ≡ a % 2
digit-zero a = ap (λ (t : ℕ). t % 2) (omega arith)

bit_or-half : (a b : ℕ) → bit_or a b / 2 ≡ bit_or (a / 2) (b / 2)
bit_or-half a b = omega (arith, bit_or_step a b)

bit_and-half : (a b : ℕ) → bit_and a b / 2 ≡ bit_and (a / 2) (b / 2)
bit_and-half a b = omega (arith, bit_and_step a b)

differ-digits : (x y : ℕ) → x < 2 → y < 2 → differ x y ≡ (x + y) % 2
differ-digits zero y hx hy = omega arith
differ-digits (suc zero) zero hx hy = refl
differ-digits (suc zero) (suc zero) hx hy = refl
differ-digits (suc zero) (suc (suc y)) hx hy = absurd (omega arith)
differ-digits (suc (suc x)) y hx hy = absurd (omega arith)

bit_xor_parts : (a b : ℕ) → bit_xor a b ≡ bit_xor (a / 2) (b / 2) * 2 + (a % 2 + b % 2) % 2
bit_xor_parts a b =
    omega (arith, bit_xor_step a b, differ-digits (a % 2) (b % 2) (omega arith) (omega arith))

bit_xor-half : (a b : ℕ) → bit_xor a b / 2 ≡ bit_xor (a / 2) (b / 2)
bit_xor-half a b = omega (arith, bit_xor_parts a b)

pub digit-bit_or : (i a b : ℕ) → digit i (bit_or a b) ≡ max (digit i a) (digit i b)
digit-bit_or zero a b =
    rw (digit-zero (bit_or a b), digit-zero a, digit-zero b) (omega (arith, bit_or_step a b))
digit-bit_or (suc i) a b =
    rw (digit-suc i (bit_or a b), digit-suc i a, digit-suc i b, bit_or-half)
      (digit-bit_or i (a / 2) (b / 2))

pub digit-bit_and : (i a b : ℕ) → digit i (bit_and a b) ≡ min (digit i a) (digit i b)
digit-bit_and zero a b =
    rw (digit-zero (bit_and a b), digit-zero a, digit-zero b) (omega (arith, bit_and_step a b))
digit-bit_and (suc i) a b =
    rw (digit-suc i (bit_and a b), digit-suc i a, digit-suc i b, bit_and-half)
      (digit-bit_and i (a / 2) (b / 2))

pub digit-bit_xor : (i a b : ℕ) → digit i (bit_xor a b) ≡ (digit i a + digit i b) % 2
digit-bit_xor zero a b =
    rw (digit-zero (bit_xor a b), digit-zero a, digit-zero b) (omega (arith, bit_xor_parts a b))
digit-bit_xor (suc i) a b =
    rw (digit-suc i (bit_xor a b), digit-suc i a, digit-suc i b, bit_xor-half)
      (digit-bit_xor i (a / 2) (b / 2))

-- The digits of what a shift to the right leaves.
pub digit-shift : (i k a : ℕ) → digit i (a / 2 ^ k) ≡ digit (k + i) a
digit-shift i k a =
    ap (λ (t : ℕ). t % 2)
      (div-div-eq-div-mul a (2 ^ k) (2 ^ i) ∙ ap (λ (t : ℕ). a / t) (sym (pow-add k i)))

-- A code that is cut to its low bits has the digits below and zeros above.
pub digit-mod_below : (i k a : ℕ) → i < k → digit i (a % 2 ^ k) ≡ digit i a
digit-mod_below i zero a h = absurd (omega arith)
digit-mod_below zero (suc k) a h =
    rw (digit-zero (a % 2 ^ suc k), digit-zero a) (omega (arith, mod-pow-suc k a))
digit-mod_below (suc i) (suc k) a h =
    rw (digit-suc i (a % 2 ^ suc k), digit-suc i a)
      (ap (digit i) (omega (arith, mod-pow-suc k a)) ∙ digit-mod_below i k (a / 2) (omega arith))

pub digit-mod_above : (i k a : ℕ) → k ≤ i → digit i (a % 2 ^ k) ≡ 0
digit-mod_above i zero a h = rw (mod_one a) (digit-none i)
  where
    mod_one : (a : ℕ) → a % 2 ^ 0 ≡ 0
    mod_one a = omega arith

    digit-none : (i : ℕ) → digit i 0 ≡ 0
    digit-none zero = refl
    digit-none (suc i) = digit-suc i 0 ∙ digit-none i
digit-mod_above zero (suc k) a h = absurd (omega arith)
digit-mod_above (suc i) (suc k) a h =
    digit-suc i (a % 2 ^ suc k)
    ∙ ap (digit i) (omega (arith, mod-pow-suc k a))
    ∙ digit-mod_above i k (a / 2) (omega arith)

-- Codes with the same digits are the same.
below_same : (n a b : ℕ) → a ≤ n → b ≤ n → ((i : ℕ) → digit i a ≡ digit i b) → a ≡ b
below_same zero a b ha hb h = omega arith
below_same (suc n) a b ha hb h = omega (
  arith,
  sym (digit-zero a) ∙ h 0 ∙ digit-zero b,
  below_same n (a / 2) (b / 2) (omega arith) (omega arith)
      (λ i. sym (digit-suc i a) ∙ h (suc i) ∙ digit-suc i b),
)

digits_same : (a b : ℕ) → ((i : ℕ) → digit i a ≡ digit i b) → a ≡ b
digits_same a b h = below_same (a + b) a b (omega arith) (omega arith) h

pub bit_or_comm : (a b : ℕ) → bit_or a b ≡ bit_or b a
bit_or_comm a b =
    digits_same _ _
      (λ i. digit-bit_or i a b ∙ max_comm (digit i a) (digit i b) ∙ sym (digit-bit_or i b a))
  where
    max_comm : (x y : ℕ) → max x y ≡ max y x
    max_comm x y = omega arith

-- Two codes agree outside a mask: at each place the mask has a 1 or their digits are the same.
abbrev pub AgreeOutside : ℕ → ℕ → ℕ → Type 0
AgreeOutside mask a b = (i : ℕ) → (digit i mask ≡ 1) ⊎ (digit i a ≡ digit i b)

max_covers : (m x y : ℕ) → m < 2 → x < 2 → y < 2 → max m x ≡ max m y → (m ≡ 1) ⊎ (x ≡ y)
max_covers m x y hm hx hy e = ground arith

covers_max : (m x y : ℕ) → x < 2 → y < 2 → (m ≡ 1) ⊎ (x ≡ y) → max m x ≡ max m y
covers_max m x y hx hy e = ground arith

pub masked-AgreeOutside : (mask a b : ℕ) → bit_or mask a ≡ bit_or mask b → AgreeOutside mask a b
masked-AgreeOutside mask a b e i =
    max_covers (digit i mask) (digit i a) (digit i b) (omega arith) (omega arith) (omega arith)
      (sym (digit-bit_or i mask a) ∙ ap (digit i) e ∙ digit-bit_or i mask b)

pub AgreeOutside-masked : (mask a b : ℕ) → AgreeOutside mask a b → bit_or mask a ≡ bit_or mask b
AgreeOutside-masked mask a b h = digits_same _ _ (λ i.
    digit-bit_or i mask a
    ∙ covers_max (digit i mask) (digit i a) (digit i b) (omega arith) (omega arith) (h i)
    ∙ sym (digit-bit_or i mask b))

pub masked-AgreeOutside' : (mask a b : ℕ) → bit_or a mask ≡ bit_or b mask → AgreeOutside mask a b
masked-AgreeOutside' mask a b e =
    masked-AgreeOutside mask a b (bit_or_comm mask a ∙ e ∙ bit_or_comm b mask)

pub AgreeOutside-masked' : (mask a b : ℕ) → AgreeOutside mask a b → bit_or a mask ≡ bit_or b mask
AgreeOutside-masked' mask a b h =
    bit_or_comm a mask ∙ AgreeOutside-masked mask a b h ∙ bit_or_comm mask b
