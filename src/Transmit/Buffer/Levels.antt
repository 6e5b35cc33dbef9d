-- ===== src/Transmit/Buffer/Levels.antt =====
-- The level of the line, one entry for each microsecond, and the alternation of a signal array:
-- entry 0 is a pulse, entry 1 a space, and so on.
use native.Mathlib.Numerals.{add-one}
use lirc_port_for_mac_os_x.Prelude.{
  ℕ, zero, suc, ◌+◌, ◌%◌, ◌≤◌, ◌<◌, ◌≡◌, refl, ap, ◌∙◌, arith, List, [], ◌∷◌, ◌++◌, append_assoc,
  append-nil, Bool, true, false, not, length, set, take, replicate,
}

pub data Signal : Type 0 where
  pulse : ℕ → Signal
  space : ℕ → Signal

-- The levels that a sequence of signals asks for.
abbrev pub levels : List Signal → List Bool
levels [] = []
levels (pulse d ∷ rest) = replicate d true ++ levels rest
levels (space d ∷ rest) = replicate d false ++ levels rest

-- Spaces before the first pulse.
abbrev pub trim : List Signal → List Signal
trim [] = []
trim (pulse d ∷ rest) = pulse d ∷ rest
trim (space d ∷ rest) = trim rest

abbrev pub AllPositive : List Signal → Type 0
AllPositive [] = Unit
AllPositive (pulse d ∷ rest) = (0 < d) × AllPositive rest
AllPositive (space d ∷ rest) = (0 < d) × AllPositive rest

-- The levels of an array whose first entry has the level given.
abbrev pub alternate : Bool → List ℕ → List Bool
alternate level [] = []
alternate level (x ∷ xs) = replicate x level ++ alternate (not level) xs

abbrev flips : ℕ → Bool → Bool
flips zero level = level
flips (suc n) level = flips n (not level)

flips_even : (n : ℕ) → n % 2 ≡ 0 → flips n true ≡ true
flips_even zero h = refl
flips_even (suc zero) h = absurd (omega arith)
flips_even (suc (suc n)) h = flips_even n (omega arith)

flips_odd : (n : ℕ) → n % 2 ≡ 1 → flips n true ≡ false
flips_odd zero h = absurd (omega arith)
flips_odd (suc zero) h = refl
flips_odd (suc (suc n)) h = flips_odd n (omega arith)

alternate-append :
    (level : Bool) (xs : List ℕ) (d : ℕ)
    → alternate level (xs ++ d ∷ []) ≡ alternate level xs ++ replicate d (flips (length xs) level)
alternate-append level [] d = append-nil _
alternate-append level (x ∷ xs) d = rw (alternate-append (not level) xs d) (rw append_assoc)

pub replicate-add {ℓ} :
    {A : Type ℓ} (m n : ℕ) (a : A) → replicate (m + n) a ≡ replicate m a ++ replicate n a
replicate-add zero n a = ap (λ k. replicate k a) (omega arith)
replicate-add (suc m) n a = ap (λ k. replicate k a) split ∙ ap (λ r. a ∷ r) (replicate-add m n a)
  where
    split : suc m + n ≡ suc (m + n)
    split = omega arith

pub take-suc-set :
    (xs : List ℕ) (i d : ℕ) → i < length xs → take (i + 1) (set xs i d) ≡ take i xs ++ d ∷ []
take-suc-set [] i d h = absurd (omega arith)
take-suc-set (x ∷ xs) zero d h = refl
take-suc-set (x ∷ xs) (suc i) d h =
    rw add-one
      (ap (λ r. x ∷ r) (ap (λ k. take k (set xs i d)) next ∙ take-suc-set xs i d (omega arith)))
  where
    next : suc i ≡ i + 1
    next = omega arith

length-take-le : (i : ℕ) (xs : List ℕ) → i ≤ length xs → length (take i xs) ≡ i
length-take-le zero xs h = refl
length-take-le (suc i) [] h = absurd (omega arith)
length-take-le (suc i) (x ∷ xs) h = ap suc (length-take-le i xs (omega arith))

-- An entry written at an even place adds its length of high level, at an odd place of low level.
pub alternate_write :
    (xs : List ℕ) (i d : ℕ)
    → i < length xs
    → alternate true (take (i + 1) (set xs i d))
      ≡ alternate true (take i xs) ++ replicate d (flips i true)
alternate_write xs i d h =
    rw (
      take-suc-set xs i d h,
      alternate-append true (take i xs) d,
      length-take-le i xs (omega arith),
    )

pub alternate_write_pulse :
    (xs : List ℕ) (i d : ℕ)
    → i < length xs
    → i % 2 ≡ 0
    → alternate true (take (i + 1) (set xs i d)) ≡ alternate true (take i xs) ++ replicate d true
alternate_write_pulse xs i d h e = rw (alternate_write xs i d h, flips_even i e)

pub alternate_write_space :
    (xs : List ℕ) (i d : ℕ)
    → i < length xs
    → i % 2 ≡ 1
    → alternate true (take (i + 1) (set xs i d)) ≡ alternate true (take i xs) ++ replicate d false
alternate_write_space xs i d h e = rw (alternate_write xs i d h, flips_odd i e)

pub replicate_none {ℓ} : {A : Type ℓ} (n : ℕ) (a : A) → n ≡ 0 → replicate n a ≡ []
replicate_none zero a h = refl
replicate_none (suc n) a h = absurd (omega arith)
