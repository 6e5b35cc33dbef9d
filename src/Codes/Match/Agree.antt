-- ===== src/Codes/Match/Agree.antt =====
-- What the comparisons of `get_code` mean for the binary digits of the codes.
use lirc_port_for_mac_os_x.Prelude.{
  ℕ, ◌+◌, ◌%◌, ◌≡◌, refl, sym, ◌∙◌, ◌⊎◌, inl, inr, bit_xor, Bool, true, false, ◌||◌, ==_iff,
}
use lirc_port_for_mac_os_x.Word.Digits.{
  digit, digit-bit_xor, masked-AgreeOutside, AgreeOutside-masked,
}
use lirc_port_for_mac_os_x.Remote.{Remote}
use lirc_port_for_mac_os_x.Codes.Match.{match_ir_code}

-- Each digit of `all` is that of the code sent, or with the toggled ones inverted, or is ignored.
abbrev pub IsSame : Remote → ℕ → ℕ → Type 0
IsSame remote sent all = (i : ℕ) → (digit i remote.ignore_mask ≡ 1) ⊎ (digit i sent ≡ digit i all)

abbrev pub IsInverted : Remote → ℕ → ℕ → Type 0
IsInverted remote sent all =
    (i : ℕ)
    → (digit i remote.ignore_mask ≡ 1)
      ⊎ (digit i sent ≡ (digit i all + digit i remote.toggle_bit_mask) % 2)

abbrev pub Agree : Remote → ℕ → ℕ → Type 0
Agree remote sent all = IsSame remote sent all ⊎ IsInverted remote sent all

inverted_digit :
    (remote : Remote) (i sent all : ℕ)
    → (digit i remote.ignore_mask ≡ 1)
      ⊎ (digit i sent ≡ digit i (bit_xor all remote.toggle_bit_mask))
    → (digit i remote.ignore_mask ≡ 1)
      ⊎ (digit i sent ≡ (digit i all + digit i remote.toggle_bit_mask) % 2)
inverted_digit remote i sent all (inl m) = inl m
inverted_digit remote i sent all (inr e) = inr (e ∙ digit-bit_xor i all remote.toggle_bit_mask)

inverted_digit' :
    (remote : Remote) (i sent all : ℕ)
    → (digit i remote.ignore_mask ≡ 1)
      ⊎ (digit i sent ≡ (digit i all + digit i remote.toggle_bit_mask) % 2)
    → (digit i remote.ignore_mask ≡ 1)
      ⊎ (digit i sent ≡ digit i (bit_xor all remote.toggle_bit_mask))
inverted_digit' remote i sent all (inl m) = inl m
inverted_digit' remote i sent all (inr e) =
    inr (e ∙ sym (digit-bit_xor i all remote.toggle_bit_mask))

or_true : (a b : Bool) → (a || b) ≡ true → (a ≡ true) ⊎ (b ≡ true)
or_true true b e = inl refl
or_true false b e = inr e

pub match_ir_code-Agree :
    (remote : Remote) (sent all : ℕ) → match_ir_code remote sent all ≡ true → Agree remote sent all
unfolding match_ir_code
match_ir_code-Agree remote sent all h = elim (or_true _ _ h) [
  | inl e ↦ inl (masked-AgreeOutside remote.ignore_mask sent all ((==_iff _ _).0 e))
  | inr e ↦
      let outside =
        masked-AgreeOutside remote.ignore_mask sent (bit_xor all remote.toggle_bit_mask)
          ((==_iff _ _).0 e) in
      inr (λ i. inverted_digit remote i sent all (outside i))
]

left_true : (a b : Bool) → a ≡ true → (a || b) ≡ true
left_true a b e = rw e refl

right_true : (a b : Bool) → b ≡ true → (a || b) ≡ true
right_true true b e = refl
right_true false b e = e

pub Agree-match_ir_code :
    (remote : Remote) (sent all : ℕ) → Agree remote sent all → match_ir_code remote sent all ≡ true
unfolding match_ir_code
Agree-match_ir_code remote sent all (inl same) =
    left_true _ _ ((==_iff _ _).1 (AgreeOutside-masked remote.ignore_mask sent all same))
Agree-match_ir_code remote sent all (inr inverted) = right_true _ _ (
    (==_iff _ _).1 (
      AgreeOutside-masked remote.ignore_mask sent (bit_xor all remote.toggle_bit_mask)
        (λ i. inverted_digit' remote i sent all (inverted i))))
