-- ===== src/Codes/Match/Around.antt =====
-- What `get_code` asks of the data before and after the code, for their binary digits.
use lirc_port_for_mac_os_x.Prelude.{
  ℕ, ◌+◌, ◌≤◌, ◌<◌, ◌≡◌, refl, ◌⊎◌, inl, inr, bit_or, Bool-cases, Bool, true, false, not, ◌&&◌,
  ==_iff,
}
use lirc_port_for_mac_os_x.Word.Digits.{digit, masked-AgreeOutside', AgreeOutside-masked'}
use lirc_port_for_mac_os_x.Remote.{Remote}
use lirc_port_for_mac_os_x.Remote.Flags.{has_pre, has_post}
use lirc_port_for_mac_os_x.Codes.Mapping.{Fields3}
use lirc_port_for_mac_os_x.Codes.Match.{pre_mask, post_mask, bad_pre_data, bad_post_data}
use lirc_port_for_mac_os_x.Codes.Match.Free.{
  IsFree, pre_place, pre_mask-IsFree, IsFree-pre_mask, post_mask-IsFree, IsFree-post_mask,
}

-- The data before the code stand above the code and the data after it.
abbrev pub PreAgree : Remote → Fields3 → Type 0
PreAgree remote f =
    (has_pre remote ≡ false)
    ⊎ ((i : ℕ)
        → IsFree remote (remote.bits + remote.post_data_bits + i)
          ⊎ (digit i f.pre ≡ digit i remote.pre_data))

abbrev pub PostAgree : Remote → Fields3 → Type 0
PostAgree remote f =
    (has_post remote ≡ false)
    ⊎ ((i : ℕ)
        → ((i < remote.post_data_bits) × IsFree remote i)
          ⊎ (digit i f.post ≡ digit i remote.post_data))

both_false : (a b : Bool) → b ≡ false → (a && b) ≡ false
both_false true b e = e
both_false false b e = refl

negated : (b : Bool) → not b ≡ false → b ≡ true
negated true e = refl
negated false e = absurd (true-not-false e)
  where
    true-not-false : true ≡ false → ⊥
    true-not-false p = cc

positive : (b : Bool) → b ≡ true → not b ≡ false
positive b e = rw e refl

freed : {A B C : Type 0} → (A → B) → A ⊎ C → B ⊎ C
freed f (inl a) = inl (f a)
freed f (inr c) = inr c

module _ (remote : Remote) (f : Fields3) where
  pub bad_pre_data-PreAgree : bad_pre_data remote f ≡ false → PreAgree remote f
  unfolding bad_pre_data pre_place
  bad_pre_data-PreAgree h = elim (Bool-cases (has_pre remote)) [
    | inr no_pre ↦ inl no_pre
    | inl there ↦
        let m = pre_mask remote in
        let same =
          (==_iff (bit_or f.pre m) (bit_or remote.pre_data m)).0 (negated _ (rw there at h)) in
        let outside = masked-AgreeOutside' m f.pre remote.pre_data same in
        inr (λ i. freed (pre_mask-IsFree remote i) (outside i))
  ]

  pub PreAgree-bad_pre_data : PreAgree remote f → bad_pre_data remote f ≡ false
  unfolding bad_pre_data pre_place
  PreAgree-bad_pre_data (inl no_pre) = rw no_pre refl
  PreAgree-bad_pre_data (inr free) =
      let m = pre_mask remote in
      let same =
        AgreeOutside-masked' m f.pre remote.pre_data
          (λ i. freed (IsFree-pre_mask remote i) (free i)) in
      both_false (has_pre remote) _ (positive _ ((==_iff _ _).1 same))

  pub bad_post_data-PostAgree :
      remote.post_data_bits ≤ 64 → bad_post_data remote f ≡ false → PostAgree remote f
  unfolding bad_post_data
  bad_post_data-PostAgree p h = elim (Bool-cases (has_post remote)) [
    | inr no_post ↦ inl no_post
    | inl there ↦
        let m = post_mask remote in
        let same =
          (==_iff (bit_or f.post m) (bit_or remote.post_data m)).0 (negated _ (rw there at h)) in
        let outside = masked-AgreeOutside' m f.post remote.post_data same in
        inr (λ i. freed (post_mask-IsFree remote i p) (outside i))
  ]

  pub PostAgree-bad_post_data :
      remote.post_data_bits ≤ 64 → PostAgree remote f → bad_post_data remote f ≡ false
  unfolding bad_post_data
  PostAgree-bad_post_data p (inl no_post) = rw no_post refl
  PostAgree-bad_post_data p (inr free) =
      let m = post_mask remote in
      let same =
        AgreeOutside-masked' m f.post remote.post_data
          (λ i. freed (λ x. IsFree-post_mask remote i p x) (free i)) in
      both_false (has_post remote) _ (positive _ ((==_iff _ _).1 same))
