-- ===== src/Codes/Match/First.antt =====
-- Which button `get_code` finds where no button has a chain of codes.
use lirc_port_for_mac_os_x.Prelude.{
  ℕ, ◌+◌, ◌≡◌, ◌≤◌, refl, sym, subst, ◌∙◌, ◌⊎◌, inl, inr, List, [], ◌∷◌, Option, none, some, Bool,
  true, false, ◌||◌, if◌then◌else◌,
}
use lirc_port_for_mac_os_x.Remote.{Remote, Ncode}
use lirc_port_for_mac_os_x.Remote.Flags.{has_toggle_mask}
use lirc_port_for_mac_os_x.Codes.Mapping.{Fields3, gen_ir_code}
use lirc_port_for_mac_os_x.Codes.Match.Agree.{Agree, match_ir_code-Agree, Agree-match_ir_code}
use lirc_port_for_mac_os_x.Codes.Match.Around.{
  PreAgree, PostAgree, bad_pre_data-PreAgree, PreAgree-bad_pre_data, bad_post_data-PostAgree,
  PostAgree-bad_post_data,
}
use lirc_port_for_mac_os_x.Codes.Match.{
  match_ir_code, code_at, bad_pre_data, bad_post_data, get_code,
}
use lirc_port_for_mac_os_x.Codes.Match.Plain.{
  AllPlain, is_received, first_received, get_code-tested,
}

-- A button of which the remote sends `all`, as far as it matters.
abbrev pub IsReceived : Remote → ℕ → Ncode → Type 0
IsReceived remote all codes = Agree remote (code_at remote codes []) all

-- `FirstReceived remote all i buttons found`: `found` is the place, counted from `i`, of the first
-- button that was received, and none if there is no such button.
pub data FirstReceived (remote : Remote) (all : ℕ) : ℕ → List Ncode → Option ℕ → Type 0 where
  no_button : {i : ℕ} → FirstReceived remote all i [] none
  this_button :
      {i : ℕ} {codes : Ncode} {rest : List Ncode}
      → IsReceived remote all codes
      → FirstReceived remote all i (codes ∷ rest) (some i)
  later_button :
      {i : ℕ} {codes : Ncode} {rest : List Ncode} {found : Option ℕ}
      → (¬ IsReceived remote all codes)
      → FirstReceived remote all (i + 1) rest found
      → FirstReceived remote all i (codes ∷ rest) found

true-not-false : true ≡ false → ⊥
true-not-false e = cc

first_received-FirstReceived :
    (remote : Remote) (all i : ℕ) (buttons : List Ncode)
    → FirstReceived remote all i buttons (first_received remote all i buttons)
unfolding first_received is_received
first_received-FirstReceived remote all i [] = no_button
first_received-FirstReceived remote all i (codes ∷ rest) =
    by_test (match_ir_code remote (code_at remote codes []) all) refl
      (first_received-FirstReceived remote all (i + 1) rest)
  where
    by_test :
        (b : Bool)
        → match_ir_code remote (code_at remote codes []) all ≡ b
        → FirstReceived remote all (i + 1) rest (first_received remote all (i + 1) rest)
        → FirstReceived remote all i
            (codes ∷ rest)
            (if b then some i else first_received remote all (i + 1) rest)
    by_test true e later = this_button (match_ir_code-Agree remote (code_at remote codes []) all e)
    by_test false e later =
        later_button
          (λ agree.
            true-not-false
              (sym (Agree-match_ir_code remote (code_at remote codes []) all agree) ∙ e))
          later

-- For a remote with no toggle mask, no chains of codes and at most 64 bits of data after the code,
-- `get_code` changes nothing in the remote; it finds no button if a digit of the data before or
-- after the code differs from the remote's at a place that neither the mask of toggled bits nor
-- that of ignored bits covers, and else the first button of which the code that `gen_ir_code` makes
-- has the same digits as that of what was received at all places that are not ignored, either as
-- they are or with the toggled bits inverted, and none if there is no such button.
pub get_code-first :
    (remote : Remote) (f : Fields3)
    → AllPlain remote.codes
    → has_toggle_mask remote ≡ false
    → remote.post_data_bits ≤ 64
    → let got = get_code remote f in
      let all = gen_ir_code remote f.pre f.code f.post in
      (got.remote ≡ remote)
      × (((¬ (PreAgree remote f × PostAgree remote f)) × (got.ncode ≡ none))
          ⊎ ((PreAgree remote f × PostAgree remote f)
              × FirstReceived remote all 0 remote.codes got.ncode))
get_code-first remote f p t w =
    let (same, found) = get_code-tested remote f p t in
    (same, by_data (bad_pre_data remote f) (bad_post_data remote f) refl refl found)
  where
    all : ℕ
    all = gen_ir_code remote f.pre f.code f.post

    by_data :
        (b c : Bool)
        → bad_pre_data remote f ≡ b
        → bad_post_data remote f ≡ c
        → (get_code remote f).ncode
          ≡ (if b || c then none else first_received remote all 0 remote.codes)
        → ((¬ (PreAgree remote f × PostAgree remote f)) × ((get_code remote f).ncode ≡ none))
          ⊎ ((PreAgree remote f × PostAgree remote f)
              × FirstReceived remote all 0 remote.codes (get_code remote f).ncode)
    by_data true c d e found =
        inl ((λ agree. true-not-false (sym d ∙ PreAgree-bad_pre_data remote f agree.0)), found)
    by_data false true d e found =
        inl ((λ agree. true-not-false (sym e ∙ PostAgree-bad_post_data remote f w agree.1)), found)
    by_data false false d e found = inr (
      (bad_pre_data-PreAgree remote f d, bad_post_data-PostAgree remote f w e),
      subst (FirstReceived remote all 0 remote.codes) (sym found)
          (first_received-FirstReceived remote all 0 remote.codes),
    )
