-- ===== src/Remote/Tolerance.antt =====
-- How far a measured length may be off: `expect` and its kin of daemons/ir_remote.h.
-- `resolution` is `hw.resolution`, which the driver sets.
use lirc_port_for_mac_os_x.Prelude.{
  ℕ, ◌+◌, ◌-◌, ◌*◌, ◌/◌, Bool, true, ◌||◌, ltb, leb, ◌==◌, if◌then◌else◌,
}
use lirc_port_for_mac_os_x.Remote.{Remote}
pub mod Laws

-- `abs(a - b)`
abbrev pub abs_diff : ℕ → ℕ → ℕ
abs_diff a b = (a - b) + (b - a)

module _ (resolution : ℕ) (remote : Remote) where
  -- The local `aeps` of each function.
  abbrev pub absolute : ℕ
  absolute = if ltb remote.aeps resolution then resolution else remote.aeps

  unfoldable pub expect : ℕ → ℕ → Bool
  expect delta exdelta =
      leb (abs_diff exdelta delta) (exdelta * remote.eps / 100)
      || leb (abs_diff exdelta delta) absolute

  unfoldable pub expect_at_least : ℕ → ℕ → Bool
  expect_at_least delta exdelta =
      leb exdelta (delta + exdelta * remote.eps / 100) || leb exdelta (delta + absolute)

  unfoldable pub expect_at_most : ℕ → ℕ → Bool
  expect_at_most delta exdelta =
      leb delta (exdelta + exdelta * remote.eps / 100) || leb delta (exdelta + absolute)

  unfoldable pub upper_limit : ℕ → ℕ
  upper_limit val =
      let eps_val = val * (100 + remote.eps) / 100 in
      let aeps_val = val + absolute in if ltb aeps_val eps_val then eps_val else aeps_val

  -- Both differences are set to 1 where they are not positive, so `-` may stop at 0.
  unfoldable pub lower_limit : ℕ → ℕ
  lower_limit val =
      let eps_val = val * (100 - remote.eps) / 100 in
      let aeps_val = val - absolute in
      let eps_val' = if eps_val == 0 then 1 else eps_val in
      let aeps_val' = if aeps_val == 0 then 1 else aeps_val in
      if ltb eps_val' aeps_val' then eps_val' else aeps_val'
