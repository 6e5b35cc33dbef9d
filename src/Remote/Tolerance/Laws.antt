-- ===== src/Remote/Tolerance/Laws.antt =====
-- What the tolerance tests accept.
use lirc_port_for_mac_os_x.Prelude.{ℕ, ◌≤◌, ◌<◌, ◌≡◌, true, ◌&&◌, arith}
use lirc_port_for_mac_os_x.Remote.{Remote}
use lirc_port_for_mac_os_x.Remote.Tolerance.{
  expect, expect_at_least, expect_at_most, upper_limit, lower_limit,
}

module _ (resolution : ℕ) (remote : Remote) where
  -- A length is expected exactly when it is neither too short nor too long.
  pub expect-iff-both :
      (delta exdelta : ℕ)
      → expect resolution remote delta exdelta ≡ (
          expect_at_least resolution remote delta exdelta
          && expect_at_most resolution remote delta exdelta)
  unfolding expect expect_at_least expect_at_most
  expect-iff-both delta exdelta = ground arith

  pub expect_refl : (delta : ℕ) → expect resolution remote delta delta ≡ true
  unfolding expect
  expect_refl delta = ground arith

  -- The limits enclose the value.
  pub limits_enclose :
      (val : ℕ)
      → 0 < val
      → (lower_limit resolution remote val ≤ val) × (val ≤ upper_limit resolution remote val)
  unfolding lower_limit upper_limit
  limits_enclose val h = ground arith
