-- ===== src/Transmit/Buffer/Wave.antt =====
-- A send buffer as the line levels that it stands for, and what sending does to them.
use lirc_port_for_mac_os_x.Prelude.{
  ℕ, ◌+◌, ◌%◌, ◌<◌, ◌≡◌, arith, List, ◌++◌, append_assoc, append-nil, Bool, true, false, take,
  replicate, length-set,
}
use lirc_port_for_mac_os_x.Transmit.Buffer.{SendBuffer, send_pulse, send_space}
use lirc_port_for_mac_os_x.Transmit.Buffer.Bounds.{Fits}
use lirc_port_for_mac_os_x.Transmit.Buffer.Levels.{
  alternate, replicate-add, replicate_none, alternate_write_pulse, alternate_write_space,
}

abbrev pub wave : SendBuffer → List Bool
wave b =
    alternate true (take b.wptr b.cells) ++ replicate b.pendingp true ++ replicate b.pendings false

-- At most one length is pending, and the parity of `wptr` says which kind comes next.
pub record Alternates (b : SendBuffer) : Type 0 where
  pub fits : Fits b
  pub even_pulse : 0 < b.pendingp → (b.wptr % 2 ≡ 0) × (b.pendings ≡ 0)
  pub odd_space : 0 < b.pendings → b.wptr % 2 ≡ 1
  pub idle : b.pendingp ≡ 0 → b.pendings ≡ 0 → b.wptr ≡ 0

module _ (d : ℕ) (b : SendBuffer) (v : Alternates b) (positive : 0 < d) where
  pub send_pulse-Alternates : (send_pulse d b).too_long ≡ false → Alternates (send_pulse d b)
  unfolding send_pulse
  send_pulse-Alternates e =
      ground (arith, v.even_pulse, v.odd_space, v.idle, length-set b.cells b.wptr b.pendings)

  pub send_pulse-wave :
      (send_pulse d b).too_long ≡ false → wave (send_pulse d b) ≡ wave b ++ replicate d true
  unfolding send_pulse
  send_pulse-wave e = ground (
    arith,
    v.even_pulse,
    v.odd_space,
    v.idle,
    replicate_none b.pendingp true,
    replicate_none b.pendings false,
    replicate-add b.pendingp d true,
    alternate_write_space b.cells b.wptr b.pendings,
    append-nil (alternate true (take b.wptr b.cells)),
    append-nil (alternate true (take b.wptr b.cells) ++ replicate b.pendingp true),
    append-nil (alternate true (take b.wptr b.cells) ++ replicate (b.pendingp + d) true),
    append-nil (alternate true (take b.wptr b.cells) ++ replicate d true),
    append-nil
        (alternate true (take b.wptr b.cells) ++ replicate b.pendings false ++ replicate d true),
    append_assoc (alternate true (take b.wptr b.cells)) (replicate b.pendingp true)
        (replicate d true),
  )

  pub send_space-Alternates : (send_space d b).too_long ≡ false → Alternates (send_space d b)
  unfolding send_space
  send_space-Alternates e =
      ground (arith, v.even_pulse, v.odd_space, v.idle, length-set b.cells b.wptr b.pendingp)

  pub send_space-wave :
      0 < b.wptr + b.pendingp
      → (send_space d b).too_long ≡ false
      → wave (send_space d b) ≡ wave b ++ replicate d false
  unfolding send_space
  send_space-wave s e = ground (
    arith,
    v.even_pulse,
    v.odd_space,
    v.idle,
    replicate_none b.pendingp true,
    replicate_none b.pendings false,
    replicate-add b.pendings d false,
    alternate_write_pulse b.cells b.wptr b.pendingp,
    append-nil (alternate true (take b.wptr b.cells)),
    append-nil (alternate true (take b.wptr b.cells) ++ replicate b.pendingp true),
    append_assoc (alternate true (take b.wptr b.cells)) (replicate b.pendings false)
        (replicate d false),
  )
