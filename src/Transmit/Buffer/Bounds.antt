-- ===== src/Transmit/Buffer/Bounds.antt =====
-- The send buffer stays within its array.
use lirc_port_for_mac_os_x.Prelude.{ℕ, ◌≤◌, ◌≡◌, arith, length, length-set, length-replicate}
use lirc_port_for_mac_os_x.Transmit.Buffer.{
  SendBuffer, wbuf_size, init_send_buffer, add_send_buffer, send_pulse, send_space,
}

pub record Fits (b : SendBuffer) : Type 0 where
  pub room : length b.cells ≡ wbuf_size
  pub inside : b.wptr ≤ wbuf_size

pub init_send_buffer-Fits : Fits init_send_buffer
unfolding init_send_buffer
init_send_buffer-Fits = omega (arith, length-replicate {A = ℕ} wbuf_size 0)

pub add_send_buffer-Fits : (d : ℕ) (b : SendBuffer) → Fits b → Fits (add_send_buffer d b)
unfolding add_send_buffer
add_send_buffer-Fits d b v = ground (arith, length-set b.cells b.wptr d)

pub send_pulse-Fits : (d : ℕ) (b : SendBuffer) → Fits b → Fits (send_pulse d b)
unfolding send_pulse
send_pulse-Fits d b v = ground (arith, length-set b.cells b.wptr b.pendings)

pub send_space-Fits : (d : ℕ) (b : SendBuffer) → Fits b → Fits (send_space d b)
unfolding send_space
send_space-Fits d b v = ground (arith, length-set b.cells b.wptr b.pendingp)
