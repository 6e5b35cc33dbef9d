-- ===== src/Remote.antt =====
-- `struct ir_remote` and `struct ir_ncode` of daemons/ir_remote_types.h, and the access to the
-- codes of a button that daemons/ir_remote.h defines inline.
-- A chain of `struct ir_code_node` is the list of its codes, and a pointer into it is the list
-- from that node on, so NULL is the empty list. A pointer to an element of the array `codes` is
-- its index. Durations are microseconds that are not negative.
pub mod Flags
pub mod Tolerance
pub mod Time
pub mod Gaps
mod Tests
use lirc_port_for_mac_os_x.Prelude.{
  ℕ, ℤ, pos, String, List, [], ◌∷◌, Option, none, some, Bool, true, false, if◌then◌else◌,
}

-- `p == NULL` for a pointer into a chain.
abbrev pub is_null {ℓ} : {A : Type ℓ} → List A → Bool
is_null [] = true
is_null (x ∷ xs) = false

-- `p->next`, which the code reads only where `p` is not NULL.
abbrev pub next_node {ℓ} : {A : Type ℓ} → List A → List A
next_node [] = []
next_node (x ∷ xs) = xs

-- `signals` is NULL but for raw codes, and `length` is the number of its entries.
pub record Ncode : Type 0 where
  pub name : String
  pub code : ℕ
  pub length : ℕ
  pub signals : Option (List ℕ)
  pub next : List ℕ
  pub current : List ℕ
  pub transmit_state : List ℕ

pub record Timeval : Type 0 where
  pub tv_sec : ℕ
  pub tv_usec : ℕ

-- `address` is where the struct lives, which is what a comparison of pointers to remotes compares.
pub record Remote : Type 0 where
  pub address : ℕ
  pub name : String
  pub codes : List Ncode
  pub bits : ℕ
  pub flags : ℕ
  pub eps : ℕ
  pub aeps : ℕ
  pub phead : ℕ
  pub shead : ℕ
  pub pthree : ℕ
  pub sthree : ℕ
  pub ptwo : ℕ
  pub stwo : ℕ
  pub pone : ℕ
  pub sone : ℕ
  pub pzero : ℕ
  pub szero : ℕ
  pub plead : ℕ
  pub ptrail : ℕ
  pub pfoot : ℕ
  pub sfoot : ℕ
  pub prepeat : ℕ
  pub srepeat : ℕ
  pub pre_data_bits : ℕ
  pub pre_data : ℕ
  pub post_data_bits : ℕ
  pub post_data : ℕ
  pub pre_p : ℕ
  pub pre_s : ℕ
  pub post_p : ℕ
  pub post_s : ℕ
  pub gap : ℕ
  pub gap2 : ℕ
  pub repeat_gap : ℕ
  pub toggle_bit : ℕ
  pub toggle_bit_mask : ℕ
  pub suppress_repeat : ℕ
  pub min_repeat : ℕ
  pub min_code_repeat : ℕ
  pub freq : ℕ
  pub duty_cycle : ℕ
  pub toggle_mask : ℕ
  pub rc6_mask : ℕ
  pub baud : ℕ
  pub bits_in_byte : ℕ
  pub parity : ℕ
  pub stop_bits : ℕ
  pub ignore_mask : ℕ
  pub toggle_bit_mask_state : ℕ
  pub toggle_mask_state : ℕ
  pub repeat_countdown : ℤ
  pub last_code : Option ℕ
  pub toggle_code : Option ℕ
  pub reps : ℕ
  pub last_send : Timeval
  pub min_remaining_gap : ℕ
  pub max_remaining_gap : ℕ
  pub min_total_signal_length : ℕ
  pub max_total_signal_length : ℕ
  pub min_gap_length : ℕ
  pub max_gap_length : ℕ
  pub min_pulse_length : ℕ
  pub max_pulse_length : ℕ
  pub min_space_length : ℕ
  pub max_space_length : ℕ
  pub release_detected : Bool

-- A remote with every field zero, as the configuration reader allocates it.
abbrev pub blank : Remote
blank = record {
  address = 0;
  name = "";
  codes = [];
  bits = 0;
  flags = 0;
  eps = 0;
  aeps = 0;
  phead = 0;
  shead = 0;
  pthree = 0;
  sthree = 0;
  ptwo = 0;
  stwo = 0;
  pone = 0;
  sone = 0;
  pzero = 0;
  szero = 0;
  plead = 0;
  ptrail = 0;
  pfoot = 0;
  sfoot = 0;
  prepeat = 0;
  srepeat = 0;
  pre_data_bits = 0;
  pre_data = 0;
  post_data_bits = 0;
  post_data = 0;
  pre_p = 0;
  pre_s = 0;
  post_p = 0;
  post_s = 0;
  gap = 0;
  gap2 = 0;
  repeat_gap = 0;
  toggle_bit = 0;
  toggle_bit_mask = 0;
  suppress_repeat = 0;
  min_repeat = 0;
  min_code_repeat = 0;
  freq = 0;
  duty_cycle = 0;
  toggle_mask = 0;
  rc6_mask = 0;
  baud = 0;
  bits_in_byte = 0;
  parity = 0;
  stop_bits = 0;
  ignore_mask = 0;
  toggle_bit_mask_state = 0;
  toggle_mask_state = 0;
  repeat_countdown = pos 0;
  last_code = none;
  toggle_code = none;
  reps = 0;
  last_send = record { tv_sec = 0; tv_usec = 0 };
  min_remaining_gap = 0;
  max_remaining_gap = 0;
  min_total_signal_length = 0;
  max_total_signal_length = 0;
  min_gap_length = 0;
  max_gap_length = 0;
  min_pulse_length = 0;
  max_pulse_length = 0;
  min_space_length = 0;
  max_space_length = 0;
  release_detected = false;
}

-- The node NULL stands for the code of the button itself.
unfoldable pub get_ir_code : Ncode → List ℕ → ℕ
get_ir_code ncode [] = ncode.code
get_ir_code ncode (code ∷ rest) = if is_null ncode.next then ncode.code else code

unfoldable pub get_next_ir_code_node : Ncode → List ℕ → List ℕ
get_next_ir_code_node ncode [] = ncode.next
get_next_ir_code_node ncode (code ∷ rest) = rest
