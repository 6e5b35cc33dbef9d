-- ===== src/Config/Read/Tests.antt =====
-- Small files, read by the sections.
use lirc_port_for_mac_os_x.Prelude.{get_elem?, false, arith}
use lirc_port_for_mac_os_x.Prelude.{
  String, List, [], ◌∷◌, Option, some, none, ℕ, length, ◌≡◌, refl, same_name,
}
use lirc_port_for_mac_os_x.Transmit.Buffer.{init_send_buffer}
use lirc_port_for_mac_os_x.Remote.{Remote, blank}
use lirc_port_for_mac_os_x.Remote.Flags.{
  is_raw, bit_count, is_serial, has_toggle_bit_mask, is_grundig, is_const, is_goldstar, is_bo,
}
use lirc_port_for_mac_os_x.Config.Sanity.Fits.{Fits}
use lirc_port_for_mac_os_x.Config.Lengths.{calculate_signal_lengths}
use lirc_port_for_mac_os_x.Transmit.Send.{init_sim, cannot_send}
use lirc_port_for_mac_os_x.Config.Sort.{sort_by_bit_count, sort_loop, place}
use lirc_port_for_mac_os_x.Config.FlagNames.{parse_flags}
use lirc_port_for_mac_os_x.Config.Numbers.{
  digit_value, s_strtoi, s_strtolirc_t, s_strtou32, s_strtocode,
}
use lirc_port_for_mac_os_x.Config.Define.{define_remote}
use lirc_port_for_mac_os_x.Config.Sanity.{sanity_checks}
use lirc_port_for_mac_os_x.Config.Finish.{finish_config, derive}
use lirc_port_for_mac_os_x.Config.Sections.{
  Child, child_missing, begin_remote, begin_codes, end_codes, end_remote,
}
use lirc_port_for_mac_os_x.Config.Read.{
  failure, Reading, read, undefined_reading, begin_line, end_line, code_line, read_config,
}
use lirc_port_for_mac_os_x.Config.Read.Sane.{AreOwn, IsOwn}
use lirc_port_for_mac_os_x.Config.Read.Fits.{read_config-Fits}

abbrev no_files : String → Child
no_files name = child_missing

-- A remote of 8 bits, with one button whose code has 9.
abbrev small_file : List (List String)
small_file =
    ("begin" ∷ "remote" ∷ [])
    ∷ ("name" ∷ "small" ∷ [])
    ∷ ("bits" ∷ "8" ∷ [])
    ∷ ("flags" ∷ "SERIAL" ∷ [])
    ∷ ("one" ∷ "560" ∷ "1690" ∷ [])
    ∷ ("zero" ∷ "560" ∷ "560" ∷ [])
    ∷ ("gap" ∷ "40000" ∷ [])
    ∷ ("begin" ∷ "codes" ∷ [])
    ∷ ("KEY_POWER" ∷ "0x1ff" ∷ [])
    ∷ ("end" ∷ "codes" ∷ [])
    ∷ ("end" ∷ "remote" ∷ [])
    ∷ []

small_file-AreOwn : AreOwn small_file
unfolding AreOwn IsOwn same_name
small_file-AreOwn =
    (refl, (refl, (refl, (refl, (refl, (refl, (refl, (refl, (refl, (refl, (refl, tt)))))))))))

-- A file that ends within a remote is refused.
unfinished : read_config no_files (("begin" ∷ "remote" ∷ []) ∷ []) init_send_buffer ≡ failure
unfolding read_config same_name begin_line begin_remote
unfinished = refl

no_section : read_config no_files (("end" ∷ "remote" ∷ []) ∷ []) init_send_buffer ≡ failure
unfolding read_config same_name end_line end_remote
no_section = refl

abbrev number_read : Reading → Option ℕ
number_read (read remotes) = some (length remotes)
number_read failure = none
number_read undefined_reading = none

small_file_reads : number_read (read_config no_files small_file init_send_buffer) ≡ some 1
unfolding read_config same_name begin_line begin_remote begin_codes end_line end_codes end_remote
    code_line define_remote finish_config sanity_checks s_strtoi digit_value parse_flags
    s_strtolirc_t s_strtou32 s_strtocode is_raw sort_by_bit_count sort_loop place
small_file_reads = refl

abbrev remotes_read : Reading → List Remote
remotes_read (read remotes) = remotes
remotes_read failure = []
remotes_read undefined_reading = []

abbrev reading : Reading
reading = read_config no_files small_file init_send_buffer

-- What is read of the small file, and its one remote.
reads_itself : (t : Reading) → number_read t ≡ some 1 → t ≡ read (remotes_read t)
reads_itself (read remotes) e = refl
reads_itself failure e = cc
reads_itself undefined_reading e = cc

abbrev first_remote : List Remote → Remote
first_remote [] = blank
first_remote (r ∷ rs) = r

one_of :
    (t : Reading)
    → number_read t ≡ some 1
    → get_elem? (remotes_read t) 0 ≡ some (first_remote (remotes_read t))
one_of (read []) e = grind arith
one_of (read (r ∷ rs)) e = refl
one_of failure e = cc
one_of undefined_reading e = cc

small_bits : bit_count (first_remote (remotes_read reading)) ≡ 8
unfolding read_config same_name begin_line begin_remote begin_codes end_line end_codes end_remote
    code_line define_remote finish_config sanity_checks s_strtoi digit_value parse_flags
    s_strtolirc_t s_strtou32 s_strtocode is_raw sort_by_bit_count sort_loop place derive
    calculate_signal_lengths init_sim bit_count is_serial has_toggle_bit_mask cannot_send is_grundig
    is_const is_goldstar is_bo
small_bits = refl

small_raw : is_raw (first_remote (remotes_read reading)) ≡ false
unfolding read_config same_name begin_line begin_remote begin_codes end_line end_codes end_remote
    code_line define_remote finish_config sanity_checks s_strtoi digit_value parse_flags
    s_strtolirc_t s_strtou32 s_strtocode is_raw sort_by_bit_count sort_loop place derive
    calculate_signal_lengths init_sim is_serial has_toggle_bit_mask cannot_send is_grundig is_const
    is_goldstar is_bo
small_raw = refl

read_config-Fits_example : Fits (first_remote (remotes_read reading))
read_config-Fits_example =
    read_config-Fits no_files small_file init_send_buffer (remotes_read reading) 0
      (first_remote (remotes_read reading)) small_file-AreOwn
      (reads_itself reading small_file_reads) (one_of reading small_file_reads)
      (omega (arith, small_bits)) small_raw
