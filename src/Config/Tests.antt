-- ===== src/Config/Tests.antt =====
-- The steps of the reader on concrete remotes.
use lirc_port_for_mac_os_x.Prelude.{
  ℕ, codes_of, bit_and, [], ◌∷◌, none, some, true, false, ◌≡◌, refl, arith,
}
use lirc_port_for_mac_os_x.Word.{gen_mask}
use lirc_port_for_mac_os_x.Remote.{Remote, Ncode, blank}
use lirc_port_for_mac_os_x.Remote.Flags.{bit_count, is_raw, ir_protocol_mask}
use lirc_port_for_mac_os_x.Transmit.Buffer.{init_send_buffer}
use lirc_port_for_mac_os_x.Transmit.Send.{init_sim}
use lirc_port_for_mac_os_x.Codes.Mapping.{gen_ir_code}
use lirc_port_for_mac_os_x.Codes.Decode.{compose_code}
use lirc_port_for_mac_os_x.Config.Sort.{sort_by_bit_count}
use lirc_port_for_mac_os_x.Config.Sort.Order.{IsSorted, of_count, sort_by_bit_count-sorts}
use lirc_port_for_mac_os_x.Config.Lengths.Simulated.{EndsWith, init_sim-EndsWith}
use lirc_port_for_mac_os_x.Config.Numbers.{accept, s_strtocode}
use lirc_port_for_mac_os_x.Config.Numbers.Hex.{print_code, s_strtocode-print_code}
use lirc_port_for_mac_os_x.Config.FlagNames.{parse_flags}
use lirc_port_for_mac_os_x.Config.FlagNames.Protocol.{is_one_protocol, parse_flags-single}
use lirc_port_for_mac_os_x.Config.Define.{define_remote}
use lirc_port_for_mac_os_x.Config.Define.Reports.{Reports, define_remote-Reports}
use lirc_port_for_mac_os_x.Config.Sanity.{Draft, sane, sanity_checks, cut_remote, cut_code}
use lirc_port_for_mac_os_x.Config.Sanity.Agree.{checked-compose_code}
use lirc_port_for_mac_os_x.Config.Sanity.Fits.{Fits}
use lirc_port_for_mac_os_x.Config.Finish.{derive, finish_config}
use lirc_port_for_mac_os_x.Config.Finish.Fits.{checked-derive-Fits}
use lirc_port_for_mac_os_x.Config.Finish.All.{AllFinished, finish_config-AllFinished}

abbrev power : Ncode
power = record {
  name = "KEY_POWER";
  code = 0x1ff;
  length = 0;
  signals = none;
  next = [];
  current = [];
  transmit_state = [];
}

-- A remote of 8 bits, whose button has a code of 9.
abbrev wide : Draft
wide = record {
  has_name = true;
  has_codes = true;
  remote = record blank {
    name = "wide";
    codes = power ∷ [];
    bits = 8;
    flags = 0x810;
    pre_data_bits = 4;
    pre_data = 5;
    pone = 560;
    sone = 1690;
    pzero = 560;
    szero = 560;
    ptrail = 560;
    gap = 40000;
    toggle_bit = 3;
    min_code_repeat = 2;
  };
}

abbrev cut_power : Ncode
cut_power = record power { code = 0xff }

abbrev narrowed : Draft
narrowed = record wide { remote = record wide.remote { codes = cut_power ∷ [] } }

wide_is_cut : sanity_checks wide ≡ sane narrowed
unfolding sanity_checks cut_remote cut_code is_raw gen_mask
wide_is_cut = refl

abbrev port : Remote
port = record blank { name = "port"; bits = 4; flags = 0x200; baud = 1200; gap = 20000 }

finish_config-AllFinished_example :
    IsSorted (finish_config (wide.remote ∷ port ∷ []) init_send_buffer).0
    × AllFinished (finish_config (wide.remote ∷ port ∷ []) init_send_buffer).0
finish_config-AllFinished_example =
    finish_config-AllFinished (wide.remote ∷ port ∷ []) init_send_buffer

checked-compose_code_example :
    compose_code narrowed.remote 0xff ≡ gen_ir_code narrowed.remote 5 0xff 0
unfolding bit_count is_raw
checked-compose_code_example =
    checked-compose_code wide narrowed 0 cut_power (omega arith) refl refl wide_is_cut refl

checked-derive-Fits_example : Fits (derive narrowed.remote)
unfolding bit_count is_raw
checked-derive-Fits_example = checked-derive-Fits wide narrowed (omega arith) refl wide_is_cut

sort_by_bit_count-sorts_example :
    IsSorted (sort_by_bit_count (wide.remote ∷ port ∷ []))
    × ((k : ℕ)
        → of_count k (sort_by_bit_count (wide.remote ∷ port ∷ []))
          ≡ of_count k (wide.remote ∷ port ∷ []))
sort_by_bit_count-sorts_example = sort_by_bit_count-sorts (wide.remote ∷ port ∷ [])

define_remote-Reports_example : Reports 2 (define_remote "header" "9000" (some "4500") wide)
define_remote-Reports_example = define_remote-Reports "header" "9000" (some "4500") wide

parse_flags-single_example :
    is_one_protocol (bit_and (parse_flags (codes_of "RC5|REVERSE|RC6")).value ir_protocol_mask)
    ≡ true
parse_flags-single_example = parse_flags-single (codes_of "RC5|REVERSE|RC6")

s_strtocode-print_code_example : s_strtocode (print_code 4 0x1FE) ≡ accept 0x1FE
s_strtocode-print_code_example = s_strtocode-print_code 3 0x1FE (omega arith) (omega arith)

init_sim-EndsWith_example :
    EndsWith wide.remote (init_sim 1 true wide.remote power init_send_buffer false)
init_sim-EndsWith_example = init_sim-EndsWith wide.remote power init_send_buffer false
