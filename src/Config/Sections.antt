-- ===== src/Config/Sections.antt =====
-- The sections of a configuration file: the state of `read_config_recursive`, `checkMode` and the
-- lines that begin and end a section, of daemons/config_file.c. `fault` stands for undefined
-- behaviour. Memory does not run out.
pub mod Sane
use lirc_port_for_mac_os_x.Prelude.{
  ℕ, ◌+◌, ◌%◌, String, codes_of, same_name, List, [], ◌∷◌, ◌++◌, length, Option, none, some, Bool,
  true, false, ◌&&◌, ◌||◌, not, ◌==◌, if◌then◌else◌,
}
use lirc_port_for_mac_os_x.Remote.{Remote, Ncode, blank}
use lirc_port_for_mac_os_x.Remote.Flags.{raw_codes, set_protocol}
use lirc_port_for_mac_os_x.Transmit.Buffer.{SendBuffer}
use lirc_port_for_mac_os_x.Config.Numbers.{Checked, accept, s_strtocode, s_strtoui}
use lirc_port_for_mac_os_x.Config.Sanity.{
  Draft, Sanity, sane, no_name, undefined_codes, sanity_checks,
}
use lirc_port_for_mac_os_x.Config.Define.{Defined, define_remote}
use lirc_port_for_mac_os_x.Config.Finish.{finish_config}

-- `enum directive`.
pub data Mode : Type 0 where
  id_none : Mode
  id_remote : Mode
  id_codes : Mode
  id_raw_codes : Mode
  id_raw_name : Mode

-- What comes of an included file: an error, no file, nothing defined, or the chain of its remotes.
pub data Child : Type 0 where
  child_error : Child
  child_missing : Child
  child_undefined : Child
  child_remotes : List Remote → Child

-- The locals of the function. The chain that starts at `top_rem` is `passed`, the last first, then
-- `rem` and what follows it. `fault` is set where the code reads through a NULL pointer, or where a
-- field gets a number below 0, which the model does not have.
pub record Reader : Type 0 where
  pub mode : Mode
  pub passed : List Remote
  pub rem : Option Draft
  pub after : List Remote
  pub codes_list : List Ncode
  pub raw_list : List Ncode
  pub raw_code : Ncode
  pub signals : List ℕ
  pub parse_error : Bool
  pub fault : Bool

abbrev pub same_mode : Mode → Mode → Bool
same_mode id_none id_none = true
same_mode id_remote id_remote = true
same_mode id_codes id_codes = true
same_mode id_raw_codes id_raw_codes = true
same_mode id_raw_name id_raw_name = true
same_mode _ _ = false

abbrev pub with_error : Reader → Reader
with_error r = record r { parse_error = true }

-- `checkMode`, and what is done where it holds.
abbrev pub check_mode : Reader → Mode → Reader → Reader
check_mode r mode next = if same_mode r.mode mode then next else with_error r

abbrev pub no_code : Ncode
no_code = record {
  name = "";
  code = 0;
  length = 0;
  signals = none;
  next = [];
  current = [];
  transmit_state = [];
}

-- The address of a new remote is left at 0.
abbrev pub new_draft : Draft
new_draft = record { has_name = false; has_codes = false; remote = blank }

abbrev pub push_rem : Option Draft → List Remote → List Remote
push_rem none passed = passed
push_rem (some d) passed = d.remote ∷ passed

abbrev pub codes_defined : Option Draft → Bool
codes_defined none = false
codes_defined (some d) = d.has_codes

abbrev pub set_codes : List Ncode → Option Draft → Option Draft
set_codes codes none = none
set_codes codes (some d) =
    some (record d { has_codes = true; remote = record d.remote { codes = codes } })

abbrev pub set_raw : Option Draft → Option Draft
set_raw none = none
set_raw (some d) = some (record d { remote = set_protocol d.remote raw_codes })

unfoldable pub begin_codes : Reader → Reader
begin_codes r =
    check_mode r id_remote
      (if codes_defined r.rem then with_error r else record r { codes_list = []; mode = id_codes })

unfoldable pub begin_raw_codes : Reader → Reader
begin_raw_codes r = check_mode r id_remote (
    if codes_defined r.rem then with_error r else record r {
      rem = set_raw r.rem;
      raw_code = record r.raw_code { code = 0 };
      raw_list = [];
      mode = id_raw_codes;
    })

-- What followed the last remote is lost.
unfoldable pub begin_remote : Reader → Reader
begin_remote r = check_mode r id_none (record r {
  mode = id_remote;
  passed = push_rem r.rem r.passed;
  rem = some new_draft;
  after = [];
})

unfoldable pub end_codes : Reader → Reader
end_codes r =
    check_mode r id_codes (record r { rem = set_codes r.codes_list r.rem; mode = id_remote })

-- The signals of a button are complete: their number is odd.
abbrev pub close_signal : Reader → Reader
close_signal r = record r {
  raw_list =
      r.raw_list
      ++ (record r.raw_code { signals = some r.signals; length = length r.signals } ∷ []);
  parse_error = r.parse_error || length r.signals % 2 == 0;
  mode = id_raw_codes;
}

abbrev pub close_open_signal : Reader → Reader
close_open_signal r = if same_mode r.mode id_raw_name then close_signal r else r

unfoldable pub end_raw_codes : Reader → Reader
end_raw_codes r =
    let closed = close_open_signal r in
    check_mode closed id_raw_codes
      (record closed { rem = set_codes closed.raw_list closed.rem; mode = id_remote })

abbrev pub after_checks : Reader → Sanity → Reader
after_checks r (sane d) = record r {
  rem = some (record d { remote = record d.remote { last_code = none } });
  after = [];
  mode = id_none;
}
after_checks r no_name = with_error r
after_checks r undefined_codes = record r { fault = true }

abbrev pub check_rem : Reader → Option Draft → Reader
check_rem r none = record r { fault = true }
check_rem r (some d) = after_checks r (sanity_checks d)

unfoldable pub end_remote : Reader → Reader
end_remote r = check_mode r id_remote (check_rem r r.rem)
