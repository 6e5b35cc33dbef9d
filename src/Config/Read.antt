-- ===== src/Config/Read.antt =====
-- The lines of a configuration file: the loop of `read_config_recursive`, `defineCode`,
-- `defineNode` and `addSignal` of daemons/config_file.c. A line is the list of its words, which is
-- empty for an empty line and a comment. What an included file gives is a parameter.
mod Tests
pub mod Sane
pub mod Fits
use lirc_port_for_mac_os_x.Prelude.{
  ℕ, ◌+◌, ◌%◌, String, codes_of, same_name, List, [], ◌∷◌, ◌++◌, length, Option, none, some, Bool,
  true, false, ◌&&◌, ◌||◌, not, ◌==◌, if◌then◌else◌,
}
use lirc_port_for_mac_os_x.Remote.{Remote, Ncode, blank}
use lirc_port_for_mac_os_x.Remote.Flags.{raw_codes, set_protocol}
use lirc_port_for_mac_os_x.Transmit.Buffer.{SendBuffer}
use lirc_port_for_mac_os_x.Config.Numbers.{Checked, accept, s_strtocode, s_strtoui}
use lirc_port_for_mac_os_x.Config.Sanity.{
  Draft, Sanity, sane, no_name, undefined_codes, sanity_checks,
}
use lirc_port_for_mac_os_x.Config.Define.{Defined, define_remote}
use lirc_port_for_mac_os_x.Config.Finish.{finish_config}
use lirc_port_for_mac_os_x.Config.Sections.{
  Child, Mode, Reader, begin_codes, begin_raw_codes, begin_remote, child_error, child_missing,
  child_remotes, child_undefined, close_open_signal, end_codes, end_raw_codes, end_remote, id_codes,
  id_none, id_raw_codes, id_raw_name, id_remote, no_code, push_rem, same_mode, with_error,
}

-- The further codes of a button, up to a comment or a bad one.
abbrev pub is_comment : List ℕ → Bool
is_comment [] = false
is_comment (c ∷ cs) = c == 35

unfoldable pub read_nodes : List String → Checked (List ℕ)
read_nodes [] = accept []
read_nodes (word ∷ words) =
    let c = s_strtocode (codes_of word) in
    let rest = read_nodes words in
    if is_comment (codes_of word)
    then accept []
    else if c.failed
    then record { value = c.value ∷ []; failed = true }
    else record { value = c.value ∷ rest.value; failed = rest.failed }

-- `defineCode` and the loop of `defineNode`.
unfoldable pub code_line : String → String → List String → Reader → Reader
unfolding read_nodes
code_line key val more r =
    let c = s_strtocode (codes_of val) in
    let nodes = if c.failed then record { value = []; failed = true } else read_nodes more in
    record r {
      codes_list =
          r.codes_list ++ (record no_code { name = key; code = c.value; next = nodes.value } ∷ []);
      parse_error = r.parse_error || nodes.failed;
    }

-- `addSignal` for each of the words, up to a bad one.
unfoldable pub add_signals : List String → Reader → Reader
add_signals [] r = r
add_signals (word ∷ words) r =
    let c = s_strtoui (codes_of word) in
    let rest = add_signals words (record r { signals = r.signals ++ (c.value ∷ []) }) in
    if c.failed then with_error r else rest

abbrev pub defined_rem : Reader → Option Defined → Reader
defined_rem r none = record r { fault = true }
defined_rem r (some t) = record r { rem = some t.draft; parse_error = r.parse_error || t.failed }

abbrev pub first_word : List String → Option String
first_word [] = none
first_word (word ∷ words) = some word

abbrev pub define_rem : String → String → Option String → Reader → Option Draft → Reader
define_rem key val val2 r none = record r { fault = true }
define_rem key val val2 r (some d) = defined_rem r (define_remote key val val2 d)

unfoldable pub name_line : String → Reader → Reader
name_line val r =
    let closed = close_open_signal r in
    record closed {
      raw_code = record closed.raw_code { name = val; code = closed.raw_code.code + 1 };
      signals = [];
      mode = id_raw_name;
    }

abbrev pub raw_line : String → String → List String → Reader → Reader
raw_line key val more r =
    if same_name "name" key
    then name_line val r
    else if same_mode r.mode id_raw_codes
    then with_error r
    else add_signals (key ∷ val ∷ more) r

abbrev pub line_of_mode : Mode → String → String → List String → Reader → Reader
line_of_mode id_none key val more r = r
line_of_mode id_remote key val more r = define_rem key val (first_word more) r r.rem
line_of_mode id_codes key val more r = code_line key val more r
line_of_mode id_raw_codes key val more r = raw_line key val more r
line_of_mode id_raw_name key val more r = raw_line key val more r

-- A button may have the name of a directive.
abbrev pub other_section : String → String → List String → Reader → Reader
other_section key val more r =
    if same_mode r.mode id_codes then code_line key val more r else with_error r

unfoldable pub begin_line : String → String → List String → Reader → Reader
begin_line key val more r =
    if same_name "codes" val
    then begin_codes r
    else if same_name "raw_codes" val
    then begin_raw_codes r
    else if same_name "remote" val
    then begin_remote r
    else other_section key val more r

unfoldable pub end_line : String → String → List String → Reader → Reader
end_line key val more r =
    if same_name "codes" val
    then end_codes r
    else if same_name "raw_codes" val
    then end_raw_codes r
    else if same_name "remote" val
    then end_remote r
    else other_section key val more r

-- The remotes of an included file go behind `rem`, which then is the first of them.
unfoldable pub include_line : Child → Reader → Reader
include_line child_error r = with_error r
include_line child_missing r = r
include_line child_undefined r = record r { fault = true }
include_line (child_remotes []) r = record r { after = [] }
include_line (child_remotes (first ∷ rest)) r = record r {
  passed = push_rem r.rem r.passed;
  rem = some (record { has_name = true; has_codes = true; remote = first });
  after = rest;
}

unfoldable pub read_line : (String → Child) → List String → Reader → Reader
read_line read_child [] r = r
read_line read_child (key ∷ []) r =
    if same_mode r.mode id_raw_name then add_signals (key ∷ []) r else with_error r
read_line read_child (key ∷ val ∷ more) r =
    if same_name "include" key
    then include_line (read_child val) r
    else if same_name "begin" key
    then begin_line key val more r
    else if same_name "end" key
    then end_line key val more r
    else line_of_mode r.mode key val more r

-- The loop ends at an error.
unfoldable pub read_lines : (String → Child) → List (List String) → Reader → Reader
unfolding read_line
read_lines read_child [] r = r
read_lines read_child (line ∷ lines) r =
    let next = read_line read_child line r in
    let rest = read_lines read_child lines next in
    if next.parse_error || next.fault then next else rest

abbrev pub new_reader : Reader
new_reader = record {
  mode = id_none;
  passed = [];
  rem = none;
  after = [];
  codes_list = [];
  raw_list = [];
  raw_code = no_code;
  signals = [];
  parse_error = false;
  fault = false;
}

abbrev pub put_back : List Remote → List Remote → List Remote
put_back [] rest = rest
put_back (remote ∷ passed) rest = put_back passed (remote ∷ rest)

abbrev pub chain_of : Reader → List Remote
chain_of r = put_back (push_rem r.rem r.passed) r.after

-- The remotes, `(void *)-1`, or nothing defined.
pub data Reading : Type 0 where
  read : List Remote → Reading
  failure : Reading
  undefined_reading : Reading

-- A file that ends within a section is refused.
unfoldable pub finish_reading : Reader → SendBuffer → Reading
finish_reading r b =
    if r.fault
    then undefined_reading
    else if not (same_mode r.mode id_none) || r.parse_error
    then failure
    else read (finish_config (chain_of r) b).0

unfoldable pub read_config : (String → Child) → List (List String) → SendBuffer → Reading
unfolding read_lines finish_reading
read_config read_child lines b = finish_reading (read_lines read_child lines new_reader) b
