-- ===== src/Config/FlagNames.antt =====
-- `all_flags` of daemons/config_file.h and `parseFlags` of daemons/config_file.c.
pub mod Protocol
use lirc_port_for_mac_os_x.Prelude.{
  ℕ, String, codes_of, same_folded, List, [], ◌∷◌, Option, none, some, Bool, true, false, ◌&&◌,
  bit_and, bit_or, ◌==◌, if◌then◌else◌,
}
use lirc_port_for_mac_os_x.Word.{is_set}
use lirc_port_for_mac_os_x.Remote.Flags.{
  ir_protocol_mask, raw_codes, rc5, rc6, rcmm, space_enc, space_first, goldstar, grundig, bo,
  serial, xmp, reverse_flag, no_head_rep, no_foot_rep, const_length, repeat_header,
}
use lirc_port_for_mac_os_x.Config.Numbers.{Checked, accept, fail}

-- `SHIFT_ENC` is an obsolete name of `RC5`.
abbrev pub all_flags : List (String × ℕ)
all_flags =
    ("RAW_CODES", raw_codes)
    ∷ ("RC5", rc5)
    ∷ ("SHIFT_ENC", rc5)
    ∷ ("RC6", rc6)
    ∷ ("RCMM", rcmm)
    ∷ ("SPACE_ENC", space_enc)
    ∷ ("SPACE_FIRST", space_first)
    ∷ ("GOLDSTAR", goldstar)
    ∷ ("GRUNDIG", grundig)
    ∷ ("BO", bo)
    ∷ ("SERIAL", serial)
    ∷ ("XMP", xmp)
    ∷ ("REVERSE", reverse_flag)
    ∷ ("NO_HEAD_REP", no_head_rep)
    ∷ ("NO_FOOT_REP", no_foot_rep)
    ∷ ("CONST_LENGTH", const_length)
    ∷ ("REPEAT_HEADER", repeat_header)
    ∷ []

-- The search of the table for a name, without regard to case.
unfoldable pub find_flag : List (String × ℕ) → List ℕ → Option ℕ
find_flag [] flag = none
find_flag ((name, value) ∷ rest) flag =
    let later = find_flag rest flag in
    if same_folded (codes_of name) flag then some value else later

abbrev pub push_first : ℕ → List (List ℕ) → List (List ℕ)
push_first c [] = (c ∷ []) ∷ []
push_first c (flag ∷ rest) = (c ∷ flag) ∷ rest

-- The names between the bars.
unfoldable pub split_flags : List ℕ → List (List ℕ)
split_flags [] = [] ∷ []
split_flags (c ∷ cs) =
    let rest = split_flags cs in if c == 124 then [] ∷ rest else push_first c rest

-- A flag that is not known, or a second protocol, ends the function with `parse_error`.
unfoldable pub parse_flags_loop : List (List ℕ) → ℕ → Checked ℕ
unfolding find_flag
parse_flags_loop [] flags = accept flags
parse_flags_loop (flag ∷ rest) flags = elim (find_flag all_flags flag) [
  | none ↦ fail 0
  | some value ↦
      let later = parse_flags_loop rest (bit_or flags value) in
      if is_set (bit_and value ir_protocol_mask) && is_set (bit_and flags ir_protocol_mask)
      then fail 0
      else later
]

unfoldable pub parse_flags : List ℕ → Checked ℕ
unfolding split_flags parse_flags_loop
parse_flags val = parse_flags_loop (split_flags val) 0
