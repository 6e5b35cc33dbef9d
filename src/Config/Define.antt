-- ===== src/Config/Define.antt =====
-- `defineRemote` of daemons/config_file.c: the keys of a remote. The keys of one value and those of
-- two are tables, in the order in which the code compares them. The fields of the model hold no
-- number below 0, so that nothing stands for a remote with one.
pub mod Reports
use lirc_port_for_mac_os_x.Prelude.{
  ℕ, ℤ, pos, negsuc, ◌-◌, ◌*◌, ◌%◌, ◌^◌, String, codes_of, same_name, List, [], ◌∷◌, Option, none,
  some, Bool, true, false, ◌&&◌, ◌||◌, bit_or, leb, ltb, ◌==◌, if◌then◌else◌, lower,
}
use lirc_port_for_mac_os_x.Remote.{Remote}
use lirc_port_for_mac_os_x.Receive.Serial.{parity_none, parity_even, parity_odd}
use lirc_port_for_mac_os_x.Config.Numbers.{
  Checked, accept, fail, s_strtocode, s_strtou32, s_strtoi, s_strtoui, s_strtolirc_t,
}
use lirc_port_for_mac_os_x.Config.FlagNames.{parse_flags}
use lirc_port_for_mac_os_x.Config.Sanity.{Draft}

-- The remote, the number of values that the key took, and whether `parse_error` was set.
pub record Defined : Type 0 where
  pub draft : Draft
  pub argc : ℕ
  pub failed : Bool

-- A field of the remote, by the function that reads its value, and how it is set.
pub data Setting : Type 0 where
  int_field : (Remote → ℕ → Remote) → Setting
  code_field : (Remote → ℕ → Remote) → Setting
  u32_field : (Remote → ℕ → Remote) → Setting
  uint_field : (Remote → ℕ → Remote) → Setting
  lirc_field : (Remote → ℕ → Remote) → Setting

abbrev pub with_remote : Draft → Remote → Draft
with_remote d remote = record d { remote = remote }

abbrev pub store : Draft → ℕ → (Remote → ℕ → Remote) → Checked ℕ → Option Defined
store d argc set_field c =
    some (record {
      draft = with_remote d (set_field d.remote c.value);
      argc = argc;
      failed = c.failed;
    })

abbrev pub store_signed : Draft → ℕ → (Remote → ℕ → Remote) → Checked ℤ → Option Defined
store_signed d argc set_field c = elim c.value [
  | pos n ↦ store d argc set_field (record { value = n; failed = c.failed })
  | negsuc n ↦ none
]

unfoldable pub define_single : Setting → String → Draft → Option Defined
define_single (int_field set_field) val d = store_signed d 1 set_field (s_strtoi (codes_of val))
define_single (code_field set_field) val d = store d 1 set_field (s_strtocode (codes_of val))
define_single (u32_field set_field) val d = store d 1 set_field (s_strtou32 (codes_of val))
define_single (uint_field set_field) val d = store d 1 set_field (s_strtoui (codes_of val))
define_single (lirc_field set_field) val d =
    store_signed d 1 set_field (s_strtolirc_t (codes_of val))

-- `repeat_bit` is an obsolete name of `toggle_bit`.
abbrev pub single_keys : List (String × Setting)
single_keys =
    ("bits", int_field (λ rem n. record rem { bits = n }))
    ∷ ("eps", int_field (λ rem n. record rem { eps = n }))
    ∷ ("aeps", int_field (λ rem n. record rem { aeps = n }))
    ∷ ("plead", lirc_field (λ rem n. record rem { plead = n }))
    ∷ ("ptrail", lirc_field (λ rem n. record rem { ptrail = n }))
    ∷ ("pre_data_bits", int_field (λ rem n. record rem { pre_data_bits = n }))
    ∷ ("pre_data", code_field (λ rem n. record rem { pre_data = n }))
    ∷ ("post_data_bits", int_field (λ rem n. record rem { post_data_bits = n }))
    ∷ ("post_data", code_field (λ rem n. record rem { post_data = n }))
    ∷ ("repeat_gap", u32_field (λ rem n. record rem { repeat_gap = n }))
    ∷ ("toggle_bit", int_field (λ rem n. record rem { toggle_bit = n }))
    ∷ ("toggle_bit_mask", code_field (λ rem n. record rem { toggle_bit_mask = n }))
    ∷ ("toggle_mask", code_field (λ rem n. record rem { toggle_mask = n }))
    ∷ ("rc6_mask", code_field (λ rem n. record rem { rc6_mask = n }))
    ∷ ("ignore_mask", code_field (λ rem n. record rem { ignore_mask = n }))
    ∷ ("repeat_bit", int_field (λ rem n. record rem { toggle_bit = n }))
    ∷ ("suppress_repeat", int_field (λ rem n. record rem { suppress_repeat = n }))
    ∷ ("min_repeat", int_field (λ rem n. record rem { min_repeat = n }))
    ∷ ("min_code_repeat", int_field (λ rem n. record rem { min_code_repeat = n }))
    ∷ ("frequency", uint_field (λ rem n. record rem { freq = n }))
    ∷ ("duty_cycle", uint_field (λ rem n. record rem { duty_cycle = n }))
    ∷ ("baud", uint_field (λ rem n. record rem { baud = n }))
    ∷ []

abbrev pub pair_keys : List (String × (Remote → ℕ → ℕ → Remote))
pair_keys =
    ("header", λ rem n m. record rem { phead = n; shead = m })
    ∷ ("three", λ rem n m. record rem { pthree = n; sthree = m })
    ∷ ("two", λ rem n m. record rem { ptwo = n; stwo = m })
    ∷ ("one", λ rem n m. record rem { pone = n; sone = m })
    ∷ ("zero", λ rem n m. record rem { pzero = n; szero = m })
    ∷ ("foot", λ rem n m. record rem { pfoot = n; sfoot = m })
    ∷ ("repeat", λ rem n m. record rem { prepeat = n; srepeat = m })
    ∷ ("pre", λ rem n m. record rem { pre_p = n; pre_s = m })
    ∷ ("post", λ rem n m. record rem { post_p = n; post_s = m })
    ∷ []

unfoldable pub find_key {ℓ} : {A : Type ℓ} → List (String × A) → String → Option A
find_key [] key = none
find_key ((name, a) ∷ rest) key =
    let later = find_key rest key in if same_name name key then some a else later

-- An unknown key, or a key of two values with one.
abbrev pub unknown : Draft → Option Defined
unknown d = some (record { draft = d; argc = 0; failed = true })

unfoldable pub define_pair :
    (Remote → ℕ → ℕ → Remote) → Checked ℤ → Checked ℤ → Draft → Option Defined
define_pair set_fields c c2 d = elim c.value [
  | pos n ↦ elim c2.value [
    | pos m ↦ some (record {
      draft = with_remote d (set_fields d.remote n m);
      argc = 2;
      failed = c.failed || c2.failed;
    })
    | negsuc m ↦ none
  ]
  | negsuc n ↦ none
]

abbrev pub set_gap : Remote → ℕ → Remote
set_gap rem n = record rem { gap = n }

abbrev pub add_flags : Remote → ℕ → Remote
add_flags rem n = record rem { flags = bit_or rem.flags n }

abbrev pub set_stop_bits : Remote → ℕ → Remote
set_stop_bits rem n = record rem { stop_bits = n }

unfoldable pub define_gap : String → Option String → Draft → Option Defined
define_gap val none d = store d 1 set_gap (s_strtou32 (codes_of val))
define_gap val (some val2) d =
    let c2 = s_strtou32 (codes_of val2) in
    let c = s_strtou32 (codes_of val) in
    some (record {
      draft = with_remote d (record d.remote { gap2 = c2.value; gap = c.value });
      argc = 2;
      failed = c2.failed || c.failed;
    })

-- `toupper(c)`, compared with a capital letter.
abbrev pub is_letter : ℕ → ℕ → Bool
is_letter letter c = lower c == lower letter

-- The characters of a text, with the 0 that ends it.
abbrev pub first_char : List ℕ → ℕ
first_char [] = 0
first_char (c ∷ cs) = c

abbrev pub other_chars : List ℕ → List ℕ
other_chars [] = []
other_chars (c ∷ cs) = cs

unfoldable pub same_text : List ℕ → List ℕ → Bool
same_text [] [] = true
same_text [] (y ∷ ys) = false
same_text (x ∷ xs) [] = false
same_text (x ∷ xs) (y ∷ ys) = x == y && same_text xs ys

abbrev pub parity_of : ℕ → Option ℕ
parity_of c =
    if is_letter 78 c
    then some parity_none
    else if is_letter 69 c
    then some parity_even
    else if is_letter 79 c
    then some parity_odd
    else none

abbrev pub stop_bits_of : List ℕ → Checked ℕ
stop_bits_of cs =
    let c = s_strtoui cs in
    if same_text cs (codes_of "1.5")
    then accept 3
    else record { value = c.value * 2 % 2 ^ 32; failed = c.failed }

-- A serial mode such as `8N1`: the bits in a byte, the parity and the stop bits.
unfoldable pub define_serial_mode : List ℕ → Draft → Option Defined
unfolding same_text
define_serial_mode val d =
    let bits = first_char val in
    let with_bits = record d.remote { bits_in_byte = bits - 48 } in
    if ltb bits 53 || ltb 57 bits
    then unknown d
    else elim (parity_of (first_char (other_chars val))) [
      | none ↦ unknown (with_remote d with_bits)
      | some parity ↦
          store (with_remote d (record with_bits { parity = parity })) 1 set_stop_bits
            (stop_bits_of (other_chars (other_chars val)))
    ]

-- What is left once the key is none of one value.
unfoldable pub define_two : String → String → Option String → Draft → Option Defined
unfolding find_key define_pair
define_two key val none d = unknown d
define_two key val (some val2) d = elim (find_key pair_keys key) [
  | none ↦ unknown d
  | some set_fields ↦
      define_pair set_fields (s_strtolirc_t (codes_of val)) (s_strtolirc_t (codes_of val2)) d
]

unfoldable pub define_remote : String → String → Option String → Draft → Option Defined
unfolding find_key define_single define_gap define_serial_mode define_two
define_remote key val val2 d =
    let flags = parse_flags (codes_of val) in
    if same_name "name" key
    then some (record {
      draft = record d { has_name = true; remote = record d.remote { name = val } };
      argc = 1;
      failed = false;
    })
    else if same_name "flags" key
    then store d 1 add_flags flags
    else if same_name "gap" key
    then define_gap val val2 d
    else if same_name "serial_mode" key
    then define_serial_mode (codes_of val) d
    else elim (find_key single_keys key) [
      | some setting ↦ define_single setting val d
      | none ↦ define_two key val val2 d
    ]
