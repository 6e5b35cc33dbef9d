-- ===== src/Config/Define/Reports.antt =====
-- What `defineRemote` returns and sets.
use lirc_port_for_mac_os_x.Prelude.{
  ℕ, ◌-◌, ℤ, pos, negsuc, ◌≤◌, String, codes_of, same_name, List, Option, none, some, Bool, true,
  false, ◌||◌, ltb, if◌then◌else◌, ◌≡◌, refl, arith,
}
use lirc_port_for_mac_os_x.Remote.{Remote}
use lirc_port_for_mac_os_x.Config.Numbers.{Checked, s_strtolirc_t}
use lirc_port_for_mac_os_x.Config.FlagNames.{parse_flags}
use lirc_port_for_mac_os_x.Config.Sanity.{Draft}
use lirc_port_for_mac_os_x.Config.Define.{
  Defined, Setting, int_field, code_field, u32_field, uint_field, lirc_field, with_remote, store,
  store_signed, define_single, single_keys, pair_keys, find_key, unknown, define_pair, define_gap,
  first_char, other_chars, parity_of, stop_bits_of, add_flags, set_stop_bits, define_serial_mode,
  define_two, define_remote,
}

-- How many values follow the key.
abbrev pub values_of : Option String → ℕ
values_of none = 1
values_of (some val2) = 2

-- No more values were taken than there are, and to take none is an error.
unfoldable pub Reports : ℕ → Option Defined → Type 0
Reports n none = Unit
Reports n (some r) = (r.argc ≤ n) × (r.argc ≡ 0 → r.failed ≡ true)

either-Reports :
    (n : ℕ) (b : Bool) (x y : Option Defined)
    → Reports n x
    → Reports n y
    → Reports n (if b then x else y)
either-Reports n true x y h k = h
either-Reports n false x y h k = k

one-le : (val2 : Option String) → 1 ≤ values_of val2
one-le none = omega arith
one-le (some val2) = omega arith

taken-Reports :
    (n : ℕ) (d : Draft) (failed : Bool)
    → 1 ≤ n
    → Reports n (some (record { draft = d; argc = 1; failed = failed }))
unfolding Reports
taken-Reports n d failed h = (h, λ e. cc)

store-Reports :
    (n : ℕ) (d : Draft) (set_field : Remote → ℕ → Remote) (c : Checked ℕ)
    → 1 ≤ n
    → Reports n (store d 1 set_field c)
store-Reports n d set_field c h =
    taken-Reports n (with_remote d (set_field d.remote c.value)) c.failed h

store_signed-Reports :
    (n : ℕ) (d : Draft) (set_field : Remote → ℕ → Remote) (z : ℤ) (failed : Bool)
    → 1 ≤ n
    → Reports n (store_signed d 1 set_field (record { value = z; failed = failed }))
unfolding Reports
store_signed-Reports n d set_field (pos m) failed h = (h, λ e. cc)
store_signed-Reports n d set_field (negsuc m) failed h = tt

define_single-Reports :
    (n : ℕ) (setting : Setting) (val : String) (d : Draft)
    → 1 ≤ n
    → Reports n (define_single setting val d)
unfolding define_single
define_single-Reports n (int_field f) val d h = store_signed-Reports n d f _ _ h
define_single-Reports n (code_field f) val d h = store-Reports n d f _ h
define_single-Reports n (u32_field f) val d h = store-Reports n d f _ h
define_single-Reports n (uint_field f) val d h = store-Reports n d f _ h
define_single-Reports n (lirc_field f) val d h = store_signed-Reports n d f _ _ h

unknown-Reports : (n : ℕ) (d : Draft) → Reports n (unknown d)
unfolding Reports
unknown-Reports n d = (omega arith, λ e. refl)

define_gap-Reports :
    (val : String) (val2 : Option String) (d : Draft)
    → Reports (values_of val2) (define_gap val val2 d)
unfolding define_gap Reports
define_gap-Reports val none d = (omega arith, λ e. cc)
define_gap-Reports val (some val2) d = (omega arith, λ e. cc)

define_serial_mode-Reports :
    (n : ℕ) (val : List ℕ) (d : Draft) → 1 ≤ n → Reports n (define_serial_mode val d)
unfolding define_serial_mode
define_serial_mode-Reports n val d h =
    either-Reports n (ltb bits 53 || ltb 57 bits) _ _ (unknown-Reports n d)
      (by_parity (parity_of (first_char (other_chars val))))
  where
    bits : ℕ
    bits = first_char val

    with_bits : Remote
    with_bits = record d.remote { bits_in_byte = bits - 48 }

    by_parity :
        (o : Option ℕ)
        → Reports n (elim o [
          | none ↦ unknown (with_remote d with_bits)
          | some parity ↦
              store
                (with_remote d (record with_bits { parity = parity }))
                1
                set_stop_bits
                (stop_bits_of (other_chars (other_chars val)))
        ])
    by_parity none = unknown-Reports n (with_remote d with_bits)
    by_parity (some parity) =
        store-Reports n (with_remote d (record with_bits { parity = parity })) set_stop_bits
          (stop_bits_of (other_chars (other_chars val))) h

define_pair-Reports :
    (f : Remote → ℕ → ℕ → Remote) (x y : ℤ) (b c : Bool) (d : Draft)
    → Reports 2
        (define_pair f (record { value = x; failed = b }) (record { value = y; failed = c }) d)
unfolding define_pair Reports
define_pair-Reports f (pos n) (pos m) b c d = (omega arith, λ e. cc)
define_pair-Reports f (pos n) (negsuc m) b c d = tt
define_pair-Reports f (negsuc n) y b c d = tt

define_two-Reports :
    (key val : String) (val2 : Option String) (d : Draft)
    → Reports (values_of val2) (define_two key val val2 d)
unfolding define_two
define_two-Reports key val none d = unknown-Reports 1 d
define_two-Reports key val (some val2) d = by_key (find_key pair_keys key)
  where
    by_key :
        (o : Option (Remote → ℕ → ℕ → Remote))
        → Reports 2 (elim o [
          | none ↦ unknown d
          | some f ↦ define_pair f (s_strtolirc_t (codes_of val)) (s_strtolirc_t (codes_of val2)) d
        ])
    by_key none = unknown-Reports 2 d
    by_key (some f) =
        let c = s_strtolirc_t (codes_of val) in
        let c2 = s_strtolirc_t (codes_of val2) in
        define_pair-Reports f c.value c2.value c.failed c2.failed d

-- Whatever key and values a line has, defineRemote takes at most the values that are there, and
-- where it takes none it has set parse_error.
pub define_remote-Reports :
    (key val : String) (val2 : Option String) (d : Draft)
    → Reports (values_of val2) (define_remote key val val2 d)
unfolding define_remote
define_remote-Reports key val val2 d =
    either-Reports n (same_name "name" key) _ _ (taken-Reports n _ false h) (
      either-Reports n (same_name "flags" key) _ _
        (store-Reports n d add_flags (parse_flags (codes_of val)) h)
        (either-Reports n (same_name "gap" key) _ _ (define_gap-Reports val val2 d) (
          either-Reports n (same_name "serial_mode" key) _ _
            (define_serial_mode-Reports n (codes_of val) d h) (by_key (find_key single_keys key)))))
  where
    n : ℕ
    n = values_of val2

    h : 1 ≤ n
    h = one-le val2

    by_key :
        (o : Option Setting)
        → Reports n (elim o [
          | some setting ↦ define_single setting val d
          | none ↦ define_two key val val2 d
        ])
    by_key (some setting) = define_single-Reports n setting val d h
    by_key none = define_two-Reports key val val2 d
