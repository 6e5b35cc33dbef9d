-- ===== src/Config/Read/Sane.antt =====
-- The remotes of a file that is read without an error.
use lirc_port_for_mac_os_x.Prelude.{
  String, same_name, List, [], ◌∷◌, Option, none, some, Bool, true, false, ◌||◌, if◌then◌else◌, ◌≡◌,
  refl, ap, codes_of, ◌++◌,
}
use lirc_port_for_mac_os_x.Config.Numbers.{s_strtoui}
use lirc_port_for_mac_os_x.Config.Sanity.{Draft}
use lirc_port_for_mac_os_x.Config.Define.{Defined, define_remote}
use lirc_port_for_mac_os_x.Config.Sections.{
  Mode, id_none, id_remote, id_codes, id_raw_codes, id_raw_name, Child, Reader, same_mode,
}
use lirc_port_for_mac_os_x.Config.Read.{
  code_line, add_signals, defined_rem, first_word, define_rem, name_line, raw_line, line_of_mode,
  other_section, begin_line, end_line, read_line, read_lines,
}
use lirc_port_for_mac_os_x.Config.Sections.Sane.{
  IsSane, RemOk, begin_codes-IsSane, begin_raw_codes-IsSane, begin_remote-IsSane,
  close_open_signal-IsSane, either-IsSane, end_codes-IsSane, end_raw_codes-IsSane,
  end_remote-IsSane, inside-RemOk, with_error-IsSane,
}

code_line-IsSane :
    (key val : String) (more : List String) (r : Reader)
    → IsSane r
    → IsSane (code_line key val more r)
unfolding code_line IsSane
code_line-IsSane key val more r h = h

add_signals-IsSane : (words : List String) (r : Reader) → IsSane r → IsSane (add_signals words r)
unfolding add_signals IsSane
add_signals-IsSane [] r h = h
add_signals-IsSane (word ∷ words) r h =
    let c = s_strtoui (codes_of word) in
    either-IsSane c.failed _ _ h
      (add_signals-IsSane words (record r { signals = r.signals ++ (c.value ∷ []) }) h)

define_rem-IsSane :
    (key val : String) (val2 : Option String) (r : Reader) (o : Option Draft)
    → same_mode r.mode id_none ≡ false
    → IsSane r
    → IsSane (define_rem key val val2 r o)
unfolding IsSane
define_rem-IsSane key val val2 r none e h = h
define_rem-IsSane key val val2 r (some d) e h = by_result (define_remote key val val2 d) h
  where
    by_result : (t : Option Defined) → IsSane r → IsSane (defined_rem r t)
    by_result none k = k
    by_result (some t) (p, q, a) = (p, inside-RemOk r.mode (some t.draft) e, a)

raw_line-IsSane :
    (key val : String) (more : List String) (r : Reader)
    → IsSane r
    → IsSane (raw_line key val more r)
unfolding name_line IsSane RemOk
raw_line-IsSane key val more r h =
    let (p, q, a) = close_open_signal-IsSane r h in
    either-IsSane (same_name "name" key) _ _ (p, tt, a)
      (either-IsSane (same_mode r.mode id_raw_codes) _ _ h
        (add_signals-IsSane (key ∷ val ∷ more) r h))

line_of_mode-IsSane :
    (m : Mode) (key val : String) (more : List String) (r : Reader)
    → r.mode ≡ m
    → IsSane r
    → IsSane (line_of_mode m key val more r)
line_of_mode-IsSane id_none key val more r e h = h
line_of_mode-IsSane id_remote key val more r e h =
    define_rem-IsSane key val (first_word more) r r.rem (ap (λ (m : Mode). same_mode m id_none) e) h
line_of_mode-IsSane id_codes key val more r e h = code_line-IsSane key val more r h
line_of_mode-IsSane id_raw_codes key val more r e h = raw_line-IsSane key val more r h
line_of_mode-IsSane id_raw_name key val more r e h = raw_line-IsSane key val more r h

other_section-IsSane :
    (key val : String) (more : List String) (r : Reader)
    → IsSane r
    → IsSane (other_section key val more r)
other_section-IsSane key val more r h =
    either-IsSane (same_mode r.mode id_codes) _ _ (code_line-IsSane key val more r h)
      (with_error-IsSane r h)

begin_line-IsSane :
    (key val : String) (more : List String) (r : Reader)
    → IsSane r
    → IsSane (begin_line key val more r)
unfolding begin_line
begin_line-IsSane key val more r h =
    either-IsSane (same_name "codes" val) _ _ (begin_codes-IsSane r h) (
      either-IsSane (same_name "raw_codes" val) _ _ (begin_raw_codes-IsSane r h) (
        either-IsSane (same_name "remote" val) _ _ (begin_remote-IsSane r h)
          (other_section-IsSane key val more r h)))

end_line-IsSane :
    (key val : String) (more : List String) (r : Reader)
    → IsSane r
    → IsSane (end_line key val more r)
unfolding end_line
end_line-IsSane key val more r h =
    either-IsSane (same_name "codes" val) _ _ (end_codes-IsSane r h) (
      either-IsSane (same_name "raw_codes" val) _ _ (end_raw_codes-IsSane r h) (
        either-IsSane (same_name "remote" val) _ _ (end_remote-IsSane r h)
          (other_section-IsSane key val more r h)))

-- The line includes no file.
unfoldable pub IsOwn : List String → Type 0
IsOwn (key ∷ val ∷ more) = same_name "include" key ≡ false
IsOwn _ = Unit

unfoldable pub AreOwn : List (List String) → Type 0
AreOwn [] = Unit
AreOwn (line ∷ lines) = IsOwn line × AreOwn lines

either-own : (b : Bool) (x y : Reader) → b ≡ false → IsSane y → IsSane (if b then x else y)
either-own true x y e h = cc
either-own false x y e h = h

read_line-IsSane :
    (read_child : String → Child) (line : List String) (r : Reader)
    → IsOwn line
    → IsSane r
    → IsSane (read_line read_child line r)
unfolding read_line IsOwn
read_line-IsSane read_child [] r own h = h
read_line-IsSane read_child (key ∷ []) r own h =
    either-IsSane (same_mode r.mode id_raw_name) _ _ (add_signals-IsSane (key ∷ []) r h)
      (with_error-IsSane r h)
read_line-IsSane read_child (key ∷ val ∷ more) r own h =
    either-own (same_name "include" key) _ _ own (
      either-IsSane (same_name "begin" key) _ _ (begin_line-IsSane key val more r h) (
        either-IsSane (same_name "end" key) _ _ (end_line-IsSane key val more r h)
          (line_of_mode-IsSane r.mode key val more r refl h)))

pub read_lines-IsSane :
    (read_child : String → Child) (lines : List (List String)) (r : Reader)
    → AreOwn lines
    → IsSane r
    → IsSane (read_lines read_child lines r)
unfolding read_lines AreOwn
read_lines-IsSane read_child [] r own h = h
read_lines-IsSane read_child (line ∷ lines) r (o, own) h =
    let next = read_line read_child line r in
    let k = read_line-IsSane read_child line r o h in
    either-IsSane (next.parse_error || next.fault) _ _ k
      (read_lines-IsSane read_child lines next own k)
