-- ===== src/Codes/Match.antt =====
-- `match_ir_code` and `get_code` of daemons/ir_remote.c: which button of a remote a received code
-- is. Two pointers into the chain of a button are the same node where the lists from there on
-- have the same length. The build does not define DYNCODES.
pub mod Agree
pub mod Free
pub mod Around
pub mod Plain
pub mod First
use lirc_port_for_mac_os_x.Prelude.{
  ℕ, zero, suc, ◌+◌, ◌/◌, ◌%◌, bit_and, bit_or, bit_xor, List, [], ◌∷◌, Option, none, some, Bool,
  true, false, not, ◌&&◌, ◌||◌, length, ◌==◌, if◌then◌else◌,
}
use lirc_port_for_mac_os_x.Word.{shl, shr, gen_mask, is_set}
use lirc_port_for_mac_os_x.Remote.{
  Remote, Ncode, is_null, next_node, get_ir_code, get_next_ir_code_node,
}
use lirc_port_for_mac_os_x.Remote.Flags.{
  has_toggle_bit_mask, has_ignore_mask, has_toggle_mask, has_pre, has_post, bit_count,
}
use lirc_port_for_mac_os_x.Codes.Mapping.{Fields3, gen_ir_code}

unfoldable pub match_ir_code : Remote → ℕ → ℕ → Bool
match_ir_code remote a b =
    bit_or remote.ignore_mask a == bit_or remote.ignore_mask b
    || bit_or remote.ignore_mask a == bit_or remote.ignore_mask (bit_xor b remote.toggle_bit_mask)

-- The parts of a mask that lie over the data before and after the code.
unfoldable pub pre_mask : Remote → ℕ
pre_mask remote =
    let toggle =
      if has_toggle_bit_mask remote
      then shr remote.toggle_bit_mask (remote.bits + remote.post_data_bits)
      else 0 in
    if has_ignore_mask remote
    then bit_or toggle (shr remote.ignore_mask (remote.bits + remote.post_data_bits))
    else toggle

unfoldable pub post_mask : Remote → ℕ
post_mask remote =
    let toggle =
      if has_toggle_bit_mask remote
      then bit_and remote.toggle_bit_mask (gen_mask remote.post_data_bits)
      else 0 in
    if has_ignore_mask remote
    then bit_or toggle (bit_and remote.ignore_mask (gen_mask remote.post_data_bits))
    else toggle

-- The part of the received data that `affected` points to.
pub data Affected : Type 0 where
  post : Affected
  code : Affected
  pre : Affected

abbrev pub flip : Affected → ℕ → Fields3 → Fields3
flip post mask f = record f { post = bit_xor f.post mask }
flip code mask f = record f { code = bit_xor f.code mask }
flip pre mask f = record f { pre = bit_xor f.pre mask }

-- `left` rounds of the loop over `bit`.
unfoldable pub toggle_loop : Remote → ℕ → ℕ → ℕ → Affected → ℕ → Fields3 → Fields3
toggle_loop remote zero bit current_bit affected mask f = f
toggle_loop remote (suc left) bit current_bit affected mask f =
    let at_code = bit == remote.post_data_bits in
    let at_pre = bit == remote.post_data_bits + remote.bits in
    let here = if at_pre then pre else if at_code then code else affected in
    let place = if at_pre || at_code then 0 else current_bit in
    toggle_loop remote left (bit + 1) (place + 1) here (shr mask 1)
      (flip here (shl (bit_and mask 1) place) f)

unfoldable pub untoggle : Remote → Fields3 → Fields3
unfolding toggle_loop
untoggle remote f =
    if has_toggle_mask remote && is_set (remote.toggle_mask_state % 2)
    then toggle_loop remote (bit_count remote) 0 0 post remote.toggle_mask f
    else f

unfoldable pub bad_pre_data : Remote → Fields3 → Bool
unfolding pre_mask
bad_pre_data remote f =
    has_pre remote
    && not (bit_or f.pre (pre_mask remote) == bit_or remote.pre_data (pre_mask remote))

unfoldable pub bad_post_data : Remote → Fields3 → Bool
unfolding post_mask
bad_post_data remote f =
    has_post remote
    && not (bit_or f.post (post_mask remote) == bit_or remote.post_data (post_mask remote))

-- `next_all` for the code at a node of the button.
unfoldable pub code_at : Remote → Ncode → List ℕ → ℕ
code_at remote codes node =
    gen_ir_code remote remote.pre_data (get_ir_code codes node) remote.post_data

-- The loop that compares the codes from `prev` on with those from `next` to `current`; `none` is
-- `flag == 0`. `next` comes to `current` before its end, since that is a node after it.
unfoldable pub walk : Ncode → List ℕ → List ℕ → Option (List ℕ)
walk codes prev [] = some prev
walk codes prev (x ∷ rest) =
    let after = walk codes (get_next_ir_code_node codes prev) rest in
    if length (x ∷ rest) == length codes.current
    then some prev
    else if not (get_ir_code codes prev == get_ir_code codes (x ∷ rest))
    then none
    else after

-- The node after a sequence that ends at `prev`, if the code at `prev` is the one received.
unfoldable pub resume : Remote → ℕ → Ncode → Option (List ℕ) → Option (List ℕ)
unfolding code_at match_ir_code
resume remote all codes none = none
resume remote all codes (some prev) =
    if match_ir_code remote (code_at remote codes prev) all
    then some (get_next_ir_code_node codes prev)
    else none

abbrev pub or_else {ℓ} : {A : Type ℓ} → Option A → Option A → Option A
or_else none y = y
or_else (some x) y = some x

-- The search for the longest matching sequence; `some` is the new `codes->current` where
-- `sequence_match` is set.
unfoldable pub search_loop : Remote → ℕ → Ncode → List ℕ → Option (List ℕ)
unfolding walk resume
search_loop remote all codes [] = none
search_loop remote all codes (x ∷ rest) =
    let later = search_loop remote all codes rest in
    if length (x ∷ rest) == length (next_node codes.current)
    then none
    else or_else (resume remote all codes (walk codes [] (x ∷ rest))) later

-- `found` is an index into `codes`.
pub record Scan : Type 0 where
  pub found : Option ℕ
  pub found_code : Bool
  pub have_code : Bool

-- `codes->current` after the code at it was received.
unfoldable pub step_current : Ncode → List ℕ
step_current codes =
    if is_null codes.next
    then codes.current
    else if is_null codes.current
    then codes.next
    else next_node codes.current

unfoldable pub scan_matched : ℕ → Ncode → Scan → Ncode × Scan
unfolding step_current
scan_matched i codes s = (
  record codes { current = step_current codes },
  record {
    found = if s.have_code then s.found else some i;
    found_code = true;
    have_code = s.have_code || is_null (step_current codes);
  },
)

unfoldable pub scan_searched : ℕ → Ncode → Scan → Option (List ℕ) → Ncode × Scan
scan_searched i codes s none = (record codes { current = [] }, s)
scan_searched i codes s (some current) = (
  record codes { current = current },
  record s { found = if s.have_code then s.found else some i; found_code = true },
)

unfoldable pub scan_step : Remote → ℕ → ℕ → Ncode → Scan → Ncode × Scan
unfolding match_ir_code code_at scan_matched scan_searched search_loop
scan_step remote all i codes s =
    if match_ir_code remote (code_at remote codes codes.current) all
    then scan_matched i codes s
    else if is_null codes.next || is_null codes.current
    then scan_searched i codes s none
    else scan_searched i codes s (search_loop remote all codes codes.next)

unfoldable pub scan_loop : Remote → ℕ → ℕ → List Ncode → Scan → List Ncode × Scan
unfolding scan_step
scan_loop remote all i [] s = ([], s)
scan_loop remote all i (codes ∷ rest) s =
    let (codes', s') = scan_step remote all i codes s in
    let (rest', final) = scan_loop remote all (i + 1) rest s' in (codes' ∷ rest', final)

abbrev pub same_code : Option ℕ → Option ℕ → Bool
same_code none none = true
same_code none (some j) = false
same_code (some i) none = false
same_code (some i) (some j) = i == j

-- What `get_code` returns and writes: `toggle_bit_mask_state` is `none` where it writes nothing.
pub record Found : Type 0 where
  pub remote : Remote
  pub ncode : Option ℕ
  pub toggle_bit_mask_state : Option ℕ

unfoldable pub pair_toggle : Remote → Scan → ℕ → Found
pair_toggle remote s state =
    if s.found_code && not (same_code s.found none) && has_toggle_mask remote
    then if not (is_set (remote.toggle_mask_state % 2))
      then record {
        remote = record remote { toggle_code = s.found };
        ncode = s.found;
        toggle_bit_mask_state = some state;
      }
      else if not (same_code s.found remote.toggle_code)
      then record {
        remote = record remote { toggle_code = none };
        ncode = none;
        toggle_bit_mask_state = none;
      }
      else record {
        remote = record remote { toggle_code = none };
        ncode = s.found;
        toggle_bit_mask_state = some state;
      }
    else record { remote = remote; ncode = s.found; toggle_bit_mask_state = some state }

abbrev pub nothing_found : Scan
nothing_found = record { found = none; found_code = false; have_code = false }

unfoldable pub lookup_code : Remote → Fields3 → Found
unfolding scan_loop pair_toggle
lookup_code remote f =
    let all = gen_ir_code remote f.pre f.code f.post in
    let (codes, s) = scan_loop remote all 0 remote.codes nothing_found in
    pair_toggle (record remote { codes = codes }) s (bit_and all remote.toggle_bit_mask)

unfoldable pub get_code : Remote → Fields3 → Found
unfolding untoggle bad_pre_data bad_post_data lookup_code
get_code remote received =
    let f = untoggle remote received in
    if bad_pre_data remote f || bad_post_data remote f
    then record { remote = remote; ncode = none; toggle_bit_mask_state = none }
    else lookup_code remote f
