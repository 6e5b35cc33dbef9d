-- ===== src/Receive/Decode/Code.antt =====
-- The fields of a code that a driver has decoded itself (`LIRC_MODE_LIRCCODE`).
use lirc_port_for_mac_os_x.Prelude.{
  ℕ, ◌+◌, ◌*◌, ◌^◌, ◌≤◌, ◌<◌, ◌≡◌, ◌∙◌, refl, ap, arith, Option, none, some, false, ◌==◌,
  if◌then◌else◌, fields_div, fields_mod, inl, inr, Bool-cases,
}
use mathlib.Core.Option
use native.Mathlib.Nat.{mod-eq_of_lt}
use lirc_port_for_mac_os_x.Word.Masks.{bit_and-gen_mask}
use lirc_port_for_mac_os_x.Remote.{Remote, Timeval}
use lirc_port_for_mac_os_x.Remote.Flags.{is_raw, bit_count}
use lirc_port_for_mac_os_x.Codes.Mapping.{Fields3, gen_ir_code, join_fields}
use lirc_port_for_mac_os_x.Codes.Mapping.Fields.{joined, cut, join_fields-eq-joined}
use lirc_port_for_mac_os_x.Codes.Dispatch.{Received}
use lirc_port_for_mac_os_x.Receive.Buffer.{Rbuf}
use lirc_port_for_mac_os_x.Receive.Decode.{
  mode_lirccode, cut_decoded, read_code, finish, receive_decode,
}

-- The fields have the widths that the remote declares.
pub record FitsFields (remote : Remote) (f : Fields3) : Type 0 where
  pub pre_fits : f.pre < 2 ^ remote.pre_data_bits
  pub code_fits : f.code < 2 ^ remote.bits
  pub post_fits : f.post < 2 ^ remote.post_data_bits
  pub all_fit : bit_count remote ≤ 64

gen_ir_code-eq-joined :
    (remote : Remote) (f : Fields3)
    → FitsFields remote f
    → is_raw remote ≡ false
    → gen_ir_code remote f.pre f.code f.post ≡ joined remote.bits remote.post_data_bits f
unfolding gen_ir_code bit_count join_fields
gen_ir_code-eq-joined remote f w r =
    let widths : remote.pre_data_bits + remote.bits + remote.post_data_bits ≤ 64 = w.all_fit in
    let (whole, _) =
      join_fields-eq-joined remote.pre_data_bits remote.bits remote.post_data_bits f widths in
    let same : cut remote.pre_data_bits remote.bits remote.post_data_bits f ≡ f =
      rw (mod-eq_of_lt w.pre_fits, mod-eq_of_lt w.code_fits, mod-eq_of_lt w.post_fits) refl in
    rw r (whole ∙ ap (joined remote.bits remote.post_data_bits) same)

cut_decoded-gen_ir_code :
    (remote : Remote) (f : Fields3)
    → FitsFields remote f
    → is_raw remote ≡ false
    → cut_decoded remote (gen_ir_code remote f.pre f.code f.post) ≡ f
unfolding cut_decoded bit_count
cut_decoded-gen_ir_code remote f w r =
    let upper = f.pre * 2 ^ remote.bits + f.code in
    let bits_bound : remote.bits ≤ 64 = omega (arith, w.all_fit) in
    let post_bound : remote.post_data_bits ≤ 64 = omega (arith, w.all_fit) in
    rw
      (
        gen_ir_code-eq-joined remote f w r,
        fields_div remote.post_data_bits upper f.post w.post_fits,
        fields_div remote.bits f.pre f.code w.code_fits,
        bit_and-gen_mask remote.bits upper bits_bound,
        bit_and-gen_mask remote.post_data_bits (upper * 2 ^ remote.post_data_bits + f.post)
            post_bound,
        fields_mod remote.bits f.pre f.code w.code_fits,
        fields_mod remote.post_data_bits upper f.post w.post_fits,
      )
      refl

module _ (resolution fuel code_length : ℕ) (current : Timeval) (last_remote : Option Remote)
    (b : Rbuf) (remote : Remote) where
  -- From a driver that delivers whole codes: if the code it delivers is the one that `gen_ir_code`
  -- makes of three fields with the widths that the remote declares, at most 64 bits in all, and
  -- the remote is not raw, then `receive_decode` reports these fields if the code has the length
  -- of the remote's signals, and rejects the code if it has another length.
  pub receive_decode-gen_ir_code :
      (f : Fields3)
      → FitsFields remote f
      → is_raw remote ≡ false
      → b.decoded ≡ gen_ir_code remote f.pre f.code f.post
      → Option.map
          (λ (r : Received). r.fields)
          (receive_decode resolution fuel mode_lirccode code_length current last_remote b remote).0
        ≡ (if code_length == bit_count remote then some f else none)
  unfolding receive_decode read_code finish
  receive_decode-gen_ir_code f w r e = elim (Bool-cases (code_length == bit_count remote)) [
    | inl same ↦
        rw (r, same, e) (ap (λ (g : Fields3). some g) (cut_decoded-gen_ir_code remote f w r))
    | inr other ↦ rw (r, other) refl
  ]
