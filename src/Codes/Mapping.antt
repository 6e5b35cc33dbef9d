-- ===== src/Codes/Mapping.antt =====
-- `gen_ir_code` of daemons/ir_remote.h, and `map_code` and `map_gap` of daemons/ir_remote.c.
pub mod Fields
pub mod Gap
use lirc_port_for_mac_os_x.Prelude.{
  ℕ, ◌+◌, ◌-◌, bit_and, bit_or, Option, none, some, Bool, true, false, ltb, leb, ◌==◌,
  if◌then◌else◌,
}
use lirc_port_for_mac_os_x.Word.{shl, shr, gen_mask}
use lirc_port_for_mac_os_x.Remote.{Remote, Timeval}
use lirc_port_for_mac_os_x.Remote.Flags.{is_raw, is_const, bit_count}
use lirc_port_for_mac_os_x.Remote.Gaps.{min_gap, max_gap}
use lirc_port_for_mac_os_x.Remote.Tolerance.{expect_at_most}
use lirc_port_for_mac_os_x.Remote.Time.{time_elapsed}

unfoldable pub gen_ir_code : Remote → ℕ → ℕ → ℕ → ℕ
gen_ir_code remote pre code post =
    let high = shl (bit_and pre (gen_mask remote.pre_data_bits)) remote.bits in
    let middle =
      bit_or high (if is_raw remote then code else bit_and code (gen_mask remote.bits)) in
    bit_or (shl middle remote.post_data_bits) (bit_and post (gen_mask remote.post_data_bits))

-- The three fields of a code.
pub record Fields3 : Type 0 where
  pub pre : ℕ
  pub code : ℕ
  pub post : ℕ

unfoldable pub join_fields : ℕ → ℕ → ℕ → Fields3 → ℕ
join_fields pre_bits bits post_bits f =
    bit_or
      (shl (bit_or (shl (bit_and f.pre (gen_mask pre_bits)) bits) (bit_and f.code (gen_mask bits)))
        post_bits)
      (bit_and f.post (gen_mask post_bits))

unfoldable pub split_fields : Remote → ℕ → Fields3
split_fields remote all = record {
  pre = bit_and (shr (shr all remote.post_data_bits) remote.bits) (gen_mask remote.pre_data_bits);
  code = bit_and (shr all remote.post_data_bits) (gen_mask remote.bits);
  post = bit_and all (gen_mask remote.post_data_bits);
}

-- `none` is the result 0, which leaves `*prep`, `*codep` and `*postp` alone.
unfoldable pub map_code : Remote → ℕ → ℕ → ℕ → Fields3 → Option Fields3
unfolding join_fields split_fields
map_code remote pre_bits bits post_bits f =
    if pre_bits + bits + post_bits == bit_count remote
    then some (split_fields remote (join_fields pre_bits bits post_bits f))
    else none

-- What `map_gap` writes through its pointers.
pub record GapInfo : Type 0 where
  pub repeat_flag : Bool
  pub min_remaining_gap : ℕ
  pub max_remaining_gap : ℕ

-- `start` is not before `last`, so the difference of the seconds is not negative.
unfoldable pub repeats_within : ℕ → Remote → Timeval → Timeval → Bool
repeats_within resolution remote start last =
    if leb 2 (start.tv_sec - last.tv_sec)
    then false
    else expect_at_most resolution remote (time_elapsed last start) remote.max_remaining_gap

unfoldable pub map_gap : ℕ → Remote → Timeval → Timeval → ℕ → GapInfo
unfolding repeats_within
map_gap resolution remote start last signal_length =
    let repeated = repeats_within resolution remote start last in
    if is_const remote
    then if ltb signal_length (min_gap remote)
      then record {
        repeat_flag = repeated;
        min_remaining_gap = min_gap remote - signal_length;
        max_remaining_gap = max_gap remote - signal_length;
      }
      else record {
        repeat_flag = repeated;
        min_remaining_gap = 0;
        max_remaining_gap =
            if ltb signal_length (max_gap remote) then max_gap remote - signal_length else 0;
      }
    else record {
      repeat_flag = repeated;
      min_remaining_gap = min_gap remote;
      max_remaining_gap = max_gap remote;
    }
