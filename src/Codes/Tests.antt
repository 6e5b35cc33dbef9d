-- ===== src/Codes/Tests.antt =====
-- Two remotes with buttons, and the theorems on codes at them.
use lirc_port_for_mac_os_x.Prelude.{
  ℕ, pos, ◌+◌, ◌-◌, ◌≤◌, ◌≡◌, ◌⊎◌, refl, arith, [], ◌∷◌, Option, none, some, false, if◌then◌else◌,
  length,
}
use lirc_port_for_mac_os_x.Word.{gen_mask}
use lirc_port_for_mac_os_x.Remote.{Remote, Ncode, Timeval, blank, get_ir_code}
use lirc_port_for_mac_os_x.Remote.Flags.{
  is_raw, is_const, bit_count, has_toggle_mask, has_toggle_bit_mask, has_ignore_mask, has_pre,
  has_post,
}
use lirc_port_for_mac_os_x.Remote.Gaps.{min_gap, max_gap}
use lirc_port_for_mac_os_x.Remote.Time.{time_elapsed}
use lirc_port_for_mac_os_x.Codes.Lookup.{get_frequency_range, get_filter_parameters}
use lirc_port_for_mac_os_x.Codes.Lookup.Ranges.{
  All, InBand, Covers, Overshoots, get_frequency_range-InBand, get_filter_parameters-Covers,
}
use lirc_port_for_mac_os_x.Codes.Mapping.{
  Fields3, gen_ir_code, map_code, map_gap, split_fields, join_fields,
}
use lirc_port_for_mac_os_x.Codes.Mapping.Fields.{joined, cut, WithinWidths, map_code-joined}
use lirc_port_for_mac_os_x.Codes.Mapping.Gap.{map_gap-range}
use lirc_port_for_mac_os_x.Codes.Match.{
  get_code, match_ir_code, code_at, untoggle, bad_pre_data, bad_post_data, lookup_code, scan_loop,
  pair_toggle, pre_mask, post_mask,
}
use lirc_port_for_mac_os_x.Codes.Match.Around.{PreAgree, PostAgree}
use lirc_port_for_mac_os_x.Codes.Match.First.{FirstReceived, get_code-first}
use lirc_port_for_mac_os_x.Codes.Decode.{Memory, compose_code, set_code, write_message}
use lirc_port_for_mac_os_x.Codes.Decode.Reps.{hold, hold-reps}
use lirc_port_for_mac_os_x.Codes.Decode.Compose.{compose_code-eq-gen_ir_code}
use lirc_port_for_mac_os_x.Codes.Dispatch.{Received, World, decode_all}
use lirc_port_for_mac_os_x.Codes.Dispatch.Registered.{Consistent, decode_all-Consistent}
use lirc_port_for_mac_os_x.Release.{Release}

abbrev button : ℕ → Ncode
button code = record {
  name = "OK";
  code = code;
  length = 0;
  signals = none;
  next = [];
  current = [];
  transmit_state = [];
}

abbrev tv : Remote
tv = record blank {
  address = 1;
  name = "TV";
  codes = button 0x12 ∷ button 0x34 ∷ button 0x34 ∷ [];
  bits = 8;
  pre_data_bits = 8;
  pre_data = 0xab;
  eps = 30;
  aeps = 100;
  freq = 38000;
  gap = 40000;
  flags = 0x4000;
  min_pulse_length = 500;
  max_pulse_length = 9000;
  min_space_length = 500;
  max_space_length = 4500;
}

abbrev radio : Remote
radio = record tv { address = 2; name = "Radio"; freq = 36000; flags = 0; min_space_length = 800 }

abbrev received : Fields3
received = record { pre = 0xab; code = 0x34; post = 0 }

-- The second of the buttons of the television, and the first with this code.
found_second : (get_code tv received).ncode ≡ some 1
unfolding get_code untoggle bad_pre_data bad_post_data lookup_code scan_loop pair_toggle
    match_ir_code code_at gen_ir_code get_ir_code has_pre has_post has_toggle_mask
    has_toggle_bit_mask has_ignore_mask pre_mask post_mask gen_mask is_raw
found_second = refl

message_text : write_message "TV" "OK" "" 0xab34 (pos 2) ≡ "000000000000ab34 02 OK TV\n"
unfolding write_message
message_text = refl

get_frequency_range-InBand_example :
    All (InBand (get_frequency_range (tv ∷ radio ∷ []))) (tv ∷ radio ∷ [])
get_frequency_range-InBand_example = get_frequency_range-InBand (tv ∷ radio ∷ [])

get_filter_parameters-Covers_example :
    let f = get_filter_parameters 10 (tv ∷ radio ∷ []) in
    All (λ r. Covers 10 f r × Overshoots 10 f r) (tv ∷ radio ∷ [])
get_filter_parameters-Covers_example = get_filter_parameters-Covers 10 (tv ∷ radio ∷ [])

-- Sixteen bits as four and twelve.
abbrev incoming : Fields3
incoming = record { pre = 0xa; code = 0xb34; post = 0 }

abbrev mapped : Fields3
mapped = record { pre = 0xab; code = 0x34; post = 0 }

map_code-joined_example :
    (joined 8 0 mapped ≡ joined 12 0 (cut 4 12 0 incoming)) × WithinWidths tv mapped
unfolding map_code split_fields join_fields bit_count gen_mask
map_code-joined_example = map_code-joined tv 4 12 0 incoming mapped (omega arith) refl

abbrev earlier : Timeval
earlier = record { tv_sec = 5; tv_usec = 0 }

abbrev later : Timeval
later = record { tv_sec = 5; tv_usec = 100000 }

map_gap-range_example :
    let g = map_gap 10 tv later earlier 30000 in
    let used : ℕ = if is_const tv then 30000 else 0 in
    (g.min_remaining_gap ≤ g.max_remaining_gap)
    × (g.min_remaining_gap ≡ min_gap tv - used)
    × (g.max_remaining_gap ≡ max_gap tv - used)
map_gap-range_example = map_gap-range 10 tv later earlier 30000

-- The lowest digits of the data before the code and of the code are ignored, and two are toggled.
abbrev masked : Remote
masked = record tv { ignore_mask = 0x0101; toggle_bit_mask = 0x0880 }

-- Both toggled digits are inverted, and both ignored ones differ.
abbrev toggled : Fields3
toggled = record { pre = 0xa2; code = 0xb5; post = 0 }

found_toggled : (get_code masked toggled).ncode ≡ some 1
unfolding get_code untoggle bad_pre_data bad_post_data lookup_code scan_loop pair_toggle
    match_ir_code code_at gen_ir_code get_ir_code has_pre has_post has_toggle_mask
    has_toggle_bit_mask has_ignore_mask pre_mask post_mask gen_mask is_raw
found_toggled = refl

get_code-first_example :
    ((get_code masked toggled).remote ≡ masked)
    × (((¬ (PreAgree masked toggled × PostAgree masked toggled))
          × ((get_code masked toggled).ncode ≡ none))
        ⊎ ((PreAgree masked toggled × PostAgree masked toggled)
            × FirstReceived masked
                (gen_ir_code masked 0xa2 0xb5 0)
                0
                masked.codes
                (get_code masked toggled).ncode))
unfolding has_toggle_mask
get_code-first_example =
    get_code-first masked toggled ((refl, refl), ((refl, refl), ((refl, refl), tt))) refl
      (omega arith)

abbrev no_memory : Memory
no_memory = record { last_decoded = none; last_remote = none }

abbrev third : Timeval
third = record { tv_sec = 5; tv_usec = 200000 }

hold-reps_example :
    (hold 1
      (button 0x34)
      0
      0
      0
      (set_code no_memory tv 1 (button 0x34) 0 false 0 0 earlier)
      (later ∷ third ∷ [])).remote.reps
    ≡ length (later ∷ third ∷ [])
unfolding time_elapsed
hold-reps_example =
    hold-reps 1 (button 0x34) 0 0 0 no_memory tv earlier (later ∷ third ∷ []) refl refl refl refl
      (omega arith, (omega arith, tt))

compose_code-eq-gen_ir_code_example : compose_code radio 0x34 ≡ gen_ir_code radio 0xab 0x34 0
unfolding bit_count is_raw
compose_code-eq-gen_ir_code_example =
    compose_code-eq-gen_ir_code radio 0x34
      (record {
        pre_fits = omega arith;
        code_fits = omega arith;
        post_fits = omega arith;
        all_fit = omega arith;
      })
      refl refl

-- A driver that always has the code of the second button.
abbrev driver : ℕ → Remote → Option Received × Remote × ℕ
driver n remote = (
  some (record {
    fields = received;
    repeat_flag = false;
    min_remaining_gap = 0;
    max_remaining_gap = 0;
  }),
  remote,
  n + 1,
)

abbrev idle : Release
idle = record {
  release_time = earlier;
  release_remote = none;
  release_reps = pos 0;
  release_gap = 0;
  release_remote2 = none;
  release_suffix = "_UP";
}

abbrev world : World ℕ
world = record { memory = no_memory; release = idle; driver = 0 }

decode_all-Consistent_example :
    Consistent ℕ driver 10 idle (decode_all ℕ driver 10 earlier later world (radio ∷ tv ∷ []))
decode_all-Consistent_example =
    decode_all-Consistent ℕ driver 10 earlier later world (radio ∷ tv ∷ [])
