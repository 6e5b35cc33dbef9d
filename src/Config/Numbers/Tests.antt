-- ===== src/Config/Numbers/Tests.antt =====
-- The numbers on concrete texts.
use lirc_port_for_mac_os_x.Prelude.{negsuc, codes_of, ◌≡◌, refl}
use lirc_port_for_mac_os_x.Config.Numbers.{
  accept, fail, digit_value, s_strtocode, s_strtou32, s_strtoi, s_strtolirc_t,
}

code_of_hex : s_strtocode (codes_of "0x20DF10EF") ≡ accept 0x20DF10EF
unfolding s_strtocode digit_value
code_of_hex = refl

code_of_nothing : s_strtocode (codes_of "") ≡ fail 0
unfolding s_strtocode digit_value
code_of_nothing = refl

code_with_garbage : s_strtocode (codes_of "12z") ≡ fail 0
unfolding s_strtocode digit_value
code_with_garbage = refl

code_too_long : s_strtocode (codes_of "0x10000000000000000") ≡ fail 0
unfolding s_strtocode digit_value
code_too_long = refl

octal : s_strtou32 (codes_of "017") ≡ accept 15
unfolding s_strtou32 digit_value
octal = refl

bare_x : s_strtou32 (codes_of "0x") ≡ fail 0
unfolding s_strtou32 digit_value
bare_x = refl

-- A number of more than 32 bits is cut without an error.
too_wide : s_strtou32 (codes_of "4294967296") ≡ accept 0
unfolding s_strtou32 digit_value
too_wide = refl

below_zero : s_strtoi (codes_of "-5") ≡ accept (negsuc 4)
unfolding s_strtoi digit_value
below_zero = refl

negative_duration : s_strtolirc_t (codes_of "-1") ≡ accept (negsuc 0)
unfolding s_strtolirc_t digit_value
negative_duration = refl
