-- ===== src/Config/Include/Tests.antt =====
-- Included files by name.
use lirc_port_for_mac_os_x.Prelude.{
  ℕ, String, codes_of, List, [], ◌∷◌, length, Option, some, none, ◌<◌, ◌≡◌, refl, arith,
}
use lirc_port_for_mac_os_x.Transmit.Buffer.{init_send_buffer}
use lirc_port_for_mac_os_x.Config.Include.{
  path_size, parse_include, dirname, parse_relative, read_nested,
}
use lirc_port_for_mac_os_x.Config.Include.Depth.{read_nested-enough}
use lirc_port_for_mac_os_x.Config.Include.Paths.{parse_relative-fits}

quoted : parse_include (codes_of "\"tv.conf\"") ≡ some (codes_of "tv.conf")
unfolding parse_include
quoted = refl

not_closed : parse_include (codes_of "<tv.conf\"") ≡ none
unfolding parse_include
not_closed = refl

in_the_root : dirname (codes_of "/lircd.conf") ≡ codes_of "/"
unfolding dirname
in_the_root = refl

without_directory : dirname (codes_of "lircd.conf") ≡ codes_of "."
unfolding dirname
without_directory = refl

beside_the_file :
    parse_relative (codes_of "tv.conf") (some (codes_of "/etc/lircd.conf"))
    ≡ some (codes_of "/etc/tv.conf")
unfolding parse_relative
beside_the_file = refl

-- Every path opens a file that includes another.
abbrev endless : List ℕ → Option (List (List String))
endless path = some (("include" ∷ "\"more\"" ∷ []) ∷ [])

read_nested-enough_example :
    read_nested 40 endless init_send_buffer (codes_of "/a") 0 (("include" ∷ "\"b\"" ∷ []) ∷ [])
    ≡ read_nested 12 endless init_send_buffer (codes_of "/a") 0 (("include" ∷ "\"b\"" ∷ []) ∷ [])
read_nested-enough_example =
    read_nested-enough 40 12 endless init_send_buffer (codes_of "/a") 0
      (("include" ∷ "\"b\"" ∷ []) ∷ []) (omega arith) (omega arith) (omega arith)

parse_relative-fits_example :
    (length (codes_of "/etc/tv.conf") < path_size)
    × (length (codes_of "/etc/lircd.conf") < path_size)
parse_relative-fits_example =
    parse_relative-fits (codes_of "tv.conf") (codes_of "/etc/lircd.conf") (codes_of "/etc/tv.conf")
      refl beside_the_file
