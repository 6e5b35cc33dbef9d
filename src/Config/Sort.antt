-- ===== src/Config/Sort.antt =====
-- `sort_by_bit_count` of daemons/config_file.c. A chain of remotes is the list of them.
pub mod Order
pub mod All
use lirc_port_for_mac_os_x.Prelude.{List, [], ◌∷◌, leb, if◌then◌else◌}
use lirc_port_for_mac_os_x.Remote.{Remote}
use lirc_port_for_mac_os_x.Remote.Flags.{bit_count}

-- The scan for the place of `rem` in the chain `top`, and the linking.
unfoldable pub place : Remote → List Remote → List Remote
place rem [] = rem ∷ []
place rem (scan ∷ next) =
    let rest = place rem next in
    if leb (bit_count scan) (bit_count rem) then scan ∷ rest else rem ∷ scan ∷ next

unfoldable pub sort_loop : List Remote → List Remote → List Remote
sort_loop [] top = top
sort_loop (rem ∷ next) top = sort_loop next (place rem top)

unfoldable pub sort_by_bit_count : List Remote → List Remote
sort_by_bit_count remotes = sort_loop remotes []
