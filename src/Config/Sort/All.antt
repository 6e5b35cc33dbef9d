-- ===== src/Config/Sort/All.antt =====
-- What holds of each remote holds of each after sorting.
use lirc_port_for_mac_os_x.Prelude.{List, [], ◌∷◌, Bool, true, false, leb, if◌then◌else◌}
use lirc_port_for_mac_os_x.Remote.{Remote}
use lirc_port_for_mac_os_x.Remote.Flags.{bit_count}
use lirc_port_for_mac_os_x.Config.Sort.{place, sort_loop, sort_by_bit_count}

module _ (P : Remote → Type 0) where
  abbrev pub AllOf : List Remote → Type 0
  AllOf [] = Unit
  AllOf (r ∷ rs) = P r × AllOf rs

  place-AllOf : (rem : Remote) (top : List Remote) → P rem → AllOf top → AllOf (place rem top)
  unfolding place
  place-AllOf rem [] f h = (f, tt)
  place-AllOf rem (x ∷ xs) f (h, t) =
      by_test (leb (bit_count x) (bit_count rem)) (place-AllOf rem xs f t)
    where
      by_test :
          (b : Bool) → AllOf (place rem xs) → AllOf (if b then x ∷ place rem xs else rem ∷ x ∷ xs)
      by_test true k = (h, k)
      by_test false k = (f, (h, t))

  sort_loop-AllOf :
      (remotes top : List Remote) → AllOf remotes → AllOf top → AllOf (sort_loop remotes top)
  unfolding sort_loop
  sort_loop-AllOf [] top h k = k
  sort_loop-AllOf (rem ∷ next) top (f, h) k =
      sort_loop-AllOf next (place rem top) h (place-AllOf rem top f k)

  pub sort_by_bit_count-AllOf :
      (remotes : List Remote) → AllOf remotes → AllOf (sort_by_bit_count remotes)
  unfolding sort_by_bit_count
  sort_by_bit_count-AllOf remotes h = sort_loop-AllOf remotes [] h tt
