-- ===== src/Config/Include/Paths.antt =====
-- The room for the path of an included file.
use lirc_port_for_mac_os_x.Prelude.{
  ℕ, ◌+◌, ◌<◌, List, ◌∷◌, ◌++◌, length, length-append, none, some, Bool, true, false, leb, ltb,
  if◌then◌else◌, ◌≡◌, refl, subst, arith,
}
use mathlib.Core.Option.{some-injective}
use lirc_port_for_mac_os_x.Config.Include.{path_size, dirname, is_absolute, parse_relative}

-- A path that lirc_parse_relative puts together from a directory and a name fits the array for it
-- with the 0 at its end, and so does the path of the file itself, which is copied there before.
pub parse_relative-fits :
    (child current path : List ℕ)
    → is_absolute child ≡ false
    → parse_relative child (some current) ≡ some path
    → (length path < path_size) × (length current < path_size)
unfolding parse_relative
parse_relative-fits child current path a e =
    by_tests (is_absolute child) (leb path_size (length current)) refl
      (ltb path_size (length (dirname current) + 1 + length child + 1)) refl a e
  where
    whole : List ℕ
    whole = dirname current ++ (47 ∷ child)

    by_tests :
        (absolute long : Bool)
        → leb path_size (length current) ≡ long
        → (over : Bool) → ltb path_size (length (dirname current) + 1 + length child + 1) ≡ over
        → absolute ≡ false
        → (if absolute
            then some child
            else if long
            then none
            else if over
            then none
            else some whole)
          ≡ some path
        → (length path < path_size) × (length current < path_size)
    by_tests true long l over o f q = cc
    by_tests false true l over o f q = cc
    by_tests false false l true o f q = cc
    by_tests false false l false o f q = (
      subst (λ (t : List ℕ). length t < path_size) (some-injective _ _ q)
          (rw (length-append (dirname current) (47 ∷ child)) (ground arith)),
      ground arith,
    )
