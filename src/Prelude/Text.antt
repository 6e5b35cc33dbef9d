-- ===== src/Prelude/Text.antt =====
-- Text as the numbers of its characters, and the case-blind comparison of the C library.
use Prim.Native.Char.{code}
use Prim.Native.String.{String}
use Prim.Native.Nat.{ℕ, ◌+◌}
use mathlib.Core.Bool.{Bool, true, false, ◌&&◌}
use mathlib.Core.List.{List, [], ◌∷◌}
use mathlib.Core.Path.{◌≡◌, refl}
use native.Mathlib.Omega.{arith}
use lirc_port_for_mac_os_x.Prelude.Tests.{leb, ◌==◌, if◌then◌else◌}

abbrev pub codes_of : String → List ℕ
codes_of String.[] = []
codes_of (String.◌∷◌ c s) = code c ∷ codes_of s

abbrev pub lower : ℕ → ℕ
lower c = if leb 65 c && leb c 90 then c + 32 else c

unfoldable pub same_folded : List ℕ → List ℕ → Bool
same_folded [] [] = true
same_folded [] (y ∷ ys) = false
same_folded (x ∷ xs) [] = false
same_folded (x ∷ xs) (y ∷ ys) = lower x == lower y && same_folded xs ys

-- `strcasecmp(s, t) == 0`
unfoldable pub same_name : String → String → Bool
unfolding same_folded
same_name s t = same_folded (codes_of s) (codes_of t)

same_folded_refl : (xs : List ℕ) → same_folded xs xs ≡ true
unfolding same_folded
same_folded_refl [] = refl
same_folded_refl (x ∷ xs) = ground (arith, same_folded_refl xs)

pub same_name_refl : (s : String) → same_name s s ≡ true
unfolding same_name
same_name_refl s = same_folded_refl (codes_of s)
