-- ===== src/Config/Include.antt =====
-- The included files of a configuration: `lirc_parse_include`, `lirc_parse_relative` and the
-- recursion of `read_config_recursive` of daemons/config_file.c, with `dirname` of the C library. A
-- text is the list of the numbers of its characters. What a path opens is a parameter. Each file is
-- finished with the send buffer as it was, which every simulation clears.
pub mod Depth
pub mod Paths
mod Tests
use lirc_port_for_mac_os_x.Prelude.{
  ℕ, zero, suc, ◌+◌, String, codes_of, List, [], ◌∷◌, ◌++◌, length, Option, none, some, Bool, true,
  false, ◌&&◌, ◌||◌, not, leb, ltb, ◌==◌, if◌then◌else◌,
}
use lirc_port_for_mac_os_x.Remote.{Remote}
use lirc_port_for_mac_os_x.Transmit.Buffer.{SendBuffer}
use lirc_port_for_mac_os_x.Config.Numbers.{is_empty}
use lirc_port_for_mac_os_x.Config.Sections.{
  Child, child_error, child_missing, child_undefined, child_remotes,
}
use lirc_port_for_mac_os_x.Config.Read.{Reading, read, failure, undefined_reading, read_config}

abbrev pub max_includes : ℕ
max_includes = 10

-- `sizeof(result)`, which is `FILENAME_MAX + 1`; `FILENAME_MAX` is 1024 on Mac OS X.
abbrev pub path_size : ℕ
path_size = 1025

abbrev pub flip_onto : List ℕ → List ℕ → List ℕ
flip_onto [] done = done
flip_onto (c ∷ cs) done = flip_onto cs (c ∷ done)

abbrev pub flip : List ℕ → List ℕ
flip cs = flip_onto cs []

-- The characters before the white space at the end, the last first.
unfoldable pub drop_white : List ℕ → List ℕ
drop_white [] = []
drop_white (c ∷ cs) = let rest = drop_white cs in if c == 32 || c == 9 then rest else c ∷ cs

abbrev pub between : ℕ → List ℕ → Option (List ℕ)
between first [] = none
between first (last ∷ inner) =
    if first == 34 && last == 34 || first == 60 && last == 62 then some (flip inner) else none

-- The name between double quotes or angle brackets.
unfoldable pub parse_include : List ℕ → Option (List ℕ)
unfolding drop_white
parse_include [] = none
parse_include (first ∷ cs) = between first (drop_white (flip cs))

unfoldable pub drop_slashes : List ℕ → List ℕ
drop_slashes [] = []
drop_slashes (c ∷ cs) = let rest = drop_slashes cs in if c == 47 then rest else c ∷ cs

unfoldable pub drop_name : List ℕ → List ℕ
drop_name [] = []
drop_name (c ∷ cs) = let rest = drop_name cs in if c == 47 then c ∷ cs else rest

-- `dirname` from the path without the slashes at its end, the last character first.
unfoldable pub directory_of : List ℕ → List ℕ
unfolding drop_name drop_slashes
directory_of name =
    let parent = drop_name name in
    if is_empty parent
    then 46 ∷ []
    else if is_empty (drop_slashes parent)
    then 47 ∷ []
    else flip (drop_slashes parent)

unfoldable pub dirname : List ℕ → List ℕ
unfolding directory_of
dirname path =
    let name = drop_slashes (flip path) in
    if is_empty path then 46 ∷ [] else if is_empty name then 47 ∷ [] else directory_of name

abbrev pub is_absolute : List ℕ → Bool
is_absolute [] = false
is_absolute (c ∷ cs) = c == 47

-- `current` is NULL for a file without a name.
unfoldable pub parse_relative : List ℕ → Option (List ℕ) → Option (List ℕ)
unfolding dirname
parse_relative child none = some child
parse_relative child (some current) =
    let dir = dirname current in
    if is_absolute child
    then some child
    else if leb path_size (length current)
    then none
    else if ltb path_size (length dir + 1 + length child + 1)
    then none
    else some (dir ++ (47 ∷ child))

abbrev pub child_of_reading : Reading → Child
child_of_reading (read remotes) = child_remotes remotes
child_of_reading failure = child_error
child_of_reading undefined_reading = child_undefined

-- How a file is read: its name, its depth and its lines.
abbrev pub ReadFile : Type 0
ReadFile = List ℕ → ℕ → List (List String) → Reading

abbrev pub open_path :
    ReadFile → (List ℕ → Option (List (List String))) → ℕ → Option (List ℕ) → Child
open_path read_file files depth none = child_error
open_path read_file files depth (some path) = elim (files path) [
  | none ↦ child_missing
  | some lines ↦ child_of_reading (read_file path (depth + 1) lines)
]

abbrev pub include_named :
    ReadFile → (List ℕ → Option (List (List String))) → List ℕ → ℕ → Option (List ℕ) → Child
include_named read_file files name depth none = child_error
include_named read_file files name depth (some child) =
    open_path read_file files depth (parse_relative child (some name))

-- What an include line gives in a file at some depth.
unfoldable pub read_child :
    ReadFile → (List ℕ → Option (List (List String))) → List ℕ → ℕ → String → Child
unfolding parse_include parse_relative
read_child read_file files name depth val =
    if ltb max_includes depth
    then child_error
    else include_named read_file files name depth (parse_include (codes_of val))

-- Out of fuel nothing is read.
unfoldable pub read_nested : ℕ → (List ℕ → Option (List (List String))) → SendBuffer → ReadFile
unfolding read_child
read_nested zero files b name depth lines = failure
read_nested (suc fuel) files b name depth lines =
    read_config (read_child (read_nested fuel files b) files name depth) lines b
