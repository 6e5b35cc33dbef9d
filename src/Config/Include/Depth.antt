-- ===== src/Config/Include/Depth.antt =====
-- The depth of included files is bounded, so that the reader ends.
use lirc_port_for_mac_os_x.Prelude.{
  ℕ, zero, suc, ◌+◌, ◌≤◌, String, codes_of, List, Option, none, some, Bool, true, false, ltb,
  if◌then◌else◌, ◌≡◌, refl, ap, arith,
}
use lirc_port_for_mac_os_x.Transmit.Buffer.{SendBuffer}
use lirc_port_for_mac_os_x.Config.Sections.{Child, child_error, child_missing}
use lirc_port_for_mac_os_x.Config.Read.{read_config}
use lirc_port_for_mac_os_x.Config.Include.{
  max_includes, ReadFile, child_of_reading, open_path, include_named, parse_include, parse_relative,
  read_child, read_nested,
}

module _ (f g : ReadFile) (files : List ℕ → Option (List (List String))) where
  open_path-cong :
      (depth : ℕ) (path : Option (List ℕ))
      → ((name : List ℕ) (lines : List (List String))
          → f name (depth + 1) lines ≡ g name (depth + 1) lines)
      → open_path f files depth path ≡ open_path g files depth path
  open_path-cong depth none h = refl
  open_path-cong depth (some path) h = by_file (files path)
    where
      opened : ReadFile → Option (List (List String)) → Child
      opened r o = elim o [
        | none ↦ child_missing
        | some lines ↦ child_of_reading (r path (depth + 1) lines)
      ]

      by_file : (o : Option (List (List String))) → opened f o ≡ opened g o
      by_file none = refl
      by_file (some lines) = ap child_of_reading (h path lines)

  include_named-cong :
      (name : List ℕ) (depth : ℕ) (child : Option (List ℕ))
      → ((path : List ℕ) (lines : List (List String))
          → f path (depth + 1) lines ≡ g path (depth + 1) lines)
      → include_named f files name depth child ≡ include_named g files name depth child
  include_named-cong name depth none h = refl
  include_named-cong name depth (some child) h =
      open_path-cong depth (parse_relative child (some name)) h

  -- Two readers that agree one file deeper give the same for an include line.
  pub read_child-cong :
      (name : List ℕ) (depth : ℕ) (val : String)
      → (depth ≤ max_includes
          → (path : List ℕ) (lines : List (List String))
          → f path (depth + 1) lines ≡ g path (depth + 1) lines)
      → read_child f files name depth val ≡ read_child g files name depth val
  unfolding read_child
  read_child-cong name depth val h = by_depth (ltb max_includes depth) refl
    where
      included : ReadFile → Child
      included r = include_named r files name depth (parse_include (codes_of val))

      by_depth :
          (b : Bool)
          → ltb max_includes depth ≡ b
          → (if b then child_error else included f) ≡ (if b then child_error else included g)
      by_depth true e = refl
      by_depth false e =
          include_named-cong name depth (parse_include (codes_of val)) (h (ground arith))

-- However the files include each other, two amounts of fuel that are each enough for the files that
-- are still allowed below one of depth 11 at most give the same: 12 for the first file.
pub read_nested-enough :
    (f g : ℕ) (files : List ℕ → Option (List (List String))) (b : SendBuffer) (name : List ℕ)
    (depth : ℕ) (lines : List (List String))
    → depth ≤ 11
    → 12 ≤ f + depth
    → 12 ≤ g + depth
    → read_nested f files b name depth lines ≡ read_nested g files b name depth lines
unfolding read_nested
read_nested-enough zero g files b name depth lines d hf hg = absurd (omega arith)
read_nested-enough (suc f) zero files b name depth lines d hf hg = absurd (omega arith)
read_nested-enough (suc f) (suc g) files b name depth lines d hf hg =
    ap (λ (child : String → Child). read_config child lines b)
      (λ i val.
        read_child-cong (read_nested f files b) (read_nested g files b) files name depth val
          (λ l path inner.
            read_nested-enough f g files b path (depth + 1) inner (omega arith) (omega arith)
              (omega arith))
          i)
