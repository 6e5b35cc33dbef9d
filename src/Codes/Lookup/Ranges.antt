-- ===== src/Codes/Lookup/Ranges.antt =====
-- What the ranges over all remotes bound.
use lirc_port_for_mac_os_x.Prelude.{ℕ, ◌≤◌, ◌<◌, ◌≡◌, ◌⊎◌, inl, inr, arith, List, [], ◌∷◌}
use lirc_port_for_mac_os_x.Remote.{Remote}
use lirc_port_for_mac_os_x.Remote.Tolerance.{upper_limit, lower_limit}
use lirc_port_for_mac_os_x.Codes.Lookup.{
  Frequencies, widen, frequency_loop, get_frequency_range, Filter, filter_step, filter_loop,
  get_filter_parameters,
}

abbrev pub All {ℓ} : {A : Type ℓ} → (A → Type 0) → List A → Type 0
All P [] = Unit
All P (x ∷ xs) = P x × All P xs

All-map {ℓ} :
    {A : Type ℓ} {P Q : A → Type 0} → ((x : A) → P x → Q x) → (xs : List A) → All P xs → All Q xs
All-map f [] h = tt
All-map f (x ∷ xs) h = (f x h.0, All-map f xs h.1)

-- A remote without a frequency is left out.
abbrev pub InBand : Frequencies → Remote → Type 0
InBand f remote = (remote.freq ≡ 0) ⊎ ((f.min_freq ≤ remote.freq) × (remote.freq ≤ f.max_freq))

abbrev Wider : Frequencies → Frequencies → Type 0
Wider f g = (g.min_freq ≤ f.min_freq) × (f.max_freq ≤ g.max_freq)

widen-Wider :
    (f : Frequencies) (freq : ℕ)
    → f.min_freq ≤ f.max_freq
    → Wider f (widen f freq) × ((widen f freq).min_freq ≤ (widen f freq).max_freq)
unfolding widen
widen-Wider f freq h = ground arith

widen-InBand :
    (f : Frequencies) (remote : Remote)
    → f.min_freq ≤ f.max_freq
    → InBand (widen f remote.freq) remote
unfolding widen
widen-InBand f remote h = ground arith

InBand-Wider : (f g : Frequencies) (remote : Remote) → Wider f g → InBand f remote → InBand g remote
InBand-Wider f g remote w (inl h) = inl h
InBand-Wider f g remote w (inr h) = inr (omega arith)

frequency_loop-InBand :
    (f : Frequencies) (remotes : List Remote)
    → f.min_freq ≤ f.max_freq
    → Wider f (frequency_loop f remotes) × All (InBand (frequency_loop f remotes)) remotes
unfolding frequency_loop
frequency_loop-InBand f [] h = (omega arith, tt)
frequency_loop-InBand f (r ∷ rs) h =
    let (wide, ordered) = widen-Wider f r.freq h in
    let (wider, rest) = frequency_loop-InBand (widen f r.freq) rs ordered in
    (omega arith, (InBand-Wider (widen f r.freq) _ r wider (widen-InBand f r h), rest))

-- The frequency of every remote that has one lies in the range of `get_frequency_range`.
pub get_frequency_range-InBand :
    (remotes : List Remote) → All (InBand (get_frequency_range remotes)) remotes
unfolding get_frequency_range
get_frequency_range-InBand [] = tt
get_frequency_range-InBand (r ∷ rs) =
    let start : Frequencies = record { min_freq = r.freq; max_freq = r.freq } in
    let (wide, rest) = frequency_loop-InBand start rs (omega arith) in (inr wide, rest)

module _ (resolution : ℕ) where
  -- What the filter of the daemon lets through of a remote.
  pub record Covers (f : Filter) (r : Remote) : Type 0 where
    pub gap : upper_limit resolution r r.max_gap_length ≤ f.max_gap_length
    pub long_pulse : upper_limit resolution r r.max_pulse_length ≤ f.max_pulse_length
    pub long_space : upper_limit resolution r r.max_space_length ≤ f.max_space_length
    pub short_pulse : f.min_pulse_length ≤ lower_limit resolution r r.min_pulse_length
    pub some_pulse : 0 < f.min_pulse_length

  -- The bound on the spaces is from the other side than that on the pulses.
  abbrev pub Overshoots : Filter → Remote → Type 0
  Overshoots f r = lower_limit resolution r r.min_space_length ≤ f.min_space_length

  record Grows (f g : Filter) : Type 0 where
    gap : f.max_gap_length ≤ g.max_gap_length
    long_pulse : f.max_pulse_length ≤ g.max_pulse_length
    long_space : f.max_space_length ≤ g.max_space_length
    short_space : f.min_space_length ≤ g.min_space_length
    short_pulse :
        (f.min_pulse_length ≡ 0)
        ⊎ ((g.min_pulse_length ≤ f.min_pulse_length) × (0 < g.min_pulse_length))

  lower_limit_pos : (r : Remote) (val : ℕ) → 0 < lower_limit resolution r val
  unfolding lower_limit
  lower_limit_pos r val = ground arith

  filter_step-Grows : (f : Filter) (r : Remote) → Grows f (filter_step resolution f r)
  unfolding filter_step
  filter_step-Grows f r = ground (arith, lower_limit_pos r r.min_pulse_length)

  filter_step-Covers :
      (f : Filter) (r : Remote)
      → Covers (filter_step resolution f r) r × Overshoots (filter_step resolution f r) r
  unfolding filter_step
  filter_step-Covers f r = ground (arith, lower_limit_pos r r.min_pulse_length)

  Covers-Grows :
      (f g : Filter) (r : Remote)
      → Grows f g
      → Covers f r × Overshoots f r
      → Covers g r × Overshoots g r
  Covers-Grows f g r w h = ground arith

  Grows-trans : (f g h : Filter) → Grows f g → Grows g h → Grows f h
  Grows-trans f g h v w = ground arith

  filter_loop-Covers :
      (f : Filter) (remotes : List Remote)
      → let g = filter_loop resolution f remotes in
        Grows f g × All (λ r. Covers g r × Overshoots g r) remotes
  unfolding filter_loop
  filter_loop-Covers f [] = (ground arith, tt)
  filter_loop-Covers f (r ∷ rs) =
      let (grows, rest) = filter_loop-Covers (filter_step resolution f r) rs in
      (
        Grows-trans f (filter_step resolution f r) _ (filter_step-Grows f r) grows,
        (Covers-Grows (filter_step resolution f r) _ r grows (filter_step-Covers f r), rest),
      )

  -- For every remote, the maximal lengths that `get_filter_parameters` gives are at least the
  -- upper limits of its longest gap, pulse and space, and the minimal pulse length is at most the
  -- lower limit of its shortest pulse; but the minimal space length is at least the lower limit of
  -- its shortest space, so with two remotes it can be longer than a space that one of them sends.
  pub get_filter_parameters-Covers :
      (remotes : List Remote)
      → let f = get_filter_parameters resolution remotes in
        All (λ r. Covers f r × Overshoots f r) remotes
  unfolding get_filter_parameters
  get_filter_parameters-Covers remotes = (filter_loop-Covers _ remotes).1
