-- ===== src/Receive/Data/Symbols.antt =====
-- The symbols that a receiver reads are less than the number of symbols.
use lirc_port_for_mac_os_x.Prelude.{
  ℕ, ◌^◌, ◌<◌, arith, Option, none, some, Bool, true, false, ◌==◌, if◌then◌else◌, ℤ, pos, negsuc,
}
use lirc_port_for_mac_os_x.Remote.{Remote}
use lirc_port_for_mac_os_x.Receive.Buffer.{Rbuf}
use lirc_port_for_mac_os_x.Receive.Data.{
  symbol_of, read_symbol, read_state, two_states, pair_with, read_pair, bo_bit, nibble_of,
  xmp_nibble, take_bit,
}

unfoldable pub Below : ℕ → Option ℕ → Type 0
Below m none = Unit
Below m (some n) = n < m

pub Below-if :
    (m : ℕ) (t : Bool) (x y : Option ℕ) → Below m x → Below m y → Below m (if t then x else y)
Below-if m true x y hx hy = hx
Below-if m false x y hx hy = hy

pub some-Below : (m n : ℕ) → n < m → Below m (some n)
unfolding Below
some-Below m n h = h

pub none-Below : (m : ℕ) → Below m none
unfolding Below
none-Below m = tt

pub Below-either :
    (t : Bool) (x y : Option ℕ × Rbuf) → Below 4 x.0 → Below 4 y.0 → Below 4 (if t then x else y).0
Below-either true x y hx hy = hx
Below-either false x y hx hy = hy

module _ (resolution : ℕ) where
  pub symbol_of-Below : (remote : Remote) (sum : ℕ) → Below 4 (symbol_of resolution remote sum)
  unfolding symbol_of Below
  symbol_of-Below remote sum = ground arith

  pub read_symbol-Below :
      (remote : Remote) (b : Rbuf) → Below (2 ^ 2) (read_symbol resolution remote b).0
  unfolding read_symbol
  read_symbol-Below remote b = Below-if _ _ none _ (none-Below _) (symbol_of-Below remote _)

  pub two_states-Below : (laststate state : ℕ) → Below 4 (two_states laststate state)
  unfolding two_states Below
  two_states-Below laststate state = ground arith

  pub pair-Below : (state : ℕ) (second : Option ℕ) → Below 4 (pair_with state second)
  pair-Below state none = none-Below 4
  pair-Below state (some n) = two_states-Below state n

  pub by_first :
      (first : Option ℕ) (b' : Rbuf) (second : Option ℕ) (b'' : Rbuf)
      → Below 4
          (elim first as (λ u. Option ℕ × Rbuf) [
            | none ↦ (none, b')
            | some state ↦ if state == 3 then (some 0, b') else (pair_with state second, b'')
          ]).0
  by_first none b' second b'' = none-Below 4
  by_first (some state) b' second b'' =
      Below-either (state == 3) (some 0, b') (pair_with state second, b'')
        (some-Below 4 0 (omega arith)) (pair-Below state second)

  pub read_pair-Below :
      (remote : Remote) (b : Rbuf) → Below (2 ^ 2) (read_pair resolution remote b).0
  unfolding read_pair
  read_pair-Below remote b =
      let (first, b') = read_state resolution remote b in
      let (second, b'') = read_state resolution remote b' in by_first first b' second b''

  pub bo_bit-Below :
      (remote : Remote) (last_one : Bool) (deltap deltas : ℕ)
      → Below 2 (bo_bit resolution remote last_one deltap deltas)
  unfolding bo_bit Below
  bo_bit-Below remote last_one deltap deltas = ground arith

  pub nibble_of-Below : (remote : Remote) (z : ℤ) → Below 16 (nibble_of remote z)
  unfolding nibble_of Below
  nibble_of-Below remote (pos m) = ground arith
  nibble_of-Below remote (negsuc m) = ground arith

  pub xmp_nibble-Below :
      (remote : Remote) (deltap deltas : ℕ) → Below (2 ^ 4) (xmp_nibble remote deltap deltas)
  unfolding xmp_nibble
  xmp_nibble-Below remote deltap deltas =
      Below-if 16 _ none _ (none-Below 16) (nibble_of-Below remote _)

  pub take_bit-Below :
      (remote : Remote) (bit : ℕ) (b : Rbuf) → Below (2 ^ 1) (take_bit resolution remote bit b).0
  unfolding take_bit Below
  take_bit-Below remote bit b = ground arith
