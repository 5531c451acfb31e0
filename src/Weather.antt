-- ===== src/Weather.antt =====
-- ALL_CODE_350/starter-1/ws: the two aggregators, which report the average of the values that the
-- stations give for a batch. The floating point numbers are of any type, with Go's operations on them as
-- parameters. An `int` is its remainder by 2^64.
pub mod Mutex
pub mod Channel
pub mod Reports
pub mod Agreement
mod Tests
use cs_350_boston_u.Base.{ℕ, ◌^◌, ltb, Bool, ◌&&◌}

-- `+`, `/` by a count, `math.IsNaN` and `math.NaN()`.
pub record Floats (V : Type 0) : Type 0 where
  pub zero_float : V
  pub add : V → V → V
  pub divide : V → ℕ → V
  pub is_nan : V → Bool
  pub nan : V

-- `WeatherReport`, without the station.
pub record WeatherReport (V : Type 0) : Type 0 where
  pub value : V
  pub batch : ℕ

-- `n > 0`, of a signed number
abbrev pub positive : ℕ → Bool
positive n = ltb 0 n && ltb n (2 ^ 63)
