-- ===== src/Weather/Channel.antt =====
-- ws/channel_aggregator.go, `retrieveData`: the loop that receives the reports of a batch until the signal.
use cs_350_boston_u.Base.{
  ℕ, ◌+◌, ◌%◌, ◌^◌, true, false, List, [], ◌∷◌, if◌then◌else◌, Outcome, returns, blocks, ◌>>=◌,
}
use cs_350_boston_u.Weather.{Floats, WeatherReport, positive}

-- What a `select` of the loop receives.
pub data Select (V : Type 0) : Type 0 where
  response : V → Select V
  signal : Select V

module _ {V : Type 0} where
  -- The loop: the sum and the count. With nothing more to receive, it waits.
  unfoldable pub collect : Floats V → List (Select V) → V → ℕ → Outcome (V × ℕ)
  collect floats [] sum count = blocks
  collect floats (Select.signal ∷ selects) sum count = returns (sum, count)
  collect floats (Select.response value ∷ selects) sum count = elim (floats.is_nan value) [
    | false ↦ collect floats selects (floats.add sum value) ((count + 1) % 2 ^ 64)
    | true ↦ collect floats selects sum count
  ]

  -- `retrieveData`: what it sends, while there is no signal to quit.
  unfoldable pub retrieve_batch : Floats V → ℕ → List (Select V) → Outcome (WeatherReport V)
  unfolding collect
  retrieve_batch floats batch selects = do
    (sum, count) ← collect floats selects floats.zero_float 0
    returns (
        if positive count
        then record { value = floats.divide sum count; batch = batch }
        else record { value = floats.nan; batch = batch })
