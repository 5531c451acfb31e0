-- ===== src/Weather/Mutex.antt =====
-- ws/mutex_aggregator.go: the variables that the mutex guards, and the sections of code under the mutex,
-- which the goroutines of the stations and the main loop run one after another.
use cs_350_boston_u.Base.{
  ℕ, ◌+◌, ◌%◌, ◌^◌, ◌==◌, ◌<◌, ◌≤◌, ◌≡◌, Bool, true, false, not, ◌&&◌, List, [], ◌∷◌, if◌then◌else◌,
}
use cs_350_boston_u.Weather.{Floats, WeatherReport, positive}

-- `resetting` holds from `batch++` until `newBatch` has the mutex.
pub record MutexAggregator (V : Type 0) : Type 0 where
  pub sum : V
  pub count : ℕ
  pub batch : ℕ
  pub resetting : Bool

pub data Event (V : Type 0) : Type 0 where
  -- a station's report, for the batch that it was asked for
  arrives : ℕ → V → Event V
  ticks resets : Event V

module _ {V : Type 0} where
  abbrev pub start_aggregator : Floats V → MutexAggregator V
  start_aggregator floats = record {
    sum = floats.zero_float;
    count = 0;
    batch = 0;
    resetting = true;
  }

  -- `retrieveData`, once it has the report
  unfoldable pub retrieve_data : Floats V → V → ℕ → MutexAggregator V → MutexAggregator V
  retrieve_data floats value current_batch agg =
      let counts = agg.batch == current_batch && not (floats.is_nan value) in
      record agg {
        sum = floats.add agg.sum (if counts then value else floats.zero_float);
        count = (agg.count + (if counts then 1 else 0)) % 2 ^ 64;
      }

  -- `newBatch`, before it asks the stations
  unfoldable pub new_batch : Floats V → MutexAggregator V → MutexAggregator V
  new_batch floats agg = record agg { sum = floats.zero_float; count = 0; resetting = false }

  -- What is sent at a tick
  unfoldable pub report : Floats V → MutexAggregator V → WeatherReport V
  report floats agg =
      if positive agg.count
      then record { value = floats.divide agg.sum agg.count; batch = agg.batch }
      else record { value = floats.nan; batch = agg.batch }

  -- The rest of the section at a tick
  unfoldable pub next_batch : MutexAggregator V → MutexAggregator V
  next_batch agg = record agg { batch = (agg.batch + 1) % 2 ^ 64; resetting = true }

  -- The stations have been asked for the batch.
  abbrev pub Asked : ℕ → MutexAggregator V → Type 0
  Asked b agg = if agg.resetting then b < agg.batch else b ≤ agg.batch

-- The states after these events, the last one first.
pub data Run {V : Type 0} (floats : Floats V) : List (Event V) → MutexAggregator V → Type 0 where
  begins : Run floats [] (start_aggregator floats)
  arrived :
      {h : List (Event V)} {agg : MutexAggregator V} (b : ℕ) (v : V)
      → Run floats h agg
      → Asked b agg
      → Run floats (Event.arrives b v ∷ h) (retrieve_data floats v b agg)
  ticked :
      {h : List (Event V)} {agg : MutexAggregator V}
      → Run floats h agg
      → agg.resetting ≡ false
      → Run floats (Event.ticks ∷ h) (next_batch agg)
  reset :
      {h : List (Event V)} {agg : MutexAggregator V}
      → Run floats h agg
      → agg.resetting ≡ true
      → Run floats (Event.resets ∷ h) (new_batch floats agg)
