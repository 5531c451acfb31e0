-- ===== src/Weather/Tests.antt =====
-- Witnesses on stations whose values are numbers; 999 is no number.
use cs_350_boston_u.Base.{ℕ, ◌+◌, ◌/◌, ◌==◌, ◌≡◌, refl, List, [], ◌∷◌, ◌++◌, returns, arith}
use cs_350_boston_u.Weather.{Floats}
use cs_350_boston_u.Weather.Mutex.{
  MutexAggregator, Event, Run, start_aggregator, retrieve_data, new_batch, next_batch, report,
}
use cs_350_boston_u.Weather.Channel.{Select, retrieve_batch}
use cs_350_boston_u.Weather.Reports.{AddsZero, average_report, report-average}
use cs_350_boston_u.Weather.Agreement.{responses, retrieve_batch-report}

abbrev numbers : Floats ℕ
numbers = record {
  zero_float = 0;
  add = λ a b. a + b;
  divide = λ a n. a / n;
  is_nan = λ a. a == 999;
  nan = 999;
}

numbers-AddsZero : AddsZero numbers
numbers-AddsZero x = omega arith

-- Two values and a broken one come for batch 0, then there is a tick, a late value comes, and one for
-- batch 1.
abbrev events : List (Event ℕ)
events =
    Event.arrives 1 50
    ∷ Event.resets
    ∷ Event.arrives 0 80
    ∷ Event.ticks
    ∷ Event.arrives 0 999
    ∷ Event.arrives 0 20
    ∷ Event.arrives 0 10
    ∷ Event.resets
    ∷ []

abbrev after_events : MutexAggregator ℕ
after_events = retrieve_data numbers 50 1 (
    new_batch numbers (
      retrieve_data numbers 80 0 (
        next_batch (
          retrieve_data numbers 999 0 (
            retrieve_data numbers 20 0
              (retrieve_data numbers 10 0 (new_batch numbers (start_aggregator numbers))))))))

events-Run : Run numbers events after_events
unfolding retrieve_data new_batch next_batch
events-Run =
    Run.arrived 1 50
      (Run.reset
        (Run.arrived 0 80
          (Run.ticked
            (Run.arrived 0 999
              (Run.arrived 0 20 (Run.arrived 0 10 (Run.reset Run.begins refl) (omega arith))
                (omega arith))
              (omega arith))
            refl)
          (omega arith))
        refl)
      (omega arith)

report-average_example : report numbers after_events ≡ average_report numbers 1 events
unfolding retrieve_data new_batch next_batch
report-average_example =
    report-average numbers events after_events numbers-AddsZero events-Run refl (omega arith)
      (omega arith)

retrieve_batch-report_example :
    retrieve_batch numbers 1 (responses 1 events ++ Select.signal ∷ [])
    ≡ returns (report numbers after_events)
unfolding retrieve_data new_batch next_batch
retrieve_batch-report_example =
    retrieve_batch-report numbers events after_events [] numbers-AddsZero events-Run refl
      (omega arith)
