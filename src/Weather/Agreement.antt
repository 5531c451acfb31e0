-- ===== src/Weather/Agreement.antt =====
-- ws/channel_aggregator.go against ws/mutex_aggregator.go: both report the same.
use mathlib.Core.List.{append_assoc}
use cs_350_boston_u.Base.{
  ℕ, suc, ◌+◌, ◌%◌, ◌^◌, ◌==◌, ◌<◌, ◌≡◌, refl, ap, ◌∙◌, true, false, Bool-cases, inl, inr, List, [],
  ◌∷◌, ◌++◌, if◌then◌else◌, arith, returns,
}
use cs_350_boston_u.Weather.{Floats}
use cs_350_boston_u.Weather.Mutex.{MutexAggregator, Event, report, Run}
use cs_350_boston_u.Weather.Reports.{ticks_in, total, number, AddsZero, Run-Good}
use cs_350_boston_u.Weather.Channel.{Select, collect, retrieve_batch}

module _ {V : Type 0} where
  -- What the collecting loop receives, if the same values come for the batch in the same order.
  abbrev pub responses : ℕ → List (Event V) → List (Select V)
  responses b [] = []
  responses b (Event.arrives c v ∷ h) =
      if c == b then responses b h ++ Select.response v ∷ [] else responses b h
  responses b (Event.ticks ∷ h) = responses b h
  responses b (Event.resets ∷ h) = responses b h

  -- One more value for the batch.
  collect_one :
      (floats : Floats V) (b c : ℕ) (h : List (Event V)) (rest : List (Select V)) (v : V)
      → (c == b) ≡ true
      → collect floats (Select.response v ∷ rest) (total floats b h) (number floats b h % 2 ^ 64)
        ≡ collect floats rest
            (total floats b (Event.arrives c v ∷ h))
            (number floats b (Event.arrives c v ∷ h) % 2 ^ 64)
  unfolding collect
  collect_one floats b c h rest v same = elim (Bool-cases (floats.is_nan v)) [
    | inl bad ↦ rw (bad, collect, same) refl
    | inr good ↦
        let e : (number floats b h % 2 ^ 64 + 1) % 2 ^ 64 ≡ suc (number floats b h) % 2 ^ 64 =
          omega arith in
        rw (good, collect, same, e) refl
  ]

  collect-responses :
      (floats : Floats V) (b : ℕ) (h : List (Event V)) (rest : List (Select V))
      → collect floats (responses b h ++ rest) floats.zero_float 0
        ≡ collect floats rest (total floats b h) (number floats b h % 2 ^ 64)
  collect-responses floats b [] rest = refl
  collect-responses floats b (Event.ticks ∷ h) rest = collect-responses floats b h rest
  collect-responses floats b (Event.resets ∷ h) rest = collect-responses floats b h rest
  collect-responses floats b (Event.arrives c v ∷ h) rest = elim (Bool-cases (c == b)) [
    | inr other ↦ rw other (collect-responses floats b h rest)
    | inl same ↦
        let one_more : responses b (Event.arrives c v ∷ h)
            ≡ responses b h ++ Select.response v ∷ [] =
          rw same refl in
        ap (λ xs. collect floats (xs ++ rest) floats.zero_float 0) one_more
        ∙ ap (λ xs. collect floats xs floats.zero_float 0)
            (append_assoc (responses b h) (Select.response v ∷ []) rest)
        ∙ collect-responses floats b h (Select.response v ∷ rest)
        ∙ collect_one floats b c h rest v same
  ]

  -- At a tick, the channel aggregator sends what the mutex aggregator reports, if the same values have
  -- come for the batch, in the same order, when its signal is closed; as long as fewer than 2^64 ticks
  -- have gone by, and adding zero changes no sum.
  pub retrieve_batch-report :
      (floats : Floats V) (h : List (Event V)) (agg : MutexAggregator V) (rest : List (Select V))
      → AddsZero floats
      → Run floats h agg
      → agg.resetting ≡ false
      → ticks_in h < 2 ^ 64
      → retrieve_batch floats (ticks_in h) (responses (ticks_in h) h ++ Select.signal ∷ rest)
        ≡ returns (report floats agg)
  unfolding retrieve_batch collect report
  retrieve_batch-report floats h agg rest zero_adds run off bound =
      let (batch, future, now) = Run-Good floats zero_adds run bound in
      let (sum, count) = now off in
      let s_eq : agg.sum ≡ total floats (ticks_in h) h = sum ∙ ap (λ b. total floats b h) batch in
      let c_eq : agg.count ≡ number floats (ticks_in h) h % 2 ^ 64 =
        count ∙ ap (λ b. number floats b h % 2 ^ 64) batch in
      rw (collect-responses floats (ticks_in h) h (Select.signal ∷ rest), s_eq, c_eq, batch) refl
