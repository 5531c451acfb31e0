-- ===== src/Weather/Reports.antt =====
-- ws/mutex_aggregator.go: a report is the average of the values that came for
-- its batch.
use cs_350_boston_u.Base.{
  ℕ, suc, ◌%◌, ◌^◌, ◌==◌, ltb, ◌<◌, ◌≤◌, ◌≡◌, refl, sym, ap, subst, ◌∙◌, true, false, not, ◌&&◌,
  Bool-cases, inl, inr, List, [], ◌∷◌, if◌then◌else◌, arith,
}
use cs_350_boston_u.Weather.{Floats, WeatherReport, positive}
use cs_350_boston_u.Weather.Mutex.{
  MutexAggregator, Event, retrieve_data, new_batch, report, next_batch, Asked, Run,
}

module _ {V : Type 0} where
  abbrev pub ticks_in : List (Event V) → ℕ
  ticks_in [] = 0
  ticks_in (Event.arrives b v ∷ h) = ticks_in h
  ticks_in (Event.ticks ∷ h) = suc (ticks_in h)
  ticks_in (Event.resets ∷ h) = ticks_in h

  -- The sum of the valid values that have come for a batch, and their number.
  abbrev pub total : Floats V → ℕ → List (Event V) → V
  total floats b [] = floats.zero_float
  total floats b (Event.arrives c v ∷ h) =
      if c == b && not (floats.is_nan v) then floats.add (total floats b h) v else total floats b h
  total floats b (Event.ticks ∷ h) = total floats b h
  total floats b (Event.resets ∷ h) = total floats b h

  abbrev pub number : Floats V → ℕ → List (Event V) → ℕ
  number floats b [] = 0
  number floats b (Event.arrives c v ∷ h) =
      if c == b && not (floats.is_nan v) then suc (number floats b h) else number floats b h
  number floats b (Event.ticks ∷ h) = number floats b h
  number floats b (Event.resets ∷ h) = number floats b h

  -- To add zero changes nothing.
  abbrev pub AddsZero : Floats V → Type 0
  AddsZero floats = (x : V) → floats.add x floats.zero_float ≡ x

  -- The batch has not been asked for.
  abbrev pub Future : ℕ → MutexAggregator V → Type 0
  Future c agg = if agg.resetting then agg.batch ≤ c else agg.batch < c

  abbrev pub Good : Floats V → List (Event V) → MutexAggregator V → Type 0
  Good floats h agg =
      (agg.batch ≡ ticks_in h)
      × ((c : ℕ) → Future c agg → (total floats c h ≡ floats.zero_float) × (number floats c h ≡ 0))
      × (agg.resetting ≡ false
          → (agg.sum ≡ total floats agg.batch h) × (agg.count ≡ number floats agg.batch h % 2 ^ 64))

  module _ (floats : Floats V) where
    Asked-Future :
        (agg : MutexAggregator V) (b c : ℕ) → Asked b agg → Future c agg → (b == c) ≡ false
    Asked-Future agg b c asked later = elim (Bool-cases agg.resetting) [
      | inl on ↦
          let past : b < agg.batch =
            subst (λ r. if r then b < agg.batch else b ≤ agg.batch) on asked in
          let ahead : agg.batch ≤ c =
            subst (λ r. if r then agg.batch ≤ c else agg.batch < c) on later in
          ground (arith, past, ahead)
      | inr off ↦
          let past : b ≤ agg.batch =
            subst (λ r. if r then b < agg.batch else b ≤ agg.batch) off asked in
          let ahead : agg.batch < c =
            subst (λ r. if r then agg.batch ≤ c else agg.batch < c) off later in
          ground (arith, past, ahead)
    ]

    -- A value that is not counted, or comes for another batch, changes nothing.
    total-skipped :
        (h : List (Event V)) (b c : ℕ) (v : V)
        → (b == c && not (floats.is_nan v)) ≡ false
        → (total floats c (Event.arrives b v ∷ h) ≡ total floats c h)
          × (number floats c (Event.arrives b v ∷ h) ≡ number floats c h)
    total-skipped h b c v skipped = (rw skipped refl, rw skipped refl)

    arrival-Good :
        (h : List (Event V)) (agg : MutexAggregator V) (b : ℕ) (v : V)
        → AddsZero floats
        → Asked b agg
        → Good floats h agg
        → Good floats (Event.arrives b v ∷ h) (retrieve_data floats v b agg)
    unfolding retrieve_data
    arrival-Good h agg b v zero_adds asked (batch, future, now) = (
      batch,
      (λ c later.
          let apart = Asked-Future agg b c asked later in
          let (t, n) = total-skipped h b c v (rw apart refl) in
          let (t0, n0) = future c later in (t ∙ t0, n ∙ n0)),
      λ off.
          let (sum, count) = now off in
          let flip : (b == agg.batch) ≡ (agg.batch == b) = ground arith in
          elim (Bool-cases (agg.batch == b && not (floats.is_nan v))) [
            | inl counts ↦ rw (flip, counts) (ap (λ x. floats.add x v) sum, omega (arith, count))
            | inr ignored ↦ rw (flip, ignored) (zero_adds agg.sum ∙ sum, omega (arith, count))
          ],
    )

    tick-Good :
        (h : List (Event V)) (agg : MutexAggregator V)
        → agg.resetting ≡ false
        → suc (ticks_in h) < 2 ^ 64
        → Good floats h agg
        → Good floats (Event.ticks ∷ h) (next_batch agg)
    unfolding next_batch
    tick-Good h agg on bound (batch, future, now) = (
      omega (arith, batch),
      (λ c later. let late : Future c agg = rw on (omega (arith, later, batch)) in future c late),
      λ off. cc,
    )

    reset-Good :
        (h : List (Event V)) (agg : MutexAggregator V)
        → agg.resetting ≡ true
        → Good floats h agg
        → Good floats (Event.resets ∷ h) (new_batch floats agg)
    unfolding new_batch
    reset-Good h agg on (batch, future, now) =
        let here : Future agg.batch agg = rw on (omega arith) in
        let (none_yet, no_number) = future agg.batch here in
        (
          batch,
          (λ c later. let late : Future c agg = rw on (omega (arith, later)) in future c late),
          λ _. (sym none_yet, omega (arith, no_number)),
        )

    pub Run-Good :
        {h : List (Event V)} {agg : MutexAggregator V}
        → AddsZero floats
        → Run floats h agg
        → ticks_in h < 2 ^ 64
        → Good floats h agg
    Run-Good zero_adds Run.begins bound = (refl, (λ c later. (refl, refl)), λ off. cc)
    Run-Good zero_adds (Run.arrived {h} {agg} b v run asked) bound =
        arrival-Good h agg b v zero_adds asked (Run-Good zero_adds run bound)
    Run-Good zero_adds (Run.ticked {h} {agg} run on) bound =
        tick-Good h agg on bound (Run-Good zero_adds run (omega arith))
    Run-Good zero_adds (Run.reset {h} {agg} run on) bound =
        reset-Good h agg on (Run-Good zero_adds run bound)

  -- The report for a batch, from the events.
  abbrev pub average_report : Floats V → ℕ → List (Event V) → WeatherReport V
  average_report floats b h = record {
    value =
        if ltb 0 (number floats b h)
        then floats.divide (total floats b h) (number floats b h)
        else floats.nan;
    batch = b;
  }

  -- Whatever reports of the stations come, in any order and late ones too, a tick of the mutex aggregator
  -- reports for the batch of that tick the average of exactly the valid values that have come for the
  -- batch, or NaN if none has come; as long as fewer than 2^64 ticks have gone by and fewer than 2^63
  -- values have come for the batch, and adding zero changes no sum.
  pub report-average :
      (floats : Floats V) (h : List (Event V)) (agg : MutexAggregator V)
      → AddsZero floats
      → Run floats h agg
      → agg.resetting ≡ false
      → ticks_in h < 2 ^ 64
      → number floats (ticks_in h) h < 2 ^ 63
      → report floats agg ≡ average_report floats (ticks_in h) h
  unfolding report
  report-average floats h agg zero_adds run off bound small =
      let (batch, future, now) = Run-Good floats zero_adds run bound in
      let (sum, count) = now off in
      let n = number floats (ticks_in h) h in
      let s_eq : agg.sum ≡ total floats (ticks_in h) h = sum ∙ ap (λ b. total floats b h) batch in
      let c_eq : agg.count ≡ n =
        count ∙ ap (λ b. number floats b h % 2 ^ 64) batch ∙ omega (arith, small) in
      let sign : positive n ≡ ltb 0 n = ground (arith, small) in
      rw (s_eq, c_eq, batch, sign)
        (elim (Bool-cases (ltb 0 n)) [ inl h ↦ rw h refl | inr h ↦ rw h refl ])
