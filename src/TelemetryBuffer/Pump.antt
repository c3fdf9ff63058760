-- ===== src/TelemetryBuffer/Pump.antt =====
-- The pump of src/telemetry/telemetry-buffer.ts.
use autogent.Prelude.{
  ℕ, suc, ◌+◌, ◌≡◌, refl, sym, ◌∙◌, ap, inl, inr, ◌&&◌, Option, none, some, List, [], ◌∷◌, ◌++◌,
  arith, Bool-cases, ltb, if◌then◌else◌, if_cases,
}
use autogent.TelemetryBuffer.{
  ObserverFrameDraft, Wire, TelemetryBuffer, is_over, open_window, emit_from, drain, report_to,
  settle, is_empty, pump_on, pump,
}

module _ {P : Type 0} (w : Wire P) where
  -- What the loop does not touch.
  abbrev pub Same : TelemetryBuffer P → TelemetryBuffer P → Type 0
  Same b c =
      (c.accepted ≡ b.accepted)
      × ((c.reports ≡ b.reports)
          × ((c.reported ≡ b.reported)
              × ((c.dropped_frames ≡ b.dropped_frames)
                  × ((c.last_drop_route ≡ b.last_drop_route)
                      × (c.max_queued_frames ≡ b.max_queued_frames)))))

  pub emit_from-Same :
      (ds : List (ObserverFrameDraft P)) (b : TelemetryBuffer P) → Same b (emit_from w ds b)
  unfolding emit_from
  emit_from-Same [] b = (refl, (refl, (refl, (refl, (refl, refl)))))
  emit_from-Same (d ∷ ds) b =
      if_cases (Same b) (ltb b.window_count b.max_frames_per_second)
        (λ _.
          emit_from-Same ds
            (record b { window_count = b.window_count + 1; emitted = b.emitted ++ d ∷ [] }))
        (λ _. (refl, (refl, (refl, (refl, (refl, refl))))))

  -- A round keeps the number of the frames that are to be reported.
  drain-dropped :
      (now : ℕ) (b : TelemetryBuffer P) → (drain w now b).dropped_frames ≡ b.dropped_frames
  unfolding drain open_window
  drain-dropped now b = elim (Bool-cases (is_over b.window_start now)) [
    | inl t ↦
        rw t
          (emit_from-Same b.queue (record b { window_start = some now; window_count = 0 })).1.1.1.0
    | inr f ↦ rw f (emit_from-Same b.queue b).1.1.1.0
  ]

  report_to-dropped :
      (o : Option (ObserverFrameDraft P)) (b : TelemetryBuffer P)
      → (report_to w o b).dropped_frames ≡ 0
  unfolding report_to
  report_to-dropped none b = refl
  report_to-dropped (some r) b = refl

  -- With nothing to report, a round is the last.
  pump_on-last :
      (k now : ℕ) (b : TelemetryBuffer P)
      → b.dropped_frames ≡ 0
      → pump_on w (suc k) now b ≡ settle w now (drain w now b).queue (drain w now b)
  unfolding pump_on
  pump_on-last k now b h = rw (drain-dropped now b, h) (ground arith)

  -- The pump ends: the second of its rounds has nothing to report, so that more fuel gives the same.
  pub pump_enough :
      (k now : ℕ) (b : TelemetryBuffer P) → pump_on w (suc (suc k)) now b ≡ pump w now b
  unfolding pump pump_on
  pump_enough k now b =
      let d = drain w now b in
      let r = report_to w d.last_drop_route d in
      ap
        (λ again.
          if is_empty w d.queue && ltb 0 d.dropped_frames then again else settle w now d.queue d)
        (pump_on-last k now r (report_to-dropped d.last_drop_route d)
          ∙ sym (pump_on-last 0 now r (report_to-dropped d.last_drop_route d)))
