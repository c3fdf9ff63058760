-- ===== src/TelemetryBuffer/Order.antt =====
-- What the pump of src/telemetry/telemetry-buffer.ts does with the queue.
use autogent.Prelude.{
  ℕ, ◌+◌, ◌<◌, ◌≡◌, refl, sym, ◌∙◌, ap, inl, inr, ◌⊎◌, ◌&&◌, Option, none, some, List, [], ◌∷◌,
  ◌++◌, append_assoc, ltb, arith, if_cases,
}
use autogent.TelemetryBuffer.{
  ObserverFrameDraft, Wire, TelemetryBuffer, is_over, open_window, emit_from, drain, report_to,
  settle, is_empty, pump_on, pump,
}
use autogent.TelemetryBuffer.Pump.{emit_from-Same}

module _ {P : Type 0} (w : Wire P) where
  -- What was emitted and what is still to be, in order.
  abbrev pub stream : TelemetryBuffer P → List (ObserverFrameDraft P)
  stream b = b.emitted ++ b.queue

  emit_from-stream :
      (ds : List (ObserverFrameDraft P)) (b : TelemetryBuffer P)
      → stream (emit_from w ds b) ≡ b.emitted ++ ds
  unfolding emit_from
  emit_from-stream [] b = refl
  emit_from-stream (d ∷ ds) b =
      if_cases (λ (c : TelemetryBuffer P). stream c ≡ b.emitted ++ d ∷ ds)
        (ltb b.window_count b.max_frames_per_second)
        (λ _.
          emit_from-stream ds
            (record b { window_count = b.window_count + 1; emitted = b.emitted ++ d ∷ [] })
          ∙ append_assoc b.emitted (d ∷ []) ds)
        (λ _. refl)

  -- A round keeps the stream and what is known of the shed frames.
  abbrev Keeps : TelemetryBuffer P → TelemetryBuffer P → Type 0
  Keeps b c =
      (stream c ≡ stream b)
      × (c.dropped_frames ≡ b.dropped_frames)
      × (c.last_drop_route ≡ b.last_drop_route)
      × (c.max_queued_frames ≡ b.max_queued_frames)

  drain-Keeps : (now : ℕ) (b : TelemetryBuffer P) → Keeps b (drain w now b)
  unfolding drain open_window
  drain-Keeps now b =
      if_cases (λ (o : TelemetryBuffer P). Keeps b (emit_from w o.queue o))
        (is_over b.window_start now)
        (λ _. kept (record b { window_start = some now; window_count = 0 })) (λ _. kept b)
    where
      kept : (o : TelemetryBuffer P) → Keeps o (emit_from w o.queue o)
      kept o =
          let (a, (c, (r, (n, (l, m))))) = emit_from-Same w o.queue o in
          (emit_from-stream o.queue o, n, l, m)

  -- The frame that tells the owner how many were shed.
  abbrev pub diagnostic : ℕ → ℕ → ObserverFrameDraft P → ObserverFrameDraft P
  diagnostic dropped limit route = record route {
    kind = "acp_read";
    payload = w.diagnostic_payload dropped limit;
  }

  -- The stream stays, and so does the number to be reported; or the number is reported at the stream's end
  -- and is nought from then on, silently where no shed frame's route is known.
  abbrev pub Pumped : TelemetryBuffer P → TelemetryBuffer P → Type 0
  Pumped b c =
      ((stream c ≡ stream b) × (c.dropped_frames ≡ b.dropped_frames))
      ⊎ ((0 < b.dropped_frames)
          × (c.dropped_frames ≡ 0)
          × (((b.last_drop_route ≡ none) × (stream c ≡ stream b))
              ⊎ ((route : ObserverFrameDraft P) × (b.last_drop_route ≡ some route)
                  × (stream c
                      ≡ stream b ++ diagnostic b.dropped_frames b.max_queued_frames route ∷ []))))

  settle-Keeps :
      (now : ℕ) (ds : List (ObserverFrameDraft P)) (b : TelemetryBuffer P)
      → (stream (settle w now ds b) ≡ stream b)
        × ((settle w now ds b).dropped_frames ≡ b.dropped_frames)
  unfolding settle
  settle-Keeps now [] b = (refl, refl)
  settle-Keeps now (d ∷ ds) b = (refl, refl)

  -- The second round, after a report.
  after_report :
      (now : ℕ) (b : TelemetryBuffer P)
      → b.dropped_frames ≡ 0
      → (stream (pump_on w 1 now b) ≡ stream b) × ((pump_on w 1 now b).dropped_frames ≡ 0)
  unfolding pump_on
  after_report now b none_left =
      let d = drain w now b in
      let (s, n, l, m) = drain-Keeps now b in
      if_cases (λ (c : TelemetryBuffer P). (stream c ≡ stream b) × (c.dropped_frames ≡ 0))
        (is_empty w d.queue && ltb 0 d.dropped_frames)
        (λ more. absurd (ground (arith, more, n, none_left)))
        (λ _. let (x, y) = settle-Keeps now d.queue d in (x ∙ s, y ∙ (n ∙ none_left)))

  reported :
      (now : ℕ) (b d : TelemetryBuffer P)
      → Keeps b d
      → 0 < d.dropped_frames
      → (o : Option (ObserverFrameDraft P)) → d.last_drop_route ≡ o
      → Pumped b (pump_on w 1 now (report_to w o d))
  unfolding report_to
  reported now b d (s, n, l, m) shed none e =
      let (x, y) = after_report now (report_to w none d) refl in
      inr (omega (arith, shed, n), y, inl (sym l ∙ e, x ∙ s))
  reported now b d (s, n, l, m) shed (some route) e =
      let (x, y) = after_report now (report_to w (some route) d) refl in
      inr (
        omega (arith, shed, n),
        y,
        inr (
          route,
          sym l ∙ e,
          x
              ∙ (sym (append_assoc d.emitted d.queue _)
                  ∙ (ap (λ z. z ++ diagnostic d.dropped_frames d.max_queued_frames route ∷ []) s
                      ∙ (ap (λ k. stream b ++ diagnostic k d.max_queued_frames route ∷ []) n
                          ∙ ap (λ k. stream b ++ diagnostic b.dropped_frames k route ∷ []) m))),
        ),
      )

  -- The pump loses, repeats and reorders nothing: what was emitted and then what is queued is the same list
  -- before and after it, but for one diagnostic frame that it may put at the end. That frame is sent
  -- along the way of the last frame that was shed, it carries the number of those that were, and the
  -- number is nought from then on; where no frame's way is known, the number is cleared without it.
  pub pump_in_order : (now : ℕ) (b : TelemetryBuffer P) → Pumped b (pump w now b)
  unfolding pump pump_on
  pump_in_order now b =
      let d = drain w now b in
      let kept = drain-Keeps now b in
      if_cases (Pumped b) (is_empty w d.queue && ltb 0 d.dropped_frames)
        (λ more. reported now b d kept (ground (arith, more)) d.last_drop_route refl)
        (λ _. let (x, y) = settle-Keeps now d.queue d in inl (x ∙ kept.0, y ∙ kept.1))
