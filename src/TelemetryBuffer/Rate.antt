-- ===== src/TelemetryBuffer/Rate.antt =====
-- How many frames src/telemetry/telemetry-buffer.ts emits in one window.
use autogent.Prelude.{
  ℕ, zero, suc, ◌+◌, ◌≤◌, ◌<◌, ◌≡◌, refl, sym, ◌∙◌, ap, inl, inr, ◌⊎◌, String, true, ◌&&◌, Option,
  none, some, List, [], ◌∷◌, ◌++◌, length, length-append, arith, leb, ltb, if_cases,
}
use autogent.JsMap
use autogent.JsMap.{JsMap}
use autogent.TelemetryBuffer.{
  ChunkIdentity, ObserverFrameDraft, ToolFrameIdentity, PendingChunk, Wire, TelemetryBuffer,
  is_over, open_window, emit_from, drain, report_to, settle, is_empty, pump_on, pump, queue_parts,
  enqueue, chunk_key,
}
use autogent.TelemetryBuffer.Calls.{
  Call, pushed, flushed_at, stopped_at, turn_forgotten, chunk_timer, pump_timer_fired, step, run,
  release_found, release_chunk, release_all, keys_of_turn, flush_turn, coalesce, push_chunk,
  guard_with, guard_tool_status, push_as, push, flush, stop, forget_turn, pump_due,
}

module _ {P : Type 0} (w : Wire P) (rate t emitted counted : ℕ) where
  -- The window that started at `t` is still open, with as many frames emitted in it as are counted, or a
  -- later one is.
  abbrev Within : TelemetryBuffer P → Type 0
  Within b =
      (b.max_frames_per_second ≡ rate)
      × (((b.window_start ≡ some t)
            × (length b.emitted + counted ≤ emitted + b.window_count)
            × (b.window_count ≤ rate))
          ⊎ ((s : ℕ) × (b.window_start ≡ some s) × (t < s)))

  later_window : (s now : ℕ) → is_over (some s) now ≡ true → s < now
  unfolding is_over
  later_window s now h = ground (arith, h)

  open_window-Within : (now : ℕ) (b : TelemetryBuffer P) → Within b → Within (open_window w now b)
  unfolding open_window
  open_window-Within now b (m, h) =
      if_cases Within (is_over b.window_start now) (λ over. (m, inr (now, refl, next h over)))
        (λ _. (m, h))
    where
      next :
          ((b.window_start ≡ some t)
              × (length b.emitted + counted ≤ emitted + b.window_count)
              × (b.window_count ≤ rate))
            ⊎ ((s : ℕ) × (b.window_start ≡ some s) × (t < s))
          → is_over b.window_start now ≡ true
          → t < now
      next (inl (e, k, c)) over = later_window t now (ap (λ o. is_over o now) (sym e) ∙ over)
      next (inr (s, e, l)) over =
          omega (arith, l, later_window s now (ap (λ o. is_over o now) (sym e) ∙ over))

  emit_from-Within :
      (ds : List (ObserverFrameDraft P)) (b : TelemetryBuffer P)
      → Within b
      → Within (emit_from w ds b)
  unfolding emit_from
  emit_from-Within [] b h = h
  emit_from-Within (d ∷ ds) b (m, h) =
      if_cases Within (ltb b.window_count b.max_frames_per_second)
        (λ room.
          emit_from-Within ds
            (record b { window_count = b.window_count + 1; emitted = b.emitted ++ d ∷ [] })
            (m, one_more h room))
        (λ _. (m, h))
    where
      one_more :
          ((b.window_start ≡ some t)
              × (length b.emitted + counted ≤ emitted + b.window_count)
              × (b.window_count ≤ rate))
            ⊎ ((s : ℕ) × (b.window_start ≡ some s) × (t < s))
          → ltb b.window_count b.max_frames_per_second ≡ true
          → ((b.window_start ≡ some t)
              × (length (b.emitted ++ d ∷ []) + counted ≤ emitted + (b.window_count + 1))
              × (b.window_count + 1 ≤ rate))
            ⊎ ((s : ℕ) × (b.window_start ≡ some s) × (t < s))
      one_more (inl (e, k, c)) room =
          inl (e, omega (arith, k, length-append b.emitted (d ∷ [])), ground (arith, room, m))
      one_more (inr later) room = inr later

  drain-Within : (now : ℕ) (b : TelemetryBuffer P) → Within b → Within (drain w now b)
  unfolding drain
  drain-Within now b h =
      emit_from-Within (open_window w now b).queue (open_window w now b)
        (open_window-Within now b h)

  report_to-Within :
      (o : Option (ObserverFrameDraft P)) (b : TelemetryBuffer P)
      → Within b
      → Within (report_to w o b)
  unfolding report_to
  report_to-Within none b h = h
  report_to-Within (some r) b h = h

  settle-Within :
      (now : ℕ) (ds : List (ObserverFrameDraft P)) (b : TelemetryBuffer P)
      → Within b
      → Within (settle w now ds b)
  unfolding settle
  settle-Within now [] b h = h
  settle-Within now (d ∷ ds) b h = h

  pump_on-Within : (k now : ℕ) (b : TelemetryBuffer P) → Within b → Within (pump_on w k now b)
  unfolding pump_on
  pump_on-Within zero now b h = h
  pump_on-Within (suc k) now b h =
      let d = drain w now b in
      let drained = drain-Within now b h in
      if_cases Within (is_empty w d.queue && ltb 0 d.dropped_frames)
        (λ _.
          pump_on-Within k now (report_to w d.last_drop_route d)
            (report_to-Within d.last_drop_route d drained))
        (λ _. settle-Within now d.queue d drained)

  pump-Within : (now : ℕ) (b : TelemetryBuffer P) → Within b → Within (pump w now b)
  unfolding pump
  pump-Within now b h = pump_on-Within 2 now b h

  queue_parts-Within :
      (draft : ObserverFrameDraft P) (ps : List P) (b : TelemetryBuffer P)
      → Within b
      → Within (queue_parts w draft ps b)
  unfolding queue_parts
  queue_parts-Within draft [] b h = h
  queue_parts-Within draft (p ∷ ps) b h =
      queue_parts-Within draft ps _
        (if_cases Within (leb b.max_queued_frames (length b.queue)) (λ _. h) (λ _. h))

  enqueue-Within :
      (now : ℕ) (draft : ObserverFrameDraft P) (b : TelemetryBuffer P)
      → Within b
      → Within (enqueue w now draft b)
  unfolding enqueue
  enqueue-Within now draft b h =
      pump-Within now _
        (queue_parts-Within draft (w.split_frame_payload draft.payload b.payload_budget_bytes) b h)

  release_found-Within :
      (now : ℕ) (key : String) (o : Option (PendingChunk P)) (b : TelemetryBuffer P)
      → Within b
      → Within (release_found w now key o b)
  unfolding release_found
  release_found-Within now key none b h = h
  release_found-Within now key (some chunk) b h =
      enqueue-Within now _ (record b { pending = JsMap.remove key b.pending }) h

  release_all-Within :
      (now : ℕ) (keys : List String) (b : TelemetryBuffer P)
      → Within b
      → Within (release_all w now keys b)
  unfolding release_all release_chunk
  release_all-Within now [] b h = h
  release_all-Within now (key ∷ keys) b h =
      release_all-Within now keys _ (release_found-Within now key (JsMap.get key b.pending) b h)

  coalesce-Within :
      (now : ℕ) (key : String) (draft : ObserverFrameDraft P) (identity : ChunkIdentity)
      (o : Option (PendingChunk P)) (b : TelemetryBuffer P)
      → Within b
      → Within (coalesce w now key draft identity o b)
  unfolding coalesce
  coalesce-Within now key draft identity none b h = h
  coalesce-Within now key draft identity (some chunk) b h = h

  guard_with-Within :
      (o : Option ToolFrameIdentity) (draft : ObserverFrameDraft P) (b : TelemetryBuffer P)
      → Within b
      → Within (guard_with w o draft b).1
  unfolding guard_with
  guard_with-Within none draft b h = h
  guard_with-Within (some identity) draft b h = h

  push_as-Within :
      (o : Option ChunkIdentity) (now : ℕ) (draft : ObserverFrameDraft P) (b : TelemetryBuffer P)
      → Within b
      → Within (push_as w o now draft b)
  unfolding push_as push_chunk flush_turn guard_tool_status
  push_as-Within (some identity) now draft b h =
      let key = chunk_key w draft identity in
      let others = keys_of_turn w draft.turn_id (some key) b.pending in
      let alone = release_all w now others b in
      coalesce-Within now key draft identity (JsMap.get key alone.pending) alone
        (release_all-Within now others b h)
  push_as-Within none now draft b h =
      let flushed = release_all w now (keys_of_turn w draft.turn_id none b.pending) b in
      let (guarded, noted) =
        guard_with w (w.read_tool_frame_identity draft.payload) draft flushed in
      enqueue-Within now guarded noted (
        guard_with-Within (w.read_tool_frame_identity draft.payload) draft flushed
          (release_all-Within now (keys_of_turn w draft.turn_id none b.pending) b h))

  step-Within : (c : Call w) (b : TelemetryBuffer P) → Within b → Within (step w c b)
  unfolding step push flush stop forget_turn flush_turn release_chunk pump_due
  step-Within (pushed now draft) b h =
      push_as-Within (w.read_chunk_identity draft.payload) now draft b h
  step-Within (flushed_at now) b h =
      let released = release_all w now (JsMap.keys b.pending) b in
      let p = pump w now released in
      let kept = pump-Within now released (release_all-Within now (JsMap.keys b.pending) b h) in
      if_cases Within (is_empty w p.queue) (λ _. kept) (λ _. kept)
  step-Within (stopped_at now) b h =
      pump-Within now _ (release_all-Within now (JsMap.keys b.pending) b h)
  step-Within (turn_forgotten now turn) b h =
      release_all-Within now (keys_of_turn w turn none b.pending) b h
  step-Within (chunk_timer now key) b h = release_found-Within now key (JsMap.get key b.pending) b h
  step-Within (pump_timer_fired now) b h = pump-Within now (record b { pump_timer = none }) h

  run-Within : (cs : List (Call w)) (b : TelemetryBuffer P) → Within b → Within (run w cs b)
  unfolding run
  run-Within [] b h = h
  run-Within (c ∷ cs) b h = run-Within cs (step w c b) (step-Within c b h)

-- From a buffer with a window that started at `t` and in which no more frames than the rate are counted:
-- whatever is pushed, flushed, stopped and forgotten then, and whenever the timers fire, while that window
-- is the current one, no more frames were emitted since than the rate leaves of it.
pub window_rate :
    {P : Type 0} (w : Wire P) (t : ℕ) (b : TelemetryBuffer P) (cs : List (Call w))
    → b.window_start ≡ some t
    → b.window_count ≤ b.max_frames_per_second
    → (run w cs b).window_start ≡ some t
    → length (run w cs b).emitted + b.window_count ≤ length b.emitted + b.max_frames_per_second
window_rate {P} w t b cs start counted same =
    bounded
      (run-Within w b.max_frames_per_second t (length b.emitted) b.window_count cs b
        (refl, inl (start, omega arith, counted))).1
  where
    c : TelemetryBuffer P
    c = run w cs b

    times : {m n : ℕ} → ◌≡◌ {A = Option ℕ} (some m) (some n) → m ≡ n
    times e = cc

    bounded :
        ((c.window_start ≡ some t)
            × (length c.emitted + b.window_count ≤ length b.emitted + c.window_count)
            × (c.window_count ≤ b.max_frames_per_second))
          ⊎ ((s : ℕ) × (c.window_start ≡ some s) × (t < s))
        → length c.emitted + b.window_count ≤ length b.emitted + b.max_frames_per_second
    bounded (inl (e, k, l)) = omega (arith, k, l)
    bounded (inr (s, e, l)) = absurd (omega (arith, l, times (sym e ∙ same)))
