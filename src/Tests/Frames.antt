-- ===== src/Tests/Frames.antt =====
-- The theorems on the telemetry buffer at a concrete run.
use autogent.Prelude.{ℕ, suc, ◌≡◌, ◌≤◌, ◌+◌, refl, arith, none, some, List, [], ◌∷◌, length}
use autogent.JsMap
use autogent.TelemetryBuffer.{
  ObserverFrameDraft, Wire, TelemetryBuffer, pump_on, pump, drain, open_window, emit_from, is_over,
  report_to, settle, is_empty, queue_parts, enqueue, schedule,
}
use autogent.TelemetryBuffer.Calls.{
  Call, pushed, pump_timer_fired, run, step, push, push_as, flush_turn, keys_of_turn, release_all,
  guard_tool_status, guard_with, pump_due,
}
use autogent.TelemetryBuffer.Rate.{window_rate}
use autogent.TelemetryBuffer.Order.{Pumped, pump_in_order}
use autogent.TelemetryBuffer.Pump.{pump_enough}

-- A payload is a number; one above the budget is split in two.
abbrev wire : Wire ℕ
wire = record {
  read_chunk_identity = λ _. none;
  chunk_payload = λ _. 0;
  read_tool_frame_identity = λ _. none;
  with_tool_status = λ p _. p;
  split_frame_payload = λ p _. p ∷ p ∷ [];
  diagnostic_payload = λ dropped _. dropped;
}

abbrev draft : ObserverFrameDraft ℕ
draft = record {
  kind = "acp_read";
  channel_id = none;
  session_id = none;
  turn_id = some "turn-1";
  payload = 5;
}

abbrev empty : TelemetryBuffer ℕ
empty = record {
  coalesce_window_ms = 40;
  max_frames_per_second = 1;
  payload_budget_bytes = 10;
  max_queued_frames = 2;
  pending = [];
  queue = [];
  tool_status = [];
  drain_waiters = 0;
  window_start = none;
  window_count = 0;
  pump_timer = none;
  dropped_frames = 0;
  last_drop_route = none;
  emitted = [];
  resolved = 0;
  accepted = 0;
  reports = 0;
  reported = 0;
}

pump_enough_example : pump_on wire (suc (suc 3)) 10 empty ≡ pump wire 10 empty
pump_enough_example = pump_enough wire 3 10 empty

-- A window has just begun.
abbrev opened : TelemetryBuffer ℕ
opened = record empty { window_start = some 1000 }

abbrev frames : List (Call wire)
frames = pushed 1100 draft ∷ pump_timer_fired 1500 ∷ []

window_rate_example : length (run wire frames opened).emitted + 0 ≤ length opened.emitted + 1
unfolding run step push push_as flush_turn keys_of_turn release_all guard_tool_status guard_with
    pump_due enqueue queue_parts pump pump_on drain open_window emit_from is_over report_to settle
    is_empty schedule JsMap.get JsMap.keys
window_rate_example = window_rate wire 1000 opened frames refl (omega arith) refl

-- Three frames were shed.
abbrev shed : TelemetryBuffer ℕ
shed = record empty {
  max_frames_per_second = 5;
  queue = draft ∷ [];
  dropped_frames = 3;
  last_drop_route = some draft;
}

pump_in_order_example : Pumped wire shed (pump wire 1000 shed)
pump_in_order_example = pump_in_order wire 1000 shed
