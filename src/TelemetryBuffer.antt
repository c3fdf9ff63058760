-- ===== src/TelemetryBuffer.antt =====
-- src/telemetry/telemetry-buffer.ts: what stands in front of the observer publisher. A payload is JSON of any
-- kind: how src/telemetry/buzz-desktop-compat.ts reads, writes and splits one is a `Wire`, of which
-- nothing is assumed. The clock's reading is an argument.
pub mod Calls
pub mod Pump
pub mod Rate
pub mod Order
use autogent.Prelude.{
  ℕ, zero, suc, ◌+◌, ◌-◌, String, Bool, true, false, ◌&&◌, ◌||◌, not, Option, none, some, List, [],
  ◌∷◌, ◌++◌, length, ◌==◌, eqb, leb, ltb, if◌then◌else◌,
}
use Prim.Native.String.{◌++◌ as join}
use autogent.JsMap
use autogent.JsMap.{JsMap}
use autogent.Utf16.{Utf16}

abbrev pub rate_window_ms : ℕ
rate_window_ms = 1000

abbrev pub observer_max_frames_per_second : ℕ
observer_max_frames_per_second = 100

abbrev pub default_max_queued_frames : ℕ
default_max_queued_frames = 500

pub data ChunkKind : Type 0 where
  agent_message_chunk agent_thought_chunk : ChunkKind

pub record ChunkIdentity : Type 0 where
  pub session_update : ChunkKind
  pub message_id : String
  pub text : Utf16

pub data ToolStatus : Type 0 where
  executing completed failed : ToolStatus

pub record ToolFrameIdentity : Type 0 where
  pub tool_call_id : String
  pub status : ToolStatus

unfoldable pub is_terminal_tool_status : ToolStatus → Bool
is_terminal_tool_status executing = false
is_terminal_tool_status _ = true

-- Terminal wins over anything transient.
unfoldable pub merge_tool_status : ToolStatus → ToolStatus → ToolStatus
unfolding is_terminal_tool_status
merge_tool_status existing next =
    if is_terminal_tool_status existing && not (is_terminal_tool_status next)
    then existing
    else next

unfoldable pub same_status : ToolStatus → ToolStatus → Bool
same_status executing executing = true
same_status completed completed = true
same_status failed failed = true
same_status _ _ = false

pub record ObserverFrameDraft (P : Type 0) : Type 0 where
  pub kind : String
  pub channel_id : Option String
  pub session_id : Option String
  pub turn_id : Option String
  pub payload : P

-- `diagnostic_payload dropped max` is the payload of the diagnostic about `dropped` frames.
pub record Wire (P : Type 0) : Type 0 where
  pub read_chunk_identity : P → Option ChunkIdentity
  pub chunk_payload : ChunkIdentity → P
  pub read_tool_frame_identity : P → Option ToolFrameIdentity
  pub with_tool_status : P → ToolStatus → P
  pub split_frame_payload : P → ℕ → List P
  pub diagnostic_payload : ℕ → ℕ → P

pub record PendingChunk (P : Type 0) : Type 0 where
  pub route : ObserverFrameDraft P
  pub identity : ChunkIdentity
  pub due : ℕ

-- `emitted` are the calls of `emitFrame`, `resolved` counts the waiters that were resolved, `accepted` the
-- frames that `#enqueue` was given in parts, `reports` the diagnostics and `reported` the frames that
-- they tell of: they stand for the publisher, the callers and the owner, not for a field.
-- `window_start` is `none` for minus infinity.
pub record TelemetryBuffer (P : Type 0) : Type 0 where
  pub coalesce_window_ms : ℕ
  pub max_frames_per_second : ℕ
  pub payload_budget_bytes : ℕ
  pub max_queued_frames : ℕ
  pub pending : JsMap (PendingChunk P)
  pub queue : List (ObserverFrameDraft P)
  pub tool_status : JsMap ToolStatus
  pub drain_waiters : ℕ
  pub window_start : Option ℕ
  pub window_count : ℕ
  pub pump_timer : Option ℕ
  pub dropped_frames : ℕ
  pub last_drop_route : Option (ObserverFrameDraft P)
  pub emitted : List (ObserverFrameDraft P)
  pub resolved : ℕ
  pub accepted : ℕ
  pub reports : ℕ
  pub reported : ℕ

-- `none` is the RangeError of the constructor.
unfoldable pub create : {P : Type 0} → ℕ → ℕ → ℕ → ℕ → Option (TelemetryBuffer P)
create window rate budget queued =
    if ltb window 25 || ltb 50 window
    then none
    else some (record {
      coalesce_window_ms = window;
      max_frames_per_second = rate;
      payload_budget_bytes = budget;
      max_queued_frames = queued;
      pending = [];
      queue = [];
      tool_status = [];
      drain_waiters = 0;
      window_start = none;
      window_count = 0;
      pump_timer = none;
      dropped_frames = 0;
      last_drop_route = none;
      emitted = [];
      resolved = 0;
      accepted = 0;
      reports = 0;
      reported = 0;
    })

unfoldable pub text_of : Option String → String
text_of none = ""
text_of (some t) = t

unfoldable pub kind_text : ChunkKind → String
kind_text agent_message_chunk = "agent_message_chunk"
kind_text agent_thought_chunk = "agent_thought_chunk"

unfoldable pub same_turn : Option String → Option String → Bool
same_turn none none = true
same_turn (some a) (some b) = a == b
same_turn _ _ = false

unfoldable pub is_over : Option ℕ → ℕ → Bool
is_over none now = true
is_over (some start) now = leb rate_window_ms (now - start)

window_end : Option ℕ → ℕ
window_end none = 0
window_end (some start) = start + rate_window_ms

-- `Math.max(1, delayMs)`
at_least_one : ℕ → ℕ
at_least_one n = if leb n 1 then 1 else n

unfoldable pub schedule : Option ℕ → ℕ → Option ℕ
schedule none at = some at
schedule (some timer) at = some timer

module _ {P : Type 0} (w : Wire P) where
  abbrev pub Buffer : Type 0
  Buffer = TelemetryBuffer P

  unfoldable pub chunk_key : ObserverFrameDraft P → ChunkIdentity → String
  unfolding text_of kind_text
  chunk_key draft identity =
      join (text_of draft.turn_id)
        (join "|" (join (kind_text identity.session_update) (join "|" identity.message_id)))

  -- The window's reset at the start of `#pump`.
  unfoldable pub open_window : ℕ → Buffer → Buffer
  unfolding is_over
  open_window now b =
      if is_over b.window_start now
      then record b { window_start = some now; window_count = 0 }
      else b

  -- The `while` loop of `#pump`, over the queue.
  unfoldable pub emit_from : List (ObserverFrameDraft P) → Buffer → Buffer
  emit_from [] b = record b { queue = [] }
  emit_from (draft ∷ drafts) b =
      let rest =
        emit_from drafts
          (record b { window_count = b.window_count + 1; emitted = b.emitted ++ draft ∷ [] }) in
      if ltb b.window_count b.max_frames_per_second
      then rest
      else record b { queue = draft ∷ drafts }

  -- `#reportOverflow` before it pumps again.
  unfoldable pub report_to : Option (ObserverFrameDraft P) → Buffer → Buffer
  report_to none b = record b { dropped_frames = 0; last_drop_route = none }
  report_to (some route) b = record b {
    dropped_frames = 0;
    last_drop_route = none;
    queue =
        b.queue
        ++ record route {
          kind = "acp_read";
          payload = w.diagnostic_payload b.dropped_frames b.max_queued_frames;
        }
          ∷ [];
    reports = b.reports + 1;
    reported = b.reported + b.dropped_frames;
  }

  -- The end of `#pump`.
  unfoldable pub settle : ℕ → List (ObserverFrameDraft P) → Buffer → Buffer
  unfolding schedule window_end at_least_one
  settle now [] b = record b { drain_waiters = 0; resolved = b.resolved + b.drain_waiters }
  settle now (d ∷ ds) b = record b {
    pump_timer = schedule b.pump_timer (now + at_least_one (window_end b.window_start - now));
  }

  unfoldable pub is_empty : List (ObserverFrameDraft P) → Bool
  is_empty [] = true
  is_empty (d ∷ ds) = false

  -- One round of `#pump`.
  unfoldable pub drain : ℕ → Buffer → Buffer
  unfolding open_window emit_from
  drain now b = let opened = open_window now b in emit_from opened.queue opened

  -- `#pump`, on fuel.
  unfoldable pub pump_on : ℕ → ℕ → Buffer → Buffer
  unfolding drain report_to settle is_empty
  pump_on zero now b = b
  pump_on (suc fuel) now b =
      let drained = drain now b in
      let again = pump_on fuel now (report_to drained.last_drop_route drained) in
      if is_empty drained.queue && ltb 0 drained.dropped_frames
      then again
      else settle now drained.queue drained

  -- A report clears what it reports, so the second round is the last.
  unfoldable pub pump : ℕ → Buffer → Buffer
  unfolding pump_on
  pump now b = pump_on 2 now b

  -- The loop of `#enqueue`, over the parts of a frame.
  unfoldable pub queue_parts : ObserverFrameDraft P → List P → Buffer → Buffer
  queue_parts draft [] b = b
  queue_parts draft (payload ∷ payloads) b =
      let counted = record b { accepted = b.accepted + 1 } in
      queue_parts draft payloads (
        if leb b.max_queued_frames (length b.queue)
        then record counted { dropped_frames = b.dropped_frames + 1; last_drop_route = some draft }
        else record counted { queue = b.queue ++ record draft { payload = payload } ∷ [] })

  unfoldable pub enqueue : ℕ → ObserverFrameDraft P → Buffer → Buffer
  unfolding queue_parts pump
  enqueue now draft b =
      pump now (queue_parts draft (w.split_frame_payload draft.payload b.payload_budget_bytes) b)
