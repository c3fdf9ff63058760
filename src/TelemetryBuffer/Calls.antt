-- ===== src/TelemetryBuffer/Calls.antt =====
-- The calls of src/telemetry/telemetry-buffer.ts.
use autogent.Prelude.{
  ℕ, ◌+◌, String, ◌&&◌, not, Option, none, some, List, [], ◌∷◌, ◌++◌, if◌then◌else◌,
}
use Prim.Native.String.{◌++◌ as join}
use text.Mathlib.Text.{starts_with}
use autogent.JsMap
use autogent.JsMap.{JsMap}
use autogent.TelemetryBuffer.{
  ChunkIdentity, ToolStatus, ToolFrameIdentity, ObserverFrameDraft, Wire, PendingChunk,
  TelemetryBuffer, merge_tool_status, same_status, text_of, same_turn, chunk_key, pump, enqueue,
  is_empty,
}

module _ {P : Type 0} (w : Wire P) where
  abbrev Buffer : Type 0
  Buffer = TelemetryBuffer P

  unfoldable pub release_found : ℕ → String → Option (PendingChunk P) → Buffer → Buffer
  unfolding enqueue
  release_found now key none b = b
  release_found now key (some chunk) b =
      enqueue w now (record chunk.route { payload = w.chunk_payload chunk.identity })
        (record b { pending = JsMap.remove key b.pending })

  unfoldable pub release_chunk : ℕ → String → Buffer → Buffer
  unfolding release_found
  release_chunk now key b = release_found now key (JsMap.get key b.pending) b

  unfoldable pub release_all : ℕ → List String → Buffer → Buffer
  unfolding release_chunk
  release_all now [] b = b
  release_all now (key ∷ keys) b = release_all now keys (release_chunk now key b)

  -- The keys of a turn's open chunks, other than `but`.
  unfoldable pub keys_of_turn : Option String → Option String → JsMap (PendingChunk P) → List String
  unfolding same_turn
  keys_of_turn turn but [] = []
  keys_of_turn turn but ((key, chunk) ∷ rest) =
      let others = keys_of_turn turn but rest in
      if same_turn chunk.route.turn_id turn && not (same_turn (some key) but)
      then key ∷ others
      else others

  unfoldable pub flush_turn : ℕ → Option String → Buffer → Buffer
  unfolding release_all keys_of_turn
  flush_turn now turn b = release_all now (keys_of_turn turn none b.pending) b

  unfoldable pub coalesce :
      ℕ → String → ObserverFrameDraft P → ChunkIdentity → Option (PendingChunk P) → Buffer → Buffer
  coalesce now key draft identity none b = record b {
    pending =
        JsMap.set key
          (record { route = draft; identity = identity; due = now + b.coalesce_window_ms })
          b.pending;
  }
  coalesce now key draft identity (some chunk) b = record b {
    pending =
        JsMap.set key
          (record chunk {
            identity = record chunk.identity { text = chunk.identity.text ++ identity.text };
          })
          b.pending;
  }

  unfoldable pub push_chunk : ℕ → ObserverFrameDraft P → ChunkIdentity → Buffer → Buffer
  unfolding chunk_key keys_of_turn release_all coalesce
  push_chunk now draft identity b =
      let key = chunk_key w draft identity in
      let alone = release_all now (keys_of_turn draft.turn_id (some key) b.pending) b in
      coalesce now key draft identity (JsMap.get key alone.pending) alone

  unfoldable pub merged : Option ToolStatus → ToolStatus → ToolStatus
  unfolding merge_tool_status
  merged none status = status
  merged (some previous) status = merge_tool_status previous status

  -- A frame that keeps the merged status goes on as it is.
  unfoldable pub with_merged : ToolStatus → ToolStatus → ObserverFrameDraft P → ObserverFrameDraft P
  unfolding same_status
  with_merged status own draft =
      if same_status status own
      then draft
      else record draft { payload = w.with_tool_status draft.payload status }

  unfoldable pub guard_with :
      Option ToolFrameIdentity → ObserverFrameDraft P → Buffer → ObserverFrameDraft P × Buffer
  unfolding text_of merged with_merged
  guard_with none draft b = (draft, b)
  guard_with (some identity) draft b =
      let key = join (text_of draft.turn_id) (join "|" identity.tool_call_id) in
      let status = merged (JsMap.get key b.tool_status) identity.status in
      (
        with_merged status identity.status draft,
        record b { tool_status = JsMap.set key status b.tool_status },
      )

  unfoldable pub guard_tool_status : ObserverFrameDraft P → Buffer → ObserverFrameDraft P × Buffer
  unfolding guard_with
  guard_tool_status draft b = guard_with (w.read_tool_frame_identity draft.payload) draft b

  unfoldable pub push_as : Option ChunkIdentity → ℕ → ObserverFrameDraft P → Buffer → Buffer
  unfolding push_chunk flush_turn guard_tool_status enqueue
  push_as (some identity) now draft b = push_chunk now draft identity b
  push_as none now draft b =
      let (guarded, noted) = guard_tool_status draft (flush_turn now draft.turn_id b) in
      enqueue w now guarded noted

  unfoldable pub push : ℕ → ObserverFrameDraft P → Buffer → Buffer
  unfolding push_as
  push now draft b = push_as (w.read_chunk_identity draft.payload) now draft b

  -- `flush` up to its wait.
  unfoldable pub flush : ℕ → Buffer → Buffer
  unfolding release_all pump is_empty
  flush now b =
      let pumped = pump w now (release_all now (JsMap.keys b.pending) b) in
      if is_empty w pumped.queue
      then pumped
      else record pumped { drain_waiters = pumped.drain_waiters + 1 }

  unfoldable pub stop : ℕ → Buffer → Buffer
  unfolding release_all pump
  stop now b = record (pump w now (release_all now (JsMap.keys b.pending) b)) { pump_timer = none }

  without_prefix : String → JsMap ToolStatus → JsMap ToolStatus
  without_prefix prefix [] = []
  without_prefix prefix ((key, status) ∷ rest) =
      let others = without_prefix prefix rest in
      if starts_with key prefix then others else (key, status) ∷ others

  unfoldable pub forget_turn : ℕ → Option String → Buffer → Buffer
  unfolding flush_turn without_prefix text_of
  forget_turn now turn b =
      let flushed = flush_turn now turn b in
      record flushed { tool_status = without_prefix (join (text_of turn) "|") flushed.tool_status }

  -- The pump's timer fires.
  unfoldable pub pump_due : ℕ → Buffer → Buffer
  unfolding pump
  pump_due now b = pump w now (record b { pump_timer = none })

  pub data Call : Type 0 where
    pushed : ℕ → ObserverFrameDraft P → Call
    flushed_at : ℕ → Call
    stopped_at : ℕ → Call
    turn_forgotten : ℕ → Option String → Call
    chunk_timer : ℕ → String → Call
    pump_timer_fired : ℕ → Call

  unfoldable pub step : Call → Buffer → Buffer
  step (pushed now draft) b = push now draft b
  step (flushed_at now) b = flush now b
  step (stopped_at now) b = stop now b
  step (turn_forgotten now turn) b = forget_turn now turn b
  step (chunk_timer now key) b = release_chunk now key b
  step (pump_timer_fired now) b = pump_due now b

  unfoldable pub run : List Call → Buffer → Buffer
  run [] b = b
  run (c ∷ cs) b = run cs (step c b)
