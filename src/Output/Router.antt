-- ===== src/Output/Router.antt =====
-- `OutputRouter` of src/runtime/output-router.ts over the outbox. `notify` wakes the publisher and
-- is counted; the builder is the port that signs a draft, a parameter.
pub mod Again
use autogent.Prelude.{
  ℕ, suc, String, Bool, true, false, Option, none, some, List, [], ◌∷◌, ◌++◌, map, ◌==◌, leb,
  if◌then◌else◌,
}
use autogent.Utf16.{Utf16, byte_length, is_blank}
use autogent.Nostr.{NostrTag, NostrEvent, kind_chat}
use autogent.Exec.{ok, Exec, ◌>>=◌, ◌>>◌, pure, modify}
use autogent.State.Rows.{OutputIntentState, OutputIntent, OutboxState, OutboxRecord, Db}
use autogent.State.Outbox.{put_intent, put_signed, set_intent_state}
use autogent.Turn.{TurnContext, includes}
use autogent.LogicalId.{logical_id}
use autogent.Output.Split.{split_message}

pub data OversizePolicy : Type 0 where
  split truncate reject : OversizePolicy

pub record OutputConfig : Type 0 where
  pub max_message_bytes : ℕ
  pub oversize_policy : OversizePolicy

-- What `build` is given: an event without its author, time, id and signature.
pub record Draft : Type 0 where
  pub kind : ℕ
  pub content : Utf16
  pub tags : List NostrTag

pub record RecordedOutput : Type 0 where
  pub intent : OutputIntent
  pub event : NostrEvent

pub record OutputState : Type 0 where
  pub db : Db
  pub ordinals : List (String × ℕ)
  pub notified : ℕ

-- `[...new Set(values)]`: the first of equal values stays.
dedupe_from : List String → List String → List String
dedupe_from seen [] = seen
dedupe_from seen (x ∷ xs) = dedupe_from (if includes x seen then seen else seen ++ x ∷ []) xs

unfoldable pub dedupe : List String → List String
unfolding dedupe_from includes
dedupe = dedupe_from []

unfoldable pub build_reply_tags : TurnContext → List NostrTag
unfolding dedupe
build_reply_tags c =
    ("h" ∷ c.channel_id ∷ [])
    ∷ ((if c.thread_root_event_id == c.primary_trigger_event_id
          then ("e" ∷ c.primary_trigger_event_id ∷ "" ∷ "root" ∷ []) ∷ []
          else ("e" ∷ c.thread_root_event_id ∷ "" ∷ "root" ∷ [])
            ∷ ("e" ∷ c.primary_trigger_event_id ∷ "" ∷ "reply" ∷ [])
            ∷ [])
        ++ map (λ pubkey. "p" ∷ pubkey ∷ []) (dedupe c.participant_pubkeys))

-- "\n\n[truncated]"
abbrev pub truncated_mark : Utf16
truncated_mark =
    10 ∷ 10 ∷ b'[' ∷ b't' ∷ b'r' ∷ b'u' ∷ b'n' ∷ b'c' ∷ b'a' ∷ b't' ∷ b'e' ∷ b'd' ∷ b']' ∷ []

abbrev chunks : Option (List Utf16) → List Utf16
chunks none = []
chunks (some cs) = cs

truncated : List Utf16 → List Utf16
truncated [] = []
truncated (head ∷ rest) = (head ++ truncated_mark) ∷ []

oversize : OversizePolicy → Utf16 → ℕ → List Utf16
oversize split text max = chunks (split_message text max)
oversize truncate text max = truncated (chunks (split_message text max))
oversize reject text max = []

unfoldable pub apply_oversize_policy : OutputConfig → Utf16 → List Utf16
unfolding oversize truncated
apply_oversize_policy config text =
    if leb (byte_length text) config.max_message_bytes
    then text ∷ []
    else oversize config.oversize_policy text config.max_message_bytes

abbrev pub count_of : String → List (String × ℕ) → ℕ
count_of id [] = 0
count_of id ((k, n) ∷ rest) = if k == id then n else count_of id rest

pub without : String → List (String × ℕ) → List (String × ℕ)
without id [] = []
without id ((k, n) ∷ rest) =
    let others = without id rest in if k == id then others else (k, n) ∷ others

-- The ordinal handed out is the count before the call.
pub bump_ordinal : String → OutputState → OutputState
unfolding without
bump_ordinal id s = record s {
  ordinals = (id, suc (count_of id s.ordinals)) ∷ without id s.ordinals;
}

unfoldable pub finish_turn : String → OutputState → OutputState
unfolding without
finish_turn id s = record s { ordinals = without id s.ordinals }

module _ (build : Draft → NostrEvent) (now : ℕ) where
  abbrev pub intent_of : TurnContext → String → ℕ → Utf16 → ℕ → OutputIntent
  intent_of c message index body ordinal = record {
    logical_id = logical_id c.turn_id message index;
    turn_id = c.turn_id;
    pi_message_id = message;
    ordinal = ordinal;
    content = body;
    channel_id = c.channel_id;
    reply_event_id = c.primary_trigger_event_id;
    root_event_id = c.thread_root_event_id;
    participant_pubkeys = dedupe c.participant_pubkeys;
    state = OutputIntentState.pending;
  }

  abbrev pub signed_of : OutputIntent → NostrEvent → OutboxRecord
  signed_of intent event = record {
    logical_id = intent.logical_id;
    event_id = event.id;
    kind = kind_chat;
    signed_event = event;
    state = OutboxState.pending;
    attempts = 0;
    next_retry_at = some now;
    last_error = none;
  }

  -- A new intent is signed and stored; one that was there already is left alone.
  pub store_signed : TurnContext → OutputIntent → Bool → Exec OutputState (List RecordedOutput)
  store_signed c intent false s = (ok [], s)
  store_signed c intent true s =
      let event =
        build (record { kind = kind_chat; content = intent.content; tags = build_reply_tags c }) in
      (
        ok ((record { intent = intent; event = event }) ∷ []),
        record s {
          db =
              set_intent_state intent.logical_id OutputIntentState.signed
                (put_signed (signed_of intent event) now s.db);
        },
      )

  pub put_intent_in : OutputIntent → Exec OutputState Bool
  put_intent_in intent s = let (r, db') = put_intent intent now s.db in (r, record s { db = db' })

  pub record_chunk : TurnContext → String → ℕ → Utf16 → Exec OutputState (List RecordedOutput)
  unfolding bump_ordinal store_signed put_intent_in
  record_chunk c message index body s =
      let intent = intent_of c message index body (count_of c.turn_id s.ordinals) in
      (do new ← put_intent_in intent; store_signed c intent new) (bump_ordinal c.turn_id s)

  -- The loop over the chunks, from chunk `index` on.
  pub record_chunks : TurnContext → String → ℕ → List Utf16 → Exec OutputState (List RecordedOutput)
  unfolding record_chunk
  record_chunks c message index [] s = (ok [], s)
  record_chunks c message index (body ∷ bodies) s =
      (do
        first ← record_chunk c message index body
        rest ← record_chunks c message (suc index) bodies
        pure (first ++ rest))
        s

  abbrev pub notify_if : List RecordedOutput → OutputState → OutputState
  notify_if [] s = s
  notify_if (r ∷ rs) s = record s { notified = suc s.notified }

  -- `record`
  unfoldable pub record_output :
      OutputConfig → TurnContext → String → Utf16 → Exec OutputState (List RecordedOutput)
  unfolding record_chunks
  record_output config c message text s =
      if is_blank text
      then (ok [], s)
      else (do
        recorded ← record_chunks c message 0 (apply_oversize_policy config text)
        modify (notify_if recorded)
        pure recorded)
          s
