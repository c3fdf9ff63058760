-- ===== src/Tests/Runtimes.antt =====
-- The theorems on the runtime, the channel registry, the controls and the channel tables at concrete runs.
use autogent.Prelude.{
  arith, ◌<◌, false, ◌+◌, ◌≤◌, ◌≡◌, refl, String, Bool, true, false, none, some, List, [], ◌∷◌,
  ◌++◌, All, codes,
}
use autogent.JsMap
use autogent.Utf16.{Utf16, trim_end, trim_start, is_space, starts_with}
use autogent.Nostr.{NostrEvent, kind_chat}
use autogent.ChannelMetadata.{ChannelInfo, stream}
use autogent.Gate.{AuthorGateOptions, create_author_gate, owner_only}
use autogent.Control.{cancel, wire, mentions_agent, parse_control_command, strip_one_mention}
use autogent.Control.Stripping.{IsPart, parse_control_command_sound}
use autogent.Registry
use autogent.Registry.{
  ChannelDescriptor, ChannelRegistry, begin_remove, release_removed, finish_remove, add,
}
use autogent.Registry.Closing.{
  Call, added, submitted, remove_begun, remove_released, remove_finished, all_cancelled,
  NothingAfterClose, closed,
}
use autogent.Registry.Closing
use autogent.Registry.Quiet.{run-quiet}
use autogent.Registry.Readd.{readded_marked_removed}
use autogent.Runtime.{AppRuntime, Step, received, gated, recovering_at, running, run}
use autogent.Runtime.Rows.{submits, waits, stored}
use autogent.Runtime.Once.{submits_once, stored_never_submitted}
use autogent.Runtime.Trusted.{IsVouched}
use autogent.Runtime.Vouched.{run-AllVouched}
use autogent.State.Table.{any}
use autogent.State.Channels.{ChannelRecord, active_channel, removed_channel, get, is_row}
use autogent.State.Channels.Watermark.{
  Write, set_last_seen_call, upsert_call, writes, HasKept, writes-kept,
}
use autogent.Inactivity
use autogent.Inactivity.{Event, armed, active, time_passed, create}
use autogent.Inactivity.Expiry.{expires_idle}
use autogent.Inactivity.Idle.{IsWatching, run-IsWatching}
use autogent.State.Channels.Sequence.{allocate, numbered, allocate-numbered}
use autogent.State.Table.{find}
use autogent.Tests.Samples.{db}
use autogent.Prelude.Int.{pos}

abbrev verified : NostrEvent → Bool
verified _ = true

abbrev as_is : Utf16 → Utf16
as_is text = text

abbrev no_signature : String → String → String → Bool
no_signature _ _ _ = false

abbrev message : String → String → NostrEvent
message id author = record {
  unsigned = record {
    pubkey = author;
    created_at = 100;
    kind = 9;
    tags = ("h" ∷ "channel" ∷ []) ∷ ("p" ∷ "agent" ∷ []) ∷ [];
    content = codes "@bot !cancel";
  };
  id = id;
  sig = "sig";
}

parse_control_command_sound_example :
    ((message "first" "owner").kind ≡ kind_chat)
    × ((some "owner" ≡ some (message "first" "owner").pubkey)
        × ((mentions_agent (message "first" "owner").tags "agent" ≡ true)
            × IsPart (wire cancel) (message "first" "owner").content))
unfolding parse_control_command trim_end trim_start is_space strip_one_mention starts_with
parse_control_command_sound_example =
    parse_control_command_sound as_is (message "first" "owner") "agent" (some "owner")
      (some (codes "bot")) cancel refl

abbrev info : ChannelInfo
info = record {
  channel_id = "channel";
  name = none;
  type = stream;
  archived = false;
  metadata_known = true;
}

abbrev descriptor : ChannelDescriptor
descriptor = record { channel_id = "channel"; name = none; channel_type = stream }

abbrev calls : List Call
calls =
    added descriptor
    ∷ submitted "channel" (message "first" "owner")
    ∷ remove_begun "channel"
    ∷ added descriptor
    ∷ submitted "channel" (message "second" "owner")
    ∷ remove_released "channel"
    ∷ remove_finished "channel"
    ∷ []

run-quiet_example :
    NothingAfterClose [] (Closing.run calls (Registry.create "relay" [])).calls
    × All
        (λ e. closed e.1 (Closing.run calls (Registry.create "relay" [])).calls ≡ false)
        (Closing.run calls (Registry.create "relay" [])).actors
run-quiet_example = run-quiet "relay" [] calls

abbrev live : ChannelRegistry
live = record {
  relay_id = "relay";
  actors = ("channel", 0) ∷ [];
  descriptors = ("channel", descriptor) ∷ [];
  rows = [];
  created = 1;
  calls = [];
  released = [];
}

readded_marked_removed_example :
    let (going_on, closing) = begin_remove "channel" live in
    let final = finish_remove "channel" (release_removed "channel" (add descriptor closing)) in
    (Registry.has "channel" final ≡ true)
    × ((final.released ≡ live.released ++ "channel" ∷ [])
        × ((row : ChannelRecord) × ((get live.relay_id "channel" final.rows ≡ some row)
              × (row.status ≡ removed_channel))))
unfolding JsMap.has JsMap.get
readded_marked_removed_example = readded_marked_removed descriptor 0 live (refl, tt) refl

abbrev gate_options : AuthorGateOptions
gate_options = record {
  agent_pubkey = "agent";
  owner_pubkey = some "owner";
  respond_to = owner_only;
  allowed_authors = [];
  sibling_agents = [];
  cache_cap = 256;
}

abbrev started : AppRuntime
started = record {
  agent_pubkey = "agent";
  owner_pubkey = "owner";
  agent_name = codes "bot";
  relay_id = "relay";
  db = record { inbox = []; turns = []; turn_inputs = []; output_intents = []; outbox = [] };
  registry = live;
  gate = create_author_gate gate_options;
  phase = running;
  stop_reason = none;
  missing_core = false;
  missing_provider_auth = false;
  last_activity = 0;
  profile_dirty = false;
  waiting = [];
}

abbrev greeting : String → NostrEvent
greeting id = record (message id "owner") {
  unsigned = record {
    pubkey = "owner";
    created_at = 100;
    kind = 9;
    tags = ("h" ∷ "channel" ∷ []) ∷ [];
    content = codes "hello";
  };
}

abbrev steps : List Step
steps =
    received 10 (greeting "first") info
    ∷ received 11 (greeting "first") info
    ∷ gated 12 none 0
    ∷ recovering_at 13
    ∷ []

submits_once_example :
    (submits "first" (run verified as_is no_signature steps started).registry.calls ≤ 1)
    × (submits "first" (run verified as_is no_signature steps started).registry.calls
        ≤ stored "first" (run verified as_is no_signature steps started).db)
unfolding submits
submits_once_example = submits_once verified as_is no_signature "first" steps started refl refl

run-AllVouched_example :
    All
      (λ c. IsVouched verified as_is no_signature gate_options "owner" steps c.1)
      (run verified as_is no_signature steps started).registry.calls
run-AllVouched_example =
    run-AllVouched verified as_is no_signature gate_options "owner" steps started refl refl refl
      refl

-- Some events of the inbox were queued before a crash.
abbrev restarted : AppRuntime
restarted = record started { db = db }

stored_never_submitted_example :
    submits "second"
      (run verified as_is no_signature
        (recovering_at 300 ∷ received 301 (greeting "second") info ∷ [])
        restarted).registry.calls
    ≤ submits "second" restarted.registry.calls
unfolding any waits
stored_never_submitted_example =
    stored_never_submitted verified as_is no_signature "second"
      (recovering_at 300 ∷ received 301 (greeting "second") info ∷ []) restarted refl refl

abbrev channel_row : ChannelRecord
channel_row = record {
  relay_id = "relay";
  channel_id = "channel";
  status = active_channel;
  name = none;
  channel_type = stream;
  pi_session_id = some "session";
  pi_session_path = none;
  last_seen_created_at = some 50;
}

abbrev channel_writes : List Write
channel_writes =
    set_last_seen_call "relay" "channel" 40
    ∷ upsert_call (record channel_row { pi_session_id = none; last_seen_created_at = none })
    ∷ []

writes-kept_example :
    HasKept "relay" "channel" channel_row (writes channel_writes (channel_row ∷ []))
unfolding get find is_row
writes-kept_example =
    writes-kept channel_writes "relay" "channel" (channel_row ∷ []) channel_row refl

abbrev sessions : List String
sessions = "one" ∷ "two" ∷ "one" ∷ []

allocate-numbered_example : allocate sessions [] ≡ numbered [] sessions
allocate-numbered_example = allocate-numbered sessions

abbrev happenings : List Event
happenings = armed 0 (pos 5) ∷ active 1000 ∷ time_passed 5000 true ∷ time_passed 20000 false ∷ []

run-IsWatching_example : IsWatching (Inactivity.run happenings create)
run-IsWatching_example = run-IsWatching happenings

expires_idle_example :
    (false ≡ false)
    × (0
        < (Inactivity.run
            (armed 0 (pos 5) ∷ active 1000 ∷ time_passed 5000 false ∷ [])
            create).limit_ms)
    × (1000
          + (Inactivity.run
              (armed 0 (pos 5) ∷ active 1000 ∷ time_passed 5000 false ∷ [])
              create).limit_ms
        ≤ 6000)
unfolding Inactivity.run Inactivity.step Inactivity.arm Inactivity.note_activity Inactivity.fire
    Inactivity.fire_at Inactivity.check Inactivity.expire Inactivity.reschedule create
expires_idle_example =
    expires_idle (armed 0 (pos 5) ∷ []) (active 1000) (time_passed 5000 false ∷ []) 1000 6000 false
      refl (omega arith, tt) refl refl
