-- ===== src/Registry.antt =====
-- src/runtime/channel-registry.ts: the live channel actors. An actor is named by the number of actors
-- made before it, and stands here for what is posted to it. `remove` and `closeAll` await the
-- actors' closes: each is two steps, and any other call can come between them.
pub mod Closing
pub mod Quiet
pub mod Readd
use autogent.Prelude.{
  ℕ, String, Bool, true, false, Option, none, some, List, [], ◌∷◌, ◌++◌, ◌+◌, if◌then◌else◌, ◌==◌,
}
use autogent.JsMap
use autogent.JsMap.{JsMap}
use autogent.Nostr.{NostrEvent}
use autogent.ChannelMetadata.{ChannelType}
use autogent.State.Channels.{ChannelRecord, active_channel, removed_channel, upsert, set_status}

pub record ChannelDescriptor : Type 0 where
  pub channel_id : String
  pub name : Option String
  pub channel_type : ChannelType

-- What an actor is told.
pub data ActorCall : Type 0 where
  submit_call : NostrEvent → ActorCall
  cancel_call : String → ActorCall
  rotate_call : ActorCall
  close_call : ActorCall

-- `created` counts the actors made, `calls` is what they were told, in order, `released` the channels
-- whose sessions the session registry was told to release: they stand for the actors and the
-- session registry. `rows` is the table of src/state/channel-repository.ts.
pub record ChannelRegistry : Type 0 where
  pub relay_id : String
  pub actors : JsMap ℕ
  pub descriptors : JsMap ChannelDescriptor
  pub rows : List ChannelRecord
  pub created : ℕ
  pub calls : List (ℕ × ActorCall)
  pub released : List String

unfoldable pub create : String → List ChannelRecord → ChannelRegistry
create relay_id rows = record {
  relay_id = relay_id;
  actors = [];
  descriptors = [];
  rows = rows;
  created = 0;
  calls = [];
  released = [];
}

unfoldable pub channel_ids : ChannelRegistry → List String
channel_ids g = JsMap.keys g.actors

unfoldable pub has : String → ChannelRegistry → Bool
has id g = JsMap.has id g.actors

unfoldable pub row_of : String → ChannelDescriptor → ChannelRecord
row_of relay_id descriptor = record {
  relay_id = relay_id;
  channel_id = descriptor.channel_id;
  status = active_channel;
  name = descriptor.name;
  channel_type = descriptor.channel_type;
  pi_session_id = none;
  pi_session_path = none;
  last_seen_created_at = none;
}

unfoldable pub add : ChannelDescriptor → ChannelRegistry → ChannelRegistry
unfolding row_of
add descriptor g =
    let known = record g {
      descriptors = JsMap.set descriptor.channel_id descriptor g.descriptors;
    } in
    if JsMap.has descriptor.channel_id g.actors then known else record known {
      rows = upsert (row_of g.relay_id descriptor) g.rows;
      actors = JsMap.set descriptor.channel_id g.created g.actors;
      created = g.created + 1;
    }

-- A call of the channel's actor, if there is one.
unfoldable pub tell : Option ℕ → ActorCall → ChannelRegistry → ChannelRegistry
tell none call g = g
tell (some actor) call g = record g { calls = g.calls ++ (actor, call) ∷ [] }

-- The result says whether there is an actor.
unfoldable pub submit : String → NostrEvent → ChannelRegistry → Bool × ChannelRegistry
unfolding tell
submit id event g = (JsMap.has id g.actors, tell (JsMap.get id g.actors) (submit_call event) g)

unfoldable pub cancel : String → String → ChannelRegistry → ChannelRegistry
unfolding tell
cancel id reason g = tell (JsMap.get id g.actors) (cancel_call reason) g

unfoldable pub rotate : String → ChannelRegistry → ChannelRegistry
unfolding tell
rotate id g = tell (JsMap.get id g.actors) rotate_call g

-- The loops over the actors, which tell each one the same.
unfoldable pub tell_each : ActorCall → JsMap ℕ → List (ℕ × ActorCall)
tell_each call [] = []
tell_each call ((id, actor) ∷ rest) = (actor, call) ∷ tell_each call rest

unfoldable pub cancel_all : String → ChannelRegistry → ChannelRegistry
unfolding tell_each
cancel_all reason g = record g { calls = g.calls ++ tell_each (cancel_call reason) g.actors }

-- `closeAll` up to its `await`.
unfoldable pub begin_close_all : ChannelRegistry → ChannelRegistry
unfolding tell_each
begin_close_all g = record g { calls = g.calls ++ tell_each close_call g.actors }

-- The rest of `closeAll`, when every actor has drained.
unfoldable pub finish_close_all : ChannelRegistry → ChannelRegistry
finish_close_all g = record g { actors = []; descriptors = [] }

unfoldable pub forget : Option ℕ → String → ChannelRegistry → ChannelRegistry
unfolding tell
forget none id g = g
forget (some actor) id g =
    tell (some actor) close_call
      (record g { actors = JsMap.remove id g.actors; descriptors = JsMap.remove id g.descriptors })

-- `remove` up to its first `await`; the result says whether it goes on.
unfoldable pub begin_remove : String → ChannelRegistry → Bool × ChannelRegistry
unfolding forget
begin_remove id g = (JsMap.has id g.actors, forget (JsMap.get id g.actors) id g)

-- `remove` from the end of the actor's close up to its next `await`.
unfoldable pub release_removed : String → ChannelRegistry → ChannelRegistry
release_removed id g = record g { released = g.released ++ id ∷ [] }

-- The rest of `remove`.
unfoldable pub finish_remove : String → ChannelRegistry → ChannelRegistry
finish_remove id g = record g { rows = set_status g.relay_id id removed_channel g.rows }
