-- ===== src/State/Channels.antt =====
-- src/state/channel-repository.ts over the tables that src/state/migrations.ts creates for it:
-- channels, observer_state and usage_baselines. The column counters_json holds its value.
pub mod Watermark
pub mod Sequence
use autogent.Prelude.{
  ℕ, String, Bool, true, false, ◌&&◌, Option, none, some, List, [], ◌∷◌, ◌++◌, ◌+◌, ◌-◌, ◌==◌,
  codes, leb, eqb, if◌then◌else◌,
}
use autogent.State.Table.{find, any, update, select, sort_by}
use autogent.State.Order.{not_after, by_text}
use autogent.ChannelMetadata.{ChannelType}

pub data ChannelStatus : Type 0 where
  active_channel removed_channel : ChannelStatus

pub record ChannelRecord : Type 0 where
  pub relay_id : String
  pub channel_id : String
  pub status : ChannelStatus
  pub name : Option String
  pub channel_type : ChannelType
  pub pi_session_id : Option String
  pub pi_session_path : Option String
  pub last_seen_created_at : Option ℕ

-- The primary key.
unfoldable pub is_row : String → String → ChannelRecord → Bool
is_row relay_id channel_id row = row.relay_id == relay_id && row.channel_id == channel_id

-- COALESCE(a, b), with a column for b, and COALESCE(t, 0).
unfoldable pub coalesce {ℓ} : {A : Type ℓ} → Option A → Option A → Option A
coalesce none b = b
coalesce (some a) b = some a

unfoldable pub time_of : Option ℕ → ℕ
time_of none = 0
time_of (some t) = t

unfoldable pub max : ℕ → ℕ → ℕ
max a b = if leb a b then b else a

-- NULLIF(t, 0).
unfoldable pub null_if_zero : ℕ → Option ℕ
null_if_zero t = if eqb t 0 then none else some t

-- ON CONFLICT DO UPDATE: the old row is the last argument.
unfoldable pub on_conflict : ChannelRecord → ChannelRecord → ChannelRecord
unfolding coalesce time_of max null_if_zero
on_conflict excluded row = record row {
  status = excluded.status;
  name = excluded.name;
  channel_type = excluded.channel_type;
  pi_session_id = coalesce excluded.pi_session_id row.pi_session_id;
  pi_session_path = coalesce excluded.pi_session_path row.pi_session_path;
  last_seen_created_at =
      null_if_zero (max (time_of excluded.last_seen_created_at) (time_of row.last_seen_created_at));
}

unfoldable pub upsert : ChannelRecord → List ChannelRecord → List ChannelRecord
unfolding is_row on_conflict
upsert r rows =
    if any (is_row r.relay_id r.channel_id) rows
    then update (is_row r.relay_id r.channel_id) (on_conflict r) rows
    else rows ++ r ∷ []

unfoldable pub get : String → String → List ChannelRecord → Option ChannelRecord
get relay_id channel_id rows = find (is_row relay_id channel_id) rows

is_active : ChannelStatus → Bool
is_active active_channel = true
is_active removed_channel = false

unfoldable pub active : String → List ChannelRecord → List ChannelRecord
unfolding is_active
active relay_id rows =
    sort_by (λ a b. not_after (by_text a.channel_id b.channel_id))
      (select (λ row. row.relay_id == relay_id && is_active row.status) rows)

unfoldable pub set_status :
    String → String → ChannelStatus → List ChannelRecord → List ChannelRecord
set_status relay_id channel_id status rows =
    update (is_row relay_id channel_id) (λ row. record row { status = status }) rows

unfoldable pub set_pi_session :
    String → String → String → Option String → List ChannelRecord → List ChannelRecord
set_pi_session relay_id channel_id session_id session_path rows =
    update (is_row relay_id channel_id)
      (λ row. record row { pi_session_id = some session_id; pi_session_path = session_path }) rows

unfoldable pub seen_until : ℕ → ChannelRecord → ChannelRecord
unfolding max time_of
seen_until t row = record row {
  last_seen_created_at = some (max (time_of row.last_seen_created_at) t);
}

unfoldable pub set_last_seen : String → String → ℕ → List ChannelRecord → List ChannelRecord
set_last_seen relay_id channel_id t rows = update (is_row relay_id channel_id) (seen_until t) rows

pub record ObserverState : Type 0 where
  pub session_id : String
  pub next_seq : ℕ

unfoldable pub is_session : String → ObserverState → Bool
is_session id row = row.session_id == id

unfoldable pub bump : ObserverState → ObserverState
bump row = record row { next_seq = row.next_seq + 1 }

returned : Option ObserverState → Option ℕ
returned none = none
returned (some row) = some (row.next_seq - 1)

-- The statement writes the row and returns it; `none` is the error of a missing row.
unfoldable pub next_observer_seq : String → List ObserverState → Option ℕ × List ObserverState
unfolding returned is_session bump
next_observer_seq id rows =
    let rows' =
      if any (is_session id) rows
      then update (is_session id) bump rows
      else rows ++ record { session_id = id; next_seq = 2 } ∷ [] in
    (returned (find (is_session id) rows'), rows')

pub record UsageBaseline (J : Type 0) : Type 0 where
  pub session_id : String
  pub turn_seq : ℕ
  pub counters : J

unfoldable pub is_baseline : {J : Type 0} → String → UsageBaseline J → Bool
is_baseline id row = row.session_id == id

unfoldable pub get_usage_baseline :
    {J : Type 0} → String → List (UsageBaseline J) → Option (UsageBaseline J)
unfolding is_baseline
get_usage_baseline id rows = find (is_baseline id) rows

unfoldable pub set_usage_baseline :
    {J : Type 0} → String → ℕ → J → List (UsageBaseline J) → List (UsageBaseline J)
unfolding is_baseline
set_usage_baseline id turn_seq counters rows =
    if any (is_baseline id) rows
    then update (is_baseline id) (λ row. record row { turn_seq = turn_seq; counters = counters })
        rows
    else rows ++ record { session_id = id; turn_seq = turn_seq; counters = counters } ∷ []
