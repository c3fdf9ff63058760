-- ===== src/Memberships.antt =====
-- src/nostr/memberships.ts: the channels that the agent is in, and its subscriptions to them.
-- A method that awaits the relay is two steps: what it does before, and what it does with the
-- relay's answer. Any other step can come in between. The relay's answer to a query is its argument.
pub mod Metadata
pub mod Invariant
pub mod Streams
pub mod Rejoin
use autogent.Prelude.{
  ℕ, String, Bool, true, false, ◌&&◌, ◌||◌, not, Option, none, some, List, [], ◌∷◌, ◌++◌, ◌==◌, eqb,
  if◌then◌else◌,
}
use Prim.Native.String.{◌++◌ as join}
use autogent.JsMap
use autogent.JsMap.{JsMap}
use autogent.Nostr.{
  NostrEvent, NostrFilter, NostrTag, tag_value, tag_values, channel_id_of, kind_chat,
}
use autogent.Turn.{includes}
use autogent.ChannelMetadata.{
  ChannelType, stream, ChannelInfo, unknown_channel_type, unknown_channel, parse_channel_metadata,
}

abbrev pub kind_membership_added : ℕ
kind_membership_added = 44100

abbrev pub kind_membership_removed : ℕ
kind_membership_removed = 44101

abbrev pub inbound_message_kinds : List ℕ
inbound_message_kinds = kind_chat ∷ 40007 ∷ 46010 ∷ []

pub data SubscribeMode : Type 0 where
  mentions all_messages : SubscribeMode

p_filter : SubscribeMode → String → List (String × List String)
p_filter mentions agent_pubkey = ("#p", agent_pubkey ∷ []) ∷ []
p_filter all_messages agent_pubkey = []

unfoldable pub channel_filter : String → String → SubscribeMode → NostrFilter
unfolding p_filter
channel_filter id agent_pubkey mode = record {
  ids = none;
  authors = none;
  kinds = some inbound_message_kinds;
  since = none;
  until = none;
  limit = none;
  search = none;
  tags = ("#h", id ∷ []) ∷ p_filter mode agent_pubkey;
}

unfoldable pub channel_subscription_id : String → String
channel_subscription_id id = join "ch-" id

-- `open_streams` are the relay's subscriptions that were opened for channels and not closed,
-- `added` and `removed` the calls of `onChannelAdded` and `onChannelRemoved`: they stand for the
-- relay and the application, not for a field.
pub record MembershipManager : Type 0 where
  pub agent_pubkey : String
  pub mode : SubscribeMode
  pub allowlist : List String
  pub channels : JsMap ChannelInfo
  pub subscriptions : JsMap NostrFilter
  pub stopped : Bool
  pub open_streams : JsMap NostrFilter
  pub added : List String
  pub removed : List String

unfoldable pub create : String → SubscribeMode → List String → MembershipManager
create agent_pubkey mode allowlist = record {
  agent_pubkey = agent_pubkey;
  mode = mode;
  allowlist = allowlist;
  channels = [];
  subscriptions = [];
  stopped = false;
  open_streams = [];
  added = [];
  removed = [];
}

-- An empty allowlist allows every channel.
unfoldable pub is_allowed : String → MembershipManager → Bool
is_allowed id m = elim m.allowlist [ [] ↦ true | x ∷ xs ↦ includes id (x ∷ xs) ]

-- The ids of the answer to the discovery query.
unfoldable pub discover_from : List String → List NostrEvent → MembershipManager → List String
discover_from seen [] m = []
discover_from seen (event ∷ events) m =
    let skipped = discover_from seen events m in
    elim (tag_value event.tags "d") [
      | none ↦ skipped
      | some id ↦
          let taken = discover_from (id ∷ seen) events m in
          if id == "" || includes id seen
          then skipped
          else if is_allowed id m
          then id ∷ taken
          else skipped
    ]

unfoldable pub discover_channel_ids : List NostrEvent → MembershipManager → List String
unfolding discover_from
discover_channel_ids events m = discover_from [] events m

-- One event of the loop of `#fetchMetadata`.
unfoldable pub note_metadata : Option ChannelInfo → JsMap ChannelInfo → JsMap ChannelInfo
note_metadata none found = found
note_metadata (some info) found =
    if JsMap.has info.channel_id found then found else JsMap.set info.channel_id info found

unfoldable pub metadata_from : List NostrEvent → JsMap ChannelInfo → JsMap ChannelInfo
unfolding note_metadata
metadata_from [] found = found
metadata_from (event ∷ events) found =
    metadata_from events (note_metadata (parse_channel_metadata event) found)

-- The relay is not asked about no channels.
unfoldable pub fetch_metadata : List String → List NostrEvent → JsMap ChannelInfo
unfolding metadata_from
fetch_metadata [] answer = []
fetch_metadata (id ∷ ids) answer = metadata_from answer []

-- The end of `#join`, for a channel that is not archived.
unfoldable pub subscribe : ChannelInfo → MembershipManager → MembershipManager
unfolding channel_filter channel_subscription_id
subscribe channel m =
    let id = channel.channel_id in
    let filter = channel_filter id m.agent_pubkey m.mode in
    if JsMap.has id m.subscriptions then m else record m {
      subscriptions = JsMap.set id filter m.subscriptions;
      open_streams = JsMap.set (channel_subscription_id id) filter m.open_streams;
      added = m.added ++ id ∷ [];
    }

unfoldable pub join_channel : ChannelInfo → MembershipManager → MembershipManager
unfolding subscribe
join_channel channel m =
    let known = record m { channels = JsMap.set channel.channel_id channel m.channels } in
    if m.stopped || not (is_allowed channel.channel_id m)
    then m
    else if channel.archived
    then known
    else subscribe channel known

unfoldable pub or_unknown : String → Option ChannelInfo → ChannelInfo
or_unknown id none = unknown_channel id
or_unknown id (some info) = info

unfoldable pub join_all : List String → JsMap ChannelInfo → MembershipManager → MembershipManager
unfolding join_channel or_unknown
join_all [] metadata m = m
join_all (id ∷ ids) metadata m =
    join_all ids metadata (join_channel (or_unknown id (JsMap.get id metadata)) m)

unfoldable pub leave : String → MembershipManager → MembershipManager
unfolding channel_subscription_id
leave id m =
    let closed = record m {
      subscriptions = JsMap.remove id m.subscriptions;
      open_streams = JsMap.remove (channel_subscription_id id) m.open_streams;
      channels = JsMap.remove id m.channels;
      removed = m.removed ++ id ∷ [];
    } in
    if JsMap.has id m.subscriptions || JsMap.has id m.channels then closed else m

-- What a membership notification about a channel leads to at once: nothing, or a query.
unfoldable pub notify_about :
    Option String → NostrEvent → MembershipManager → Option String × MembershipManager
unfolding leave
notify_about none event m = (none, m)
notify_about (some id) event m =
    if id == ""
    then (none, m)
    else if eqb event.kind kind_membership_removed
    then (none, leave id m)
    else if eqb event.kind kind_membership_added && not (JsMap.has id m.subscriptions)
    then (some id, m)
    else (none, m)

unfoldable pub on_membership_notification :
    NostrEvent → MembershipManager → Option String × MembershipManager
unfolding notify_about
on_membership_notification event m = notify_about (channel_id_of event) event m

-- The rest of the handler, with the relay's answer.
unfoldable pub on_granted : String → List NostrEvent → MembershipManager → MembershipManager
unfolding join_channel or_unknown
on_granted id answer m =
    join_channel (or_unknown id (JsMap.get id (fetch_metadata (id ∷ []) answer))) m

-- The rest of `start`, with the answers to its two queries.
unfoldable pub on_discovered :
    List NostrEvent → List NostrEvent → MembershipManager → MembershipManager
unfolding discover_channel_ids join_all
on_discovered members metadata m =
    let ids = discover_channel_ids members m in join_all ids (fetch_metadata ids metadata) m

close_streams : JsMap NostrFilter → JsMap NostrFilter → JsMap NostrFilter
close_streams [] streams = streams
close_streams ((id, filter) ∷ rest) streams =
    close_streams rest (JsMap.remove (channel_subscription_id id) streams)

unfoldable pub stop : MembershipManager → MembershipManager
unfolding close_streams
stop m = if m.stopped then m else record m {
  stopped = true;
  open_streams = close_streams m.subscriptions m.open_streams;
  subscriptions = [];
}

-- `resolveType`, where the cache knows the channel's metadata.
unfoldable pub known_type : String → MembershipManager → Option ChannelType
known_type id m = elim (JsMap.get id m.channels) [
  | none ↦ none
  | some known ↦ if known.metadata_known then some known.type else none
]

unfoldable pub note_fetched :
    String → Option ChannelInfo → MembershipManager → ChannelType × MembershipManager
note_fetched id none m = (unknown_channel_type, m)
note_fetched id (some fetched) m =
    if JsMap.has id m.channels
    then (fetched.type, record m { channels = JsMap.set id fetched m.channels })
    else (fetched.type, m)

-- The rest of `resolveType`, with the relay's answer.
unfoldable pub resolve_type :
    String → List NostrEvent → MembershipManager → ChannelType × MembershipManager
unfolding note_fetched
resolve_type id answer m = note_fetched id (JsMap.get id (fetch_metadata (id ∷ []) answer)) m

or_given : Option ChannelInfo → ChannelInfo → ChannelInfo
or_given none channel = channel
or_given (some current) channel = current

-- The channel that `onMessage` is called with for an event of the stream opened for `channel`.
unfoldable pub current_channel : ChannelInfo → MembershipManager → ChannelInfo
unfolding or_given
current_channel channel m = or_given (JsMap.get channel.channel_id m.channels) channel
