-- ===== src/ChannelMetadata.antt =====
-- src/nostr/memberships.ts: what is known of a channel, and how it is read from a metadata event.
use autogent.Prelude.{
  ℕ, String, Bool, true, false, ◌||◌, Option, none, some, List, [], ◌∷◌, ◌==◌, eqb, if◌then◌else◌,
}
use autogent.Nostr.{NostrEvent, NostrTag, tag_value, tag_values}
use autogent.Turn.{includes}

pub data ChannelType : Type 0 where
  stream private_channel dm : ChannelType

pub record ChannelInfo : Type 0 where
  pub channel_id : String
  pub name : Option String
  pub type : ChannelType
  pub archived : Bool
  pub metadata_known : Bool

abbrev pub unknown_channel_type : ChannelType
unknown_channel_type = dm

unfoldable pub unknown_channel : String → ChannelInfo
unknown_channel id = record {
  channel_id = id;
  name = none;
  type = unknown_channel_type;
  archived = false;
  metadata_known = false;
}

abbrev pub kind_channel_metadata : ℕ
kind_channel_metadata = 39000

-- The set of the first elements of the tags.
tag_names : List NostrTag → List String
tag_names [] = []
tag_names ([] ∷ tags) = tag_names tags
tag_names ((name ∷ rest) ∷ tags) = name ∷ tag_names tags

type_of : List String → List String → ChannelType
type_of names topics =
    if includes "hidden" names || includes "dm" topics
    then dm
    else if includes "private" names || includes "private" topics
    then private_channel
    else stream

is_archived : Option String → Bool
is_archived none = false
is_archived (some v) = v == "true"

info_of : Option String → NostrEvent → Option ChannelInfo
unfolding tag_names type_of is_archived
info_of none event = none
info_of (some id) event =
    let info : ChannelInfo = record {
      channel_id = id;
      name = tag_value event.tags "name";
      type = type_of (tag_names event.tags) (tag_values event.tags "t");
      archived = is_archived (tag_value event.tags "archived");
      metadata_known = true;
    } in
    if id == "" then none else some info

unfoldable pub parse_channel_metadata : NostrEvent → Option ChannelInfo
unfolding info_of
parse_channel_metadata event =
    if eqb event.kind kind_channel_metadata then info_of (tag_value event.tags "d") event else none
