-- ===== src/Nostr.antt =====
-- src/nostr/types.ts: a signed event and the kinds that the modelled code reads or writes.
use autogent.Prelude.{ℕ, String, List, [], ◌∷◌, Option, none, some, ◌==◌, if◌then◌else◌}
use autogent.Prelude.Int.{ℤ}
use autogent.Utf16.{Utf16}

-- A raw tag: the first element is the tag's name.
abbrev pub NostrTag : Type 0
NostrTag = List String

-- An event before its id and signature are computed.
pub record UnsignedNostrEvent : Type 0 where
  pub pubkey : String
  pub created_at : ℕ
  pub kind : ℕ
  pub tags : List NostrTag
  pub content : Utf16

pub record NostrEvent : Type 0 where
  pub unsigned : UnsignedNostrEvent
  pub open unsigned use *
  pub id : String
  pub sig : String

abbrev pub kind_chat : ℕ
kind_chat = 9

-- A relay subscription filter; `tags` holds its `#<letter>` fields.
pub record NostrFilter : Type 0 where
  pub ids : Option (List String)
  pub authors : Option (List String)
  pub kinds : Option (List ℕ)
  pub since : Option ℤ
  pub until : Option ℤ
  pub limit : Option ℕ
  pub search : Option String
  pub tags : List (String × List String)

-- `tag[0] === name && tag.length > 1`, with the value.
named : String → NostrTag → Option String
named name (t ∷ v ∷ rest) = if t == name then some v else none
named name _ = none

first_named : String → List NostrTag → Option String
unfolding named
first_named name [] = none
first_named name (tag ∷ tags) =
    let rest = first_named name tags in elim (named name tag) [ some v ↦ some v | none ↦ rest ]

unfoldable pub tag_value : List NostrTag → String → Option String
unfolding first_named named
tag_value tags name = first_named name tags

all_named : String → List NostrTag → List String
unfolding named
all_named name [] = []
all_named name (tag ∷ tags) =
    let rest = all_named name tags in elim (named name tag) [ some v ↦ v ∷ rest | none ↦ rest ]

unfoldable pub tag_values : List NostrTag → String → List String
unfolding all_named named
tag_values tags name = all_named name tags

unfoldable pub channel_id_of : NostrEvent → Option String
unfolding tag_value
channel_id_of event = tag_value event.tags "h"
