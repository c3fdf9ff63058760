-- ===== src/Memberships/Metadata.antt =====
-- Which kind 39000 event of an answer src/nostr/memberships.ts goes by.
use autogent.Prelude.{
  ◌≡◌, ◌≢◌, refl, sym, ◌∙◌, ap, inl, inr, String, Bool, false, Option, none, some, List, [], ◌∷◌,
  arith, Bool-cases, ◌==◌, eq_iff, ne_of_eqb, if◌then◌else◌,
}
use mathlib.Core.Path.{subst}
use autogent.JsMap
use autogent.JsMap.{JsMap}
use autogent.JsMap.Laws.{get-set, get-set_other, get-has, has-some}
use autogent.Nostr.{NostrEvent}
use autogent.Memberships.{note_metadata, metadata_from, fetch_metadata}
use autogent.ChannelMetadata.{ChannelInfo, parse_channel_metadata}

unfoldable pub is_about : String → Option ChannelInfo → Bool
is_about id none = false
is_about id (some info) = info.channel_id == id

-- What the first metadata event about a channel says.
unfoldable pub first_info : String → List NostrEvent → Option ChannelInfo
unfolding is_about
first_info id [] = none
first_info id (event ∷ events) =
    let rest = first_info id events in
    if is_about id (parse_channel_metadata event) then parse_channel_metadata event else rest

or_first : Option ChannelInfo → Option ChannelInfo → Option ChannelInfo
or_first none b = b
or_first (some a) b = some a

or_first-none : (a : Option ChannelInfo) → or_first a none ≡ a
unfolding or_first
or_first-none none = refl
or_first-none (some a) = refl

old_first :
    (a : Option ChannelInfo) (b : ChannelInfo)
    → (i : ChannelInfo) × (a ≡ some i)
    → a ≡ or_first a (some b)
unfolding or_first
old_first none b h = cc
old_first (some a) b h = refl

note_same :
    (info : ChannelInfo) (found : JsMap ChannelInfo)
    → JsMap.get info.channel_id (note_metadata (some info) found)
      ≡ or_first (JsMap.get info.channel_id found) (some info)
unfolding note_metadata or_first
note_same info found = elim (Bool-cases (JsMap.has info.channel_id found)) [
  | inl old ↦
      rw old (old_first (JsMap.get info.channel_id found) info (has-some info.channel_id found old))
  | inr new ↦ rw (new, get-has info.channel_id found new) (get-set info.channel_id info found)
]

note_other :
    (id : String) (info : ChannelInfo) (found : JsMap ChannelInfo)
    → id ≢ info.channel_id
    → JsMap.get id (note_metadata (some info) found) ≡ JsMap.get id found
unfolding note_metadata
note_other id info found ne = elim (Bool-cases (JsMap.has info.channel_id found)) [
  | inl old ↦ rw old refl
  | inr new ↦ rw new (get-set_other id info.channel_id info found ne)
]

get-note_metadata :
    (id : String) (o : Option ChannelInfo) (found : JsMap ChannelInfo)
    → JsMap.get id (note_metadata o found)
      ≡ or_first (JsMap.get id found) (if is_about id o then o else none)
unfolding is_about note_metadata
get-note_metadata id none found = sym (or_first-none (JsMap.get id found))
get-note_metadata id (some info) found = elim (Bool-cases (info.channel_id == id)) [
  | inl same ↦ rw same (
      subst
        (λ i.
          JsMap.get i (note_metadata (some info) found) ≡ or_first (JsMap.get i found) (some info))
        (ground (arith, eq_iff info.channel_id id, same)) (note_same info found))
  | inr other ↦ rw other (
      note_other id info found (λ e. ne_of_eqb info.channel_id id other (sym e))
      ∙ sym (or_first-none (JsMap.get id found)))
]

or_first_assoc :
    (a b c : Option ChannelInfo) → or_first (or_first a b) c ≡ or_first a (or_first b c)
unfolding or_first
or_first_assoc none b c = refl
or_first_assoc (some a) b c = refl

first_info_step :
    (id : String) (o : Option ChannelInfo) (rest : Option ChannelInfo)
    → or_first (if is_about id o then o else none) rest ≡ (if is_about id o then o else rest)
unfolding or_first is_about
first_info_step id none rest = refl
first_info_step id (some info) rest = ground arith

metadata_from-first :
    (id : String) (events : List NostrEvent) (found : JsMap ChannelInfo)
    → JsMap.get id (metadata_from events found)
      ≡ or_first (JsMap.get id found) (first_info id events)
unfolding metadata_from first_info
metadata_from-first id [] found = sym (or_first-none (JsMap.get id found))
metadata_from-first id (event ∷ events) found =
    let o = parse_channel_metadata event in
    metadata_from-first id events (note_metadata o found)
    ∙ (ap (λ g. or_first g (first_info id events)) (get-note_metadata id o found)
        ∙ (or_first_assoc (JsMap.get id found) (if is_about id o then o else none)
              (first_info id events)
            ∙ ap (or_first (JsMap.get id found)) (first_info_step id o (first_info id events))))

-- What is known of a channel after a query is what the first metadata event about it in the
-- relay's answer says, however many later events about it follow and whatever their times are.
pub fetch_metadata-first :
    (id other : String) (others : List String) (answer : List NostrEvent)
    → JsMap.get id (fetch_metadata (other ∷ others) answer) ≡ first_info id answer
unfolding fetch_metadata or_first JsMap.get
fetch_metadata-first id other others answer = metadata_from-first id answer []
