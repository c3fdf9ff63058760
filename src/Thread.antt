-- ===== src/Thread.antt =====
-- src/runtime/conversation-key.ts: the thread that an event belongs to, and the key of its
-- conversation.
pub mod Roots
use autogent.Prelude.{
  ℕ, zero, suc, String, Bool, true, false, ◌&&◌, ◌||◌, not, Option, none, some, List, [], ◌∷◌, ◌++◌,
  length, codes, ◌==◌, eqb, leb, if◌then◌else◌,
}
use Prim.Native.String.{◌++◌ as join}
use autogent.Nostr.{NostrTag, NostrEvent}

-- `tag[i]`, where `none` is `undefined`.
abbrev pub element : ℕ → NostrTag → Option String
element i [] = none
element zero (x ∷ xs) = some x
element (suc i) (x ∷ xs) = element i xs

unfoldable pub all_hex : List ℕ → Bool
all_hex [] = true
all_hex (c ∷ cs) = ((leb b'0' c && leb c b'9') || (leb b'a' c && leb c b'f')) && all_hex cs

-- HEX64: 64 lowercase hexadecimal digits.
unfoldable pub is_event_id : String → Bool
unfolding all_hex
is_event_id s = all_hex (codes s) && eqb (length (codes s)) 64

pub record ThreadTags : Type 0 where
  pub root_event_id : Option String
  pub reply_event_id : Option String

-- The variables of the loop of `parseThreadTags`.
pub record Scan : Type 0 where
  pub root : Option String
  pub reply : Option String
  pub unmarked : List String

pub data Marker : Type 0 where
  root_marker reply_marker no_marker other_marker : Marker

marker_of : Option String → Marker
marker_of none = no_marker
marker_of (some m) =
    if m == "root"
    then root_marker
    else if m == "reply"
    then reply_marker
    else if m == ""
    then no_marker
    else other_marker

note : Scan → String → Marker → Scan
note s id root_marker = record s { root = some id }
note s id reply_marker = record s { reply = some id }
note s id no_marker = record s { unmarked = s.unmarked ++ id ∷ [] }
note s id other_marker = s

-- The event id of an `e` tag, if it has a valid one.
unfoldable pub e_tag_id : NostrTag → Option String
unfolding is_event_id
e_tag_id (name ∷ id ∷ rest) = if name == "e" && is_event_id id then some id else none
e_tag_id _ = none

scan_id : Scan → NostrTag → Option String → Scan
scan_id s tag none = s
scan_id s tag (some id) = note s id (marker_of (element 3 tag))

unfoldable pub scan_tag : Scan → NostrTag → Scan
unfolding scan_id note marker_of e_tag_id
scan_tag s tag = scan_id s tag (e_tag_id tag)

unfoldable pub scan : Scan → List NostrTag → Scan
unfolding scan_tag
scan s [] = s
scan s (tag ∷ tags) = scan (scan_tag s tag) tags

abbrev pub first : List String → Option String
first [] = none
first (x ∷ xs) = some x

-- The last of two or more.
abbrev last_of_many : List String → Option String
last_of_many [] = none
last_of_many (x ∷ []) = none
last_of_many (x ∷ y ∷ []) = some y
last_of_many (x ∷ y ∷ z ∷ zs) = last_of_many (y ∷ z ∷ zs)

abbrev pub or_else : Option String → Option String → Option String
or_else none b = b
or_else (some a) b = some a

abbrev pub finish : Scan → ThreadTags
finish s = record {
  root_event_id = or_else s.root (first s.unmarked);
  reply_event_id = or_else s.reply (last_of_many s.unmarked);
}

abbrev pub empty_scan : Scan
empty_scan = record { root = none; reply = none; unmarked = [] }

unfoldable pub parse_thread_tags : List NostrTag → ThreadTags
unfolding scan
parse_thread_tags tags = finish (scan empty_scan tags)

abbrev pub get_or : String → Option String → String
get_or d none = d
get_or d (some x) = x

unfoldable pub canonical_thread_root : NostrEvent → String
unfolding parse_thread_tags
canonical_thread_root event = get_or event.id (parse_thread_tags event.tags).root_event_id

abbrev pub separator : String
separator = "\0"

-- The three parts with a NUL between them.
unfoldable pub conversation_key : String → String → String → String
conversation_key relay channel root =
    join relay (join separator (join channel (join separator root)))
