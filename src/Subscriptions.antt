-- ===== src/Subscriptions.antt =====
-- src/nostr/subscriptions.ts: which events of a subscription reach its consumer, and what the
-- relay is asked for after a reconnect.
pub mod Window
pub mod Floor
pub mod Lost
use autogent.Prelude.{
  ℕ, String, Bool, true, false, ◌||◌, Option, none, some, List, [], ◌∷◌, map, length, ◌+◌, ltb, leb,
  if◌then◌else◌,
}
use autogent.Prelude.Int.{ℤ, pos, ◌-ℤ◌, ltb_ℤ}
use autogent.JsMap
use autogent.JsMap.{JsMap}
use autogent.Nostr.{NostrEvent, NostrFilter}
use autogent.Turn.{includes}

abbrev pub replay_skew_sec : ℕ
replay_skew_sec = 5

abbrev pub seen_rotate_at : ℕ
seen_rotate_at = 6000

-- The two generations, each with its ids from the newest to the oldest.
pub record SeenEventIds : Type 0 where
  pub current : List String
  pub previous : List String
  pub rotate_at : ℕ

unfoldable pub create_seen : ℕ → SeenEventIds
create_seen n = record { current = []; previous = []; rotate_at = n }

unfoldable pub has : String → SeenEventIds → Bool
has id s = includes id s.current || includes id s.previous

unfoldable pub size : SeenEventIds → ℕ
size s = length s.current + length s.previous

-- The end of `admit`, once the id is in the current generation.
unfoldable pub rotate : SeenEventIds → SeenEventIds
rotate s =
    if leb s.rotate_at (length s.current)
    then record s { current = []; previous = s.current }
    else s

unfoldable pub admit : String → SeenEventIds → Bool × SeenEventIds
admit id s = if has id s then (false, s) else (true, rotate (record s { current = id ∷ s.current }))

-- `handlers.onEvent` is the caller's: the model keeps whether it throws on an event.
pub record SubscriptionRecord : Type 0 where
  pub id : String
  pub filters : List NostrFilter
  pub on_event_throws : NostrEvent → Bool
  pub last_seen : Option ℕ
  pub dropped_since : Option ℕ

pub record SubscribeOptions : Type 0 where
  pub id : String
  pub filters : List NostrFilter
  pub on_event_throws : NostrEvent → Bool

with_since : Option ℤ → NostrFilter → NostrFilter
with_since t filter = record filter { since = t }

-- The constructor strips `since`.
unfoldable pub create_record : SubscribeOptions → SubscriptionRecord
unfolding with_since
create_record options = record {
  id = options.id;
  filters = map (with_since none) options.filters;
  on_event_throws = options.on_event_throws;
  last_seen = none;
  dropped_since = none;
}

min_ℤ : ℤ → ℤ → ℤ
min_ℤ a b = if ltb_ℤ b a then b else a

base_of : ℤ → Option ℕ → ℤ
base_of startup_watermark none = startup_watermark
base_of startup_watermark (some t) = pos t -ℤ pos replay_skew_sec

rewound : ℤ → Option ℕ → ℤ
unfolding min_ℤ
rewound base none = base
rewound base (some t) = min_ℤ base (pos t)

unfoldable pub since : ℤ → SubscriptionRecord → ℤ
unfolding base_of rewound min_ℤ
since startup_watermark r = rewound (base_of startup_watermark r.last_seen) r.dropped_since

unfoldable pub filters_for : ℤ → SubscriptionRecord → List NostrFilter
unfolding since with_since
filters_for startup_watermark r = map (with_since (some (since startup_watermark r))) r.filters

later : Option ℕ → ℕ → Option ℕ
later none t = some t
later (some s) t = if ltb s t then some t else some s

earlier : Option ℕ → ℕ → Option ℕ
earlier none t = some t
earlier (some s) t = if ltb t s then some t else some s

unfoldable pub note_delivered : NostrEvent → SubscriptionRecord → SubscriptionRecord
unfolding later
note_delivered event r = record r { last_seen = later r.last_seen event.created_at }

unfoldable pub note_dropped : ℕ → SubscriptionRecord → SubscriptionRecord
unfolding earlier
note_dropped created_at r = record r { dropped_since = earlier r.dropped_since created_at }

unfoldable pub note_replay_complete : SubscriptionRecord → SubscriptionRecord
note_replay_complete r = record r { dropped_since = none }

pub record SubscriptionRegistry : Type 0 where
  pub records : JsMap SubscriptionRecord
  pub seen : SeenEventIds
  pub startup_watermark : ℤ

unfoldable pub create : ℤ → ℕ → SubscriptionRegistry
unfolding create_seen
create startup_watermark n = record {
  records = [];
  seen = create_seen n;
  startup_watermark = startup_watermark;
}

unfoldable pub add : SubscribeOptions → SubscriptionRegistry → SubscriptionRegistry
unfolding create_record
add options g = record g { records = JsMap.set options.id (create_record options) g.records }

unfoldable pub remove : String → SubscriptionRegistry → Bool × SubscriptionRegistry
remove id g = (JsMap.has id g.records, record g { records = JsMap.remove id g.records })

-- What `deliver` does: nothing for an unknown subscription or a duplicate, hands the event to the
-- consumer, or passes on what the consumer threw.
pub data Delivery : Type 0 where
  not_delivered delivered delivery_failed : Delivery

-- The call of the consumer for an event that was admitted.
unfoldable pub hand_over :
    SubscriptionRecord → NostrEvent → SubscriptionRegistry → Delivery × SubscriptionRegistry
unfolding note_delivered note_dropped
hand_over r event g =
    let noted = note_delivered event r in
    if r.on_event_throws event
    then (
      delivery_failed,
      record g { records = JsMap.set r.id (note_dropped event.created_at noted) g.records },
    )
    else (delivered, record g { records = JsMap.set r.id noted g.records })

-- The event goes on to the record only when its id is new.
unfoldable pub deliver_to :
    Option SubscriptionRecord → NostrEvent → SubscriptionRegistry → Delivery × SubscriptionRegistry
unfolding admit hand_over
deliver_to none event g = (not_delivered, g)
deliver_to (some r) event g =
    let (fresh, seen) = admit event.id g.seen in
    if fresh then hand_over r event (record g { seen = seen }) else (not_delivered, g)

unfoldable pub deliver :
    String → NostrEvent → SubscriptionRegistry → Delivery × SubscriptionRegistry
unfolding deliver_to
deliver subscription_id event g = deliver_to (JsMap.get subscription_id g.records) event g
