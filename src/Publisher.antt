-- ===== src/Publisher.antt =====
-- src/nostr/publisher.ts: the order of a drain and the drain itself. The relay and the clock are
-- outside; what they answer is in `Drain`. The sleep between drains, the wake-up and the log are
-- not modelled.
pub mod Order
pub mod Gaps
use autogent.Prelude.{
  ℕ, zero, suc, ◌+◌, ◌-◌, ◌*◌, ◌^◌, String, Bool, true, false, List, [], ◌∷◌, ◌++◌, map, ◌==◌, leb,
  Option, none, some, if◌then◌else◌,
}
use autogent.Nostr.{NostrEvent}
use autogent.State.Table.{any, sort_by}
use autogent.State.Order.{then_by, not_after, by_number}
use autogent.State.Rows.{OutboxRecord, Db}
use autogent.State.Outbox.{mark_published, mark_failed, mark_dead_letter, due_publishes}
use autogent.LogicalId.{split_logical_id}

-- The turn that an output belongs to, as `splitLogicalId` reads it.
abbrev pub turn_of : OutboxRecord → String
turn_of r = (split_logical_id r.logical_id).turn_id

pub record Entry : Type 0 where
  pub ordinal : ℕ
  pub index : ℕ
  pub out : OutboxRecord

-- An entry of the Map `groups`, which iterates in the order of insertion.
pub record Group : Type 0 where
  pub turn_id : String
  pub entries : List Entry

unfoldable pub push : String → Entry → List Group → List Group
push turn e [] = record { turn_id = turn; entries = e ∷ [] } ∷ []
push turn e (g ∷ gs) =
    if g.turn_id == turn
    then (record g { entries = g.entries ++ e ∷ [] }) ∷ gs
    else g ∷ push turn e gs

unfoldable pub group_from : ℕ → List OutboxRecord → List Group → List Group
unfolding push
group_from n [] gs = gs
group_from n (r ∷ rs) gs = group_from (suc n) rs (
    push (turn_of r)
      (record { ordinal = (split_logical_id r.logical_id).ordinal; index = n; out = r }) gs)

abbrev pub entry_order : Entry → Entry → Bool
entry_order a b = not_after (then_by (by_number a.ordinal b.ordinal) (by_number a.index b.index))

unfoldable pub in_order : List Group → List OutboxRecord
in_order [] = []
in_order (g ∷ gs) = map (λ e. e.out) (sort_by entry_order g.entries) ++ in_order gs

unfoldable pub order_for_publish : List OutboxRecord → List OutboxRecord
order_for_publish records = in_order (group_from 0 records [])

pub record PublishResult : Type 0 where
  pub ok : Bool
  pub terminal : Bool
  pub message : String

pub record OutboxPublisherOptions : Type 0 where
  pub max_attempts : ℕ
  pub base_retry_ms : ℕ
  pub max_retry_ms : ℕ

-- The defaults of the constructor.
abbrev pub default_options : OutboxPublisherOptions
default_options = record { max_attempts = 6; base_retry_ms = 1000; max_retry_ms = 300000 }

-- What is outside during one drain: the clock at its start and at the failure of its `n`-th
-- record, the relay's answer to the `n`-th record, and whether the publisher is stopped before it.
pub record Drain : Type 0 where
  pub now : ℕ
  pub failed_at : ℕ → ℕ
  pub publish : ℕ → NostrEvent → PublishResult
  pub stopped : ℕ → Bool

-- `sent` are the records handed to the relay, in order.
pub record Progress : Type 0 where
  pub db : Db
  pub blocked_turns : List String
  pub published : ℕ
  pub sent : List OutboxRecord

abbrev min : ℕ → ℕ → ℕ
min a b = if leb a b then a else b

unfoldable pub retry_delay_ms : OutboxPublisherOptions → ℕ → ℕ
retry_delay_ms o attempts = min (o.base_retry_ms * 2 ^ (attempts - 1)) o.max_retry_ms

abbrev pub is_blocked : String → Progress → Bool
is_blocked turn p = any (λ t. t == turn) p.blocked_turns

-- The relay refused the record.
unfoldable pub reject : OutboxPublisherOptions → Drain → ℕ → OutboxRecord → PublishResult → Db → Db
reject o d n r result db =
    if result.terminal
    then mark_dead_letter r.logical_id result.message db
    else if leb o.max_attempts (suc r.attempts)
    then mark_dead_letter r.logical_id result.message db
    else mark_failed r.logical_id result.message
        (some (d.failed_at n + retry_delay_ms o (suc r.attempts))) db

-- A record that is not skipped.
unfoldable pub send : OutboxPublisherOptions → Drain → ℕ → OutboxRecord → Progress → Progress
send o d n r p =
    let result = d.publish n r.signed_event in
    if result.ok
    then record p {
      db = mark_published r.logical_id p.db;
      published = suc p.published;
      sent = p.sent ++ r ∷ [];
    }
    else record p {
      db = reject o d n r result p.db;
      blocked_turns = turn_of r ∷ p.blocked_turns;
      sent = p.sent ++ r ∷ [];
    }

-- The loop of `drainOnce` from its `n`-th record.
unfoldable pub drain_from :
    OutboxPublisherOptions → Drain → ℕ → List OutboxRecord → Progress → Progress
drain_from o d n [] p = p
drain_from o d n (r ∷ rs) p =
    let rest = drain_from o d (suc n) rs (if is_blocked (turn_of r) p then p else send o d n r p) in
    if d.stopped n then p else rest

unfoldable pub drain_once : OutboxPublisherOptions → Drain → Db → Progress
drain_once o d db =
    drain_from o d 0 (order_for_publish (due_publishes d.now db))
      (record { db = db; blocked_turns = []; published = 0; sent = [] })
