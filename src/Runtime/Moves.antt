-- ===== src/Runtime/Moves.antt =====
-- What a step of src/runtime/app-runtime.ts does to the number of the times that an event is on its way.
use autogent.Prelude.{
  ℕ, zero, suc, ◌+◌, ◌≤◌, ◌≡◌, refl, inl, inr, String, true, false, not, Option, none, some, List,
  [], ◌∷◌, ◌++◌, arith, Bool-cases, if◌then◌else◌, if_cases, ◌==◌, eq_iff,
}
use mathlib.Core.Path.{subst}
use autogent.JsMap
use autogent.Nostr.{NostrEvent}
use autogent.ChannelMetadata.{ChannelInfo}
use autogent.Gate.{AuthorDecision}
use autogent.Control.{ControlCommand, cancel, shutdown, rotate}
use autogent.Registry
use autogent.Registry.{ActorCall, submit_call, cancel_call, rotate_call, ChannelRegistry}
use autogent.State.Rows.{Db, InboxRecord, rejected}
use autogent.State.Table.{any}
use autogent.State.Table.Laws.{any-append}
use autogent.State.Inbox.{is_event}
use autogent.Runtime.{
  Waiting, AppRuntime, on_control_command, begin_stop, on_channel_added, sync_profile, on_decision,
  pass_on, ensure_channel, submit_to, reject, without, waiting_at, degraded, is_stopping,
}
use autogent.Runtime.Rows.{submits, waits, stored, told, closing, added, set_disposition-stored}

-- The events on their way: submitted, or waiting for the gate.
unfoldable pub total : String → AppRuntime → ℕ
total id r = submits id r.registry.calls + waits id r.waiting

-- From `r` to `s` no event came on its way but a new one of the inbox.
abbrev pub Moves : String → AppRuntime → AppRuntime → Type 0
Moves id r s =
    (total id s + stored id r.db ≤ total id r + stored id s.db) × (stored id r.db ≤ stored id s.db)

pub Moves-refl : (id : String) (r : AppRuntime) → Moves id r r
Moves-refl id r = (omega arith, omega arith)

pub Moves-trans : (id : String) (r s t : AppRuntime) → Moves id r s → Moves id s t → Moves id r t
Moves-trans id r s t (a, b) (c, d) = (omega (arith, a, c), omega (arith, b, d))

-- What leaves the inbox and the waiting handlers alone and submits nothing.
pub quiet :
    (id : String) (r s : AppRuntime)
    → submits id s.registry.calls ≤ submits id r.registry.calls
    → waits id s.waiting ≤ waits id r.waiting
    → stored id s.db ≡ stored id r.db
    → Moves id r s
unfolding total
quiet id r s a b c = (omega (arith, a, b, c), omega (arith, c))

pub begin_stop-Moves : (id reason : String) (r : AppRuntime) → Moves id r (begin_stop reason r)
unfolding begin_stop
begin_stop-Moves id reason r =
    if_cases (Moves id r) (is_stopping r.phase) (λ _. Moves-refl id r)
      (λ _. quiet id r _ (closing id r.registry) (omega arith) refl)

pub control-Moves :
    (id : String) (now : ℕ) (c : ControlCommand) (channel : String) (r : AppRuntime)
    → Moves id r (on_control_command now c channel r)
unfolding on_control_command Registry.cancel Registry.rotate
control-Moves id now cancel channel r =
    quiet id r _
      (omega (
        arith,
        told id (JsMap.get channel r.registry.actors) (cancel_call "owner_cancel") r.registry,
      ))
      (omega arith) refl
control-Moves id now rotate channel r =
    quiet id r _
      (omega (arith, told id (JsMap.get channel r.registry.actors) rotate_call r.registry))
      (omega arith) refl
control-Moves id now shutdown channel r =
    Moves-trans id r (record r { last_activity = now }) _
      (quiet id r _ (omega arith) (omega arith) refl)
      (begin_stop-Moves id "owner_shutdown" (record r { last_activity = now }))

pub channel_added-Moves :
    (id : String) (channel : ChannelInfo) (r : AppRuntime) → Moves id r (on_channel_added channel r)
unfolding on_channel_added sync_profile
channel_added-Moves id channel r =
    if_cases (Moves id r) (Registry.has channel.channel_id r.registry)
      (λ _. quiet id r _ (added id _ r.registry) (omega arith) refl)
      (λ _. quiet id r _ (added id _ r.registry) (omega arith) refl)

pub stored-bit : (id : String) (db : Db) → stored id db ≤ 1
unfolding stored
stored-bit id db = ground arith

pub there-stored : (id : String) (db : Db) → any (is_event id) db.inbox ≡ true → stored id db ≡ 1
unfolding stored
there-stored id db h = rw h refl

abbrev pub bit : String → NostrEvent → ℕ
bit id event = if event.id == id then 1 else 0

-- A new row counts once, under its own id.
pub insert-stored :
    (id : String) (row : InboxRecord) (db : Db)
    → any (is_event row.event_id) db.inbox ≡ false
    → stored id (record db { inbox = db.inbox ++ row ∷ [] })
      ≡ stored id db + (if row.event_id == id then 1 else 0)
unfolding stored any
insert-stored id row db new = elim (Bool-cases (row.event_id == id)) [
  | inl t ↦
      let same : row.event_id ≡ id = ground (arith, eq_iff row.event_id id, t) in
      let none_yet : any (is_event id) db.inbox ≡ false =
        subst (λ i. any (is_event i) db.inbox ≡ false) same new in
      rw (any-append (is_event id) db.inbox (row ∷ []), none_yet, t) refl
  | inr f ↦ rw (any-append (is_event id) db.inbox (row ∷ []), f) (ground arith)
]

abbrev pub bit_of : String → Option Waiting → ℕ
bit_of id none = 0
bit_of id (some (event, channel, asked)) = bit id event

-- From `r` to `s` one event that was taken out may have gone on.
abbrev pub MovesBy : String → ℕ → AppRuntime → AppRuntime → Type 0
MovesBy id b r s =
    (total id s + stored id r.db ≤ total id r + b + stored id s.db)
    × (stored id r.db ≤ stored id s.db)

pub Moves-by : (id : String) (b : ℕ) (r s : AppRuntime) → Moves id r s → MovesBy id b r s
Moves-by id b r s (x, y) = (omega (arith, x), y)

-- The taken event made up for.
pub taken-Moves :
    (id : String) (r rest s : AppRuntime) (b : ℕ)
    → (waits id rest.waiting + b ≤ waits id r.waiting)
      × ((submits id rest.registry.calls ≡ submits id r.registry.calls)
          × (stored id rest.db ≡ stored id r.db))
    → MovesBy id b rest s
    → Moves id r s
unfolding total
taken-Moves id r rest s b (w, (c, d)) (x, y) = (omega (arith, w, c, d, x), omega (arith, d, y))

pub without-waits :
    (id : String) (n : ℕ) (ws : List Waiting)
    → waits id (without n ws) + bit_of id (waiting_at n ws) ≤ waits id ws
unfolding waits without waiting_at
without-waits id n [] = omega arith
without-waits id zero ((e, channel, asked) ∷ ws) = omega arith
without-waits id (suc n) ((e, channel, asked) ∷ ws) = omega (arith, without-waits id n ws)

submit_to-MovesBy :
    (id : String) (now : ℕ) (event : NostrEvent) (channel : String) (r : AppRuntime)
    → MovesBy id (bit id event) r (submit_to now event channel r)
unfolding submit_to Registry.submit total
submit_to-MovesBy id now event channel r = (
  omega (
    arith,
    told id (JsMap.get channel r.registry.actors) (submit_call event)
        (record r.registry { rows = _ }),
  ),
  omega arith,
)

then-by :
    (id : String) (b : ℕ) (r s t : AppRuntime) → Moves id r s → MovesBy id b s t → MovesBy id b r t
then-by id b r s t (x, y) (z, w) = (omega (arith, x, z), omega (arith, y, w))

pass_on-MovesBy :
    (id : String) (now : ℕ) (event : NostrEvent) (channel : ChannelInfo) (r : AppRuntime)
    → MovesBy id (bit id event) r (pass_on now event channel r)
unfolding pass_on ensure_channel
pass_on-MovesBy id now event channel r =
    then-by id (bit id event) r (ensure_channel channel r) _
      (if_cases (Moves id r) (Registry.has channel.channel_id r.registry) (λ _. Moves-refl id r)
        (λ _. channel_added-Moves id channel r))
      (submit_to-MovesBy id now event channel.channel_id (ensure_channel channel r))

pub on_decision-MovesBy :
    (id : String) (d : AuthorDecision) (now : ℕ) (event : NostrEvent) (channel : ChannelInfo)
    (r : AppRuntime)
    → MovesBy id (bit id event) r (on_decision d now event channel r)
unfolding on_decision reject
on_decision-MovesBy id d now event channel r =
    let rejecting = Moves-by id (bit id event) r (reject event r) (
      quiet id r (reject event r) (omega arith) (omega arith)
        (set_disposition-stored id event.id rejected none r.db)) in
    if_cases (MovesBy id (bit id event) r) (not d.allowed) (λ _. rejecting)
      (λ _.
        if_cases (MovesBy id (bit id event) r) (degraded r) (λ _. rejecting)
          (λ _. pass_on-MovesBy id now event channel r))
