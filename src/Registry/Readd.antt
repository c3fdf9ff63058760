-- ===== src/Registry/Readd.antt =====
-- A channel that comes back while src/runtime/channel-registry.ts waits for its actor to close.
use autogent.Prelude.{
  ℕ, ◌≡◌, refl, ◌∙◌, ap, sym, inl, inr, String, Bool, true, false, Option, none, some, List, [],
  ◌∷◌, ◌++◌, arith, Bool-cases, Option-cases, if◌then◌else◌, eq_refl,
}
use mathlib.Core.Option
use autogent.JsMap
use autogent.JsMap.Keys.{Unique, has-set, has-remove}
use autogent.State.Table.{find, any}
use autogent.State.Table.Laws.{
  when, is_some, find-update, any-find, any-update, any-append, find_sound,
}
use autogent.State.Channels.{
  ChannelRecord, ChannelStatus, removed_channel, is_row, on_conflict, upsert, get, set_status,
}
use autogent.Registry.{
  ChannelDescriptor, ChannelRegistry, row_of, add, has, forget, begin_remove, release_removed,
  finish_remove,
}

is_row-own : (r : ChannelRecord) → is_row r.relay_id r.channel_id r ≡ true
unfolding is_row
is_row-own r = ground (arith, eq_refl r.relay_id, eq_refl r.channel_id)

any_last : (a b : Bool) → b ≡ true → (if a then true else b) ≡ true
any_last true b h = refl
any_last false b h = h

same :
    (r x : ChannelRecord)
    → is_row r.relay_id r.channel_id (on_conflict r x) ≡ is_row r.relay_id r.channel_id x
unfolding is_row on_conflict
same r x = refl

upsert-there :
    (r : ChannelRecord) (rows : List ChannelRecord)
    → any (is_row r.relay_id r.channel_id) (upsert r rows) ≡ true
unfolding upsert any
upsert-there r rows = elim (Bool-cases (any (is_row r.relay_id r.channel_id) rows)) [
  | inl old ↦ rw old (
      any-update (is_row r.relay_id r.channel_id) (is_row r.relay_id r.channel_id) (on_conflict r)
        rows (same r)
      ∙ old)
  | inr new ↦ rw new (
      any-append (is_row r.relay_id r.channel_id) rows (r ∷ [])
      ∙ any_last (any (is_row r.relay_id r.channel_id) rows) _ (ground (arith, is_row-own r)))
]

keeps :
    (relay channel : String) (status : ChannelStatus) (x : ChannelRecord)
    → is_row relay channel (record x { status = status }) ≡ is_row relay channel x
unfolding is_row
keeps relay channel status x = refl

missing : (o : Option ChannelRecord) → o ≡ none → is_some o ≡ true → ⊥
missing none n h = cc
missing (some r) n h = cc

hit :
    (q : ChannelRecord → Bool) (f : ChannelRecord → ChannelRecord) (r : ChannelRecord)
    → q r ≡ true
    → when q f r ≡ f r
hit q f r h = rw h refl

row_there :
    (relay : String) (d : ChannelDescriptor) (rows : List ChannelRecord)
    → any (is_row relay d.channel_id) (upsert (row_of relay d) rows) ≡ true
unfolding row_of
row_there relay d rows = upsert-there (row_of relay d) rows

-- A row that is there has the status that is set.
set_status-there :
    (relay channel : String) (status : ChannelStatus) (rows : List ChannelRecord)
    → any (is_row relay channel) rows ≡ true
    → (row : ChannelRecord) × ((get relay channel (set_status relay channel status rows) ≡ some row)
        × (row.status ≡ status))
unfolding get set_status
set_status-there relay channel status rows h =
    let q = is_row relay channel in
    let f : ChannelRecord → ChannelRecord = λ row. record row { status = status } in
    elim (Option-cases (find q rows)) [
      | inl n ↦ absurd (missing (find q rows) n (sym (any-find q rows) ∙ h))
      | inr (r, e) ↦ (
        f r,
        (
          find-update q q f rows (keeps relay channel status)
              ∙ (ap (Option.map (when q f)) e ∙ ap some (hit q f r (find_sound q rows e))),
          refl,
        ),
      )
    ]

-- A channel that is granted again after `remove` has told its actor to close and before the close is
-- done: the channel has a new actor, which events reach, but `remove` then releases its
-- sessions and leaves the channel's row, from which the roster is made, marked as removed.
pub readded_marked_removed :
    (d : ChannelDescriptor) (i : ℕ) (g : ChannelRegistry)
    → Unique g.actors
    → JsMap.get d.channel_id g.actors ≡ some i
    → let (going_on, closing) = begin_remove d.channel_id g in
      let final = finish_remove d.channel_id (release_removed d.channel_id (add d closing)) in
      (has d.channel_id final ≡ true)
      × ((final.released ≡ g.released ++ d.channel_id ∷ [])
          × ((row : ChannelRecord) × ((get g.relay_id d.channel_id final.rows ≡ some row)
                × (row.status ≡ removed_channel))))
unfolding begin_remove release_removed finish_remove add forget has
readded_marked_removed d i g u e =
    rw (e, has-remove d.channel_id g.actors u)
      (
        has-set d.channel_id g.created (JsMap.remove d.channel_id g.actors),
        (
          refl,
          set_status-there g.relay_id d.channel_id removed_channel
              (upsert (row_of g.relay_id d) g.rows) (row_there g.relay_id d g.rows),
        ),
      )
