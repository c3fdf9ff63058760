-- ===== src/State/Channels/Watermark.antt =====
-- A channel's row in src/state/channel-repository.ts, whatever the repository is asked to do later.
use autogent.Prelude.{
  ℕ, ◌≤◌, ◌≡◌, refl, ◌∙◌, ap, String, Bool, true, ◌&&◌, Option, none, some, List, [], ◌∷◌, arith,
  Bool-cases, inl, inr, ◌==◌, eqb_iff, if_cases,
}
use native.Mathlib.Nat.{le_refl, le_trans}
use mathlib.Core.Option
use autogent.State.Table.{find, any, update}
use autogent.State.Table.Laws.{when, or_else, is_some, find-update, find-append}
use autogent.State.Channels.{
  ChannelRecord, ChannelStatus, is_row, on_conflict, coalesce, time_of, max, null_if_zero, upsert,
  get, set_status, set_pi_session, seen_until, set_last_seen,
}

-- A call of a method that writes.
pub data Write : Type 0 where
  upsert_call : ChannelRecord → Write
  set_status_call : String → String → ChannelStatus → Write
  set_pi_session_call : String → String → String → Option String → Write
  set_last_seen_call : String → String → ℕ → Write

unfoldable pub write : Write → List ChannelRecord → List ChannelRecord
write (upsert_call r) rows = upsert r rows
write (set_status_call relay channel status) rows = set_status relay channel status rows
write (set_pi_session_call relay channel id path) rows = set_pi_session relay channel id path rows
write (set_last_seen_call relay channel t) rows = set_last_seen relay channel t rows

unfoldable pub writes : List Write → List ChannelRecord → List ChannelRecord
writes [] rows = rows
writes (w ∷ ws) rows = writes ws (write w rows)

-- A later row of the same channel: its watermark has not gone back and it has not lost its session.
abbrev pub IsKept : ChannelRecord → ChannelRecord → Type 0
IsKept r s =
    (s.relay_id ≡ r.relay_id)
    × ((s.channel_id ≡ r.channel_id)
        × ((time_of r.last_seen_created_at ≤ time_of s.last_seen_created_at)
            × (is_some r.pi_session_id ≡ true → is_some s.pi_session_id ≡ true)))

IsKept-refl : (r : ChannelRecord) → IsKept r r
IsKept-refl r = (refl, (refl, (le_refl (time_of r.last_seen_created_at), λ h. h)))

IsKept-trans : (r s t : ChannelRecord) → IsKept r s → IsKept s t → IsKept r t
IsKept-trans r s t (a, (b, (c, d))) (e, (f, (g, h))) =
    (e ∙ a, (f ∙ b, (le_trans c g, λ x. h (d x))))

when-IsKept :
    (p : ChannelRecord → Bool) (f : ChannelRecord → ChannelRecord) (r : ChannelRecord)
    → IsKept r (f r)
    → IsKept r (when p f r)
when-IsKept p f r k = elim (Bool-cases (p r)) [ inl t ↦ rw t k | inr t ↦ rw t (IsKept-refl r) ]

same_key :
    (relay channel : String) (f : ChannelRecord → ChannelRecord)
    → ((x : ChannelRecord) → IsKept x (f x))
    → (x : ChannelRecord) → is_row relay channel (f x) ≡ is_row relay channel x
unfolding is_row
same_key relay channel f k x =
    ap (λ i. (i == relay) && ((f x).channel_id == channel)) (k x).0
    ∙ ap (λ i. (x.relay_id == relay) && (i == channel)) (k x).1.0

-- A row of the table under its key, after an UPDATE that keeps keys.
update-IsKept :
    (relay channel : String) (p : ChannelRecord → Bool) (f : ChannelRecord → ChannelRecord)
    (rows : List ChannelRecord) (r : ChannelRecord)
    → ((x : ChannelRecord) → IsKept x (f x))
    → get relay channel rows ≡ some r
    → (s : ChannelRecord) × ((get relay channel (update p f rows) ≡ some s) × IsKept r s)
unfolding get
update-IsKept relay channel p f rows r k e = (
  when p f r,
  (
    find-update (is_row relay channel) p f rows (same_key relay channel f k)
        ∙ ap (Option.map (when p f)) e,
    when-IsKept p f r (k r),
  ),
)

max_right : (a : ℕ) (b : Option ℕ) → time_of b ≤ time_of (null_if_zero (max a (time_of b)))
unfolding time_of null_if_zero max
max_right a b = ground (arith, eqb_iff (max a (time_of b)) 0)

coalesce_some : (a b : Option String) → is_some b ≡ true → is_some (coalesce a b) ≡ true
unfolding coalesce
coalesce_some none b h = h
coalesce_some (some a) b h = refl

on_conflict-IsKept : (x r : ChannelRecord) → IsKept r (on_conflict x r)
unfolding on_conflict
on_conflict-IsKept x r = (
  refl,
  (
    refl,
    (
      max_right (time_of x.last_seen_created_at) r.last_seen_created_at,
      coalesce_some x.pi_session_id r.pi_session_id,
    ),
  ),
)

seen_until-IsKept : (t : ℕ) (r : ChannelRecord) → IsKept r (seen_until t r)
unfolding seen_until max time_of
seen_until-IsKept t r = (refl, (refl, (ground arith, λ h. h)))

abbrev pub HasKept : String → String → ChannelRecord → List ChannelRecord → Type 0
HasKept relay channel r rows =
    (s : ChannelRecord) × ((get relay channel rows ≡ some s) × IsKept r s)

upsert-kept :
    (relay channel : String) (x : ChannelRecord) (rows : List ChannelRecord) (r : ChannelRecord)
    → get relay channel rows ≡ some r
    → HasKept relay channel r (upsert x rows)
unfolding upsert get
upsert-kept relay channel x rows r e =
    if_cases (HasKept relay channel r) (any (is_row x.relay_id x.channel_id) rows)
      (λ _.
        update-IsKept relay channel (is_row x.relay_id x.channel_id) (on_conflict x) rows r
          (on_conflict-IsKept x) e)
      (λ _. (
        r,
        (
          find-append (is_row relay channel) rows (x ∷ [])
              ∙ ap (λ o. or_else o (find (is_row relay channel) (x ∷ []))) e,
          IsKept-refl r,
        ),
      ))

write-kept :
    (w : Write) (relay channel : String) (rows : List ChannelRecord) (r : ChannelRecord)
    → get relay channel rows ≡ some r
    → HasKept relay channel r (write w rows)
unfolding write set_status set_pi_session set_last_seen
write-kept (upsert_call x) relay channel rows r e = upsert-kept relay channel x rows r e
write-kept (set_status_call a b status) relay channel rows r e =
    update-IsKept relay channel (is_row a b) (λ row. record row { status = status }) rows r
      (λ x. IsKept-refl x) e
write-kept (set_pi_session_call a b id path) relay channel rows r e =
    update-IsKept relay channel (is_row a b)
      (λ row. record row { pi_session_id = some id; pi_session_path = path }) rows r
      (λ x. (refl, (refl, (le_refl (time_of x.last_seen_created_at), λ _. refl)))) e
write-kept (set_last_seen_call a b t) relay channel rows r e =
    update-IsKept relay channel (is_row a b) (seen_until t) rows r (seen_until-IsKept t) e

-- The row of a channel is still there after any further calls of the repository, its watermark, read as 0
-- where there is none, has not gone back, and a row that was bound to a Pi session is still bound to one.
pub writes-kept :
    (ws : List Write) (relay channel : String) (rows : List ChannelRecord) (r : ChannelRecord)
    → get relay channel rows ≡ some r
    → HasKept relay channel r (writes ws rows)
unfolding writes
writes-kept [] relay channel rows r e = (r, (e, IsKept-refl r))
writes-kept (w ∷ ws) relay channel rows r e =
    let (s, (found, kept)) = write-kept w relay channel rows r e in
    let (t, (found', kept')) = writes-kept ws relay channel (write w rows) s found in
    (t, (found', IsKept-trans r s t kept kept'))
