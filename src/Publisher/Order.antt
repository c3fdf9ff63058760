-- ===== src/Publisher/Order.antt =====
-- What `orderForPublish` of src/nostr/publisher.ts and DUE_QUERY of src/state/outbox-repository.ts keep.
use autogent.Prelude.{
  ℕ, suc, ◌≡◌, refl, sym, String, ◌&&◌, Option, none, some, List, [], ◌∷◌, ◌++◌, map, Bool-cases,
  inl, inr, append-nil, ◌==◌,
}
use mathlib.Core.Path.{subst}
use mathlib.Core.List.{Perm, perm_middle}
use mathlib.Core.List.Perm
use autogent.State.Table.{sort_by, insert_by, select, find}
use autogent.State.Table.Sorting.{sort_by-perm}
use autogent.State.Rows.{OutboxRow, OutboxRecord, IntentRow, Db}
use autogent.State.Outbox.{due, is_due_state, ready_at, candidates, join, is_intent}
use autogent.Publisher.{
  Entry, Group, push, group_from, in_order, entry_order, order_for_publish, turn_of,
}

abbrev out_of : Entry → OutboxRecord
out_of e = e.out

-- Adding an entry to a group adds it to the group's part of the order.
grown_group-perm :
    (e : Entry) (es : List Entry)
    → Perm
        (map out_of (sort_by entry_order (es ++ e ∷ [])))
        (e.out ∷ map out_of (sort_by entry_order es))
grown_group-perm e es = Perm.map out_of (
    Perm.trans (sort_by-perm entry_order (es ++ e ∷ [])) (
      Perm.trans (perm_middle es []) (
        subst (λ l. Perm (e ∷ l) (e ∷ sort_by entry_order es)) (sym (append-nil es))
          (Perm.cons e (Perm.symm (sort_by-perm entry_order es))))))

push-perm :
    (turn : String) (e : Entry) (gs : List Group)
    → Perm (in_order (push turn e gs)) (e.out ∷ in_order gs)
unfolding in_order push sort_by insert_by
push-perm turn e [] = Perm.refl (e.out ∷ [])
push-perm turn e (g ∷ gs) = elim (Bool-cases (g.turn_id == turn)) [
  | inl t ↦ rw t (Perm.append_right (in_order gs) (grown_group-perm e g.entries))
  | inr t ↦ rw t (
      Perm.trans
        (Perm.append_left (map out_of (sort_by entry_order g.entries)) (push-perm turn e gs))
        (perm_middle (map out_of (sort_by entry_order g.entries)) (in_order gs)))
]

group_from-perm :
    (n : ℕ) (rs : List OutboxRecord) (gs : List Group)
    → Perm (in_order (group_from n rs gs)) (rs ++ in_order gs)
unfolding group_from
group_from-perm n [] gs = Perm.refl (in_order gs)
group_from-perm n (r ∷ rs) gs =
    Perm.trans (group_from-perm (suc n) rs _)
      (Perm.trans (Perm.append_left rs (push-perm (turn_of r) _ gs)) (perm_middle rs (in_order gs)))

-- The order neither loses nor repeats a record.
pub order_for_publish-perm : (rs : List OutboxRecord) → Perm (order_for_publish rs) rs
unfolding order_for_publish in_order
order_for_publish-perm rs =
    subst (λ l. Perm (order_for_publish rs) l) (append-nil rs) (group_from-perm 0 rs [])

-- The records of the outbox that are due.
unfoldable pub due_records : Option ℕ → Db → List OutboxRecord
due_records now db =
    map (λ r. r.out)
      (select (λ r. is_due_state r.out.state && ready_at now r.out.next_retry_at) db.outbox)

join_row : (r : OutboxRow) (i : Option IntentRow) → (join r i).row ≡ r
join_row r none = refl
join_row r (some i) = refl

joined_records :
    (is : List IntentRow) (rows : List OutboxRow)
    → map (λ c. c.row.out) (map (λ r. join r (find (is_intent r.out.logical_id) is)) rows)
      ≡ map (λ r. r.out) rows
joined_records is [] = refl
joined_records is (r ∷ rs) =
    rw (join_row r (find (is_intent r.out.logical_id) is), joined_records is rs) refl

-- The query returns exactly the due records, whatever order its join gives them.
pub due-perm : (now : Option ℕ) (db : Db) → Perm (due now db) (due_records now db)
unfolding due candidates due_records
due-perm now db =
    subst (λ l. Perm (due now db) l) (joined_records db.output_intents _)
      (Perm.map (λ c. c.row.out) (sort_by-perm _ (candidates now db)))
