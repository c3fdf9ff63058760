-- ===== src/State/Outbox/Durable.antt =====
-- A signed event of src/state/outbox-repository.ts is signed once: whatever the repository is asked
-- to do later, the row keeps its bytes, and an acknowledged row stays acknowledged.
use autogent.Prelude.{
  ℕ, ◌≤◌, ◌≡◌, refl, ◌∙◌, ap, String, Bool, true, false, Option, none, some, List, [], ◌∷◌, ◌++◌,
  arith, Bool-cases, inl, inr, if◌then◌else◌,
}
use native.Mathlib.Nat.{le_refl, le_trans}
use mathlib.Core.Option
use autogent.State.Table.{find, any, update}
use autogent.State.Table.Laws.{when, or_else, find-update, find-append}
use autogent.State.Rows.{OutputIntentState, OutputIntent, OutboxState, OutboxRecord, OutboxRow, Db}
use autogent.State.Outbox.{
  is_out, is_unpublished, is_published, put_intent, set_intent_state, put_signed, mark_published,
  mark_failed, mark_dead_letter,
}

-- A call of a method that writes, with the clock's reading where the method takes it.
pub data Write : Type 0 where
  put_intent_call : OutputIntent → ℕ → Write
  set_intent_state_call : String → OutputIntentState → Write
  put_signed_call : OutboxRecord → ℕ → Write
  mark_published_call : String → Write
  mark_failed_call : String → String → Option ℕ → Write
  mark_dead_letter_call : String → String → Write

unfoldable pub write : Write → Db → Db
write (put_intent_call i now) db = (put_intent i now db).1
write (set_intent_state_call id s) db = set_intent_state id s db
write (put_signed_call out now) db = put_signed out now db
write (mark_published_call id) db = mark_published id db
write (mark_failed_call id error retry) db = mark_failed id error retry db
write (mark_dead_letter_call id error) db = mark_dead_letter id error db

unfoldable pub writes : List Write → Db → Db
writes [] db = db
writes (w ∷ ws) db = writes ws (write w db)

abbrev pub get_out : String → Db → Option OutboxRow
get_out id db = find (is_out id) db.outbox

-- `b` is `a` later on.
pub record IsLater (a b : OutboxRecord) : Type 0 where
  pub same_id : b.event_id ≡ a.event_id
  pub same_kind : b.kind ≡ a.kind
  pub same_event : b.signed_event ≡ a.signed_event
  pub more_attempts : a.attempts ≤ b.attempts
  pub stays_published : is_published a.state ≡ true → is_published b.state ≡ true

IsLater-refl : (a : OutboxRecord) → IsLater a a
IsLater-refl a = record {
  same_id = refl;
  same_kind = refl;
  same_event = refl;
  more_attempts = le_refl a.attempts;
  stays_published = λ h. h;
}

IsLater-trans : (a b c : OutboxRecord) → IsLater a b → IsLater b c → IsLater a c
IsLater-trans a b c h k = record {
  same_id = k.same_id ∙ h.same_id;
  same_kind = k.same_kind ∙ h.same_kind;
  same_event = k.same_event ∙ h.same_event;
  more_attempts = le_trans h.more_attempts k.more_attempts;
  stays_published = λ p. k.stays_published (h.stays_published p);
}

abbrev pub HasLater : String → OutboxRow → Db → Type 0
HasLater id r db = (r' : OutboxRow) × (get_out id db ≡ some r') × IsLater r.out r'.out

when-IsLater :
    (r : OutboxRow) (p : OutboxRow → Bool) (f : OutboxRow → OutboxRow)
    → ((x : OutboxRow) → p x ≡ true → IsLater x.out (f x).out)
    → IsLater r.out (when p f r).out
when-IsLater r p f later = elim (Bool-cases (p r)) [
  | inl t ↦ rw t (later r t)
  | inr t ↦ rw t (IsLater-refl r.out)
]

-- An update of the outbox that only makes rows later.
update-IsLater :
    (id : String) (r : OutboxRow) (p : OutboxRow → Bool) (f : OutboxRow → OutboxRow)
    (rows : List OutboxRow)
    → ((x : OutboxRow) → is_out id (f x) ≡ is_out id x)
    → ((x : OutboxRow) → p x ≡ true → IsLater x.out (f x).out)
    → find (is_out id) rows ≡ some r
    → (r' : OutboxRow) × (find (is_out id) (update p f rows) ≡ some r') × IsLater r.out r'.out
update-IsLater id r p f rows keep later e = (
  when p f r,
  find-update (is_out id) p f rows keep ∙ ap (Option.map (when p f)) e,
  when-IsLater r p f later,
)

published-IsLater :
    (x : OutboxRecord)
    → IsLater x (record x { state = OutboxState.published; next_retry_at = none })
published-IsLater x = record {
  same_id = refl;
  same_kind = refl;
  same_event = refl;
  more_attempts = le_refl x.attempts;
  stays_published = λ _. refl;
}

-- What is not acknowledged may change its state.
open-IsLater :
    (x : OutboxRecord) (s : OutboxState) (n : ℕ) (at : Option ℕ) (e : Option String)
    → is_published x.state ≡ false
    → x.attempts ≤ n
    → IsLater x (record x { state = s; attempts = n; next_retry_at = at; last_error = e })
open-IsLater x s n at e o h = record {
  same_id = refl;
  same_kind = refl;
  same_event = refl;
  more_attempts = h;
  stays_published = λ p. cc;
}

open_of_unpublished :
    (i : String) (x : OutboxRow) → is_unpublished i x ≡ true → is_published x.out.state ≡ false
open_of_unpublished i x h = ground arith

append-IsLater :
    (id : String) (r new : OutboxRow) (b : Bool) (rows : List OutboxRow)
    → find (is_out id) rows ≡ some r
    → (r' : OutboxRow) × (find (is_out id) (if b then rows else rows ++ new ∷ []) ≡ some r')
      × IsLater r.out r'.out
append-IsLater id r new true rows e = (r, e, IsLater-refl r.out)
append-IsLater id r new false rows e = (
  r,
  find-append (is_out id) rows (new ∷ []) ∙ ap (λ o. or_else o (find (is_out id) (new ∷ []))) e,
  IsLater-refl r.out,
)

put_intent_outbox :
    (i : OutputIntent) (now : ℕ) (db : Db) → (put_intent i now db).1.outbox ≡ db.outbox
unfolding put_intent
put_intent_outbox i now db = ground arith

write-IsLater :
    (w : Write) (id : String) (r : OutboxRow) (db : Db)
    → get_out id db ≡ some r
    → HasLater id r (write w db)
unfolding write set_intent_state put_signed mark_published mark_failed mark_dead_letter
write-IsLater (put_intent_call i now) id r db e =
    (r, rw (put_intent_outbox i now db) e, IsLater-refl r.out)
write-IsLater (set_intent_state_call i s) id r db e = (r, e, IsLater-refl r.out)
write-IsLater (put_signed_call out now) id r db e =
    append-IsLater id r (record { out = out; created_at = now })
      (any (is_out out.logical_id) db.outbox) db.outbox e
write-IsLater (mark_published_call i) id r db e =
    update-IsLater id r (is_out i) _ db.outbox (λ x. refl) (λ x _. published-IsLater x.out) e
write-IsLater (mark_failed_call i error retry) id r db e =
    update-IsLater id r (is_unpublished i) _ db.outbox (λ x. refl)
      (λ x h. open-IsLater x.out _ _ _ _ (open_of_unpublished i x h) (omega arith)) e
write-IsLater (mark_dead_letter_call i error) id r db e =
    update-IsLater id r (is_unpublished i) _ db.outbox (λ x. refl)
      (λ x h. open-IsLater x.out _ _ _ _ (open_of_unpublished i x h) (le_refl x.out.attempts)) e

-- A row of the outbox, after any further calls of the repository, is still found under its logical
-- id, with the same event id, kind and signed event and no fewer attempts, and if it was
-- published it is still published.
pub writes_later :
    (ws : List Write) (id : String) (r : OutboxRow) (db : Db)
    → get_out id db ≡ some r
    → HasLater id r (writes ws db)
unfolding writes
writes_later [] id r db e = (r, e, IsLater-refl r.out)
writes_later (w ∷ ws) id r db e =
    let (s, es, later) = write-IsLater w id r db e in
    let (t, et, last) = writes_later ws id s (write w db) es in
    (t, et, IsLater-trans r.out s.out t.out later last)
