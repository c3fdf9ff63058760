-- ===== src/Thread/Roots.antt =====
-- Which texts of an event's tags can become routing data.
use autogent.Prelude.{
  ◌≡◌, refl, ◌∙◌, ◌⊎◌, inl, inr, String, Bool, true, Option, none, some, List, [], ◌∷◌, ◌++◌, arith,
  Option-cases, ap, eq_iff,
}
use autogent.Nostr.{NostrTag, NostrEvent}
use autogent.State.Table.{select}
use autogent.State.Table.Laws.{is_some}
use autogent.Thread.{
  is_event_id, e_tag_id, note, marker_of, scan, Scan, Marker, empty_scan, canonical_thread_root,
  root_marker, no_marker, element, first, get_or, or_else,
}

-- A tag `["e", id, …]` stands in the list, and `id` is a valid event id.
pub data Named (id : String) : List NostrTag → Type 0 where
  here :
      {name x : String} {rest : List String} {tags : List NostrTag}
      → name ≡ "e"
      → x ≡ id
      → is_event_id x ≡ true
      → Named id ((name ∷ x ∷ rest) ∷ tags)
  there : {tag : NostrTag} {tags : List NostrTag} → Named id tags → Named id (tag ∷ tags)

e_tag_id-Named :
    (tag : NostrTag) (tags : List NostrTag) (id : String)
    → e_tag_id tag ≡ some id
    → Named id (tag ∷ tags)
unfolding e_tag_id
e_tag_id-Named [] tags id h = cc
e_tag_id-Named (name ∷ []) tags id h = cc
e_tag_id-Named (name ∷ x ∷ rest) tags id h =
    here (ground (arith, eq_iff name "e")) (ground arith) (ground arith)

abbrev pub is_e_tag : NostrTag → Bool
is_e_tag tag = is_some (e_tag_id tag)

scan-select : (s : Scan) (tags : List NostrTag) → scan s (select is_e_tag tags) ≡ scan s tags
unfolding scan select
scan-select s [] = refl
scan-select s (tag ∷ tags) = elim (Option-cases (e_tag_id tag)) [
  | inl e ↦ rw e (scan-select s tags)
  | inr f ↦ rw f.1 (rw f.1 (scan-select (note s f.0 (marker_of (element 3 tag))) tags))
]

first-append :
    (xs : List String) (y id : String)
    → first (xs ++ y ∷ []) ≡ some id
    → (first xs ≡ some id) ⊎ (y ≡ id)
first-append [] y id h = ground arith
first-append (x ∷ xs) y id h = inl h

module _ (s : Scan) (x id : String) where
  root-note : (m : Marker) → (note s x m).root ≡ some id → (s.root ≡ some id) ⊎ (x ≡ id)
  unfolding note
  root-note root_marker h = ground arith
  root-note _ h = inl h

  first-note :
      (m : Marker) → first (note s x m).unmarked ≡ some id → (first s.unmarked ≡ some id) ⊎ (x ≡ id)
  unfolding note
  first-note no_marker h = first-append s.unmarked x id h
  first-note _ h = inl h

-- A tag of which the loop keeps an id names it.
scan-Named :
    (get : Scan → Option String) (id : String)
    → ((s : Scan) (x : String) (m : Marker)
        → get (note s x m) ≡ some id
        → (get s ≡ some id) ⊎ (x ≡ id))
    → (s : Scan) (tags : List NostrTag) → get (scan s tags) ≡ some id
    → (get s ≡ some id) ⊎ Named id tags
unfolding scan
scan-Named get id step s [] h = inl h
scan-Named get id step s (tag ∷ tags) h = elim (Option-cases (e_tag_id tag)) [
  | inl e ↦ elim (scan-Named get id step s tags (rw e at h)) [
    | inl old ↦ inl old
    | inr later ↦ inr (there later)
  ]
  | inr f ↦
      elim (scan-Named get id step (note s f.0 (marker_of (element 3 tag))) tags (rw f.1 at h)) [
        | inl now ↦ elim (step s f.0 (marker_of (element 3 tag)) now) [
          | inl old ↦ inl old
          | inr same ↦ inr (e_tag_id-Named tag tags id (f.1 ∙ ap some same))
        ]
        | inr later ↦ inr (there later)
      ]
]

-- Only a valid event id that an `e` tag of the event carries can become its thread root; any other
-- event is its own root.
pub canonical_thread_root-Named :
    (event : NostrEvent)
    → (canonical_thread_root event ≡ event.id) ⊎ Named (canonical_thread_root event) event.tags
unfolding canonical_thread_root
canonical_thread_root-Named event =
    root_cases event (scan empty_scan event.tags).root refl
      (first (scan empty_scan event.tags).unmarked) refl
  where
    named_by :
        (get : Scan → Option String) (id : String)
        → ((s : Scan) (x : String) (m : Marker)
            → get (note s x m) ≡ some id
            → (get s ≡ some id) ⊎ (x ≡ id))
        → get empty_scan ≡ none
        → get (scan empty_scan event.tags) ≡ some id
        → Named id event.tags
    named_by get id step start h = elim (scan-Named get id step empty_scan event.tags h) [
      | inl old ↦ cc
      | inr n ↦ n
    ]

    root_cases :
        (event' : NostrEvent) (r : Option String)
        → (scan empty_scan event.tags).root ≡ r
        → (f : Option String) → first (scan empty_scan event.tags).unmarked ≡ f
        → (get_or event.id (
              or_else
                (scan empty_scan event.tags).root
                (first (scan empty_scan event.tags).unmarked))
            ≡ event.id)
          ⊎ Named
              (get_or event.id (
                or_else
                  (scan empty_scan event.tags).root
                  (first (scan empty_scan event.tags).unmarked)))
              event.tags
    root_cases e (some id) er f ef =
        rw er (inr (named_by (λ s. s.root) id (λ s x m. root-note s x id m) refl er))
    root_cases e none er (some id) ef =
        rw (er, ef)
          (inr (named_by (λ s. first s.unmarked) id (λ s x m. first-note s x id m) refl ef))
    root_cases e none er none ef = rw (er, ef) (inl refl)
