-- ===== src/Registry/Quiet.antt =====
-- The calls of src/runtime/channel-registry.ts in any order, as its actors hear them.
use autogent.Prelude.{
  ℕ, ◌+◌, ◌<◌, ◌≡◌, refl, inl, inr, String, false, Option, none, some, List, [], ◌∷◌, ◌++◌, arith,
  Bool-cases, All,
}
use autogent.JsMap
use autogent.JsMap.{JsMap}
use autogent.JsMap.Keys.{All-set, All-removed, All-entries}
use autogent.State.Channels.{ChannelRecord}
use autogent.State.Table.Laws.{All-append}
use autogent.Registry.{
  ChannelDescriptor, ActorCall, submit_call, cancel_call, rotate_call, close_call, ChannelRegistry,
  create, add, tell, submit, cancel, rotate, tell_each, cancel_all, forget, begin_remove,
  release_removed, finish_remove,
}
use autogent.Registry.Closing.{
  Call, added, submitted, cancelled, all_cancelled, rotated, remove_begun, remove_released,
  remove_finished, step, run, is_close, closed, NothingAfterClose, NothingAfterClose-append,
  Injective-set, Injective-remove, get-All, remove-others, IsLive, IsOpen, live-told, open_calls,
  one-open, each-open, tell_each-quiet, told-made, not_made-open, made-more, others-open,
}

tell-IsOpen :
    (o : Option ℕ) (call : ActorCall) (g : ChannelRegistry)
    → ((i : ℕ) → o ≡ some i → (closed i g.calls ≡ false) × (i < g.created))
    → is_close call ≡ false
    → IsOpen g
    → IsOpen (tell o call g)
unfolding tell NothingAfterClose
tell-IsOpen none call g found h s = s
tell-IsOpen (some i) call g found h s = record {
  quiet = NothingAfterClose-append [] g.calls ((i, call) ∷ []) s.quiet ((found i refl).0, tt);
  live =
      live-told g.calls ((i, call) ∷ []) g.created g.actors
        (open_calls ((i, call) ∷ []) g.actors (one-open i call h)) s.live;
  different = s.different;
  made = All-append (λ c. c.0 < g.created) g.calls ((i, call) ∷ []) s.made ((found i refl).1, tt);
}

-- An actor that the registry finds is live.
found-live :
    (id : String) (g : ChannelRegistry)
    → IsOpen g
    → (i : ℕ) → JsMap.get id g.actors ≡ some i
    → (closed i g.calls ≡ false) × (i < g.created)
found-live id g s i e =
    get-All (λ j. (closed j g.calls ≡ false) × (j < g.created)) id g.actors i s.live e

add-IsOpen : (d : ChannelDescriptor) (g : ChannelRegistry) → IsOpen g → IsOpen (add d g)
unfolding add
add-IsOpen d g s = elim (Bool-cases (JsMap.has d.channel_id g.actors)) [
  | inl old ↦
      rw old (record { quiet = s.quiet; live = s.live; different = s.different; made = s.made })
  | inr new ↦ rw new (record {
    quiet = s.quiet;
    live =
        All-set (IsLive g.calls (g.created + 1)) d.channel_id g.created g.actors
          (not_made-open g.created g.calls s.made, omega arith)
          (All-entries (IsLive g.calls g.created) (IsLive g.calls (g.created + 1)) g.actors
            (λ j v l. (l.0, omega (arith, l.1))) s.live);
    different =
        Injective-set d.channel_id g.created g.actors
          (All-entries (IsLive g.calls g.created) (λ e. e.1 < g.created) g.actors (λ j v l. l.1)
            s.live)
          new s.different;
    made = made-more g.created g.calls s.made;
  })
]

forget-IsOpen :
    (o : Option ℕ) (id : String) (g : ChannelRegistry)
    → JsMap.get id g.actors ≡ o
    → IsOpen g
    → IsOpen (forget o id g)
unfolding forget tell NothingAfterClose
forget-IsOpen none id g e s = s
forget-IsOpen (some i) id g e s =
    let found = found-live id g s i e in
    let rest = JsMap.remove id g.actors in
    record {
      quiet = NothingAfterClose-append [] g.calls ((i, close_call) ∷ []) s.quiet (found.0, tt);
      live =
          live-told g.calls ((i, close_call) ∷ []) g.created rest
            (others-open i close_call rest (remove-others id g.actors i s.different e))
            (All-removed (IsLive g.calls g.created) id g.actors s.live);
      different = Injective-remove id g.actors s.different;
      made = All-append (λ c. c.0 < g.created) g.calls ((i, close_call) ∷ []) s.made (found.1, tt);
    }

tell_each-IsOpen :
    (call : ActorCall) (g : ChannelRegistry)
    → is_close call ≡ false
    → IsOpen g
    → IsOpen (record g { calls = g.calls ++ tell_each call g.actors })
tell_each-IsOpen call g h s = record {
  quiet =
      NothingAfterClose-append [] g.calls (tell_each call g.actors) s.quiet
        (tell_each-quiet call g.calls g.created g.actors s.different s.live);
  live =
      live-told g.calls (tell_each call g.actors) g.created g.actors
        (open_calls (tell_each call g.actors) g.actors (each-open call g.actors h)) s.live;
  different = s.different;
  made =
      All-append (λ c. c.0 < g.created) g.calls (tell_each call g.actors) s.made
        (told-made call g.calls g.created g.actors s.live);
}

step-IsOpen : (c : Call) (g : ChannelRegistry) → IsOpen g → IsOpen (step c g)
unfolding step submit cancel rotate cancel_all begin_remove release_removed finish_remove is_close
step-IsOpen (added d) g s = add-IsOpen d g s
step-IsOpen (submitted id event) g s =
    tell-IsOpen (JsMap.get id g.actors) (submit_call event) g (found-live id g s) refl s
step-IsOpen (cancelled id reason) g s =
    tell-IsOpen (JsMap.get id g.actors) (cancel_call reason) g (found-live id g s) refl s
step-IsOpen (all_cancelled reason) g s = tell_each-IsOpen (cancel_call reason) g refl s
step-IsOpen (rotated id) g s =
    tell-IsOpen (JsMap.get id g.actors) rotate_call g (found-live id g s) refl s
step-IsOpen (remove_begun id) g s = forget-IsOpen (JsMap.get id g.actors) id g refl s
step-IsOpen (remove_released id) g s = record {
  quiet = s.quiet;
  live = s.live;
  different = s.different;
  made = s.made;
}
step-IsOpen (remove_finished id) g s = record {
  quiet = s.quiet;
  live = s.live;
  different = s.different;
  made = s.made;
}

run_from-IsOpen : (cs : List Call) (g : ChannelRegistry) → IsOpen g → IsOpen (run cs g)
unfolding run
run_from-IsOpen [] g s = s
run_from-IsOpen (c ∷ cs) g s = run_from-IsOpen cs (step c g) (step-IsOpen c g s)

-- After any calls but `closeAll` on a new registry, and however removals and additions interleave: no actor was told
-- anything, be it an event, a cancellation or a rotation, after it was told to close, and no
-- actor that the registry still routes to was told to close.
pub run-quiet :
    (relay_id : String) (rows : List ChannelRecord) (cs : List Call)
    → let g = run cs (create relay_id rows) in
      NothingAfterClose [] g.calls × All (λ e. closed e.1 g.calls ≡ false) g.actors
unfolding create NothingAfterClose
run-quiet relay_id rows cs =
    let s =
      run_from-IsOpen cs (create relay_id rows)
        (record { quiet = tt; live = tt; different = tt; made = tt }) in
    let g = run cs (create relay_id rows) in
    (
      s.quiet,
      All-entries (IsLive g.calls g.created) (λ e. closed e.1 g.calls ≡ false) g.actors
          (λ j v l. l.0) s.live,
    )
