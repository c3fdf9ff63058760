-- ===== src/Control/Stripping.antt =====
-- What src/security/control-commands.ts takes for a command.
use autogent.Prelude.{
  ℕ, zero, suc, ◌-◌, ◌≡◌, refl, ◌∙◌, ap, sym, String, Bool, true, false, ◌&&◌, not, Option, none,
  some, [], ◌∷◌, ◌++◌, append_assoc, append-nil, length, arith, if_cases, eqb, eqb_iff, leb, eq_iff,
}
use mathlib.Core.Option
use mathlib.Core.Path.{subst}
use autogent.Utf16.{Utf16, is_space, trim_start, trim_end, keep_before, take, drop, starts_with}
use autogent.Nostr.{NostrEvent, kind_chat}
use autogent.Control.{
  ControlCommand, cancel, shutdown, rotate, wire, same_text, command_of, mentions_agent, ends_with,
  slice_before_end, leading, trailing_from, strip_trailing, strip_leading, or_text, if_changed,
  strip_other, strip_own, strip_one_mention, next_text, strip_passes, is_some, strip_edge_mentions,
  is_owner, parse_control_command,
}

-- `part` stands in `text` in one piece.
abbrev pub IsPart : Utf16 → Utf16 → Type 0
IsPart part text = (before : Utf16) × ((after : Utf16) × (text ≡ before ++ (part ++ after)))

IsPart-refl : (text : Utf16) → IsPart text text
IsPart-refl text = ([], ([], sym (append-nil text)))

regroup : (r p a q s : Utf16) → r ++ ((p ++ (a ++ q)) ++ s) ≡ (r ++ p) ++ (a ++ (q ++ s))
regroup r p a q s =
    ap (λ x. r ++ x) (append_assoc p (a ++ q) s ∙ ap (λ x. p ++ x) (append_assoc a q s))
    ∙ sym (append_assoc r p (a ++ (q ++ s)))

IsPart-trans : (a b c : Utf16) → IsPart a b → IsPart b c → IsPart a c
IsPart-trans a b c (p, (q, e)) (r, (s, f)) =
    (r ++ p, (q ++ s, f ∙ (ap (λ x. r ++ (x ++ s)) e ∙ regroup r p a q s)))

IsPart-cons : (c : ℕ) (part text : Utf16) → IsPart part text → IsPart part (c ∷ text)
IsPart-cons c part text (p, (q, e)) = (c ∷ p, (q, ap (λ x. c ∷ x) e))

-- A beginning of the text.
abbrev IsStart : Utf16 → Utf16 → Type 0
IsStart part text = (after : Utf16) × (text ≡ part ++ after)

start-IsPart : (part text : Utf16) → IsStart part text → IsPart part text
start-IsPart part text (after, e) = ([], (after, e))

take-IsStart : (n : ℕ) (text : Utf16) → IsStart (take n text) text
unfolding take
take-IsStart zero text = (text, refl)
take-IsStart (suc n) [] = ([], refl)
take-IsStart (suc n) (c ∷ text) = let (after, e) = take-IsStart n text in (after, ap (λ x. c ∷ x) e)

keep_before-IsStart :
    (c : ℕ) (part text : Utf16) → IsStart part text → IsStart (keep_before c part) (c ∷ text)
keep_before-IsStart c [] text (after, e) =
    if_cases (λ part. IsStart part (c ∷ text)) (is_space c) (λ _. (c ∷ text, refl))
      (λ _. (after, ap (λ x. c ∷ x) e))
keep_before-IsStart c (d ∷ part) text (after, e) = (after, ap (λ x. c ∷ x) e)

trim_end-IsStart : (text : Utf16) → IsStart (trim_end text) text
unfolding trim_end
trim_end-IsStart [] = ([], refl)
trim_end-IsStart (c ∷ text) = keep_before-IsStart c (trim_end text) text (trim_end-IsStart text)

drop-IsPart : (n : ℕ) (text : Utf16) → IsPart (drop n text) text
unfolding drop
drop-IsPart zero text = IsPart-refl text
drop-IsPart (suc n) [] = ([], ([], refl))
drop-IsPart (suc n) (c ∷ text) = IsPart-cons c (drop n text) text (drop-IsPart n text)

trim_start-IsPart : (text : Utf16) → IsPart (trim_start text) text
unfolding trim_start
trim_start-IsPart [] = ([], ([], refl))
trim_start-IsPart (c ∷ text) =
    if_cases (λ part. IsPart part (c ∷ text)) (is_space c)
      (λ _. IsPart-cons c (trim_start text) text (trim_start-IsPart text))
      (λ _. IsPart-refl (c ∷ text))

-- What is kept of a part that is cut further.
trimmed-IsPart : (part text : Utf16) → IsPart part text → IsPart (trim_start part) text
trimmed-IsPart part text h = IsPart-trans (trim_start part) part text (trim_start-IsPart part) h

cut-IsPart : (n : ℕ) (text : Utf16) → IsPart (trim_end (take n text)) text
cut-IsPart n text =
    IsPart-trans (trim_end (take n text)) (take n text) text
      (start-IsPart (trim_end (take n text)) (take n text) (trim_end-IsStart (take n text)))
      (start-IsPart (take n text) text (take-IsStart n text))

slice_before_end-IsPart : (m : ℕ) (text : Utf16) → IsPart (trim_end (slice_before_end m text)) text
unfolding slice_before_end
slice_before_end-IsPart m text =
    if_cases (λ part. IsPart (trim_end part) text) (leb m (length text))
      (λ _. cut-IsPart (length text - m) text)
      (λ _. cut-IsPart (length text - (m - length text)) text)

abbrev AllPart : Option Utf16 → Utf16 → Type 0
AllPart none text = Unit
AllPart (some next) text = IsPart next text

strip_trailing-IsPart : (o : Option ℕ) (text : Utf16) → AllPart (strip_trailing o text) text
unfolding strip_trailing
strip_trailing-IsPart none text = tt
strip_trailing-IsPart (some i) text = cut-IsPart i text

strip_leading-IsPart : (o : Option ℕ) (text : Utf16) → AllPart (strip_leading o text) text
unfolding strip_leading
strip_leading-IsPart none text = strip_trailing-IsPart (trailing_from 0 text) text
strip_leading-IsPart (some n) text = trimmed-IsPart (drop n text) text (drop-IsPart n text)

strip_one_mention-IsPart :
    (lower : Utf16 → Utf16) (name : Option Utf16) (text : Utf16)
    → AllPart (strip_one_mention lower name text) text
unfolding strip_one_mention strip_own strip_other
strip_one_mention-IsPart lower none text = strip_leading-IsPart (leading text) text
strip_one_mention-IsPart lower (some []) text = strip_leading-IsPart (leading text) text
strip_one_mention-IsPart lower (some (c ∷ cs)) text =
    let own = lower (b'@' ∷ c ∷ cs) in
    if_cases (λ o. AllPart o text) (starts_with own (lower text))
      (λ _. trimmed-IsPart (drop (length own) text) text (drop-IsPart (length own) text))
      (λ _.
        if_cases (λ o. AllPart o text) (ends_with own (lower text))
          (λ _. slice_before_end-IsPart (length own) text)
          (λ _. strip_leading-IsPart (leading text) text))

if_changed-IsPart :
    (o : Option Utf16) (text : Utf16) → AllPart o text → AllPart (if_changed o text) text
unfolding if_changed
if_changed-IsPart none text h = tt
if_changed-IsPart (some next) text h =
    if_cases (λ o. AllPart o text) (same_text next text) (λ _. tt) (λ _. h)

next_text-IsPart :
    (lower : Utf16 → Utf16) (name : Option Utf16) (text : Utf16)
    → AllPart (next_text lower name text) text
unfolding next_text
next_text-IsPart lower name text =
    if_cases (λ o. AllPart o text) (is_some (command_of text)) (λ _. tt)
      (λ _.
        if_changed-IsPart (strip_one_mention lower name text) text
          (strip_one_mention-IsPart lower name text))

continued-IsPart :
    (f : Utf16 → Utf16) (o : Option Utf16) (text : Utf16)
    → ((t : Utf16) → IsPart (f t) t)
    → AllPart o text
    → IsPart (or_text (Option.map f o) text) text
unfolding or_text
continued-IsPart f none text g h = IsPart-refl text
continued-IsPart f (some next) text g h = IsPart-trans (f next) next text (g next) h

strip_passes-IsPart :
    (lower : Utf16 → Utf16) (n : ℕ) (name : Option Utf16) (text : Utf16)
    → IsPart (strip_passes lower n name text) text
unfolding strip_passes
strip_passes-IsPart lower zero name text = IsPart-refl text
strip_passes-IsPart lower (suc n) name text =
    continued-IsPart (strip_passes lower n name) (next_text lower name text) text
      (strip_passes-IsPart lower n name) (next_text-IsPart lower name text)

strip_edge_mentions-IsPart :
    (lower : Utf16 → Utf16) (name : Option Utf16) (content : Utf16)
    → IsPart (strip_edge_mentions lower name content) content
unfolding strip_edge_mentions
strip_edge_mentions-IsPart lower name content =
    let trimmed = trim_end (trim_start content) in
    IsPart-trans (strip_passes lower 8 name trimmed) trimmed content
      (strip_passes-IsPart lower 8 name trimmed)
      (IsPart-trans trimmed (trim_start content) content
        (start-IsPart trimmed (trim_start content) (trim_end-IsStart (trim_start content)))
        (trim_start-IsPart content))

same_text-eq : (a b : Utf16) → same_text a b ≡ true → a ≡ b
unfolding same_text
same_text-eq [] [] h = refl
same_text-eq [] (d ∷ ds) h = cc
same_text-eq (c ∷ cs) [] h = cc
same_text-eq (c ∷ cs) (d ∷ ds) h = ground (arith, eqb_iff c d, h, same_text-eq cs ds)

some_inj : {a b : ControlCommand} → some a ≡ some b → a ≡ b
some_inj h = cc

no_command : (c : ControlCommand) → none ≡ some c → ⊥
no_command c h = cc

nothing : {c : ControlCommand} {A : Type 0} → none ≡ some c → A
nothing {c} h = absurd (no_command c h)

command_of-wire : (text : Utf16) (c : ControlCommand) → command_of text ≡ some c → text ≡ wire c
unfolding command_of
command_of-wire text c =
    let P : Option ControlCommand → Type 0 = λ o. o ≡ some c → text ≡ wire c in
    if_cases P (same_text text (wire cancel))
      (λ t e. same_text-eq text (wire cancel) t ∙ ap wire (some_inj e))
      (λ _.
        if_cases P (same_text text (wire shutdown))
          (λ t e. same_text-eq text (wire shutdown) t ∙ ap wire (some_inj e))
          (λ _.
            if_cases P (same_text text (wire rotate))
              (λ t e. same_text-eq text (wire rotate) t ∙ ap wire (some_inj e)) (λ _ e. nothing e)))

is_owner-eq :
    (owner : Option String) (author : String) → is_owner owner author ≡ true → owner ≡ some author
unfolding is_owner
is_owner-eq none author h = cc
is_owner-eq (some owner) author h = ground (arith, eq_iff author owner, h)

chat_kind : (k : ℕ) → not (eqb k kind_chat) ≡ false → k ≡ kind_chat
chat_kind k h = ground (arith, eqb_iff k kind_chat, h)

both : (a b : Bool) → (a && b) ≡ true → (a ≡ true) × (b ≡ true)
both true b h = (refl, h)
both false b h = cc

-- A message is taken for a control only where it is a chat event, by the agent's owner, with a `p` tag that
-- names the agent, and the text of the command stands in its content in one piece: what was taken
-- off the ends as mentions is before and after it.
pub parse_control_command_sound :
    (lower : Utf16 → Utf16) (event : NostrEvent) (agent : String) (owner : Option String)
    (name : Option Utf16) (c : ControlCommand)
    → parse_control_command lower event agent owner name ≡ some c
    → (event.kind ≡ kind_chat)
      × ((owner ≡ some event.pubkey)
          × ((mentions_agent event.tags agent ≡ true) × IsPart (wire c) event.content))
unfolding parse_control_command
parse_control_command_sound lower event agent owner name c =
    let Q : Type 0 =
      (event.kind ≡ kind_chat)
      × ((owner ≡ some event.pubkey)
          × ((mentions_agent event.tags agent ≡ true) × IsPart (wire c) event.content)) in
    let P : Option ControlCommand → Type 0 = λ o. o ≡ some c → Q in
    let stripped = strip_edge_mentions lower name event.content in
    if_cases P (not (eqb event.kind kind_chat)) (λ _ e. nothing e)
      (λ chat.
        if_cases P (is_owner owner event.pubkey && mentions_agent event.tags agent)
          (λ own e. (
            chat_kind event.kind chat,
            (
              is_owner-eq owner event.pubkey (both (is_owner owner event.pubkey) _ own).0,
              (
                (both (is_owner owner event.pubkey) _ own).1,
                subst (λ t. IsPart t event.content) (command_of-wire stripped c e)
                    (strip_edge_mentions-IsPart lower name event.content),
              ),
            ),
          ))
          (λ _ e. nothing e))
