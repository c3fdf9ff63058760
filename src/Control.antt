-- ===== src/Control.antt =====
-- src/security/control-commands.ts: the owner's chat controls. `String.prototype.toLowerCase` is a
-- parameter.
pub mod Stripping
use autogent.Prelude.{
  ℕ, zero, suc, ◌+◌, ◌-◌, String, Bool, true, false, ◌&&◌, ◌||◌, not, Option, none, some, List, [],
  ◌∷◌, length, codes, ◌==◌, eqb, leb, if◌then◌else◌,
}
use mathlib.Core.Option
use autogent.Utf16.{Utf16, is_space, trim_start, trim_end, take, drop, starts_with}
use autogent.Nostr.{NostrTag, NostrEvent, kind_chat}

pub data ControlCommand : Type 0 where
  cancel shutdown rotate : ControlCommand

-- The key of a command in `COMMANDS`.
unfoldable pub wire : ControlCommand → Utf16
wire cancel = codes "!cancel"
wire shutdown = codes "!shutdown"
wire rotate = codes "!rotate"

unfoldable pub same_text : Utf16 → Utf16 → Bool
same_text [] [] = true
same_text (c ∷ cs) (d ∷ ds) = eqb c d && same_text cs ds
same_text _ _ = false

-- `COMMANDS.get`
unfoldable pub command_of : Utf16 → Option ControlCommand
unfolding wire same_text
command_of text =
    if same_text text (wire cancel)
    then some cancel
    else if same_text text (wire shutdown)
    then some shutdown
    else if same_text text (wire rotate)
    then some rotate
    else none

-- `tag[0] === "p" && tag[1] === agentPubkey`
names_agent : String → NostrTag → Bool
names_agent agent (name ∷ value ∷ rest) = name == "p" && value == agent
names_agent agent _ = false

unfoldable pub mentions_agent : List NostrTag → String → Bool
unfolding names_agent
mentions_agent [] agent = false
mentions_agent (tag ∷ tags) agent = names_agent agent tag || mentions_agent tags agent

unfoldable pub ends_with : Utf16 → Utf16 → Bool
unfolding same_text drop
ends_with suffix text =
    leb (length suffix) (length text) && same_text (drop (length text - length suffix) text) suffix

-- `text.slice(0, n - m)` of a text of `n` units: an end below 0 counts from the end of the text.
unfoldable pub slice_before_end : ℕ → Utf16 → Utf16
unfolding take
slice_before_end m text =
    if leb m (length text)
    then take (length text - m) text
    else take (length text - (m - length text)) text

unfoldable pub run_length : Utf16 → ℕ
run_length [] = 0
run_length (c ∷ cs) = if is_space c then 0 else suc (run_length cs)

unfoldable pub all_solid : Utf16 → Bool
all_solid [] = true
all_solid (c ∷ cs) = not (is_space c) && all_solid cs

-- The `@` of `/^@\S+/`, with the length of the match.
unfoldable pub leading : Utf16 → Option ℕ
unfolding run_length
leading [] = none
leading (c ∷ cs) =
    if eqb c b'@' && not (eqb (run_length cs) 0) then some (suc (run_length cs)) else none

-- The index of the match of `/@\S+$/`.
unfoldable pub trailing_from : ℕ → Utf16 → Option ℕ
unfolding all_solid
trailing_from i [] = none
trailing_from i (c ∷ cs) =
    let rest = trailing_from (suc i) cs in
    if eqb c b'@' && all_solid cs && not (eqb (length cs) 0) then some i else rest

unfoldable pub strip_trailing : Option ℕ → Utf16 → Option Utf16
strip_trailing none text = none
strip_trailing (some i) text = some (trim_end (take i text))

unfoldable pub strip_leading : Option ℕ → Utf16 → Option Utf16
unfolding strip_trailing trailing_from
strip_leading none text = strip_trailing (trailing_from 0 text) text
strip_leading (some n) text = some (trim_start (drop n text))

unfoldable pub or_text : Option Utf16 → Utf16 → Utf16
or_text none text = text
or_text (some next) text = next

unfoldable pub is_some {ℓ} : {A : Type ℓ} → Option A → Bool
is_some none = false
is_some (some _) = true

unfoldable pub if_changed : Option Utf16 → Utf16 → Option Utf16
unfolding same_text
if_changed none text = none
if_changed (some next) text = if same_text next text then none else some next

unfoldable pub is_owner : Option String → String → Bool
is_owner none author = false
is_owner (some owner) author = author == owner

module _ (lower : Utf16 → Utf16) where
  -- A text that does not start or end with the agent's own name.
  unfoldable pub strip_other : Utf16 → Option Utf16
  unfolding strip_leading leading
  strip_other text = strip_leading (leading text) text

  unfoldable pub strip_own : Utf16 → Utf16 → Option Utf16
  unfolding strip_other ends_with slice_before_end
  strip_own own text =
      if starts_with own (lower text)
      then some (trim_start (drop (length own) text))
      else if ends_with own (lower text)
      then some (trim_end (slice_before_end (length own) text))
      else strip_other text

  unfoldable pub strip_one_mention : Option Utf16 → Utf16 → Option Utf16
  unfolding strip_own strip_other
  strip_one_mention none text = strip_other text
  strip_one_mention (some []) text = strip_other text
  strip_one_mention (some (c ∷ cs)) text = strip_own (lower (b'@' ∷ c ∷ cs)) text

  -- One pass: `none` when the loop stops.
  unfoldable pub next_text : Option Utf16 → Utf16 → Option Utf16
  unfolding if_changed is_some
  next_text name text =
      if is_some (command_of text) then none else if_changed (strip_one_mention name text) text

  unfoldable pub strip_passes : ℕ → Option Utf16 → Utf16 → Utf16
  unfolding next_text or_text
  strip_passes zero name text = text
  strip_passes (suc n) name text =
      or_text (Option.map (strip_passes n name) (next_text name text)) text

  unfoldable pub strip_edge_mentions : Option Utf16 → Utf16 → Utf16
  unfolding strip_passes
  strip_edge_mentions name content = strip_passes 8 name (trim_end (trim_start content))

  unfoldable pub parse_control_command :
      NostrEvent → String → Option String → Option Utf16 → Option ControlCommand
  unfolding is_owner mentions_agent strip_edge_mentions command_of
  parse_control_command event agent owner name =
      if not (eqb event.kind kind_chat)
      then none
      else if is_owner owner event.pubkey && mentions_agent event.tags agent
      then command_of (strip_edge_mentions name event.content)
      else none

  -- `looksLikeControlCommand`
  unfoldable pub looks_like_control_command : Utf16 → Option Utf16 → Bool
  unfolding is_some
  looks_like_control_command content name = is_some (command_of (strip_edge_mentions name content))
