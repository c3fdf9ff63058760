-- ===== src/State/Order.antt =====
-- The orders of ORDER BY and of the comparators of src/state/recovery.ts: columns compared in turn.
-- Texts are compared by code points, as SQLite's BINARY collation does.
use Prim.Native.Nat.{compare, Ordering}
use Prim.Native.String.{compare as compare_text}
use autogent.Prelude.{ℕ, String, Bool, true, false, Option, none, some}

abbrev pub then_by : Ordering → Ordering → Ordering
then_by Ordering.eq o = o
then_by Ordering.lt _ = Ordering.lt
then_by Ordering.gt _ = Ordering.gt

-- "Not after", for a sort.
abbrev pub not_after : Ordering → Bool
not_after Ordering.gt = false
not_after _ = true

abbrev pub by_number : ℕ → ℕ → Ordering
by_number = compare

abbrev pub by_text : String → String → Ordering
by_text = compare_text

-- `c IS NULL, c ASC`: the rows without a value come last.
abbrev pub nulls_last : Option ℕ → Option ℕ → Ordering
nulls_last none none = Ordering.eq
nulls_last none (some _) = Ordering.gt
nulls_last (some _) none = Ordering.lt
nulls_last (some a) (some b) = compare a b
