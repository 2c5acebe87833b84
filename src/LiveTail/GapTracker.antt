-- ===== src/LiveTail/GapTracker.antt =====
-- src/livetail/gapTracker.ts: contiguous progress and gaps in the validated ledger sequence.
pub mod Coverage
use xrpl_registrar.Common.{ℕ, ◌+◌, ◌-◌, Option, none, some, leb, ◌==◌, if◌then◌else◌}

-- An inclusive ledger range.
pub record LedgerRange : Type 0 where
  pub from_ledger : ℕ
  pub to_ledger : ℕ

-- `#last`
abbrev pub GapTracker : Type 0
GapTracker = Option ℕ

-- The constructor: anchored at a known-complete ledger, or not at all.
abbrev pub create : Option ℕ → GapTracker
create start_ledger = start_ledger

unfoldable pub observe_after : ℕ → ℕ → GapTracker × Option LedgerRange
observe_after last ledger_index =
    if leb ledger_index last
    then (some last, none)
    else if ledger_index == last + 1
    then (some ledger_index, none)
    else (some ledger_index, some (record { from_ledger = last + 1; to_ledger = ledger_index - 1 }))

unfoldable pub observe : GapTracker → ℕ → GapTracker × Option LedgerRange
unfolding observe_after
observe none ledger_index = (some ledger_index, none)
observe (some last) ledger_index = observe_after last ledger_index

abbrev pub last_contiguous : GapTracker → Option ℕ
last_contiguous t = t
