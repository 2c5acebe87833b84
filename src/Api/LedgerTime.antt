-- ===== src/Api/LedgerTime.antt =====
-- src/api/ledgerTime.ts, src/db/repositories/ledgers.ts: from a time to the ledger in effect. Times
-- are numbers; the `ledgers` table is a list of (index, close time) pairs, and Clio's answer to a
-- `ledger` request is an argument.
pub mod Search
pub mod Cost
use xrpl_registrar.Common.{
  ℕ, zero, suc, ◌+◌, ◌-◌, ◌/◌, max, Bool, Option, none, some, List, ◌∷◌, ltb, leb, ◌==◌,
  if◌then◌else◌, [],
}

-- `lo + Math.floor((hi - lo) / 2)`, where `past` is `hi + 1`.
abbrev pub middle : ℕ → ℕ → ℕ
middle lo past = lo + (past - 1 - lo) / 2

-- The table `ledgers`.
abbrev pub Ledgers : Type 0
Ledgers = List (ℕ × ℕ)

unfoldable pub close_time : ℕ → Ledgers → Option ℕ
close_time l [] = none
close_time l ((k, t) ∷ ts) = if k == l then some t else close_time l ts

-- `LedgerTimeRepository.record`: ON CONFLICT DO NOTHING.
unfoldable pub record_time : ℕ → ℕ → Ledgers → Ledgers
record_time l t [] = (l, t) ∷ []
record_time l t ((k, u) ∷ ts) = if k == l then (k, u) ∷ ts else (k, u) ∷ record_time l t ts

-- `resolveAtOrBefore`: SELECT max(ledger_index) … WHERE close_time_iso <= iso.
abbrev max_option : ℕ → Option ℕ → Option ℕ
max_option a none = some a
max_option a (some b) = some (max a b)

unfoldable pub resolve_at_or_before : ℕ → Ledgers → Option ℕ
resolve_at_or_before iso [] = none
resolve_at_or_before iso ((k, t) ∷ ts) =
    if leb t iso then max_option k (resolve_at_or_before iso ts) else resolve_at_or_before iso ts

pub record Probe : Type 0 where
  pub le : Option Bool
  pub ledgers : Ledgers

pub record Found : Type 0 where
  pub answer : Option ℕ
  pub ledgers : Ledgers
  pub probes : ℕ

module _ (upstream : ℕ → Option ℕ) (iso : ℕ) where
  -- `close_time_iso <= $1` of the row, if there is one.
  abbrev compare_time : Option ℕ → Option Bool
  compare_time none = none
  compare_time (some t) = some (leb t iso)

  abbrev fetched : ℕ → Ledgers → Option ℕ → Probe
  fetched mid ledgers none = record { le = none; ledgers = ledgers }
  fetched mid ledgers (some t) = record {
    le = compare_time (close_time mid (record_time mid t ledgers));
    ledgers = record_time mid t ledgers;
  }

  -- `atOrBefore`: from the table, else fetched and recorded.
  unfoldable pub at_or_before : ℕ → Ledgers → Probe
  at_or_before mid ledgers = elim (close_time mid ledgers) [
    | none ↦ fetched mid ledgers (upstream mid)
    | some t ↦ record { le = some (leb t iso); ledgers = ledgers }
  ]

  abbrev pub probed : Found → Found
  probed f = record f { probes = f.probes + 1 }

  -- The loop, on fuel. `past` is `hi + 1`, so that `hi = mid - 1` cannot go below zero.
  unfoldable pub search : ℕ → ℕ → ℕ → Option ℕ → Ledgers → Found
  search zero lo past answer ledgers = record { answer = answer; ledgers = ledgers; probes = 0 }
  search (suc fuel) lo past answer ledgers =
      let mid = middle lo past in
      let probe = at_or_before mid ledgers in
      let older = probed (search fuel lo mid answer probe.ledgers) in
      let newer = probed (search fuel (mid + 1) past (some mid) probe.ledgers) in
      if ltb lo past
      then elim probe.le [ none ↦ older | some le ↦ if le then newer else older ]
      else record { answer = answer; ledgers = ledgers; probes = 0 }

  -- `lazyLedgerTimeResolver`, from the bounds of the archived transactions. A round at least halves
  -- the range, so its length is fuel enough.
  unfoldable pub resolve : Option (ℕ × ℕ) → Ledgers → Found
  resolve none ledgers = record { answer = none; ledgers = ledgers; probes = 0 }
  resolve (some (lo, hi)) ledgers = search (hi + 1 - lo) lo (hi + 1) none ledgers
