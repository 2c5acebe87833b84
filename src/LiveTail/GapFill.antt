-- ===== src/LiveTail/GapFill.antt =====
-- src/livetail/gapFill.ts: healing a gap by one sweep of each issuer over its range. The sweeps
-- that the code runs side by side are here in the order of the issuers; progress lines are left out.
use xrpl_registrar.Common.{
  ℕ, zero, suc, ◌+◌, String, Option, none, some, List, [], ◌∷◌, ◌++◌, map, length,
}
use xrpl_registrar.Backfill.MapEntry.{MappedEntry}
use xrpl_registrar.Backfill.Pages.{BinaryTxEntry, BackfillPage, PageRequest, page_request}
use xrpl_registrar.Clio.Client.{Provenance}
use xrpl_registrar.Db.Transactions.{Archive, insert_transaction_rows_many}
use xrpl_registrar.Json.{Value, Record}
use xrpl_registrar.LiveTail.GapTracker.{LedgerRange}

-- What a heal has done: the tables, the transactions counted, and the metadata that was handed to
-- streaming discovery.
pub record Healing (D : Type 0) : Type 0 where
  pub archive : Archive
  pub deltas : D
  pub count : ℕ
  pub entries : List (Option Record)

-- The mapper is asked for anew on each page, since the tracked issuances may change: it is told
-- how many transactions were ingested by then.
pub record HealOptions (D : Type 0) : Type 0 where
  pub upstream : PageRequest → Option BackfillPage
  pub page_limit : Option ℕ
  pub map_entry : ℕ → BinaryTxEntry → String → Provenance → Option MappedEntry
  pub derive_deltas : String → Option Record → D → D

-- How a heal ends: with the last page, by a request that throws, or after the pages allowed.
pub data Healed : Type 0 where
  complete interrupted rejected : Healed

module _ {D : Type 0} (o : HealOptions D) (range : LedgerRange) where
  unfoldable pub heal_batch : ℕ → String → Provenance → List BinaryTxEntry → List MappedEntry
  heal_batch count issuer provenance [] = []
  heal_batch count issuer provenance (e ∷ es) = elim (o.map_entry count e issuer provenance) [
    | none ↦ heal_batch count issuer provenance es
    | some m ↦ m ∷ heal_batch count issuer provenance es
  ]

  unfoldable pub heal_deltas : List MappedEntry → D → D
  heal_deltas [] d = d
  heal_deltas (m ∷ ms) d = heal_deltas ms (o.derive_deltas m.row.hash m.meta d)

  -- A page without a row in scope is passed over.
  unfoldable pub heal_page : List MappedEntry → Healing D → Healing D
  unfolding heal_deltas
  heal_page [] h = h
  heal_page (m ∷ ms) h = record {
    archive = insert_transaction_rows_many (map (λ b. b.row) (m ∷ ms)) h.archive;
    deltas = heal_deltas (m ∷ ms) h.deltas;
    count = h.count + length (m ∷ ms);
    entries = h.entries ++ map (λ b. b.meta) (m ∷ ms);
  }

  abbrev heal_request : String → Option Value → PageRequest
  heal_request issuer marker =
      page_request
        (record {
          account = issuer;
          from_ledger = some range.from_ledger;
          to_ledger = some range.to_ledger;
          start_marker = none;
          limit = o.page_limit;
        })
        marker

  unfoldable pub sweep_issuer : ℕ → String → Option Value → Healing D → Healing D × Healed
  unfolding heal_batch heal_page
  sweep_issuer zero issuer marker h = (h, interrupted)
  sweep_issuer (suc pages) issuer marker h = elim (o.upstream (heal_request issuer marker)) [
    | none ↦ (h, rejected)
    | some page ↦ elim page.marker [
      | none ↦ (heal_page (heal_batch h.count issuer page.provenance page.entries) h, complete)
      | some next ↦
          sweep_issuer pages issuer (some next)
            (heal_page (heal_batch h.count issuer page.provenance page.entries) h)
    ]
  ]

  -- `mapPool(issuers, …, sweepIssuer)`; an exception ends it.
  unfoldable pub backfill_gap : ℕ → List String → Healing D → Healing D × Healed
  unfolding sweep_issuer
  backfill_gap pages [] h = (h, complete)
  backfill_gap pages (issuer ∷ rest) h =
      let (healed, ending) = sweep_issuer pages issuer none h in
      elim ending [ complete ↦ backfill_gap pages rest healed | other ↦ (healed, other) ]
