-- ===== src/Backfill/MapEntry.antt =====
-- src/backfill/mapEntry.ts and the mapper of src/backfill/issuerSweep.ts: a binary entry as a row.
use xrpl_registrar.Common.{ℕ, String, Option, none, some, List, [], ◌∷◌, map, or_else}
use xrpl_registrar.Common.Set.{add_each}
use xrpl_registrar.Backfill.Pages.{BinaryTxEntry}
use xrpl_registrar.Clio.Client.{Provenance}
use xrpl_registrar.Db.Transactions.{IngestTransaction}
use xrpl_registrar.Json.{Value, Record, as_record, get_string}
use xrpl_registrar.Reconcile.Incremental.{TrackedIssuance, DetectedHolder, holders_in_meta}
use xrpl_registrar.Xrpl.Hex.{hex_to_bytes}
use xrpl_registrar.Common.BigInt.{codes}

pub record MappedEntry : Type 0 where
  pub row : IngestTransaction
  pub meta : Option Record

-- Decoding and hashing are the xrpl library's.
module _ (decode : String → Value) (hash_signed_tx : String → String) (print : ℕ → String) where
  abbrev tx_type_of : Option Record → String
  tx_type_of none = "unknown"
  tx_type_of (some tx) = or_else (get_string "TransactionType" tx) "unknown"

  abbrev row_for : BinaryTxEntry → Provenance → List String → IngestTransaction
  row_for entry provenance accounts = record {
    hash = hash_signed_tx entry.tx_blob;
    ledger_index = entry.ledger_index;
    ctid = none;
    close_time_iso = none;
    tx_type = tx_type_of (as_record (decode entry.tx_blob));
    mpt_issuance_id = none;
    tx_blob = hex_to_bytes (codes entry.tx_blob);
    meta_blob = hex_to_bytes (codes entry.meta_blob);
    source_endpoint = provenance.source_endpoint;
    fetched_at = provenance.fetched_at;
    accounts = accounts;
  }

  -- `mapBinaryEntry`
  unfoldable pub map_binary_entry : BinaryTxEntry → String → Provenance → IngestTransaction
  map_binary_entry entry account provenance = row_for entry provenance (account ∷ [])

  abbrev kept :
      BinaryTxEntry → String → Provenance → Option Record → List DetectedHolder → Option MappedEntry
  kept entry issuer provenance meta [] = none
  kept entry issuer provenance meta (h ∷ hs) = some (record {
    row = row_for entry provenance (add_each (issuer ∷ map (λ d. d.holder) (h ∷ hs)) []);
    meta = meta;
  })

  abbrev holders_of : List TrackedIssuance → Option Record → List DetectedHolder
  holders_of tracked none = []
  holders_of tracked (some meta) = holders_in_meta print meta tracked

  -- `issuerSweepEntryMapper`
  unfoldable pub map_sweep_entry :
      List TrackedIssuance → BinaryTxEntry → String → Provenance → Option MappedEntry
  map_sweep_entry tracked entry issuer provenance =
      let meta = as_record (decode entry.meta_blob) in
      kept entry issuer provenance meta (holders_of tracked meta)
