-- ===== src/Discovery/Earliest.antt =====
-- src/discovery/fields.ts, src/discovery/resolve.ts and src/db/repositories/accounts.ts: collecting
-- the accounts of an issuance with the earliest ledger known of each, and storing them.
pub mod Sightings
use xrpl_registrar.Common.{
  ℕ, String, Bool, true, ◌&&◌, Option, none, some, List, ◌∷◌, map, ltb, ◌==◌, if◌then◌else◌, [],
}
use xrpl_registrar.Common.Dict.{Dict, lookup, insert}
use xrpl_registrar.Common.Sort.{sort}
use xrpl_registrar.Common.Text.{eq, lt}
use xrpl_registrar.Db.Transactions.{least, upsert_account}

pub data DiscoveryStrategyName : Type 0 where
  trustline authorization traversal : DiscoveryStrategyName

pub data DiscoverySource : Type 0 where
  strategy : DiscoveryStrategyName → DiscoverySource
  issuer_sweep stream : DiscoverySource

pub record DiscoveredAccount : Type 0 where
  pub address : String
  pub discovered_via : DiscoverySource
  pub first_acquisition_ledger : Option ℕ

-- The two kinds of target, with the fields that choose the strategy; `none` is "auto" or nothing.
pub data DiscoveryTarget : Type 0 where
  iou : Option DiscoveryStrategyName → DiscoveryTarget
  mpt : Option DiscoveryStrategyName → Option Bool → DiscoveryTarget

unfoldable pub resolve_strategy : DiscoveryTarget → DiscoveryStrategyName
resolve_strategy (iou (some override)) = override
resolve_strategy (iou none) = trustline
resolve_strategy (mpt (some override) requires_auth) = override
resolve_strategy (mpt none (some true)) = authorization
resolve_strategy (mpt none _) = traversal

-- What is put in place of the ledger known so far, if anything.
unfoldable pub replacing : Option (Option ℕ) → Option ℕ → Option (Option ℕ)
replacing none ledger = some ledger
replacing (some none) none = none
replacing (some none) (some l) = some (some l)
replacing (some (some prev)) none = none
replacing (some (some prev)) (some l) = if ltb l prev then some (some l) else none

abbrev set_if : String → Option (Option ℕ) → Dict (Option ℕ) → Dict (Option ℕ)
set_if address none m = m
set_if address (some ledger) m = insert address ledger m

unfoldable pub record_earliest : String → Option ℕ → Dict (Option ℕ) → Dict (Option ℕ)
unfolding replacing
record_earliest address ledger m = set_if address (replacing (lookup address m) ledger) m

abbrev to_account : DiscoveryStrategyName → String × Option ℕ → DiscoveredAccount
to_account via (address, ledger) = record {
  address = address;
  discovered_via = strategy via;
  first_acquisition_ledger = ledger;
}

unfoldable pub to_accounts : Dict (Option ℕ) → DiscoveryStrategyName → List DiscoveredAccount
to_accounts m via = map (to_account via) (sort (λ a b. lt a.0 b.0) m)

-- A row of `account_issuance`.
pub record Membership : Type 0 where
  pub address : String
  pub issuance_id : ℕ
  pub discovered_via : DiscoverySource
  pub first_acquisition_ledger : Option ℕ

-- `ON CONFLICT (address, issuance_id) DO UPDATE SET first_acquisition_ledger = LEAST(…)`
unfoldable pub upsert_membership : Membership → List Membership → List Membership
upsert_membership row [] = row ∷ []
upsert_membership row (r ∷ rs) =
    if eq r.address row.address && r.issuance_id == row.issuance_id
    then record r {
      first_acquisition_ledger = least r.first_acquisition_ledger row.first_acquisition_ledger;
    }
      ∷ rs
    else r ∷ upsert_membership row rs

pub record AccountTables : Type 0 where
  pub accounts : Dict (Option ℕ)
  pub account_issuance : List Membership

unfoldable pub record_each : ℕ → List DiscoveredAccount → AccountTables → AccountTables
record_each issuance_id [] t = t
record_each issuance_id (a ∷ rest) t = record_each issuance_id rest (record {
  accounts = upsert_account a.address a.first_acquisition_ledger t.accounts;
  account_issuance =
      upsert_membership
        (record {
          address = a.address;
          issuance_id = issuance_id;
          discovered_via = a.discovered_via;
          first_acquisition_ledger = a.first_acquisition_ledger;
        })
        t.account_issuance;
})

-- `recordDiscovered`
unfoldable pub record_discovered : ℕ → List DiscoveredAccount → AccountTables → AccountTables
unfolding record_each
record_discovered issuance_id accounts t =
    record_each issuance_id (sort (λ a b. lt a.address b.address) accounts) t
