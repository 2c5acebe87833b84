-- ===== src/Discovery/Discover.antt =====
-- src/discovery/discover.ts: the account set of an issuance, by the strategy that fits it.
use xrpl_registrar.Common.{
  ℕ, String, Bool, not, Option, none, some, List, [], ◌∷◌, ◌++◌, map, if◌then◌else◌, length,
  keep_if,
}
use xrpl_registrar.Common.Set.{add_each}
use xrpl_registrar.Common.Sort.{sort}
use xrpl_registrar.Common.Text.{lt, one_of}
use xrpl_registrar.Discovery.Earliest.{
  DiscoveryStrategyName, DiscoveredAccount, iou, mpt, trustline, authorization,
  traversal as via_traversal, strategy, resolve_strategy,
}
use xrpl_registrar.Discovery.Entries.{AccountTxEntry}
use xrpl_registrar.Discovery.Pages.{current_trustline_holders}
use xrpl_registrar.Discovery.Scans.{authorization_scan, trustline_scan, detect_requires_auth}
use xrpl_registrar.Discovery.Traversal.{traversal}
use xrpl_registrar.Json.{Value, Record}

pub record DiscoveryCrossCheck : Type 0 where
  pub current_count : ℕ
  pub missing_from_historical : List String

pub record DiscoveryResult : Type 0 where
  pub strategy : DiscoveryStrategyName
  pub accounts : List DiscoveredAccount
  pub cross_check : Option DiscoveryCrossCheck

unfoldable pub sort_by_address : List DiscoveredAccount → List DiscoveredAccount
sort_by_address = sort (λ a b. lt a.address b.address)

-- A current holder that the scan does not have.
abbrev pub unseen_holder : String → DiscoveredAccount
unseen_holder address = record {
  address = address;
  discovered_via = strategy trustline;
  first_acquisition_ledger = none;
}

unfoldable pub missing_from : List DiscoveredAccount → List String → List String
missing_from historical current =
    sort (λ a b. lt a b)
      (keep_if (λ a. not (one_of a (add_each (map (λ d. d.address) historical) []))) current)

abbrev merged : List DiscoveredAccount → List String → List DiscoveredAccount
merged historical [] = historical
merged historical (a ∷ missing) = sort_by_address (historical ++ map unseen_holder (a ∷ missing))

unfoldable pub cross_checked : List DiscoveredAccount → List String → DiscoveryResult
unfolding missing_from sort_by_address
cross_checked historical current = record {
  strategy = trustline;
  accounts = merged historical (missing_from historical current);
  cross_check = some (record {
    current_count = length current;
    missing_from_historical = missing_from historical current;
  });
}

-- `none` is the error of a strategy that is not supported for IOUs.
unfoldable pub discover_iou :
    String
    → String
    → Option DiscoveryStrategyName
    → Bool
    → List AccountTxEntry
    → List Record
    → Option DiscoveryResult
unfolding cross_checked
discover_iou currency issuer override cross_check entries lines =
    let historical = trustline_scan currency issuer entries in
    elim (resolve_strategy (iou override)) [
      | trustline ↦ some (
          if cross_check
          then cross_checked historical (current_trustline_holders currency lines [])
          else record { strategy = trustline; accounts = historical; cross_check = none })
      | authorization ↦ none
      | via_traversal ↦ none
    ]

-- The flag is read upstream in auto mode only, and only if the target leaves it open.
unfoldable pub requires_auth_of :
    Option DiscoveryStrategyName → Option Bool → Option Value → Option Bool
requires_auth_of none none ledger_entry = some (detect_requires_auth ledger_entry)
requires_auth_of override requires_auth ledger_entry = requires_auth

-- `none` is a traversal that needs more than `fuel` rounds.
unfoldable pub discover_mpt :
    (String → List AccountTxEntry)
    → (String → List AccountTxEntry)
    → ℕ
    → String
    → String
    → Option DiscoveryStrategyName
    → Option Bool
    → Option Value
    → Option DiscoveryResult
unfolding requires_auth_of
discover_mpt history authorizations fuel id issuer override requires_auth ledger_entry =
    elim (resolve_strategy (mpt override (requires_auth_of override requires_auth ledger_entry))) [
      | authorization ↦ some (record {
        strategy = authorization;
        accounts = authorization_scan id issuer (authorizations issuer);
        cross_check = none;
      })
      | other ↦ elim (traversal history id fuel issuer) [
        | none ↦ none
        | some accounts ↦
            some (record { strategy = other; accounts = accounts; cross_check = none })
      ]
    ]
