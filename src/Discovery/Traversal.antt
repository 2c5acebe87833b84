-- ===== src/Discovery/Traversal.antt =====
-- src/discovery/strategies/traversal.ts: the walk of the transfer graph from the issuer. The
-- history of an account is what pageAccountTx yields.
pub mod Scan
pub mod Walk
pub mod Reached
pub mod Found
use xrpl_registrar.Common.{
  ℕ, zero, suc, String, not, ◌&&◌, Option, none, some, List, ◌∷◌, ◌++◌, if◌then◌else◌, [],
}
use xrpl_registrar.Common.Dict.{Dict}
use xrpl_registrar.Common.Set.{add}
use xrpl_registrar.Common.Text.{eq, one_of}
use xrpl_registrar.Discovery.Earliest.{
  DiscoveredAccount, traversal as via_traversal, record_earliest, to_accounts,
}
use xrpl_registrar.Discovery.Entries.{AccountTxEntry, is_mpt_related, mpt_parties}

pub record Traversal : Type 0 where
  pub first : Dict (Option ℕ)
  pub seen : List String
  pub queued : List String
  pub frontier : List String

-- `if (!seen.has(party) && !queued.has(party)) { … }`
unfoldable pub enqueue_party : String → Traversal → Traversal
enqueue_party party t =
    if not (one_of party t.seen) && not (one_of party t.queued)
    then record t { queued = add party t.queued; frontier = t.frontier ++ party ∷ [] }
    else t

-- `for (const party of mptParties(…)) { … }`
unfoldable pub visit_parties : Option ℕ → List String → Traversal → Traversal
visit_parties ledger [] t = t
visit_parties ledger (party ∷ rest) t =
    visit_parties ledger rest
      (enqueue_party party (record t { first = record_earliest party ledger t.first }))

-- `for await (const entry of pageAccountTx(…)) { … }`
unfoldable pub visit_entries : String → List AccountTxEntry → Traversal → Traversal
visit_entries id [] t = t
visit_entries id (entry ∷ rest) t = visit_entries id rest (
    if is_mpt_related entry id
    then visit_parties entry.ledger_index (mpt_parties entry id) t
    else t)

abbrev pub finish : Option Traversal → Option (List DiscoveredAccount)
finish none = none
finish (some t) = some (to_accounts t.first via_traversal)

module _ (history : String → List AccountTxEntry) (mpt_issuance_id : String) where
  -- The body of the `while` loop, once `account` has left the frontier.
  unfoldable pub expand : String → Traversal → Traversal
  expand account t =
      if one_of account t.seen
      then t
      else visit_entries mpt_issuance_id (history account) (record t { seen = add account t.seen })

  -- `none` is a walk that needs more rounds.
  unfoldable pub walk : ℕ → Traversal → Option Traversal
  walk zero t = elim t.frontier [ [] ↦ some t | account ∷ rest ↦ none ]
  walk (suc fuel) t = elim t.frontier [
    | [] ↦ some t
    | account ∷ rest ↦ walk fuel (expand account (record t { frontier = rest }))
  ]

  unfoldable pub start : String → Traversal
  start issuer = record {
    first = record_earliest issuer none [];
    seen = [];
    queued = add issuer [];
    frontier = issuer ∷ [];
  }

  unfoldable pub traversal : ℕ → String → Option (List DiscoveredAccount)
  traversal fuel issuer = finish (walk fuel (start issuer))
