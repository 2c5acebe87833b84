-- ===== src/Discovery/Earliest/Sightings.antt =====
-- What fields.ts makes of a history of sightings.
use xrpl_registrar.Common.{
  ℕ, String, ◌≡◌, refl, ap, ◌∙◌, inl, inr, true, false, ◌&&◌, Option, none, some, List, [], ◌∷◌,
  map, arith, if◌then◌else◌, Bool-cases,
}
use xrpl_registrar.Common.Dict.{Dict, lookup, lookup-insert}
use xrpl_registrar.Common.Sort.{sort, find, find-sort}
use xrpl_registrar.Common.Text.{eq, eq_iff, lt, lt-ne}
use xrpl_registrar.Db.Transactions.{least}
use xrpl_registrar.Discovery.Earliest.{
  DiscoveryStrategyName, DiscoveredAccount, replacing, set_if, record_earliest, to_account,
  to_accounts,
}

-- An account is seen in a ledger, or with its ledger unknown.
unfoldable pub record_all : List (String × Option ℕ) → Dict (Option ℕ) → Dict (Option ℕ)
record_all [] m = m
record_all ((address, ledger) ∷ rest) m = record_all rest (record_earliest address ledger m)

-- One more sighting: `none` is an account that was not seen before.
abbrev pub sighted : Option (Option ℕ) → Option ℕ → Option (Option ℕ)
sighted none ledger = some ledger
sighted (some prev) ledger = some (least prev ledger)

-- The earliest ledger of an account's sightings, without the map.
unfoldable pub earliest_from :
    String → Option (Option ℕ) → List (String × Option ℕ) → Option (Option ℕ)
earliest_from a known [] = known
earliest_from a known ((address, ledger) ∷ rest) =
    earliest_from a (if eq address a then sighted known ledger else known) rest

abbrev overwritten : Option (Option ℕ) → Option (Option ℕ) → Option (Option ℕ)
overwritten none known = known
overwritten (some ledger) known = some ledger

lookup-set_if :
    (a address : String) (o : Option (Option ℕ)) (m : Dict (Option ℕ))
    → lookup a (set_if address o m)
      ≡ (if eq address a then overwritten o (lookup a m) else lookup a m)
lookup-set_if a address none m = ground arith
lookup-set_if a address (some ledger) m = lookup-insert address a ledger m

replacing-sighted :
    (known : Option (Option ℕ)) (ledger : Option ℕ)
    → overwritten (replacing known ledger) known ≡ sighted known ledger
unfolding replacing
replacing-sighted none ledger = refl
replacing-sighted (some none) none = refl
replacing-sighted (some none) (some l) = refl
replacing-sighted (some (some prev)) none = refl
replacing-sighted (some (some prev)) (some l) = ground arith

pub lookup-record_earliest :
    (a address : String) (ledger : Option ℕ) (m : Dict (Option ℕ))
    → lookup a (record_earliest address ledger m)
      ≡ (if eq address a then sighted (lookup a m) ledger else lookup a m)
unfolding record_earliest
lookup-record_earliest a address ledger m = elim (Bool-cases (eq address a)) [
  | inl same ↦
      lookup-set_if a address (replacing (lookup address m) ledger) m
      ∙ rw (same, (eq_iff address a).0 same) (replacing-sighted (lookup a m) ledger)
  | inr other ↦ lookup-set_if a address (replacing (lookup address m) ledger) m ∙ rw other refl
]

lookup-record_all :
    (a : String) (sightings : List (String × Option ℕ)) (m : Dict (Option ℕ))
    → lookup a (record_all sightings m) ≡ earliest_from a (lookup a m) sightings
unfolding record_all earliest_from
lookup-record_all a [] m = refl
lookup-record_all a ((address, ledger) ∷ rest) m =
    lookup-record_all a rest (record_earliest address ledger m)
    ∙ ap (λ k. earliest_from a k rest) (lookup-record_earliest a address ledger m)

-- The entry that an account should have.
abbrev pub account_of :
    DiscoveryStrategyName → String → Option (Option ℕ) → Option DiscoveredAccount
account_of via a none = none
account_of via a (some ledger) = some (to_account via (a, ledger))

-- The first entry of an address.
unfoldable pub entry_of : String → List DiscoveredAccount → Option DiscoveredAccount
unfolding find
entry_of a ds = find (λ d. eq d.address a) ds

abbrev mapped : DiscoveryStrategyName → Option (String × Option ℕ) → Option DiscoveredAccount
mapped via none = none
mapped via (some e) = some (to_account via e)

entry_of-map :
    (a : String) (via : DiscoveryStrategyName) (es : List (String × Option ℕ))
    → entry_of a (map (to_account via) es) ≡ mapped via (find (λ e. eq e.0 a) es)
unfolding entry_of find
entry_of-map a via [] = refl
entry_of-map a via (e ∷ es) = ground (arith, entry_of-map a via es)

find-lookup :
    (a : String) (via : DiscoveryStrategyName) (m : Dict (Option ℕ))
    → mapped via (find (λ e. eq e.0 a) m) ≡ account_of via a (lookup a m)
unfolding find lookup
find-lookup a via [] = refl
find-lookup a via ((k, v) ∷ m) = ground (arith, eq_iff k a, find-lookup a via m)

one_address :
    (a : String) (y x : String × Option ℕ) → lt y.0 x.0 ≡ true → (eq x.0 a && eq y.0 a) ≡ false
one_address a y x h = ground (arith, eq_iff x.0 a, eq_iff y.0 a, eq_iff y.0 x.0, lt-ne y.0 x.0 h)

-- The result has the map's entry of an address.
pub entry_of-to_accounts :
    (a : String) (via : DiscoveryStrategyName) (m : Dict (Option ℕ))
    → entry_of a (to_accounts m via) ≡ account_of via a (lookup a m)
unfolding to_accounts
entry_of-to_accounts a via m =
    entry_of-map a via (sort (λ x y. lt x.0 y.0) m)
    ∙ ap (mapped via) (find-sort (λ x y. lt x.0 y.0) (λ e. eq e.0 a) (one_address a) m)
    ∙ find-lookup a via m

-- Over any history of sightings, in any order: the result has an entry of exactly the addresses
-- that were seen, and its ledger is the earliest of those that are known.
pub to_accounts-record_all :
    (a : String) (via : DiscoveryStrategyName) (sightings : List (String × Option ℕ))
    → entry_of a (to_accounts (record_all sightings []) via)
      ≡ account_of via a (earliest_from a none sightings)
unfolding lookup
to_accounts-record_all a via sightings =
    entry_of-to_accounts a via (record_all sightings [])
    ∙ ap (account_of via a) (lookup-record_all a sightings [])
