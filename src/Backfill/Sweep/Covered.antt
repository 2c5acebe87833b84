-- ===== src/Backfill/Sweep/Covered.antt =====
-- A completed sweep covers every holder that it met, around each transaction that it stored.
use xrpl_registrar.Common.{
  ℕ, ◌≤◌, String, ◌≡◌, refl, sym, ap, ◌∙◌, inl, inr, Bool, true, false, ◌&&◌, ◌||◌, Option, none,
  some, List, [], ◌∷◌, arith, ltb, leb, ◌==◌, if◌then◌else◌, Bool-cases, Option-cases,
}
use xrpl_registrar.Common.Dict.{Dict, lookup}
use xrpl_registrar.Common.Sort.{sort, insert_sorted}
use xrpl_registrar.Common.Text.{eq, lt}
use xrpl_registrar.Discovery.Earliest.{Membership, issuer_sweep, upsert_membership}
use xrpl_registrar.Backfill.MapEntry.{MappedEntry}
use xrpl_registrar.Backfill.Holders.{SweepDb, record_holder, record_holders}
use xrpl_registrar.Backfill.Sweep.{lower_first, first_in_row, first_in_batch, raise_mark}
use xrpl_registrar.Common.Dict.{lookup-insert}
use xrpl_registrar.Common.Text.{eq_iff, one_of}
use xrpl_registrar.Db.Transactions.{least}

-- A holder is recorded with a first ledger at or before `ledger`.
abbrev pub at_or_before : Option ℕ → ℕ → Bool
at_or_before none ledger = false
at_or_before (some first) ledger = leb first ledger

unfoldable pub recorded : ℕ → String → ℕ → List Membership → Bool
recorded id a ledger [] = false
recorded id a ledger (m ∷ ms) =
    (m.issuance_id == id && eq m.address a && at_or_before m.first_acquisition_ledger ledger)
    || recorded id a ledger ms

at_or_before-least :
    (o : Option ℕ) (first ledger : ℕ)
    → at_or_before (least o (some first)) ledger ≡ (at_or_before o ledger || leb first ledger)
at_or_before-least none first ledger = ground arith
at_or_before-least (some k) first ledger = ground arith

abbrev held : ℕ → String → ℕ → Membership
held id address ledger = record {
  address = address;
  issuance_id = id;
  discovered_via = issuer_sweep;
  first_acquisition_ledger = some ledger;
}

recorded-upsert_membership :
    (id : ℕ) (a : String) (ledger : ℕ) (b : String) (l : ℕ) (ms : List Membership)
    → recorded id a ledger (upsert_membership (held id b l) ms)
      ≡ (recorded id a ledger ms || (eq b a && leb l ledger))
unfolding recorded upsert_membership
recorded-upsert_membership id a ledger b l [] = ground arith
recorded-upsert_membership id a ledger b l (m ∷ ms) = ground (
  arith,
  recorded-upsert_membership id a ledger b l ms,
  at_or_before-least m.first_acquisition_ledger l ledger,
  eq_iff m.address b,
  eq_iff m.address a,
  eq_iff b a,
)

-- Some pair has the address, with a ledger at or before `ledger`.
unfoldable pub any_at : List (String × ℕ) → String → ℕ → Bool
any_at [] a ledger = false
any_at ((b, l) ∷ rest) a ledger = (eq b a && leb l ledger) || any_at rest a ledger

any_at-insert_sorted :
    (x : String × ℕ) (xs : List (String × ℕ)) (a : String) (ledger : ℕ)
    → any_at (insert_sorted (λ p q. lt p.0 q.0) x xs) a ledger
      ≡ ((eq x.0 a && leb x.1 ledger) || any_at xs a ledger)
unfolding any_at insert_sorted
any_at-insert_sorted x [] a ledger = refl
any_at-insert_sorted x (y ∷ ys) a ledger = ground (arith, any_at-insert_sorted x ys a ledger)

pub any_at-sort :
    (xs : List (String × ℕ)) (a : String) (ledger : ℕ)
    → any_at (sort (λ p q. lt p.0 q.0) xs) a ledger ≡ any_at xs a ledger
unfolding any_at sort
any_at-sort [] a ledger = refl
any_at-sort (x ∷ xs) a ledger =
    any_at-insert_sorted x (sort (λ p q. lt p.0 q.0) xs) a ledger
    ∙ ap (λ b. (eq x.0 a && leb x.1 ledger) || b) (any_at-sort xs a ledger)

pub any_at-lookup :
    (m : Dict ℕ) (a : String) (ledger : ℕ)
    → at_or_before (lookup a m) ledger ≡ true
    → any_at m a ledger ≡ true
unfolding any_at lookup
any_at-lookup [] a ledger h = ground arith
any_at-lookup ((b, l) ∷ m) a ledger h = ground (arith, any_at-lookup m a ledger)

pub recorded-record_holders :
    {D : Type 0} (id : ℕ) (hs : List (String × ℕ)) (db : SweepDb D) (a : String) (ledger : ℕ)
    → recorded id a ledger (record_holders id hs db).account_issuance
      ≡ (recorded id a ledger db.account_issuance || any_at hs a ledger)
unfolding record_holders record_holder any_at
recorded-record_holders id [] db a ledger = ground arith
recorded-record_holders id ((b, l) ∷ hs) db a ledger = ground (
  arith,
  recorded-record_holders id hs (record_holder id b l db) a ledger,
  recorded-upsert_membership id a ledger b l db.account_issuance,
)

lookup_same : (b a : String) (m : Dict ℕ) → eq b a ≡ true → lookup a m ≡ lookup b m
lookup_same b a m h = ap (λ k. lookup k m) (sym ((eq_iff b a).0 h))

at_or_before-lower_first :
    (l : ℕ) (b : String) (m : Dict ℕ) (a : String) (ledger : ℕ)
    → at_or_before (lookup a (lower_first l b m)) ledger
      ≡ (at_or_before (lookup a m) ledger || (eq b a && leb l ledger))
unfolding lower_first
at_or_before-lower_first l b m a ledger = elim (Option-cases (lookup b m)) [
  | inl e ↦ rw (e, lower_first) (ground (arith, lookup-insert b a l m, lookup_same b a m, e))
  | inr (prev, e) ↦
      rw (e, lower_first) (ground (arith, lookup-insert b a l m, lookup_same b a m, e))
]

-- A row of the batch is in the ledger and has the account.
unfoldable pub met : String → ℕ → List MappedEntry → Bool
met a ledger [] = false
met a ledger (m ∷ ms) = (m.row.ledger_index == ledger && one_of a m.row.accounts) || met a ledger ms

at_or_before-first_in_row :
    (issuer : String) (l : ℕ) (accounts : List String) (m : Dict ℕ) (a : String) (ledger : ℕ)
    → eq a issuer ≡ false
    → at_or_before (lookup a (first_in_row issuer l accounts m)) ledger
      ≡ (at_or_before (lookup a m) ledger || (one_of a accounts && leb l ledger))
unfolding first_in_row
at_or_before-first_in_row issuer l [] m a ledger h = ground arith
at_or_before-first_in_row issuer l (b ∷ bs) m a ledger h = elim (Bool-cases (eq b issuer)) [
  | inl same ↦ rw same (
      ground (
        arith,
        at_or_before-first_in_row issuer l bs m a ledger h,
        eq_iff b issuer,
        eq_iff a b,
        eq_iff a issuer,
      ))
  | inr other ↦ rw other (
      ground (
        arith,
        at_or_before-first_in_row issuer l bs (lower_first l b m) a ledger h,
        at_or_before-lower_first l b m a ledger,
        eq_iff b a,
        eq_iff a b,
      ))
]

pub at_or_before-first_in_batch :
    (issuer : String) (batch : List MappedEntry) (m : Dict ℕ) (a : String) (ledger : ℕ)
    → eq a issuer ≡ false
    → (at_or_before (lookup a m) ledger || met a ledger batch) ≡ true
    → at_or_before (lookup a (first_in_batch issuer batch m)) ledger ≡ true
unfolding first_in_batch met
at_or_before-first_in_batch issuer [] m a ledger h k = ground arith
at_or_before-first_in_batch issuer (e ∷ es) m a ledger h k = ground (
  arith,
  at_or_before-first_in_batch issuer es (first_in_row issuer e.row.ledger_index e.row.accounts m) a
      ledger h,
  at_or_before-first_in_row issuer e.row.ledger_index e.row.accounts m a ledger h,
)

pub raise_mark-le : (mark : ℕ) (batch : List MappedEntry) → mark ≤ raise_mark mark batch
unfolding raise_mark
raise_mark-le mark [] = omega arith
raise_mark-le mark (e ∷ es) =
    ground
      (arith, raise_mark-le (if ltb mark e.row.ledger_index then e.row.ledger_index else mark) es)

pub raise_mark-met :
    (mark : ℕ) (batch : List MappedEntry) (a : String) (ledger : ℕ)
    → met a ledger batch ≡ true
    → ledger ≤ raise_mark mark batch
unfolding raise_mark met
raise_mark-met mark [] a ledger h = ground arith
raise_mark-met mark (e ∷ es) a ledger h =
    let next : ℕ = if ltb mark e.row.ledger_index then e.row.ledger_index else mark in
    ground (arith, raise_mark-met next es a ledger, raise_mark-le next es)
