-- ===== src/Admin/Deletion/Spares.antt =====
-- Deleting an issuance spares what belongs to the others.
use xrpl_registrar.Common.{
  ℕ, String, ◌≡◌, refl, sym, ◌∙◌, subst, ◌≢◌, inl, inr, Bool, true, false, not, ◌&&◌, ◌||◌, Option,
  none, some, List, [], ◌∷◌, arith, ◌==◌, Bool-cases, Option-cases, keep_if, any_of,
  keep_if-keep_if, All-of,
}
use xrpl_registrar.Common.Set.{one_of-add}
use xrpl_registrar.Common.Sort.{find}
use xrpl_registrar.Common.Text.{eq, eq_iff, one_of}
use xrpl_registrar.Admin.Deletion.{
  AdminDb, held_elsewhere, exclusive, is_kept_issuer, safe_issuer, removable, without,
  is_referenced, links_left, deltas_left, purge, delete_issuance,
}
use xrpl_registrar.Backfill.Worker.{CoverageRow}
use xrpl_registrar.Db.Issuances.{IssuanceRecord, Issuances, get_by_id}
use xrpl_registrar.Db.Transactions.{TransactionRow}
use xrpl_registrar.Discovery.Earliest.{Membership}
use xrpl_registrar.Reconcile.BalanceDeltas.{StoredDelta}

-- The account is in scope for the issuance.
abbrev pub is_member : ℕ → String → List Membership → Bool
is_member issuance_id address ms =
    any_of (λ m. eq m.address address && m.issuance_id == issuance_id) ms

-- The delta is one of the issuance, of an account in its scope.
abbrev pub is_delta_of : ℕ → AdminDb → StoredDelta → Bool
is_delta_of issuance_id db d =
    d.issuance_id == issuance_id && is_member issuance_id d.row.address db.account_issuance

-- The transaction is linked to an account in scope, or has a delta of the issuance there.
abbrev pub touches : ℕ → AdminDb → TransactionRow → Bool
touches issuance_id db t =
    any_of (λ l. eq l.0 t.hash && is_member issuance_id l.1 db.account_issuance)
      db.archive.account_transactions
    || any_of (λ d. eq d.row.hash t.hash && is_delta_of issuance_id db d) db.balance_deltas

is_member-held_elsewhere :
    (id j : ℕ) (a : String) (ms : List Membership)
    → j ≢ id
    → is_member j a ms ≡ true
    → held_elsewhere id a ms ≡ true
unfolding held_elsewhere
is_member-held_elsewhere id j a [] n h = absurd (ground (arith, h))
is_member-held_elsewhere id j a (m ∷ ms) n h =
    ground (arith, h, n, is_member-held_elsewhere id j a ms n)

one_of-keep_if :
    (a : String) (p : String → Bool) (xs : List String)
    → one_of a (keep_if p xs) ≡ true
    → p a ≡ true
one_of-keep_if a p [] h = absurd (ground (arith, h))
one_of-keep_if a p (x ∷ xs) h = elim (Bool-cases (p x)) [
  | inl e ↦ elim (Bool-cases (eq a x)) [
    | inl s ↦ subst (λ y. p y ≡ true) (sym ((eq_iff a x).0 s)) e
    | inr o ↦ one_of-keep_if a p xs (ground (arith, h, e, o))
  ]
  | inr e ↦ one_of-keep_if a p xs (ground (arith, h, e))
]

exclusive-held_elsewhere :
    (id : ℕ) (a : String) (ms : List Membership)
    → one_of a (exclusive id ms) ≡ true
    → held_elsewhere id a ms ≡ false
unfolding exclusive
exclusive-held_elsewhere id a ms h =
    ground (arith, one_of-keep_if a (λ x. not (held_elsewhere id x ms)) _ h)

module _ (encode : List ℕ → Option String) where
  removable-held_elsewhere :
      (target : IssuanceRecord) (db : AdminDb) (a : String)
      → one_of a (removable encode target db) ≡ true
      → held_elsewhere target.id a db.account_issuance ≡ false
  unfolding removable
  removable-held_elsewhere target db a h =
      let issuer = safe_issuer encode target in
      let own = exclusive target.id db.account_issuance in
      elim (Bool-cases (is_kept_issuer encode target.id issuer db.issuances)) [
        | inl k ↦ exclusive-held_elsewhere target.id a _ (ground (arith, h, k))
        | inr k ↦ elim (Bool-cases (held_elsewhere target.id issuer db.account_issuance)) [
          | inl e ↦ exclusive-held_elsewhere target.id a _ (ground (arith, h, k, e))
          | inr e ↦ elim (Bool-cases (eq a issuer)) [
            | inl s ↦
                subst (λ y. held_elsewhere target.id y db.account_issuance ≡ false)
                  (sym ((eq_iff a issuer).0 s)) e
            | inr o ↦
                exclusive-held_elsewhere target.id a _
                  (ground (arith, h, k, e, o, one_of-add a issuer own))
          ]
        ]
      ]

  -- An account in scope for another issuance is not removed.
  removable-spares :
      (target : IssuanceRecord) (db : AdminDb) (j : ℕ) (a : String)
      → j ≢ target.id
      → is_member j a db.account_issuance ≡ true
      → one_of a (removable encode target db) ≡ false
  removable-spares target db j a n m = elim (Bool-cases (one_of a (removable encode target db))) [
    | inl h ↦ absurd (
        ground (
          arith,
          removable-held_elsewhere target db a h,
          is_member-held_elsewhere target.id j a db.account_issuance n m,
        ))
    | inr h ↦ h
  ]

find_holds :
    (id : ℕ) (rows : List IssuanceRecord) (r : IssuanceRecord)
    → find (λ i. i.id == id) rows ≡ some r
    → r.id ≡ id
unfolding find
find_holds id [] r h = absurd (ground (arith, h))
find_holds id (x ∷ rows) r h = elim (Bool-cases (x.id == id)) [
  | inl e ↦ ground (arith, h, e)
  | inr e ↦ find_holds id rows r (ground (arith, h, e))
]

get_by_id-id : (id : ℕ) (t : Issuances) (r : IssuanceRecord) → get_by_id id t ≡ some r → r.id ≡ id
unfolding get_by_id
get_by_id-id id t r h = find_holds id t.rows r h

keep_if-without {ℓ} :
    {A : Type ℓ} (p q : A → Bool) (xs : List A)
    → ((x : A) → p x ≡ true → q x ≡ false)
    → keep_if p (without q xs) ≡ keep_if p xs
keep_if-without p q xs h =
    keep_if-keep_if p (λ x. not (q x)) xs (All-of (λ x k. ground (arith, h x k)) xs)

module _ (db : AdminDb) (id j : ℕ) (other : j ≢ id) (addrs : List String)
    (spared : (a : String)
      → is_member j a db.account_issuance ≡ true
      → one_of a addrs ≡ false) where
  any_delta_spared :
      (ds : List StoredDelta) (hash : String)
      → any_of (λ d. eq d.row.hash hash && is_delta_of j db d) ds ≡ true
      → any_of
          (λ d. eq d.row.hash hash)
          (without (λ d. one_of d.row.address addrs) (without (λ d. d.issuance_id == id) ds))
        ≡ true
  any_delta_spared [] hash e = absurd (ground (arith, e))
  any_delta_spared (d ∷ ds) hash e =
      ground (arith, other, e, spared d.row.address, any_delta_spared ds hash)

  any_link_spared :
      (ls : List (String × String)) (hash : String)
      → any_of (λ l. eq l.0 hash && is_member j l.1 db.account_issuance) ls ≡ true
      → any_of (λ l. eq l.0 hash) (without (λ l. one_of l.1 addrs) ls) ≡ true
  any_link_spared [] hash e = absurd (ground (arith, e))
  any_link_spared (l ∷ ls) hash e = ground (arith, e, spared l.1, any_link_spared ls hash)

  touches-is_referenced :
      (t : TransactionRow)
      → touches j db t ≡ true
      → is_referenced (links_left addrs db) (deltas_left id addrs db) t ≡ true
  unfolding links_left deltas_left
  touches-is_referenced t h = ground (
    arith,
    h,
    any_link_spared db.archive.account_transactions t.hash,
    any_delta_spared db.balance_deltas t.hash,
  )

  -- An account in scope for the other issuance: no row of its is deleted.
  address_spared :
      {A : Type 0} (address : A → String) (a : String) (xs : List A)
      → is_member j a db.account_issuance ≡ true
      → keep_if (λ x. eq (address x) a) (without (λ x. one_of (address x) addrs) xs)
        ≡ keep_if (λ x. eq (address x) a) xs
  address_spared address a xs m =
      keep_if-without (λ x. eq (address x) a) (λ x. one_of (address x) addrs) xs
        (λ x e. subst (λ y. one_of y addrs ≡ false) (sym ((eq_iff (address x) a).0 e)) (spared a m))

-- What an issuance and an account have in the database.
abbrev pub members_of : ℕ → AdminDb → List Membership
members_of issuance_id db = keep_if (λ m. m.issuance_id == issuance_id) db.account_issuance

abbrev pub coverage_of : String → AdminDb → List CoverageRow
coverage_of a db = keep_if (λ c. eq c.address a) db.coverage

abbrev pub links_of : String → AdminDb → List (String × String)
links_of a db = keep_if (λ l. eq l.1 a) db.archive.account_transactions

abbrev pub account_of : String → AdminDb → List (String × Option ℕ)
account_of a db = keep_if (λ x. eq x.0 a) db.archive.accounts

-- What belongs to an issuance and to an account of it is the same before and after.
abbrev pub IsSpared : ℕ → String → AdminDb → AdminDb → Type 0
IsSpared j a db after =
    (keep_if (is_delta_of j db) after.balance_deltas ≡ keep_if (is_delta_of j db) db.balance_deltas)
    × (members_of j after ≡ members_of j db)
    × (keep_if (touches j db) after.archive.transactions
        ≡ keep_if (touches j db) db.archive.transactions)
    × (coverage_of a after ≡ coverage_of a db)
    × (links_of a after ≡ links_of a db)
    × (account_of a after ≡ account_of a db)

module _ (db : AdminDb) (id j : ℕ) (n : j ≢ id) (addrs : List String)
    (spared : (x : String)
      → is_member j x db.account_issuance ≡ true
      → one_of x addrs ≡ false) where
  purge-IsSpared :
      (a : String) → is_member j a db.account_issuance ≡ true → IsSpared j a db (purge id addrs db)
  unfolding purge links_left deltas_left
  purge-IsSpared a m = (
    keep_if-without (is_delta_of j db) (λ d. one_of d.row.address addrs) _
          (λ d h. spared d.row.address (ground (arith, h)))
        ∙ keep_if-without (is_delta_of j db) (λ d. d.issuance_id == id) db.balance_deltas
            (λ d h. ground (arith, n, h)),
    keep_if-without (λ r. r.issuance_id == j) (λ r. r.issuance_id == id) db.account_issuance
        (λ r h. ground (arith, n, h)),
    keep_if-keep_if (touches j db) (is_referenced (links_left addrs db) (deltas_left id addrs db))
        db.archive.transactions
        (All-of (touches-is_referenced db id j n addrs spared) db.archive.transactions),
    address_spared db id j n addrs spared (λ c. c.address) a db.coverage m,
    address_spared db id j n addrs spared (λ l. l.1) a db.archive.account_transactions m,
    address_spared db id j n addrs spared (λ x. x.0) a db.archive.accounts m,
  )

module _ (encode : List ℕ → Option String) (exec : String → Bool) (is_postgres : Bool) (id : ℕ)
    (db : AdminDb) where
  absent : get_by_id id db.issuances ≡ none → (delete_issuance encode exec is_postgres id db).0 ≡ db
  unfolding delete_issuance
  absent e = ground (arith, e)

  purged :
      (target : IssuanceRecord)
      → get_by_id id db.issuances ≡ some target
      → (delete_issuance encode exec is_postgres id db).0 ≡ purge id (removable encode target db) db
  unfolding delete_issuance
  purged target e = ground (arith, e)

-- Deleting an issuance spares every other one and the accounts in its scope: the memberships of the
-- other one, its deltas of accounts in its scope, and every transaction that is linked to such an
-- account or has such a delta are what they were, and so are the row, the coverage and the links of
-- each account in its scope.
pub delete_issuance-spares :
    (encode : List ℕ → Option String) (exec : String → Bool) (is_postgres : Bool) (id j : ℕ)
    (db : AdminDb) (a : String)
    → j ≢ id
    → is_member j a db.account_issuance ≡ true
    → IsSpared j a db (delete_issuance encode exec is_postgres id db).0
delete_issuance-spares encode exec is_postgres id j db a n m =
    elim (Option-cases (get_by_id id db.issuances)) [
      | inl e ↦
          subst (IsSpared j a db) (sym (absent encode exec is_postgres id db e))
            (refl, refl, refl, refl, refl, refl)
      | inr (target, e) ↦
          subst (IsSpared j a db) (sym (purged encode exec is_postgres id db target e)) (
            purge-IsSpared db id j n (removable encode target db)
              (λ x h.
                removable-spares encode target db j x
                  (subst (λ i. j ≢ i) (sym (get_by_id-id id db.issuances target e)) n) h)
              a m)
    ]
