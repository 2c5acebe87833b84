-- ===== src/LiveTail/Scope/Named.antt =====
-- The accounts in a transaction's scope: the holders that it touches, and their issuers.
use xrpl_registrar.Common.{
  ℕ, String, ◌≡◌, sym, ◌∙◌, ◌↔◌, inl, inr, Bool, true, false, ◌||◌, Option, none, some, List, [],
  ◌∷◌, arith, Bool-cases,
}
use xrpl_registrar.Common.Set.{add, one_of-add}
use xrpl_registrar.Common.SplitText.{has_mark}
use xrpl_registrar.Common.Text.{eq, eq_iff, eq_refl, one_of}
use xrpl_registrar.Json.{Record, as_record, object}
use xrpl_registrar.LiveTail.Scope.{issuer_of, by_id, scope_of, issuance_scope, add_issuer}
use xrpl_registrar.LiveTail.Scope.Touched.{detected, held_by_any, holders_in_meta-held_by_any}
use xrpl_registrar.Meta.{affected_nodes}
use xrpl_registrar.Reconcile.Incremental.{TrackedIssuance, DetectedHolder, holders_in_meta}

module _ (encode_account_id : List ℕ → String) (print : ℕ → String) where
  abbrev issued_by : Option TrackedIssuance → String → Bool
  issued_by none a = false
  issued_by (some iss) a = eq a (issuer_of encode_account_id print iss)

  -- The account is the holder, or the issuer of the issuance with the id.
  abbrev pub names : List TrackedIssuance → ℕ → String → String → Bool
  names list id holder a = eq a holder || issued_by (by_id encode_account_id print id list) a

  abbrev named_by : List TrackedIssuance → List DetectedHolder → String → Bool
  named_by list [] a = false
  named_by list (h ∷ hs) a = names list h.issuance_id h.holder a || named_by list hs a

  one_of-add_issuer :
      (a : String) (o : Option TrackedIssuance) (accounts : List String)
      → one_of a (add_issuer encode_account_id print o accounts)
        ≡ (issued_by o a || one_of a accounts)
  one_of-add_issuer a none accounts = ground arith
  one_of-add_issuer a (some iss) accounts =
      one_of-add a (issuer_of encode_account_id print iss) accounts

  one_of-scope_of :
      (a : String) (list : List TrackedIssuance) (hs : List DetectedHolder) (accounts : List String)
      → one_of a (scope_of encode_account_id print list hs accounts)
        ≡ (named_by list hs a || one_of a accounts)
  unfolding scope_of
  one_of-scope_of a list [] accounts = ground arith
  one_of-scope_of a list (h ∷ hs) accounts =
      let o = by_id encode_account_id print h.issuance_id list in
      ground (
        arith,
        one_of-scope_of a list hs (add_issuer encode_account_id print o (add h.holder accounts)),
        one_of-add_issuer a o (add h.holder accounts),
        one_of-add a h.holder accounts,
      )

  -- Some detected pair names the account.
  abbrev pub Named : List TrackedIssuance → (ℕ → String → Bool) → String → Type 0
  Named list test a =
      (id : ℕ) × (holder : String) × (test id holder ≡ true) × (names list id holder a ≡ true)

  named_by-Named :
      (list : List TrackedIssuance) (hs : List DetectedHolder) (a : String)
      → named_by list hs a ≡ true
      → Named list (λ id holder. detected id holder hs) a
  unfolding detected
  named_by-Named list [] a h = ground arith
  named_by-Named list (d ∷ ds) a h = elim (Bool-cases (names list d.issuance_id d.holder a)) [
    | inl here ↦ (d.issuance_id, d.holder, ground (arith, eq_refl d.holder), here)
    | inr later ↦
        let (id, holder, found, named) = named_by-Named list ds a (ground arith) in
        (id, holder, ground arith, named)
  ]

  names-named_by :
      (list : List TrackedIssuance) (hs : List DetectedHolder) (a : String) (id : ℕ)
      (holder : String)
      → detected id holder hs ≡ true
      → names list id holder a ≡ true
      → named_by list hs a ≡ true
  unfolding detected
  names-named_by list [] a id holder h n = ground arith
  names-named_by list (d ∷ ds) a id holder h n =
      ground (arith, names-named_by list ds a id holder, eq_iff d.holder holder)

  module _ (to_number : String → Option ℕ)
      (print-to_number : (n : ℕ) → to_number (print n) ≡ some n)
      (print-has_bar : (n : ℕ) → has_mark b'|' (print n) ≡ false) where
    -- The live tail's scope of a transaction has an account if and only if a node of the metadata
    -- names a holder for a tracked issuance, and the account is this holder or the issuer of the
    -- issuance.
    pub issuance_scope-names :
        (list : List TrackedIssuance) (meta : Record) (a : String)
        → (one_of a (issuance_scope encode_account_id print list (object meta)) ≡ true)
          ↔ Named list (λ id holder. held_by_any id holder list (affected_nodes meta)) a
    unfolding issuance_scope as_record
    issuance_scope-names list meta a = (
      λ h.
          let (id, holder, found, named) =
            named_by-Named list hs a (ground (arith, one_of-scope_of a list hs [])) in
          (id, holder, sym (same id holder) ∙ found, named),
      λ (id, holder, found, named).
          let inside = names-named_by list hs a id holder (same id holder ∙ found) named in
          ground (arith, one_of-scope_of a list hs []),
    )
      where
        hs : List DetectedHolder
        hs = holders_in_meta print meta list

        same :
            (id : ℕ) (holder : String)
            → detected id holder hs ≡ held_by_any id holder list (affected_nodes meta)
        same = holders_in_meta-held_by_any print to_number print-to_number print-has_bar meta list
