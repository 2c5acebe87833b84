-- ===== src/Discovery/Traversal/Reached.antt =====
-- What the walk finds: the accounts that the issuer is connected with, and no other.
use xrpl_registrar.Common.{
  String, ◌≡◌, sym, ap, ◌∙◌, subst, inl, inr, true, false, ◌||◌, none, List, [], ◌∷◌, arith,
  Bool-cases,
}
use xrpl_registrar.Common.Set.{add, one_of-add, one_of_same}
use xrpl_registrar.Common.Text.{eq, eq_iff, eq_refl, one_of}
use xrpl_registrar.Common.Dict.{lookup}
use xrpl_registrar.Discovery.Entries.{AccountTxEntry}
use xrpl_registrar.Discovery.Traversal.{Traversal, visit_entries, expand, start}
use xrpl_registrar.Discovery.Traversal.Scan.{
  links, has, has-record_earliest, Visited, Visited-visit_entries, SeenIsQueued,
}

module _ (history : String → List AccountTxEntry) (mpt_issuance_id issuer : String) where
  -- A chain of related transactions from the issuer: each is in the history of the account before.
  pub data Reaches : String → Type 0 where
    origin : Reaches issuer
    step : (a b : String) → Reaches a → links mpt_issuance_id (history a) b ≡ true → Reaches b

  pub record IsWalk (t : Traversal) : Type 0 where
    pub seen_queued : SeenIsQueued t
    pub frontier_queued : (a : String) → one_of a t.frontier ≡ true → one_of a t.queued ≡ true
    pub progress :
        (a : String) → one_of a t.queued ≡ true → (one_of a t.seen || one_of a t.frontier) ≡ true
    pub sound : (a : String) → one_of a t.queued ≡ true → Reaches a
    pub closed :
        (a b : String)
        → one_of a t.seen ≡ true
        → links mpt_issuance_id (history a) b ≡ true
        → one_of b t.queued ≡ true
    pub origin_queued : one_of issuer t.queued ≡ true
    pub first : (a : String) → has a t.first ≡ one_of a t.queued

  pub IsWalk-start : IsWalk (start history mpt_issuance_id issuer)
  unfolding start lookup
  IsWalk-start = record {
    seen_queued = λ a s. ground arith;
    frontier_queued = λ a f. ground (arith, one_of-add a issuer []);
    progress = λ a q. ground (arith, one_of-add a issuer []);
    sound = λ a q. elim (Bool-cases (eq a issuer)) [
      | inl same ↦ subst Reaches (sym ((eq_iff a issuer).0 same)) origin
      | inr other ↦ ground (arith, one_of-add a issuer [])
    ];
    closed = λ a b s l. ground arith;
    origin_queued = ground (arith, one_of-add issuer issuer [], eq_refl issuer);
    first = λ a. ground (arith, has-record_earliest a issuer none [], one_of-add a issuer []);
  }

  -- An account that was seen before is passed over.
  IsWalk-skip :
      (t : Traversal) (account : String) (rest : List String)
      → t.frontier ≡ account ∷ rest
      → one_of account t.seen ≡ true
      → IsWalk t
      → IsWalk (record t { frontier = rest })
  IsWalk-skip t account rest e old h = record {
    seen_queued = h.seen_queued;
    sound = h.sound;
    closed = h.closed;
    origin_queued = h.origin_queued;
    first = h.first;
    frontier_queued = λ a f. ground (arith, ap (one_of a) e, h.frontier_queued a);
    progress = λ a q. ground (arith, ap (one_of a) e, h.progress a q, one_of_same a account t.seen);
  }

  abbrev opened : Traversal → String → List String → Traversal
  opened t account rest = record t { frontier = rest; seen = add account t.seen }

  pub account_queued :
      (t : Traversal) (account : String) (rest : List String)
      → t.frontier ≡ account ∷ rest
      → IsWalk t
      → one_of account t.queued ≡ true
  account_queued t account rest e h =
      ground (arith, ap (one_of account) e, eq_refl account, h.frontier_queued account)

  opened-SeenIsQueued :
      (t : Traversal) (account : String) (rest : List String)
      → one_of account t.queued ≡ true
      → SeenIsQueued t
      → SeenIsQueued (opened t account rest)
  opened-SeenIsQueued t account rest q h a s =
      ground (arith, one_of-add a account t.seen, one_of_same a account t.queued, h a)

  IsWalk-scan :
      (t : Traversal) (account : String) (rest : List String)
      → t.frontier ≡ account ∷ rest
      → one_of account t.seen ≡ false
      → IsWalk t
      → IsWalk (
          visit_entries mpt_issuance_id
            (history account)
            (record t { frontier = rest; seen = add account t.seen }))
  IsWalk-scan t account rest e new h = record {
    seen_queued = λ a s.
        ground (arith, v.queued a, seen a, h.seen_queued a, one_of_same a account t.queued, q0);
    frontier_queued =
        λ a f. ground (arith, v.queued a, v.frontier a, ap (one_of a) e, h.frontier_queued a);
    progress =
        λ a q. ground (arith, v.queued a, v.frontier a, seen a, ap (one_of a) e, h.progress a);
    sound = λ a q. elim (Bool-cases (one_of a t.queued)) [
      | inl before ↦ h.sound a before
      | inr found ↦ step account a (h.sound account q0) (ground (arith, v.queued a))
    ];
    closed = λ a b s l. elim (Bool-cases (one_of a t.seen)) [
      | inl before ↦ ground (arith, h.closed a b before l, v.queued b)
      | inr here ↦
          let same = (eq_iff a account).0 (ground (arith, seen a)) in
          ground (arith, v.queued b, subst (λ x. links mpt_issuance_id (history x) b ≡ true) same l)
    ];
    origin_queued = ground (arith, v.queued issuer, h.origin_queued);
    first = λ a. ground (arith, v.first a, v.queued a, h.first a);
  }
    where
      q0 : one_of account t.queued ≡ true
      q0 = account_queued t account rest e h

      v :
          Visited
            (links mpt_issuance_id (history account))
            (opened t account rest)
            (visit_entries mpt_issuance_id (history account) (opened t account rest))
      v =
          Visited-visit_entries mpt_issuance_id (history account) (opened t account rest)
            (opened-SeenIsQueued t account rest q0 h.seen_queued)

      seen :
          (a : String)
          → one_of a (visit_entries mpt_issuance_id (history account) (opened t account rest)).seen
            ≡ (eq a account || one_of a t.seen)
      seen a = ap (one_of a) v.seen ∙ one_of-add a account t.seen

  pub IsWalk-expand :
      (t : Traversal) (account : String) (rest : List String)
      → t.frontier ≡ account ∷ rest
      → IsWalk t
      → IsWalk (expand history mpt_issuance_id account (record t { frontier = rest }))
  unfolding expand
  IsWalk-expand t account rest e h = elim (Bool-cases (one_of account t.seen)) [
    | inl old ↦ rw old (IsWalk-skip t account rest e old h)
    | inr new ↦ rw new (IsWalk-scan t account rest e new h)
  ]
