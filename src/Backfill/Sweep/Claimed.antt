-- ===== src/Backfill/Sweep/Claimed.antt =====
-- What a claim of coverage reaches.
use xrpl_registrar.Common.{
  ℕ, ◌≤◌, String, ◌≡◌, refl, ap, ◌∙◌, Bool, true, false, ◌&&◌, ◌||◌, List, [], ◌∷◌, ◌++◌, map,
  arith, leb,
}
use xrpl_registrar.Common.Sort.{sort, insert_sorted}
use xrpl_registrar.Common.Text.{eq, lt}
use xrpl_registrar.Backfill.Worker.{CoverageRow}
use xrpl_registrar.Discovery.Earliest.{Membership}
use xrpl_registrar.Backfill.Holders.{
  claimed_rows, coverage_floor, first_acquisition, members_of, covering,
}
use xrpl_registrar.Backfill.Sweep.Covered.{recorded, at_or_before}

-- Some coverage row of the address is around the ledger.
unfoldable pub covered : String → ℕ → List CoverageRow → Bool
covered a ledger [] = false
covered a ledger (r ∷ rs) =
    (eq r.address a && leb r.from_ledger ledger && leb ledger r.to_ledger) || covered a ledger rs

pub covered-append :
    (a : String) (ledger : ℕ) (rs ss : List CoverageRow)
    → covered a ledger (rs ++ ss) ≡ (covered a ledger rs || covered a ledger ss)
unfolding covered
covered-append a ledger [] ss = ground arith
covered-append a ledger (r ∷ rs) ss = ground (arith, covered-append a ledger rs ss)

has_member : String → List Membership → Bool
has_member a [] = false
has_member a (m ∷ ms) = eq m.address a || has_member a ms

abbrev by_address : Membership → Membership → Bool
by_address m n = lt m.address n.address

has_member-insert_sorted :
    (a : String) (m : Membership) (ms : List Membership)
    → has_member a (insert_sorted by_address m ms) ≡ (eq m.address a || has_member a ms)
unfolding has_member insert_sorted
has_member-insert_sorted a m [] = refl
has_member-insert_sorted a m (n ∷ ms) = ground (arith, has_member-insert_sorted a m ms)

has_member-sort :
    (a : String) (ms : List Membership) → has_member a (sort by_address ms) ≡ has_member a ms
unfolding has_member sort
has_member-sort a [] = refl
has_member-sort a (m ∷ ms) =
    has_member-insert_sorted a m (sort by_address ms)
    ∙ ap (λ b. eq m.address a || b) (has_member-sort a ms)

has_member-members_of :
    (id : ℕ) (a : String) (ledger : ℕ) (ms : List Membership)
    → recorded id a ledger ms ≡ true
    → has_member a (members_of id ms) ≡ true
unfolding has_member recorded
has_member-members_of id a ledger [] h = ground arith
has_member-members_of id a ledger (m ∷ ms) h = ground (arith, has_member-members_of id a ledger ms)

covered-map :
    (floor to : ℕ) (a : String) (ledger : ℕ) (ms : List Membership)
    → floor ≤ ledger
    → ledger ≤ to
    → has_member a ms ≡ true
    → covered a ledger (map (λ m. covering floor to m.address) ms) ≡ true
unfolding covered has_member
covered-map floor to a ledger [] h k e = ground arith
covered-map floor to a ledger (m ∷ ms) h k e = ground (arith, covered-map floor to a ledger ms h k)

first_acquisition-recorded :
    (id : ℕ) (a : String) (ledger : ℕ) (ms : List Membership)
    → recorded id a ledger ms ≡ true
    → at_or_before (first_acquisition id ms) ledger ≡ true
unfolding recorded first_acquisition
first_acquisition-recorded id a ledger [] h = ground arith
first_acquisition-recorded id a ledger (m ∷ ms) h =
    ground (arith, first_acquisition-recorded id a ledger ms)

coverage_floor-le :
    (id : ℕ) (ms : List Membership) (from to ledger : ℕ)
    → at_or_before (first_acquisition id ms) ledger ≡ true
    → from ≤ ledger
    → coverage_floor id ms from to ≤ ledger
unfolding coverage_floor
coverage_floor-le id ms from to ledger h k = ground arith

-- A claim covers every holder around the ledgers from its first one to the mark.
pub covered-claimed_rows :
    (id : ℕ) (issuer : String) (from to : ℕ) (ms : List Membership) (a : String) (ledger : ℕ)
    → recorded id a ledger ms ≡ true
    → from ≤ ledger
    → ledger ≤ to
    → covered a ledger (claimed_rows id issuer from to ms) ≡ true
unfolding claimed_rows
covered-claimed_rows id issuer from to ms a ledger h k l =
    let floor = coverage_floor id ms from to in
    let low =
      coverage_floor-le id ms from to ledger (first_acquisition-recorded id a ledger ms h) k in
    let inside =
      covered-map floor to a ledger (sort by_address (members_of id ms)) low l
        (has_member-sort a (members_of id ms) ∙ has_member-members_of id a ledger ms h) in
    ground (
      arith,
      covered-append a ledger
          (map (λ m. covering floor to m.address) (sort by_address (members_of id ms)))
          (covering floor to issuer ∷ []),
    )
