-- ===== src/Backfill/Sweep/Complete.antt =====
-- A sweep that ran to its end covers every holder around each transaction that it stored.
use xrpl_registrar.Common.{
  ℕ, zero, suc, ◌≤◌, String, ◌≡◌, refl, sym, ap, ◌∙◌, subst, inl, inr, Bool, true, false, ◌&&◌,
  ◌||◌, Option, none, some, List, [], map, arith, leb, Bool-cases, Option-cases, or_else,
}
use xrpl_registrar.Common.Dict.{lookup}
use xrpl_registrar.Common.Sort.{sort}
use xrpl_registrar.Common.Text.{eq, lt}
use xrpl_registrar.Backfill.Pages.{BackfillPage}
use xrpl_registrar.Backfill.Worker.{finished, stopped, failed}
use xrpl_registrar.Db.Jobs.{BackfillJob, stored_marker}
use xrpl_registrar.Db.Transactions.{insert_transaction_rows_many}
use xrpl_registrar.Json.{Value}
use xrpl_registrar.Backfill.MapEntry.{MappedEntry}
use xrpl_registrar.Backfill.Holders.{SweepDb, claim_coverage, claimed_rows}
use xrpl_registrar.Backfill.Sweep.{
  derive_batch, SweepOptions, Progress, first_in_batch, batch_of, commit_batch, commit_last,
  after_page, finish_sweep, next_page, sweep_step, sweep_pages, run_issuer_backfill, sweep_request,
}
use xrpl_registrar.Backfill.Sweep.Covered.{
  recorded, any_at-sort, any_at-lookup, recorded-record_holders, at_or_before-first_in_batch, met,
  raise_mark-le, raise_mark-met,
}
use xrpl_registrar.Backfill.Sweep.Claimed.{covered, covered-append, covered-claimed_rows}

abbrev following : Option Value → (Value → Bool) → Bool
following none test = false
following (some next) test = test next

module _ {D : Type 0} (o : SweepOptions D) (issuance_id : ℕ) (job : BackfillJob) where
  abbrev batch_at : BackfillPage → List MappedEntry
  batch_at page = batch_of o issuance_id job page.provenance page.entries

  -- Some page that the run fetches has a row in the ledger with the account.
  unfoldable pub met_pages : ℕ → Option Value → String → ℕ → Bool
  met_pages zero marker a ledger = false
  met_pages (suc pages) marker a ledger =
      elim (o.upstream (sweep_request o issuance_id job marker)) [
        | none ↦ false
        | some page ↦
            met a ledger (batch_at page)
            || following page.marker (λ next. met_pages pages (some next) a ledger)
      ]

  abbrev known : Progress D → String → ℕ → Bool
  known p a ledger = recorded issuance_id a ledger p.db.account_issuance && leb ledger p.high_water

  recorded-commit_batch :
      (batch : List MappedEntry) (marker : Option Value) (db : SweepDb D) (a : String) (ledger : ℕ)
      → eq a job.address ≡ false
      → (recorded issuance_id a ledger db.account_issuance || met a ledger batch) ≡ true
      → recorded issuance_id a ledger
          (commit_batch o issuance_id job batch marker db).account_issuance
        ≡ true
  unfolding commit_batch lookup
  recorded-commit_batch batch marker db a ledger h k =
      let first = first_in_batch job.address batch [] in
      ground (
        arith,
        recorded-record_holders issuance_id (sort (λ p q. lt p.0 q.0) first)
            (record db {
              archive = insert_transaction_rows_many (map (λ m. m.row) batch) db.archive;
              deltas = derive_batch o issuance_id job batch db.deltas;
            })
            a ledger,
        any_at-sort first a ledger,
        any_at-lookup first a ledger,
        at_or_before-first_in_batch job.address batch [] a ledger h,
      )

  after_page-known :
      (page : BackfillPage) (p : Progress D) (a : String) (ledger : ℕ)
      → eq a job.address ≡ false
      → (known p a ledger || met a ledger (batch_at page)) ≡ true
      → known (after_page o issuance_id job page p) a ledger ≡ true
  unfolding after_page
  after_page-known page p a ledger h k = ground (
    arith,
    recorded-commit_batch (batch_at page) page.marker p.db a ledger h,
    raise_mark-le p.high_water (batch_at page),
    raise_mark-met p.high_water (batch_at page) a ledger,
  )

  covered-finish_sweep :
      (p : Progress D) (a : String) (ledger : ℕ)
      → known p a ledger ≡ true
      → or_else job.from_ledger 0 ≤ ledger
      → covered a ledger (finish_sweep o issuance_id job p).db.coverage ≡ true
  unfolding finish_sweep commit_last claim_coverage
  covered-finish_sweep p a ledger k f =
      let from = or_else job.from_ledger 0 in
      let rows = claimed_rows issuance_id job.address from p.high_water p.db.account_issuance in
      ground (
        arith,
        covered-append a ledger p.db.coverage rows,
        covered-claimed_rows issuance_id job.address from p.high_water p.db.account_issuance a
            ledger,
      )

  abbrev came_at : Option Value → Option BackfillPage
  came_at marker = o.upstream (sweep_request o issuance_id job marker)

  sweep_pages_failed :
      (pages : ℕ) (marker : Option Value) (p : Progress D)
      → came_at marker ≡ none
      → (sweep_pages o issuance_id job (suc pages) marker p).1 ≡ failed
  unfolding sweep_pages sweep_step
  sweep_pages_failed pages marker p e = rw e refl

  sweep_pages_stopped :
      (pages : ℕ) (marker : Option Value) (p : Progress D) (page : BackfillPage)
      → came_at marker ≡ some page
      → o.should_stop (stored_marker marker) ≡ true
      → (sweep_pages o issuance_id job (suc pages) marker p).1 ≡ stopped
  unfolding sweep_pages sweep_step
  sweep_pages_stopped pages marker p page e stop = rw (e, stop) refl

  sweep_pages_last :
      (pages : ℕ) (marker : Option Value) (p : Progress D) (page : BackfillPage)
      → came_at marker ≡ some page
      → o.should_stop (stored_marker marker) ≡ false
      → page.marker ≡ none
      → sweep_pages o issuance_id job (suc pages) marker p
        ≡ (finish_sweep o issuance_id job (after_page o issuance_id job page p), finished)
  unfolding sweep_pages sweep_step next_page
  sweep_pages_last pages marker p page e go m = rw (e, go, m) refl

  sweep_pages_more :
      (pages : ℕ) (marker : Option Value) (p : Progress D) (page : BackfillPage) (next : Value)
      → came_at marker ≡ some page
      → o.should_stop (stored_marker marker) ≡ false
      → page.marker ≡ some next
      → sweep_pages o issuance_id job (suc pages) marker p
        ≡ sweep_pages o issuance_id job pages (some next) (after_page o issuance_id job page p)
  unfolding sweep_pages sweep_step next_page
  sweep_pages_more pages marker p page next e go m = rw (e, go, m) refl

  met_pages_last :
      (pages : ℕ) (marker : Option Value) (page : BackfillPage) (a : String) (ledger : ℕ)
      → came_at marker ≡ some page
      → page.marker ≡ none
      → met_pages (suc pages) marker a ledger ≡ (met a ledger (batch_at page) || false)
  unfolding met_pages
  met_pages_last pages marker page a ledger e m =
      rw (e, met_pages)
        (ap
          (λ n.
            met a ledger (batch_at page)
            || following n (λ next. met_pages pages (some next) a ledger))
          m)

  met_pages_more :
      (pages : ℕ) (marker : Option Value) (page : BackfillPage) (next : Value) (a : String)
      (ledger : ℕ)
      → came_at marker ≡ some page
      → page.marker ≡ some next
      → met_pages (suc pages) marker a ledger
        ≡ (met a ledger (batch_at page) || met_pages pages (some next) a ledger)
  unfolding met_pages
  met_pages_more pages marker page next a ledger e m =
      rw (e, met_pages)
        (ap
          (λ n.
            met a ledger (batch_at page) || following n (λ k. met_pages pages (some k) a ledger))
          m)

  sweep_pages-covers :
      (pages : ℕ) (marker : Option Value) (p q : Progress D) (a : String) (ledger : ℕ)
      → eq a job.address ≡ false
      → or_else job.from_ledger 0 ≤ ledger
      → sweep_pages o issuance_id job pages marker p ≡ (q, finished)
      → (known p a ledger || met_pages pages marker a ledger) ≡ true
      → covered a ledger q.db.coverage ≡ true
  unfolding sweep_pages
  sweep_pages-covers zero marker p q a ledger n f h k = absurd (cc (ap (λ r. r.1) h))
  sweep_pages-covers (suc pages) marker p q a ledger n f h k =
      elim (Option-cases (came_at marker)) [
        | inl none_came ↦ absurd (cc (ap (λ r. r.1) h, sweep_pages_failed pages marker p none_came))
        | inr (page, came) ↦ elim (Bool-cases (o.should_stop (stored_marker marker))) [
          | inl stop ↦
              absurd (cc (ap (λ r. r.1) h, sweep_pages_stopped pages marker p page came stop))
          | inr go ↦ elim (Option-cases page.marker) [
            | inl end_of ↦
                let known_then =
                  after_page-known page p a ledger n
                    (ground (arith, met_pages_last pages marker page a ledger came end_of)) in
                subst (λ r. covered a ledger r.0.db.coverage ≡ true)
                  (sym (sweep_pages_last pages marker p page came go end_of) ∙ h)
                  (covered-finish_sweep (after_page o issuance_id job page p) a ledger known_then f)
            | inr (next, more) ↦
                let carried : (known (after_page o issuance_id job page p) a ledger
                      || met_pages pages (some next) a ledger)
                    ≡ true =
                  ground (
                    arith,
                    after_page-known page p a ledger n,
                    met_pages_more pages marker page next a ledger came more,
                  ) in
                sweep_pages-covers pages (some next) (after_page o issuance_id job page p) q a
                  ledger n f (sym (sweep_pages_more pages marker p page next came go more) ∙ h)
                  carried
          ]
        ]
      ]

  -- Once a sweep has run to its end: around every ledger in which it stored a row with an account
  -- other than the issuer, from the job's first ledger on, some coverage row of that account
  -- reaches.
  pub run_issuer_backfill-covers :
      (pages : ℕ) (db : SweepDb D) (q : Progress D) (a : String) (ledger : ℕ)
      → run_issuer_backfill o issuance_id job pages db ≡ (q, finished)
      → eq a job.address ≡ false
      → or_else job.from_ledger 0 ≤ ledger
      → met_pages pages job.last_marker a ledger ≡ true
      → covered a ledger q.db.coverage ≡ true
  unfolding run_issuer_backfill
  run_issuer_backfill-covers pages db q a ledger h n f k =
      let p : Progress D = record {
        db = db;
        ingested = 0;
        high_water = or_else job.from_ledger 0;
      } in
      sweep_pages-covers pages job.last_marker p q a ledger n f h (ground arith)
