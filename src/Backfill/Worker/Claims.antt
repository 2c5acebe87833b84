-- ===== src/Backfill/Worker/Claims.antt =====
-- Coverage in worker.ts: only a run that finishes claims any.
use xrpl_registrar.Common.{
  ℕ, zero, suc, ◌≡◌, refl, inl, inr, Option, none, some, [], ◌∷◌, ◌++◌, Bool-cases, or_else,
}
use xrpl_registrar.Json.{Value}
use xrpl_registrar.Backfill.Pages.{BackfillPage, page_request}
use xrpl_registrar.Db.Jobs.{BackfillJob, stored_marker}
use xrpl_registrar.Backfill.Worker.{
  World, Ending, finished, Options, commit_page, commit_final, query_of, after_commit, page_step,
  run_pages,
}

module _ {D : Type 0} (o : Options D) where
  -- The coverage that a run has added, by how it ended.
  abbrev pub AddsCoverage : BackfillJob → World D → World D × Ending → Type 0
  AddsCoverage job w (w', finished) =
      (top : ℕ) × (w'.coverage
        ≡ w.coverage
          ++ record {
            address = job.address;
            from_ledger = or_else job.from_ledger 0;
            to_ledger = top;
          }
            ∷ [])
  AddsCoverage job w (w', _) = w'.coverage ≡ w.coverage

  after_commit-AddsCoverage :
      (job : BackfillJob) (page : BackfillPage) (reached : ℕ) (w : World D) (m : Option Value)
      (next : Option Value → ℕ → World D → World D × Ending)
      → ((m' : Option Value) (r : ℕ) (w' : World D) → AddsCoverage job w' (next m' r w'))
      → AddsCoverage job w (after_commit o job reached (commit_page o job page w) m next)
  unfolding after_commit commit_page commit_final
  after_commit-AddsCoverage job page reached w none next h = (reached, refl)
  after_commit-AddsCoverage job page reached w (some m) next h =
      h (some m) reached (commit_page o job page w)

  page_step-AddsCoverage :
      (job : BackfillJob) (m : Option Value) (reached : ℕ) (w : World D)
      (page : Option BackfillPage) (next : Option Value → ℕ → World D → World D × Ending)
      → ((m' : Option Value) (r : ℕ) (w' : World D) → AddsCoverage job w' (next m' r w'))
      → AddsCoverage job w (page_step o job m reached w page next)
  unfolding page_step
  page_step-AddsCoverage job m reached w none next h = refl
  page_step-AddsCoverage job m reached w (some page) next h =
      elim (Bool-cases (o.should_stop job.issuance_id (stored_marker m))) [
        | inl stops ↦ rw stops refl
        | inr goes ↦ rw goes (after_commit-AddsCoverage job page _ w page.marker next h)
      ]

  -- A run of a job adds one coverage row if it finishes, from the job's first ledger (0 where it
  -- has none) for the job's address, and none if it is stopped, fails or crashes.
  pub run_pages-AddsCoverage :
      (pages : ℕ) (job : BackfillJob) (m : Option Value) (reached : ℕ) (w : World D)
      → AddsCoverage job w (run_pages o pages job m reached w)
  unfolding run_pages
  run_pages-AddsCoverage zero job m reached w = refl
  run_pages-AddsCoverage (suc pages) job m reached w =
      page_step-AddsCoverage job m reached w (o.upstream (page_request (query_of o job) m)) _
        (λ m' r w'. run_pages-AddsCoverage pages job m' r w')
