-- ===== src/Backfill/Worker/Resume.antt =====
-- Resuming a job of worker.ts: the row's checkpoint is all that a crash must leave behind.
use xrpl_registrar.Common.{
  ℕ, zero, suc, ◌+◌, max, ◌≡◌, refl, sym, ap, ◌∙◌, subst, ◌≢◌, ◌⊎◌, inl, inr, Option, none, some,
  List, [], ◌∷◌, arith, Bool-cases, Option-cases, or_else, length,
}
use xrpl_registrar.Json.{Value}
use xrpl_registrar.Backfill.Pages.{BackfillPage, page_request}
use xrpl_registrar.Db.Jobs.{
  BackfillJob, BackfillStatus, running, Jobs, stored_marker, checkpointed, update_row,
  checkpoint_job, get_row,
}
use xrpl_registrar.Db.Transactions.{Archive}
use xrpl_registrar.Backfill.Worker.{
  World, Ending, crashed, Options, max_ledger_of, mapped_rows, commit_page, commit_final, query_of,
  after_commit, page_step, run_pages, run_job,
}

module _ {D : Type 0} (o : Options D) where
  -- What a run leaves behind, coverage rows apart.
  abbrev pub persisted : World D × Ending → Archive × D × Jobs × Ending
  persisted (w, ending) = (w.archive, w.deltas, w.jobs, ending)

  -- The same job with another cursor, status and count.
  abbrev pub with_cursor : BackfillJob → Option Value → BackfillStatus → ℕ → BackfillJob
  with_cursor job m st n = record job { last_marker = m; status = st; tx_count = n }

  abbrev Next : Type 0
  Next = Option Value → ℕ → World D → World D × Ending

  module _ (job : BackfillJob) (lm : Option Value) (st : BackfillStatus) (n : ℕ) where
    -- Two ways to go on that leave the same behind.
    abbrev Agree : Next → Next → Type 0
    Agree k k' =
        (m : Option Value) (r r' : ℕ) (w : World D) → persisted (k m r w) ≡ persisted (k' m r' w)

    after_commit-with_cursor :
        (k k' : Next) (r r' : ℕ) (w : World D) (m : Option Value)
        → Agree k k'
        → persisted (after_commit o (with_cursor job lm st n) r w m k)
          ≡ persisted (after_commit o job r' w m k')
    unfolding after_commit commit_final
    after_commit-with_cursor k k' r r' w none a = refl
    after_commit-with_cursor k k' r r' w (some m) a = a (some m) r r' w

    page_step-with_cursor :
        (k k' : Next) (m m' : Option Value) (r r' : ℕ) (w : World D) (page : Option BackfillPage)
        → stored_marker m ≡ stored_marker m'
        → Agree k k'
        → persisted (page_step o (with_cursor job lm st n) m r w page k)
          ≡ persisted (page_step o job m' r' w page k')
    unfolding page_step commit_page mapped_rows
    page_step-with_cursor k k' m m' r r' w none h a = refl
    page_step-with_cursor k k' m m' r r' w (some page) h a =
        rw h (elim (Bool-cases (o.should_stop job.issuance_id (stored_marker m'))) [
          | inl stops ↦ rw stops
          | inr goes ↦ rw goes (after_commit-with_cursor k k' _ _ _ page.marker a)
        ])

    -- A run does not depend on the cursor that the job was read with, nor on how high it had got.
    run_pages-with_cursor :
        (pages : ℕ) (m m' : Option Value) (max max' : ℕ) (w : World D)
        → stored_marker m ≡ stored_marker m'
        → persisted (run_pages o pages (with_cursor job lm st n) m max w)
          ≡ persisted (run_pages o pages job m' max' w)
    unfolding run_pages page_request
    run_pages-with_cursor zero m m' max max' w h = refl
    run_pages-with_cursor (suc pages) m m' max max' w h = rw h (
        page_step-with_cursor _ _ m m' max max' w _ h
          (λ next r r' w'. run_pages-with_cursor pages next next r r' w' refl))

  get_row-checkpointed :
      (id n : ℕ) (m : Option Value) (r : BackfillJob) (rows : List BackfillJob)
      → get_row id rows ≡ some r
      → get_row id (update_row (checkpointed m n) id rows) ≡ some (checkpointed m n r)
  unfolding get_row update_row
  get_row-checkpointed id n m r [] h = cc
  get_row-checkpointed id n m r (j ∷ js) h = ground (arith, get_row-checkpointed id n m r js)

  -- A round ends the run, or commits its page and goes on from the page's marker.
  abbrev Round : BackfillJob → Option Value → ℕ → World D → Type 0
  Round job m reached w =
      ((i : ℕ) → (run_pages o (suc i) job m reached w).1 ≢ crashed)
      ⊎ ((next : Value) × (reached' : ℕ) × (page : BackfillPage) × (page.marker ≡ some next)
          × ((i : ℕ)
              → run_pages o (suc i) job m reached w
                ≡ run_pages o i job (some next) reached' (commit_page o job page w)))

  run_pages-Round :
      (job : BackfillJob) (m : Option Value) (reached : ℕ) (w : World D) → Round job m reached w
  unfolding run_pages page_step after_commit
  run_pages-Round job m reached w =
      elim (Option-cases (o.upstream (page_request (query_of o job) m))) [
        | inl none_h ↦ inl (λ i h. ground arith)
        | inr (page, page_h) ↦ elim (Bool-cases (o.should_stop job.issuance_id (stored_marker m))) [
          | inl stops ↦ inl (λ i h. ground arith)
          | inr goes ↦ elim (Option-cases page.marker) [
            | inl final ↦ inl (λ i h. ground arith)
            | inr (next, next_h) ↦ inr (
              next,
              max_ledger_of reached page.entries,
              page,
              next_h,
              λ i. simp (page_h, goes, next_h) refl,
            )
          ]
        ]
      ]

  -- Where a run that crashed had got: it goes on from there, and the row knows the marker.
  abbrev CrashedAt : ℕ → ℕ → BackfillJob → Option Value → ℕ → World D → Type 0
  CrashedAt k j job m max w =
      (m' : Option Value) × (max' : ℕ) × (st : BackfillStatus) × (n : ℕ) × (run_pages o (k + j) job
          m max w
        ≡ run_pages o j job m' max' (run_pages o k job m max w).0)
      × (get_row job.id (run_pages o k job m max w).0.jobs.rows
          ≡ some (with_cursor job (stored_marker m') st n))

  CrashedAt-start :
      (j : ℕ) (job : BackfillJob) (m : Option Value) (reached : ℕ) (st : BackfillStatus) (n : ℕ)
      (w : World D)
      → get_row job.id w.jobs.rows ≡ some (with_cursor job (stored_marker m) st n)
      → CrashedAt zero j job m reached w
  unfolding run_pages
  CrashedAt-start j job m reached st n w row =
      (m, reached, st, n, ap (λ (i : ℕ). run_pages o i job m reached w) (omega arith), row)

  -- The page's commit moves the row's cursor to the page's marker.
  committed_row :
      (job : BackfillJob) (page : BackfillPage) (next : Value) (c : Option Value)
      (st : BackfillStatus) (n : ℕ) (w : World D)
      → page.marker ≡ some next
      → get_row job.id w.jobs.rows ≡ some (with_cursor job c st n)
      → get_row job.id (commit_page o job page w).jobs.rows
        ≡ some (
            with_cursor job
              (stored_marker (some next))
              running
              (n + length (mapped_rows o job page)))
  unfolding commit_page checkpoint_job
  committed_row job page next c st n w next_h row = simp next_h (
      get_row-checkpointed job.id (length (mapped_rows o job page)) (some next)
        (with_cursor job c st n) w.jobs.rows row)

  suc_plus : (k j : ℕ) → suc k + j ≡ suc (k + j)
  suc_plus k j = omega arith

  crash_point :
      (k j : ℕ) (job : BackfillJob) (m : Option Value) (max : ℕ) (st : BackfillStatus) (n : ℕ)
      (w : World D)
      → get_row job.id w.jobs.rows ≡ some (with_cursor job (stored_marker m) st n)
      → (run_pages o k job m max w).1 ≡ crashed
      → CrashedAt k j job m max w
  crash_point zero j job m reached st n w row h = CrashedAt-start j job m reached st n w row
  crash_point (suc k) j job m reached st n w row h = elim (run_pages-Round job m reached w) [
    | inl ends ↦ absurd (ends k h)
    | inr (next, reached', page, next_h, step) ↦
        rw (suc_plus k j, step (k + j), step k)
          (crash_point k j job (some next) reached' running _ _
            (committed_row job page next _ st n w next_h row)
            (subst (λ (c : World D × Ending). c.1 ≡ crashed) (step k) h))
  ]

  stored_marker_idem : (m : Option Value) → stored_marker (stored_marker m) ≡ stored_marker m
  stored_marker_idem none = refl
  stored_marker_idem (some Value.null) = refl
  stored_marker_idem (some (Value.boolean b)) = refl
  stored_marker_idem (some (Value.number n)) = refl
  stored_marker_idem (some (Value.string s)) = refl
  stored_marker_idem (some (Value.array a)) = refl
  stored_marker_idem (some (Value.object f)) = refl

  -- A job that is its own row, with a cursor as the row stores it, is run for k pages and crashes.
  -- Its row can then be read back, and running the row's job for j pages leaves the same
  -- transactions, deltas, jobs and ending behind as running the job for k + j pages without a
  -- crash.
  pub run_job-resume :
      (k j : ℕ) (job : BackfillJob) (w : World D)
      → get_row job.id w.jobs.rows ≡ some job
      → stored_marker job.last_marker ≡ job.last_marker
      → (run_job o k job w).1 ≡ crashed
      → (job' : BackfillJob) × (get_row job.id (run_job o k job w).0.jobs.rows ≡ some job')
        × (persisted (run_job o j job' (run_job o k job w).0) ≡ persisted (run_job o (k + j) job w))
  unfolding run_job
  run_job-resume k j job w row marker h =
      let (m', reached', st, n, goes_on, row') =
        crash_point k j job job.last_marker (or_else job.from_ledger 0) job.status job.tx_count w
          (rw marker row) h in
      (
        with_cursor job (stored_marker m') st n,
        row',
        run_pages-with_cursor job (stored_marker m') st n j (stored_marker m') m' _ reached' _
              (stored_marker_idem m')
            ∙ sym (ap persisted goes_on),
      )
