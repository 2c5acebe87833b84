-- ===== src/Db/Jobs/Claims.antt =====
-- Claiming in backfillJobs.ts: a pending job goes to one claim only.
use xrpl_registrar.Common.{
  ℕ, ◌≡◌, refl, sym, subst, ◌≢◌, inl, inr, Bool, true, false, ◌&&◌, ◌||◌, Option, none, some, List,
  [], ◌∷◌, arith, ◌==◌, Option-cases, All,
}
use xrpl_registrar.Db.Jobs.{
  BackfillJob, BackfillKind, Jobs, is_pending, update_row, next_pending, claim, run_row,
}

-- Whether a row of that id still waits.
abbrev waits : ℕ → List BackfillJob → Bool
waits id [] = false
waits id (j ∷ js) = (j.id == id && is_pending j.status) || waits id js

next_pending-waits :
    (i : Option ℕ) (kind : BackfillKind) (rows : List BackfillJob) (j : BackfillJob)
    → next_pending i kind rows ≡ some j
    → waits j.id rows ≡ true
unfolding next_pending
next_pending-waits i kind [] j h = ground arith
next_pending-waits i kind (r ∷ rs) j h = ground (arith, next_pending-waits i kind rs j)

update_row-claimed :
    (id : ℕ) (rows : List BackfillJob) → waits id (update_row run_row id rows) ≡ false
unfolding update_row
update_row-claimed id [] = refl
update_row-claimed id (r ∷ rs) = ground (arith, update_row-claimed id rs)

update_row-waits :
    (id other : ℕ) (rows : List BackfillJob)
    → waits other rows ≡ false
    → waits other (update_row run_row id rows) ≡ false
unfolding update_row
update_row-waits id other [] h = refl
update_row-waits id other (r ∷ rs) h = ground (arith, update_row-waits id other rs)

pub claim-none :
    (i : Option ℕ) (kind : BackfillKind) (js : Jobs)
    → next_pending i kind js.rows ≡ none
    → claim i kind js ≡ (js, none)
unfolding claim
claim-none i kind js e = rw (claim, e) refl

pub claim-some :
    (i : Option ℕ) (kind : BackfillKind) (js : Jobs) (j : BackfillJob)
    → next_pending i kind js.rows ≡ some j
    → claim i kind js ≡ (record js { rows = update_row run_row j.id js.rows }, some (run_row j))
unfolding claim
claim-some i kind js j e = rw (claim, e) refl

-- The id of the job that a claim got, before the ids of the later ones.
abbrev got : Option BackfillJob → List ℕ → List ℕ
got none ids = ids
got (some j) ids = j.id ∷ ids

-- The ids that a sequence of claims gets, each claim being for an issuance or any, and for a kind.
unfoldable pub claim_all : List (Option ℕ × BackfillKind) → Jobs → List ℕ
claim_all [] js = []
claim_all ((i, kind) ∷ rest) js = got (claim i kind js).1 (claim_all rest (claim i kind js).0)

abbrev ClaimKeeps : ℕ → Jobs × Option BackfillJob → Type 0
ClaimKeeps id (js', none) = waits id js'.rows ≡ false
ClaimKeeps id (js', some j) = (waits id js'.rows ≡ false) × (j.id ≢ id)

claim-keeps :
    (id : ℕ) (i : Option ℕ) (kind : BackfillKind) (js : Jobs)
    → waits id js.rows ≡ false
    → ClaimKeeps id (claim i kind js)
claim-keeps id i kind js h = elim (Option-cases (next_pending i kind js.rows)) [
  | inl e ↦ subst (ClaimKeeps id) (sym (claim-none i kind js e)) h
  | inr (j, e) ↦ subst (ClaimKeeps id) (sym (claim-some i kind js j e)) (
    update_row-waits j.id id js.rows h,
    λ same. absurd (cc (next_pending-waits i kind js.rows j e, h, same)),
  )
]

abbrev ClaimTakes : Jobs × Option BackfillJob → Type 0
ClaimTakes (js', none) = Unit
ClaimTakes (js', some j) = waits j.id js'.rows ≡ false

claim-takes : (i : Option ℕ) (kind : BackfillKind) (js : Jobs) → ClaimTakes (claim i kind js)
claim-takes i kind js = elim (Option-cases (next_pending i kind js.rows)) [
  | inl e ↦ subst ClaimTakes (sym (claim-none i kind js e)) tt
  | inr (j, e) ↦ subst ClaimTakes (sym (claim-some i kind js j e)) (update_row-claimed j.id js.rows)
]

got-avoids :
    (id : ℕ) (r : Jobs × Option BackfillJob) (ids : List ℕ)
    → ClaimKeeps id r
    → (waits id r.0.rows ≡ false → All (λ c. c ≢ id) ids)
    → All (λ c. c ≢ id) (got r.1 ids)
got-avoids id (js', none) ids k h = h k
got-avoids id (js', some j) ids (k, ne) h = (ne, h k)

-- A job that does not wait is never claimed.
claim_all-avoids :
    (id : ℕ) (cs : List (Option ℕ × BackfillKind)) (js : Jobs)
    → waits id js.rows ≡ false
    → All (λ c. c ≢ id) (claim_all cs js)
unfolding claim_all
claim_all-avoids id [] js h = tt
claim_all-avoids id ((i, kind) ∷ rest) js h =
    got-avoids id (claim i kind js) _ (claim-keeps id i kind js h)
      (claim_all-avoids id rest (claim i kind js).0)

abbrev pub Distinct : List ℕ → Type 0
Distinct [] = Unit
Distinct (x ∷ xs) = All (λ c. c ≢ x) xs × Distinct xs

got-Distinct :
    (r : Jobs × Option BackfillJob) (cs : List (Option ℕ × BackfillKind))
    → ClaimTakes r
    → Distinct (claim_all cs r.0)
    → Distinct (got r.1 (claim_all cs r.0))
got-Distinct (js', none) cs t d = d
got-Distinct (js', some j) cs t d = (claim_all-avoids j.id cs js' t, d)

-- However claims are made, for whichever issuances and kinds, no job is given out twice, as long
-- as no job is put back to pending between them.
pub claim_all-Distinct :
    (cs : List (Option ℕ × BackfillKind)) (js : Jobs) → Distinct (claim_all cs js)
unfolding claim_all
claim_all-Distinct [] js = tt
claim_all-Distinct ((i, kind) ∷ rest) js =
    got-Distinct (claim i kind js) rest (claim-takes i kind js)
      (claim_all-Distinct rest (claim i kind js).0)
