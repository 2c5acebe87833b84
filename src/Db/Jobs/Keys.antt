-- ===== src/Db/Jobs/Keys.antt =====
-- The keys of `backfill_job`: one row per id and per (address, issuance).
use xrpl_registrar.Common.{
  ℕ, ◌+◌, String, ◌≡◌, refl, sym, ap, subst, inl, inr, Bool, true, not, ◌&&◌, Option, none, some,
  List, [], ◌∷◌, ◌++◌, arith, ltb, ◌==◌, Option-cases, All, All-append,
}
use xrpl_registrar.Common.Text.{eq}
use xrpl_registrar.Json.{Value}
use xrpl_registrar.Db.Jobs.{
  BackfillJob, BackfillKind, Jobs, get_by_account, checkpoint_job, complete_job, fail_job, enqueue,
  claim, new_job, run_row, reclaim_stale, reclaim_rows, update_row, next_pending,
}
use xrpl_registrar.Db.Jobs.Claims.{claim-none, claim-some}

-- A statement on the table.
pub data Statement : Type 0 where
  enqueues : ℕ → String → Option ℕ → Option ℕ → BackfillKind → Statement
  claims : Option ℕ → BackfillKind → Statement
  checkpoints : ℕ → Option Value → ℕ → Statement
  completes : ℕ → Statement
  fails : ℕ → Statement
  reclaims : Option ℕ → Statement

abbrev pub execute : Statement → Jobs → Jobs
execute (enqueues i a f t k) js = enqueue i a f t k js
execute (claims i k) js = (claim i k js).0
execute (checkpoints id m n) js = checkpoint_job id m n js
execute (completes id) js = complete_job id js
execute (fails id) js = fail_job id js
execute (reclaims i) js = reclaim_stale i js

abbrev pub execute_all : List Statement → Jobs → Jobs
execute_all [] js = js
execute_all (s ∷ ss) js = execute_all ss (execute s js)

-- What no statement may change in a row.
abbrev pub Key : Type 0
Key = ℕ × ℕ × String

abbrev key_of : BackfillJob → Key
key_of j = (j.id, j.issuance_id, j.address)

abbrev pub keys : List BackfillJob → List Key
keys [] = []
keys (j ∷ js) = key_of j ∷ keys js

-- Two keys that the table may hold together.
abbrev pub apart : Key → Key → Bool
apart (id, i, a) (id', i', a') = not (id == id') && not (i == i' && eq a a')

abbrev pub AllApart : List Key → Type 0
AllApart [] = Unit
AllApart (k ∷ ks) = All (λ l. apart k l ≡ true) ks × AllApart ks

abbrev pub below : ℕ → Key → Bool
below n (id, _, _) = ltb id n

-- Ids are below the next one, and no two rows share an id or an (address, issuance).
abbrev pub IsKeyed : Jobs → Type 0
IsKeyed js = All (λ k. below js.next_id k ≡ true) (keys js.rows) × AllApart (keys js.rows)

keys-update_row :
    (f : BackfillJob → BackfillJob) (id : ℕ) (rows : List BackfillJob)
    → ((j : BackfillJob) → key_of (f j) ≡ key_of j)
    → keys (update_row f id rows) ≡ keys rows
unfolding update_row
keys-update_row f id [] h = refl
keys-update_row f id (r ∷ rs) h = ground (arith, keys-update_row f id rs h, h r)

keys-reclaim_rows :
    (i : Option ℕ) (rows : List BackfillJob) → keys (reclaim_rows i rows) ≡ keys rows
unfolding reclaim_rows
keys-reclaim_rows i [] = refl
keys-reclaim_rows i (r ∷ rs) = ground (arith, keys-reclaim_rows i rs)

-- A key with no row of its (address, issuance), and with the next id, is apart from every row's.
get_by_account-none :
    (i : ℕ) (a : String) (next : ℕ) (rows : List BackfillJob)
    → get_by_account i a rows ≡ none
    → All (λ k. below next k ≡ true) (keys rows)
    → All (λ k. apart k (next, i, a) ≡ true) (keys rows)
unfolding get_by_account
get_by_account-none i a next [] h b = tt
get_by_account-none i a next (r ∷ rs) h b =
    (ground (arith, h, b.0), get_by_account-none i a next rs (ground (arith, h)) b.1)

AllApart-snoc :
    (k : Key) (ks : List Key)
    → AllApart ks
    → All (λ l. apart l k ≡ true) ks
    → AllApart (ks ++ k ∷ [])
AllApart-snoc k [] a h = (tt, tt)
AllApart-snoc k (l ∷ ls) a h = (All-append _ ls (k ∷ []) a.0 (h.0, tt), AllApart-snoc k ls a.1 h.1)

keys-append : (xs ys : List BackfillJob) → keys (xs ++ ys) ≡ keys xs ++ keys ys
keys-append [] ys = refl
keys-append (x ∷ xs) ys = ap (λ ks. key_of x ∷ ks) (keys-append xs ys)

below-suc :
    (n : ℕ) (ks : List Key) → All (λ k. below n k ≡ true) ks → All (λ k. below (n + 1) k ≡ true) ks
below-suc n [] h = tt
below-suc n (k ∷ ks) h = (ground (arith, h.0), below-suc n ks h.1)

-- The rows may change, as long as their keys do not.
IsKeyed-same :
    (rows : List BackfillJob) (js : Jobs)
    → keys rows ≡ keys js.rows
    → IsKeyed js
    → IsKeyed (record js { rows = rows })
IsKeyed-same rows js e k =
    subst (λ ks. All (λ k. below js.next_id k ≡ true) ks × AllApart ks) (sym e) k

enqueue-none :
    (i : ℕ) (a : String) (f t : Option ℕ) (kind : BackfillKind) (js : Jobs)
    → get_by_account i a js.rows ≡ none
    → enqueue i a f t kind js
      ≡ record { rows = js.rows ++ new_job js.next_id i a f t kind ∷ []; next_id = js.next_id + 1 }
unfolding enqueue
enqueue-none i a f t kind js e = rw (enqueue, e) refl

enqueue-some :
    (i : ℕ) (a : String) (f t : Option ℕ) (kind : BackfillKind) (js : Jobs) (j : BackfillJob)
    → get_by_account i a js.rows ≡ some j
    → enqueue i a f t kind js ≡ js
unfolding enqueue
enqueue-some i a f t kind js j e = rw (enqueue, e) refl

enqueue-IsKeyed :
    (i : ℕ) (a : String) (f t : Option ℕ) (kind : BackfillKind) (js : Jobs)
    → IsKeyed js
    → IsKeyed (enqueue i a f t kind js)
enqueue-IsKeyed i a f t kind js k = elim (Option-cases (get_by_account i a js.rows)) [
  | inl e ↦ subst IsKeyed (sym (enqueue-none i a f t kind js e)) (
      subst (λ ks. All (λ k. below (js.next_id + 1) k ≡ true) ks × AllApart ks)
        (sym (keys-append js.rows (new_job js.next_id i a f t kind ∷ [])))
        (
          All-append _ (keys js.rows) _ (below-suc js.next_id _ k.0) (ground arith, tt),
          AllApart-snoc _ _ k.1 (get_by_account-none i a js.next_id js.rows e k.0),
        ))
  | inr (j, e) ↦ subst IsKeyed (sym (enqueue-some i a f t kind js j e)) k
]

claim-IsKeyed :
    (i : Option ℕ) (kind : BackfillKind) (js : Jobs) → IsKeyed js → IsKeyed (claim i kind js).0
claim-IsKeyed i kind js k = elim (Option-cases (next_pending i kind js.rows)) [
  | inl e ↦ subst (λ r. IsKeyed r.0) (sym (claim-none i kind js e)) k
  | inr (j, e) ↦
      subst (λ r. IsKeyed r.0) (sym (claim-some i kind js j e))
        (IsKeyed-same _ js (keys-update_row run_row j.id js.rows (λ _. refl)) k)
]

execute-IsKeyed : (s : Statement) (js : Jobs) → IsKeyed js → IsKeyed (execute s js)
unfolding checkpoint_job complete_job fail_job reclaim_stale
execute-IsKeyed (enqueues i a f t kind) js k = enqueue-IsKeyed i a f t kind js k
execute-IsKeyed (claims i kind) js k = claim-IsKeyed i kind js k
execute-IsKeyed (checkpoints id m n) js k =
    IsKeyed-same _ js (keys-update_row _ id js.rows (λ _. refl)) k
execute-IsKeyed (completes id) js k = IsKeyed-same _ js (keys-update_row _ id js.rows (λ _. refl)) k
execute-IsKeyed (fails id) js k = IsKeyed-same _ js (keys-update_row _ id js.rows (λ _. refl)) k
execute-IsKeyed (reclaims i) js k = IsKeyed-same _ js (keys-reclaim_rows i js.rows) k

-- From a table where every id is below the next one and no two rows share an id or an address and
-- issuance, any statements in any order lead to a table with the same two properties.
pub execute_all-IsKeyed :
    (ss : List Statement) (js : Jobs) → IsKeyed js → IsKeyed (execute_all ss js)
execute_all-IsKeyed [] js k = k
execute_all-IsKeyed (s ∷ ss) js k = execute_all-IsKeyed ss (execute s js) (execute-IsKeyed s js k)
