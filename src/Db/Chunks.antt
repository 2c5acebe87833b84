-- ===== src/Db/Chunks.antt =====
-- src/db/repositories/transactions.ts, src/reconcile/balanceDeltas.ts: `insertChunked`, which
-- keeps a multi-row statement under Postgres's limit of 65535 parameters.
use native.Mathlib.Decide.{dec_le}
use native.Mathlib.Nat.{div-mul-le_self}
use xrpl_registrar.Common.{
  ℕ, zero, suc, ◌-◌, ◌*◌, ◌/◌, ◌≤◌, max, ◌≡◌, refl, List, [], ◌∷◌, ◌++◌, arith, length, take, All,
}

abbrev pub drop {ℓ} : {A : Type ℓ} → ℕ → List A → List A
drop zero xs = xs
drop (suc n) [] = []
drop (suc n) (x ∷ xs) = drop n xs

-- `perStatement`
unfoldable pub per_statement : ℕ → ℕ
per_statement columns = max 1 (60000 / columns)

-- The loop over `start`, on fuel: the rows of each statement.
unfoldable pub chunk_loop {ℓ} : {A : Type ℓ} → ℕ → ℕ → List A → List (List A)
chunk_loop fuel per [] = []
chunk_loop zero per (x ∷ xs) = []
chunk_loop (suc fuel) per (x ∷ xs) = take per (x ∷ xs) ∷ chunk_loop fuel per (drop per (x ∷ xs))

-- A statement takes at least one row, so there are at most as many statements as rows.
unfoldable pub chunks {ℓ} : {A : Type ℓ} → ℕ → List A → List (List A)
unfolding chunk_loop per_statement
chunks columns rows = chunk_loop (length rows) (per_statement columns) rows

one_row : (n c : ℕ) → n ≤ 1 → c ≤ 60000 → n * c ≤ 65535
one_row zero c h k = omega arith
one_row (suc n) c h k = grind arith

many_rows : (n q c : ℕ) → n ≤ q → q * c ≤ 60000 → n * c ≤ 65535
many_rows n q c h k = grind arith

per_statement_fits :
    (columns n : ℕ)
    → 1 ≤ columns
    → columns ≤ 60000
    → n ≤ per_statement columns
    → n * columns ≤ 65535
unfolding per_statement
per_statement_fits columns n h k l = elim (dec_le n 1) [
  | yes small ↦ one_row n columns small k
  | no large ↦
      many_rows n (60000 / columns) columns (omega arith)
        (omega (arith, div-mul-le_self 60000 columns))
]

module _ {ℓ} {A : Type ℓ} where
  unfoldable pub flatten : List (List A) → List A
  flatten [] = []
  flatten (xs ∷ xss) = xs ++ flatten xss

  pub take-append-drop : (n : ℕ) (xs : List A) → take n xs ++ drop n xs ≡ xs
  take-append-drop zero xs = refl
  take-append-drop (suc n) [] = refl
  take-append-drop (suc n) (x ∷ xs) = rw (take-append-drop n xs)

  length-take-le : (n : ℕ) (xs : List A) → length (take n xs) ≤ n
  length-take-le zero xs = omega arith
  length-take-le (suc n) [] = omega arith
  length-take-le (suc n) (x ∷ xs) = omega (arith, length-take-le n xs)

  length-drop-le : (n : ℕ) (xs : List A) → length (drop n xs) ≤ length xs - n
  length-drop-le zero xs = omega arith
  length-drop-le (suc n) [] = omega arith
  length-drop-le (suc n) (x ∷ xs) = omega (arith, length-drop-le n xs)

  chunk_loop_rows :
      (fuel per : ℕ) (xs : List A)
      → 1 ≤ per
      → length xs ≤ fuel
      → flatten (chunk_loop fuel per xs) ≡ xs
  unfolding flatten chunk_loop
  chunk_loop_rows fuel per [] h k = refl
  chunk_loop_rows zero per (x ∷ xs) h k = absurd (omega arith)
  chunk_loop_rows (suc fuel) per (x ∷ xs) h k =
      let shorter = length-drop-le per (x ∷ xs) in
      rw (chunk_loop_rows fuel per (drop per (x ∷ xs)) h (omega (arith, shorter)))
        (take-append-drop per (x ∷ xs))

  chunk_loop_bounds :
      (fuel per : ℕ) (xs : List A) → All (λ c. length c ≤ per) (chunk_loop fuel per xs)
  unfolding chunk_loop
  chunk_loop_bounds fuel per [] = tt
  chunk_loop_bounds zero per (x ∷ xs) = tt
  chunk_loop_bounds (suc fuel) per (x ∷ xs) =
      (length-take-le per (x ∷ xs), chunk_loop_bounds fuel per (drop per (x ∷ xs)))

  All-map :
      {P Q : List A → Type 0} (xss : List (List A))
      → ((xs : List A) → P xs → Q xs)
      → All P xss
      → All Q xss
  All-map [] f h = tt
  All-map (xs ∷ xss) f h = (f xs h.0, All-map xss f h.1)

  -- The statements write every row once and in order, and for a table of at most 60000 columns
  -- none of them has more than 65535 parameters.
  pub chunks_lem :
      (columns : ℕ) (rows : List A)
      → 1 ≤ columns
      → columns ≤ 60000
      → (flatten (chunks columns rows) ≡ rows)
        × All (λ c. length c * columns ≤ 65535) (chunks columns rows)
  unfolding chunks per_statement
  chunks_lem columns rows h k = (
    chunk_loop_rows (length rows) (per_statement columns) rows (omega arith) (omega arith),
    All-map (chunk_loop (length rows) (per_statement columns) rows)
        (λ xs l. per_statement_fits columns (length xs) h k l)
        (chunk_loop_bounds (length rows) (per_statement columns) rows),
  )
