-- ===== src/Db/Migrate/Resume.antt =====
-- A start that crashed during its migrations is made good by the next one.
use xrpl_registrar.Common.{
  ℕ, String, ◌≡◌, refl, sym, ap, ◌∙◌, subst, inl, inr, Bool, true, false, not, ◌&&◌, ◌||◌, Option,
  none, some, List, [], ◌∷◌, ◌++◌, arith, ◌==◌, Bool-cases, Option-cases, length, take, keep_if,
  All,
}
use xrpl_registrar.Common.Sort.{sort}
use xrpl_registrar.Common.Strict.{Distinct, Strict, sort-Strict, All-keep_if, keep_if-All}
use xrpl_registrar.Db.Chunks.{drop, take-append-drop}
use xrpl_registrar.Db.Migrate.{
  Migration, SchemaDb, is_applied, rows, bootstrap, fresh, id_less, pending, apply_one, apply_each,
  apply_migrations, crashed_after,
}

is_applied-append :
    (id : ℕ) (xs ys : List (ℕ × String))
    → is_applied id (xs ++ ys) ≡ (is_applied id xs || is_applied id ys)
is_applied-append id [] ys = refl
is_applied-append id (x ∷ xs) ys = ground (arith, is_applied-append id xs ys)

keep_if-Strict :
    (p : Migration → Bool) (xs : List Migration) → Strict id_less xs → Strict id_less (keep_if p xs)
keep_if-Strict p [] s = tt
keep_if-Strict p (x ∷ xs) (s, ss) = elim (Bool-cases (p x)) [
  | inl e ↦ rw e (All-keep_if _ p xs s, keep_if-Strict p xs ss)
  | inr e ↦ rw e (keep_if-Strict p xs ss)
]

keep_if-keep_if :
    (p q : Migration → Bool) (xs : List Migration)
    → ((x : Migration) → p x ≡ true → q x ≡ true)
    → keep_if p (keep_if q xs) ≡ keep_if p xs
keep_if-keep_if p q [] h = refl
keep_if-keep_if p q (x ∷ xs) h = ground (arith, h x, keep_if-keep_if p q xs h)

All-kept : (p : Migration → Bool) (xs : List Migration) → All (λ m. p m ≡ true) (keep_if p xs)
All-kept p [] = tt
All-kept p (x ∷ xs) = elim (Bool-cases (p x)) [
  | inl e ↦ rw e (e, All-kept p xs)
  | inr e ↦ rw e (All-kept p xs)
]

module _ {S : Type 0} (exec : String → S → Option S) where
  -- What one migration leaves: its own id is applied, and the others are as they were.
  apply_one-fresh :
      (m x : Migration) (db db' : SchemaDb S)
      → apply_one exec m db ≡ some db'
      → fresh db' x ≡ (fresh db x && not (m.id == x.id))
  unfolding apply_one
  apply_one-fresh m x db db' h = elim (Option-cases (exec m.sql db.schema)) [
    | inl e ↦ absurd (ground (arith, h, e))
    | inr (schema, e) ↦ ground (arith, h, e, is_applied-append x.id (rows db) ((m.id, m.name) ∷ []))
  ]

  apply_one-later :
      (m : Migration) (ms : List Migration) (db db' : SchemaDb S)
      → apply_one exec m db ≡ some db'
      → All (λ x. id_less m x ≡ true) ms
      → All (λ x. fresh db x ≡ true) ms
      → All (λ x. fresh db' x ≡ true) ms
  apply_one-later m [] db db' h l f = tt
  apply_one-later m (x ∷ ms) db db' h (l, ls) (f, fs) =
      (ground (arith, apply_one-fresh m x db db' h, l, f), apply_one-later m ms db db' h ls fs)

  apply_each_fails :
      (n : ℕ) (m : Migration) (ms : List Migration) (db : SchemaDb S)
      → apply_one exec m db ≡ none
      → (apply_each exec n (m ∷ ms) db).db ≡ db
  unfolding apply_each
  apply_each_fails n m ms db e = ground (arith, e)

  apply_each_applies :
      (n : ℕ) (m : Migration) (ms : List Migration) (db db' : SchemaDb S)
      → apply_one exec m db ≡ some db'
      → (apply_each exec n (m ∷ ms) db).db ≡ (apply_each exec n ms db').db
  unfolding apply_each
  apply_each_applies n m ms db db' e = ground (arith, e)

  apply_each_nil : (n : ℕ) (db : SchemaDb S) → (apply_each exec n [] db).db ≡ db
  unfolding apply_each
  apply_each_nil n db = refl

  -- What the run would answer does not matter to the database.
  apply_each_count :
      (n k : ℕ) (ms : List Migration) (db : SchemaDb S)
      → (apply_each exec n ms db).db ≡ (apply_each exec k ms db).db
  apply_each_count n k [] db = apply_each_nil n db ∙ sym (apply_each_nil k db)
  apply_each_count n k (m ∷ ms) db = elim (Option-cases (apply_one exec m db)) [
    | inl e ↦ apply_each_fails n m ms db e ∙ sym (apply_each_fails k m ms db e)
    | inr (db1, e) ↦
        apply_each_applies n m ms db db1 e
        ∙ apply_each_count n k ms db1
        ∙ sym (apply_each_applies k m ms db db1 e)
  ]

  -- What is fresh at the end was fresh before.
  apply_each-fresh :
      (n : ℕ) (ms : List Migration) (x : Migration) (db after : SchemaDb S)
      → (apply_each exec n ms db).db ≡ after
      → fresh after x ≡ true
      → fresh db x ≡ true
  apply_each-fresh n [] x db after h f =
      subst (λ (d : SchemaDb S). fresh d x ≡ true) (sym (sym (apply_each_nil n db) ∙ h)) f
  apply_each-fresh n (m ∷ ms) x db after h f = elim (Option-cases (apply_one exec m db)) [
    | inl e ↦
        subst (λ (d : SchemaDb S). fresh d x ≡ true) (sym (sym (apply_each_fails n m ms db e) ∙ h))
          f
    | inr (db1, e) ↦ ground (
      arith,
      apply_one-fresh m x db db1 e,
      apply_each-fresh n ms x db1 after (sym (apply_each_applies n m ms db db1 e) ∙ h) f,
    )
  ]

  nothing_done :
      (n k : ℕ) (ms : List Migration) (db after : SchemaDb S)
      → All (λ m. fresh db m ≡ true) ms
      → db ≡ after
      → (apply_each exec n (keep_if (fresh after) ms) after).db ≡ (apply_each exec k ms db).db
  nothing_done n k ms db after f h =
      subst
        (λ (d : SchemaDb S).
          (apply_each exec n (keep_if (fresh d) ms) d).db ≡ (apply_each exec k ms db).db)
        h
        (ap (λ (l : List Migration). (apply_each exec n l db).db) (keep_if-All (fresh db) ms f)
          ∙ apply_each_count n k ms db)

  gone :
      (k : ℕ) (m : Migration) (xs : List Migration) (db db1 after : SchemaDb S)
      → apply_one exec m db ≡ some db1
      → (apply_each exec k xs db1).db ≡ after
      → fresh after m ≡ false
  gone k m xs db db1 after e h = elim (Bool-cases (fresh after m)) [
    | inl f ↦
        absurd (ground (arith, apply_one-fresh m m db db1 e, apply_each-fresh k xs m db1 after h f))
    | inr f ↦ f
  ]

  -- The rest after a prefix, from where that ended, ends as the whole does.
  apply_each_rest :
      (n n' k : ℕ) (xs ys : List Migration) (db after : SchemaDb S)
      → Strict id_less (xs ++ ys)
      → All (λ m. fresh db m ≡ true) (xs ++ ys)
      → (apply_each exec k xs db).db ≡ after
      → (apply_each exec n (keep_if (fresh after) (xs ++ ys)) after).db
        ≡ (apply_each exec n' (xs ++ ys) db).db
  apply_each_rest n n' k [] ys db after s f h =
      nothing_done n n' ys db after f (sym (apply_each_nil k db) ∙ h)
  apply_each_rest n n' k (m ∷ xs) ys db after (s, ss) (f, fs) h =
      elim (Option-cases (apply_one exec m db)) [
        | inl e ↦
            nothing_done n n' (m ∷ (xs ++ ys)) db after (f, fs)
              (sym (apply_each_fails k m xs db e) ∙ h)
        | inr (db1, e) ↦
            let from_there : (apply_each exec k xs db1).db ≡ after =
              sym (apply_each_applies k m xs db db1 e) ∙ h in
            rw (gone k m xs db db1 after e from_there) (
              apply_each_rest n n' k xs ys db1 after ss (apply_one-later m (xs ++ ys) db db1 e s fs)
                from_there
              ∙ sym (apply_each_applies n' m (xs ++ ys) db db1 e))
      ]

  abbrev HasTable : SchemaDb S → Type 0
  HasTable db = (r : List (ℕ × String)) × (db.schema_migrations ≡ some r)

  apply_one-HasTable :
      (m : Migration) (db db' : SchemaDb S) → apply_one exec m db ≡ some db' → HasTable db'
  unfolding apply_one
  apply_one-HasTable m db db' h = elim (Option-cases (exec m.sql db.schema)) [
    | inl e ↦ absurd (ground (arith, h, e))
    | inr (schema, e) ↦ (rows db ++ (m.id, m.name) ∷ [], ground (arith, h, e))
  ]

  apply_each-HasTable :
      (n : ℕ) (ms : List Migration) (db : SchemaDb S)
      → HasTable db
      → HasTable (apply_each exec n ms db).db
  apply_each-HasTable n [] db t = subst HasTable (sym (apply_each_nil n db)) t
  apply_each-HasTable n (m ∷ ms) db t = elim (Option-cases (apply_one exec m db)) [
    | inl e ↦ subst HasTable (sym (apply_each_fails n m ms db e)) t
    | inr (db1, e) ↦
        subst HasTable (sym (apply_each_applies n m ms db db1 e))
          (apply_each-HasTable n ms db1 (apply_one-HasTable m db db1 e))
  ]

  bootstrap-HasTable : (db : SchemaDb S) → HasTable db → bootstrap db ≡ db
  unfolding bootstrap
  bootstrap-HasTable db (r, h) = ground (arith, h)

  bootstrap-ready : (db : SchemaDb S) → HasTable (bootstrap db)
  unfolding bootstrap
  bootstrap-ready db = (rows db, refl)

  id_less_trans : (a b c : Migration) → id_less a b ≡ true → id_less b c ≡ true → id_less a c ≡ true
  id_less_trans a b c h k = ground (arith, h, k)

  pending-after :
      (k : ℕ) (ms : List Migration) (db after : SchemaDb S)
      → (apply_each exec k (take k (pending ms db)) db).db ≡ after
      → pending ms after ≡ keep_if (fresh after) (take k (pending ms db) ++ drop k (pending ms db))
  unfolding pending
  pending-after k ms db after h = sym (
      ap (keep_if (fresh after)) (take-append-drop k (pending ms db))
      ∙ keep_if-keep_if (fresh after) (fresh db) (sort id_less ms)
          (λ x f. apply_each-fresh k (take k (pending ms db)) x db after h f))

  -- The second start, where the table of applied migrations is there.
  restart :
      (k : ℕ) (ms : List Migration) (db : SchemaDb S)
      → HasTable db
      → Distinct id_less ms
      → let after = (apply_each exec k (take k (pending ms db)) db).db in
        let ready = bootstrap after in
        (apply_each exec (length (pending ms ready)) (pending ms ready) ready).db
        ≡ (apply_each exec (length (pending ms db)) (pending ms db) db).db
  unfolding pending
  restart k ms db t d =
      let todo = pending ms db in
      let after : SchemaDb S = (apply_each exec k (take k todo) db).db in
      ap (λ (r : SchemaDb S). (apply_each exec (length (pending ms r)) (pending ms r) r).db)
        (bootstrap-HasTable after (apply_each-HasTable k (take k todo) db t))
      ∙ ap (λ (l : List Migration). (apply_each exec (length (pending ms after)) l after).db)
          (pending-after k ms db after refl)
      ∙ apply_each_rest (length (pending ms after)) (length todo) k (take k todo) (drop k todo) db
          after (subst (Strict id_less) (sym (take-append-drop k todo)) ascending)
          (subst (All (λ m. fresh db m ≡ true)) (sym (take-append-drop k todo)) unapplied) refl
      ∙ ap (λ (l : List Migration). (apply_each exec (length todo) l db).db)
          (take-append-drop k todo)
    where
      ascending : Strict id_less (pending ms db)
      ascending = keep_if-Strict (fresh db) _ (sort-Strict id_less id_less_trans ms d)

      unapplied : All (λ m. fresh db m ≡ true) (pending ms db)
      unapplied = All-kept (fresh db) (sort id_less ms)

  -- Where no two migrations share an id: a start after one that crashed behind any number of its
  -- migrations leaves the database that one start without the crash leaves, also where a migration
  -- fails; behind all of them, a second start changes nothing.
  pub crashed_after-apply_migrations :
      (k : ℕ) (migrations : List Migration) (db : SchemaDb S)
      → Distinct id_less migrations
      → (apply_migrations exec migrations (crashed_after exec k migrations db)).db
        ≡ (apply_migrations exec migrations db).db
  unfolding apply_migrations crashed_after
  crashed_after-apply_migrations k ms db d = restart k ms (bootstrap db) (bootstrap-ready db) d
