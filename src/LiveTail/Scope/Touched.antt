-- ===== src/LiveTail/Scope/Touched.antt =====
-- The holders that are found in a transaction, against the nodes and the issuances themselves.
use xrpl_registrar.Common.{
  ℕ, String, ◌≡◌, refl, sym, ap, ◌∙◌, subst, inl, inr, Bool, false, ◌&&◌, ◌||◌, Option, none, some,
  List, [], ◌∷◌, ◌++◌, arith, ◌==◌, Bool-cases,
}
use xrpl_registrar.Common.Set.{one_of_same}
use xrpl_registrar.Common.SplitText.{has_mark, split_at, split_at-bar}
use xrpl_registrar.Common.Text.{eq, eq_iff, one_of}
use xrpl_registrar.Json.{Value, Record}
use xrpl_registrar.Meta.{affected_nodes}
use xrpl_registrar.Reconcile.Incremental.{
  TrackedIssuance, DetectedHolder, Detection, detect, detect_in, detect_all, holders_in_meta,
  holder_at, node_fields, key_text,
}

-- A pair is in a list of detected holders.
unfoldable pub detected : ℕ → String → List DetectedHolder → Bool
detected id holder [] = false
detected id holder (d ∷ ds) = (d.issuance_id == id && eq d.holder holder) || detected id holder ds

abbrev is_at : Option String → String → Bool
is_at none holder = false
is_at (some h) holder = eq h holder

-- Some issuance with the id has the holder at the node.
unfoldable pub held_in : ℕ → String → Option String → Record → List TrackedIssuance → Bool
held_in id holder type fields [] = false
held_in id holder type fields (iss ∷ rest) =
    (iss.id == id && is_at (holder_at type fields iss) holder) || held_in id holder type fields rest

abbrev held_at : ℕ → String → List TrackedIssuance → Option (Option String × Record) → Bool
held_at id holder list none = false
held_at id holder list (some (type, fields)) = held_in id holder type fields list

unfoldable pub held_by_any : ℕ → String → List TrackedIssuance → List Value → Bool
held_by_any id holder list [] = false
held_by_any id holder list (raw ∷ raws) =
    held_at id holder list (node_fields raw) || held_by_any id holder list raws

module _ (print : ℕ → String) (to_number : String → Option ℕ)
    (print-to_number : (n : ℕ) → to_number (print n) ≡ some n)
    (print-has_bar : (n : ℕ) → has_mark b'|' (print n) ≡ false) where
  abbrev parts_of : Option (String × String) → String × String
  parts_of none = ("", "")
  parts_of (some p) = p

  key_text_inj :
      (i j : ℕ) (h k : String)
      → key_text print i h ≡ key_text print j k
      → (some i ≡ some j) × (h ≡ k)
  key_text_inj i j h k e =
      let same : (print i, h) ≡ (print j, k) = ap parts_of (
        sym (split_at-bar (print i) h (print-has_bar i))
        ∙ ap (split_at b'|') e
        ∙ split_at-bar (print j) k (print-has_bar j)) in
      (
        sym (print-to_number i) ∙ ap (λ p. to_number p.0) same ∙ print-to_number j,
        ap (λ p. p.1) same,
      )

  key_text_eq : (i j : ℕ) (h k : String) → i ≡ j → h ≡ k → key_text print i h ≡ key_text print j k
  key_text_eq i j h k e f = ap (λ n. key_text print n h) e ∙ ap (key_text print j) f

  key_text_same :
      (i j : ℕ) (h k : String) → eq (key_text print i h) (key_text print j k) ≡ (i == j && eq h k)
  key_text_same i j h k = ground (
    arith,
    eq_iff (key_text print i h) (key_text print j k),
    key_text_inj i j h k,
    key_text_eq i j h k,
    eq_iff h k,
  )

  -- The keys in `seen` are those of the pairs in `out`.
  abbrev IsKept : Detection → Type 0
  IsKept d =
      (id : ℕ) (holder : String)
      → one_of (key_text print id holder) d.seen ≡ detected id holder d.out

  detected-append :
      (id : ℕ) (holder : String) (xs ys : List DetectedHolder)
      → detected id holder (xs ++ ys) ≡ (detected id holder xs || detected id holder ys)
  unfolding detected
  detected-append id holder [] ys = ground arith
  detected-append id holder (x ∷ xs) ys = ground (arith, detected-append id holder xs ys)

  -- `e` is `d` with the pairs that pass the test.
  record Detects (test : ℕ → String → Bool) (d e : Detection) : Type 0 where
    pub kept : IsKept e
    pub found :
        (id : ℕ) (holder : String)
        → detected id holder e.out ≡ (detected id holder d.out || test id holder)

  detect-Detects :
      (iss : TrackedIssuance) (o : Option String) (d : Detection)
      → IsKept d
      → Detects (λ id holder. iss.id == id && is_at o holder) d (detect print iss o d)
  unfolding detect detected
  detect-Detects iss none d h = record { kept = h; found = λ id holder. ground arith }
  detect-Detects iss (some a) d h = elim (Bool-cases (one_of (key_text print iss.id a) d.seen)) [
    | inl old ↦ rw old (record {
      kept = h;
      found = λ id holder. ground (
        arith,
        h id holder,
        key_text_same id iss.id holder a,
        one_of_same (key_text print id holder) (key_text print iss.id a) d.seen,
        eq_iff a holder,
        eq_iff holder a,
      );
    })
    | inr new ↦ rw new (record {
      kept = λ id holder. ground (
        arith,
        h id holder,
        key_text_same id iss.id holder a,
        detected-append id holder d.out (record { issuance_id = iss.id; holder = a } ∷ []),
        eq_iff a holder,
        eq_iff holder a,
      );
      found = λ id holder. ground (
        arith,
        detected-append id holder d.out (record { issuance_id = iss.id; holder = a } ∷ []),
      );
    })
  ]

  Detects-compose :
      (b c : ℕ → String → Bool) (d e f : Detection)
      → Detects b d e
      → Detects c e f
      → Detects (λ id holder. b id holder || c id holder) d f
  Detects-compose b c d e f h k = record {
    kept = k.kept;
    found = λ id holder. ground (arith, h.found id holder, k.found id holder);
  }

  Detects-none : (d : Detection) → IsKept d → Detects (λ _ _. false) d d
  Detects-none d h = record { kept = h; found = λ id holder. ground arith }

  detect_in-Detects :
      (type : Option String) (fields : Record) (list : List TrackedIssuance) (d : Detection)
      → IsKept d
      → Detects
          (λ id holder. held_in id holder type fields list)
          d
          (detect_in print type fields list d)
  unfolding detect_in held_in
  detect_in-Detects type fields [] d h = Detects-none d h
  detect_in-Detects type fields (iss ∷ rest) d h =
      let o = holder_at type fields iss in
      let first = detect-Detects iss o d h in
      Detects-compose (λ id holder. iss.id == id && is_at o holder)
        (λ id holder. held_in id holder type fields rest) d (detect print iss o d)
        (detect_in print type fields rest (detect print iss o d)) first
        (detect_in-Detects type fields rest (detect print iss o d) first.kept)

  abbrev detect_at : List TrackedIssuance → Option (Option String × Record) → Detection → Detection
  detect_at list none d = d
  detect_at list (some (type, fields)) d = detect_in print type fields list d

  detect_at-Detects :
      (list : List TrackedIssuance) (node : Option (Option String × Record)) (d : Detection)
      → IsKept d
      → Detects (λ id holder. held_at id holder list node) d (detect_at list node d)
  detect_at-Detects list none d h = Detects-none d h
  detect_at-Detects list (some (type, fields)) d h = detect_in-Detects type fields list d h

  detect_all_step :
      (list : List TrackedIssuance) (raw : Value) (raws : List Value) (d : Detection)
      → detect_all print list (raw ∷ raws) d
        ≡ detect_all print list raws (detect_at list (node_fields raw) d)
  unfolding detect_all
  detect_all_step list raw raws d = ap (detect_all print list raws) (chosen (node_fields raw))
    where
      chosen :
          (o : Option (Option String × Record))
          → elim o [ none ↦ d | some (type, fields) ↦ detect_in print type fields list d ]
            ≡ detect_at list o d
      chosen none = refl
      chosen (some (type, fields)) = refl

  detect_all-Detects :
      (list : List TrackedIssuance) (raws : List Value) (d : Detection)
      → IsKept d
      → Detects (λ id holder. held_by_any id holder list raws) d (detect_all print list raws d)
  unfolding held_by_any detect_all
  detect_all-Detects list [] d h = Detects-none d h
  detect_all-Detects list (raw ∷ raws) d h =
      let e = detect_at list (node_fields raw) d in
      let first = detect_at-Detects list (node_fields raw) d h in
      subst (Detects (λ id holder. held_by_any id holder list (raw ∷ raws)) d)
        (sym (detect_all_step list raw raws d))
        (Detects-compose (λ id holder. held_at id holder list (node_fields raw))
          (λ id holder. held_by_any id holder list raws) d e (detect_all print list raws e) first
          (detect_all-Detects list raws e first.kept))

  -- The holders that are found are those that some node names for some tracked issuance.
  pub holders_in_meta-held_by_any :
      (meta : Record) (list : List TrackedIssuance) (id : ℕ) (holder : String)
      → detected id holder (holders_in_meta print meta list)
        ≡ held_by_any id holder list (affected_nodes meta)
  unfolding holders_in_meta detected
  holders_in_meta-held_by_any meta list id holder =
      (detect_all-Detects list (affected_nodes meta) (record { seen = []; out = [] })
          (λ i a. refl)).found
        id holder
