-- ===== src/Api/LedgerTime/Search.antt =====
-- The binary search of ledgerTime.ts finds the ledger in effect, in logarithmically many probes.
use xrpl_registrar.Common.{
  ℕ, zero, suc, ◌+◌, ◌-◌, ◌≤◌, ◌<◌, ◌≡◌, refl, ap, ◌∙◌, ◌⊎◌, inl, inr, Bool, true, false, Option,
  none, some, [], ◌∷◌, arith, ltb, leb, Bool-cases, Option-cases, All,
}
use xrpl_registrar.Api.LedgerTime.{
  Ledgers, close_time, record_time, Probe, middle, probed, at_or_before, search, resolve,
}

-- `n` is at or before the answer.
abbrev pub up_to : ℕ → Option ℕ → Bool
up_to n none = false
up_to n (some a) = leb n a

module _ (upstream : ℕ → Option ℕ) (iso : ℕ) (time : ℕ → ℕ)
    (answers : (n : ℕ) → upstream n ≡ some (time n))
    (ordered : (m n : ℕ) → m ≤ n → time m ≤ time n) where
  -- What the table holds are the ledgers' close times.
  abbrev pub IsTrue : Ledgers → Type 0
  IsTrue ts = All (λ e. time e.0 ≡ e.1) ts

  close_time_true : (n t : ℕ) (ts : Ledgers) → IsTrue ts → close_time n ts ≡ some t → t ≡ time n
  unfolding close_time
  close_time_true n t [] h e = cc
  close_time_true n t ((k, u) ∷ ts) h e = ground (arith, close_time_true n t ts h.1)

  record_time-IsTrue :
      (n : ℕ) (ts : Ledgers)
      → IsTrue ts
      → close_time n ts ≡ none
      → IsTrue (record_time n (time n) ts)
        × (close_time n (record_time n (time n) ts) ≡ some (time n))
  unfolding close_time record_time
  record_time-IsTrue n [] h e = ((refl, tt), ground arith)
  record_time-IsTrue n ((k, u) ∷ ts) h e = ground (arith, record_time-IsTrue n ts h.1)

  probe-IsTrue :
      (n : ℕ) (ts : Ledgers)
      → IsTrue ts
      → ((at_or_before upstream iso n ts).le ≡ some (leb (time n) iso))
        × IsTrue (at_or_before upstream iso n ts).ledgers
  unfolding at_or_before
  probe-IsTrue n ts h = elim (Option-cases (close_time n ts)) [
    | inl e ↦
        let r = record_time-IsTrue n ts h e in rw (e, at_or_before, answers n) (rw (r.1) refl, r.0)
    | inr (t, e) ↦
        rw (e, at_or_before) (ap (λ (u : ℕ). some (leb u iso)) (close_time_true n t ts h e), h)
  ]

  -- Where the search stands: the answer so far is the ledger before `lo`, or `lo` is the start.
  abbrev Low : ℕ → ℕ → Option ℕ → Type 0
  Low start lo none = lo ≡ start
  Low start lo (some a) = (lo ≡ a + 1) × (time a ≤ iso) × (start ≤ a)

  abbrev High : ℕ → ℕ → Type 0
  High end past = (past ≡ end) ⊎ (iso < time past)

  finished :
      (start end lo past n : ℕ) (answer : Option ℕ)
      → Low start lo answer
      → High end past
      → lo ≡ past
      → start ≤ n
      → n < end
      → leb (time n) iso ≡ up_to n answer
  finished start end lo past n none l (inl h) e s t = absurd (omega arith)
  finished start end lo past n none l (inr h) e s t = ground (arith, ordered past n (omega arith))
  finished start end lo past n (some a) l (inl h) e s t = ground (arith, ordered n a (omega arith))
  finished start end lo past n (some a) l (inr h) e s t = elim (Bool-cases (leb n a)) [
    | inl b ↦ ground (arith, ordered n a (ground arith))
    | inr b ↦ ground (arith, ordered past n (ground arith))
  ]

  module _ (fuel lo past : ℕ) (answer : Option ℕ) (ts : Ledgers) where
    abbrev probe : Probe
    probe = at_or_before upstream iso (middle lo past) ts

    search_done :
        ltb lo past ≡ false
        → search upstream iso (suc fuel) lo past answer ts
          ≡ record { answer = answer; ledgers = ts; probes = 0 }
    unfolding search
    search_done h = rw h

    search_newer :
        ltb lo past ≡ true
        → probe.le ≡ some true
        → search upstream iso (suc fuel) lo past answer ts
          ≡ probed upstream iso (
              search upstream iso fuel
                (middle lo past + 1)
                past
                (some (middle lo past))
                probe.ledgers)
    unfolding search
    search_newer h e = rw (h, e)

    search_older :
        ltb lo past ≡ true
        → probe.le ≡ some false
        → search upstream iso (suc fuel) lo past answer ts
          ≡ probed upstream iso (search upstream iso fuel lo (middle lo past) answer probe.ledgers)
    unfolding search
    search_older h e = rw (h, e)

  search_finds :
      (fuel start end lo past n : ℕ) (answer : Option ℕ) (ts : Ledgers)
      → IsTrue ts
      → Low start lo answer
      → High end past
      → lo ≤ past
      → start ≤ lo
      → past - lo ≤ fuel
      → start ≤ n
      → n < end
      → (leb (time n) iso ≡ up_to n (search upstream iso fuel lo past answer ts).answer)
        × IsTrue (search upstream iso fuel lo past answer ts).ledgers
  search_finds zero start end lo past n answer ts v l h o b f s t =
      unfold search in (finished start end lo past n answer l h (omega arith) s t, v)
  search_finds (suc fuel) start end lo past n answer ts v l h o b f s t =
      let p = probe-IsTrue (middle lo past) ts v in
      elim (Bool-cases (ltb lo past)) [
        | inl more ↦
            let lt : lo < past = ground arith in
            elim (Bool-cases (leb (time (middle lo past)) iso)) [
              | inl le ↦ rw (search_newer fuel lo past answer ts more (p.0 ∙ ap some le)) (
                  search_finds fuel start end (middle lo past + 1) past n (some (middle lo past))
                    (at_or_before upstream iso (middle lo past) ts).ledgers p.1
                    (refl, ground arith, omega arith) h (omega arith) (omega arith) (omega arith) s
                    t)
              | inr gt ↦ rw (search_older fuel lo past answer ts more (p.0 ∙ ap some gt)) (
                  search_finds fuel start end lo (middle lo past) n answer
                    (at_or_before upstream iso (middle lo past) ts).ledgers p.1 l
                    (inr (ground arith)) (omega arith) b (omega arith) s t)
            ]
        | inr done ↦
            rw (search_done fuel lo past answer ts done)
              (finished start end lo past n answer l h (ground arith) s t, v)
      ]

  -- With the close times that Clio reports, which never fall from one ledger to the next, and a
  -- table that holds nothing else: of the ledgers between the bounds, those up to the answer are
  -- the ones that closed at or before the time (none, if there is no answer), and the table still
  -- holds true close times only.
  pub resolve_finds :
      (lo hi n : ℕ) (ts : Ledgers)
      → IsTrue ts
      → lo ≤ n
      → n ≤ hi
      → (leb (time n) iso ≡ up_to n (resolve upstream iso (some (lo, hi)) ts).answer)
        × IsTrue (resolve upstream iso (some (lo, hi)) ts).ledgers
  unfolding resolve
  resolve_finds lo hi n ts v h k =
      search_finds (hi + 1 - lo) lo (hi + 1) lo (hi + 1) n none ts v refl (inl refl) (omega arith)
        (omega arith) (omega arith) h (omega arith)
