-- ===== src/Clio/Governor/Slots.antt =====
-- The semaphore of governor.ts over any sequence of calls: requests that take slots, confirm them
-- against the cooldown and give them back, between penalties and rewards.
use xrpl_registrar.Common.{
  ℕ, zero, suc, ◌+◌, ◌≤◌, String, ◌≡◌, refl, sym, ◌∙◌, subst, ◌⊎◌, Bool, true, false, ◌||◌, Option,
  none, some, List, [], ◌∷◌, ◌++◌, arith, ◌==◌, if◌then◌else◌, length, length-append,
}
use mathlib.Core.List.{append-nil, append_assoc}
use xrpl_registrar.Clio.Governor.{
  GovernorOptions, Governor, create, take_slot, release_slot, confirm_slot, penalize, reward,
}

-- The governor with the requests that hold a slot.
pub record System : Type 0 where
  pub governor : Governor
  pub holders : List ℕ

pub data Event : Type 0 where
  takes : ℕ → Event
  confirms : ℕ → ℕ → Event
  finishes : ℕ → Event
  penalized : ℕ → Option String → Event
  rewarded : ℕ → Event

pub holds : ℕ → List ℕ → Bool
holds r [] = false
holds r (h ∷ hs) = h == r || holds r hs

pub drop_holder : ℕ → List ℕ → List ℕ
drop_holder r [] = []
drop_holder r (h ∷ hs) = if h == r then hs else h ∷ drop_holder r hs

abbrev resume : Option ℕ → List ℕ → List ℕ
resume none hs = hs
resume (some r) hs = r ∷ hs

-- A slot is given back, and passes to the waiter that is resumed.
give_back : System → ℕ → System
give_back s r =
    let (g, resumed) = release_slot s.governor in
    record { governor = g; holders = resume resumed (drop_holder r s.holders) }

take : System → ℕ → System
take s r =
    let (g, taken) = take_slot s.governor r in
    record { governor = g; holders = if taken then r ∷ s.holders else s.holders }

-- The re-check of `acquire` after the slot is held.
confirm : System → ℕ → ℕ → System
confirm s r now =
    let (g, resumed, proceeds) = confirm_slot s.governor now in
    record {
      governor = g;
      holders = if proceeds then s.holders else resume resumed (drop_holder r s.holders);
    }

-- A request that holds no slot has none to confirm or to give back.
unfoldable pub step : System → Event → System
unfolding give_back take confirm
step s (takes r) = take s r
step s (confirms r now) = if holds r s.holders then confirm s r now else s
step s (finishes r) = if holds r s.holders then give_back s r else s
step s (penalized now endpoint) = record s { governor = (penalize s.governor now endpoint).0 }
step s (rewarded now) = record s { governor = reward s.governor now }

unfoldable pub run : System → List Event → System
run s [] = s
run s (e ∷ es) = run (step s e) es

-- The counter counts the holders, within the cap, and nobody waits while a slot is free.
pub record IsSound (cap : ℕ) (s : System) : Type 0 where
  pub capped : s.governor.max_concurrent ≡ cap
  pub counted : s.governor.in_flight ≡ length s.holders
  pub bounded : length s.holders ≤ cap
  pub busy : (s.governor.waiters ≡ []) ⊎ (length s.holders ≡ cap)

length-drop_holder :
    (r : ℕ) (hs : List ℕ) → holds r hs ≡ true → length (drop_holder r hs) + 1 ≡ length hs
unfolding holds drop_holder
length-drop_holder r [] h = cc
length-drop_holder r (x ∷ hs) h = ground (arith, length-drop_holder r hs)

take-IsSound : (cap : ℕ) (s : System) (r : ℕ) → IsSound cap s → IsSound cap (take s r)
unfolding take take_slot
take-IsSound cap s r v = ground arith

give_back-IsSound :
    (cap : ℕ) (s : System) (r : ℕ)
    → holds r s.holders ≡ true
    → IsSound cap s
    → IsSound cap (give_back s r)
unfolding give_back release_slot
give_back-IsSound cap s r h v = ground (arith, length-drop_holder r s.holders)

confirm-IsSound :
    (cap : ℕ) (s : System) (r now : ℕ)
    → holds r s.holders ≡ true
    → IsSound cap s
    → IsSound cap (confirm s r now)
unfolding confirm confirm_slot release_slot
confirm-IsSound cap s r now h v = ground (arith, length-drop_holder r s.holders)

penalize-IsSound :
    (cap : ℕ) (s : System) (now : ℕ) (endpoint : Option String)
    → IsSound cap s
    → IsSound cap (step s (penalized now endpoint))
unfolding step penalize
penalize-IsSound cap s now endpoint v = ground arith

reward-IsSound :
    (cap : ℕ) (s : System) (now : ℕ) → IsSound cap s → IsSound cap (step s (rewarded now))
unfolding step reward
reward-IsSound cap s now v = ground arith

step-IsSound : (cap : ℕ) (s : System) (e : Event) → IsSound cap s → IsSound cap (step s e)
unfolding step
step-IsSound cap s (takes r) v = take-IsSound cap s r v
step-IsSound cap s (confirms r now) v = ground (arith, confirm-IsSound cap s r now)
step-IsSound cap s (finishes r) v = ground (arith, give_back-IsSound cap s r)
step-IsSound cap s (penalized now endpoint) v = penalize-IsSound cap s now endpoint v
step-IsSound cap s (rewarded now) v = reward-IsSound cap s now v

run-IsSound : (cap : ℕ) (s : System) (es : List Event) → IsSound cap s → IsSound cap (run s es)
unfolding run
run-IsSound cap s [] v = v
run-IsSound cap s (e ∷ es) v = run-IsSound cap (step s e) es (step-IsSound cap s e v)

-- From a governor that the constructor accepts, after any sequence of calls: `inFlight` is the
-- number of requests that hold a slot, it never exceeds `maxConcurrent`, and no request waits
-- while a slot is free.
pub run-create-IsSound :
    (opts : GovernorOptions) (g : Governor) (es : List Event)
    → create opts ≡ some g
    → IsSound opts.max_concurrent (run (record { governor = g; holders = [] }) es)
unfolding create
run-create-IsSound opts g es h = run-IsSound opts.max_concurrent _ es (ground arith)

-- `n` releases in a row, and the waiters that they resumed.
pub release_many : ℕ → Governor → Governor × List ℕ
release_many zero g = (g, [])
release_many (suc n) g =
    let (g', resumed) = release_slot g in
    let (g'', later) = release_many n g' in (g'', resume resumed later)

release_many_from :
    (ws rest : List ℕ) (g : Governor)
    → g.waiters ≡ ws ++ rest
    → ((release_many (length ws) g).1 ≡ ws)
      × ((release_many (length ws) g).0.waiters ≡ rest)
      × ((release_many (length ws) g).0.in_flight ≡ g.in_flight)
unfolding release_many release_slot
release_many_from [] rest g h = (refl, h, refl)
release_many_from (w ∷ ws) rest g h =
    ground (arith, release_many_from ws rest (record g { waiters = ws ++ rest }))

-- Requests that come one after the other, the first of the list first.
pub take_many : List ℕ → Governor → Governor
take_many [] g = g
take_many (r ∷ rs) g = take_many rs (take_slot g r).0

-- While no slot is free they all join the waiters, each behind those that came before it.
take_many-waiters :
    (rs : List ℕ) (g : Governor)
    → g.max_concurrent ≤ g.in_flight
    → ((take_many rs g).waiters ≡ g.waiters ++ rs) × ((take_many rs g).in_flight ≡ g.in_flight)
unfolding take_many take_slot
take_many-waiters [] g h = (sym (append-nil g.waiters), refl)
take_many-waiters (r ∷ rs) g h = ground (
  arith,
  h,
  append_assoc g.waiters (r ∷ []) rs,
  take_many-waiters rs (record g { waiters = g.waiters ++ r ∷ [] }),
)

-- Slots go to the requests in the order in which they came: where no slot is free, and some requests
-- wait, others come one after the other; then as many releases as now wait resume those that waited
-- before in their order, after them the others in the order in which they came, and nobody is left
-- waiting, with the count of slots in use as it was.
pub release_many_fifo :
    (g : Governor) (requests : List ℕ)
    → g.max_concurrent ≤ g.in_flight
    → let (after, resumed) =
        release_many (length g.waiters + length requests) (take_many requests g) in
      (resumed ≡ g.waiters ++ requests) × (after.waiters ≡ []) × (after.in_flight ≡ g.in_flight)
release_many_fifo g requests h =
    let (waiting, used) = take_many-waiters requests g h in
    let (resumed, empty, kept) =
      release_many_from (g.waiters ++ requests) [] (take_many requests g)
        (waiting ∙ sym (append-nil (g.waiters ++ requests))) in
    subst
      (λ n.
        let (after, out) = release_many n (take_many requests g) in
        (out ≡ g.waiters ++ requests) × (after.waiters ≡ []) × (after.in_flight ≡ g.in_flight))
      (length-append g.waiters requests) (resumed, empty, kept ∙ used)
