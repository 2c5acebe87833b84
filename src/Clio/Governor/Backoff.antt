-- ===== src/Clio/Governor/Backoff.antt =====
-- The backoff of governor.ts: how penalties escalate, and that nothing
-- shortens a cooldown.
use xrpl_registrar.Common.{
  ℕ, ◌+◌, ◌-◌, ◌*◌, ◌^◌, ◌≤◌, min, String, ◌≡◌, refl, Option, none, List, [], ◌∷◌, arith, length,
}
use native.Mathlib.Nat.{pow-le-pow_right}
use xrpl_registrar.Clio.Governor.{
  GovernorOptions, Governor, take_slot, release_slot, confirm_slot, backoff, penalize, reward,
}
use xrpl_registrar.Clio.Governor.Slots.{
  System, Event, takes, confirms, finishes, penalized, rewarded, step, run,
}

-- The backoff stays under its ceiling, and more penalties never mean a shorter one.
backoff_mono :
    (opts : GovernorOptions) (m n : ℕ)
    → 1 ≤ opts.backoff_factor
    → m ≤ n
    → (backoff opts m ≤ backoff opts n) × (backoff opts n ≤ opts.max_backoff_ms)
unfolding backoff
backoff_mono opts m n h k =
    let step = pow-le-pow_right h {i = m - 1} {j = n - 1} (omega arith) in
    let scaled : opts.min_backoff_ms * opts.backoff_factor ^ (m - 1)
        ≤ opts.min_backoff_ms * opts.backoff_factor ^ (n - 1) =
      grind (arith, step) in
    (omega (arith, scaled), omega arith)

-- Penalties at the given times, with no success between them.
unfoldable pub penalize_all : Governor → List ℕ → Governor
penalize_all g [] = g
penalize_all g (now ∷ times) = penalize_all (penalize g now none).0 times

penalize_all_counts :
    (times : List ℕ) (g : Governor)
    → ((penalize_all g times).consecutive_penalties ≡ g.consecutive_penalties + length times)
      × ((penalize_all g times).total_penalties ≡ g.total_penalties + length times)
      × ((penalize_all g times).opts ≡ g.opts)
unfolding penalize_all penalize
penalize_all_counts [] g = (omega arith, omega arith, refl)
penalize_all_counts (now ∷ times) g =
    ground (arith, penalize_all_counts times (penalize g now none).0)

-- After any run of penalties and one more: the backoff is the capped geometric step for the whole
-- run, the cooldown lasts at least that long from now, and both counters have counted them all.
pub penalize_all-penalize :
    (g : Governor) (times : List ℕ) (now : ℕ) (endpoint : Option String)
    → let (g', event) = penalize (penalize_all g times) now endpoint in
      (event.backoff_ms
        ≡ min g.max_backoff_ms
            (g.min_backoff_ms * g.backoff_factor ^ (g.consecutive_penalties + length times)))
      × (event.consecutive ≡ g.consecutive_penalties + length times + 1)
      × (g'.total_penalties ≡ g.total_penalties + length times + 1)
      × (now + event.backoff_ms ≤ g'.cooldown_until)
unfolding penalize backoff
penalize_all-penalize g times now endpoint = ground (arith, penalize_all_counts times g)

step-cooldown-le :
    (s : System) (e : Event) → s.governor.cooldown_until ≤ (step s e).governor.cooldown_until
unfolding step take_slot confirm_slot release_slot penalize reward
step-cooldown-le s (takes r) = ground arith
step-cooldown-le s (confirms r now) = ground arith
step-cooldown-le s (finishes r) = ground arith
step-cooldown-le s (penalized now endpoint) = ground arith
step-cooldown-le s (rewarded now) = ground arith

-- No sequence of calls ever brings the end of a cooldown forward.
pub run-cooldown-le :
    (s : System) (es : List Event) → s.governor.cooldown_until ≤ (run s es).governor.cooldown_until
unfolding run
run-cooldown-le s [] = omega arith
run-cooldown-le s (e ∷ es) = omega (arith, step-cooldown-le s e, run-cooldown-le (step s e) es)
