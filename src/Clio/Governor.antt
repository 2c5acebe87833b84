-- ===== src/Clio/Governor.antt =====
-- src/clio/governor.ts: the global concurrency semaphore and backoff. Time is an argument of each
-- call; a request that waits for a slot stands in `waiters`, oldest first, by its number. The
-- backoff factor is a whole number, so `Math.round` changes nothing.
pub mod Slots
pub mod Backoff
use xrpl_registrar.Common.{
  ℕ, ◌+◌, ◌-◌, ◌*◌, ◌^◌, min, String, Bool, true, false, Option, none, some, List, [], ◌∷◌, ◌++◌,
  ltb, leb, if◌then◌else◌,
}

pub record GovernorOptions : Type 0 where
  pub max_concurrent : ℕ
  pub min_backoff_ms : ℕ
  pub max_backoff_ms : ℕ
  pub backoff_factor : ℕ

abbrev pub default_governor_options : GovernorOptions
default_governor_options = record {
  max_concurrent = 4;
  min_backoff_ms = 1000;
  max_backoff_ms = 60000;
  backoff_factor = 2;
}

pub record Governor : Type 0 where
  pub opts : GovernorOptions
  pub open opts use *
  pub in_flight : ℕ
  pub waiters : List ℕ
  pub cooldown_until : ℕ
  pub current_backoff_ms : ℕ
  pub consecutive_penalties : ℕ
  pub total_penalties : ℕ

pub record RateLimitEvent : Type 0 where
  pub at : ℕ
  pub endpoint : Option String
  pub backoff_ms : ℕ
  pub consecutive : ℕ
  pub cooldown_until : ℕ

-- The constructor; `none` is its `RangeError`.
unfoldable pub create : GovernorOptions → Option Governor
create opts =
    if ltb opts.max_concurrent 1
    then none
    else some (record {
      opts = opts;
      in_flight = 0;
      waiters = [];
      cooldown_until = 0;
      current_backoff_ms = 0;
      consecutive_penalties = 0;
      total_penalties = 0;
    })

-- `#waitForCooldown`: for how long to sleep, 0 when the call may go on. It is asked again after
-- each sleep.
unfoldable pub remaining : Governor → ℕ → ℕ
remaining g now = g.cooldown_until - now

-- `#takeSlot`: the slot is taken at once, or the request joins the waiters.
unfoldable pub take_slot : Governor → ℕ → Governor × Bool
take_slot g request =
    if ltb g.in_flight g.max_concurrent
    then (record g { in_flight = g.in_flight + 1 }, true)
    else (record g { waiters = g.waiters ++ request ∷ [] }, false)

-- `#releaseSlot`, with the waiter that is resumed: the slot passes to it.
unfoldable pub release_to : Governor → List ℕ → Governor × Option ℕ
release_to g [] = (record g { in_flight = g.in_flight - 1 }, none)
release_to g (next ∷ rest) = (record g { waiters = rest }, some next)

unfoldable pub release_slot : Governor → Governor × Option ℕ
unfolding release_to
release_slot g = release_to g g.waiters

-- `acquire` once a slot is held: hand it back if a penalty landed meanwhile (and start over), or
-- go on with it.
unfoldable pub confirm_slot : Governor → ℕ → Governor × Option ℕ × Bool
confirm_slot g now =
    if ltb now g.cooldown_until
    then (let (g', resumed) = release_slot g in (g', resumed, false))
    else (g, none, true)

-- The function that `acquire` returns: only its first call releases.
unfoldable pub release_once : Bool → Governor → Bool × Governor × Option ℕ
release_once released g =
    if released
    then (true, g, none)
    else (let (g', resumed) = release_slot g in (true, g', resumed))

unfoldable pub backoff : GovernorOptions → ℕ → ℕ
backoff opts consecutive =
    min opts.max_backoff_ms (opts.min_backoff_ms * opts.backoff_factor ^ (consecutive - 1))

unfoldable pub penalize : Governor → ℕ → Option String → Governor × RateLimitEvent
penalize g now endpoint =
    let consecutive = g.consecutive_penalties + 1 in
    let backoff_ms = backoff g.opts consecutive in
    let cooldown =
      if ltb g.cooldown_until (now + backoff_ms) then now + backoff_ms else g.cooldown_until in
    (
      record g {
        consecutive_penalties = consecutive;
        total_penalties = g.total_penalties + 1;
        current_backoff_ms = backoff_ms;
        cooldown_until = cooldown;
      },
      record {
        at = now;
        endpoint = endpoint;
        backoff_ms = backoff_ms;
        consecutive = consecutive;
        cooldown_until = cooldown;
      },
    )

unfoldable pub reward : Governor → ℕ → Governor
reward g now =
    if leb g.cooldown_until now
    then record g { consecutive_penalties = 0; current_backoff_ms = 0 }
    else g
