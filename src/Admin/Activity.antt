-- ===== src/Admin/Activity.antt =====
-- src/admin/activity.ts: how much work of each kind is in flight. The time of a call is an argument.
use xrpl_registrar.Common.{
  ℕ, ◌+◌, ◌-◌, String, ◌≡◌, refl, Bool, Option, none, some, List, [], ◌∷◌, map, ltb, ◌==◌,
  if◌then◌else◌,
}

pub data ActivityKind : Type 0 where
  backfill discovery : ActivityKind

pub record KindState : Type 0 where
  pub active : ℕ
  pub last_started_at : Option String
  pub last_finished_at : Option String
  pub detail : Option String

-- The map of states; a kind that is not there yet is created idle when it is asked for.
pub record ActivityRegistry : Type 0 where
  pub backfill : KindState
  pub discovery : KindState

abbrev pub idle : KindState
idle = record { active = 0; last_started_at = none; last_finished_at = none; detail = none }

abbrev pub state_of : ActivityKind → ActivityRegistry → KindState
state_of backfill r = r.backfill
state_of discovery r = r.discovery

abbrev pub set_state : ActivityKind → KindState → ActivityRegistry → ActivityRegistry
set_state backfill s r = record r { backfill = s }
set_state discovery s r = record r { discovery = s }

abbrev detail_or : Option String → Option String → Option String
detail_or none old = old
detail_or (some d) old = some d

unfoldable pub begin : String → ActivityKind → Option String → ActivityRegistry → ActivityRegistry
begin now kind detail r =
    let s = state_of kind r in
    set_state kind
      (record s {
        active = s.active + 1;
        last_started_at = some now;
        detail = detail_or detail s.detail;
      })
      r

-- `Math.max(0, s.active - 1)`
unfoldable pub end : String → ActivityKind → ActivityRegistry → ActivityRegistry
end now kind r =
    let s = state_of kind r in
    let left = s.active - 1 in
    set_state kind
      (record s {
        active = left;
        last_finished_at = some now;
        detail = (if left == 0 then none else s.detail);
      })
      r

-- `track`: the work runs on the registry that has begun it, and whatever it answers it is ended.
unfoldable pub track {ℓ} :
    {T : Type ℓ}
    → String
    → String
    → ActivityKind
    → Option String
    → (ActivityRegistry → ActivityRegistry × T)
    → ActivityRegistry
    → ActivityRegistry × T
unfolding begin end
track started finished kind detail work r =
    let (r', result) = work (begin started kind detail r) in (end finished kind r', result)

pub record ActivitySnapshot : Type 0 where
  pub active : ℕ
  pub running : Bool
  pub last_started_at : Option String
  pub last_finished_at : Option String
  pub detail : Option String

unfoldable pub snapshot_of : KindState → ActivitySnapshot
snapshot_of s = record {
  active = s.active;
  running = ltb 0 s.active;
  last_started_at = s.last_started_at;
  last_finished_at = s.last_finished_at;
  detail = s.detail;
}

unfoldable pub snapshot : ActivityRegistry → List (ActivityKind × ActivitySnapshot)
unfolding snapshot_of
snapshot r =
    map (λ kind. (kind, snapshot_of (state_of kind r)))
      (ActivityKind.backfill ∷ ActivityKind.discovery ∷ [])

abbrev nothing : ActivityRegistry
nothing = record { backfill = idle; discovery = idle }

abbrev two_begun : ActivityRegistry
two_begun =
    begin "2" ActivityKind.backfill none (begin "1" ActivityKind.backfill (some "A") nothing)

-- Of two overlapping backfills the first to end leaves the kind active, and the second does not.
overlapping :
    ((end "3" ActivityKind.backfill two_begun).backfill.active ≡ 1)
    × ((end "4" ActivityKind.backfill (end "3" ActivityKind.backfill two_begun)).backfill.active
        ≡ 0)
unfolding begin end
overlapping = (refl, refl)
