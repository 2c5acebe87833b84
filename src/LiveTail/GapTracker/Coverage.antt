-- ===== src/LiveTail/GapTracker/Coverage.antt =====
-- What GapTracker reports over a stream of ledgers: every ledger past the anchor is either
-- observed or in exactly one reported gap.
use xrpl_registrar.Common.{
  ℕ, suc, ◌+◌, ◌≤◌, ◌<◌, max, ◌≡◌, refl, Bool, false, ◌&&◌, ◌||◌, Option, none, some, List, [], ◌∷◌,
  arith, ltb, leb, ◌==◌, if◌then◌else◌,
}
use xrpl_registrar.LiveTail.GapTracker.{LedgerRange, GapTracker, create, observe_after, observe}

abbrev pub push_gap : Option LedgerRange → List LedgerRange → List LedgerRange
push_gap none gs = gs
push_gap (some g) gs = g ∷ gs

-- A stream of ledgers, with the gaps in the order in which they were revealed.
unfoldable pub observe_all : GapTracker → List ℕ → GapTracker × List LedgerRange
observe_all t [] = (t, [])
observe_all t (l ∷ ls) =
    let (t', gap) = observe t l in let (t'', gaps) = observe_all t' ls in (t'', push_gap gap gaps)

abbrev pub in_range : ℕ → LedgerRange → Bool
in_range n r = leb r.from_ledger n && leb n r.to_ledger

-- How many of the ranges hold `n`.
pub count_ranges : ℕ → List LedgerRange → ℕ
count_ranges n [] = 0
count_ranges n (r ∷ rs) = if in_range n r then suc (count_ranges n rs) else count_ranges n rs

-- The highest ledger, starting from `last`.
unfoldable pub highest : ℕ → List ℕ → ℕ
highest last [] = last
highest last (l ∷ ls) = highest (max last l) ls

-- `l` counts only when it is new: an old or repeated index is not progress.
pub fresh_seen : ℕ → ℕ → List ℕ → Bool
fresh_seen last n [] = false
fresh_seen last n (l ∷ ls) = (l == n && ltb last l) || fresh_seen (max last l) n ls

below_uncounted :
    (n last : ℕ) (ls : List ℕ)
    → n ≤ last
    → (count_ranges n (observe_all (some last) ls).1 ≡ 0) × (fresh_seen last n ls ≡ false)
unfolding observe_all observe observe_after count_ranges fresh_seen
below_uncounted n last [] h = (refl, refl)
below_uncounted n last (l ∷ ls) h =
    ground (arith, below_uncounted n last ls, below_uncounted n l ls)

observe_after_state : (last l : ℕ) → (observe_after last l).0 ≡ some (max last l)
unfolding observe_after
observe_after_state last l = ground arith

observe_all_state :
    (last : ℕ) (ls : List ℕ) → (observe_all (some last) ls).0 ≡ some (highest last ls)
unfolding observe_all observe highest
observe_all_state last [] = refl
observe_all_state last (l ∷ ls) =
    ground (arith, observe_all_state (max last l) ls, observe_after_state last l)

uncovered_once :
    (n last : ℕ) (ls : List ℕ)
    → last < n
    → n ≤ highest last ls
    → count_ranges n (observe_all (some last) ls).1 + (if fresh_seen last n ls then 1 else 0) ≡ 1
unfolding observe_all observe observe_after count_ranges fresh_seen highest
uncovered_once n last [] h k = absurd (omega arith)
uncovered_once n last (l ∷ ls) h k =
    ground (arith, below_uncounted n l ls, uncovered_once n (max last l) ls)

-- From an anchor, after any stream of ledgers: the tracker stands at the highest ledger seen, and
-- each ledger past the anchor up to there was either observed when it was new or lies in exactly
-- one reported gap, never both.
pub observe_all_covers :
    (anchor n : ℕ) (ls : List ℕ)
    → anchor < n
    → n ≤ highest anchor ls
    → ((observe_all (create (some anchor)) ls).0 ≡ some (highest anchor ls))
      × (count_ranges n (observe_all (create (some anchor)) ls).1
            + (if fresh_seen anchor n ls then 1 else 0)
          ≡ 1)
observe_all_covers anchor n ls h k = (observe_all_state anchor ls, uncovered_once n anchor ls h k)

-- Nothing at or below the anchor is ever reported as missing.
pub observe_all_above :
    (anchor n : ℕ) (ls : List ℕ)
    → n ≤ anchor
    → count_ranges n (observe_all (create (some anchor)) ls).1 ≡ 0
observe_all_above anchor n ls h = (below_uncounted n anchor ls h).0
