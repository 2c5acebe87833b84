-- ===== src/Tests/Tally.antt =====
-- A concrete way to print numbers, for the theorems that take one.
use xrpl_registrar.Common.{ℕ, zero, suc, String, ◌≡◌, refl, ap, false, Option, some}
use xrpl_registrar.Common.SplitText.{has_mark}
use xrpl_registrar.Api.AccountTx.Marker.{has_colon}

-- Numbers in tally marks.
abbrev pub tally : ℕ → String
tally zero = ""
tally (suc n) = String.◌∷◌ (Prim.Native.String.char_at "i" 0) (tally n)

abbrev pub marks : String → ℕ
marks String.[] = 0
marks (String.◌∷◌ c s) = suc (marks s)

abbrev pub tallied : String → Option ℕ
tallied s = some (marks s)

pub tally-marks : (n : ℕ) → marks (tally n) ≡ n
tally-marks zero = refl
tally-marks (suc n) = ap suc (tally-marks n)

pub tally-tallied : (n : ℕ) → tallied (tally n) ≡ some n
tally-tallied n = ap some (tally-marks n)

pub tally-has_colon : (n : ℕ) → has_colon (tally n) ≡ false
tally-has_colon zero = refl
tally-has_colon (suc n) = tally-has_colon n

pub tally-has_bar : (n : ℕ) → has_mark b'|' (tally n) ≡ false
tally-has_bar zero = refl
tally-has_bar (suc n) = tally-has_bar n
