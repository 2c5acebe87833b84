-- ===== src/Api/AccountTx/Marker.antt =====
-- The text of a marker can be read back.
use xrpl_registrar.Common.{ℕ, String, ◌≡◌, refl, ap, ◌∙◌, Bool, false, Option, none, some}
use xrpl_registrar.Common.SplitText.{has_mark, split_at-colon}
use xrpl_registrar.Common.Text.{eq}
use xrpl_registrar.Api.AccountTx.{Cursor, cursor_of, key_of, parse_marker, print_marker}
use xrpl_registrar.Db.Transactions.{TransactionRow}
use xrpl_registrar.Json.{Value, string}

abbrev pub has_colon : String → Bool
has_colon s = has_mark b':' s

module _ (print : ℕ → String) (to_number : String → Option ℕ) (decode : String → Value)
    (print-to_number : (n : ℕ) → to_number (print n) ≡ some n)
    (print-has_colon : (n : ℕ) → has_colon (print n) ≡ false) where
  pub parse_marker-print_marker :
      (r : TransactionRow)
      → eq r.hash "" ≡ false
      → parse_marker print to_number decode (some (string (print_marker print to_number decode r)))
        ≡ some (key_of r)
  unfolding parse_marker print_marker
  parse_marker-print_marker r h =
      ap read (split_at-colon (print r.ledger_index) r.hash (print-has_colon r.ledger_index))
      ∙ rw (print-to_number r.ledger_index, h) refl
    where
      read : Option (String × String) → Option Cursor
      read none = none
      read (some (ledger, hash)) = cursor_of (to_number ledger) hash
