-- ===== src/Discovery/Pages.antt =====
-- src/discovery/accountTx.ts and src/discovery/accountLines.ts: an account's entries and trust
-- lines, page after page. What Clio answers is a parameter.
use xrpl_registrar.Common.{
  ℕ, zero, suc, String, Bool, true, false, not, Option, none, some, List, [], ◌∷◌, ◌++◌,
  if◌then◌else◌, or_else,
}
use xrpl_registrar.Common.Set.{add}
use xrpl_registrar.Common.Text.{eq}
use xrpl_registrar.Discovery.Entries.{AccountTxEntry}
use xrpl_registrar.Json.{Value, Record, as_record, get_string, truthy}
use xrpl_registrar.Xrpl.Currency.{currency_to_string}

pub record AccountTxQuery : Type 0 where
  pub account : String
  pub tx_type : Option String
  pub limit : Option ℕ

-- The command's members that vary; `command` and `forward: true` are the same on each page.
pub record AccountTxRequest : Type 0 where
  pub query : AccountTxQuery
  pub marker : Option Value

-- `{ transactions?: …; marker?: unknown }`, or `lines` in place of `transactions`.
pub record Page {ℓ} (A : Type ℓ) : Type ℓ where
  pub entries : Option (List A)
  pub marker : Option Value

module _ (request : AccountTxRequest → Page AccountTxEntry) where
  -- The entries that are yielded within so many pages, and whether the history ended by then.
  unfoldable pub page_account_tx : ℕ → AccountTxQuery → Option Value → List AccountTxEntry × Bool
  page_account_tx zero query marker = ([], false)
  page_account_tx (suc fuel) query marker =
      let res = request (record { query = query; marker = marker }) in
      let yielded = or_else res.entries [] in
      elim res.marker [
        | none ↦ (yielded, true)
        | some m ↦
            let (rest, ended) = page_account_tx fuel query (some m) in (yielded ++ rest, ended)
      ]

-- `const record = asRecord(line); if (record) yield record`
unfoldable pub records : List Value → List Record
records [] = []
records (v ∷ vs) = elim (as_record v) [ none ↦ records vs | some r ↦ r ∷ records vs ]

module _ (request : String → Option Value → Page Value) where
  unfoldable pub page_account_lines : ℕ → String → Option Value → List Record × Bool
  unfolding records
  page_account_lines zero account marker = ([], false)
  page_account_lines (suc fuel) account marker =
      let res = request account marker in
      let yielded = records (or_else res.entries []) in
      elim res.marker [
        | none ↦ (yielded, true)
        | some m ↦
            let (rest, ended) = page_account_lines fuel account (some m) in (yielded ++ rest, ended)
      ]

-- The loop over the lines: the accounts that hold the currency, each once.
unfoldable pub current_trustline_holders : String → List Record → List String → List String
current_trustline_holders currency [] holders = holders
current_trustline_holders currency (line ∷ rest) holders = current_trustline_holders currency rest (
    if not (eq (currency_to_string (or_else (get_string "currency" line) "")) currency)
    then holders
    else elim (truthy (get_string "account" line)) [
      | none ↦ holders
      | some account ↦ add account holders
    ])
