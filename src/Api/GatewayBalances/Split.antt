-- ===== src/Api/GatewayBalances/Split.antt =====
-- What naming hot wallets does to an issuer's obligations: their balances are reported apart, and
-- nothing is lost.
use mathlib.Core.List.{append-nil, append_assoc}
use xrpl_registrar.Common.{
  String, ◌≡◌, sym, ap, ◌∙◌, inl, inr, true, not, ◌&&◌, Option, none, some, List, [], ◌∷◌, ◌++◌,
  arith, if◌then◌else◌, Bool-cases, Option-cases, or_else,
}
use xrpl_registrar.Common.Dict.{lookup, lookup-insert}
use xrpl_registrar.Common.Text.{eq, eq_iff, one_of}
use xrpl_registrar.Api.GatewayBalances.{
  Totals, Balances, push_balance, add_holder, add_row, add_holders,
}
use xrpl_registrar.Reconcile.Iou.{Decimals}

module _ {B : Type 0} (big : Decimals B) where
  -- What a row has for the hot wallets, and all rows together; the issuer's own is left out.
  unfoldable pub hot_share : String → List String → String × String → B
  hot_share account hotwallets (address, text) =
      if not (eq address account) && one_of address hotwallets
      then or_else (big.parse text) big.zero
      else big.zero

  unfoldable pub hot_total : String → List String → List (String × String) → B
  hot_total account hotwallets [] = big.zero
  hot_total account hotwallets (row ∷ rows) =
      big.plus (hot_share account hotwallets row) (hot_total account hotwallets rows)

  -- What a row adds to the balances of an address, and all rows in order.
  abbrev share_for : String → String → Option B → List (String × String)
  share_for address w none = []
  share_for address w (some bal) = if big.equal bal big.zero then [] else (w, big.print bal) ∷ []

  unfoldable pub reported :
      String → List String → String → String → String × String → List (String × String)
  reported account hotwallets w holder (address, text) =
      if not (eq address account) && one_of address hotwallets && eq address holder
      then share_for address w (big.parse text)
      else []

  unfoldable pub reported_all :
      String → List String → String → String → List (String × String) → List (String × String)
  reported_all account hotwallets w holder [] = []
  reported_all account hotwallets w holder (row ∷ rows) =
      reported account hotwallets w holder row ++ reported_all account hotwallets w holder rows

  abbrev pub held : String → Balances → List (String × String)
  held holder balances = or_else (lookup holder balances) []

  held-push_balance :
      (address holder : String) (b : String × String) (m : Balances)
      → held holder (push_balance address b m)
        ≡ held holder m ++ (if eq address holder then b ∷ [] else [])
  unfolding push_balance
  held-push_balance address holder b m = ground (
    arith,
    lookup-insert address holder (held address m ++ b ∷ []) m,
    eq_iff address holder,
    append-nil (held holder m),
  )

  row_balances :
      (account : String) (hot : List String) (w holder : String) (row : String × String)
      (t t' : Totals big)
      → add_row big account hot w row t ≡ some t'
      → held holder t'.balances ≡ held holder t.balances ++ reported account hot w holder row
  unfolding add_row add_holder reported
  row_balances account hot w holder (address, text) t t' h = elim (Option-cases (big.parse text)) [
    | inl bad ↦ ground (arith, h, bad, append-nil (held holder t.balances))
    | inr (bal, good) ↦ ground (
      arith,
      h,
      good,
      append-nil (held holder t.balances),
      held-push_balance address holder (w, big.print bal) t.balances,
    )
  ]

  add_holders_balances :
      (account : String) (hot : List String) (w holder : String) (rows : List (String × String))
      (t t' : Totals big)
      → add_holders big account hot w rows t ≡ some t'
      → held holder t'.balances ≡ held holder t.balances ++ reported_all account hot w holder rows
  unfolding add_holders reported_all
  add_holders_balances account hot w holder [] t t' h =
      ground (arith, h, append-nil (held holder t.balances))
  add_holders_balances account hot w holder (row ∷ rows) t t' h =
      elim (Option-cases (add_row big account hot w row t)) [
        | inl bad ↦ absurd (ground (arith, h, bad))
        | inr (t1, e) ↦
            add_holders_balances account hot w holder rows t1 t' (ground (arith, h, e))
            ∙ ap (λ (bs : List (String × String)). bs ++ reported_all account hot w holder rows)
                (row_balances account hot w holder row t t1 e)
            ∙ append_assoc (held holder t.balances) (reported account hot w holder row) _
      ]

  module _ (plus-zero : (a : B) → big.plus a big.zero ≡ a)
      (plus_comm : (a b : B) → big.plus a b ≡ big.plus b a)
      (plus_assoc : (a b c : B) → big.plus (big.plus a b) c ≡ big.plus a (big.plus b c))
      (equal-zero : (a : B) → big.equal a big.zero ≡ true → a ≡ big.zero) where
    plus_zero_of : (a b : B) → b ≡ big.zero → big.plus a b ≡ a
    plus_zero_of a b h = ap (big.plus a) h ∙ plus-zero a

    add_holder-obligation :
        (account : String) (hot : List String) (w address : String) (bal : B) (t : Totals big)
        → (add_holder big account hot w address bal t).obligation
          ≡ (if one_of address hot then t.obligation else big.plus t.obligation bal)
    unfolding add_holder
    add_holder-obligation account hot w address bal t =
        ground (arith, plus_zero_of t.obligation bal, equal-zero bal)

    gap_hot : (t gap bal : B) → big.plus (big.plus t gap) bal ≡ big.plus t (big.plus gap bal)
    gap_hot t gap bal = plus_assoc t gap bal

    gap_same :
        (t gap bal : B)
        → big.plus (big.plus t gap) bal ≡ big.plus (big.plus t bal) (big.plus gap big.zero)
    gap_same t gap bal =
        plus_assoc t gap bal
        ∙ ap (big.plus t) (plus_comm gap bal)
        ∙ sym (plus_assoc t bal gap)
        ∙ ap (big.plus (big.plus t bal)) (sym (plus-zero gap))

    -- Two runs over the same rows, with and without hot wallets, whose obligations so far differ by
    -- `gap`.
    row_gap :
        (account : String) (hot : List String) (w : String) (row : String × String)
        (t u t' u' : Totals big) (gap : B)
        → u.obligation ≡ big.plus t.obligation gap
        → add_row big account hot w row t ≡ some t'
        → add_row big account [] w row u ≡ some u'
        → u'.obligation ≡ big.plus t'.obligation (big.plus gap (hot_share account hot row))
    unfolding add_row hot_share
    row_gap account hot w (address, text) t u t' u' gap g h k =
        elim (Bool-cases (eq address account)) [
          | inl own ↦ ground (arith, g, h, k, own, plus-zero gap)
          | inr other ↦ elim (Option-cases (big.parse text)) [
            | inl bad ↦ absurd (ground (arith, h, other, bad))
            | inr (bal, good) ↦ ground (
              arith,
              g,
              h,
              k,
              other,
              good,
              add_holder-obligation account hot w address bal t,
              add_holder-obligation account [] w address bal u,
              gap_hot t.obligation gap bal,
              gap_same t.obligation gap bal,
            )
          ]
        ]

    add_holders_gap :
        (account : String) (hot : List String) (w : String) (rows : List (String × String))
        (t u t' u' : Totals big) (gap : B)
        → u.obligation ≡ big.plus t.obligation gap
        → add_holders big account hot w rows t ≡ some t'
        → add_holders big account [] w rows u ≡ some u'
        → u'.obligation ≡ big.plus t'.obligation (big.plus gap (hot_total account hot rows))
    unfolding add_holders hot_total
    add_holders_gap account hot w [] t u t' u' gap g h k = ground (arith, g, h, k, plus-zero gap)
    add_holders_gap account hot w (row ∷ rows) t u t' u' gap g h k =
        elim (Option-cases (add_row big account hot w row t)) [
          | inl bad ↦ absurd (ground (arith, h, bad))
          | inr (t1, e) ↦ elim (Option-cases (add_row big account [] w row u)) [
            | inl bad ↦ absurd (ground (arith, k, bad))
            | inr (u1, d) ↦
                add_holders_gap account hot w rows t1 u1 t' u'
                  (big.plus gap (hot_share account hot row))
                  (row_gap account hot w row t u t1 u1 gap g e d) (ground (arith, h, e))
                  (ground (arith, k, d))
                ∙ ap (big.plus t'.obligation)
                    (plus_assoc gap (hot_share account hot row) (hot_total account hot rows))
          ]
        ]

    -- Naming hot wallets only moves balances: of two runs over the same rows that both read every
    -- sum, the one without hot wallets has the obligation of the other plus the hot wallets'
    -- balances, and the other adds to each address's reported balances exactly what its rows hold,
    -- and nothing for an address that is no hot wallet.
    pub add_holders-conserves :
        (account : String) (hot : List String) (w : String) (rows : List (String × String))
        (balances : Balances) (t u : Totals big)
        → add_holders big account hot w rows (record { obligation = big.zero; balances = balances })
          ≡ some t
        → add_holders big account [] w rows (record { obligation = big.zero; balances = balances })
          ≡ some u
        → (u.obligation ≡ big.plus t.obligation (hot_total account hot rows))
          × ((holder : String)
              → held holder t.balances
                ≡ held holder balances ++ reported_all account hot w holder rows)
    add_holders-conserves account hot w rows balances t u h k = (
      add_holders_gap account hot w rows _ _ t u big.zero (sym (plus-zero big.zero)) h k
          ∙ ap (big.plus t.obligation) (
              plus_comm big.zero (hot_total account hot rows)
              ∙ plus-zero (hot_total account hot rows)),
      λ holder. add_holders_balances account hot w holder rows _ t h,
    )
