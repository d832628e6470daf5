-- ===== src/Gifts/Jobs.antt =====
-- The jobs over the gifts (src/jobs/gift-expiry.job.ts, src/jobs/gift-reconciliation.job.ts).
use smartpig_backend.Common.{
  ℕ, Bool, true, false, ◌&&◌, Option, none, some, List, [], ◌∷◌, String, ◌==◌, ltb, if◌then◌else◌,
  find?, filter, any?, take, is_some, Result, ok, err,
}
use smartpig_backend.Schema.Intents.{Decimal}
use smartpig_backend.Gifts.Rows.{
  Gift, GiftStatus, GiftDb, is_created, is_open, is_expired, update_gifts,
}
use smartpig_backend.Gifts.Service.{expire_gift}

-- `expireGifts`
unfoldable pub expire_gifts : ℕ → GiftDb → GiftDb
expire_gifts now = update_gifts (λ g. is_open g.status && ltb g.expires_at now) expire_gift

-- A claimable balance that the agent may claim, with the transaction that created it.
pub record FundingTx : Type 0 where
  pub hash : String
  pub memo : Option ℕ

pub record AgentBalance : Type 0 where
  pub balance_id : ℕ
  pub amount : Decimal

-- What the job reads from Horizon, and `new Decimal(a).equals(b)` of decimal.js.
pub record GiftLedger : Type 0 where
  pub is_configured : Bool
  pub list_balances : Result (List AgentBalance)
  pub funding_tx : ℕ → Result (Option FundingTx)
  pub balance_exists : ℕ → Result Bool
  pub same_amount : Decimal → Decimal → Bool

abbrev pub fund_gift : ℕ → String → Gift → Gift
fund_gift balance hash g = record g {
  status = GiftStatus.funded;
  balance_id = some balance;
  funding_tx_hash = some hash;
}

abbrev pub refund_gift : Gift → Gift
refund_gift g = record g { status = GiftStatus.refunded }

-- `pendingByMemo.get(memo)`, of the gifts that were read before the loop.
abbrev pub find_by_memo : Option ℕ → List Gift → Option Gift
find_by_memo none pending = none
find_by_memo (some m) pending = find? (λ g. g.memo == m) pending

abbrev pub is_known : ℕ → List Gift → Bool
is_known balance gifts =
    any? (λ g. elim g.balance_id [ none ↦ false | some b ↦ b == balance ]) gifts

module _ (ledger : GiftLedger) where
  open ledger use {is_configured, list_balances, funding_tx, balance_exists, same_amount}

  match_funding : List Gift → AgentBalance → FundingTx → GiftDb → GiftDb
  match_funding pending b tx db = elim (find_by_memo tx.memo pending) [
    | none ↦ db
    | some g ↦
        if same_amount b.amount g.amount
        then update_gifts (λ row. row.id == g.id && is_created row.status)
            (fund_gift b.balance_id tx.hash) db
        else db
  ]

  -- One round of the loop of `fundPendingGifts`; a throw is logged and the loop goes on.
  unfoldable pub fund_one : List Gift → List Gift → AgentBalance → GiftDb → GiftDb
  unfolding match_funding
  fund_one known pending b db =
      if is_known b.balance_id known then db else elim (funding_tx b.balance_id) [
        | err e ↦ db
        | ok none ↦ db
        | ok (some tx) ↦ match_funding pending b tx db
      ]

  fund_all : List Gift → List Gift → List AgentBalance → GiftDb → GiftDb
  unfolding fund_one
  fund_all known pending [] db = db
  fund_all known pending (b ∷ bs) db = fund_all known pending bs (fund_one known pending b db)

  -- The known balances and the pending gifts are read once, before the loop.
  unfoldable pub fund_pending_gifts : GiftDb → GiftDb
  unfolding fund_all
  fund_pending_gifts db = elim list_balances [
    | err e ↦ db
    | ok balances ↦
        fund_all db.gifts (take 50 (filter (λ g. is_created g.status) db.gifts)) balances db
  ]

  -- One round of the loop of `detectRefunds`.
  unfoldable pub refund_one : Gift → GiftDb → GiftDb
  refund_one g db = elim g.balance_id [
    | none ↦ db
    | some b ↦ elim (balance_exists b) [
      | err e ↦ db
      | ok true ↦ db
      | ok false ↦ update_gifts (λ row. row.id == g.id) refund_gift db
    ]
  ]

  refund_all : List Gift → GiftDb → GiftDb
  unfolding refund_one
  refund_all [] db = db
  refund_all (g ∷ gs) db = refund_all gs (refund_one g db)

  unfoldable pub detect_refunds : GiftDb → GiftDb
  unfolding refund_all
  detect_refunds db =
      refund_all (take 20 (filter (λ g. is_expired g.status && is_some g.balance_id) db.gifts)) db

  unfoldable pub reconcile_gifts : GiftDb → GiftDb
  unfolding fund_pending_gifts detect_refunds
  reconcile_gifts db = if is_configured then detect_refunds (fund_pending_gifts db) else db
