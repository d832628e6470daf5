-- ===== src/AccountDeletion/Blocking.antt =====
-- What keeps an account from being deleted (src/account-deletion/eligibility.service.ts).
use smartpig_backend.Common.{
  ℕ, Bool, true, false, ◌&&◌, ◌||◌, not, Option, none, some, List, ◌==◌, all?, filter, is_some,
  Result, ok, err, String,
}
use smartpig_backend.Schema.Vaults.{Vault}
use smartpig_backend.Schema.Intents.{TransactionStatus}
use smartpig_backend.TransactionState.{IntentStatus}
use smartpig_backend.Gifts.Rows.{GiftStatus}
use smartpig_backend.AccountDeletion.Rows.{
  Sealed, Wallet, SentGift, Personal, DeletionDb, RampStatus, OrderStatus,
}
use smartpig_backend.AccountDeletion.Eligibility.{
  Balances, AssetBalance, Eligibility, in_scope, is_order_of, find_closing_wallet, is_xlm,
  held_assets,
}

-- No money of the gift may come back, or still go out.
abbrev is_settled_gift : SentGift → Bool
is_settled_gift g = elim g.status [
  | GiftStatus.funded ↦ false
  | GiftStatus.claiming ↦ false
  | GiftStatus.expired ↦ not (is_some g.balance_id)
  | _ ↦ true
]

abbrev is_over_intent : IntentStatus → Bool
is_over_intent IntentStatus.confirmed = true
is_over_intent IntentStatus.failed = true
is_over_intent _ = false

abbrev is_over_tx : TransactionStatus → Bool
is_over_tx TransactionStatus.confirmed = true
is_over_tx TransactionStatus.failed = true
is_over_tx TransactionStatus.pending = false

abbrev is_over_ramp : RampStatus → Bool
is_over_ramp RampStatus.completed = true
is_over_ramp RampStatus.failed = true
is_over_ramp RampStatus.refunded = true
is_over_ramp _ = false

-- A deposit by PIX does not wait for a delegation, and a withdrawal to PIX does not wait for a payment.
abbrev is_over_onramp : RampStatus → Bool
is_over_onramp RampStatus.delegation_needed = true
is_over_onramp s = is_over_ramp s

abbrev is_over_offramp : RampStatus → Bool
is_over_offramp RampStatus.awaiting_payment = true
is_over_offramp s = is_over_ramp s

abbrev is_over_order : OrderStatus → Bool
is_over_order OrderStatus.completed = true
is_over_order OrderStatus.failed = true
is_over_order OrderStatus.refunded = true
is_over_order _ = false

-- Everything that the user began is over.
abbrev is_idle : ℕ → Personal → Bool
is_idle user db =
    all? (λ d. not (d.user_id == user) || is_over_intent d.status) db.deposits
    && (all? (λ w. not (w.user_id == user) || is_over_intent w.status) db.withdrawals
        && (all? (λ t. not (t.user_id == user) || is_over_tx t.status) db.transactions
            && (all? (λ r. not (r.user_id == user) || is_over_onramp r.status) db.onramps
                && (all? (λ r. not (r.user_id == user) || is_over_offramp r.status) db.offramps
                    && all? (λ o. not (is_order_of user db o) || is_over_order o.status)
                        db.etherfuse_orders))))

module _ (services : Balances) where
  open services use {get_vault_balance, exceeds_dust, whole_units}

  -- The balance of the vault could be read, and is not above the dust.
  abbrev is_emptied : Sealed String → Vault → Bool
  is_emptied address v = elim (get_vault_balance v.defindex_vault_id address) [
    | ok units ↦ not (exceeds_dust (whole_units units v.asset_decimals))
    | err e ↦ false
  ]

  -- Without an active wallet no vault is read.
  abbrev are_emptied : Option Wallet → List Vault → Bool
  are_emptied none vaults = true
  are_emptied (some w) vaults = all? (is_emptied w.stellar_address) vaults

  abbrev holds_dust : Result (List AssetBalance) → Bool
  holds_dust (ok assets) = all? (λ b. is_xlm b || not (exceeds_dust b.balance)) assets
  holds_dust (err e) = false

  -- What the check asks for: the vaults in scope and the assets of the active wallet, if there is one, the
  -- gifts of the user, and what the user began.
  abbrev pub is_clear : List ℕ → ℕ → DeletionDb → Bool
  is_clear allowed user db =
      let wallet = find_closing_wallet user db.personal in
      are_emptied wallet (filter (in_scope allowed user db.personal) db.vaults)
      && (holds_dust (held_assets services wallet)
          && (all? (λ g. not (g.sender_user_id == user) || is_settled_gift g) db.personal.gifts
              && is_idle user db.personal))
