-- ===== src/AccountDeletion/Eligibility.antt =====
-- Who may delete the account (src/account-deletion/eligibility.service.ts). The balances of the vaults
-- and of the wallet, and decimal.js, are parameters.
use smartpig_backend.Common.{
  ℕ, ℤ, Bool, true, false, ◌&&◌, ◌||◌, Option, none, some, List, [], ◌∷◌, ◌++◌, String, ◌==◌, ltb,
  if◌then◌else◌, filter, any?, find_least, includes, count_where, is_some, same_string, http,
  ErrorKind, Exception, Result, ok, err,
}
use smartpig_backend.TransactionState.{IntentStatus}
use smartpig_backend.Schema.Vaults.{Vault}
use smartpig_backend.Schema.Intents.{Decimal, TransactionStatus}
use smartpig_backend.Gifts.Rows.{GiftStatus}
use smartpig_backend.AccountDeletion.Rows.{
  Sealed, Wallet, SentGift, RampStatus, OrderStatus, EtherfuseOrder, Personal, DeletionDb,
}

-- An entry of the wallet's balances.
pub record AssetBalance : Type 0 where
  pub asset : String
  pub balance : Decimal

pub record Balances : Type 0 where
  -- `Number(balance.underlyingBalance?.[0] ?? 0)`
  pub get_vault_balance : String → Sealed String → Result Decimal
  pub get_wallet_balances : Sealed String → Result (List AssetBalance)
  pub usdc_asset_id : String
  -- `.gt(this.dustUsd)`
  pub exceeds_dust : Decimal → Bool
  -- `.gt(0)`
  pub is_positive : Decimal → Bool
  pub plus : Decimal → Decimal → Decimal
  -- `toWholeUnits`
  pub whole_units : Decimal → ℤ → Decimal

abbrev pub zero_amount : Decimal
zero_amount = record { negative = false; coefficient = 0; scale = 0 }

-- The code and what its parameters are about: `resolvable` and `action` follow from the code, and the
-- asset of a wallet is shown by the part of it before the colon.
pub data Blocker : Type 0 where
  vault_balance_unknown : ℕ → Blocker
  vault_balance : ℕ → Decimal → Blocker
  wallet_usdc_balance : Decimal → Blocker
  wallet_asset_balance : String → Decimal → Blocker
  gift_refundable : Decimal → Blocker
  gift_locked : Decimal → ℕ → Blocker
  deposit_in_flight withdrawal_in_flight tx_pending onramp_in_flight offramp_in_flight
        etherfuse_order_in_flight :
      Blocker

-- A vault's balance: read, or unknown for good, or unknown for now.
pub data Reading : Type 0 where
  amount : Decimal → Reading
  unknown transient : Reading

abbrev pub is_transient_upstream : Exception → Bool
is_transient_upstream e = elim e.kind [
  | ErrorKind.service_unavailable ↦ true
  | ErrorKind.gateway_timeout ↦ true
  | _ ↦ false
]

abbrev pub is_transient : Reading → Bool
is_transient transient = true
is_transient _ = false

abbrev pub is_nil {ℓ} : {A : Type ℓ} → List A → Bool
is_nil [] = true
is_nil (x ∷ xs) = false

abbrev pub read_failed : Exception
read_failed =
    http ErrorKind.service_unavailable "Could not read vault balances right now. Try again shortly."

-- `inspectionScope`: an empty allowlist is every vault; else it is the allowlist, and where the user has
-- been.
unfoldable pub in_scope : List ℕ → ℕ → Personal → Vault → Bool
in_scope [] user db v = true
in_scope (a ∷ rest) user db v =
    includes v.id (a ∷ rest)
    || any? (λ d. d.user_id == user && d.vault_id == v.id) db.deposits
    || any? (λ w. w.user_id == user && w.vault_id == v.id) db.withdrawals
    || any? (λ s. s.user_id == user && s.vault_id == v.id) db.snapshots

abbrev pub is_in_flight : IntentStatus → Bool
is_in_flight IntentStatus.created = true
is_in_flight IntentStatus.xdr_generated = true
is_in_flight IntentStatus.signed_xdr_received = true
is_in_flight IntentStatus.submitted = true
is_in_flight _ = false

abbrev pub is_onramp_in_flight : RampStatus → Bool
is_onramp_in_flight RampStatus.pending = true
is_onramp_in_flight RampStatus.awaiting_payment = true
is_onramp_in_flight RampStatus.processing = true
is_onramp_in_flight _ = false

abbrev pub is_offramp_in_flight : RampStatus → Bool
is_offramp_in_flight RampStatus.pending = true
is_offramp_in_flight RampStatus.delegation_needed = true
is_offramp_in_flight RampStatus.processing = true
is_offramp_in_flight _ = false

abbrev pub is_order_in_flight : OrderStatus → Bool
is_order_in_flight OrderStatus.created = true
is_order_in_flight OrderStatus.pending_signature = true
is_order_in_flight OrderStatus.processing = true
is_order_in_flight _ = false

abbrev pub is_tx_pending : TransactionStatus → Bool
is_tx_pending TransactionStatus.pending = true
is_tx_pending _ = false

abbrev pub block_if : Bool → Blocker → List Blocker
block_if test b = if test then b ∷ [] else []

-- An order of a customer of the user.
abbrev pub is_order_of : ℕ → Personal → EtherfuseOrder → Bool
is_order_of user db o =
    any? (λ c. c.id == o.customer_id && c.user_id == user) db.etherfuse_customers

-- `inFlightBlockers`: a blocker for each kind of which the user has one in flight.
unfoldable pub in_flight_blockers : ℕ → Personal → List Blocker
in_flight_blockers user db =
    block_if (ltb 0 (count_where (λ d. d.user_id == user && is_in_flight d.status) db.deposits))
      Blocker.deposit_in_flight
    ++ (block_if
          (ltb 0 (count_where (λ w. w.user_id == user && is_in_flight w.status) db.withdrawals))
          Blocker.withdrawal_in_flight
        ++ (block_if
              (ltb 0
                (count_where (λ t. t.user_id == user && is_tx_pending t.status) db.transactions))
              Blocker.tx_pending
            ++ (block_if
                  (ltb 0 (
                    count_where (λ r. r.user_id == user && is_onramp_in_flight r.status)
                      db.onramps))
                  Blocker.onramp_in_flight
                ++ (block_if
                      (ltb 0 (
                        count_where (λ r. r.user_id == user && is_offramp_in_flight r.status)
                          db.offramps))
                      Blocker.offramp_in_flight
                    ++ block_if
                        (ltb 0 (
                          count_where (λ o. is_order_of user db o && is_order_in_flight o.status)
                            db.etherfuse_orders))
                        Blocker.etherfuse_order_in_flight))))

-- The blocker of one gift, if its money may come back or still go out.
abbrev pub gift_blocker : SentGift → List Blocker
gift_blocker g = elim g.status [
  | GiftStatus.funded ↦ Blocker.gift_locked g.amount g.expires_at ∷ []
  | GiftStatus.claiming ↦ Blocker.gift_locked g.amount g.expires_at ∷ []
  | GiftStatus.expired ↦ block_if (is_some g.balance_id) (Blocker.gift_refundable g.amount)
  | _ ↦ []
]

-- `giftBlockers`
unfoldable pub gift_blockers : ℕ → List SentGift → List Blocker
gift_blockers user [] = []
gift_blockers user (g ∷ gifts) =
    (if g.sender_user_id == user then gift_blocker g else []) ++ gift_blockers user gifts

-- The wallet that the check and the closure look at: the oldest active one.
unfoldable pub find_closing_wallet : ℕ → Personal → Option Wallet
find_closing_wallet user db =
    find_least (λ w. w.user_id == user && w.is_active) (λ w. w.created_at) db.wallets

-- The residuals are sums: the lists beside them are left out.
pub record VaultBalances : Type 0 where
  pub blockers : List Blocker
  pub lost : Decimal

pub record Eligibility : Type 0 where
  pub eligible : Bool
  pub blockers : List Blocker
  pub swept_to_treasury : Decimal
  pub permanently_lost : Decimal

abbrev pub is_xlm : AssetBalance → Bool
is_xlm b = same_string b.asset "XLM"

module _ (services : Balances) where
  open services use {
    get_vault_balance, get_wallet_balances, usdc_asset_id, exceeds_dust, is_positive, plus,
    whole_units,
  }

  unfoldable pub read_vault : Sealed String → Vault → Reading
  read_vault address v = elim (get_vault_balance v.defindex_vault_id address) [
    | ok units ↦ Reading.amount (whole_units units v.asset_decimals)
    | err e ↦ if is_transient_upstream e then Reading.transient else Reading.unknown
  ]

  -- The loop over the readings: the blockers, the residuals, and the sum of what is lost.
  abbrev pub vault_blocker : Sealed String → Vault → List Blocker
  vault_blocker address v = elim (read_vault address v) [
    | Reading.amount a ↦ block_if (exceeds_dust a) (Blocker.vault_balance v.id a)
    | _ ↦ Blocker.vault_balance_unknown v.id ∷ []
  ]

  unfoldable pub vault_blockers : Sealed String → List Vault → List Blocker
  vault_blockers address [] = []
  vault_blockers address (v ∷ vs) = vault_blocker address v ++ vault_blockers address vs

  abbrev pub lose : Sealed String → Vault → Decimal → Decimal
  lose address v lost = elim (read_vault address v) [
    | Reading.amount a ↦
        if exceeds_dust a then lost else if is_positive a then plus lost a else lost
    | _ ↦ lost
  ]

  unfoldable pub lost_total : Sealed String → List Vault → Decimal → Decimal
  lost_total address [] lost = lost
  lost_total address (v ∷ vs) lost = lost_total address vs (lose address v lost)

  -- `vaultBalances`. A transient failure fails the whole check. The readings run side by side, and stop
  -- once one was throttled: no answer shows which were left out.
  unfoldable pub vault_balances : Option Wallet → List Vault → Result VaultBalances
  vault_balances none vaults = ok (record { blockers = []; lost = zero_amount })
  vault_balances (some w) vaults =
      if any? (λ v. is_transient (read_vault w.stellar_address v)) vaults
      then err read_failed
      else ok (record {
        blockers = vault_blockers w.stellar_address vaults;
        lost = lost_total w.stellar_address vaults zero_amount;
      })

  -- XLM is skipped: the closure merges it.
  unfoldable pub asset_blockers : List AssetBalance → List Blocker
  asset_blockers [] = []
  asset_blockers (b ∷ bs) =
      (if is_xlm b
        then []
        else block_if (exceeds_dust b.balance) (
            if same_string b.asset usdc_asset_id
            then Blocker.wallet_usdc_balance b.balance
            else Blocker.wallet_asset_balance b.asset b.balance))
      ++ asset_blockers bs

  abbrev pub sweep_asset : AssetBalance → Decimal → Decimal
  sweep_asset b swept =
      if is_xlm b || exceeds_dust b.balance
      then swept
      else if is_positive b.balance
      then plus swept b.balance
      else swept

  unfoldable pub swept_total : List AssetBalance → Decimal → Decimal
  swept_total [] swept = swept
  swept_total (b ∷ bs) swept = swept_total bs (sweep_asset b swept)

  -- `walletBalances`: an account that was never activated has none.
  unfoldable pub held_assets : Option Wallet → Result (List AssetBalance)
  held_assets none = ok []
  held_assets (some w) = if w.is_activated then get_wallet_balances w.stellar_address else ok []

  abbrev pub sum_up : ℕ → Personal → VaultBalances → List AssetBalance → Eligibility
  sum_up user db vaults assets =
      let blockers =
        vaults.blockers
        ++ (asset_blockers assets ++ (gift_blockers user db.gifts ++ in_flight_blockers user db)) in
      record {
        eligible = is_nil blockers;
        blockers = blockers;
        swept_to_treasury = swept_total assets zero_amount;
        permanently_lost = vaults.lost;
      }

  -- `check`, with the allowlist of vaults.
  unfoldable pub check : List ℕ → ℕ → DeletionDb → Result Eligibility
  check allowed user db =
      let wallet = find_closing_wallet user db.personal in
      elim (vault_balances wallet (filter (in_scope allowed user db.personal) db.vaults)) [
        | err e ↦ err e
        | ok vaults ↦ elim (held_assets wallet) [
          | err e ↦ err e
          | ok assets ↦ ok (sum_up user db.personal vaults assets)
        ]
      ]
