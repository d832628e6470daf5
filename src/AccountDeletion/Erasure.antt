-- ===== src/AccountDeletion/Erasure.antt =====
-- What the scrub erases, and what it spares (src/account-deletion/scrub.service.ts).
use smartpig_backend.Common.{
  ℕ, ◌≡◌, ◌≢◌, refl, true, false, Option, none, some, ◌==◌, arith, find?, any?, filter, not, Bool,
  List, [], ◌∷◌, includes, All, Option-cases, inl, inr, Result, ok, err, All-update_accepted,
  includes-filter,
}
use smartpig_backend.Schema.Intents.{DepositIntent, WithdrawalIntent}
use smartpig_backend.Gifts.Rows.{GiftStatus}
use smartpig_backend.AccountDeletion.Rows.{
  Sealed, Person, Wallet, SentGift, Receiver, KycAttempt, BlindPayBankAccount, BlockchainWallet,
  Onramp, Offramp, EtherfuseCustomer, EtherfuseBankAccount, EtherfuseOrder, AuditLog, Snapshot,
  Derived, Personal, DeletionDb,
}
use smartpig_backend.AccountDeletion.Partners.{scrub_with, scrub_all-eq}
use smartpig_backend.AccountDeletion.Scrub.{
  scrub, scrub_all, scrub_wallet, scrub_receiver, scrub_gift, bury, owns_wallet, sent_by, logged_by,
  is_person, find_receiver, find_customer, deleted_name, delete_each, closed_status, clear_deposit,
  clear_withdrawal, clear_onramp, clear_offramp, clear_log, clear_attempt, clear_account,
  seal_address, clear_bank_account, clear_order, tombstone, delete_derived, scrub_audit_logs,
  scrub_gifts, scrub_ramps, scrub_intents, scrub_wallets, scrub_of_receiver, scrub_of_customer,
}

-- No column of the user tells who it was.
abbrev pub IsBuried : Person → Type 0
IsBuried u =
    (u.name ≡ none)
    × (u.email ≡ none)
    × (u.avatar_url ≡ none)
    × (u.google_id ≡ none)
    × (u.apple_id ≡ none)
    × (u.username ≡ none)
    × (u.is_onboarded ≡ false)
    × (u.experience_mode ≡ none)

abbrev pub IsScrubbedWallet : Wallet → Type 0
IsScrubbedWallet w =
    (w.stellar_address ≡ Sealed.deleted w.id)
    × (w.label ≡ none)
    × (w.activation_unsigned_xdr ≡ none)
    × (w.activation_error_message ≡ none)
    × (w.is_active ≡ false)

-- The link of the gift is dead, and no row waits to be funded.
abbrev pub IsScrubbedGift : SentGift → Type 0
IsScrubbedGift g =
    (g.code ≡ Sealed.deleted g.id) × (g.error_message ≡ none) × (g.status ≢ GiftStatus.created)

abbrev pub HasNoDepositXdr : DepositIntent → Type 0
HasNoDepositXdr d = (d.unsigned_xdr ≡ none) × (d.signed_xdr ≡ none)

abbrev pub HasNoWithdrawalXdr : WithdrawalIntent → Type 0
HasNoWithdrawalXdr w = (w.unsigned_xdr ≡ none) × (w.signed_xdr ≡ none)

abbrev pub HasNoPixCode : Onramp → Type 0
HasNoPixCode r = (r.pix_code ≡ none) × (r.error_message ≡ none)

abbrev pub HasNoDelegation : Offramp → Type 0
HasNoDelegation r =
    (r.unsigned_delegation_xdr ≡ none)
    × (r.signed_delegation_hash ≡ none)
    × (r.error_message ≡ none)

abbrev pub IsAnonymousLog : AuditLog → Type 0
IsAnonymousLog l = (l.ip_address ≡ none) × (l.user_agent ≡ none) × (l.payload ≡ none)

abbrev pub IsAnonymousReceiver : Receiver → Type 0
IsAnonymousReceiver x =
    (x.tax_id ≡ none)
    × (x.name ≡ some deleted_name)
    × (x.tos_id ≡ none)
    × (x.kyc_warnings ≡ none)
    × (x.rejection_reason ≡ none)

abbrev pub HasNoReason : KycAttempt → Type 0
HasNoReason a = (a.rejection_reason ≡ none) × (a.warnings ≡ none)

abbrev pub HasNoPixKey : BlindPayBankAccount → Type 0
HasNoPixKey a = a.pix_key ≡ none

abbrev pub HasSealedAddress : BlockchainWallet → Type 0
HasSealedAddress w = w.address ≡ Sealed.deleted w.id

abbrev pub HasNoBankData : EtherfuseBankAccount → Type 0
HasNoBankData a = (a.clabe ≡ none) × (a.pix_key ≡ none) × (a.pix_key_type ≡ none)

abbrev pub HasNoBurnXdr : EtherfuseOrder → Type 0
HasNoBurnXdr o = (o.unsigned_burn_xdr ≡ none) × (o.signed_burn_xdr ≡ none)

-- The rows of one partner about its receiver.
abbrev pub IsForgottenReceiver : Option Receiver → Personal → Type 0
IsForgottenReceiver none db = Unit
IsForgottenReceiver (some r) db =
    All (λ x. (x.id == r.id) ≡ true → IsAnonymousReceiver x) db.receivers
    × All (λ a. (a.receiver_id == r.id) ≡ true → HasNoReason a) db.kyc_attempts
    × All (λ a. (a.receiver_id == r.id) ≡ true → HasNoPixKey a) db.blindpay_accounts
    × All (λ w. (w.receiver_id == r.id) ≡ true → HasSealedAddress w) db.blockchain_wallets

-- The rows of the other partner about its customer.
abbrev pub IsForgottenCustomer : Option EtherfuseCustomer → Personal → Type 0
IsForgottenCustomer none db = Unit
IsForgottenCustomer (some c) db =
    All (λ a. (a.customer_id == c.id) ≡ true → HasNoBankData a) db.etherfuse_accounts
    × All (λ o. (o.customer_id == c.id) ≡ true → HasNoBurnXdr o) db.etherfuse_orders

-- The rows of the user, in the tables of this service alone.
abbrev pub IsErasedHere : ℕ → Personal → Type 0
IsErasedHere user db =
    All (λ u. is_person user u ≡ true → IsBuried u) db.users
    × All (λ w. owns_wallet user w ≡ true → IsScrubbedWallet w) db.wallets
    × All (λ d. (d.user_id == user) ≡ true → HasNoDepositXdr d) db.deposits
    × All (λ w. (w.user_id == user) ≡ true → HasNoWithdrawalXdr w) db.withdrawals
    × All (λ r. (r.user_id == user) ≡ true → HasNoPixCode r) db.onramps
    × All (λ r. (r.user_id == user) ≡ true → HasNoDelegation r) db.offramps
    × All (λ g. sent_by user g ≡ true → IsScrubbedGift g) db.gifts
    × All (λ l. logged_by user l ≡ true → IsAnonymousLog l) db.audit_logs

-- No row of the user is in a table that is derived from its activity.
abbrev pub IsGone : ℕ → Derived → Type 0
IsGone user d =
    (includes user d.vault_unlocks ≡ false)
    × (includes user d.reward_unlocks ≡ false)
    × (includes user d.xp_entries ≡ false)
    × (includes user d.xp_accounts ≡ false)
    × (includes user d.question_progress ≡ false)
    × (includes user d.module_progress ≡ false)
    × (includes user d.refresh_tokens ≡ false)
    × (includes user d.push_devices ≡ false)
    × (includes user d.notifications ≡ false)
    × (includes user d.notification_preferences ≡ false)

delete_each-IsGone : (user : ℕ) (d : Derived) → IsGone user (delete_each user d)
delete_each-IsGone user d = (
  includes-filter user d.vault_unlocks,
  includes-filter user d.reward_unlocks,
  includes-filter user d.xp_entries,
  includes-filter user d.xp_accounts,
  includes-filter user d.question_progress,
  includes-filter user d.module_progress,
  includes-filter user d.refresh_tokens,
  includes-filter user d.push_devices,
  includes-filter user d.notifications,
  includes-filter user d.notification_preferences,
)

closed_status-ne-created : (s : GiftStatus) → closed_status s ≢ GiftStatus.created
closed_status-ne-created GiftStatus.created h = cc
closed_status-ne-created s h = cc

without_partners :
    (now user : ℕ) (db : Personal) → IsErasedHere user (scrub_with none none now user db)
unfolding scrub_with tombstone delete_derived scrub_audit_logs scrub_gifts scrub_ramps scrub_intents
    scrub_wallets
without_partners now user db = (
  All-update_accepted IsBuried (is_person user) (bury now) db.users (λ u. ground arith),
  All-update_accepted IsScrubbedWallet (owns_wallet user) scrub_wallet db.wallets
      (λ w. ground arith),
  All-update_accepted HasNoDepositXdr (λ d. d.user_id == user) (clear_deposit now) db.deposits
      (λ d. ground arith),
  All-update_accepted HasNoWithdrawalXdr (λ w. w.user_id == user) (clear_withdrawal now)
      db.withdrawals (λ w. ground arith),
  All-update_accepted HasNoPixCode (λ r. r.user_id == user) clear_onramp db.onramps
      (λ d. ground arith),
  All-update_accepted HasNoDelegation (λ r. r.user_id == user) clear_offramp db.offramps
      (λ d. ground arith),
  All-update_accepted IsScrubbedGift (sent_by user) scrub_gift db.gifts
      (λ g. (refl, refl, closed_status-ne-created g.status)),
  All-update_accepted IsAnonymousLog (logged_by user) clear_log db.audit_logs (λ l. ground arith),
)

-- The rows of the user are erased whichever partners know it.
scrub_with-IsErasedHere :
    (r : Option Receiver) (c : Option EtherfuseCustomer) (now user : ℕ) (db : Personal)
    → IsErasedHere user (scrub_with r c now user db)
unfolding scrub_with tombstone delete_derived scrub_audit_logs scrub_gifts scrub_ramps scrub_intents
    scrub_wallets scrub_of_receiver scrub_of_customer
scrub_with-IsErasedHere none none now user db = without_partners now user db
scrub_with-IsErasedHere none (some c) now user db = without_partners now user db
scrub_with-IsErasedHere (some r) none now user db = without_partners now user db
scrub_with-IsErasedHere (some r) (some c) now user db = without_partners now user db

receiver_forgotten :
    (r : Receiver) (c : Option EtherfuseCustomer) (now user : ℕ) (db : Personal)
    → IsForgottenReceiver (some r) (scrub_with (some r) none now user db)
unfolding scrub_with tombstone delete_derived scrub_audit_logs scrub_gifts scrub_ramps scrub_intents
    scrub_wallets scrub_of_receiver
receiver_forgotten r c now user db = (
  All-update_accepted IsAnonymousReceiver (λ x. x.id == r.id) scrub_receiver db.receivers
      (λ x. ground arith),
  All-update_accepted HasNoReason (λ a. a.receiver_id == r.id) clear_attempt db.kyc_attempts
      (λ a. ground arith),
  All-update_accepted HasNoPixKey (λ a. a.receiver_id == r.id) clear_account db.blindpay_accounts
      (λ a. ground arith),
  All-update_accepted HasSealedAddress (λ w. w.receiver_id == r.id) seal_address
      db.blockchain_wallets (λ w. ground arith),
)

scrub_with-IsForgottenReceiver :
    (r : Option Receiver) (c : Option EtherfuseCustomer) (now user : ℕ) (db : Personal)
    → IsForgottenReceiver r (scrub_with r c now user db)
unfolding scrub_with tombstone delete_derived scrub_audit_logs scrub_gifts scrub_ramps scrub_intents
    scrub_wallets scrub_of_receiver scrub_of_customer
scrub_with-IsForgottenReceiver none c now user db = tt
scrub_with-IsForgottenReceiver (some r) none now user db = receiver_forgotten r none now user db
scrub_with-IsForgottenReceiver (some r) (some c) now user db = receiver_forgotten r none now user db

scrub_with-IsForgottenCustomer :
    (r : Option Receiver) (c : Option EtherfuseCustomer) (now user : ℕ) (db : Personal)
    → IsForgottenCustomer c (scrub_with r c now user db)
unfolding scrub_with tombstone delete_derived scrub_audit_logs scrub_gifts scrub_ramps scrub_intents
    scrub_wallets scrub_of_receiver scrub_of_customer
scrub_with-IsForgottenCustomer r none now user db = tt
scrub_with-IsForgottenCustomer none (some c) now user db = (
  All-update_accepted HasNoBankData (λ a. a.customer_id == c.id) clear_bank_account
      db.etherfuse_accounts (λ a. ground arith),
  All-update_accepted HasNoBurnXdr (λ o. o.customer_id == c.id) clear_order db.etherfuse_orders
      (λ o. ground arith),
)
scrub_with-IsForgottenCustomer (some r) (some c) now user db = (
  All-update_accepted HasNoBankData (λ a. a.customer_id == c.id) clear_bank_account
      db.etherfuse_accounts (λ a. ground arith),
  All-update_accepted HasNoBurnXdr (λ o. o.customer_id == c.id) clear_order db.etherfuse_orders
      (λ o. ground arith),
)

scrub_with-derived :
    (r : Option Receiver) (c : Option EtherfuseCustomer) (now user : ℕ) (db : Personal)
    → (scrub_with r c now user db).derived ≡ delete_each user db.derived
unfolding scrub_with tombstone delete_derived scrub_audit_logs scrub_gifts scrub_ramps scrub_intents
    scrub_wallets scrub_of_receiver scrub_of_customer
scrub_with-derived none none now user db = refl
scrub_with-derived none (some c) now user db = refl
scrub_with-derived (some r) none now user db = refl
scrub_with-derived (some r) (some c) now user db = refl

scrub_with-snapshots :
    (r : Option Receiver) (c : Option EtherfuseCustomer) (now user : ℕ) (db : Personal)
    → (scrub_with r c now user db).snapshots ≡ filter (λ s. not (s.user_id == user)) db.snapshots
unfolding scrub_with tombstone delete_derived scrub_audit_logs scrub_gifts scrub_ramps scrub_intents
    scrub_wallets scrub_of_receiver scrub_of_customer
scrub_with-snapshots none none now user db = refl
scrub_with-snapshots none (some c) now user db = refl
scrub_with-snapshots (some r) none now user db = refl
scrub_with-snapshots (some r) (some c) now user db = refl

-- No deleted row is left.
any?-deleted :
    {A : Type 0} (p : A → Bool) (xs : List A) → any? p (filter (λ a. not (p a)) xs) ≡ false
any?-deleted p [] = refl
any?-deleted p (x ∷ xs) = ground (arith, any?-deleted p xs)

-- Nothing of the user is left: in its rows, with the two partners, and in what was derived from it.
abbrev pub IsErased : ℕ → Personal → Personal → Type 0
IsErased user before after =
    IsErasedHere user after
    × IsForgottenReceiver (find_receiver user before) after
    × IsForgottenCustomer (find_customer user before) after
    × IsGone user after.derived
    × (any? (λ s. s.user_id == user) after.snapshots ≡ false)

scrub_all-IsErased : (now user : ℕ) (db : Personal) → IsErased user db (scrub_all now user db)
scrub_all-IsErased now user db =
    let r = find_receiver user db in
    let c = find_customer user db in
    rw (scrub_all-eq now user db) (
      scrub_with-IsErasedHere r c now user db,
      scrub_with-IsForgottenReceiver r c now user db,
      scrub_with-IsForgottenCustomer r c now user db,
      rw (scrub_with-derived r c now user db) (delete_each-IsGone user db.derived),
      rw (scrub_with-snapshots r c now user db)
          (any?-deleted (λ (s : Snapshot). s.user_id == user) db.snapshots),
    )

-- What the scrub did: all of it, or nothing.
abbrev pub ScrubOutcome : ℕ → DeletionDb → Result (Unit {0}) × DeletionDb → Type 0
ScrubOutcome user before (ok done, after) =
    IsErased user before.personal after.personal × (after.requests ≡ before.requests)
ScrubOutcome user before (err e, after) = after ≡ before

pub scrub-Outcome : (now user : ℕ) (db : DeletionDb) → ScrubOutcome user db (scrub now user db)
unfolding scrub
scrub-Outcome now user db = elim (Option-cases (find? (is_person user) db.personal.users)) [
  | inl missing ↦ rw missing refl
  | inr (person, found) ↦ rw found (scrub_all-IsErased now user db.personal, refl)
]
