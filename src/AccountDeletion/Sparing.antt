-- ===== src/AccountDeletion/Sparing.antt =====
-- What the scrub spares (src/account-deletion/scrub.service.ts).
use smartpig_backend.Common.{
  ℕ, ◌≡◌, refl, Bool, not, Option, none, some, List, ◌==◌, find?, filter, Option-cases, inl, inr,
  filter-update_where, filter-filter,
}
use smartpig_backend.AccountDeletion.Rows.{Receiver, EtherfuseCustomer, Personal, DeletionDb}
use smartpig_backend.AccountDeletion.Partners.{scrub_with, scrub_all-eq}
use smartpig_backend.AccountDeletion.Scrub.{
  scrub, scrub_wallet, scrub_gift, bury, owns_wallet, sent_by, logged_by, is_person, find_receiver,
  find_customer, clear_deposit, clear_withdrawal, clear_onramp, clear_offramp, clear_log, tombstone,
  delete_derived, scrub_audit_logs, scrub_gifts, scrub_ramps, scrub_intents, scrub_wallets,
  scrub_of_receiver, scrub_of_customer,
}

-- The rows that a test does not accept are the same.
abbrev SameOthers : {A : Type 0} → (A → Bool) → List A → List A → Type 0
SameOthers p before after = filter (λ a. not (p a)) after ≡ filter (λ a. not (p a)) before

abbrev is_owner : ℕ → ℕ → Bool
is_owner user owner = owner == user

abbrev pub IsSpared : ℕ → Personal → Personal → Type 0
IsSpared user before after =
    SameOthers (is_person user) before.users after.users
    × SameOthers (owns_wallet user) before.wallets after.wallets
    × SameOthers (λ d. d.user_id == user) before.deposits after.deposits
    × SameOthers (λ w. w.user_id == user) before.withdrawals after.withdrawals
    × SameOthers (λ r. r.user_id == user) before.onramps after.onramps
    × SameOthers (λ r. r.user_id == user) before.offramps after.offramps
    × SameOthers (sent_by user) before.gifts after.gifts
    × SameOthers (logged_by user) before.audit_logs after.audit_logs
    × SameOthers (is_owner user) before.derived.vault_unlocks after.derived.vault_unlocks
    × SameOthers (is_owner user) before.derived.reward_unlocks after.derived.reward_unlocks
    × SameOthers (is_owner user) before.derived.xp_entries after.derived.xp_entries
    × SameOthers (is_owner user) before.derived.xp_accounts after.derived.xp_accounts
    × SameOthers (is_owner user) before.derived.question_progress after.derived.question_progress
    × SameOthers (is_owner user) before.derived.module_progress after.derived.module_progress
    × SameOthers (is_owner user) before.derived.refresh_tokens after.derived.refresh_tokens
    × SameOthers (is_owner user) before.derived.push_devices after.derived.push_devices
    × SameOthers (is_owner user) before.derived.notifications after.derived.notifications
    × SameOthers (is_owner user) before.derived.notification_preferences
        after.derived.notification_preferences
    × SameOthers (λ s. s.user_id == user) before.snapshots after.snapshots
    × (after.transactions ≡ before.transactions)

without_partners :
    (now user : ℕ) (db : Personal) → IsSpared user db (scrub_with none none now user db)
unfolding scrub_with tombstone delete_derived scrub_audit_logs scrub_gifts scrub_ramps scrub_intents
    scrub_wallets
without_partners now user db = (
  filter-update_where (is_person user) (bury now) db.users (λ u. refl),
  filter-update_where (owns_wallet user) scrub_wallet db.wallets (λ w. refl),
  filter-update_where (λ d. d.user_id == user) (clear_deposit now) db.deposits (λ d. refl),
  filter-update_where (λ w. w.user_id == user) (clear_withdrawal now) db.withdrawals (λ w. refl),
  filter-update_where (λ r. r.user_id == user) clear_onramp db.onramps (λ r. refl),
  filter-update_where (λ r. r.user_id == user) clear_offramp db.offramps (λ r. refl),
  filter-update_where (sent_by user) scrub_gift db.gifts (λ g. refl),
  filter-update_where (logged_by user) clear_log db.audit_logs (λ l. refl),
  filter-filter (λ o. not (o == user)) db.derived.vault_unlocks,
  filter-filter (λ o. not (o == user)) db.derived.reward_unlocks,
  filter-filter (λ o. not (o == user)) db.derived.xp_entries,
  filter-filter (λ o. not (o == user)) db.derived.xp_accounts,
  filter-filter (λ o. not (o == user)) db.derived.question_progress,
  filter-filter (λ o. not (o == user)) db.derived.module_progress,
  filter-filter (λ o. not (o == user)) db.derived.refresh_tokens,
  filter-filter (λ o. not (o == user)) db.derived.push_devices,
  filter-filter (λ o. not (o == user)) db.derived.notifications,
  filter-filter (λ o. not (o == user)) db.derived.notification_preferences,
  filter-filter (λ s. not (s.user_id == user)) db.snapshots,
  refl,
)

scrub_with-IsSpared :
    (r : Option Receiver) (c : Option EtherfuseCustomer) (now user : ℕ) (db : Personal)
    → IsSpared user db (scrub_with r c now user db)
unfolding scrub_with tombstone delete_derived scrub_audit_logs scrub_gifts scrub_ramps scrub_intents
    scrub_wallets scrub_of_receiver scrub_of_customer
scrub_with-IsSpared none none now user db = without_partners now user db
scrub_with-IsSpared none (some c) now user db = without_partners now user db
scrub_with-IsSpared (some r) none now user db = without_partners now user db
scrub_with-IsSpared (some r) (some c) now user db = without_partners now user db

-- Whatever the scrub does, the rows of the other users are as they were, in the tables listed in
-- `IsSpared`, and no transaction record changes.
pub scrub-IsSpared :
    (now user : ℕ) (db : DeletionDb) → IsSpared user db.personal (scrub now user db).1.personal
unfolding scrub
scrub-IsSpared now user db = elim (Option-cases (find? (is_person user) db.personal.users)) [
  | inl missing ↦ rw missing (
    refl, refl, refl, refl, refl, refl, refl, refl, refl, refl, refl, refl, refl, refl, refl, refl,
    refl, refl, refl, refl,
  )
  | inr (person, found) ↦ rw found (
      rw (scrub_all-eq now user db.personal) (
        scrub_with-IsSpared (find_receiver user db.personal) (find_customer user db.personal) now
          user db.personal))
]
