-- ===== src/AccountDeletion/Partners.antt =====
-- The scrub by the rows of the two partners that it finds (src/account-deletion/scrub.service.ts).
use smartpig_backend.Common.{ℕ, ◌≡◌, refl, Option, none, some}
use smartpig_backend.AccountDeletion.Rows.{Receiver, EtherfuseCustomer, Personal}
use smartpig_backend.AccountDeletion.Scrub.{
  scrub_all, find_receiver, find_customer, tombstone, delete_derived, scrub_audit_logs, scrub_gifts,
  scrub_found_customer, scrub_ramps, scrub_intents, scrub_found_receiver, scrub_wallets,
  scrub_of_receiver, scrub_blindpay, scrub_etherfuse,
}

-- The scrub, from the receiver and the customer that it finds.
unfoldable pub scrub_with : Option Receiver → Option EtherfuseCustomer → ℕ → ℕ → Personal → Personal
scrub_with r c now user db = tombstone now user (
    delete_derived user (
      scrub_audit_logs user (
        scrub_gifts user (
          scrub_found_customer c (
            scrub_ramps user
              (scrub_intents now user (scrub_found_receiver r (scrub_wallets user db))))))))

receiver_kept :
    (user : ℕ) (db : Personal) → find_receiver user (scrub_wallets user db) ≡ find_receiver user db
unfolding scrub_wallets find_receiver
receiver_kept user db = refl

customer_kept :
    (now user : ℕ) (r : Option Receiver) (db : Personal)
    → find_customer user
        (scrub_ramps user (scrub_intents now user (scrub_found_receiver r (scrub_wallets user db))))
      ≡ find_customer user db
unfolding find_customer scrub_ramps scrub_intents scrub_of_receiver scrub_wallets
customer_kept now user none db = refl
customer_kept now user (some r) db = refl

pub scrub_all-eq :
    (now user : ℕ) (db : Personal)
    → scrub_all now user db ≡ scrub_with (find_receiver user db) (find_customer user db) now user db
unfolding scrub_all scrub_blindpay scrub_etherfuse scrub_with
scrub_all-eq now user db =
    rw (receiver_kept user db, customer_kept now user (find_receiver user db) db)
