-- ===== src/AccountDeletion/Requests.antt =====
-- The request to delete an account, and its confirmation (src/account-deletion/account-deletion.service.ts).
-- The network, the two partners and their clocks are parameters.
use smartpig_backend.Common.{
  ℕ, ◌+◌, Bool, true, false, ◌&&◌, not, Option, none, some, List, ◌∷◌, String, ◌==◌, if◌then◌else◌,
  find?, find_latest, update_where, is_present, get_or_else, http, ErrorKind, Exception, Result, ok,
  err, Action, pure, throw, gets, modify, lift, or_throw, throw_if, ◌>>=◌, ◌>>◌,
}
use smartpig_backend.Schema.Intents.{Decimal}
use smartpig_backend.Intents.Rows.{record_not_found}
use smartpig_backend.AccountDeletion.Rows.{
  DeletionStatus, DeletionRequest, Sealed, Wallet, Receiver, DeletionDb,
}
use smartpig_backend.AccountDeletion.Eligibility.{Balances, Eligibility, find_closing_wallet, check}
use smartpig_backend.AccountDeletion.Scrub.{find_receiver, scrub}

pub record Closure : Type 0 where
  pub xdr : String
  pub swept_amount : Option Decimal
  pub swept_asset_symbol : Option String

pub record DeletionServices : Type 0 where
  pub balances : Balances
  pub allowed_vault_ids : List ℕ
  pub build_account_closure_xdr : Sealed String → Result Closure
  pub submit_fee_bump_transaction : String → String → Result String
  -- `blindpay.deleteCustomer`
  pub delete_customer : String → Result (Unit {0})
  -- `identity.deleteUser`
  pub delete_user : String → Result (Unit {0})

abbrev pub other_account : Exception
other_account = http ErrorKind.forbidden "This request belongs to another account"

abbrev pub not_eligible : Exception
not_eligible = http ErrorKind.conflict "Account is not eligible for deletion"

abbrev pub request_not_found : Exception
request_not_found = http ErrorKind.not_found "Deletion request not found"

abbrev pub deletion_failed : Option String → Exception
deletion_failed message =
    http ErrorKind.conflict (get_or_else message "This deletion request failed")

abbrev pub must_be_signed : Exception
must_be_signed =
    http ErrorKind.bad_request "The closure transaction must be signed before confirming"

-- `TX_TIMEOUT_SECONDS * 1000`
abbrev pub tx_timeout_ms : ℕ
tx_timeout_ms = 600000

pub record RequestDeletionResult : Type 0 where
  pub request_id : ℕ
  pub closure_xdr : Option String
  pub swept_to_treasury : Decimal
  pub permanently_lost : Decimal
  pub expires_at : ℕ

abbrev pub to_request_result : DeletionRequest → Eligibility → RequestDeletionResult
to_request_result r e = record {
  request_id = r.id;
  closure_xdr = r.closure_unsigned_xdr;
  swept_to_treasury = e.swept_to_treasury;
  permanently_lost = e.permanently_lost;
  expires_at = r.created_at + tx_timeout_ms;
}

abbrev pub find_request : ℕ → DeletionDb → Option DeletionRequest
find_request id db = find? (λ r. r.id == id) db.requests

abbrev pub find_request_by_key : ℕ → DeletionDb → Option DeletionRequest
find_request_by_key key db = find? (λ r. r.idempotency_key == key) db.requests

abbrev pub is_open : DeletionStatus → Bool
is_open DeletionStatus.requested = true
is_open DeletionStatus.pending_signature = true
is_open _ = false

abbrev pub find_open_request : ℕ → DeletionDb → Option DeletionRequest
find_open_request user db =
    find_latest (λ r. r.user_id == user && is_open r.status) (λ r. r.created_at) db.requests

abbrev pub has_id : ℕ → DeletionRequest → Bool
has_id id r = r.id == id

-- `update`, with `@updatedAt`
abbrev pub touch : ℕ → (DeletionRequest → DeletionRequest) → DeletionRequest → DeletionRequest
touch now f r = record (f r) { updated_at = now }

unfoldable pub set_request : ℕ → ℕ → (DeletionRequest → DeletionRequest) → DeletionDb → DeletionDb
set_request now id f db = record db {
  requests = update_where (has_id id) (touch now f) db.requests;
}

unfoldable pub update_request :
    ℕ → ℕ → (DeletionRequest → DeletionRequest) → Action DeletionDb (Unit {0})
update_request now id f = do
  old ← or_throw (← gets (find_request id)) record_not_found
  modify (set_request now id f)

abbrev pub new_request : ℕ → ℕ → String → ℕ → DeletionRequest
new_request now user privy key = record {
  id = 0;
  idempotency_key = key;
  user_id = user;
  privy_user_id = some privy;
  status = DeletionStatus.requested;
  closure_unsigned_xdr = none;
  closure_tx_hash = none;
  swept_amount = none;
  swept_asset_symbol = none;
  accepted_at = none;
  blindpay_deleted_at = none;
  privy_deleted_at = none;
  cleanup_attempts = 0;
  error_message = none;
  created_at = now;
  updated_at = now;
}

unfoldable pub insert_request : DeletionRequest → Action DeletionDb DeletionRequest
insert_request r db = (
  ok (record r { id = db.next_id }),
  record db { requests = record r { id = db.next_id } ∷ db.requests; next_id = db.next_id + 1 },
)

abbrev pub is_activated : Option Wallet → Bool
is_activated none = false
is_activated (some w) = w.is_activated

abbrev pub await_signature : Closure → DeletionRequest → DeletionRequest
await_signature c r = record r {
  status = DeletionStatus.pending_signature;
  closure_unsigned_xdr = some c.xdr;
  swept_amount = c.swept_amount;
  swept_asset_symbol = c.swept_asset_symbol;
}

abbrev pub close_chain : String → DeletionRequest → DeletionRequest
close_chain hash r = record r { status = DeletionStatus.chain_closed; closure_tx_hash = some hash }

abbrev pub fail_with : String → DeletionRequest → DeletionRequest
fail_with message r = record r { status = DeletionStatus.failed; error_message = some message }

abbrev pub mark_scrubbed : ℕ → DeletionRequest → DeletionRequest
mark_scrubbed now r = record r { status = DeletionStatus.local_scrubbed; accepted_at = some now }

-- The external deletions that landed; both complete the request, which then forgets the provider's id.
abbrev pub record_cleanup : ℕ → Bool → Bool → DeletionRequest → DeletionRequest
record_cleanup now blindpay privy r = record r {
  blindpay_deleted_at = if blindpay then some now else r.blindpay_deleted_at;
  privy_deleted_at = if privy then some now else r.privy_deleted_at;
  status = if blindpay && privy then DeletionStatus.completed else r.status;
  privy_user_id = if blindpay && privy then none else r.privy_user_id;
}

abbrev pub is_failed : DeletionStatus → Bool
is_failed DeletionStatus.failed = true
is_failed _ = false

abbrev pub is_sibling : ℕ → ℕ → DeletionRequest → Bool
is_sibling user id r = r.user_id == user && not (r.id == id) && not (is_failed r.status)

-- `updateMany`, with `@updatedAt`
abbrev pub forget_provider : ℕ → DeletionRequest → DeletionRequest
forget_provider now r = record r { privy_user_id = none; updated_at = now }

unfoldable pub forget_siblings : ℕ → ℕ → ℕ → DeletionDb → DeletionDb
forget_siblings now user id db = record db {
  requests = update_where (is_sibling user id) (forget_provider now) db.requests;
}

abbrev pub succeeded : {A : Type 0} → Result A → Bool
succeeded (ok a) = true
succeeded (err e) = false

pub record ConfirmDeletionResult : Type 0 where
  pub status : DeletionStatus
  pub deleted_at : ℕ

module _ (services : DeletionServices) (now : ℕ) where
  open services use {
    balances, allowed_vault_ids, build_account_closure_xdr, submit_fee_bump_transaction,
    delete_customer, delete_user,
  }

  unfoldable pub check_deletion : ℕ → Action DeletionDb Eligibility
  check_deletion user db = (check balances allowed_vault_ids user db, db)

  abbrev pub sealed_address : Option Wallet → Sealed String
  sealed_address none = Sealed.kept ""
  sealed_address (some w) = w.stellar_address

  -- The closure is built again for a request that was open.
  unfoldable pub prepare_closure :
      Option Wallet → DeletionRequest → Eligibility → Action DeletionDb RequestDeletionResult
  prepare_closure wallet r e =
      if is_activated wallet
      then (do
        closure ← lift (build_account_closure_xdr (sealed_address wallet))
        update_request now r.id (await_signature closure)
        pure (to_request_result (await_signature closure r) e))
      else pure (to_request_result r e)

  unfoldable pub open_request :
      ℕ → String → ℕ → Option DeletionRequest → Action DeletionDb DeletionRequest
  open_request user privy key (some r) = pure r
  open_request user privy key none = insert_request (new_request now user privy key)

  unfoldable pub request_new : ℕ → String → ℕ → Action DeletionDb RequestDeletionResult
  request_new user privy key = do
    e ← check_deletion user
    throw_if (not e.eligible) not_eligible
    wallet ← gets (λ db. find_closing_wallet user db.personal)
    r ← open_request user privy key (← gets (find_open_request user))
    prepare_closure wallet r e

  unfoldable pub answer_request : ℕ → DeletionRequest → Action DeletionDb RequestDeletionResult
  answer_request user r = do
    throw_if (not (r.user_id == user)) other_account
    e ← check_deletion user
    pure (to_request_result r e)

  unfoldable pub request_deletion : ℕ → String → ℕ → Action DeletionDb RequestDeletionResult
  request_deletion user privy key = do
    existing ← gets (find_request_by_key key)
    elim existing [ some r ↦ answer_request user r | none ↦ request_new user privy key ]

  -- A receiver that is not there counts as deleted; a failure is left to the job.
  abbrev pub delete_receiver : Option Receiver → Bool
  delete_receiver none = true
  delete_receiver (some r) = succeeded (delete_customer r.blindpay_receiver_id)

  unfoldable pub clean_up_externals : ℕ → ℕ → String → Action DeletionDb (Unit {0})
  clean_up_externals id user privy = do
    receiver ← gets (λ db. find_receiver user db.personal)
    modify (λ db.
        if delete_receiver receiver && succeeded (delete_user privy)
        then forget_siblings now user id db
        else db)
    update_request now id
        (record_cleanup now (delete_receiver receiver) (succeeded (delete_user privy)))

  unfoldable pub settle_closure : ℕ → Result String → Action DeletionDb (Unit {0})
  settle_closure id (ok hash) = update_request now id (close_chain hash)
  settle_closure id (err e) = do
    update_request now id (fail_with e.message)
    throw (http ErrorKind.service_unavailable e.message)

  -- The closure on the chain, where the request has one.
  unfoldable pub close_on_chain : DeletionRequest → Option String → Action DeletionDb (Unit {0})
  close_on_chain r signed =
      if is_present r.closure_unsigned_xdr
      then (do
        throw_if (not (is_present signed)) must_be_signed
        settle_closure r.id (
            submit_fee_bump_transaction (get_or_else signed "")
              (get_or_else r.closure_unsigned_xdr "")))
      else pure tt

  -- After the scrub.
  unfoldable pub finish_scrubbed :
      DeletionRequest → ℕ → String → Action DeletionDb ConfirmDeletionResult
  finish_scrubbed r user privy = do
    update_request now r.id (mark_scrubbed now)
    clean_up_externals r.id user privy
    done ← or_throw (← gets (find_request r.id)) record_not_found
    pure (record { status = done.status; deleted_at = done.updated_at })

  unfoldable pub finish_deletion :
      DeletionRequest → ℕ → String → Action DeletionDb ConfirmDeletionResult
  finish_deletion r user privy = do scrub now user; finish_scrubbed r user privy

  unfoldable pub carry_out :
      DeletionRequest → ℕ → String → Option String → Action DeletionDb ConfirmDeletionResult
  carry_out r user privy signed = do
    e ← check_deletion user
    throw_if (not e.eligible) not_eligible
    close_on_chain r signed
    finish_deletion r user privy

  -- A deletion that is done is answered again; one that failed is refused.
  unfoldable pub confirm_by_status :
      DeletionStatus
      → DeletionRequest
      → ℕ
      → String
      → Option String
      → Action DeletionDb ConfirmDeletionResult
  confirm_by_status DeletionStatus.completed r user privy signed =
      pure (record { status = r.status; deleted_at = r.updated_at })
  confirm_by_status DeletionStatus.failed r user privy signed =
      throw (deletion_failed r.error_message)
  confirm_by_status _ r user privy signed = carry_out r user privy signed

  unfoldable pub confirm_deletion :
      ℕ → String → ℕ → Option String → Action DeletionDb ConfirmDeletionResult
  confirm_deletion user privy id signed = do
    r ← or_throw (← gets (find_request id)) request_not_found
    throw_if (not (r.user_id == user)) other_account
    confirm_by_status r.status r user privy signed
