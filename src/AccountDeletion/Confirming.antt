-- ===== src/AccountDeletion/Confirming.antt =====
-- What a confirmation does (src/account-deletion/account-deletion.service.ts: confirmDeletion).
use smartpig_backend.Common.{
  ℕ, ◌≡◌, refl, Bool, true, false, not, Option, none, some, String, ◌==◌, ==_iff, arith, ap, find?,
  find?-accepts, Option-cases, Bool-cases, inl, inr, ◌⊎◌, ◌∙◌, ◌>>◌, throw_if, sym, subst,
  get_or_else, Result, ok, err, Found,
}
use smartpig_backend.AccountDeletion.Rows.{DeletionStatus, DeletionRequest, DeletionDb}
use smartpig_backend.AccountDeletion.Scrub.{scrub}
use smartpig_backend.AccountDeletion.Eligibility.{Eligibility, check}
use smartpig_backend.AccountDeletion.Erasure.{IsErased, ScrubOutcome, scrub-Outcome}
use smartpig_backend.AccountDeletion.Requests.{
  DeletionServices, ConfirmDeletionResult, has_id, touch, set_request, find_request, close_chain,
  fail_with, mark_scrubbed, record_cleanup, not_eligible, finish_scrubbed, settle_closure,
  close_on_chain, finish_deletion, carry_out, confirm_by_status, confirm_deletion, check_deletion,
}
use smartpig_backend.AccountDeletion.Forgetting.{scrub-requests}
use smartpig_backend.AccountDeletion.Cleaning.{
  update_request-found, find_request-set_request, set_request-personal, cleaned-found,
  deletes_receiver, deletes_user, clean_up_externals-found,
}

-- The request after a confirmation that answered: scrubbed, or completed and without the provider's id.
abbrev IsConfirmed : ℕ → ConfirmDeletionResult → DeletionRequest → Type 0
IsConfirmed now a r =
    (r.status ≡ a.status)
    × (r.accepted_at ≡ some now)
    × ((r.status ≡ DeletionStatus.local_scrubbed)
        ⊎ ((r.status ≡ DeletionStatus.completed) × (r.privy_user_id ≡ none)))

-- The end of a confirmation: all is erased, or nothing.
abbrev FinishOutcome : ℕ → ℕ → ℕ → DeletionDb → Result ConfirmDeletionResult × DeletionDb → Type 0
FinishOutcome now id user before (ok a, after) =
    IsErased user before.personal after.personal × Found (find_request id after) (IsConfirmed now a)
FinishOutcome now id user before (err e, after) = after.personal ≡ before.personal

marked_status :
    (now : ℕ) (blindpay privy : Bool) (r : DeletionRequest)
    → let done = touch now (record_cleanup now blindpay privy) (touch now (mark_scrubbed now) r) in
      IsConfirmed now (record { status = done.status; deleted_at = done.updated_at }) done
marked_status now true true r = ground arith
marked_status now true false r = ground arith
marked_status now false privy r = ground arith

abbrev ScrubbedOutcome : ℕ → ℕ → DeletionDb → Result ConfirmDeletionResult × DeletionDb → Type 0
ScrubbedOutcome now id before (ok a, after) =
    (after.personal ≡ before.personal) × Found (find_request id after) (IsConfirmed now a)
ScrubbedOutcome now id before (err e, after) = ⊥

module _ (services : DeletionServices) (now : ℕ) where
  finish_scrubbed-Outcome :
      (r : DeletionRequest) (user : ℕ) (privy : String) (db : DeletionDb) (q : DeletionRequest)
      → find_request r.id db ≡ some q
      → ScrubbedOutcome now r.id db (finish_scrubbed services now r user privy db)
  unfolding finish_scrubbed
  finish_scrubbed-Outcome r user privy db q found =
      let marked = set_request now r.id (mark_scrubbed now) db in
      let there = find_request-set_request now r.id (mark_scrubbed now) (λ x. refl) db found in
      let b = deletes_receiver services now user marked in
      let p = deletes_user services now privy in
      ground (
        arith,
        update_request-found now r.id (mark_scrubbed now) (λ x. refl) db found,
        clean_up_externals-found services now r.id user privy marked there,
        cleaned-found now r.id user b p marked there,
        set_request-personal now r.id (mark_scrubbed now) db,
        marked_status now b p q,
      )

  -- From the erasure to the answer.
  erased_outcome :
      (id user : ℕ) (before w : DeletionDb) (p : Result ConfirmDeletionResult × DeletionDb)
      → IsErased user before.personal w.personal
      → ScrubbedOutcome now id w p
      → FinishOutcome now id user before p
  erased_outcome id user before w (ok a, after) erased o =
      (subst (IsErased user before.personal) (sym o.0) erased, o.1)
  erased_outcome id user before w (err e, after) erased o = absurd o

  after_scrub :
      (r : DeletionRequest) (user : ℕ) (privy : String) (db : DeletionDb) (q : DeletionRequest)
      (p : Result (Unit {0}) × DeletionDb)
      → find_request r.id p.1 ≡ some q
      → ScrubOutcome user db p
      → FinishOutcome now r.id user db
          (elim p.0 [ ok a ↦ finish_scrubbed services now r user privy p.1 | err e ↦ (err e, p.1) ])
  after_scrub r user privy db q (ok done, w) found o =
      erased_outcome r.id user db w (finish_scrubbed services now r user privy w) o.0
        (finish_scrubbed-Outcome r user privy w q found)
  after_scrub r user privy db q (err e, w) found o = ap (λ (x : DeletionDb). x.personal) o

  finish_deletion-Outcome :
      (r : DeletionRequest) (user : ℕ) (privy : String) (db : DeletionDb) (q : DeletionRequest)
      → find_request r.id db ≡ some q
      → FinishOutcome now r.id user db (finish_deletion services now r user privy db)
  unfolding finish_deletion
  finish_deletion-Outcome r user privy db q found =
      after_scrub r user privy db q (scrub now user db)
        (subst (λ rows. find? (has_id r.id) rows ≡ some q) (sym (scrub-requests now user db)) found)
        (scrub-Outcome now user db)

  -- The step on the chain: it leaves the personal data, and the request where it was.
  abbrev CloseOutcome : ℕ → DeletionDb → Result (Unit {0}) × DeletionDb → Type 0
  CloseOutcome id before (r, after) =
      (after.personal ≡ before.personal) × Found (find_request id after) (λ q. Unit)

  settle_closure-Outcome :
      (id : ℕ) (answer : Result String) (db : DeletionDb) (q : DeletionRequest)
      → find_request id db ≡ some q
      → CloseOutcome id db (settle_closure services now id answer db)
  unfolding settle_closure
  settle_closure-Outcome id (ok hash) db q found = ground (
    arith,
    update_request-found now id (close_chain hash) (λ x. refl) db found,
    find_request-set_request now id (close_chain hash) (λ x. refl) db found,
    set_request-personal now id (close_chain hash) db,
  )
  settle_closure-Outcome id (err e) db q found = ground (
    arith,
    update_request-found now id (fail_with e.message) (λ x. refl) db found,
    find_request-set_request now id (fail_with e.message) (λ x. refl) db found,
    set_request-personal now id (fail_with e.message) db,
  )

  close_on_chain-Outcome :
      (r : DeletionRequest) (signed : Option String) (db : DeletionDb) (q : DeletionRequest)
      → find_request r.id db ≡ some q
      → CloseOutcome r.id db (close_on_chain services now r signed db)
  unfolding close_on_chain
  close_on_chain-Outcome r signed db q found = ground (
    arith,
    found,
    settle_closure-Outcome r.id
        (services.submit_fee_bump_transaction (get_or_else signed "")
          (get_or_else r.closure_unsigned_xdr ""))
        db q found,
  )

  -- The outcome reads the personal data before it alone.
  finish_from :
      (id user : ℕ) (before between : DeletionDb) (p : Result ConfirmDeletionResult × DeletionDb)
      → between.personal ≡ before.personal
      → FinishOutcome now id user between p
      → FinishOutcome now id user before p
  finish_from id user before between (ok a, after) same o =
      (subst (λ personal. IsErased user personal after.personal) same o.0, o.1)
  finish_from id user before between (err e, after) same o = o ∙ same

  after_close :
      (r : DeletionRequest) (user : ℕ) (privy : String) (db : DeletionDb)
      (p : Result (Unit {0}) × DeletionDb)
      → CloseOutcome r.id db p
      → FinishOutcome now r.id user db
          (elim p.0 [ ok a ↦ finish_deletion services now r user privy p.1 | err e ↦ (err e, p.1) ])
  after_close r user privy db (ok done, w) o = elim (Option-cases (find_request r.id w)) [
    | inl missing ↦ absurd (subst (λ x. Found x (λ q. Unit)) missing o.1)
    | inr (q, found) ↦
        finish_from r.id user db w (finish_deletion services now r user privy w) o.0
          (finish_deletion-Outcome r user privy w q found)
  ]
  after_close r user privy db (err e, w) o = o.0

  closed_and_finished :
      (r : DeletionRequest) (user : ℕ) (privy : String) (signed : Option String) (db : DeletionDb)
      (q : DeletionRequest)
      → find_request r.id db ≡ some q
      → FinishOutcome now r.id user db
          ((close_on_chain services now r signed >> finish_deletion services now r user privy) db)
  closed_and_finished r user privy signed db q found =
      after_close r user privy db (close_on_chain services now r signed db)
        (close_on_chain-Outcome r signed db q found)

  carry_out-Outcome :
      (r : DeletionRequest) (user : ℕ) (privy : String) (signed : Option String) (db : DeletionDb)
      (q : DeletionRequest)
      → find_request r.id db ≡ some q
      → FinishOutcome now r.id user db (carry_out services now r user privy signed db)
  unfolding carry_out check_deletion
  carry_out-Outcome r user privy signed db q found =
      after_check (check services.balances services.allowed_vault_ids user db)
    where
      after_check :
          (c : Result Eligibility)
          → FinishOutcome now r.id user db (elim c [
            | ok e ↦
                (throw_if (not e.eligible) not_eligible
                    >> (close_on_chain services now r signed
                        >> finish_deletion services now r user privy))
                  db
            | err e ↦ (err e, db)
          ])
      after_check (err e) = refl
      after_check (ok e) = elim (Bool-cases e.eligible) [
        | inl yes_eligible ↦ rw yes_eligible (closed_and_finished r user privy signed db q found)
        | inr blocked ↦ rw blocked refl
      ]

  -- What a confirmation leaves behind.
  abbrev pub ConfirmOutcome :
      ℕ → ℕ → DeletionDb → Result ConfirmDeletionResult × DeletionDb → Type 0
  ConfirmOutcome id user before (ok a, after) =
      (Found (find_request id before) (λ r. r.status ≡ DeletionStatus.completed) × (after ≡ before))
      ⊎ (IsErased user before.personal after.personal
          × Found (find_request id after) (IsConfirmed now a))
  ConfirmOutcome id user before (err e, after) = after.personal ≡ before.personal

  carried_out :
      (id user : ℕ) (before : DeletionDb) (p : Result ConfirmDeletionResult × DeletionDb)
      → FinishOutcome now id user before p
      → ConfirmOutcome id user before p
  carried_out id user before (ok a, after) o = inr o
  carried_out id user before (err e, after) o = o

  -- By the status of the request.
  confirm_by_status-Outcome :
      (s : DeletionStatus) (r : DeletionRequest) (user : ℕ) (privy : String)
      (signed : Option String) (db : DeletionDb)
      → r.status ≡ s
      → find_request r.id db ≡ some r
      → ConfirmOutcome r.id user db (confirm_by_status services now s r user privy signed db)
  unfolding confirm_by_status
  confirm_by_status-Outcome DeletionStatus.completed r user privy signed db e found =
      inl (subst (λ x. Found x (λ q. q.status ≡ DeletionStatus.completed)) (sym found) e, refl)
  confirm_by_status-Outcome DeletionStatus.failed r user privy signed db e found = refl
  confirm_by_status-Outcome DeletionStatus.requested r user privy signed db e found =
      carried_out r.id user db _ (carry_out-Outcome r user privy signed db r found)
  confirm_by_status-Outcome DeletionStatus.pending_signature r user privy signed db e found =
      carried_out r.id user db _ (carry_out-Outcome r user privy signed db r found)
  confirm_by_status-Outcome DeletionStatus.chain_closed r user privy signed db e found =
      carried_out r.id user db _ (carry_out-Outcome r user privy signed db r found)
  confirm_by_status-Outcome DeletionStatus.local_scrubbed r user privy signed db e found =
      carried_out r.id user db _ (carry_out-Outcome r user privy signed db r found)

  owned :
      (r : DeletionRequest) (id user : ℕ) (privy : String) (signed : Option String)
      (db : DeletionDb)
      → r.id ≡ id
      → find_request id db ≡ some r
      → ConfirmOutcome id user db (confirm_by_status services now r.status r user privy signed db)
  owned r id user privy signed db same found =
      subst
        (λ i.
          ConfirmOutcome i user db (confirm_by_status services now r.status r user privy signed db))
        same
        (confirm_by_status-Outcome r.status r user privy signed db refl
          (subst (λ i. find_request i db ≡ some r) (sym same) found))

  -- A confirmation, from any state: if it answers, either the request was completed before and nothing
  -- is written, or every row of the user is erased and the request is LOCAL_SCRUBBED, or COMPLETED and
  -- without the identity provider's id; if it throws, nothing of the user is erased.
  pub confirm_deletion-Outcome :
      (user : ℕ) (privy : String) (id : ℕ) (signed : Option String) (db : DeletionDb)
      → ConfirmOutcome id user db (confirm_deletion services now user privy id signed db)
  unfolding confirm_deletion
  confirm_deletion-Outcome user privy id signed db = elim (Option-cases (find_request id db)) [
    | inl missing ↦ rw missing refl
    | inr (r, found) ↦ elim (Bool-cases (r.user_id == user)) [
      | inl own ↦ rw found (
          rw own (
            owned r id user privy signed db
              ((==_iff r.id id).0 (find?-accepts (has_id id) db.requests found)) found))
      | inr other ↦ rw found (rw other refl)
    ]
  ]
