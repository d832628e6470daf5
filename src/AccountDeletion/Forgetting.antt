-- ===== src/AccountDeletion/Forgetting.antt =====
-- A completed request keeps no identifier of the person (src/account-deletion/account-deletion.service.ts,
-- src/jobs/account-deletion-cleanup.job.ts).
use smartpig_backend.Common.{
  ℕ, ◌≡◌, refl, Bool, true, false, Option, none, List, [], ◌∷◌, String, arith, All,
  All-update_where, Option-cases, inl, inr, subst, sym, take, filter, ◌&&◌, if◌then◌else◌,
}
use smartpig_backend.AccountDeletion.Rows.{DeletionStatus, DeletionRequest, DeletionDb}
use smartpig_backend.AccountDeletion.Scrub.{scrub, find_receiver}
use smartpig_backend.AccountDeletion.Requests.{
  DeletionServices, Closure, has_id, touch, set_request, update_request, find_request,
  await_signature, close_chain, fail_with, mark_scrubbed, record_cleanup, is_sibling,
  forget_provider, forget_siblings, insert_request, open_request, prepare_closure, request_new,
  answer_request, request_deletion, clean_up_externals, settle_closure, close_on_chain,
  finish_scrubbed, finish_deletion, carry_out, confirm_by_status, confirm_deletion, check_deletion,
  delete_receiver, succeeded,
}
use smartpig_backend.AccountDeletion.Cleanup.{
  batch_size, is_pending, count_attempt, count_or_fail, retry_one, retry_each,
  retry_pending_cleanups,
}

-- Completed, and without the provider's id; or not completed.
abbrev IsForgotten : DeletionRequest → Type 0
IsForgotten r = r.status ≡ DeletionStatus.completed → r.privy_user_id ≡ none

abbrev pub Forgets : DeletionDb → Type 0
Forgets db = All IsForgotten db.requests

set_request-Forgets :
    (now id : ℕ) (f : DeletionRequest → DeletionRequest) (db : DeletionDb)
    → ((r : DeletionRequest) → IsForgotten r → IsForgotten (f r))
    → Forgets db
    → Forgets (set_request now id f db)
unfolding set_request
set_request-Forgets now id f db keeps h =
    All-update_where IsForgotten (has_id id) (touch now f) db.requests (λ r hr hit. keeps r hr) h

update_request-Forgets :
    (now id : ℕ) (f : DeletionRequest → DeletionRequest) (db : DeletionDb)
    → ((r : DeletionRequest) → IsForgotten r → IsForgotten (f r))
    → Forgets db
    → Forgets (update_request now id f db).1
unfolding update_request
update_request-Forgets now id f db keeps h = elim (Option-cases (find_request id db)) [
  | inl missing ↦ rw missing h
  | inr (r, found) ↦ rw found (set_request-Forgets now id f db keeps h)
]

forget_siblings-Forgets :
    (now user id : ℕ) (db : DeletionDb) → Forgets db → Forgets (forget_siblings now user id db)
unfolding forget_siblings
forget_siblings-Forgets now user id db h =
    All-update_where IsForgotten (is_sibling user id) (forget_provider now) db.requests
      (λ r hr hit done. refl) h

record_cleanup-IsForgotten :
    (now : ℕ) (blindpay privy : Bool) (r : DeletionRequest)
    → IsForgotten r
    → IsForgotten (record_cleanup now blindpay privy r)
record_cleanup-IsForgotten now true true r h done = refl
record_cleanup-IsForgotten now true false r h done = h done
record_cleanup-IsForgotten now false privy r h done = h done

pub scrub-requests : (now user : ℕ) (db : DeletionDb) → (scrub now user db).1.requests ≡ db.requests
unfolding scrub
scrub-requests now user db = ground arith

clean_up-Forgets :
    (now id user : ℕ) (blindpay privy : Bool) (db : DeletionDb)
    → Forgets db
    → Forgets
        (update_request now id
          (record_cleanup now blindpay privy)
          (if blindpay && privy then forget_siblings now user id db else db)).1
clean_up-Forgets now id user true true db h =
    update_request-Forgets now id (record_cleanup now true true) (forget_siblings now user id db)
      (record_cleanup-IsForgotten now true true) (forget_siblings-Forgets now user id db h)
clean_up-Forgets now id user true false db h =
    update_request-Forgets now id (record_cleanup now true false) db
      (record_cleanup-IsForgotten now true false) h
clean_up-Forgets now id user false privy db h =
    update_request-Forgets now id (record_cleanup now false privy) db
      (record_cleanup-IsForgotten now false privy) h

module _ (now id : ℕ) (db : DeletionDb) (h : Forgets db) where
  close_chain-Forgets : (hash : String) → Forgets (update_request now id (close_chain hash) db).1
  close_chain-Forgets hash =
      update_request-Forgets now id (close_chain hash) db (λ r hr done. absurd (cc)) h

  fail_with-Forgets : (message : String) → Forgets (update_request now id (fail_with message) db).1
  fail_with-Forgets message =
      update_request-Forgets now id (fail_with message) db (λ r hr done. absurd (cc)) h

  mark_scrubbed-Forgets : Forgets (update_request now id (mark_scrubbed now) db).1
  mark_scrubbed-Forgets =
      update_request-Forgets now id (mark_scrubbed now) db (λ r hr done. absurd (cc)) h

  await_signature-Forgets : (c : Closure) → Forgets (update_request now id (await_signature c) db).1
  await_signature-Forgets c =
      update_request-Forgets now id (await_signature c) db (λ r hr done. absurd (cc)) h

  count_attempt-Forgets : (n : ℕ) → Forgets (update_request now id (count_attempt n) db).1
  count_attempt-Forgets n = update_request-Forgets now id (count_attempt n) db (λ r hr. hr) h

scrub-Forgets : (now user : ℕ) (db : DeletionDb) → Forgets db → Forgets (scrub now user db).1
scrub-Forgets now user db h = subst (All IsForgotten) (sym (scrub-requests now user db)) h

module _ (services : DeletionServices) (now : ℕ) where
  clean_up_externals-Forgets :
      (id user : ℕ) (privy : String) (db : DeletionDb)
      → Forgets db
      → Forgets (clean_up_externals services now id user privy db).1
  unfolding clean_up_externals
  clean_up_externals-Forgets id user privy db h =
      clean_up-Forgets now id user (delete_receiver services now (find_receiver user db.personal))
        (succeeded (services.delete_user privy)) db h

  close_on_chain-Forgets :
      (r : DeletionRequest) (signed : Option String) (db : DeletionDb)
      → Forgets db
      → Forgets (close_on_chain services now r signed db).1
  unfolding close_on_chain settle_closure
  close_on_chain-Forgets r signed db h =
      grind (arith, close_chain-Forgets now r.id db h, fail_with-Forgets now r.id db h)

  finish_deletion-Forgets :
      (r : DeletionRequest) (user : ℕ) (privy : String) (db : DeletionDb)
      → Forgets db
      → Forgets (finish_deletion services now r user privy db).1
  unfolding finish_deletion finish_scrubbed
  finish_deletion-Forgets r user privy db h =
      grind (arith, scrub-Forgets now user db h, mark_scrubbed-Forgets, clean_up_externals-Forgets)

  confirm_deletion-Forgets :
      (user : ℕ) (privy : String) (id : ℕ) (signed : Option String) (db : DeletionDb)
      → Forgets db
      → Forgets (confirm_deletion services now user privy id signed db).1
  unfolding confirm_deletion confirm_by_status carry_out check_deletion
  confirm_deletion-Forgets user privy id signed db h =
      grind (arith, close_on_chain-Forgets, finish_deletion-Forgets)

  request_deletion-Forgets :
      (user : ℕ) (privy : String) (key : ℕ) (db : DeletionDb)
      → Forgets db
      → Forgets (request_deletion services now user privy key db).1
  unfolding request_deletion answer_request request_new check_deletion open_request insert_request
      prepare_closure
  request_deletion-Forgets user privy key db h = grind (arith, await_signature-Forgets)

  module _ (max : ℕ) where
    retry_one-Forgets :
        (r : DeletionRequest) (db : DeletionDb)
        → Forgets db
        → Forgets (retry_one services max now r db).1
    unfolding retry_one count_or_fail
    retry_one-Forgets r db h =
        grind (arith, clean_up_externals-Forgets, fail_with-Forgets, count_attempt-Forgets)

    retry_each-Forgets :
        (rs : List DeletionRequest) (db : DeletionDb)
        → Forgets db
        → Forgets (retry_each services max now rs db).1
    unfolding retry_each
    retry_each-Forgets [] db h = h
    retry_each-Forgets (r ∷ rs) db h =
        ground (
          arith,
          retry_one-Forgets r db h,
          retry_each-Forgets rs (retry_one services max now r db).1,
        )

-- What is called on the requests, each at its time and with what the outside answers then.
pub data DeletionOperation : Type 0 where
  request : DeletionServices → ℕ → ℕ → String → ℕ → DeletionOperation
  confirm : DeletionServices → ℕ → ℕ → String → ℕ → Option String → DeletionOperation
  retry : DeletionServices → ℕ → ℕ → DeletionOperation

unfoldable pub run : DeletionOperation → DeletionDb → DeletionDb
run (request services now user privy key) db = (request_deletion services now user privy key db).1
run (confirm services now user privy id signed) db =
    (confirm_deletion services now user privy id signed db).1
run (retry services max now) db = (retry_pending_cleanups services max now db).1

unfoldable pub run_all : List DeletionOperation → DeletionDb → DeletionDb
run_all [] db = db
run_all (o ∷ os) db = run_all os (run o db)

run-Forgets : (o : DeletionOperation) (db : DeletionDb) → Forgets db → Forgets (run o db)
unfolding run retry_pending_cleanups
run-Forgets (request services now user privy key) db h =
    request_deletion-Forgets services now user privy key db h
run-Forgets (confirm services now user privy id signed) db h =
    confirm_deletion-Forgets services now user privy id signed db h
run-Forgets (retry services max now) db h =
    retry_each-Forgets services now max (take batch_size (filter (is_pending max) db.requests)) db h

-- Over every sequence of requests, confirmations and rounds of the job, whatever the outside answers,
-- no completed request has the identifier of a person at the identity provider.
pub run_all-Forgets :
    (os : List DeletionOperation) (db : DeletionDb) → Forgets db → Forgets (run_all os db)
unfolding run_all
run_all-Forgets [] db h = h
run_all-Forgets (o ∷ os) db h = run_all-Forgets os (run o db) (run-Forgets o db h)
