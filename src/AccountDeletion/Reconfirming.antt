-- ===== src/AccountDeletion/Reconfirming.antt =====
-- A confirmation that is repeated (src/account-deletion/account-deletion.service.ts: confirmDeletion).
use smartpig_backend.Common.{
  ℕ, ◌≡◌, refl, true, false, not, Option, some, String, ◌==◌, ==_iff, arith, ap, find?-accepts,
  ◌>>◌, throw_if, sym, subst, is_present, get_or_else, Result, ok, err, Exception, Found, Fails,
  http, ErrorKind,
}
use smartpig_backend.AccountDeletion.Rows.{DeletionStatus, DeletionRequest, DeletionDb}
use smartpig_backend.AccountDeletion.Eligibility.{Eligibility, check}
use smartpig_backend.AccountDeletion.Requests.{
  DeletionServices, ConfirmDeletionResult, has_id, set_request, find_request, fail_with,
  not_eligible, settle_closure, close_on_chain, finish_deletion, carry_out, confirm_by_status,
  confirm_deletion, check_deletion,
}
use smartpig_backend.AccountDeletion.Cleanup.{is_pending}
use smartpig_backend.AccountDeletion.Cleaning.{update_request-found, find_request-set_request}

module _ (services : DeletionServices) (now : ℕ) where
  abbrev closure_refused : Exception → Exception
  closure_refused x = http ErrorKind.service_unavailable x.message

  refused_closure :
      (signed : String) (r q : DeletionRequest) (db : DeletionDb) (x : Exception)
      → find_request r.id db ≡ some q
      → is_present r.closure_unsigned_xdr ≡ true
      → is_present (some signed) ≡ true
      → services.submit_fee_bump_transaction signed (get_or_else r.closure_unsigned_xdr "") ≡ err x
      → close_on_chain services now r (some signed) db
        ≡ (err (closure_refused x), set_request now r.id (fail_with x.message) db)
  unfolding close_on_chain settle_closure
  refused_closure signed r q db x found closing given refused =
      ground (arith, update_request-found now r.id (fail_with x.message) (λ y. refl) db found)

  refused_deletion :
      (user : ℕ) (privy signed : String) (r q : DeletionRequest) (e : Eligibility) (db : DeletionDb)
      (x : Exception)
      → find_request r.id db ≡ some q
      → is_present r.closure_unsigned_xdr ≡ true
      → is_present (some signed) ≡ true
      → check services.balances services.allowed_vault_ids user db ≡ ok e
      → e.eligible ≡ true
      → services.submit_fee_bump_transaction signed (get_or_else r.closure_unsigned_xdr "") ≡ err x
      → carry_out services now r user privy (some signed) db
        ≡ (err (closure_refused x), set_request now r.id (fail_with x.message) db)
  unfolding carry_out check_deletion
  refused_deletion user privy signed r q e db x found closing given checked eligible refused =
      after_check (check services.balances services.allowed_vault_ids user db) checked
    where
      after_check :
          (c : Result Eligibility)
          → c ≡ ok e
          → elim c [
            | ok e ↦
                (throw_if (not e.eligible) not_eligible
                    >> (close_on_chain services now r (some signed)
                        >> finish_deletion services now r user privy))
                  db
            | err e ↦ (err e, db)
          ]
            ≡ (err (closure_refused x), set_request now r.id (fail_with x.message) db)
      after_check (err y) h = absurd (cc)
      after_check (ok a) h =
          let same : a.eligible ≡ true = ground arith in
          let finish : Result (Unit {0}) × DeletionDb → Result ConfirmDeletionResult × DeletionDb =
            λ p. elim p.0 [
              | ok u ↦ finish_deletion services now r user privy p.1
              | err y ↦ (err y, p.1)
            ] in
          rw same (ap finish (refused_closure signed r q db x found closing given refused))

  by_local_scrubbed :
      (s : DeletionStatus) (r : DeletionRequest) (user : ℕ) (privy : String)
      (signed : Option String) (db : DeletionDb)
      → s ≡ DeletionStatus.local_scrubbed
      → confirm_by_status services now s r user privy signed db
        ≡ carry_out services now r user privy signed db
  unfolding confirm_by_status
  by_local_scrubbed s r user privy signed db e = rw e refl

  -- A confirmation that is repeated while the job has yet to finish the deletion, and whose closure the
  -- network refuses: it throws, the request is FAILED, and no round of the job takes it any more.
  pub reconfirm_strands :
      (user : ℕ) (privy signed : String) (id max : ℕ) (db : DeletionDb) (r : DeletionRequest)
      (e : Eligibility) (x : Exception)
      → find_request id db ≡ some r
      → (r.user_id == user) ≡ true
      → r.status ≡ DeletionStatus.local_scrubbed
      → is_present r.closure_unsigned_xdr ≡ true
      → is_present (some signed) ≡ true
      → check services.balances services.allowed_vault_ids user db ≡ ok e
      → e.eligible ≡ true
      → services.submit_fee_bump_transaction signed (get_or_else r.closure_unsigned_xdr "") ≡ err x
      → Fails (confirm_deletion services now user privy id (some signed) db).0
        × Found
            (find_request id (confirm_deletion services now user privy id (some signed) db).1)
            (λ q. (q.status ≡ DeletionStatus.failed) × (is_pending max q ≡ false))
  unfolding confirm_deletion
  reconfirm_strands user privy signed id max db r e x found own scrubbed closing given checked
        eligible refused =
      let same : r.id ≡ id = (==_iff r.id id).0 (find?-accepts (has_id id) db.requests found) in
      let there : find_request r.id db ≡ some r =
        subst (λ i. find_request i db ≡ some r) (sym same) found in
      rw found (
        rw own (
          rw (by_local_scrubbed r.status r user privy (some signed) db scrubbed) (
            rw
              (refused_deletion user privy signed r r e db x there closing given checked eligible
                refused)
              (rw same (
                tt,
                rw (find_request-set_request now id (fail_with x.message) (λ y. refl) db found)
                    (refl, refl),
              )))))
