-- ===== src/AccountDeletion/Retrying.antt =====
-- One round of the cleanup job (src/jobs/account-deletion-cleanup.job.ts).
use smartpig_backend.Common.{
  ℕ, ◌+◌, ◌-◌, ◌≤◌, ◌<◌, ◌≡◌, ◌≢◌, refl, sym, ap, subst, Bool, true, false, ◌&&◌, some, List, [],
  ◌∷◌, leb, arith, any?, length, Bool-cases, Option-cases, inl, inr, All, Found, Result, ok, ==_iff,
  is_present, get_or_else, Action, Exception, catch, pure, gets, ◌>>◌, ◌>>=◌,
}
use smartpig_backend.AccountDeletion.Rows.{DeletionStatus, DeletionRequest, DeletionDb}
use smartpig_backend.AccountDeletion.Requests.{
  DeletionServices, has_id, touch, set_request, find_request, fail_with, record_cleanup,
  forget_siblings, clean_up_externals,
}
use smartpig_backend.AccountDeletion.Cleanup.{
  is_completed, count_attempt, count_or_fail, retry_one, retry_each, no_provider_id,
  out_of_attempts,
}
use smartpig_backend.AccountDeletion.Cleaning.{
  deletes_receiver, deletes_user, find_request-forget_siblings, cleaned, clean_up_externals-found,
  cleaned-found, update_request-found,
}
use smartpig_backend.AccountDeletion.Attempts.{
  IsAsRead, IsDistinct, IsRowOf, Progress, Progress-trans, forget_siblings-Progress, left,
  left_cleaned, left_completed, left_counted, left_failed, left_pending, set_request-Progress,
  total_left,
}

-- The round of a request answers, and lowers the sum.
abbrev Advances : ℕ → ℕ → DeletionDb → Result (Unit {0}) × DeletionDb → Type 0
Advances max id before p = (p.0 ≡ ok tt) × Progress max id 1 before p.1

-- A guarded call that answers, and what follows it.
catch-then :
    {W A B : Type 0} (m : Action W A) (handler : Exception → Action W A) (k : Action W B) (w w' : W)
    {a : A}
    → m w ≡ (ok a, w')
    → (catch m handler >> k) w ≡ k w'
catch-then m handler k w w' e = subst (λ p. (catch (λ v. p) handler >> k) w ≡ k w') (sym e) refl

module _ (services : DeletionServices) (max now : ℕ) (db : DeletionDb) (r q : DeletionRequest)
    (d : IsDistinct db.requests) (found : find_request r.id db ≡ some q) (row : IsRowOf r q)
    (below : r.cleanup_attempts < max) where
  -- What is left of it is a positive number.
  left_of_row : left max q ≡ max - r.cleanup_attempts
  left_of_row = rw (left_pending max q row.0 (omega (arith, row.1))) (ap (λ a. max - a) row.1)

  cleaned_done : Progress max r.id 1 db (cleaned now r.id r.user_id true true db)
  cleaned_done =
      let siblings = forget_siblings-Progress max now r.user_id r.id db d in
      Progress-trans max r.id 0 1 db (forget_siblings now r.user_id r.id db)
        (cleaned now r.id r.user_id true true db) siblings
        (set_request-Progress max now r.id 1 (record_cleanup now true true)
          (forget_siblings now r.user_id r.id db) q (λ x. refl) siblings.0
          (find_request-forget_siblings now r.user_id r.id db found)
          (omega (arith, left_completed max now q, left_of_row)))

  cleaned_open :
      (b p : Bool) → (b && p) ≡ false → Progress max r.id 0 db (cleaned now r.id r.user_id b p db)
  cleaned_open true true e = absurd (cc)
  cleaned_open true false e =
      set_request-Progress max now r.id 0 (record_cleanup now true false) db q (λ x. refl) d found
        (omega (arith, left_cleaned max now true false q refl))
  cleaned_open false p e =
      set_request-Progress max now r.id 0 (record_cleanup now false p) db q (λ x. refl) d found
        (omega (arith, left_cleaned max now false p q refl))

  -- The last step of the round, on a request that was not completed.
  counted :
      (b p : Bool)
      → (b && p) ≡ false
      → Advances max r.id db
          (count_or_fail services max now r false (cleaned now r.id r.user_id b p db))
  unfolding count_or_fail
  counted b p e = elim (Bool-cases (leb max (r.cleanup_attempts + 1))) [
    | inl out ↦ rw out (
        rw (update_request-found now r.id (fail_with out_of_attempts) (λ x. refl) w there) (
          refl,
          Progress-trans max r.id 0 1 db w (set_request now r.id (fail_with out_of_attempts) w)
              opened
              (set_request-Progress max now r.id 1 (fail_with out_of_attempts) w x (λ y. refl)
                opened.0 there
                (omega (arith, left_failed max now out_of_attempts x, same_left, left_of_row))),
        ))
    | inr more ↦ rw more (
        rw
          (update_request-found now r.id (count_attempt (r.cleanup_attempts + 1)) (λ x. refl) w
            there)
          (
            refl,
            Progress-trans max r.id 0 1 db w
                (set_request now r.id (count_attempt (r.cleanup_attempts + 1)) w) opened
                (set_request-Progress max now r.id 1 (count_attempt (r.cleanup_attempts + 1)) w x
                  (λ y. refl) opened.0 there
                  (omega (
                    arith,
                    left_counted max now (r.cleanup_attempts + 1) x status,
                    same_left,
                    left_of_row,
                  ))),
          ))
  ]
    where
      w : DeletionDb
      w = cleaned now r.id r.user_id b p db

      x : DeletionRequest
      x = touch now (record_cleanup now b p) q

      there : find_request r.id w ≡ some x
      there = (cleaned-found now r.id r.user_id b p db found).1

      opened : Progress max r.id 0 db w
      opened = cleaned_open b p e

      same_left : left max x ≡ left max q
      same_left = left_cleaned max now b p q e

      status : x.status ≡ DeletionStatus.local_scrubbed
      status = rw e row.0

  after_cleanup :
      (b p : Bool)
      → Advances max r.id db (
          count_or_fail services max now r
            (is_completed (find_request r.id (cleaned now r.id r.user_id b p db)))
            (cleaned now r.id r.user_id b p db))
  unfolding count_or_fail
  after_cleanup true true =
      rw (cleaned-found now r.id r.user_id true true db found).1 (refl, cleaned_done)
  after_cleanup true false =
      rw (cleaned-found now r.id r.user_id true false db found).1
        (rw row.0 (counted true false refl))
  after_cleanup false p =
      rw (cleaned-found now r.id r.user_id false p db found).1 (rw row.0 (counted false p refl))

  retry_one-Advances : Advances max r.id db (retry_one services max now r db)
  unfolding retry_one
  retry_one-Advances = elim (Bool-cases (is_present r.privy_user_id)) [
    | inl known ↦
        let privy = get_or_else r.privy_user_id "" in
        rw known (
          subst (Advances max r.id db)
            (sym (
              catch-then (clean_up_externals services now r.id r.user_id privy) (λ e. pure tt)
                (gets (find_request r.id) >>= λ current.
                  count_or_fail services max now r (is_completed current))
                db
                (cleaned now r.id r.user_id (deletes_receiver services now r.user_id db)
                  (deletes_user services now privy) db)
                (clean_up_externals-found services now r.id r.user_id privy db found)))
            (after_cleanup (deletes_receiver services now r.user_id db)
              (deletes_user services now privy)))
    | inr missing ↦ rw missing (
        rw (update_request-found now r.id (fail_with no_provider_id) (λ x. refl) db found) (
          refl,
          set_request-Progress max now r.id 1 (fail_with no_provider_id) db q (λ x. refl) d found
              (omega (arith, left_failed max now no_provider_id q, left_of_row)),
        ))
  ]

-- A request that is not among others does not change how they are read.
All-others :
    (max : ℕ) (r : DeletionRequest) (db after : DeletionDb) (rs : List DeletionRequest)
    → any? (has_id r.id) rs ≡ false
    → ((s : DeletionRequest) → s.id ≢ r.id → IsAsRead max db s → IsAsRead max after s)
    → All (IsAsRead max db) rs
    → All (IsAsRead max after) rs
All-others max r db after [] e keeps h = tt
All-others max r db after (s ∷ rs) e keeps h =
    let apart : s.id ≢ r.id = λ same. ground (arith, ==_iff s.id r.id) in
    let rest : any? (has_id r.id) rs ≡ false = ground arith in
    (keeps s apart h.0, All-others max r db after rs rest keeps h.1)

-- The requests that are left to do as the job has read them.
pub retry_each-Progress :
    (services : DeletionServices) (max now : ℕ) (rs : List DeletionRequest) (db : DeletionDb)
    → IsDistinct rs
    → IsDistinct db.requests
    → All (IsAsRead max db) rs
    → IsDistinct (retry_each services max now rs db).1.requests
      × (total_left max (retry_each services max now rs db).1.requests + length rs
          ≤ total_left max db.requests)
unfolding retry_each
retry_each-Progress services max now [] db dr d h = (d, omega arith)
retry_each-Progress services max now (r ∷ rs) db dr d h =
    elim (Option-cases (find_request r.id db)) [
      | inl missing ↦ absurd (subst (λ o. Found o (IsRowOf r)) missing h.0.0)
      | inr (q, found) ↦
          let row = subst (λ o. Found o (IsRowOf r)) found h.0.0 in
          let step = retry_one-Advances services max now db r q d found row h.0.1 in
          let rest =
            retry_each-Progress services max now rs (retry_one services max now r db).1 dr.1
              step.1.0
              (All-others max r db (retry_one services max now r db).1 rs dr.0 step.1.2 h.1) in
          ground (arith, step, rest)
    ]
