-- ===== src/AccountDeletion/Cleanup.antt =====
-- The job that finishes deletions outside (src/jobs/account-deletion-cleanup.job.ts).
use smartpig_backend.Common.{
  ℕ, ◌+◌, Bool, true, false, ◌&&◌, Option, none, some, List, [], ◌∷◌, String, ltb, leb,
  if◌then◌else◌, filter, take, is_present, get_or_else, Action, pure, gets, catch, ◌>>=◌, ◌>>◌,
}
use smartpig_backend.AccountDeletion.Rows.{DeletionStatus, DeletionRequest, DeletionDb}
use smartpig_backend.AccountDeletion.Requests.{
  DeletionServices, find_request, update_request, fail_with, clean_up_externals,
}

-- `BATCH_SIZE`
abbrev pub batch_size : ℕ
batch_size = 20

abbrev pub is_local_scrubbed : DeletionStatus → Bool
is_local_scrubbed DeletionStatus.local_scrubbed = true
is_local_scrubbed _ = false

-- The requests that the job takes, with the limit of the attempts.
abbrev pub is_pending : ℕ → DeletionRequest → Bool
is_pending max r = is_local_scrubbed r.status && ltb r.cleanup_attempts max

abbrev pub is_completed : Option DeletionRequest → Bool
is_completed none = false
is_completed (some r) = elim r.status [ DeletionStatus.completed ↦ true | _ ↦ false ]

abbrev pub no_provider_id : String
no_provider_id = "Deletion request has no identity provider id; finish it manually"

-- Without the number of the attempts.
abbrev pub out_of_attempts : String
out_of_attempts = "External cleanup did not complete"

abbrev pub count_attempt : ℕ → DeletionRequest → DeletionRequest
count_attempt attempts r = record r { cleanup_attempts = attempts }

module _ (services : DeletionServices) (max now : ℕ) where
  -- After the two calls: done, out of attempts, or one attempt more.
  unfoldable pub count_or_fail : DeletionRequest → Bool → Action DeletionDb (Unit {0})
  count_or_fail r done =
      if done
      then pure tt
      else if leb max (r.cleanup_attempts + 1)
      then update_request now r.id (fail_with out_of_attempts)
      else update_request now r.id (count_attempt (r.cleanup_attempts + 1))

  -- The round of the loop for a request, as it was read before the loop.
  unfoldable pub retry_one : DeletionRequest → Action DeletionDb (Unit {0})
  retry_one r =
      if is_present r.privy_user_id
      then (do
        catch (clean_up_externals services now r.id r.user_id (get_or_else r.privy_user_id ""))
            (λ e. pure tt)
        current ← gets (find_request r.id)
        count_or_fail r (is_completed current))
      else update_request now r.id (fail_with no_provider_id)

  unfoldable pub retry_each : List DeletionRequest → Action DeletionDb (Unit {0})
  retry_each [] = pure tt
  retry_each (r ∷ rs) = do retry_one r; retry_each rs

  unfoldable pub retry_pending_cleanups : Action DeletionDb (Unit {0})
  retry_pending_cleanups = do
    pending ← gets (λ db. take batch_size (filter (is_pending max) db.requests))
    retry_each pending
