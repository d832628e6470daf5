-- ===== src/AccountDeletion/Draining.antt =====
-- The cleanup job comes to an end (src/jobs/account-deletion-cleanup.job.ts).
use smartpig_backend.Common.{
  ℕ, zero, suc, ◌+◌, ◌≤◌, ◌<◌, ◌≡◌, refl, Bool, false, some, List, [], ◌∷◌, arith, find?, any?,
  filter, take, length, Bool-cases, inl, inr, All, ==_iff,
}
use smartpig_backend.AccountDeletion.Rows.{DeletionRequest, DeletionDb}
use smartpig_backend.AccountDeletion.Requests.{DeletionServices, has_id}
use smartpig_backend.AccountDeletion.Cleanup.{batch_size, is_pending, retry_pending_cleanups}
use smartpig_backend.AccountDeletion.Attempts.{IsAsRead, IsDistinct, left, total_left}
use smartpig_backend.AccountDeletion.Retrying.{retry_each-Progress}

any?-filter :
    (q p : DeletionRequest → Bool) (rows : List DeletionRequest)
    → any? q rows ≡ false
    → any? q (filter p rows) ≡ false
any?-filter q p [] h = refl
any?-filter q p (r ∷ rs) h = ground (arith, any?-filter q p rs)

any?-take :
    (q : DeletionRequest → Bool) (n : ℕ) (rows : List DeletionRequest)
    → any? q rows ≡ false
    → any? q (take n rows) ≡ false
any?-take q n [] h = refl
any?-take q zero (r ∷ rs) h = refl
any?-take q (suc n) (r ∷ rs) h = ground (arith, any?-take q n rs)

filter-IsDistinct :
    (p : DeletionRequest → Bool) (rows : List DeletionRequest)
    → IsDistinct rows
    → IsDistinct (filter p rows)
filter-IsDistinct p [] d = tt
filter-IsDistinct p (r ∷ rs) d = elim (Bool-cases (p r)) [
  | inl hit ↦ rw hit (any?-filter (has_id r.id) p rs d.0, filter-IsDistinct p rs d.1)
  | inr miss ↦ rw miss (filter-IsDistinct p rs d.1)
]

take-IsDistinct : (n : ℕ) (rows : List DeletionRequest) → IsDistinct rows → IsDistinct (take n rows)
take-IsDistinct n [] d = tt
take-IsDistinct zero (r ∷ rs) d = tt
take-IsDistinct (suc n) (r ∷ rs) d = (any?-take (has_id r.id) n rs d.0, take-IsDistinct n rs d.1)

take-All {ℓ} : {A : Type ℓ} (P : A → Type 0) (n : ℕ) (xs : List A) → All P xs → All P (take n xs)
take-All P n [] h = tt
take-All P zero (x ∷ xs) h = tt
take-All P (suc n) (x ∷ xs) h = (h.0, take-All P n xs h.1)

-- Each row is the one that its identifier finds.
abbrev IsFoundIn : List DeletionRequest → DeletionRequest → Type 0
IsFoundIn rows r = find? (has_id r.id) rows ≡ some r

found_behind :
    (x : DeletionRequest) (rows rs : List DeletionRequest)
    → any? (has_id x.id) rs ≡ false
    → All (IsFoundIn rows) rs
    → All (IsFoundIn (x ∷ rows)) rs
found_behind x rows [] e h = tt
found_behind x rows (r ∷ rs) e h = (
  ground (arith, h.0, ==_iff x.id r.id, ==_iff r.id x.id),
  found_behind x rows rs (ground arith) h.1,
)

found_each : (rows : List DeletionRequest) → IsDistinct rows → All (IsFoundIn rows) rows
found_each [] d = tt
found_each (r ∷ rs) d =
    (ground (arith, ==_iff r.id r.id), found_behind r rs rs d.0 (found_each rs d.1))

as_read :
    (max : ℕ) (db : DeletionDb) (rs : List DeletionRequest)
    → All (IsFoundIn db.requests) rs
    → All (IsAsRead max db) (filter (is_pending max) rs)
as_read max db [] h = tt
as_read max db (r ∷ rs) h = elim (Bool-cases (is_pending max r)) [
  | inl hit ↦ rw hit ((rw h.0 (ground arith), ground arith), as_read max db rs h.1)
  | inr miss ↦ rw miss (as_read max db rs h.1)
]

none_left :
    (max : ℕ) (rows : List DeletionRequest)
    → total_left max rows ≡ 0
    → any? (is_pending max) rows ≡ false
unfolding left
none_left max [] h = refl
none_left max (r ∷ rs) h = ground (arith, none_left max rs)

some_pending :
    (max : ℕ) (rows : List DeletionRequest)
    → 0 < total_left max rows
    → 0 < length (take batch_size (filter (is_pending max) rows))
unfolding left
some_pending max [] h = absurd (omega arith)
some_pending max (r ∷ rs) h = elim (Bool-cases (is_pending max r)) [
  | inl hit ↦ rw hit (omega arith)
  | inr miss ↦ rw miss (some_pending max rs (ground arith))
]

-- Rounds of the job, each at its time and with what the outside answers then.
unfoldable pub run_rounds : ℕ → List (DeletionServices × ℕ) → DeletionDb → DeletionDb
run_rounds max [] db = db
run_rounds max ((services, now) ∷ rounds) db =
    run_rounds max rounds (retry_pending_cleanups services max now db).1

round_lowers :
    (services : DeletionServices) (max now : ℕ) (db : DeletionDb)
    → IsDistinct db.requests
    → let after = (retry_pending_cleanups services max now db).1 in
      IsDistinct after.requests
      × (total_left max after.requests
            + length (take batch_size (filter (is_pending max) db.requests))
          ≤ total_left max db.requests)
unfolding retry_pending_cleanups
round_lowers services max now db d =
    retry_each-Progress services max now (take batch_size (filter (is_pending max) db.requests)) db
      (take-IsDistinct batch_size _ (filter-IsDistinct (is_pending max) db.requests d)) d
      (take-All (IsAsRead max db) batch_size _
        (as_read max db db.requests (found_each db.requests d)))

-- However the partners answer, the job comes to an end: after as many rounds as there are attempts left
-- among the requests, none is pending any more.
pub rounds_drain :
    (max : ℕ) (rounds : List (DeletionServices × ℕ)) (db : DeletionDb)
    → IsDistinct db.requests
    → total_left max db.requests ≤ length rounds
    → any? (is_pending max) (run_rounds max rounds db).requests ≡ false
unfolding run_rounds
rounds_drain max [] db d enough = none_left max db.requests (omega arith)
rounds_drain max ((services, now) ∷ rounds) db d enough =
    let lower = round_lowers services max now db d in
    rounds_drain max rounds (retry_pending_cleanups services max now db).1 lower.0
      (grind (arith, lower.1, some_pending max db.requests))
