-- ===== src/AccountDeletion/Cleaning.antt =====
-- The updates of a request, and the external deletions (src/account-deletion/account-deletion.service.ts:
-- cleanupExternals).
use smartpig_backend.Common.{
  ℕ, ◌≡◌, refl, Bool, true, false, ◌&&◌, if◌then◌else◌, some, String, ◌==◌, arith, ap,
  find?-update_same, find?-update_where, find?-accepts, ok,
}
use smartpig_backend.AccountDeletion.Rows.{DeletionRequest, DeletionDb}
use smartpig_backend.AccountDeletion.Scrub.{find_receiver}
use smartpig_backend.AccountDeletion.Requests.{
  DeletionServices, has_id, touch, set_request, update_request, find_request, record_cleanup,
  is_sibling, forget_provider, forget_siblings, delete_receiver, succeeded, clean_up_externals,
}

-- The update of a request that is there: it answers, and the request is found as updated.
module _ (now id : ℕ) (f : DeletionRequest → DeletionRequest)
    (keeps : (r : DeletionRequest) → (f r).id ≡ r.id) where
  pub update_request-found :
      (db : DeletionDb) {r : DeletionRequest}
      → find_request id db ≡ some r
      → update_request now id f db ≡ (ok tt, set_request now id f db)
  unfolding update_request
  update_request-found db found = rw found refl

  pub find_request-set_request :
      (db : DeletionDb) {r : DeletionRequest}
      → find_request id db ≡ some r
      → find_request id (set_request now id f db) ≡ some (touch now f r)
  unfolding set_request
  find_request-set_request db found =
      rw
        (find?-update_same (has_id id) (touch now f) db.requests (λ r. ap (λ k. k == id) (keeps r)))
        (rw found refl)

-- The request itself is no sibling of it.
pub find_request-forget_siblings :
    (now user id : ℕ) (db : DeletionDb) {r : DeletionRequest}
    → find_request id db ≡ some r
    → find_request id (forget_siblings now user id db) ≡ some r
unfolding forget_siblings
find_request-forget_siblings now user id db {r} found =
    rw
      (find?-update_where (has_id id) (is_sibling user id) (forget_provider now) db.requests
        (λ a. refl))
      (rw found (ground (arith, find?-accepts (has_id id) db.requests {a = r} found)))

pub set_request-personal :
    (now id : ℕ) (f : DeletionRequest → DeletionRequest) (db : DeletionDb)
    → (set_request now id f db).personal ≡ db.personal
unfolding set_request
set_request-personal now id f db = refl

-- The tables after the external deletions, by which of them landed.
abbrev pub cleaned : ℕ → ℕ → ℕ → Bool → Bool → DeletionDb → DeletionDb
cleaned now id user blindpay privy db =
    set_request now id (record_cleanup now blindpay privy)
      (if blindpay && privy then forget_siblings now user id db else db)

pub cleaned-found :
    (now id user : ℕ) (blindpay privy : Bool) (db : DeletionDb) {r : DeletionRequest}
    → find_request id db ≡ some r
    → (update_request now id
          (record_cleanup now blindpay privy)
          (if blindpay && privy then forget_siblings now user id db else db)
        ≡ (ok tt, cleaned now id user blindpay privy db))
      × (find_request id (cleaned now id user blindpay privy db)
          ≡ some (touch now (record_cleanup now blindpay privy) r))
      × ((cleaned now id user blindpay privy db).personal ≡ db.personal)
unfolding forget_siblings set_request
cleaned-found now id user true true db found =
    let there = find_request-forget_siblings now user id db found in
    (
      update_request-found now id (record_cleanup now true true) (λ r. refl)
          (forget_siblings now user id db) there,
      find_request-set_request now id (record_cleanup now true true) (λ r. refl)
          (forget_siblings now user id db) there,
      refl,
    )
cleaned-found now id user true false db found = (
  update_request-found now id (record_cleanup now true false) (λ r. refl) db found,
  find_request-set_request now id (record_cleanup now true false) (λ r. refl) db found,
  refl,
)
cleaned-found now id user false privy db found = (
  update_request-found now id (record_cleanup now false privy) (λ r. refl) db found,
  find_request-set_request now id (record_cleanup now false privy) (λ r. refl) db found,
  refl,
)

module _ (services : DeletionServices) (now : ℕ) where
  -- Which external deletions land.
  abbrev pub deletes_receiver : ℕ → DeletionDb → Bool
  deletes_receiver user db = delete_receiver services now (find_receiver user db.personal)

  abbrev pub deletes_user : String → Bool
  deletes_user privy = succeeded (services.delete_user privy)

  pub clean_up_externals-found :
      (id user : ℕ) (privy : String) (db : DeletionDb) {r : DeletionRequest}
      → find_request id db ≡ some r
      → clean_up_externals services now id user privy db
        ≡ (ok tt, cleaned now id user (deletes_receiver user db) (deletes_user privy) db)
  unfolding clean_up_externals
  clean_up_externals-found id user privy db found =
      (cleaned-found now id user (deletes_receiver user db) (deletes_user privy) db found).0
