-- ===== src/AccountDeletion/Attempts.antt =====
-- The attempts that the requests of the cleanup job have left, and what lowers them
-- (src/jobs/account-deletion-cleanup.job.ts).
use smartpig_backend.Common.{
  ℕ, ◌+◌, ◌-◌, ◌≤◌, ◌<◌, ◌≡◌, ◌≢◌, refl, ap, subst, Bool, true, false, ◌&&◌, if◌then◌else◌, some,
  List, [], ◌∷◌, ◌==◌, arith, find?, any?, update_where, find?-update_where, find?-accepts,
  Bool-cases, Option-cases, inl, inr, Found, ==_iff, String,
}
use smartpig_backend.AccountDeletion.Rows.{DeletionStatus, DeletionRequest, DeletionDb}
use smartpig_backend.AccountDeletion.Requests.{
  has_id, touch, set_request, find_request, fail_with, record_cleanup, forget_provider,
  forget_siblings, is_sibling,
}
use smartpig_backend.AccountDeletion.Cleanup.{is_pending, count_attempt}

-- The attempts that a request has left.
unfoldable pub left : ℕ → DeletionRequest → ℕ
left max r = if is_pending max r then max - r.cleanup_attempts else 0

abbrev pub total_left : ℕ → List DeletionRequest → ℕ
total_left max [] = 0
total_left max (r ∷ rs) = left max r + total_left max rs

-- No identifier is that of two rows: it is the primary key.
abbrev pub IsDistinct : List DeletionRequest → Type 0
IsDistinct [] = Unit
IsDistinct (r ∷ rs) = (any? (has_id r.id) rs ≡ false) × IsDistinct rs

update_none :
    (p : DeletionRequest → Bool) (f : DeletionRequest → DeletionRequest)
    (rows : List DeletionRequest)
    → any? p rows ≡ false
    → update_where p f rows ≡ rows
update_none p f [] h = refl
update_none p f (r ∷ rs) h = ground (arith, update_none p f rs)

any?-update_where :
    (id : ℕ) (p : DeletionRequest → Bool) (f : DeletionRequest → DeletionRequest)
    (keeps : (r : DeletionRequest) → (f r).id ≡ r.id) (rows : List DeletionRequest)
    → any? (has_id id) (update_where p f rows) ≡ any? (has_id id) rows
any?-update_where id p f keeps [] = refl
any?-update_where id p f keeps (r ∷ rs) = elim (Bool-cases (p r)) [
  | inl hit ↦ ground (arith, keeps r, any?-update_where id p f keeps rs)
  | inr miss ↦ ground (arith, any?-update_where id p f keeps rs)
]

update_where-IsDistinct :
    (p : DeletionRequest → Bool) (f : DeletionRequest → DeletionRequest)
    (keeps : (r : DeletionRequest) → (f r).id ≡ r.id) (rows : List DeletionRequest)
    → IsDistinct rows
    → IsDistinct (update_where p f rows)
update_where-IsDistinct p f keeps [] h = tt
update_where-IsDistinct p f keeps (r ∷ rs) h = elim (Bool-cases (p r)) [
  | inl hit ↦ ground (
    arith,
    keeps r,
    any?-update_where r.id p f keeps rs,
    update_where-IsDistinct p f keeps rs h.1,
  )
  | inr miss ↦
      ground (arith, any?-update_where r.id p f keeps rs, update_where-IsDistinct p f keeps rs h.1)
]

-- An update of one row lowers the sum by what it lowers that row.
total_left-update :
    (max id k : ℕ) (f : DeletionRequest → DeletionRequest) (rows : List DeletionRequest)
    (q : DeletionRequest)
    → IsDistinct rows
    → find? (has_id id) rows ≡ some q
    → left max (f q) + k ≤ left max q
    → total_left max (update_where (has_id id) f rows) + k ≤ total_left max rows
total_left-update max id k f [] q d found less = absurd (cc)
total_left-update max id k f (r ∷ rs) q d found less = elim (Bool-cases (r.id == id)) [
  | inl hit ↦
      let found' : some r ≡ some q = (rw hit at found) in
      let same : q ≡ r = cc in
      let less' = subst (λ x. left max (f x) + k ≤ left max x) same less in
      let others = subst (λ i. any? (has_id i) rs ≡ false) ((==_iff r.id id).0 hit) d.0 in
      rw hit (rw (update_none (has_id id) f rs others) (omega arith))
  | inr miss ↦
      rw miss (omega (arith, total_left-update max id k f rs q d.1 (rw miss at found) less))
]

-- An update that leaves what each row has left.
total_left-same :
    (max : ℕ) (p : DeletionRequest → Bool) (f : DeletionRequest → DeletionRequest)
    (rows : List DeletionRequest)
    → ((r : DeletionRequest) → left max (f r) ≡ left max r)
    → total_left max (update_where p f rows) ≡ total_left max rows
total_left-same max p f [] same = refl
total_left-same max p f (r ∷ rs) same = elim (Bool-cases (p r)) [
  | inl hit ↦ rw hit (omega (arith, same r, total_left-same max p f rs same))
  | inr miss ↦ rw miss (omega (arith, total_left-same max p f rs same))
]

-- The row of a request that the job has read.
abbrev pub IsRowOf : DeletionRequest → DeletionRequest → Type 0
IsRowOf r q = (q.status ≡ DeletionStatus.local_scrubbed) × (q.cleanup_attempts ≡ r.cleanup_attempts)

-- The request is as the job read it, or has been changed only where the job does not look.
abbrev pub IsAsRead : ℕ → DeletionDb → DeletionRequest → Type 0
IsAsRead max db r = Found (find_request r.id db) (IsRowOf r) × (r.cleanup_attempts < max)

pub left_pending :
    (max : ℕ) (q : DeletionRequest)
    → q.status ≡ DeletionStatus.local_scrubbed
    → q.cleanup_attempts < max
    → left max q ≡ max - q.cleanup_attempts
unfolding left
left_pending max q s h = ground arith

pub left_failed :
    (max now : ℕ) (message : String) (q : DeletionRequest)
    → left max (touch now (fail_with message) q) ≡ 0
unfolding left
left_failed max now message q = ground arith

pub left_counted :
    (max now a : ℕ) (q : DeletionRequest)
    → q.status ≡ DeletionStatus.local_scrubbed
    → left max (touch now (count_attempt a) q) ≡ max - a
unfolding left
left_counted max now a q s = ground arith

pub left_completed :
    (max now : ℕ) (q : DeletionRequest) → left max (touch now (record_cleanup now true true) q) ≡ 0
unfolding left
left_completed max now q = ground arith

pub left_cleaned :
    (max now : ℕ) (b p : Bool) (q : DeletionRequest)
    → (b && p) ≡ false
    → left max (touch now (record_cleanup now b p) q) ≡ left max q
unfolding left
left_cleaned max now b p q h = ground arith

forgotten_left : (max now : ℕ) (q : DeletionRequest) → left max (forget_provider now q) ≡ left max q
unfolding left
forgotten_left max now q = refl

-- From one state to the next: identifiers stay distinct, the sum falls by a number at least, and the
-- other requests are read as before.
abbrev pub Progress : ℕ → ℕ → ℕ → DeletionDb → DeletionDb → Type 0
Progress max id k before after =
    IsDistinct after.requests
    × (total_left max after.requests + k ≤ total_left max before.requests)
    × ((s : DeletionRequest) → s.id ≢ id → IsAsRead max before s → IsAsRead max after s)

pub Progress-trans :
    (max id k j : ℕ) (a b c : DeletionDb)
    → Progress max id k a b
    → Progress max id j b c
    → Progress max id (k + j) a c
Progress-trans max id k j a b c p q = (q.0, omega arith, λ s ne h. q.2 s ne (p.2 s ne h))

pub set_request-Progress :
    (max now id k : ℕ) (f : DeletionRequest → DeletionRequest) (db : DeletionDb)
    (q : DeletionRequest)
    → ((r : DeletionRequest) → (f r).id ≡ r.id)
    → IsDistinct db.requests
    → find_request id db ≡ some q
    → left max (touch now f q) + k ≤ left max q
    → Progress max id k db (set_request now id f db)
unfolding set_request
set_request-Progress max now id k f db q keeps d found less = (
  update_where-IsDistinct (has_id id) (touch now f) keeps db.requests d,
  total_left-update max id k (touch now f) db.requests q d found less,
  λ s ne h. (others s ne h.0, h.1),
)
  where
    others :
        (s : DeletionRequest)
        → s.id ≢ id
        → Found (find_request s.id db) (IsRowOf s)
        → Found
            (find? (has_id s.id) (update_where (has_id id) (touch now f) db.requests))
            (IsRowOf s)
    others s ne h = elim (Option-cases (find_request s.id db)) [
      | inl missing ↦ absurd (subst (λ o. Found o (IsRowOf s)) missing h)
      | inr (x, there) ↦
          rw
            (find?-update_where (has_id s.id) (has_id id) (touch now f) db.requests
              (λ a. ap (λ k. k == s.id) (keeps a)))
            (ground (
              arith,
              there,
              ==_iff x.id s.id,
              ==_iff x.id id,
              find?-accepts (has_id s.id) db.requests {a = x} there,
            ))
    ]

pub forget_siblings-Progress :
    (max now user id : ℕ) (db : DeletionDb)
    → IsDistinct db.requests
    → Progress max id 0 db (forget_siblings now user id db)
unfolding forget_siblings
forget_siblings-Progress max now user id db d = (
  update_where-IsDistinct (is_sibling user id) (forget_provider now) (λ r. refl) db.requests d,
  omega (
    arith,
    total_left-same max (is_sibling user id) (forget_provider now) db.requests
        (forgotten_left max now),
  ),
  λ s ne h. (others s h.0, h.1),
)
  where
    others :
        (s : DeletionRequest)
        → Found (find_request s.id db) (IsRowOf s)
        → Found
            (find?
              (has_id s.id)
              (update_where (is_sibling user id) (forget_provider now) db.requests))
            (IsRowOf s)
    others s h = elim (Option-cases (find_request s.id db)) [
      | inl missing ↦ absurd (subst (λ o. Found o (IsRowOf s)) missing h)
      | inr (x, there) ↦
          rw
            (find?-update_where (has_id s.id) (is_sibling user id) (forget_provider now) db.requests
              (λ a. refl))
            (ground (arith, there))
    ]
