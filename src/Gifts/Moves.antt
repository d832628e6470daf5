-- ===== src/Gifts/Moves.antt =====
-- How the writes of the claims and the jobs move one gift (src/gifts/gifts.service.ts,
-- src/jobs/gift-expiry.job.ts, src/jobs/gift-reconciliation.job.ts).
use smartpig_backend.Common.{
  ℕ, ◌≤◌, Bool, true, false, ◌≡◌, ◌⊎◌, refl, arith, Option, none, some, List, [], ◌∷◌, String,
  Exception, ok, err, ◌==◌, ◌&&◌, Bool-cases, Option-cases, Found, inl, inr, any?, find?,
  count_where, update_where, find?-update_where, find?-accepts, Result,
}
use smartpig_backend.Gifts.Rows.{
  Gift, GiftStatus, GiftDb, GiftChain, is_open, is_created, is_funded, is_claiming, find_gift,
  find_gift_by_code, update_gifts,
}
use smartpig_backend.Gifts.Service.{
  ClaimGift, check_claim, take_lock, mark_claimed, release_lock, expire_gift, lock_gift,
  release_gift, finish_gift,
}
use smartpig_backend.Gifts.Jobs.{
  GiftLedger, AgentBalance, fund_one, fund_gift, expire_gifts, refund_one, refund_gift,
}

-- The state of the gift.
abbrev pub status_of : ℕ → GiftDb → Option GiftStatus
status_of id db = elim (find_gift id db) [ none ↦ none | some g ↦ some g.status ]

-- How many rows have the identifier.
abbrev pub rows_of : ℕ → GiftDb → ℕ
rows_of id db = count_where (λ g. g.id == id) db.gifts

abbrev is_from : (GiftStatus → Bool) → Option GiftStatus → Bool
is_from p none = false
is_from p (some s) = p s

-- The gift stays in its state, or goes from one of the states to the new one.
abbrev pub Moves : (GiftStatus → Bool) → GiftStatus → ℕ → GiftDb → GiftDb → Type 0
Moves from to id a b =
    (rows_of id b ≡ rows_of id a)
    × ((status_of id b ≡ status_of id a)
        ⊎ ((is_from from (status_of id a) ≡ true) × (status_of id b ≡ some to)))

count-update_where :
    (id : ℕ) (q : Gift → Bool) (f : Gift → Gift) (gs : List Gift)
    → ((g : Gift) → (f g).id ≡ g.id)
    → count_where (λ g. g.id == id) (update_where q f gs) ≡ count_where (λ g. g.id == id) gs
count-update_where id q f [] keep = refl
count-update_where id q f (g ∷ gs) keep = elim (Bool-cases (q g)) [
  | inl hit ↦ ground (arith, keep g, count-update_where id q f gs keep)
  | inr miss ↦ ground (arith, count-update_where id q f gs keep)
]

-- A conditional update moves the gift, if its condition asks for the states.
update_gifts-Moves :
    (from : GiftStatus → Bool) (to : GiftStatus) (id : ℕ) (q : Gift → Bool) (f : Gift → Gift)
    (db : GiftDb)
    → ((g : Gift) → (f g).id ≡ g.id)
    → ((g : Gift) → q g ≡ true → from g.status ≡ true)
    → ((g : Gift) → (f g).status ≡ to)
    → Moves from to id db (update_gifts q f db)
update_gifts-Moves from to id q f db keep asks sets = (
  count-update_where id q f db.gifts keep,
  grind (
    arith,
    asks,
    sets,
    find?-update_where (λ (g : Gift). g.id == id) q f db.gifts (λ g. rw (keep g) refl),
  ),
)

abbrev pub anything : GiftStatus → Bool
anything s = true

pub fund_one-Moves :
    (ledger : GiftLedger) (known pending : List Gift) (b : AgentBalance) (id : ℕ) (db : GiftDb)
    → Moves is_created GiftStatus.funded id db (fund_one ledger known pending b db)
unfolding fund_one
fund_one-Moves ledger known pending b id db = grind (
  arith,
  λ (g : Gift) (hash : String).
      update_gifts-Moves is_created GiftStatus.funded id
        (λ row. row.id == g.id && is_created row.status) (fund_gift b.balance_id hash) db
        (λ r. refl) (λ r h. ground arith) (λ r. refl),
)

pub expire_gifts-Moves :
    (now id : ℕ) (db : GiftDb) → Moves is_open GiftStatus.expired id db (expire_gifts now db)
unfolding expire_gifts
expire_gifts-Moves now id db =
    update_gifts-Moves is_open GiftStatus.expired id _ expire_gift db (λ r. refl)
      (λ r h. ground arith) (λ r. refl)

-- The row that a claim writes as it marks the gift of a code as expired.
abbrev expired_by : Gift → GiftDb → GiftDb
expired_by g = update_gifts (λ row. row.id == g.id && is_open row.status) expire_gift

check_claim-writes :
    (chain : GiftChain) (now code : ℕ) (dto : ClaimGift) (db : GiftDb)
    → ((check_claim chain now code dto db).1 ≡ db)
      ⊎ Found
          (find_gift_by_code code db)
          (λ g. (check_claim chain now code dto db).1 ≡ expired_by g db)
unfolding check_claim
check_claim-writes chain now code dto db = ground arith

pub check_claim-Moves :
    (chain : GiftChain) (now code : ℕ) (dto : ClaimGift) (id : ℕ) (db : GiftDb)
    → Moves is_open GiftStatus.expired id db (check_claim chain now code dto db).1
check_claim-Moves chain now code dto id db = elim (check_claim-writes chain now code dto db) [
  | inl same ↦ rw same (refl, inl refl)
  | inr wrote ↦ elim (Option-cases (find_gift_by_code code db)) [
    | inl missing ↦ absurd (ground arith)
    | inr found ↦
        let write : (check_claim chain now code dto db).1 ≡ expired_by found.0 db = ground arith in
        rw write (
          update_gifts-Moves is_open GiftStatus.expired id
            (λ row. row.id == found.0.id && is_open row.status) expire_gift db (λ r. refl)
            (λ r h. ground arith) (λ r. refl))
  ]
]

pub release_lock-Moves :
    (id : ℕ) (e : Exception) (db : GiftDb)
    → Moves is_claiming GiftStatus.funded id db (release_lock id e db)
unfolding release_lock
release_lock-Moves id e db =
    update_gifts-Moves is_claiming GiftStatus.funded id _ (release_gift e) db (λ r. refl)
      (λ r h. ground arith) (λ r. refl)

pub refund_one-Moves :
    (ledger : GiftLedger) (g : Gift) (id : ℕ) (db : GiftDb)
    → Moves anything GiftStatus.refunded id db (refund_one ledger g db)
unfolding refund_one
refund_one-Moves ledger g id db = ground (
  arith,
  update_gifts-Moves anything GiftStatus.refunded id (λ row. row.id == g.id) refund_gift db
      (λ r. refl) (λ r h. refl) (λ r. refl),
)

no_funded_row :
    (id : ℕ) (gs : List Gift)
    → count_where (λ g. g.id == id) gs ≡ 0
    → any? (λ g. g.id == id && is_funded g.status) gs ≡ false
no_funded_row id [] h = refl
no_funded_row id (g ∷ gs) h = elim (Bool-cases (g.id == id)) [
  | inl own ↦ absurd (ground arith)
  | inr other ↦ ground (arith, no_funded_row id gs)
]

-- Where the identifier has one row, a search for a funded row and a search for the row agree.
funded_row :
    (id : ℕ) (gs : List Gift)
    → count_where (λ g. g.id == id) gs ≤ 1
    → any? (λ g. g.id == id && is_funded g.status) gs
      ≡ elim (find? (λ g. g.id == id) gs) [ none ↦ false | some g ↦ is_funded g.status ]
funded_row id [] h = refl
funded_row id (g ∷ gs) h = elim (Bool-cases (g.id == id)) [
  | inl own ↦ ground (arith, no_funded_row id gs)
  | inr other ↦ ground (arith, funded_row id gs)
]

-- The lock is taken exactly where the gift is FUNDED, which it leaves as CLAIMING; a claim that does not
-- get the lock leaves the gift as it is.
abbrev pub Locks : ℕ → GiftDb → Result (Unit {0}) × GiftDb → Type 0
Locks id before (ok x, after) =
    (rows_of id after ≡ rows_of id before)
    × (status_of id before ≡ some GiftStatus.funded)
    × (status_of id after ≡ some GiftStatus.claiming)
Locks id before (err e, after) =
    (rows_of id after ≡ rows_of id before) × (status_of id after ≡ status_of id before)

pub take_lock-Locks :
    (id user : ℕ) (db : GiftDb) → rows_of id db ≤ 1 → Locks id db (take_lock id user db)
unfolding take_lock
take_lock-Locks id user db one = grind (
  arith,
  funded_row id db.gifts one,
  count-update_where id (λ g. g.id == id && is_funded g.status) (lock_gift user) db.gifts
      (λ g. refl),
  find?-update_where (λ (g : Gift). g.id == id) (λ (g : Gift). g.id == id && is_funded g.status)
      (lock_gift user) db.gifts (λ g. refl),
  find?-accepts (λ (g : Gift). g.id == id) db.gifts,
)

-- The `catch` frees a gift that is CLAIMING.
pub release_lock-frees :
    (id : ℕ) (e : Exception) (db : GiftDb)
    → status_of id db ≡ some GiftStatus.claiming
    → status_of id (release_lock id e db) ≡ some GiftStatus.funded
unfolding release_lock
release_lock-frees id e db h = grind (
  arith,
  find?-update_where (λ (g : Gift). g.id == id) (λ (g : Gift). g.id == id && is_claiming g.status)
      (release_gift e) db.gifts (λ g. refl),
  find?-accepts (λ (g : Gift). g.id == id) db.gifts,
)

abbrev pub Marks : ℕ → GiftDb → Result (Option Gift) × GiftDb → Type 0
Marks id before (ok g, after) =
    (rows_of id after ≡ rows_of id before) × (status_of id after ≡ some GiftStatus.claimed)
Marks id before (err e, after) = after ≡ before

-- `markClaimed` leaves the gift as CLAIMED, whatever it was, and leaves the tables alone if it throws.
pub mark_claimed-Marks :
    (id : ℕ) (hash : String) (db : GiftDb) → Marks id db (mark_claimed id hash db)
unfolding mark_claimed
mark_claimed-Marks id hash db = grind (
  arith,
  count-update_where id (λ g. g.id == id) (finish_gift hash) db.gifts (λ g. refl),
  find?-update_where (λ (g : Gift). g.id == id) (λ (g : Gift). g.id == id) (finish_gift hash)
      db.gifts (λ g. refl),
  find?-accepts (λ (g : Gift). g.id == id) db.gifts,
)
