-- ===== src/Gifts/Claims.antt =====
-- What a claim of a gift checks, pays and writes (src/gifts/gifts.service.ts: claimGift).
use smartpig_backend.Common.{
  ℕ, ◌≤◌, ◌<◌, true, ◌&&◌, none, some, List, [], ◌∷◌, ◌≡◌, ◌≢◌, ◌==◌, arith, String, Exception, ok,
  err, Returns, Fails, Found, find?, any?, update_where, ==_iff, find?-update_where, refl,
}
use smartpig_backend.Gifts.Rows.{
  Gift, GiftStatus, GiftDb, GiftChain, is_funded, is_claiming, find_gift, find_gift_by_code,
  find_gift_user, find_gift_wallet,
}
use smartpig_backend.Gifts.Service.{
  ClaimGift, Checked, check_claim, take_lock, pay_out, claim_gift, lock_gift, release_gift,
  finish_gift,
}

-- `find?` over identifiers answers with a row of that identifier.
find_gift-id :
    (id : ℕ) (gs : List Gift) {g : Gift} → find? (λ g. g.id == id) gs ≡ some g → g.id ≡ id
find_gift-id id [] h = ground arith
find_gift-id id (x ∷ gs) {g} h = ground (arith, find_gift-id id gs {g = g})

-- Some row with the identifier is funded, if the row that a search finds is.
any?-funded :
    (id : ℕ) (gs : List Gift) {g : Gift}
    → find? (λ g. g.id == id) gs ≡ some g
    → is_funded g.status ≡ true
    → any? (λ g. g.id == id && is_funded g.status) gs ≡ true
any?-funded id [] h f = ground arith
any?-funded id (x ∷ gs) {g} h f = ground (arith, any?-funded id gs {g = g})

find?-lock :
    (id user : ℕ) (gs : List Gift) {g : Gift}
    → find? (λ g. g.id == id) gs ≡ some g
    → is_funded g.status ≡ true
    → find?
        (λ g. g.id == id)
        (update_where (λ g. g.id == id && is_funded g.status) (lock_gift user) gs)
      ≡ some (lock_gift user g)
find?-lock id user gs {g} h f = ground (
  arith,
  find_gift-id id gs h,
  find?-update_where (λ (g : Gift). g.id == id) (λ (g : Gift). g.id == id && is_funded g.status)
      (lock_gift user) gs (λ g. refl),
)

find?-release :
    (id : ℕ) (e : Exception) (gs : List Gift) {g : Gift}
    → find? (λ g. g.id == id) gs ≡ some g
    → is_claiming g.status ≡ true
    → find?
        (λ g. g.id == id)
        (update_where (λ g. g.id == id && is_claiming g.status) (release_gift e) gs)
      ≡ some (release_gift e g)
find?-release id e gs {g} h f = ground (
  arith,
  find_gift-id id gs h,
  find?-update_where (λ (g : Gift). g.id == id) (λ (g : Gift). g.id == id && is_claiming g.status)
      (release_gift e) gs (λ g. refl),
)

find?-finish :
    (id : ℕ) (hash : String) (gs : List Gift) {g : Gift}
    → find? (λ g. g.id == id) gs ≡ some g
    → find? (λ g. g.id == id) (update_where (λ g. g.id == id) (finish_gift hash) gs)
      ≡ some (finish_gift hash g)
find?-finish id hash gs {g} h = ground (
  arith,
  find_gift-id id gs h,
  find?-update_where (λ (g : Gift). g.id == id) (λ (g : Gift). g.id == id) (finish_gift hash) gs
      (λ g. refl),
)

module _ (chain : GiftChain) (now : ℕ) where
  -- A claim reaches the lock only for a gift that has the code, is funded, has not expired and was
  -- not sent by the claimer, whose account is younger than the gift and owns the wallet that is
  -- paid; until the lock the tables are unchanged.
  pub check_claim-Outcome :
      (code : ℕ) (dto : ClaimGift) (db : GiftDb) {c : Checked}
      → (check_claim chain now code dto db).0 ≡ ok c
      → (find_gift_by_code code db ≡ some c.gift)
        × (c.gift.status ≡ GiftStatus.funded)
        × (now ≤ c.gift.expires_at)
        × (c.gift.sender_user_id ≢ dto.user_id)
        × Found (find_gift_user dto.user_id db) (λ u. c.gift.created_at < u.created_at)
        × Found
            (find_gift_wallet dto.wallet_account_id dto.user_id db)
            (λ w. w.stellar_address ≡ c.destination)
        × (c.gift.balance_id ≡ some c.balance_id)
        × ((check_claim chain now code dto db).1 ≡ db)
  unfolding check_claim
  check_claim-Outcome code dto db h =
      grind (arith, λ (g : Gift). ==_iff g.sender_user_id dto.user_id)

  -- A claim whose checks passed on a gift that its identifier finds, and whose payment throws: the
  -- claim throws, and the gift is FUNDED again, with no recipient. Whether the payment reached the
  -- chain is not asked.
  pub claim_failed_reverts :
      (code : ℕ) (dto : ClaimGift) (db : GiftDb) {c : Checked} {e : Exception}
      → (check_claim chain now code dto db).0 ≡ ok c
      → find_gift c.gift.id db ≡ some c.gift
      → chain.claim_and_pay c.balance_id c.destination c.gift.amount ≡ err e
      → Fails (claim_gift chain now code dto db).0
        × Found
            (find_gift c.gift.id (claim_gift chain now code dto db).1)
            (λ g. (g.status ≡ GiftStatus.funded) × (g.recipient_user_id ≡ none))
  unfolding claim_gift take_lock pay_out
  claim_failed_reverts code dto db {c} {e} h own pay =
      let checked = check_claim-Outcome code dto db h in
      let free = any?-funded c.gift.id db.gifts own in
      let locked = find?-lock c.gift.id dto.user_id db.gifts own in
      let released =
        find?-release c.gift.id e
          (update_where (λ g. g.id == c.gift.id && is_funded g.status) (lock_gift dto.user_id)
            db.gifts)
          {g = lock_gift dto.user_id c.gift} in
      ground (arith, free, locked, released)

  -- A claim whose checks passed on a gift that its identifier finds, and whose payment is answered:
  -- the claim returns the gift, which is CLAIMED by the claimer with the hash of the payment.
  pub claim_paid :
      (code : ℕ) (dto : ClaimGift) (db : GiftDb) {c : Checked} {hash : String}
      → (check_claim chain now code dto db).0 ≡ ok c
      → find_gift c.gift.id db ≡ some c.gift
      → chain.claim_and_pay c.balance_id c.destination c.gift.amount ≡ ok hash
      → Returns (claim_gift chain now code dto db).0 (λ answer. Found answer (λ g.
        (g.status ≡ GiftStatus.claimed)
        × (g.recipient_user_id ≡ some dto.user_id)
        × (g.claim_tx_hash ≡ some hash)))
  unfolding claim_gift take_lock pay_out
  claim_paid code dto db {c} {hash} h own pay =
      let checked = check_claim-Outcome code dto db h in
      let free = any?-funded c.gift.id db.gifts own in
      let locked = find?-lock c.gift.id dto.user_id db.gifts own in
      let finished =
        find?-finish c.gift.id hash
          (update_where (λ g. g.id == c.gift.id && is_funded g.status) (lock_gift dto.user_id)
            db.gifts)
          {g = lock_gift dto.user_id c.gift} in
      ground (arith, free, locked, finished)
