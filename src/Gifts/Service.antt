-- ===== src/Gifts/Service.antt =====
-- Creating, previewing, claiming and listing gifts (src/gifts/gifts.service.ts).
use smartpig_backend.Common.{
  ℕ, ◌+◌, ◌*◌, ◌^◌, Bool, true, false, ◌&&◌, ◌||◌, not, Option, none, some, List, ◌∷◌, map, String,
  ◌==◌, ltb, leb, if◌then◌else◌, filter, any?, codes, same_text, http, ErrorKind, Exception, Result,
  ok, err, Action, pure, throw, gets, modify, lift, or_throw, throw_if, ◌>>=◌, ◌>>◌,
}
use smartpig_backend.Schema.Intents.{Decimal}
use smartpig_backend.Gifts.Rows.{
  Gift, GiftStatus, GiftUser, GiftDb, GiftConfig, GiftChain, is_open, is_funded, is_claiming,
  find_gift, find_gift_by_key, find_gift_by_code, find_gift_user, find_gift_wallet, pending_count,
  update_gifts,
}

pub record CreateGift : Type 0 where
  pub idempotency_key : ℕ
  pub user_id : ℕ
  pub wallet_account_id : ℕ
  pub amount : Decimal

pub record ClaimGift : Type 0 where
  pub user_id : ℕ
  pub wallet_account_id : ℕ
  pub stellar_address : String

-- The answer to the sender: the row, with its code, and the agent's address.
pub record GiftAnswer : Type 0 where
  pub gift : Gift
  pub claim_agent_address : String

abbrev pub gifting_disabled : Exception
gifting_disabled = http ErrorKind.forbidden "Gifting is not enabled for this account yet"

abbrev pub amount_out_of_bounds : Exception
amount_out_of_bounds = http ErrorKind.bad_request "Gift amount out of bounds"

abbrev pub gift_wallet_not_found : Exception
gift_wallet_not_found = http ErrorKind.not_found "Wallet not found for user"

abbrev pub too_many_pending : Exception
too_many_pending = http ErrorKind.conflict "You already have pending gift(s)"

abbrev pub gift_not_found : Exception
gift_not_found = http ErrorKind.not_found "Gift not found"

abbrev pub gift_has_expired : Exception
gift_has_expired = http ErrorKind.gone "Gift has expired"

abbrev pub own_gift : Exception
own_gift = http ErrorKind.forbidden "You cannot claim your own gift"

abbrev pub recipient_not_found : Exception
recipient_not_found = http ErrorKind.not_found "User not found"

abbrev pub account_too_old : Exception
account_too_old =
    http ErrorKind.forbidden "Gifts can only be claimed by accounts created after the gift"

abbrev pub address_mismatch : Exception
address_mismatch = http ErrorKind.bad_request "stellarAddress does not match the wallet account"

abbrev pub not_confirmed_yet : Exception
not_confirmed_yet = http ErrorKind.conflict "Gift funding has not been confirmed yet"

abbrev pub being_claimed : Exception
being_claimed = http ErrorKind.conflict "Gift is already being claimed"

-- Prisma's P2025
abbrev gift_record_missing : Exception
gift_record_missing = http ErrorKind.plain "No record found"

abbrev pub delivery_failed : Exception
delivery_failed =
    http ErrorKind.service_unavailable "Failed to deliver the gift on-chain; please try again"

-- `NOT_CLAIMABLE_MESSAGES`
unfoldable pub not_claimable_message : GiftStatus → String
not_claimable_message GiftStatus.created = "Gift funding has not been confirmed yet"
not_claimable_message GiftStatus.claiming = "Gift claim is already in progress"
not_claimable_message GiftStatus.claimed = "Gift was already claimed"
not_claimable_message GiftStatus.expired = "Gift has expired"
not_claimable_message GiftStatus.refunded = "Gift was returned to the sender"
not_claimable_message GiftStatus.funded = "Gift is not claimable (status FUNDED)"

-- `getEligibility`
allows : Option (List (List ℕ)) → Option GiftUser → Bool
allows none user = true
allows (some emails) none = false
allows (some emails) (some u) = elim u.email [
  | none ↦ false
  | some e ↦ any? (λ allowed. same_text allowed e) emails
]

unfoldable pub can_gift : GiftConfig → ℕ → GiftDb → Bool
unfolding allows
can_gift config user db = allows config.allowed_emails (find_gift_user user db)

-- `Number.isFinite(amount) && min <= amount && amount <= max`, on the decimal itself: the rounding of
-- `Number` is left out.
unfoldable pub in_bounds : GiftConfig → Decimal → Bool
in_bounds config d =
    not d.negative
    && leb (config.min_usd * 10 ^ d.scale) d.coefficient
    && leb d.coefficient (config.max_usd * 10 ^ d.scale)

module _ (config : GiftConfig) (chain : GiftChain) (now : ℕ) where
  open chain use {agent_public_key, claim_and_pay, random_code, random_memo}

  abbrev pub new_gift : ℕ → CreateGift → Gift
  new_gift id dto = record {
    id = id;
    idempotency_key = dto.idempotency_key;
    code = random_code;
    sender_user_id = dto.user_id;
    sender_wallet_id = dto.wallet_account_id;
    recipient_user_id = none;
    amount = dto.amount;
    status = GiftStatus.created;
    balance_id = none;
    funding_tx_hash = none;
    claim_tx_hash = none;
    memo = random_memo;
    error_message = none;
    expires_at = now + config.expiry_ms;
    created_at = now;
  }

  -- `{ ...gift, claimAgentAddress }`
  unfoldable pub answer : Gift → Action GiftDb GiftAnswer
  answer gift = do
    address ← lift agent_public_key
    pure (record { gift = gift; claim_agent_address = address })

  -- The part of `createGift` after the idempotency check.
  unfoldable pub create_new_gift : CreateGift → Action GiftDb GiftAnswer
  unfolding answer
  create_new_gift dto = do
    allowed ← gets (can_gift config dto.user_id)
    throw_if (not allowed) gifting_disabled
    throw_if (not (in_bounds config dto.amount)) amount_out_of_bounds
    wallet ←
        or_throw (← gets (find_gift_wallet dto.wallet_account_id dto.user_id)) gift_wallet_not_found
    pending ← gets (pending_count dto.user_id)
    throw_if (leb config.max_pending_per_user pending) too_many_pending
    id ← gets (λ db. db.next_id)
    modify (λ db. record db { gifts = new_gift id dto ∷ db.gifts; next_id = id + 1 })
    answer (new_gift id dto)

  -- A gift with the key answers for the request, whoever asks.
  unfoldable pub create_gift : CreateGift → Action GiftDb GiftAnswer
  unfolding answer
  create_gift dto = do
    existing ← gets (find_gift_by_key dto.idempotency_key)
    elim existing [ some gift ↦ answer gift | none ↦ create_new_gift dto ]

-- The conditional updates of a claim, on one row.
abbrev pub expire_gift : Gift → Gift
expire_gift g = record g {
  status = GiftStatus.expired;
  error_message = some "Gift expired without a claim";
}

abbrev pub lock_gift : ℕ → Gift → Gift
lock_gift user g = record g { status = GiftStatus.claiming; recipient_user_id = some user }

abbrev pub release_gift : Exception → Gift → Gift
release_gift e g = record g {
  status = GiftStatus.funded;
  recipient_user_id = none;
  error_message = some e.message;
}

abbrev pub finish_gift : String → Gift → Gift
finish_gift hash g = record g { status = GiftStatus.claimed; claim_tx_hash = some hash }

-- The one-shot lock, FUNDED to CLAIMING: `updateMany` counts the rows that it changed.
unfoldable pub take_lock : ℕ → ℕ → Action GiftDb (Unit {0})
take_lock id user = do
  free ← gets (λ db. any? (λ g. g.id == id && is_funded g.status) db.gifts)
  modify (update_gifts (λ g. g.id == id && is_funded g.status) (lock_gift user))
  throw_if (not free) being_claimed

-- `markClaimed`: an update by the identifier, which throws if there is no row.
unfoldable pub mark_claimed : ℕ → String → Action GiftDb (Option Gift)
mark_claimed id hash = do
  old ← or_throw (← gets (find_gift id)) gift_record_missing
  modify (update_gifts (λ g. g.id == id) (finish_gift hash))
  gets (find_gift id)

-- The update of the `catch`.
unfoldable pub release_lock : ℕ → Exception → GiftDb → GiftDb
release_lock id e = update_gifts (λ g. g.id == id && is_claiming g.status) (release_gift e)

-- What the claim carries from its checks to the lock.
pub record Checked : Type 0 where
  pub gift : Gift
  pub balance_id : ℕ
  pub destination : String

abbrev is_service_unavailable : ErrorKind → Bool
is_service_unavailable ErrorKind.service_unavailable = true
is_service_unavailable _ = false

module _ (chain : GiftChain) (now : ℕ) where
  open chain use {claim_and_pay}

  -- The checks of `claimGift`, in the order of the source; an expired gift is marked on the way.
  unfoldable pub check_claim : ℕ → ClaimGift → Action GiftDb Checked
  unfolding not_claimable_message same_text
  check_claim code dto = do
    gift ← or_throw (← gets (find_gift_by_code code)) gift_not_found
    modify (
        if ltb gift.expires_at now
        then update_gifts (λ g. g.id == gift.id && is_open g.status) expire_gift
        else λ db. db)
    throw_if (ltb gift.expires_at now) gift_has_expired
    throw_if (not (is_funded gift.status))
        (http ErrorKind.conflict (not_claimable_message gift.status))
    throw_if (gift.sender_user_id == dto.user_id) own_gift
    recipient ← or_throw (← gets (find_gift_user dto.user_id)) recipient_not_found
    throw_if (leb recipient.created_at gift.created_at) account_too_old
    wallet ←
        or_throw (← gets (find_gift_wallet dto.wallet_account_id dto.user_id)) gift_wallet_not_found
    throw_if (not (same_text (codes wallet.stellar_address) (codes dto.stellar_address)))
        address_mismatch
    balance ← or_throw gift.balance_id not_confirmed_yet
    pure (record { gift = gift; balance_id = balance; destination = wallet.stellar_address })

  -- The end of the `try`: the lock is released if anything in it threw.
  end_claim : ℕ → Result (Option Gift) → Action GiftDb (Option Gift)
  unfolding release_lock
  end_claim id (ok claimed) = pure claimed
  end_claim id (err e) = do
    modify (release_lock id e)
    throw (if is_service_unavailable e.kind then e else delivery_failed)

  -- The `try` around the payment: `markClaimed` stands in it, after an answered payment.
  settle : Checked → Result String → Action GiftDb (Option Gift)
  unfolding mark_claimed end_claim
  settle c (ok hash) db =
      let marked = mark_claimed c.gift.id hash db in end_claim c.gift.id marked.0 marked.1
  settle c (err e) db = end_claim c.gift.id (err e) db

  unfoldable pub pay_out : Checked → Action GiftDb (Option Gift)
  unfolding settle
  pay_out c = settle c (claim_and_pay c.balance_id c.destination c.gift.amount)

  -- `claimGift`; the notification after it is left out.
  unfoldable pub claim_gift : ℕ → ClaimGift → Action GiftDb (Option Gift)
  claim_gift code dto = do c ← check_claim code dto; take_lock c.gift.id dto.user_id; pay_out c

-- One row of `listGifts`: the code and the balance are for the sender alone.
pub record GiftView : Type 0 where
  pub gift_id : ℕ
  pub code : Option ℕ
  pub balance_id : Option ℕ
  pub sent : Bool

unfoldable pub view_gift : ℕ → Gift → GiftView
view_gift user g =
    if g.sender_user_id == user
    then record { gift_id = g.id; code = some g.code; balance_id = g.balance_id; sent = true }
    else record { gift_id = g.id; code = none; balance_id = none; sent = false }

abbrev is_recipient : ℕ → Option ℕ → Bool
is_recipient user none = false
is_recipient user (some r) = r == user

unfoldable pub list_gifts : ℕ → GiftDb → List GiftView
list_gifts user db =
    map (view_gift user)
      (filter (λ g. g.sender_user_id == user || is_recipient user g.recipient_user_id) db.gifts)
