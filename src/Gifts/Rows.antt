-- ===== src/Gifts/Rows.antt =====
-- The rows that the gift service reads and writes (prisma/schema.prisma: Gift, User, WalletAccount),
-- its configuration and the Stellar calls that it makes.
use smartpig_backend.Common.{
  ℕ, Bool, true, false, ◌&&◌, ◌||◌, Option, List, String, ◌==◌, find?, count_where, update_where,
  Result,
}
use smartpig_backend.Schema.Vaults.{WalletAccount}
use smartpig_backend.Schema.Intents.{Decimal}

pub data GiftStatus : Type 0 where
  created funded claiming claimed expired refunded : GiftStatus

pub record Gift : Type 0 where
  pub id : ℕ
  pub idempotency_key : ℕ
  -- The bearer secret of the link.
  pub code : ℕ
  pub sender_user_id : ℕ
  pub sender_wallet_id : ℕ
  pub recipient_user_id : Option ℕ
  pub amount : Decimal
  pub status : GiftStatus
  pub balance_id : Option ℕ
  pub funding_tx_hash : Option String
  pub claim_tx_hash : Option String
  pub memo : ℕ
  pub error_message : Option String
  pub expires_at : ℕ
  pub created_at : ℕ

pub record GiftUser : Type 0 where
  pub id : ℕ
  -- In lower case, as the service compares it.
  pub email : Option (List ℕ)
  pub created_at : ℕ

pub record GiftDb : Type 0 where
  pub gifts : List Gift
  pub users : List GiftUser
  pub wallets : List WalletAccount
  pub next_id : ℕ

-- `GIFT_ALLOWED_EMAILS` (absent if it is blank; trimmed, split and in lower case otherwise), the
-- bounds of an amount in whole units, and the limits.
pub record GiftConfig : Type 0 where
  pub allowed_emails : Option (List (List ℕ))
  pub min_usd : ℕ
  pub max_usd : ℕ
  pub max_pending_per_user : ℕ
  pub expiry_ms : ℕ

-- `GiftStellarService` and the random source, as one request finds them.
pub record GiftChain : Type 0 where
  pub agent_public_key : Result String
  pub claim_and_pay : ℕ → String → Decimal → Result String
  pub random_code : ℕ
  pub random_memo : ℕ

abbrev pub is_created : GiftStatus → Bool
is_created GiftStatus.created = true
is_created _ = false

abbrev pub is_funded : GiftStatus → Bool
is_funded GiftStatus.funded = true
is_funded _ = false

abbrev pub is_claiming : GiftStatus → Bool
is_claiming GiftStatus.claiming = true
is_claiming _ = false

abbrev pub is_expired : GiftStatus → Bool
is_expired GiftStatus.expired = true
is_expired _ = false

-- `status: { in: [CREATED, FUNDED] }`
abbrev pub is_open : GiftStatus → Bool
is_open s = is_created s || is_funded s

abbrev pub find_gift : ℕ → GiftDb → Option Gift
find_gift id db = find? (λ g. g.id == id) db.gifts

abbrev pub find_gift_by_key : ℕ → GiftDb → Option Gift
find_gift_by_key key db = find? (λ g. g.idempotency_key == key) db.gifts

abbrev pub find_gift_by_code : ℕ → GiftDb → Option Gift
find_gift_by_code code db = find? (λ g. g.code == code) db.gifts

abbrev pub find_gift_user : ℕ → GiftDb → Option GiftUser
find_gift_user id db = find? (λ u. u.id == id) db.users

abbrev pub find_gift_wallet : ℕ → ℕ → GiftDb → Option WalletAccount
find_gift_wallet id user db = find? (λ w. w.id == id && w.user_id == user && w.is_active) db.wallets

-- The gifts of a sender that are created or funded.
abbrev pub pending_count : ℕ → GiftDb → ℕ
pending_count user db = count_where (λ g. g.sender_user_id == user && is_open g.status) db.gifts

-- `gift.updateMany({ where: { id, status } })`
abbrev pub update_gifts : (Gift → Bool) → (Gift → Gift) → GiftDb → GiftDb
update_gifts p f db = record db { gifts = update_where p f db.gifts }
