-- ===== src/Examples/Gifts.antt =====
-- The laws of the gifts, at concrete rows.
use smartpig_backend.Common.{
  ℕ, ◌+◌, arith, false, ◌≡◌, ◌≢◌, ◌↔◌, ◌<◌, ◌≤◌, refl, true, none, some, [], ◌∷◌, ok, err, Returns,
  Fails, Found,
}
use smartpig_backend.Gifts.Rows.{
  Gift, GiftStatus, GiftDb, GiftConfig, GiftChain, find_gift, find_gift_by_code, find_gift_user,
  find_gift_wallet,
}
use smartpig_backend.Gifts.Service.{
  CreateGift, ClaimGift, Checked, create_gift, create_new_gift, answer, can_gift, in_bounds,
  new_gift, check_claim, claim_gift, lock_gift, finish_gift, release_gift, take_lock, mark_claimed,
  release_lock,
}
use smartpig_backend.Gifts.Jobs.{GiftLedger, fund_gift, fund_one}
use smartpig_backend.Gifts.Claims.{check_claim-Outcome, claim_failed_reverts, claim_paid}
use smartpig_backend.Gifts.Moves.{status_of}
use smartpig_backend.Gifts.Steps.{Shared, Step, Reachable}
use smartpig_backend.Gifts.Lock.{claimed_count, one_claim_pays}
use smartpig_backend.Examples.Data.{amount, timeout}

abbrev config : GiftConfig
config = record {
  allowed_emails = none;
  min_usd = 1;
  max_usd = 100;
  max_pending_per_user = 2;
  expiry_ms = 1000;
}

abbrev chain : GiftChain
chain = record {
  agent_public_key = ok "GAGENT";
  claim_and_pay = λ balance destination paid. ok "f00d";
  random_code = 424242;
  random_memo = 77;
}

abbrev broken_chain : GiftChain
broken_chain = record chain { claim_and_pay = λ balance destination paid. err timeout }

abbrev created_gift : Gift
created_gift = record {
  id = 1;
  idempotency_key = 10;
  code = 111;
  sender_user_id = 1;
  sender_wallet_id = 20;
  recipient_user_id = none;
  amount = amount;
  status = GiftStatus.created;
  balance_id = none;
  funding_tx_hash = none;
  claim_tx_hash = none;
  memo = 5;
  error_message = none;
  expires_at = 5000;
  created_at = 100;
}

abbrev funded_gift : Gift
funded_gift = fund_gift 99 "beef" created_gift

abbrev db : GiftDb
db = record {
  gifts = funded_gift ∷ [];
  users =
      record { id = 1; email = none; created_at = 50 }
      ∷ record { id = 2; email = none; created_at = 200 }
      ∷ [];
  wallets =
      record { id = 20; user_id = 1; stellar_address = "GA"; is_active = true; is_activated = true }
      ∷ record {
        id = 21;
        user_id = 2;
        stellar_address = "GB";
        is_active = true;
        is_activated = true;
      }
      ∷ [];
  next_id = 2;
}

abbrev creation : CreateGift
creation = record { idempotency_key = 11; user_id = 1; wallet_account_id = 20; amount = amount }

created :
    (create_gift config chain 1000 creation db).0
    ≡ ok (record { gift = new_gift config chain 1000 2 creation; claim_agent_address = "GAGENT" })
unfolding create_gift create_new_gift answer can_gift in_bounds
created = refl

abbrev claim : ClaimGift
claim = record { user_id = 2; wallet_account_id = 21; stellar_address = "GB" }

abbrev checked : Checked
checked = record { gift = funded_gift; balance_id = 99; destination = "GB" }

reaches_lock : (check_claim chain 1000 111 claim db).0 ≡ ok checked
unfolding check_claim
reaches_lock = refl

retry_reaches_lock : (check_claim broken_chain 1000 111 claim db).0 ≡ ok checked
unfolding check_claim
retry_reaches_lock = refl

check_claim-Outcome_example :
    (find_gift_by_code 111 db ≡ some funded_gift)
    × (funded_gift.status ≡ GiftStatus.funded)
    × (1000 ≤ funded_gift.expires_at)
    × (funded_gift.sender_user_id ≢ claim.user_id)
    × Found (find_gift_user 2 db) (λ u. funded_gift.created_at < u.created_at)
    × Found (find_gift_wallet 21 2 db) (λ w. w.stellar_address ≡ "GB")
    × (funded_gift.balance_id ≡ some checked.balance_id)
    × ((check_claim chain 1000 111 claim db).1 ≡ db)
check_claim-Outcome_example = check_claim-Outcome chain 1000 111 claim db reaches_lock

claim_failed_reverts_example :
    Fails (claim_gift broken_chain 1000 111 claim db).0
    × Found
        (find_gift 1 (claim_gift broken_chain 1000 111 claim db).1)
        (λ g. (g.status ≡ GiftStatus.funded) × (g.recipient_user_id ≡ none))
claim_failed_reverts_example =
    claim_failed_reverts broken_chain 1000 111 claim db retry_reaches_lock refl refl

claim_paid_example : Returns (claim_gift chain 1000 111 claim db).0 (λ answer. Found answer (λ g.
    (g.status ≡ GiftStatus.claimed)
    × (g.recipient_user_id ≡ some 2)
    × (g.claim_tx_hash ≡ some "f00d")))
claim_paid_example = claim_paid chain 1000 111 claim db reaches_lock refl refl

-- The balance 99 was created with the memo of the gift.
abbrev ledger : GiftLedger
ledger = record {
  is_configured = true;
  list_balances = ok [];
  funding_tx = λ id. ok (some (record { hash = "beef"; memo = some created_gift.memo }));
  balance_exists = λ id. ok true;
  same_amount = λ a b. true;
}

abbrev row : Gift → GiftDb
row g = record db { gifts = g ∷ [] }

abbrev shared : Gift → ℕ → ℕ → ℕ → ℕ → Shared
shared g paying marking paid lost = record {
  db = row g;
  paying = paying;
  marking = marking;
  paid = paid;
  lost = lost;
  refunding = false;
}

fund_step : Step 1 (shared created_gift 0 0 0 0) (shared funded_gift 0 0 0 0)
unfolding fund_one
fund_step =
    Step.funds (shared created_gift 0 0 0 0) ledger [] (created_gift ∷ [])
      (record { balance_id = 99; amount = amount })

-- The answer of the payment is lost, and the gift is free again.
abbrev freed_gift : Gift
freed_gift = release_gift timeout (lock_gift 2 funded_gift)

lock_step :
    (g : Gift) (paid lost : ℕ)
    → take_lock 1 2 (row g) ≡ (ok tt, row (lock_gift 2 g))
    → Step 1 (shared g 0 0 paid lost) (shared (lock_gift 2 g) 1 0 paid lost)
lock_step g paid lost h = Step.locks (shared g 0 0 paid lost) 2 h

funded_lock : take_lock 1 2 (row funded_gift) ≡ (ok tt, row (lock_gift 2 funded_gift))
unfolding take_lock
funded_lock = refl

freed_lock : take_lock 1 2 (row freed_gift) ≡ (ok tt, row (lock_gift 2 freed_gift))
unfolding take_lock
freed_lock = refl

lose_step : Step 1 (shared (lock_gift 2 funded_gift) 0 1 1 0) (shared freed_gift 0 0 1 1)
unfolding release_lock
lose_step = Step.mark_fails (shared (lock_gift 2 funded_gift) 0 1 1 0) 0 timeout refl

abbrev claimed_gift : Gift
claimed_gift = finish_gift "f00d" (lock_gift 2 freed_gift)

marked :
    mark_claimed 1 "f00d" (row (lock_gift 2 freed_gift))
    ≡ (ok (some claimed_gift), row claimed_gift)
unfolding mark_claimed
marked = refl

-- The gift is funded, locked and paid, which is not recorded; it is locked again, paid again and CLAIMED.
paid_twice : Reachable 1 (row created_gift) (shared claimed_gift 0 0 2 1)
paid_twice =
    let funded = Reachable.next Reachable.initial fund_step in
    let locked = Reachable.next funded (lock_step funded_gift 0 0 funded_lock) in
    let paid =
      Reachable.next locked (Step.pays (shared (lock_gift 2 funded_gift) 1 0 0 0) 0 refl) in
    let freed = Reachable.next paid lose_step in
    let again = Reachable.next freed (lock_step freed_gift 1 1 freed_lock) in
    let twice = Reachable.next again (Step.pays (shared (lock_gift 2 freed_gift) 1 0 1 1) 0 refl) in
    Reachable.next twice (Step.marks (shared (lock_gift 2 freed_gift) 0 1 2 1) 0 "f00d" refl marked)

one_claim_pays_example :
    (0 + 0 ≤ 1)
    × ((0 + 0 ≡ 1) ↔ (status_of 1 (row claimed_gift) ≡ some GiftStatus.claiming))
    × (2 ≤ 1 + 1)
    × (2 ≡ 0 + 1 + claimed_count (status_of 1 (row claimed_gift)))
one_claim_pays_example =
    one_claim_pays 1 {start = row created_gift} {s = shared claimed_gift 0 0 2 1} (ground arith)
      refl paid_twice
