-- ===== src/Gifts/Limits.antt =====
-- The limits on creating gifts and on what a listing shows (src/gifts/gifts.service.ts: createGift,
-- listGifts).
use smartpig_backend.Common.{
  ℕ, ◌≤◌, ◌<◌, true, none, some, List, [], ◌∷◌, ◌≡◌, ◌⊎◌, arith, map, All, ok, is_some, ==_iff,
}
use smartpig_backend.Gifts.Rows.{
  Gift, GiftDb, GiftConfig, GiftChain, pending_count, find_gift_by_key, find_gift_wallet,
}
use smartpig_backend.Gifts.Service.{
  CreateGift, GiftAnswer, create_gift, create_new_gift, can_gift, in_bounds, answer, new_gift,
  GiftView, view_gift, list_gifts,
}

module _ (config : GiftConfig) (chain : GiftChain) (now : ℕ) where
  -- No request to create a gift, whether it returns or throws, brings a sender above the limit of
  -- pending gifts.
  pending_limit :
      (dto : CreateGift) (user : ℕ) (db : GiftDb)
      → pending_count user db ≤ config.max_pending_per_user
      → pending_count user (create_gift config chain now dto db).1 ≤ config.max_pending_per_user
  unfolding create_gift create_new_gift answer
  pending_limit dto user db h = ground arith

  -- A request to create a gift that returns and whose key no gift had: the sender is on the list of
  -- allowed accounts, the amount is within the bounds, the sender owns an active wallet and had
  -- fewer pending gifts than the limit; the answer is a created gift of that amount that expires
  -- after the configured time, and it is the first of the rows.
  create_gift-Outcome :
      (dto : CreateGift) (db : GiftDb) {a : GiftAnswer}
      → find_gift_by_key dto.idempotency_key db ≡ none
      → (create_gift config chain now dto db).0 ≡ ok a
      → (can_gift config dto.user_id db ≡ true)
        × (in_bounds config dto.amount ≡ true)
        × (is_some (find_gift_wallet dto.wallet_account_id dto.user_id db) ≡ true)
        × (pending_count dto.user_id db < config.max_pending_per_user)
        × (a.gift ≡ new_gift config chain now db.next_id dto)
        × ((create_gift config chain now dto db).1.gifts ≡ a.gift ∷ db.gifts)
  unfolding create_gift create_new_gift answer
  create_gift-Outcome dto db fresh h = ground arith

  -- If a gift has the key of the request and the agent's address can be read, then the request
  -- returns that gift, with its code, whoever asks, and writes nothing.
  pub create_gift_foreign_key :
      (dto : CreateGift) (db : GiftDb) {gift : Gift} {address : _}
      → find_gift_by_key dto.idempotency_key db ≡ some gift
      → chain.agent_public_key ≡ ok address
      → create_gift config chain now dto db
        ≡ (ok (record { gift = gift; claim_agent_address = address }), db)
  unfolding create_gift answer
  create_gift_foreign_key dto db h e = ground arith

-- A view names the sender, or hides the code and the balance.
abbrev Hides : GiftView → Type 0
Hides v = (v.sent ≡ true) ⊎ ((v.code ≡ none) × (v.balance_id ≡ none))

view_gift-Hides : (user : ℕ) (g : Gift) → Hides (view_gift user g)
unfolding view_gift
view_gift-Hides user g = ground arith

map-view_gift-Hides : (user : ℕ) (gs : List Gift) → All Hides (map (view_gift user) gs)
map-view_gift-Hides user [] = tt
map-view_gift-Hides user (g ∷ gs) = (view_gift-Hides user g, map-view_gift-Hides user gs)

-- Each row of a listing is about a gift that the user sent, or hides the code and the balance of the
-- gift.
pub list_gifts_hides :
    (user : ℕ) (db : GiftDb)
    → All (λ v. (v.sent ≡ true) ⊎ ((v.code ≡ none) × (v.balance_id ≡ none))) (list_gifts user db)
unfolding list_gifts
list_gifts_hides user db = map-view_gift-Hides user _

-- A row that shows a code shows it to the sender of that gift.
pub view_gift-code :
    (user : ℕ) (g : Gift) {c : ℕ}
    → (view_gift user g).code ≡ some c
    → (g.sender_user_id ≡ user) × (g.code ≡ c)
unfolding view_gift
view_gift-code user g h = grind (arith, ==_iff g.sender_user_id user)
