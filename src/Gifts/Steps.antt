-- ===== src/Gifts/Steps.antt =====
-- The steps of the claims of one gift and of the jobs (src/gifts/gifts.service.ts: claimGift, markClaimed, and the
-- jobs that change the same row): interleavings of requests and jobs, one write or one answer of the
-- network at a time.
use smartpig_backend.Common.{
  ℕ, ◌+◌, Bool, true, false, ◌≡◌, Option, some, List, String, Exception, ok, err, suc,
}
use smartpig_backend.Gifts.Rows.{Gift, GiftStatus, GiftDb, GiftChain}
use smartpig_backend.Gifts.Service.{ClaimGift, check_claim, take_lock, mark_claimed, release_lock}
use smartpig_backend.Gifts.Jobs.{GiftLedger, AgentBalance, fund_one, expire_gifts, refund_one}
use smartpig_backend.Gifts.Moves.{status_of}

-- The tables, and where the claims of one gift are: in the payment, or after its answer in
-- `markClaimed`. Counted are the payments that were answered, and those of them that `markClaimed` did
-- not record. Whether `detectRefunds` read the gift as EXPIRED.
pub record Shared : Type 0 where
  pub db : GiftDb
  pub paying : ℕ
  pub marking : ℕ
  pub paid : ℕ
  pub lost : ℕ
  pub refunding : Bool

module _ (id : ℕ) where
  -- One write of a request or a job, or one answer of the network; requests run side by side, so any of
  -- these may come between two of another. The locks and the ends of the claims of other gifts, and new
  -- gifts, do not write the row and are left out.
  pub data Step : Shared → Shared → Type 0 where
    -- A round of `fundPendingGifts`, of whatever gifts were read before
    funds :
        (s : Shared) (ledger : GiftLedger) (known pending : List Gift) (b : AgentBalance)
        → Step s (record s { db = fund_one ledger known pending b s.db })
    expires : (s : Shared) (now : ℕ) → Step s (record s { db = expire_gifts now s.db })
    -- The checks of a claim, of this gift or another, which mark an expired gift
    checks :
        (s : Shared) (chain : GiftChain) (now code : ℕ) (dto : ClaimGift)
        → Step s (record s { db = (check_claim chain now code dto s.db).1 })
    locks :
        (s : Shared) (user : ℕ) {x : Unit {0}} {after : GiftDb}
        → take_lock id user s.db ≡ (ok x, after)
        → Step s (record s { db = after; paying = s.paying + 1 })
    -- A claim that does not get the lock throws
    misses :
        (s : Shared) (user : ℕ) {e : Exception} {after : GiftDb}
        → take_lock id user s.db ≡ (err e, after)
        → Step s (record s { db = after })
    -- `claimAndPay` answers
    pays :
        (s : Shared) (n : ℕ)
        → s.paying ≡ suc n
        → Step s (record s { paying = n; marking = s.marking + 1; paid = s.paid + 1 })
    -- `claimAndPay` throws, and the `catch` releases the lock
    pay_fails :
        (s : Shared) (n : ℕ) (e : Exception)
        → s.paying ≡ suc n
        → Step s (record s { db = release_lock id e s.db; paying = n })
    marks :
        (s : Shared) (n : ℕ) (hash : String) {g : Option Gift} {after : GiftDb}
        → s.marking ≡ suc n
        → mark_claimed id hash s.db ≡ (ok g, after)
        → Step s (record s { db = after; marking = n })
    -- `markClaimed` throws after an answered payment, and the `catch` releases the lock
    mark_fails :
        (s : Shared) (n : ℕ) (e : Exception)
        → s.marking ≡ suc n
        → Step s (record s { db = release_lock id e s.db; marking = n; lost = s.lost + 1 })
    -- `detectRefunds` reads the gift, and later writes it
    reads :
        (s : Shared)
        → status_of id s.db ≡ some GiftStatus.expired
        → Step s (record s { refunding = true })
    refunds :
        (s : Shared) (ledger : GiftLedger) (g : Gift)
        → g.id ≡ id
        → s.refunding ≡ true
        → Step s (record s { db = refund_one ledger g s.db })

  pub data Reachable (start : GiftDb) : Shared → Type 0 where
    initial :
        Reachable start
          (record { db = start; paying = 0; marking = 0; paid = 0; lost = 0; refunding = false })
    next : {s t : Shared} → Reachable start s → Step s t → Reachable start t
