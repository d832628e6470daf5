-- ===== src/Gifts/Lock.antt =====
-- What the lock of a claim ensures (src/gifts/gifts.service.ts: claimGift, markClaimed), however the
-- claims and the jobs interleave.
use smartpig_backend.Common.{
  ℕ, ◌≤◌, ◌+◌, Bool, true, false, ◌≡◌, ◌↔◌, arith, Option, some, Exception, ok, err, suc, subst,
  refl,
}
use smartpig_backend.Gifts.Rows.{GiftStatus, GiftDb, is_open, is_created}
use smartpig_backend.Gifts.Service.{release_lock}
use smartpig_backend.Gifts.Jobs.{refund_one}
use smartpig_backend.Gifts.Moves.{
  status_of, rows_of, Moves, Locks, Marks, anything, fund_one-Moves, expire_gifts-Moves,
  check_claim-Moves, release_lock-Moves, release_lock-frees, refund_one-Moves, take_lock-Locks,
  mark_claimed-Marks,
}
use smartpig_backend.Gifts.Steps.{Shared, Step, Reachable}

abbrev claiming_count : Option GiftStatus → ℕ
claiming_count (some GiftStatus.claiming) = 1
claiming_count _ = 0

abbrev pub claimed_count : Option GiftStatus → ℕ
claimed_count (some GiftStatus.claimed) = 1
claimed_count _ = 0

abbrev is_past : Option GiftStatus → Bool
is_past (some GiftStatus.expired) = true
is_past (some GiftStatus.refunded) = true
is_past _ = false

-- The gift is CLAIMING exactly while one claim is in its `try`, and CLAIMED once a payment was recorded;
-- a gift that was read as EXPIRED stays so, or is REFUNDED.
record IsLocked (id : ℕ) (s : Shared) : Type 0 where
  one_row : rows_of id s.db ≤ 1
  trying : s.paying + s.marking ≡ claiming_count (status_of id s.db)
  answered : s.paid ≡ s.marking + s.lost + claimed_count (status_of id s.db)
  read : s.refunding ≡ true → is_past (status_of id s.db) ≡ true

-- A write that moves the gift on from a state in which no claim holds it.
moved-IsLocked :
    (from : GiftStatus → Bool) (to : GiftStatus) (id : ℕ) {s : Shared} {after : GiftDb}
    → ((x : GiftStatus) → from x ≡ true → claiming_count (some x) + claimed_count (some x) ≡ 0)
    → claiming_count (some to) + claimed_count (some to) ≡ 0
    → ((x : GiftStatus) → from x ≡ true → is_past (some x) ≡ true → is_past (some to) ≡ true)
    → IsLocked id s
    → Moves from to id s.db after
    → IsLocked id (record s { db = after })
moved-IsLocked from to id {s} {after} free still past h m =
    let one = h.one_row in
    let trying = h.trying in
    let answered = h.answered in
    let read = h.read in
    record {
      one_row = ground arith;
      trying = grind arith;
      answered = grind arith;
      read = λ r. grind arith;
    }

abbrev past : GiftStatus → Bool
past s = is_past (some s)

-- A refund is of a gift that is EXPIRED or REFUNDED.
past-Moves :
    (id : ℕ) (a b : GiftDb)
    → is_past (status_of id a) ≡ true
    → Moves anything GiftStatus.refunded id a b
    → Moves past GiftStatus.refunded id a b
past-Moves id a b h m = ground arith

-- A gift is CLAIMING if some claim is in its `try`.
trying-claiming :
    {id : ℕ} {s : Shared} (n : ℕ)
    → IsLocked id s
    → s.paying + s.marking ≡ suc n
    → status_of id s.db ≡ some GiftStatus.claiming
trying-claiming {id} {s} n h busy = let trying = h.trying in ground arith

-- The claim that holds the gift ends without having recorded a payment.
released-IsLocked :
    (id : ℕ) (e : Exception) {s : Shared}
    → IsLocked id s
    → status_of id s.db ≡ some GiftStatus.claiming
    → (paying marking lost : ℕ) → paying + marking ≡ 0
    → s.paid ≡ marking + lost
    → IsLocked id
        (record s { db = release_lock id e s.db; paying = paying; marking = marking; lost = lost })
released-IsLocked id e {s} h held paying marking lost idle counted =
    let freed = release_lock-frees id e s.db held in
    let rows = (release_lock-Moves id e s.db).0 in
    let one = h.one_row in
    record {
      one_row = ground arith;
      trying = rw freed idle;
      answered = rw freed (ground arith);
      read = λ r. absurd (ground (arith, h.read r));
    }

Step-IsLocked : (id : ℕ) {s t : Shared} → IsLocked id s → Step id s t → IsLocked id t
Step-IsLocked id h (Step.funds s ledger known pending b) =
    moved-IsLocked is_created GiftStatus.funded id (λ x c. ground arith) refl
      (λ x c p. ground arith) h (fund_one-Moves ledger known pending b id s.db)
Step-IsLocked id h (Step.expires s now) =
    moved-IsLocked is_open GiftStatus.expired id (λ x c. ground arith) refl (λ x c p. ground arith)
      h (expire_gifts-Moves now id s.db)
Step-IsLocked id h (Step.checks s chain now code dto) =
    moved-IsLocked is_open GiftStatus.expired id (λ x c. ground arith) refl (λ x c p. ground arith)
      h (check_claim-Moves chain now code dto id s.db)
Step-IsLocked id h (Step.locks s user {x} {after} taken) =
    let lock : Locks id s.db (ok x, after) =
      subst (Locks id s.db) taken (take_lock-Locks id user s.db h.one_row) in
    let one = h.one_row in
    let trying = h.trying in
    let answered = h.answered in
    let read = h.read in
    record {
      one_row = ground arith;
      trying = ground arith;
      answered = ground arith;
      read = λ r. absurd (ground (arith, read r));
    }
Step-IsLocked id h (Step.misses s user {e} {after} missed) =
    let kept : Locks id s.db (err e, after) =
      subst (Locks id s.db) missed (take_lock-Locks id user s.db h.one_row) in
    let one = h.one_row in
    let trying = h.trying in
    let answered = h.answered in
    let read = h.read in
    record {
      one_row = ground arith;
      trying = ground arith;
      answered = ground arith;
      read = λ r. ground (arith, read r);
    }
Step-IsLocked id h (Step.pays s n busy) =
    let trying = h.trying in
    let answered = h.answered in
    record { one_row = h.one_row; trying = ground arith; answered = ground arith; read = h.read }
Step-IsLocked id h (Step.pay_fails s n e busy) =
    let held = trying-claiming (n + s.marking) h (ground arith) in
    let trying = h.trying in
    let answered = h.answered in
    released-IsLocked id e h held n s.marking s.lost (ground arith) (ground arith)
Step-IsLocked id h (Step.marks s n hash {g} {after} busy marked) =
    let held = trying-claiming (s.paying + n) h (ground arith) in
    let mark : Marks id s.db (ok g, after) =
      subst (Marks id s.db) marked (mark_claimed-Marks id hash s.db) in
    let one = h.one_row in
    let trying = h.trying in
    let answered = h.answered in
    let read = h.read in
    record {
      one_row = ground arith;
      trying = ground arith;
      answered = ground arith;
      read = λ r. absurd (ground (arith, read r));
    }
Step-IsLocked id h (Step.mark_fails s n e busy) =
    let held = trying-claiming (s.paying + n) h (ground arith) in
    let trying = h.trying in
    let answered = h.answered in
    released-IsLocked id e h held s.paying n (s.lost + 1) (ground arith) (ground arith)
Step-IsLocked id h (Step.reads s expired) = record {
  one_row = h.one_row;
  trying = h.trying;
  answered = h.answered;
  read = λ r. rw expired refl;
}
Step-IsLocked id h (Step.refunds s ledger g own r) =
    moved-IsLocked past GiftStatus.refunded id (λ x c. ground arith) refl (λ x c p. ground arith) h
      (past-Moves id s.db (refund_one ledger g s.db) (h.read r) (refund_one-Moves ledger g id s.db))

Reachable-IsLocked :
    (id : ℕ) {start : GiftDb}
    → rows_of id start ≤ 1
    → status_of id start ≡ some GiftStatus.created
    → {s : Shared} → Reachable id start s
    → IsLocked id s
Reachable-IsLocked id one created Reachable.initial = record {
  one_row = one;
  trying = rw created refl;
  answered = rw created refl;
  read = λ r. absurd (ground arith);
}
Reachable-IsLocked id one created (Reachable.next r step) =
    Step-IsLocked id (Reachable-IsLocked id one created r) step

-- However the claims of a gift and the jobs interleave from its creation, in tables where its identifier
-- has one row: at most one claim is between the lock and the end of its `try`, exactly while the gift is
-- CLAIMING; and every answered payment is about to be recorded, or was lost as `markClaimed` threw, which
-- frees the gift for another claim, or is the one for which the gift is CLAIMED. So there is at most one
-- answered payment more than there are lost ones.
pub one_claim_pays :
    (id : ℕ) {start : GiftDb} {s : Shared}
    → rows_of id start ≤ 1
    → status_of id start ≡ some GiftStatus.created
    → Reachable id start s
    → (s.paying + s.marking ≤ 1)
      × ((s.paying + s.marking ≡ 1) ↔ (status_of id s.db ≡ some GiftStatus.claiming))
      × (s.paid ≤ s.lost + 1)
      × (s.paid ≡ s.marking + s.lost + claimed_count (status_of id s.db))
one_claim_pays id one created r =
    let h = Reachable-IsLocked id one created r in
    let trying = h.trying in let answered = h.answered in ground arith
