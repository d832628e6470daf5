-- ===== src/Notifications/Attempts.antt =====
-- How often an entry is tried (src/jobs/push-dispatch.job.ts).
use smartpig_backend.Common.{
  ℕ, ◌≡◌, refl, sym, ◌∙◌, ◌+◌, ◌≤◌, ◌<◌, Bool, true, ◌||◌, not, Option, none, some, List, [], ◌∷◌,
  ◌==◌, ltb, arith, if◌then◌else◌, find?, any?, update_where, All, All-update_where, Bool-cases,
  Option-cases, inl, inr, ==_iff, pure,
}
use smartpig_backend.Notifications.Rows.{PushNotification, PushDevice, PushDb}
use smartpig_backend.Notifications.Target.{is_empty}
use smartpig_backend.Notifications.Dispatch.{
  ExpoClient, PushOutcome, has_id, is_pending, is_claimable, is_stale, interrupt, claim, claim_each,
  find_candidates, claim_batch, fail_stale_sending, set_notifications, finish_one, finish, skip,
  conclude, is_unaddressed, skip_each, find_outcome, finish_each, settle_sent, send, send_all,
  find_devices, messages_of, dispatch_enabled, dispatch, max_attempts,
}
use smartpig_backend.Notifications.Claims.{
  Lacks, IsDistinct, All-map, All-update_changed, after-keeps, caught-keeps, find_candidates-All,
  find_candidates-IsDistinct, claim_each-All, claim_each-elsewhere, is_claimable-id, each_alone,
  stale-IsDistinct,
}

-- At most three attempts, and fewer where another may follow.
abbrev pub IsBounded : PushNotification → Type 0
IsBounded n = (n.attempts ≤ max_attempts) × (is_pending n ≡ true → n.attempts < max_attempts)

abbrev pub AreBounded : PushDb → Type 0
AreBounded db = All IsBounded db.notifications

-- The rows of the entry have its number of attempts.
abbrev Counts : List PushNotification → PushNotification → Type 0
Counts rows c = All (λ n. n.id ≡ c.id → n.attempts ≡ c.attempts) rows

-- They do, and are pending.
abbrev Waits : List PushNotification → PushNotification → Type 0
Waits rows c = All (λ n. n.id ≡ c.id → (n.attempts ≡ c.attempts) × (is_pending n ≡ true)) rows

module _ (now : ℕ) where
  claimed-Counts :
      (r : PushNotification) (rows : List PushNotification)
      → Waits rows r
      → Counts (update_where (is_claimable r.id) (claim now) rows) (claim now r)
  claimed-Counts r rows h =
      All-update_changed _ _ (is_claimable r.id) (claim now) rows
        (λ n w hit same. ground (arith, (w same).0))
        (λ n w miss same. absurd (ground (arith, (w same).1, ==_iff n.id r.id))) h

  still-Waits :
      (r : PushNotification) (rows rs : List PushNotification)
      → Lacks r.id rs
      → All (Waits rows) rs
      → All (Waits (update_where (is_claimable r.id) (claim now) rows)) rs
  still-Waits r rows [] lacks h = tt
  still-Waits r rows (s ∷ rs) lacks h = (
    All-update_where _ (is_claimable r.id) (claim now) rows
        (λ n w hit same. absurd (lacks.0 (sym same ∙ (is_claimable-id r.id n hit).0))) h.0,
    still-Waits r rows rs lacks.1 h.1,
  )

  -- Every entry that was claimed counts as its rows in the table do.
  claim_each-Counts :
      (rs rows : List PushNotification)
      → IsDistinct rs
      → All (Waits rows) rs
      → All (Counts (claim_each now rs rows).1) (claim_each now rs rows).0
  unfolding claim_each
  claim_each-Counts [] rows d h = tt
  claim_each-Counts (r ∷ rs) rows d h =
      let between = update_where (is_claimable r.id) (claim now) rows in
      let rest = claim_each-Counts rs between d.1 (still-Waits r rows rs d.0 h.1) in
      let head =
        claim_each-elsewhere now (λ n. n.attempts ≡ r.attempts + 1) r.id rs between d.0
          (claimed-Counts r rows h.0) in
      elim (Bool-cases (any? (is_claimable r.id) rows)) [
        | inl free ↦ rw free (head, rest)
        | inr taken ↦ rw taken rest
      ]

  -- The claimed entries of the tables.
  abbrev Tracks : List PushNotification → PushDb → Type 0
  Tracks ns db = AreBounded db × All (Counts db.notifications) ns

  finish-Tracks :
      (id : ℕ) (f : PushNotification → PushNotification) (ns : List PushNotification) (db : PushDb)
      → ((m : PushNotification) → ((f m).id ≡ m.id) × ((f m).attempts ≡ m.attempts))
      → All (λ m. m.id ≡ id → IsBounded m → IsBounded (f m)) db.notifications
      → Tracks ns db
      → Tracks ns (finish now id f db).1
  unfolding finish
  finish-Tracks id f ns db keeps bounded h =
      elim (Option-cases (find? (has_id id) db.notifications)) [
        | inl missing ↦ rw missing h
        | inr (m, found) ↦ rw found (
          bounded_after db.notifications bounded h.0,
          All-map _ _ ns (λ c. counted_after c db.notifications) h.1,
        )
      ]
    where
      g : PushNotification → PushNotification
      g n = record (f n) { updated_at = now }

      bounded_after :
          (rows : List PushNotification)
          → All (λ m. m.id ≡ id → IsBounded m → IsBounded (f m)) rows
          → All IsBounded rows
          → All IsBounded (update_where (has_id id) g rows)
      bounded_after [] b k = tt
      bounded_after (x ∷ rows) b k = elim (Bool-cases (x.id == id)) [
        | inl hit ↦ rw hit (b.0 ((==_iff x.id id).0 hit) k.0, bounded_after rows b.1 k.1)
        | inr miss ↦ rw miss (k.0, bounded_after rows b.1 k.1)
      ]

      counted_after :
          (c : PushNotification) (rows : List PushNotification)
          → Counts rows c
          → Counts (update_where (has_id id) g rows) c
      counted_after c rows =
          All-update_where (λ n. n.id ≡ c.id → n.attempts ≡ c.attempts) (has_id id) g rows
            (λ n k hit same. (keeps n).1 ∙ k (sym (keeps n).0 ∙ same))

  skip_each-Tracks :
      (devices : List PushDevice) (ns all : List PushNotification) (db : PushDb)
      → Tracks all db
      → Tracks all (skip_each now devices ns db).1
  unfolding skip_each
  skip_each-Tracks devices [] all db h = h
  skip_each-Tracks devices (m ∷ ns) all db h = elim (Bool-cases (is_unaddressed devices m)) [
    | inl none_own ↦ rw none_own (
        after-keeps (Tracks all) (Tracks all) (finish now m.id skip) (skip_each now devices ns) db
          (finish-Tracks m.id skip all db (λ x. (refl, refl)) (skipped db.notifications) h)
          (λ v k. k) (λ v k. skip_each-Tracks devices ns all v k))
    | inr some_own ↦ rw some_own (skip_each-Tracks devices ns all db h)
  ]
    where
      skipped :
          (rows : List PushNotification)
          → All (λ x. x.id ≡ m.id → IsBounded x → IsBounded (skip x)) rows
      skipped [] = tt
      skipped (x ∷ rows) = ((λ same b. (b.0, λ p. absurd (cc))), skipped rows)

  conclude-Keeps :
      (m : PushNotification) (o : PushOutcome) (x : PushNotification)
      → ((conclude now m o x).id ≡ x.id) × ((conclude now m o x).attempts ≡ x.attempts)
  conclude-Keeps m o x = (ground arith, ground arith)

  conclude-IsBounded :
      (m : PushNotification) (o : PushOutcome) (x : PushNotification)
      → x.attempts ≡ m.attempts
      → IsBounded x
      → IsBounded (conclude now m o x)
  conclude-IsBounded m o x same b = (ground (arith, b.0), λ p. ground (arith, b.0, same))

  finish_one-Tracks :
      (m : PushNotification) (o : Option PushOutcome) (ns : List PushNotification) (db : PushDb)
      → Tracks (m ∷ ns) db
      → Tracks ns (finish_one now m o db).1
  unfolding finish_one
  finish_one-Tracks m none ns db h = (h.0, h.1.1)
  finish_one-Tracks m (some o) ns db h =
      finish-Tracks m.id (conclude now m o) ns db (conclude-Keeps m o)
        (All-map _ _ db.notifications (λ x k same b. conclude-IsBounded m o x (k same) b) h.1.0)
        (h.0, h.1.1)

  finish_each-AreBounded :
      (outcomes : List PushOutcome) (ns : List PushNotification) (db : PushDb)
      → Tracks ns db
      → AreBounded (finish_each now outcomes ns db).1
  unfolding finish_each
  finish_each-AreBounded outcomes [] db h = h.0
  finish_each-AreBounded outcomes (m ∷ ns) db h =
      after-keeps (Tracks ns) AreBounded (finish_one now m (find_outcome m.id outcomes))
        (finish_each now outcomes ns) db (finish_one-Tracks m (find_outcome m.id outcomes) ns db h)
        (λ v k. k.0) (λ v k. finish_each-AreBounded outcomes ns v k)

  send-AreBounded :
      (expo : ExpoClient) (ns : List PushNotification) (db : PushDb)
      → Tracks ns db
      → AreBounded (send expo now ns db).1
  unfolding send settle_sent
  send-AreBounded expo ns db h =
      let devices = find_devices ns db in
      after-keeps (Tracks ns) AreBounded (skip_each now devices ns)
        (if is_empty (messages_of devices ns)
          then pure tt
          else settle_sent now ns (send_all expo devices ns))
        db (skip_each-Tracks devices ns ns db h) (λ v k. k.0)
        (λ v k. elim (Bool-cases (is_empty (messages_of devices ns))) [
          | inl no_message ↦ rw no_message k.0
          | inr messages ↦
              rw messages (finish_each-AreBounded (send_all expo devices ns).outcomes ns _ k)
        ])

  stale-AreBounded : (db : PushDb) → AreBounded db → AreBounded (fail_stale_sending now db)
  unfolding fail_stale_sending
  stale-AreBounded db h =
      All-update_where IsBounded (is_stale now) (interrupt now) db.notifications
        (λ n b hit. (b.0, λ p. absurd (cc))) h

  claim-IsBounded :
      (n : PushNotification) → IsBounded n → is_pending n ≡ true → IsBounded (claim now n)
  claim-IsBounded n b p = (omega (arith, b.1 p), λ q. absurd (cc))

  dispatch_enabled-AreBounded :
      (expo : ExpoClient) (db : PushDb)
      → IsDistinct db.notifications
      → AreBounded db
      → AreBounded (dispatch_enabled expo now db).1
  unfolding dispatch_enabled claim_batch
  dispatch_enabled-AreBounded expo db d h =
      let fresh = fail_stale_sending now db in
      let cands = find_candidates fresh.notifications in
      let distinct = stale-IsDistinct now db d in
      let taken = claim_each now cands fresh.notifications in
      let bounded : AreBounded (set_notifications taken.1 fresh) =
        claim_each-All now IsBounded cands fresh.notifications claim-IsBounded
          (stale-AreBounded db h) in
      elim (Bool-cases (is_empty taken.0)) [
        | inl nothing ↦ rw nothing bounded
        | inr claimed ↦ rw claimed (
            send-AreBounded expo taken.0 (set_notifications taken.1 fresh) (
              bounded,
              claim_each-Counts cands fresh.notifications
                  (find_candidates-IsDistinct fresh.notifications distinct)
                  (All-map _ _ cands (λ r k. waiting r fresh.notifications k.0 k.1)
                    (find_candidates-All _ fresh.notifications
                      (each_alone fresh.notifications distinct))),
            ))
      ]
    where
      waiting :
          (r : PushNotification) (rows : List PushNotification)
          → All (λ n. n.id ≡ r.id → n ≡ r) rows
          → is_pending r ≡ true
          → Waits rows r
      waiting r rows alone p = All-map _ _ rows (λ n k same. let e = k same in (cc, cc)) alone

  -- No round of the job brings an entry above three attempts, and none is left to be tried again that
  -- had three, whatever Expo answers and the clock says, if no two entries have the same identifier.
  pub dispatch-AreBounded :
      (expo : ExpoClient) (enabled : Bool) (db : PushDb)
      → IsDistinct db.notifications
      → AreBounded db
      → AreBounded (dispatch expo enabled now db).1
  unfolding dispatch
  dispatch-AreBounded expo enabled db d h =
      elim (Bool-cases (not enabled || ltb now db.paused_until)) [
        | inl idle ↦ rw idle h
        | inr runs ↦ rw runs (
            caught-keeps AreBounded (dispatch_enabled expo now) db
              (dispatch_enabled-AreBounded expo db d h))
      ]
