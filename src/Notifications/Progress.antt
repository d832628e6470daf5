-- ===== src/Notifications/Progress.antt =====
-- A round ends every entry that it claimed (src/jobs/push-dispatch.job.ts).
use smartpig_backend.Common.{
  ℕ, ◌≡◌, refl, ◌∙◌, Bool, true, false, List, [], ◌∷◌, ◌==◌, ltb, arith, if◌then◌else◌, any?,
  update_where, All, Any, Bool-cases, inl, inr, ◌⊎◌, pure, Found, Result, ok, err,
}
use smartpig_backend.Notifications.Rows.{PushNotification, PushDevice, PushDb}
use smartpig_backend.Notifications.Target.{is_empty}
use smartpig_backend.Notifications.Dispatch.{
  ExpoClient, SendState, has_id, is_sending, is_claimable, is_stale, interrupt, claim, claim_each,
  find_candidates, claim_batch, fail_stale_sending, set_notifications, is_unaddressed, skip_each,
  find_outcome, settle_sent, send, send_all, find_devices, messages_of, addresses_of,
  dispatch_enabled, dispatch, send_chunks, open_outcomes,
}
use smartpig_backend.Notifications.Claims.{
  All-map, All-update_changed, find_candidates-All, claim_each-claimed, is_claimable-id,
  caught-keeps,
}
use smartpig_backend.Notifications.Ending.{
  Open, Present, Done, Open-map, after-Done, any?-kept, any?-find?, each_present, Leftover,
  skip_each-Done, finish_each-Done,
}
use smartpig_backend.Notifications.Answers.{send_chunks-Awaits, opened_for, none_addressed}

module _ (expo : ExpoClient) (now : ℕ) where
  each_outcome :
      (devices : List PushDevice) (ns : List PushNotification)
      → All
          (λ c.
            is_unaddressed devices c ≡ false
            → Found (find_outcome c.id (send_all expo devices ns).outcomes) (λ o. Unit {0}))
          ns
  unfolding send_all
  each_outcome devices ns =
      let start : SendState = record {
        outcomes = open_outcomes devices ns;
        not_registered = [];
        rate_limited = false;
      } in
      let chunks = expo.chunk_messages (messages_of devices ns) in
      All-map _ _ ns
        (λ c have u.
          any?-find? (λ o. o.notification_id == c.id)
            (send_chunks expo chunks (addresses_of devices ns) start).outcomes
            (send_chunks-Awaits c.id expo chunks (addresses_of devices ns) start (have u)))
        (opened_for devices ns)

  send-Done :
      (ns : List PushNotification) (db : PushDb)
      → Present ns db
      → Open (λ k. Any (λ c. k ≡ c.id) ns) db
      → Done (Open (λ k. ⊥)) (send expo now ns db)
  unfolding send settle_sent
  send-Done ns db present opened =
      let devices = find_devices ns db in
      after-Done (Leftover now devices ns ns (λ k. ⊥)) _ (skip_each now devices ns)
        (if is_empty (messages_of devices ns)
          then pure tt
          else settle_sent now ns (send_all expo devices ns))
        db
        (skip_each-Done now devices ns ns (λ k. ⊥) db present present
          (Open-map _ _ db (λ k a. inr a) opened))
        (λ v k. elim (Bool-cases (is_empty (messages_of devices ns))) [
          | inl no_message ↦
              rw no_message
                (Open-map _ _ v (λ i a. none_addressed devices ns i no_message (only i a)) k.0)
          | inr messages ↦ rw messages (
              finish_each-Done now devices (send_all expo devices ns).outcomes ns _
                (each_outcome devices ns) k.1 (Open-map _ _ v only k.0))
        ])
    where
      Addressed : ℕ → Type 0
      Addressed i = Any (λ c. (i ≡ c.id) × (is_unaddressed (find_devices ns db) c ≡ false)) ns

      only : (i : ℕ) → ⊥ ⊎ Addressed i → Addressed i
      only i (inl b) = absurd b
      only i (inr t) = t

hit_any :
    (p : PushNotification → Bool) (rows : List PushNotification)
    → All (λ n. p n ≡ true → any? p rows ≡ true) rows
hit_any p [] = tt
hit_any p (n ∷ rows) =
    ((λ h. ground arith), All-map _ _ rows (λ m k h. ground (arith, k h)) (hit_any p rows))

All-both :
    {A : Type 0} (P Q : A → Type 0) (xs : List A) → All P xs → All Q xs → All (λ a. P a × Q a) xs
All-both P Q [] h k = tt
All-both P Q (x ∷ xs) h k = ((h.0, k.0), All-both P Q xs h.1 k.1)

module _ (now : ℕ) where
  -- After the claims, what is being sent was so before, or was claimed.
  claim_each-Open :
      (rs rows : List PushNotification) (B : ℕ → Type 0)
      → All (λ n. is_sending n ≡ true → B n.id) rows
      → All
          (λ n. is_sending n ≡ true → B n.id ⊎ Any (λ c. n.id ≡ c.id) (claim_each now rs rows).0)
          (claim_each now rs rows).1
  unfolding claim_each
  claim_each-Open [] rows B h = All-map _ _ rows (λ n k s. inl (k s)) h
  claim_each-Open (r ∷ rs) rows B h =
      let between = update_where (is_claimable r.id) (claim now) rows in
      let C : ℕ → Type 0 = λ k. B k ⊎ ((any? (is_claimable r.id) rows ≡ true) × (k ≡ r.id)) in
      let rest = claim_each-Open rs between C (
        All-update_changed _ (λ n. is_sending n ≡ true → C n.id) (is_claimable r.id) (claim now)
          rows (λ n k hit s. inr (k.1 hit, (is_claimable-id r.id n hit).0))
          (λ n k miss s. inl (k.0 s)) (All-both _ _ rows h (hit_any (is_claimable r.id) rows))) in
      elim (Bool-cases (any? (is_claimable r.id) rows)) [
        | inl free ↦
            rw free
              (All-map _ _ (claim_each now rs between).1 (λ n k s. claimed_now n.id (k s)) rest)
        | inr taken ↦
            rw taken (
              All-map _ _ (claim_each now rs between).1 (λ n k s. not_claimed taken n.id (k s))
                rest)
      ]
    where
      Claimed : ℕ → Type 0
      Claimed k =
          Any (λ c. k ≡ c.id)
            (claim_each now rs (update_where (is_claimable r.id) (claim now) rows)).0

      claimed_now :
          (k : ℕ)
          → (B k ⊎ ((any? (is_claimable r.id) rows ≡ true) × (k ≡ r.id))) ⊎ Claimed k
          → B k ⊎ ((k ≡ r.id) ⊎ Claimed k)
      claimed_now k (inl (inl b)) = inl b
      claimed_now k (inl (inr e)) = inr (inl e.1)
      claimed_now k (inr c) = inr (inr c)

      not_claimed :
          any? (is_claimable r.id) rows ≡ false
          → (k : ℕ) → (B k ⊎ ((any? (is_claimable r.id) rows ≡ true) × (k ≡ r.id))) ⊎ Claimed k
          → B k ⊎ Claimed k
      not_claimed taken k (inl (inl b)) = inl b
      not_claimed taken k (inl (inr e)) = absurd (cc)
      not_claimed taken k (inr c) = inr c

  claim_each-kept :
      (id : ℕ) (rs rows : List PushNotification)
      → any? (has_id id) (claim_each now rs rows).1 ≡ any? (has_id id) rows
  unfolding claim_each
  claim_each-kept id [] rows = refl
  claim_each-kept id (r ∷ rs) rows =
      claim_each-kept id rs _
      ∙ any?-kept (has_id id) (is_claimable r.id) (claim now) rows (λ n. refl)

  stale-Open :
      (db : PushDb)
      → All (λ n. is_sending n ≡ true → is_stale now n ≡ true) db.notifications
      → Open (λ k. ⊥) (fail_stale_sending now db)
  unfolding fail_stale_sending
  stale-Open db h =
      All-update_changed _ _ (is_stale now) (interrupt now) db.notifications
        (λ n k hit s. absurd (cc)) (λ n k miss s. absurd (true_and_false (k s) miss)) h
    where
      true_and_false : {b : Bool} → b ≡ true → b ≡ false → ⊥
      true_and_false h k = cc

  dispatch_enabled-Done :
      (expo : ExpoClient) (db : PushDb)
      → All (λ n. is_sending n ≡ true → is_stale now n ≡ true) db.notifications
      → Done (Open (λ k. ⊥)) (dispatch_enabled expo now db)
  unfolding dispatch_enabled claim_batch
  dispatch_enabled-Done expo db h =
      let fresh = fail_stale_sending now db in
      let rows = fresh.notifications in
      let cands = find_candidates rows in
      let taken = claim_each now cands rows in
      let opened : Open (λ k. Any (λ c. k ≡ c.id) taken.0) (set_notifications taken.1 fresh) =
        All-map _ _ taken.1 (λ n k s. only taken.0 n.id (k s))
          (claim_each-Open cands rows (λ k. ⊥) (stale-Open db h)) in
      elim (Bool-cases (is_empty taken.0)) [
        | inl nothing ↦
            rw nothing (All-map _ _ taken.1 (λ n k s. none_in taken.0 n.id nothing (k s)) opened)
        | inr claimed ↦ rw claimed (
            send-Done expo now taken.0 (set_notifications taken.1 fresh)
              (claim_each-claimed now (λ c. any? (has_id c.id) taken.1 ≡ true) cands rows
                (All-map _ _ cands (λ r k. claim_each-kept r.id cands rows ∙ k.0)
                  (find_candidates-All (λ r. any? (has_id r.id) rows ≡ true) rows
                    (each_present rows))))
              opened)
      ]
    where
      only :
          (ns : List PushNotification) (k : ℕ) → ⊥ ⊎ Any (λ c. k ≡ c.id) ns → Any (λ c. k ≡ c.id) ns
      only ns k (inl b) = absurd b
      only ns k (inr a) = a

      none_in :
          (ns : List PushNotification) (k : ℕ) → is_empty ns ≡ true → Any (λ c. k ≡ c.id) ns → ⊥
      none_in [] k e a = a
      none_in (n ∷ ns) k e a = cc

Done-state : (P : PushDb → Type 0) (p : Result (Unit {0}) × PushDb) → Done P p → P p.1
Done-state P (ok a, v) h = h
Done-state P (err e, v) h = absurd h

-- A round that runs, with no entry in SENDING before it but stale ones: none is in SENDING afterwards,
-- whatever Expo answers; so an entry that was claimed ends SENT, FAILED or SKIPPED, or is PENDING again.
pub dispatch-ends :
    (expo : ExpoClient) (now : ℕ) (db : PushDb)
    → ltb now db.paused_until ≡ false
    → All (λ n. is_sending n ≡ true → is_stale now n ≡ true) db.notifications
    → All (λ n. is_sending n ≡ false) (dispatch expo true now db).1.notifications
unfolding dispatch
dispatch-ends expo now db runs h = rw runs (
    caught-keeps (λ v. All (λ n. is_sending n ≡ false) v.notifications) (dispatch_enabled expo now)
      db
      (All-map _ _ (dispatch_enabled expo now db).1.notifications
        (λ n k. elim (Bool-cases (is_sending n)) [
          | inl yes_sending ↦ absurd (k yes_sending)
          | inr other ↦ other
        ])
        (Done-state (Open (λ k. ⊥)) (dispatch_enabled expo now db)
          (dispatch_enabled-Done now expo db h))))
