-- ===== src/Notifications/Finality.antt =====
-- An entry that ended stays as it is (src/jobs/push-dispatch.job.ts).
use smartpig_backend.Common.{
  ℕ, ◌≡◌, ◌≢◌, refl, subst, ◌∙◌, Bool, true, false, ◌||◌, not, Option, none, some, List, [], ◌∷◌,
  arith, ltb, if◌then◌else◌, find?, find?-update_where, Bool-cases, Option-cases, inl, inr, ==_iff,
  pure,
}
use smartpig_backend.Notifications.Rows.{NotificationStatus, PushNotification, PushDevice, PushDb}
use smartpig_backend.Notifications.Target.{is_empty}
use smartpig_backend.Notifications.Dispatch.{
  ExpoClient, PushOutcome, has_id, is_pending, is_stale, interrupt, claim_each, find_candidates,
  claim_batch, fail_stale_sending, set_notifications, finish_one, finish, skip, conclude,
  is_unaddressed, skip_each, find_outcome, finish_each, settle_sent, send, send_all, find_devices,
  messages_of, dispatch_enabled, dispatch,
}
use smartpig_backend.Notifications.Claims.{
  Lacks, IsDistinct, All-map, after-keeps, find-elsewhere, find_candidates-All, claim_each-claimed,
  find-claim_each, only_one, stale-IsDistinct, caught-keeps,
}

abbrev pub is_final : PushNotification → Bool
is_final n = elim n.status [
  | NotificationStatus.pending ↦ false
  | NotificationStatus.sending ↦ false
  | _ ↦ true
]

-- The entry is found as it was.
abbrev pub IsKept : ℕ → PushNotification → PushDb → Type 0
IsKept id n db = find? (has_id id) db.notifications ≡ some n

final_not_pending : (n : PushNotification) → is_final n ≡ true → is_pending n ≡ true → ⊥
final_not_pending n final p = ground arith

module _ (now id : ℕ) (n : PushNotification) where
  finish-IsKept :
      (other : ℕ) (f : PushNotification → PushNotification) (db : PushDb)
      → other ≢ id
      → ((m : PushNotification) → (f m).id ≡ m.id)
      → IsKept id n db
      → IsKept id n (finish now other f db).1
  unfolding finish
  finish-IsKept other f db ne keeps h =
      elim (Option-cases (find? (has_id other) db.notifications)) [
        | inl missing ↦ rw missing h
        | inr (m, found) ↦ rw found (
            find-elsewhere id other (has_id other) (λ x. record (f x) { updated_at = now })
              db.notifications ne (λ x hit. (==_iff x.id other).0 hit) (λ x. keeps x)
            ∙ h)
      ]

  skip_each-IsKept :
      (devices : List PushDevice) (ns : List PushNotification) (db : PushDb)
      → Lacks id ns
      → IsKept id n db
      → IsKept id n (skip_each now devices ns db).1
  unfolding skip_each
  skip_each-IsKept devices [] db lacks h = h
  skip_each-IsKept devices (m ∷ ns) db lacks h = elim (Bool-cases (is_unaddressed devices m)) [
    | inl none_own ↦ rw none_own (
        after-keeps (IsKept id n) (IsKept id n) (finish now m.id skip) (skip_each now devices ns) db
          (finish-IsKept m.id skip db lacks.0 (λ x. refl) h) (λ v k. k)
          (λ v k. skip_each-IsKept devices ns v lacks.1 k))
    | inr some_own ↦ rw some_own (skip_each-IsKept devices ns db lacks.1 h)
  ]

  conclude-id :
      (m : PushNotification) (o : PushOutcome) (x : PushNotification)
      → (conclude now m o x).id ≡ x.id
  conclude-id m o x = ground arith

  finish_one-IsKept :
      (m : PushNotification) (o : Option PushOutcome) (db : PushDb)
      → m.id ≢ id
      → IsKept id n db
      → IsKept id n (finish_one now m o db).1
  unfolding finish_one
  finish_one-IsKept m none db ne h = h
  finish_one-IsKept m (some o) db ne h =
      finish-IsKept m.id (conclude now m o) db ne (conclude-id m o) h

  finish_each-IsKept :
      (outcomes : List PushOutcome) (ns : List PushNotification) (db : PushDb)
      → Lacks id ns
      → IsKept id n db
      → IsKept id n (finish_each now outcomes ns db).1
  unfolding finish_each
  finish_each-IsKept outcomes [] db lacks h = h
  finish_each-IsKept outcomes (m ∷ ns) db lacks h =
      after-keeps (IsKept id n) (IsKept id n) (finish_one now m (find_outcome m.id outcomes))
        (finish_each now outcomes ns) db
        (finish_one-IsKept m (find_outcome m.id outcomes) db lacks.0 h) (λ v k. k)
        (λ v k. finish_each-IsKept outcomes ns v lacks.1 k)

  send-IsKept :
      (expo : ExpoClient) (ns : List PushNotification) (db : PushDb)
      → Lacks id ns
      → IsKept id n db
      → IsKept id n (send expo now ns db).1
  unfolding send settle_sent
  send-IsKept expo ns db lacks h =
      let devices = find_devices ns db in
      after-keeps (IsKept id n) (IsKept id n) (skip_each now devices ns)
        (if is_empty (messages_of devices ns)
          then pure tt
          else settle_sent now ns (send_all expo devices ns))
        db (skip_each-IsKept devices ns db lacks h) (λ v k. k)
        (λ v k. elim (Bool-cases (is_empty (messages_of devices ns))) [
          | inl no_message ↦ rw no_message k
          | inr messages ↦
              rw messages (finish_each-IsKept (send_all expo devices ns).outcomes ns _ lacks k)
        ])

  stale-IsKept :
      (db : PushDb) → is_final n ≡ true → IsKept id n db → IsKept id n (fail_stale_sending now db)
  unfolding fail_stale_sending
  stale-IsKept db final h =
      rw
        (find?-update_where (has_id id) (is_stale now) (interrupt now) db.notifications (λ x. refl))
        (rw h (ground (arith, final)))

  dispatch_enabled-IsKept :
      (expo : ExpoClient) (db : PushDb)
      → IsDistinct db.notifications
      → is_final n ≡ true
      → IsKept id n db
      → IsKept id n (dispatch_enabled expo now db).1
  unfolding dispatch_enabled claim_batch
  dispatch_enabled-IsKept expo db d final h =
      let fresh = fail_stale_sending now db in
      let cands = find_candidates fresh.notifications in
      let taken = claim_each now cands fresh.notifications in
      let there = stale-IsKept db final h in
      let lacks : Lacks id cands =
        All-map _ (λ r. r.id ≢ id) cands (λ r k e. not_pending r (k.0 e) k.1)
          (find_candidates-All (λ r. r.id ≡ id → r ≡ n) fresh.notifications
            (only_one id n fresh.notifications (stale-IsDistinct now db d) there)) in
      let kept : IsKept id n (set_notifications taken.1 fresh) =
        find-claim_each now id cands fresh.notifications lacks ∙ there in
      elim (Bool-cases (is_empty taken.0)) [
        | inl nothing ↦ rw nothing kept
        | inr claimed ↦ rw claimed (
            send-IsKept expo taken.0 (set_notifications taken.1 fresh)
              (claim_each-claimed now (λ c. c.id ≢ id) cands fresh.notifications lacks) kept)
      ]
    where
      not_pending : (r : PushNotification) → r ≡ n → is_pending r ≡ true → ⊥
      not_pending r same p = final_not_pending n final (subst (λ x. is_pending x ≡ true) same p)

  -- An entry that was SENT, FAILED or SKIPPED is found after a round of the job as it was before, whatever
  -- Expo answers and the clock says, if no two entries have the same identifier.
  pub dispatch-IsKept :
      (expo : ExpoClient) (enabled : Bool) (db : PushDb)
      → IsDistinct db.notifications
      → is_final n ≡ true
      → IsKept id n db
      → IsKept id n (dispatch expo enabled now db).1
  unfolding dispatch
  dispatch-IsKept expo enabled db d final h =
      elim (Bool-cases (not enabled || ltb now db.paused_until)) [
        | inl idle ↦ rw idle h
        | inr runs ↦ rw runs (
            caught-keeps (IsKept id n) (dispatch_enabled expo now) db
              (dispatch_enabled-IsKept expo db d final h))
      ]
