-- ===== src/Notifications/Ending.antt =====
-- The two loops that end the claimed entries (src/jobs/push-dispatch.job.ts: send, finish).
use smartpig_backend.Common.{
  ℕ, ◌≡◌, refl, ap, ◌∙◌, Bool, true, false, Option, none, some, List, [], ◌∷◌, ◌++◌, ◌==◌, arith,
  find?, any?, update_where, All, Any, Bool-cases, Option-cases, inl, inr, ◌⊎◌, ==_iff, Found,
  Result, ok, err, Action, ◌>>◌,
}
use smartpig_backend.Notifications.Rows.{PushNotification, PushDevice, PushDb}
use smartpig_backend.Notifications.Dispatch.{
  PushOutcome, has_id, is_sending, finish_one, finish, skip, conclude, is_unaddressed, skip_each,
  find_outcome, finish_each,
}
use smartpig_backend.Notifications.Claims.{All-map, All-update_changed}

-- The entries that are being sent are among those with the property.
abbrev pub Open : (ℕ → Type 0) → PushDb → Type 0
Open B db = All (λ n. is_sending n ≡ true → B n.id) db.notifications

abbrev pub Present : List PushNotification → PushDb → Type 0
Present ns db = All (λ c. any? (has_id c.id) db.notifications ≡ true) ns

-- The call answers, and the tables have the property.
abbrev pub Done : (PushDb → Type 0) → Result (Unit {0}) × PushDb → Type 0
Done P (ok a, db) = P db
Done P (err e, db) = ⊥

pub Open-map : (B C : ℕ → Type 0) (db : PushDb) → ((k : ℕ) → B k → C k) → Open B db → Open C db
Open-map B C db f h = All-map _ _ db.notifications (λ n k s. f n.id (k s)) h

Done-map :
    (P Q : PushDb → Type 0) (p : Result (Unit {0}) × PushDb)
    → ((v : PushDb) → P v → Q v)
    → Done P p
    → Done Q p
Done-map P Q (ok a, v) f h = f v h
Done-map P Q (err e, v) f h = h

pub after-Done :
    (P Q : PushDb → Type 0) (m k : Action PushDb (Unit {0})) (db : PushDb)
    → Done P (m db)
    → ((v : PushDb) → P v → Done Q (k v))
    → Done Q ((m >> k) db)
after-Done P Q m k db h go = by_answer (m db) h
  where
    continue : Result (Unit {0}) × PushDb → Result (Unit {0}) × PushDb
    continue p = elim p.0 [ ok a ↦ k p.1 | err e ↦ (err e, p.1) ]

    by_answer : (p : Result (Unit {0}) × PushDb) → Done P p → Done Q (continue p)
    by_answer (ok a, v) h = go v h
    by_answer (err e, v) h = absurd h

pub any?-kept :
    {A : Type 0} (q p : A → Bool) (f : A → A) (xs : List A)
    → ((a : A) → q (f a) ≡ q a)
    → any? q (update_where p f xs) ≡ any? q xs
any?-kept q p f [] keeps = refl
any?-kept q p f (x ∷ xs) keeps = elim (Bool-cases (p x)) [
  | inl hit ↦ ground (arith, keeps x, any?-kept q p f xs keeps)
  | inr miss ↦ ground (arith, any?-kept q p f xs keeps)
]

pub any?-find? :
    {A : Type 0} (q : A → Bool) (xs : List A)
    → any? q xs ≡ true
    → Found (find? q xs) (λ a. Unit {0})
any?-find? q [] h = absurd (cc)
any?-find? q (x ∷ xs) h = elim (Bool-cases (q x)) [
  | inl hit ↦ rw hit tt
  | inr miss ↦ rw miss (any?-find? q xs (rw miss at h))
]

pub each_present : (rows : List PushNotification) → All (λ r. any? (has_id r.id) rows ≡ true) rows
each_present [] = tt
each_present (r ∷ rows) = (
  ground (arith, ==_iff r.id r.id),
  All-map _ _ rows (λ n h. ground (arith, h)) (each_present rows),
)

module _ (now : ℕ) where
  finish-Done :
      (id : ℕ) (f : PushNotification → PushNotification) (B C : ℕ → Type 0)
      (ns : List PushNotification) (db : PushDb)
      → ((m : PushNotification) → ((f m).id ≡ m.id) × (is_sending (f m) ≡ false))
      → ((k : ℕ) → B k → (k ≡ id) ⊎ C k)
      → any? (has_id id) db.notifications ≡ true
      → Open B db
      → Present ns db
      → Done (λ v. Open C v × Present ns v) (finish now id f db)
  unfolding finish
  finish-Done id f B C ns db ends split there opened present =
      elim (Option-cases (find? (has_id id) db.notifications)) [
        | inl missing ↦ absurd (rw missing at (any?-find? (has_id id) db.notifications there))
        | inr (m, found) ↦ rw found (
          All-update_changed _ _ (has_id id) (λ n. record (f n) { updated_at = now })
              db.notifications (λ n k hit s. absurd (ground (arith, (ends n).1)))
              (λ n k miss s. others n miss (split n.id (k s))) opened,
          All-map _ _ ns
              (λ c h.
                any?-kept (has_id c.id) (has_id id) (λ n. record (f n) { updated_at = now })
                  db.notifications (λ n. ap (λ i. i == c.id) (ends n).0)
                ∙ h)
              present,
        )
      ]
    where
      others : (n : PushNotification) → (n.id == id) ≡ false → (n.id ≡ id) ⊎ C n.id → C n.id
      others n miss (inl e) = absurd (ground (arith, ==_iff n.id id))
      others n miss (inr c) = c

  -- What is left is addressed to some device.
  abbrev pub Leftover :
      List PushDevice
      → List PushNotification
      → List PushNotification
      → (ℕ → Type 0)
      → PushDb
      → Type 0
  Leftover devices ns all B v =
      Open (λ k. B k ⊎ Any (λ c. (k ≡ c.id) × (is_unaddressed devices c ≡ false)) ns) v
      × Present all v

  -- The first loop.
  pub skip_each-Done :
      (devices : List PushDevice) (ns all : List PushNotification) (B : ℕ → Type 0) (db : PushDb)
      → Present ns db
      → Present all db
      → Open (λ k. B k ⊎ Any (λ c. k ≡ c.id) ns) db
      → Done (Leftover devices ns all B) (skip_each now devices ns db)
  unfolding skip_each
  skip_each-Done devices [] all B db here present opened = (opened, present)
  skip_each-Done devices (m ∷ ns) all B db here present opened =
      elim (Bool-cases (is_unaddressed devices m)) [
        | inl none_own ↦ rw none_own (
            after-Done (λ v. Open (λ k. B k ⊎ Any (λ c. k ≡ c.id) ns) v × Present (ns ++ all) v) _
              (finish now m.id skip) (skip_each now devices ns) db
              (finish-Done m.id skip _ _ (ns ++ all) db (λ x. (refl, refl)) first here.0 opened
                (both ns here.1))
              (λ v k.
                Done-map (Leftover devices ns all B) (Leftover devices (m ∷ ns) all B) _
                  (λ u q. (Open-map _ _ u weaken q.0, q.1))
                  (skip_each-Done devices ns all B v (front ns v k.1) (back ns v k.1) k.0)))
        | inr some_own ↦ rw some_own (
            Done-map (Leftover devices ns all (λ k. B k ⊎ (k ≡ m.id)))
              (Leftover devices (m ∷ ns) all B) _
              (λ u q. (Open-map _ _ u (assign some_own) q.0, q.1))
              (skip_each-Done devices ns all (λ k. B k ⊎ (k ≡ m.id)) db here.1 present
                (Open-map _ _ db first_of opened)))
      ]
    where
      first :
          (k : ℕ)
          → B k ⊎ ((k ≡ m.id) ⊎ Any (λ c. k ≡ c.id) ns)
          → (k ≡ m.id) ⊎ (B k ⊎ Any (λ c. k ≡ c.id) ns)
      first k (inl b) = inr (inl b)
      first k (inr (inl e)) = inl e
      first k (inr (inr a)) = inr (inr a)

      weaken :
          (k : ℕ)
          → B k ⊎ Any (λ c. (k ≡ c.id) × (is_unaddressed devices c ≡ false)) ns
          → B k ⊎ Any (λ c. (k ≡ c.id) × (is_unaddressed devices c ≡ false)) (m ∷ ns)
      weaken k (inl b) = inl b
      weaken k (inr a) = inr (inr a)

      first_of :
          (k : ℕ)
          → B k ⊎ ((k ≡ m.id) ⊎ Any (λ c. k ≡ c.id) ns)
          → (B k ⊎ (k ≡ m.id)) ⊎ Any (λ c. k ≡ c.id) ns
      first_of k (inl b) = inl (inl b)
      first_of k (inr (inl e)) = inl (inr e)
      first_of k (inr (inr a)) = inr a

      assign :
          is_unaddressed devices m ≡ false
          → (k : ℕ)
          → (B k ⊎ (k ≡ m.id)) ⊎ Any (λ c. (k ≡ c.id) × (is_unaddressed devices c ≡ false)) ns
          → B k ⊎ Any (λ c. (k ≡ c.id) × (is_unaddressed devices c ≡ false)) (m ∷ ns)
      assign u k (inl (inl b)) = inl b
      assign u k (inl (inr e)) = inr (inl (e, u))
      assign u k (inr a) = inr (inr a)

      both : (xs : List PushNotification) → Present xs db → Present (xs ++ all) db
      both [] h = present
      both (x ∷ xs) h = (h.0, both xs h.1)

      front : (xs : List PushNotification) (v : PushDb) → Present (xs ++ all) v → Present xs v
      front [] v h = tt
      front (x ∷ xs) v h = (h.0, front xs v h.1)

      back : (xs : List PushNotification) (v : PushDb) → Present (xs ++ all) v → Present all v
      back [] v h = h
      back (x ∷ xs) v h = back xs v h.1

  conclude-ends :
      (m : PushNotification) (o : PushOutcome) (x : PushNotification)
      → ((conclude now m o x).id ≡ x.id) × (is_sending (conclude now m o x) ≡ false)
  conclude-ends m o x = (ground arith, ground arith)

  -- The last loop: nothing is left.
  pub finish_each-Done :
      (devices : List PushDevice) (outcomes : List PushOutcome) (ns : List PushNotification)
      (db : PushDb)
      → All
          (λ c.
            is_unaddressed devices c ≡ false → Found (find_outcome c.id outcomes) (λ o. Unit {0}))
          ns
      → Present ns db
      → Open (λ k. Any (λ c. (k ≡ c.id) × (is_unaddressed devices c ≡ false)) ns) db
      → Done (Open (λ k. ⊥)) (finish_each now outcomes ns db)
  unfolding finish_each finish_one
  finish_each-Done devices outcomes [] db have present opened = opened
  finish_each-Done devices outcomes (m ∷ ns) db have present opened =
      by_outcome (find_outcome m.id outcomes) have.0
        (λ v p q. finish_each-Done devices outcomes ns v have.1 p q)
    where
      Rest : ℕ → Type 0
      Rest k = Any (λ c. (k ≡ c.id) × (is_unaddressed devices c ≡ false)) ns

      dropped :
          (is_unaddressed devices m ≡ false → ⊥)
          → (k : ℕ) → ((k ≡ m.id) × (is_unaddressed devices m ≡ false)) ⊎ Rest k
          → Rest k
      dropped denied k (inl e) = absurd (denied e.1)
      dropped denied k (inr a) = a

      parted :
          (k : ℕ) → ((k ≡ m.id) × (is_unaddressed devices m ≡ false)) ⊎ Rest k → (k ≡ m.id) ⊎ Rest k
      parted k (inl e) = inl e.0
      parted k (inr a) = inr a

      by_outcome :
          (o : Option PushOutcome)
          → (is_unaddressed devices m ≡ false → Found o (λ x. Unit {0}))
          → ((v : PushDb)
              → Present ns v
              → Open Rest v
              → Done (Open (λ k. ⊥)) (finish_each now outcomes ns v))
          → Done (Open (λ k. ⊥)) ((finish_one now m o >> finish_each now outcomes ns) db)
      by_outcome none h go = go db present.1 (Open-map _ _ db (dropped h) opened)
      by_outcome (some o) h go =
          after-Done (λ v. Open Rest v × Present ns v) _ (finish now m.id (conclude now m o))
            (finish_each now outcomes ns) db
            (finish-Done m.id (conclude now m o) _ _ ns db (conclude-ends m o) parted present.0
              opened present.1)
            (λ v k. go v k.1 k.0)
