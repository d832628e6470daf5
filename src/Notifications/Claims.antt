-- ===== src/Notifications/Claims.antt =====
-- What a round claims (src/jobs/push-dispatch.job.ts: claimBatch), and its updates of other entries.
use smartpig_backend.Common.{
  ℕ, zero, suc, ◌≡◌, ◌≢◌, refl, sym, ◌∙◌, Bool, true, false, some, List, [], ◌∷◌, ◌==◌, ltb, arith,
  any?, find?, filter, take, update_where, All, All-update_where, All-filter, Bool-cases, inl, inr,
  ==_iff, Result, ok, err, Action, ◌>>◌, catch, pure,
}
use smartpig_backend.Notifications.Rows.{PushNotification, PushDb}
use smartpig_backend.Notifications.Dispatch.{
  has_id, is_pending, is_claimable, claim, insert_by_created, sort_by_created, find_candidates,
  claim_each, batch_size, is_stale, interrupt, fail_stale_sending,
}

-- No entry has the identifier.
abbrev pub Lacks : ℕ → List PushNotification → Type 0
Lacks id ns = All (λ n. n.id ≢ id) ns

-- No identifier is that of two entries: it is the primary key.
abbrev pub IsDistinct : List PushNotification → Type 0
IsDistinct [] = Unit
IsDistinct (n ∷ ns) = Lacks n.id ns × IsDistinct ns

pub All-map {ℓ} :
    {A : Type ℓ} (P Q : A → Type 0) (xs : List A) → ((a : A) → P a → Q a) → All P xs → All Q xs
All-map P Q [] f h = tt
All-map P Q (x ∷ xs) f h = (f x h.0, All-map P Q xs f h.1)

-- A bulk update, by what it does to the rows that it accepts, and to the others.
pub All-update_changed :
    {A : Type 0} (P Q : A → Type 0) (p : A → Bool) (f : A → A) (xs : List A)
    → ((a : A) → P a → p a ≡ true → Q (f a))
    → ((a : A) → P a → p a ≡ false → Q a)
    → All P xs
    → All Q (update_where p f xs)
All-update_changed P Q p f [] hit miss h = tt
All-update_changed P Q p f (x ∷ xs) hit miss h = elim (Bool-cases (p x)) [
  | inl e ↦ rw e (hit x h.0 e, All-update_changed P Q p f xs hit miss h.1)
  | inr e ↦ rw e (miss x h.0 e, All-update_changed P Q p f xs hit miss h.1)
]

-- One call, and what follows it if it answers.
pub after-keeps :
    {W A B : Type 0} (Mid End : W → Type 0) (m : Action W A) (k : Action W B) (w : W)
    → Mid (m w).1
    → ((v : W) → Mid v → End v)
    → ((v : W) → Mid v → End (k v).1)
    → End ((m >> k) w).1
after-keeps {W} {A} {B} Mid End m k w h stop go = by_answer (m w) h
  where
    continue : Result A × W → Result B × W
    continue p = elim p.0 [ ok a ↦ k p.1 | err e ↦ (err e, p.1) ]

    by_answer : (p : Result A × W) → Mid p.1 → End (continue p).1
    by_answer (ok a, v) h = go v h
    by_answer (err e, v) h = stop v h

-- A call whose exceptions are caught.
pub caught-keeps :
    {W : Type 0} (P : W → Type 0) (m : Action W (Unit {0})) (w : W)
    → P (m w).1
    → P (catch m (λ e. pure tt) w).1
caught-keeps {W} P m w h = by_answer (m w) h
  where
    handled : Result (Unit {0}) × W → Result (Unit {0}) × W
    handled p = elim p.0 [ ok a ↦ (ok a, p.1) | err e ↦ pure tt p.1 ]

    by_answer : (p : Result (Unit {0}) × W) → P p.1 → P (handled p).1
    by_answer (ok a, v) h = h
    by_answer (err e, v) h = h

-- An update of the rows of one identifier leaves what is found under another.
pub find-elsewhere :
    (id other : ℕ) (p : PushNotification → Bool) (f : PushNotification → PushNotification)
    (rows : List PushNotification)
    → other ≢ id
    → ((n : PushNotification) → p n ≡ true → n.id ≡ other)
    → ((n : PushNotification) → (f n).id ≡ n.id)
    → find? (has_id id) (update_where p f rows) ≡ find? (has_id id) rows
find-elsewhere id other p f [] ne only keeps = refl
find-elsewhere id other p f (n ∷ rows) ne only keeps = elim (Bool-cases (p n)) [
  | inl hit ↦
      ground
        (arith, keeps n, only n hit, ==_iff n.id id, find-elsewhere id other p f rows ne only keeps)
  | inr miss ↦ ground (arith, find-elsewhere id other p f rows ne only keeps)
]

pub is_claimable-id :
    (id : ℕ) (n : PushNotification) → is_claimable id n ≡ true → (n.id ≡ id) × (is_pending n ≡ true)
is_claimable-id id n h = (ground (arith, ==_iff n.id id), ground arith)

insert_by_created-All :
    (P : PushNotification → Type 0) (n : PushNotification) (ns : List PushNotification)
    → P n
    → All P ns
    → All P (insert_by_created n ns)
insert_by_created-All P n [] hn h = (hn, tt)
insert_by_created-All P n (m ∷ ms) hn h = elim (Bool-cases (ltb m.created_at n.created_at)) [
  | inl before ↦ rw before (h.0, insert_by_created-All P n ms hn h.1)
  | inr after ↦ rw after (hn, h)
]

sort_by_created-All :
    (P : PushNotification → Type 0) (ns : List PushNotification)
    → All P ns
    → All P (sort_by_created ns)
sort_by_created-All P [] h = tt
sort_by_created-All P (n ∷ ns) h =
    insert_by_created-All P n (sort_by_created ns) h.0 (sort_by_created-All P ns h.1)

take-All :
    (P : PushNotification → Type 0) (k : ℕ) (ns : List PushNotification)
    → All P ns
    → All P (take k ns)
take-All P k [] h = tt
take-All P zero (n ∷ ns) h = tt
take-All P (suc k) (n ∷ ns) h = (h.0, take-All P k ns h.1)

insert_by_created-IsDistinct :
    (n : PushNotification) (ns : List PushNotification)
    → Lacks n.id ns
    → IsDistinct ns
    → IsDistinct (insert_by_created n ns)
insert_by_created-IsDistinct n [] lacks d = (tt, tt)
insert_by_created-IsDistinct n (m ∷ ms) lacks d =
    elim (Bool-cases (ltb m.created_at n.created_at)) [
      | inl before ↦ rw before (
        insert_by_created-All (λ s. s.id ≢ m.id) n ms (λ e. lacks.0 (sym e)) d.0,
        insert_by_created-IsDistinct n ms lacks.1 d.1,
      )
      | inr after ↦ rw after (lacks, d)
    ]

sort_by_created-IsDistinct :
    (ns : List PushNotification) → IsDistinct ns → IsDistinct (sort_by_created ns)
sort_by_created-IsDistinct [] d = tt
sort_by_created-IsDistinct (n ∷ ns) d =
    insert_by_created-IsDistinct n (sort_by_created ns)
      (sort_by_created-All (λ s. s.id ≢ n.id) ns d.0) (sort_by_created-IsDistinct ns d.1)

filter-IsDistinct :
    (p : PushNotification → Bool) (ns : List PushNotification)
    → IsDistinct ns
    → IsDistinct (filter p ns)
filter-IsDistinct p [] d = tt
filter-IsDistinct p (n ∷ ns) d = elim (Bool-cases (p n)) [
  | inl hit ↦ rw hit (All-filter (λ s. s.id ≢ n.id) p ns d.0, filter-IsDistinct p ns d.1)
  | inr miss ↦ rw miss (filter-IsDistinct p ns d.1)
]

take-IsDistinct : (k : ℕ) (ns : List PushNotification) → IsDistinct ns → IsDistinct (take k ns)
take-IsDistinct k [] d = tt
take-IsDistinct zero (n ∷ ns) d = tt
take-IsDistinct (suc k) (n ∷ ns) d =
    (take-All (λ s. s.id ≢ n.id) k ns d.0, take-IsDistinct k ns d.1)

filter-accepted :
    (P : PushNotification → Type 0) (p : PushNotification → Bool) (ns : List PushNotification)
    → All P ns
    → All (λ n. P n × (p n ≡ true)) (filter p ns)
filter-accepted P p [] h = tt
filter-accepted P p (n ∷ ns) h = elim (Bool-cases (p n)) [
  | inl hit ↦ rw hit ((h.0, hit), filter-accepted P p ns h.1)
  | inr miss ↦ rw miss (filter-accepted P p ns h.1)
]

-- The candidates are pending rows of the table, and no two are the same.
pub find_candidates-All :
    (P : PushNotification → Type 0) (rows : List PushNotification)
    → All P rows
    → All (λ n. P n × (is_pending n ≡ true)) (find_candidates rows)
unfolding find_candidates
find_candidates-All P rows h =
    take-All _ batch_size (sort_by_created (filter is_pending rows))
      (sort_by_created-All _ (filter is_pending rows) (filter-accepted P is_pending rows h))

pub find_candidates-IsDistinct :
    (rows : List PushNotification) → IsDistinct rows → IsDistinct (find_candidates rows)
unfolding find_candidates
find_candidates-IsDistinct rows d =
    take-IsDistinct batch_size _
      (sort_by_created-IsDistinct _ (filter-IsDistinct is_pending rows d))

module _ (now : ℕ) where
  -- The entries that were claimed, by those that the loop took.
  pub claim_each-claimed :
      (P : PushNotification → Type 0) (rs rows : List PushNotification)
      → All (λ r. P (claim now r)) rs
      → All P (claim_each now rs rows).0
  unfolding claim_each
  claim_each-claimed P [] rows h = tt
  claim_each-claimed P (r ∷ rs) rows h = elim (Bool-cases (any? (is_claimable r.id) rows)) [
    | inl free ↦ rw free (h.0, claim_each-claimed P rs _ h.1)
    | inr taken ↦ rw taken (claim_each-claimed P rs _ h.1)
  ]

  -- What a claim keeps of a pending row, the loop keeps of all.
  pub claim_each-All :
      (P : PushNotification → Type 0) (rs rows : List PushNotification)
      → ((n : PushNotification) → P n → is_pending n ≡ true → P (claim now n))
      → All P rows
      → All P (claim_each now rs rows).1
  unfolding claim_each
  claim_each-All P [] rows keeps h = h
  claim_each-All P (r ∷ rs) rows keeps h = claim_each-All P rs _ keeps (
      All-update_where P (is_claimable r.id) (claim now) rows
        (λ n hn hit. keeps n hn (is_claimable-id r.id n hit).1) h)

  -- The loop leaves the rows of an identifier that it does not take.
  pub claim_each-elsewhere :
      (Q : PushNotification → Type 0) (id : ℕ) (rs rows : List PushNotification)
      → Lacks id rs
      → All (λ n. n.id ≡ id → Q n) rows
      → All (λ n. n.id ≡ id → Q n) (claim_each now rs rows).1
  unfolding claim_each
  claim_each-elsewhere Q id [] rows lacks h = h
  claim_each-elsewhere Q id (r ∷ rs) rows lacks h = claim_each-elsewhere Q id rs _ lacks.1 (
      All-update_where (λ n. n.id ≡ id → Q n) (is_claimable r.id) (claim now) rows
        (λ n hn hit e. absurd (lacks.0 (sym (is_claimable-id r.id n hit).0 ∙ e))) h)

  pub find-claim_each :
      (id : ℕ) (rs rows : List PushNotification)
      → Lacks id rs
      → find? (has_id id) (claim_each now rs rows).1 ≡ find? (has_id id) rows
  unfolding claim_each
  find-claim_each id [] rows lacks = refl
  find-claim_each id (r ∷ rs) rows lacks =
      find-claim_each id rs _ lacks.1
      ∙ find-elsewhere id r.id (is_claimable r.id) (claim now) rows lacks.0
          (λ n hit. (is_claimable-id r.id n hit).0) (λ n. refl)

-- The row that an identifier finds is the only one that has it.
pub only_one :
    (id : ℕ) (n : PushNotification) (rows : List PushNotification)
    → IsDistinct rows
    → find? (has_id id) rows ≡ some n
    → All (λ r. r.id ≡ id → r ≡ n) rows
only_one id n [] d h = tt
only_one id n (r ∷ rows) d h = elim (Bool-cases (r.id == id)) [
  | inl hit ↦
      let found : some r ≡ some n = (rw hit at h) in
      let same : r.id ≡ id = (==_iff r.id id).0 hit in
      (λ e. cc, All-map _ _ rows (λ s ne e. absurd (ne (e ∙ sym same))) d.0)
  | inr miss ↦ (λ e. absurd (ground (arith, ==_iff r.id id)), only_one id n rows d.1 (rw miss at h))
]

-- The tables stay distinct under bulk updates and claims.
pub update_where-IsDistinct :
    (p : PushNotification → Bool) (f : PushNotification → PushNotification)
    (rows : List PushNotification)
    → ((n : PushNotification) → (f n).id ≡ n.id)
    → IsDistinct rows
    → IsDistinct (update_where p f rows)
update_where-IsDistinct p f [] keeps d = tt
update_where-IsDistinct p f (n ∷ rows) keeps d =
    let others : (k : ℕ) → Lacks k rows → Lacks k (update_where p f rows) =
      λ k. All-update_where (λ s. s.id ≢ k) p f rows (λ s ne hit e. ne (sym (keeps s) ∙ e)) in
    elim (Bool-cases (p n)) [
      | inl hit ↦
          rw hit (rw (keeps n) (others n.id d.0), update_where-IsDistinct p f rows keeps d.1)
      | inr miss ↦ rw miss (others n.id d.0, update_where-IsDistinct p f rows keeps d.1)
    ]

pub stale-IsDistinct :
    (now : ℕ) (db : PushDb)
    → IsDistinct db.notifications
    → IsDistinct (fail_stale_sending now db).notifications
unfolding fail_stale_sending
stale-IsDistinct now db d =
    update_where-IsDistinct (is_stale now) (interrupt now) db.notifications (λ n. refl) d

-- Each row is the only one that has its identifier.
pub each_alone :
    (rows : List PushNotification)
    → IsDistinct rows
    → All (λ r. All (λ n. n.id ≡ r.id → n ≡ r) rows) rows
each_alone [] d = tt
each_alone (r ∷ rows) d = (
  ((λ e. refl), All-map _ _ rows (λ n ne e. absurd (ne e)) d.0),
  behind rows d.0 (each_alone rows d.1),
)
  where
    behind :
        (ns : List PushNotification)
        → Lacks r.id ns
        → All (λ s. All (λ n. n.id ≡ s.id → n ≡ s) rows) ns
        → All (λ s. All (λ n. n.id ≡ s.id → n ≡ s) (r ∷ rows)) ns
    behind [] lacks h = tt
    behind (s ∷ ns) lacks h = (((λ e. absurd (lacks.0 (sym e))), h.0), behind ns lacks.1 h.1)
