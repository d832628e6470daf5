-- ===== src/Common/Lists.antt =====
-- Tables as lists of rows: the Prisma queries that the services use, and their laws.
use Prim.Native.Nat.{ℕ, zero, suc}
use mathlib.Core.Path.{◌≡◌, refl, subst}
use native.Mathlib.Omega.{arith}
use mathlib.Core.Logic.{◌⊎◌, inl, inr}
use mathlib.Core.Bool.{Bool, true, false, ◌&&◌, ◌||◌, not}
use mathlib.Core.Option.{Option, none, some}
use mathlib.Core.List.{List, [], ◌∷◌, ◌++◌}
use smartpig_backend.Common.Tests.{ltb, if◌then◌else◌, ◌==◌, Bool-cases}

module _ {ℓ} {A : Type ℓ} where
  abbrev pub length : List A → ℕ
  length [] = 0
  length (x ∷ xs) = suc (length xs)

  -- `findFirst` and `findUnique`: the first row that the filter accepts.
  abbrev pub find? : (A → Bool) → List A → Option A
  find? p [] = none
  find? p (x ∷ xs) = if p x then some x else find? p xs

  -- `findMany`, `Array.filter`
  abbrev pub filter : (A → Bool) → List A → List A
  filter p [] = []
  filter p (x ∷ xs) = if p x then x ∷ filter p xs else filter p xs

  -- `count`
  abbrev pub count_where : (A → Bool) → List A → ℕ
  count_where p [] = 0
  count_where p (x ∷ xs) = if p x then suc (count_where p xs) else count_where p xs

  -- `updateMany`: every row that the filter accepts is replaced.
  abbrev pub update_where : (A → Bool) → (A → A) → List A → List A
  update_where p f [] = []
  update_where p f (x ∷ xs) = (if p x then f x else x) ∷ update_where p f xs

  -- `findFirst` with `orderBy: desc`: an accepted row with the greatest key.
  abbrev pub find_latest : (A → Bool) → (A → ℕ) → List A → Option A
  find_latest p key [] = none
  find_latest p key (x ∷ xs) =
      let rest = find_latest p key xs in
      if p x
      then elim rest [ none ↦ some x | some y ↦ if ltb (key x) (key y) then some y else some x ]
      else rest

  -- `findFirst` with `orderBy: asc`: an accepted row with the least key.
  abbrev pub find_least : (A → Bool) → (A → ℕ) → List A → Option A
  find_least p key [] = none
  find_least p key (x ∷ xs) =
      let rest = find_least p key xs in
      if p x
      then elim rest [ none ↦ some x | some y ↦ if ltb (key y) (key x) then some y else some x ]
      else rest

  abbrev pub all? : (A → Bool) → List A → Bool
  all? p [] = true
  all? p (x ∷ xs) = p x && all? p xs

  abbrev pub any? : (A → Bool) → List A → Bool
  any? p [] = false
  any? p (x ∷ xs) = p x || any? p xs

  -- `take: n`
  abbrev pub take : ℕ → List A → List A
  take n [] = []
  take n (x ∷ xs) = elim n [ zero ↦ [] | suc m ↦ x ∷ take m xs ]

-- `xs.includes(x)` over identifiers
abbrev pub includes : ℕ → List ℕ → Bool
includes a [] = false
includes a (x ∷ xs) = a == x || includes a xs

-- A predicate on every row, which computes to tuples.
abbrev pub All {ℓ κ} : {A : Type ℓ} → (A → Type κ) → List A → Type κ
All P [] = Unit
All P (x ∷ xs) = P x × All P xs

-- A predicate on some row.
abbrev pub Any {ℓ} : {A : Type ℓ} → (A → Type 0) → List A → Type 0
Any P [] = ⊥
Any P (x ∷ xs) = P x ⊎ Any P xs

module _ {ℓ κ} {A : Type ℓ} (P : A → Type κ) where
  pub All-append : (xs ys : List A) → All P xs → All P ys → All P (xs ++ ys)
  All-append [] ys hx hy = hy
  All-append (x ∷ xs) ys hx hy = (hx.0, All-append xs ys hx.1 hy)

  -- A row that a query finds has what every row has, and passes the filter.
  pub All-find? :
      (p : A → Bool) (xs : List A) {a : A} → All P xs → find? p xs ≡ some a → P a × (p a ≡ true)
  All-find? p [] h e = cc
  All-find? p (x ∷ xs) {a} h e = elim (Bool-cases (p x)) [
    | inl hit ↦
        let found : some x ≡ some a = (rw hit at e) in
        let same : x ≡ a = cc in (subst P same h.0, subst (λ y. p y ≡ true) same hit)
    | inr miss ↦ All-find? p xs h.1 (rw miss at e)
  ]

  -- A bulk update keeps what it keeps of each row that it touches.
  pub All-update_where :
      (p : A → Bool) (f : A → A) (xs : List A)
      → ((a : A) → P a → p a ≡ true → P (f a))
      → All P xs
      → All P (update_where p f xs)
  All-update_where p f [] keep h = tt
  All-update_where p f (x ∷ xs) keep h = elim (Bool-cases (p x)) [
    | inl hit ↦ rw hit (keep x h.0 hit, All-update_where p f xs keep h.1)
    | inr miss ↦ rw miss (h.0, All-update_where p f xs keep h.1)
  ]

  pub All-filter : (p : A → Bool) (xs : List A) → All P xs → All P (filter p xs)
  All-filter p [] h = tt
  All-filter p (x ∷ xs) h = elim (Bool-cases (p x)) [
    | inl hit ↦ rw hit (h.0, All-filter p xs h.1)
    | inr miss ↦ rw miss (All-filter p xs h.1)
  ]

module _ {ℓ} {A : Type ℓ} where
  -- A search by columns that a bulk update keeps finds the row that it found before, updated.
  pub find?-update_where :
      (p q : A → Bool) (f : A → A) (xs : List A)
      → ((a : A) → p (f a) ≡ p a)
      → find? p (update_where q f xs)
        ≡ elim (find? p xs) [ none ↦ none | some a ↦ some (if q a then f a else a) ]
  find?-update_where p q f [] keep = refl
  find?-update_where p q f (x ∷ xs) keep = elim (Bool-cases (q x)) [
    | inl hit ↦ ground (arith, keep x, find?-update_where p q f xs keep)
    | inr miss ↦ ground (arith, find?-update_where p q f xs keep)
  ]

module _ {ℓ} {A : Type ℓ} where
  -- A search finds the same row after rows that are not it were deleted.
  pub find?-filter :
      (p q : A → Bool) (xs : List A) {a : A}
      → find? p xs ≡ some a
      → q a ≡ true
      → find? p (filter q xs) ≡ some a
  find?-filter p q [] h keep = cc
  find?-filter p q (x ∷ xs) {a} h keep = ground (arith, find?-filter p q xs {a = a})

module _ {ℓ} {A : Type ℓ} where
  -- The update of the rows that a search accepts, where they stay accepted: the row it finds changes.
  pub find?-update_same :
      (p : A → Bool) (f : A → A) (xs : List A)
      → ((a : A) → p (f a) ≡ p a)
      → find? p (update_where p f xs) ≡ elim (find? p xs) [ none ↦ none | some a ↦ some (f a) ]
  find?-update_same p f [] keep = refl
  find?-update_same p f (x ∷ xs) keep = elim (Bool-cases (p x)) [
    | inl hit ↦ ground (arith, keep x)
    | inr miss ↦ ground (arith, find?-update_same p f xs keep)
  ]

module _ {ℓ} {A : Type ℓ} where
  -- What a search finds passes its filter.
  pub find?-accepts : (p : A → Bool) (xs : List A) {a : A} → find? p xs ≡ some a → p a ≡ true
  find?-accepts p [] h = cc
  find?-accepts p (x ∷ xs) {a} h = ground (arith, find?-accepts p xs {a = a})

module _ {ℓ} {A : Type ℓ} where
  -- A bulk update gives the rows that it accepts what it gives every row.
  pub All-update_accepted :
      (P : A → Type 0) (p : A → Bool) (f : A → A) (xs : List A)
      → ((a : A) → P (f a))
      → All (λ a. p a ≡ true → P a) (update_where p f xs)
  All-update_accepted P p f [] gives = tt
  All-update_accepted P p f (x ∷ xs) gives = elim (Bool-cases (p x)) [
    | inl hit ↦ rw hit ((λ _. gives x), All-update_accepted P p f xs gives)
    | inr miss ↦ rw miss ((λ hit. absurd (cc)), All-update_accepted P p f xs gives)
  ]

  -- A bulk update leaves the other rows, where the rows that it accepts stay accepted.
  pub filter-update_where :
      (p : A → Bool) (f : A → A) (xs : List A)
      → ((a : A) → p (f a) ≡ p a)
      → filter (λ a. not (p a)) (update_where p f xs) ≡ filter (λ a. not (p a)) xs
  filter-update_where p f [] keep = refl
  filter-update_where p f (x ∷ xs) keep = elim (Bool-cases (p x)) [
    | inl hit ↦ ground (arith, keep x, filter-update_where p f xs keep)
    | inr miss ↦ ground (arith, filter-update_where p f xs keep)
  ]

  -- What one deletion leaves, another of the same rows leaves.
  pub filter-filter : (p : A → Bool) (xs : List A) → filter p (filter p xs) ≡ filter p xs
  filter-filter p [] = refl
  filter-filter p (x ∷ xs) = elim (Bool-cases (p x)) [
    | inl hit ↦ ground (arith, filter-filter p xs)
    | inr miss ↦ ground (arith, filter-filter p xs)
  ]

-- A deleted owner is not there any more.
pub includes-filter : (a : ℕ) (xs : List ℕ) → includes a (filter (λ x. not (x == a)) xs) ≡ false
includes-filter a [] = refl
includes-filter a (x ∷ xs) = ground (arith, includes-filter a xs)
