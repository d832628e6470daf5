-- ===== src/Common/Tables.antt =====
-- Tables over time: what an operation keeps of the rows that were there before it.
use Prim.Native.Nat.{ℕ, ◌<◌, ◌≤◌}
use mathlib.Core.Path.{◌≡◌, refl, subst, sym, ap}
use native.Mathlib.Omega.{arith}
use mathlib.Core.Logic.{inl, inr}
use mathlib.Core.Bool.{Bool, true}
use mathlib.Core.Option.{Option, none, some}
use mathlib.Core.List.{List, [], ◌∷◌}
use smartpig_backend.Common.Tests.{if◌then◌else◌, ◌==◌, ==_iff, Bool-cases}
use smartpig_backend.Common.Lists.{find?, update_where, find?-update_where}

module _ {A : Type 0} (key : A → ℕ) where
  -- `findUnique({ where: { id } })`
  abbrev pub find_row : ℕ → List A → Option A
  find_row id rows = find? (λ a. key a == id) rows

  -- The row that is found under an identifier has it.
  pub find_row-key : (id : ℕ) (rows : List A) {a : A} → find_row id rows ≡ some a → key a ≡ id
  find_row-key id [] h = cc
  find_row-key id (x ∷ rows) {a} h = elim (Bool-cases (key x == id)) [
    | inl hit ↦ ground (arith, ==_iff (key x) id)
    | inr miss ↦ find_row-key id rows (rw miss at h)
  ]

module _ {A : Type 0} (key : A → ℕ) (Rel : A → A → Type 0) where
  -- The row is still there, and moved as the relation says.
  abbrev pub Follows : Option A → Option A → Type 0
  Follows none after = Unit
  Follows (some a) none = ⊥
  Follows (some a) (some b) = Rel a b

  -- Every row whose identifier was drawn before is still there, and moved so.
  abbrev pub Evolved : ℕ → List A → List A → Type 0
  Evolved next before after =
      (id : ℕ) → id < next → Follows (find_row key id before) (find_row key id after)

  module _ (reflexive : (a : A) → Rel a a) where
    Follows-refl : (o : Option A) → Follows o o
    Follows-refl none = tt
    Follows-refl (some a) = reflexive a

    pub Evolved-same :
        (next : ℕ) {before after : List A} → after ≡ before → Evolved next before after
    Evolved-same next {before} {after} same id below =
        subst (λ rows. Follows (find_row key id before) (find_row key id rows)) (sym same)
          (Follows-refl (find_row key id before))

    pub Evolved-insert :
        (next : ℕ) (a : A) (rows : List A) → next ≤ key a → Evolved next rows (a ∷ rows)
    Evolved-insert next a rows fresh id below = elim (Bool-cases (key a == id)) [
      | inl hit ↦ absurd (ground (arith, ==_iff (key a) id))
      | inr miss ↦ rw miss (Follows-refl (find_row key id rows))
    ]

    Follows-updated :
        (p : A → Bool) (f : A → A) (o : Option A)
        → ((a : A) → o ≡ some a → p a ≡ true → Rel a (f a))
        → Follows o (elim o [ none ↦ none | some a ↦ some (if p a then f a else a) ])
    Follows-updated p f none moves = tt
    Follows-updated p f (some a) moves = elim (Bool-cases (p a)) [
      | inl hit ↦ rw hit (moves a refl hit)
      | inr miss ↦ rw miss (reflexive a)
    ]

    -- A bulk update, by what it does to the rows that it accepts.
    pub Evolved-update_where :
        (next : ℕ) (p : A → Bool) (f : A → A) (rows : List A)
        → ((a : A) → key (f a) ≡ key a)
        → ((a : A) → p a ≡ true → Rel a (f a))
        → Evolved next rows (update_where p f rows)
    Evolved-update_where next p f rows keep moves id below =
        rw (find?-update_where (λ a. key a == id) p f rows (λ a. ap (λ k. k == id) (keep a)))
          (Follows-updated p f (find_row key id rows) (λ a found. moves a))

    -- The update of one row, by what it does to the row that is found.
    pub Evolved-update :
        (next row : ℕ) (f : A → A) (rows : List A)
        → ((a : A) → key (f a) ≡ key a)
        → ((a : A) → find_row key row rows ≡ some a → Rel a (f a))
        → Evolved next rows (update_where (λ a. key a == row) f rows)
    Evolved-update next row f rows keep moves id below =
        rw
          (find?-update_where (λ a. key a == id) (λ a. key a == row) f rows
            (λ a. ap (λ k. k == id) (keep a)))
          (Follows-updated (λ a. key a == row) f (find_row key id rows)
            (λ a found hit.
              let same : key a ≡ row = (==_iff (key a) row).0 hit in
              let own : key a ≡ id = find_row-key key id rows found in
              let this : id ≡ row = cc in
              moves a (subst (λ i. find_row key i rows ≡ some a) this found)))

  Follows-trans :
      ((a b c : A) → Rel a b → Rel b c → Rel a c)
      → (x y z : Option A) → Follows x y
      → Follows y z
      → Follows x z
  Follows-trans transitive none y z h k = tt
  Follows-trans transitive (some a) none z h k = absurd h
  Follows-trans transitive (some a) (some b) none h k = absurd k
  Follows-trans transitive (some a) (some b) (some c) h k = transitive a b c h k

  pub Evolved-trans :
      ((a b c : A) → Rel a b → Rel b c → Rel a c)
      → (next later : ℕ) (before between after : List A) → next ≤ later
      → Evolved next before between
      → Evolved later between after
      → Evolved next before after
  Evolved-trans transitive next later before between after le h k id below =
      Follows-trans transitive _ _ _ (h id below) (k id (omega arith))
