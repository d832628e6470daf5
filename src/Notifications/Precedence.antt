-- ===== src/Notifications/Precedence.antt =====
-- Which version precedes another (src/notifications/push-target.ts), said without the comparison.
use smartpig_backend.Common.{
  ℕ, ◌≡◌, ◌<◌, ◌⊎◌, true, false, Option, none, some, List, [], ◌∷◌, same_text,
}
use smartpig_backend.Notifications.Target.{
  Comparison, ParsedVersion, text_ltb, is_numeric, to_number,
}

-- The identifier a comes before b: as a number, as a number before a text, or as a text.
abbrev pub PartLess : List ℕ → List ℕ → Type 0
PartLess a b =
    ((is_numeric a ≡ true) × (is_numeric b ≡ true) × (to_number a < to_number b))
    ⊎ ((is_numeric a ≡ true) × (is_numeric b ≡ false)
        ⊎ (is_numeric a ≡ false) × (is_numeric b ≡ false) × (text_ltb a b ≡ true))

-- Two spellings of one number, like 01 and 1.
abbrev pub PartClash : List ℕ → List ℕ → Type 0
PartClash a b =
    (same_text a b ≡ false)
    × (is_numeric a ≡ true)
    × (is_numeric b ≡ true)
    × (to_number a ≡ to_number b)

-- By the first identifiers that differ; a list comes after its beginnings.
abbrev pub PartsLess : List (List ℕ) → List (List ℕ) → Type 0
PartsLess [] [] = ⊥
PartsLess [] (b ∷ bs) = Unit
PartsLess (a ∷ xs) [] = ⊥
PartsLess (a ∷ xs) (b ∷ bs) = ((same_text a b ≡ true) × PartsLess xs bs) ⊎ PartLess a b

abbrev pub SameParts : List (List ℕ) → List (List ℕ) → Type 0
SameParts [] [] = Unit
SameParts [] (b ∷ bs) = ⊥
SameParts (a ∷ xs) [] = ⊥
SameParts (a ∷ xs) (b ∷ bs) = (same_text a b ≡ true) × SameParts xs bs

abbrev pub PartsClash : List (List ℕ) → List (List ℕ) → Type 0
PartsClash [] [] = ⊥
PartsClash [] (b ∷ bs) = ⊥
PartsClash (a ∷ xs) [] = ⊥
PartsClash (a ∷ xs) (b ∷ bs) = ((same_text a b ≡ true) × PartsClash xs bs) ⊎ PartClash a b

-- A final version comes after its pre-releases.
abbrev pub PrereleaseLess : List (List ℕ) → List (List ℕ) → Type 0
PrereleaseLess [] w = ⊥
PrereleaseLess (a ∷ xs) [] = Unit
PrereleaseLess (a ∷ xs) (b ∷ bs) = PartsLess (a ∷ xs) (b ∷ bs)

abbrev pub NumberLess : ℕ → ℕ → Type 0 → Type 0
NumberLess a b Rest = (a < b) ⊎ ((a ≡ b) × Rest)

-- By the major, the minor and the patch number, and then the pre-release.
abbrev pub Precedes : ParsedVersion → ParsedVersion → Type 0
Precedes v w = NumberLess v.major w.major (
    NumberLess v.minor w.minor
      (NumberLess v.patch w.patch (PrereleaseLess v.prerelease w.prerelease)))

abbrev pub SameNumber : ℕ → ℕ → Type 0 → Type 0
SameNumber a b Rest = (a ≡ b) × Rest

abbrev pub SameCore : ParsedVersion → ParsedVersion → Type 0 → Type 0
SameCore v w Rest =
    SameNumber v.major w.major (SameNumber v.minor w.minor (SameNumber v.patch w.patch Rest))

-- What the two comparisons say, and for which versions.
abbrev pub Ranked : Type 0 → Type 0 → Type 0 → Type 0 → Comparison → Comparison → Type 0
Ranked Less Greater Same Clash Comparison.less Comparison.greater = Less
Ranked Less Greater Same Clash Comparison.greater Comparison.less = Greater
Ranked Less Greater Same Clash Comparison.same Comparison.same = Same
Ranked Less Greater Same Clash Comparison.greater Comparison.greater = Clash
Ranked Less Greater Same Clash c d = ⊥

-- An answer is missing exactly where a version cannot be read.
abbrev pub IsRanked :
    Option ParsedVersion → Option ParsedVersion → Option Comparison → Option Comparison → Type 0
IsRanked (some v) (some w) (some c) (some d) =
    Ranked (Precedes v w) (Precedes w v) (SameCore v w (SameParts v.prerelease w.prerelease))
      (SameCore v w (PartsClash v.prerelease w.prerelease)) c d
IsRanked (some v) (some w) c d = ⊥
IsRanked v w none none = Unit
IsRanked v w c d = ⊥
