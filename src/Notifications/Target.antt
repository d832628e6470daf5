-- ===== src/Notifications/Target.antt =====
-- The devices that a broadcast is for (src/notifications/push-target.ts).
use smartpig_backend.Common.{
  ℕ, ◌+◌, ◌*◌, ◌-◌, Bool, true, false, ◌&&◌, ◌||◌, not, Option, none, some, List, [], ◌∷◌, String,
  ◌==◌, ltb, leb, if◌then◌else◌, all?, codes, same_text, trim, is_present, get_or_else,
}
use smartpig_backend.Notifications.Rows.{AppPlatform, PushTarget, PushDevice}

-- -1, 0 and 1.
pub data Comparison : Type 0 where
  less same greater : Comparison

pub record ParsedVersion : Type 0 where
  pub major : ℕ
  pub minor : ℕ
  pub patch : ℕ
  pub prerelease : List (List ℕ)

-- `\d`
abbrev pub is_digit : ℕ → Bool
is_digit c = leb b'0' c && leb c b'9'

-- `[0-9A-Za-z.-]`
abbrev is_identifier : ℕ → Bool
is_identifier c =
    is_digit c || leb b'a' c && leb c b'z' || leb b'A' c && leb c b'Z' || c == b'.' || c == b'-'

abbrev take_while : (ℕ → Bool) → List ℕ → List ℕ
take_while p [] = []
take_while p (c ∷ text) = if p c then c ∷ take_while p text else []

abbrev drop_while : (ℕ → Bool) → List ℕ → List ℕ
drop_while p [] = []
drop_while p (c ∷ text) = if p c then drop_while p text else c ∷ text

abbrev pub is_empty : {A : Type 0} → List A → Bool
is_empty [] = true
is_empty (x ∷ xs) = false

-- `Number`, without the rounding above 2^53.
abbrev number_from : ℕ → List ℕ → ℕ
number_from n [] = n
number_from n (c ∷ text) = number_from (n * 10 + (c - b'0')) text

abbrev pub to_number : List ℕ → ℕ
to_number text = number_from 0 text

-- `(\d+)`: the number, and what follows it.
abbrev parse_number : List ℕ → Option (ℕ × List ℕ)
parse_number text =
    if is_empty (take_while is_digit text)
    then none
    else some (to_number (take_while is_digit text), drop_while is_digit text)

-- `(?:\.(\d+))?`, zero where it is absent.
abbrev parse_optional : List ℕ → ℕ × List ℕ
parse_optional [] = (0, [])
parse_optional (c ∷ text) =
    if c == b'.' then get_or_else (parse_number text) (0, c ∷ text) else (0, c ∷ text)

abbrev cons_first : ℕ → List (List ℕ) → List (List ℕ)
cons_first c [] = (c ∷ []) ∷ []
cons_first c (part ∷ parts) = (c ∷ part) ∷ parts

-- `split('.')`
abbrev split_dots : List ℕ → List (List ℕ)
split_dots [] = [] ∷ []
split_dots (c ∷ text) =
    let rest = split_dots text in if c == b'.' then [] ∷ rest else cons_first c rest

-- `(?:\+[0-9A-Za-z.-]+)?$`
abbrev is_build : List ℕ → Bool
is_build [] = true
is_build (c ∷ text) = c == b'+' && (not (is_empty text) && all? is_identifier text)

-- `(?:-([0-9A-Za-z.-]+))?` and the build: the identifiers of the pre-release.
abbrev parse_suffix : List ℕ → Option (List (List ℕ))
parse_suffix [] = some []
parse_suffix (c ∷ text) =
    let part = take_while is_identifier text in
    if c == b'-'
    then (if not (is_empty part) && is_build (drop_while is_identifier text)
        then some (split_dots part)
        else none)
    else if is_build (c ∷ text)
    then some []
    else none

abbrev parse_after : ℕ × List ℕ → Option ParsedVersion
parse_after (x, text) =
    let (y, more) = parse_optional text in
    let (z, rest) = parse_optional more in
    elim (parse_suffix rest) [
      | none ↦ none
      | some parts ↦ some (record { major = x; minor = y; patch = z; prerelease = parts })
    ]

unfoldable pub parse_version : String → Option ParsedVersion
parse_version version = elim (parse_number (trim (codes version))) [
  | none ↦ none
  | some found ↦ parse_after found
]

-- `<` of texts
abbrev pub text_ltb : List ℕ → List ℕ → Bool
text_ltb [] [] = false
text_ltb [] (y ∷ ys) = true
text_ltb (x ∷ xs) [] = false
text_ltb (x ∷ xs) (y ∷ ys) = let rest = text_ltb xs ys in ltb x y || (x == y && rest)

abbrev pub less_if : Bool → Comparison
less_if test = if test then less else greater

-- `/^\d+$/`
abbrev pub is_numeric : List ℕ → Bool
is_numeric part = not (is_empty part) && all? is_digit part

abbrev pub compare_part : List ℕ → List ℕ → Comparison
compare_part a b =
    if is_numeric a
    then (if is_numeric b then less_if (ltb (to_number a) (to_number b)) else less)
    else if is_numeric b
    then greater
    else less_if (text_ltb a b)

-- The loop over the identifiers.
abbrev pub compare_parts : List (List ℕ) → List (List ℕ) → Comparison
compare_parts [] [] = same
compare_parts [] (b ∷ bs) = less
compare_parts (a ∷ xs) [] = greater
compare_parts (a ∷ xs) (b ∷ bs) =
    let rest = compare_parts xs bs in if same_text a b then rest else compare_part a b

-- A final version comes after its pre-releases.
abbrev pub compare_prerelease : List (List ℕ) → List (List ℕ) → Comparison
compare_prerelease [] [] = same
compare_prerelease [] (b ∷ bs) = greater
compare_prerelease (a ∷ xs) [] = less
compare_prerelease (a ∷ xs) (b ∷ bs) = compare_parts (a ∷ xs) (b ∷ bs)

abbrev pub compare_number : ℕ → ℕ → Comparison → Comparison
compare_number a b rest = if a == b then rest else less_if (ltb a b)

abbrev pub compare_parsed : ParsedVersion → ParsedVersion → Comparison
compare_parsed a b = compare_number a.major b.major (
    compare_number a.minor b.minor
      (compare_number a.patch b.patch (compare_prerelease a.prerelease b.prerelease)))

unfoldable pub compare_versions : String → String → Option Comparison
compare_versions a b = elim (parse_version a) [
  | none ↦ none
  | some v ↦ elim (parse_version b) [ none ↦ none | some w ↦ some (compare_parsed v w) ]
]

abbrev is_older : Option Comparison → Bool
is_older none = false
is_older (some c) = elim c [ less ↦ true | _ ↦ false ]

abbrev same_platform : AppPlatform → AppPlatform → Bool
same_platform AppPlatform.ios AppPlatform.ios = true
same_platform AppPlatform.android AppPlatform.android = true
same_platform _ _ = false

abbrev on_platform : AppPlatform → Option AppPlatform → Bool
on_platform p none = true
on_platform p (some q) = same_platform p q

-- The test of the version, where the target has one: a version that is missing or invalid fails it.
abbrev below : Option String → Option String → Bool
below version limit =
    if is_present limit
    then is_present version
      && is_older (compare_versions (get_or_else version "") (get_or_else limit ""))
    else true

unfoldable pub device_matches_target : PushDevice → Option PushTarget → Bool
device_matches_target d none = true
device_matches_target d (some t) =
    on_platform d.platform t.platform && below d.app_version t.max_app_version
