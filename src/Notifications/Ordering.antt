-- ===== src/Notifications/Ordering.antt =====
-- The order of versions (src/notifications/push-target.ts).
use smartpig_backend.Common.{
  ℕ, ◌≡◌, refl, sym, true, false, Option, none, some, List, [], ◌∷◌, String, ◌==◌, ltb, arith,
  same_text, Bool-cases, inl, inr, ==_iff,
}
use smartpig_backend.Notifications.Target.{
  Comparison, ParsedVersion, text_ltb, compare_part, compare_parts, compare_prerelease,
  compare_number, compare_parsed, parse_version, compare_versions,
}
use smartpig_backend.Notifications.Precedence.{
  PartLess, PartClash, PartsLess, SameParts, PartsClash, PrereleaseLess, NumberLess, SameNumber,
  Ranked, IsRanked,
}

same_text_sym : (a b : List ℕ) → same_text a b ≡ same_text b a
unfolding same_text
same_text_sym [] [] = refl
same_text_sym [] (y ∷ ys) = refl
same_text_sym (x ∷ xs) [] = refl
same_text_sym (x ∷ xs) (y ∷ ys) = ground (arith, same_text_sym xs ys, ==_iff x y, ==_iff y x)

text_ltb_asym : (a b : List ℕ) → text_ltb a b ≡ true → text_ltb b a ≡ false
text_ltb_asym [] [] h = refl
text_ltb_asym [] (y ∷ ys) h = refl
text_ltb_asym (x ∷ xs) [] h = cc
text_ltb_asym (x ∷ xs) (y ∷ ys) h = ground (arith, text_ltb_asym xs ys, ==_iff x y, ==_iff y x)

text_ltb_total : (a b : List ℕ) → same_text a b ≡ false → text_ltb a b ≡ false → text_ltb b a ≡ true
unfolding same_text
text_ltb_total [] [] h k = absurd (ground arith)
text_ltb_total [] (y ∷ ys) h k = absurd (ground arith)
text_ltb_total (x ∷ xs) [] h k = refl
text_ltb_total (x ∷ xs) (y ∷ ys) h k = ground (arith, text_ltb_total xs ys, ==_iff x y, ==_iff y x)

Ranked-map :
    {L G S K L1 G1 S1 K1 : Type 0} (c d : Comparison)
    → (L → L1)
    → (G → G1)
    → (S → S1)
    → (K → K1)
    → Ranked L G S K c d
    → Ranked L1 G1 S1 K1 c d
Ranked-map Comparison.less Comparison.less l g s k h = h
Ranked-map Comparison.less Comparison.same l g s k h = h
Ranked-map Comparison.less Comparison.greater l g s k h = l h
Ranked-map Comparison.same Comparison.less l g s k h = h
Ranked-map Comparison.same Comparison.same l g s k h = s h
Ranked-map Comparison.same Comparison.greater l g s k h = h
Ranked-map Comparison.greater Comparison.less l g s k h = g h
Ranked-map Comparison.greater Comparison.same l g s k h = h
Ranked-map Comparison.greater Comparison.greater l g s k h = k h

compare_part-Ranked :
    (a b : List ℕ)
    → same_text a b ≡ false
    → Ranked (PartLess a b) (PartLess b a) ⊥ (PartClash a b) (compare_part a b) (compare_part b a)
compare_part-Ranked a b differ =
    ground (arith, text_ltb_asym a b, text_ltb_asym b a, text_ltb_total a b differ)

compare_parts-Ranked :
    (a b : List (List ℕ))
    → Ranked
        (PartsLess a b)
        (PartsLess b a)
        (SameParts a b)
        (PartsClash a b)
        (compare_parts a b)
        (compare_parts b a)
compare_parts-Ranked [] [] = tt
compare_parts-Ranked [] (b ∷ bs) = tt
compare_parts-Ranked (a ∷ xs) [] = tt
compare_parts-Ranked (a ∷ xs) (b ∷ bs) =
    let back = same_text_sym a b in
    elim (Bool-cases (same_text a b)) [
      | inl eq ↦
          let eq_back : same_text b a ≡ true = ground arith in
          rw eq (
            rw eq_back (
              Ranked-map (compare_parts xs bs) (compare_parts bs xs) (λ l. inl (refl, l))
                (λ g. inl (refl, g)) (λ s. (refl, s)) (λ k. inl (refl, k))
                (compare_parts-Ranked xs bs)))
      | inr ne ↦
          let ne_back : same_text b a ≡ false = ground arith in
          rw ne (
            rw ne_back (
              Ranked-map (compare_part a b) (compare_part b a) (λ l. inr l) (λ g. inr g)
                (λ s. absurd s) (λ k. inr (refl, k.1, k.2, k.3)) (compare_part-Ranked a b ne)))
    ]

compare_prerelease-Ranked :
    (a b : List (List ℕ))
    → Ranked
        (PrereleaseLess a b)
        (PrereleaseLess b a)
        (SameParts a b)
        (PartsClash a b)
        (compare_prerelease a b)
        (compare_prerelease b a)
compare_prerelease-Ranked [] [] = tt
compare_prerelease-Ranked [] (b ∷ bs) = tt
compare_prerelease-Ranked (a ∷ xs) [] = tt
compare_prerelease-Ranked (a ∷ xs) (b ∷ bs) = compare_parts-Ranked (a ∷ xs) (b ∷ bs)

compare_number-Ranked :
    (L G S K : Type 0) (a b : ℕ) (c d : Comparison)
    → Ranked L G S K c d
    → Ranked
        (NumberLess a b L)
        (NumberLess b a G)
        (SameNumber a b S)
        (SameNumber a b K)
        (compare_number a b c)
        (compare_number b a d)
compare_number-Ranked L G S K a b c d h = elim (Bool-cases (a == b)) [
  | inl eq ↦
      let same : a ≡ b = ground (arith, ==_iff a b) in
      let back : (b == a) ≡ true = ground (arith, ==_iff a b, ==_iff b a) in
      rw eq (
        rw back (
          Ranked-map c d (λ l. inr (same, l)) (λ g. inr (sym same, g)) (λ s. (same, s))
            (λ k. (same, k)) h))
  | inr ne ↦
      let back : (b == a) ≡ false = ground (arith, ==_iff a b, ==_iff b a) in
      rw ne (
        rw back (elim (Bool-cases (ltb a b)) [
          | inl below ↦
              let above : ltb b a ≡ false = ground arith in rw below (rw above (inl (ground arith)))
          | inr not_below ↦
              let above : ltb b a ≡ true = ground (arith, ==_iff a b) in
              rw not_below (rw above (inl (ground arith)))
        ]))
]

compare_parsed-Ranked :
    (v w : ParsedVersion)
    → IsRanked (some v) (some w) (some (compare_parsed v w)) (some (compare_parsed w v))
compare_parsed-Ranked v w =
    let same = SameParts v.prerelease w.prerelease in
    let clash = PartsClash v.prerelease w.prerelease in
    let less = PrereleaseLess v.prerelease w.prerelease in
    let greater = PrereleaseLess w.prerelease v.prerelease in
    let patch =
      compare_number-Ranked less greater same clash v.patch w.patch
        (compare_prerelease v.prerelease w.prerelease)
        (compare_prerelease w.prerelease v.prerelease)
        (compare_prerelease-Ranked v.prerelease w.prerelease) in
    let minor =
      compare_number-Ranked (NumberLess v.patch w.patch less) (NumberLess w.patch v.patch greater)
        (SameNumber v.patch w.patch same) (SameNumber v.patch w.patch clash) v.minor w.minor
        (compare_number v.patch w.patch (compare_prerelease v.prerelease w.prerelease))
        (compare_number w.patch v.patch (compare_prerelease w.prerelease v.prerelease)) patch in
    compare_number-Ranked (NumberLess v.minor w.minor (NumberLess v.patch w.patch less))
      (NumberLess w.minor v.minor (NumberLess w.patch v.patch greater))
      (SameNumber v.minor w.minor (SameNumber v.patch w.patch same))
      (SameNumber v.minor w.minor (SameNumber v.patch w.patch clash)) v.major w.major
      (compare_number v.minor w.minor
        (compare_number v.patch w.patch (compare_prerelease v.prerelease w.prerelease)))
      (compare_number w.minor v.minor
        (compare_number w.patch v.patch (compare_prerelease w.prerelease v.prerelease)))
      minor

parsed-Ranked :
    (x y : Option ParsedVersion)
    → IsRanked x y
        (elim x [
          | none ↦ none
          | some v ↦ elim y [ none ↦ none | some w ↦ some (compare_parsed v w) ]
        ])
        (elim y [
          | none ↦ none
          | some v ↦ elim x [ none ↦ none | some w ↦ some (compare_parsed v w) ]
        ])
parsed-Ranked none none = tt
parsed-Ranked none (some w) = tt
parsed-Ranked (some v) none = tt
parsed-Ranked (some v) (some w) = compare_parsed-Ranked v w

-- Two versions compared in both orders. If one cannot be read, both answers are missing. Otherwise one
-- says less and the other greater exactly where the one precedes the other, by the major, the minor and
-- the patch number, a pre-release before its final version, and then the first identifiers that differ;
-- both say the same where the numbers and the identifiers are the same; and both say greater where the
-- first identifiers that differ are two spellings of one number, like 01 and 1. There is no other case.
pub compare_versions-IsRanked :
    (a b : String)
    → IsRanked (parse_version a) (parse_version b) (compare_versions a b) (compare_versions b a)
unfolding compare_versions
compare_versions-IsRanked a b = parsed-Ranked (parse_version a) (parse_version b)
