-- ===== src/VaultEligibility/Activity.antt =====
-- The policies of a vault stay in order (src/vault-eligibility/vault-eligibility.service.ts: upsertPolicy).
use smartpig_backend.Common.{
  ℕ, ◌≤◌, ◌≡◌, ◌≢◌, refl, sym, subst, ◌∙◌, Bool, false, ◌&&◌, not, none, List, [], ◌∷◌, count_where,
  find?, update_where, ◌==◌, ==_iff, arith,
}
use smartpig_backend.Schema.{Db}
use smartpig_backend.Schema.Vaults.{User, Policy, Unlock, LearningModule}
use smartpig_backend.VaultEligibility.{upsert_unlock, current_level_of}
use smartpig_backend.VaultEligibility.Policies.{
  UpsertPolicy, is_version, is_other_active, deactivate, deactivate_others, revise, save_policy,
  unlock_users, unlock_of, materialize_policy_unlocks, write_policy, answer_version, upsert_policy,
}

abbrev pub is_active_for : ℕ → Policy → Bool
is_active_for vault p = p.vault_id == vault && p.is_active

-- No vault has two active policies, and no version of a vault has two rows.
pub record IsOrdered (policies : List Policy) : Type 0 where
  pub one_active : (vault : ℕ) → count_where (is_active_for vault) policies ≤ 1
  pub one_version : (vault version : ℕ) → count_where (is_version vault version) policies ≤ 1

deactivated-active :
    (vault version : ℕ) (rows : List Policy)
    → count_where
        (is_active_for vault)
        (update_where (is_other_active vault version) deactivate rows)
      ≤ count_where (is_version vault version) rows
deactivated-active vault version [] = omega arith
deactivated-active vault version (p ∷ rows) = ground (arith, deactivated-active vault version rows)

deactivated-others :
    (vault version other : ℕ) (rows : List Policy)
    → count_where
        (is_active_for other)
        (update_where (is_other_active vault version) deactivate rows)
      ≤ count_where (is_active_for other) rows
deactivated-others vault version other [] = omega arith
deactivated-others vault version other (p ∷ rows) =
    ground (arith, deactivated-others vault version other rows)

deactivated-versions :
    (vault version other v : ℕ) (rows : List Policy)
    → count_where
        (is_version other v)
        (update_where (is_other_active vault version) deactivate rows)
      ≡ count_where (is_version other v) rows
deactivated-versions vault version other v [] = refl
deactivated-versions vault version other v (p ∷ rows) =
    ground (arith, deactivated-versions vault version other v rows)

revised-versions :
    (now vault : ℕ) (dto : UpsertPolicy) (modules : List LearningModule) (other v : ℕ)
    (rows : List Policy)
    → count_where
        (is_version other v)
        (update_where (is_version vault dto.version) (revise now dto modules) rows)
      ≡ count_where (is_version other v) rows
revised-versions now vault dto modules other v [] = refl
revised-versions now vault dto modules other v (p ∷ rows) =
    ground (arith, revised-versions now vault dto modules other v rows)

-- Drafting a version activates nothing.
drafted-active :
    (now vault : ℕ) (dto : UpsertPolicy) (modules : List LearningModule) (other : ℕ)
    (rows : List Policy)
    → dto.publish ≡ false
    → count_where
        (is_active_for other)
        (update_where (is_version vault dto.version) (revise now dto modules) rows)
      ≤ count_where (is_active_for other) rows
drafted-active now vault dto modules other [] draft = omega arith
drafted-active now vault dto modules other (p ∷ rows) draft =
    ground (arith, drafted-active now vault dto modules other rows draft)

-- Where all active rows of the vault are the version's, publishing it keeps them so.
abbrev OnlyVersion : ℕ → ℕ → List Policy → Type 0
OnlyVersion vault version rows =
    count_where (λ p. is_active_for vault p && not (is_version vault version p)) rows ≡ 0

deactivated-OnlyVersion :
    (vault version : ℕ) (rows : List Policy)
    → OnlyVersion vault version (update_where (is_other_active vault version) deactivate rows)
deactivated-OnlyVersion vault version [] = refl
deactivated-OnlyVersion vault version (p ∷ rows) =
    ground (arith, deactivated-OnlyVersion vault version rows)

revised-active :
    (now vault : ℕ) (dto : UpsertPolicy) (modules : List LearningModule) (rows : List Policy)
    → OnlyVersion vault dto.version rows
    → count_where
        (is_active_for vault)
        (update_where (is_version vault dto.version) (revise now dto modules) rows)
      ≤ count_where (is_version vault dto.version) rows
revised-active now vault dto modules [] only = omega arith
revised-active now vault dto modules (p ∷ rows) only =
    ground (arith, revised-active now vault dto modules rows)

revised-others :
    (now vault : ℕ) (dto : UpsertPolicy) (modules : List LearningModule) (other : ℕ)
    (rows : List Policy)
    → other ≢ vault
    → count_where
        (is_active_for other)
        (update_where (is_version vault dto.version) (revise now dto modules) rows)
      ≡ count_where (is_active_for other) rows
revised-others now vault dto modules other [] apart = refl
revised-others now vault dto modules other (p ∷ rows) apart =
    ground (arith, revised-others now vault dto modules other rows apart)

none-counted :
    (p : Policy → Bool) (rows : List Policy) → find? p rows ≡ none → count_where p rows ≡ 0
none-counted p [] h = refl
none-counted p (x ∷ rows) h = ground (arith, none-counted p rows)

saved-one_active :
    (now vault : ℕ) (dto : UpsertPolicy) (modules : List LearningModule) (db : Db) (other : ℕ)
    → count_where (is_active_for other) db.policies ≤ 1
    → count_where (is_version vault dto.version) db.policies ≤ 1
    → count_where
        (is_active_for other)
        (save_policy now vault dto modules
          (deactivate_others dto.publish vault dto.version db)).policies
      ≤ 1
unfolding save_policy deactivate_others
saved-one_active now vault dto modules db other active version =
    let rest = update_where (is_other_active vault dto.version) deactivate db.policies in
    ground (
      arith,
      ==_iff vault other,
      deactivated-active vault dto.version db.policies,
      deactivated-others vault dto.version other db.policies,
      deactivated-versions vault dto.version vault dto.version db.policies,
      drafted-active now vault dto modules other db.policies,
      revised-active now vault dto modules rest
          (deactivated-OnlyVersion vault dto.version db.policies),
      revised-others now vault dto modules other rest,
      none-counted (is_version vault dto.version) rest,
    )

saved-one_version :
    (now vault : ℕ) (dto : UpsertPolicy) (modules : List LearningModule) (db : Db) (other v : ℕ)
    → count_where (is_version other v) db.policies ≤ 1
    → count_where
        (is_version other v)
        (save_policy now vault dto modules
          (deactivate_others dto.publish vault dto.version db)).policies
      ≤ 1
unfolding save_policy deactivate_others
saved-one_version now vault dto modules db other v version =
    let rest = update_where (is_other_active vault dto.version) deactivate db.policies in
    ground (
      arith,
      ==_iff vault other,
      ==_iff dto.version v,
      deactivated-versions vault dto.version other v db.policies,
      revised-versions now vault dto modules other v db.policies,
      revised-versions now vault dto modules other v rest,
      none-counted (is_version vault dto.version) rest,
      none-counted (is_version vault dto.version) db.policies,
    )

upsert_unlock-policies : (r : Unlock) (db : Db) → (upsert_unlock r db).policies ≡ db.policies
unfolding upsert_unlock
upsert_unlock-policies r db = ground arith

unlock_users-policies :
    (p : Policy) (us : List User) (db : Db) → (unlock_users p us db).policies ≡ db.policies
unfolding unlock_users
unlock_users-policies p [] db = refl
unlock_users-policies p (u ∷ us) db =
    unlock_users-policies p us _
    ∙ upsert_unlock-policies (unlock_of p (current_level_of u.id db) u) db

write_policy-policies :
    (now vault : ℕ) (dto : UpsertPolicy) (modules : List LearningModule) (db : Db)
    → (write_policy now vault dto modules db).1.policies
      ≡ (save_policy now vault dto modules
          (deactivate_others dto.publish vault dto.version db)).policies
unfolding write_policy materialize_policy_unlocks
write_policy-policies now vault dto modules db = grind (arith, unlock_users-policies)

write_policy-IsOrdered :
    (now vault : ℕ) (dto : UpsertPolicy) (modules : List LearningModule) (db : Db)
    → IsOrdered db.policies
    → IsOrdered (write_policy now vault dto modules db).1.policies
write_policy-IsOrdered now vault dto modules db h =
    subst IsOrdered (sym (write_policy-policies now vault dto modules db)) (record {
      one_active = λ other.
          saved-one_active now vault dto modules db other (h.one_active other)
            (h.one_version vault dto.version);
      one_version =
          λ other v. saved-one_version now vault dto modules db other v (h.one_version other v);
    })

-- Every call keeps the policies in order, whatever it answers: no vault gets two active policies, and no
-- version of a vault two rows.
pub upsert_policy-IsOrdered :
    (now vault : ℕ) (dto : UpsertPolicy) (db : Db)
    → IsOrdered db.policies
    → IsOrdered (upsert_policy now vault dto db).1.policies
unfolding upsert_policy answer_version
upsert_policy-IsOrdered now vault dto db h =
    grind (
      arith,
      h,
      λ (modules : List LearningModule). write_policy-IsOrdered now vault dto modules db h,
    )
