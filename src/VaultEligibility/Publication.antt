-- ===== src/VaultEligibility/Publication.antt =====
-- What publishing a policy promises (src/vault-eligibility/vault-eligibility.service.ts): who holds an
-- unlock afterwards, and that a published version does not change.
use smartpig_backend.Common.{
  ℕ, Option, none, not, leb, all?, map, Bool-cases, find?-update_same, ◌≡◌, ◌⊎◌, refl, sym, ◌∙◌,
  Bool, true, false, ◌&&◌, ◌||◌, some, List, [], ◌∷◌, Result, ok, err, Fails, is_some, subst,
  find?-accepts, Option-cases, inl, inr, ap, any?, filter, find?, ◌==◌, ==_iff, arith,
  if◌then◌else◌,
}
use smartpig_backend.Schema.{Db}
use smartpig_backend.Schema.Vaults.{
  User, Policy, Unlock, LearningModule, RequiredModule, ExperienceMode,
}
use smartpig_backend.Schema.Vaults.{Account}
use smartpig_backend.VaultEligibility.{
  find_unlock, upsert_unlock, current_level_of, find_account, has_completed, is_nil,
}
use smartpig_backend.VaultEligibility.Policies.{
  UpsertPolicy, find_version, deactivate_others, save_policy, is_qualified, unlock_of, unlock_users,
  materialize_policy_unlocks, write_policy, answer_version, upsert_policy, is_version, revise,
  required_of, find_modules, unique_keys,
}

-- The user holds an unlock of the vault.
abbrev pub holds_unlock : ℕ → ℕ → Db → Bool
holds_unlock user vault db = is_some (find_unlock user vault db)

upsert_unlock-holds :
    (user : ℕ) (r : Unlock) (db : Db)
    → holds_unlock user r.vault_id (upsert_unlock r db)
      ≡ (holds_unlock user r.vault_id db || r.user_id == user)
unfolding upsert_unlock
upsert_unlock-holds user r db = ground (arith, ==_iff r.vault_id r.vault_id, ==_iff r.user_id user)

unlock_users-holds :
    (user : ℕ) (p : Policy) (us : List User) (db : Db)
    → holds_unlock user p.vault_id (unlock_users p us db)
      ≡ (holds_unlock user p.vault_id db || any? (λ u. u.id == user) us)
unfolding unlock_users
unlock_users-holds user p [] db = ground arith
unlock_users-holds user p (u ∷ us) db =
    let new = unlock_of p (current_level_of u.id db) u in
    ground
      (arith, upsert_unlock-holds user new db, unlock_users-holds user p us (upsert_unlock new db))

upsert_unlock-keeps :
    (user vault : ℕ) (r : Unlock) (db : Db) {old : Unlock}
    → find_unlock user vault db ≡ some old
    → find_unlock user vault (upsert_unlock r db) ≡ some old
unfolding upsert_unlock
upsert_unlock-keeps user vault r db h =
    ground (arith, ==_iff r.vault_id vault, ==_iff r.user_id user)

-- An unlock that is there is not rewritten.
unlock_users-keeps :
    (user vault : ℕ) (p : Policy) (us : List User) (db : Db) {old : Unlock}
    → find_unlock user vault db ≡ some old
    → find_unlock user vault (unlock_users p us db) ≡ some old
unfolding unlock_users
unlock_users-keeps user vault p [] db h = h
unlock_users-keeps user vault p (u ∷ us) db h =
    unlock_users-keeps user vault p us _ (upsert_unlock-keeps user vault _ db h)

any-filter :
    (user : ℕ) (q : User → Bool) (us : List User)
    → any? (λ u. u.id == user) (filter q us) ≡ any? (λ u. u.id == user && q u) us
any-filter user q [] = refl
any-filter user q (u ∷ us) = ground (arith, any-filter user q us)

-- The tables that a qualification reads.
abbrev SameLearners : Db → Db → Type 0
SameLearners a b =
    (a.users ≡ b.users)
    × (a.accounts ≡ b.accounts)
    × (a.unlocks ≡ b.unlocks)
    × (a.progress ≡ b.progress)

save_policy-SameLearners :
    (now vault : ℕ) (dto : UpsertPolicy) (modules : List LearningModule) (db : Db)
    → SameLearners
        (save_policy now vault dto modules (deactivate_others dto.publish vault dto.version db))
        db
unfolding save_policy deactivate_others
save_policy-SameLearners now vault dto modules db = ground arith

abbrev is_explicit_lite : Option ExperienceMode → Bool
is_explicit_lite none = false
is_explicit_lite (some ExperienceMode.lite) = true
is_explicit_lite (some ExperienceMode.pro) = false

abbrev reaches : ℕ → Option Account → Bool
reaches minimum none = false
reaches minimum (some a) = leb minimum a.current_level

-- The user completed the module.
abbrev has_done : ℕ → Db → RequiredModule → Bool
has_done user db m =
    any? (λ r. r.user_id == user && r.module_id == m.module_id && is_some r.completed_at)
      db.progress

-- An explicit LITE mode, an experience account at the minimum level, and every required module.
abbrev may_unlock : Policy → Db → User → Bool
may_unlock p db u =
    is_explicit_lite u.experience_mode
    && reaches p.minimum_level (find_account u.id db)
    && all? (has_done u.id db) p.required_modules

-- Whether some user row with the identifier qualifies.
abbrev pub qualifies_for : ℕ → Policy → Db → Bool
qualifies_for user p db = any? (λ u. u.id == user && may_unlock p db u) db.users

none_missing :
    (user : ℕ) (db : Db) (required : List RequiredModule)
    → is_nil (
        map
          (λ (r : RequiredModule). r.key)
          (filter (λ r. not (has_completed user db r.module_id)) required))
      ≡ all? (has_done user db) required
none_missing user db [] = refl
none_missing user db (m ∷ required) = ground (arith, none_missing user db required)

qualified_iff :
    (p : Policy) (db : Db) (u : User)
    → is_qualified p db u ≡ (may_unlock p db u && not (holds_unlock u.id p.vault_id db))
unfolding is_qualified
qualified_iff p db u = ground (arith, none_missing u.id db p.required_modules)

-- For a user without an unlock, the candidates are those who qualify.
candidates_qualify :
    (user : ℕ) (p : Policy) (db : Db) (us : List User)
    → (holds_unlock user p.vault_id db || any? (λ u. u.id == user && is_qualified p db u) us)
      ≡ (holds_unlock user p.vault_id db || any? (λ u. u.id == user && may_unlock p db u) us)
candidates_qualify user p db [] = refl
candidates_qualify user p db (u ∷ us) = elim (Bool-cases (u.id == user)) [
  | inl own ↦
      let same : u.id ≡ user = ground (arith, ==_iff u.id user) in
      ground (
        arith,
        subst (λ i. is_qualified p db u ≡ (may_unlock p db u && not (holds_unlock i p.vault_id db)))
            same (qualified_iff p db u),
        candidates_qualify user p db us,
      )
  | inr other ↦ ground (arith, candidates_qualify user p db us)
]

materialize-holds :
    (user : ℕ) (p : Policy) (db : Db)
    → holds_unlock user p.vault_id (materialize_policy_unlocks p db)
      ≡ (holds_unlock user p.vault_id db || qualifies_for user p db)
unfolding materialize_policy_unlocks
materialize-holds user p db =
    unlock_users-holds user p (filter (is_qualified p db) db.users) db
    ∙ ap (λ b. holds_unlock user p.vault_id db || b) (any-filter user (is_qualified p db) db.users)
    ∙ candidates_qualify user p db db.users

same_qualifies :
    (user : ℕ) (p : Policy) (a b : Db)
    → SameLearners a b
    → qualifies_for user p a ≡ qualifies_for user p b
same_qualifies user p a b same = rw (same.0, same.1, same.3) refl

-- The row of the vault's version, active and published at the time, with the level and the modules that
-- the call asked for.
abbrev IsPublishedAs : ℕ → ℕ → UpsertPolicy → List LearningModule → Policy → Type 0
IsPublishedAs now vault dto modules p =
    (p.vault_id ≡ vault)
    × (p.version ≡ dto.version)
    × (p.is_active ≡ true)
    × (p.published_at ≡ some now)
    × (p.minimum_level ≡ dto.minimum_level)
    × (p.required_modules ≡ map required_of modules)

-- The modules that a call names, in the table.
abbrev pub named_modules : UpsertPolicy → Db → List LearningModule
named_modules dto db = find_modules (unique_keys [] dto.required_module_keys) db

-- What a call that published leaves: the version is active and published, with the level and the modules
-- of the call, and is found in the table; and the users who hold an unlock of the vault are those who held
-- one and those who qualify.
abbrev pub Published : ℕ → ℕ → UpsertPolicy → Db → Result Policy × Db → Type 0
Published now vault dto before (ok p, after) =
    IsPublishedAs now vault dto (named_modules dto before) p
    × (find_version vault dto.version after ≡ some p)
    × ((user : ℕ)
        → holds_unlock user vault after
          ≡ (holds_unlock user vault before || qualifies_for user p before))
    × ((user other : ℕ) (old : Unlock)
        → find_unlock user other before ≡ some old
        → find_unlock user other after ≡ some old)
Published now vault dto before (err e, after) = Unit

find_version-keys :
    (vault version : ℕ) (db : Db) {p : Policy}
    → find_version vault version db ≡ some p
    → (p.vault_id ≡ vault) × (p.version ≡ version)
find_version-keys vault version db {p} h =
    ground (arith, find?-accepts (is_version vault version) db.policies {a = p} h)

-- The row that is found after a call that publishes saved it.
saved_row :
    (now vault : ℕ) (dto : UpsertPolicy) (modules : List LearningModule) (db : Db) {p : Policy}
    → dto.publish ≡ true
    → find_version vault dto.version (save_policy now vault dto modules db) ≡ some p
    → IsPublishedAs now vault dto modules p
unfolding save_policy
saved_row now vault dto modules db {p} publish h = ground (
  arith,
  find_version-keys vault dto.version (save_policy now vault dto modules db) {p = p} h,
  find?-update_same (is_version vault dto.version) (revise now dto modules) db.policies (λ r. refl),
)

unlock_users-policies :
    (p : Policy) (us : List User) (db : Db) → (unlock_users p us db).policies ≡ db.policies
unfolding unlock_users upsert_unlock
unlock_users-policies p [] db = refl
unlock_users-policies p (u ∷ us) db = ground (
  arith,
  unlock_users-policies p us (upsert_unlock (unlock_of p (current_level_of u.id db) u) db),
)

-- Unlocking the users leaves the policies alone.
materialize-finds :
    (vault version : ℕ) (p : Policy) (db : Db)
    → find_version vault version (materialize_policy_unlocks p db) ≡ find_version vault version db
unfolding materialize_policy_unlocks
materialize-finds vault version p db =
    ap (find? (is_version vault version))
      (unlock_users-policies p (filter (is_qualified p db) db.users) db)

materialized-holds :
    (user vault : ℕ) (p : Policy) (saved db : Db)
    → SameLearners saved db
    → p.vault_id ≡ vault
    → holds_unlock user vault (materialize_policy_unlocks p saved)
      ≡ (holds_unlock user vault db || qualifies_for user p db)
materialized-holds user vault p saved db same own =
    let held = materialize-holds user p saved in
    let qualified = same_qualifies user p saved db same in
    let unlocks : holds_unlock user p.vault_id saved ≡ holds_unlock user p.vault_id db =
      ap
        (λ (rows : List Unlock).
          is_some (find? (λ r. r.user_id == user && r.vault_id == p.vault_id) rows))
        same.2 in
    subst
      (λ v.
        holds_unlock user v (materialize_policy_unlocks p saved)
        ≡ (holds_unlock user v db || qualifies_for user p db))
      own (held ∙ cc)

materialized-keeps :
    (user other : ℕ) (p : Policy) (saved db : Db) (old : Unlock)
    → SameLearners saved db
    → find_unlock user other db ≡ some old
    → find_unlock user other (materialize_policy_unlocks p saved) ≡ some old
unfolding materialize_policy_unlocks
materialized-keeps user other p saved db old same h =
    unlock_users-keeps user other p _ saved (rw same.2 h)

write_policy-Published :
    (now vault : ℕ) (dto : UpsertPolicy) (modules : List LearningModule) (db : Db)
    → dto.publish ≡ true
    → named_modules dto db ≡ modules
    → Published now vault dto db (write_policy now vault dto modules db)
unfolding write_policy
write_policy-Published now vault dto modules db publish named =
    let saved =
      save_policy now vault dto modules (deactivate_others dto.publish vault dto.version db) in
    let same = save_policy-SameLearners now vault dto modules db in
    let published_state : (p : Policy)
        → (if dto.publish then materialize_policy_unlocks p else λ w. w) saved
          ≡ materialize_policy_unlocks p saved =
      λ p. ap (λ b. (if b then materialize_policy_unlocks p else λ w. w) saved) publish in
    elim (Option-cases (find_version vault dto.version saved)) [
      | inl missing ↦ rw missing tt
      | inr found ↦ rw found.1 (
        subst (λ ms. IsPublishedAs now vault dto ms found.0) (sym named)
            (saved_row now vault dto modules (deactivate_others dto.publish vault dto.version db)
              publish found.1),
        subst (λ w. find_version vault dto.version w ≡ some found.0) (sym (published_state found.0))
            (materialize-finds vault dto.version found.0 saved ∙ found.1),
        (λ user.
            subst
              (λ w.
                holds_unlock user vault w
                ≡ (holds_unlock user vault db || qualifies_for user found.0 db))
              (sym (published_state found.0))
              (materialized-holds user vault found.0 saved db same
                (find_version-keys vault dto.version saved found.1).0)),
        λ user other old held.
            subst (λ w. find_unlock user other w ≡ some old) (sym (published_state found.0))
              (materialized-keeps user other found.0 saved db old same held),
      )
    ]

-- The version does not exist, or is a draft.
abbrev pub Unpublished : ℕ → ℕ → Db → Type 0
Unpublished vault version db =
    (p : Policy) → find_version vault version db ≡ some p → is_some p.published_at ≡ false

-- A call that publishes a version, from any state in which the version is not yet published: if it
-- answers, the version of the answer is in the table, active, published at the time of the call, and has
-- the minimum level and the modules of the call; the users who hold an unlock of the vault are exactly
-- those who held one and those with an explicit LITE mode, an experience account at the minimum level and
-- every required module completed; and no unlock that was there is rewritten, of this vault or another.
pub publish_unlocks :
    (now vault : ℕ) (dto : UpsertPolicy) (db : Db)
    → dto.publish ≡ true
    → Unpublished vault dto.version db
    → Published now vault dto db (upsert_policy now vault dto db)
unfolding upsert_policy answer_version
publish_unlocks now vault dto db publish unpublished =
    grind (arith, write_policy-Published now vault dto (named_modules dto db) db publish refl)

-- A published version does not change: every call for it writes nothing, and answers with the version as
-- it is or throws.
published_immutable :
    (now vault : ℕ) (dto : UpsertPolicy) (db : Db) {p : Policy}
    → find_version vault dto.version db ≡ some p
    → is_some p.published_at ≡ true
    → ((upsert_policy now vault dto db).1 ≡ db)
      × (Fails (upsert_policy now vault dto db).0 ⊎ ((upsert_policy now vault dto db).0 ≡ ok p))
unfolding upsert_policy answer_version
published_immutable now vault dto db {p} h published = (ground arith, ground arith)
