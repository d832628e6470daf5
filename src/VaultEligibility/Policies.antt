-- ===== src/VaultEligibility/Policies.antt =====
-- Publishing eligibility policies, and the unlocks that follow from them
-- (src/vault-eligibility/vault-eligibility.service.ts: upsertPolicy, materializePolicyUnlocks,
-- refreshUnlocksForUser). The advisory lock makes two calls for one vault follow one another.
use smartpig_backend.Common.{
  ℕ, ◌+◌, Bool, true, false, ◌&&◌, ◌||◌, not, Option, none, some, List, [], ◌∷◌, String, map, ◌==◌,
  leb, ltb, length, if◌then◌else◌, find?, filter, includes, any?, update_where, is_some, codes,
  same_string, same_text, http, ErrorKind, Exception, Action, pure, throw, gets, modify, or_throw,
  throw_if, ◌>>=◌, ◌>>◌,
}
use smartpig_backend.Schema.{Db}
use smartpig_backend.Schema.Vaults.{
  ExperienceMode, User, Policy, RequiredModule, LearningModule, Unlock,
}
use smartpig_backend.VaultRegistry.{find_vault, vault_not_found}
use smartpig_backend.VaultEligibility.{
  VaultEligibilityResult, find_user, find_unlock, find_account, current_level_of, missing_of,
  is_nil, upsert_unlock, evaluate, mode_of, user_not_found,
}

-- `UpsertVaultEligibilityPolicyDto`
pub record UpsertPolicy : Type 0 where
  pub version : ℕ
  pub minimum_level : ℕ
  pub required_module_keys : List String
  pub publish : Bool

abbrev pub invalid_modules : Exception
invalid_modules = http ErrorKind.bad_request "INVALID_ELIGIBILITY_MODULES"

abbrev pub policy_immutable : Exception
policy_immutable = http ErrorKind.conflict "PUBLISHED_ELIGIBILITY_POLICY_IMMUTABLE"

abbrev pub has_key : List String → String → Bool
has_key keys key = any? (same_string key) keys

-- `[...new Set(keys)]`, with the keys seen so far.
unfoldable pub unique_keys : List String → List String → List String
unique_keys seen [] = []
unique_keys seen (k ∷ ks) = elim (has_key seen k) [
  | true ↦ unique_keys seen ks
  | false ↦ k ∷ unique_keys (k ∷ seen) ks
]

abbrev pub find_modules : List String → Db → List LearningModule
find_modules keys db = filter (λ m. has_key keys m.key && m.is_published) db.modules

-- The order of `sort` on texts, by code points.
abbrev text_leb : List ℕ → List ℕ → Bool
text_leb [] t = true
text_leb (x ∷ s) [] = false
text_leb (x ∷ s) (y ∷ t) = ltb x y || (x == y && text_leb s t)

abbrev insert_text : List ℕ → List (List ℕ) → List (List ℕ)
insert_text t [] = t ∷ []
insert_text t (u ∷ us) = if text_leb t u then t ∷ u ∷ us else u ∷ insert_text t us

unfoldable pub sort_texts : List (List ℕ) → List (List ℕ)
sort_texts [] = []
sort_texts (t ∷ ts) = insert_text t (sort_texts ts)

-- The same length, and the same text at every index.
unfoldable pub same_texts : List (List ℕ) → List (List ℕ) → Bool
same_texts [] [] = true
same_texts [] (u ∷ us) = false
same_texts (t ∷ ts) [] = false
same_texts (t ∷ ts) (u ∷ us) = same_text t u && same_texts ts us

abbrev pub key_codes : RequiredModule → List ℕ
key_codes r = codes r.key

-- `isIdempotentRetry`
unfoldable pub is_retry : UpsertPolicy → List String → Policy → Bool
unfolding sort_texts same_texts
is_retry dto keys p =
    dto.publish
    && p.minimum_level == dto.minimum_level
    && same_texts (sort_texts (map key_codes p.required_modules)) (sort_texts (map codes keys))

abbrev pub is_version : ℕ → ℕ → Policy → Bool
is_version vault version p = p.vault_id == vault && p.version == version

abbrev pub find_version : ℕ → ℕ → Db → Option Policy
find_version vault version db = find? (is_version vault version) db.policies

abbrev pub is_other_active : ℕ → ℕ → Policy → Bool
is_other_active vault version p = p.vault_id == vault && p.is_active && not (p.version == version)

abbrev pub deactivate : Policy → Policy
deactivate p = record p { is_active = false }

-- Publishing a version ends the others.
unfoldable pub deactivate_others : Bool → ℕ → ℕ → Db → Db
deactivate_others false vault version db = db
deactivate_others true vault version db = record db {
  policies = update_where (is_other_active vault version) deactivate db.policies;
}

abbrev pub required_of : LearningModule → RequiredModule
required_of m = record { module_id = m.id; key = m.key }

-- What the upsert writes over a row, the required modules with it.
abbrev pub revise : ℕ → UpsertPolicy → List LearningModule → Policy → Policy
revise now dto modules p = record p {
  minimum_level = dto.minimum_level;
  is_active = dto.publish;
  published_at = if dto.publish then some now else p.published_at;
  required_modules = map required_of modules;
}

abbrev pub new_policy : ℕ → ℕ → UpsertPolicy → List LearningModule → Policy
new_policy now vault dto modules = record {
  id = 0;
  vault_id = vault;
  version = dto.version;
  minimum_level = dto.minimum_level;
  is_active = dto.publish;
  published_at = if dto.publish then some now else none;
  required_modules = map required_of modules;
}

-- `vaultEligibilityPolicy.upsert`
unfoldable pub save_policy : ℕ → ℕ → UpsertPolicy → List LearningModule → Db → Db
save_policy now vault dto modules db = elim (find_version vault dto.version db) [
  | none ↦ record db {
    policies = record (new_policy now vault dto modules) { id = db.next_id } ∷ db.policies;
    next_id = db.next_id + 1;
  }
  | some old ↦ record db {
    policies = update_where (is_version vault dto.version) (revise now dto modules) db.policies;
  }
]

abbrev pub is_lite : User → Bool
is_lite u = elim u.experience_mode [
  | none ↦ false
  | some m ↦ elim m [ ExperienceMode.lite ↦ true | ExperienceMode.pro ↦ false ]
]

-- An experience account that has the level.
abbrev pub has_level : ℕ → ℕ → Db → Bool
has_level user minimum db = elim (find_account user db) [
  | none ↦ false
  | some a ↦ leb minimum a.current_level
]

-- The candidates of `materializePolicyUnlocks` that completed every required module.
unfoldable pub is_qualified : Policy → Db → User → Bool
is_qualified p db u =
    is_lite u
    && has_level u.id p.minimum_level db
    && not (is_some (find_unlock u.id p.vault_id db))
    && is_nil (missing_of u.id p db)

abbrev pub unlock_of : Policy → ℕ → User → Unlock
unlock_of p level u = record {
  user_id = u.id;
  vault_id = p.vault_id;
  policy_id = p.id;
  policy_version = p.version;
  level_at_unlock = level;
}

-- `createMany` with `skipDuplicates`
unfoldable pub unlock_users : Policy → List User → Db → Db
unlock_users p [] db = db
unlock_users p (u ∷ us) db =
    unlock_users p us (upsert_unlock (unlock_of p (current_level_of u.id db) u) db)

unfoldable pub materialize_policy_unlocks : Policy → Db → Db
materialize_policy_unlocks p db = unlock_users p (filter (is_qualified p db) db.users) db

-- The writes of the transaction.
unfoldable pub write_policy : ℕ → ℕ → UpsertPolicy → List LearningModule → Action Db Policy
write_policy now vault dto modules = do
  modify (deactivate_others dto.publish vault dto.version)
  modify (save_policy now vault dto modules)
  p ← or_throw (← gets (find_version vault dto.version)) (http ErrorKind.plain "No record found")
  modify (if dto.publish then materialize_policy_unlocks p else λ db. db)
  pure p

-- A version that is published is not changed.
unfoldable pub answer_version :
    ℕ → ℕ → UpsertPolicy → List String → List LearningModule → Option Policy → Action Db Policy
answer_version now vault dto keys modules none = write_policy now vault dto modules
answer_version now vault dto keys modules (some p) =
    if is_some p.published_at
    then (if is_retry dto keys p then pure p else throw policy_immutable)
    else write_policy now vault dto modules

unfoldable pub upsert_policy : ℕ → ℕ → UpsertPolicy → Action Db Policy
unfolding unique_keys
upsert_policy now vault_id dto = do
  vault ← or_throw (← gets (find_vault vault_id)) vault_not_found
  modules ← gets (find_modules (unique_keys [] dto.required_module_keys))
  throw_if (not (length modules == length (unique_keys [] dto.required_module_keys)))
      invalid_modules
  existing ← gets (find_version vault_id dto.version)
  answer_version now vault_id dto (unique_keys [] dto.required_module_keys) modules existing

-- The vaults with an active published policy, each once.
unfoldable pub published_vaults : List ℕ → List Policy → List ℕ
published_vaults seen [] = []
published_vaults seen (p ∷ ps) =
    elim (p.is_active && is_some p.published_at && not (includes p.vault_id seen)) [
      | true ↦ p.vault_id ∷ published_vaults (p.vault_id ∷ seen) ps
      | false ↦ published_vaults seen ps
    ]

-- `vault.assetSymbol`, by the foreign key of the policy.
abbrev pub symbol_of : ℕ → Db → String
symbol_of vault db = elim (find_vault vault db) [ none ↦ "" | some v ↦ v.asset_symbol ]

-- `Promise.all` over the vaults, one after the other.
unfoldable pub evaluate_each : ℕ → List ℕ → Action Db (List VaultEligibilityResult)
evaluate_each user [] = pure []
evaluate_each user (v ∷ vs) = do
  symbol ← gets (symbol_of v)
  r ← evaluate user v symbol true
  rs ← evaluate_each user vs
  pure (r ∷ rs)

abbrev refresh_mode : ℕ → ExperienceMode → Action Db (List VaultEligibilityResult)
refresh_mode user ExperienceMode.pro = pure []
refresh_mode user ExperienceMode.lite = do
  vaults ← gets (λ db. published_vaults [] db.policies)
  evaluate_each user vaults

unfoldable pub refresh_unlocks_for_user : ℕ → Action Db (List VaultEligibilityResult)
unfolding published_vaults evaluate_each
refresh_unlocks_for_user user = do
  row ← or_throw (← gets (find_user user)) user_not_found
  refresh_mode user (mode_of row)
