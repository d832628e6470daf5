-- ===== src/Conversions/Lifecycle/Rows.antt =====
-- What single writes to the table of conversions keep.
use smartpig_backend.Common.{
  ℕ, ◌≤◌, ◌≡◌, ◌≢◌, subst, refl, true, some, String, arith, Evolved-same, Evolved-insert,
  Evolved-update_where, Evolved-update, Exception, Option-cases, inl, inr,
}
use smartpig_backend.TransactionState.{FailureCode}
use smartpig_backend.Schema.{Db}
use smartpig_backend.Schema.Intents.{AssetConversion, ConversionStatus}
use smartpig_backend.Conversions.{find_conversion}
use smartpig_backend.Conversions.Creation.{
  set_conversion, update_conversion, failed_conversion, create_conversion_row,
}
use smartpig_backend.Conversions.Recovery.{
  expire_unsigned, is_overdue, is_unsigned, expire_conversion,
}
use smartpig_backend.Conversions.Lifecycle.{
  IsOpen, Step, Reach, one, Evolves, Evolves-refl, Preserves,
}

pub Preserves-same :
    (a b : Db) → b.conversions ≡ a.conversions → a.next_id ≤ b.next_id → Preserves a b
Preserves-same a b same le = record {
  grows = le;
  kept = Evolved-same (λ (c : AssetConversion). c.id) Evolves Evolves-refl a.next_id same;
}

pub Preserves-refl : (a : Db) → Preserves a a
Preserves-refl a = Preserves-same a a refl (omega arith)

pub update_conversion-Preserves :
    (id : ℕ) (f : AssetConversion → AssetConversion) (db : Db)
    → ((c : AssetConversion) → (f c).id ≡ c.id)
    → ((c : AssetConversion) → find_conversion id db ≡ some c → Evolves c (f c))
    → Preserves db (update_conversion id f db).1
unfolding update_conversion set_conversion
update_conversion-Preserves id f db keep moves =
    let moved =
      Evolved-update (λ (c : AssetConversion). c.id) Evolves Evolves-refl db.next_id id f
        db.conversions keep moves in
    elim (Option-cases (find_conversion id db)) [
      | inl missing ↦ rw missing (Preserves-same db db refl (omega arith))
      | inr found ↦ rw found.1 (record { grows = omega arith; kept = moved })
    ]

unsigned_expires : (s : ConversionStatus) → is_unsigned s ≡ true → Reach s ConversionStatus.expired
unsigned_expires ConversionStatus.created h = one Step.expire_created
unsigned_expires ConversionStatus.xdr_generated h = one Step.expire_issued
unsigned_expires ConversionStatus.signed_xdr_received h = cc
unsigned_expires ConversionStatus.submitted h = cc
unsigned_expires ConversionStatus.confirmed h = cc
unsigned_expires ConversionStatus.failed h = cc
unsigned_expires ConversionStatus.expired h = cc

-- A confirmed conversion is in no class that is left by a step.
unsigned_not_confirmed :
    {s : ConversionStatus} → is_unsigned s ≡ true → s ≢ ConversionStatus.confirmed
unsigned_not_confirmed h k = ground arith

expire_overdue :
    (now : ℕ) (c : AssetConversion) → is_overdue now c ≡ true → Evolves c (expire_conversion c)
unfolding is_overdue
expire_overdue now c h = (
  (refl, refl, refl, refl, refl, refl, refl, refl, refl, refl, refl, refl, refl),
  unsigned_expires c.status (ground arith),
  (λ confirmed. absurd (unsigned_not_confirmed {s = c.status} (ground arith) confirmed)),
  λ linked. linked,
)

pub expire_unsigned-Preserves : (now : ℕ) (db : Db) → Preserves db (expire_unsigned now db)
unfolding expire_unsigned
expire_unsigned-Preserves now db = record {
  grows = omega arith;
  kept =
      Evolved-update_where (λ (c : AssetConversion). c.id) Evolves Evolves-refl db.next_id
        (is_overdue now) expire_conversion db.conversions (λ c. refl) (expire_overdue now);
}

-- The status of an open conversion can fail, and be signed.
pub open_fails :
    (e : Exception) (fallback : FailureCode) (c : AssetConversion)
    → IsOpen c.status
    → Evolves c (failed_conversion e fallback c)
open_fails e fallback c o = (
  (refl, refl, refl, refl, refl, refl, refl, refl, refl, refl, refl, refl, refl),
  one (Step.fail o),
  (λ confirmed. absurd (subst IsOpen confirmed o)),
  λ linked. linked,
)

pub created_issues :
    (xdr : String) (c : AssetConversion)
    → c.status ≡ ConversionStatus.created
    → Evolves c (record c { unsigned_xdr = some xdr; status = ConversionStatus.xdr_generated })
created_issues xdr c created = (
  (refl, refl, refl, refl, refl, refl, refl, refl, refl, refl, refl, refl, refl),
  rw created (one Step.issue),
  (λ confirmed. absurd (ground arith)),
  λ linked. linked,
)

pub create_conversion_row-Preserves :
    (c : AssetConversion) (db : Db) → Preserves db (create_conversion_row c db).1
unfolding create_conversion_row
create_conversion_row-Preserves c db = record {
  grows = omega arith;
  kept =
      Evolved-insert (λ (c : AssetConversion). c.id) Evolves Evolves-refl db.next_id
        (record c { id = db.next_id }) db.conversions (omega arith);
}
