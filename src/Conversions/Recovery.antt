-- ===== src/Conversions/Recovery.antt =====
-- The sweep over conversions (src/jobs/conversion-recovery.job.ts).
use smartpig_backend.Common.{
  ℕ, ◌-◌, Bool, true, false, ◌&&◌, not, some, List, ltb, is_some, filter, take, update_where,
  count_where, length,
}
use smartpig_backend.TransactionState.{FailureCode}
use smartpig_backend.Schema.{Db}
use smartpig_backend.Schema.Intents.{AssetConversion, ConversionStatus}
use smartpig_backend.Conversions.{is_confirmed}

-- `ORPHAN_AFTER_MS`
abbrev pub orphan_after_ms : ℕ
orphan_after_ms = 900000

unfoldable pub is_stranded : ℕ → AssetConversion → Bool
is_stranded now c =
    is_confirmed c.status
    && not (is_some c.deposit_intent_id)
    && is_some c.planned_deposit
    && ltb c.created_at (now - orphan_after_ms)

-- `flagStranded` reports, and writes nothing.
unfoldable pub flag_stranded : ℕ → Db → List AssetConversion
flag_stranded now db = take 100 (filter (is_stranded now) db.conversions)

abbrev pub is_unsigned : ConversionStatus → Bool
is_unsigned ConversionStatus.created = true
is_unsigned ConversionStatus.xdr_generated = true
is_unsigned _ = false

unfoldable pub is_overdue : ℕ → AssetConversion → Bool
is_overdue now c = is_unsigned c.status && ltb c.expires_at now

abbrev pub expire_conversion : AssetConversion → AssetConversion
expire_conversion c = record c {
  status = ConversionStatus.expired;
  failure_code = some FailureCode.intent_expired;
}

unfoldable pub expire_unsigned : ℕ → Db → Db
expire_unsigned now db = record db {
  conversions = update_where (is_overdue now) expire_conversion db.conversions;
}

pub record SweepCounts : Type 0 where
  pub stranded : ℕ
  pub expired : ℕ

-- The two queries run side by side: no row is both confirmed and unsigned.
unfoldable pub sweep : ℕ → Db → SweepCounts × Db
sweep now db = (
  record {
    stranded = length (flag_stranded now db);
    expired = count_where (is_overdue now) db.conversions;
  },
  expire_unsigned now db,
)
