-- ===== src/Payments/Errors.antt =====
-- The exceptions of sdk-python/intermesh/payments that the modelled calls may raise.
use intermesh.Prelude.{Bool, true, false}

-- `PriceError`, `LedgerError` with its subclasses, `decimal.InvalidOperation`, and the
-- `IndexError` of an audit log without entries.
pub data Error : Type 0 where
  unreadable_price two_currencies mixed_currencies negative_price : Error
  wrong_currency not_positive unknown_account credit_limit_exceeded duplicate_nonce : Error
  invalid_operation index_error : Error

-- `except LedgerError`
unfoldable pub is_ledger_error : Error → Bool
is_ledger_error Error.wrong_currency = true
is_ledger_error Error.not_positive = true
is_ledger_error Error.unknown_account = true
is_ledger_error Error.credit_limit_exceeded = true
is_ledger_error Error.duplicate_nonce = true
is_ledger_error _ = false
