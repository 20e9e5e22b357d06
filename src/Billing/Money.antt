-- ===== src/Billing/Money.antt =====
-- `BillingError`, `Money`, currencies and the parsing of amounts.
use agent_kuibysheff.Common.{
  ℕ, Bool, ◌&&◌, ◌||◌, Option, none, some, leb, ◌==◌, nat_eq, list_eq, not, if◌then◌else◌, length,
  all, Text, Result, ok, err, ◌>>=◌, ◌>>◌, bytes, trim, split_once, is_ascii_alphanumeric,
}

-- What the program uses of `Decimal`; a checked operation returns `None` on overflow.
pub record Decimals (Decimal : Type 0) : Type 0 where
  pub zero : Decimal
  pub checked_add : Decimal → Decimal → Option Decimal
  pub checked_mul : Decimal → Decimal → Option Decimal
  pub checked_div : Decimal → Decimal → Option Decimal
  pub from_u64 : ℕ → Decimal
  pub ge : Decimal → Decimal → Bool
  pub from_str_exact : Text → Option Decimal
  pub from_scientific : Text → Option Decimal

pub data BillingError : Type 0 where
  invalid_decimal : Text → BillingError
  -- the value is not a currency identifier
  invalid_currency : Text → BillingError
  -- "cannot add {} to {}"
  cannot_add : Text → Text → BillingError
  -- "max_cost currency `{}` differs from target `{}`"
  max_cost_currency : Text → Text → BillingError
  empty_version_or_source : BillingError
  empty_provider_or_model : BillingError
  invalid_window : Text → Text → BillingError
  no_cost : Text → Text → BillingError
  duplicate_window : Text → Text → BillingError
  overlapping_windows : Text → Text → Option Text → BillingError
  zero_rate_unit : BillingError
  invalid_metric : Text → BillingError
  arithmetic_overflow : BillingError

pub record Money (Decimal : Type 0) : Type 0 where
  pub amount : Decimal
  pub currency : Text

-- The bytes of a currency identifier.
abbrev pub is_currency_byte : ℕ → Bool
is_currency_byte b = is_ascii_alphanumeric b || (b == b'_' || b == b'-')

unfoldable pub is_currency : Text → Bool
is_currency value =
    (leb 3 (length (bytes value)) && leb (length (bytes value)) 24)
    && all is_currency_byte (bytes value)

unfoldable pub validate_currency : Text → Result (Unit {0}) BillingError
unfolding is_currency
validate_currency value = if is_currency value then ok tt else err (invalid_currency value)

module _ {Decimal : Type 0} where
  abbrev pub from_validated : Decimal → Text → Money Decimal
  from_validated amount currency = record { amount = amount; currency = currency }

  unfoldable pub new : Decimal → Text → Result (Money Decimal) BillingError
  unfolding validate_currency
  new amount currency = do validate_currency currency; ok (from_validated amount currency)

module _ {Decimal : Type 0} ⦃d : Decimals Decimal⦄ where
  unfoldable pub parse_decimal : Text → Result Decimal BillingError
  parse_decimal value =
      let trimmed = trim value in
      elim (d.from_str_exact trimmed) [
        | some v ↦ ok v
        | none ↦ elim (d.from_scientific trimmed) [
          | some v ↦ ok v
          | none ↦ err (invalid_decimal trimmed)
        ]
      ]

  -- `Money::parse`
  unfoldable pub parse : Text → Text → Result (Money Decimal) BillingError
  unfolding parse_decimal new
  parse amount currency = do a ← parse_decimal amount; new a currency

  unfoldable pub from_str : Text → Result (Money Decimal) BillingError
  unfolding parse
  from_str value = elim (split_once b':' value) [
    | none ↦ err (invalid_decimal value)
    | some (currency, amount) ↦ parse amount currency
  ]

  unfoldable pub checked_add : Money Decimal → Money Decimal → Result (Money Decimal) BillingError
  checked_add m other =
      if not (m.currency == other.currency)
      then err (cannot_add other.currency m.currency)
      else elim (d.checked_add m.amount other.amount) [
        | none ↦ err arithmetic_overflow
        | some amount ↦ ok (from_validated amount m.currency)
      ]
