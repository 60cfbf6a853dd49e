-- ===== src/Models/Common.antt =====
-- models/common.py, the constants and the exceptions of procedures/errors.py, and what the program
-- takes from outside: floating-point numbers, hashes, the clock's resolution, sequence numbers.
use swpt_creditors.Base.{ℕ, ◌-◌, ◌^◌, ◌*◌, Bool, String, ◌&&◌}
use swpt_creditors.Base.Int.{ℤ, pos, negsuc, leb_ℤ}

-- Creditor and debtor IDs are only compared. An ID stands for its place in the order of the signed
-- 64-bit integers, counted from the least.
abbrev pub CreditorId : Type 0
CreditorId = ℕ

abbrev pub DebtorId : Type 0
DebtorId = ℕ

-- A point in time, in microseconds from the least `datetime`; a length of time too.
abbrev pub Timestamp : Type 0
Timestamp = ℕ

-- A date, in days from the least `date`.
abbrev pub Date : Type 0
Date = ℕ

-- A 128-bit number.
abbrev pub Uuid : Type 0
Uuid = ℕ

-- A string of bytes, as a text.
abbrev pub Bytes : Type 0
Bytes = String

-- A JSON document, by its text.
abbrev pub Json : Type 0
Json = String

-- A floating-point number, by its bits.
abbrev pub Float : Type 0
Float = ℕ

-- The ID 0, in the place that it has among the signed numbers.
abbrev pub root_creditor_id : CreditorId
root_creditor_id = 2 ^ 63

abbrev pub min_int64 : ℤ
min_int64 = negsuc (2 ^ 63 - 1)

abbrev pub max_int64 : ℤ
max_int64 = pos (2 ^ 63 - 1)

abbrev pub max_int32 : ℕ
max_int32 = 2 ^ 31 - 1

-- `MIN_INT64 <= value <= MAX_INT64`
abbrev pub is_int64 : ℤ → Bool
is_int64 value = leb_ℤ min_int64 value && leb_ℤ value max_int64

abbrev pub microseconds : ℕ
microseconds = 1_000_000

-- 1970-01-01 is 719162 days after 0001-01-01.
abbrev pub date0 : Date
date0 = 719162

abbrev pub ts0 : Timestamp
ts0 = 719162 * 86400 * 1_000_000

-- The operations of Python's floats that the program calls. `decimal m k` is the literal m / 10^k.
pub record Floats : Type 0 where
  pub decimal : ℕ → ℕ → Float
  pub of_int : ℤ → Float
  pub sub : Float → Float → Float
  pub mul : Float → Float → Float
  pub abs : Float → Float
  pub exp : Float → Float
  pub le : Float → Float → Bool
  pub lt : Float → Float → Bool
  pub eq : Float → Float → Bool
  -- `int(x)`, for x that is not negative
  pub to_int : Float → ℕ
  -- the float that a column of type `REAL` gives back
  pub to_real : Float → Float

-- What the procedures take from other libraries and from the configuration.
pub record Host : Type 0 where
  pub floats : Floats
  -- `hmac.digest(secret, value, "sha256")`
  pub hmac_digest : String → String → Bytes
  -- the equality of two JSON documents
  pub json_eq : Json → Json → Bool
  -- the next value of a sequence of the database, after the last one given out
  pub next_value : ℕ → ℕ
  -- `swpt_pythonlib.utils`: `Seqnum(a) == Seqnum(b)`, `Seqnum(a) <= Seqnum(b)`
  pub seqnum_eq : ℕ → ℕ → Bool
  pub seqnum_le : ℕ → ℕ → Bool
  pub increment_seqnum : ℕ → ℕ
  -- the date on which a point in time falls (UTC)
  pub date_of : Timestamp → Date

-- `abs(x - y) <= EPS * y`, with `EPS = 1e-5`
unfoldable pub is_close : Floats → Float → Float → Bool
is_close f x y = f.le (f.abs (f.sub x y)) (f.mul (f.decimal 1 5) y)

-- `abs(x - y) > EPS * y`
unfoldable pub is_apart : Floats → Float → Float → Bool
is_apart f x y = f.lt (f.mul (f.decimal 1 5) y) (f.abs (f.sub x y))

pub data Error : Type 0 where
  misconfigured_agent update_conflict already_up_to_date creditor_does_not_exist : Error
  creditor_exists account_does_not_exist peg_does_not_exist transfer_exists : Error
  transfer_does_not_exist forbidden_transfer_cancellation account_exists : Error
  unsafe_account_deletion forbidden_peg_deletion invalid_policy_name : Error
  invalid_reservation_id debtor_name_conflict wrong_pin_value : Error
  -- a failed `assert`, an overflow of the date arithmetic, `ValueError`, SQLAlchemy's
  -- `NoResultFound` and `IntegrityError`, and PostgreSQL's error for a number out of range
  assertion_error overflow_error value_error no_result_found integrity_error : Error
  -- `RuntimeError`
  numeric_value_out_of_range runtime_error : Error
  -- `ForbiddenOperation`
  forbidden_operation : Error
