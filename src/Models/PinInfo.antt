-- ===== src/Models/PinInfo.antt =====
-- The class `PinInfo` of models/creditors.py. The clock is an argument, and so is the text that
-- `b64encode(os.urandom(6))` gives.
pub mod Attempts
use swpt_creditors.Base.{ℕ, ◌+◌, ◌-◌, ◌*◌, ◌/◌, Bool, true, false, Option, none, some, String}
use swpt_creditors.Base.Int.{ℤ, pos, leb_ℤ, sub_ℕ}
use swpt_creditors.Base.Tests.{leb, str_eq, if◌then◌else◌}
use Prim.Native.String.{◌++◌ as str_append, count}
use swpt_creditors.Models.Common.{
  CreditorId, Timestamp, Bytes, Host, Floats, Error, assertion_error,
}

pub data PinStatus : Type 0 where
  off on blocked : PinStatus

-- `self.status == self.STATUS_BLOCKED`
abbrev pub is_blocked : PinStatus → Bool
is_blocked blocked = true
is_blocked _ = false

pub record PinInfo : Type 0 where
  pub creditor_id : CreditorId
  pub status : PinStatus
  pub cfa : ℕ
  pub afa : ℕ
  pub afa_last_reset_ts : Timestamp
  pub pin_length : ℕ
  pub pin_hmac : Option Bytes
  pub pin_salt : Option String
  pub latest_update_id : ℕ
  pub latest_update_ts : Timestamp

-- The defaults of the columns.
abbrev pub new_pin_info : CreditorId → Timestamp → PinInfo
new_pin_info creditor_id now = record {
  creditor_id = creditor_id;
  status = off;
  cfa = 0;
  afa = 0;
  afa_last_reset_ts = now;
  pin_length = 0;
  pin_hmac = none;
  pin_salt = none;
  latest_update_id = 1;
  latest_update_ts = now;
}

-- `self.status != self.STATUS_OFF`
abbrev pub is_required : PinStatus → Bool
is_required off = false
is_required _ = true

-- `self.STATUS_NAMES.index(value)`; another name is a `ValueError`.
unfoldable pub status_of_name : String → Option PinStatus
status_of_name name =
    if str_eq name "off"
    then some off
    else if str_eq name "on"
    then some on
    else if str_eq name "blocked"
    then some blocked
    else none

unfoldable pub status_name : PinStatus → String
status_name off = "off"
status_name on = "on"
status_name blocked = "blocked"

-- `int(1.5 * n - 3)`: half of 3 n - 6, rounded towards zero.
unfoldable pub get_max_cfa : PinInfo → ℤ
get_max_cfa pin =
    if leb 2 pin.pin_length
    then pos ((3 * pin.pin_length - 6) / 2)
    else sub_ℕ 0 ((6 - 3 * pin.pin_length) / 2)

-- `int(exp(1.1513 * (n - 2)))`
unfoldable pub get_max_afa : Floats → PinInfo → ℕ
get_max_afa f pin = f.to_int (f.exp (f.mul (f.decimal 11513 4) (f.of_int (sub_ℕ pin.pin_length 2))))

reset_afa : Timestamp → PinInfo → PinInfo
reset_afa current_ts pin = record pin { afa = 0; afa_last_reset_ts = current_ts }

block : Timestamp → PinInfo → PinInfo
unfolding reset_afa
block now pin =
    reset_afa now
      (record pin { status = blocked; pin_length = 0; pin_hmac = none; pin_salt = none })

reset_afa_if_necessary : Timestamp → Timestamp → PinInfo → PinInfo
unfolding reset_afa
reset_afa_if_necessary now reset_interval pin =
    if leb (pin.afa_last_reset_ts + reset_interval) now then reset_afa now pin else pin

increment_cfa : Timestamp → PinInfo → PinInfo
unfolding block get_max_cfa
increment_cfa now pin =
    let pin' : PinInfo = record pin { cfa = pin.cfa + 1 } in
    if leb_ℤ (get_max_cfa pin') (pos pin'.cfa) then block now pin' else pin'

count_afa : Floats → Timestamp → PinInfo → PinInfo
unfolding block get_max_afa
count_afa f now pin =
    let pin' : PinInfo = record pin { afa = pin.afa + 1 } in
    if leb (get_max_afa f pin') pin'.afa then block now pin' else pin'

increment_afa : Floats → Timestamp → Timestamp → PinInfo → PinInfo
unfolding reset_afa_if_necessary count_afa
increment_afa f now reset_interval pin =
    count_afa f now (reset_afa_if_necessary now reset_interval pin)

unfoldable pub register_failed_attempt : Floats → Timestamp → Timestamp → PinInfo → PinInfo
unfolding increment_cfa increment_afa
register_failed_attempt f now afa_reset_interval pin =
    increment_afa f now afa_reset_interval (increment_cfa now pin)

unfoldable pub register_successful_attempt : PinInfo → PinInfo
register_successful_attempt pin = record pin { cfa = 0 }

-- `value + (self.pin_salt or "")`
abbrev pub salted : String → Option String → String
salted value none = str_append value ""
salted value (some salt) = str_append value salt

-- How a call of `try_value` ends: with its result and the new row, or with a failed assertion.
pub data Attempt : Type 0 where
  result : Bool → PinInfo → Attempt
  fails : Error → Attempt

-- The branch where the PIN is required, by the stored hash and the value that is tried.
check_value :
    Host → String → Timestamp → Timestamp → PinInfo → Option Bytes → Option String → Attempt
unfolding register_failed_attempt register_successful_attempt
check_value host secret now interval pin none value = fails assertion_error
check_value host secret now interval pin (some hash) none = result false pin
check_value host secret now interval pin (some hash) (some value) =
    if str_eq (host.hmac_digest secret (salted value pin.pin_salt)) hash
    then result true (register_successful_attempt pin)
    else result false (register_failed_attempt host.floats now interval pin)

unfoldable pub try_value : Host → Option String → String → Timestamp → Timestamp → PinInfo → Attempt
unfolding check_value
try_value host value secret now afa_reset_interval pin =
    if is_blocked pin.status
    then result false pin
    else if is_required pin.status
    then check_value host secret now afa_reset_interval pin pin.pin_hmac value
    else result true (register_successful_attempt pin)

unfoldable pub set_value : Host → String → Option String → String → PinInfo → PinInfo
set_value host salt none secret pin = record pin {
  cfa = 0;
  pin_length = 0;
  pin_hmac = none;
  pin_salt = none;
}
set_value host salt (some value) secret pin = record pin {
  cfa = 0;
  pin_length = count value;
  pin_hmac = some (host.hmac_digest secret (str_append value salt));
  pin_salt = some salt;
}
