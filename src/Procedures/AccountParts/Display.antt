-- ===== src/Procedures/AccountParts/Display.antt =====
-- `update_account_display` of procedures/accounts.py.
use swpt_creditors.Base.{ℕ, ◌&&◌, ◌||◌, not, Bool, false, Option, none, some, String}
use swpt_creditors.Base.Int.{ℤ, eq_ℤ}
use swpt_creditors.Base.Lists.{any_row, put_row}
use swpt_creditors.Base.Tests.{◌==◌, str_eq, opt_eq, bool_eq}
use swpt_creditors.Models.Common.{
  CreditorId, DebtorId, Timestamp, Host, Float, account_does_not_exist, debtor_name_conflict,
}
use swpt_creditors.Models.Log.{ObjectType, ObjectUri}
use swpt_creditors.Models.Account.{AccountDisplay}
use swpt_creditors.Models.Db.{
  Tx, ◌>>=◌, ◌>>◌, pure, gets, modify, or_raise, raise_if, add_pending_log_entry, next_uid,
}
use swpt_creditors.Procedures.Common.{Update, allow_update}
use swpt_creditors.Procedures.Accounts.{display_key, get_account_display}
use swpt_creditors.Procedures.AccountParts.{when_allowed, part_entry}

pub record DisplayUpdate : Type 0 where
  pub debtor_name : Option String
  pub amount_divisor : Float
  pub decimal_places : ℤ
  pub unit : Option String
  pub known_debtor : Bool

unfoldable pub display_update : Host → DisplayUpdate → Update AccountDisplay
display_update host c = record {
  has_changes = λ d.
      not (opt_eq str_eq d.debtor_name c.debtor_name)
      || not (host.floats.eq d.amount_divisor c.amount_divisor)
      || not (eq_ℤ d.decimal_places c.decimal_places)
      || not (opt_eq str_eq d.unit c.unit)
      || not (bool_eq d.known_debtor c.known_debtor);
  set_values = λ d. record d {
    debtor_name = c.debtor_name;
    amount_divisor = c.amount_divisor;
    decimal_places = c.decimal_places;
    unit = c.unit;
    known_debtor = c.known_debtor;
  };
}

abbrev set_display_update_id : ℕ → AccountDisplay → AccountDisplay
set_display_update_id n d = record d { latest_update_id = n }

-- `debtor_name not in [display.debtor_name, None]`
unfoldable pub is_new_name : Option String → Option String → Bool
is_new_name old none = false
is_new_name old (some name) = not (opt_eq str_eq (some name) old)

-- An account of the creditor that shows the name already.
unfoldable pub has_debtor_name : CreditorId → Option String → AccountDisplay → Bool
has_debtor_name creditor_id none d = false
has_debtor_name creditor_id (some name) d =
    d.creditor_id == creditor_id && opt_eq str_eq d.debtor_name (some name)

perform_display_update :
    Host
    → Timestamp
    → CreditorId
    → DebtorId
    → Option String
    → ℕ
    → AccountDisplay
    → (AccountDisplay → AccountDisplay)
    → Tx AccountDisplay
unfolding is_new_name has_debtor_name add_pending_log_entry next_uid
perform_display_update host current_ts creditor_id debtor_id debtor_name latest_update_id d
      perform_update =
    do
      taken ← gets (λ db. any_row (has_debtor_name creditor_id debtor_name) db.account_displays)
      raise_if (is_new_name d.debtor_name debtor_name && taken) debtor_name_conflict
      let d' = record (perform_update d) { latest_update_ts = current_ts }
      modify (λ db. record db {
        account_displays = put_row (display_key d.creditor_id d.debtor_id) d' db.account_displays;
      })
      modify (
          add_pending_log_entry creditor_id (
            part_entry current_ts ObjectType.account_display
              (ObjectUri.account_display creditor_id debtor_id) latest_update_id))
      modify (next_uid host)
      pure d'

unfoldable pub update_account_display :
    Host → Timestamp → CreditorId → DebtorId → DisplayUpdate → ℕ → Tx AccountDisplay
unfolding get_account_display allow_update display_update perform_display_update
update_account_display host current_ts creditor_id debtor_id c latest_update_id = do
  d ← or_raise (← gets (get_account_display creditor_id debtor_id)) account_does_not_exist
  when_allowed d
      (allow_update d (λ o. o.latest_update_id) set_display_update_id latest_update_id
        (display_update host c))
      (perform_display_update host current_ts creditor_id debtor_id c.debtor_name latest_update_id
        d)
