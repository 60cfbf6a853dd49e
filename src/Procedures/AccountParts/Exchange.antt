-- ===== src/Procedures/AccountParts/Exchange.antt =====
-- `update_account_exchange` of procedures/accounts.py.
use swpt_creditors.Base.{ℕ, ◌||◌, not, Bool, false, Option, none, some, String}
use swpt_creditors.Base.Int.{ℤ, eq_ℤ}
use swpt_creditors.Base.Lists.{put_row}
use swpt_creditors.Base.Tests.{◌==◌, str_eq, opt_eq}
use swpt_creditors.Models.Common.{
  CreditorId, DebtorId, Timestamp, Host, Float, account_does_not_exist, peg_does_not_exist,
}
use swpt_creditors.Models.Log.{ObjectType, ObjectUri}
use swpt_creditors.Models.Account.{AccountExchange}
use swpt_creditors.Models.Signal.{updated_policy}
use swpt_creditors.Models.Db.{
  Db, Tx, ◌>>=◌, ◌>>◌, pure, gets, modify, or_raise, raise_if, add_pending_log_entry, add_signal,
  next_uid,
}
use swpt_creditors.Procedures.Common.{Update, allow_update}
use swpt_creditors.Procedures.Accounts.{exchange_key, has_account, get_account_exchange}
use swpt_creditors.Procedures.AccountParts.{when_allowed, part_entry}

pub record ExchangeUpdate : Type 0 where
  pub policy : Option String
  pub min_principal : ℤ
  pub max_principal : ℤ
  pub peg_exchange_rate : Option Float
  pub peg_debtor_id : Option DebtorId

unfoldable pub exchange_update : Host → ExchangeUpdate → Update AccountExchange
exchange_update host c = record {
  has_changes = λ x.
      not (opt_eq str_eq x.policy c.policy)
      || not (eq_ℤ x.min_principal c.min_principal)
      || not (eq_ℤ x.max_principal c.max_principal)
      || not (opt_eq host.floats.eq x.peg_exchange_rate c.peg_exchange_rate)
      || not (opt_eq ◌==◌ x.peg_debtor_id c.peg_debtor_id);
  set_values = λ x. record x {
    policy = c.policy;
    min_principal = c.min_principal;
    max_principal = c.max_principal;
    peg_exchange_rate = c.peg_exchange_rate;
    peg_debtor_id = c.peg_debtor_id;
  };
}

abbrev set_exchange_update_id : ℕ → AccountExchange → AccountExchange
set_exchange_update_id n x = record x { latest_update_id = n }

-- `peg_debtor_id is not None and not has_account(creditor_id, peg_debtor_id)`
unfoldable pub is_peg_missing : CreditorId → Option DebtorId → Db → Bool
unfolding has_account
is_peg_missing creditor_id none db = false
is_peg_missing creditor_id (some peg) db = not (has_account creditor_id peg db)

unfoldable pub perform_exchange_update :
    Host
    → Timestamp
    → CreditorId
    → DebtorId
    → Option DebtorId
    → ℕ
    → AccountExchange
    → (AccountExchange → AccountExchange)
    → Tx AccountExchange
unfolding is_peg_missing add_signal add_pending_log_entry next_uid
perform_exchange_update host current_ts creditor_id debtor_id peg_debtor_id latest_update_id x
      perform_update =
    do
      raise_if (← gets (is_peg_missing creditor_id peg_debtor_id)) peg_does_not_exist
      let x' = record (perform_update x) { latest_update_ts = current_ts }
      modify (λ db. record db {
        account_exchanges =
            put_row (exchange_key x.creditor_id x.debtor_id) x' db.account_exchanges;
      })
      modify (
          add_signal (
            updated_policy (record {
              creditor_id = creditor_id;
              debtor_id = debtor_id;
              update_id = latest_update_id;
              policy_name = x'.policy;
              min_principal = x'.min_principal;
              max_principal = x'.max_principal;
              peg_exchange_rate = x'.peg_exchange_rate;
              peg_debtor_id = x'.peg_debtor_id;
              ts = current_ts;
            })))
      modify (
          add_pending_log_entry creditor_id (
            part_entry current_ts ObjectType.account_exchange
              (ObjectUri.account_exchange creditor_id debtor_id) latest_update_id))
      modify (next_uid host)
      pure x'

unfoldable pub update_account_exchange :
    Host → Timestamp → CreditorId → DebtorId → ExchangeUpdate → ℕ → Tx AccountExchange
unfolding get_account_exchange allow_update exchange_update perform_exchange_update
update_account_exchange host current_ts creditor_id debtor_id c latest_update_id = do
  x ← or_raise (← gets (get_account_exchange creditor_id debtor_id)) account_does_not_exist
  when_allowed x
      (allow_update x (λ o. o.latest_update_id) set_exchange_update_id latest_update_id
        (exchange_update host c))
      (perform_exchange_update host current_ts creditor_id debtor_id c.peg_debtor_id
        latest_update_id x)
