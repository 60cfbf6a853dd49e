-- ===== src/Procedures/AccountConfigs.antt =====
-- The messages about rejected configurations and purged accounts in procedures/account_updates.py.
use swpt_creditors.Base.{ℕ, ◌&&◌, Bool, false, Option, none, some, String}
use swpt_creditors.Base.Int.{pos}
use swpt_creditors.Base.Lists.{find_row}
use swpt_creditors.Base.Tests.{◌==◌, leb, str_eq, is_none}
use swpt_creditors.Models.Common.{CreditorId, DebtorId, Timestamp, Date, Float, Host, is_close}
use swpt_creditors.Models.Account.{AccountData}
use swpt_creditors.Models.Db.{Db}
use swpt_creditors.Procedures.Accounts.{
  data_key, put_account_data, insert_info_update_pending_log_entry,
}

pub record RejectedConfig : Type 0 where
  pub debtor_id : DebtorId
  pub creditor_id : CreditorId
  pub config_ts : Timestamp
  pub config_seqnum : ℕ
  pub negligible_amount : Float
  pub config_data : String
  pub config_flags : ℕ
  pub rejection_code : String

-- The filter of the query: the configuration in force is the one rejected, and has no error yet.
unfoldable pub is_rejected : Host → RejectedConfig → AccountData → Bool
unfolding is_close
is_rejected host m d =
    data_key m.creditor_id m.debtor_id d
    && d.last_config_ts == m.config_ts
    && d.last_config_seqnum == m.config_seqnum
    && d.config_flags == m.config_flags
    && str_eq d.config_data m.config_data
    && is_none d.config_error
    && is_close host.floats d.negligible_amount m.negligible_amount

-- The change of the info, and the flush.
unfoldable pub flush_info : Host → Timestamp → AccountData → Db → Db
unfolding insert_info_update_pending_log_entry put_account_data
flush_info host current_ts d db =
    let (d', db') = insert_info_update_pending_log_entry host current_ts d db in
    put_account_data d' db'

unfoldable pub reject_config : Host → Timestamp → String → Option AccountData → Db → Db
unfolding flush_info
reject_config host current_ts rejection_code none db = db
reject_config host current_ts rejection_code (some d) db =
    flush_info host current_ts (record d { config_error = some rejection_code }) db

unfoldable pub process_rejected_config_signal : Host → Timestamp → RejectedConfig → Db → Db
unfolding is_rejected reject_config
process_rejected_config_signal host current_ts m db =
    reject_config host current_ts m.rejection_code (find_row (is_rejected host m) db.account_data)
      db

unfoldable pub is_purged : CreditorId → DebtorId → Date → AccountData → Bool
is_purged creditor_id debtor_id creation_date d =
    data_key creditor_id debtor_id d && d.has_server_account && leb d.creation_date creation_date

unfoldable pub purge_found : Host → Timestamp → Option AccountData → Db → Db
unfolding flush_info
purge_found host current_ts none db = db
purge_found host current_ts (some d) db =
    flush_info host current_ts
      (record d {
        has_server_account = false;
        principal = pos 0;
        interest = host.floats.decimal 0 0;
      })
      db

unfoldable pub process_account_purge_signal :
    Host → Timestamp → DebtorId → CreditorId → Date → Db → Db
unfolding is_purged purge_found
process_account_purge_signal host current_ts debtor_id creditor_id creation_date db =
    purge_found host current_ts
      (find_row (is_purged creditor_id debtor_id creation_date) db.account_data) db
