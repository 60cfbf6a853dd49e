-- ===== src/Procedures/Accounts.antt =====
-- procedures/accounts.py: queries, the creation of accounts, and the update of their info.
use swpt_creditors.Base.{
  ℕ, zero, suc, ◌+◌, ◌&&◌, Bool, false, Option, none, some, List, [], ◌∷◌, ◌++◌,
}
use swpt_creditors.Base.Int.{pos}
use swpt_creditors.Base.Lists.{find_row, rows_where, any_row, put_row, take}
use swpt_creditors.Base.Sort.{sort_by}
use swpt_creditors.Base.Tests.{◌==◌, ltb}
use swpt_creditors.Models.Common.{
  CreditorId, DebtorId, Timestamp, Host, ts0, date0, min_int64, max_int64, creditor_does_not_exist,
  account_exists,
}
use swpt_creditors.Models.Log.{blank_entry, ObjectType, ObjectUri}
use swpt_creditors.Models.Creditor.{Creditor}
use swpt_creditors.Models.Account.{
  Account, AccountData, AccountKnowledge, AccountExchange, AccountDisplay, huge_negligible_amount,
  default_config_flags,
}
use swpt_creditors.Models.Transfer.{PendingLedgerUpdate}
use swpt_creditors.Models.Signal.{configure_account}
use swpt_creditors.Models.Db.{
  Db, Tx, ◌>>=◌, ◌>>◌, gets, modify, or_raise, raise_if, is_key, add_pending_log_entry, add_signal,
  next_uid,
}
use swpt_creditors.Procedures.Creditors.{get_active_creditor, put_creditor}
use swpt_creditors.Procedures.Log.{LogState, add_log_entry}

abbrev pub account_key : CreditorId → DebtorId → Account → Bool
account_key creditor_id debtor_id a = is_key creditor_id debtor_id a.creditor_id a.debtor_id

abbrev pub data_key : CreditorId → DebtorId → AccountData → Bool
data_key creditor_id debtor_id d = is_key creditor_id debtor_id d.creditor_id d.debtor_id

abbrev pub knowledge_key : CreditorId → DebtorId → AccountKnowledge → Bool
knowledge_key creditor_id debtor_id k = is_key creditor_id debtor_id k.creditor_id k.debtor_id

abbrev pub exchange_key : CreditorId → DebtorId → AccountExchange → Bool
exchange_key creditor_id debtor_id x = is_key creditor_id debtor_id x.creditor_id x.debtor_id

abbrev pub display_key : CreditorId → DebtorId → AccountDisplay → Bool
display_key creditor_id debtor_id d = is_key creditor_id debtor_id d.creditor_id d.debtor_id

abbrev pub pending_key : CreditorId → DebtorId → PendingLedgerUpdate → Bool
pending_key creditor_id debtor_id p = is_key creditor_id debtor_id p.creditor_id p.debtor_id

unfoldable pub has_account : CreditorId → DebtorId → Db → Bool
has_account creditor_id debtor_id db = any_row (account_key creditor_id debtor_id) db.accounts

-- `get_account_config`, `get_account_info` and `get_account_ledger` read the same row.
unfoldable pub get_account_data : CreditorId → DebtorId → Db → Option AccountData
get_account_data creditor_id debtor_id db =
    find_row (data_key creditor_id debtor_id) db.account_data

-- The flush of a changed row.
unfoldable pub put_account_data : AccountData → Db → Db
put_account_data d db = record db {
  account_data = put_row (data_key d.creditor_id d.debtor_id) d db.account_data;
}

unfoldable pub get_account_display : CreditorId → DebtorId → Db → Option AccountDisplay
get_account_display creditor_id debtor_id db =
    find_row (display_key creditor_id debtor_id) db.account_displays

unfoldable pub get_account_knowledge : CreditorId → DebtorId → Db → Option AccountKnowledge
get_account_knowledge creditor_id debtor_id db =
    find_row (knowledge_key creditor_id debtor_id) db.account_knowledge

unfoldable pub get_account_exchange : CreditorId → DebtorId → Db → Option AccountExchange
get_account_exchange creditor_id debtor_id db =
    find_row (exchange_key creditor_id debtor_id) db.account_exchanges

is_debtor_after : CreditorId → Option DebtorId → Account → Bool
is_debtor_after creditor_id none a = a.creditor_id == creditor_id
is_debtor_after creditor_id (some prev) a = a.creditor_id == creditor_id && ltb prev a.debtor_id

abbrev debtor_ids_of : List Account → List DebtorId
debtor_ids_of [] = []
debtor_ids_of (a ∷ accounts) = a.debtor_id ∷ debtor_ids_of accounts

unfoldable pub get_account_debtor_ids : CreditorId → ℕ → Option DebtorId → Db → List DebtorId
unfolding is_debtor_after
get_account_debtor_ids creditor_id count prev db = debtor_ids_of (
    take count
      (sort_by (λ a. a.debtor_id) (rows_where (is_debtor_after creditor_id prev) db.accounts)))

-- The rows of a new account. `n` is the last value of the sequence; each part takes the next one.
unfoldable pub new_account_data : Host → CreditorId → DebtorId → Timestamp → ℕ → ℕ → AccountData
unfolding huge_negligible_amount
new_account_data host creditor_id debtor_id current_ts ledger_last_entry_id n =
    let config_id : ℕ = host.next_value n in
    let info_id : ℕ = host.next_value config_id in
    let ledger_id : ℕ = host.next_value info_id in
    record {
      creditor_id = creditor_id;
      debtor_id = debtor_id;
      creation_date = date0;
      last_change_ts = ts0;
      last_change_seqnum = 0;
      principal = pos 0;
      interest = host.floats.decimal 0 0;
      last_transfer_number = 0;
      last_transfer_committed_at = ts0;
      last_heartbeat_ts = current_ts;
      last_config_ts = current_ts;
      last_config_seqnum = 0;
      negligible_amount = host.floats.to_real (huge_negligible_amount host.floats);
      config_flags = default_config_flags;
      config_data = "";
      is_config_effectual = false;
      allow_unsafe_deletion = false;
      has_server_account = false;
      config_error = none;
      config_latest_update_id = config_id;
      config_latest_update_ts = current_ts;
      interest_rate = host.floats.to_real (host.floats.decimal 0 0);
      last_interest_rate_change_ts = ts0;
      transfer_note_max_bytes = 0;
      account_id = "";
      debtor_info_iri = none;
      debtor_info_content_type = none;
      debtor_info_sha256 = none;
      info_latest_update_id = info_id;
      info_latest_update_ts = current_ts;
      ledger_principal = pos 0;
      ledger_last_entry_id = ledger_last_entry_id;
      ledger_last_transfer_number = 0;
      ledger_pending_transfer_ts = none;
      ledger_latest_update_id = ledger_id;
      ledger_latest_update_ts = current_ts;
    }

-- The sequence's value after k more of them were given out.
abbrev pub advance : Host → ℕ → ℕ → ℕ
advance host zero n = n
advance host (suc k) n = host.next_value (advance host k n)

-- The rows that `_insert_account` adds: seven values of the sequence are given out.
unfoldable pub add_account_rows : Host → Creditor → DebtorId → Timestamp → Db → Db
unfolding new_account_data
add_account_rows host creditor debtor_id current_ts db = record db {
  uid_seq = advance host 7 n;
  accounts =
      db.accounts
      ++ record {
        creditor_id = creditor.creditor_id;
        debtor_id = debtor_id;
        created_at = current_ts;
        latest_update_id = advance host 1 n;
        latest_update_ts = current_ts;
      }
        ∷ [];
  account_data =
      db.account_data
      ++ new_account_data host creditor.creditor_id debtor_id current_ts
          (creditor.largest_historic_ledger_entry_id + 1) (advance host 1 n)
        ∷ [];
  account_knowledge =
      db.account_knowledge
      ++ record {
        creditor_id = creditor.creditor_id;
        debtor_id = debtor_id;
        knowledge = "{}";
        latest_update_id = advance host 5 n;
        latest_update_ts = current_ts;
      }
        ∷ [];
  account_exchanges =
      db.account_exchanges
      ++ record {
        creditor_id = creditor.creditor_id;
        debtor_id = debtor_id;
        policy = none;
        min_principal = min_int64;
        max_principal = max_int64;
        peg_exchange_rate = none;
        peg_debtor_id = none;
        latest_update_id = advance host 6 n;
        latest_update_ts = current_ts;
      }
        ∷ [];
  account_displays =
      db.account_displays
      ++ record {
        creditor_id = creditor.creditor_id;
        debtor_id = debtor_id;
        debtor_name = none;
        amount_divisor = host.floats.decimal 1 0;
        decimal_places = pos 0;
        unit = none;
        known_debtor = false;
        latest_update_id = advance host 7 n;
        latest_update_ts = current_ts;
      }
        ∷ [];
}
  where
    n : ℕ
    n = db.uid_seq

-- The creditor's list of accounts has changed: a new update ID, and an entry in the log.
unfoldable pub log_accounts_list : Timestamp → LogState → LogState
unfolding add_log_entry
log_accounts_list current_ts s =
    let creditor' : Creditor = record (s.creditor) {
      accounts_list_latest_update_id = s.creditor.accounts_list_latest_update_id + 1;
      accounts_list_latest_update_ts = current_ts;
    } in
    add_log_entry
      (record (blank_entry current_ts) {
        object_type = some ObjectType.accounts_list;
        object_uri = some (ObjectUri.accounts_list creditor'.creditor_id);
        object_update_id = some creditor'.accounts_list_latest_update_id;
      })
      (record s { creditor = creditor' })

-- The two entries of `_insert_account`.
unfoldable pub log_account_creation : Timestamp → DebtorId → ℕ → Creditor → LogState
unfolding add_log_entry log_accounts_list
log_account_creation current_ts debtor_id latest_update_id creditor = log_accounts_list current_ts (
    add_log_entry
      (record (blank_entry current_ts) {
        object_type = some ObjectType.account;
        object_uri = some (ObjectUri.account creditor.creditor_id debtor_id);
        object_update_id = some latest_update_id;
      })
      (record { creditor = creditor; added = [] }))

-- The flush of the creditor's row and of the entries.
unfoldable pub put_log : LogState → Db → Db
unfolding put_creditor
put_log s db = record (put_creditor s.creditor db) { log_entries = db.log_entries ++ s.added }

unfoldable pub insert_account : Host → Creditor → DebtorId → Timestamp → Db → Db
unfolding add_account_rows log_account_creation put_log
insert_account host creditor debtor_id current_ts db =
    put_log (log_account_creation current_ts debtor_id (host.next_value db.uid_seq) creditor)
      (add_account_rows host creditor debtor_id current_ts db)

unfoldable pub create_new_account : Host → Timestamp → CreditorId → DebtorId → Tx (Unit {0})
unfolding get_active_creditor has_account insert_account add_signal huge_negligible_amount
create_new_account host current_ts creditor_id debtor_id = do
  creditor ← or_raise (← gets (get_active_creditor creditor_id)) creditor_does_not_exist
  raise_if (← gets (has_account creditor_id debtor_id)) account_exists
  modify (insert_account host creditor debtor_id current_ts)
  modify (
      add_signal (
        configure_account (record {
          creditor_id = creditor_id;
          debtor_id = debtor_id;
          ts = current_ts;
          seqnum = 0;
          negligible_amount = host.floats.to_real (huge_negligible_amount host.floats);
          config_data = "";
          config_flags = default_config_flags;
        })))

-- A new update ID for the account's info, with its pending log entry.
unfoldable pub insert_info_update_pending_log_entry :
    Host → Timestamp → AccountData → Db → AccountData × Db
unfolding add_pending_log_entry next_uid
insert_info_update_pending_log_entry host current_ts account db =
    let account' : AccountData = record account {
      info_latest_update_id = account.info_latest_update_id + 1;
      info_latest_update_ts = current_ts;
    } in
    (
      account',
      next_uid host (
          add_pending_log_entry account'.creditor_id
            (record (blank_entry current_ts) {
              object_type = some ObjectType.account_info;
              object_uri = some (ObjectUri.account_info account'.creditor_id account'.debtor_id);
              object_update_id = some account'.info_latest_update_id;
            })
            db),
    )
