-- ===== src/Procedures/Creditors.antt =====
-- procedures/creditors.py, but for the calls of the stored procedures that count accounts and
-- transfers. The clock, and the salt of a new PIN, are arguments.
use swpt_creditors.Base.{
  ℕ, zero, suc, ◌+◌, ◌/◌, ◌%◌, Bool, true, false, not, ◌&&◌, ◌||◌, Option, none, some, List, [],
  ◌∷◌, ◌++◌, String,
}
use swpt_creditors.Base.Int.{pos}
use swpt_creditors.Base.Lists.{find_row, rows_where, delete_where, put_row, take}
use swpt_creditors.Base.Sort.{sort_by}
use swpt_creditors.Base.Tests.{◌==◌, ltb, leb, str_eq, if◌then◌else◌, is_some}
use Prim.Native.String.{◌++◌ as str_append}
use swpt_creditors.Models.Common.{
  CreditorId, DebtorId, Timestamp, Host, root_creditor_id, date0, min_int64, max_int64,
  creditor_exists, invalid_reservation_id,
}
use swpt_creditors.Models.Log.{LogEntry}
use swpt_creditors.Models.Creditor.{
  Creditor, new_creditor, is_activated, is_deactivated, activate, deactivate,
}
use swpt_creditors.Models.PinInfo.{PinInfo, new_pin_info}
use swpt_creditors.Models.Account.{Account, default_config_flags}
use swpt_creditors.Models.Transfer.{PendingLedgerUpdate}
use swpt_creditors.Models.Signal.{Signal, updated_ledger, updated_policy, updated_flags}
use swpt_creditors.Models.Db.{Db, Tx, ◌>>=◌, ◌>>◌, pure, gets, modify, or_raise, raise_if}

-- `filter_by(creditor_id=creditor_id)`
abbrev pub has_creditor_id : CreditorId → Creditor → Bool
has_creditor_id creditor_id c = c.creditor_id == creditor_id

unfoldable pub get_creditor : CreditorId → Db → Option Creditor
get_creditor creditor_id db = find_row (has_creditor_id creditor_id) db.creditors

-- The flush of a changed creditor.
unfoldable pub put_creditor : Creditor → Db → Db
put_creditor c db = record db { creditors = put_row (has_creditor_id c.creditor_id) c db.creditors }

abbrev pub is_active : Creditor → Bool
is_active c = is_activated c && not (is_deactivated c)

abbrev pub keep_active : Option Creditor → Option Creditor
keep_active none = none
keep_active (some c) = if is_active c then some c else none

unfoldable pub get_active_creditor : CreditorId → Db → Option Creditor
unfolding get_creditor is_activated is_deactivated
get_active_creditor creditor_id db = keep_active (get_creditor creditor_id db)

abbrev pub has_pin_key : CreditorId → PinInfo → Bool
has_pin_key creditor_id p = p.creditor_id == creditor_id

unfoldable pub get_pin_info : CreditorId → Db → Option PinInfo
get_pin_info creditor_id db = find_row (has_pin_key creditor_id) db.pin_infos

unfoldable pub put_pin_info : PinInfo → Db → Db
put_pin_info p db = record db { pin_infos = put_row (has_pin_key p.creditor_id) p db.pin_infos }

-- `ids, next` of the IDs that were read, one more than asked for.
unfoldable pub split_page : ℕ → List ℕ → List ℕ × Option ℕ
split_page count [] = ([], none)
split_page zero (x ∷ xs) = ([], some x)
split_page (suc count) (x ∷ xs) = let (page, next) = split_page count xs in (x ∷ page, next)

creditor_ids_from : ℕ → Creditor → Bool
creditor_ids_from start_from c = leb start_from c.creditor_id && is_active c

abbrev ids_of : List Creditor → List ℕ
ids_of [] = []
ids_of (c ∷ cs) = c.creditor_id ∷ ids_of cs

unfoldable pub get_creditor_ids : CreditorId → ℕ → Db → List CreditorId × Option CreditorId
unfolding split_page is_activated is_deactivated creditor_ids_from
get_creditor_ids start_from count db = split_page count (
    ids_of (
      take (count + 1)
        (sort_by (λ c. c.creditor_id) (rows_where (creditor_ids_from start_from) db.creditors))))

-- `func.max(LogEntry.entry_id)` over a creditor's entries.
abbrev pub max_entry_id : CreditorId → List LogEntry → Option ℕ
max_entry_id creditor_id [] = none
max_entry_id creditor_id (e ∷ es) =
    let rest : Option ℕ = max_entry_id creditor_id es in
    if e.creditor_id == creditor_id then some (later e.entry_id rest) else rest
  where
    later : ℕ → Option ℕ → ℕ
    later n none = n
    later n (some m) = Prim.Native.Nat.max n m

-- `0 if relic_log_entry_id is None else relic_log_entry_id + 1`
abbrev pub after_relic : Option ℕ → ℕ
after_relic none = 0
after_relic (some n) = n + 1

-- The root creditor's ID is refused by a constraint of the table, a taken one by its key.
unfoldable pub reserve_creditor : Host → Timestamp → CreditorId → Tx Creditor
unfolding get_creditor
reserve_creditor host now creditor_id = do
  raise_if (creditor_id == root_creditor_id) creditor_exists
  raise_if (is_some (← gets (get_creditor creditor_id))) creditor_exists
  reservation_id ← gets (λ db. host.next_value db.creditor_reservation_id_seq)
  relic ← gets (λ db. max_entry_id creditor_id db.log_entries)
  let creditor = record (new_creditor creditor_id reservation_id now) {
    last_log_entry_id = after_relic relic;
  }
  modify (λ db. record db {
    creditors = db.creditors ++ creditor ∷ [];
    creditor_reservation_id_seq = reservation_id;
  })
  pure creditor

-- A decimal digit as text.
abbrev str_digit : ℕ → String
str_digit zero = "0"
str_digit (suc zero) = "1"
str_digit (suc (suc zero)) = "2"
str_digit (suc (suc (suc zero))) = "3"
str_digit (suc (suc (suc (suc zero)))) = "4"
str_digit (suc (suc (suc (suc (suc zero))))) = "5"
str_digit (suc (suc (suc (suc (suc (suc zero)))))) = "6"
str_digit (suc (suc (suc (suc (suc (suc (suc zero))))))) = "7"
str_digit (suc (suc (suc (suc (suc (suc (suc (suc zero)))))))) = "8"
str_digit _ = "9"

str_fuel : ℕ → ℕ → String
str_fuel zero n = ""
str_fuel (suc fuel) n = elim (ltb n 10) [
  | true ↦ str_digit n
  | false ↦ str_append (str_fuel fuel (n / 10)) (str_digit (n % 10))
]

-- `str(creditor.reservation_id)`: a 64-bit number has at most 19 digits.
unfoldable pub str_of_id : Option ℕ → String
unfolding str_fuel
str_of_id none = "None"
str_of_id (some n) = str_fuel 20 n

-- The branch of a creditor that is not activated yet.
unfoldable pub activate_inactive : Timestamp → CreditorId → String → Creditor → Tx Creditor
unfolding is_deactivated activate put_creditor str_of_id
activate_inactive now creditor_id reservation_id creditor = do
  raise_if
      (not (str_eq reservation_id (str_of_id creditor.reservation_id)) || is_deactivated creditor)
      invalid_reservation_id
  modify (λ db. record (put_creditor (activate creditor) db) {
    pin_infos = db.pin_infos ++ new_pin_info creditor_id now ∷ [];
  })
  pure (activate creditor)

unfoldable pub activate_creditor : Timestamp → CreditorId → String → Tx Creditor
unfolding get_creditor is_activated activate_inactive
activate_creditor now creditor_id reservation_id = do
  creditor ← or_raise (← gets (get_creditor creditor_id)) invalid_reservation_id
  if is_activated creditor
      then pure creditor
      else activate_inactive now creditor_id reservation_id creditor

-- The notifications about an account that is no more: the default, safe values.
unfoldable pub stop_account_trade : CreditorId → ℕ → Timestamp → DebtorId → List Signal
stop_account_trade creditor_id object_update_id current_ts debtor_id =
    updated_ledger (record {
      creditor_id = creditor_id;
      debtor_id = debtor_id;
      update_id = object_update_id;
      account_id = "";
      creation_date = date0;
      principal = pos 0;
      last_transfer_number = 0;
      ts = current_ts;
    })
    ∷ updated_policy (record {
      creditor_id = creditor_id;
      debtor_id = debtor_id;
      update_id = object_update_id;
      policy_name = none;
      min_principal = min_int64;
      max_principal = max_int64;
      peg_exchange_rate = none;
      peg_debtor_id = none;
      ts = current_ts;
    })
    ∷ updated_flags (record {
      creditor_id = creditor_id;
      debtor_id = debtor_id;
      update_id = object_update_id;
      config_flags = default_config_flags;
      ts = current_ts;
    })
    ∷ []

stop_all : CreditorId → ℕ → Timestamp → List Account → List Signal
unfolding stop_account_trade
stop_all creditor_id object_update_id current_ts [] = []
stop_all creditor_id object_update_id current_ts (a ∷ accounts) =
    stop_account_trade creditor_id object_update_id current_ts a.debtor_id
    ++ stop_all creditor_id object_update_id current_ts accounts

-- Every account of the creditor is deleted, with its parts and its pending ledger update, which
-- the foreign keys delete with it.
unfoldable pub delete_creditor_accounts : Host → Timestamp → CreditorId → Db → Db
unfolding stop_all
delete_creditor_accounts host current_ts creditor_id db = record db {
  uid_seq = host.next_value db.uid_seq;
  signals =
      db.signals
      ++ stop_all creditor_id (host.next_value db.uid_seq) current_ts
          (rows_where (λ a. a.creditor_id == creditor_id) db.accounts);
  accounts = delete_where (λ a. a.creditor_id == creditor_id) db.accounts;
  account_data = delete_where (λ a. a.creditor_id == creditor_id) db.account_data;
  account_knowledge = delete_where (λ a. a.creditor_id == creditor_id) db.account_knowledge;
  account_exchanges = delete_where (λ a. a.creditor_id == creditor_id) db.account_exchanges;
  account_displays = delete_where (λ a. a.creditor_id == creditor_id) db.account_displays;
  pending_ledger_updates =
      delete_where (λ (p : PendingLedgerUpdate). p.creditor_id == creditor_id)
        db.pending_ledger_updates;
}

unfoldable pub delete_creditor_pin_info : CreditorId → Db → Db
delete_creditor_pin_info creditor_id db = record db {
  pin_infos = delete_where (has_pin_key creditor_id) db.pin_infos;
}

unfoldable pub delete_creditor_running_transfers : CreditorId → Db → Db
delete_creditor_running_transfers creditor_id db = record db {
  running_transfers = delete_where (λ rt. rt.creditor_id == creditor_id) db.running_transfers;
}

-- `if creditor: …`
abbrev deactivate_found : Host → Timestamp → CreditorId → Option Creditor → Db → Db
deactivate_found host now creditor_id none db = db
deactivate_found host now creditor_id (some c) db = delete_creditor_running_transfers creditor_id (
    delete_creditor_accounts host now creditor_id
      (delete_creditor_pin_info creditor_id (put_creditor (deactivate host now c) db)))

unfoldable pub deactivate_creditor : Host → Timestamp → CreditorId → Tx (Unit {0})
unfolding get_active_creditor deactivate put_creditor delete_creditor_pin_info
    delete_creditor_accounts delete_creditor_running_transfers
deactivate_creditor host now creditor_id =
    modify (λ db. deactivate_found host now creditor_id (get_active_creditor creditor_id db) db)
