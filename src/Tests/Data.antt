-- ===== src/Tests/Data.antt =====
-- The concrete values that the tests use: one creditor (7) with one account (with the debtor 3), which
-- has entered two transfers in its ledger, and one running transfer.
use swpt_creditors.Base.{◌+◌, ◌/◌, true, false, none, some, [], ◌∷◌}
use swpt_creditors.Base.Int.{pos, negsuc}
use swpt_creditors.Base.Tests.{◌==◌, leb, ltb, str_eq}
use swpt_creditors.Models.Common.{Host, Floats}
use swpt_creditors.Models.Creditor.{Creditor, new_creditor}
use swpt_creditors.Models.PinInfo.{PinInfo, on}
use swpt_creditors.Models.Account.{Account, AccountData, AccountDisplay}
use swpt_creditors.Models.Transfer.{CommittedTransfer, TransferData, RunningTransfer}
use swpt_creditors.Models.Db.{Db}
use swpt_creditors.Procedures.AccountUpdates.{AccountUpdate}

-- Floats for which a number stands for itself.
abbrev pub floats : Floats
floats = record {
  decimal = λ m k. m;
  of_int = λ z. 0;
  sub = λ x y. 0;
  mul = λ x y. x;
  abs = λ x. x;
  exp = λ x. 100;
  le = leb;
  lt = ltb;
  eq = ◌==◌;
  to_int = λ x. x;
  to_real = λ x. x;
}

abbrev pub host : Host
host = record {
  floats = floats;
  hmac_digest = λ secret value. value;
  json_eq = str_eq;
  next_value = λ n. n + 1;
  seqnum_eq = ◌==◌;
  seqnum_le = leb;
  increment_seqnum = λ n. n + 1;
  date_of = λ t. t / 86400000000;
}

abbrev pub creditor : Creditor
creditor = record (new_creditor 7 1 100) {
  status_flags = 1;
  last_log_entry_id = 4;
  largest_historic_ledger_entry_id = 3;
}

abbrev pub account_row : Account
account_row = record {
  creditor_id = 7;
  debtor_id = 3;
  created_at = 100;
  latest_update_id = 1;
  latest_update_ts = 100;
}

abbrev pub account : AccountData
account = record {
  creditor_id = 7;
  debtor_id = 3;
  creation_date = 20;
  last_change_ts = 200;
  last_change_seqnum = 1;
  principal = pos 12;
  interest = 0;
  last_transfer_number = 2;
  last_transfer_committed_at = 200;
  last_heartbeat_ts = 200;
  last_config_ts = 100;
  last_config_seqnum = 0;
  negligible_amount = 0;
  config_flags = 0;
  config_data = "";
  is_config_effectual = true;
  allow_unsafe_deletion = true;
  has_server_account = true;
  config_error = none;
  config_latest_update_id = 1;
  config_latest_update_ts = 100;
  interest_rate = 0;
  last_interest_rate_change_ts = 100;
  transfer_note_max_bytes = 500;
  account_id = "account";
  debtor_info_iri = none;
  debtor_info_content_type = none;
  debtor_info_sha256 = none;
  info_latest_update_id = 1;
  info_latest_update_ts = 100;
  ledger_principal = pos 10;
  ledger_last_entry_id = 5;
  ledger_last_transfer_number = 2;
  ledger_pending_transfer_ts = none;
  ledger_latest_update_id = 3;
  ledger_latest_update_ts = 200;
}

abbrev pub display : AccountDisplay
display = record {
  creditor_id = 7;
  debtor_id = 3;
  debtor_name = some "USD";
  amount_divisor = 1;
  decimal_places = pos 0;
  unit = none;
  known_debtor = false;
  latest_update_id = 1;
  latest_update_ts = 100;
}

-- The third transfer of the account: it takes 4, and 2 of interest were added before it.
abbrev pub third_transfer : CommittedTransfer
third_transfer = record {
  creditor_id = 7;
  debtor_id = 3;
  creation_date = 20;
  transfer_number = 3;
  acquired_amount = negsuc 3;
  principal = pos 8;
  committed_at = 300;
  previous_transfer_number = 2;
  coordinator_type = "direct";
  sender = "a";
  recipient = "b";
  transfer_note_format = "";
  transfer_note = "";
}

abbrev pub wanted : TransferData
wanted = record {
  debtor_id = 3;
  amount = pos 4;
  recipient_uri = "swpt:3/b";
  recipient = "b";
  transfer_note_format = "";
  transfer_note = "";
  deadline = none;
  final_interest_rate_ts = 1000;
  locked_amount = pos 0;
}

abbrev pub running : RunningTransfer
running = record {
  creditor_id = 7;
  transfer_uuid = 55;
  transfer_data = wanted;
  initiated_at = 250;
  finalized_at = none;
  error_code = none;
  total_locked_amount = none;
  coordinator_request_id = 9;
  transfer_id = none;
  latest_update_id = 1;
  latest_update_ts = 250;
}

abbrev pub pin : PinInfo
pin = record {
  creditor_id = 7;
  status = on;
  cfa = 1;
  afa = 1;
  afa_last_reset_ts = 100;
  pin_length = 4;
  pin_hmac = some "1234s";
  pin_salt = some "s";
  latest_update_id = 1;
  latest_update_ts = 100;
}

abbrev pub db : Db
db = record {
  creditors = creditor ∷ [];
  pin_infos = pin ∷ [];
  accounts = account_row ∷ [];
  account_data = account ∷ [];
  account_knowledge = [];
  account_exchanges = [];
  account_displays = display ∷ [];
  ledger_entries = [];
  committed_transfers = third_transfer ∷ [];
  pending_ledger_updates = record { creditor_id = 7; debtor_id = 3 } ∷ [];
  running_transfers = running ∷ [];
  pending_log_entries = [];
  log_entries = [];
  signals = [];
  uid_seq = 9;
  coordinator_request_id_seq = 9;
  creditor_reservation_id_seq = 1;
  pending_entry_id_seq = 2;
}

-- A newer state of the account, under a new account ID.
abbrev pub update : AccountUpdate
update = record {
  debtor_id = 3;
  creditor_id = 7;
  creation_date = 20;
  last_change_ts = 300;
  last_change_seqnum = 2;
  principal = pos 8;
  interest = 0;
  interest_rate = 0;
  last_interest_rate_change_ts = 100;
  transfer_note_max_bytes = 500;
  last_config_ts = 100;
  last_config_seqnum = 0;
  negligible_amount = 0;
  config_flags = 0;
  config_data = "";
  account_id = "other";
  debtor_info_iri = none;
  debtor_info_content_type = none;
  debtor_info_sha256 = none;
  last_transfer_number = 3;
  last_transfer_committed_at = 300;
  ts = 310;
  ttl = 10;
}
