-- ===== src/Actors/Bounce.antt =====
-- A `ConfigureAccount` message that comes back, and the `RejectedConfig` message that it leads to: two
-- handlers of actors.py.
use swpt_creditors.Base.{
  ℕ, ◌+◌, ◌≡◌, refl, ◌&&◌, Bool, true, none, some, List, [], ◌∷◌, ◌++◌, arith,
}
use text.Mathlib.TextPositions.{eq_refl}
use swpt_creditors.Base.Lists.{find_row}
use swpt_creditors.Base.Rows.{find_row_sound, find_row-put_row_by}
use swpt_creditors.Base.Tests.{==_refl, leb}
use swpt_creditors.Models.Common.{CreditorId, DebtorId, Timestamp, Host, is_close}
use swpt_creditors.Models.Account.{AccountData}
use swpt_creditors.Models.Signal.{
  Signal, ConfigureAccountSignal, RejectedConfigSignal, rejected_config,
}
use swpt_creditors.Models.Db.{Db, ok, add_signal, is_key, next_uid, add_pending_log_entry}
use swpt_creditors.Procedures.Accounts.{
  data_key, get_account_data, put_account_data, insert_info_update_pending_log_entry,
}
use swpt_creditors.Procedures.AccountConfigs.{
  RejectedConfig, is_rejected, reject_config, flush_info, process_rejected_config_signal,
}
use swpt_creditors.Procedures.TransferSignals.{process_configure_account_signal}
use swpt_creditors.Actors.{
  MessageType, Actor, actor, on_rejected_config_signal, on_configure_account_signal,
}

-- The signal, as it is received.
abbrev pub received : RejectedConfigSignal → RejectedConfig
received s = record {
  debtor_id = s.debtor_id;
  creditor_id = s.creditor_id;
  config_ts = s.config_ts;
  config_seqnum = s.config_seqnum;
  negligible_amount = s.negligible_amount;
  config_data = s.config_data;
  config_flags = s.config_flags;
  rejection_code = s.rejection_code;
}

-- The configuration of the row is the one of the message, and is not known to be wrong.
pub record Awaits (host : Host) (m : ConfigureAccountSignal) (d : AccountData) : Type 0 where
  pub ts_is : d.last_config_ts ≡ m.ts
  pub seqnum_is : d.last_config_seqnum ≡ m.seqnum
  pub flags_are : d.config_flags ≡ m.config_flags
  pub data_is : d.config_data ≡ m.config_data
  pub amount_is :
      is_close host.floats d.negligible_amount (host.floats.to_real m.negligible_amount) ≡ true
  pub no_error : d.config_error ≡ none

-- What becomes of the configuration.
pub record Bounced (a : Actor) (m : ConfigureAccountSignal) (db : Db) : Type 0 where
  pub sent : RejectedConfigSignal
  pub db1 : Db
  pub bounces : actor a MessageType.configure_account m db ≡ ok (tt, db1)
  pub sends : db1.signals ≡ db.signals ++ rejected_config sent ∷ []
  pub db2 : Db
  pub rejects : actor a MessageType.rejected_config (received sent) db1 ≡ ok (tt, db2)
  pub account : AccountData
  pub stored : get_account_data m.creditor_id m.debtor_id db2 ≡ some account
  pub reported : account.config_error ≡ some "NO_CONNECTION_TO_DEBTOR"

abbrev answer_to : Host → ConfigureAccountSignal → RejectedConfigSignal
answer_to host m = record {
  creditor_id = m.creditor_id;
  debtor_id = m.debtor_id;
  config_ts = m.ts;
  config_seqnum = m.seqnum;
  config_flags = m.config_flags;
  config_data = m.config_data;
  negligible_amount = host.floats.to_real m.negligible_amount;
  rejection_code = "NO_CONNECTION_TO_DEBTOR";
}

find_row_narrow {ℓ} :
    {A : Type ℓ} (p q : A → Bool) (xs : List A) (y : A)
    → ((x : A) → q x ≡ true → p x ≡ true)
    → q y ≡ true
    → find_row p xs ≡ some y
    → find_row q xs ≡ some y
find_row_narrow p q [] y weaker qy h = cc
find_row_narrow p q (x ∷ xs) y weaker qy h =
    ground (arith, weaker x, find_row_narrow p q xs y weaker qy)

rejected_key :
    (host : Host) (m : RejectedConfig) (d : AccountData)
    → is_rejected host m d ≡ true
    → data_key m.creditor_id m.debtor_id d ≡ true
unfolding is_rejected
rejected_key host m d h = ground arith

Awaits-is_rejected :
    (host : Host) (m : ConfigureAccountSignal) (d : AccountData)
    → data_key m.creditor_id m.debtor_id d ≡ true
    → Awaits host m d
    → is_rejected host (received (answer_to host m)) d ≡ true
unfolding is_rejected
Awaits-is_rejected host m d key w =
    rw
      (
        key,
        w.ts_is,
        w.seqnum_is,
        w.flags_are,
        w.data_is,
        w.no_error,
        w.amount_is,
        ==_refl m.ts,
        ==_refl m.seqnum,
        ==_refl m.config_flags,
        eq_refl m.config_data,
      )
      refl

itself : (c di : ℕ) → is_key c di c di ≡ true
itself c di = ground arith

sends_answer :
    (a : Actor) (m : ConfigureAccountSignal) (db : Db)
    → (leb a.config.min_creditor_id m.creditor_id && leb m.creditor_id a.config.max_creditor_id)
      ≡ true
    → actor a MessageType.configure_account m db
      ≡ ok (tt, add_signal (rejected_config (answer_to a.host m)) db)
unfolding actor on_configure_account_signal process_configure_account_signal
sends_answer a m db own = rw own refl

signal_added : (s : Signal) (db : Db) → (add_signal s db).signals ≡ db.signals ++ s ∷ []
unfolding add_signal
signal_added s db = refl

find_rejected :
    (host : Host) (m : ConfigureAccountSignal) (d : AccountData) (db : Db)
    → get_account_data m.creditor_id m.debtor_id db ≡ some d
    → Awaits host m d
    → find_row
        (is_rejected host (received (answer_to host m)))
        (add_signal (rejected_config (answer_to host m)) db).account_data
      ≡ some d
unfolding get_account_data add_signal
find_rejected host m d db found w =
    let key = find_row_sound (data_key m.creditor_id m.debtor_id) db.account_data d found in
    find_row_narrow (data_key m.creditor_id m.debtor_id)
      (is_rejected host (received (answer_to host m))) db.account_data d
      (λ x h. rejected_key host (received (answer_to host m)) x h)
      (Awaits-is_rejected host m d key w) found

abbrev with_error : AccountData → AccountData
with_error d = record d { config_error = some "NO_CONNECTION_TO_DEBTOR" }

abbrev with_info : Timestamp → AccountData → AccountData
with_info now d = record d {
  info_latest_update_id = d.info_latest_update_id + 1;
  info_latest_update_ts = now;
}

rejects_found :
    (a : Actor) (m : RejectedConfig) (d : AccountData) (db : Db)
    → find_row (is_rejected a.host m) db.account_data ≡ some d
    → actor a MessageType.rejected_config m db
      ≡ ok (
        tt,
        flush_info a.host a.current_ts (record d { config_error = some m.rejection_code }) db,
      )
unfolding actor on_rejected_config_signal process_rejected_config_signal reject_config
rejects_found a m d db found = rw found refl

flush_info-stored :
    (host : Host) (now : Timestamp) (c : CreditorId) (di : DebtorId) (d : AccountData) (s : Signal)
    (db : Db)
    → get_account_data c di db ≡ some d
    → get_account_data c di (flush_info host now (with_error d) (add_signal s db))
      ≡ some (with_info now (with_error d))
unfolding flush_info get_account_data put_account_data insert_info_update_pending_log_entry next_uid
    add_pending_log_entry add_signal
flush_info-stored host now c di d s db found =
    let key = find_row_sound (data_key c di) db.account_data d found in
    find_row-put_row_by (data_key d.creditor_id d.debtor_id) (data_key c di)
      (with_info now (with_error d)) db.account_data d key (itself d.creditor_id d.debtor_id) found

-- When a `ConfigureAccount` message comes back for a creditor in the agent's range, whose account's
-- configuration it is, with no error known, its handler sends a `RejectedConfig` message; when
-- that arrives, its handler sets the account's configuration error to "NO_CONNECTION_TO_DEBTOR".
pub configure_account-Bounced :
    (a : Actor) (m : ConfigureAccountSignal) (d : AccountData) (db : Db)
    → (leb a.config.min_creditor_id m.creditor_id && leb m.creditor_id a.config.max_creditor_id)
      ≡ true
    → get_account_data m.creditor_id m.debtor_id db ≡ some d
    → Awaits a.host m d
    → Bounced a m db
configure_account-Bounced a m d db own found w = record {
  sent = answer_to a.host m;
  db1 = add_signal (rejected_config (answer_to a.host m)) db;
  bounces = sends_answer a m db own;
  sends = signal_added (rejected_config (answer_to a.host m)) db;
  db2 = flush_info a.host a.current_ts (with_error d) db1;
  rejects = rejects_found a (received (answer_to a.host m)) d db1 rejected;
  account = with_info a.current_ts (with_error d);
  stored =
      flush_info-stored a.host a.current_ts m.creditor_id m.debtor_id d
        (rejected_config (answer_to a.host m)) db found;
  reported = refl;
}
  where
    db1 : Db
    db1 = add_signal (rejected_config (answer_to a.host m)) db

    rejected :
        find_row (is_rejected a.host (received (answer_to a.host m))) db1.account_data ≡ some d
    rejected = find_rejected a.host m d db found w
