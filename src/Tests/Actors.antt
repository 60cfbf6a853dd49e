-- ===== src/Tests/Actors.antt =====
-- The consumer of messages at concrete inputs.
use swpt_creditors.Base.{◌≡◌, refl, true, false, Option, none, some, arith}
use swpt_creditors.Base.Int.{int_laws}
use swpt_creditors.Models.Signal.{ConfigureAccountSignal}
use swpt_creditors.Procedures.Accounts.{get_account_data}
use swpt_creditors.Procedures.AccountConfigs.{RejectedConfig, process_rejected_config_signal}
use swpt_creditors.Models.Common.{Json, is_close}
use swpt_creditors.Models.Db.{Db, ok}
use swpt_creditors.Scanners.{is_valid_creditor_id}
use swpt_creditors.Actors.{
  on_rejected_config_signal, Actor, Schemas, Content, MessageType, actor, process_message,
  message_type, handle_type, handle_json, handle, type_of,
}
use swpt_creditors.Actors.Dispatch.{Outcome, process_message-Outcome}
use swpt_creditors.Actors.Isolation.{KeepsOther, actor-KeepsOther}
use swpt_creditors.Actors.Bounce.{Awaits, Bounced, configure_account-Bounced}
use swpt_creditors.Tests.Data.{host, account, db}
use swpt_creditors.Tests.Scanners.{config}

-- A rejection of the account's configuration.
abbrev rejection : RejectedConfig
rejection = record {
  debtor_id = 3;
  creditor_id = 7;
  config_ts = 100;
  config_seqnum = 0;
  negligible_amount = 0;
  config_data = "";
  config_flags = 0;
  rejection_code = "INVALID";
}

abbrev load_rejection : (t : MessageType) → Json → Option (Content t)
load_rejection MessageType.rejected_config json = some rejection
load_rejection _ json = none

abbrev schemas : Schemas
schemas = record { json_loads = λ body. some body; load = load_rejection; b16decode = λ text. text }

abbrev consumer : Actor
consumer = record { host = host; schemas = schemas; config = config; current_ts = 1000 }

-- The database after the rejection.
abbrev rejected_db : Db
rejected_db = process_rejected_config_signal host 1000 rejection db

process_message-Outcome_example :
    Outcome consumer (some "application/json") (some "RejectedConfig") "{}" db true rejected_db
unfolding process_message type_of message_type handle_type handle_json handle actor
    on_rejected_config_signal is_valid_creditor_id
process_message-Outcome_example =
    process_message-Outcome consumer (some "application/json") (some "RejectedConfig") "{}" db true
      rejected_db refl

-- A message of a type that the schemas do not accept is refused.
refused_example :
    process_message consumer (some "application/json") (some "AccountPurge") "{}" db
    ≡ ok (false, db)
unfolding process_message type_of message_type handle_type handle_json handle
refused_example = refl

actor-KeepsOther_example : KeepsOther 8 db (actor consumer MessageType.rejected_config rejection db)
actor-KeepsOther_example =
    actor-KeepsOther consumer MessageType.rejected_config rejection 8 db (λ n. ground arith)
      ((omega int_laws, omega int_laws), tt) (omega arith)

abbrev returned : ConfigureAccountSignal
returned = record {
  creditor_id = 7;
  debtor_id = 3;
  ts = 100;
  seqnum = 0;
  negligible_amount = 0;
  config_data = "";
  config_flags = 0;
}

returned-Awaits : Awaits host returned account
unfolding is_close
returned-Awaits = record {
  ts_is = refl;
  seqnum_is = refl;
  flags_are = refl;
  data_is = refl;
  amount_is = refl;
  no_error = refl;
}

configure_account-Bounced_example : Bounced consumer returned db
unfolding get_account_data
configure_account-Bounced_example =
    configure_account-Bounced consumer returned account db refl refl returned-Awaits
