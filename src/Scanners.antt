-- ===== src/Scanners.antt =====
-- table_scanners.py: the periodic work on the rows of a table. A scanner gets the rows of a block of
-- the table; they may be older than the database. Rows that another transaction has locked are
-- not skipped here.
pub mod Retention
pub mod Creditors
pub mod Accounts
use swpt_creditors.Base.{◌&&◌, Bool, false, true, not}
use swpt_creditors.Base.Tests.{leb}
use swpt_creditors.Models.Common.{CreditorId, Timestamp}

-- The configuration that the scanners read, with `sharding_realm.match(creditor_id, match_parent)`
-- of swpt_pythonlib.
pub record Config : Type 0 where
  pub min_creditor_id : CreditorId
  pub max_creditor_id : CreditorId
  pub realm_match : CreditorId → Bool → Bool
  pub delete_parent_shard_records : Bool
  pub inactive_interval : Timestamp
  pub deactivated_interval : Timestamp
  pub log_retention_interval : Timestamp
  pub ledger_retention_interval : Timestamp
  pub max_transfer_delay : Timestamp
  pub max_heartbeat_delay : Timestamp
  pub max_config_delay : Timestamp

unfoldable pub is_valid_creditor_id : Config → CreditorId → Bool → Bool
is_valid_creditor_id config creditor_id match_parent =
    leb config.min_creditor_id creditor_id
    && leb creditor_id config.max_creditor_id
    && config.realm_match creditor_id match_parent

-- `belongs_to_parent_shard`
unfoldable pub belongs_to_parent_shard : Config → CreditorId → Bool
unfolding is_valid_creditor_id
belongs_to_parent_shard config creditor_id =
    not (is_valid_creditor_id config creditor_id false)
    && is_valid_creditor_id config creditor_id true
