-- ===== src/Procedures/AccountParts/Knowledge.antt =====
-- `update_account_knowledge` of procedures/accounts.py.
use swpt_creditors.Base.{ℕ, not}
use swpt_creditors.Base.Lists.{put_row}
use swpt_creditors.Models.Common.{
  CreditorId, DebtorId, Timestamp, Host, Json, account_does_not_exist,
}
use swpt_creditors.Models.Log.{ObjectType, ObjectUri}
use swpt_creditors.Models.Account.{AccountKnowledge}
use swpt_creditors.Models.Db.{
  Tx, ◌>>=◌, ◌>>◌, pure, gets, modify, or_raise, add_pending_log_entry, next_uid,
}
use swpt_creditors.Procedures.Common.{Update, allow_update}
use swpt_creditors.Procedures.Accounts.{knowledge_key, get_account_knowledge}
use swpt_creditors.Procedures.AccountParts.{when_allowed, part_entry}

unfoldable pub knowledge_update : Host → Json → Update AccountKnowledge
knowledge_update host json = record {
  has_changes = λ k. not (host.json_eq k.knowledge json);
  set_values = λ k. record k { knowledge = json };
}

abbrev set_knowledge_update_id : ℕ → AccountKnowledge → AccountKnowledge
set_knowledge_update_id n k = record k { latest_update_id = n }

perform_knowledge_update :
    Host
    → Timestamp
    → CreditorId
    → DebtorId
    → ℕ
    → AccountKnowledge
    → (AccountKnowledge → AccountKnowledge)
    → Tx AccountKnowledge
unfolding add_pending_log_entry next_uid
perform_knowledge_update host current_ts creditor_id debtor_id latest_update_id k perform_update =
    do
      let k' = record (perform_update k) { latest_update_ts = current_ts }
      modify (λ db. record db {
        account_knowledge =
            put_row (knowledge_key k.creditor_id k.debtor_id) k' db.account_knowledge;
      })
      modify (
          add_pending_log_entry creditor_id (
            part_entry current_ts ObjectType.account_knowledge
              (ObjectUri.account_knowledge creditor_id debtor_id) latest_update_id))
      modify (next_uid host)
      pure k'

unfoldable pub update_account_knowledge :
    Host → Timestamp → CreditorId → DebtorId → ℕ → Json → Tx AccountKnowledge
unfolding get_account_knowledge allow_update knowledge_update perform_knowledge_update
update_account_knowledge host current_ts creditor_id debtor_id latest_update_id json = do
  k ← or_raise (← gets (get_account_knowledge creditor_id debtor_id)) account_does_not_exist
  when_allowed k
      (allow_update k (λ o. o.latest_update_id) set_knowledge_update_id latest_update_id
        (knowledge_update host json))
      (perform_knowledge_update host current_ts creditor_id debtor_id latest_update_id k)
