-- ===== src/Scanners/Creditors/Survival.antt =====
-- What `CreditorScanner` (table_scanners.py) does to a creditor that is active.
use swpt_creditors.Base.{
  ◌-◌, ◌≡◌, ap, ◌∙◌, refl, inl, inr, Bool, true, false, ◌&&◌, List, [], ◌∷◌, arith,
}
use swpt_creditors.Base.Lists.{All, any_row, rows_where}
use swpt_creditors.Base.Rows.{
  find_row-delete_other, rows_where-delete_other, everywhere, All-map, All-delete_where,
}
use swpt_creditors.Base.Tests.{◌==◌, ==_iff, if◌then◌else◌, Bool-cases}
use swpt_creditors.Models.Common.{CreditorId, DebtorId, Timestamp, Date, Host}
use swpt_creditors.Models.Creditor.{Creditor}
use swpt_creditors.Models.Transfer.{RunningTransfer}
use swpt_creditors.Models.Db.{Db, is_key}
use swpt_creditors.Procedures.Creditors.{get_creditor, has_creditor_id, get_pin_info, is_active}
use swpt_creditors.Procedures.Accounts.{get_account_data}
use swpt_creditors.Scanners.{Config, belongs_to_parent_shard}
use swpt_creditors.Scanners.Creditors.{
  delete_creditors, not_activated_for_long_time, deactivated_long_time_ago, is_among,
  delete_not_activated, delete_deactivated, delete_parent_shard_creditors, scan_creditors,
}

-- The row c is the only one with its ID.
abbrev pub IsAlone : Creditor → List Creditor → Type 0
IsAlone c rows = All (λ r. has_creditor_id c.creditor_id r ≡ true → r ≡ c) rows

-- The creditor c, and all that belongs to it, are in the second database as they are in the first.
pub record Survives (c : Creditor) (db db' : Db) : Type 0 where
  pub creditor_stays : get_creditor c.creditor_id db' ≡ get_creditor c.creditor_id db
  pub alone : IsAlone c db'.creditors
  pub pin_stays : get_pin_info c.creditor_id db' ≡ get_pin_info c.creditor_id db
  pub account_stays :
      (debtor_id : DebtorId)
      → get_account_data c.creditor_id debtor_id db' ≡ get_account_data c.creditor_id debtor_id db
  pub transfers_stay :
      rows_where (λ (rt : RunningTransfer). rt.creditor_id == c.creditor_id) db'.running_transfers
      ≡ rows_where (λ (rt : RunningTransfer). rt.creditor_id == c.creditor_id) db.running_transfers

Survives-refl : (c : Creditor) (db : Db) → IsAlone c db.creditors → Survives c db db
Survives-refl c db h = record {
  creditor_stays = refl;
  alone = h;
  pin_stays = refl;
  account_stays = λ d. refl;
  transfers_stay = refl;
}

Survives-trans : (c : Creditor) (a b d : Db) → Survives c a b → Survives c b d → Survives c a d
Survives-trans c a b d h k = record {
  creditor_stays = k.creditor_stays ∙ h.creditor_stays;
  alone = k.alone;
  pin_stays = k.pin_stays ∙ h.pin_stays;
  account_stays = λ i. k.account_stays i ∙ h.account_stays i;
  transfers_stay = k.transfers_stay ∙ h.transfers_stay;
}

-- No row with the ID of c is selected.
not_gone :
    (c : Creditor) (query : Creditor → Bool) (rows : List Creditor)
    → query c ≡ false
    → IsAlone c rows
    → any_row (λ r. r.creditor_id == c.creditor_id && query r) rows ≡ false
not_gone c query [] unselected h = refl
not_gone c query (r ∷ rows) unselected h =
    let rest = not_gone c query rows unselected h.1 in
    elim (Bool-cases (r.creditor_id == c.creditor_id)) [
      | inl same ↦ rw (same, ap query (h.0 same) ∙ unselected) rest
      | inr other ↦ rw other rest
    ]

gone_of_key :
    (gone : CreditorId → Bool) (c x : CreditorId)
    → gone c ≡ false
    → (x == c) ≡ true
    → gone x ≡ false
gone_of_key gone c x h e = ap gone ((==_iff x c).0 e) ∙ h

key_of_pair : (c di x y : CreditorId) → is_key c di x y ≡ true → (x == c) ≡ true
key_of_pair c di x y h = ground arith

-- A deletion that does not select the row c.
delete_creditors-Survives :
    (c : Creditor) (query : Creditor → Bool) (db : Db)
    → query c ≡ false
    → IsAlone c db.creditors
    → Survives c db (delete_creditors query db)
unfolding delete_creditors get_creditor get_pin_info get_account_data
delete_creditors-Survives c query db unselected h = record {
  creditor_stays =
      find_row-delete_other (has_creditor_id c.creditor_id) query db.creditors
        (All-map db.creditors (λ r same e. ap query (same e) ∙ unselected) h);
  alone = All-delete_where _ query db.creditors h;
  pin_stays =
      find_row-delete_other _ _ db.pin_infos
        (everywhere db.pin_infos (λ p e. gone_of_key gone c.creditor_id p.creditor_id stays e));
  account_stays = λ di. find_row-delete_other _ _ db.account_data (
      everywhere db.account_data (λ a e.
        gone_of_key gone c.creditor_id a.creditor_id stays
          (key_of_pair c.creditor_id di a.creditor_id a.debtor_id e)));
  transfers_stay =
      rows_where-delete_other _ _ db.running_transfers
        (λ t e. gone_of_key gone c.creditor_id t.creditor_id stays e);
}
  where
    gone : CreditorId → Bool
    gone creditor_id = any_row (λ r. r.creditor_id == creditor_id && query r) db.creditors

    stays : gone c.creditor_id ≡ false
    stays = not_gone c query db.creditors unselected h

-- A row that does not pass the query's second test is not selected.
unselected_by :
    (among expired : Creditor → Bool) (c : Creditor)
    → expired c ≡ false
    → (among c && expired c) ≡ false
unselected_by among expired c h = ground arith

active_facts :
    (cutoff : Timestamp) (date : Date) (c : Creditor)
    → is_active c ≡ true
    → (not_activated_for_long_time cutoff c ≡ false) × (deactivated_long_time_ago date c ≡ false)
unfolding not_activated_for_long_time deactivated_long_time_ago
active_facts cutoff date c h = ground arith

apart_step :
    (test : Creditor → Bool) (c r : Creditor) (rows : List Creditor)
    → (r.creditor_id == c.creditor_id) ≡ false
    → is_among test rows c ≡ false
    → is_among test (r ∷ rows) c ≡ false
unfolding is_among
apart_step test c r rows h rest = ground arith

not_among :
    (test : Creditor → Bool) (c : Creditor) (rows : List Creditor)
    → ((r : Creditor) → r.creditor_id ≡ c.creditor_id → test r ≡ false)
    → is_among test rows c ≡ false
unfolding is_among
not_among test c [] h = refl
not_among test c (r ∷ rows) h =
    let rest = not_among test c rows h in
    elim (Bool-cases (r.creditor_id == c.creditor_id)) [
      | inl same ↦ rw (h r ((==_iff r.creditor_id c.creditor_id).0 same)) rest
      | inr other ↦ apart_step test c r rows other rest
    ]

own_case : (a b : Bool) → a ≡ true → (a && b) ≡ false → b ≡ false
own_case a b h k = ground arith

-- A creditor that is active, whose row is the only one with its ID, and whose ID is valid where the
-- records of a parent shard are deleted, survives the scanner, whatever rows, old or new, it is
-- given: its row, its PIN, the data of its accounts and its running transfers stay as they were.
pub scan_creditors-Survives :
    (host : Host) (config : Config) (now : Timestamp) (rows : List Creditor) (c : Creditor)
    (db : Db)
    → is_active c ≡ true
    → IsAlone c db.creditors
    → (config.delete_parent_shard_records && belongs_to_parent_shard config c.creditor_id) ≡ false
    → Survives c db (scan_creditors host config now rows db)
unfolding scan_creditors delete_not_activated delete_deactivated delete_parent_shard_creditors
scan_creditors-Survives host config now rows c db active h own =
    let s0 = own_shard config.delete_parent_shard_records refl in
    let s1 =
      delete_creditors-Survives c unactivated _ (unselected_by (is_among old rows) old c facts.0)
        s0.alone in
    let s2 =
      delete_creditors-Survives c undeactivated _
        (unselected_by (is_among gone rows) gone c facts.1) s1.alone in
    Survives-trans c db _ _ (Survives-trans c db _ _ s0 s1) s2
  where
    old : Creditor → Bool
    old = not_activated_for_long_time (now - config.inactive_interval)

    gone : Creditor → Bool
    gone = deactivated_long_time_ago (host.date_of (now - config.deactivated_interval))

    unactivated : Creditor → Bool
    unactivated x = is_among old rows x && old x

    undeactivated : Creditor → Bool
    undeactivated x = is_among gone rows x && gone x

    facts : (old c ≡ false) × (gone c ≡ false)
    facts =
        active_facts (now - config.inactive_interval)
          (host.date_of (now - config.deactivated_interval)) c active

    own_shard :
        (b : Bool)
        → config.delete_parent_shard_records ≡ b
        → Survives c db (if b then delete_parent_shard_creditors config rows db else db)
    own_shard false e = Survives-refl c db h
    own_shard true e =
        delete_creditors-Survives c _ db
          (not_among (λ r. belongs_to_parent_shard config r.creditor_id) c rows
            (λ r same.
              ap (belongs_to_parent_shard config) same
              ∙ own_case config.delete_parent_shard_records
                  (belongs_to_parent_shard config c.creditor_id) e own))
          h
