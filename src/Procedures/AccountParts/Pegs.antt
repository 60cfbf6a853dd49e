-- ===== src/Procedures/AccountParts/Pegs.antt =====
-- The pegs of accounts: `update_account_exchange` sets them, `delete_account` guards them.
use swpt_creditors.Base.{
  ℕ, ◌+◌, ◌≡◌, refl, inl, inr, not, ◌&&◌, Bool, true, false, Option, none, some, List, [], ◌∷◌,
  ◌++◌, arith,
}
use swpt_creditors.Base.Lists.{All, any_row, delete_where}
use swpt_creditors.Base.Rows.{All-put_row, All-append, find_row_sound}
use swpt_creditors.Base.Tests.{◌==◌, Bool-cases, Option-cases}
use swpt_creditors.Models.Common.{CreditorId, DebtorId, Timestamp, Host}
use swpt_creditors.Models.Creditor.{Creditor}
use swpt_creditors.Models.Account.{Account, AccountExchange}
use swpt_creditors.Models.Db.{Db, committed, add_signal, add_pending_log_entry, next_uid}
use swpt_creditors.Procedures.Common.{allow_update}
use swpt_creditors.Procedures.Creditors.{get_creditor, get_active_creditor, put_creditor}
use swpt_creditors.Procedures.Accounts.{
  account_key, exchange_key, has_account, get_account_data, get_account_display,
  get_account_exchange, insert_account, add_account_rows, put_log, create_new_account,
}
use swpt_creditors.Procedures.AccountDeletion.{
  is_pegged_to, delete_account_rows, log_account_deletion, is_deletion_allowed, delete_account,
}
use swpt_creditors.Procedures.AccountParts.Exchange.{
  ExchangeUpdate, exchange_update, is_peg_missing, perform_exchange_update, update_account_exchange,
}

-- The creditor has an account with the debtor of the peg, if there is a peg.
abbrev pub HasPeg : List Account → CreditorId → Option DebtorId → Type 0
HasPeg accounts creditor_id none = Unit
HasPeg accounts creditor_id (some peg) = any_row (account_key creditor_id peg) accounts ≡ true

abbrev pub PegExists : List Account → AccountExchange → Type 0
PegExists accounts x = HasPeg accounts x.creditor_id x.peg_debtor_id

-- Every peg refers to an account that is there.
abbrev pub PegsExist : Db → Type 0
PegsExist db = All (PegExists db.accounts) db.account_exchanges

any_row-delete_other {ℓ} :
    {A : Type ℓ} (q p : A → Bool) (xs : List A)
    → ((x : A) → q x ≡ true → p x ≡ false)
    → any_row q xs ≡ true
    → any_row q (delete_where p xs) ≡ true
any_row-delete_other q p [] apart h = h
any_row-delete_other q p (x ∷ xs) apart h =
    ground (arith, apart x, any_row-delete_other q p xs apart)

any_row-append {ℓ} :
    {A : Type ℓ} (q : A → Bool) (xs ys : List A) → any_row q xs ≡ true → any_row q (xs ++ ys) ≡ true
any_row-append q [] ys h = cc
any_row-append q (x ∷ xs) ys h = ground (arith, any_row-append q xs ys)

other_account :
    (c p c' d' : ℕ) (a : Account)
    → (c == c' && p == d') ≡ false
    → account_key c p a ≡ true
    → account_key c' d' a ≡ false
other_account c p c' d' a ne h = ground arith

-- An exchange that is neither the deleted account's nor pegged to it keeps its peg.
not_its_peg :
    (c d xc xd p : ℕ)
    → (xc == c && p == d && not (xd == d)) ≡ false
    → (xc == c && xd == d) ≡ false
    → (xc == c && p == d) ≡ false
not_its_peg c d xc xd p h k = ground arith

peg_stays :
    (c d xc xd : ℕ) (peg : Option DebtorId) (x : AccountExchange) (accounts : List Account)
    → x.creditor_id ≡ xc
    → x.debtor_id ≡ xd
    → x.peg_debtor_id ≡ peg
    → is_pegged_to c d x ≡ false
    → exchange_key c d x ≡ false
    → HasPeg accounts xc peg
    → HasPeg (delete_where (account_key c d) accounts) xc peg
unfolding is_pegged_to
peg_stays c d xc xd none x accounts ec ed ep free other h = tt
peg_stays c d xc xd (some p) x accounts ec ed ep free other h =
    any_row-delete_other (account_key xc p) (account_key c d) accounts
      (λ a k.
        other_account xc p c d a
          (not_its_peg c d xc xd p (rw (ec, ed, ep) at free) (rw (ec, ed) at other)) k)
      h

pegs_stay :
    (c d : ℕ) (accounts : List Account) (xs : List AccountExchange)
    → any_row (is_pegged_to c d) xs ≡ false
    → All (PegExists accounts) xs
    → All (PegExists (delete_where (account_key c d) accounts)) (delete_where (exchange_key c d) xs)
pegs_stay c d accounts [] free h = tt
pegs_stay c d accounts (x ∷ xs) free h = elim (Bool-cases (is_pegged_to c d x)) [
  | inl pegged ↦ cc
  | inr unpegged ↦
      let rest = pegs_stay c d accounts xs (rw unpegged at free) h.1 in
      elim (Bool-cases (exchange_key c d x)) [
        | inl own ↦ rw own rest
        | inr other ↦ rw other (
          peg_stays c d x.creditor_id x.debtor_id x.peg_debtor_id x accounts refl refl refl unpegged
              other h.0,
          rest,
        )
      ]
]

delete_account-PegsExist :
    (host : Host) (now : Timestamp) (c : CreditorId) (d : DebtorId) (db : Db)
    → PegsExist db
    → PegsExist (committed db (delete_account host now c d db))
unfolding delete_account delete_account_rows log_account_deletion put_log put_creditor
delete_account-PegsExist host now c d db h = elim (Option-cases (get_creditor c db)) [
  | inl n ↦ rw n h
  | inr (creditor, ec) ↦ elim (Option-cases (get_account_data c d db)) [
    | inl n ↦ rw (ec, n) h
    | inr (a, ea) ↦ elim (Option-cases (get_account_display c d db)) [
      | inl n ↦ rw (ec, ea, n) h
      | inr (display, ed) ↦ elim (Bool-cases (is_deletion_allowed a display)) [
        | inr f ↦ rw (ec, ea, ed, f) h
        | inl t ↦ elim (Bool-cases (any_row (is_pegged_to c d) db.account_exchanges)) [
          | inl peg ↦ rw (ec, ea, ed, t, peg) h
          | inr free ↦
              rw (ec, ea, ed, t, free) (pegs_stay c d db.accounts db.account_exchanges free h)
        ]
      ]
    ]
  ]
]

more_accounts :
    (accounts new : List Account) (c : CreditorId) (peg : Option DebtorId)
    → HasPeg accounts c peg
    → HasPeg (accounts ++ new) c peg
more_accounts accounts new c none h = tt
more_accounts accounts new c (some p) h = any_row-append (account_key c p) accounts new h

All-more_accounts :
    (accounts new : List Account) (xs : List AccountExchange)
    → All (PegExists accounts) xs
    → All (PegExists (accounts ++ new)) xs
All-more_accounts accounts new [] h = tt
All-more_accounts accounts new (x ∷ xs) h = (
  more_accounts accounts new x.creditor_id x.peg_debtor_id h.0,
  All-more_accounts accounts new xs h.1,
)

insert_account-PegsExist :
    (host : Host) (now : Timestamp) (creditor : Creditor) (d : DebtorId) (db : Db)
    → PegsExist db
    → PegsExist (insert_account host creditor d now db)
unfolding insert_account add_account_rows put_log put_creditor
insert_account-PegsExist host now creditor d db h =
    All-append (PegExists _) db.account_exchanges _
      (All-more_accounts db.accounts _ db.account_exchanges h) (tt, tt)

create_new_account-PegsExist :
    (host : Host) (now : Timestamp) (c : CreditorId) (d : DebtorId) (db : Db)
    → PegsExist db
    → PegsExist (committed db (create_new_account host now c d db))
unfolding create_new_account add_signal
create_new_account-PegsExist host now c d db h = elim (Option-cases (get_active_creditor c db)) [
  | inl n ↦ rw n h
  | inr (creditor, e) ↦ elim (Bool-cases (has_account c d db)) [
    | inl t ↦ rw (e, t) h
    | inr f ↦ rw (e, f) (insert_account-PegsExist host now creditor d db h)
  ]
]

-- The test before an exchange gets a peg.
peg_found :
    (c : CreditorId) (peg : Option DebtorId) (db : Db)
    → is_peg_missing c peg db ≡ false
    → HasPeg db.accounts c peg
unfolding is_peg_missing has_account
peg_found c none db h = tt
peg_found c (some p) db h = elim (Bool-cases (any_row (account_key c p) db.accounts)) [
  | inl t ↦ t
  | inr f ↦ cc
]

key_creditor : (c d xc xd : ℕ) → (xc == c && xd == d) ≡ true → xc ≡ c
key_creditor c d xc xd h = ground arith

exchange_found :
    (c : CreditorId) (d : DebtorId) (db : Db) (x : AccountExchange)
    → get_account_exchange c d db ≡ some x
    → x.creditor_id ≡ c
unfolding get_account_exchange
exchange_found c d db x e =
    key_creditor c d x.creditor_id x.debtor_id
      (find_row_sound (exchange_key c d) db.account_exchanges x e)

update_account_exchange-PegsExist :
    (host : Host) (now : Timestamp) (c : CreditorId) (d : DebtorId) (u : ExchangeUpdate) (n : ℕ)
    (db : Db)
    → PegsExist db
    → PegsExist (committed db (update_account_exchange host now c d u n db))
unfolding update_account_exchange allow_update perform_exchange_update exchange_update add_signal
    add_pending_log_entry next_uid
update_account_exchange-PegsExist host now c d u n db h =
    elim (Option-cases (get_account_exchange c d db)) [
      | inl none_found ↦ rw none_found h
      | inr (x, e) ↦
          let same = exchange_found c d db x e in
          elim (Bool-cases
            (n == x.latest_update_id && not ((exchange_update host u).has_changes x))) [
              | inl up_to_date ↦ rw (e, up_to_date) h
              | inr changed ↦ elim (Bool-cases (n == x.latest_update_id + 1)) [
                | inr conflict ↦ rw (e, changed, conflict) h
                | inl next ↦ elim (Bool-cases (is_peg_missing c u.peg_debtor_id db)) [
                  | inl missing ↦ rw (e, changed, next, missing) h
                  | inr there ↦
                      rw (e, changed, next, there)
                        (All-put_row (PegExists db.accounts)
                          (exchange_key x.creditor_id x.debtor_id) _ db.account_exchanges
                          (rw same (peg_found c u.peg_debtor_id db there)) h)
                ]
              ]
            ]
    ]

-- What a client does with accounts, as far as pegs are concerned.
pub data AccountOp : Type 0 where
  creates deletes : CreditorId → DebtorId → AccountOp
  sets_exchange : CreditorId → DebtorId → ExchangeUpdate → ℕ → AccountOp

unfoldable pub perform : Host → Timestamp → AccountOp → Db → Db
unfolding create_new_account delete_account update_account_exchange
perform host now (creates c d) db = committed db (create_new_account host now c d db)
perform host now (deletes c d) db = committed db (delete_account host now c d db)
perform host now (sets_exchange c d u n) db =
    committed db (update_account_exchange host now c d u n db)

unfoldable pub perform_all : Host → List (Timestamp × AccountOp) → Db → Db
unfolding perform
perform_all host [] db = db
perform_all host ((now, op) ∷ ops) db = perform_all host ops (perform host now op db)

perform-PegsExist :
    (host : Host) (now : Timestamp) (op : AccountOp) (db : Db)
    → PegsExist db
    → PegsExist (perform host now op db)
unfolding perform
perform-PegsExist host now (creates c d) db h = create_new_account-PegsExist host now c d db h
perform-PegsExist host now (deletes c d) db h = delete_account-PegsExist host now c d db h
perform-PegsExist host now (sets_exchange c d u n) db h =
    update_account_exchange-PegsExist host now c d u n db h

-- When every peg of an account refers to an account of the same creditor that is there, this still
-- holds after any sequence of creations and deletions of accounts and updates of their exchanges, each
-- at its time and by whatever creditor, those that are refused included.
pub perform_all-PegsExist :
    (host : Host) (ops : List (Timestamp × AccountOp)) (db : Db)
    → PegsExist db
    → PegsExist (perform_all host ops db)
unfolding perform_all
perform_all-PegsExist host [] db h = h
perform_all-PegsExist host ((now, op) ∷ ops) db h =
    perform_all-PegsExist host ops (perform host now op db) (perform-PegsExist host now op db h)
