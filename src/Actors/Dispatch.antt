-- ===== src/Actors/Dispatch.antt =====
-- What `process_message` of actors.py does with a message: which ones it refuses, and what an accepted
-- one does.
use swpt_creditors.Base.{
  ◌≡◌, ap, sym, ◌∙◌, refl, ◌⊎◌, inl, inr, ◌&&◌, ◌||◌, not, Bool, true, false, Option, none, some,
  String, arith,
}
use swpt_creditors.Base.Tests.{Bool-cases, Option-cases}
use swpt_creditors.Models.Common.{Bytes}
use swpt_creditors.Models.Db.{Db, Result, ok, err}
use swpt_creditors.Procedures.LedgerUpdates.Order.{Result-cases}
use swpt_creditors.Scanners.{is_valid_creditor_id}
use swpt_creditors.Actors.{
  MessageType, Content, Actor, actor, creditor_id_of, is_configure_account, handle, handle_json,
  is_json, type_of, handle_type, process_message,
}
use swpt_creditors.Actors.Runs.{
  name_of, Reads, Runs, text-path, message_type-name_of, named_type, actor-Runs,
}

-- The message was valid, the agent was responsible for it, and its procedure has run.
pub record Accepted (a : Actor) (content_type massage_type : Option String) (body : Bytes)
    (db db' : Db) : Type 0 where
  pub type_is : MessageType
  pub content : Content type_is
  pub reads : Reads a content_type massage_type body type_is content
  pub responsible :
      (is_configure_account type_is
        || is_valid_creditor_id a.config (creditor_id_of type_is content) false)
      ≡ true
  pub runs : Runs a type_is content db db'

-- What a message that raised no exception has done.
abbrev pub Outcome : Actor → Option String → Option String → Bytes → Db → Bool → Db → Type 0
Outcome a content_type massage_type body db answer db' =
    ((answer ≡ false)
      × (db' ≡ db)
      × ((t : MessageType) (m : Content t) → ¬ (Reads a content_type massage_type body t m)))
    ⊎ ((answer ≡ true) × Accepted a content_type massage_type body db db')

answer_in : Result (Bool × Db) → Bool
answer_in (ok (b, db)) = b
answer_in (err e) = false

db_in : Db → Result (Bool × Db) → Db
db_in db (ok (b, db')) = db'
db_in db (err e) = db

-- `return True` after the call of a handler.
abbrev answered : Result (Unit {0} × Db) → Result (Bool × Db)
answered (ok (_, db)) = ok (true, db)
answered (err e) = err e

allowed : (x y : Bool) → (not x && not y) ≡ false → (x || y) ≡ true
allowed x y h = ground arith

-- A valid message whose handling raised no exception.
handle-Handled :
    (a : Actor) (t : MessageType) (m : Content t) (db : Db) (answer : Bool) (db' : Db)
    → handle a t (some m) db ≡ ok (answer, db')
    → (answer ≡ true)
      × ((is_configure_account t || is_valid_creditor_id a.config (creditor_id_of t m) false)
          ≡ true)
      × (actor a t m db ≡ ok (tt, db'))
unfolding handle answer_in db_in
handle-Handled a t m db answer db' e =
    let own = is_configure_account t in
    let valid = is_valid_creditor_id a.config (creditor_id_of t m) false in
    elim (Bool-cases (not own && not valid)) [
      | inl foreign ↦ absurd (cc (rw (foreign, handle) at e))
      | inr local ↦ elim (Result-cases (actor a t m db)) [
        | inr (x, k) ↦ absurd (cc (sym (ap answered k) ∙ (rw (local, handle) at e)))
        | inl ((u, d), k) ↦
            let e' : ◌≡◌ {A = Result (Bool × Db)} (ok (true, d)) (ok (answer, db')) =
              sym (ap answered k) ∙ (rw (local, handle) at e) in
            (
              sym (ap answer_in e'),
              allowed own valid local,
              k ∙ ap (λ x. ok (tt, x)) (ap (db_in db) e'),
            )
      ]
    ]

Reads-handle :
    (a : Actor) (content_type massage_type : Option String) (body : Bytes) (t : MessageType)
    (m : Content t) (db : Db)
    → Reads a content_type massage_type body t m
    → process_message a content_type massage_type body db ≡ handle a t (some m) db
unfolding process_message type_of handle_type handle_json
Reads-handle a content_type massage_type body t m db r =
    rw (r.is_json, r.named, message_type-name_of t, r.parsed, r.valid) refl

module _ (a : Actor) (content_type massage_type : Option String) (body : Bytes) (db : Db)
    (answer : Bool) (db' : Db)
    (e : process_message a content_type massage_type body db ≡ ok (answer, db')) where
  refused :
      ◌≡◌ {A = Result (Bool × Db)} (ok (false, db)) (ok (answer, db'))
      → Outcome a content_type massage_type body db answer db'
  unfolding answer_in db_in
  refused h = inl (
    sym (ap answer_in h),
    sym (ap (db_in db) h),
    λ t m r.
        let done =
          handle-Handled a t m db answer db'
            (sym (Reads-handle a content_type massage_type body t m db r) ∙ e) in
        absurd (cc (ap answer_in h ∙ done.0)),
  )

  accepted :
      (t : MessageType) (m : Content t)
      → Reads a content_type massage_type body t m
      → Outcome a content_type massage_type body db answer db'
  accepted t m r =
      let (is_true, responsible, acts) =
        handle-Handled a t m db answer db'
          (sym (Reads-handle a content_type massage_type body t m db r) ∙ e) in
      inr (
        is_true,
        record {
          type_is = t;
          content = m;
          reads = r;
          responsible = responsible;
          runs = actor-Runs a t m db db' acts;
        },
      )

json_text : (o : Option String) → is_json o ≡ true → o ≡ some "application/json"
json_text none h = absurd cc
json_text (some text) h = ap some (text-path text "application/json" h)

type_of-named : (o : Option String) (t : MessageType) → type_of o ≡ some t → o ≡ some (name_of t)
unfolding type_of
type_of-named none t h = absurd cc
type_of-named (some name) t h = ap some (named_type name t h)

-- A message that raises no exception is refused or accepted. It is refused when it is not a valid JSON
-- message of one of the nine types, and then it changes nothing; if it is accepted, it is such a
-- message, the agent is responsible for its creditor unless it is a returned `ConfigureAccount`
-- message, and the change is the one that the procedure for the message's type makes of its content.
pub process_message-Outcome :
    (a : Actor) (content_type massage_type : Option String) (body : Bytes) (db : Db) (answer : Bool)
    (db' : Db)
    → process_message a content_type massage_type body db ≡ ok (answer, db')
    → Outcome a content_type massage_type body db answer db'
unfolding process_message handle_type handle_json handle
process_message-Outcome a content_type massage_type body db answer db' e =
    let refuse = refused a content_type massage_type body db answer db' e in
    elim (Bool-cases (is_json content_type)) [
      | inr other ↦ refuse (rw (other, process_message) at e)
      | inl json ↦ elim (Option-cases (type_of massage_type)) [
        | inl unknown ↦ refuse (rw (json, unknown, process_message) at e)
        | inr (t, is_t) ↦ elim (Option-cases (a.schemas.json_loads body)) [
          | inl broken ↦ refuse (rw (json, is_t, broken, process_message) at e)
          | inr (document, parsed) ↦ elim (Option-cases (a.schemas.load t document)) [
            | inl invalid ↦ refuse (rw (json, is_t, parsed, invalid, process_message) at e)
            | inr (m, valid) ↦
                accepted a content_type massage_type body db answer db' e t m (record {
                  is_json = json_text content_type json;
                  named = type_of-named massage_type t is_t;
                  document = document;
                  parsed = parsed;
                  valid = valid;
                })
          ]
        ]
      ]
    ]
