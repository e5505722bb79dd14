-- ===== src/Store/Tracked/Revived.antt =====
-- `revive_dead_letters` of crates/store/src/sqlite.rs: the rows and the alerts that it leaves.
use alertthread.Base.{
  ℕ, ◌+◌, ◌≡◌, refl, sym, ap₂, subst, ◌∙◌, inl, inr, Bool, false, ◌&&◌, Option, none, some, List,
  [], ◌∷◌, arith, ◌==◌, if◌then◌else◌, Bool-cases, length, count_where, All,
}
use alertthread.Base.Table.{select_where, update_where}
use alertthread.Core.Ids.{Fingerprint}
use alertthread.Store.Model.{AlertState, DeadLetterScope}
use alertthread.Store.Row.{known, AlertRow, OutboxRow, stamp}
use alertthread.Store.Sql.{
  Db, is_ready, is_failed, in_scope, revive_rows, revived_row, unmark_alert_failed,
}
use alertthread.Store.Outbox.{unmark_all, revive_dead_letters}
use alertthread.Store.Tracked.{IsTracked}
use alertthread.Store.Tracked.Reviving.{names, revive_dead_letters-IsTracked}

-- An alert that failed and that one of the rows names.
abbrev pub is_saved : List OutboxRow → AlertRow → Bool
is_saved rows a = is_failed a.state && names rows a

abbrev pub claimed_again : AlertRow → AlertRow
claimed_again a = record a { state = known AlertState.claimed }

saved-none : (alerts : List AlertRow) → alerts ≡ update_where (is_saved []) claimed_again alerts
saved-none [] = refl
saved-none (a ∷ rest) = ground (arith, saved-none rest)

saved-one :
    (r : OutboxRow) (rest : List OutboxRow) (f : Option Fingerprint) (alerts : List AlertRow)
    → r.fingerprint ≡ f
    → update_where
        (is_saved rest)
        claimed_again
        (elim f [ none ↦ alerts | some fp ↦ unmark_alert_failed fp r.channel alerts ])
      ≡ update_where (is_saved (r ∷ rest)) claimed_again alerts
unfolding unmark_alert_failed
saved-one r rest none [] e = refl
saved-one r rest none (a ∷ alerts) e = ground (arith, saved-one r rest none alerts e)
saved-one r rest (some fp) [] e = refl
saved-one r rest (some fp) (a ∷ alerts) e =
    ap₂ ◌∷◌ (ground arith) (saved-one r rest (some fp) alerts e)

unmark_all-saved :
    (rows : List OutboxRow) (alerts : List AlertRow)
    → unmark_all rows alerts ≡ update_where (is_saved rows) claimed_again alerts
unfolding unmark_all
unmark_all-saved [] alerts = saved-none alerts
unmark_all-saved (r ∷ rest) alerts =
    unmark_all-saved rest _ ∙ saved-one r rest r.fingerprint alerts refl

-- A row that a worker can lease at once, with all its attempts.
abbrev pub is_fresh : ℕ → OutboxRow → Bool
is_fresh now r = is_ready now r && r.attempts == 0

module _ (now : ℕ) (scope : DeadLetterScope) where
  pub revive_rows-queued :
      (rows : List OutboxRow) → All (λ r. in_scope scope r ≡ false) (revive_rows now scope rows)
  unfolding revive_rows
  revive_rows-queued [] = tt
  revive_rows-queued (r ∷ rest) = (one r, revive_rows-queued rest)
    where
      one :
          (x : OutboxRow)
          → in_scope scope (if in_scope scope x then revived_row now x else x) ≡ false
      one x = elim (Bool-cases (in_scope scope x)) [
        | inl e ↦
            subst (λ b. in_scope scope (if b then revived_row now x else x) ≡ false) (sym e) refl
        | inr e ↦ subst (λ b. in_scope scope (if b then revived_row now x else x) ≡ false) (sym e) e
      ]

  pub revive_rows-fresh :
      (rows : List OutboxRow)
      → count_where (is_fresh now) (revive_rows now scope rows)
        ≡ count_where (is_fresh now) rows + length (select_where (in_scope scope) rows)
  unfolding revive_rows
  revive_rows-fresh [] = omega arith
  revive_rows-fresh (r ∷ rest) = elim (Bool-cases (in_scope scope r)) [
    | inl e ↦ rw e (ground (arith, revive_rows-fresh rest))
    | inr e ↦ rw e (omega (arith, revive_rows-fresh rest))
  ]

-- Reviving dead letters keeps the promise. No row of the scope stays parked; as many rows as were parked in
-- it have all their attempts again and can be leased at once; and an alert is `claimed` again exactly if
-- it had failed and one of those rows names it, while every other alert stays as it was.
pub revive_dead_letters-Revived :
    (scope : DeadLetterScope) (at : ℕ) (db : Db)
    → IsTracked db
    → IsTracked (revive_dead_letters scope at db).1
      × All (λ r. in_scope scope r ≡ false) (revive_dead_letters scope at db).1.outbox.rows
      × (count_where (is_fresh (stamp at)) (revive_dead_letters scope at db).1.outbox.rows
          ≡ count_where (is_fresh (stamp at)) db.outbox.rows
            + length (select_where (in_scope scope) db.outbox.rows))
      × ((revive_dead_letters scope at db).1.alerts
          ≡ update_where
              (is_saved (select_where (in_scope scope) db.outbox.rows))
              claimed_again
              db.alerts)
unfolding revive_dead_letters
revive_dead_letters-Revived scope at db h = (
  revive_dead_letters-IsTracked scope at db h,
  revive_rows-queued (stamp at) scope db.outbox.rows,
  revive_rows-fresh (stamp at) scope db.outbox.rows,
  unmark_all-saved (select_where (in_scope scope) db.outbox.rows) db.alerts,
)
