-- ===== src/Server/Replay/Committed.antt =====
-- What a replay of crates/app/src/replay.rs changes.
use alertthread.Base.{
  ◌⊎◌, count_where, ◌+◌, All, ℕ, zero, suc, ◌<◌, min, String, ◌≡◌, refl, subst, ◌∙◌, inl, inr, Bool,
  true, false, List, [], ◌∷◌, arith, Bool-cases, length, take,
}
use alertthread.Store.Model.{DeadLetter, DeadLetterScope, Result, ok, err, bind-ok}
use alertthread.Store.Sql.{Db}
use alertthread.Store.Sql.{in_scope}
use alertthread.Store.Row.{OutboxRow, stamp}
use alertthread.Base.Table.{select_where}
use alertthread.Store.Outbox.{revive_dead_letters}
use alertthread.Store.Query.{dead_letters, length-dead_letters}
use alertthread.Store.Tracked.Revived.{is_fresh, revive_rows-queued, revive_rows-fresh}
use alertthread.Server.Cli.{Replay, replay, fine, is_among, parse}
use alertthread.Server.Cli.Dry.{parse-commit}
use alertthread.Server.Replay.{list_limit, scope_of, Report, report, run}

-- What a revival with `n` rows in its scope does: they are out of the dead-letter queue and can be leased at
-- once with all their attempts.
abbrev pub Requeues : DeadLetterScope → ℕ → Db → Report → Db → Type 0
Requeues scope now db r db' =
    (r.summary.revived ≡ length (select_where (in_scope scope) db.outbox.rows))
    × All (λ row. in_scope scope row ≡ false) db'.outbox.rows
    × (count_where (is_fresh (stamp now)) db'.outbox.rows
        ≡ count_where (is_fresh (stamp now)) db.outbox.rows + r.summary.revived)

abbrev pub Unchanged : Db → Report → Db → Type 0
Unchanged db r db' = (db' ≡ db) × (r.summary.revived ≡ 0)

-- The listing has read `seen`, and a revival finds `db`.
abbrev pub Replays : DeadLetterScope → Bool → ℕ → Db → Db → Report → Db → Type 0
Replays scope false now seen db r db' = Unchanged db r db'
Replays scope true now seen db r db' =
    (r.summary.matched ≡ min list_limit (length (select_where (in_scope scope) seen.outbox.rows)))
    × (((r.summary.matched ≡ 0) × Unchanged db r db')
        ⊎ ((0 < r.summary.matched) × Requeues scope now db r db'))

length-take : (n : ℕ) (rows : List OutboxRow) → length (take n rows) ≡ min n (length rows)
length-take zero rows = omega arith
length-take (suc n) [] = omega arith
length-take (suc n) (r ∷ rest) = omega (arith, length-take n rest)

revived_count :
    (scope : DeadLetterScope) (now : ℕ) (db : Db)
    → (revive_dead_letters scope now db).0 ≡ length (select_where (in_scope scope) db.outbox.rows)
unfolding revive_dead_letters
revived_count scope now db = refl

requeued :
    (scope : DeadLetterScope) (now : ℕ) (db : Db)
    → All (λ row. in_scope scope row ≡ false) (revive_dead_letters scope now db).1.outbox.rows
      × (count_where (is_fresh (stamp now)) (revive_dead_letters scope now db).1.outbox.rows
          ≡ count_where (is_fresh (stamp now)) db.outbox.rows
            + (revive_dead_letters scope now db).0)
unfolding revive_dead_letters
requeued scope now db = (
  revive_rows-queued (stamp now) scope db.outbox.rows,
  revive_rows-fresh (stamp now) scope db.outbox.rows,
)

in_scope_count :
    (scope : DeadLetterScope) (db : Db)
    → length (take list_limit (select_where (in_scope scope) db.outbox.rows))
      ≡ min list_limit (length (select_where (in_scope scope) db.outbox.rows))
in_scope_count scope db = length-take list_limit (select_where (in_scope scope) db.outbox.rows)

report-Replays :
    (rfc3339 : ℕ → String) (scope : DeadLetterScope) (parked : List DeadLetter) (commit : Bool)
    (now : ℕ) (seen db : Db)
    → length parked ≡ length (take list_limit (select_where (in_scope scope) seen.outbox.rows))
    → Replays scope commit now seen db
        (report rfc3339 scope parked commit now db).0
        (report rfc3339 scope parked commit now db).1
unfolding report
report-Replays rfc3339 scope [] false now seen db h = (refl, refl)
report-Replays rfc3339 scope [] true now seen db h =
    (h ∙ in_scope_count scope seen, inl (refl, (refl, refl)))
report-Replays rfc3339 scope (row ∷ rest) false now seen db h = (refl, refl)
report-Replays rfc3339 scope (row ∷ rest) true now seen db h =
    let (queued, fresh) = requeued scope now db in
    (h ∙ in_scope_count scope seen, inr (omega arith, (revived_count scope now db, queued, fresh)))

abbrev Said : DeadLetterScope → Bool → ℕ → Db → Db → Result (Report × Db) → Type 0
Said scope commit now seen db (ok (r, db')) = Replays scope commit now seen db r db'
Said scope commit now seen db (err e) = Unit

-- Without `--commit` a replay changes nothing. With it, the listing counts the ops that are parked in the
-- scope, up to its limit. If it found none, nothing changes. Else whatever is parked in the scope by the
-- time of the revival returns to the queue: none of it stays parked, so many more ops can be leased at
-- once with all their attempts, and their number is the one that is reported.
pub run-Replays :
    (rfc3339 : ℕ → String) (args : Replay) (now : ℕ) (seen db db' : Db) (r : Report)
    → run rfc3339 args now seen db ≡ ok (r, db')
    → Replays (scope_of args) args.commit now seen db r db'
unfolding run
run-Replays rfc3339 args now seen db db' r e =
    let (parked, found, last) =
      bind-ok (dead_letters (scope_of args) list_limit seen)
        (λ parked. ok (report rfc3339 (scope_of args) parked args.commit now db)) (r, db') e in
    subst (Said (scope_of args) args.commit now seen db) last (
      report-Replays rfc3339 (scope_of args) parked args.commit now seen db
        (length-dead_letters (scope_of args) list_limit seen parked found))

-- A command line without `--commit` is a dry run: whatever else it asks for, the replay that it starts
-- leaves the database as it finds it.
pub run-dry :
    (args : List String) (r : Replay) (rfc3339 : ℕ → String) (now : ℕ) (seen db db' : Db)
    (said : Report)
    → parse args ≡ fine (replay r)
    → is_among args "--commit" ≡ false
    → run rfc3339 r now seen db ≡ ok (said, db')
    → db' ≡ db
run-dry args r rfc3339 now seen db db' said e dry ran = elim (Bool-cases r.commit) [
  | inl commits ↦ absurd (ground (arith, parse-commit args r e commits))
  | inr keeps ↦
      (subst (λ c. Replays (scope_of r) c now seen db said db') keeps
        (run-Replays rfc3339 r now seen db db' said ran)).0
]
