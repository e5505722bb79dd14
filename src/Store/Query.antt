-- ===== src/Store/Query.antt =====
-- crates/store/src/sqlite.rs: the reads of the delivery and of `replay`.
use alertthread.Base.{
  ℕ, ◌≡◌, arith, Bool, true, false, ◌&&◌, Option, none, some, List, [], ◌∷◌, str_eq, opt_eq,
  if◌then◌else◌, length, take, is_empty, count_where,
}
use alertthread.Base.Int.{pos}
use alertthread.Base.Table.{select_one, select_where}
use alertthread.Core.Ids.{Fingerprint, ChannelId, GroupKey}
use alertthread.Store.Model.{
  AlertState, AlertRecord, GroupRecord, GroupMembership, DeadLetter, DeadLetterScope, Result, ok,
  ◌>>=◌, bind-ok,
}
use alertthread.Store.Row.{
  Named, known, AlertRow, OutboxRow, alert_into_record, group_into_record, decode, membership,
}
use alertthread.Store.Sql.{Db, is_alert, is_group, in_scope}

unfoldable pub alert : Fingerprint → ChannelId → Db → Result (Option AlertRecord)
unfolding alert_into_record
alert fp chan db = elim (select_one (is_alert fp chan) db.alerts) [
  | none ↦ ok none
  | some r ↦ (do found ← alert_into_record r; ok (some found))
]

unfoldable pub group : GroupKey → ChannelId → Db → Option GroupRecord
unfolding group_into_record
group key chan db = elim (select_one (is_group key chan) db.groups) [
  | none ↦ none
  | some r ↦ some (group_into_record r)
]

-- WHERE group_key = ? AND channel = ?, on the alerts.
abbrev pub is_member : GroupKey → ChannelId → AlertRow → Bool
is_member key chan r = opt_eq r.group_key key && str_eq r.channel chan

-- state IN ('resolving', 'resolved')
abbrev pub is_done : Named AlertState → Bool
is_done (known AlertState.resolving) = true
is_done (known AlertState.resolved) = true
is_done _ = false

-- COUNT_GROUP_MEMBERS and the split of its numbers. The sum over no row is NULL.
unfoldable pub group_membership : GroupKey → ChannelId → Db → GroupMembership
unfolding membership
group_membership key chan db =
    let members = select_where (is_member key chan) db.alerts in
    membership (pos (length members))
      (if is_empty members then none else some (pos (count_where (λ r. is_done r.state) members)))

-- The rows of the query have a `dead_lettered_at`, so the zero is never read.
dead_letter_of : OutboxRow → Result DeadLetter
unfolding decode
dead_letter_of r = do
  op ← decode r.id r.payload
  ok (record {
    id = r.id;
    op = op;
    channel = r.channel;
    fingerprint = r.fingerprint;
    attempts = r.attempts;
    last_error = r.last_error;
    created_at = r.created_at;
    dead_lettered_at = elim r.dead_lettered_at [ none ↦ 0 | some at ↦ at ];
  })

convert_all : List OutboxRow → Result (List DeadLetter)
unfolding dead_letter_of
convert_all [] = ok []
convert_all (r ∷ rest) = do d ← dead_letter_of r; ds ← convert_all rest; ok (d ∷ ds)

-- SELECT_DEAD_LETTERS reads in the order of the ids, which is that of the table.
unfoldable pub dead_letters : DeadLetterScope → ℕ → Db → Result (List DeadLetter)
unfolding convert_all
dead_letters scope limit db =
    convert_all (take limit (select_where (in_scope scope) db.outbox.rows))

length-convert_all :
    (rows : List OutboxRow) (ds : List DeadLetter)
    → convert_all rows ≡ ok ds
    → length ds ≡ length rows
unfolding convert_all
length-convert_all [] ds e = ground arith
length-convert_all (r ∷ rest) ds e =
    let (d, _, more) =
      bind-ok (dead_letter_of r) (λ d. convert_all rest >>= λ ds. ok (d ∷ ds)) ds e in
    let (others, found, last) = bind-ok (convert_all rest) (λ ds. ok (d ∷ ds)) ds more in
    ground (arith, length-convert_all rest others found)

-- A listing has a dead letter for each row that it reads.
pub length-dead_letters :
    (scope : DeadLetterScope) (limit : ℕ) (db : Db) (ds : List DeadLetter)
    → dead_letters scope limit db ≡ ok ds
    → length ds ≡ length (take limit (select_where (in_scope scope) db.outbox.rows))
unfolding dead_letters
length-dead_letters scope limit db ds e =
    length-convert_all (take limit (select_where (in_scope scope) db.outbox.rows)) ds e
