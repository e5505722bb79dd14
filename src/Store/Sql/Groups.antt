-- ===== src/Store/Sql/Groups.antt =====
-- crates/store/src/sqlite.rs: the statements on the table `group_message`.
use alertthread.Base.{
  ℕ, ◌+◌, Bool, true, false, ◌&&◌, Option, none, some, List, [], ◌∷◌, ◌++◌, str_eq, if◌then◌else◌,
  any,
}
use alertthread.Base.Table.{select_one, update_where}
use alertthread.Core.Ids.{ChannelId, GroupKey, ThreadTs, LabelMap}
use alertthread.Store.Row.{GroupRow}

-- WHERE group_key = ? AND channel = ?
abbrev pub is_group : GroupKey → ChannelId → GroupRow → Bool
is_group key chan r = str_eq r.group_key key && str_eq r.channel chan

-- INSERT_GROUP, with whether a row was inserted.
unfoldable pub insert_group :
    GroupKey → ChannelId → ℕ → LabelMap → ℕ → List GroupRow → Bool × List GroupRow
insert_group key chan members labels now rows =
    if any (is_group key chan) rows then (false, rows) else (
      true,
      rows
          ++ record {
            group_key = key;
            channel = chan;
            message_ts = none;
            member_count = members;
            group_labels = labels;
            created_at = now;
          }
            ∷ [],
    )

-- JOIN_GROUP
unfoldable pub join_group : ℕ → GroupKey → ChannelId → List GroupRow → List GroupRow
join_group members key chan =
    update_where (is_group key chan) (λ r. record r { member_count = r.member_count + members })

-- APPLY_GROUP_POSTED
unfoldable pub apply_group_posted :
    ThreadTs → Option GroupKey → ChannelId → List GroupRow → List GroupRow
apply_group_posted ts none chan rows = rows
apply_group_posted ts (some key) chan rows =
    update_where (is_group key chan) (λ r. record r { message_ts = some ts }) rows

-- SELECT_GROUP_MEMBERS
unfoldable pub select_group_members : GroupKey → ChannelId → List GroupRow → Option ℕ
select_group_members key chan rows = elim (select_one (is_group key chan) rows) [
  | none ↦ none
  | some r ↦ some r.member_count
]

-- APPLY_GROUP_MESSAGE_LOST
unfoldable pub apply_group_message_lost : GroupKey → ChannelId → List GroupRow → List GroupRow
apply_group_message_lost key chan =
    update_where (is_group key chan) (λ r. record r { message_ts = none })
