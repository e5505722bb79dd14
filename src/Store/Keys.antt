-- ===== src/Store/Keys.antt =====
-- The keys of the tables of crates/store/migrations/sqlite: the outbox holds its rows in the order of
-- their ids, which lie between the bounds, and an alert or a group has one row.
pub mod Preserved
pub mod Work
use alertthread.Base.{
  ℕ, ◌+◌, ◌≤◌, ◌<◌, ◌≡◌, refl, inl, inr, Bool, some, List, [], ◌∷◌, ◌++◌, arith, ◌==◌, Bool-cases,
}
use alertthread.Base.Table.{select_one, update_where, delete_where, Keyed}
use alertthread.Store.Model.{OpId}
use alertthread.Store.Row.{AlertRow, GroupRow, OutboxRow}
use alertthread.Store.Sql.{Db, is_alert, is_group, has_id}

-- The ids rise from above `lo` to at most `hi`.
abbrev pub Rising : OpId → OpId → List OutboxRow → Type 0
Rising lo hi [] = lo ≤ hi
Rising lo hi (r ∷ rest) = (lo < r.id) × Rising r.id hi rest

abbrev pub same_alert : AlertRow → AlertRow → Bool
same_alert x = is_alert x.fingerprint x.channel

abbrev pub same_group : GroupRow → GroupRow → Bool
same_group x = is_group x.group_key x.channel

pub record WellKeyed (db : Db) : Type 0 where
  pub alert_keys : Keyed same_alert db.alerts
  pub group_keys : Keyed same_group db.groups
  pub ids : Rising 0 db.outbox.last_id db.outbox.rows

Rising-below :
    (lo lo' hi : ℕ) (rows : List OutboxRow) → lo' ≤ lo → Rising lo hi rows → Rising lo' hi rows
Rising-below lo lo' hi [] h k = omega arith
Rising-below lo lo' hi (r ∷ rest) h k = (omega arith, k.1)

pub Rising-append :
    (lo hi : ℕ) (rows : List OutboxRow) (r : OutboxRow)
    → r.id ≡ hi + 1
    → Rising lo hi rows
    → Rising lo (hi + 1) (rows ++ r ∷ [])
Rising-append lo hi [] r e k = (omega arith, omega arith)
Rising-append lo hi (x ∷ rest) r e k = (k.0, Rising-append x.id hi rest r e k.1)

pub Rising-update_where :
    (lo hi : ℕ) (q : OutboxRow → Bool) (f : OutboxRow → OutboxRow) (rows : List OutboxRow)
    → ((x : OutboxRow) → (f x).id ≡ x.id)
    → Rising lo hi rows
    → Rising lo hi (update_where q f rows)
Rising-update_where lo hi q f [] same k = k
Rising-update_where lo hi q f (x ∷ rest) same k = elim (Bool-cases (q x)) [
  | inl e ↦ rw (e, same x) (k.0, Rising-update_where x.id hi q f rest same k.1)
  | inr e ↦ rw e (k.0, Rising-update_where x.id hi q f rest same k.1)
]

pub Rising-delete_where :
    (lo hi : ℕ) (q : OutboxRow → Bool) (rows : List OutboxRow)
    → Rising lo hi rows
    → Rising lo hi (delete_where q rows)
Rising-delete_where lo hi q [] k = k
Rising-delete_where lo hi q (x ∷ rest) k = elim (Bool-cases (q x)) [
  | inl e ↦ rw e (
      Rising-below x.id lo hi (delete_where q rest) (omega arith)
        (Rising-delete_where x.id hi q rest k.1))
  | inr e ↦ rw e (k.0, Rising-delete_where x.id hi q rest k.1)
]

-- A statement that names an id touches nothing above it.
above_id :
    (lo hi id : ℕ) (f : OutboxRow → OutboxRow) (rows : List OutboxRow)
    → id ≤ lo
    → Rising lo hi rows
    → (delete_where (has_id id) rows ≡ rows) × (update_where (has_id id) f rows ≡ rows)
above_id lo hi id f [] h k = (refl, refl)
above_id lo hi id f (x ∷ rest) h k = ground (arith, above_id x.id hi id f rest (omega arith) k.1)

-- The row that an id selects is the only one: the table around it, what deleting it leaves, and what
-- updating it gives.
pub select_split :
    (lo hi id : ℕ) (f : OutboxRow → OutboxRow) (rows : List OutboxRow) (r : OutboxRow)
    → Rising lo hi rows
    → select_one (has_id id) rows ≡ some r
    → (xs : List OutboxRow) × (ys : List OutboxRow) × (rows ≡ xs ++ r ∷ ys)
      × (delete_where (has_id id) rows ≡ xs ++ ys)
      × (update_where (has_id id) f rows ≡ xs ++ f r ∷ ys)
select_split lo hi id f [] r k e = absurd (ground arith)
select_split lo hi id f (x ∷ rest) r k e = elim (Bool-cases (x.id == id)) [
  | inl hit ↦
      let above = above_id x.id hi id f rest (ground arith) k.1 in
      ([], rest, ground arith, ground arith, ground arith)
  | inr miss ↦
      let (xs, ys, p, d, u) = select_split x.id hi id f rest r k.1 (ground arith) in
      (x ∷ xs, ys, ground arith, ground arith, ground arith)
]
