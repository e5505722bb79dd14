-- ===== src/Store/Postgres/Serial.antt =====
-- Leases of crates/store/src/postgres.rs that overlap, against those of sqlite.rs one after the other.
use alertthread.Base.{
  ℕ, ◌<◌, ◌≡◌, refl, ap, inl, inr, true, false, not, ◌&&◌, List, [], ◌∷◌, arith, Bool-cases, take,
  All,
}
use alertthread.Base.Table.{select_where, update_where}
use alertthread.Store.Model.{WorkerId}
use alertthread.Store.Row.{OutboxRow}
use alertthread.Store.Sql.{is_ready, has_id_in, leased_row, lease_rows}
use alertthread.Store.Postgres.{lock_ready, update_locked, lease_skipping}
use alertthread.Store.Outbox.Lease.{disjoint, All-take}

-- A condition that holds no row back selects as if it were not there.
select-unheld :
    (now : ℕ) (rows : List OutboxRow)
    → select_where (λ r. is_ready now r && not (has_id_in [] r)) rows
      ≡ select_where (is_ready now) rows
select-unheld now [] = refl
select-unheld now (r ∷ rest) = elim (Bool-cases (is_ready now r)) [
  | inl ready ↦ rw (ready, select-unheld now rest) refl
  | inr unready ↦ rw (unready, select-unheld now rest) refl
]

module _ (held : List OutboxRow) (now : ℕ) where
  unheld :
      (rows : List OutboxRow)
      → All
          (λ c. has_id_in held c ≡ false)
          (select_where (λ r. is_ready now r && not (has_id_in held r)) rows)
  unheld [] = tt
  unheld (r ∷ rest) = elim (Bool-cases (has_id_in held r)) [
    | inl hit ↦ elim (Bool-cases (is_ready now r)) [
      | inl ready ↦ rw (ready, hit) (unheld rest)
      | inr unready ↦ rw unready (unheld rest)
    ]
    | inr miss ↦ elim (Bool-cases (is_ready now r)) [
      | inl ready ↦ rw (ready, miss) (miss, unheld rest)
      | inr unready ↦ rw unready (unheld rest)
    ]
  ]

  -- Until their lease ends, the rows that are leased are passed over like the rows that are locked.
  select-leased :
      (worker : WorkerId) (until : ℕ) (rows : List OutboxRow)
      → now < until
      → select_where (is_ready now) (update_where (has_id_in held) (leased_row worker until) rows)
        ≡ select_where (λ r. is_ready now r && not (has_id_in held r)) rows
  select-leased worker until [] later = refl
  select-leased worker until (r ∷ rest) later = elim (Bool-cases (has_id_in held r)) [
    | inl hit ↦ elim (Bool-cases (is_ready now r)) [
      | inl ready ↦ rw (ready, hit, gone r) (select-leased worker until rest later)
      | inr unready ↦ rw (unready, hit, gone r) (select-leased worker until rest later)
    ]
    | inr miss ↦ rw miss (elim (Bool-cases (is_ready now r)) [
      | inl ready ↦ rw ready (ap (λ rows. r ∷ rows) (select-leased worker until rest later))
      | inr unready ↦ rw unready (select-leased worker until rest later)
    ])
  ]
    where
      gone : (x : OutboxRow) → is_ready now (leased_row worker until x) ≡ false
      gone x = ground arith

module _ (w1 w2 : WorkerId) (until1 until2 : ℕ) (first second : List OutboxRow)
    (apart : (r : OutboxRow) → has_id_in second r ≡ true → has_id_in first r ≡ false) where
  -- Updates of different rows can be made in either order.
  update-swap :
      (rows : List OutboxRow)
      → update_where
          (has_id_in first)
          (leased_row w1 until1)
          (update_where (has_id_in second) (leased_row w2 until2) rows)
        ≡ update_where
            (has_id_in second)
            (leased_row w2 until2)
            (update_where (has_id_in first) (leased_row w1 until1) rows)
  update-swap [] = refl
  update-swap (r ∷ rest) = elim (Bool-cases (has_id_in second r)) [
    | inl hit ↦
        rw (hit, apart r hit, hit) (ap (λ rows. leased_row w2 until2 r ∷ rows) (update-swap rest))
    | inr miss ↦ elim (Bool-cases (has_id_in first r)) [
      | inl one ↦
          rw (miss, one, miss) (ap (λ rows. leased_row w1 until1 r ∷ rows) (update-swap rest))
      | inr two ↦ rw (miss, two, miss) (ap (λ rows. r ∷ rows) (update-swap rest))
    ]
  ]

  -- An update of other rows does not change what an update returns.
  returned-apart :
      (rows : List OutboxRow)
      → select_where
          (has_id_in second)
          (update_where (has_id_in second) (leased_row w2 until2) rows)
        ≡ select_where (has_id_in second) (
            update_where
              (has_id_in second)
              (leased_row w2 until2)
              (update_where (has_id_in first) (leased_row w1 until1) rows))
  returned-apart [] = refl
  returned-apart (r ∷ rest) = elim (Bool-cases (has_id_in second r)) [
    | inl hit ↦
        rw (apart r hit, hit, hit)
          (ap (λ rows. leased_row w2 until2 r ∷ rows) (returned-apart rest))
    | inr miss ↦ elim (Bool-cases (has_id_in first r)) [
      | inl one ↦ rw (one, miss, miss) (returned-apart rest)
      | inr two ↦ rw (two, miss, miss) (returned-apart rest)
    ]
  ]

-- Workers that lease at once, each passing over the rows that the other has locked, get what workers get
-- that lease one after the other from SQLite, if the second starts before the first one's lease ends. The
-- first lease is SQLite's; the second, on the rows as they were before the first committed, returns the
-- same rows, and the outbox is the same once both have committed.
pub lease_skipping-serial :
    (w1 w2 : WorkerId) (until1 until2 now1 now2 limit1 limit2 : ℕ) (rows : List OutboxRow)
    → now2 < until1
    → (lease_skipping w1 until1 now1 limit1 [] rows ≡ lease_rows w1 until1 now1 limit1 rows)
      × ((lease_skipping w2 until2 now2 limit2 (lock_ready now1 limit1 [] rows) rows).0
          ≡ (lease_rows w2 until2 now2 limit2 (lease_rows w1 until1 now1 limit1 rows).1).0)
      × (update_locked w1 until1
            (lock_ready now1 limit1 [] rows)
            (lease_skipping w2 until2 now2 limit2 (lock_ready now1 limit1 [] rows) rows).1
          ≡ (lease_rows w2 until2 now2 limit2 (lease_rows w1 until1 now1 limit1 rows).1).1)
unfolding lease_skipping lock_ready update_locked lease_rows
lease_skipping-serial w1 w2 until1 until2 now1 now2 limit1 limit2 rows later =
    rw
      (
        select-unheld now1 rows,
        select-leased (take limit1 (select_where (is_ready now1) rows)) now2 w1 until1 rows later,
      )
      (
        refl,
        returned-apart w1 w2 until1 until2 first second apart rows,
        update-swap w1 w2 until1 until2 first second apart rows,
      )
  where
    first : List OutboxRow
    first = take limit1 (select_where (is_ready now1) rows)

    second : List OutboxRow
    second = take limit2 (select_where (λ r. is_ready now2 r && not (has_id_in first r)) rows)

    apart : (r : OutboxRow) → has_id_in second r ≡ true → has_id_in first r ≡ false
    apart r =
        disjoint first second r
          (All-take (λ c. has_id_in first c ≡ false) limit2 _ (unheld first now2 rows))
