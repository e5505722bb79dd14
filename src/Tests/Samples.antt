-- ===== src/Tests/Samples.antt =====
-- A sample of a store with two posts that wait, an update that waits and a parked post.
use alertthread.Base.{
  true, any, not, ◌&&◌, ◌⊎◌, ◌==◌, min, ◌^◌, ◌-◌, ◌/◌, ℕ, ◌≤◌, ◌≡◌, refl, false, Option, none, some,
  [], ◌∷◌, count_where, All,
}
use alertthread.Store.Payload.{OpKind}
use alertthread.Store.Model.{ok}
use alertthread.Store.Row.{known, undecodable, OutboxRow}
use alertthread.Store.Sql.{Db, is_parked}
use alertthread.Store.Stats.{name, outbox_depths, group_row, stats, publish, StoreStats}
use alertthread.Store.Stats.Shown.{waiting}
use alertthread.Store.Stats.Sampled.{stats-publish}

abbrev row : ℕ → OpKind → ℕ → Option ℕ → OutboxRow
row id kind created parked = record {
  id = id;
  op = known kind;
  channel = "C1";
  fingerprint = some "f1";
  group_key = none;
  payload = undecodable;
  attempts = 1;
  next_attempt_at = 0;
  leased_by = none;
  leased_until = none;
  last_error = none;
  created_at = created;
  dead_lettered_at = parked;
}

abbrev db : Db
db = record {
  alerts = [];
  groups = [];
  outbox = record {
    rows =
        row 1 OpKind.post 7000000 none
        ∷ row 2 OpKind.refresh 9000000 none
        ∷ row 3 OpKind.post 5000000 (some 6000000)
        ∷ row 4 OpKind.post 8000000 none
        ∷ [];
    last_id = 4;
  };
}

test_depths :
    outbox_depths db.outbox.rows
    ≡ record { op = known OpKind.post; count = 2; oldest = some 7000000 }
      ∷ record { op = known OpKind.refresh; count = 1; oldest = some 9000000 }
      ∷ []
unfolding outbox_depths group_row name
test_depths = refl

stats-publish_example :
    (s : StoreStats) × (stats db ≡ ok s)
    × ((kind : OpKind)
        → (publish s 10000000).outbox_depth kind
          ≡ min (count_where (waiting (name (known kind))) db.outbox.rows) (2 ^ 63 - 1))
    × All
        (λ r.
          is_parked r ≡ false
          → min ((10000000 - r.created_at) / 1_000_000) (2 ^ 31 - 1)
            ≤ (publish s 10000000).oldest_age)
        db.outbox.rows
    × (((publish s 10000000).oldest_age ≡ 0)
        ⊎ (any
              (λ r.
                not (is_parked r)
                && min ((10000000 - r.created_at) / 1_000_000) (2 ^ 31 - 1)
                  == (publish s 10000000).oldest_age)
              db.outbox.rows
            ≡ true))
stats-publish_example =
    stats-publish db 10000000 ((λ e. refl), ((λ e. refl), ((λ e. refl), ((λ e. refl), tt))))
