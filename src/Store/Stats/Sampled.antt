-- ===== src/Store/Stats/Sampled.antt =====
-- A sample of crates/app/src/metrics.rs: the depths and the age that the gauges show.
use alertthread.Base.Table.{any-imp}
use alertthread.Store.Stats.Oldest.{is_of, outbox_depths-oldest}
use alertthread.Base.{
  not, ◌&&◌, ◌⊎◌, ◌==◌, min, ◌^◌, ◌-◌, ◌/◌, ℕ, ◌≤◌, String, ◌≡◌, refl, ap, sym, subst, ◌∙◌, inl,
  inr, Bool, true, false, ◌||◌, Option, none, some, List, [], ◌∷◌, arith, leb, str_eq,
  if◌then◌else◌, Bool-cases, count_where, length, any, All, All-imp,
}
use alertthread.Store.Payload.{OpKind}
use alertthread.Store.Model.{ok}
use alertthread.Store.Row.{known, OutboxRow}
use alertthread.Store.Sql.{Db, is_parked}
use alertthread.Store.Stats.{
  Depth, name, earlier, group_row, outbox_depths, earliest, stats_of, stats, gauge, age_millis,
  publish, StoreStats, shown_age,
}
use alertthread.Store.Stats.Shown.{
  count_of, has_key, Holds, is_known, oldest_of, waiting, absent, count-outbox_depths,
  outbox_depths-Distinct, outbox_depths-AreKnown, read_depths-Holds,
}

-- The instant is no later than `at`.
abbrev covers : ℕ → Option ℕ → Bool
covers at none = false
covers at (some seen) = leb seen at

abbrev group_covers : ℕ → Depth → Bool
group_covers at d = covers at d.oldest

covers-earlier :
    (at new : ℕ) (seen : Option ℕ) → covers at seen ≡ true → leb (earlier seen new) at ≡ true
covers-earlier at new none h = cc
covers-earlier at new (some m) h = ground arith

earlier_self : (new : ℕ) (seen : Option ℕ) → leb (earlier seen new) new ≡ true
earlier_self new none = ground arith
earlier_self new (some m) = ground arith

group_row-covers :
    (r : OutboxRow) (ds : List Depth) → any (group_covers r.created_at) (group_row r ds) ≡ true
unfolding group_row
group_row-covers r [] = ground arith
group_row-covers r (d ∷ rest) = elim (Bool-cases (str_eq (name d.op) (name r.op))) [
  | inl hit ↦ rw (hit, earlier_self r.created_at d.oldest) refl
  | inr miss ↦ rw miss (ground (arith, group_row-covers r rest))
]

group_row-still :
    (at : ℕ) (r : OutboxRow) (ds : List Depth)
    → any (group_covers at) ds ≡ true
    → any (group_covers at) (group_row r ds) ≡ true
unfolding group_row
group_row-still at r [] h = cc
group_row-still at r (d ∷ rest) h = elim (Bool-cases (str_eq (name d.op) (name r.op))) [
  | inl hit ↦ rw hit (ground (arith, covers-earlier at r.created_at d.oldest))
  | inr miss ↦ rw miss (ground (arith, group_row-still at r rest))
]

-- Every row that waits is no older than its group says.
Covered : List OutboxRow → List Depth → Type 0
Covered rows ds = All (λ r. is_parked r ≡ false → any (group_covers r.created_at) ds ≡ true) rows

depths-parked :
    (r : OutboxRow) (rest : List OutboxRow)
    → is_parked r ≡ true
    → outbox_depths rest ≡ outbox_depths (r ∷ rest)
unfolding outbox_depths
depths-parked r rest parked = rw parked refl

depths-live :
    (r : OutboxRow) (rest : List OutboxRow)
    → is_parked r ≡ false
    → group_row r (outbox_depths rest) ≡ outbox_depths (r ∷ rest)
unfolding outbox_depths
depths-live r rest live = rw live refl

outbox_depths-Covered : (rows : List OutboxRow) → Covered rows (outbox_depths rows)
unfolding outbox_depths Covered
outbox_depths-Covered [] = tt
outbox_depths-Covered (r ∷ rest) = elim (Bool-cases (is_parked r)) [
  | inl parked ↦
      subst (Covered (r ∷ rest)) (depths-parked r rest parked)
        ((λ live. absurd (ground (arith, parked, live))), outbox_depths-Covered rest)
  | inr live ↦ subst (Covered (r ∷ rest)) (depths-live r rest live) (
    (λ e. group_row-covers r (outbox_depths rest)),
    All-imp _ _ rest (λ x h e. group_row-still x.created_at r (outbox_depths rest) (h e))
        (outbox_depths-Covered rest),
  )
]

covers-earliest :
    (at : ℕ) (seen new : Option ℕ)
    → (covers at seen || covers at new) ≡ true
    → covers at (earliest seen new) ≡ true
covers-earliest at seen none h = ground arith
covers-earliest at none (some m) h = ground arith
covers-earliest at (some n) (some m) h = ground arith

oldest_of-covers :
    (at : ℕ) (ds : List Depth) (oldest : Option ℕ)
    → (covers at oldest || any (group_covers at) ds) ≡ true
    → covers at (oldest_of ds oldest) ≡ true
oldest_of-covers at [] oldest h = ground arith
oldest_of-covers at (d ∷ rest) oldest h =
    oldest_of-covers at rest (earliest oldest d.oldest)
      (ground (arith, covers-earliest at oldest d.oldest))

age-le :
    (at now : ℕ) (oldest : Option ℕ)
    → covers at oldest ≡ true
    → age_millis at now ≤ shown_age oldest now
unfolding age_millis
age-le at now none h = cc
age-le at now (some m) h = ground arith

age-of :
    (rows : List OutboxRow) (now : ℕ) (oldest : Option ℕ)
    → is_of rows oldest ≡ true
    → (shown_age oldest now ≡ 0)
      ⊎ (any (λ r. not (is_parked r) && age_millis r.created_at now == shown_age oldest now) rows
          ≡ true)
unfolding shown_age
age-of rows now none h = inl refl
age-of rows now (some m) h = inr (any-imp _ _ rows (λ r e. same_age r m now e) h)
  where
    same_age :
        (r : OutboxRow) (m now : ℕ)
        → (not (is_parked r) && r.created_at == m) ≡ true
        → (not (is_parked r) && age_millis r.created_at now == age_millis m now) ≡ true
    same_age r m now e =
        let same : m ≡ r.created_at = ground arith in
        subst (λ n. (not (is_parked r) && age_millis r.created_at now == age_millis n now) ≡ true)
          (sym same) (ground arith)

counted :
    (key : String) (ds : List Depth)
    → (if has_key key ds then count_of key ds else 0) ≡ count_of key ds
counted key ds = elim (Bool-cases (has_key key ds)) [
  | inl there ↦ rw there refl
  | inr fresh ↦ rw fresh (sym (absent key ds fresh))
]

-- A sample succeeds if every row that waits has an op that the relay knows. The depth that is shown for
-- a kind is then the number of the rows that wait with an op of that kind, cut to the largest `i64`, also
-- if there are none. The age that is shown is the largest of those of the rows that wait, in milliseconds
-- and cut to the largest `i32`, and zero if none waits.
pub stats-publish :
    (db : Db) (now : ℕ)
    → All (λ r. is_parked r ≡ false → is_known r.op ≡ true) db.outbox.rows
    → (s : StoreStats) × (stats db ≡ ok s)
      × ((kind : OpKind)
          → (publish s now).outbox_depth kind
            ≡ min (count_where (waiting (name (known kind))) db.outbox.rows) (2 ^ 63 - 1))
      × All
          (λ r.
            is_parked r ≡ false
            → min ((now - r.created_at) / 1_000_000) (2 ^ 31 - 1) ≤ (publish s now).oldest_age)
          db.outbox.rows
      × (((publish s now).oldest_age ≡ 0)
          ⊎ (any
                (λ r.
                  not (is_parked r)
                  && min ((now - r.created_at) / 1_000_000) (2 ^ 31 - 1)
                    == (publish s now).oldest_age)
                db.outbox.rows
              ≡ true))
unfolding stats stats_of publish gauge age_millis Holds Covered
stats-publish db now ops =
    let rows = db.outbox.rows in
    let ds = outbox_depths rows in
    let (found, run, first, holds) =
      read_depths-Holds ds (λ kind. none) none (outbox_depths-AreKnown rows ops)
        (outbox_depths-Distinct rows) in
    (
      record {
        outbox_depth = found.0;
        dead_lettered = count_where is_parked rows;
        oldest_queued_at = found.1;
        tracked_fingerprints = length db.alerts;
      },
      rw run refl,
      (λ kind. ap gauge (
          holds kind
          ∙ (counted (name (known kind)) ds ∙ count-outbox_depths (name (known kind)) rows))),
      All-imp _ _ rows
          (λ r h live. age-le r.created_at now found.1 (
            subst (λ o. covers r.created_at o ≡ true) (sym first)
              (oldest_of-covers r.created_at ds none (h live))))
          (outbox_depths-Covered rows),
      age-of rows now found.1
          (subst (λ o. is_of rows o ≡ true) (sym first) (outbox_depths-oldest rows)),
    )
