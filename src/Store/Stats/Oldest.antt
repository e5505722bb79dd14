-- ===== src/Store/Stats/Oldest.antt =====
-- The instant that `stats` of crates/store/src/row.rs takes for the oldest is that of a row that waits.
use alertthread.Base.{
  ℕ, ◌≡◌, refl, subst, inl, inr, Bool, true, false, not, ◌&&◌, Option, none, some, List, [], ◌∷◌,
  arith, leb, ◌==◌, str_eq, Bool-cases, any, All, All-imp,
}
use alertthread.Store.Row.{OutboxRow}
use alertthread.Store.Sql.{is_parked}
use alertthread.Store.Stats.{Depth, name, earlier, group_row, outbox_depths, earliest}
use alertthread.Store.Stats.Shown.{oldest_of}

-- A row that waits was queued at the instant, if there is one.
abbrev pub is_of : List OutboxRow → Option ℕ → Bool
is_of rows none = true
is_of rows (some at) = any (λ r. not (is_parked r) && r.created_at == at) rows

AreOf : List OutboxRow → List Depth → Type 0
AreOf rows ds = All (λ d. is_of rows d.oldest ≡ true) ds

is_of-earlier :
    (rows : List OutboxRow) (seen : Option ℕ) (new : ℕ)
    → is_of rows seen ≡ true
    → is_of rows (some new) ≡ true
    → is_of rows (some (earlier seen new)) ≡ true
is_of-earlier rows none new h k = k
is_of-earlier rows (some m) new h k = elim (Bool-cases (leb m new)) [
  | inl e ↦ subst (λ n. is_of rows (some n) ≡ true) (ground arith) h
  | inr e ↦ subst (λ n. is_of rows (some n) ≡ true) (ground arith) k
]

is_of-more :
    (r : OutboxRow) (rest : List OutboxRow) (o : Option ℕ)
    → is_of rest o ≡ true
    → is_of (r ∷ rest) o ≡ true
is_of-more r rest none h = refl
is_of-more r rest (some at) h = ground arith

group_row-AreOf :
    (rows : List OutboxRow) (r : OutboxRow) (ds : List Depth)
    → is_of rows (some r.created_at) ≡ true
    → AreOf rows ds
    → AreOf rows (group_row r ds)
unfolding group_row AreOf
group_row-AreOf rows r [] e h = (e, tt)
group_row-AreOf rows r (d ∷ rest) e h = elim (Bool-cases (str_eq (name d.op) (name r.op))) [
  | inl hit ↦ rw hit (is_of-earlier rows d.oldest r.created_at h.0 e, h.1)
  | inr miss ↦ rw miss (h.0, group_row-AreOf rows r rest e h.1)
]

is_of_head :
    (r : OutboxRow) (rest : List OutboxRow)
    → is_parked r ≡ false
    → is_of (r ∷ rest) (some r.created_at) ≡ true
is_of_head r rest live = ground arith

outbox_depths-AreOf : (rows : List OutboxRow) → AreOf rows (outbox_depths rows)
unfolding outbox_depths AreOf
outbox_depths-AreOf [] = tt
outbox_depths-AreOf (r ∷ rest) =
    let others =
      All-imp _ _ (outbox_depths rest) (λ d. is_of-more r rest d.oldest)
        (outbox_depths-AreOf rest) in
    elim (Bool-cases (is_parked r)) [
      | inl parked ↦ subst (AreOf (r ∷ rest)) {x = outbox_depths rest} (rw parked refl) others
      | inr live ↦
          subst (AreOf (r ∷ rest)) {x = group_row r (outbox_depths rest)} (rw live refl)
            (group_row-AreOf (r ∷ rest) r (outbox_depths rest) (is_of_head r rest live) others)
    ]

is_of-earliest :
    (rows : List OutboxRow) (seen new : Option ℕ)
    → is_of rows seen ≡ true
    → is_of rows new ≡ true
    → is_of rows (earliest seen new) ≡ true
is_of-earliest rows seen none h k = h
is_of-earliest rows seen (some at) h k = is_of-earlier rows seen at h k

oldest_of-is_of :
    (rows : List OutboxRow) (ds : List Depth) (o : Option ℕ)
    → is_of rows o ≡ true
    → AreOf rows ds
    → is_of rows (oldest_of ds o) ≡ true
unfolding AreOf
oldest_of-is_of rows [] o h k = h
oldest_of-is_of rows (d ∷ rest) o h k =
    oldest_of-is_of rows rest (earliest o d.oldest) (is_of-earliest rows o d.oldest h k.0) k.1

pub outbox_depths-oldest :
    (rows : List OutboxRow) → is_of rows (oldest_of (outbox_depths rows) none) ≡ true
outbox_depths-oldest rows =
    oldest_of-is_of rows (outbox_depths rows) none refl (outbox_depths-AreOf rows)
