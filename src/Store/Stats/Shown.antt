-- ===== src/Store/Stats/Shown.antt =====
-- What the gauges of crates/app/src/metrics.rs show of the outbox.
use alertthread.Base.{
  ℕ, ◌+◌, String, ◌≡◌, refl, ap, sym, subst, ◌∙◌, inl, inr, Bool, true, false, not, ◌&&◌, ◌||◌,
  Option, List, [], ◌∷◌, arith, str_eq, eq_iff, if◌then◌else◌, Bool-cases, count_where, any, All,
}
use alertthread.Store.Payload.{OpKind}
use alertthread.Store.Model.{ok}
use alertthread.Store.Row.{Named, known, unknown, OutboxRow}
use alertthread.Store.Sql.{is_parked}
use alertthread.Store.Stats.{
  Depth, name, group_row, outbox_depths, insert_depth, earliest, read_depths, or_zero,
}

abbrev pub count_of : String → List Depth → ℕ
count_of key [] = 0
count_of key (d ∷ rest) = if str_eq (name d.op) key then d.count else count_of key rest

abbrev pub has_key : String → List Depth → Bool
has_key key ds = any (λ d. str_eq (name d.op) key) ds

-- No two groups are of one op.
unfoldable pub Distinct : List Depth → Type 0
Distinct [] = Unit
Distinct (d ∷ rest) = (has_key (name d.op) rest ≡ false) × Distinct rest

same : (a b c : String) → str_eq a b ≡ true → str_eq a c ≡ str_eq b c
same a b c e = ap (λ x. str_eq x c) ((eq_iff a b).0 e)

swap : (a b : String) → str_eq a b ≡ str_eq b a
swap a b = ground (arith, eq_iff a b, eq_iff b a, (λ (e : a ≡ b). sym e), (λ (e : b ≡ a). sym e))

module _ (key : String) where
  count-group_row :
      (r : OutboxRow) (ds : List Depth)
      → count_of key (group_row r ds) ≡ (if str_eq (name r.op) key then 1 else 0) + count_of key ds
  unfolding group_row
  count-group_row r [] = ground arith
  count-group_row r (d ∷ rest) = elim (Bool-cases (str_eq (name d.op) (name r.op))) [
    | inl hit ↦ rw (hit, same _ _ key hit) (ground arith)
    | inr miss ↦ rw miss (elim (Bool-cases (str_eq (name d.op) key)) [
      | inl own ↦
          rw (own, sym (swap key (name r.op)), sym (same _ _ (name r.op) own), miss) (ground arith)
      | inr other ↦ rw other (count-group_row r rest)
    ])
  ]

  has-group_row :
      (r : OutboxRow) (ds : List Depth)
      → has_key key (group_row r ds) ≡ (str_eq (name r.op) key || has_key key ds)
  unfolding group_row
  has-group_row r [] = ground arith
  has-group_row r (d ∷ rest) = elim (Bool-cases (str_eq (name d.op) (name r.op))) [
    | inl hit ↦ rw (hit, same _ _ key hit) (ground arith)
    | inr miss ↦ rw miss (ground (arith, has-group_row r rest))
  ]

  -- The rows that wait with this text as their op.
  abbrev pub waiting : OutboxRow → Bool
  waiting r = not (is_parked r) && str_eq (name r.op) key

  pub count-outbox_depths :
      (rows : List OutboxRow) → count_of key (outbox_depths rows) ≡ count_where waiting rows
  unfolding outbox_depths
  count-outbox_depths [] = refl
  count-outbox_depths (r ∷ rest) = elim (Bool-cases (is_parked r)) [
    | inl parked ↦ rw parked (ground (arith, count-outbox_depths rest))
    | inr live ↦
        rw (live, count-group_row r (outbox_depths rest)) (ground (arith, count-outbox_depths rest))
  ]

group_row-Distinct : (r : OutboxRow) (ds : List Depth) → Distinct ds → Distinct (group_row r ds)
unfolding group_row Distinct
group_row-Distinct r [] h = (refl, tt)
group_row-Distinct r (d ∷ rest) h = elim (Bool-cases (str_eq (name d.op) (name r.op))) [
  | inl hit ↦ rw hit h
  | inr miss ↦ rw miss (
    has-group_row (name d.op) r rest ∙ rw (swap (name r.op) (name d.op), miss) h.0,
    group_row-Distinct r rest h.1,
  )
]

pub outbox_depths-Distinct : (rows : List OutboxRow) → Distinct (outbox_depths rows)
unfolding outbox_depths Distinct
outbox_depths-Distinct [] = tt
outbox_depths-Distinct (r ∷ rest) = elim (Bool-cases (is_parked r)) [
  | inl parked ↦ rw parked (outbox_depths-Distinct rest)
  | inr live ↦ rw live (group_row-Distinct r (outbox_depths rest) (outbox_depths-Distinct rest))
]

abbrev pub is_known : Named OpKind → Bool
is_known (known kind) = true
is_known (unknown raw) = false

known-cases : (op : Named OpKind) → is_known op ≡ true → (kind : OpKind) × (op ≡ known kind)
known-cases (known kind) h = (kind, refl)
known-cases (unknown raw) h = cc

unfoldable pub AreKnown : List Depth → Type 0
AreKnown ds = All (λ d. is_known d.op ≡ true) ds

group_row-AreKnown :
    (r : OutboxRow) (ds : List Depth)
    → is_known r.op ≡ true
    → AreKnown ds
    → AreKnown (group_row r ds)
unfolding group_row AreKnown
group_row-AreKnown r [] e h = (e, tt)
group_row-AreKnown r (d ∷ rest) e h = elim (Bool-cases (str_eq (name d.op) (name r.op))) [
  | inl hit ↦ rw hit h
  | inr miss ↦ rw miss (h.0, group_row-AreKnown r rest e h.1)
]

pub outbox_depths-AreKnown :
    (rows : List OutboxRow)
    → All (λ r. is_parked r ≡ false → is_known r.op ≡ true) rows
    → AreKnown (outbox_depths rows)
unfolding outbox_depths AreKnown
outbox_depths-AreKnown [] h = tt
outbox_depths-AreKnown (r ∷ rest) h = elim (Bool-cases (is_parked r)) [
  | inl parked ↦ rw parked (outbox_depths-AreKnown rest h.1)
  | inr live ↦
      rw live
        (group_row-AreKnown r (outbox_depths rest) (h.0 live) (outbox_depths-AreKnown rest h.1))
]

pub absent : (key : String) (ds : List Depth) → has_key key ds ≡ false → count_of key ds ≡ 0
absent key [] h = refl
absent key (d ∷ rest) h = ground (arith, absent key rest)

-- The map that the loop makes from groups of different ops holds the count of each.
unfoldable pub Holds : List Depth → (OpKind → Option ℕ) → (OpKind → Option ℕ) → Type 0
Holds ds before depths =
    (kind : OpKind)
    → or_zero (depths kind) ≡ (
        if has_key (name (known kind)) ds
        then count_of (name (known kind)) ds
        else or_zero (before kind))

step-Holds :
    (d : Depth) (kind : OpKind) (rest : List Depth) (before depths : OpKind → Option ℕ)
    → d.op ≡ known kind
    → has_key (name d.op) rest ≡ false
    → Holds rest (insert_depth kind d.count before) depths
    → Holds (d ∷ rest) before depths
unfolding Holds
step-Holds d kind rest before depths e fresh h other =
    h other
    ∙ subst
        (λ op.
          has_key (name op) rest ≡ false
          → (if has_key (name (known other)) rest
              then count_of (name (known other)) rest
              else or_zero (insert_depth kind d.count before other))
            ≡ (if str_eq (name op) (name (known other)) || has_key (name (known other)) rest
                then if str_eq (name op) (name (known other))
                  then d.count
                  else count_of (name (known other)) rest
                else or_zero (before other)))
        (sym e)
        (λ new. elim (Bool-cases (str_eq (name (known kind)) (name (known other)))) [
          | inl hit ↦ rw (hit, ap (λ k. has_key k rest) (sym ((eq_iff _ _).0 hit)) ∙ new) refl
          | inr miss ↦ rw miss refl
        ])
        fresh

-- The earliest of the instants of the groups.
abbrev pub oldest_of : List Depth → Option ℕ → Option ℕ
oldest_of [] oldest = oldest
oldest_of (d ∷ rest) oldest = oldest_of rest (earliest oldest d.oldest)

pub read_depths-Holds :
    (ds : List Depth) (before : OpKind → Option ℕ) (oldest : Option ℕ)
    → AreKnown ds
    → Distinct ds
    → (found : (OpKind → Option ℕ) × Option ℕ) × (read_depths ds before oldest ≡ ok found)
      × (found.1 ≡ oldest_of ds oldest)
      × Holds ds before found.0
unfolding read_depths AreKnown Distinct Holds
read_depths-Holds [] before oldest k h = ((before, oldest), refl, refl, λ kind. refl)
read_depths-Holds (d ∷ rest) before oldest k h =
    let (kind, e) = known-cases d.op k.0 in
    let (found, run, first, holds) =
      read_depths-Holds rest (insert_depth kind d.count before) (earliest oldest d.oldest) k.1
        h.1 in
    (found, rw e run, first, step-Holds d kind rest before found.0 e h.0 holds)
