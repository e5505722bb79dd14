-- ===== src/Store/Outbox/Lease.antt =====
-- The statement LEASE of crates/store/src/sqlite.rs: whom it gives an op to, and when an op is given out.
use alertthread.Base.{
  ℕ, zero, suc, ◌+◌, ◌≤◌, String, ◌≡◌, refl, ap, subst, ◌∙◌, inl, inr, Bool, true, false, not, ◌&&◌,
  Option, none, some, List, [], ◌∷◌, arith, leb, ◌==◌, if◌then◌else◌, Bool-cases, length, take, any,
  All, All-imp,
}
use alertthread.Base.Table.{
  select_one, select_where, update_where, any-select_where, select_one-holds,
}
use alertthread.Core.Ids.{Fingerprint, ChannelId}
use alertthread.Store.Model.{OpId, WorkerId}
use alertthread.Store.Row.{OutboxRow}
use alertthread.Store.Sql.{
  is_ready, is_parked, has_id, has_id_in, leased_row, lease_rows, defer_rate_limited, defer_backoff,
  rate_limited_row, backoff_row,
}
use alertthread.Store.Tracked.{is_post_of, has_live_post}

pub All-take {ℓ κ} :
    {A : Type ℓ} (P : A → Type κ) (n : ℕ) (xs : List A) → All P xs → All P (take n xs)
All-take P zero xs h = tt
All-take P (suc n) [] h = tt
All-take P (suc n) (x ∷ xs) h = (h.0, All-take P n xs h.1)

pub disjoint :
    (first second : List OutboxRow) (r : OutboxRow)
    → All (λ c. has_id_in first c ≡ false) second
    → has_id_in second r ≡ true
    → has_id_in first r ≡ false
disjoint first [] r h e = cc
disjoint first (c ∷ rest) r h e = elim (Bool-cases (c.id == r.id)) [
  | inl same ↦ subst (λ n. any (λ d. d.id == n) first ≡ false) (ground arith) h.0
  | inr other ↦ disjoint first rest r h.1 (ground arith)
]

selected :
    (chosen rows : List OutboxRow) (r : OutboxRow)
    → has_id_in (select_where (has_id_in chosen) rows) r ≡ true
    → has_id_in chosen r ≡ true
selected chosen [] r e = cc
selected chosen (c ∷ rest) r e = elim (Bool-cases (has_id_in chosen c)) [
  | inl hit ↦ elim (Bool-cases (c.id == r.id)) [
    | inl same ↦ subst (λ n. any (λ d. d.id == n) chosen ≡ true) (ground arith) hit
    | inr other ↦ selected chosen rest r (ground arith)
  ]
  | inr miss ↦ selected chosen rest r (ground arith)
]

length-select_where :
    (q : OutboxRow → Bool) (rows : List OutboxRow) → length (select_where q rows) ≤ length rows
length-select_where q [] = omega arith
length-select_where q (r ∷ rest) = ground (arith, length-select_where q rest)

take_all {ℓ} : {A : Type ℓ} (n : ℕ) (xs : List A) → length xs ≤ n → take n xs ≡ xs
take_all zero [] h = refl
take_all zero (x ∷ xs) h = absurd (omega (arith, h))
take_all (suc n) [] h = refl
take_all (suc n) (x ∷ xs) h = ap (λ ys. x ∷ ys) (take_all n xs (omega (arith, h)))

module _ (q : OutboxRow → Bool) where
  grow :
      (r : OutboxRow) (rows : List OutboxRow) (x : OutboxRow)
      → has_id_in (select_where q rows) x ≡ true
      → has_id_in (select_where q (r ∷ rows)) x ≡ true
  grow r rows x h = ground arith

  -- Every row that passes is among the selected ones.
  chosen_self :
      (rows : List OutboxRow)
      → All (λ r. q r ≡ true → has_id_in (select_where q rows) r ≡ true) rows
  chosen_self [] = tt
  chosen_self (r ∷ rest) =
      (λ e. ground arith, All-imp _ _ rest (λ x h e. grow r rest x (h e)) (chosen_self rest))

any-All :
    (p s p' : OutboxRow → Bool) (f : OutboxRow → OutboxRow) (rows : List OutboxRow)
    → ((r : OutboxRow) → s r ≡ true → p r ≡ true → p' (if s r then f r else r) ≡ true)
    → All (λ r. p r ≡ true → s r ≡ true) rows
    → any p rows ≡ true
    → any p' (update_where s f rows) ≡ true
any-All p s p' f [] h k e = cc
any-All p s p' f (r ∷ rest) h k e = ground (arith, h r, k.0, any-All p s p' f rest h k.1)

-- Neither a backoff nor a lease holds the row back.
abbrev pub is_due : ℕ → OutboxRow → Bool
is_due now r =
    leb r.next_attempt_at now && (elim r.leased_until [ none ↦ true | some until ↦ leb until now ])

All-zip :
    (P Q R : OutboxRow → Type 0) (rows : List OutboxRow)
    → ((r : OutboxRow) → P r → Q r → R r)
    → All P rows
    → All Q rows
    → All R rows
All-zip P Q R [] f h k = tt
All-zip P Q R (r ∷ rest) f h k = (f r h.0 k.0, All-zip P Q R rest f h.1 k.1)

-- An alert's post that is in the queue is given out by a lease with room for every row, at a time when
-- no backoff and no lease holds a row back.
pub lease_rows-post :
    (worker : WorkerId) (until now limit : ℕ) (rows : List OutboxRow) (fp : Fingerprint)
    (chan : ChannelId)
    → All (λ r. is_due now r ≡ true) rows
    → length rows ≤ limit
    → has_live_post rows fp chan ≡ true
    → any (is_post_of fp chan) (lease_rows worker until now limit rows).0 ≡ true
unfolding lease_rows
lease_rows-post worker until now limit rows fp chan due room h =
    let ready = select_where (is_ready now) rows in
    let all : take limit ready ≡ ready =
      take_all limit ready (omega (arith, length-select_where (is_ready now) rows)) in
    rw all (
      any-select_where (is_post_of fp chan) (has_id_in ready)
        (update_where (has_id_in ready) (leased_row worker until) rows)
      ∙ any-All (λ r. is_post_of fp chan r && not (is_parked r)) (has_id_in ready)
          (λ r. has_id_in ready r && is_post_of fp chan r) (leased_row worker until) rows
          (λ r s e. rw s (ground arith))
          (All-zip _ _ _ rows (λ r d c e. c (ground arith)) due (chosen_self (is_ready now) rows))
          h)

select_one-update_where :
    (s q : OutboxRow → Bool) (f : OutboxRow → OutboxRow) (rows : List OutboxRow) (r : OutboxRow)
    → ((x : OutboxRow) → s (f x) ≡ s x)
    → select_one s rows ≡ some r
    → select_one s (update_where q f rows) ≡ some (if q r then f r else r)
select_one-update_where s q f [] r same e = cc
select_one-update_where s q f (x ∷ rest) r same e =
    ground (arith, same x, select_one-update_where s q f rest r same)

abbrev pub attempts_of : OpId → List OutboxRow → Option ℕ
attempts_of id rows = elim (select_one (has_id id) rows) [ none ↦ none | some r ↦ some r.attempts ]

-- A rate limit costs no attempt: an op that a lease gave out and that is deferred for a rate limit has the
-- attempts that it had before the lease, and one that is deferred for a failure has one more.
pub lease_rows-attempts :
    (worker : WorkerId) (until now limit next : ℕ) (error : String) (rows : List OutboxRow)
    (id : OpId) (r : OutboxRow)
    → select_one (has_id id) rows ≡ some r
    → has_id_in (lease_rows worker until now limit rows).0 r ≡ true
    → (attempts_of id (defer_rate_limited next id (lease_rows worker until now limit rows).1)
        ≡ some r.attempts)
      × (attempts_of id (defer_backoff next error id (lease_rows worker until now limit rows).1)
          ≡ some (r.attempts + 1))
unfolding lease_rows defer_rate_limited defer_backoff
lease_rows-attempts worker until now limit next error rows id r found given =
    let chosen = take limit (select_where (is_ready now) rows) in
    let after = update_where (has_id_in chosen) (leased_row worker until) rows in
    let hit : has_id_in chosen r ≡ true = selected chosen after r given in
    let leased =
      select_one-update_where (has_id id) (has_id_in chosen) (leased_row worker until) rows r
        (λ x. refl) found in
    let here : select_one (has_id id) after ≡ some (leased_row worker until r) =
      ground (arith, hit, leased) in
    let own = select_one-holds (has_id id) rows r found in
    let limited =
      select_one-update_where (has_id id) (has_id id) (rate_limited_row next) after
        (leased_row worker until r) (λ x. refl) here in
    let backed =
      select_one-update_where (has_id id) (has_id id) (backoff_row next error) after
        (leased_row worker until r) (λ x. refl) here in
    (ground (arith, own, limited), ground (arith, own, backed))
