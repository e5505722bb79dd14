-- ===== src/Store/Tracked/Reviving.antt =====
-- `revive_dead_letters` of crates/store/src/sqlite.rs and the promise of Store/Tracked.antt: the posts
-- of the scope go back to the queue, and with them the alerts that had failed.
use alertthread.Base.{
  ℕ, ◌≡◌, refl, sym, ◌∙◌, Bool, true, false, ◌&&◌, Option, none, some, List, [], ◌∷◌, arith, eq_iff,
  str_eq, if◌then◌else◌, any, All, All-imp,
}
use alertthread.Base.Table.{
  select_where, update_where, All-update_where, any-update_where_mono, any-update_where_to,
  any-update_where_unless, any-select_where,
}
use alertthread.Core.Ids.{Fingerprint, ChannelId}
use alertthread.Store.Model.{AlertState, DeadLetterScope}
use alertthread.Store.Row.{known, unknown, AlertRow, OutboxRow, stamp}
use alertthread.Store.Sql.{
  Db, is_alert, is_alert?, is_parked, is_failed, in_scope, revive_rows, revived_row,
  unmark_alert_failed, unfailed_row,
}
use alertthread.Store.Outbox.{unmark_all, revive_dead_letters}
use alertthread.Store.Tracked.{is_post_of, has_live_post, has_parked_post, AllBacked, IsTracked}

-- One of the rows has the alert as its subject.
abbrev pub names : List OutboxRow → AlertRow → Bool
names rows a = any (λ r. is_alert? r.fingerprint r.channel a) rows

module _ (live parked : Fingerprint → ChannelId → Bool) where
  -- What an alert needs if the alerts that the rows name are still to be unmarked.
  abbrev is_pending : List OutboxRow → AlertRow → Bool
  is_pending rows a = elim a.state [
    | known s ↦ elim s [
      | AlertState.claimed ↦ live a.fingerprint a.channel
      | AlertState.failed ↦
          if names rows a then live a.fingerprint a.channel else parked a.fingerprint a.channel
      | _ ↦ true
    ]
    | unknown _ ↦ true
  ]

  unmark_one :
      (r : OutboxRow) (rest : List OutboxRow) (f : Option Fingerprint) (alerts : List AlertRow)
      → r.fingerprint ≡ f
      → All (λ a. is_pending (r ∷ rest) a ≡ true) alerts
      → All
          (λ a. is_pending rest a ≡ true)
          (elim f [ none ↦ alerts | some fp ↦ unmark_alert_failed fp r.channel alerts ])
  unfolding unmark_alert_failed
  unmark_one r rest none alerts e h = All-imp _ _ alerts (λ a p. ground arith) h
  unmark_one r rest (some fp) alerts e h =
      All-update_where (λ a. is_pending (r ∷ rest) a ≡ true) (λ a. is_pending rest a ≡ true)
        (λ x. is_alert fp r.channel x && is_failed x.state) unfailed_row alerts
        (λ a hit p. ground arith) (λ a miss p. ground arith) h

  unmark_all-AllBacked :
      (rows : List OutboxRow) (alerts : List AlertRow)
      → All (λ a. is_pending rows a ≡ true) alerts
      → AllBacked live parked (unmark_all rows alerts)
  unfolding unmark_all
  unmark_all-AllBacked [] alerts h = All-imp _ _ alerts (λ a p. ground arith) h
  unmark_all-AllBacked (r ∷ rest) alerts h =
      unmark_all-AllBacked rest _ (unmark_one r rest r.fingerprint alerts refl h)

-- The scope takes in the alert's ops.
abbrev takes_in : DeadLetterScope → AlertRow → Bool
takes_in scope a =
    (elim scope.channel [ none ↦ true | some c ↦ str_eq a.channel c ])
    && (elim scope.fingerprint [ none ↦ true | some f ↦ str_eq a.fingerprint f ])

module _ (scope : DeadLetterScope) (now : ℕ) (a : AlertRow) where
  in_scope_iff :
      (r : OutboxRow)
      → is_alert? r.fingerprint r.channel a ≡ true
      → in_scope scope r ≡ (is_parked r && takes_in scope a)
  in_scope_iff r h = go r.fingerprint refl
    where
      go :
          (f : Option Fingerprint)
          → r.fingerprint ≡ f
          → in_scope scope r ≡ (is_parked r && takes_in scope a)
      go none e = absurd (ground arith)
      go (some fp) e =
          let same_fp : a.fingerprint ≡ fp = ground (arith, eq_iff a.fingerprint fp) in
          let same_chan : a.channel ≡ r.channel = ground (arith, eq_iff a.channel r.channel) in
          ground arith

  post_names :
      (r : OutboxRow)
      → is_post_of a.fingerprint a.channel r ≡ true
      → is_alert? r.fingerprint r.channel a ≡ true
  post_names r h = go r.fingerprint refl
    where
      go : (f : Option Fingerprint) → r.fingerprint ≡ f → is_alert? r.fingerprint r.channel a ≡ true
      go none e = absurd (ground arith)
      go (some fp) e = ground (
        arith,
        eq_iff fp a.fingerprint,
        eq_iff a.fingerprint fp,
        eq_iff r.channel a.channel,
        eq_iff a.channel r.channel,
      )

  revived_one :
      (r : OutboxRow)
      → takes_in scope a ≡ true
      → is_post_of a.fingerprint a.channel r ≡ true
      → is_parked r ≡ true
      → in_scope scope r ≡ true
  revived_one r t p k = ground (arith, in_scope_iff r (post_names r p))

  names_scope :
      (rows : List OutboxRow)
      → names (select_where (in_scope scope) rows) a ≡ true
      → takes_in scope a ≡ true
  names_scope [] h = cc
  names_scope (r ∷ rest) h = ground (arith, in_scope_iff r, names_scope rest)

  -- Parked posts of the alert go back to the queue if the scope takes the alert in.
  revived_live :
      (rows : List OutboxRow)
      → takes_in scope a ≡ true
      → has_parked_post rows a.fingerprint a.channel ≡ true
      → has_live_post (update_where (in_scope scope) (revived_row now) rows) a.fingerprint a.channel
        ≡ true
  revived_live rows t h =
      any-update_where_to _ _ (in_scope scope) (revived_row now) rows
        (λ r e. rw (revived_one r t (ground arith) (ground arith)) (ground arith)) h

  -- Otherwise they stay.
  out_of_scope :
      (r : OutboxRow)
      → (in_scope scope r && is_alert? r.fingerprint r.channel a) ≡ false
      → (is_post_of a.fingerprint a.channel r && is_parked r) ≡ true
      → in_scope scope r ≡ false
  out_of_scope r n h = ground (arith, post_names r)

  still_parked :
      (rows : List OutboxRow)
      → names (select_where (in_scope scope) rows) a ≡ false
      → has_parked_post rows a.fingerprint a.channel ≡ true
      → has_parked_post
          (update_where (in_scope scope) (revived_row now) rows)
          a.fingerprint
          a.channel
        ≡ true
  still_parked rows t h =
      any-update_where_unless _ _ _ (in_scope scope) (revived_row now) rows
        (λ r n e. rw (out_of_scope r n e) e)
        (sym (any-select_where (λ r. is_alert? r.fingerprint r.channel a) (in_scope scope) rows)
          ∙ t)
        h

-- A row that stays in the queue when others are revived.
still_live :
    (scope : DeadLetterScope) (now : ℕ) (fp : Fingerprint) (chan : ChannelId)
    (rows : List OutboxRow)
    → has_live_post rows fp chan ≡ true
    → has_live_post (update_where (in_scope scope) (revived_row now) rows) fp chan ≡ true
still_live scope now fp chan rows h =
    any-update_where_mono _ (in_scope scope) (revived_row now) rows (λ r e. ground arith) h

-- Reviving dead letters keeps the promise.
pub revive_dead_letters-IsTracked :
    (scope : DeadLetterScope) (at : ℕ) (db : Db)
    → IsTracked db
    → IsTracked (revive_dead_letters scope at db).1
unfolding revive_dead_letters revive_rows
revive_dead_letters-IsTracked scope at db h =
    let rows = db.outbox.rows in
    let after = update_where (in_scope scope) (revived_row (stamp at)) rows in
    unmark_all-AllBacked (has_live_post after) (has_parked_post after)
      (select_where (in_scope scope) rows) db.alerts
      (All-imp _ _ db.alerts
        (λ a e. ground (
          arith,
          still_live scope (stamp at) a.fingerprint a.channel rows,
          revived_live scope (stamp at) a rows,
          still_parked scope (stamp at) a rows,
          names_scope scope (stamp at) a rows,
        ))
        h)
