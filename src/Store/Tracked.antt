-- ===== src/Store/Tracked.antt =====
-- The promise that the relay keeps for every alert (ADR 001, D2 and D9): an alert whose first message
-- is still to be posted has a post in the outbox that a worker can lease, and an alert that failed has
-- its post parked there. Here: what each statement of crates/store/src/sqlite.rs does to it.
pub mod Claims
pub mod Queue
pub mod Complete
pub mod Parking
pub mod Reviving
pub mod Revived
pub mod Delivery
use alertthread.Base.{
  ◌≡◌, Bool, true, false, not, ◌&&◌, List, arith, str_eq, opt_eq, any, All, All-imp,
}
use alertthread.Base.Table.{update_where, All-update_where}
use alertthread.Core.Ids.{Fingerprint, ChannelId}
use alertthread.Store.Model.{AlertState}
use alertthread.Store.Row.{known, unknown, AlertRow, OutboxRow}
use alertthread.Store.Sql.{Db, is_parked}
use alertthread.Store.Outbox.{is_post_kind}

-- The row is a post of the alert.
abbrev pub is_post_of : Fingerprint → ChannelId → OutboxRow → Bool
is_post_of fp chan r = is_post_kind r.op && opt_eq r.fingerprint fp && str_eq r.channel chan

abbrev pub has_live_post : List OutboxRow → Fingerprint → ChannelId → Bool
has_live_post rows fp chan = any (λ r. is_post_of fp chan r && not (is_parked r)) rows

abbrev pub has_parked_post : List OutboxRow → Fingerprint → ChannelId → Bool
has_parked_post rows fp chan = any (λ r. is_post_of fp chan r && is_parked r) rows

-- An alert's state asks for a live post, for a parked one, or for nothing.
abbrev pub is_backed :
    (Fingerprint → ChannelId → Bool) → (Fingerprint → ChannelId → Bool) → AlertRow → Bool
is_backed live parked a = elim a.state [
  | known s ↦ elim s [
    | AlertState.claimed ↦ live a.fingerprint a.channel
    | AlertState.failed ↦ parked a.fingerprint a.channel
    | _ ↦ true
  ]
  | unknown _ ↦ true
]

abbrev pub AllBacked :
    (Fingerprint → ChannelId → Bool) → (Fingerprint → ChannelId → Bool) → List AlertRow → Type 0
AllBacked live parked = All (λ a. is_backed live parked a ≡ true)

-- Every claimed alert has a live post and every failed one a parked post.
abbrev pub IsTracked : Db → Type 0
IsTracked db = AllBacked (has_live_post db.outbox.rows) (has_parked_post db.outbox.rows) db.alerts

-- The promise is kept where there are no fewer posts.
pub AllBacked-mono :
    (live parked live' parked' : Fingerprint → ChannelId → Bool) (alerts : List AlertRow)
    → ((fp : Fingerprint) (chan : ChannelId) → live fp chan ≡ true → live' fp chan ≡ true)
    → ((fp : Fingerprint) (chan : ChannelId) → parked fp chan ≡ true → parked' fp chan ≡ true)
    → AllBacked live parked alerts
    → AllBacked live' parked' alerts
AllBacked-mono live parked live' parked' alerts f g =
    All-imp _ _ alerts λ a h. ground (arith, f a.fingerprint a.channel, g a.fingerprint a.channel)

-- An update of alerts keeps the promise if it does so row by row.
pub AllBacked-update_where :
    (live parked live' parked' : Fingerprint → ChannelId → Bool) (alerts : List AlertRow)
    (q : AlertRow → Bool) (f : AlertRow → AlertRow)
    → AllBacked live parked alerts
    → ((a : AlertRow)
        → q a ≡ true
        → is_backed live parked a ≡ true
        → is_backed live' parked' (f a) ≡ true)
    → ((a : AlertRow)
        → q a ≡ false
        → is_backed live parked a ≡ true
        → is_backed live' parked' a ≡ true)
    → AllBacked live' parked' (update_where q f alerts)
AllBacked-update_where live parked live' parked' alerts q f h hit miss =
    All-update_where (λ a. is_backed live parked a ≡ true) (λ a. is_backed live' parked' a ≡ true) q
      f alerts hit miss h
