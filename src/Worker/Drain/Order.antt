-- ===== src/Worker/Drain/Order.antt =====
-- The order in which crates/app/src/worker.rs delivers what it has leased.
use mathlib.Core.List.{append_assoc, append-nil}
use alertthread.Base.{
  ℕ, ◌≡◌, refl, sym, ap, subst, ◌∙◌, inl, inr, Bool, true, false, Option, none, some, List, [], ◌∷◌,
  ◌++◌, arith, eq_iff, eq_refl, str_eq, if◌then◌else◌, Bool-cases, All, All-append,
}
use alertthread.Base.Table.{select_where}
use alertthread.Core.Ids.{ChannelId}
use alertthread.Store.Payload.{channel_of}
use alertthread.Store.Model.{LeasedOp}
use alertthread.Store.Sql.{Db}
use alertthread.Worker.{Pass}
use alertthread.Worker.Delivery.{World}
use alertthread.Worker.Drain.{
  Queues, enter, by_channel, here, there, next_of, drain_one, Drains, stop, turn, is_drained,
}

abbrev pub is_in : ChannelId → LeasedOp → Bool
is_in chan op = str_eq (channel_of op.op) chan

-- The queue of a channel.
abbrev pending : ChannelId → Queues → List LeasedOp
pending chan [] = []
pending chan ((c, ops) ∷ rest) = if str_eq c chan then ops else pending chan rest

-- An op, if it is the channel's.
abbrev alone : ChannelId → LeasedOp → List LeasedOp
alone chan op = if is_in chan op then op ∷ [] else []

pending-enter :
    (chan : ChannelId) (op : LeasedOp) (queues : Queues)
    → pending chan (enter op queues) ≡ pending chan queues ++ alone chan op
unfolding enter
pending-enter chan op [] = ground arith
pending-enter chan op ((c, ops) ∷ rest) = ground (
  arith,
  pending-enter chan op rest,
  eq_iff c (channel_of op.op),
  eq_iff c chan,
  eq_iff (channel_of op.op) chan,
  append-nil ops,
  append-nil (pending chan rest),
)

append-alone :
    (b : Bool) (op : LeasedOp) (xs ys : List LeasedOp)
    → (xs ++ (if b then op ∷ [] else [])) ++ ys ≡ xs ++ (if b then op ∷ ys else ys)
append-alone true op xs ys = append_assoc xs (op ∷ []) ys
append-alone false op xs ys = ap (λ l. l ++ ys) (append-nil xs)

-- Grouping by channel keeps the order of each channel's ops.
pending-by_channel :
    (chan : ChannelId) (ops : List LeasedOp) (queues : Queues)
    → pending chan (by_channel ops queues) ≡ pending chan queues ++ select_where (is_in chan) ops
unfolding by_channel
pending-by_channel chan [] queues = sym (append-nil (pending chan queues))
pending-by_channel chan (op ∷ rest) queues =
    pending-by_channel chan rest (enter op queues)
    ∙ ap (λ l. l ++ select_where (is_in chan) rest) (pending-enter chan op queues)
    ∙ append-alone (is_in chan op) op (pending chan queues) (select_where (is_in chan) rest)

-- Each queue holds ops of its channel alone.
abbrev Labelled : Queues → Type 0
Labelled queues = All (λ q. All (λ op. is_in q.0 op ≡ true) q.1) queues

-- What a turn takes is the first op of its channel.
abbrev Takes : ChannelId → ChannelId → Queues → Option (LeasedOp × Queues) → Type 0
Takes chan c queues none = Unit
Takes chan c queues (some n) =
    (is_in c n.0 ≡ true) × (pending chan queues ≡ alone chan n.0 ++ pending chan n.1) × Labelled n.1

here-Takes :
    (chan c d : ChannelId) (ops : List LeasedOp) (rest : Queues)
    → str_eq d c ≡ true
    → Labelled ((d, ops) ∷ rest)
    → Takes chan c ((d, ops) ∷ rest) (here d ops rest)
here-Takes chan c d [] rest e h = tt
here-Takes chan c d (op ∷ behind) rest e h = (
  ground (arith, h.0.0, eq_iff d c, eq_iff (channel_of op.op) d, eq_iff (channel_of op.op) c),
  ground (arith, h.0.0, eq_iff (channel_of op.op) d, eq_iff (channel_of op.op) chan, eq_iff d chan),
  (h.0.1, h.1),
)

there-Takes :
    (chan c d : ChannelId) (ops : List LeasedOp) (rest : Queues) (n : Option (LeasedOp × Queues))
    → str_eq d c ≡ false
    → Labelled ((d, ops) ∷ rest)
    → Takes chan c rest n
    → Takes chan c ((d, ops) ∷ rest) (there d ops n)
there-Takes chan c d ops rest none e h t = tt
there-Takes chan c d ops rest (some (op, queues')) e h t = (
  t.0,
  ground (
    arith,
    t.0,
    t.1,
    eq_iff d c,
    eq_iff d chan,
    eq_iff (channel_of op.op) c,
    eq_iff (channel_of op.op) chan,
  ),
  (h.0, t.2),
)

next_of-Takes :
    (chan c : ChannelId) (queues : Queues)
    → Labelled queues
    → Takes chan c queues (next_of c queues)
unfolding next_of
next_of-Takes chan c [] h = tt
next_of-Takes chan c ((d, ops) ∷ rest) h = elim (Bool-cases (str_eq d c)) [
  | inl e ↦ rw e (here-Takes chan c d ops rest e h)
  | inr e ↦
      rw e (there-Takes chan c d ops rest (next_of c rest) e h (next_of-Takes chan c rest h.1))
]

enter-Labelled : (op : LeasedOp) (queues : Queues) → Labelled queues → Labelled (enter op queues)
unfolding enter
enter-Labelled op [] h = ((eq_refl (channel_of op.op), tt), tt)
enter-Labelled op ((c, ops) ∷ rest) h = elim (Bool-cases (str_eq c (channel_of op.op))) [
  | inl e ↦ rw e (
    All-append (λ o. is_in c o ≡ true) ops (op ∷ []) h.0
        (ground (arith, eq_iff c (channel_of op.op), eq_iff (channel_of op.op) c), tt),
    h.1,
  )
  | inr e ↦ rw e (h.0, enter-Labelled op rest h.1)
]

by_channel-Labelled :
    (ops : List LeasedOp) (queues : Queues) → Labelled queues → Labelled (by_channel ops queues)
unfolding by_channel
by_channel-Labelled [] queues h = h
by_channel-Labelled (op ∷ rest) queues h =
    by_channel-Labelled rest (enter op queues) (enter-Labelled op queues h)

alone-append :
    (b : Bool) (op : LeasedOp) (xs ys : List LeasedOp)
    → (if b then op ∷ [] else []) ++ (xs ++ ys) ≡ (if b then op ∷ xs else xs) ++ ys
alone-append true op xs ys = refl
alone-append false op xs ys = refl

pending-drained :
    (chan : ChannelId) (queues : Queues) → is_drained queues ≡ true → pending chan queues ≡ []
pending-drained chan [] h = refl
pending-drained chan ((c, []) ∷ rest) h = ground (arith, pending-drained chan rest)
pending-drained chan ((c, op ∷ ops) ∷ rest) h = cc

module _ {Body : Type 0} (world : LeasedOp → World Body) (now : ℕ) where
  Drains-pending :
      (chan : ChannelId) (queues : Queues) (p : Pass × Db) (order : List LeasedOp) (last : Queues)
      (final : Pass × Db)
      → Drains world now queues p order last final
      → Labelled queues
      → pending chan queues ≡ select_where (is_in chan) order ++ pending chan last
  Drains-pending chan queues p order last final (stop q p') h = refl
  Drains-pending chan queues p order last final (turn c op q q' p' order' l f e d) h =
      let t = subst (Takes chan c q) e (next_of-Takes chan c q h) in
      t.1
      ∙ ap (λ l. alone chan op ++ l)
          (Drains-pending chan q' (drain_one world now op p') order' l f d t.2)
      ∙ alone-append (is_in chan op) op (select_where (is_in chan) order') (pending chan l)

  -- However the channels take turns, once nothing is left each channel's ops have been delivered each once
  -- and in the order in which they were leased.
  pub Drains-order :
      (ops order : List LeasedOp) (p final : Pass × Db) (last : Queues)
      → Drains world now (by_channel ops []) p order last final
      → is_drained last ≡ true
      → (chan : ChannelId) → select_where (is_in chan) order ≡ select_where (is_in chan) ops
  Drains-order ops order p final last d e chan =
      sym (append-nil (select_where (is_in chan) order))
      ∙ ap (λ l. select_where (is_in chan) order ++ l) (sym (pending-drained chan last e))
      ∙ sym (
          Drains-pending chan (by_channel ops []) p order last final d
            (by_channel-Labelled ops [] tt))
      ∙ pending-by_channel chan ops []
