-- ===== src/Server/Cli/Dry.antt =====
-- When a replay of crates/app/src/cli.rs commits.
use alertthread.Base.{
  String, ◌≡◌, refl, sym, subst, ◌∙◌, ◌⊎◌, inl, inr, true, ◌||◌, List, [], ◌∷◌, arith, eq_iff,
  str_eq, Bool-cases,
}
use alertthread.Server.Cli.{
  Replay, Command, replay, serve, version, help, Outcome, fine, wrong, no_replay, set, and_then,
  Flag, channel_flag, fingerprint_flag, config_flag, flag_name, slot_of, fill, store, Argument,
  asks_help, commits, takes, other, argument, last_arg, next_arg, read_args, is_among, serve_with,
  parse_serve, parse_command, parse,
}

-- A replay that commits, if it had not before.
abbrev Asked : List String → Replay → Outcome Command → Type 0
Asked args r (fine (replay r')) =
    r'.commit ≡ true → (r.commit ≡ true) ⊎ (is_among args "--commit" ≡ true)
Asked args r _ = Unit

argument-commits : (arg : String) → argument arg ≡ commits → arg ≡ "--commit"
unfolding argument
argument-commits arg e = ground (arith, eq_iff arg "--commit")

among_head :
    (arg : String) (rest : List String) → arg ≡ "--commit" → is_among (arg ∷ rest) "--commit" ≡ true
among_head arg rest e = ground (arith, eq_iff arg "--commit")

fill-commit : (flag : Flag) (r : Replay) (value : String) → (fill flag r value).commit ≡ r.commit
fill-commit channel_flag r value = refl
fill-commit fingerprint_flag r value = refl
fill-commit config_flag r value = refl

Asked-weaken :
    (args args' : List String) (r r' : Replay) (o : Outcome Command)
    → (r'.commit ≡ true → (r.commit ≡ true) ⊎ (is_among args "--commit" ≡ true))
    → (is_among args' "--commit" ≡ true → is_among args "--commit" ≡ true)
    → Asked args' r' o
    → Asked args r o
Asked-weaken args args' r r' (fine (replay q)) f g h =
    λ c. elim (h c) [ inl set ↦ f set | inr found ↦ inr (g found) ]
Asked-weaken args args' r r' (fine (serve c)) f g h = tt
Asked-weaken args args' r r' (fine version) f g h = tt
Asked-weaken args args' r r' (fine help) f g h = tt
Asked-weaken args args' r r' (wrong e) f g h = tt

store-commit :
    (flag : Flag) (value : String) (r : Replay) (args args' : List String)
    (behind : Replay → Outcome Command)
    → (is_among args' "--commit" ≡ true → is_among args "--commit" ≡ true)
    → ((q : Replay) → Asked args' q (behind q))
    → Asked args r (and_then (store flag value r) behind)
unfolding store
store-commit flag value r args args' behind g h = go (set (slot_of flag r) (flag_name flag) value)
  where
    go :
        (o : Outcome String)
        → Asked args r (and_then (and_then o (λ v. fine (fill flag r v))) behind)
    go (fine v) =
        Asked-weaken args args' r (fill flag r v) (behind (fill flag r v))
          (λ c. inl (sym (fill-commit flag r v) ∙ c)) g (h (fill flag r v))
    go (wrong e) = tt

last_arg-Asked :
    (arg : String) (r : Replay) (a : Argument)
    → argument arg ≡ a
    → Asked (arg ∷ []) r (last_arg a arg r)
unfolding last_arg
last_arg-Asked arg r asks_help e = tt
last_arg-Asked arg r commits e = λ c. inr (among_head arg [] (argument-commits arg e))
last_arg-Asked arg r (takes flag) e = tt
last_arg-Asked arg r other e = tt

next_arg-Asked :
    (arg value : String) (rest : List String) (r : Replay) (a : Argument)
    (at behind : Replay → Outcome Command)
    → argument arg ≡ a
    → ((q : Replay) → Asked (value ∷ rest) q (at q))
    → ((q : Replay) → Asked rest q (behind q))
    → Asked (arg ∷ value ∷ rest) r (next_arg a arg value r at behind)
unfolding next_arg
next_arg-Asked arg value rest r asks_help at behind e h k = tt
next_arg-Asked arg value rest r commits at behind e h k =
    let q : Replay = record r { commit = true } in
    Asked-weaken (arg ∷ value ∷ rest) (value ∷ rest) r q (at q)
      (λ c. inr (among_head arg (value ∷ rest) (argument-commits arg e))) (λ c. ground arith) (h q)
next_arg-Asked arg value rest r (takes flag) at behind e h k =
    store-commit flag value r (arg ∷ value ∷ rest) rest behind (λ c. ground arith) k
next_arg-Asked arg value rest r other at behind e h k = tt

read_args-Asked : (args : List String) (r : Replay) → Asked args r (read_args args r)
unfolding read_args
read_args-Asked [] r = λ h. inl h
read_args-Asked (arg ∷ []) r = last_arg-Asked arg r (argument arg) refl
read_args-Asked (arg ∷ value ∷ rest) r =
    next_arg-Asked arg value rest r (argument arg) (read_args (value ∷ rest)) (read_args rest) refl
      (read_args-Asked (value ∷ rest)) (read_args-Asked rest)

serve-Asked : (args args' : List String) (r : Replay) → Asked args r (parse_serve args')
serve-Asked args args' r = elim (Bool-cases (is_among args' "--help" || is_among args' "-h")) [
  | inl e ↦ rw e tt
  | inr e ↦ rw e (go args')
]
  where
    go : (xs : List String) → Asked args r (fine (serve_with xs))
    go [] = tt
    go (x ∷ xs) = tt

parse_command-Asked : (args : List String) → Asked args no_replay (parse_command args)
unfolding parse_command
parse_command-Asked [] = serve-Asked [] [] no_replay
parse_command-Asked (first ∷ rest) = elim (Bool-cases (str_eq first "replay")) [
  | inl e ↦ rw e (
      Asked-weaken (first ∷ rest) rest no_replay no_replay (read_args rest no_replay) (λ c. inl c)
        (λ c. ground arith) (read_args-Asked rest no_replay))
  | inr e ↦ rw e (serve-Asked (first ∷ rest) (first ∷ rest) no_replay)
]

parse-Asked : (args : List String) → Asked args no_replay (parse args)
unfolding parse
parse-Asked args = elim (Bool-cases (is_among args "--version" || is_among args "-V")) [
  | inl e ↦ rw e tt
  | inr e ↦ rw e (parse_command-Asked args)
]

pub parse-commit :
    (args : List String) (r : Replay)
    → parse args ≡ fine (replay r)
    → r.commit ≡ true
    → is_among args "--commit" ≡ true
parse-commit args r e c = elim (subst (Asked args no_replay) e (parse-Asked args) c) [
  | inl set ↦ absurd (ground arith)
  | inr found ↦ found
]
