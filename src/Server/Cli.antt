-- ===== src/Server/Cli.antt =====
-- crates/app/src/cli.rs: the command line. A path is its text; the usage text is printed elsewhere.
pub mod Dry
use alertthread.Base.{
  String, Bool, true, false, ◌||◌, Option, none, some, List, [], ◌∷◌, str_eq, if◌then◌else◌,
  is_some, any,
}
use alertthread.Base.Text.{is_blank, trim}

pub record Replay : Type 0 where
  pub config : Option String
  pub channel : Option String
  pub fingerprint : Option String
  pub commit : Bool

pub data Command : Type 0 where
  serve : (config : Option String) → Command
  replay : (args : Replay) → Command
  version : Command
  help : Command

pub data CliError : Type 0 where
  unknown_argument : (arg : String) → CliError
  missing_value : (name : String) → CliError
  empty_value : (name : String) → CliError
  repeated : (name : String) → CliError

pub data Outcome (A : Type 0) : Type 0 where
  fine : (value : A) → Outcome A
  wrong : (error : CliError) → Outcome A

abbrev pub no_replay : Replay
no_replay = record { config = none; channel = none; fingerprint = none; commit = false }

-- What `set` puts into a slot for a value that is there.
unfoldable pub set : Option String → String → String → Outcome String
set slot name value =
    if is_blank (trim value)
    then wrong (empty_value name)
    else if is_some slot
    then wrong (repeated name)
    else fine value

abbrev pub and_then : {A B : Type 0} → Outcome A → (A → Outcome B) → Outcome B
and_then (fine value) next = next value
and_then (wrong error) next = wrong error

-- The flags that take a value.
pub data Flag : Type 0 where
  channel_flag : Flag
  fingerprint_flag : Flag
  config_flag : Flag

abbrev pub flag_name : Flag → String
flag_name channel_flag = "--channel"
flag_name fingerprint_flag = "--fingerprint"
flag_name config_flag = "--config"

abbrev pub slot_of : Flag → Replay → Option String
slot_of channel_flag r = r.channel
slot_of fingerprint_flag r = r.fingerprint
slot_of config_flag r = r.config

abbrev pub fill : Flag → Replay → String → Replay
fill channel_flag r value = record r { channel = some value }
fill fingerprint_flag r value = record r { fingerprint = some value }
fill config_flag r value = record r { config = some value }

unfoldable pub store : Flag → String → Replay → Outcome Replay
unfolding set
store flag value r =
    and_then (set (slot_of flag r) (flag_name flag) value) λ v. fine (fill flag r v)

pub data Argument : Type 0 where
  asks_help : Argument
  commits : Argument
  takes : (flag : Flag) → Argument
  other : Argument

unfoldable pub argument : String → Argument
argument arg =
    if str_eq arg "--help" || str_eq arg "-h"
    then asks_help
    else if str_eq arg "--commit"
    then commits
    else if str_eq arg "--channel"
    then takes channel_flag
    else if str_eq arg "--fingerprint"
    then takes fingerprint_flag
    else if str_eq arg "--config"
    then takes config_flag
    else other

-- The loop of `parse_replay`, with what it has read so far.
-- The last argument.
unfoldable pub last_arg : Argument → String → Replay → Outcome Command
last_arg asks_help arg r = fine help
last_arg commits arg r = fine (replay (record r { commit = true }))
last_arg (takes flag) arg r = wrong (missing_value (flag_name flag))
last_arg other arg r = wrong (unknown_argument arg)

-- An argument with another behind it: the loop goes on at that one, or behind it.
unfoldable pub next_arg :
    Argument
    → String
    → String
    → Replay
    → (Replay → Outcome Command)
    → (Replay → Outcome Command)
    → Outcome Command
unfolding store
next_arg asks_help arg value r at behind = fine help
next_arg commits arg value r at behind = at (record r { commit = true })
next_arg (takes flag) arg value r at behind = and_then (store flag value r) behind
next_arg other arg value r at behind = wrong (unknown_argument arg)

unfoldable pub read_args : List String → Replay → Outcome Command
unfolding argument last_arg next_arg
read_args [] r = fine (replay r)
read_args (arg ∷ []) r = last_arg (argument arg) arg r
read_args (arg ∷ value ∷ rest) r =
    next_arg (argument arg) arg value r (read_args (value ∷ rest)) (read_args rest)

abbrev pub is_among : List String → String → Bool
is_among args s = any (λ a. str_eq a s) args

abbrev pub serve_with : List String → Command
serve_with [] = serve none
serve_with (arg ∷ rest) = serve (some arg)

abbrev pub parse_serve : List String → Outcome Command
parse_serve args =
    if is_among args "--help" || is_among args "-h" then fine help else fine (serve_with args)

unfoldable pub parse_command : List String → Outcome Command
unfolding read_args
parse_command [] = parse_serve []
parse_command (first ∷ rest) =
    if str_eq first "replay" then read_args rest no_replay else parse_serve (first ∷ rest)

-- `parse`, behind the name of the program.
unfoldable pub parse : List String → Outcome Command
unfolding parse_command
parse args =
    if is_among args "--version" || is_among args "-V" then fine version else parse_command args
