-- ===== src/Loop/Args.antt =====
-- daemon/args.c: the daemon's command line.
use acer_nitro_sense_linux.Prelude.{
  Bool, Bytes, List, Option, [], codes, false, if◌then◌else◌, none, some, str_eq, true, ◌∷◌,
}

pub record DaemonArgs : Type 0 where
  pub config_path : Bytes
  pub config_path_explicit : Bool
  pub force_model : Bool
  pub check_config : Bool
  pub probe : Bool
  pub validate : Bool

unfoldable pub daemon_args_init : DaemonArgs
daemon_args_init = record {
  config_path = codes "/etc/acer-nitro-sense/model.json";
  config_path_explicit = false;
  force_model = false;
  check_config = false;
  probe = false;
  validate = false;
}

-- The results 0, 1 and -1, with the usage that goes to stdout or to stderr.
pub data ArgsResult : Type 0 where
  parsed_args : DaemonArgs → ArgsResult
  help_shown usage_error : ArgsResult

-- The option that a flag sets.
unfoldable pub set_flag : Bytes → DaemonArgs → Option DaemonArgs
set_flag arg args =
    if str_eq arg (codes "--force-model")
    then some (record args { force_model = true })
    else if str_eq arg (codes "--check-config")
    then some (record args { check_config = true })
    else if str_eq arg (codes "--probe")
    then some (record args { probe = true })
    else if str_eq arg (codes "--validate-model")
    then some (record args { validate = true })
    else none

abbrev not_a_flag : Bytes → ArgsResult
not_a_flag arg = if str_eq arg (codes "--help") then help_shown else usage_error

-- The loop over the arguments behind the program's name.
unfoldable pub parse_args_from : List Bytes → DaemonArgs → ArgsResult
parse_args_from [] args = parsed_args args
parse_args_from (arg ∷ []) args = elim (set_flag arg args) [
  | none ↦ not_a_flag arg
  | some args' ↦ parsed_args args'
]
parse_args_from (arg ∷ value ∷ rest) args =
    let with_path =
      parse_args_from rest (record args { config_path = value; config_path_explicit = true }) in
    let flagged : Option DaemonArgs → ArgsResult =
      λ o. elim o [ none ↦ not_a_flag arg | some args' ↦ parse_args_from (value ∷ rest) args' ] in
    if str_eq arg (codes "--config") then with_path else flagged (set_flag arg args)

unfoldable pub daemon_args_parse : List Bytes → ArgsResult
daemon_args_parse arguments = parse_args_from arguments daemon_args_init
