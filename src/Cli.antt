-- ===== src/Cli.antt =====
-- The command line of server/configure.go, as github.com/urfave/cli offers it: the flags that are
-- registered, and what a command reads of them. A flag that leaves out its value has the zero value.
use torrent_web_seeder.Prelude.{Bool, ◌++◌, Text, codes, Int64}

-- In order: name, usage, value and variables of the environment.
pub data Flag : Type 0 where
  string_flag : Text → Text → Text → Text → Flag
  int_flag : Text → Text → Int64 → Text → Flag
  duration_flag : Text → Text → Int64 → Text → Flag
  bool_flag : Text → Text → Text → Flag
  bool_t_flag : Text → Text → Text → Flag

unfoldable pub flag_name : Flag → Text
flag_name (string_flag n u v e) = n
flag_name (int_flag n u v e) = n
flag_name (duration_flag n u v e) = n
flag_name (bool_flag n u e) = n
flag_name (bool_t_flag n u e) = n

-- cli.Context: the value of a flag, read as a type.
pub record Context : Type 0 where
  pub string : Text → Text
  pub int : Text → Int64
  pub duration : Text → Int64
  pub bool : Text → Bool
  pub bool_t : Text → Bool

-- errors.Wrap
abbrev pub wrap : Text → Text → Text
wrap message e = message ++ (codes ": " ++ e)
