-- ===== src/Common.antt =====
-- common_utils/common_functions.cpp: a command of the shell, UUIDs and replacement, over the calls of
-- the system and of boost and std::regex.
pub mod Outputs
use iexapitest.Base.{
  Exception, Exec, List, Option, Result, Text, [], codes, err, foreign, if◌then◌else◌, none, ok,
  runtime_error, some, ℤ, ◌++◌, ◌==◌, ◌∷◌,
}
use iexapitest.Db.Statements.{is_nonzero, show_int}

-- What popen, getline, pclose, strerror and boost's random_generator do with the machine. A command
-- that popen starts has the lines that getline gives until it gives -1, and the status of pclose.
pub record System : Type 1 where
  pub Machine : Type 0
  pub popen : Text → Machine → Option (List Text) × Machine
  pub pclose : Machine → ℤ × Machine
  pub strerror : Machine → Text
  pub random_uuid : Machine → Text × Machine

-- std::regex. `parse` throws a std::regex_error, `replace` is `regex_replace`.
pub record Regexes : Type 1 where
  pub Regex : Type 0
  pub parse : Text → Option Regex
  pub error : Text → Text
  pub replace : Text → Regex → Text → Text

-- A C string: what stands in front of the first NUL
unfoldable pub c_str : Text → Text
c_str [] = []
c_str (c ∷ s) = if c == 0 then [] else c ∷ c_str s

-- The machine and what the process has written to stdout
pub record Console (Y : System) : Type 0 where
  pub machine : Y.Machine
  pub stdout : Text

module _ (Y : System) where
  -- The loop over `getline`: each line goes to stdout and to the stream.
  unfoldable pub read_lines : List Text → Text → Console Y → Text × Console Y
  unfolding c_str
  read_lines [] str c = (str, c)
  read_lines (line ∷ lines) str c =
      read_lines lines (str ++ c_str line) (record c { stdout = c.stdout ++ c_str line })

  unfoldable pub cannot_execute : Text → Text → Exception
  cannot_execute command reason =
      runtime_error (codes "Can't execute command (\"" ++ (command ++ (codes "\") : " ++ reason)))

  unfoldable pub failed_command : Text → ℤ → Exception
  failed_command command status =
      runtime_error
        (codes "Command (\"" ++ (command ++ (codes "\") with error : " ++ show_int status)))

  -- `pclose`, the test of the status and the return
  unfoldable pub close_command : Text → Text × Console Y → Result Text × Console Y
  unfolding failed_command
  close_command command (str, c) =
      let (status, machine) = Y.pclose c.machine in
      (
        if is_nonzero status then err (failed_command command status) else ok str,
        record c { machine = machine },
      )

  unfoldable pub after_popen : Text → Option (List Text) → Console Y → Result Text × Console Y
  unfolding read_lines close_command cannot_execute
  after_popen command none c = (err (cannot_execute command (Y.strerror c.machine)), c)
  after_popen command (some lines) c = close_command command (read_lines lines [] c)

  -- `System`
  unfoldable pub system : Text → Exec (Console Y) Text
  unfolding after_popen c_str
  system command c =
      let (fp, machine) = Y.popen (c_str command) c.machine in
      after_popen command fp (record c { machine = machine })

  -- `GenerateUUID`
  unfoldable pub generate_uuid : Exec (Console Y) Text
  generate_uuid c =
      let (uuid, machine) = Y.random_uuid c.machine in (ok uuid, record c { machine = machine })

module _ (R : Regexes) where
  -- `ReplaceString`
  unfoldable pub replace_string : Text → Text → Text → Result Text
  replace_string str expr replacement = elim (R.parse expr) [
    | none ↦ err (foreign (R.error expr))
    | some ee ↦ ok (R.replace str ee replacement)
  ]

  -- `Config::ReplaceDots`
  unfoldable pub replace_dots : Text → Text → Result Text
  unfolding replace_string
  replace_dots key replacement = replace_string key (codes "(\\.)") replacement
