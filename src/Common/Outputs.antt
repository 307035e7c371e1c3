-- ===== src/Common/Outputs.antt =====
-- What a command's output becomes.
use iexapitest.Base.{
  List, Option, Result, Text, [], append-nil, append_assoc, err, if◌then◌else◌, none, ok, refl,
  some, ◌++◌, ◌∙◌, ◌∷◌, ◌≡◌,
}
use iexapitest.Db.Statements.{is_nonzero}
use iexapitest.Common.{
  Console, System, after_popen, c_str, cannot_execute, close_command, failed_command, read_lines,
  system,
}

-- The lines, each up to its first NUL
shown : List Text → Text
shown [] = []
shown (line ∷ lines) = c_str line ++ shown lines

module _ (Y : System) where
  read_lines_lem :
      (lines : List Text) (str : Text) (c : Console Y)
      → read_lines Y lines str c
        ≡ (str ++ shown lines, record c { stdout = c.stdout ++ shown lines })
  unfolding read_lines shown
  read_lines_lem [] str c = rw (append-nil str, append-nil c.stdout) refl
  read_lines_lem (line ∷ lines) str c =
      read_lines_lem lines (str ++ c_str line) (record c { stdout = c.stdout ++ c_str line })
      ∙ rw
          (
            append_assoc str (c_str line) (shown lines),
            append_assoc c.stdout (c_str line) (shown lines),
          )
          refl

  -- The end of `System`, by what popen and pclose give: without a stream the error, with one the
  -- lines are on stdout whatever the status, and they are returned exactly when it is 0.
  abbrev SystemEnds : Text → Option (List Text) → Console Y → Result Text × Console Y → Type 0
  SystemEnds command none c (r, c') =
      (r ≡ err (cannot_execute Y command (Y.strerror c.machine))) × (c' ≡ c)
  SystemEnds command (some lines) c (r, c') =
      (c'.stdout ≡ c.stdout ++ shown lines)
      × (c'.machine ≡ (Y.pclose c.machine).1)
      × (r ≡ (
          if is_nonzero (Y.pclose c.machine).0
          then err (failed_command Y command (Y.pclose c.machine).0)
          else ok (shown lines)))

  after_popen-Ends :
      (command : Text) (fp : Option (List Text)) (c : Console Y)
      → SystemEnds command fp c (after_popen Y command fp c)
  unfolding after_popen close_command
  after_popen-Ends command none c = (refl, refl)
  after_popen-Ends command (some lines) c = rw (read_lines_lem lines [] c) (refl, refl, refl)

  -- `System` throws without reading where popen gives no stream. Where it gives one, every line, up
  -- to its first NUL, is written to stdout behind what was there; afterwards the lines together are
  -- returned if pclose gives 0, and with any other status the error that names the command and the
  -- status is thrown.
  system_lem :
      (command : Text) (c : Console Y)
      → let (fp, machine) = Y.popen (c_str command) c.machine in
        SystemEnds command fp (record c { machine = machine }) (system Y command c)
  unfolding system
  system_lem command c =
      let (fp, machine) = Y.popen (c_str command) c.machine in
      after_popen-Ends command fp (record c { machine = machine })
