-- ===== src/Release.antt =====
-- .github/scripts/package-release.go: the script that packs the library of a release. Files, zip
-- archives and hashes are parameters: what each call answers.
pub mod Handles
mod Tests
use cpa_plugin_commandcode.Base.{
  ℕ, Bytes, codes, Bool, true, false, ◌||◌, Option, none, some, List, [], ◌∷◌, ◌++◌, ◌⊎◌, inl, inr,
  is_empty, if◌then◌else◌,
}
use cpa_plugin_commandcode.Pool.{Error, plain_error}

-- The calls that the script makes, in the order of the code, and what it says on the standard error.
pub data Act : Type 0 where
  open_library stat_library create_archive : Act
  file_header create_header copy_library close_writer close_archive : Act
  read_archive close_library : Act
  write_checksum : Bytes → Act
  say : Bytes → Act

-- The errors of these calls, what the archive holds when it is read, the hexadecimal SHA-256 of bytes
-- and the last element of a path. The archive may be closed a second time.
pub record Disk : Type 0 where
  pub on_open : Option Error
  pub on_stat : Option Error
  pub on_create : Option Error
  pub on_file_header : Option Error
  pub on_create_header : Option Error
  pub on_copy : Option Error
  pub on_close_writer : Option Error
  pub on_close_archive : Option Error
  pub on_close_again : Option Error
  pub on_read : Error ⊎ Bytes
  pub on_close_library : Option Error
  pub on_write : Option Error
  pub sum : Bytes → Bytes
  pub base_name : Bytes → Bytes

-- An error behind a label.
abbrev pub wrap : Bytes → Error → Error
wrap label e = plain_error (label ++ e.text)

-- Calls one after another up to the first that fails: its error, and the calls that were made.
unfoldable pub run_steps : List (Act × Bytes × Option Error) → Option Error × List Act
run_steps [] = (none, [])
run_steps ((act, label, error) ∷ steps) =
    let (later, acts) = run_steps steps in
    elim error [ some e ↦ (some (wrap label e), act ∷ []) | none ↦ (later, act ∷ acts) ]

-- A deferred close, which reports its error.
abbrev pub close_call : Act → Bytes → Option Error → List Act
close_call act label none = act ∷ []
close_call act label (some e) = act ∷ say (label ++ (e.text ++ codes "\n")) ∷ []

-- What the archive holds, or the error of reading it.
abbrev pub read_result : Error ⊎ Bytes → Error ⊎ Bytes
read_result (inl e) = inl (wrap (codes "read archive: ") e)
read_result (inr packed) = inr packed

module _ (disk : Disk) where
  -- The steps on the open archive, with its close.
  abbrev pub archive_steps : List (Act × Bytes × Option Error)
  archive_steps =
      (file_header, codes "create zip header: ", disk.on_file_header)
      ∷ (create_header, codes "create zip entry: ", disk.on_create_header)
      ∷ (copy_library, codes "copy library: ", disk.on_copy)
      ∷ (close_writer, codes "close zip writer: ", disk.on_close_writer)
      ∷ (close_archive, codes "close archive: ", disk.on_close_archive)
      ∷ []

  -- What follows these steps: the archive is read; or it is closed by the deferred function, also if
  -- its close was what failed.
  unfoldable pub after_archive : Option Error × List Act → (Error ⊎ Bytes) × List Act
  after_archive (some e, acts) =
      (inl e, acts ++ close_call close_archive (codes "close archive: ") disk.on_close_again)
  after_archive (none, acts) = (read_result disk.on_read, acts ++ read_archive ∷ [])

  -- The steps on the open library in front of it.
  abbrev pub library_steps : List (Act × Bytes × Option Error)
  library_steps =
      (stat_library, codes "stat library: ", disk.on_stat)
      ∷ (create_archive, codes "create archive: ", disk.on_create)
      ∷ []

  -- What follows those: the archive is written, and the library is closed in any case.
  unfoldable pub after_library : Option Error × List Act → (Error ⊎ Bytes) × List Act
  unfolding after_archive run_steps
  after_library (some e, acts) =
      (inl e, acts ++ close_call close_library (codes "close library: ") disk.on_close_library)
  after_library (none, acts) =
      let (result, packed) = after_archive (run_steps archive_steps) in
      (
        result,
        acts
            ++ (packed ++ close_call close_library (codes "close library: ") disk.on_close_library),
      )

  -- `packageLibrary`
  unfoldable pub package_library : (Error ⊎ Bytes) × List Act
  unfolding after_library run_steps
  package_library =
      let (result, acts) = after_library (run_steps library_steps) in
      elim disk.on_open [
        | some e ↦ (inl (wrap (codes "open library: ") e), open_library ∷ [])
        | none ↦ (result, open_library ∷ acts)
      ]

  -- `fatalf` behind some calls: code 1.
  abbrev pub fatal : List Act → Bytes → ℕ × List Act
  fatal acts message = (1, acts ++ say (message ++ codes "\n") ∷ [])

  -- The line of the checksum file.
  unfoldable pub checksum_line : Bytes → Bytes → Bytes
  checksum_line archive_path packed =
      disk.sum packed ++ (codes "  " ++ (disk.base_name archive_path ++ codes "\n"))

  -- What `main` does behind `packageLibrary`.
  unfoldable pub report : Bytes → (Error ⊎ Bytes) × List Act → ℕ × List Act
  unfolding checksum_line
  report archive_path (inl e, acts) = fatal acts e.text
  report archive_path (inr packed, acts) =
      let written = acts ++ write_checksum (checksum_line archive_path packed) ∷ [] in
      elim disk.on_write [
        | some e ↦ fatal written (codes "write checksum: " ++ e.text)
        | none ↦ (0, written)
      ]

  -- `main`, on the three paths: the exit code and the calls.
  unfoldable pub main : Bytes → Bytes → Bytes → ℕ × List Act
  unfolding package_library report
  main library_path archive_path checksum_path =
      if is_empty library_path || is_empty archive_path || is_empty checksum_path
      then fatal [] (codes "library, archive, and checksum are required")
      else report archive_path package_library
