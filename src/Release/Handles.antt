-- ===== src/Release/Handles.antt =====
-- Which files are open at the end of the script, and when it succeeds.
use cpa_plugin_commandcode.Base.{
  ℕ, suc, ◌≤◌, Bytes, codes, ◌||◌, Option, none, some, List, [], ◌∷◌, ◌++◌, map, ◌⊎◌, inl, inr,
  is_empty, ◌≡◌, ◌↔◌, refl, sym, ap, ◌∙◌, arith, Option-cases, Bool-cases,
}
use cpa_plugin_commandcode.Pool.{Error}
use cpa_plugin_commandcode.Release.{
  Act, open_library, stat_library, create_archive, file_header, create_header, copy_library,
  close_writer, close_archive, read_archive, close_library, write_checksum, Disk, run_steps,
  close_call, archive_steps, after_archive, after_library, library_steps, package_library,
  checksum_line, report, main,
}

-- How often the calls close the library, and the archive.
abbrev pub library_closes : List Act → ℕ
library_closes [] = 0
library_closes (close_library ∷ acts) = suc (library_closes acts)
library_closes (_ ∷ acts) = library_closes acts

abbrev pub archive_closes : List Act → ℕ
archive_closes [] = 0
archive_closes (close_archive ∷ acts) = suc (archive_closes acts)
archive_closes (_ ∷ acts) = archive_closes acts

-- How often they try to open it.
abbrev pub creates : List Act → ℕ
creates [] = 0
creates (create_archive ∷ acts) = suc (creates acts)
creates (_ ∷ acts) = creates acts

abbrev pub one_if_none {ℓ} : {A : Type ℓ} → Option A → ℕ
one_if_none none = 1
one_if_none (some e) = 0

-- The call of a step.
abbrev pub act_of : Act × Bytes × Option Error → Act
act_of (act, label, error) = act

-- Steps none of which fails are all made.
run_steps-none :
    (steps : List (Act × Bytes × Option Error))
    → (run_steps steps).0 ≡ none
    → (run_steps steps).1 ≡ map act_of steps
unfolding run_steps
run_steps-none [] h = refl
run_steps-none ((act, label, none) ∷ steps) h = ap (λ l. act ∷ l) (run_steps-none steps h)
run_steps-none ((act, label, some e) ∷ steps) h = absurd (cc h)

module _ (disk : Disk) where
  -- Whatever fails, the library is closed exactly once if it was opened. The archive is closed exactly
  -- if it was created, and twice at most.
  pub package_library-closes :
      let acts = (package_library disk).1 in
      (library_closes acts ≡ one_if_none disk.on_open)
      × ((1 ≤ archive_closes acts)
          ↔ ((disk.on_open ≡ none) × (disk.on_stat ≡ none) × (disk.on_create ≡ none)))
      × (archive_closes acts ≤ 2)
  unfolding package_library after_library after_archive run_steps
  package_library-closes = (ground arith, (ground arith, ground arith), ground arith)

  after_archive-packed :
      (x : Option Error × List Act) (packed : Bytes)
      → (after_archive disk x).0 ≡ inr packed
      → (x.0 ≡ none)
        × (disk.on_read ≡ inr packed)
        × ((after_archive disk x).1 ≡ x.1 ++ read_archive ∷ [])
  unfolding after_archive
  after_archive-packed (some e, acts) packed h = absurd (cc h)
  after_archive-packed (none, acts) packed h = (refl, ground arith, refl)

  -- The calls of a run without an error, up to the close of the library.
  abbrev pub whole_run : List Act
  whole_run =
      open_library
      ∷ stat_library
      ∷ create_archive
      ∷ file_header
      ∷ create_header
      ∷ copy_library
      ∷ close_writer
      ∷ close_archive
      ∷ read_archive
      ∷ close_call close_library (codes "close library: ") disk.on_close_library

  after_library-packed :
      (x : Option Error × List Act) (packed : Bytes)
      → (after_library disk x).0 ≡ inr packed
      → (x.0 ≡ none)
        × (disk.on_read ≡ inr packed)
        × ((after_library disk x).1
            ≡ x.1
              ++ ((map act_of (archive_steps disk) ++ read_archive ∷ [])
                  ++ close_call close_library (codes "close library: ") disk.on_close_library))
  unfolding after_library
  after_library-packed (some e, acts) packed h = absurd (cc h)
  after_library-packed (none, acts) packed h =
      let (worked, held, made) = after_archive-packed (run_steps (archive_steps disk)) packed h in
      (refl, held, rw (made, run_steps-none (archive_steps disk) worked) refl)

  package_library-packed :
      (packed : Bytes)
      → (package_library disk).0 ≡ inr packed
      → (disk.on_read ≡ inr packed) × ((package_library disk).1 ≡ whole_run)
  unfolding package_library
  package_library-packed packed h = elim (Option-cases disk.on_open) [
    | inl opened ↦
        let (worked, held, made) =
          after_library-packed (run_steps (library_steps disk)) packed (rw opened at h) in
        (
          held,
          rw opened (
              ap (λ l. open_library ∷ l)
                (made ∙ rw (run_steps-none (library_steps disk) worked) refl)),
        )
    | inr (e, failed) ↦ absurd (cc (rw failed at h))
  ]

  report-packed :
      (archive_path : Bytes) (x : (Error ⊎ Bytes) × List Act)
      → x ≡ package_library disk
      → (report disk archive_path x).0 ≡ 0
      → (packed : Bytes) × (disk.on_read ≡ inr packed)
        × ((report disk archive_path x).1
            ≡ whole_run
              ++ write_checksum
                  (disk.sum packed ++ (codes "  " ++ (disk.base_name archive_path ++ codes "\n")))
                ∷ [])
  unfolding report checksum_line
  report-packed archive_path (inl e, acts) same h = absurd (omega (arith, h))
  report-packed archive_path (inr packed, acts) same h =
      let (held, made) =
        package_library-packed packed (ap (λ (x : (Error ⊎ Bytes) × List Act). x.0) (sym same)) in
      let acts_made : acts ≡ whole_run = ap (λ (x : (Error ⊎ Bytes) × List Act). x.1) same ∙ made in
      elim (Option-cases disk.on_write) [
        | inl written ↦ (
          packed,
          held,
          rw written (
              ap
                (λ l.
                  l
                  ++ write_checksum (
                      disk.sum packed
                      ++ (codes "  " ++ (disk.base_name archive_path ++ codes "\n")))
                    ∷ [])
                acts_made),
        )
        | inr (e, failed) ↦ absurd (omega (arith, rw failed at h))
      ]

  -- `main` exits with 0 only if every step has been made in order, so the archive is read after it was
  -- closed, and the last call writes the digest of the bytes that were read, two spaces, the name of
  -- the archive and a newline. Errors of closing the library are reported only.
  pub main-whole_run :
      (library_path archive_path checksum_path : Bytes)
      → (main disk library_path archive_path checksum_path).0 ≡ 0
      → (packed : Bytes) × (disk.on_read ≡ inr packed)
        × ((main disk library_path archive_path checksum_path).1
            ≡ whole_run
              ++ write_checksum
                  (disk.sum packed ++ (codes "  " ++ (disk.base_name archive_path ++ codes "\n")))
                ∷ [])
  unfolding main
  main-whole_run library_path archive_path checksum_path h =
      elim (Bool-cases (is_empty library_path || is_empty archive_path || is_empty checksum_path)) [
        | inl missing ↦ absurd (omega (arith, rw missing at h))
        | inr given ↦
            rw given (report-packed archive_path (package_library disk) refl (rw given at h))
      ]
