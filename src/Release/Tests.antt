-- ===== src/Release/Tests.antt =====
-- Examples for the theorems about the release script.
use cpa_plugin_commandcode.Base.{Bytes, codes, none, some, [], ◌∷◌, ◌++◌, inr, ◌≤◌, ◌≡◌, ◌↔◌, refl}
use cpa_plugin_commandcode.Pool.{plain_error}
use cpa_plugin_commandcode.Release.{
  Disk, package_library, main, write_checksum, run_steps, after_archive, after_library, report,
}
use cpa_plugin_commandcode.Release.Handles.{
  library_closes, archive_closes, package_library-closes, whole_run, main-whole_run,
}

-- A disk on which all works, and one on which the archive cannot be closed.
abbrev good_disk : Disk
good_disk = record {
  on_open = none;
  on_stat = none;
  on_create = none;
  on_file_header = none;
  on_create_header = none;
  on_copy = none;
  on_close_writer = none;
  on_close_archive = none;
  on_close_again = none;
  on_read = inr (codes "zip");
  on_close_library = none;
  on_write = none;
  sum = λ b. b;
  base_name = λ p. codes "n" ++ p;
}

abbrev full_disk : Disk
full_disk = record good_disk { on_close_archive = some (plain_error (codes "full")) }

package_library-closes_example :
    let acts = (package_library full_disk).1 in
    (library_closes acts ≡ 1)
    × ((1 ≤ archive_closes acts)
        ↔ ((full_disk.on_open ≡ none) × (full_disk.on_stat ≡ none) × (full_disk.on_create ≡ none)))
    × (archive_closes acts ≤ 2)
package_library-closes_example = package_library-closes full_disk

good-exit : (main good_disk (codes "l") (codes "a.zip") (codes "c")).0 ≡ 0
unfolding main report package_library after_library after_archive run_steps
good-exit = refl

main-whole_run_example :
    (packed : Bytes) × (good_disk.on_read ≡ inr packed)
    × ((main good_disk (codes "l") (codes "a.zip") (codes "c")).1
        ≡ whole_run good_disk
          ++ write_checksum (packed ++ (codes "  " ++ (codes "na.zip" ++ codes "\n"))) ∷ [])
main-whole_run_example = main-whole_run good_disk (codes "l") (codes "a.zip") (codes "c") good-exit
