-- ===== src/Diag/Log/Stuck.antt =====
-- The log of src/diag.c on a system whose `rename` does not replace a file, as that of Windows.
use reactos_luagent.Base.{◌<◌, ◌≡◌, refl, ap, ◌∙◌, false, ◌++◌, Bytes, length, some, arith}
use reactos_luagent.Diag.Log.{
  Disk, Files, LogState, rename, rotate_loop, rotated_name, rotate_keep, rotate_bytes, content_of,
  is_empty, write_line,
}
use reactos_luagent.Diag.Log.Kept.{OpensAll, stays, turns, turn, finish-Finished}

-- A file that exists is not replaced.
pub record Refuses (files : Files) : Type 0 where
  pub refuses :
      (d : Disk) (src dst content : Bytes)
      → d dst ≡ some content
      → files.rename_ok d src dst ≡ false

-- All files of a log exist but perhaps the log itself.
pub record IsFull (path : Bytes) (d : Disk) : Type 0 where
  pub first : Bytes
  pub first_exists : d (rotated_name path 1) ≡ some first
  pub second : Bytes
  pub second_exists : d (rotated_name path 2) ≡ some second
  pub third : Bytes
  pub third_exists : d (rotated_name path 3) ≡ some third

module _ {files : Files} (no : Refuses files) where
  rename_refused :
      (src dst content : Bytes) (d : Disk) → d dst ≡ some content → rename files src dst d ≡ d
  unfolding rename
  rename_refused src dst content d e = ground (arith, no.refuses d src dst content e)

  rotate_stuck :
      (path : Bytes) (d : Disk) → IsFull path d → rotate_loop files rotate_keep path d ≡ d
  unfolding rotate_loop
  rotate_stuck path d full =
      rw
        (
          rename_refused (rotated_name path 2) (rotated_name path 3) full.third d full.third_exists,
          rename_refused (rotated_name path 1) (rotated_name path 2) full.second d
              full.second_exists,
          rename_refused (rotated_name path 0) (rotated_name path 1) full.first d full.first_exists,
        )
        refl

  -- If files can be opened and `rename` refuses to replace a file, the path has 1 to 511 bytes, and
  -- the three rotated files exist, then a line, of less than DIAG_LOG_ROTATE_BYTES, goes to the end of
  -- the log's file however large that is already: the log is not rotated any more.
  pub write_line_stuck :
      (line : Bytes) (g : LogState)
      → OpensAll files
      → is_empty g.path ≡ false
      → length g.path < 512
      → length line < rotate_bytes
      → IsFull g.path g.disk
      → content_of ((write_line files line g).disk g.path) ≡ content_of (g.disk g.path) ++ line
  unfolding write_line
  write_line_stuck line g opens named short small full =
      let told = record g { stderr_text = g.stderr_text ++ line } in
      elim (turn files (length line) told named small) [
        | stays same fits ↦ rw same (finish-Finished opens line told named short).end
        | turns same large ↦
            let stuck = rotate_stuck g.path g.disk full in
            let turned = record told {
              file_open = false;
              disk = rotate_loop files rotate_keep g.path g.disk;
            } in
            rw same (
              (finish-Finished opens line turned named short).end
              ∙ ap (λ (d : Disk). content_of (d g.path) ++ line) stuck)
      ]
