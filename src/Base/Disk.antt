-- ===== src/Base/Disk.antt =====
-- The atomic file replacement that the packages share: a temporary file, fsync, rename, fsync of
-- the directory. What the operating system answers is a parameter.

-- How a replacement ended: done; refused before the rename, so the old file stands; or refused by
-- the directory's fsync, after the rename, so that the new file is there and the caller has an
-- error.
pub data WriteOutcome : Type 0 where
  written unwritten unsynced : WriteOutcome

-- The file's content after the replacement.
abbrev pub disk_after {ℓ} : {A : Type ℓ} → WriteOutcome → A → A → A
disk_after WriteOutcome.written old new = new
disk_after WriteOutcome.unwritten old new = old
disk_after WriteOutcome.unsynced old new = new
