-- ===== src/Fs/Descriptor/Seek.antt =====
-- klseek of fs/file.c.
use ox.Base.{
  ℕ, ◌+◌, ◌%◌, ◌^◌, ◌<◌, ◌≤◌, ◌≡◌, refl, inl, inr, ◌⊎◌, true, some, ltb, arith, Bool-cases,
  minus_one, update,
}
use ox.Fs.Inode.{Inode, inode_nopos}
use ox.Fs.Descriptor.{Files, FileIo, max_files, ssize_max, get_file, klseek}

module _ {C : Type 0} (io : FileIo C) (now : ℕ) where
  -- For a descriptor below MAX_FILES of an open file at a position below 2^63, and an offset that
  -- is the word of a negative number: klseek from the current position puts the file at
  -- SSIZE_MAX, so that it never seeks back.
  pub klseek_back :
      (s : Files C) (fd f offset : ℕ)
      → fd < max_files
      → s.file_desc fd ≡ some f
      → (s.file_tab f).pos < 2 ^ 63
      → 2 ^ 31 ≤ offset
      → offset < 2 ^ 32
      → let r = klseek io now s fd offset 1 in
        ((r.1.file_tab f).pos ≡ ssize_max) × ((r.0 ≡ ssize_max) ⊎ (r.0 ≡ minus_one))
  unfolding klseek
  klseek_back s fd f offset small at range negative word =
      let mine : get_file s fd ≡ some f = ground (arith, at) in
      let far : ltb ssize_max (((s.file_tab f).pos + offset) % 2 ^ 64) ≡ true = ground arith in
      let inode : Inode = record (s.file_tab f) { pos = ssize_max; iblock = inode_nopos } in
      elim (Bool-cases (io.write s.cache inode.dev inode.self inode).0) [
        | inl e ↦ rw (mine, far, e, klseek) (ground arith, inl refl)
        | inr e ↦ rw (mine, far, e, klseek) (ground arith, inr refl)
      ]

  -- klseek to a position from the start, where the inode can be written.
  pub klseek_set :
      (s : Files C) (fd f offset : ℕ)
      → fd < max_files
      → s.file_desc fd ≡ some f
      → offset < 2 ^ 32
      → let inode : Inode = record (s.file_tab f) { pos = offset; iblock = inode_nopos } in
        let w = io.write s.cache inode.dev inode.self inode in
        w.0 ≡ true
        → klseek io now s fd offset 0
          ≡ (offset, record s { file_tab = update s.file_tab f inode; cache = w.1 })
  unfolding klseek
  klseek_set s fd f offset small at word done =
      let mine : get_file s fd ≡ some f = ground (arith, at) in
      let same : offset % 2 ^ 32 ≡ offset = omega arith in rw (mine, klseek, done, same) refl
