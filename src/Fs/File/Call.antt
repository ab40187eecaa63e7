-- ===== src/Fs/File/Call.antt =====
-- kread and kwrite of fs/file.c, for the process that runs.
pub mod RoundTrip
pub mod Seek
use ox.Base.{
  ℕ, zero, suc, ◌+◌, ◌-◌, ◌/◌, ◌%◌, ◌^◌, Bool, true, false, ◌==◌, none, some, if◌then◌else◌, ltb,
  update, minus_one,
}
use ox.Fs.Inode.{Inode, block_size}
use ox.Fs.Descriptor.{Files, FileIo, get_file}
use ox.Fs.File.{FileStore, Transfer, Outcome, ok, fail, Io, ◌>>=◌, ◌>>◌, pure, get_inode, zero_data}
use ox.Fs.File.Loop.{file_read_write}

-- The calls of fs/file.c that write an inode, over the same layers.
abbrev pub file_io : {C : Type 0} → FileStore C → (C → ℕ → Bool × C) → FileIo C
file_io io sync = record {
  sync = sync;
  write = λ c dev block inode. io.write c dev block (io.inode_image inode);
}

-- A transfer of the open file f, and the table after it.
abbrev pub transfer_of : {C : Type 0} → Files C → Inode → (ℕ → ℕ) → Transfer C
transfer_of s inode buffer = record {
  cache = s.cache;
  errno = s.errno;
  inode = inode;
  buffer = buffer;
  bytes_processed = 0;
}

abbrev pub put_back : {C : Type 0} → Files C → ℕ → Transfer C → Files C
put_back s f x = record s {
  file_tab = update s.file_tab f x.inode;
  errno = x.errno;
  cache = x.cache;
}

module _ {C : Type 0} (io : FileStore C) where
  -- `tmp` bytes at the end of the file.
  pub at_size : Bool → ℕ → Io C ℕ
  at_size reading length = do
    inode ← get_inode
    file_read_write io inode.size length reading
    (λ x. ok x.bytes_processed x)

  pub fill_blocks : Bool → ℕ → ℕ → Io C ℕ
  fill_blocks reading zero total = pure total
  fill_blocks reading (suc iter) total = do
    tmp ← at_size reading block_size
    fill_blocks reading iter ((total + tmp) % 2 ^ 64)

  pub fill_rest : Bool → ℕ → ℕ → Io C ℕ
  fill_rest reading rest total =
      if rest == 0
      then pure total
      else (do tmp ← at_size reading rest; pure ((total + tmp) % 2 ^ 64))

  -- From the end of the file to a position behind it; the bytes processed.
  pub fill_gap : Bool → Io C ℕ
  fill_gap reading x =
      let gap = x.inode.pos - x.inode.size in
      if ltb x.inode.size x.inode.pos
      then (fill_blocks reading (gap / block_size % 2 ^ 32) 0
            >>= fill_rest reading (gap % block_size))
          x
      else ok 0 x

  -- The result, the caller's buffer and the new state.
  pub run_call : Bool → Files C → ℕ → Inode → (ℕ → ℕ) → ℕ → ℕ × (ℕ → ℕ) × Files C
  run_call reading s f inode buf count = elim (fill_gap reading (transfer_of s inode zero_data)) [
    | fail x ↦ (minus_one, buf, put_back s f x)
    | ok total x ↦ elim (file_read_write io x.inode.pos count reading (record x { buffer = buf })) [
      | fail y ↦ (minus_one, y.buffer, put_back s f y)
      | ok done y ↦ ((y.bytes_processed + total) % 2 ^ 32, y.buffer, put_back s f y)
    ]
  ]

  module _ (now : ℕ) where
    pub kread : Files C → ℕ → (ℕ → ℕ) → ℕ → ℕ × (ℕ → ℕ) × Files C
    kread s fd buf count = elim (get_file s fd) [
      | none ↦ (minus_one, buf, s)
      | some f ↦ run_call true s f (record (s.file_tab f) { accessed_time = now }) buf count
    ]

    pub kwrite : Files C → ℕ → (ℕ → ℕ) → ℕ → ℕ × (ℕ → ℕ) × Files C
    kwrite s fd buf count = elim (get_file s fd) [
      | none ↦ (minus_one, buf, s)
      | some f ↦ run_call false s f (record (s.file_tab f) { modified_time = now }) buf count
    ]
