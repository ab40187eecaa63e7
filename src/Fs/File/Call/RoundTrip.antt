-- ===== src/Fs/File/Call/RoundTrip.antt =====
-- kwrite, klseek and kread of fs/file.c for one open file.
use ox.Base.{ℕ, ◌+◌, ◌%◌, ◌^◌, ◌≤◌, ◌<◌, ◌≡◌, refl, ap, ◌∙◌, Bool, true, false, some, ltb, arith}
use ox.Fs.Inode.{Inode}
use ox.Fs.Descriptor.{Files, max_files, get_file}
use ox.Fs.File.{FileStore, Transfer, ok, zero_data}
use ox.Fs.File.Loop.{file_read_write}
use ox.Fs.File.Layout.{FileLayout}
use ox.Fs.File.Store.{IsFileStore}
use ox.Fs.File.Start.{Placed, unused, saved, scanned}
use ox.Fs.File.Whole.{
  Inside, HasRead, HasWritten, file_read_write-HasRead, file_read_write-HasWritten,
}
use ox.Fs.File.Call.{transfer_of, put_back, fill_gap, run_call, kread, kwrite}

-- The times of an inode do not matter to a transfer.
abbrev pub timed : Inode → ℕ → ℕ → Inode
timed inode accessed modified = record inode { accessed_time = accessed; modified_time = modified }

Placed-timed :
    {l : FileLayout} {inode : Inode} {pos : ℕ} (a m : ℕ)
    → Placed l inode pos
    → Placed l (timed inode a m) pos
Placed-timed a m (unused e p) = unused e p
Placed-timed a m (saved e r c p i) = saved e r c p i
Placed-timed a m (scanned e r o) = scanned e r o

Inside-timed :
    {C : Type 0} {io : FileStore C} {d : ℕ → ℕ → ℕ} {l : FileLayout} {inode : Inode}
    {pos length : ℕ} (a m : ℕ)
    → Inside io d l inode pos length
    → Inside io d l (timed inode a m) pos length
Inside-timed a m at = record {
  laid = at.laid;
  self_at = at.self_at;
  first_map = at.first_map;
  placed = Placed-timed a m at.placed;
  some_bytes = at.some_bytes;
  few_bytes = at.few_bytes;
  in_blocks = at.in_blocks;
  below = at.below;
}

module _ {C : Type 0} {io : FileStore C} {disk : C → ℕ → ℕ → ℕ → ℕ} (is : IsFileStore io disk) where
  module _ (l : FileLayout) (now : ℕ) (s : Files C) (fd f : ℕ) (buf : ℕ → ℕ) (count : ℕ) where
    fill_gap_none :
        (reading : Bool) (x : Transfer C)
        → x.inode.pos ≤ x.inode.size
        → fill_gap io reading x ≡ ok 0 x
    unfolding fill_gap
    fill_gap_none reading x inside =
        let none_missing : ltb x.inode.size x.inode.pos ≡ false = ground arith in
        rw none_missing refl

    abbrev file : Inode
    file = s.file_tab f

    kwrite_process :
        fd < max_files
        → s.file_desc fd ≡ some f
        → kwrite io now s fd buf count
          ≡ run_call io false s f (timed file file.accessed_time now) buf count
    unfolding kwrite
    kwrite_process small at =
        let mine : get_file s fd ≡ some f = ground (arith, at) in rw (mine, kwrite) refl

    kread_process :
        fd < max_files
        → s.file_desc fd ≡ some f
        → kread io now s fd buf count
          ≡ run_call io true s f (timed file now file.modified_time) buf count
    unfolding kread
    kread_process small at =
        let mine : get_file s fd ≡ some f = ground (arith, at) in rw (mine, kread) refl

    -- A call at a position that is not behind the end of the file is one transfer.
    run_call_lem :
        (reading : Bool) (inode : Inode) (y : Transfer C)
        → inode.pos ≤ inode.size
        → file_read_write io inode.pos count reading (transfer_of s inode buf) ≡ ok tt y
        → run_call io reading s f inode buf count
          ≡ (y.bytes_processed % 2 ^ 32, y.buffer, put_back s f y)
    unfolding run_call
    run_call_lem reading inode y inside done =
        let total : (y.bytes_processed + 0) % 2 ^ 32 ≡ y.bytes_processed % 2 ^ 32 = omega arith in
        rw (fill_gap_none reading (transfer_of s inode zero_data) inside, run_call, done, total)
          refl

    pub kwrite_lem :
        fd < max_files
        → s.file_desc fd ≡ some f
        → file.pos ≤ file.size
        → Inside io (disk s.cache file.dev) l file file.pos count
        → let x = transfer_of s (timed file file.accessed_time now) buf in
          (y : Transfer C) × (kwrite io now s fd buf count ≡ (count, buf, put_back s f y))
          × HasWritten io disk l x file.pos count y
    kwrite_lem small at inside fits =
        let inode = timed file file.accessed_time now in
        let (y, done, has) =
          file_read_write-HasWritten is l (transfer_of s inode buf) file.pos count
            (Inside-timed file.accessed_time now fits) in
        let total : y.bytes_processed % 2 ^ 32 ≡ count =
          omega (arith, has.count_is, fits.few_bytes) in
        (
          y,
          kwrite_process small at
              ∙ (run_call_lem false inode y inside done
                  ∙ ap (λ (n : ℕ). (n, y.buffer, put_back s f y)) total
                  ∙ ap (λ (b : ℕ → ℕ). (count, b, put_back s f y)) has.buffer_is),
          has,
        )

    pub kread_lem :
        fd < max_files
        → s.file_desc fd ≡ some f
        → file.pos ≤ file.size
        → count ≤ file.size
        → Inside io (disk s.cache file.dev) l file file.pos count
        → let x = transfer_of s (timed file now file.modified_time) buf in
          (y : Transfer C) × (kread io now s fd buf count ≡ (count, y.buffer, put_back s f y))
          × HasRead io disk l x file.pos count y
    kread_lem small at inside short fits =
        let inode = timed file now file.modified_time in
        let (y, done, has) =
          file_read_write-HasRead is l (transfer_of s inode buf) file.pos count
            (Inside-timed now file.modified_time fits) short in
        let total : y.bytes_processed % 2 ^ 32 ≡ count =
          omega (arith, has.count_is, fits.few_bytes) in
        (
          y,
          kread_process small at
              ∙ (run_call_lem true inode y inside done
                  ∙ ap (λ (n : ℕ). (n, y.buffer, put_back s f y)) total),
          has,
        )
