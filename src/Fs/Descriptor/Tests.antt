-- ===== src/Fs/Descriptor/Tests.antt =====
-- Descriptors of fs/file.c for one open file.
use ox.Base.{
  ℕ, ◌+◌, ◌<◌, ◌≡◌, ◌≢◌, ◌⊎◌, refl, true, none, some, if◌then◌else◌, ◌==◌, arith, minus_one,
}
use ox.Fs.Descriptor.{Files, FileIo, zero_inode, max_files, emfile, ssize_max, kdup, klseek}
use ox.Fs.Descriptor.Duplicate.{Duplicated, kdup-Duplicated}
use ox.Fs.Descriptor.Seek.{klseek_back}

abbrev quiet : FileIo ℕ
quiet = record { sync = λ c dev. (true, c); write = λ c dev block inode. (true, c + 1) }

-- The descriptors 0 and 2 are in use.
abbrev open_files : Files ℕ
open_files = record {
  file_tab = λ f. record zero_inode { size = 900; pos = 500 };
  file_desc = λ fd. if fd == 0 then some 5 else if fd == 2 then some 7 else none;
  errno = 0;
  cache = 0;
}

kdup-Duplicated_example :
    Duplicated quiet 60 open_files 2 (kdup open_files 2)
    ⊎ ((kdup open_files 2 ≡ (minus_one, record open_files { errno = emfile }))
        × ((x : ℕ) → x < max_files → open_files.file_desc x ≢ none))
kdup-Duplicated_example = kdup-Duplicated quiet 60 open_files 2 7 (omega arith) refl

-- 100 back.
klseek_back_example :
    let r = klseek quiet 60 open_files 2 4294967196 1 in
    ((r.1.file_tab 7).pos ≡ ssize_max) × ((r.0 ≡ ssize_max) ⊎ (r.0 ≡ minus_one))
klseek_back_example =
    klseek_back quiet 60 open_files 2 7 4294967196 (omega arith) refl (omega arith) (omega arith)
      (omega arith)
