-- ===== src/Fs/File/Store.antt =====
-- Layers of blocks where no transfer fails: each device then has the bytes of its blocks. This is more
-- than fs/block.c promises, whose transfers can fail and which can lose a block while all its slots
-- are dirty, so that the lemmas that take such a layer say nothing of the file system as a whole.
use ox.Base.{ℕ, ◌≡◌, refl, true, ◌==◌, update, arith, Bool-cases, inl, inr}
use ox.Fs.File.{FileStore, Transfer, ok, read_block, write_block}
use mathlib.Core.Path.{fun_ext}

pub record IsFileStore {C : Type 0} (io : FileStore C) (disk : C → ℕ → ℕ → ℕ → ℕ) : Type 0 where
  pub reads : (c : C) (dev block : ℕ) → (io.read c dev block).0 ≡ true
  pub read_bytes : (c : C) (dev block : ℕ) → (io.read c dev block).1 ≡ disk c dev block
  pub read_keeps : (c : C) (dev block : ℕ) → disk (io.read c dev block).2 dev ≡ disk c dev
  pub writes : (c : C) (dev block : ℕ) (bytes : ℕ → ℕ) → (io.write c dev block bytes).0 ≡ true
  pub write_keeps :
      (c : C) (dev block : ℕ) (bytes : ℕ → ℕ)
      → disk (io.write c dev block bytes).1 dev ≡ update (disk c dev) block bytes

pub update_same : (d : ℕ → ℕ → ℕ) (b : ℕ) → update d b (d b) ≡ d
update_same d b =
    fun_ext
      (λ j. elim (Bool-cases (j == b)) [ inl e ↦ ground (arith, e) | inr e ↦ ground (arith, e) ])

pub update_at : (d : ℕ → ℕ → ℕ) (b : ℕ) (t : ℕ → ℕ) → update d b t b ≡ t
update_at d b t = let e : (b == b) ≡ true = ground arith in rw e refl

module _ {C : Type 0} {io : FileStore C} {disk : C → ℕ → ℕ → ℕ → ℕ} (is : IsFileStore io disk) where
  abbrev pub after_read : ℕ → ℕ → Transfer C → Transfer C
  after_read dev block x = record x { cache = (io.read x.cache dev block).2 }

  abbrev pub after_write : ℕ → ℕ → (ℕ → ℕ) → Transfer C → Transfer C
  after_write dev block bytes x = record x { cache = (io.write x.cache dev block bytes).1 }

  pub read_block_lem :
      (dev block : ℕ) (x : Transfer C)
      → read_block io dev block x ≡ ok (disk x.cache dev block) (after_read dev block x)
  unfolding read_block
  read_block_lem dev block x = rw (is.reads x.cache dev block, is.read_bytes x.cache dev block) refl

  pub write_block_lem :
      (dev block : ℕ) (bytes : ℕ → ℕ) (x : Transfer C)
      → write_block io dev block bytes x ≡ ok tt (after_write dev block bytes x)
  unfolding write_block
  write_block_lem dev block bytes x = rw (is.writes x.cache dev block bytes) refl
