-- ===== src/Fs/Inode/Device.antt =====
-- What fs/inode.c needs of fs/block.c and of the layout of `master_inode_t`: an interface, which
-- Fs/Inode/Device/Cache fills with the buffer cache.
pub mod Cache
pub mod Ram
use ox.Base.{ℕ, ◌<◌, ◌≡◌, Bool, true, false}
use ox.Base.{is_negative}
use ox.Fs.Bitmap.{IsBytes}
use ox.Fs.Inode.{block_size}
use ox.Fs.Inode.Master.{Master}

-- `block_read` and `block_write` over the state C of the cache, true for BLOCK_OK, with the buffer as
-- a function of the index.
pub record BlockIo (C : Type 0) : Type 0 where
  pub read : C → ℕ → ℕ → (ℕ → ℕ) → Bool × (ℕ → ℕ) × C
  pub write : C → ℕ → ℕ → (ℕ → ℕ) → Bool × C

-- A read gives values of a `char`, and a block that was written is read back at once as it was
-- written.
pub record IsBlockIo {C : Type 0} (io : BlockIo C) : Type 0 where
  pub read_bytes : (c : C) (dev block : ℕ) (out : ℕ → ℕ) → IsBytes (io.read c dev block out).1
  pub read_back :
      (c : C) (dev block : ℕ) (bytes out : ℕ → ℕ)
      → IsBytes bytes
      → is_negative dev ≡ false
      → (io.write c dev block bytes).0 ≡ true
      → let r = io.read (io.write c dev block bytes).1 dev block out in
        (r.0 ≡ true) × ((i : ℕ) → i < block_size → r.1 i ≡ bytes i)

-- The memory of a `master_inode_t` as bytes, which depends on the compiler.
pub record Layout : Type 0 where
  pub image : Master → ℕ → ℕ
  pub parse : (ℕ → ℕ) → Master
