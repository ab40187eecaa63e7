-- ===== src/Fs/Inode/Device/Cache.antt =====
-- The buffer cache of fs/block.c as the layer of blocks of fs/inode.c. A sector is the list of a
-- buffer's first 512 bytes.
use ox.Base.{
  ℕ, zero, suc, ◌+◌, ◌%◌, ◌<◌, ◌≡◌, refl, ◌∙◌, ap, arith, Bool, true, false, [], ◌∷◌, none, some,
  ◌⊎◌, inl, inr,
}
use ox.Fs.Dev.{Sector, Ata, dev_close}
use ox.Fs.Block.{BlockRtvl, block_ok, block_fail, block_param, Store, block_read, block_write}
use ox.Fs.Block.Flush.{block_sync, block_close}
use ox.Fs.Block.ReadBack.{block_write-block_read}
use ox.Fs.Bitmap.{IsBytes}
use ox.Fs.Inode.{block_size}
use ox.Fs.Inode.Device.{BlockIo, IsBlockIo}

-- n bytes from i on.
abbrev to_sector : ℕ → ℕ → (ℕ → ℕ) → Sector
to_sector zero i bytes = []
to_sector (suc n) i bytes = bytes i ∷ to_sector n (suc i) bytes

-- An element of a buffer is a `char`.
abbrev of_sector : Sector → ℕ → ℕ
of_sector [] i = 0
of_sector (x ∷ xs) zero = x % 256
of_sector (x ∷ xs) (suc i) = of_sector xs i

of_sector-to_sector :
    (n j i : ℕ) (bytes : ℕ → ℕ)
    → IsBytes bytes
    → i < n
    → of_sector (to_sector n j bytes) i ≡ bytes (j + i)
of_sector-to_sector zero j i bytes is h = absurd (omega arith)
of_sector-to_sector (suc n) j zero bytes is h =
    let small : bytes j % 256 ≡ bytes j = omega (arith, is j) in small ∙ ap bytes (omega arith)
of_sector-to_sector (suc n) j (suc i) bytes is h =
    of_sector-to_sector n (suc j) i bytes is (omega arith) ∙ ap bytes (omega arith)

of_sector-IsBytes : (xs : Sector) → IsBytes (of_sector xs)
of_sector-IsBytes [] i = omega arith
of_sector-IsBytes (x ∷ xs) zero = omega arith
of_sector-IsBytes (x ∷ xs) (suc i) = of_sector-IsBytes xs i

abbrev is_ok : BlockRtvl → Bool
is_ok block_ok = true
is_ok block_fail = false
is_ok block_param = false

BlockRtvl-cases : (r : BlockRtvl) → (r ≡ block_ok) ⊎ ((r ≡ block_fail) ⊎ (r ≡ block_param))
BlockRtvl-cases block_ok = inl refl
BlockRtvl-cases block_fail = inr (inl refl)
BlockRtvl-cases block_param = inr (inr refl)

module _ {D : Type 0} (ata : Ata D) where
  unfoldable pub cache_io : BlockIo (Store D)
  cache_io = record {
    read = λ s dev block out.
        let (rc, bytes, t) = block_read ata s dev block (to_sector block_size 0 out) in
        (is_ok rc, of_sector bytes, t);
    write = λ s dev block bytes.
        let (rc, t) = block_write ata s dev block (to_sector block_size 0 bytes) in (is_ok rc, t);
  }

  is_ok-true : (rc : BlockRtvl) → is_ok rc ≡ true → rc ≡ block_ok
  is_ok-true block_ok h = refl
  is_ok-true block_fail h = absurd (cc)
  is_ok-true block_param h = absurd (cc)

  -- A read through the cache gives values of a `char`. If the device number is not negative and a
  -- write of a buffer of such values through the cache succeeds, a read
  -- of the same block at once succeeds and gives the buffer's 512 bytes.
  pub cache_io-IsBlockIo : IsBlockIo cache_io
  unfolding cache_io
  cache_io-IsBlockIo = record {
    read_bytes = λ s dev block out. of_sector-IsBytes _;
    read_back = λ s dev block bytes out is plain e.
        let sent = to_sector block_size 0 bytes in
        let r =
          block_write-block_read ata s dev block sent (to_sector block_size 0 out) plain
            (is_ok-true _ e) in
        (
          ap is_ok r.0,
          λ i h.
              ap (λ t. of_sector t i) r.1
              ∙ of_sector-to_sector block_size 0 i bytes is h
              ∙ ap bytes (omega arith),
        );
  }

  -- block_close, which returns no value when it succeeds: `found` is what its caller then finds.
  unfoldable pub cache_close : Bool → Store D → ℕ → Bool × Store D
  cache_close found s dev =
      let (rc, t) = block_close ata s dev in (elim rc [ none ↦ found | some r ↦ is_ok r ], t)

  -- Where block_close does not fail, block_sync did not, and left the cache that block_close leaves.
  pub cache_close-block_sync :
      (found : Bool) (s : Store D) (dev : ℕ)
      → (cache_close found s dev).0 ≡ true
      → block_sync ata s dev ≡ (block_ok, (cache_close found s dev).1)
  unfolding cache_close block_close dev_close
  cache_close-block_sync found s dev ok = elim (BlockRtvl-cases (block_sync ata s dev).0) [
    | inl e ↦ ap (λ r. (r, (block_sync ata s dev).1)) e
    | inr (inl e) ↦ absurd (ground (arith, e, ok))
    | inr (inr e) ↦ absurd (ground (arith, e, ok))
  ]
