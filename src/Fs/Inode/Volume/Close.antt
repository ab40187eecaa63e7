-- ===== src/Fs/Inode/Volume/Close.antt =====
-- inode_dev_close of fs/inode.c.
use ox.Base.{
  ℕ, ◌<◌, ◌≡◌, ◌≢◌, inl, inr, Bool, true, false, none, some, arith, Option-cases, is_negative, ap,
  sym, ◌∙◌,
}
use ox.Fs.Bitmap.{IsBytes}
use ox.Fs.Inode.{InodeRtvl, inode_ok, inode_nopos, block_size}
use ox.Fs.Inode.Master.{inode_kind, data_kind, Volumes, master_get, Entry}
use ox.Fs.Inode.Master.Table.{IsTable, master_free-IsTable, master_free-cache}
use ox.Fs.Dev.{Ata}
use ox.Fs.Block.{Store, block_ok}
use ox.Fs.Block.Flush.{block_sync}
use ox.Fs.Inode.Device.{BlockIo, IsBlockIo, Layout}
use ox.Fs.Inode.Device.Cache.{cache_io, cache_io-IsBlockIo, cache_close, cache_close-block_sync}
use ox.Fs.Inode.Map.{zone}
use ox.Fs.Inode.Volume.{inode_dev_close}

module _ {C : Type 0} (io : BlockIo C) (layout : Layout) where
  -- A volume that was closed: no master inode of the device, in the table or under a path, and
  -- block_close was called on a cache that gives the master inode that was in memory.
  pub record Closed (close : C → ℕ → Bool × C) (v : Volumes C) (dev : ℕ)
      (r : InodeRtvl × Volumes C × (ℕ → Entry)) : Type 0 where
    pub gone : master_get r.1 dev ≡ none
    pub table : IsTable r.1.tab
    pub paths : (j : ℕ) → dev ≢ 0 → (r.2 j).dev ≢ dev
    pub before : C
    pub cache : r.1.cache ≡ (close before dev).1
    pub succeeded : (close before dev).0 ≡ true
    pub master :
        (i : ℕ)
        → master_get v dev ≡ some i
        → is_negative dev ≡ false
        → IsBytes (layout.image (v.tab i))
        → (out : ℕ → ℕ)
        → let q = io.read before dev (v.tab i).block_start out in
          (q.0 ≡ true) × ((x : ℕ) → x < block_size → q.1 x ≡ layout.image (v.tab i) x)

  -- A closing that succeeds, over any layer of blocks.
  inode_dev_close-Closed :
      (law : IsBlockIo io) (close : C → ℕ → Bool × C) (v : Volumes C) (tab : ℕ → Entry) (dev : ℕ)
      → IsTable v.tab
      → dev ≢ inode_nopos
      → (inode_dev_close io layout close v tab dev).0 ≡ inode_ok
      → Closed close v dev (inode_dev_close io layout close v tab dev)
  unfolding inode_dev_close
  inode_dev_close-Closed law close v tab dev is real ok = elim (Option-cases (master_get v dev)) [
    | inl e ↦ absurd (ground arith)
    | inr (i, e) ↦
        let a = io.write v.cache dev (zone inode_kind i v).ptr (v.memory inode_kind i) in
        let b = io.write a.1 dev (zone data_kind i v).ptr (v.memory data_kind i) in
        let c = io.write b.1 dev (v.tab i).block_start (layout.image (v.tab i)) in
        let all : (a.0 ≡ true) × (b.0 ≡ true) × (c.0 ≡ true) × ((close c.1 dev).0 ≡ true) =
          ground arith in
        let u : Volumes C = record v { cache = (close c.1 dev).1 } in
        let f = master_free-IsTable u dev is real in
        rw (e, all.0, all.1, all.2, all.3, inode_dev_close)
          (record {
            gone = f.1;
            table = f.0;
            paths = λ j ne. ground (arith, ne);
            before = c.1;
            cache = master_free-cache u dev;
            succeeded = all.3;
            master = λ j at plain bytes out.
                let same : i ≡ j = ground (arith, e, at) in
                let is' : IsBytes (layout.image (v.tab i)) = rw same bytes in
                rw (← same) (
                  law.read_back b.1 dev (v.tab i).block_start (layout.image (v.tab i)) out is' plain
                    all.2);
          })
  ]

module _ {D : Type 0} (ata : Ata D) (layout : Layout) (found : Bool) where
  -- In a table where no device stands twice, for a device number that is not -1, through the
  -- buffer cache and whatever value inode_dev_close finds where block_close returns none: if
  -- inode_dev_close succeeds, the device has no master inode any more, still no device stands
  -- twice, no path leads to the device if its number is not 0, and there is a cache on which
  -- block_sync of the device succeeds and leaves the cache that the call leaves; and if the
  -- number is not negative and the image of the master inode consists of bytes, block_read of the
  -- master inode's block through the former cache gives that image.
  pub inode_dev_close_synced :
      (v : Volumes (Store D)) (tab : ℕ → Entry) (dev : ℕ)
      → let r = inode_dev_close (cache_io ata) layout (cache_close ata found) v tab dev in
        IsTable v.tab
        → dev ≢ inode_nopos
        → r.0 ≡ inode_ok
        → (c : Closed (cache_io ata) layout (cache_close ata found) v dev r) × (block_sync ata
              c.before dev
            ≡ (block_ok, r.1.cache))
  inode_dev_close_synced v tab dev is real ok =
      let c =
        inode_dev_close-Closed (cache_io ata) layout (cache_io-IsBlockIo ata)
          (cache_close ata found) v tab dev is real ok in
      (
        c,
        cache_close-block_sync ata found c.before dev c.succeeded
            ∙ ap (λ s. (block_ok, s)) (sym c.cache),
      )
