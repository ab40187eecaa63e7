-- ===== src/Fs/File/Call/Seek.antt =====
-- kwrite, klseek to where it wrote, and kread of fs/file.c.
use ox.Base.{
  ℕ, ◌+◌, ◌-◌, ◌/◌, ◌%◌, ◌^◌, ◌≤◌, ◌<◌, ◌≡◌, ◌≢◌, ◌⊎◌, refl, sym, ap, ◌∙◌, inl, inr, Bool, true,
  false, ◌==◌, some, if◌then◌else◌, ltb, leb, update, arith, ltb→lt, Bool-cases,
}
use mathlib.Core.Path.{subst}
use ox.Fs.Inode.{Inode, inode_null, inode_nopos, block_size}
use ox.Fs.Descriptor.{Files, max_files, klseek}
use ox.Fs.Descriptor.Seek.{klseek_set}
use ox.Fs.File.{FileStore, Transfer}
use ox.Fs.File.Layout.{FileLayout, IsLaid, IsLaid-update_self, file_byte, file_byte-self}
use ox.Fs.File.Store.{IsFileStore}
use ox.Fs.File.Start.{scanned, map_bytes}
use ox.Fs.File.Whole.{Inside, HasWritten, moved_inode}
use ox.Fs.File.Call.{file_io, transfer_of, put_back, kread, kwrite}
use ox.Fs.File.Call.RoundTrip.{timed, kwrite_lem, kread_lem}

module _ {C : Type 0} {io : FileStore C} {disk : C → ℕ → ℕ → ℕ → ℕ} (is : IsFileStore io disk) where
  module _ (sync : C → ℕ → Bool × C) (l : FileLayout) (now : ℕ) (s : Files C) (fd f : ℕ)
      (buf : ℕ → ℕ) (count : ℕ) where
    -- The inode and the state after the write and the seek.
    abbrev written : Inode
    written =
        moved_inode l (timed (s.file_tab f) (s.file_tab f).accessed_time now) (s.file_tab f).pos
          count

    abbrev sought : Inode
    sought = record written { pos = (s.file_tab f).pos; iblock = inode_nopos }

    abbrev after_seek : Transfer C → Files C
    after_seek y = record (put_back s f y) {
      file_tab = update (update s.file_tab f y.inode) f sought;
      cache = (io.write y.cache sought.dev sought.self (io.inode_image sought)).1;
    }

    seek_lem :
        (y : Transfer C)
        → fd < max_files
        → s.file_desc fd ≡ some f
        → (s.file_tab f).pos < 2 ^ 32
        → y.inode ≡ written
        → klseek (file_io io sync) now (put_back s f y) fd (s.file_tab f).pos 0
          ≡ ((s.file_tab f).pos, after_seek y)
    seek_lem y small at word moved =
        let e : (put_back s f y).file_tab f ≡ written = ground (arith, moved) in
        let at_start : Inode → Inode =
          λ i. record i { pos = (s.file_tab f).pos; iblock = inode_nopos } in
        klseek_set (file_io io sync) now (put_back s f y) fd f (s.file_tab f).pos small at word
          (is.writes y.cache _ _ _)
        ∙ ap
            (λ (i : Inode). (
              (s.file_tab f).pos,
              record (put_back s f y) {
                file_tab = update (put_back s f y).file_tab f (at_start i);
                cache = (io.write y.cache i.dev i.self (io.inode_image (at_start i))).1;
              },
            ))
            e

    -- The file after the seek.
    seek_Inside :
        (y : Transfer C)
        → Inside io (disk s.cache (s.file_tab f).dev) l (s.file_tab f) (s.file_tab f).pos count
        → ((s.file_tab f).pos ≡ 0) ⊎ ((s.file_tab f).pos % map_bytes ≢ 0)
        → HasWritten io disk l
            (transfer_of s (timed (s.file_tab f) (s.file_tab f).accessed_time now) buf)
            (s.file_tab f).pos
            count
            y
        → Inside io (disk (after_seek y).cache sought.dev) l sought (s.file_tab f).pos count
    seek_Inside y fits start has =
        let kept = is.write_keeps y.cache sought.dev sought.self (io.inode_image sought) in
        let used : (sought.current == inode_null) ≡ false = ground (
          arith,
          fits.laid.block_used (((s.file_tab f).pos + count) / block_size) fits.in_blocks,
        ) in
        record {
          laid = rw kept (
              subst
                (λ (b : ℕ).
                  IsLaid io.parse_map (update (disk y.cache sought.dev) b (io.inode_image sought))
                    l)
                (sym fits.self_at) (IsLaid-update_self has.laid (io.inode_image sought)));
          self_at = fits.self_at;
          first_map = fits.first_map;
          placed = scanned (ground (arith, used)) (ground arith) start;
          some_bytes = fits.some_bytes;
          few_bytes = fits.few_bytes;
          in_blocks = fits.in_blocks;
          below = fits.below;
        }

    -- The bytes of the file after the seek are those of the buffer.
    seek_bytes :
        (y : Transfer C) (j : ℕ)
        → j < count
        → Inside io (disk s.cache (s.file_tab f).dev) l (s.file_tab f) (s.file_tab f).pos count
        → HasWritten io disk l
            (transfer_of s (timed (s.file_tab f) (s.file_tab f).accessed_time now) buf)
            (s.file_tab f).pos
            count
            y
        → file_byte l (disk (after_seek y).cache sought.dev) ((s.file_tab f).pos + j) ≡ buf j
    seek_bytes y j small fits has =
        let kept = is.write_keeps y.cache sought.dev sought.self (io.inode_image sought) in
        let p = (s.file_tab f).pos in
        let room : (p + j) / block_size ≤ l.last = omega (arith, fits.in_blocks) in
        let index : p + j - p ≡ j = omega arith in
        let below : leb p (p + j) ≡ true = ground arith in
        let above : ltb (p + j) (p + count) ≡ true = ground arith in
        ap (λ (d : ℕ → ℕ → ℕ). file_byte l d (p + j)) kept
        ∙ (ap
              (λ (b : ℕ).
                file_byte l (update (disk y.cache sought.dev) b (io.inode_image sought)) (p + j))
              fits.self_at
            ∙ (file_byte-self has.laid (p + j) (io.inode_image sought) room
                ∙ (has.bytes_are (p + j) room ∙ rw (below, above, index) refl)))

    -- For an open file at a position up to its size, over a layer of blocks that Fs/File/Store
    -- describes, where every transfer succeeds and stores its block, for an inode whose file has
    -- its blocks and block maps apart from each other and from the inode, where the bytes to be
    -- written and the place behind them lie inside its blocks and the position is 0 or not at the
    -- start of a block map: kwrite gives the number of bytes, klseek back to the position gives
    -- the position, and kread there of the same number gives that number and the bytes that were
    -- written, and leaves the rest of its buffer.
    pub kwrite-klseek-kread :
        (out : ℕ → ℕ) (later : ℕ)
        → fd < max_files
        → s.file_desc fd ≡ some f
        → (s.file_tab f).pos ≤ (s.file_tab f).size
        → (s.file_tab f).pos < 2 ^ 32
        → ((s.file_tab f).pos ≡ 0) ⊎ ((s.file_tab f).pos % map_bytes ≢ 0)
        → Inside io (disk s.cache (s.file_tab f).dev) l (s.file_tab f) (s.file_tab f).pos count
        → let w = kwrite io now s fd buf count in
          let k = klseek (file_io io sync) now w.2 fd (s.file_tab f).pos 0 in
          let r = kread io later k.1 fd out count in
          (w.0 ≡ count)
          × (k.0 ≡ (s.file_tab f).pos)
          × (r.0 ≡ count)
          × ((j : ℕ) → r.1 j ≡ (if ltb j count then buf j else out j))
    kwrite-klseek-kread out later small at inside word start fits =
        let (y, wrote, has) = kwrite_lem is l now s fd f buf count small at inside fits in
        let seeks = seek_lem y small at word has.inode_is in
        let t = after_seek y in
        let mine : t.file_tab f ≡ sought = ground arith in
        let longer : (s.file_tab f).pos + count ≤ sought.size = ground arith in
        let (z, reads, got) =
          kread_lem is l later t fd f out count small at (rw mine (omega (arith, longer)))
            (rw mine (omega (arith, longer))) (rw mine (seek_Inside y fits start has)) in
        (
          ap (λ (r : ℕ × (ℕ → ℕ) × Files C). r.0) wrote,
          rw (wrote, seeks) refl,
          rw (wrote, seeks, reads) refl,
          λ j.
              rw (wrote, seeks, reads)
                (got.buffer_is j
                  ∙ (ap
                        (λ (i : Inode).
                          if ltb j count
                          then file_byte l (disk t.cache i.dev) (i.pos + j)
                          else out j)
                        mine
                      ∙ elim (Bool-cases (ltb j count)) [
                        | inl e ↦ rw e (seek_bytes y j (ltb→lt _ _ e) fits has)
                        | inr e ↦ rw e refl
                      ])),
        )
