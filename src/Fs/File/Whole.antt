-- ===== src/Fs/File/Whole.antt =====
-- file_read_write of fs/file.c inside the blocks of a file.
use ox.Base.{
  ℕ, ◌+◌, ◌-◌, ◌/◌, ◌%◌, ◌^◌, ◌≤◌, ◌<◌, ◌≡◌, ◌≢◌, refl, sym, Bool, ap, ◌∙◌, true, false, ◌&&◌, ◌==◌,
  if◌then◌else◌, ltb, leb, update, arith,
}
use native.Mathlib.Nat.{zero-add}
use ox.Fs.Inode.{Inode, block_size}
use ox.Fs.Directory.{bmap_blocks}
use ox.Fs.File.{FileStore, Transfer, ok, Run, ◌>>=◌, begin_at}
use ox.Fs.File.Loop.{transfer, finish, with_place, file_read_write}
use ox.Fs.File.Layout.{
  FileLayout, IsLaid, IsLaid-update, IsLaid-update_self, IsAt, file_byte, file_byte-self,
}
use ox.Fs.File.Store.{IsFileStore, update_same, update_at, read_block_lem}
use ox.Fs.File.Read.{Reading, transfer_read, got, got_zero}
use ox.Fs.File.Write.{Writing, transfer_write, shown, put, put_zero, update_other}
use ox.Fs.File.Start.{Placed, run_of, begin_at_lem, finish_lem}

-- The inode after the transfer of `length` bytes at `pos`.
abbrev pub moved_inode : FileLayout → Inode → ℕ → ℕ → Inode
moved_inode l inode pos length = record inode {
  pos = pos + length;
  size = if ltb inode.size (pos + length) then pos + length else inode.size;
  current = l.blocks ((pos + length) / block_size);
  current_parent = l.maps ((pos + length) / block_size / bmap_blocks);
  iblock = (pos + length) / block_size % bmap_blocks;
}

-- A transfer of `length` bytes at `pos` that stays inside the blocks of the file and finds its place.
pub record Inside {C : Type 0} (io : FileStore C) (d : ℕ → ℕ → ℕ) (l : FileLayout) (inode : Inode)
    (pos length : ℕ) : Type 0 where
  pub laid : IsLaid io.parse_map d l
  pub self_at : inode.self ≡ l.self
  pub first_map : l.maps 0 ≡ inode.next
  pub placed : Placed l inode pos
  pub some_bytes : 0 < length
  pub few_bytes : length < 2 ^ 32
  pub in_blocks : (pos + length) / block_size ≤ l.last
  pub below : pos + length < 2 ^ 40

with_place_lem :
    (l : FileLayout) (inode : Inode) (pos length : ℕ) (r : Run)
    → pos + length < 2 ^ 40
    → IsAt l ((pos + length) / block_size) r
    → with_place inode pos length r ≡ moved_inode l inode pos length
with_place_lem l inode pos length r below at =
    let sum : (pos + length) % 2 ^ 64 ≡ pos + length = omega arith in
    rw (sum, at.start_at, at.current_at, at.iblock_at) refl

module _ {C : Type 0} (io : FileStore C) (disk : C → ℕ → ℕ → ℕ → ℕ) (l : FileLayout) where
  module _ (x : Transfer C) (pos length : ℕ) (y : Transfer C) where
    -- What a read leaves: on the device only the inode has changed.
    pub record HasRead : Type 0 where
      pub inode_is : y.inode ≡ moved_inode l x.inode pos length
      pub count_is : y.bytes_processed ≡ length
      pub errno_is : y.errno ≡ x.errno
      pub buffer_is :
          (j : ℕ)
          → y.buffer j ≡ (
              if ltb j length then file_byte l (disk x.cache x.inode.dev) (pos + j) else x.buffer j)
      pub disk_is :
          disk y.cache x.inode.dev
          ≡ update
              (disk x.cache x.inode.dev)
              l.self
              (io.inode_image (moved_inode l x.inode pos length))

    -- What a write leaves: the file has the bytes of the buffer from `pos` on and is else as it was, and
    -- outside the file only the inode has changed.
    pub record HasWritten : Type 0 where
      pub inode_is : y.inode ≡ moved_inode l x.inode pos length
      pub count_is : y.bytes_processed ≡ length
      pub errno_is : y.errno ≡ x.errno
      pub buffer_is : y.buffer ≡ x.buffer
      pub laid : IsLaid io.parse_map (disk y.cache x.inode.dev) l
      pub bytes_are :
          (k : ℕ)
          → k / block_size ≤ l.last
          → file_byte l (disk y.cache x.inode.dev) k ≡ (
              if leb pos k && ltb k (pos + length)
              then x.buffer (k - pos)
              else file_byte l (disk x.cache x.inode.dev) k)
      pub self_is :
          disk y.cache x.inode.dev l.self ≡ io.inode_image (moved_inode l x.inode pos length)
      pub others_are :
          (b : ℕ)
          → b ≢ l.self
          → ((n : ℕ) → n ≤ l.last → l.blocks n ≢ b)
          → disk y.cache x.inode.dev b ≡ disk x.cache x.inode.dev b

module _ {C : Type 0} {io : FileStore C} {disk : C → ℕ → ℕ → ℕ → ℕ} (is : IsFileStore io disk) where
  module _ (l : FileLayout) (x : Transfer C) (pos length : ℕ) where
    -- The steps before the loop, from block n.
    pub run_from :
        (reading : Bool) (n : ℕ) (c : C)
        → begin_at io x.inode.dev pos x ≡ ok (run_of l n) (record x { cache = c })
        → disk c x.inode.dev ≡ disk x.cache x.inode.dev
        → 0 < length
        → let d = disk x.cache x.inode.dev in
          (c' : C) × (file_read_write io pos length reading x
            ≡ (transfer io reading x.inode.dev length
                    (record (run_of l n) { byte = pos % block_size; dptr = d (l.blocks n) })
                  >>= finish io x.inode.dev pos)
                (record x { cache = c'; bytes_processed = 0 }))
          × (disk c' x.inode.dev ≡ d)
    unfolding file_read_write
    run_from reading n c done same some_bytes =
        let dev = x.inode.dev in
        let positive : (length == 0) ≡ false = ground (arith, some_bytes) in
        let byte : pos % 2 ^ 32 % block_size ≡ pos % block_size = omega arith in
        let read = read_block_lem is dev (l.blocks n) (record x { cache = c }) in
        (
          (io.read c dev (l.blocks n)).2,
          rw (positive, done, ◌>>=◌, read, ◌>>=◌, byte, same) refl,
          is.read_keeps c dev (l.blocks n) ∙ same,
        )

    run_lem :
        (reading : Bool)
        → Inside io (disk x.cache x.inode.dev) l x.inode pos length
        → let d = disk x.cache x.inode.dev in
          let n = pos / block_size in
          (c : C) × (file_read_write io pos length reading x
            ≡ (transfer io reading x.inode.dev length
                    (record (run_of l n) { byte = pos % block_size; dptr = d (l.blocks n) })
                  >>= finish io x.inode.dev pos)
                (record x { cache = c; bytes_processed = 0 }))
          × (disk c x.inode.dev ≡ d)
    run_lem reading at =
        let (c, done, same) =
          begin_at_lem is {l = l} x.inode.dev pos x at.laid at.first_map at.placed
            (omega (arith, at.in_blocks)) (omega (arith, at.below)) in
        run_from reading (pos / block_size) c done same at.some_bytes

    -- The steps after the loop.
    finish_run :
        (c : C) (b : ℕ → ℕ) (s : Run)
        → Inside io (disk x.cache x.inode.dev) l x.inode pos length
        → IsAt l ((pos + length) / block_size) s
        → (s.write_flag ≡ false → s.dptr ≡ disk c x.inode.dev s.start)
        → let inode = moved_inode l x.inode pos length in
          (c' : C) × (finish io x.inode.dev pos s
              (record x { cache = c; buffer = b; bytes_processed = length })
            ≡ ok tt (record x { cache = c'; buffer = b; bytes_processed = length; inode = inode }))
          × (disk c' x.inode.dev
              ≡ update (shown s (disk c x.inode.dev)) l.self (io.inode_image inode))
    finish_run c b s inside at clean =
        let y : Transfer C = record x { cache = c; buffer = b; bytes_processed = length } in
        let (c', done, kept) = finish_lem is x.inode.dev pos s y clean in
        let e = with_place_lem l x.inode pos length s inside.below at in
        (c', rw (← e) done, rw (← e, ← inside.self_at) kept)

    -- file_read_write of a read of no more bytes than the file's size, over a layer of blocks
    -- that Fs/File/Store describes, where every transfer succeeds and stores its block, for an
    -- inode whose file has its blocks and block maps apart from each other and from the inode,
    -- where the bytes and the place behind them lie inside its blocks and the position is found:
    -- it succeeds, the buffer has the bytes of the file from the position on and is else as
    -- before, and on the device only the inode has changed, which has the new position, size and
    -- place.
    pub file_read_write-HasRead :
        Inside io (disk x.cache x.inode.dev) l x.inode pos length
        → length ≤ x.inode.size
        → (y : Transfer C) × (file_read_write io pos length true x ≡ ok tt y)
          × HasRead io disk l x pos length y
    file_read_write-HasRead at short =
        let dev = x.inode.dev in
        let d = disk x.cache dev in
        let n = pos / block_size in
        let r : Run = record (run_of l n) { byte = pos % block_size; dptr = d (l.blocks n) } in
        let (c, whole, same) = run_lem true at in
        let x' : Transfer C = record x { cache = c; bytes_processed = 0 } in
        let now : Reading io (disk c dev) l pos r x' = record {
          laid = rw same at.laid;
          at = record { start_at = refl; current_at = refl; iblock_at = refl; bmap_at = refl };
          byte_at = refl;
          held = rw same refl;
          clean = refl;
          counted = refl;
        } in
        let (c', b, s, done, kept, last, bytes) =
          transfer_read is {l = l} dev length pos length (pos + length) r x' (sym (zero-add length))
            refl now short at.few_bytes at.in_blocks in
        let held : s.dptr ≡ disk c' dev s.start =
          last.held
          ∙ (ap (disk c dev) (sym last.at.start_at)
              ∙ ap (λ (e : ℕ → ℕ → ℕ). e s.start) (sym kept)) in
        let (c'', done', kept') = finish_run c' b s at last.at (λ h. held) in
        let inode = moved_inode l x.inode pos length in
        (
          record x { cache = c''; buffer = b; bytes_processed = length; inode = inode },
          rw (whole, done, ◌>>=◌) done',
          record {
            inode_is = refl;
            count_is = refl;
            errno_is = refl;
            buffer_is = λ j.
                bytes j
                ∙ (ap (λ (e : ℕ → ℕ → ℕ). got (file_byte l e) x.buffer 0 pos length j) same
                    ∙ got_zero (file_byte l d) x.buffer pos length j);
            disk_is =
                kept'
                ∙ ap (λ (e : ℕ → ℕ → ℕ). update e l.self (io.inode_image inode))
                    (ap (update (disk c' dev) s.start) held
                      ∙ (update_same (disk c' dev) s.start ∙ (kept ∙ same)));
          },
        )

    -- file_read_write of a write, over a layer of blocks that Fs/File/Store describes, where
    -- every transfer succeeds and stores its block, for an inode whose file has its blocks and
    -- block maps apart from each other and from the inode, where the bytes and the place behind
    -- them lie inside its blocks and the position is found: it succeeds, the file then has the
    -- bytes of the buffer from the position on and every other byte as before, its block maps
    -- stay, the inode in memory and on the device has the new position, size and place, and every
    -- block outside the file and the inode is as before.
    pub file_read_write-HasWritten :
        Inside io (disk x.cache x.inode.dev) l x.inode pos length
        → (y : Transfer C) × (file_read_write io pos length false x ≡ ok tt y)
          × HasWritten io disk l x pos length y
    file_read_write-HasWritten at =
        let dev = x.inode.dev in
        let d = disk x.cache dev in
        let n = pos / block_size in
        let r : Run = record (run_of l n) { byte = pos % block_size; dptr = d (l.blocks n) } in
        let (c, whole, same) = run_lem false at in
        let x' : Transfer C = record x { cache = c; bytes_processed = 0 } in
        let now : Writing io (disk c dev) l pos r = record {
          laid = rw same at.laid;
          at = record { start_at = refl; current_at = refl; iblock_at = refl; bmap_at = refl };
          byte_at = refl;
          clean = λ h. rw same refl;
        } in
        let (c', s, done, last, bytes, others) =
          transfer_write is {l = l} dev length pos length (pos + length) r x'
            (sym (zero-add length)) refl refl now at.few_bytes at.in_blocks in
        let (c'', done', kept') = finish_run c' x.buffer s at last.at last.clean in
        let inode = moved_inode l x.inode pos length in
        let shown_same : shown r (disk c dev) ≡ d =
          ap (λ (e : ℕ → ℕ → ℕ). update e (l.blocks n) (d (l.blocks n))) same
          ∙ update_same d (l.blocks n) in
        let laid' : IsLaid io.parse_map (shown s (disk c' dev)) l =
          rw last.at.start_at
            (IsLaid-update last.laid ((pos + length) / block_size) s.dptr at.in_blocks) in
        (
          record x { cache = c''; bytes_processed = length; inode = inode },
          rw (whole, done, ◌>>=◌) done',
          record {
            inode_is = refl;
            count_is = refl;
            errno_is = refl;
            buffer_is = refl;
            laid = rw kept' (IsLaid-update_self laid' (io.inode_image inode));
            bytes_are = λ k inside.
                ap (λ (e : ℕ → ℕ → ℕ). file_byte l e k) kept'
                ∙ (file_byte-self laid' k (io.inode_image inode) inside
                    ∙ (bytes k inside
                        ∙ (ap
                              (λ (e : ℕ → ℕ → ℕ).
                                put x.buffer (file_byte l e) 0 pos (pos + length) k)
                              shown_same
                            ∙ put_zero x.buffer (file_byte l d) pos (pos + length) k)));
            self_is =
                ap (λ (e : ℕ → ℕ → ℕ). e l.self) kept'
                ∙ update_at (shown s (disk c' dev)) l.self (io.inode_image inode);
            others_are = λ b outside other.
                ap (λ (e : ℕ → ℕ → ℕ). e b) kept'
                ∙ (update_other (shown s (disk c' dev)) l.self b (io.inode_image inode)
                      (λ e. outside (sym e))
                    ∙ (others b other ∙ ap (λ (e : ℕ → ℕ → ℕ). e b) shown_same));
          },
        )
