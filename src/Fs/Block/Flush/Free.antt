-- ===== src/Fs/Block/Flush/Free.antt =====
-- block_free of fs/block.c.
use ox.Base.{
  ℕ, ◌%◌, ◌<◌, ◌≡◌, ◌≢◌, refl, sym, ◌∙◌, inl, inr, false, true, none, some, arith, Bool-cases,
  Option-cases, ◌==◌, update,
}
use ox.Fs.Dev.{Sector, Ata, IsDisk}
use ox.Fs.Block.{Slot, Store, block_ok, array_size, block_free_mark, matches, find_slot}
use ox.Fs.Block.Search.{find_slot-some, find_slot-none}
use ox.Fs.Block.Contents.{
  IsValid, IsCoherent, IsAbsent, locate, contents, contents_cached, contents_absent,
}
use ox.Fs.Block.Flush.{free_slot, put_disk, block_free}
use ox.Fs.Block.Flush.Step.{
  put_disk-ok, flushed, flushed_holds, flushed-IsCoherent, contents-flushed,
}

-- Giving up slot i, whose bytes the disk has.
module _ {D : Type 0} (ata : Ata D) (slot : ℕ → Slot) (d : D) (i : ℕ) (bytes : Sector)
    (valid : IsValid slot) (inside : i < array_size) (used : (slot i).block ≢ block_free_mark)
    (saved : (slot i).bytes ≡ ata.sector d ((slot i).dev % 256) (slot i).block) where
  drop-IsValid : IsValid (update slot i (free_slot bytes))
  drop-IsValid = record {
    unique = λ a b ha hb ua eb ed. ground (arith, valid.unique a b);
    devices = λ a ha ua. ground (arith, valid.devices a);
    free_clean = λ a ha da. ground (arith, valid.free_clean a);
  }

  drop-IsCoherent : IsCoherent ata slot d → IsCoherent ata (update slot i (free_slot bytes)) d
  drop-IsCoherent coherent a ha ua ca = ground (arith, coherent a)

  drop-IsAbsent :
      (dev block : ℕ)
      → block ≢ block_free_mark
      → ((j : ℕ) → j < array_size → j ≢ i → matches (slot j) dev block ≡ false)
      → IsAbsent (update slot i (free_slot bytes)) dev block
  drop-IsAbsent dev block used' rest j h = ground (arith, rest j)

  contents-drop :
      (dev block : ℕ)
      → block ≢ block_free_mark
      → contents ata (update slot i (free_slot bytes)) d dev block ≡ contents ata slot d dev block
  contents-drop dev block used' = elim (locate slot dev block) [
    | inl (j, h, m) ↦ elim (Bool-cases (j == i)) [
      | inl here ↦
          contents_absent ata (update slot i (free_slot bytes)) d dev block
            (drop-IsAbsent dev block used' (λ k hk nk. ground (arith, valid.unique k j hk h)))
          ∙ sym (contents_cached ata slot d dev block j valid used' h m ∙ ground arith)
      | inr other ↦
          contents_cached ata (update slot i (free_slot bytes)) d dev block j drop-IsValid used' h
            (ground arith)
          ∙ ground arith
          ∙ sym (contents_cached ata slot d dev block j valid used' h m)
    ]
    | inr gone ↦
        contents_absent ata (update slot i (free_slot bytes)) d dev block
          (drop-IsAbsent dev block used' (λ k hk nk. gone k hk))
        ∙ sym (contents_absent ata slot d dev block gone)
  ]

module _ {D : Type 0} (ata : Ata D) where
  -- `s'` stands for the same blocks as `s` on every drive, and is well formed.
  pub record Kept (s s' : Store D) : Type 0 where
    pub valid : IsValid s'.slot
    pub coherent : IsCoherent ata s'.slot s'.disk
    pub same :
        (dev block : ℕ)
        → block ≢ block_free_mark
        → dev < 256
        → contents ata s'.slot s'.disk dev block ≡ contents ata s.slot s.disk dev block

  module _ (disk : IsDisk ata) (s : Store D) (valid : IsValid s.slot)
      (coherent : IsCoherent ata s.slot s.disk) (dev block : ℕ) (small : dev < 256)
      (used : block ≢ block_free_mark)
      (writes : (buf : Sector) → (ata.write s.disk (dev % 256) block buf).0 ≡ 0) where
    abbrev pub Freed : Store D → Type 0
    Freed s' = Kept s s' × IsAbsent s'.slot dev block

    -- The state in which slot i is given up, over a disk that has its bytes.
    abbrev dropped : ℕ → D → Store D
    dropped i d = record s {
      curr = i;
      slot = update s.slot i (free_slot (s.slot i).bytes);
      disk = d;
    }

    dropped-Freed :
        (i : ℕ) (d : D)
        → i < array_size
        → matches (s.slot i) dev block ≡ true
        → IsCoherent ata s.slot d
        → (s.slot i).bytes ≡ ata.sector d ((s.slot i).dev % 256) (s.slot i).block
        → ((dev' block' : ℕ)
            → block' ≢ block_free_mark
            → dev' < 256
            → contents ata s.slot d dev' block' ≡ contents ata s.slot s.disk dev' block')
        → Freed (dropped i d)
    dropped-Freed i d h m still saved same =
        let held : (s.slot i).block ≢ block_free_mark = ground arith in
        (
          record {
            valid = drop-IsValid ata s.slot d i _ valid h held saved;
            coherent = drop-IsCoherent ata s.slot d i _ valid h held saved still;
            same = λ dev' block' used' small'.
                contents-drop ata s.slot d i _ valid h held saved dev' block' used'
                ∙ same dev' block' used' small';
          },
          drop-IsAbsent ata s.slot d i _ valid h held saved dev block used
              (λ k hk nk. ground (arith, valid.unique k i hk h)),
        )

    free_clean :
        (i : ℕ)
        → find_slot array_size 0 s.slot dev block ≡ some i
        → (s.slot i).dirty ≡ false
        → block_free ata s dev block ≡ (block_ok, dropped i s.disk)
    unfolding block_free
    free_clean i e clean = ground arith

    free_dirty :
        (i : ℕ) (d : D)
        → find_slot array_size 0 s.slot dev block ≡ some i
        → (s.slot i).dirty ≡ true
        → put_disk ata s dev block (s.slot i).bytes ≡ (block_ok, record s { disk = d })
        → block_free ata s dev block ≡ (block_ok, dropped i d)
    unfolding block_free
    free_dirty i d e dirty wrote = ground arith

    free_absent :
        find_slot array_size 0 s.slot dev block ≡ none → block_free ata s dev block ≡ (block_ok, s)
    unfolding block_free
    free_absent e = ground arith

    -- block_free, on a valid and coherent cache, for a used block number and a device below 256,
    -- over a disk that keeps what is written and whose writes of the block succeed: it succeeds,
    -- the block is no longer in the cache, what every block of every device holds is as before,
    -- and the cache stays valid and coherent.
    pub block_free-Freed :
        ((block_free ata s dev block).0 ≡ block_ok)
        × Kept s (block_free ata s dev block).1
        × IsAbsent (block_free ata s dev block).1.slot dev block
    block_free-Freed = elim (Option-cases (find_slot array_size 0 s.slot dev block)) [
      | inl e ↦ rw (free_absent e) (
        refl,
        record { valid = valid; coherent = coherent; same = λ _ _ _ _. refl },
        λ j h. find_slot-none s.slot dev block array_size 0 j e (omega arith) h,
      )
      | inr (i, e) ↦
          let f = find_slot-some s.slot dev block array_size 0 i e in
          let ed : (s.slot i).dev ≡ dev = ground (arith, f.2) in
          let eb : (s.slot i).block ≡ block = ground (arith, f.2) in
          let held : (s.slot i).block ≢ block_free_mark = ground arith in
          let works : (ata.write s.disk ((s.slot i).dev % 256) (s.slot i).block (s.slot i).bytes).0
              ≡ 0 =
            rw (ed, eb) (writes _) in
          let d = flushed ata disk s.slot s.disk i valid coherent f.1 held works in
          elim (Bool-cases (s.slot i).dirty) [
            | inl dirty ↦
                let wrote : put_disk ata s dev block (s.slot i).bytes
                    ≡ (block_ok, record s { disk = d }) =
                  ground (arith, put_disk-ok ata disk s dev block (s.slot i).bytes) in
                let p =
                  dropped-Freed i d f.1 f.2
                    (flushed-IsCoherent ata disk s.slot s.disk i valid coherent f.1 held works)
                    (flushed_holds ata disk s.slot s.disk i valid coherent f.1 held works)
                    (contents-flushed ata disk s.slot s.disk i valid coherent f.1 held works) in
                rw (free_dirty i d e dirty wrote) (refl, p.0, p.1)
            | inr clean ↦
                let p =
                  dropped-Freed i s.disk f.1 f.2 coherent (coherent i f.1 held clean)
                    (λ _ _ _ _. refl) in
                rw (free_clean i e clean) (refl, p.0, p.1)
          ]
    ]
