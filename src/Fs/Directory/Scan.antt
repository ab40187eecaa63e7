-- ===== src/Fs/Directory/Scan.antt =====
-- The entries that kreaddir of fs/dir.c finds.
use ox.Base.{
  ℕ, zero, suc, ◌+◌, ◌-◌, ◌*◌, ◌/◌, ◌%◌, ◌<◌, ◌≤◌, ◌≡◌, ◌≢◌, ◌⊎◌, refl, sym, ap, ◌∙◌, inl, inr,
  true, false, not, ◌&&◌, ◌==◌, Option, some, List, [], ◌∷◌, ◌++◌, length, ltb, arith, Bool-cases,
}
use mathlib.Core.Path.{subst}
use ox.Fs.Inode.{Inode, inode_null}
use ox.Fs.Directory.Chain.{numbers, Chain, Holds, seek_map-Holds}
use ox.Fs.Directory.{
  bmap_blocks, DirIo, Dirent, Dir, entry_of, ended, retry, seek_map, read_entry, find_map,
  readdir_round, readdir_loop, kreaddir,
}

module _ (io : DirIo) where
  -- The map of the n-th number is at hand.
  pub record AtHand (dir : Dir) (n d : ℕ) : Type 0 where
    pub pointer : dir.block_ptr ≡ n / bmap_blocks
    pub holds : Holds io dir.block n d

  -- A block at hand is the one that its pointer leads to.
  abbrev pub IsSynced : Dir → Type 0
  IsSynced dir =
      dir.block ≢ inode_null
      → seek_map io dir.block_ptr 0 dir.next ≡ (true, dir.block_ptr, dir.block)

  module _ (ms : List (ℕ → ℕ)) where
    -- Whichever block is at hand: the right one is, or is after one round.
    find_lem :
        (dir : Dir) (n d : ℕ)
        → Chain io dir.next ms
        → IsSynced dir
        → dir.offset ≡ n + 2
        → numbers ms n ≡ some d
        → AtHand dir n d
          ⊎ ((e : Dir) × (readdir_round io dir ≡ retry e)
              × AtHand e n d
              × IsSynced e
              × (e.offset ≡ dir.offset)
              × (e.next ≡ dir.next)
              × (e.path ≡ dir.path))
    unfolding readdir_round find_map
    find_lem dir n d chain synced at h =
        let (c, reached, holds) = seek_map-Holds io ms dir.next n d 0 chain h in
        let exact : seek_map io (n / bmap_blocks) 0 dir.next ≡ (true, n / bmap_blocks, c) =
          reached ∙ ap (λ k. (true, k, c)) (omega arith) in
        let index : dir.offset - 2 ≡ n = omega (arith, at) in
        elim (Bool-cases ((dir.block_ptr == n / bmap_blocks) && not (dir.block == inode_null))) [
          | inl here ↦
              let pointer : dir.block_ptr ≡ n / bmap_blocks = ground arith in
              let real : dir.block ≢ inode_null = ground arith in
              let mine : seek_map io (n / bmap_blocks) 0 dir.next
                  ≡ (true, n / bmap_blocks, dir.block) =
                subst (λ k. seek_map io k 0 dir.next ≡ (true, k, dir.block)) pointer
                  (synced real) in
              let same : c ≡ dir.block = ap (λ r. r.2) (sym exact ∙ mine) in
              inl (record { pointer = pointer; holds = subst (λ k. Holds io k n d) same holds })
          | inr away ↦
              let real : (c == inode_null) ≡ false = ground (arith, holds.real) in
              inr (
                record dir { block_ptr = n / bmap_blocks; block = c },
                rw (index, away, exact, real) refl,
                record { pointer = refl; holds = holds },
                λ ne. exact,
                refl,
                refl,
                refl,
              )
        ]

    -- A round with the map at hand.
    read_lem :
        (dir : Dir) (n d : ℕ)
        → dir.offset ≡ n + 2
        → AtHand dir n d
        → readdir_round io dir ≡ read_entry io dir (n % bmap_blocks)
    unfolding readdir_round
    read_lem dir n d at hand =
        let index : dir.offset - 2 ≡ n = omega (arith, at) in
        let here : ((dir.block_ptr == n / bmap_blocks) && not (dir.block == inode_null)) ≡ true =
          ground (arith, hand.pointer, hand.holds.real) in
        rw (index, here) refl

    skip_lem :
        (dir : Dir) (n : ℕ)
        → dir.offset ≡ n + 2
        → AtHand dir n inode_null
        → readdir_round io dir ≡ retry (record dir { offset = dir.offset + 1 })
    unfolding read_entry
    skip_lem dir n at hand =
        read_lem dir n inode_null at hand ∙ rw (hand.holds.read, read_entry, hand.holds.number) refl

    give_lem :
        (dir : Dir) (n d : ℕ) (i : Inode)
        → dir.offset ≡ n + 2
        → AtHand dir n d
        → d ≢ inode_null
        → io.read_inode d ≡ some i
        → readdir_round io dir
          ≡ ended
              (some (entry_of dir d (n % bmap_blocks) i))
              (record dir { offset = dir.offset + 1 })
    unfolding read_entry
    give_lem dir n d i at hand ne read =
        let real : (d == inode_null) ≡ false = ground (arith, ne) in
        read_lem dir n d at hand
        ∙ rw (hand.holds.read, read_entry, hand.holds.number, real, read)
            (ap
              (λ t.
                ended (some (entry_of dir t (n % bmap_blocks) i))
                  (record dir { offset = dir.offset + 1 }))
              hand.holds.number)

    -- kreaddir gave the n-th number's entry, and goes on behind it.
    pub record Given (dir : Dir) (n d : ℕ) (i : Inode) (r : Option (Option Dirent × Dir))
        : Type 0 where
      pub after : Dir
      pub result : r ≡ some (some (entry_of dir d (n % bmap_blocks) i), after)
      pub offset : after.offset ≡ n + 3
      pub synced : IsSynced after
      pub next : after.next ≡ dir.next
      pub path : after.path ≡ dir.path

    -- The n-th number is d, and those before it from the j-th on are 0.
    pub record IsNext (j n d : ℕ) : Type 0 where
      pub number : numbers ms n ≡ some d
      pub real : d ≢ inode_null
      pub empty : (x : ℕ) → j ≤ x → x < n → numbers ms x ≡ some inode_null

    module _ (d : ℕ) (i : Inode) (read : io.read_inode d ≡ some i) where
      -- What holds with fuel f of every directory with c numbers to pass.
      abbrev Claim : ℕ → ℕ → Type 0
      Claim c f =
          (dir : Dir) (j n : ℕ)
          → n ≡ j + c
          → Chain io dir.next ms
          → IsSynced dir
          → dir.offset ≡ j + 2
          → IsNext j n d
          → Given dir n d i (readdir_loop io f dir)

      -- And if the map of the j-th number is at hand.
      abbrev ClaimAt : ℕ → ℕ → Type 0
      ClaimAt c f =
          (dir : Dir) (j n e : ℕ)
          → n ≡ j + c
          → Chain io dir.next ms
          → IsSynced dir
          → dir.offset ≡ j + 2
          → IsNext j n d
          → numbers ms j ≡ some e
          → AtHand dir j e
          → Given dir n d i (readdir_loop io f dir)

      first_number : (c j n : ℕ) → n ≡ j + c → IsNext j n d → (e : ℕ) × (numbers ms j ≡ some e)
      first_number zero j n at next =
          let same : n ≡ j = omega (arith, at) in
          (d, subst (λ k. numbers ms k ≡ some d) same next.number)
      first_number (suc c) j n at next =
          (inode_null, next.empty j (omega arith) (omega (arith, at)))

      claim : (c f : ℕ) → ClaimAt c f → ClaimAt c (suc f) → Claim c (suc f)
      unfolding readdir_loop
      claim c f later now dir j n at chain synced offset next =
          let (e, number) = first_number c j n at next in
          elim (find_lem dir j e chain synced offset number) [
            | inl hand ↦ now dir j n e at chain synced offset next number hand
            | inr (dir', round, hand, synced', offset', next', path') ↦
                let chain' : Chain io dir'.next ms = subst (λ b. Chain io b ms) (sym next') chain in
                let g = later dir' j n e at chain' synced' (offset' ∙ offset) next number hand in
                record {
                  after = g.after;
                  result =
                      rw (round, readdir_loop)
                        (g.result
                          ∙ ap
                              (λ p. some (
                                some (entry_of (record dir { path = p }) d (n % bmap_blocks) i),
                                g.after,
                              ))
                              path');
                  offset = g.offset;
                  synced = g.synced;
                  next = g.next ∙ next';
                  path = g.path ∙ path';
                }
          ]

      claim_at : (c f : ℕ) → 2 * c < f → ClaimAt c f
      unfolding readdir_loop
      claim_at c zero fuel dir j n e at chain synced offset next number hand = absurd (omega arith)
      claim_at zero (suc f) fuel dir j n e at chain synced offset next number hand =
          let same : n ≡ j = omega (arith, at) in
          let number' : numbers ms j ≡ some d =
            subst (λ k. numbers ms k ≡ some d) same next.number in
          let mine : e ≡ d = ground (arith, number, number') in
          let hand' : AtHand dir n d =
            subst (λ k. AtHand dir n k) mine (subst (λ k. AtHand dir k e) (sym same) hand) in
          let offset' : dir.offset ≡ n + 2 = omega (arith, offset, same) in
          record {
            after = record dir { offset = dir.offset + 1 };
            result = rw (give_lem dir n d i offset' hand' next.real read, readdir_loop) refl;
            offset = omega (arith, offset');
            synced = synced;
            next = refl;
            path = refl;
          }
      claim_at (suc c) (suc zero) fuel dir j n e at chain synced offset next number hand =
          absurd (omega arith)
      claim_at (suc c) (suc (suc f)) fuel dir j n e at chain synced offset next number hand =
          let number' = next.empty j (omega arith) (omega (arith, at)) in
          let mine : e ≡ inode_null = ground (arith, number, number') in
          let hand' : AtHand dir j inode_null = subst (λ k. AtHand dir j k) mine hand in
          let dir' : Dir = record dir { offset = dir.offset + 1 } in
          let next' : IsNext (suc j) n d = record {
            number = next.number;
            real = next.real;
            empty = λ x lo hi. next.empty x (omega (arith, lo)) hi;
          } in
          let g =
            claim c f (claim_at c f (omega (arith, fuel)))
              (claim_at c (suc f) (omega (arith, fuel))) dir' (suc j) n (omega (arith, at)) chain
              synced (omega (arith, offset)) next' in
          record {
            after = g.after;
            result = rw (skip_lem dir j offset hand', readdir_loop) g.result;
            offset = g.offset;
            synced = g.synced;
            next = g.next;
            path = g.path;
          }

      -- For a directory whose block maps are a finite list, with any block of the list or none at
      -- hand, behind the entries . and .. at the place of the j-th number: if d is the first
      -- number from there on that is not 0, its inode can be read, and the path of the directory
      -- with a '/' and the inode's name fits the 256 characters of d_name, then kreaddir, with
      -- two rounds for each number up to it, gives the entry of that inode and number, stands
      -- behind it, with the block at hand again one of the list, and changes neither the
      -- directory's first block nor its path.
      pub kreaddir-Given :
          (dir : Dir) (j n f : ℕ)
          → Chain io dir.next ms
          → IsSynced dir
          → dir.offset ≡ j + 2
          → j ≤ n
          → IsNext j n d
          → 2 * (n - j) + 1 < f
          → length (dir.path ++ ((b'/' ∷ []) ++ i.path)) < 256
          → Given dir n d i (kreaddir io f dir)
      unfolding kreaddir
      kreaddir-Given dir j n zero chain synced offset before next fuel short = absurd (omega arith)
      kreaddir-Given dir j n (suc f) chain synced offset before next fuel short =
          let c = n - j in
          let files : ltb dir.offset 2 ≡ false = ground (arith, offset) in
          let g =
            claim c f (claim_at c f (omega (arith, fuel)))
              (claim_at c (suc f) (omega (arith, fuel))) dir j n (omega (arith, before)) chain
              synced offset next in
          let fits : ltb (length (dir.path ++ ((b'/' ∷ []) ++ i.path))) 256 ≡ true =
            ground (arith, short) in
          record {
            after = g.after;
            result = rw (files, kreaddir, g.result, fits) refl;
            offset = g.offset;
            synced = g.synced;
            next = g.next;
            path = g.path;
          }
