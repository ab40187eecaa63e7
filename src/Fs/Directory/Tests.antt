-- ===== src/Fs/Directory/Tests.antt =====
-- A directory of fs/dir.c with one file behind a place that is free.
use ox.Base.{refl, ◌==◌, none, some, [], ◌∷◌, if◌then◌else◌, arith}
use ox.Fs.Inode.{Inode}
use ox.Fs.Descriptor.{zero_inode}
use ox.Fs.Directory.{BlockMap, DirIo, Dir, kreaddir}
use ox.Fs.Directory.Chain.{numbers, Chain}
use ox.Fs.Directory.Scan.{IsNext, Given, kreaddir-Given}

abbrev file : Inode
file = record zero_inode { is_file = 1; size = 12; path = b'a' ∷ [] }

abbrev map : BlockMap
map = record { next = 0; blocks = λ i. if i == 1 then 77 else 0 }

abbrev disk : DirIo
disk = record {
  read_map = λ b. if b == 50 then some map else none;
  read_inode = λ b. if b == 77 then some file else none;
}

abbrev opened : Dir
opened = record { offset = 2; block_ptr = 0; block = 0; next = 50; path = b'/' ∷ [] }

opened-Chain : Chain disk opened.next (map.blocks ∷ [])
opened-Chain = (map, omega arith, refl, refl, refl)

opened-IsNext : IsNext disk (map.blocks ∷ []) 0 1 77
unfolding numbers
opened-IsNext = record { number = refl; real = omega arith; empty = λ x lo hi. ground arith }

kreaddir-Given_example : Given disk (map.blocks ∷ []) opened 1 77 file (kreaddir disk 4 opened)
kreaddir-Given_example =
    kreaddir-Given disk (map.blocks ∷ []) 77 file refl opened 0 1 4 opened-Chain
      (λ ne. absurd (ne refl)) refl (omega arith) opened-IsNext (omega arith) (omega arith)
