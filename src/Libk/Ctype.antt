-- ===== src/Libk/Ctype.antt =====
-- The tests of include/ox/lib/ctype.h that the conversions use. A `char` is its pattern of 8 bits:
-- the patterns of negative values fail each test, as those values do.
use ox.Base.{ℕ, Bool, ◌&&◌, ◌||◌, leb}

abbrev pub isdigit : ℕ → Bool
isdigit c = leb 0x30 c && leb c 0x39

abbrev pub islower : ℕ → Bool
islower c = leb 0x61 c && leb c 0x7a

abbrev pub isupper : ℕ → Bool
isupper c = leb 0x41 c && leb c 0x5a

abbrev pub isxdigit : ℕ → Bool
isxdigit c = isdigit c || ((leb 0x41 c && leb c 0x46) || (leb 0x61 c && leb c 0x66))
