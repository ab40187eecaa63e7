-- ===== src/Fs/Attribute/Tests.antt =====
-- The mode of a file at the root of a tree.
use ox.Base.{bit_or, ◌≡◌, refl, true, some, [], ◌∷◌, arith}
use ox.Fs.Path.Canonical.{joined}
use ox.Fs.Lookup.Tests.{
  root_inode, file, tree, root_Leads-file, root_Leads-file-EndsIn, a_IsName, root_path,
}
use ox.Fs.Attribute.{System, stat_of, kchmod, kstat}
use ox.Fs.Attribute.Change.{IsAtPath, IsHome, kchmod-kstat}

abbrev system : System
system = record { tree = tree; recursions = 0; errno = 0; cwd = 4100 }

file-IsAtPath : IsAtPath tree 5 5 3 4100 (b'a' ∷ []) [] file
unfolding joined
file-IsAtPath = record {
  names = (a_IsName, tt);
  short = omega arith;
  root_inode = root_inode;
  root_read = refl;
  root_path = root_path;
  leads = root_Leads-file;
  soft = refl;
  hard = refl;
}

file-IsHome : IsHome file-IsAtPath
unfolding file-IsAtPath
file-IsHome = record { root_self = refl; ends = root_Leads-file-EndsIn }

kchmod-kstat_example :
    (s' : System) × (kchmod 9 0 5 5 0 3
        (some 4100)
        0
        (λ b. true)
        system
        (joined ((b'a' ∷ []) ∷ []))
        420
      ≡ some (0, s'))
    × (kstat 9 0 5 5 0 3 (some 4100) 0 (λ b. true) s' (joined ((b'a' ∷ []) ∷ [])) true
        ≡ some (0, some (record (stat_of 0 file) { st_mode = bit_or 420 32768; st_mtime = 9 }), s'))
kchmod-kstat_example =
    kchmod-kstat 9 0 5 5 0 3 4100 (λ b. true) (b'a' ∷ []) [] system file 420 file-IsAtPath
      file-IsHome refl refl refl (omega arith)
