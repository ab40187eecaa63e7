-- ===== src/Fs/Lookup/Tests.antt =====
-- inode_get and kreadlink at a root directory with a file and two links.
use ox.Base.{
  ℕ, ◌≡◌, ◌≢◌, refl, true, false, ◌==◌, inl, sym, ◌∙◌, none, some, List, [], ◌∷◌, if◌then◌else◌,
  arith,
}
use mathlib.Core.Path.{subst}
use ox.Fs.Inode.{Inode, inode_null, rx, read_only, eacces}
use ox.Fs.Inode.Permission.{inode_check_permissions}
use ox.Fs.Inode.Permission.Check.{is_access, asks, allowed, inode_check_permissions-allowed}
use ox.Fs.Descriptor.{zero_inode}
use ox.Libk.Strings.{strcmp}
use ox.Fs.Directory.{BlockMap, DirIo}
use ox.Fs.Path.{slash, path_einval}
use ox.Fs.Path.Canonical.{IsName, joined}
use ox.Fs.Lookup.{Tree, failed, absent, reached, eloop, max_recursion}
use ox.Fs.Lookup.Call.{is_root, kreadlink, inode_get}
use ox.Fs.Lookup.Scan.{listed, taken, Finds, Lacks, finds_here, finds_later, lacks_all, lacks_next}
use ox.Fs.Lookup.Walk.{Opens, Leads, Breaks, leads_here, breaks_here}
use ox.Fs.Attribute.Keep.{EndsIn}
use ox.Fs.Lookup.Get.{inode_get-Leads, inode_get-Breaks}
use ox.Fs.Lookup.Link.{LinksTo, resolves_end, resolves_on, kreadlink-Resolves, kreadlink_loop}

abbrev pub root_inode : Inode
root_inode = record zero_inode {
  is_directory = 1;
  world_read = 1;
  world_execute = 1;
  self = 4100;
  path = slash ∷ [];
  next = 50;
}

abbrev pub file : Inode
file = record zero_inode { is_file = 1; world_read = 1; self = 77; path = b'a' ∷ [] }

-- "l" is a link to "/a", and "o" one to "/o".
abbrev link : Inode
link = record zero_inode { is_symlink = 1; self = 78; path = b'l' ∷ []; next = 60 }

-- "m" is a link to "/l", in another directory.
abbrev second : Inode
second = record zero_inode { is_symlink = 1; self = 80; path = b'm' ∷ []; next = 62 }

abbrev back : Inode
back = record zero_inode { is_symlink = 1; self = 79; path = b'o' ∷ []; next = 61 }

abbrev map : BlockMap
map = record {
  next = 0;
  blocks = λ i. if i == 1 then 77 else if i == 2 then 78 else if i == 126 then 79 else 0;
}

abbrev disk : DirIo
disk = record {
  read_map = λ b. if b == 50 then some map else none;
  read_inode = λ b.
      if b == 4100
      then some root_inode
      else if b == 77
      then some file
      else if b == 78
      then some link
      else if b == 79
      then some back
      else if b == 80
      then some second
      else none;
}

abbrev pub tree : Tree
tree = record {
  io = disk;
  read_link = λ b.
      if b == 60
      then some (slash ∷ b'a' ∷ [])
      else if b == 61
      then some (slash ∷ b'o' ∷ [])
      else if b == 62
      then some (slash ∷ b'l' ∷ [])
      else none;
  root_writes = true;
  inode_block = none;
  as_map = λ i. map;
  as_link = λ i. [];
}

abbrev maps : List (ℕ → ℕ)
maps = map.blocks ∷ []

IsName-letter : (c : ℕ) → c ≢ 0 → (c == slash) ≡ false → (c == b'.') ≡ false → IsName (c ∷ [])
IsName-letter c plain clear no_dot = record {
  real = λ e. omega (arith, e);
  plain = (plain, tt);
  clear = (clear, tt);
  no_dot = no_dot;
  no_dotdot = refl;
}

root_allowed : allowed root_inode 5 5 rx ≡ true
unfolding allowed asks
root_allowed = refl

root_Opens : Opens disk 5 5 3 4100 maps
unfolding is_access asks
root_Opens = record {
  inode = root_inode;
  read = refl;
  directory = refl;
  no_link = refl;
  allowed = inode_check_permissions-allowed root_inode 5 5 rx refl ∙ root_allowed;
  real = λ e. omega (arith, e);
  maps = (map, (λ e. omega (arith, e)), refl, refl, refl);
  fits = omega arith;
}

listed_maps : listed maps ≡ 77 ∷ 78 ∷ 79 ∷ []
unfolding listed taken
listed_maps = refl

pub root_Leads-file : Leads disk 5 5 3 4100 ((b'a' ∷ []) ∷ []) file
unfolding strcmp
root_Leads-file =
    leads_here {d = 77} maps root_Opens
      (subst (λ l. Finds disk l (b'a' ∷ []) 77 file) (sym listed_maps) (finds_here refl refl))

-- No block map of the root is the block of the file.
pub root_Leads-file-EndsIn : EndsIn root_Leads-file 77
unfolding root_Leads-file root_Opens
root_Leads-file-EndsIn = (refl, ((λ e. omega (arith, e)), tt))

root_Leads-back : Leads disk 5 5 3 4100 ((b'o' ∷ []) ∷ []) back
unfolding strcmp
root_Leads-back = leads_here {d = 79} maps root_Opens (
    subst (λ l. Finds disk l (b'o' ∷ []) 79 back) (sym listed_maps)
      (finds_later file refl refl (finds_later link refl refl (finds_here refl refl))))

root_Breaks : Breaks disk 5 5 3 4100 ((b'z' ∷ []) ∷ [])
unfolding strcmp
root_Breaks = breaks_here maps root_Opens (
    subst (λ l. Lacks disk l (b'z' ∷ [])) (sym listed_maps)
      (lacks_next file refl refl (lacks_next link refl refl (lacks_next back refl refl lacks_all))))

pub root_path : is_root root_inode.path ≡ true
unfolding strcmp
root_path = refl

pub a_IsName : IsName (b'a' ∷ [])
a_IsName = IsName-letter b'a' (λ e. omega (arith, e)) refl refl

o_IsName : IsName (b'o' ∷ [])
o_IsName = IsName-letter b'o' (λ e. omega (arith, e)) refl refl

z_IsName : IsName (b'z' ∷ [])
z_IsName = IsName-letter b'z' (λ e. omega (arith, e)) refl refl

inode_get-Leads_example :
    inode_get 9 0 5 5 0 3 (some 4100) tree 0 4100 (joined ((b'a' ∷ []) ∷ [])) true read_only
    ≡ some (
        if inode_check_permissions file 5 5 read_only
        then reached tree 0 file
        else failed tree 0 eacces)
unfolding joined
inode_get-Leads_example =
    inode_get-Leads 9 0 5 5 0 3 4100 tree true read_only 0 4100 (b'a' ∷ []) [] root_inode file
      (a_IsName, tt) (omega arith) refl root_path root_Leads-file (inl (refl, refl))

inode_get-Breaks_example :
    inode_get 9 0 5 5 0 3 (some 4100) tree 0 4100 (joined ((b'z' ∷ []) ∷ [])) true read_only
    ≡ some (absent tree 0 none)
unfolding joined
inode_get-Breaks_example =
    inode_get-Breaks 9 0 5 5 0 3 4100 tree true read_only 0 4100 (b'z' ∷ []) [] root_inode
      (z_IsName, tt) (omega arith) refl root_path root_Breaks

link_LinksTo : LinksTo 9 0 5 5 3 4100 tree 78 (b'a' ∷ []) [] root_inode
unfolding joined
link_LinksTo = record {
  inode = link;
  read = refl;
  link = refl;
  path = refl;
  names = (a_IsName, tt);
  short = omega arith;
  root_read = refl;
  root_path = root_path;
}

back_LinksTo : LinksTo 9 0 5 5 3 4100 tree 79 (b'o' ∷ []) [] root_inode
unfolding joined
back_LinksTo = record {
  inode = back;
  read = refl;
  link = refl;
  path = refl;
  names = (o_IsName, tt);
  short = omega arith;
  root_read = refl;
  root_path = root_path;
}

l_IsName : IsName (b'l' ∷ [])
l_IsName = IsName-letter b'l' (λ e. omega (arith, e)) refl refl

root_Leads-link : Leads disk 5 5 3 4100 ((b'l' ∷ []) ∷ []) link
unfolding strcmp
root_Leads-link = leads_here {d = 78} maps root_Opens (
    subst (λ l. Finds disk l (b'l' ∷ []) 78 link) (sym listed_maps)
      (finds_later file refl refl (finds_here refl refl)))

second_LinksTo : LinksTo 9 0 5 5 3 4100 tree 80 (b'l' ∷ []) [] root_inode
unfolding joined
second_LinksTo = record {
  inode = second;
  read = refl;
  link = refl;
  path = refl;
  names = (l_IsName, tt);
  short = omega arith;
  root_read = refl;
  root_path = root_path;
}

kreadlink-Resolves_example : kreadlink 9 0 5 5 2 3 (some 4100) tree 0 80 ≡ some (77, 0, 0)
kreadlink-Resolves_example =
    kreadlink-Resolves 9 0 5 5 3 4100 tree 2 2 0 80 file
      (resolves_on (b'l' ∷ []) [] root_inode link second_LinksTo root_Leads-link refl
        (λ e. omega (arith, e)) refl
        (resolves_end (b'a' ∷ []) [] root_inode link_LinksTo root_Leads-file (refl, refl)))
      (omega arith) (omega arith)

kreadlink_loop_example :
    (kreadlink 9 0 5 5 1030 3 (some 4100) tree 0 79 ≡ some (inode_null, path_einval, max_recursion))
    × (kreadlink 9 0 5 5 1030 3 (some 4100) tree max_recursion 78
        ≡ some (inode_null, eloop, max_recursion))
kreadlink_loop_example =
    kreadlink_loop 9 0 5 5 3 4100 tree 1023 1030 0 79 78 (b'o' ∷ []) [] root_inode back back_LinksTo
      root_Leads-back refl refl refl (omega arith)
