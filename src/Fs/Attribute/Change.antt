-- ===== src/Fs/Attribute/Change.antt =====
-- kstat of fs/file.c behind kchmod, kchown and klchown.
use ox.Base.{
  ℕ, ◌≤◌, ◌<◌, bit_or, false, ◌≡◌, inl, refl, ap, ◌∙◌, Bool, true, ◌==◌, some, List, ◌∷◌, length,
}
use mathlib.Core.Path.{subst}
use ox.Fs.Inode.{Inode, dont_check}
use ox.Fs.Inode.Permission.{inode_get_permissions, inode_set_permissions}
use ox.Fs.Inode.Permission.Bits.{file_mode, inode_get_permissions_lem}
use ox.Fs.Inode.Permission.Check.{inode_check_permissions-dont_check, inode_set_permissions_lem}
use ox.Fs.Path.{max_length}
use ox.Fs.Path.Canonical.{joined, AreNames}
use ox.Fs.Lookup.{Tree, eok, reached}
use ox.Fs.Lookup.Call.{is_root, put_root}
use ox.Fs.Lookup.Walk.{Leads}
use ox.Fs.Lookup.Get.{inode_get-Leads}
use ox.Fs.Attribute.{
  System, stat_of, set_owner, get_path, stat_path, kstat, change_path, kchmod, kchown,
}
use ox.Fs.Attribute.Keep.{EndsIn, IsRenewed, Leads-kept, Leads-start, Leads-read_inode}

-- A path of names of files that leads, in a tree with its root, to an inode that is no link.
pub record IsAtPath (tree : Tree) (group owner n root : ℕ) (w : List ℕ) (ws : List (List ℕ))
    (t : Inode) : Type 0 where
  pub names : AreNames (w ∷ ws)
  pub short : length (joined (w ∷ ws)) ≤ max_length
  pub root_inode : Inode
  pub root_read : tree.io.read_inode root ≡ some root_inode
  pub root_path : is_root root_inode.path ≡ true
  pub leads : Leads tree.io group owner n root_inode.self (w ∷ ws) t
  pub soft : (t.is_symlink == 0) ≡ true
  pub hard : (t.is_hardlink == 0) ≡ true

-- The root and the inode at the end have the numbers of their blocks for themselves, and the block of
-- the latter is none of the block maps of the directories on the way.
pub record IsHome {tree : Tree} {group owner n root : ℕ} {w : List ℕ} {ws : List (List ℕ)}
    {t : Inode} (p : IsAtPath tree group owner n root w ws t) : Type 0 where
  pub root_self : p.root_inode.self ≡ root
  pub ends : EndsIn p.leads t.self

abbrev pub touched : ℕ → Inode → Inode
touched now inode = record inode { modified_time = now }

module _ (now dev group owner depth n root : ℕ) (writes : ℕ → Bool) (w : List ℕ)
    (ws : List (List ℕ)) where
  get_path-IsAtPath :
      (s : System) (t : Inode) (do_readlink : Bool)
      → IsAtPath s.tree group owner n root w ws t
      → get_path now dev group owner depth n (some root) 0 writes s (joined (w ∷ ws)) do_readlink
        ≡ some (reached s.tree s.recursions t)
  get_path-IsAtPath s t do_readlink p =
      inode_get-Leads now dev group owner depth n root s.tree do_readlink dont_check s.recursions
        s.cwd w ws p.root_inode t p.names p.short p.root_read p.root_path p.leads
        (inl (p.soft, p.hard))
      ∙ rw (inode_check_permissions-dont_check t group owner) refl

  kstat-IsAtPath :
      (s : System) (t : Inode)
      → IsAtPath s.tree group owner n root w ws t
      → kstat now dev group owner depth n (some root) 0 writes s (joined (w ∷ ws)) true
        ≡ some (0, some (stat_of dev t), record s { errno = eok })
  unfolding kstat stat_path
  kstat-IsAtPath s t p = rw (get_path-IsAtPath s t true p) refl

  -- The path behind a change of the file.
  renewed :
      (tree : Tree) (t new : Inode) (p : IsAtPath tree group owner n root w ws t)
      → IsHome p
      → (t.is_directory == 0) ≡ true
      → new.path ≡ t.path
      → new.is_symlink ≡ t.is_symlink
      → new.is_hardlink ≡ t.is_hardlink
      → IsAtPath (put_root tree t.self new) group owner n root w ws new
  renewed tree t new p home plain path soft hard =
      let at = Leads-read_inode tree.io p.leads home.ends in
      let r : IsRenewed tree t new = record { read = at; path = path; plain = plain } in
      record {
        names = p.names;
        short = p.short;
        root_inode = p.root_inode;
        root_read =
            subst (λ b. (put_root tree t.self new).io.read_inode b ≡ some p.root_inode)
              home.root_self
              (Leads-start tree t new r p.leads
                ∙ ap tree.io.read_inode home.root_self
                ∙ p.root_read);
        root_path = p.root_path;
        leads = Leads-kept tree t new r p.leads home.ends;
        soft = ap (λ k. k == 0) soft ∙ p.soft;
        hard = ap (λ k. k == 0) hard ∙ p.hard;
      }

  change_path-IsAtPath :
      (change : Inode → Inode) (s : System) (t : Inode)
      → IsAtPath s.tree group owner n root w ws t
      → (change t).self ≡ t.self
      → writes t.self ≡ true
      → change_path now dev group owner depth n (some root) 0 writes true change s (joined (w ∷ ws))
        ≡ some (0, record s { tree = put_root s.tree t.self (touched now (change t)); errno = eok })
  unfolding change_path
  change_path-IsAtPath change s t p same ok =
      rw (change_path, get_path-IsAtPath s t true p, same, ok) refl

  changed_stat :
      (t : Inode) (mode : ℕ)
      → mode < 512
      → (t.is_symlink == 0) ≡ true
      → (t.is_directory == 0) ≡ true
      → (t.is_file == 0) ≡ false
      → stat_of dev (touched now (inode_set_permissions t mode 0))
        ≡ record (stat_of dev t) { st_mode = bit_or mode 32768; st_mtime = now }
  changed_stat t mode small soft plain file =
      let j = inode_set_permissions t mode 0 in
      let of_mode : inode_get_permissions (touched now j) ≡ bit_or mode 32768 =
        inode_get_permissions_lem j now j.owner j.group ∙ file_mode t mode small soft plain file in
      ap (λ m. record (stat_of dev (touched now j)) { st_mode = m }) of_mode
      ∙ ap (λ x. record (stat_of dev (touched now x)) { st_mode = bit_or mode 32768 })
          (inode_set_permissions_lem t mode 0)

  -- For an umask of 0, a mode below 01000, and an absolute path of names of files, of at most 253
  -- characters, that leads in a tree that has its root, through directories that the caller may
  -- read and search, to a file that is no directory and no link, where the root and the file are
  -- in the blocks that they have for their own numbers, and the file's block can be written and
  -- is none of the block maps of the directories on the way: kchmod of the path gives 0, and
  -- kstat of the path behind it gives 0 and the attributes that the file had, but with the bits
  -- of the mode and the bit of a regular file as its mode and with the time of the change.
  pub kchmod-kstat :
      (s : System) (t : Inode) (mode : ℕ) (p : IsAtPath s.tree group owner n root w ws t)
      → IsHome p
      → (t.is_directory == 0) ≡ true
      → (t.is_file == 0) ≡ false
      → writes t.self ≡ true
      → mode < 512
      → (s' : System) × (kchmod now dev group owner depth n
            (some root)
            0
            writes
            s
            (joined (w ∷ ws))
            mode
          ≡ some (0, s'))
        × (kstat now dev group owner depth n (some root) 0 writes s' (joined (w ∷ ws)) true
            ≡ some (
              0,
              some (record (stat_of dev t) { st_mode = bit_or mode 32768; st_mtime = now }),
              s',
            ))
  unfolding kchmod
  kchmod-kstat s t mode p home plain file ok small =
      let same = inode_set_permissions_lem t mode 0 in
      let new = touched now (inode_set_permissions t mode 0) in
      let s' : System = record s { tree = put_root s.tree t.self new; errno = eok } in
      (
        s',
        change_path-IsAtPath (λ inode. inode_set_permissions inode mode 0) s t p
            (ap (λ i. i.self) same) ok,
        kstat-IsAtPath s' new (
              renewed s.tree t new p home plain (ap (λ i. i.path) same)
                (ap (λ i. i.is_symlink) same) (ap (λ i. i.is_hardlink) same))
            ∙ ap (λ v. some (0, some v, s')) (changed_stat t mode small p.soft plain file),
      )

  -- B
  pub kchown-kstat :
      (s : System) (t : Inode) (new_owner new_group : ℕ)
      (p : IsAtPath s.tree group owner n root w ws t)
      → IsHome p
      → (t.is_directory == 0) ≡ true
      → writes t.self ≡ true
      → (s' : System) × (kchown now dev group owner depth n
            (some root)
            0
            writes
            s
            (joined (w ∷ ws))
            new_owner
            new_group
          ≡ some (0, s'))
        × (kstat now dev group owner depth n (some root) 0 writes s' (joined (w ∷ ws)) true
            ≡ some (
              0,
              some (record (stat_of dev t) {
                st_uid = new_owner;
                st_gid = new_group;
                st_mtime = now;
              }),
              s',
            ))
  unfolding kchown
  kchown-kstat s t new_owner new_group p home plain ok =
      let new = touched now (set_owner new_owner new_group t) in
      let s' : System = record s { tree = put_root s.tree t.self new; errno = eok } in
      (
        s',
        change_path-IsAtPath (set_owner new_owner new_group) s t p refl ok,
        kstat-IsAtPath s' new (renewed s.tree t new p home plain refl refl refl)
            ∙ ap (λ m. some (0, some (record (stat_of dev new) { st_mode = m }), s'))
                (inode_get_permissions_lem t now new_owner new_group),
      )
