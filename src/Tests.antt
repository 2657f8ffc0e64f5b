-- ===== src/Tests.antt =====
-- The dentry cache and the walk at concrete inputs: a small file system with "/", "/bin" with
-- "sh" in it, and a link "/usr" to "/bin".
use linux_vfs.Base.{
  ltb, ℕ, ◌%◌, ◌^◌, ◌≡◌, refl, ◌↔◌, true, false, Option, none, some, List, [], ◌∷◌, ◌++◌, ◌==◌,
  if◌then◌else◌, arith, length,
}
use linux_vfs.Base.Bits.{test, clear}
use linux_vfs.Base.Errno.{Errno, enoent, exdev, Result, ok, err}
use linux_vfs.Vfs.{Qstr, Dentry, Inode, Loc, Vfs, Driver, valid}
use linux_vfs.Dcache.{
  d_alloc, d_alloc_name, d_add, d_lookup_rcu, d_flags_for_inode, d_rehash, set_inode_and_type,
  first, matches_rcu, dentry_cmp, string_differs,
}
use linux_vfs.Dcache.Chains.{d_lookup-d_add}
use linux_vfs.Namei.Hash.Laws.{hash_name-component}
use linux_vfs.Namei.Hash.Dots.{hash_name-last}
use linux_vfs.Namei.Mounts.{lookup_mnt, choose_mountpoint, traverse_loop}
use linux_vfs.Namei.Mounts.Climb.{Climb, choose_mountpoint-Climb}
use linux_vfs.Namei.Mounts.Automount.{traverse_loop-automount}
use linux_vfs.Namei.Links.{pick_link}
use linux_vfs.Namei.Links.Room.{HasRoom, Follows, pick_link-HasRoom}
use linux_vfs.Namei.Links.Scope.{pick_link-beneath}
use linux_vfs.Namei.Steps.{lookup_slow}
use linux_vfs.Namei.State.{Walk, body, failed}
use linux_vfs.Namei.Hash.{
  Hashed, hash_name, hash_rounds, full_name_hash, hashlen_string, hashlen_create,
}
use linux_vfs.Namei.Filename.{Blocks, Filename, getname_flags, putname}
use linux_vfs.Namei.Filename.Lengths.{putname-getname_flags}
use linux_vfs.Namei.Walk.{next_component, take_component}
use linux_vfs.Namei.Lookup.{new_nameidata, filename_lookup}

abbrev pub driver : Driver
driver = record {
  hash_long = λ h. h % 2 ^ 32;
  d_hash = λ s d q. ok q;
  d_revalidate = λ s d f. valid;
  d_manage = λ s p. none;
  lookup = λ s i d f. (ok none, s);
  get_link = λ s d i. ok none;
}

abbrev pub blank : Dentry
blank = record {
  d_flags = 0;
  d_inode = 0;
  d_sb = 1;
  d_name = record { hash = 0; len = 1; name = b'/' ∷ [] };
  d_parent = 10;
  d_children = [];
  d_hashed = false;
  d_seq = 0;
}

abbrev inode_of : ℕ → Inode
inode_of i = record {
  i_mode =
      if i == 1
      then 0o4_0755
      else if i == 2
      then 0o4_0755
      else if i == 3
      then 0o10_0755
      else 0o12_0777;
  i_flags = 0;
  i_sb = 1;
  i_link = if i == 4 then some (b'/' ∷ b'b' ∷ b'i' ∷ b'n' ∷ []) else none;
}

abbrev pub bare : Vfs
bare = record {
  dentries = λ d. if d == 10 then record blank { d_inode = 1; d_flags = 0x10_0000 } else blank;
  inodes = inode_of;
  mounts = λ m. record {
    mnt_root = 10;
    mnt_sb = 1;
    mnt_flags = 0;
    mnt_parent = 5;
    mnt_mountpoint = 10;
    mnt_mp = 0;
  };
  supers = λ s. record { s_root = 10; s_flags = 0; s_mounts = [] };
  dcache = λ b. [];
  mount_hash = λ b. [];
  heap = 11 ∷ 12 ∷ 13 ∷ 14 ∷ 15 ∷ 16 ∷ [];
  trace = [];
  f_path = record { mnt = 0; dentry = 0 };
  f_mode = 0;
}

abbrev child : Vfs → ℕ → List ℕ → ℕ → Vfs
child s parent name i = elim (d_alloc_name driver.hash_long s parent name) [
  | none ↦ s
  | some (d, t) ↦ d_add t d i
]

abbrev pub bin : List ℕ
bin = b'b' ∷ b'i' ∷ b'n' ∷ []

tree : Vfs
unfolding d_alloc_name d_add
tree = child (child (child bare 10 bin 2) 11 (b's' ∷ b'h' ∷ []) 3) 10 (b'u' ∷ b's' ∷ b'r' ∷ []) 4

abbrev pub root : Loc
root = record { mnt = 5; dentry = 10 }

found : List ℕ → Option (Result Loc)
unfolding tree filename_lookup
found name =
    elim (filename_lookup driver root 20 name 1 (record { vfs = tree; nd = new_nameidata })) [
      | none ↦ none
      | some (r, w) ↦ some r
    ]

-- "/bin//sh".
found_plain :
    found (b'/' ∷ b'b' ∷ b'i' ∷ b'n' ∷ b'/' ∷ b'/' ∷ b's' ∷ b'h' ∷ [])
    ≡ some (ok (record { mnt = 5; dentry = 12 }))
unfolding found test d_rehash set_inode_and_type next_component take_component d_lookup_rcu first
    matches_rcu dentry_cmp string_differs clear d_flags_for_inode
found_plain = refl

-- "/usr/./sh", through the link.
found_link :
    found (b'/' ∷ b'u' ∷ b's' ∷ b'r' ∷ b'/' ∷ b'.' ∷ b'/' ∷ b's' ∷ b'h' ∷ [])
    ≡ some (ok (record { mnt = 5; dentry = 12 }))
unfolding found test d_rehash set_inode_and_type next_component take_component d_lookup_rcu first
    matches_rcu dentry_cmp string_differs clear d_flags_for_inode
found_link = refl

-- "/usr/../sh", which the root does not hold.
found_absent :
    found (b'/' ∷ b'u' ∷ b's' ∷ b'r' ∷ b'/' ∷ b'.' ∷ b'.' ∷ b'/' ∷ b's' ∷ b'h' ∷ [])
    ≡ some (err enoent)
unfolding found test d_rehash set_inode_and_type next_component take_component d_lookup_rcu first
    matches_rcu dentry_cmp string_differs clear d_flags_for_inode
found_absent = refl

-- Names as a walk has them: a component with the hash of its bytes under a parent.
abbrev pub named : ℕ → List ℕ → List ℕ → Qstr
named parent name rest = record {
  hash = (hash_name driver.hash_long parent (name ++ rest)).hash;
  len = length name;
  name = name ++ rest;
}

abbrev rest_of_path : List ℕ
rest_of_path = b'/' ∷ b's' ∷ b'h' ∷ []

-- A cache in which every dentry is a child "bin" of dentry 10, and 11 is in every bucket.
abbrev cached : Vfs
cached = record bare {
  dentries = λ d. record blank { d_name = named 10 bin []; d_hashed = true };
  dcache = λ b. 11 ∷ [];
}

abbrev grown_tree : Vfs
grown_tree = elim (d_alloc bare 10 (named 10 bin [])) [ none ↦ bare | some (d, t) ↦ t ]

d_lookup-d_add_example :
    d_lookup_rcu (d_add grown_tree 11 2) 10 (named 10 bin rest_of_path) ≡ some 11
unfolding d_alloc test hash_name hash_rounds
d_lookup-d_add_example =
    d_lookup-d_add bare 10 11 2 (named 10 bin []) (named 10 bin rest_of_path) {t = grown_tree} refl
      (λ e. omega (arith, e)) refl (omega arith) (omega arith) (refl, refl, refl)

abbrev new_flags : ℕ
new_flags = ((d_add bare 11 4).dentries 11).d_flags

abbrev split : Hashed
split = hash_name driver.hash_long 10 (bin ++ rest_of_path)

hash_name-component_example :
    (split.rest ≡ rest_of_path)
    × (split.len ≡ 3)
    × (split.hash ≡ full_name_hash driver.hash_long 10 (bin ++ rest_of_path) split.len)
    × (hashlen_string driver.hash_long 10 bin ≡ hashlen_create split.hash split.len)
hash_name-component_example =
    hash_name-component driver.hash_long 10 b'b' (b'i' ∷ b'n' ∷ []) rest_of_path
      ((λ e. omega (arith, e)), ((λ e. omega (arith, e)), tt)) refl

abbrev up : List ℕ
up = b'.' ∷ b'.' ∷ []

abbrev up_word : ℕ
up_word = (hash_name driver.hash_long 10 (up ++ rest_of_path)).last

hash_name-last_example :
    ((up_word ≡ 0x2e) ↔ (up ≡ b'.' ∷ [])) × ((up_word ≡ 0x2e2e) ↔ (up ≡ b'.' ∷ b'.' ∷ []))
hash_name-last_example =
    hash_name-last driver.hash_long 10 b'.' (b'.' ∷ []) rest_of_path
      (omega arith, omega arith, (omega arith, omega arith, tt))
      ((λ e. omega (arith, e)), ((λ e. omega (arith, e)), tt)) refl

-- A walk at "/", with the given flags.
abbrev at_root : ℕ → Walk
at_root flags = record {
  vfs = bare;
  nd = record new_nameidata { path = root; flags = flags; last = named 10 bin rest_of_path };
}

abbrev link : Loc
link = record { mnt = 5; dentry = 13 }

abbrev reserved : Walk
reserved = record (at_root 0) { nd = record ((at_root 0).nd) { total_link_count = 1 } }

abbrev no_error : Option Errno
no_error = none

abbrev picked : ℕ → Walk
picked flags = elim (pick_link root driver link 4 (at_root flags)) [
  | none ↦ at_root flags
  | some (r, w) ↦ w
]

pick_link-HasRoom_example :
    HasRoom (picked 0).nd × Follows link (at_root 0).nd (body bin) (picked 0).nd
unfolding pick_link test
pick_link-HasRoom_example =
    pick_link-HasRoom root driver link 4 (at_root 0) (body bin) (picked 0)
      (omega arith, omega arith) refl

pick_link-beneath_example : (picked 0x08_0000).nd.path ≡ root
unfolding pick_link test
pick_link-beneath_example =
    pick_link-beneath root driver link 4 (at_root 0x08_0000) (failed exdev) (picked 0x08_0000) refl
      refl

-- Mount 6 stands on dentry 11 of mount 5.
abbrev mounted : Vfs
mounted = record bare {
  mounts = λ m.
      if m == 6
      then record {
        mnt_root = 20;
        mnt_sb = 2;
        mnt_flags = 0;
        mnt_parent = 5;
        mnt_mountpoint = 11;
        mnt_mp = 0;
      }
      else bare.mounts m;
}

choose_mountpoint-Climb_example : Climb mounted root 6 (record { mnt = 5; dentry = 11 })
unfolding choose_mountpoint
choose_mountpoint-Climb_example =
    choose_mountpoint-Climb 1 mounted 6 root (record { mnt = 5; dentry = 11 }) refl

abbrev automount : Walk
automount = record (at_root 0) {
  vfs = record bare { dentries = λ d. record blank { d_flags = 0x11_0000 } };
}

traverse_loop-automount_example : traverse_loop driver 100 root false automount ≡ none
unfolding lookup_mnt test first
traverse_loop-automount_example =
    traverse_loop-automount driver 100 root false automount refl refl refl

abbrev looked_up : Walk
looked_up = elim (lookup_slow driver root 1 (at_root 0)) [ none ↦ at_root 0 | some (r, w) ↦ w ]

-- A name of 4070 bytes, which does not fit beside its `struct filename`.
abbrev copied : ℕ → Result ℕ
copied size = ok (if ltb 4070 size then 4070 else size)

abbrev blocks : Blocks
blocks = record { outcomes = true ∷ true ∷ []; live = 3 }

putname-getname_flags_example :
    ((e : Errno)
      → (getname_flags copied false blocks).0 ≡ err e
      → (getname_flags copied false blocks).1.live ≡ 3)
    × ((f : Filename)
        → (getname_flags copied false blocks).0 ≡ ok f
        → ((putname f (getname_flags copied false blocks).1).0 ≡ none)
          × ((putname f (getname_flags copied false blocks).1).1.live ≡ 3))
putname-getname_flags_example = putname-getname_flags copied false blocks
