-- ===== src/Mnt/Mount/Tests.antt =====
-- Mounting at concrete inputs: a file system of type "ext" on "/bin".
use linux_vfs.Base.{
  ◌<◌, ℕ, ◌≡◌, refl, ap, true, Option, none, some, List, [], ◌∷◌, ◌==◌, if◌then◌else◌, arith,
}
use linux_vfs.Base.Bits.{test, clear}
use linux_vfs.Base.Errno.{Errno, Result, ok, err, enotdir, eio, no_errno}
use linux_vfs.Vfs.{Vfs, Loc, update}
use linux_vfs.Dcache.{
  first, same_string, d_lookup_rcu, matches_rcu, dentry_cmp, string_differs, d_unlinked,
  d_set_mounted,
}
use linux_vfs.Namei.Walk.{next_component, take_component}
use linux_vfs.Namei.Mounts.{lookup_mnt}
use linux_vfs.Mnt.Tree.{put_mountpoint, lock_mount, graft_tree}
use linux_vfs.Mnt.Tree.Mounted.{finds, IsCovered}
use linux_vfs.Mnt.Tree.Kept.{IsFree, FreshHeap}
use linux_vfs.Mnt.Filesystems.{
  find_filesystem, find_from, is_named, strncmp_eq, check_subtype, prefix_length, dot_at,
}
use linux_vfs.Mnt.Context.{
  Mounting, Run, done, M, ContextMethods, new_context, fs_value_is_undefined, modify, source_key,
  vfs_parse_fs_string, ◌>>=◌, return, faults,
}
use linux_vfs.Mnt.Context.Source.{
  Ends, OwnedByContext, vfs_parse_fs_string-OwnedByContext, vfs_parse_fs_string-source,
}
use linux_vfs.Mnt.Pseudo.{pseudo_fs_context_ops, init_pseudo, kern_mount-pseudo}
use linux_vfs.Mnt.Super.{kern_mount, with_vfs, set_super, get_tree_nodev}
use linux_vfs.Mnt.Mount.{do_new_mount_fc, do_mount}
use linux_vfs.Mnt.Mount.Attached.{do_new_mount_fc-lookup_mnt}
use linux_vfs.Mnt.Mount.Covered.{do_new_mount_fc-IsCovered}
use linux_vfs.Mnt.Mount.Refused.{AreHeld, KeepsOnError, do_new_mount_fc-KeepsOnError}
use linux_vfs.Tests.{driver, blank, bare, root, bin, named}

abbrev pub files : Vfs
files = record bare {
  dentries = λ d.
      if d == 10
      then record blank { d_inode = 1; d_flags = 0x10_0000 }
      else if d == 11
      then record blank {
        d_inode = 2;
        d_flags = 0x10_0000;
        d_name = named 10 bin [];
        d_parent = 10;
        d_hashed = true;
      }
      else record blank { d_inode = 3; d_flags = 0x10_0000 };
  dcache = λ b. 11 ∷ [];
  heap = 30 ∷ 31 ∷ 32 ∷ 33 ∷ 34 ∷ 35 ∷ [];
}

abbrev ext : List ℕ
ext = b'e' ∷ b'x' ∷ b't' ∷ []

abbrev start : Mounting
start = record {
  tree = record {
    vfs = files;
    points = λ p. record { m_dentry = 0; m_count = 0; m_list = [] };
    point_hash = λ b. [];
    unset_ret = λ d. none;
  };
  types = record { file_systems = 5; name_of = λ p. ext; fs_flags = λ p. 0; next_of = λ p. 0 };
  fc = new_context 0;
  param = record { key = none; type = fs_value_is_undefined; string = 0; size = 0 };
  path = root;
  texts = λ a. [];
  live = [];
}

-- The root of the file system is dentry 40.
abbrev fill_super : ℕ → M (Unit {0})
fill_super sb = modify (
    with_vfs (λ v.
      set_super sb (record (v.supers sb) { s_root = 40 })
        (record v { dentries = update v.dentries 40 (record (v.dentries 40) { d_sb = sb }) })))

abbrev methods : ContextMethods
methods = record {
  operations = λ ops. record { parse_param = none; get_tree = get_tree_nodev fill_super };
  init_fs_context = λ type. modify (λ s. record s { fc = record s.fc { ops = 77 } });
}

abbrev state_of : Run (Unit {0}) → Mounting
state_of (done r s) = s
state_of _ = start

abbrev result_of : Run (Unit {0}) → Option (Result (Unit {0}))
result_of (done r s) = some r
result_of _ = none

abbrev pub slash_bin : List ℕ
slash_bin = b'/' ∷ b'b' ∷ b'i' ∷ b'n' ∷ []

abbrev mounted : Mounting
mounted = state_of (do_mount methods driver root 9 (some ext) (ok slash_bin) (some ext) 0 start)

-- The mount is at 33, after the context, the text of its source and the superblock.
mount_of_bin :
    (result_of (do_mount methods driver root 9 (some ext) (ok slash_bin) (some ext) 0 start)
      ≡ some (ok tt))
    × (lookup_mnt mounted.tree.vfs (record { mnt = 5; dentry = 11 }) ≡ some 33)
    × ((mounted.tree.vfs.mounts 33).mnt_root ≡ 40)
    × ((mounted.tree.vfs.mounts 33).mnt_sb ≡ 32)
    × (mounted.texts mounted.fc.source ≡ ext)
    × (mounted.live ≡ 31 ∷ [])
unfolding do_mount test clear next_component take_component d_lookup_rcu first matches_rcu
    dentry_cmp string_differs same_string find_filesystem find_from is_named strncmp_eq
    check_subtype prefix_length dot_at d_unlinked d_set_mounted lookup_mnt put_mountpoint
    get_tree_nodev lock_mount graft_tree
mount_of_bin = (refl, refl, refl, refl, refl, refl)

-- A context whose root is dentry 12, to be mounted on "/bin".
abbrev ready : Mounting
ready = record start {
  fc = record (new_context 5) { root = 12; ops = 77 };
  path = record { mnt = 5; dentry = 11 };
}

abbrev attached : Mounting
attached = state_of (do_new_mount_fc 9 0 ready)

free : (a : ℕ) → IsFree ready.tree a
free a b = (λ o. o, λ o. o)

ready-FreshHeap : FreshHeap ready.tree ready.tree.vfs.heap
ready-FreshHeap = (
  free 30,
  λ o. ground (arith, o),
  (
    free 31,
    λ o. ground (arith, o),
    (
      free 32,
      λ o. ground (arith, o),
      (free 33, λ o. ground (arith, o), (free 34, λ o. ground (arith, o), (free 35, λ o. o, tt))),
    ),
  ),
)

do_new_mount_fc-lookup_mnt_example :
    (m : ℕ) × (heap : List ℕ) × (ready.tree.vfs.heap ≡ m ∷ heap)
    × (finds attached.tree.vfs (record { mnt = 5; dentry = 11 }) ≡ some m)
    × ((attached.tree.vfs.mounts m).mnt_root ≡ 12)
    × (finds ready.tree.vfs (record { mnt = 5; dentry = 11 }) ≡ none)
    × (finds attached.tree.vfs root ≡ finds ready.tree.vfs root)
unfolding do_new_mount_fc test first d_unlinked d_set_mounted lookup_mnt put_mountpoint lock_mount
    graft_tree
do_new_mount_fc-lookup_mnt_example =
    do_new_mount_fc-lookup_mnt 9 0 root ready attached ready-FreshHeap (λ q z. refl)
      (λ e. omega (arith, ap (λ (l : Loc). l.dentry) e)) refl

do_new_mount_fc-IsCovered_example : IsCovered attached.tree.vfs
unfolding do_new_mount_fc test first d_unlinked d_set_mounted lookup_mnt put_mountpoint lock_mount
    graft_tree
do_new_mount_fc-IsCovered_example =
    do_new_mount_fc-IsCovered 9 0 ready attached ready-FreshHeap (λ q z. refl) refl

-- The root of the context is no directory, but "/bin" is one.
abbrev unfit : Mounting
unfit = with_vfs (λ v. record v { dentries = update v.dentries 12 blank }) ready

unfit_fails : result_of (do_new_mount_fc 9 0 unfit) ≡ some (err enotdir)
unfolding do_new_mount_fc test first d_unlinked d_set_mounted lookup_mnt put_mountpoint lock_mount
    graft_tree
unfit_fails = refl

-- A mount 20, whose root is dentry 13, stands on "/bin" already, by the mountpoint 21.
abbrev occupied : Mounting
occupied = record unfit {
  tree = record unfit.tree {
    vfs = record unfit.tree.vfs {
      dentries =
          update unfit.tree.vfs.dentries 11
            (record (unfit.tree.vfs.dentries 11) { d_flags = 0x10_8000 });
      mounts = update unfit.tree.vfs.mounts 20 (record (unfit.tree.vfs.mounts 20) {
        mnt_parent = 5;
        mnt_mountpoint = 11;
        mnt_root = 13;
      });
      mount_hash = λ b. 20 ∷ [];
    };
    points = λ p. record { m_dentry = 11; m_count = 1; m_list = 20 ∷ [] };
    point_hash = λ b. 21 ∷ [];
  };
}

occupied_fails :
    (result_of (do_new_mount_fc 9 0 occupied) ≡ some (err enotdir))
    × (finds occupied.tree.vfs (record { mnt = 5; dentry = 11 }) ≡ some 20)
unfolding do_new_mount_fc test first d_unlinked d_set_mounted lookup_mnt put_mountpoint lock_mount
    graft_tree
occupied_fails = (refl, refl)

apart : (a : ℕ) → 21 < a → IsFree occupied.tree a
apart a lt b = (λ o. ground (arith, o, lt), λ o. ground (arith, o, lt))

occupied-FreshHeap : FreshHeap occupied.tree occupied.tree.vfs.heap
occupied-FreshHeap = (
  apart 30 (omega arith),
  λ o. ground (arith, o),
  (
    apart 31 (omega arith),
    λ o. ground (arith, o),
    (
      apart 32 (omega arith),
      λ o. ground (arith, o),
      (
        apart 33 (omega arith),
        λ o. ground (arith, o),
        (apart 34 (omega arith), λ o. ground (arith, o), (apart 35 (omega arith), λ o. o, tt)),
      ),
    ),
  ),
)

occupied-AreHeld : AreHeld occupied.tree
unfolding lookup_mnt first test
occupied-AreHeld q m e =
    let at : q.dentry ≡ 11 = ground arith in (21, rw at (refl, refl, omega arith))

do_new_mount_fc-KeepsOnError_example : KeepsOnError occupied.tree (do_new_mount_fc 9 0 occupied)
do_new_mount_fc-KeepsOnError_example =
    do_new_mount_fc-KeepsOnError 9 0 occupied occupied-FreshHeap occupied-AreHeld

-- A second mount on the path, of the root 14: the root of the first has a mountpoint already, and what
-- `get_mountpoint` has not set decides.
abbrev stacked : Option Errno → Run (Unit {0})
stacked unset = do_new_mount_fc 9 0 (record attached {
  fc = record attached.fc { root = 14 };
  path = record { mnt = 5; dentry = 11 };
  tree = record attached.tree {
    vfs = record attached.tree.vfs {
      dentries =
          update attached.tree.vfs.dentries 12
            (record (attached.tree.vfs.dentries 12) { d_parent = 12 });
    };
    unset_ret = λ d. unset;
  };
})

stacked_unset :
    (result_of (stacked none) ≡ some (ok tt))
    × (result_of (stacked (some eio)) ≡ some (err eio))
    × (stacked (some no_errno) ≡ faults)
unfolding do_new_mount_fc test first d_unlinked d_set_mounted lookup_mnt put_mountpoint lock_mount
    graft_tree
stacked_unset = (refl, refl, refl)

vfs_parse_fs_string-OwnedByContext_example :
    Ends OwnedByContext (vfs_parse_fs_string methods (some source_key) (some ext) 3 ready)
vfs_parse_fs_string-OwnedByContext_example =
    vfs_parse_fs_string-OwnedByContext methods (some source_key) (some ext) 3 ready
      (λ ops parse s e. absurd (ground arith)) (λ e. omega (arith, e)) (λ e. omega (arith, e)) refl

vfs_parse_fs_string-source_example :
    (t : Mounting) × (vfs_parse_fs_string methods (some source_key) (some ext) 2 ready
      ≡ done (ok tt) t)
    × (t.fc.source ≡ 30)
    × (t.texts 30 ≡ b'e' ∷ b'x' ∷ [])
unfolding same_string
vfs_parse_fs_string-source_example =
    vfs_parse_fs_string-source methods source_key ext 2 30 (31 ∷ 32 ∷ 33 ∷ 34 ∷ 35 ∷ []) ready refl
      (λ e. omega (arith, e)) refl

-- A pseudo file system, whose operations are at 77.
abbrev pseudo_methods : ContextMethods
pseudo_methods = record {
  operations = λ ops. pseudo_fs_context_ops;
  init_fs_context = λ type. init_pseudo 77 >>= (λ _. return tt);
}

kern_mount-pseudo_example : kern_mount pseudo_methods 5 start ≡ faults
kern_mount-pseudo_example =
    kern_mount-pseudo pseudo_methods 5 77 30 31 32 33 (34 ∷ 35 ∷ []) start (λ e. omega (arith, e))
      (λ e. omega (arith, e)) refl refl refl
