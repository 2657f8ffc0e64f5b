-- ===== src/Mnt/Super.antt =====
-- Superblocks and mounts of a context: src/super.c, and the mounts that src/mnt/namespace.c and
-- src/mnt/kern_mount.c make of them. The counts `s_active` are not kept, and `deactivate_locked_super`
-- and `put_fs_context` are empty in the source.
use linux_vfs.Base.{
  ℕ, not, Option, none, some, List, [], ◌∷◌, ◌++◌, ◌==◌, if◌then◌else◌, bit_or, ◌^◌, length,
}
use linux_vfs.Base.Bits.{test}
use linux_vfs.Base.Errno.{ebusy, einval}
use linux_vfs.Vfs.{Mount, Super, Vfs, dget, note, update}
use linux_vfs.Mnt.Context.{
  Context, Mounting, faults, M, and_then, ◌>>=◌, ◌>>◌, return, fail, modify, ContextMethods,
  note_ref, kzalloc, fs_context_for_mount, vfs_parse_fs_string, source_key,
}

abbrev pub sb_active : ℕ
sb_active = 2 ^ 30

abbrev pub sb_kernmount : ℕ
sb_kernmount = 2 ^ 22

abbrev pub mnt_internal : ℕ
mnt_internal = 0x4000

abbrev pub with_vfs : (Vfs → Vfs) → Mounting → Mounting
with_vfs f s = record s { tree = record s.tree { vfs = f s.tree.vfs } }

abbrev pub set_super : ℕ → Super → Vfs → Vfs
set_super sb x v = record v { supers = update v.supers sb x }

abbrev pub set_mount : ℕ → Mount → Vfs → Vfs
set_mount m x v = record v { mounts = update v.mounts m x }

-- `alloc_super` initialises the lists of the superblock before anything looks at the allocation, so that
-- one that fails is an access through NULL.
unfoldable pub alloc_super : M ℕ
alloc_super s = elim s.tree.vfs.heap [
  | [] ↦ faults
  | a ∷ heap ↦ return a (
      with_vfs
        (λ v.
          set_super a (record { s_root = 0; s_flags = 0; s_mounts = [] })
            (record v { heap = heap }))
        s)
]

-- `test` and `set` are not called.
unfoldable pub sget_fc : M ℕ
unfolding alloc_super
sget_fc = alloc_super

abbrev pub activate : ℕ → Mounting → Mounting
activate sb = with_vfs (λ v.
    set_super sb (record (v.supers sb) { s_flags = bit_or (v.supers sb).s_flags sb_active }) v)

-- The superblock is new, so that it has no root.
abbrev pub fill_new : (ℕ → M (Unit {0})) → ℕ → M (Unit {0})
fill_new fill_super sb s =
    if not ((s.tree.vfs.supers sb).s_root == 0)
    then return tt s
    else and_then (fill_super sb s) (λ _. modify (activate sb))

abbrev pub take_root : ℕ → Mounting → Mounting
take_root sb s =
    let root = (s.tree.vfs.supers sb).s_root in
    note_ref (dget root) (record s { fc = record s.fc { root = root } })

unfoldable pub vfs_get_super : (ℕ → M (Unit {0})) → M (Unit {0})
unfolding sget_fc
vfs_get_super fill_super = do sb ← sget_fc; fill_new fill_super sb; modify (take_root sb)

unfoldable pub get_tree_nodev : (ℕ → M (Unit {0})) → M (Unit {0})
unfolding vfs_get_super
get_tree_nodev fill_super = vfs_get_super fill_super

unfoldable pub vfs_get_tree : ContextMethods → M (Unit {0})
vfs_get_tree k s =
    if not (s.fc.root == 0)
    then fail ebusy s
    else if s.fc.ops == 0
    then faults
    else (k.operations s.fc.ops).get_tree s

-- A mount of the root of the context, which is attached nowhere.
abbrev pub new_mount : ℕ → Context → Vfs → Mount
new_mount m fc v = record {
  mnt_root = fc.root;
  mnt_sb = (v.dentries fc.root).d_sb;
  mnt_flags = if test fc.sb_flags sb_kernmount then mnt_internal else 0;
  mnt_parent = m;
  mnt_mountpoint = fc.root;
  mnt_mp = 0;
}

-- At the end of the list of the superblock.
abbrev pub add_instance : ℕ → ℕ → Vfs → Vfs
add_instance m sb v =
    set_super sb (record (v.supers sb) { s_mounts = (v.supers sb).s_mounts ++ m ∷ [] }) v

abbrev pub init_mount : ℕ → Mounting → Mounting
init_mount m s =
    with_vfs
      (λ v.
        add_instance m (v.dentries s.fc.root).d_sb
          (note (dget s.fc.root) (set_mount m (new_mount m s.fc v) v)))
      s

unfoldable pub vfs_create_mount : M ℕ
vfs_create_mount s =
    if s.fc.root == 0
    then fail einval s
    else and_then (kzalloc s) (λ m. modify (init_mount m) >> return m)

-- After `vfs_get_tree` the lock of the superblock of the root is let go, which is an access through the root.
unfoldable pub unlocked_mount : M ℕ
unfolding vfs_create_mount
unlocked_mount s = if s.fc.root == 0 then faults else vfs_create_mount s

unfoldable pub fc_mount : ContextMethods → M ℕ
unfolding vfs_get_tree unlocked_mount
fc_mount k = do vfs_get_tree k; unlocked_mount

-- The name of the device, if there is one.
abbrev pub set_source : ContextMethods → Option (List ℕ) → M (Unit {0})
set_source k none = return tt
set_source k (some name) = vfs_parse_fs_string k (some source_key) (some name) (length name)

-- The data of a mount is not parsed.
unfoldable pub vfs_kern_mount : ContextMethods → (type flags : ℕ) → (name : Option (List ℕ)) → M ℕ
unfolding fs_context_for_mount vfs_parse_fs_string fc_mount
vfs_kern_mount k type flags name =
    if type == 0
    then fail einval
    else do fs_context_for_mount k type flags; set_source k name; fc_mount k

-- A mount for the kernel itself; its namespace, MNT_NS_INTERNAL, is read by nothing.
unfoldable pub kern_mount : ContextMethods → (type : ℕ) → M ℕ
unfolding vfs_kern_mount
kern_mount k type s =
    if type == 0 then faults else vfs_kern_mount k type sb_kernmount (some (s.types.name_of type)) s
