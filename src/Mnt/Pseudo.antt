-- ===== src/Mnt/Pseudo.antt =====
-- Pseudo file systems: src/libfs/pseudo_fs.c. The context of such a file system itself, with its magic
-- number, is read by nothing in the source, and is an allocation only.
use linux_vfs.Base.{ℕ, ◌≡◌, ◌≢◌, refl, none, List, ◌∷◌, bit_or, ne→==, eq→==, arith}
use linux_vfs.Dcache.{same_string}
use linux_vfs.Mnt.Tree.{sb_nouser}
use linux_vfs.Mnt.Context.{
  Mounting, faults, M, ◌>>=◌, ◌>>◌, return, modify, kzalloc, ContextOperations, ContextMethods,
  vfs_parse_fs_string, parse_and_free, vfs_parse_fs_param, parse_keyed, default_param,
  vfs_parse_fs_param_source,
}
use linux_vfs.Mnt.Super.{
  unlocked_mount, get_tree_nodev, vfs_get_super, sget_fc, alloc_super, vfs_get_tree, fc_mount,
  vfs_kern_mount, kern_mount,
}

abbrev pub pseudo_fs_fill_super : ℕ → M (Unit {0})
pseudo_fs_fill_super sb = return tt

abbrev pub pseudo_fs_get_tree : M (Unit {0})
unfolding get_tree_nodev
pseudo_fs_get_tree = get_tree_nodev pseudo_fs_fill_super

abbrev pub pseudo_fs_context_ops : ContextOperations
pseudo_fs_context_ops = record { parse_param = none; get_tree = pseudo_fs_get_tree }

-- `ops` is the address of `pseudo_fs_context_ops`.
unfoldable pub init_pseudo : (ops : ℕ) → M ℕ
init_pseudo ops = do
  ctx ← kzalloc
  modify
      (λ s. record s { fc = record s.fc { ops = ops; sb_flags = bit_or s.fc.sb_flags sb_nouser } })
  return ctx

-- Mounting a pseudo file system for the kernel never succeeds: with enough memory it ends in an access
-- through NULL, since nothing gives its superblock a root. The method `init_fs_context` of the type is a
-- call of `init_pseudo`.
pub kern_mount-pseudo :
    (k : ContextMethods) (type ops a b c d : ℕ) (heap : List ℕ) (s : Mounting)
    → type ≢ 0
    → ops ≢ 0
    → k.init_fs_context type ≡ init_pseudo ops >>= (λ _. return tt)
    → k.operations ops ≡ pseudo_fs_context_ops
    → s.tree.vfs.heap ≡ a ∷ b ∷ c ∷ d ∷ heap
    → kern_mount k type s ≡ faults
unfolding kern_mount vfs_kern_mount init_pseudo same_string vfs_parse_fs_string parse_and_free
    vfs_parse_fs_param parse_keyed default_param vfs_parse_fs_param_source fc_mount vfs_get_tree
    vfs_get_super get_tree_nodev sget_fc alloc_super unlocked_mount
kern_mount-pseudo k type ops a b c d heap s t o i p h =
    rw (ne→== type 0 t, h, i, ne→== ops 0 o, p, ne→== ops 0 o, p, eq→== d d refl) (ground arith)
