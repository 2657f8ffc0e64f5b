-- ===== src/Calls/Readlink.antt =====
-- Reading a symbolic link: src/api/readlink.c. `copy_to_user`, which another repository has, and which inodes
-- have the method `get_link` are parameters. The delayed calls are not modelled.
pub mod Reads
pub mod Tests
use linux_vfs.Base.{
  ℕ, Bool, true, false, Option, none, some, List, length, ltb, ◌==◌, if◌then◌else◌,
}
use linux_vfs.Base.Errno.{Errno, efault, Result, ok, err}
use linux_vfs.Vfs.{Loc, Vfs, Driver}
use linux_vfs.Dcache.{take}
use linux_vfs.Uio.{Memory}
use linux_vfs.Namei.State.{Walk}
use linux_vfs.Namei.Lookup.{new_nameidata}
use linux_vfs.Namei.Open.{namei_lookup}

-- A text that is copied to an address, and how many bytes of it are not.
abbrev pub CopyToUser : Type 0
CopyToUser = Memory → (to : ℕ) → List ℕ → ℕ × Memory

-- `faults` is an access through NULL.
pub data Outcome : Type 0 where
  returns : Result ℕ → Vfs → Memory → Outcome
  faults out_of_fuel : Outcome

abbrev pub lookup_empty : ℕ
lookup_empty = 0x4000

-- `buflen` is an `int`, here the value of its word as an `unsigned`, as it is compared.
unfoldable pub readlink_copy :
    CopyToUser → Memory → (buffer buflen : ℕ) → List ℕ → Result ℕ × Memory
readlink_copy copy mem buffer buflen link =
    let len = if ltb buflen (length link) then buflen else length link in
    let (left, mem') = copy mem buffer (take len link) in
    (if left == 0 then ok len else err efault, mem')

abbrev pub returned : Vfs → Result ℕ × Memory → Outcome
returned v (r, mem) = returns r v mem

-- What the method `get_link` has returned: an error, or a text, which must not be NULL.
abbrev pub with_link :
    CopyToUser → Vfs → Memory → (buffer buflen : ℕ) → Result (Option (List ℕ)) → Outcome
with_link copy v mem buffer buflen (err e) = returns (err e) v mem
with_link copy v mem buffer buflen (ok none) = faults
with_link copy v mem buffer buflen (ok (some link)) =
    returned v (readlink_copy copy mem buffer buflen link)

module _ (dr : Driver) (has_get_link : ℕ → Bool) (copy : CopyToUser) where
  unfoldable pub vfs_readlink : Vfs → Memory → (dentry buffer buflen : ℕ) → Outcome
  unfolding readlink_copy
  vfs_readlink v mem dentry buffer buflen =
      let inode = (v.dentries dentry).d_inode in
      if inode == 0
      then faults
      else if has_get_link inode
      then with_link copy v mem buffer buflen (dr.get_link v dentry inode)
      else faults

  -- The path that was found is not put.
  abbrev pub read_found : Memory → (buffer bufsz : ℕ) → Option (Result Loc × Walk) → Outcome
  read_found mem buffer bufsz none = out_of_fuel
  read_found mem buffer bufsz (some (err e, w)) = returns (err e) w.vfs mem
  read_found mem buffer bufsz (some (ok p, w)) = vfs_readlink w.vfs mem p.dentry buffer bufsz

  unfoldable pub vfs_readlinkat_api :
      (fs_root : Loc) (fuel : ℕ) → Vfs → Memory → Result (List ℕ) → (buf bufsz : ℕ) → Outcome
  unfolding vfs_readlink namei_lookup
  vfs_readlinkat_api fs_root fuel v mem name buf bufsz =
      read_found mem buf bufsz
        (namei_lookup dr fs_root fuel name lookup_empty (record { vfs = v; nd = new_nameidata }))
