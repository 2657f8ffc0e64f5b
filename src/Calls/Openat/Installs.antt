-- ===== src/Calls/Openat/Installs.antt =====
-- The descriptor of an open(2).
use linux_vfs.Base.{
  ℕ, zero, suc, ◌<◌, ◌≡◌, ◌≢◌, refl, ap, ◌∙◌, ◌⊎◌, inl, inr, Bool, Option, none, some, List, [],
  ◌∷◌, get_elem?, set, arith,
}
use linux_vfs.Base.Errno.{Errno, enomem, Result, ok, err}
use linux_vfs.Vfs.{Loc, Vfs, Driver}
use linux_vfs.File.Ref.{oneref, file_ref_init}
use linux_vfs.File.Table.{
  Slot, empty, used, file, Filedesc, filedesc_slot_alloc, filedesc_slot_free,
  filedesc_slot_finstall,
}
use linux_vfs.File.Table.Slots.{filedesc_slot_alloc-lowest}
use linux_vfs.File.Open.{OpenFlags, build_openflags}
use linux_vfs.File.Calls.{FileOperations}
use linux_vfs.Namei.State.{Walk}
use linux_vfs.Namei.Lookup.{new_nameidata}
use linux_vfs.Namei.Open.{namei_open}
use linux_vfs.Calls.Openat.{
  Opening, Outcome, returns, undefined, out_of_fuel, alloc_empty_file, with_table, slot_freed,
  file_for, file_alloc, installed, after_open, open_op, open_file_at, vfs_openat_api,
}

-- `fd` is the lowest empty descriptor of a table.
abbrev pub LowestEmpty : List Slot → ℕ → Type 0
LowestEmpty fs fd =
    (get_elem? fs fd ≡ some empty) × ((j : ℕ) → j < fd → get_elem? fs j ≢ some empty)

-- How an open ends that began in `s`.
abbrev pub Installs : Opening → Outcome → Type 0
Installs s (returns (ok fd) t) =
    LowestEmpty s.files.fdp.files fd
    × (p : ℕ) × (heap : List ℕ) × (s.vfs.heap ≡ p ∷ heap)
    × (t.files.fdp.files ≡ set s.files.fdp.files fd (file p))
    × (t.files.refs p ≡ oneref)
    × ((q : ℕ) → q ≢ p → t.files.refs q ≡ s.files.refs q)
Installs s (returns (err e) t) =
    (t.files.fdp.files ≡ s.files.fdp.files)
    ⊎ ((fd : ℕ) × LowestEmpty s.files.fdp.files fd
        × (t.files.fdp.files ≡ set s.files.fdp.files fd used))
Installs s (undefined t) = (j : ℕ) → get_elem? s.files.fdp.files j ≢ some empty
Installs s out_of_fuel = Unit

-- What `filedesc_slot_alloc` has left of the table.
abbrev Reserved : List Slot → Option ℕ → List Slot → Type 0
Reserved fs none out = (out ≡ fs) × ((j : ℕ) → get_elem? fs j ≢ some empty)
Reserved fs (some fd) out = LowestEmpty fs fd × (out ≡ set fs fd used)

slot_alloc-Reserved :
    (fdp : Filedesc)
    → let (slot, fdp') = filedesc_slot_alloc fdp in Reserved fdp.files slot fdp'.files
slot_alloc-Reserved fdp = elim (filedesc_slot_alloc-lowest fdp) [
  | inl (e, same, full) ↦ rw (e, same) (refl, full)
  | inr (k, e, here, same, low) ↦ rw (e, same) ((here, low), refl)
]

set-set : (fs : List Slot) (i : ℕ) (v w : Slot) → set (set fs i v) i w ≡ set fs i w
set-set [] i v w = refl
set-set (x ∷ xs) zero v w = refl
set-set (x ∷ xs) (suc i) v w = ap (λ (ys : List Slot). x ∷ ys) (set-set xs i v w)

-- A file `p` with one reference, and a table as it was after the slot was taken.
abbrev Ready : Opening → (p : ℕ) → List Slot → Opening → Type 0
Ready s p out t =
    (heap : List ℕ) × (s.vfs.heap ≡ p ∷ heap)
    × (t.files.fdp.files ≡ out)
    × (t.files.refs p ≡ oneref)
    × ((q : ℕ) → q ≢ p → t.files.refs q ≡ s.files.refs q)

error-Installs :
    (s t : Opening) (slot : Option ℕ) (out : List Slot) (e : Errno)
    → Reserved s.files.fdp.files slot out
    → t.files.fdp.files ≡ out
    → Installs s (returns (err e) t)
error-Installs s t none out e (same, full) h = inl (h ∙ same)
error-Installs s t (some fd) out e (low, same) h = inr (fd, low, h ∙ same)

installed-Installs :
    (s t : Opening) (slot : Option ℕ) (p : ℕ) (out : List Slot)
    → Reserved s.files.fdp.files slot out
    → Ready s p out t
    → Installs s (installed slot p t)
unfolding filedesc_slot_finstall
installed-Installs s t none p out (same, full) ready = full
installed-Installs s t (some fd) p out (low, same) (heap, taken, table, one, others) = (
  low,
  p,
  heap,
  taken,
  ap (λ (fs : List Slot). set fs fd (file p)) (table ∙ same)
      ∙ set-set s.files.fdp.files fd used (file p),
  one,
  others,
)

after_open-Installs :
    (s t : Opening) (slot : Option ℕ) (p : ℕ) (out : List Slot) (x : Option (Option Errno × Walk))
    → Reserved s.files.fdp.files slot out
    → Ready s p out t
    → Installs s (after_open slot p t x)
after_open-Installs s t slot p out none r ready = tt
after_open-Installs s t slot p out (some (some e, w)) r ready =
    error-Installs s (record t { vfs = w.vfs }) slot out e r ready.2
after_open-Installs s t slot p out (some (none, w)) r ready =
    installed-Installs s (record t { vfs = w.vfs }) slot p out r ready

abbrev AllocReady : Opening → List Slot → Option ℕ × Opening → Type 0
AllocReady s out (none, t) = t.files.fdp.files ≡ out
AllocReady s out (some p, t) = Ready s p out t

alloc_empty_file-AllocReady :
    (flags : ℕ) (s : Opening) (fdp : Filedesc)
    → AllocReady s fdp.files (alloc_empty_file flags (with_table s fdp))
unfolding alloc_empty_file file_ref_init
alloc_empty_file-AllocReady flags s fdp = allocated s.vfs.heap refl
  where
    allocated :
        (heap : List ℕ)
        → s.vfs.heap ≡ heap
        → AllocReady s fdp.files (alloc_empty_file flags (with_table s fdp))
    allocated [] e = rw (e, alloc_empty_file) refl
    allocated (p ∷ heap) e =
        rw (e, alloc_empty_file) (heap, refl, refl, ground arith, λ q ne. ground (arith, ne))

freed-Installs :
    (s t : Opening) (slot : Option ℕ) (out : List Slot) (e : Errno)
    → Reserved s.files.fdp.files slot out
    → t.files.fdp.files ≡ out
    → Installs s (returns (err e) (slot_freed slot t))
unfolding filedesc_slot_free
freed-Installs s t none out e r h = error-Installs s t none out e r h
freed-Installs s t (some fd) out e r h = error-Installs s t (some fd) out e r h

module _ (dr : Driver) (fs_root : Loc) (fuel : ℕ) (i_fop : Vfs → ℕ → Option (FileOperations Vfs))
    (has_create : ℕ → Bool) (create : Vfs → ℕ → ℕ → ℕ → Bool → Option Errno × Vfs) where
  open_file_at-Installs :
      (op : OpenFlags) (name : Result (List ℕ)) (s : Opening) (slot : Option ℕ) (out : List Slot)
      (x : Option ℕ × Opening)
      → Reserved s.files.fdp.files slot out
      → AllocReady s out x
      → Installs s
          (open_file_at dr fs_root fuel i_fop has_create create op name slot (file_for slot x))
  unfolding open_file_at
  open_file_at-Installs op name s slot out (none, t) r h = freed-Installs s t slot out enomem r h
  open_file_at-Installs op name s slot out (some p, t) r h =
      after_open-Installs s t slot p out
        (namei_open dr fs_root fuel (open_op dr fs_root fuel i_fop has_create create op) name
          (record { vfs = t.vfs; nd = new_nameidata }))
        r h

  -- A descriptor that an open returns is the lowest that was empty, and holds a new file, which has one
  -- reference; no other descriptor and no other count has changed. After an error the table is as it was,
  -- or the lowest empty descriptor is reserved, and stays so. A slot that was never set is used only
  -- on a full table.
  pub vfs_openat_api-Installs :
      (op : OpenFlags) (name : Result (List ℕ)) (flags mode : ℕ) (s : Opening)
      → Installs s (vfs_openat_api dr fs_root fuel i_fop has_create create op name flags mode s)
  unfolding vfs_openat_api file_alloc
  vfs_openat_api-Installs op name flags mode s =
      let (slot, fdp) = filedesc_slot_alloc s.files.fdp in
      let op' = (build_openflags op flags mode).1 in
      open_file_at-Installs op' name s slot fdp.files
        (alloc_empty_file op'.open_flag (with_table s fdp)) (slot_alloc-Reserved s.files.fdp)
        (alloc_empty_file-AllocReady op'.open_flag s fdp)
