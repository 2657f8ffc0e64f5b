-- ===== src/File/Table/Calls.antt =====
-- The descriptor calls together with the reference counts of the files.
use linux_vfs.Base.{
  ℕ, ◌+◌, ◌-◌, ◌≤◌, ◌<◌, ◌≡◌, ◌≢◌, refl, ◌⊎◌, inl, inr, true, false, some, ◌∷◌, arith, ◌==◌,
  if◌then◌else◌, length, get_elem?, set, get_elem?-set_self, get_elem?-set_ne, get_elem?-bound,
}
use linux_vfs.Base.Errno.{ebadf, ok, err}
use linux_vfs.File.Ref.{maxref, oneref, dead, file_ref_inc, file_ref_put, file_ref_put_close}
use linux_vfs.File.Table.{
  empty, used, file, Filedesc, filedesc_slot_finstall, filedesc_file_get, Files, get_file,
  after_put, fget_light, fdput, vfs_close_api, fput_close_sync,
}

-- A file installed in a reserved descriptor is what the next lookup of that descriptor finds, and
-- the lookup of any other is as before.
pub file_get-finstall :
    (fdp : Filedesc) (fd p other : ℕ)
    → fd < length fdp.files
    → other ≢ fd
    → (filedesc_file_get (filedesc_slot_finstall fdp fd p) fd false
        ≡ some (some p, filedesc_slot_finstall fdp fd p))
      × (get_elem? (filedesc_slot_finstall fdp fd p).files other ≡ get_elem? fdp.files other)
unfolding filedesc_file_get filedesc_slot_finstall
file_get-finstall fdp fd p other h ne = (
  rw (get_elem?-set_self fdp.files fd (file p) h, filedesc_file_get) refl,
  get_elem?-set_ne fdp.files fd other (file p) (λ e. ne (ground arith)),
)

file_ref_inc-word : (r : ℕ) → r ≤ maxref → (file_ref_inc r).0 ≡ r + 1
unfolding file_ref_inc
file_ref_inc-word r h = ground arith

file_ref_put-shared : (r : ℕ) → r ≤ maxref → file_ref_put (r + 1) ≡ (false, r)
unfolding file_ref_put
file_ref_put-shared r h = ground arith

file_ref_put_close-in_use :
    (r : ℕ)
    → r ≤ maxref
    → file_ref_put_close r ≡ (if r == oneref then (true, dead) else (false, r - 1))
unfolding file_ref_put_close
file_ref_put_close-in_use r h = ground arith

-- The states agree, in the reference word of every file.
abbrev pub Same : Files → Files → Type 0
Same s t = (s.fdp ≡ t.fdp) × ((q : ℕ) → s.refs q ≡ t.refs q) × (s.fputs ≡ t.fputs)

put_back : (s : Files) (p : ℕ) → s.refs p ≤ maxref → Same (fdput (get_file s p) p) s
unfolding fdput get_file after_put
put_back s p h =
    rw (word, file_ref_inc-word (s.refs p) h, file_ref_put-shared (s.refs p) h)
      (refl, λ q. ground arith, refl)
  where
    word : (if p == p then (file_ref_inc (s.refs p)).0 else s.refs p) ≡ (file_ref_inc (s.refs p)).0
    word = ground arith

-- Taking a file by its descriptor and giving it back leaves table, counts and freed files as they
-- were, if the count of the file has not overflowed; and the table is unchanged in between.
pub fdput-fget_light :
    (s : Files) (fd p : ℕ)
    → get_elem? s.fdp.files fd ≡ some (file p)
    → s.refs p ≤ maxref
    → (t : Files) × (fget_light s fd ≡ some (ok p, t)) × (t.fdp ≡ s.fdp) × Same (fdput t p) s
unfolding fget_light get_file
fdput-fget_light s fd p e h = (get_file s p, rw (e, fget_light) refl, refl, put_back s p h)

-- Closing a descriptor that holds a file succeeds and empties that descriptor only, so that looking
-- it up again fails with EBADF; if the file's count has not overflowed, it is freed exactly if this was its
-- last reference, and else has one reference less. No other file's count changes.
pub vfs_close_api-holds :
    (s : Files) (fd p q other : ℕ)
    → get_elem? s.fdp.files fd ≡ some (file p)
    → s.refs p ≤ maxref
    → q ≢ p
    → other ≢ fd
    → (t : Files) × (vfs_close_api s fd ≡ some (ok 0, t))
      × (fget_light t fd ≡ some (err ebadf, t))
      × (get_elem? t.fdp.files other ≡ get_elem? s.fdp.files other)
      × (t.fputs ≡ (if s.refs p == oneref then p ∷ s.fputs else s.fputs))
      × (t.refs p ≡ (if s.refs p == oneref then dead else s.refs p - 1))
      × (t.refs q ≡ s.refs q)
unfolding vfs_close_api fget_light
vfs_close_api-holds s fd p q other e h ne apart = (
  fput_close_sync (record s { fdp = record s.fdp { files = set s.fdp.files fd empty } }) p,
  rw (e, vfs_close_api) refl,
  rw (get_elem?-set_self s.fdp.files fd empty (get_elem?-bound s.fdp.files fd e), fget_light) refl,
  get_elem?-set_ne s.fdp.files fd other empty (λ eq. apart (ground arith)),
  ground (arith, put),
  ground (arith, put),
  ground (arith, put),
)
  where
    put :
        file_ref_put_close (s.refs p)
        ≡ (if s.refs p == oneref then (true, dead) else (false, s.refs p - 1))
    put = file_ref_put_close-in_use (s.refs p) h

-- A descriptor of the table that holds no file is refused with EBADF, by lookup and close alike,
-- and nothing changes: a reserved one cannot be reached before its file is installed.
pub not_held-ebadf :
    (s : Files) (fd : ℕ)
    → (get_elem? s.fdp.files fd ≡ some empty) ⊎ (get_elem? s.fdp.files fd ≡ some used)
    → (fget_light s fd ≡ some (err ebadf, s)) × (vfs_close_api s fd ≡ some (err ebadf, s))
unfolding fget_light vfs_close_api
not_held-ebadf s fd (inl e) = (rw (e, fget_light) refl, rw (e, vfs_close_api) refl)
not_held-ebadf s fd (inr e) = (rw (e, fget_light) refl, rw (e, vfs_close_api) refl)
