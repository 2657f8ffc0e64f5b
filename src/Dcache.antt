-- ===== src/Dcache.antt =====
-- The dentry cache: src/dentry/{dcache,d_lookup,d_alloc,d_make_root}.c. A bucket is the list of the
-- addresses on its chain, first one first; the table has 32 buckets (`vfs_init`), so that the index
-- is the upper five bits of a hash. `__d_drop`, `d_move` and the like are empty in the source.
pub mod Chains
pub mod Life
pub mod Types
use linux_vfs.Base.{
  ℕ, zero, suc, ◌+◌, ◌-◌, ◌*◌, ◌/◌, ◌%◌, ◌^◌, Bool, true, false, not, ◌&&◌, ◌||◌, Option, none,
  some, List, [], ◌∷◌, ◌==◌, if◌then◌else◌, length, bit_and, bit_or,
}
use linux_vfs.Base.Bits.{test, clear}
use linux_vfs.Namei.Hash.{hashlen_string}
use linux_vfs.Vfs.{
  Qstr, Dentry, Inode, Loc, Vfs, update, note, dget, d_entry_type, dcache_entry_type, miss_type,
  directory_type, regular_type, special_type, symlink_type, dcache_mounted, dcache_cant_mount,
  dcache_op_compare,
}

abbrev pub dname_inline_len : ℕ
dname_inline_len = 20

abbrev pub hash_shift : ℕ
hash_shift = 27

abbrev pub d_hash : ℕ → ℕ
d_hash hash = hash % 2 ^ 32 / 2 ^ hash_shift

abbrev pub take {ℓ} : {A : Type ℓ} → ℕ → List A → List A
take zero xs = []
take (suc n) [] = []
take (suc n) (x ∷ xs) = x ∷ take n xs

-- `!strcmp(a, b)`.
unfoldable pub same_string : List ℕ → List ℕ → Bool
same_string [] [] = true
same_string [] (b ∷ bs) = false
same_string (a ∷ as') [] = false
same_string (a ∷ as') (b ∷ bs) = a == b && same_string as' bs

unfoldable pub d_same_name : Dentry → Qstr → Bool
d_same_name d name =
    if not (d.d_name.len == name.len) then false else same_string name.name d.d_name.name

-- The byte at a pointer; past the end it is the NUL.
abbrev pub byte_of : List ℕ → ℕ
byte_of [] = 0
byte_of (c ∷ cs) = c

abbrev pub next : List ℕ → List ℕ
next [] = []
next (c ∷ cs) = cs

-- `dentry_string_cmp` over the rounds that are left.
unfoldable pub string_differs : ℕ → List ℕ → List ℕ → Bool
string_differs zero cs ct = false
string_differs (suc n) cs ct =
    let more = string_differs n (next cs) (next ct) in
    if not (byte_of cs == byte_of ct) then true else more

-- The first round comes before the count is tested, which wraps if it was 0.
unfoldable pub dentry_cmp : Dentry → List ℕ → ℕ → Bool
dentry_cmp d ct tcount = string_differs (if tcount == 0 then 2 ^ 32 else tcount) d.d_name.name ct

-- The test on a dentry of the chain in `__d_lookup`.
unfoldable pub matches : Dentry → ℕ → Qstr → Bool
matches d parent name =
    if not (d.d_name.hash == name.hash)
    then false
    else if not (d.d_parent == parent)
    then false
    else if not d.d_hashed
    then false
    else d_same_name d name

-- The test in `__d_lookup_rcu`; hash and length are compared as one word.
unfoldable pub matches_rcu : Dentry → ℕ → Qstr → Bool
matches_rcu d parent name =
    if not (d.d_parent == parent)
    then false
    else if not d.d_hashed
    then false
    else if not (d.d_name.hash == name.hash && d.d_name.len == name.len)
    then false
    else not (dentry_cmp d name.name name.len)

-- The first dentry of a chain that passes a test.
unfoldable pub first : (ℕ → Bool) → List ℕ → Option ℕ
first p [] = none
first p (d ∷ ds) = let more = first p ds in if p d then some d else more

unfoldable pub d_lookup : Vfs → ℕ → Qstr → Option ℕ
d_lookup s parent name =
    first (λ d. matches (s.dentries d) parent name) (s.dcache (d_hash name.hash))

-- With the sequence count of the dentry that was found.
unfoldable pub d_lookup_rcu : Vfs → ℕ → Qstr → Option ℕ
d_lookup_rcu s parent name =
    if test (s.dentries parent).d_flags dcache_op_compare
    then none
    else first (λ d. matches_rcu (s.dentries d) parent name) (s.dcache (d_hash name.hash))

-- `__d_alloc`: the rest of the structure is zeroed. The name is copied into `d_iname`, which holds
-- DNAME_INLINE_LEN bytes; that a longer name is written past its end, over the fields after it, is not
-- modelled.
unfoldable pub new_dentry : ℕ → ℕ → Qstr → Dentry
new_dentry addr sb name = record {
  d_flags = 0;
  d_inode = 0;
  d_sb = sb;
  d_name = record { hash = name.hash; len = name.len; name = take name.len name.name };
  d_parent = addr;
  d_children = [];
  d_hashed = false;
  d_seq = 0;
}

abbrev pub with_dentry : Vfs → ℕ → Dentry → Vfs
with_dentry s p d = record s { dentries = update s.dentries p d }

abbrev pub d_alloc_at : Vfs → ℕ → Qstr → List ℕ → Option (ℕ × Vfs)
d_alloc_at s sb name [] = none
d_alloc_at s sb name (a ∷ heap) =
    some (a, with_dentry (record s { heap = heap }) a (new_dentry a sb name))

-- `__d_alloc`.
unfoldable pub d_alloc_raw : Vfs → ℕ → Qstr → Option (ℕ × Vfs)
unfolding new_dentry
d_alloc_raw s sb name = d_alloc_at s sb name s.heap

-- The child takes a reference to its parent and stands first among its children.
unfoldable pub adopt : Vfs → ℕ → ℕ → Vfs
adopt s parent child =
    let s1 = with_dentry s child (record (s.dentries child) { d_parent = parent }) in
    note (dget parent) (
      with_dentry s1 parent
        (record (s1.dentries parent) { d_children = child ∷ (s1.dentries parent).d_children }))

unfoldable pub d_alloc : Vfs → ℕ → Qstr → Option (ℕ × Vfs)
unfolding d_alloc_raw adopt
d_alloc s parent name = elim (d_alloc_raw s (s.dentries parent).d_sb name) [
  | none ↦ none
  | some (a, s') ↦ some (a, adopt s' parent a)
]

unfoldable pub d_alloc_anon : Vfs → ℕ → Option (ℕ × Vfs)
unfolding d_alloc_raw
d_alloc_anon s sb = d_alloc_raw s sb (record { hash = 0; len = 1; name = b'/' ∷ [] })

unfoldable pub d_alloc_name : (end_hash : ℕ → ℕ) → Vfs → ℕ → List ℕ → Option (ℕ × Vfs)
unfolding d_alloc hashlen_string
d_alloc_name end_hash s parent name =
    let hl = hashlen_string end_hash parent name in
    d_alloc s parent (record { hash = hl % 2 ^ 32; len = hl / 2 ^ 32; name = name })

-- `__d_rehash`: to the head of its bucket.
unfoldable pub d_rehash : Vfs → ℕ → Vfs
d_rehash s p =
    let d = s.dentries p in
    let b = d_hash d.d_name.hash in
    record (with_dentry s p (record d { d_hashed = true })) {
      dcache = update s.dcache b (p ∷ s.dcache b);
    }

abbrev pub s_ifmt : ℕ
s_ifmt = 0o17_0000

unfoldable pub d_flags_for_inode : Vfs → ℕ → ℕ
d_flags_for_inode s i =
    let fmt = bit_and (s.inodes i).i_mode s_ifmt in
    if i == 0
    then miss_type
    else if fmt == 0o4_0000
    then directory_type
    else if fmt == 0o12_0000
    then symlink_type
    else if fmt == 0o10_0000
    then regular_type
    else special_type

-- `__d_set_inode_and_type`.
unfoldable pub set_inode_and_type : Vfs → ℕ → ℕ → ℕ → Vfs
set_inode_and_type s p i type =
    let d = s.dentries p in
    with_dentry s p
      (record d { d_inode = i; d_flags = bit_or (clear d.d_flags dcache_entry_type) type })

unfoldable pub d_add : Vfs → ℕ → ℕ → Vfs
d_add s p i = d_rehash (if i == 0 then s else set_inode_and_type s p i (d_flags_for_inode s i)) p

-- Unlike `d_add` it leaves the old type bits in, and does not hash.
unfoldable pub d_instantiate : Vfs → ℕ → ℕ → Vfs
unfolding d_flags_for_inode
d_instantiate s p i =
    let d = s.dentries p in
    if i == 0
    then s
    else with_dentry s p
        (record d { d_inode = i; d_flags = bit_or d.d_flags (d_flags_for_inode s i) })

-- The root of a file system; without memory the inode is given back.
unfoldable pub d_make_root : Vfs → ℕ → Option ℕ × Vfs
unfolding d_alloc_anon d_instantiate
d_make_root s i = if i == 0 then (none, s) else elim (d_alloc_anon s (s.inodes i).i_sb) [
  | none ↦ (none, s)
  | some (a, s') ↦ (some a, d_instantiate s' a i)
]

abbrev pub set_flags : Vfs → ℕ → ℕ → Vfs
set_flags s p flags = with_dentry s p (record (s.dentries p) { d_flags = flags })

unfoldable pub d_set_mounted : Vfs → ℕ → Vfs
d_set_mounted s p = set_flags s p (bit_or (s.dentries p).d_flags dcache_mounted)

unfoldable pub d_clear_mounted : Vfs → ℕ → Vfs
d_clear_mounted s p = set_flags s p (clear (s.dentries p).d_flags dcache_mounted)

unfoldable pub dont_mount : Vfs → ℕ → Vfs
dont_mount s p = set_flags s p (bit_or (s.dentries p).d_flags dcache_cant_mount)

unfoldable pub d_unlinked : Vfs → ℕ → Bool
d_unlinked s p = not (s.dentries p).d_hashed && not ((s.dentries p).d_parent == p)
