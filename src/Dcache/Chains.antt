-- ===== src/Dcache/Chains.antt =====
-- The two lookups of src/dentry/{d_lookup,dcache}.c in a bucket, and the dentries added there.
use linux_vfs.Base.{
  ℕ, zero, suc, ◌<◌, ◌≡◌, ◌≢◌, refl, Bool, true, false, not, none, some, List, [], ◌∷◌, ◌==◌,
  length, arith, ◌⊎◌, inl, inr, ne→==, Bool-cases,
}
use linux_vfs.Base.Bits.{test}
use linux_vfs.Vfs.{Qstr, Dentry, Vfs, dcache_op_compare}
use linux_vfs.Dcache.{
  d_hash, take, same_string, d_same_name, string_differs, dentry_cmp, matches, matches_rcu, first,
  dname_inline_len, d_lookup, d_lookup_rcu, d_alloc, d_rehash, d_add, d_flags_for_inode,
  set_inode_and_type,
}

-- What the first hit of a chain satisfies: it stands on the chain and passes the test.
abbrev pub On : ℕ → List ℕ → Type 0
On p [] = ⊥
On p (d ∷ ds) = (p ≡ d) ⊎ On p ds

pub first-On : (t : ℕ → Bool) (ds : List ℕ) (p : ℕ) → first t ds ≡ some p → (t p ≡ true) × On p ds
unfolding first
first-On t [] p e = cc
first-On t (d ∷ ds) p e = ground (arith, first-On t ds p)

pub first_congr :
    (t u : ℕ → Bool) (ds : List ℕ) → ((d : ℕ) → On d ds → t d ≡ u d) → first t ds ≡ first u ds
unfolding first
first_congr t u [] h = refl
first_congr t u (d ∷ ds) h =
    let at = h d (inl refl) in
    let rest = first_congr t u ds (λ x o. h x (inr o)) in ground (arith, at, rest)

first-none : (t : ℕ → Bool) (ds : List ℕ) → ((d : ℕ) → On d ds → t d ≡ false) → first t ds ≡ none
unfolding first
first-none t [] h = refl
first-none t (d ∷ ds) h =
    let at = h d (inl refl) in
    let rest = first-none t ds (λ x o. h x (inr o)) in ground (arith, at, rest)

same_string_eq : (xs ys : List ℕ) → same_string xs ys ≡ true → xs ≡ ys
unfolding same_string
same_string_eq [] [] e = refl
same_string_eq [] (y ∷ ys) e = cc
same_string_eq (x ∷ xs) [] e = cc
same_string_eq (x ∷ xs) (y ∷ ys) e = ground (arith, same_string_eq xs ys)

pub same_string_refl : (xs : List ℕ) → same_string xs xs ≡ true
unfolding same_string
same_string_refl [] = refl
same_string_refl (x ∷ xs) = ground (arith, same_string_refl xs)

-- A dentry that a lookup returns stands in the bucket of the hash, is hashed, is a child of the
-- parent, and has exactly the name: the same length and the same string.
d_lookup_sound :
    (s : Vfs) (parent : ℕ) (name : Qstr) {p : ℕ}
    → d_lookup s parent name ≡ some p
    → On p (s.dcache (d_hash name.hash))
      × ((s.dentries p).d_parent ≡ parent)
      × ((s.dentries p).d_hashed ≡ true)
      × ((s.dentries p).d_name ≡ name)
unfolding d_lookup matches d_same_name
d_lookup_sound s parent name {p} e =
    let hit =
      first-On (λ d. matches (s.dentries d) parent name) (s.dcache (d_hash name.hash)) p e in
    ground (arith, hit, same_string_eq name.name (s.dentries p).d_name.name)

take-nil : (n : ℕ) → take {A = ℕ} n [] ≡ []
take-nil zero = refl
take-nil (suc n) = refl

string_differs-take : (n : ℕ) (ct : List ℕ) → string_differs n (take n ct) ct ≡ false
unfolding string_differs
string_differs-take zero ct = refl
string_differs-take (suc n) [] = ground (arith, string_differs-take n [], take-nil n)
string_differs-take (suc n) (c ∷ ct) = ground (arith, string_differs-take n ct)

-- A dentry's name is complete: as many bytes as it says, and more than none.
abbrev pub IsNamed : Dentry → Type 0
IsNamed d = length d.d_name.name ≡ d.d_name.len

same_string-differs :
    (n : ℕ) (xs ys : List ℕ)
    → length xs ≡ n
    → length ys ≡ n
    → same_string xs ys ≡ not (string_differs n ys xs)
unfolding same_string string_differs
same_string-differs zero [] [] e f = refl
same_string-differs zero (x ∷ xs) ys e f = absurd (omega arith)
same_string-differs zero [] (y ∷ ys) e f = absurd (omega arith)
same_string-differs (suc n) [] ys e f = absurd (omega arith)
same_string-differs (suc n) (x ∷ xs) [] e f = absurd (omega arith)
same_string-differs (suc n) (x ∷ xs) (y ∷ ys) e f =
    ground (arith, same_string-differs n xs ys (omega arith) (omega arith))

dentry_cmp-pos :
    (d : Dentry) (ct : List ℕ) (n : ℕ)
    → 0 < n
    → dentry_cmp d ct n ≡ string_differs n d.d_name.name ct
unfolding dentry_cmp
dentry_cmp-pos d ct n pos = rw (ne→== n 0 (omega arith)) refl

matches-eq-rcu :
    (d : Dentry) (parent : ℕ) (name : Qstr)
    → length name.name ≡ name.len
    → 0 < name.len
    → IsNamed d
    → matches d parent name ≡ matches_rcu d parent name
unfolding matches matches_rcu d_same_name
matches-eq-rcu d parent name l pos n = ground (
  arith,
  dentry_cmp-pos d name.name name.len pos,
  same_string-differs name.len name.name d.d_name.name l,
)

-- On a name that ends where its length says, the two lookups agree, if the dentries of the bucket
-- have complete names and the parent compares names in the standard way.
d_lookup-eq-rcu :
    (s : Vfs) (parent : ℕ) (name : Qstr)
    → length name.name ≡ name.len
    → 0 < name.len
    → test (s.dentries parent).d_flags dcache_op_compare ≡ false
    → ((d : ℕ) → On d (s.dcache (d_hash name.hash)) → IsNamed (s.dentries d))
    → d_lookup s parent name ≡ d_lookup_rcu s parent name
unfolding d_lookup d_lookup_rcu
d_lookup-eq-rcu s parent name l pos std named = rw std (
    first_congr (λ d. matches (s.dentries d) parent name)
      (λ d. matches_rcu (s.dentries d) parent name) (s.dcache (d_hash name.hash))
      λ d o. matches-eq-rcu (s.dentries d) parent name l pos (named d o))

-- A string that goes on after the component, as within a path, is never found by `d_lookup`, which
-- compares whole strings: with complete names in the bucket it returns none, whatever is cached.
d_lookup-within_path :
    (s : Vfs) (parent : ℕ) (name : Qstr)
    → length name.name ≢ name.len
    → ((d : ℕ) → On d (s.dcache (d_hash name.hash)) → IsNamed (s.dentries d))
    → d_lookup s parent name ≡ none
unfolding d_lookup
d_lookup-within_path s parent name l named =
    first-none (λ d. matches (s.dentries d) parent name) (s.dcache (d_hash name.hash))
      λ d o. differs (s.dentries d) (named d o)
  where
    differs : (d : Dentry) → IsNamed d → matches d parent name ≡ false
    differs d n =
        unfold matches d_same_name in ground (arith, same_string_eq name.name d.d_name.name)

-- What `d_alloc` leaves in the new dentry and in its parent.
d_alloc-fields :
    (s : Vfs) (parent p : ℕ) (name : Qstr) (t : Vfs)
    → d_alloc s parent name ≡ some (p, t)
    → p ≢ parent
    → ((t.dentries p).d_parent ≡ parent)
      × ((t.dentries p).d_name
          ≡ record { hash = name.hash; len = name.len; name = take name.len name.name })
      × ((t.dentries parent).d_flags ≡ (s.dentries parent).d_flags)
unfolding d_alloc
d_alloc-fields s parent p name t e ne = go s.heap refl
  where
    go :
        (heap : List ℕ)
        → s.heap ≡ heap
        → ((t.dentries p).d_parent ≡ parent)
          × ((t.dentries p).d_name
              ≡ record { hash = name.hash; len = name.len; name = take name.len name.name })
          × ((t.dentries parent).d_flags ≡ (s.dentries parent).d_flags)
    go [] h = ground arith
    go (a ∷ heap) h = ground arith

-- In a state where the dentry has its parent and name: what `d_rehash` puts first is found.
abbrev Ready : Vfs → ℕ → ℕ → Qstr → Type 0
Ready u parent p q =
    (test (u.dentries parent).d_flags dcache_op_compare ≡ false)
    × ((u.dentries p).d_parent ≡ parent)
    × ((u.dentries p).d_name ≡ record { hash = q.hash; len = q.len; name = take q.len q.name })

rehash-found :
    (u : Vfs) (parent p : ℕ) (q : Qstr)
    → p ≢ parent
    → 0 < q.len
    → Ready u parent p q
    → d_lookup_rcu (d_rehash u p) parent q ≡ some p
unfolding d_lookup_rcu d_rehash first matches_rcu
rehash-found u parent p q ne pos r = ground (
  arith,
  dentry_cmp-pos (record (u.dentries p) { d_hashed = true }) q.name q.len pos,
  string_differs-take q.len q.name,
)

set_inode-Ready :
    (t : Vfs) (parent p i type : ℕ) (q : Qstr)
    → p ≢ parent
    → Ready t parent p q
    → Ready (set_inode_and_type t p i type) parent p q
unfolding set_inode_and_type
set_inode-Ready t parent p i type q ne r = ground arith

d_add-found :
    (t : Vfs) (parent p i : ℕ) (q : Qstr)
    → p ≢ parent
    → 0 < q.len
    → Ready t parent p q
    → d_lookup_rcu (d_add t p i) parent q ≡ some p
unfolding d_add
d_add-found t parent p i q ne pos r = elim (Bool-cases (i == 0)) [
  | inl z ↦ rw (z, d_add) (rehash-found t parent p q ne pos r)
  | inr nz ↦
      let type = d_flags_for_inode t i in
      rw (nz, d_add)
        (rehash-found (set_inode_and_type t p i type) parent p q ne pos
          (set_inode-Ready t parent p i type q ne r))
]

-- A dentry that was just allocated under a parent and added is what `d_lookup_rcu` finds, by every
-- string that begins with the name and has its hash and length, whatever follows the component, if
-- the parent compares names in the standard way and the name is not empty and, with its NUL, fits into
-- the 20 bytes of the dentry.
pub d_lookup-d_add :
    (s : Vfs) (parent p i : ℕ) (name q : Qstr) {t : Vfs}
    → d_alloc s parent name ≡ some (p, t)
    → p ≢ parent
    → test (s.dentries parent).d_flags dcache_op_compare ≡ false
    → 0 < name.len
    → name.len < dname_inline_len
    → (q.hash ≡ name.hash) × (q.len ≡ name.len) × (take q.len q.name ≡ take name.len name.name)
    → d_lookup_rcu (d_add t p i) parent q ≡ some p
d_lookup-d_add s parent p i name q {t} e ne std pos fits same =
    let f = d_alloc-fields s parent p name t e ne in
    d_add-found t parent p i q ne (omega arith) (rw f.2 std, f.0, ground (arith, f))
