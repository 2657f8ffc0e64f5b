-- ===== src/Mnt/Filesystems/Registry.antt =====
-- The list of file system types in src/filesystems.c.
use linux_vfs.Base.{
  ℕ, zero, suc, ◌+◌, ◌<◌, ◌≡◌, ◌≢◌, refl, true, false, none, some, List, [], ◌∷◌, ◌++◌,
  if◌then◌else◌, length, ne→==, Bool-cases, inl, inr, ◌∙◌, sym, ap, arith,
}
use linux_vfs.Dcache.{take}
use linux_vfs.Mnt.Filesystems.{
  Types, Link, head, after, load, store, is_named, find_from, find_filesystem, register_at,
  register_filesystem, dot_at, check_subtype, prefix_length, get_fs_type,
}
use linux_vfs.Mnt.Filesystems.Names.{IsText, is_named_iff}

-- The types that are linked from a place on, in order.
abbrev pub IsChain : Types → Link → List ℕ → Type 0
IsChain t p [] = load t p ≡ 0
IsChain t p (x ∷ xs) = (load t p ≡ x) × (x ≢ 0) × IsChain t (after x) xs

abbrev pub All : (ℕ → Type 0) → List ℕ → Type 0
All P [] = Unit
All P (x ∷ xs) = P x × All P xs

-- The first type of a list with a name, or NULL.
abbrev pub first_named : (ℕ → List ℕ) → List ℕ → ℕ → List ℕ → ℕ
first_named names name len [] = 0
first_named names name len (x ∷ xs) =
    let more = first_named names name len xs in if is_named (names x) name len then x else more

find_from-first_named :
    (k : ℕ) (t : Types) (name : List ℕ) (len : ℕ) (p : Link) (xs : List ℕ)
    → length xs < k
    → IsChain t p xs
    → (q : Link) × (find_from k t name len p ≡ some q)
      × (load t q ≡ first_named t.name_of name len xs)
unfolding find_from
find_from-first_named zero t name len p xs lt c = absurd (omega arith)
find_from-first_named (suc k) t name len p [] lt c = (p, ground arith, c)
find_from-first_named (suc k) t name len p (x ∷ xs) lt (e, ne, c) =
    rw (e, ne→== x 0 ne)
      (elim (Bool-cases (is_named (t.name_of x) name len)) [
        | inl yes_it ↦ rw yes_it (p, refl, e)
        | inr not_it ↦ rw not_it (find_from-first_named k t name len (after x) xs (omega arith) c)
      ])

-- A pointer that is not NULL is no place for a new type.
store_other :
    (t : Types) (fs : ℕ) (q r : Link)
    → load t q ≡ 0
    → load t r ≢ 0
    → load (store t q fs) r ≡ load t r
store_other t fs head head e ne = absurd (ne e)
store_other t fs head (after y) e ne = refl
store_other t fs (after x) head e ne = refl
store_other t fs (after x) (after y) e ne = ground arith

-- The place is no field of the type itself.
abbrev IsOther : ℕ → Link → Type 0
IsOther fs head = Unit
IsOther fs (after x) = x ≢ fs

store_last :
    (t : Types) (fs : ℕ) (p : Link)
    → IsOther fs p
    → fs ≢ 0
    → t.next_of fs ≡ 0
    → IsChain (store t p fs) p (fs ∷ [])
store_last t fs head other ne free = (refl, ne, free)
store_last t fs (after x) other ne free = (ground arith, ne, ground arith)

module _ (t : Types) (name : List ℕ) (len fs : ℕ) (ne : fs ≢ 0) (free : t.next_of fs ≡ 0) where
  -- With no type of the name the search ends at the end of the chain.
  find_from-end :
      (k : ℕ) (p : Link) (xs : List ℕ)
      → length xs < k
      → IsChain t p xs
      → All (λ x. is_named (t.name_of x) name len ≡ false) xs
      → All (λ x. x ≢ fs) xs
      → IsOther fs p
      → (q : Link) × (find_from k t name len p ≡ some q)
        × (load t q ≡ 0)
        × IsChain (store t q fs) p (xs ++ fs ∷ [])
  unfolding find_from
  find_from-end zero p xs lt c new others other = absurd (omega arith)
  find_from-end (suc k) p [] lt c new others other =
      (p, rw c refl, c, store_last t fs p other ne free)
  find_from-end (suc k) p (x ∷ xs) lt (e, live, c) (new, news) (x_other, others) other =
      let (q, found, empty, chain) =
        find_from-end k (after x) xs (omega arith) c news others x_other in
      (
        q,
        rw (e, ne→== x 0 live, new) found,
        empty,
        (store_other t fs q p empty (rw e live) ∙ e, live, chain),
      )

store_keeps : (t : Types) (q : Link) (fs : ℕ) → (store t q fs).name_of ≡ t.name_of
store_keeps t head fs = refl
store_keeps t (after x) fs = refl

take-length : (xs : List ℕ) → take (length xs) xs ≡ xs
take-length [] = refl
take-length (x ∷ xs) = ap (λ (ys : List ℕ). x ∷ ys) (take-length xs)

length-snoc : (xs : List ℕ) (x : ℕ) → length (xs ++ x ∷ []) ≡ length xs + 1
length-snoc [] x = omega arith
length-snoc (y ∷ xs) x = omega (arith, length-snoc xs x)

-- A type of a list that is none of those with the name of `fs`.
abbrev pub IsForeign : Types → ℕ → ℕ → Type 0
IsForeign t fs x = (x ≢ fs) × IsText (t.name_of x) × (t.name_of x ≢ t.name_of fs)

module _ (t : Types) (fs : ℕ) (text : IsText (t.name_of fs)) where
  own_name : is_named (t.name_of fs) (t.name_of fs) (length (t.name_of fs)) ≡ true
  own_name =
      (is_named_iff (length (t.name_of fs)) (t.name_of fs) (t.name_of fs) text text (omega arith)).1
        (sym (take-length (t.name_of fs)))

  foreign_name :
      (x : ℕ)
      → IsForeign t fs x
      → is_named (t.name_of x) (t.name_of fs) (length (t.name_of fs)) ≡ false
  foreign_name x (_, x_text, ne) =
      elim (Bool-cases (is_named (t.name_of x) (t.name_of fs) (length (t.name_of fs)))) [
        | inr e ↦ e
        | inl e ↦ absurd (
            ne (
              (is_named_iff (length (t.name_of fs)) (t.name_of x) (t.name_of fs) x_text text
                  (omega arith)).0
                e
              ∙ take-length (t.name_of fs)))
      ]

  unnamed :
      (xs : List ℕ)
      → All (IsForeign t fs) xs
      → All (λ x. is_named (t.name_of x) (t.name_of fs) (length (t.name_of fs)) ≡ false) xs
        × All (λ x. x ≢ fs) xs
  unnamed [] h = (tt, tt)
  unnamed (x ∷ xs) (h, hs) =
      let (news, others) = unnamed xs hs in ((foreign_name x h, news), (h.0, others))

  first_named-snoc :
      (xs : List ℕ)
      → All (λ x. is_named (t.name_of x) (t.name_of fs) (length (t.name_of fs)) ≡ false) xs
      → first_named t.name_of (t.name_of fs) (length (t.name_of fs)) (xs ++ fs ∷ []) ≡ fs
  first_named-snoc [] h = rw own_name refl
  first_named-snoc (x ∷ xs) (h, hs) = rw h (first_named-snoc xs hs)

-- On a chain of types that ends and has enough fuel, `get_fs_type` finds the first type whose name
-- is what stands before the first dot of the name that is asked for, or NULL; with a dot it must
-- have subtypes.
get_fs_type-first_named :
    (fuel : ℕ) (t : Types) (name : List ℕ) (xs : List ℕ)
    → length xs < fuel
    → IsChain t head xs
    → get_fs_type fuel t name
      ≡ some (
          check_subtype t
            (dot_at name)
            (first_named t.name_of name (prefix_length name (dot_at name)) xs))
unfolding get_fs_type find_filesystem
get_fs_type-first_named fuel t name xs lt c =
    let (q, found, loaded) =
      find_from-first_named fuel t name (prefix_length name (dot_at name)) head xs lt c in
    rw (found, get_fs_type, loaded) refl

-- Registering a type that is in no chain, under a name of its own: it succeeds, the chain of the
-- registered types ends with the new one, and `get_fs_type` then finds it by its name, if that holds
-- no dot. The types have names without a NUL, the chain ends, and the fuel is enough for it.
pub get_fs_type-register_filesystem :
    (fuel : ℕ) (t : Types) (fs : ℕ) (xs : List ℕ)
    → length xs + 1 < fuel
    → IsChain t head xs
    → fs ≢ 0
    → t.next_of fs ≡ 0
    → IsText (t.name_of fs)
    → dot_at (t.name_of fs) ≡ none
    → All (IsForeign t fs) xs
    → (t' : Types) × (register_filesystem fuel t fs ≡ some (none, t'))
      × IsChain t' head (xs ++ fs ∷ [])
      × (get_fs_type fuel t' (t.name_of fs) ≡ some fs)
unfolding register_filesystem register_at find_filesystem check_subtype prefix_length
get_fs_type-register_filesystem fuel t fs xs lt c ne free text plain foreign =
    let (news, others) = unnamed t fs text xs foreign in
    let (q, found, empty, chain) =
      find_from-end t (t.name_of fs) (length (t.name_of fs)) fs ne free fuel head xs (omega arith) c
        news others tt in
    let look =
      get_fs_type-first_named fuel (store t q fs) (t.name_of fs) (xs ++ fs ∷ [])
        (omega (arith, length-snoc xs fs)) chain in
    (
      store t q fs,
      rw (free, found, empty) refl,
      chain,
      look ∙ rw (plain, store_keeps t q fs, first_named-snoc t fs text xs news) refl,
    )
