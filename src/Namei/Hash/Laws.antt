-- ===== src/Namei/Hash/Laws.antt =====
-- What `hash_name` of src/private/namei.c splits off, beside the hashes of src/stringhash.c.
use linux_vfs.Base.{
  ℕ, suc, ◌+◌, ◌*◌, ◌%◌, ◌^◌, ◌≡◌, ◌≢◌, refl, ap, List, [], ◌∷◌, ◌++◌, length, arith,
}
use linux_vfs.Namei.Hash.{
  slash, partial_name_hash, hash_rounds, hash_name, full_name_hash_loop, full_name_hash,
  hashlen_loop, hashlen_create, hashlen_string,
}

-- A string with no slash, and what may follow a component: nothing, or a slash.
abbrev pub NoSlash : List ℕ → Type 0
NoSlash [] = Unit {0}
NoSlash (c ∷ cs) = (c ≢ slash) × NoSlash cs

abbrev pub Ends : List ℕ → Type 0
Ends [] = Unit {0}
Ends (c ∷ cs) = c ≡ slash

hash_rounds-append :
    (cs rest : List ℕ) (hash len last : ℕ)
    → NoSlash cs
    → Ends rest
    → ((hash_rounds (cs ++ rest) hash len last).rest ≡ rest)
      × ((hash_rounds (cs ++ rest) hash len last).len ≡ len + length cs)
      × ((hash_rounds (cs ++ rest) hash len last).hash
          ≡ full_name_hash_loop (length cs) (cs ++ rest) hash)
unfolding hash_rounds full_name_hash_loop
hash_rounds-append [] [] hash len last n e = (refl, omega arith, refl)
hash_rounds-append [] (c ∷ rest) hash len last n e = ground arith
hash_rounds-append (c ∷ cs) rest hash len last n e = ground (
  arith,
  hash_rounds-append cs rest (partial_name_hash c hash) (len + 1) ((last * 256 + c) % 2 ^ 64) n.1 e,
)

hashlen_loop-full :
    (cs rest : List ℕ) (hash len : ℕ)
    → hashlen_loop cs hash len
      ≡ (full_name_hash_loop (length cs) (cs ++ rest) hash, len + length cs)
unfolding hashlen_loop full_name_hash_loop
hashlen_loop-full [] rest hash len = ground arith
hashlen_loop-full (c ∷ cs) rest hash len =
    ground (arith, hashlen_loop-full cs rest (partial_name_hash c hash) (len + 1))

-- On a path whose first component is `c ∷ cs`, `hash_name` stops at the end of that component,
-- counts its bytes, and computes the hash that `full_name_hash` gives for them and that
-- `hashlen_string`, which names a new dentry, packs with the length for the component alone.
pub hash_name-component :
    (end_hash : ℕ → ℕ) (salt c : ℕ) (cs rest : List ℕ)
    → NoSlash cs
    → Ends rest
    → let h = hash_name end_hash salt (c ∷ cs ++ rest) in
      (h.rest ≡ rest)
      × (h.len ≡ length (c ∷ cs))
      × (h.hash ≡ full_name_hash end_hash salt (c ∷ cs ++ rest) h.len)
      × (hashlen_string end_hash salt (c ∷ cs) ≡ hashlen_create h.hash h.len)
unfolding hash_name full_name_hash hashlen_string hashlen_loop full_name_hash_loop
hash_name-component end_hash salt c cs rest n e =
    let r = hash_rounds-append cs rest (partial_name_hash c salt) 1 c n e in
    let counts : (hash_rounds (cs ++ rest) (partial_name_hash c salt) 1 c).len ≡ suc (length cs) =
      omega (arith, r.1) in
    (
      r.0,
      counts,
      rw (counts, r.2, full_name_hash, full_name_hash_loop) refl,
      rw
          (
            counts,
            r.2,
            hashlen_string,
            hashlen_loop,
            hashlen_loop-full cs rest (partial_name_hash c salt) 1,
          )
          (ap
            (λ (k : ℕ).
              hashlen_create
                (end_hash (full_name_hash_loop (length cs) (cs ++ rest) (partial_name_hash c salt)))
                k)
            (omega arith)),
    )
