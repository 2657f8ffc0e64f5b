-- ===== src/Namei/Hash.antt =====
-- The hash of a path component: include/linux/stringhash.h, src/stringhash.c, and `hash_name` and
-- `skip_slash` of src/private/namei.c. Addresses and `unsigned long` are 64-bit words.
pub mod Laws
pub mod Dots
use linux_vfs.Base.{
  ℕ, zero, suc, ◌+◌, ◌*◌, ◌/◌, ◌%◌, ◌^◌, Bool, true, false, ◌||◌, List, [], ◌∷◌, ◌==◌,
  if◌then◌else◌, length,
}

abbrev pub slash : ℕ
slash = b'/'

unfoldable pub partial_name_hash : ℕ → ℕ → ℕ
partial_name_hash c prevhash = (prevhash + c * 16 + c / 16) * 11 % 2 ^ 64

-- `hash_name`: the hash and the last word, the length, and the rest of the name, which begins with
-- the slash that ended the component. The loop stands after its first round.
pub record Hashed : Type 0 where
  pub hash : ℕ
  pub len : ℕ
  pub last : ℕ
  pub rest : List ℕ

unfoldable pub hash_rounds : List ℕ → (hash len last : ℕ) → Hashed
unfolding partial_name_hash
hash_rounds [] hash len last = record { hash = hash; len = len; last = last; rest = [] }
hash_rounds (c ∷ cs) hash len last =
    let more = hash_rounds cs (partial_name_hash c hash) (len + 1) ((last * 256 + c) % 2 ^ 64) in
    if c == slash then record { hash = hash; len = len; last = last; rest = c ∷ cs } else more

-- The first round runs whatever the byte is; the caller has made sure that it is neither a slash
-- nor NUL. `end_hash` is `end_name_hash`.
unfoldable pub hash_name : (end_hash : ℕ → ℕ) → (salt : ℕ) → List ℕ → Hashed
unfolding hash_rounds
hash_name end_hash salt [] = record {
  hash = end_hash (partial_name_hash 0 salt);
  len = 1;
  last = 0;
  rest = [];
}
hash_name end_hash salt (c ∷ cs) =
    let h = hash_rounds cs (partial_name_hash c salt) 1 c in record h { hash = end_hash h.hash }

unfoldable pub skip_slash : List ℕ → List ℕ
skip_slash [] = []
skip_slash (c ∷ cs) = let more = skip_slash cs in if c == slash then more else c ∷ cs

-- `full_name_hash` reads `len` bytes of the name; a read past the end reads NUL bytes.
unfoldable pub full_name_hash_loop : ℕ → List ℕ → ℕ → ℕ
unfolding partial_name_hash
full_name_hash_loop zero name hash = hash
full_name_hash_loop (suc n) [] hash = full_name_hash_loop n [] (partial_name_hash 0 hash)
full_name_hash_loop (suc n) (c ∷ cs) hash = full_name_hash_loop n cs (partial_name_hash c hash)

unfoldable pub full_name_hash : (end_hash : ℕ → ℕ) → (salt : ℕ) → List ℕ → ℕ → ℕ
unfolding full_name_hash_loop
full_name_hash end_hash salt name len = end_hash (full_name_hash_loop len name salt)

-- `hashlen_string`: the hash, with the length in the upper 32 bits.
unfoldable pub hashlen_loop : List ℕ → ℕ → ℕ → ℕ × ℕ
unfolding partial_name_hash
hashlen_loop [] hash len = (hash, len)
hashlen_loop (c ∷ cs) hash len = hashlen_loop cs (partial_name_hash c hash) (len + 1)

abbrev pub hashlen_create : ℕ → ℕ → ℕ
hashlen_create hash len = len % 2 ^ 32 * 2 ^ 32 + hash % 2 ^ 32

unfoldable pub hashlen_string : (end_hash : ℕ → ℕ) → (salt : ℕ) → List ℕ → ℕ
unfolding hashlen_loop
hashlen_string end_hash salt name =
    let (hash, len) = hashlen_loop name salt 0 in hashlen_create (end_hash hash) len
