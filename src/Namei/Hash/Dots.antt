-- ===== src/Namei/Hash/Dots.antt =====
-- The last word of `hash_name` in src/private/namei.c, which the walk compares with "." and "..".
use linux_vfs.Base.{
  ℕ, ◌+◌, ◌*◌, ◌%◌, ◌^◌, ◌≤◌, ◌<◌, ◌≡◌, refl, ◌⊎◌, inl, inr, ◌↔◌, List, [], ◌∷◌, ◌++◌, length,
  arith,
}
use linux_vfs.Namei.Hash.{partial_name_hash, hash_rounds, hash_name}
use linux_vfs.Namei.Hash.Laws.{NoSlash, Ends}

-- Bytes of a string: not NUL, below 256.
abbrev pub AreBytes : List ℕ → Type 0
AreBytes [] = Unit {0}
AreBytes (c ∷ cs) = (1 ≤ c) × (c < 256) × AreBytes cs

-- Three bytes that are not NUL keep the word above any of two bytes, however many follow.
last_above :
    (cs rest : List ℕ) (hash len last : ℕ)
    → AreBytes cs
    → NoSlash cs
    → Ends rest
    → 2 ^ 16 ≤ last % 2 ^ 24
    → 2 ^ 8 ≤ last % 2 ^ 16
    → 1 ≤ last % 2 ^ 8
    → 2 ^ 16 ≤ (hash_rounds (cs ++ rest) hash len last).last
unfolding hash_rounds
last_above [] [] hash len last b n e h3 h2 h1 = omega arith
last_above [] (c ∷ rest) hash len last b n e h3 h2 h1 = ground arith
last_above (c ∷ cs) rest hash len last b n e h3 h2 h1 = ground (
  arith,
  last_above cs rest (partial_name_hash c hash) (len + 1) ((last * 256 + c) % 2 ^ 64) b.2 n.1 e
      (omega arith) (omega arith) (omega arith),
)

last_short :
    (c : ℕ) (cs rest : List ℕ) (end_hash : ℕ → ℕ) (salt : ℕ)
    → AreBytes (c ∷ cs)
    → NoSlash (c ∷ cs)
    → Ends rest
    → ((cs ≡ []) × ((hash_name end_hash salt (c ∷ cs ++ rest)).last ≡ c))
      ⊎ ((d : ℕ) × (cs ≡ d ∷ [])
          × (d < 256)
          × ((hash_name end_hash salt (c ∷ cs ++ rest)).last ≡ c * 256 + d))
      ⊎ ((2 ≤ length cs) × (2 ^ 16 ≤ (hash_name end_hash salt (c ∷ cs ++ rest)).last))
unfolding hash_name hash_rounds
last_short c [] [] end_hash salt b n e = inl (refl, refl)
last_short c [] (x ∷ rest) end_hash salt b n e = inl (refl, ground arith)
last_short c (d ∷ []) [] end_hash salt b n e = inr (inl (d, refl, b.2.1, ground arith))
last_short c (d ∷ []) (x ∷ rest) end_hash salt b n e = inr (inl (d, refl, b.2.1, ground arith))
last_short c (d ∷ e ∷ cs) rest end_hash salt b n en = inr (
    inr (
      omega arith,
      ground (
        arith,
        last_above cs rest (partial_name_hash e (partial_name_hash d (partial_name_hash c salt))) 3
            ((((c * 256 + d) % 2 ^ 64) * 256 + e) % 2 ^ 64) b.2.2.2 n.1.1.1 en (omega arith)
            (omega arith) (omega arith),
      ),
    ))

-- For every component, of any length, the word equals LAST_WORD_IS_DOT exactly if the component
-- is "." and LAST_WORD_IS_DOTDOT exactly if it is "..", although the word keeps only the last eight
-- bytes.
pub hash_name-last :
    (end_hash : ℕ → ℕ) (salt c : ℕ) (cs rest : List ℕ)
    → AreBytes (c ∷ cs)
    → NoSlash (c ∷ cs)
    → Ends rest
    → let last = (hash_name end_hash salt (c ∷ cs ++ rest)).last in
      ((last ≡ 0x2e) ↔ (c ∷ cs ≡ b'.' ∷ [])) × ((last ≡ 0x2e2e) ↔ (c ∷ cs ≡ b'.' ∷ b'.' ∷ []))
hash_name-last end_hash salt c cs rest b n e =
    let short = last_short c cs rest end_hash salt b n e in
    (
      (λ eq. ground (arith, short, eq), λ eq. ground (arith, short, eq)),
      (λ eq. ground (arith, short, eq), λ eq. ground (arith, short, eq)),
    )
