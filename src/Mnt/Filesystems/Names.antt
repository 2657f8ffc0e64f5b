-- ===== src/Mnt/Filesystems/Names.antt =====
-- The comparison of names in `find_filesystem` of src/filesystems.c.
use linux_vfs.Base.{ℕ, zero, suc, ◌≤◌, ◌≡◌, ◌≢◌, ◌↔◌, true, List, [], ◌∷◌, length, arith}
use linux_vfs.Dcache.{take}
use linux_vfs.Mnt.Filesystems.{is_named}

-- No byte is a NUL.
abbrev pub IsText : List ℕ → Type 0
IsText [] = Unit
IsText (c ∷ cs) = (c ≢ 0) × IsText cs

-- The test compares a name with the first bytes of another.
pub is_named_iff :
    (n : ℕ) (a b : List ℕ)
    → IsText a
    → IsText b
    → n ≤ length b
    → (is_named a b n ≡ true) ↔ (a ≡ take n b)
unfolding is_named
is_named_iff zero [] b ha hb le = ground arith
is_named_iff zero (c ∷ cs) b ha hb le = ground arith
is_named_iff (suc n) a [] ha hb le = absurd (omega arith)
is_named_iff (suc n) [] (c ∷ cs) ha hb le = ground arith
is_named_iff (suc n) (d ∷ ds) (c ∷ cs) ha hb le = ground (arith, is_named_iff n ds cs ha.1 hb.1)
