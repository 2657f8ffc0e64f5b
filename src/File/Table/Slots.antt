-- ===== src/File/Table/Slots.antt =====
-- Allocation, installation and lookup of descriptors.
use linux_vfs.Base.{
  ℕ, zero, suc, ◌-◌, ◌≤◌, ◌<◌, ◌≡◌, ◌≢◌, refl, ◌⊎◌, inl, inr, Option, none, some, List, [], ◌∷◌,
  arith, get_elem?, set,
}
use linux_vfs.File.Table.{Slot, empty, used, file, Filedesc, slot_scan, filedesc_slot_alloc}

-- What `slot_scan` from index `i` gives on a table.
abbrev Scanned : ℕ → List Slot → Option ℕ × List Slot → Type 0
Scanned i fs (none, out) = (out ≡ fs) × ((j : ℕ) → get_elem? fs j ≢ some empty)
Scanned i fs (some k, out) =
    (i ≤ k)
    × (get_elem? fs (k - i) ≡ some empty)
    × (out ≡ set fs (k - i) used)
    × ((j : ℕ) → j < k - i → get_elem? fs j ≢ some empty)

Scanned-cons :
    (i : ℕ) (s : Slot) (fs : List Slot) (r : Option ℕ × List Slot)
    → s ≢ empty
    → Scanned (suc i) fs r
    → Scanned i (s ∷ fs) (r.0, s ∷ r.1)
Scanned-cons i s fs (none, out) ne h = (ground arith, at)
  where
    at : (j : ℕ) → get_elem? (s ∷ fs) j ≢ some empty
    at zero e = ne (ground arith)
    at (suc j) e = h.1 j e
Scanned-cons i s fs (some k, out) ne h = (omega arith, rw shift h.1, rw shift (ground arith), at)
  where
    shift : k - i ≡ suc (k - suc i)
    shift = omega arith

    at : (j : ℕ) → j < k - i → get_elem? (s ∷ fs) j ≢ some empty
    at zero l e = ne (ground arith)
    at (suc j) l e = h.3 j (omega arith) e

slot_scan-Scanned : (i : ℕ) (fs : List Slot) → Scanned i fs (slot_scan i fs)
unfolding slot_scan
slot_scan-Scanned i [] = (refl, λ j e. cc)
slot_scan-Scanned i (empty ∷ fs) =
    let z : i - i ≡ 0 = omega arith in
    (omega arith, rw z refl, rw z refl, λ j l. absurd (omega arith))
slot_scan-Scanned i (used ∷ fs) =
    Scanned-cons i used fs (slot_scan (suc i) fs) (λ e. cc) (slot_scan-Scanned (suc i) fs)
slot_scan-Scanned i (file p ∷ fs) =
    Scanned-cons i (file p) fs (slot_scan (suc i) fs) (λ e. cc) (slot_scan-Scanned (suc i) fs)

-- Whatever the table, the allocation either takes the lowest empty descriptor, marks it reserved
-- and leaves all others as they were, or, if no descriptor is empty, leaves the table as it was.
pub filedesc_slot_alloc-lowest :
    (fdp : Filedesc)
    → let (found, fdp') = filedesc_slot_alloc fdp in
      ((found ≡ none) × (fdp' ≡ fdp) × ((j : ℕ) → get_elem? fdp.files j ≢ some empty))
      ⊎ ((k : ℕ) × (found ≡ some k)
          × (get_elem? fdp.files k ≡ some empty)
          × (fdp' ≡ record fdp { files = set fdp.files k used })
          × ((j : ℕ) → j < k → get_elem? fdp.files j ≢ some empty))
unfolding filedesc_slot_alloc
filedesc_slot_alloc-lowest fdp = cases (slot_scan 0 fdp.files) (slot_scan-Scanned 0 fdp.files)
  where
    cases :
        (r : Option ℕ × List Slot)
        → Scanned 0 fdp.files r
        → ((r.0 ≡ none)
            × (record fdp { files = r.1 } ≡ fdp)
            × ((j : ℕ) → get_elem? fdp.files j ≢ some empty))
          ⊎ ((k : ℕ) × (r.0 ≡ some k)
              × (get_elem? fdp.files k ≡ some empty)
              × (record fdp { files = r.1 } ≡ record fdp { files = set fdp.files k used })
              × ((j : ℕ) → j < k → get_elem? fdp.files j ≢ some empty))
    cases (none, out) h = inl (refl, ground arith, h.1)
    cases (some k, out) h =
        let z : k - 0 ≡ k = omega arith in
        let taken : out ≡ set fdp.files (k - 0) used = h.2 in
        inr (k, refl, rw z at (h.1), ground (arith, rw z at taken), λ j l. h.3 j (rw z l))
