-- ===== src/File/Getdents/Records.antt =====
-- A chain of directory records in the buffer, and what the writes of `filldir` and `__getdents` do
-- to it.
use linux_vfs.Base.{ℕ, ◌+◌, ◌%◌, ◌^◌, ◌≤◌, ◌<◌, ◌≡◌, ◌≢◌, refl, none, List, [], ◌∷◌, ◌++◌, arith}
use linux_vfs.File.Getdents.{Entry, Dirent, verify_dirent_name, reclen_of, put}

-- Where the record of a next entry would be found: `d_off` of a record is the offset of the entry
-- after it, and that of the last one satisfies `End`.
abbrev pub Next : (End : ℕ → Type 0) → List Entry → ℕ → Type 0
Next End [] off = End off
Next End (e ∷ es) off = off ≡ e.offset

-- From an address on, the records of some entries, one after the other by their lengths.
abbrev pub Reads : (End : ℕ → Type 0) → (ℕ → Dirent) → (from to : ℕ) → List Entry → Type 0
Reads End mem a z [] = a ≡ z
Reads End mem a z (e ∷ es) =
    ((mem a).d_ino ≡ e.ino)
    × ((mem a).d_type ≡ e.d_type % 2 ^ 8)
    × ((mem a).d_name ≡ e.name)
    × ((mem a).d_reclen ≡ reclen_of e.name)
    × Next End es (mem a).d_off
    × Reads End mem (a + reclen_of e.name) z es

abbrev pub last_start : ℕ → List Entry → ℕ
last_start a [] = a
last_start a (e ∷ []) = a
last_start a (e ∷ f ∷ es) = last_start (a + reclen_of e.name) (f ∷ es)

abbrev pub Any : ℕ → Type 0
Any off = Unit {0}

reclen_of-range : (name : List ℕ) → 24 ≤ reclen_of name
unfolding reclen_of
reclen_of-range name = omega arith

pub reclen_of-short :
    (name : List ℕ) → verify_dirent_name name ≡ none → reclen_of name % 2 ^ 16 ≡ reclen_of name
unfolding reclen_of verify_dirent_name
reclen_of-short name e = ground arith

pub last_start_bound : (a : ℕ) (es : List Entry) → a ≤ last_start a es
last_start_bound a [] = omega arith
last_start_bound a (e ∷ []) = omega arith
last_start_bound a (e ∷ f ∷ es) = omega (arith, last_start_bound (a + reclen_of e.name) (f ∷ es))

Reads-bound :
    (mem : ℕ → Dirent) (a z : ℕ) (e : Entry) (es : List Entry)
    → Reads Any mem a z (e ∷ es)
    → a + reclen_of e.name ≤ z
Reads-bound mem a z e [] h = omega (arith, h.5)
Reads-bound mem a z e (f ∷ es) h = omega (arith, Reads-bound mem (a + reclen_of e.name) z f es h.5)

pub last_start-snoc :
    (mem : ℕ → Dirent) (a z : ℕ) (es : List Entry) (e : Entry)
    → Reads Any mem a z es
    → last_start a (es ++ e ∷ []) ≡ z
last_start-snoc mem a z [] e h = h
last_start-snoc mem a z (x ∷ []) e h = h.5
last_start-snoc mem a z (x ∷ y ∷ es) e h =
    last_start-snoc mem (a + reclen_of x.name) z (y ∷ es) e h.5

-- The two writes of `filldir`: to the record at `prev`, then the new one at `z`.
abbrev pub written : (ℕ → Dirent) → (prev z : ℕ) → Entry → ℕ → Dirent
written mem prev z e =
    let mem1 = put mem prev (record (mem prev) { d_off = e.offset }) in
    put mem1 z (record (mem1 z) {
      d_ino = e.ino;
      d_reclen = reclen_of e.name % 2 ^ 16;
      d_type = e.d_type % 2 ^ 8;
      d_name = e.name;
    })

written-new :
    (mem : ℕ → Dirent) (prev z : ℕ) (e : Entry)
    → reclen_of e.name % 2 ^ 16 ≡ reclen_of e.name
    → Reads Any (written mem prev z e) z (z + reclen_of e.name) (e ∷ [])
written-new mem prev z e short = ground (arith, short)

written_prev :
    (mem : ℕ → Dirent) (prev z : ℕ) (e : Entry)
    → prev ≢ z
    → written mem prev z e prev ≡ record (mem prev) { d_off = e.offset }
written_prev mem prev z e ne = ground arith

written_other :
    (mem : ℕ → Dirent) (prev z x : ℕ) (e : Entry)
    → x ≢ prev
    → x ≢ z
    → written mem prev z e x ≡ mem x
written_other mem prev z x e ne nz = ground arith

pub written-snoc :
    (mem : ℕ → Dirent) (a z : ℕ) (es : List Entry) (e : Entry)
    → reclen_of e.name % 2 ^ 16 ≡ reclen_of e.name
    → Reads Any mem a z es
    → Reads Any (written mem (last_start a es) z e) a (z + reclen_of e.name) (es ++ e ∷ [])
written-snoc mem a z [] e short h = ground (arith, short, h)
written-snoc mem a z (x ∷ []) e short h =
    let long = reclen_of-range x.name in
    let at = written_prev mem a z e (λ q. omega (arith, h.5, long, q)) in
    (rw at h.0, rw at h.1, rw at h.2, rw at h.3, rw at refl, rw h.5 (written-new mem a z e short))
written-snoc mem a z (x ∷ y ∷ es) e short h =
    let long = reclen_of-range x.name in
    let last = last_start (a + reclen_of x.name) (y ∷ es) in
    let after = last_start_bound (a + reclen_of x.name) (y ∷ es) in
    let bound = Reads-bound mem a z x (y ∷ es) h in
    let at : written mem last z e a ≡ mem a =
      written_other mem last z a e (λ q. omega (arith, after, long, q))
        (λ q. omega (arith, bound, long, q)) in
    (
      rw at h.0,
      rw at h.1,
      rw at h.2,
      rw at h.3,
      rw at h.4,
      written-snoc mem (a + reclen_of x.name) z (y ∷ es) e short h.5,
    )

-- The last record points to where the directory stands.
pub finished :
    (mem : ℕ → Dirent) (pos a z : ℕ) (es : List Entry)
    → Reads Any mem a z es
    → let last = last_start a es in
      Reads (λ off. off ≡ pos) (put mem last (record (mem last) { d_off = pos })) a z es
finished mem pos a z [] h = h
finished mem pos a z (x ∷ []) h = ground (arith, h)
finished mem pos a z (x ∷ y ∷ es) h =
    let long = reclen_of-range x.name in
    let last = last_start (a + reclen_of x.name) (y ∷ es) in
    let after = last_start_bound (a + reclen_of x.name) (y ∷ es) in
    let at : put mem last (record (mem last) { d_off = pos }) a ≡ mem a =
      ground (arith, after, long) in
    (
      rw at h.0,
      rw at h.1,
      rw at h.2,
      rw at h.3,
      rw at h.4,
      finished mem pos (a + reclen_of x.name) z (y ∷ es) h.5,
    )

pub last_start_below :
    (mem : ℕ → Dirent) (a z : ℕ) (x : Entry) (es : List Entry)
    → Reads Any mem a z (x ∷ es)
    → last_start a (x ∷ es) < z
last_start_below mem a z x [] h = omega (arith, h.5, reclen_of-range x.name)
last_start_below mem a z x (y ∷ es) h = last_start_below mem (a + reclen_of x.name) z y es h.5
