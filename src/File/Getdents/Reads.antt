-- ===== src/File/Getdents/Reads.antt =====
-- What a reader of the buffer finds after `__getdents` of src/api/readdir.c.
use linux_vfs.Base.{
  ℕ, ◌+◌, ◌-◌, ◌^◌, ◌≡◌, refl, sym, Bool, true, false, Option, none, some, List, [], ◌∷◌, ◌++◌,
  ◌==◌, ltb, if◌then◌else◌, arith, inl, inr, ◌&&◌, not, Bool-cases,
}
use mathlib.Core.List.{append-nil, append_assoc}
use linux_vfs.Base.Errno.{Errno, einval, efault, Result, ok, err}
use linux_vfs.File.Getdents.Bounds.{getdents-Inside}
use linux_vfs.File.Getdents.Records.{
  Reads, last_start, Any, reclen_of-short, last_start-snoc, written-snoc, finished,
  last_start_below,
}
use linux_vfs.File.Getdents.{
  Entry, Dirent, Getdents, verify_dirent_name, reclen_of, write_record, filldir, emit, iterate_dir,
  finish, getdents,
}

-- The records written so far read as the entries taken so far.
abbrev Holds : Getdents → ℕ → List Entry → Type 0
Holds b start taken =
    Reads Any b.mem start b.current_dir taken
    × (b.current_dir - b.prev_reclen ≡ last_start start taken)

-- Of three tests that refuse, none or one does.
three_tests :
    (Good Bad : Getdents → Type 0) (a b c : Bool) (good x y z : Getdents)
    → Good good
    → Bad x × Bad y × Bad z
    → let r : Bool × Getdents =
        (if a
          then (false, x)
          else if b
          then (false, y)
          else if c
          then (false, z)
          else (true, good)) in
      (r.0 ≡ true → Good r.1) × (r.0 ≡ false → Bad r.1)
three_tests Good Bad true b c good x y z g h = (λ e. cc, λ e. h.0)
three_tests Good Bad false true c good x y z g h = (λ e. cc, λ e. h.1)
three_tests Good Bad false false true good x y z g h = (λ e. cc, λ e. h.2)
three_tests Good Bad false false false good x y z g h = (λ e. g, λ e. cc)

filldir-Holds :
    (accessible : ℕ → ℕ → Bool) (pending : Bool) (e : Entry) (b : Getdents) (start : ℕ)
    (taken : List Entry)
    → Holds b start taken
    → let (go, b') = filldir accessible pending e b in
      (go ≡ true → Holds b' start (taken ++ e ∷ [])) × (go ≡ false → Holds b' start taken)
unfolding filldir write_record
filldir-Holds accessible pending e b start taken h = checked (verify_dirent_name e.name) refl
  where
    added :
        verify_dirent_name e.name ≡ none
        → Holds (write_record b e (reclen_of e.name)) start (taken ++ e ∷ [])
    added q = (
      rw h.1 (written-snoc b.mem start b.current_dir taken e (reclen_of-short e.name q) h.0),
      omega (arith, last_start-snoc b.mem start b.current_dir taken e h.0),
    )

    checked :
        (x : Option Errno)
        → verify_dirent_name e.name ≡ x
        → let (go, b') = filldir accessible pending e b in
          (go ≡ true → Holds b' start (taken ++ e ∷ [])) × (go ≡ false → Holds b' start taken)
    checked (some bad) q = rw (q, filldir) (λ e. cc, λ e. h)
    checked none q =
        rw (q, filldir)
          (three_tests (λ x. Holds x start (taken ++ e ∷ [])) (λ x. Holds x start taken)
            (ltb b.count (reclen_of e.name)) (not (b.prev_reclen == 0) && pending)
            (not (accessible (b.current_dir - b.prev_reclen) (reclen_of e.name + b.prev_reclen)))
            (record (write_record b e (reclen_of e.name)) { error = some einval })
            (record b { error = some einval }) (record b { error = some einval })
            (record b { error = some efault }) (added q) (h, h, h))

-- A beginning of what the file system handed over.
abbrev pub IsPrefix : List Entry → List (Entry × Bool) → Type 0
IsPrefix [] es = Unit {0}
IsPrefix (t ∷ ts) [] = ⊥
IsPrefix (t ∷ ts) ((e, pending) ∷ es) = (t ≡ e) × IsPrefix ts es

emit-Holds :
    (accessible : ℕ → ℕ → Bool) (es : List (Entry × Bool)) (b : Getdents) (start : ℕ)
    (before : List Entry)
    → Holds b start before
    → (taken : List Entry) × IsPrefix taken es
      × Holds (emit accessible es b) start (before ++ taken)
unfolding emit
emit-Holds accessible [] b start before h = ([], tt, rw (append-nil before) h)
emit-Holds accessible ((e, pending) ∷ es) b start before h =
    let r = filldir accessible pending e b in
    let f = filldir-Holds accessible pending e b start before h in
    elim (Bool-cases r.0) [
      | inl go ↦
          let (taken, p, g) = emit-Holds accessible es r.1 start (before ++ e ∷ []) (f.0 go) in
          (e ∷ taken, (refl, p), rw (go, emit) (rw (append_assoc before (e ∷ []) taken) at g))
      | inr stop ↦ ([], tt, rw (stop, emit, append-nil before) (f.1 stop))
    ]

iterate_dir-Holds :
    (accessible : ℕ → ℕ → Bool) (dead : Bool) (es : List (Entry × Bool)) (res : Option Errno)
    (b : Getdents) (start : ℕ)
    → Holds b start []
    → (taken : List Entry) × IsPrefix taken es
      × Holds (iterate_dir accessible dead es res b).1 start taken
unfolding iterate_dir
iterate_dir-Holds accessible true es res b start h = ([], tt, h)
iterate_dir-Holds accessible false es res b start h = emit-Holds accessible es b start [] h

finish-Reads :
    (accessible : ℕ → ℕ → Bool) (pos total start n : ℕ) (bad : Option Errno) (b : Getdents)
    (taken : List Entry)
    → Holds b start taken
    → let (r, b') = finish accessible pos total bad b in
      r ≡ ok n → Reads (λ off. off ≡ pos) b'.mem start b'.current_dir taken
unfolding finish
finish-Reads accessible pos total start n bad b taken h = elim (Bool-cases (b.prev_reclen == 0)) [
  | inl none_yet ↦ rw (none_yet, finish) (λ e. quiet bad b.error (unwritten taken h (ground arith)))
  | inr some_yet ↦ elim (Bool-cases (accessible (b.current_dir - b.prev_reclen + 8) 8)) [
    | inl fine ↦
        rw (some_yet, fine, finish) (λ e. rw h.1 (finished b.mem pos start b.current_dir taken h.0))
    | inr fault ↦ rw (some_yet, fault, finish) (λ e. cc)
  ]
]
  where
    unwritten :
        (ts : List Entry)
        → Holds b start ts
        → b.prev_reclen ≡ 0
        → Reads (λ off. off ≡ pos) b.mem start b.current_dir ts
    unwritten [] k z = k.0
    unwritten (t ∷ ts) k z =
        absurd (omega (arith, k.1, z, last_start_below b.mem start b.current_dir t ts k.0))

    quiet :
        (x y : Option Errno)
        → Reads (λ off. off ≡ pos) b.mem start b.current_dir taken
        → let r = elim x as (λ _. Result ℕ × Getdents) [
          | some e ↦ (err e, b)
          | none ↦ elim y as (λ _. Result ℕ × Getdents) [ some e ↦ (err e, b) | none ↦ (ok 0, b) ]
        ] in
          Reads (λ off. off ≡ pos) r.1.mem start r.1.current_dir taken
    quiet (some e) y k = k
    quiet none (some e) k = k
    quiet none none k = k

-- When `__getdents` returns a length, the buffer reads, from its start to that length, as a beginning
-- of what the file system handed over: entry by entry the inode number, the low 8 bits of the type and the name, with
-- the length of the record, and in `d_off` the offset of the next entry, or, in the last record, the
-- position where the directory stands.
pub getdents-Reads :
    (accessible : ℕ → ℕ → Bool) (dead : Bool) (es : List (Entry × Bool)) (res : Option Errno)
    (pos start count n : ℕ) (mem : ℕ → Dirent)
    → let (r, b) = getdents accessible dead es res pos start count mem in
      r ≡ ok n
      → (taken : List Entry) × IsPrefix taken es
        × Reads (λ off. off ≡ pos) b.mem start (start + n) taken
unfolding getdents
getdents-Reads accessible dead es res pos start count n mem e =
    let total = if ltb count (2 ^ 31) then count else 0 in
    let fresh : Getdents = record {
      mem = mem;
      writes = [];
      current_dir = start;
      prev_reclen = 0;
      count = total;
      error = none;
    } in
    let read = iterate_dir accessible dead es res fresh in
    let (taken, p, h) = iterate_dir-Holds accessible dead es res fresh start (refl, omega arith) in
    let ends = (getdents-Inside accessible dead es res pos start count mem).1 n e in
    (taken, p, rw (sym ends.0) (finish-Reads accessible pos total start n read.0 read.1 taken h e))
