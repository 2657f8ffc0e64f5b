-- ===== src/File/Calls/Position.antt =====
-- Reads of an open file, one after another: src/api/read.c with the descriptor table.
use linux_vfs.Base.{
  ℕ, ◌+◌, ◌-◌, ◌≤◌, ◌≡◌, refl, Option, none, some, List, [], ◌∷◌, if◌then◌else◌, arith, leb,
  get_elem?, eq→==, ◌&&◌, ltb, ◌∙◌, ap,
}
use linux_vfs.Base.Errno.{Result, ok, err}
use linux_vfs.File.Ref.{maxref}
use linux_vfs.File.Table.{file, Files, fdput, fget_light}
use linux_vfs.File.Table.Calls.{Same, fdput-fget_light}
use linux_vfs.File.Calls.{
  fmode_read, fmode_can_read, FileOperations, File, Io, with_file, on_file, put_after, fmode_check,
  call_readops, do_read, keep_pos, vfs_read_api,
}

-- The descriptor holds the file at an address, whose count has not overflowed.
abbrev pub IsHeld : Files → (fd p : ℕ) → Type 0
IsHeld s fd p = (get_elem? s.fdp.files fd ≡ some (file p)) × (s.refs p ≤ maxref)

Same-IsHeld : (s t : Files) (fd p : ℕ) → Same t s → IsHeld s fd p → IsHeld t fd p
Same-IsHeld s t fd p (e, refs, _) (slot, le) = (rw e slot, rw (refs p) le)

on_file-found :
    {W : Type 0} (s : Io W) (fd p : ℕ) (f : Files) (call : ℕ → Io W → Option (Result ℕ × Io W))
    → fget_light s.files fd ≡ some (ok p, f)
    → on_file s fd call ≡ put_after p (call p (record s { files = f }))
unfolding on_file
on_file-found s fd p f call e = rw (e, on_file) refl

with_file_self : {W : Type 0} (f : ℕ → File W) (p : ℕ) (a : File W) → with_file f p a p ≡ a
with_file_self f p a = rw (eq→== p p refl) refl

do_read-granted :
    {W : Type 0} (f : File W) (buf size pos : ℕ) (w : W)
    → fmode_check f.f_mode fmode_read fmode_can_read ≡ none
    → do_read f buf size pos w ≡ call_readops f.f_op buf size pos w
unfolding do_read
do_read-granted f buf size pos w can = rw (can, do_read) refl

-- What is left to read of `len` bytes from a position, at most `count`.
abbrev pub available : (len pos count : ℕ) → ℕ
available len pos count = if leb count (len - pos) then count else len - pos

available-none : (len pos : ℕ) → available len pos 0 ≡ 0
available-none len pos = ground arith

available-sum :
    (len pos a b : ℕ)
    → available len pos a + available len (pos + available len pos a) b ≡ available len pos (a + b)
available-sum len pos a b = ground arith

-- Memory, after `n` bytes of a text from a position on went to a buffer.
abbrev pub delivered : (text : ℕ → ℕ) → (buf n pos : ℕ) → (ℕ → ℕ) → ℕ → ℕ
delivered text buf n pos mem a =
    if leb buf a && ltb a (buf + n) then text (pos + (a - buf)) else mem a

-- The reads of a regular file of `len` bytes: as much as there is goes to the buffer, and the position
-- moves by that.
abbrev pub Delivers :
    {W : Type 0} → FileOperations W → (W → ℕ → ℕ) → (text : ℕ → ℕ) → (len : ℕ) → Type 0
Delivers {W} ops mem text len =
    (buf count pos : ℕ) (w : W)
    → let n = available len pos count in
      (w' : W) × (call_readops ops buf count pos w ≡ (ok n, pos + n, w'))
      × ((a : ℕ) → mem w' a ≡ delivered text buf n pos (mem w) a)

-- The successive bytes of the text go to one buffer after another.
abbrev pub all_delivered : (text : ℕ → ℕ) → (len : ℕ) → List (ℕ × ℕ) → ℕ → (ℕ → ℕ) → ℕ → ℕ
all_delivered text len [] pos mem = mem
all_delivered text len ((buf, size) ∷ rs) pos mem =
    let n = available len pos size in
    all_delivered text len rs (pos + n) (delivered text buf n pos mem)

all_delivered-same :
    (text : ℕ → ℕ) (len : ℕ) (rs : List (ℕ × ℕ)) (pos : ℕ) (m m' : ℕ → ℕ)
    → ((a : ℕ) → m a ≡ m' a)
    → (a : ℕ) → all_delivered text len rs pos m a ≡ all_delivered text len rs pos m' a
all_delivered-same text len [] pos m m' e a = e a
all_delivered-same text len ((buf, size) ∷ rs) pos m m' e a =
    let n = available len pos size in
    all_delivered-same text len rs (pos + n) (delivered text buf n pos m)
      (delivered text buf n pos m') (λ b. rw (e b) refl) a

abbrev pub sum_sizes : List (ℕ × ℕ) → ℕ
sum_sizes [] = 0
sum_sizes ((buf, size) ∷ rs) = size + sum_sizes rs

-- Reads one after another into the buffers of a list, which all succeed: how much they read together.
abbrev then_more :
    {W : Type 0} → Option (Result ℕ × Io W) → (Io W → Option (ℕ × Io W)) → Option (ℕ × Io W)
then_more none more = none
then_more (some (err e, t)) more = none
then_more (some (ok n, t)) more = elim (more t) [ none ↦ none | some (m, u) ↦ some (n + m, u) ]

abbrev pub read_total : {W : Type 0} → Io W → ℕ → List (ℕ × ℕ) → Option (ℕ × Io W)
read_total s fd [] = some (0, s)
read_total s fd ((buf, size) ∷ rs) =
    then_more (vfs_read_api s fd buf size) (λ t. read_total t fd rs)

Same-self : (s : Files) → Same s s
Same-self s = (refl, λ q. refl, refl)

Same-trans : (s t u : Files) → Same t s → Same u t → Same u s
Same-trans s t u (a, b, c) (d, e, f) = (d ∙ a, λ q. e q ∙ b q, f ∙ c)

abbrev pub at : {W : Type 0} → FileOperations W → (mode pos : ℕ) → File W
at ops mode pos = record { f_op = ops; f_mode = mode; f_pos = pos }

module _ {W : Type 0} (ops : FileOperations W) (mode p fd : ℕ) where
  granted :
      (s : Io W) (buf size pos : ℕ)
      → s.file_at p ≡ at ops mode pos
      → fmode_check mode fmode_read fmode_can_read ≡ none
      → do_read (s.file_at p) buf size (s.file_at p).f_pos s.world
        ≡ call_readops ops buf size pos s.world
  granted s buf size pos here can =
      rw here (do_read-granted (at ops mode pos) buf size pos s.world can)

  vfs_read_api-step :
      (s : Io W) (buf size pos n pos' : ℕ) (w : W)
      → IsHeld s.files fd p
      → s.file_at p ≡ at ops mode pos
      → fmode_check mode fmode_read fmode_can_read ≡ none
      → call_readops ops buf size pos s.world ≡ (ok n, pos', w)
      → (t : Io W) × (vfs_read_api s fd buf size ≡ some (ok n, t))
        × Same t.files s.files
        × (t.file_at p ≡ at ops mode pos')
        × (t.world ≡ w)
  unfolding vfs_read_api put_after keep_pos
  vfs_read_api-step s buf size pos n pos' w (slot, le) here can e =
      let (t, found, _, same) = fdput-fget_light s.files fd p slot le in
      let moved = record (s.file_at p) { f_pos = pos' } in
      (
        record { files = fdput t p; file_at = with_file s.file_at p moved; world = w },
        on_file-found s fd p t
              (λ q u.
                some (keep_pos q u (do_read (u.file_at q) buf size (u.file_at q).f_pos u.world)))
              found
            ∙ ap (λ r. put_after p (some (keep_pos p (record s { files = t }) r)))
                (granted s buf size pos here can ∙ e),
        same,
        with_file_self s.file_at p moved ∙ ap (λ (f : File W). record f { f_pos = pos' }) here,
        refl,
      )

-- Reads of a regular file, one after another by a descriptor that holds it, with any buffers: each
-- succeeds, and together they read as many bytes as one read of the whole size would; the successive
-- bytes of the file, from the position on, stand in one buffer after another, and no other byte of
-- memory has changed; the position has moved by the number of bytes, and the descriptors and the counts
-- of all files are as before. The file allows reads, one read delivers what is there from the position
-- on, and its count has not overflowed.
pub vfs_read_api-Delivers :
    {W : Type 0} (ops : FileOperations W) (mem : W → ℕ → ℕ) (text : ℕ → ℕ) (mode p fd len : ℕ)
    (rs : List (ℕ × ℕ)) (s : Io W) (pos : ℕ)
    → Delivers ops mem text len
    → fmode_check mode fmode_read fmode_can_read ≡ none
    → IsHeld s.files fd p
    → s.file_at p ≡ at ops mode pos
    → (t : Io W) × (read_total s fd rs ≡ some (available len pos (sum_sizes rs), t))
      × (t.file_at p ≡ at ops mode (pos + available len pos (sum_sizes rs)))
      × Same t.files s.files
      × ((a : ℕ) → mem t.world a ≡ all_delivered text len rs pos (mem s.world) a)
vfs_read_api-Delivers ops mem text mode p fd len [] s pos deliver can held here = (
  s,
  rw (available-none len pos) refl,
  here ∙ ap (at ops mode) (omega (arith, available-none len pos)),
  Same-self s.files,
  λ a. refl,
)
vfs_read_api-Delivers ops mem text mode p fd len ((buf, size) ∷ rs) s pos deliver can held here =
    let n = available len pos size in
    let (w, e, put) = deliver buf size pos s.world in
    let (t, read, same, there, world) =
      vfs_read_api-step ops mode p fd s buf size pos n (pos + n) w held here can e in
    let (u, more, final, same_u, got) =
      vfs_read_api-Delivers ops mem text mode p fd len rs t (pos + n) deliver can
        (Same-IsHeld s.files t.files fd p same held) there in
    (
      u,
      rw (read, more, available-sum len pos size (sum_sizes rs)) refl,
      final ∙ ap (at ops mode) (omega (arith, available-sum len pos size (sum_sizes rs))),
      Same-trans s.files t.files u.files same same_u,
      λ a.
          got a
          ∙ all_delivered-same text len rs (pos + n) (mem t.world)
              (delivered text buf n pos (mem s.world)) (λ b. rw world (put b)) a,
    )
