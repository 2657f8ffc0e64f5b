-- ===== src/Calls/Readlink/Reads.antt =====
-- What readlink writes to the buffer.
use linux_vfs.Base.{
  ℕ, zero, suc, ◌+◌, ◌-◌, ◌≤◌, ◌<◌, ◌≡◌, refl, ap, ◌∙◌, ◌⊎◌, inl, inr, Bool, Bool-cases, Option,
  none, some, List, [], ◌∷◌, length, ltb, leb, ◌==◌, if◌then◌else◌, get_elem?, arith,
}
use linux_vfs.Base.Errno.{efault, Result, ok, err}
use linux_vfs.Vfs.{Loc, Vfs, Driver}
use linux_vfs.Dcache.{take}
use linux_vfs.Uio.{Memory}
use linux_vfs.Namei.State.{Walk}
use linux_vfs.Namei.Lookup.{new_nameidata}
use linux_vfs.Namei.Open.{namei_lookup}
use linux_vfs.Calls.Readlink.{
  CopyToUser, Outcome, returns, lookup_empty, readlink_copy, with_link, vfs_readlink, read_found,
  vfs_readlinkat_api,
}

-- The memory with a text at an address.
abbrev pub byte_or : ℕ → Option ℕ → ℕ
byte_or old none = old
byte_or old (some c) = c

abbrev pub write : Memory → (to : ℕ) → List ℕ → Memory
write mem to text a = if leb to a then byte_or (mem a) (get_elem? text (a - to)) else mem a

-- What its documentation says of `copy_to_user`: it copies the first bytes, and returns how many it did not.
abbrev pub CopiesText : CopyToUser → Type 0
CopiesText copy =
    (mem : Memory) (to : ℕ) (text : List ℕ)
    → (n : ℕ) × (n ≤ length text)
      × (copy mem to text ≡ (length text - n, write mem to (take n text)))

abbrev pub Outside : (buffer size a : ℕ) → Type 0
Outside buffer size a = (a < buffer) ⊎ (buffer + size ≤ a)

-- The number of bytes of a link that is read, and the bytes.
abbrev pub Holds : (List ℕ → Type 0) → Memory → (buffer size : ℕ) → Result ℕ → Memory → Type 0
Holds IsLink mem buffer size (err e) m = Unit
Holds IsLink mem buffer size (ok n) m =
    (link : List ℕ) × IsLink link
    × (n ≡ (if ltb size (length link) then size else length link))
    × ((a : ℕ) → m a ≡ write mem buffer (take n link) a)

abbrev pub Fits : (List ℕ → Type 0) → Memory → (buffer size : ℕ) → Result ℕ × Memory → Type 0
Fits IsLink mem buffer size (r, m) =
    ((a : ℕ) → Outside buffer size a → m a ≡ mem a) × Holds IsLink mem buffer size r m

past_end : (text : List ℕ) (i : ℕ) → length text ≤ i → get_elem? text i ≡ none
past_end [] i h = refl
past_end (c ∷ cs) zero h = absurd (omega arith)
past_end (c ∷ cs) (suc i) h = past_end cs i (omega arith)

length-take : (n : ℕ) (text : List ℕ) → n ≤ length text → length (take n text) ≡ n
length-take zero text h = refl
length-take (suc n) [] h = absurd (omega arith)
length-take (suc n) (c ∷ cs) h = let ih = length-take n cs (omega arith) in omega arith

take-take : (n m : ℕ) (text : List ℕ) → n ≤ m → take n (take m text) ≡ take n text
take-take zero m text h = refl
take-take (suc n) zero text h = absurd (omega arith)
take-take (suc n) (suc m) [] h = refl
take-take (suc n) (suc m) (c ∷ cs) h = ap (λ (xs : List ℕ). c ∷ xs) (take-take n m cs (omega arith))

write-Outside :
    (mem : Memory) (buffer size a : ℕ) (text : List ℕ)
    → length text ≤ size
    → Outside buffer size a
    → write mem buffer text a ≡ mem a
write-Outside mem buffer size a text le (inl low) = ground arith
write-Outside mem buffer size a text le (inr high) =
    rw (past_end text (a - buffer) (omega arith)) (ground arith)

abbrev cut : ℕ → List ℕ → ℕ
cut size link = if ltb size (length link) then size else length link

copied-Fits :
    (IsLink : List ℕ → Type 0) (mem : Memory) (buffer size n : ℕ) (link : List ℕ)
    → IsLink link
    → n ≤ length (take (cut size link) link)
    → Fits IsLink mem buffer size (
      if length (take (cut size link) link) - n == 0 then ok (cut size link) else err efault,
      write mem buffer (take n (take (cut size link) link)),
    )
copied-Fits IsLink mem buffer size n link is le =
    let text = take (cut size link) link in
    let len : length text ≡ cut size link = length-take (cut size link) link (ground arith) in
    let inside : cut size link ≤ size = ground arith in
    let outside : (a : ℕ) → Outside buffer size a → write mem buffer (take n text) a ≡ mem a =
      λ a o.
        write-Outside mem buffer size a (take n text) (rw (length-take n text le) (omega arith))
          o in
    elim (Bool-cases (length text - n == 0)) [
      | inl z ↦
          let all : n ≡ cut size link = ground arith in
          rw z (
            outside,
            (
              link,
              is,
              refl,
              λ a.
                  ap (λ (t : List ℕ). write mem buffer t a)
                    (take-take n (cut size link) link (omega arith)
                      ∙ ap (λ (k : ℕ). take k link) all),
            ),
          )
      | inr z ↦ rw z (outside, tt)
    ]

readlink_copy-Fits :
    (IsLink : List ℕ → Type 0) (copy : CopyToUser) (mem : Memory) (buffer size : ℕ) (link : List ℕ)
    → IsLink link
    → CopiesText copy
    → Fits IsLink mem buffer size (readlink_copy copy mem buffer size link)
unfolding readlink_copy
readlink_copy-Fits IsLink copy mem buffer size link is copies =
    let (n, le, e) = copies mem buffer (take (cut size link) link) in
    rw e (copied-Fits IsLink mem buffer size n link is le)

-- A text that `get_link` gives for a dentry.
abbrev pub IsLinkOf : Driver → Vfs → List ℕ → Type 0
IsLinkOf dr v link = (d : ℕ) × (dr.get_link v d (v.dentries d).d_inode ≡ ok (some link))

-- What holds if a call returns.
abbrev pub OutcomeFits : Driver → Memory → (buffer size : ℕ) → Outcome → Type 0
OutcomeFits dr mem buffer size (returns r v m) = Fits (IsLinkOf dr v) mem buffer size (r, m)
OutcomeFits dr mem buffer size _ = Unit

module _ (dr : Driver) (has_get_link : ℕ → Bool) (copy : CopyToUser)
    (copies : CopiesText copy) where
  with_link-Fits :
      (v : Vfs) (mem : Memory) (d buffer size : ℕ) (r : Result (Option (List ℕ)))
      → dr.get_link v d (v.dentries d).d_inode ≡ r
      → OutcomeFits dr mem buffer size (with_link copy v mem buffer size r)
  with_link-Fits v mem d buffer size (err e) is = (λ a o. refl, tt)
  with_link-Fits v mem d buffer size (ok none) is = tt
  with_link-Fits v mem d buffer size (ok (some link)) is =
      readlink_copy-Fits (IsLinkOf dr v) copy mem buffer size link (d, is) copies

  vfs_readlink-Fits :
      (v : Vfs) (mem : Memory) (dentry buffer size : ℕ)
      → OutcomeFits dr mem buffer size (vfs_readlink dr has_get_link copy v mem dentry buffer size)
  unfolding vfs_readlink
  vfs_readlink-Fits v mem dentry buffer size =
      elim (Bool-cases ((v.dentries dentry).d_inode == 0)) [
        | inl z ↦ rw z tt
        | inr z ↦ elim (Bool-cases (has_get_link (v.dentries dentry).d_inode)) [
          | inr has ↦ rw (z, has) tt
          | inl has ↦
              rw (z, has)
                (with_link-Fits v mem dentry buffer size
                  (dr.get_link v dentry (v.dentries dentry).d_inode) refl)
        ]
      ]

  read_found-Fits :
      (mem : Memory) (buffer size : ℕ) (x : Option (Result Loc × Walk))
      → OutcomeFits dr mem buffer size (read_found dr has_get_link copy mem buffer size x)
  read_found-Fits mem buffer size none = tt
  read_found-Fits mem buffer size (some (err e, w)) = (λ a o. refl, tt)
  read_found-Fits mem buffer size (some (ok p, w)) =
      vfs_readlink-Fits w.vfs mem p.dentry buffer size

  -- When readlink returns, nothing outside the buffer of the user was written, its size read as an unsigned
  -- word; and if it returns a number, that is the length of a link that the file system gave, or the size of
  -- the buffer where this is less, and the buffer then holds as many first bytes of that link. `copy_to_user` copies the first bytes of
  -- what it gets, and returns how many it did not.
  pub vfs_readlinkat_api-Fits :
      (fs_root : Loc) (fuel : ℕ) (v : Vfs) (mem : Memory) (name : Result (List ℕ)) (buf size : ℕ)
      → OutcomeFits dr mem buf size
          (vfs_readlinkat_api dr has_get_link copy fs_root fuel v mem name buf size)
  unfolding vfs_readlinkat_api
  vfs_readlinkat_api-Fits fs_root fuel v mem name buf size =
      read_found-Fits mem buf size
        (namei_lookup dr fs_root fuel name lookup_empty (record { vfs = v; nd = new_nameidata }))
