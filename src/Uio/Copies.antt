-- ===== src/Uio/Copies.antt =====
-- What the copies of src/uio/iov_iter.c read and write.
use linux_vfs.Base.{
  ℕ, ◌+◌, ◌-◌, ◌≤◌, ◌<◌, ◌≡◌, refl, true, Option, some, List, [], ◌∷◌, ◌==◌, arith, ◌∙◌, ◌⊎◌, inl,
  inr, sym, Bool-cases,
}
use linux_vfs.Uio.{
  Memory, copy, Uaccess, CopiesPrefix, iter_ubuf, IovIter, IovUstep, iterate_ubuf, clamp,
  iterate_and_advance, copy_from_iter, copy_to_iter, copy_to_user_iter, copy_from_user_iter,
}

-- An iterator after `n` bytes.
abbrev pub advanced : IovIter → ℕ → IovIter
advanced i n = record i { iov_offset = i.iov_offset + n; count = i.count - n }

copy_none : (mem : Memory) (to from a : ℕ) → copy mem to from 0 a ≡ mem a
copy_none mem to from a = ground arith

minus_minus : (c n : ℕ) → n ≤ c → c - (c - n) ≡ n
minus_minus c n le = omega arith

advanced_none : (i : IovIter) → advanced i 0 ≡ i
advanced_none i = rw (plus, minus) refl
  where
    plus : i.iov_offset + 0 ≡ i.iov_offset
    plus = omega arith

    minus : i.count - 0 ≡ i.count
    minus = omega arith

-- What a call returns and does: `n` bytes are copied from one address to another, and the iterator
-- moves by them.
abbrev pub Copies : IovIter → Memory → (n to from : ℕ) → Option ℕ × IovIter × Memory → Type 0
Copies i mem n to from r =
    (m : Memory) × ((a : ℕ) → m a ≡ copy mem to from n a) × (r ≡ (some n, advanced i n, m))

-- A step that copies the first bytes, `f len` of `len`.
iterate_and_advance-Copies :
    (i : IovIter) (mem : Memory) (bytes priv to from : ℕ) (step : IovUstep) (f : ℕ → ℕ)
    → i.iter_type ≡ iter_ubuf
    → ((len : ℕ)
        → (f len ≤ len)
          × (step mem (i.ubuf + i.iov_offset) 0 len priv ≡ (len - f len, copy mem to from (f len))))
    → Copies i mem (f (clamp i bytes)) to from (iterate_and_advance mem i bytes priv step)
unfolding iterate_and_advance iterate_ubuf
iterate_and_advance-Copies i mem bytes priv to from step f user steps =
    let (le, e) = steps (clamp i bytes) in
    elim (Bool-cases (clamp i bytes == 0)) [
      | inl none_left ↦ (
        mem,
        λ a. rw (nothing none_left le) (sym (copy_none mem to from a)),
        rw (none_left, nothing none_left le, advanced_none i) refl,
      )
      | inr some_left ↦ (
        copy mem to from (f (clamp i bytes)),
        λ a. refl,
        rw (some_left, user, e, minus_minus (clamp i bytes) (f (clamp i bytes)) le) refl,
      )
    ]
  where
    nothing :
        (clamp i bytes == 0) ≡ true → f (clamp i bytes) ≤ clamp i bytes → f (clamp i bytes) ≡ 0
    nothing e le = ground (arith, e, le)

copy_to_iter-Copies :
    (u : Uaccess) (mem : Memory) (addr bytes : ℕ) (i : IovIter)
    → CopiesPrefix u.raw_copy_to_user
    → i.iter_type ≡ iter_ubuf
    → (n : ℕ) × (n ≤ clamp i bytes)
      × Copies i mem n (i.ubuf + i.iov_offset) addr (copy_to_iter u mem addr bytes i)
unfolding copy_to_iter
copy_to_iter-Copies u mem addr bytes i prefix user =
    let to = i.ubuf + i.iov_offset in
    let f = λ (len : ℕ). (prefix mem to addr len).0 in
    (
      f (clamp i bytes),
      (prefix mem to addr (clamp i bytes)).1,
      iterate_and_advance-Copies i mem bytes addr to addr (copy_to_user_iter u) f user
          (λ len. ((prefix mem to addr len).1, (prefix mem to addr len).2)),
    )

-- Copies to the user one after another, whatever each returns.
abbrev pub copy_each : Uaccess → Memory → List (ℕ × ℕ) → IovIter → IovIter × Memory
copy_each u mem [] i = (i, mem)
copy_each u mem ((addr, bytes) ∷ rest) i =
    let (n, i', mem') = copy_to_iter u mem addr bytes i in copy_each u mem' rest i'

-- The accesses do not fail.
abbrev pub CopiesAll : (Memory → (to from len : ℕ) → ℕ × Memory) → Type 0
CopiesAll access =
    (mem : Memory) (to from len : ℕ) → access mem to from len ≡ (0, copy mem to from len)

all_of :
    (access : Memory → (to from len : ℕ) → ℕ × Memory) (mem : Memory) (to from n : ℕ)
    → CopiesAll access
    → (n ≤ n) × (access mem to from n ≡ (n - n, copy mem to from n))
all_of access mem to from n all = (omega arith, all mem to from n ∙ rw nothing refl)
  where
    nothing : n - n ≡ 0
    nothing = omega arith

copy_to_iter_all :
    (u : Uaccess) (mem : Memory) (addr bytes : ℕ) (i : IovIter)
    → CopiesAll u.raw_copy_to_user
    → i.iter_type ≡ iter_ubuf
    → Copies i mem (clamp i bytes) (i.ubuf + i.iov_offset) addr (copy_to_iter u mem addr bytes i)
unfolding copy_to_iter
copy_to_iter_all u mem addr bytes i all user =
    let to = i.ubuf + i.iov_offset in
    iterate_and_advance-Copies i mem bytes addr to addr (copy_to_user_iter u) (λ n. n) user
      (λ n. all_of u.raw_copy_to_user mem to addr n all)

copy_from_iter_all :
    (u : Uaccess) (mem : Memory) (addr bytes : ℕ) (i : IovIter)
    → CopiesAll u.raw_copy_from_user
    → i.iter_type ≡ iter_ubuf
    → Copies i mem (clamp i bytes) addr (i.ubuf + i.iov_offset) (copy_from_iter u mem addr bytes i)
unfolding copy_from_iter
copy_from_iter_all u mem addr bytes i all user =
    let from = i.ubuf + i.iov_offset in
    iterate_and_advance-Copies i mem bytes addr addr from (copy_from_user_iter u) (λ n. n) user
      (λ n. all_of u.raw_copy_from_user mem addr from n all)

copy_inside :
    (mem : Memory) (to from n j : ℕ) → j < n → copy mem to from n (to + j) ≡ mem (from + j)
copy_inside mem to from n j lt = rw here (ground arith)
  where
    here : to + j - to ≡ j
    here = omega arith

copy_outside :
    (mem : Memory) (to from n a : ℕ) → (a < to) ⊎ (to + n ≤ a) → copy mem to from n a ≡ mem a
copy_outside mem to from n a outside = ground arith

count_left : (i : IovIter) (bytes n : ℕ) → n ≤ clamp i bytes → n ≤ i.count
count_left i bytes n le = ground arith

-- Where an address stands that is outside what is left of the buffer.
still_outside :
    (i : IovIter) (n a : ℕ)
    → n ≤ i.count
    → (a < i.ubuf + i.iov_offset) ⊎ (i.ubuf + i.iov_offset + i.count ≤ a)
    → (a < i.ubuf + (i.iov_offset + n)) ⊎ (i.ubuf + (i.iov_offset + n) + (i.count - n) ≤ a)
still_outside i n a le (inl h) = inl (omega arith)
still_outside i n a le (inr h) = inr (omega arith)

written_within :
    (i : IovIter) (n a : ℕ)
    → n ≤ i.count
    → (a < i.ubuf + i.iov_offset) ⊎ (i.ubuf + i.iov_offset + i.count ≤ a)
    → (a < i.ubuf + i.iov_offset) ⊎ (i.ubuf + i.iov_offset + n ≤ a)
written_within i n a le (inl h) = inl h
written_within i n a le (inr h) = inr (omega arith)

-- However often a file system copies to an iterator of a user's buffer, and however much it asks for,
-- nothing outside what was left of the buffer is written, also where an access fails half-way; the
-- offset has grown by what is less in the count, and buffer and type stay.
pub copy_to_iter_within :
    (u : Uaccess) (rest : List (ℕ × ℕ)) (mem : Memory) (i : IovIter) (a : ℕ)
    → CopiesPrefix u.raw_copy_to_user
    → i.iter_type ≡ iter_ubuf
    → (a < i.ubuf + i.iov_offset) ⊎ (i.ubuf + i.iov_offset + i.count ≤ a)
    → (i' : IovIter) × (mem' : Memory) × (copy_each u mem rest i ≡ (i', mem'))
      × (mem' a ≡ mem a)
      × (i'.iov_offset + i'.count ≡ i.iov_offset + i.count)
      × (i.iov_offset ≤ i'.iov_offset)
      × (i'.ubuf ≡ i.ubuf)
      × (i'.iter_type ≡ iter_ubuf)
copy_to_iter_within u [] mem i a prefix user outside =
    (i, mem, refl, refl, refl, omega arith, refl, user)
copy_to_iter_within u ((addr, bytes) ∷ rest) mem i a prefix user outside =
    let (n, le, (m, same, e)) = copy_to_iter-Copies u mem addr bytes i prefix user in
    let (i', m', e', kept, sum, grown, buf, type) =
      copy_to_iter_within u rest m (advanced i n) a prefix user
        (still_outside i n a (count_left i bytes n le) outside) in
    (
      i',
      m',
      rw e e',
      kept
          ∙ same a
          ∙ copy_outside mem (i.ubuf + i.iov_offset) addr n a
              (written_within i n a (count_left i bytes n le) outside),
      sum ∙ omega (arith, count_left i bytes n le),
      omega arith,
      buf,
      type,
    )

-- With accesses that do not fail: what is copied to a user's buffer and back, from the same place of it,
-- arrives as it was. Both calls return the bytes that are asked for, at most what is left of the
-- buffer.
pub copy_from_iter-copy_to_iter :
    (u : Uaccess) (mem : Memory) (addr back bytes : ℕ) (i : IovIter) (j : ℕ)
    → CopiesAll u.raw_copy_to_user
    → CopiesAll u.raw_copy_from_user
    → i.iter_type ≡ iter_ubuf
    → j < clamp i bytes
    → (i' : IovIter) × (mem' : Memory) × (mem'' : Memory) × (copy_to_iter u mem addr bytes i
        ≡ (some (clamp i bytes), i', mem'))
      × (copy_from_iter u mem' back bytes i ≡ (some (clamp i bytes), i', mem''))
      × (mem'' (back + j) ≡ mem (addr + j))
copy_from_iter-copy_to_iter u mem addr back bytes i j to_all from_all user lt =
    let at = i.ubuf + i.iov_offset in
    let (m, same, e) = copy_to_iter_all u mem addr bytes i to_all user in
    let (m', same', e') = copy_from_iter_all u m back bytes i from_all user in
    (
      advanced i (clamp i bytes),
      m,
      m',
      e,
      e',
      same' (back + j)
          ∙ copy_inside m back at (clamp i bytes) j lt
          ∙ same (at + j)
          ∙ copy_inside mem at addr (clamp i bytes) j lt,
    )
