-- ===== src/Uio/Tests.antt =====
-- The copies of src/uio/iov_iter.c at concrete inputs: the byte at an address is the address, the buffer of
-- the user has 8 bytes at 1000, and no access fails.
use linux_vfs.Base.{ℕ, ◌+◌, ◌≤◌, ◌≡◌, refl, ap, none, some, [], ◌∷◌, arith, inr}
use linux_vfs.Uio.{
  Memory, copy, Uaccess, IovIter, iter_ubuf, iter_kvec, iov_iter_ubuf, copy_to_iter, copy_from_iter,
  iterate_and_advance, iterate_ubuf,
}
use linux_vfs.Uio.Copies.{copy_each, copy_to_iter_within, copy_from_iter-copy_to_iter}

abbrev whole : Uaccess
whole = record {
  raw_copy_to_user = λ mem to from len. (0, copy mem to from len);
  raw_copy_from_user = λ mem to from len. (0, copy mem to from len);
}

abbrev memory : Memory
memory a = a

-- Twelve bytes are asked for, and eight fit.
cut : (copy_to_iter whole memory 50 12 (iov_iter_ubuf 1000 8)).0 ≡ some 8
unfolding copy_to_iter iterate_and_advance iterate_ubuf
cut = refl

-- An iterator of another type.
no_result :
    (copy_to_iter whole memory 50 12 (record (iov_iter_ubuf 1000 8) { iter_type = iter_kvec })).0
    ≡ none
unfolding copy_to_iter iterate_and_advance iterate_ubuf
no_result = refl

copy_to_iter_within_example :
    (i : IovIter) × (mem : Memory) × (copy_each whole memory
        ((50, 5) ∷ (70, 9) ∷ [])
        (iov_iter_ubuf 1000 8)
      ≡ (i, mem))
    × (mem 1008 ≡ 1008)
    × (i.iov_offset + i.count ≡ 8)
    × (0 ≤ i.iov_offset)
    × (i.ubuf ≡ 1000)
    × (i.iter_type ≡ iter_ubuf)
copy_to_iter_within_example =
    copy_to_iter_within whole ((50, 5) ∷ (70, 9) ∷ []) memory (iov_iter_ubuf 1000 8) 1008
      (λ mem to from len.
        (len, omega arith, ap (λ (n : ℕ). (n, copy mem to from len)) (omega arith)))
      refl (inr (omega arith))

copy_from_iter-copy_to_iter_example :
    (i : IovIter) × (mem mem' : Memory) × (copy_to_iter whole memory 50 12 (iov_iter_ubuf 1000 8)
      ≡ (some 8, i, mem))
    × (copy_from_iter whole mem 200 12 (iov_iter_ubuf 1000 8) ≡ (some 8, i, mem'))
    × (mem' 207 ≡ 57)
copy_from_iter-copy_to_iter_example =
    copy_from_iter-copy_to_iter whole memory 50 200 12 (iov_iter_ubuf 1000 8) 7
      (λ mem to from len. refl) (λ mem to from len. refl) refl (omega arith)
