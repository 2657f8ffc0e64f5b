-- ===== src/Calls/Readlink/Tests.antt =====
-- readlink of "/bin", a link to "usr" here.
use linux_vfs.Base.{ℕ, ◌≡◌, refl, ◌∷◌, true, none, some, Option, [], List, length, arith}
use linux_vfs.Base.Bits.{test, clear}
use linux_vfs.Base.Errno.{Result, ok}
use linux_vfs.Vfs.{Driver}
use linux_vfs.Namei.Walk.{next_component, take_component}
use linux_vfs.Dcache.{take, first, d_lookup_rcu, matches_rcu, dentry_cmp, string_differs}
use linux_vfs.Calls.Readlink.{CopyToUser, Outcome, returns, vfs_readlinkat_api}
use linux_vfs.Calls.Readlink.Reads.{write, CopiesText, OutcomeFits, vfs_readlinkat_api-Fits}
use linux_vfs.Mnt.Mount.Tests.{files, slash_bin}
use linux_vfs.Tests.{driver, root}

abbrev usr : List ℕ
usr = b'u' ∷ b's' ∷ b'r' ∷ []

abbrev with_text : Driver
with_text = record driver { get_link = λ s d i. ok (some usr) }

abbrev copy_all : CopyToUser
copy_all mem to text = (0, write mem to text)

take_all : (text : List ℕ) → take (length text) text ≡ text
take_all [] = refl
take_all (c ∷ cs) = rw (take_all cs) refl

copy_all-CopiesText : CopiesText copy_all
copy_all-CopiesText mem to text = (length text, omega arith, rw (take_all text) (ground arith))

result_of : Outcome → Option (Result ℕ × ℕ)
result_of (returns r v m) = some (r, m 101)
result_of _ = none

-- Of "usr" two bytes fit into the buffer at 100.
two_bytes :
    result_of
      (vfs_readlinkat_api with_text (λ i. true) copy_all root 9 files (λ a. 0) (ok slash_bin) 100 2)
    ≡ some (ok 2, b's')
unfolding vfs_readlinkat_api result_of test clear next_component take_component d_lookup_rcu first
    matches_rcu dentry_cmp string_differs
two_bytes = refl

vfs_readlinkat_api-Fits_example :
    OutcomeFits with_text
      (λ a. 0)
      100
      2
      (vfs_readlinkat_api with_text (λ i. true) copy_all root 9 files (λ a. 0) (ok slash_bin) 100 2)
vfs_readlinkat_api-Fits_example =
    vfs_readlinkat_api-Fits with_text (λ i. true) copy_all copy_all-CopiesText root 9 files (λ a. 0)
      (ok slash_bin) 100 2
