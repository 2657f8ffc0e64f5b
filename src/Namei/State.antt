-- ===== src/Namei/State.antt =====
-- `struct nameidata` and a walk: include/linux/vfs/private/{nameidata,namei}.h. The two uses of the
-- array `stack` are two lists, innermost first: the links that were entered (`depth` is its length)
-- and the names to go on with (the local `depth` of `link_path_walk`).
use linux_vfs.Base.{
  ℕ, Bool, false, not, Option, none, some, List, ◌==◌, ◌≡◌, refl, sym, ◌∙◌, if◌then◌else◌,
}
use linux_vfs.Base.Bits.{test}
use linux_vfs.Base.Errno.{Errno}
use linux_vfs.Vfs.{Qstr, Loc, Vfs, Ref, note}

pub data LastType : Type 0 where
  norm root dot dotdot : LastType

pub record Nameidata : Type 0 where
  pub path : Loc
  pub root : Loc
  pub last : Qstr
  pub flags : ℕ
  pub jumped : Bool
  pub root_grabbed : Bool
  pub last_type : LastType
  pub inode : ℕ
  pub total_link_count : ℕ
  pub links : List Loc
  pub names : List (List ℕ)
  pub grown : Bool
  pub seq : ℕ
  pub next_seq : ℕ
  pub m_seq : ℕ
  pub root_seq : ℕ

pub record Walk : Type 0 where
  pub vfs : Vfs
  pub nd : Nameidata

-- A pointer to a name that may be NULL or an error.
pub data Link : Type 0 where
  nothing : Link
  body : List ℕ → Link
  failed : Errno → Link

-- `none` means that the fuel of a loop ran out, and nothing else.
abbrev pub M : Type 0 → Type 0
M A = Walk → Option (A × Walk)

abbrev pub pure : {A : Type 0} → A → M A
pure a w = some (a, w)

infixl 5 ◌>>=◌ ◌>>◌
abbrev pub ◌>>=◌ : {A B : Type 0} → M A → (A → M B) → M B
◌>>=◌ m f w = elim (m w) [ none ↦ none | some (a, w') ↦ f a w' ]

abbrev pub ◌>>◌ : {B : Type 0} → M (Unit {0}) → M B → M B
◌>>◌ m k w = elim (m w) [ none ↦ none | some (_, w') ↦ k w' ]

pub bind-answer :
    {A B : Type 0} (m : M A) (f : A → M B) (w : Walk) {w' : Walk} {a : A} {r : Option (B × Walk)}
    → m w ≡ some (a, w')
    → (m >>= f) w ≡ r
    → f a w' ≡ r
bind-answer m f w e h = sym (rw (e, ◌>>=◌) refl) ∙ h

abbrev pub out_of_fuel : {A : Type 0} → M A
out_of_fuel w = none

abbrev pub get : M Walk
get w = some (w, w)

abbrev pub set_nd : (Nameidata → Nameidata) → M (Unit {0})
set_nd f w = some (tt, record w { nd = f w.nd })

abbrev pub set_vfs : (Vfs → Vfs) → M (Unit {0})
set_vfs f w = some (tt, record w { vfs = f w.vfs })

abbrev pub ref : Ref → M (Unit {0})
ref r = set_vfs (note r)

abbrev pub lookup_rcu : ℕ
lookup_rcu = 0x0040

abbrev pub lookup_parent : ℕ
lookup_parent = 0x0010

abbrev pub lookup_follow : ℕ
lookup_follow = 0x0001

abbrev pub lookup_directory : ℕ
lookup_directory = 0x0002

abbrev pub lookup_cached : ℕ
lookup_cached = 0x20_0000

abbrev pub lookup_no_symlinks : ℕ
lookup_no_symlinks = 0x01_0000

abbrev pub lookup_no_xdev : ℕ
lookup_no_xdev = 0x04_0000

abbrev pub lookup_beneath : ℕ
lookup_beneath = 0x08_0000

abbrev pub lookup_in_root : ℕ
lookup_in_root = 0x10_0000

abbrev pub lookup_down : ℕ
lookup_down = 0x8000

abbrev pub lookup_mountpoint : ℕ
lookup_mountpoint = 0x0080

abbrev pub lookup_reval : ℕ
lookup_reval = 0x0020

abbrev pub lookup_is_scoped : ℕ
lookup_is_scoped = 0x18_0000

abbrev pub mnt_nosymfollow : ℕ
mnt_nosymfollow = 0x80

abbrev pub maxsymlinks : ℕ
maxsymlinks = 40

abbrev pub embedded_levels : ℕ
embedded_levels = 2

-- WALK_TRAILING, WALK_MORE, WALK_NOFOLLOW.
abbrev pub walk_trailing : ℕ
walk_trailing = 1

abbrev pub walk_more : ℕ
walk_more = 2

abbrev pub walk_nofollow : ℕ
walk_nofollow = 4

abbrev pub in_rcu : Walk → Bool
in_rcu w = test w.nd.flags lookup_rcu

abbrev pub seq_of : Walk → ℕ → ℕ
seq_of w d = (w.vfs.dentries d).d_seq

-- `read_seqcount_retry` of a dentry.
abbrev pub seq_changed : Walk → ℕ → ℕ → Bool
seq_changed w d seq = not (seq_of w d == seq)

abbrev pub same_loc : Loc → Loc → Bool
same_loc p q = if p.mnt == q.mnt then p.dentry == q.dentry else false
