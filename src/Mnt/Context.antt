-- ===== src/Mnt/Context.antt =====
-- File system contexts, with which a mount is made: src/mnt/fs_context.c, and the state that the calls of
-- src/mnt share. One context is set up at a time: it stands in the state, and so do the parameter that
-- is parsed and the path that is mounted on, which the code passes by pointer. An address is a number.
pub mod Source
pub mod Runs
pub mod Errors
use linux_vfs.Base.{
  ℕ, ◌≡◌, Bool, true, false, not, Option, none, some, List, [], ◌∷◌, ◌==◌, if◌then◌else◌,
}
use linux_vfs.Base.Errno.{Errno, enomem, einval, enoparam, Result, ok, err}
use linux_vfs.Vfs.{Loc, Ref, note, update}
use linux_vfs.Dcache.{same_string, take}
use linux_vfs.Mnt.Tree.{Tree}
use linux_vfs.Mnt.Filesystems.{Types}

-- `ops` is the address of the operations, NULL before the file system sets it. `source` is that of a text.
pub record Context : Type 0 where
  pub ops : ℕ
  pub root : ℕ
  pub sb_flags : ℕ
  pub source : ℕ
  pub fs_type : ℕ

pub data ValueType : Type 0 where
  fs_value_is_undefined fs_value_is_flag fs_value_is_string fs_value_is_blob : ValueType
  fs_value_is_filename fs_value_is_file : ValueType

pub record Parameter : Type 0 where
  pub key : Option (List ℕ)
  pub type : ValueType
  pub string : ℕ
  pub size : ℕ

-- `live` are the texts that are allocated and not freed.
pub record Mounting : Type 0 where
  pub tree : Tree
  pub types : Types
  pub fc : Context
  pub param : Parameter
  pub path : Loc
  pub texts : ℕ → List ℕ
  pub live : List ℕ

-- `faults` is an access through NULL.
pub data Run {ℓ} (A : Type ℓ) : Type ℓ where
  done : Result A → Mounting → Run A
  faults : Run A
  out_of_fuel : Run A

abbrev pub M {ℓ} : Type ℓ → Type ℓ
M A = Mounting → Run A

abbrev pub and_then {ℓ κ} : {A : Type ℓ} {B : Type κ} → Run A → (A → M B) → Run B
and_then (done (ok a) s) f = f a s
and_then (done (err e) s) f = done (err e) s
and_then faults f = faults
and_then out_of_fuel f = out_of_fuel

infixl 5 ◌>>=◌ ◌>>◌
abbrev pub ◌>>=◌ {ℓ κ} : {A : Type ℓ} {B : Type κ} → M A → (A → M B) → M B
◌>>=◌ m f s = and_then (m s) f

abbrev pub ◌>>◌ {κ} : {B : Type κ} → M (Unit {0}) → M B → M B
m >> k = m >>= λ _. k

abbrev pub return {ℓ} : {A : Type ℓ} → A → M A
return a s = done (ok a) s

abbrev pub fail {ℓ} : {A : Type ℓ} → Errno → M A
fail e s = done (err e) s

abbrev pub modify : (Mounting → Mounting) → M (Unit {0})
modify f s = done (ok tt) (f s)

-- What is done at the end of a call, whatever it returns, and what only after an error.
abbrev pub finally {ℓ} : {A : Type ℓ} → (Mounting → Mounting) → Run A → Run A
finally f (done r s) = done r (f s)
finally f faults = faults
finally f out_of_fuel = out_of_fuel

abbrev pub on_error {ℓ} : {A : Type ℓ} → (Mounting → Mounting) → Run A → Run A
on_error f (done (ok a) s) = done (ok a) s
on_error f (done (err e) s) = done (err e) (f s)
on_error f faults = faults
on_error f out_of_fuel = out_of_fuel

-- The methods of a context, and those of the types of file systems, by their address.
pub record ContextOperations : Type 0 where
  pub parse_param : Option (M (Unit {0}))
  pub get_tree : M (Unit {0})

pub record ContextMethods : Type 0 where
  pub operations : ℕ → ContextOperations
  pub init_fs_context : ℕ → M (Unit {0})

abbrev pub note_ref : Ref → Mounting → Mounting
note_ref r s = record s { tree = record s.tree { vfs = note r s.tree.vfs } }

-- The next allocation of a zeroed object.
abbrev pub kzalloc : M ℕ
kzalloc s = elim s.tree.vfs.heap [
  | [] ↦ done (err enomem) s
  | a ∷ heap ↦
      done (ok a) (record s { tree = record s.tree { vfs = record s.tree.vfs { heap = heap } } })
]

abbrev pub new_context : (type : ℕ) → Context
new_context type = record { ops = 0; root = 0; sb_flags = 0; source = 0; fs_type = type }

-- What `init_fs_context` returns is not looked at.
abbrev pub ignore_error : Run (Unit {0}) → Run (Unit {0})
ignore_error (done r s) = done (ok tt) s
ignore_error faults = faults
ignore_error out_of_fuel = out_of_fuel

unfoldable pub alloc_fs_context : ContextMethods → (fs_type : ℕ) → M (Unit {0})
alloc_fs_context k fs_type = do
  _ ← kzalloc
  modify (λ s. record s { fc = new_context fs_type })
  λ s. ignore_error (k.init_fs_context fs_type s)

-- The flags are not kept.
unfoldable pub fs_context_for_mount : ContextMethods → (fs_type sb_flags : ℕ) → M (Unit {0})
unfolding alloc_fs_context
fs_context_for_mount k fs_type sb_flags = alloc_fs_context k fs_type

abbrev pub source_key : List ℕ
source_key = b's' ∷ b'o' ∷ b'u' ∷ b'r' ∷ b'c' ∷ b'e' ∷ []

abbrev pub is_string : ValueType → Bool
is_string fs_value_is_string = true
is_string _ = false

unfoldable pub vfs_parse_fs_param_source : List ℕ → M (Unit {0})
unfolding same_string
vfs_parse_fs_param_source key s =
    if not (same_string key source_key)
    then fail enoparam s
    else if not (is_string s.param.type)
    then fail einval s
    else if not (s.fc.source == 0)
    then fail einval s
    else done (ok tt) (record s {
      fc = record s.fc { source = s.param.string };
      param = record s.param { string = 0 };
    })

abbrev pub is_enoparam : Errno → Bool
is_enoparam enoparam = true
is_enoparam _ = false

-- `ENOPARAM` goes on to the next handler, or becomes `EINVAL` at the last.
abbrev pub unless_enoparam : Run (Unit {0}) → M (Unit {0}) → Run (Unit {0})
unless_enoparam (done (err e) s) m = if is_enoparam e then m s else done (err e) s
unless_enoparam (done (ok a) s) m = done (ok a) s
unless_enoparam faults m = faults
unless_enoparam out_of_fuel m = out_of_fuel

unfoldable pub default_param : List ℕ → M (Unit {0})
unfolding vfs_parse_fs_param_source
default_param key s = unless_enoparam (vfs_parse_fs_param_source key s) (fail einval)

abbrev pub try_parse : Option (M (Unit {0})) → List ℕ → M (Unit {0})
try_parse none key s = default_param key s
try_parse (some parse) key s = unless_enoparam (parse s) (default_param key)

-- `vfs_parse_sb_flag` returns `ENOPARAM` for every key.
unfoldable pub parse_keyed : ContextMethods → Option (List ℕ) → M (Unit {0})
unfolding default_param
parse_keyed k none s = fail einval s
parse_keyed k (some key) s =
    if s.fc.ops == 0 then faults else try_parse (k.operations s.fc.ops).parse_param key s

unfoldable pub vfs_parse_fs_param : ContextMethods → M (Unit {0})
unfolding parse_keyed
vfs_parse_fs_param k s = parse_keyed k s.param.key s

abbrev pub forget_text : ℕ → List ℕ → List ℕ
forget_text a [] = []
forget_text a (x ∷ xs) = let rest = forget_text a xs in if x == a then xs else x ∷ rest

abbrev pub kfree : ℕ → Mounting → Mounting
kfree a s = if a == 0 then s else record s { live = forget_text a s.live }

-- `kmemdup_nul`.
abbrev pub copy_text : List ℕ → M ℕ
copy_text text = do
  a ← kzalloc
  modify (λ s. record s { texts = update s.texts a text; live = a ∷ s.live })
  return a

abbrev pub set_param : Option (List ℕ) → ValueType → (string size : ℕ) → Mounting → Mounting
set_param key type string size s = record s {
  param = record { key = key; type = type; string = string; size = size };
}

abbrev pub free_string : Mounting → Mounting
free_string s = kfree s.param.string s

unfoldable pub parse_and_free : ContextMethods → M (Unit {0})
unfolding vfs_parse_fs_param
parse_and_free k s = finally free_string (vfs_parse_fs_param k s)

unfoldable pub vfs_parse_fs_string :
    ContextMethods → Option (List ℕ) → Option (List ℕ) → (v_size : ℕ) → M (Unit {0})
unfolding parse_and_free
vfs_parse_fs_string k key none v_size = do
  modify (set_param key fs_value_is_flag 0 v_size)
  parse_and_free k
vfs_parse_fs_string k key (some text) v_size = do
  a ← copy_text (take v_size text)
  modify (set_param key fs_value_is_string a v_size)
  parse_and_free k
