-- ===== src/Namei/Lookup.antt =====
-- What stands on `link_path_walk` in src/private/namei.c: `path_lookupat`, `path_parentat`,
-- `__filename_lookup`, `__namei_parentat`. A walk of a relative path starts at the place that the
-- nameidata holds; the code never sets it.
use linux_vfs.Base.{
  ℕ, zero, suc, Bool, true, false, not, ◌&&◌, Option, none, some, List, [], ◌∷◌, ◌==◌,
  if◌then◌else◌, bit_or,
}
use linux_vfs.Base.Bits.{test, clear}
use linux_vfs.Base.Errno.{Errno, eagain, enotdir, echild, estale, Result, ok, err}
use linux_vfs.Vfs.{Qstr, Loc, Vfs, dget, path_put, Driver, d_can_lookup}
use linux_vfs.Namei.Hash.{slash}
use linux_vfs.Namei.State.{
  norm, Nameidata, Link, nothing, body, failed, M, pure, ◌>>=◌, ◌>>◌, out_of_fuel, get, set_nd, ref,
  lookup_rcu, lookup_follow, lookup_directory, lookup_cached, lookup_in_root, lookup_down,
  lookup_mountpoint, lookup_reval, walk_trailing, walk_nofollow, in_rcu,
}
use linux_vfs.Namei.Links.{nd_jump_root}
use linux_vfs.Namei.Walk.{link_path_walk}
use linux_vfs.Namei.Steps.{step_into, walk_component}

abbrev drop {ℓ} : {A : Type ℓ} → ℕ → List A → List A
drop zero xs = xs
drop (suc n) [] = []
drop (suc n) (x ∷ xs) = drop n xs

abbrev is_nonempty {ℓ} : {A : Type ℓ} → List A → Bool
is_nonempty [] = false
is_nonempty (x ∷ xs) = true

-- `nd->last.name[nd->last.len]`.
unfoldable pub has_trailing : Qstr → Bool
has_trailing q = is_nonempty (drop q.len q.name)

abbrev pub no_loc : Loc
no_loc = record { mnt = 0; dentry = 0 }

module _ (dr : Driver) (fs_root : Loc) (fuel : ℕ) where
  unfoldable pub lookup_last : M Link
  unfolding has_trailing walk_component
  lookup_last = do
    w ← get
    let trailing : Bool = elim w.nd.last_type [ norm ↦ has_trailing w.nd.last | _ ↦ false ]
    (if trailing
        then set_nd
            (λ nd. record nd { flags = bit_or nd.flags (bit_or lookup_follow lookup_directory) })
        else pure tt)
    walk_component dr fs_root fuel walk_trailing

  -- ND_ROOT_PRESET is never set, since every caller passes no root.
  unfoldable pub path_init : List ℕ → ℕ → M Link
  unfolding nd_jump_root
  path_init name flags =
      if test flags lookup_cached && not (test flags lookup_rcu) then pure (failed eagain) else (do
        let flags = if is_nonempty name then flags else clear flags lookup_rcu
        set_nd (λ nd. record nd {
          flags = flags;
          jumped = true;
          seq = if test flags lookup_rcu then nd.seq else 0;
          next_seq = if test flags lookup_rcu then nd.next_seq else 0;
          root = record { mnt = 0; dentry = nd.root.dentry };
        })
        elim name [
          | [] ↦ pure (body [])
          | c ∷ cs ↦
              if c == slash && not (test flags lookup_in_root)
              then (do
                bad ← nd_jump_root fs_root
                elim bad [ some e ↦ pure (failed e) | none ↦ pure (body (c ∷ cs)) ])
              else pure (body (c ∷ cs))
        ])

  put_links : List Loc → Vfs → Vfs
  put_links [] s = s
  put_links (l ∷ ls) s = path_put l (put_links ls s)

  -- The links are put outermost first.
  unfoldable pub terminate_walk : M (Unit {0})
  unfolding put_links
  terminate_walk w =
      let grabbed = w.nd.root_grabbed in
      let nd = record (w.nd) { links = []; path = no_loc } in
      if in_rcu w
      then some (
        tt,
        record w { nd = record nd { flags = clear nd.flags lookup_rcu; seq = 0; next_seq = 0 } },
      )
      else (let s = put_links w.nd.links (path_put w.nd.path w.vfs) in
          some (
            tt,
            record {
              vfs = if grabbed then path_put w.nd.root s else s;
              nd = record nd { root_grabbed = false };
            },
          ))

  unfoldable pub handle_lookup_down : M (Option Errno)
  unfolding step_into
  handle_lookup_down = do
    w ← get
    (if in_rcu w then pure tt else ref (dget w.nd.path.dentry))
    set_nd (λ nd. record nd { next_seq = nd.seq })
    link ← step_into dr fs_root fuel walk_nofollow w.nd.path.dentry
    elim link [ failed e ↦ pure (some e) | _ ↦ pure none ]

  -- The loop of `path_lookupat` over trailing links.
  unfoldable pub lookup_loop : ℕ → Link → M (Option Errno)
  lookup_loop zero s = out_of_fuel
  lookup_loop (suc k) s = do
    bad ← link_path_walk dr fs_root fuel s
    elim bad [
      | some e ↦ pure (some e)
      | none ↦ do link ← lookup_last; elim link [ nothing ↦ pure none | l ↦ lookup_loop k l ]
    ]

  -- What `path_lookupat` does between the walk and its end.
  unfoldable pub finish_lookup : Option Errno → M (Result Loc)
  unfolding handle_lookup_down
  finish_lookup (some e) = pure (err e)
  finish_lookup none = do
    w ← get
    bad ←
        (if not (test w.nd.flags lookup_mountpoint)
          then pure none
          else (do bad ← handle_lookup_down; set_nd (λ nd. record nd { jumped = false }); pure bad))
    w' ← get
    let is_dir = d_can_lookup (w'.vfs.dentries w'.nd.path.dentry).d_flags
    elim bad [
      | some e ↦ pure (err e)
      | none ↦
          if test w'.nd.flags lookup_directory && not is_dir
          then pure (err enotdir)
          else (do set_nd (λ nd. record nd { path = no_loc }); pure (ok w'.nd.path))
    ]

  unfoldable pub path_lookupat : List ℕ → ℕ → M (Result Loc)
  unfolding path_init lookup_loop link_path_walk lookup_last finish_lookup terminate_walk
  path_lookupat name flags = do
    s ← path_init name flags
    s' ← elim s [
      | body b ↦ if not (test flags lookup_down) then pure (body b) else (do
        bad ← handle_lookup_down
        elim bad [ some e ↦ pure (failed e) | none ↦ pure (body b) ])
      | l ↦ pure l
    ]
    bad ← lookup_loop fuel s'
    r ← finish_lookup bad
    terminate_walk
    pure r

  -- The parent of the last component, which stays in `nd->last`.
  unfoldable pub path_parentat : List ℕ → ℕ → M (Result Loc)
  unfolding path_init link_path_walk terminate_walk
  path_parentat name flags = do
    s ← path_init name flags
    bad ← link_path_walk dr fs_root fuel s
    w ← get
    elim bad [
      | some e ↦ do terminate_walk; pure (err e)
      | none ↦ do set_nd (λ nd. record nd { path = no_loc }); terminate_walk; pure (ok w.nd.path)
    ]

  -- The three attempts: in RCU mode, with references, and trusting no cache.
  unfoldable pub attempts : (ℕ → M (Result Loc)) → ℕ → M (Result Loc)
  attempts look flags = do
    r ← look (bit_or flags lookup_rcu)
    r' ← elim r [ err echild ↦ look flags | x ↦ pure x ]
    elim r' [ err estale ↦ look (bit_or flags lookup_reval) | x ↦ pure x ]

  unfoldable pub filename_lookup : List ℕ → ℕ → M (Result Loc)
  unfolding attempts path_lookupat
  filename_lookup name = attempts (path_lookupat name)

  unfoldable pub filename_parentat : List ℕ → ℕ → M (Result Loc)
  unfolding attempts path_parentat
  filename_parentat name = attempts (path_parentat name)

-- `set_nameidata`, with no root.
abbrev pub new_nameidata : Nameidata
new_nameidata = record {
  path = no_loc;
  root = no_loc;
  last = record { hash = 0; len = 0; name = [] };
  flags = 0;
  jumped = false;
  root_grabbed = false;
  last_type = norm;
  inode = 0;
  total_link_count = 0;
  links = [];
  names = [];
  grown = false;
  seq = 0;
  next_seq = 0;
  m_seq = 0;
  root_seq = 0;
}
