-- ===== src/Namei/Walk.antt =====
-- `link_path_walk` of src/private/namei.c, a component at a time.
use linux_vfs.Base.{
  ℕ, zero, suc, Bool, true, false, not, Option, none, some, List, [], ◌∷◌, ◌==◌, if◌then◌else◌,
  bit_or,
}
use linux_vfs.Base.Bits.{test, clear}
use linux_vfs.Base.Errno.{Errno, enotdir, Result, ok, err}
use linux_vfs.Vfs.{Qstr, Loc, Driver, dcache_op_hash, d_can_lookup}
use linux_vfs.Namei.Hash.{hash_name, skip_slash}
use linux_vfs.Namei.State.{
  LastType, norm, root, dot, dotdot, Link, nothing, body, failed, M, pure, ◌>>=◌, ◌>>◌, out_of_fuel,
  get, set_nd, lookup_parent, walk_more,
}
use linux_vfs.Namei.Steps.{walk_component}

-- The type of a component by its last word.
unfoldable pub type_of : ℕ → LastType
type_of last = if last == 0x2e2e then dotdot else if last == 0x2e then dot else norm

module _ (dr : Driver) (fs_root : Loc) (fuel : ℕ) where
  -- The next component is put into `nd->last`; what is left of the name, or an error of `d_hash`.
  unfoldable pub next_component : List ℕ → M (Result (List ℕ))
  unfolding hash_name type_of
  next_component name = do
    w ← get
    let dir = w.nd.path.dentry
    let h = hash_name dr.hash_long dir name
    let q : Qstr = record { hash = h.hash; len = h.len; name = name }
    let t = type_of h.last
    set_nd (λ nd. record nd {
      last = q;
      last_type = t;
      jumped = elim t [ dotdot ↦ true | norm ↦ false | _ ↦ nd.jumped ];
    })
    let custom : Bool = elim t [
      | norm ↦ test (w.vfs.dentries dir).d_flags dcache_op_hash
      | _ ↦ false
    ]
    if not custom then pure (ok h.rest) else elim (dr.d_hash w.vfs dir q) [
      | err e ↦ pure (err e)
      | ok q' ↦ do set_nd (λ nd. record nd { last = q' }); pure (ok h.rest)
    ]

  -- The walk stands on the component `nd->last`, and `rest` follows it, with no slash in front.
  -- The answer: finished, or the link that the component was and the name to go on with.
  unfoldable pub take_component : List ℕ → M (Option (Link × List ℕ))
  unfolding walk_component
  take_component (c ∷ cs) = do
    link ← walk_component dr fs_root fuel walk_more
    pure (some (link, c ∷ cs))
  take_component [] = do
    w ← get
    elim w.nd.names [
      | [] ↦ do set_nd (λ nd. record nd { flags = clear nd.flags lookup_parent }); pure none
      | name ∷ names ↦ do
        set_nd (λ nd. record nd { names = names })
        link ← walk_component dr fs_root fuel 0
        pure (some (link, name))
    ]

  -- The loop of `link_path_walk` at a name that does not begin with a slash.
  unfoldable pub walk_loop : ℕ → List ℕ → M (Option Errno)
  walk_loop zero name = out_of_fuel
  walk_loop (suc k) name = do
    r ← next_component name
    elim r [
      | err e ↦ pure (some e)
      | ok rest ↦ do
        taken ← take_component (skip_slash rest)
        elim taken [
          | none ↦ pure none
          | some (failed e, name') ↦ pure (some e)
          | some (body link, name') ↦ do
            set_nd (λ nd. record nd { names = name' ∷ nd.names })
            walk_loop k link
          | some (nothing, name') ↦ do
            w ← get
            if d_can_lookup (w.vfs.dentries w.nd.path.dentry).d_flags
                then walk_loop k name'
                else pure (some enotdir)
        ]
    ]

  unfoldable pub link_path_walk : Link → M (Option Errno)
  unfolding walk_loop skip_slash
  link_path_walk s = do
    set_nd (λ nd. record nd { last_type = root; flags = bit_or nd.flags lookup_parent; names = [] })
    elim s [
      | failed e ↦ pure (some e)
      | nothing ↦ pure none
      | body name ↦ elim (skip_slash name) [ [] ↦ pure none | c ∷ cs ↦ walk_loop fuel (c ∷ cs) ]
    ]
