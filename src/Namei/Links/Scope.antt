-- ===== src/Namei/Links/Scope.antt =====
-- What the LOOKUP flags forbid to symbolic links in `pick_link` of src/private/namei.c.
use linux_vfs.Base.{ℕ, ◌≡◌, refl, true, Option, none, some, List, [], ◌∷◌, arith}
use linux_vfs.Base.Bits.{test}
use linux_vfs.Base.Errno.{Errno, exdev, Result, ok, err}
use linux_vfs.Vfs.{Loc, Driver}
use linux_vfs.Namei.State.{Walk, Link, lookup_beneath}
use linux_vfs.Namei.Links.{
  put_link, reserve_stack, nd_alloc_stack, nd_jump_root, enter_link, refuse_link, link_text,
  push_link, pick_link,
}

abbrev Stays : Walk → Walk → Type 0
Stays w w' = (w'.nd.path ≡ w.nd.path) × (w'.nd.flags ≡ w.nd.flags)

put_link-Stays : (w : Walk) (r : Unit {0}) (w' : Walk) → put_link w ≡ some (r, w') → Stays w w'
unfolding put_link
put_link-Stays w r w' e = ground arith

reserve_stack-Stays :
    (w : Walk) (r : Option Errno) (w' : Walk) → reserve_stack w ≡ some (r, w') → Stays w w'
unfolding reserve_stack nd_alloc_stack
reserve_stack-Stays w r w' e = ground arith

nd_jump_root-beneath :
    (fs_root : Loc) (w : Walk)
    → test w.nd.flags lookup_beneath ≡ true
    → nd_jump_root fs_root w ≡ some (some exdev, w)
unfolding nd_jump_root
nd_jump_root-beneath fs_root w b = rw b refl

enter_link-beneath :
    (fs_root : Loc) (text : List ℕ) (w : Walk) (r : Link) (w' : Walk)
    → test w.nd.flags lookup_beneath ≡ true
    → enter_link fs_root text w ≡ some (r, w')
    → Stays w w'
unfolding enter_link
enter_link-beneath fs_root [] w r w' b e = ground (arith, put_link-Stays w)
enter_link-beneath fs_root (c ∷ cs) w r w' b e = ground (arith, nd_jump_root-beneath fs_root w b)

push_link-beneath :
    (fs_root : Loc) (dr : Driver) (link : Loc) (inode : ℕ) (w : Walk) (r : Link) (w' : Walk)
    → test w.nd.flags lookup_beneath ≡ true
    → push_link fs_root dr link inode w ≡ some (r, w')
    → Stays w w'
unfolding push_link
push_link-beneath fs_root dr link inode w r w' b e = text_of (link_text dr w1 link inode) refl
  where
    w1 : Walk
    w1 = record w { nd = record (w.nd) { links = link ∷ w.nd.links } }

    text_of : (x : Result (Option (List ℕ))) → link_text dr w1 link inode ≡ x → Stays w w'
    text_of (err bad) q = ground arith
    text_of (ok none) q = ground (arith, put_link-Stays w1)
    text_of (ok (some text)) q = ground (arith, enter_link-beneath fs_root text w1 r w' b)

-- Under LOOKUP_BENEATH a link never takes the walk away from where it is, an absolute one
-- included: `pick_link` leaves the path of the walk alone, whatever it returns.
pub pick_link-beneath :
    (fs_root : Loc) (dr : Driver) (link : Loc) (inode : ℕ) (w : Walk) (r : Link) (w' : Walk)
    → test w.nd.flags lookup_beneath ≡ true
    → pick_link fs_root dr link inode w ≡ some (r, w')
    → w'.nd.path ≡ w.nd.path
unfolding pick_link refuse_link
pick_link-beneath fs_root dr link inode w r w' b e = reserved (reserve_stack w) refl
  where
    reserved : (x : Option (Option Errno × Walk)) → reserve_stack w ≡ x → w'.nd.path ≡ w.nd.path
    reserved none q = ground arith
    reserved (some (some bad, w1)) q = ground (arith, reserve_stack-Stays w (some bad) w1 q)
    reserved (some (none, w1)) q =
        let k = reserve_stack-Stays w none w1 q in
        ground (arith, k, push_link-beneath fs_root dr link inode w1 r w')
