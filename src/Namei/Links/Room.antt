-- ===== src/Namei/Links/Room.antt =====
-- The array `nd->stack` of src/private/namei.c and its bounds.
use linux_vfs.Base.{
  ℕ, ◌≤◌, ◌<◌, ◌≡◌, refl, inl, inr, Bool, true, false, Option, none, some, List, [], ◌∷◌, arith,
  ◌==◌, sym, ap, ◌∙◌, Bool-cases, if◌then◌else◌, ◌||◌, length,
}
use linux_vfs.Base.Errno.{Errno, Result, ok, err}
use linux_vfs.Base.Bits.{test}
use linux_vfs.Vfs.{Loc, Driver}
use linux_vfs.Namei.State.{
  Nameidata, Walk, Link, nothing, body, failed, M, pure, bind-answer, ◌>>=◌, ◌>>◌, maxsymlinks,
  embedded_levels, lookup_no_symlinks, mnt_nosymfollow,
}
use linux_vfs.Namei.Hash.{slash, skip_slash}
use linux_vfs.Namei.Links.{
  put_link, reserve_stack, jump_to_root, set_root, go_on, nd_jump_root, enter_link, refuse_link,
  link_text, push_link, pick_link, nd_alloc_stack,
}

-- The size of the array.
abbrev pub capacity : Nameidata → ℕ
capacity nd = if nd.grown then maxsymlinks else embedded_levels

-- The links on the stack are among those counted, and the array has room for them.
abbrev pub HasRoom : Nameidata → Type 0
HasRoom nd = (length nd.links ≤ nd.total_link_count) × (length nd.links ≤ capacity nd)

-- On a stack with room, when `reserve_stack` returns, the links are the same as before and the
-- stack still has room; and if it returned no error, one more link can be written within the array
-- and the walk has met at most MAXSYMLINKS links.
pub reserve_stack-HasRoom :
    (w : Walk) (r : Option Errno) (w' : Walk)
    → HasRoom w.nd
    → reserve_stack w ≡ some (r, w')
    → (w'.nd.links ≡ w.nd.links)
      × HasRoom w'.nd
      × (r ≡ none → (length w'.nd.links < capacity w'.nd) × (w'.nd.total_link_count ≤ maxsymlinks))
unfolding reserve_stack nd_alloc_stack
reserve_stack-HasRoom w r w' h e = go w.vfs.heap refl
  where
    go :
        (heap : List ℕ)
        → w.vfs.heap ≡ heap
        → (w'.nd.links ≡ w.nd.links)
          × HasRoom w'.nd
          × (r ≡ none
              → (length w'.nd.links < capacity w'.nd) × (w'.nd.total_link_count ≤ maxsymlinks))
    go [] q = ground arith
    go (a ∷ heap) q = ground arith

-- A jump to the root leaves the stack alone.
nd_jump_root-stack :
    (fs_root : Loc) (w : Walk) (r : Option Errno) (w' : Walk)
    → nd_jump_root fs_root w ≡ some (r, w')
    → (w'.nd.links ≡ w.nd.links)
      × (w'.nd.total_link_count ≡ w.nd.total_link_count)
      × (w'.nd.grown ≡ w.nd.grown)
unfolding nd_jump_root set_root jump_to_root
nd_jump_root-stack fs_root w r w' e = ground arith

put_link-pop :
    (w : Walk) (r : Unit {0}) (w' : Walk) (link : Loc) (links : List Loc)
    → w.nd.links ≡ link ∷ links
    → put_link w ≡ some (r, w')
    → (w'.nd.links ≡ links)
      × (w'.nd.total_link_count ≡ w.nd.total_link_count)
      × (w'.nd.grown ≡ w.nd.grown)
unfolding put_link
put_link-pop w r w' link links h e = ground arith

-- After a link was pushed: it stays if its text is to be walked, and is popped if there is none.
abbrev pub Follows : Loc → Nameidata → Link → Nameidata → Type 0
Follows link nd r nd' =
    (r ≡ nothing → nd'.links ≡ nd.links)
    × ((text : List ℕ) → r ≡ body text → nd'.links ≡ link ∷ nd.links)

-- Popping the link that was pushed.
popped :
    (link : Loc) (nd : Nameidata) (w : Walk) (r : Link) (w' : Walk)
    → w.nd.links ≡ link ∷ nd.links
    → HasRoom w.nd
    → (put_link >> pure nothing) w ≡ some (r, w')
    → HasRoom w'.nd × Follows link nd r w'.nd
unfolding put_link
popped link nd w r w' l h e = ground arith

walked :
    (link : Loc) (nd : Nameidata) (text : List ℕ) (w : Walk) (r : Link) (w' : Walk)
    → w.nd.links ≡ link ∷ nd.links
    → HasRoom w.nd
    → pure (body text) w ≡ some (r, w')
    → HasRoom w'.nd × Follows link nd r w'.nd
walked link nd text w r w' l h e = ground arith

arrived :
    (link : Loc) (nd : Nameidata) (rest : List ℕ) (w : Walk) (r : Link) (w' : Walk)
    → w.nd.links ≡ link ∷ nd.links
    → HasRoom w.nd
    → go_on rest w ≡ some (r, w')
    → HasRoom w'.nd × Follows link nd r w'.nd
unfolding go_on
arrived link nd [] w r w' l h e = popped link nd w r w' l h e
arrived link nd (d ∷ ds) w r w' l h e = walked link nd (d ∷ ds) w r w' l h e

abbrev landed : List ℕ → Option Errno → M Link
landed cs bad = elim bad [ some e ↦ pure (failed e) | none ↦ go_on (skip_slash cs) ]

enter_link-Follows :
    (fs_root link : Loc) (nd : Nameidata) (text : List ℕ) (w : Walk) (r : Link) (w' : Walk)
    → w.nd.links ≡ link ∷ nd.links
    → HasRoom w.nd
    → enter_link fs_root text w ≡ some (r, w')
    → HasRoom w'.nd × Follows link nd r w'.nd
unfolding enter_link
enter_link-Follows fs_root link nd [] w r w' l h e = popped link nd w r w' l h e
enter_link-Follows fs_root link nd (c ∷ cs) w r w' l h e = elim (Bool-cases (c == slash)) [
  | inr ne ↦ walked link nd (c ∷ cs) w r w' l h (sym (rw ne refl) ∙ e)
  | inl eq ↦ jump (nd_jump_root fs_root w) refl (sym (rw eq refl) ∙ e)
]
  where
    jump :
        (x : Option (Option Errno × Walk))
        → nd_jump_root fs_root w ≡ x
        → (nd_jump_root fs_root >>= landed cs) w ≡ some (r, w')
        → HasRoom w'.nd × Follows link nd r w'.nd
    jump none q e' = ground arith
    jump (some (some bad, w1)) q e' = ground (arith, nd_jump_root-stack fs_root w (some bad) w1 q)
    jump (some (none, w1)) q e' =
        let k = nd_jump_root-stack fs_root w none w1 q in
        let room : HasRoom w1.nd = ground (arith, k, h) in
        arrived link nd (skip_slash cs) w1 r w' (k.0 ∙ l) room
          (bind-answer (nd_jump_root fs_root) (landed cs) w q e')

push_link-Follows :
    (fs_root : Loc) (dr : Driver) (link : Loc) (inode : ℕ) (w : Walk) (r : Link) (w' : Walk)
    → HasRoom (record (w.nd) { links = link ∷ w.nd.links })
    → push_link fs_root dr link inode w ≡ some (r, w')
    → HasRoom w'.nd × Follows link w.nd r w'.nd
unfolding push_link
push_link-Follows fs_root dr link inode w r w' h e =
    text_of (link_text dr w1 link inode) refl shut refl
  where
    w1 : Walk
    w1 = record w { nd = record (w.nd) { links = link ∷ w.nd.links } }

    shut : Bool
    shut =
        test w.nd.flags lookup_no_symlinks || test (w.vfs.mounts link.mnt).mnt_flags mnt_nosymfollow

    text_of :
        (x : Result (Option (List ℕ)))
        → link_text dr w1 link inode ≡ x
        → (b : Bool) → shut ≡ b
        → HasRoom w'.nd × Follows link w.nd r w'.nd
    text_of x q true z = ground arith
    text_of (err bad) q false z = ground arith
    text_of (ok none) q false z = popped link w.nd w1 r w' refl h (sym (rw (q, z) refl) ∙ e)
    text_of (ok (some text)) q false z =
        enter_link-Follows fs_root link w.nd text w1 r w' refl h (sym (rw (q, z) refl) ∙ e)

abbrev picked : Loc → Driver → Loc → ℕ → Option Errno → M Link
picked fs_root dr link inode bad = elim bad [
  | some e ↦ refuse_link link e
  | none ↦ push_link fs_root dr link inode
]

refuse_link-HasRoom :
    (link : Loc) (bad : Errno) (w : Walk) (r : Link) (w' : Walk)
    → refuse_link link bad w ≡ some (r, w')
    → (w'.nd ≡ w.nd) × (r ≡ failed bad)
unfolding refuse_link
refuse_link-HasRoom link bad w r w' e = ground arith

-- From a stack with room `pick_link` leads to a stack with room, whatever it returns. If it returns
-- a text to be walked, the link is the one more on the stack; if it returns none, the stack holds the
-- links of before.
pub pick_link-HasRoom :
    (fs_root : Loc) (dr : Driver) (link : Loc) (inode : ℕ) (w : Walk) (r : Link) (w' : Walk)
    → HasRoom w.nd
    → pick_link fs_root dr link inode w ≡ some (r, w')
    → HasRoom w'.nd × Follows link w.nd r w'.nd
unfolding pick_link
pick_link-HasRoom fs_root dr link inode w r w' h e = reserved (reserve_stack w) refl e
  where
    reserved :
        (x : Option (Option Errno × Walk))
        → reserve_stack w ≡ x
        → (reserve_stack >>= picked fs_root dr link inode) w ≡ some (r, w')
        → HasRoom w'.nd × Follows link w.nd r w'.nd
    reserved none q e' = ground arith
    reserved (some (some bad, w1)) q e' =
        let k = reserve_stack-HasRoom w (some bad) w1 h q in
        let t = bind-answer reserve_stack (picked fs_root dr link inode) w q e' in
        ground (arith, k, refuse_link-HasRoom link bad w1 r w' t)
    reserved (some (none, w1)) q e' =
        let k = reserve_stack-HasRoom w none w1 h q in
        let t = bind-answer reserve_stack (picked fs_root dr link inode) w q e' in
        let room : HasRoom (record (w1.nd) { links = link ∷ w1.nd.links }) = ground (arith, k) in
        let f = push_link-Follows fs_root dr link inode w1 r w' room t in
        (f.0, (λ z. f.1.0 z ∙ k.0, λ text z. f.1.1 text z ∙ ap (λ links. link ∷ links) k.0))
