-- ===== src/Mnt/Context/Source.antt =====
-- The texts of a context's parameters: who owns them in src/mnt/fs_context.c.
use linux_vfs.Base.{
  ℕ, ◌≡◌, ◌≢◌, refl, Bool, true, false, Option, none, some, List, [], ◌∷◌, ◌++◌, ◌==◌,
  if◌then◌else◌, Option-cases, inl, inr, arith, ne→==, ap, ◌∙◌, ◌&&◌,
}
use linux_vfs.Base.Errno.{einval, ok, err}
use linux_vfs.Dcache.{same_string, take}
use linux_vfs.Vfs.{update}
use linux_vfs.Mnt.Context.{
  Mounting, Run, done, faults, out_of_fuel, M, ContextMethods, is_enoparam, source_key,
  fs_value_is_flag, fs_value_is_string, unless_enoparam, vfs_parse_fs_param_source, default_param,
  try_parse, parse_keyed, vfs_parse_fs_param, forget_text, set_param, free_string, finally,
  parse_and_free, vfs_parse_fs_string,
}

-- A run that returns, in a state with a property.
abbrev pub Ends {ℓ} : {A : Type ℓ} → (Mounting → Type 0) → Run A → Type 0
Ends P (done r s) = P s
Ends P _ = ⊥

-- The text that a pointer owns.
abbrev pub own : ℕ → List ℕ
own a = if a == 0 then [] else a ∷ []

-- Every live text is that of the parameter or that of the context, and each is of one of them.
abbrev pub Owned : Mounting → Type 0
Owned s = s.live ≡ own s.param.string ++ own s.fc.source

abbrev pub OwnedByContext : Mounting → Type 0
OwnedByContext s = s.live ≡ own s.fc.source

-- The parsers of the file systems return, and take the text of the parameter or leave it.
abbrev pub ParsesOwned : ContextMethods → Type 0
ParsesOwned k =
    (ops : ℕ) (parse : M (Unit {0})) (s : Mounting)
    → (k.operations ops).parse_param ≡ some parse
    → Owned s
    → Ends Owned (parse s)

-- The next allocation is not at NULL.
abbrev pub NextIsLive : List ℕ → Type 0
NextIsLive [] = Unit
NextIsLive (a ∷ heap) = a ≢ 0

Ends-if :
    (P : Mounting → Type 0) (b : Bool) (r t : Run (Unit {0}))
    → Ends P r
    → Ends P t
    → Ends P (if b then r else t)
Ends-if P true r t h g = h
Ends-if P false r t h g = g

unless-Owned :
    (r : Run (Unit {0})) (m : M (Unit {0}))
    → Ends Owned r
    → ((s : Mounting) → Owned s → Ends Owned (m s))
    → Ends Owned (unless_enoparam r m)
unless-Owned (done (ok _) s) m h next = h
unless-Owned (done (err e) s) m h next =
    Ends-if Owned (is_enoparam e) (m s) (done (err e) s) (next s h) h
unless-Owned faults m h next = h
unless-Owned out_of_fuel m h next = h

-- The text moves from the parameter to the context.
source-Owned :
    (key : List ℕ) (s : Mounting) → Owned s → Ends Owned (vfs_parse_fs_param_source key s)
unfolding vfs_parse_fs_param_source
source-Owned key s h = ground arith

default_param-Owned : (key : List ℕ) (s : Mounting) → Owned s → Ends Owned (default_param key s)
unfolding default_param
default_param-Owned key s h =
    unless-Owned (vfs_parse_fs_param_source key s) (λ t. done (err einval) t) (source-Owned key s h)
      (λ t g. g)

remove_self : (a : ℕ) (xs : List ℕ) → forget_text a (a ∷ xs) ≡ xs
remove_self a xs = ground arith

free_string-Owned : (s : Mounting) → Owned s → OwnedByContext (free_string s)
free_string-Owned s h = ground (arith, remove_self s.param.string (own s.fc.source))

finally-Owned : (r : Run (Unit {0})) → Ends Owned r → Ends OwnedByContext (finally free_string r)
finally-Owned (done r s) h = free_string-Owned s h
finally-Owned faults h = h
finally-Owned out_of_fuel h = h

try_parse-Owned :
    (k : ContextMethods) (key : List ℕ) (s : Mounting)
    → ParsesOwned k
    → Owned s
    → Ends Owned (try_parse (k.operations s.fc.ops).parse_param key s)
try_parse-Owned k key s parses h = elim (Option-cases (k.operations s.fc.ops).parse_param) [
  | inl e ↦ rw e (default_param-Owned key s h)
  | inr (parse, e) ↦ rw e (
      unless-Owned (parse s) (default_param key) (parses s.fc.ops parse s e h)
        (default_param-Owned key))
]

parse_keyed-Owned :
    (k : ContextMethods) (key : Option (List ℕ)) (s : Mounting)
    → ParsesOwned k
    → s.fc.ops ≢ 0
    → Owned s
    → Ends Owned (parse_keyed k key s)
unfolding parse_keyed
parse_keyed-Owned k none s parses ne h = h
parse_keyed-Owned k (some key) s parses ne h =
    rw (ne→== s.fc.ops 0 ne) (try_parse-Owned k key s parses h)

parse_and_free-Owned :
    (k : ContextMethods) (s : Mounting)
    → ParsesOwned k
    → s.fc.ops ≢ 0
    → Owned s
    → Ends OwnedByContext (parse_and_free k s)
unfolding parse_and_free vfs_parse_fs_param
parse_and_free-Owned k s parses ne h =
    finally-Owned (vfs_parse_fs_param k s) (parse_keyed-Owned k s.param.key s parses ne h)

-- Whatever is parsed, and however it ends: afterwards the texts that are allocated are that of the
-- context's source, if it has one, as before the call; none is lost and none freed while it is in use.
-- The context has its operations, the parsers of file systems return and take the text of the
-- parameter or leave it, and the next allocation is not at NULL.
pub vfs_parse_fs_string-OwnedByContext :
    (k : ContextMethods) (key value : Option (List ℕ)) (v_size : ℕ) (s : Mounting)
    → ParsesOwned k
    → s.fc.ops ≢ 0
    → NextIsLive s.tree.vfs.heap
    → OwnedByContext s
    → Ends OwnedByContext (vfs_parse_fs_string k key value v_size s)
unfolding vfs_parse_fs_string
vfs_parse_fs_string-OwnedByContext k key none v_size s parses ne live h =
    parse_and_free-Owned k (set_param key fs_value_is_flag 0 v_size s) parses ne h
vfs_parse_fs_string-OwnedByContext k key (some text) v_size s parses ne live h =
    allocated s.tree.vfs.heap refl
  where
    allocated :
        (heap : List ℕ)
        → s.tree.vfs.heap ≡ heap
        → Ends OwnedByContext (vfs_parse_fs_string k key (some text) v_size s)
    allocated [] e = rw (e, vfs_parse_fs_string) h
    allocated (a ∷ heap) e =
        rw (e, vfs_parse_fs_string)
          (parse_and_free-Owned k _ parses ne
            (rw (ne→== a 0 (rw e at live)) (ap (λ (xs : List ℕ). a ∷ xs) h)))

abbrev taken : Mounting → Mounting
taken s = record s {
  fc = record s.fc { source = s.param.string };
  param = record s.param { string = 0 };
}

abbrev accepts : List ℕ → Mounting → Bool
accepts key s = same_string key source_key && s.fc.source == 0

default_param-accepts :
    (key : List ℕ) (s : Mounting)
    → s.param.type ≡ fs_value_is_string
    → default_param key s
      ≡ done (if accepts key s then ok tt else err einval) (if accepts key s then taken s else s)
unfolding default_param vfs_parse_fs_param_source
default_param-accepts key s e = rw e (ground arith)

free_string_keeps : (s : Mounting) → ((free_string s).fc ≡ s.fc) × ((free_string s).texts ≡ s.texts)
free_string_keeps s = ground arith

parse_keyed-default :
    (k : ContextMethods) (key : List ℕ) (s : Mounting)
    → (k.operations s.fc.ops).parse_param ≡ none
    → s.fc.ops ≢ 0
    → parse_keyed k (some key) s ≡ default_param key s
unfolding parse_keyed
parse_keyed-default k key s plain ne = rw (ne→== s.fc.ops 0 ne, plain) refl

parse_and_free-accepts :
    (k : ContextMethods) (key : List ℕ) (s : Mounting)
    → (k.operations s.fc.ops).parse_param ≡ none
    → s.fc.ops ≢ 0
    → s.param.key ≡ some key
    → s.param.type ≡ fs_value_is_string
    → parse_and_free k s
      ≡ done
          (if accepts key s then ok tt else err einval)
          (free_string (if accepts key s then taken s else s))
unfolding parse_and_free vfs_parse_fs_param
parse_and_free-accepts k key s plain ne named e =
    ap (λ (o : Option (List ℕ)). finally free_string (parse_keyed k o s)) named
    ∙ ap (finally free_string)
        (parse_keyed-default k key s plain ne ∙ default_param-accepts key s e)

-- The state when a text has been copied for a parameter.
abbrev given : Mounting → (key text : List ℕ) (v_size a : ℕ) (heap : List ℕ) → Mounting
given s key text v_size a heap = set_param (some key) fs_value_is_string a v_size (record s {
  tree = record s.tree { vfs = record s.tree.vfs { heap = heap } };
  texts = update s.texts a text;
  live = a ∷ s.live;
})

-- A parameter for a file system without a parser: it is accepted exactly if its key is "source" and the
-- context has no source yet, and is refused with EINVAL otherwise. The source is then a copy of the
-- value, and else is as it was. The context has its operations, and there is memory.
pub vfs_parse_fs_string-source :
    (k : ContextMethods) (key text : List ℕ) (v_size a : ℕ) (heap : List ℕ) (s : Mounting)
    → (k.operations s.fc.ops).parse_param ≡ none
    → s.fc.ops ≢ 0
    → s.tree.vfs.heap ≡ a ∷ heap
    → (t : Mounting) × (vfs_parse_fs_string k (some key) (some text) v_size s
        ≡ done (if same_string key source_key && s.fc.source == 0 then ok tt else err einval) t)
      × (t.fc.source ≡ (if same_string key source_key && s.fc.source == 0 then a else s.fc.source))
      × (t.texts a ≡ take v_size text)
unfolding vfs_parse_fs_string
vfs_parse_fs_string-source k key text v_size a heap s plain ne e =
    let s1 = given s key (take v_size text) v_size a heap in
    let t = if accepts key s then taken s1 else s1 in
    let (fc, texts) = free_string_keeps t in
    (
      free_string t,
      rw e (parse_and_free-accepts k key s1 plain ne refl refl),
      rw fc (ground arith),
      rw texts (ground arith),
    )
