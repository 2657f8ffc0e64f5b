-- ===== src/Mnt/Context/Errors.antt =====
-- Runs that fail: what holds of the tree then.
use linux_vfs.Base.{◌≡◌, refl}
use linux_vfs.Base.Errno.{ok, err}
use linux_vfs.Mnt.Tree.{Tree}
use linux_vfs.Mnt.Context.{Mounting, Run, done, faults, out_of_fuel, M, and_then, finally, on_error}

-- What holds of the tree when a run fails.
abbrev pub OnError {ℓ} : {A : Type ℓ} → (Tree → Type 0) → Run A → Type 0
OnError P (done (err e) s) = P s.tree
OnError P _ = Unit

pub finally-OnError {ℓ} :
    {A : Type ℓ} (f : Mounting → Mounting) (P Q : Tree → Type 0) (r : Run A)
    → ((s : Mounting) → P s.tree → Q (f s).tree)
    → OnError P r
    → OnError Q (finally f r)
finally-OnError f P Q (done (ok a) s) g h = tt
finally-OnError f P Q (done (err e) s) g h = g s h
finally-OnError f P Q faults g h = tt
finally-OnError f P Q out_of_fuel g h = tt

pub on_error-OnError {ℓ} :
    {A : Type ℓ} (f : Mounting → Mounting) (P Q : Tree → Type 0) (r : Run A)
    → ((s : Mounting) → P s.tree → Q (f s).tree)
    → OnError P r
    → OnError Q (on_error f r)
on_error-OnError f P Q (done (ok a) s) g h = tt
on_error-OnError f P Q (done (err e) s) g h = g s h
on_error-OnError f P Q faults g h = tt
on_error-OnError f P Q out_of_fuel g h = tt

pub and_then-OnError {ℓ κ} :
    {A : Type ℓ} {B : Type κ} (P : Tree → Type 0) (r : Run A) (f : A → M B)
    → OnError P r
    → ((a : A) (s : Mounting) → r ≡ done (ok a) s → OnError P (f a s))
    → OnError P (and_then r f)
and_then-OnError P (done (ok a) s) f h g = g a s refl
and_then-OnError P (done (err e) s) f h g = h
and_then-OnError P faults f h g = tt
and_then-OnError P out_of_fuel f h g = tt

pub OnError-weaken {ℓ} :
    {A : Type ℓ} (P Q : Tree → Type 0) (r : Run A)
    → ((u : Tree) → P u → Q u)
    → OnError P r
    → OnError Q r
OnError-weaken P Q (done (ok a) s) g h = tt
OnError-weaken P Q (done (err e) s) g h = g s.tree h
OnError-weaken P Q faults g h = tt
OnError-weaken P Q out_of_fuel g h = tt
