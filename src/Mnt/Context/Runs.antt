-- ===== src/Mnt/Context/Runs.antt =====
-- Runs that return: what their parts returned.
use linux_vfs.Base.{◌≡◌, refl, arith}
use linux_vfs.Base.Errno.{Result, ok, err}
use linux_vfs.Mnt.Context.{Mounting, Run, done, faults, out_of_fuel, M, and_then, finally, on_error}

pub and_then-done {ℓ κ} :
    {A : Type ℓ} {B : Type κ} (r : Run A) (f : A → M B) (b : B) (t : Mounting)
    → and_then r f ≡ done (ok b) t
    → (a : A) × (s : Mounting) × (r ≡ done (ok a) s) × (f a s ≡ done (ok b) t)
and_then-done (done (ok a) s) f b t e = (a, s, refl, e)
and_then-done (done (err x) s) f b t e = absurd (ground arith)
and_then-done faults f b t e = absurd (ground arith)
and_then-done out_of_fuel f b t e = absurd (ground arith)

pub on_error-done {ℓ} :
    {A : Type ℓ} (f : Mounting → Mounting) (r : Run A) (a : A) (t : Mounting)
    → on_error f r ≡ done (ok a) t
    → r ≡ done (ok a) t
on_error-done f (done (ok x) s) a t e = e
on_error-done f (done (err x) s) a t e = absurd (ground arith)
on_error-done f faults a t e = absurd (ground arith)
on_error-done f out_of_fuel a t e = absurd (ground arith)

pub finally-done {ℓ} :
    {A : Type ℓ} (f : Mounting → Mounting) (r : Run A) (x : Result A) (t : Mounting)
    → finally f r ≡ done x t
    → (s : Mounting) × (r ≡ done x s) × (f s ≡ t)
finally-done f (done y s) x t e = (s, ground arith, ground arith)
finally-done f faults x t e = absurd (ground arith)
finally-done f out_of_fuel x t e = absurd (ground arith)
