-- ===== src/File/Ref/History.antt =====
-- Histories of gets and puts of file_ref.h, and a plain count of references to compare them with.
use linux_vfs.Base.{
  ℕ, zero, suc, ◌+◌, ◌-◌, ◌≤◌, ◌^◌, ◌≡◌, refl, Bool, true, false, arith, ◌==◌, if◌then◌else◌, List,
  [], ◌∷◌, length,
}
use linux_vfs.File.Ref.{dead, file_ref_inc, file_ref_put, file_ref_put_close}

pub data Op : Type 0 where
  get put put_close : Op

-- The code: what each call reports, a get reporting its warning.
unfoldable pub step : ℕ → Op → Bool × ℕ
step r get = let got = file_ref_inc r in (got.1, got.0)
step r put = file_ref_put r
step r put_close = file_ref_put_close r

unfoldable pub reports : ℕ → List Op → List Bool
reports r [] = []
reports r (o ∷ os) = let now = step r o in now.0 ∷ reports now.1 os

-- The abstract object: so many references, or released for good.
pub data Count : Type 0 where
  live : ℕ → Count
  gone : Count

unfoldable pub count_step : Count → Op → Bool × Count
count_step (live n) get = (false, live (n + 1))
count_step (live n) put = if n == 1 then (true, gone) else (false, live (n - 1))
count_step (live n) put_close = if n == 1 then (true, gone) else (false, live (n - 1))
count_step gone get = (true, gone)
count_step gone put = (false, gone)
count_step gone put_close = (false, gone)

unfoldable pub count_reports : Count → List Op → List Bool
count_reports c [] = []
count_reports c (o ∷ os) = let now = count_step c o in now.0 ∷ count_reports now.1 os

-- The word stands for the count, with room for `room` more calls.
abbrev pub Stands : ℕ → Count → ℕ → Type 0
Stands room (live n) r = (1 ≤ n) × (r + 1 ≡ n) × (n + room ≤ 2 ^ 31) × (room ≤ 2 ^ 28)
Stands room gone r = (dead ≤ r) × (r + room ≤ dead + 2 ^ 28)

-- One call reports what the plain count says, and the word goes on standing for it.
pub step-Stands :
    (c : Count) (r room : ℕ) (o : Op)
    → Stands (suc room) c r
    → ((step r o).0 ≡ (count_step c o).0) × Stands room (count_step c o).1 (step r o).1
unfolding step count_step file_ref_inc file_ref_put file_ref_put_close
step-Stands (live n) r room get h = ground arith
step-Stands (live n) r room put h = ground arith
step-Stands (live n) r room put_close h = ground arith
step-Stands gone r room get h = ground arith
step-Stands gone r room put h = ground arith
step-Stands gone r room put_close h = ground arith

-- A word that stands for a count reports, over any history of at most `room` calls, exactly what
-- the plain count does: the put that brings the count to zero is told that it was the last, and from
-- then on every get warns and no put is told so.
pub reports-eq-count :
    (c : Count) (r room : ℕ) (os : List Op)
    → Stands room c r
    → length os ≤ room
    → reports r os ≡ count_reports c os
unfolding reports count_reports
reports-eq-count c r room [] h l = refl
reports-eq-count c r zero (o ∷ os) h l = absurd (omega arith)
reports-eq-count c r (suc room) (o ∷ os) h l =
    let s = step-Stands c r room o h in
    ground (arith, s, reports-eq-count (count_step c o).1 (step r o).1 room os s.1 (omega arith))
