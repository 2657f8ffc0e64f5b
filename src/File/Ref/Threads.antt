-- ===== src/File/Ref/Threads.antt =====
-- Puts, closes and gets of several threads, interleaved at each atomic access of the counter.
use linux_vfs.Base.{
  ℕ, ◌+◌, ◌-◌, ◌≤◌, ◌<◌, ◌^◌, ◌≡◌, ◌≢◌, ◌⊎◌, Bool, true, false, arith, ◌==◌, if◌then◌else◌,
}
use linux_vfs.File.Ref.{oneref, dead, noref, inc, dec, nonneg, cmpxchg, file_ref_put_badval}

-- `holders` references are held and not yet given back; `trying` threads decremented the word to
-- `noref` and are about to run the compare-and-swap; `closing` holders read `oneref` in
-- `file_ref_put_close` and are about to run theirs; `freed` calls have returned true.
pub record World : Type 0 where
  pub word : ℕ
  pub holders : ℕ
  pub trying : ℕ
  pub closing : ℕ
  pub freed : ℕ

-- After the decrement of `file_ref_put` that left `cnt`.
unfoldable pub after_dec : World → ℕ → World
unfolding file_ref_put_badval
after_dec w cnt =
    let w' = record w { word = cnt; holders = w.holders - 1 } in
    if nonneg cnt
    then w'
    else if cnt == noref
    then record w' { trying = w.trying + 1 }
    else record w' { word = (file_ref_put_badval cnt cnt).1 }

unfoldable pub after_try : World → Bool × ℕ → World
after_try w (true, word) = record w { word = word; trying = w.trying - 1; freed = w.freed + 1 }
after_try w (false, word) = record w { word = word; trying = w.trying - 1 }

-- A close whose compare-and-swap succeeded gave its reference back; one that failed goes on to
-- `file_ref_put`, and holds its reference until that decrements.
unfoldable pub after_close : World → Bool × ℕ → World
after_close w (true, word) = record w {
  word = word;
  holders = w.holders - 1;
  closing = w.closing - 1;
  freed = w.freed + 1;
}
after_close w (false, word) = record w { word = word; closing = w.closing - 1 }

-- One atomic access. Only a holder may copy a reference or give one back.
pub data Step : World → World → Type 0 where
  gets :
      (w : World) → 1 ≤ w.holders → Step w (record w { word = inc w.word; holders = w.holders + 1 })
  puts : (w : World) → w.closing < w.holders → Step w (after_dec w (dec w.word))
  tries : (w : World) → 1 ≤ w.trying → Step w (after_try w (cmpxchg w.word noref dead))
  reads :
      (w : World)
      → w.closing < w.holders
      → w.word ≡ oneref
      → Step w (record w { closing = w.closing + 1 })
  closes : (w : World) → 1 ≤ w.closing → Step w (after_close w (cmpxchg w.word oneref dead))

pub data Reach (v : World) : World → Type 0 where
  here : Reach v v
  next : {w u : World} → Reach v w → Step w u → Reach v u

-- At no point of a run are more than 2^31 references held. Nothing in `file_ref_inc` ensures it.
abbrev pub Within : {v w : World} → Reach v w → Type 0
Within here = Unit
Within (next {w} {u} r st) = Within r × (u.holders ≤ 2 ^ 31)

-- A new file: `file_ref_init(&f->f_ref, 1)`.
abbrev pub opened : World
opened = record { word = oneref; holders = 1; trying = 0; closing = 0; freed = 0 }

-- In use with all references counted; or the last one dropped and its owner about to free; or freed.
abbrev pub IsSound : World → Type 0
IsSound w =
    ((w.word + 1 ≡ w.holders)
      × (w.holders ≤ 2 ^ 31)
      × (w.trying ≡ 0)
      × (w.freed ≡ 0)
      × (w.closing ≤ w.holders))
    ⊎ ((w.word ≡ noref) × (w.holders ≡ 0) × (w.trying ≡ 1) × (w.freed ≡ 0) × (w.closing ≡ 0))
    ⊎ ((w.word ≡ dead) × (w.holders ≡ 0) × (w.trying ≡ 0) × (w.freed ≡ 1) × (w.closing ≡ 0))

Step-IsSound : {w u : World} → Step w u → u.holders ≤ 2 ^ 31 → IsSound w → IsSound u
unfolding after_dec after_try after_close
Step-IsSound (gets w h) b s = ground arith
Step-IsSound (puts w h) b s = ground arith
Step-IsSound (tries w h) b s = ground arith
Step-IsSound (reads w h e) b s = ground arith
Step-IsSound (closes w h) b s = ground arith

Reach-IsSound : {v w : World} → IsSound v → (r : Reach v w) → Within r → IsSound w
Reach-IsSound h here b = h
Reach-IsSound h (next r st) b = Step-IsSound st b.1 (Reach-IsSound h r b.0)

-- Whatever the interleaving of a file's gets, puts and closes from its opening on, if at no point
-- more than 2^31 references are held, the file is freed at most once, never while a reference is held, and, once no reference is held and no
-- thread stands before its compare-and-swap, it has been freed.
pub Reach-freed :
    {w : World} (r : Reach opened w)
    → Within r
    → (w.freed ≤ 1) × ((w.holders ≡ 0) ⊎ (w.freed ≡ 0)) × (w.freed + w.holders + w.trying ≢ 0)
Reach-freed r b = ground (arith, Reach-IsSound (omega arith) r b)
