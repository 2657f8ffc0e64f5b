-- ===== src/File/Ref.antt =====
-- The reference count of an open file: include/linux/vfs/private/file_ref.h and the slow path of
-- src/file/file.c. The counter is a 32-bit word and holds the number of references less one, so the
-- last decrement wraps to `noref`. The high words are zones: saturated from 0x8000_0000, released
-- from 0xC000_0000, with `dead` in the middle of the latter. These are the calls of one thread that
-- nobody disturbs; Ref.Threads takes them apart into their atomic accesses.
pub mod History
pub mod Threads
use linux_vfs.Base.{
  ℕ, ◌+◌, ◌-◌, ◌%◌, ◌^◌, ◌≤◌, ◌<◌, ◌≡◌, refl, Bool, true, false, arith, ltb, leb, ◌==◌,
  if◌then◌else◌,
}

abbrev pub oneref : ℕ
oneref = 0x0000_0000

abbrev pub maxref : ℕ
maxref = 0x7fff_ffff

abbrev pub saturated : ℕ
saturated = 0xa000_0000

abbrev pub released : ℕ
released = 0xc000_0000

abbrev pub dead : ℕ
dead = 0xe000_0000

abbrev pub noref : ℕ
noref = 0xffff_ffff

-- `atomic_dec_return` and `atomic_fetch_inc` on the word.
abbrev pub dec : ℕ → ℕ
dec r = (r + (2 ^ 32 - 1)) % 2 ^ 32

abbrev pub inc : ℕ → ℕ
inc r = (r + 1) % 2 ^ 32

-- `cnt >= 0` for the word read as an `int`.
abbrev pub nonneg : ℕ → Bool
nonneg r = ltb r (2 ^ 31)

-- `atomic_try_cmpxchg(&ref, &old, new)`: success, and the word afterwards.
abbrev pub cmpxchg : ℕ → ℕ → ℕ → Bool × ℕ
cmpxchg r old new = if r == old then (true, new) else (false, r)

unfoldable pub file_ref_init : ℕ → ℕ
file_ref_init cnt = dec cnt

-- The new word, and whether the call warns of a released reference.
unfoldable pub file_ref_inc : ℕ → ℕ × Bool
file_ref_inc r = (inc r, if nonneg r then false else true)

-- The word after the call; the result is always false.
unfoldable pub file_ref_put_badval : ℕ → ℕ → Bool × ℕ
file_ref_put_badval r cnt =
    if leb released cnt
    then (false, dead)
    else if ltb maxref cnt
    then (false, saturated)
    else (false, r)

-- `__file_ref_put`: `cnt` is what the decrement returned, `r` the word now.
unfoldable pub file_ref_put_slow : ℕ → ℕ → Bool × ℕ
unfolding file_ref_put_badval
file_ref_put_slow r cnt = if cnt == noref then cmpxchg r cnt dead else file_ref_put_badval r cnt

-- True if this was the last reference.
unfoldable pub file_ref_put : ℕ → Bool × ℕ
unfolding file_ref_put_slow
file_ref_put r = let cnt = dec r in if nonneg cnt then (false, cnt) else file_ref_put_slow cnt cnt

unfoldable pub file_ref_put_close : ℕ → Bool × ℕ
unfolding file_ref_put
file_ref_put_close r =
    if r == oneref
    then (let tried = cmpxchg r oneref dead in
        if tried.0 then (true, tried.1) else file_ref_put tried.1)
    else file_ref_put r

-- The short cut for the last reference changes nothing: on every word `file_ref_put_close` returns
-- and stores what `file_ref_put` does.
pub file_ref_put_close-eq-put : (r : ℕ) → r < 2 ^ 32 → file_ref_put_close r ≡ file_ref_put r
unfolding file_ref_put_close
file_ref_put_close-eq-put r h = ground arith

-- What one put does to a word, by the zone in which the word lies.
unfoldable pub put_by_zone : ℕ → Bool × ℕ
put_by_zone r =
    if r == oneref
    then (true, dead)
    else if leb r (maxref + 1)
    then (false, r - 1)
    else if leb r released
    then (false, saturated)
    else (false, dead)

-- On every word `file_ref_put` does what the zone of the word asks for: it reports the last
-- reference at `oneref` alone, takes one from a word in use, puts an overflowed word back to
-- `saturated` and a released one back to `dead`.
file_ref_put-by_zone : (r : ℕ) → r < 2 ^ 32 → file_ref_put r ≡ put_by_zone r
unfolding file_ref_put put_by_zone
file_ref_put-by_zone r h = ground arith
