-- ===== src/Memory.antt =====
-- The routines of xv6-public/string.c. Memory is a function of the address, and a byte a number. The
-- ranges that a call names lie within the address space, so that no address goes round.
pub mod Move
pub mod Compare
mod Tests
use hyeonseung_os.Base.{
  ℕ, zero, suc, ◌+◌, ◌-◌, Bool, true, false, ◌&&◌, Option, none, some, ◌==◌, ltb, if◌then◌else◌,
  update, sub32,
}

abbrev pub Bytes : Type 0
Bytes = ℕ → ℕ

-- `while(n-- > 0) *--d = *--s`
unfoldable pub copy_down : ℕ → ℕ → ℕ → Bytes → Bytes
copy_down zero d s m = m
copy_down (suc n) d s m = copy_down n (d - 1) (s - 1) (update m (d - 1) (m (s - 1)))

-- `while(n-- > 0) *d++ = *s++`
unfoldable pub copy_up : ℕ → ℕ → ℕ → Bytes → Bytes
copy_up zero d s m = m
copy_up (suc n) d s m = copy_up n (d + 1) (s + 1) (update m d (m s))

unfoldable pub memmove : ℕ → ℕ → ℕ → Bytes → Bytes
unfolding copy_down copy_up
memmove dst src n m =
    if ltb src dst && ltb dst (src + n)
    then copy_down n (dst + n) (src + n) m
    else copy_up n dst src m

-- The difference of the first two bytes that differ, as an `int`, or 0.
unfoldable pub memcmp : ℕ → ℕ → ℕ → Bytes → ℕ
memcmp a b zero m = 0
memcmp a b (suc n) m =
    let rest = memcmp (a + 1) (b + 1) n m in if m a == m b then rest else sub32 (m a) (m b)

unfoldable pub strncmp : ℕ → ℕ → ℕ → Bytes → ℕ
strncmp p q zero m = 0
strncmp p q (suc n) m =
    let rest = strncmp (p + 1) (q + 1) n m in
    if m p == 0 then sub32 (m p) (m q) else (if m p == m q then rest else sub32 (m p) (m q))

-- The first loop of `safestrcpy`, with the bytes that are left before the last one, and its last store.
unfoldable pub safe_copy : ℕ → ℕ → ℕ → Bytes → Bytes
safe_copy zero s t m = update m s 0
safe_copy (suc k) s t m =
    let m' : Bytes = update m s (m t) in
    let rest = safe_copy k (s + 1) (t + 1) m' in if m t == 0 then update m' (s + 1) 0 else rest

unfoldable pub safestrcpy : ℕ → ℕ → ℕ → Bytes → Bytes
unfolding safe_copy
safestrcpy s t zero m = m
safestrcpy s t (suc k) m = safe_copy k s t m

-- The second loop of `strncpy`.
unfoldable pub pad : ℕ → ℕ → Bytes → Bytes
pad zero s m = m
pad (suc n) s m = pad n (s + 1) (update m s 0)

unfoldable pub strncpy : ℕ → ℕ → ℕ → Bytes → Bytes
unfolding pad
strncpy s t zero m = m
strncpy s t (suc n) m =
    let m' : Bytes = update m s (m t) in
    let rest = strncpy (s + 1) (t + 1) n m' in
    let padded = pad n (s + 1) m' in if m t == 0 then padded else rest
