-- ===== src/Memory/Compare.antt =====
-- The routines on strings of xv6-public/string.c.
use hyeonseung_os.Base.{
  ℕ, zero, suc, ◌+◌, ◌-◌, ◌^◌, ◌≤◌, ◌<◌, ◌≡◌, ◌≢◌, ◌⊎◌, inl, inr, arith, ◌==◌, update, Bool-cases,
  refl, ℕ_discrete, sym, ◌∙◌, update_self, update_ne,
}
use hyeonseung_os.Memory.{Bytes, memcmp, safe_copy, safestrcpy}

-- Every byte is a byte.
abbrev pub AreBytes : Bytes → Type 0
AreBytes m = (i : ℕ) → m i < 2 ^ 8

abbrev pub Same : ℕ → ℕ → ℕ → Bytes → Type 0
Same a b n m = (i : ℕ) → i < n → m (a + i) ≡ m (b + i)

-- `memcmp` returns 0 exactly for ranges with the same bytes.
pub memcmp_zero :
    (n a b : ℕ) (m : Bytes)
    → AreBytes m
    → (memcmp a b n m ≡ 0 → Same a b n m) × (Same a b n m → memcmp a b n m ≡ 0)
unfolding memcmp
memcmp_zero zero a b m w = ((λ e i h. absurd (omega arith)), (λ f. refl))
memcmp_zero (suc n) a b m w =
    let (to, from) = memcmp_zero n (a + 1) (b + 1) m w in
    (
      (λ e i h. elim (ℕ_discrete i 0) [
        | yes z ↦ ground (arith, w a, w b)
        | no nz ↦ ground (arith, w a, w b, to (ground (arith, w a, w b)) (i - 1) (omega arith))
      ]),
      (λ f.
          ground (arith, f 0 (omega arith), from (λ i h. ground (arith, f (i + 1) (omega arith))))),
    )

-- The string at `t` is at `s` now, cut where `n` bytes have no room for it, and ends in a NUL.
pub record IsCopied (s t n : ℕ) (m m' : Bytes) : Type 0 where
  pub stop : ℕ
  pub room : stop < n
  pub ends : m' (s + stop) ≡ 0
  pub same : (j : ℕ) → j < stop → (m' (s + j) ≡ m (t + j)) × (m (t + j) ≢ 0)
  pub whole : (stop + 1 ≡ n) ⊎ (m (t + stop) ≡ 0)
  pub frame : (i : ℕ) → (i < s) ⊎ (s + n ≤ i) → m' i ≡ m i

-- The loop goes on after a byte that is no NUL.
extend :
    (s t k : ℕ) (m m' : Bytes)
    → (s + suc k < t) ⊎ (t + suc k ≤ s)
    → m t ≢ 0
    → IsCopied (s + 1) (t + 1) (suc k) (update m s (m t)) m'
    → IsCopied s t (suc (suc k)) m m'
extend s t k m m' d nz c = record {
  stop = c.stop + 1;
  room = omega (arith, c.room);
  ends = let e : s + (c.stop + 1) ≡ s + 1 + c.stop = omega arith in rw e c.ends;
  same = λ j h. elim (ℕ_discrete j 0) [
    | yes z ↦
        let e : s + j ≡ s = omega arith in
        let e' : t + j ≡ t = omega arith in
        rw (e, e') (c.frame s (inl (omega arith)) ∙ update_self m s (m t), nz)
    | no n ↦
        let e : s + j ≡ s + 1 + (j - 1) = omega arith in
        let e' : t + j ≡ t + 1 + (j - 1) = omega arith in
        let (x, y) = c.same (j - 1) (omega arith) in
        let u = update_ne m s (m t) (t + 1 + (j - 1)) (omega (arith, d, c.room)) in
        rw (e, e') (x ∙ u, rw u at y)
  ];
  whole = elim c.whole [
    | inl e ↦ inl (omega arith)
    | inr e ↦ elim (ℕ_discrete c.stop k) [
      | yes z ↦ inl (omega arith)
      | no n ↦
          let e' : t + (c.stop + 1) ≡ t + 1 + c.stop = omega arith in
          let u = update_ne m s (m t) (t + 1 + c.stop) (omega (arith, d, c.room)) in
          inr (rw e' (sym u ∙ e))
    ]
  ];
  frame = λ i h. c.frame i (ground arith) ∙ update_ne m s (m t) i (omega (arith, h));
}

safe_copy-IsCopied :
    (k s t : ℕ) (m : Bytes) → (s + k < t) ⊎ (t + k ≤ s) → IsCopied s t (suc k) m (safe_copy k s t m)
unfolding safe_copy
safe_copy-IsCopied zero s t m d = record {
  stop = 0;
  room = omega arith;
  ends = ground arith;
  same = λ j h. absurd (omega arith);
  whole = inl (omega arith);
  frame = λ i h. ground arith;
}
safe_copy-IsCopied (suc k) s t m d = elim (Bool-cases (m t == 0)) [
  | inl e ↦ rw e (record {
    stop = 0;
    room = omega arith;
    ends = ground arith;
    same = λ j h. absurd (omega arith);
    whole = inr (ground arith);
    frame = λ i h. ground arith;
  })
  | inr e ↦ rw e (
      extend s t k m (safe_copy k (s + 1) (t + 1) (update m s (m t))) d (ground arith)
        (safe_copy-IsCopied k (s + 1) (t + 1) (update m s (m t)) (ground arith)))
]

-- `safestrcpy` into a buffer of `n` bytes, `n` not 0, that the source does not overlap: it copies the
-- string, or its first n - 1 bytes, puts a NUL after it, and writes nothing outside the buffer.
pub safestrcpy-IsCopied :
    (s t n : ℕ) (m : Bytes)
    → 0 < n
    → (s + n ≤ t) ⊎ (t + n ≤ s)
    → IsCopied s t n m (safestrcpy s t n m)
unfolding safestrcpy
safestrcpy-IsCopied s t zero m h d = absurd (omega arith)
safestrcpy-IsCopied s t (suc k) m h d = safe_copy-IsCopied k s t m (ground arith)
