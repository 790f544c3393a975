-- ===== src/Log/Room.antt =====
-- The reservation of `begin_op` against what `log_write` needs.
use hyeonseung_os.Base.{
  ℕ, zero, suc, ◌+◌, ◌≤◌, ◌<◌, ◌≡◌, ◌≢◌, ◌⊎◌, inl, inr, refl, sym, ◌∙◌, arith, ◌==◌, List, [], ◌∷◌,
  some, if◌then◌else◌, length, length-set, get_elem?, set, update, update_self, update_ne,
  Bool-cases, ℕ_discrete, dec_lt, none,
}
use hyeonseung_os.Log.{LogHeader}
use hyeonseung_os.Log.Space.{
  LogState, begin_op, absorb, log_write, Running, reserved, HasRoom, reserved-le, reserved-set,
}

-- Where the scan of `log_write` stops.
record Absorbed (n from b i : ℕ) (block : ℕ → ℕ) : Type 0 where
  lower : from ≤ i
  upper : i ≤ n
  hit : i < n → block i ≡ b
  first : (j : ℕ) → from ≤ j → j < i → block j ≢ b

absorb-Absorbed :
    (k from b n : ℕ) (block : ℕ → ℕ)
    → from + k ≡ n
    → Absorbed n from b (absorb k from b block) block
unfolding absorb
absorb-Absorbed zero from b n block e = record {
  lower = omega arith;
  upper = omega arith;
  hit = λ h. absurd (omega arith);
  first = λ j a h. absurd (omega arith);
}
absorb-Absorbed (suc k) from b n block e = elim (Bool-cases (block from == b)) [
  | inl z ↦ rw z (record {
    lower = omega arith;
    upper = omega arith;
    hit = λ h. ground arith;
    first = λ j a h. absurd (omega arith);
  })
  | inr z ↦
      let ih = absorb-Absorbed k (from + 1) b n block (omega arith) in
      rw z (record {
        lower = omega (arith, ih.lower);
        upper = ih.upper;
        hit = ih.hit;
        first = λ j a h. elim (ℕ_discrete j from) [
          | yes same ↦ rw same (λ c. ground arith)
          | no other ↦ ih.first j (omega arith) h
        ];
      })
]

-- The blocks in the log are different ones.
abbrev pub IsDistinct : LogHeader → Type 0
IsDistinct h = (i j : ℕ) → i < j → j < h.n → h.block i ≢ h.block j

-- What a successful `log_write` of block `b` does to the log.
pub record Logged (b : ℕ) (h h' : LogHeader) : Type 0 where
  pub grows : (h'.n ≡ h.n) ⊎ (h'.n ≡ h.n + 1)
  pub kept : (j : ℕ) → j < h.n → h'.block j ≡ h.block j
  pub there : (i : ℕ) × (i < h'.n) × (h'.block i ≡ b)
  pub distinct : IsDistinct h → IsDistinct h'

-- The header that `log_write` stores, with the index at which its scan stops.
abbrev stored : ℕ → ℕ → LogHeader → LogHeader
stored b i h = record { n = if i == h.n then h.n + 1 else h.n; block = update h.block i b }

stored-Logged : (b i : ℕ) (h : LogHeader) → Absorbed h.n 0 b i h.block → Logged b h (stored b i h)
stored-Logged b i h a = elim (Bool-cases (i == h.n)) [
  | inl z ↦
      let e : i ≡ h.n = ground arith in
      record {
        grows = inr (rw z refl);
        kept = λ j hj. update_ne h.block i b j (omega arith);
        there = (i, rw z (omega arith), update_self h.block i b);
        distinct = λ d x y lt hy.
            let hy' : y < h.n + 1 = rw z at hy in
            let fresh : h.block x ≢ b = a.first x (omega arith) (omega arith) in
            let was : update h.block i b x ≡ h.block x = update_ne h.block i b x (omega arith) in
            elim (ℕ_discrete y i) [
              | yes top ↦ λ c. fresh (sym was ∙ c ∙ rw top (update_self h.block i b))
              | no ne ↦ λ c. d x y lt (omega arith) (sym was ∙ c ∙ update_ne h.block i b y ne)
            ];
      }
  | inr z ↦
      let inside : i < h.n = ground (arith, a.upper) in
      record {
        grows = inl (rw z refl);
        kept = λ j hj. same inside j;
        there = (i, rw z inside, update_self h.block i b);
        distinct = λ d x y lt hy. rw (same inside x, same inside y) (d x y lt (rw z at hy));
      }
]
  where
    same : i < h.n → (j : ℕ) → update h.block i b j ≡ h.block j
    same inside j = elim (ℕ_discrete j i) [
      | yes e ↦ rw e (update_self h.block i b ∙ sym (a.hit inside))
      | no ne ↦ update_ne h.block i b j ne
    ]

-- `begin_op` lets a call in only if it may write ten blocks beside all that the running ones may.
pub begin_op-HasRoom :
    (r : Running) {s : LogState}
    → HasRoom r
    → begin_op r.log ≡ some s
    → HasRoom (record { log = s; used = 0 ∷ r.used })
unfolding begin_op reserved
begin_op-HasRoom r v e = ground (arith, reserved-le r.used)

-- A running call that has written fewer than ten blocks writes another: `log_write` panics exactly if the
-- blocks in the log and the header fill the log; with any more room the block is in the log afterwards,
-- once, with all that were there, and the log keeps room for every running call.
pub log_write_lem :
    (r : Running) (k u b : ℕ)
    → HasRoom r
    → get_elem? r.used k ≡ some u
    → u < 10
    → ((r.log.size ≤ r.log.lh.n + 1) × (log_write b r.log ≡ none))
      ⊎ ((r.log.lh.n + 1 < r.log.size)
          × (s : LogState) × (log_write b r.log ≡ some s)
          × Logged b r.log.lh s.lh
          × HasRoom (record { log = s; used = set r.used k (u + 1) }))
unfolding log_write
log_write_lem r k u b v e h =
    let i : ℕ = absorb r.log.lh.n 0 b r.log.lh.block in
    let l =
      stored-Logged b i r.log.lh
        (absorb-Absorbed r.log.lh.n 0 b r.log.lh.n r.log.lh.block (omega arith)) in
    let left = reserved-set r.used k u e h in
    let busy : 0 < length r.used = elem-length r.used k e in
    elim (dec_lt (r.log.lh.n + 1) r.log.size) [
      | no small ↦ inl (omega (arith, small), ground (arith, small))
      | yes big ↦ inr (
        big,
        record (r.log) { lh = stored b i r.log.lh },
        ground (arith, v.room, left, v.counted, busy),
        l,
        record {
          counted = v.counted ∙ sym (length-set r.used k (u + 1));
          room = omega (arith, v.room, left, l.grows);
          quiet = ground (arith, v.quiet, busy);
        },
      )
    ]
  where
    elem-length : (us : List ℕ) (k : ℕ) {u : ℕ} → get_elem? us k ≡ some u → 0 < length us
    elem-length [] k e = cc
    elem-length (x ∷ us) k e = omega arith
