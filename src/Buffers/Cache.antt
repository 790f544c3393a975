-- ===== src/Buffers/Cache.antt =====
-- `bget` and `brelse` on the list of buffers.
use hyeonseung_os.Base.{
  ℕ, ◌+◌, ◌-◌, ◌≡◌, ◌≢◌, refl, ap, ◌∙◌, ◌⊎◌, inl, inr, true, false, none, some, List, ◌∷◌, ◌++◌,
  arith, ◌==◌, update_self, update_ne, Option-cases, subst,
}
use hyeonseung_os.Buffers.{
  Buf, Bcache, head, push_front, unlink, scan_ring, is_block, is_idle, keep, recycle, set_buf, bget,
  brelse,
}
use hyeonseung_os.Buffers.Ring.{IsRing, move-IsRing}
use hyeonseung_os.Buffers.Search.{
  HasBlock, IsReusable, First, scan_ring-First, is_block_yes, is_block_no, is_idle_yes, is_idle_no,
  reversed, Linked-reversed, Absent-reversed, length-reversed,
}

-- What a call does to the buffer `b` that holds the block already: one holder more, and it is locked.
pub record Held (b : ℕ) (s s' : Bcache) : Type 0 where
  pub dev : (s'.buf b).dev ≡ (s.buf b).dev
  pub blockno : (s'.buf b).blockno ≡ (s.buf b).blockno
  pub valid : (s'.buf b).valid ≡ (s.buf b).valid
  pub dirty : (s'.buf b).dirty ≡ (s.buf b).dirty
  pub refcnt : (s'.buf b).refcnt ≡ (s.buf b).refcnt + 1
  pub locked : (s'.buf b).locked ≡ true
  pub others : (j : ℕ) → j ≢ b → s'.buf j ≡ s.buf j

-- What it does to a buffer that it takes for the block: its bytes are not those of the block yet.
pub record Retagged (d k b : ℕ) (s s' : Bcache) : Type 0 where
  pub dev : (s'.buf b).dev ≡ d
  pub blockno : (s'.buf b).blockno ≡ k
  pub valid : (s'.buf b).valid ≡ false
  pub dirty : (s'.buf b).dirty ≡ false
  pub refcnt : (s'.buf b).refcnt ≡ 1
  pub locked : (s'.buf b).locked ≡ true
  pub others : (j : ℕ) → j ≢ b → s'.buf j ≡ s.buf j

kept-IsRing : (b : ℕ) (x : Buf) (s : Bcache) (l : List ℕ) → IsRing s l → IsRing (set_buf b x s) l
kept-IsRing b x s l r = record {
  linked = r.linked;
  apart = r.apart;
  no_head = r.no_head;
  few = r.few;
}

moved_buf : (b : ℕ) (s : Bcache) → (push_front b (unlink b s)).buf ≡ s.buf
unfolding push_front unlink
moved_buf b s = refl

keep-Held : (b : ℕ) (s : Bcache) → Held b s (set_buf b (keep (s.buf b)) s)
keep-Held b s =
    let x = update_self s.buf b (keep (s.buf b)) in
    record {
      dev = ap (λ y. y.dev) x;
      blockno = ap (λ y. y.blockno) x;
      valid = ap (λ y. y.valid) x;
      dirty = ap (λ y. y.dirty) x;
      refcnt = ap (λ y. y.refcnt) x;
      locked = ap (λ y. y.locked) x;
      others = update_ne s.buf b (keep (s.buf b));
    }

recycle-Retagged : (d k b : ℕ) (s : Bcache) → Retagged d k b s (set_buf b (recycle d k (s.buf b)) s)
recycle-Retagged d k b s =
    let x = update_self s.buf b (recycle d k (s.buf b)) in
    record {
      dev = ap (λ y. y.dev) x;
      blockno = ap (λ y. y.blockno) x;
      valid = ap (λ y. y.valid) x;
      dirty = ap (λ y. y.dirty) x;
      refcnt = ap (λ y. y.refcnt) x;
      locked = ap (λ y. y.locked) x;
      others = update_ne s.buf b (recycle d k (s.buf b));
    }

-- `bget` of a block, with the ring in the order in which buffers were last released: if a buffer holds the
-- block, the call returns it as it was, with one holder more, locked; else it returns, of the buffers that
-- nobody holds and the log does not keep, the one released longest ago, for the block, not valid, not
-- dirty, with one holder, locked; and it panics exactly if there is none of these either. The ring and all
-- other buffers stay.
pub bget_lem :
    (dev blockno : ℕ) (s : Bcache) (l : List ℕ)
    → IsRing s l
    → ((b : ℕ) × (s' : Bcache) × First (HasBlock dev blockno) s.buf l (some b)
        × (bget dev blockno s ≡ some (b, s'))
        × Held b s s'
        × IsRing s' l)
      ⊎ (First (HasBlock dev blockno) s.buf l none
          × (((b : ℕ) × (s' : Bcache) × First IsReusable s.buf (reversed l) (some b)
                × (bget dev blockno s ≡ some (b, s'))
                × Retagged dev blockno b s s'
                × IsRing s' l)
              ⊎ (First IsReusable s.buf (reversed l) none × (bget dev blockno s ≡ none))))
unfolding bget
bget_lem dev blockno s l r =
    let f₁ =
      scan_ring-First 31 head (is_block dev blockno) (HasBlock dev blockno) s.buf s.next s.prev l
        (is_block_yes dev blockno) (is_block_no dev blockno) (omega (arith, r.few)) r.linked
        r.no_head in
    let f₂ =
      scan_ring-First 31 head is_idle IsReusable s.buf s.prev s.next (reversed l) is_idle_yes
        is_idle_no (omega (arith, r.few, length-reversed l))
        (Linked-reversed s.next s.prev head head l r.linked) (Absent-reversed head l r.no_head) in
    elim (Option-cases (scan_ring 31 (is_block dev blockno) s.next s.buf (s.next head))) [
      | inr (b, e) ↦ inl (
        b,
        set_buf b (keep (s.buf b)) s,
        subst (First (HasBlock dev blockno) s.buf l) e f₁,
        rw (e, bget) refl,
        keep-Held b s,
        kept-IsRing b (keep (s.buf b)) s l r,
      )
      | inl e ↦ inr (
        subst (First (HasBlock dev blockno) s.buf l) e f₁,
        elim (Option-cases (scan_ring 31 is_idle s.prev s.buf (s.prev head))) [
          | inr (b, e') ↦ inl (
            b,
            set_buf b (recycle dev blockno (s.buf b)) s,
            subst (First IsReusable s.buf (reversed l)) e' f₂,
            rw (e, bget, e') refl,
            recycle-Retagged dev blockno b s,
            kept-IsRing b (recycle dev blockno (s.buf b)) s l r,
          )
          | inl e' ↦ inr (subst (First IsReusable s.buf (reversed l)) e' f₂, rw (e, bget, e') refl)
        ],
      )
    ]

-- `brelse` by the last holder of a buffer moves it to the front of the ring, unlocked, and leaves the order
-- of the others; the buffers themselves stay.
pub brelse_lem :
    (b : ℕ) (s : Bcache) (l l' : List ℕ)
    → IsRing s (l ++ b ∷ l')
    → (s.buf b).locked ≡ true
    → (s.buf b).refcnt ≡ 1
    → (s' : Bcache) × (brelse b s ≡ some s')
      × IsRing s' (b ∷ (l ++ l'))
      × (s'.buf b ≡ record (s.buf b) { locked = false; refcnt = 0 })
      × ((j : ℕ) → j ≢ b → s'.buf j ≡ s.buf j)
unfolding brelse
brelse_lem b s l l' r held one =
    let x : Buf = record (s.buf b) { locked = false; refcnt = (s.buf b).refcnt - 1 } in
    let s₁ : Bcache = set_buf b x s in
    let free : ((s₁.buf b).refcnt == 0) ≡ true = ground arith in
    let buf = moved_buf b s₁ in
    (
      push_front b (unlink b s₁),
      simp (held, free),
      move-IsRing b s₁ l l' (kept-IsRing b x s (l ++ b ∷ l') r),
      ap (λ f. f b) buf
          ∙ update_self s.buf b x
          ∙ ap (λ (k : ℕ). record (s.buf b) { locked = false; refcnt = k }) (omega arith),
      λ j ne. ap (λ f. f j) buf ∙ update_ne s.buf b x j ne,
    )
