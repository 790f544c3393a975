-- ===== src/Volume/Freeing.antt =====
-- What the loops of `itrunc` free: the blocks below a pointer, each once.
use hyeonseung_os.Base.{
  ℕ, zero, suc, ◌+◌, ◌<◌, ◌≡◌, ◌≢◌, ◌⊎◌, inl, inr, refl, sym, ap, ◌∙◌, arith, true, false, Option,
  some, ◌>>=◌, ◌==◌, if◌then◌else◌, update, update_self, update_ne, ℕ_discrete, subst,
}
use hyeonseung_os.Volume.{Volume, Block, word, bfree}
use hyeonseung_os.Volume.Pointers.{Pointer, child, at, height, IsPointer}
use hyeonseung_os.Volume.Partition.{IsPartitioned, at-child}
use hyeonseung_os.Volume.Reached.{==-ne}
use hyeonseung_os.Volume.Descent.{
  Under, Under-refl, Under-parent, Under-child_ne, Under-child_self, Under-cases,
}
use hyeonseung_os.Volume.Truncate.{each_entry, free_single, free_double, free_triple}
use hyeonseung_os.Volume.Freed.{Freed, Freed-same, Under-none}

module _ (v : Volume) (s : IsPartitioned v) where
  -- `f` frees what stands below a pointer of height `h`, and the block at the pointer.
  abbrev pub Frees : (ℕ → Volume → Option Volume) → ℕ → Type 1
  Frees f h =
      (S : Pointer → Type 0) (p : Pointer) (w : Volume)
      → IsPointer p
      → height p ≡ h
      → at v p ≢ 0
      → ((q : Pointer) → IsPointer q → S q → Under p q → ⊥)
      → Freed v w S
      → (w' : Volume) × (f (at v p) w ≡ some w')
        × Freed v w' (λ q. S q ⊎ Under p q)
        × (w'.inodes ≡ w.inodes)

  bfree-Freed :
      (S : Pointer → Type 0) (p : Pointer) (w : Volume)
      → IsPointer p
      → at v p ≢ 0
      → (S p → ⊥)
      → Freed v w S
      → (w' : Volume) × (bfree (at v p) w ≡ some w')
        × Freed v w' (λ q. S q ⊎ (q ≡ p))
        × (w'.inodes ≡ w.inodes)
  unfolding bfree
  bfree-Freed S p w h nz out f =
      let still : w.used (at v p) ≡ true =
        f.rest (at v p) (λ q hq t nq same. out (subst S (s.apart q p hq h nq same) t))
        ∙ s.marked p h nz in
      (
        record w { used = update w.used (at v p) false },
        rw still refl,
        record {
          gone = λ q hq t nq. elim (ℕ_discrete (at v q) (at v p)) [
            | yes e ↦ ap (update w.used (at v p) false) e ∙ update_self w.used (at v p) false
            | no ne ↦
                update_ne w.used (at v p) false (at v q) ne
                ∙ elim t [ inl t' ↦ f.gone q hq t' nq | inr e ↦ absurd (ne (ap (at v) e)) ]
          ];
          rest = λ b o.
              update_ne w.used (at v p) false b (λ e. o p h (inr refl) nz (sym e))
              ∙ f.rest b (λ q hq t nq. o q hq (inl t) nq);
          bytes = f.bytes;
          limit = f.limit;
        },
        refl,
      )

  abbrev Below : Pointer → ℕ → Pointer → Type 0
  Below p j q = (i : ℕ) × (i < j) × Under (child p i) q

  module _ (f : ℕ → Volume → Option Volume) (h : ℕ) (frees : Frees f h) (S : Pointer → Type 0)
      (p : Pointer) (valid : IsPointer p) (tall : height p ≡ suc h) (there : at v p ≢ 0)
      (apart : (q : Pointer) → IsPointer q → S q → Under p q → ⊥) where
    child_there : (j : ℕ) → at v (child p j) ≡ word (v.bytes (at v p)) j
    child_there j = at-child v p j there

    widen :
        (j : ℕ) (q : Pointer)
        → IsPointer q
        → at v q ≢ 0
        → S q ⊎ Below p j q
        → S q ⊎ Below p (j + 1) q
    widen j q h nz (inl t) = inl t
    widen j q h nz (inr (i, lt, u)) = inr (i, omega arith, u)

    wider :
        (j : ℕ) (q : Pointer)
        → IsPointer q
        → at v q ≢ 0
        → (S q ⊎ Below p j q) ⊎ Under (child p j) q
        → S q ⊎ Below p (j + 1) q
    wider j q h nz (inl t) = widen j q h nz t
    wider j q h nz (inr u) = inr (j, omega arith, u)

    narrower :
        (j : ℕ) (q : Pointer)
        → IsPointer q
        → at v q ≢ 0
        → S q ⊎ Below p (j + 1) q
        → (S q ⊎ Below p j q) ⊎ Under (child p j) q
    narrower j q h nz (inl t) = inl (inl t)
    narrower j q h nz (inr (i, lt, u)) = elim (ℕ_discrete i j) [
      | yes e ↦ inr (subst (λ k. Under (child p k) q) e u)
      | no ne ↦ inl (inr (i, omega arith, u))
    ]

    narrow_none :
        (j : ℕ)
        → at v (child p j) ≡ 0
        → (q : Pointer) → IsPointer q
        → at v q ≢ 0
        → S q ⊎ Below p (j + 1) q
        → S q ⊎ Below p j q
    narrow_none j e q h nz t = elim (narrower j q h nz t) [
      | inl t' ↦ t'
      | inr u ↦ absurd (nz (Under-none v (child p j) q e u))
    ]

    separate : (j : ℕ) (q : Pointer) → IsPointer q → S q ⊎ Below p j q → Under (child p j) q → ⊥
    separate j q h (inl t) u = apart q h t (Under-parent p q j u)
    separate j q h (inr (i, lt, u')) u = Under-child_ne p q i j (λ e. absurd (omega arith)) u' u

    -- The blocks below entry `j`, if there are any.
    entry-Freed :
        (j : ℕ) (w : Volume)
        → j < 128
        → Freed v w (λ q. S q ⊎ Below p j q)
        → (w' : Volume) × ((if word (v.bytes (at v p)) j == 0
              then some w
              else f (word (v.bytes (at v p)) j) w)
            ≡ some w')
          × Freed v w' (λ q. S q ⊎ Below p (j + 1) q)
          × (w'.inodes ≡ w.inodes)
    entry-Freed j w lt g = elim (ℕ_discrete (word (v.bytes (at v p)) j) 0) [
      | yes z ↦ (
        w,
        rw z refl,
        Freed-same v w (λ q. S q ⊎ Below p j q) (λ q. S q ⊎ Below p (j + 1) q) (widen j)
            (narrow_none j (child_there j ∙ z)) g,
        refl,
      )
      | no nz ↦
          let here : at v (child p j) ≢ 0 = (λ z. nz (sym (child_there j) ∙ z)) in
          let (w', e, g', i) =
            frees (λ q. S q ⊎ Below p j q) (child p j) w (valid, omega (arith, tall), lt)
              (omega (arith, tall)) here (separate j) g in
          (
            w',
            rw (==-ne (word (v.bytes (at v p)) j) nz) (ap (λ a. f a w) (sym (child_there j)) ∙ e),
            Freed-same v w' (λ q. (S q ⊎ Below p j q) ⊎ Under (child p j) q)
                (λ q. S q ⊎ Below p (j + 1) q) (wider j) (narrower j) g',
            i,
          )
    ]

    each_entry-Freed :
        (rounds j : ℕ) (w : Volume)
        → j + rounds ≡ 128
        → Freed v w (λ q. S q ⊎ Below p j q)
        → (w' : Volume) × (each_entry rounds j (v.bytes (at v p)) f w ≡ some w')
          × Freed v w' (λ q. S q ⊎ Below p 128 q)
          × (w'.inodes ≡ w.inodes)
    unfolding each_entry
    each_entry-Freed zero j w e g = (
      w,
      refl,
      let e' : j ≡ 128 = omega arith in subst (λ k. Freed v w (λ q. S q ⊎ Below p k q)) e' g,
      refl,
    )
    each_entry-Freed (suc rounds) j w e g =
        let (w₁, e₁, g₁, i₁) = entry-Freed j w (omega arith) g in
        let (w₂, e₂, g₂, i₂) = each_entry-Freed rounds (j + 1) w₁ (omega arith) g₁ in
        (w₂, rw e₁ e₂, g₂, i₂ ∙ i₁)

    -- All entries, and then the block itself.
    tree-Freed :
        (w : Volume)
        → Freed v w S
        → (w' : Volume) × ((each_entry 128 0 (w.bytes (at v p)) f w >>= bfree (at v p)) ≡ some w')
          × Freed v w' (λ q. S q ⊎ Under p q)
          × (w'.inodes ≡ w.inodes)
    tree-Freed w g =
        let (w₁, e₁, g₁, i₁) = each_entry-Freed 128 0 w refl (
          Freed-same v w S (λ q. S q ⊎ Below p 0 q) (λ q h nz t. inl t)
            (λ q h nz t. elim t [ inl t' ↦ t' | inr (i, lt, u) ↦ absurd (omega arith) ]) g) in
        let (w₂, e₂, g₂, i₂) =
          bfree-Freed (λ q. S q ⊎ Below p 128 q) p w₁ valid there
            (λ t. elim t [
              | inl t' ↦ apart p valid t' (Under-refl p)
              | inr (i, lt, u) ↦ Under-child_self p i u
            ])
            g₁ in
        (
          w₂,
          ap (λ (bs : ℕ → Block). each_entry 128 0 (bs (at v p)) f w >>= bfree (at v p)) g.bytes
              ∙ ap (λ (r : Option Volume). r >>= bfree (at v p)) e₁
              ∙ e₂,
          Freed-same v w₂ (λ q. (S q ⊎ Below p 128 q) ⊎ (q ≡ p)) (λ q. S q ⊎ Under p q) whole parts
              g₂,
          i₂ ∙ i₁,
        )
      where
        whole :
            (q : Pointer)
            → IsPointer q
            → at v q ≢ 0
            → (S q ⊎ Below p 128 q) ⊎ (q ≡ p)
            → S q ⊎ Under p q
        whole q h nz (inl (inl t)) = inl t
        whole q h nz (inl (inr (i, lt, u))) = inr (Under-parent p q i u)
        whole q h nz (inr e) = inr (subst (λ x. Under x q) e (Under-refl q))

        parts :
            (q : Pointer)
            → IsPointer q
            → at v q ≢ 0
            → S q ⊎ Under p q
            → (S q ⊎ Below p 128 q) ⊎ (q ≡ p)
        parts q h nz (inl t) = inl (inl t)
        parts q h nz (inr u) = elim (Under-cases p q h u) [
          | inl e ↦ inr e
          | inr (i, lt, tall', u') ↦ inl (inr (i, lt, u'))
        ]

  -- The four functions of `itrunc`, from the direct block to the triply indirect one.
  pub bfree-Frees : Frees bfree 0
  bfree-Frees S p w valid low there apart g =
      let (w', e, g', i) = bfree-Freed S p w valid there (λ t. apart p valid t (Under-refl p)) g in
      (
        w',
        e,
        Freed-same v w' (λ q. S q ⊎ (q ≡ p)) (λ q. S q ⊎ Under p q)
            (λ q h nz t. elim t [
              | inl t' ↦ inl t'
              | inr e ↦ inr (subst (λ x. Under x q) e (Under-refl q))
            ])
            (λ q h nz t. elim t [
              | inl t' ↦ inl t'
              | inr u ↦ elim (Under-cases p q h u) [
                | inl e ↦ inr e
                | inr (i, lt, tall, u') ↦ absurd (omega (arith, tall, low))
              ]
            ])
            g',
        i,
      )

  pub free_single-Frees : Frees free_single 1
  unfolding free_single
  free_single-Frees S p w valid low there apart g =
      tree-Freed bfree 0 bfree-Frees S p valid low there apart w g

  pub free_double-Frees : Frees free_double 2
  unfolding free_double
  free_double-Frees S p w valid low there apart g =
      tree-Freed free_single 1 free_single-Frees S p valid low there apart w g

  pub free_triple-Frees : Frees free_triple 3
  unfolding free_triple
  free_triple-Frees S p w valid low there apart g =
      tree-Freed free_double 2 free_double-Frees S p valid low there apart w g
