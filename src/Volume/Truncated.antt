-- ===== src/Volume/Truncated.antt =====
-- `itrunc`: all blocks of the inode are free, and no other.
use hyeonseung_os.Base.{
  ℕ, zero, suc, ◌+◌, ◌-◌, ◌≤◌, ◌<◌, ◌≡◌, ◌≢◌, ◌⊎◌, inl, inr, refl, sym, ap, ◌∙◌, arith, false,
  Option, some, ◌>>=◌, update, update_ne, ℕ_discrete, subst,
}
use hyeonseung_os.Volume.{Volume, Inode, bfree, set_addr, set_inode}
use hyeonseung_os.Volume.Pointers.{Pointer, root, at, IsPointer, inode_of}
use hyeonseung_os.Volume.Partition.{IsPartitioned, last_of, depth}
use hyeonseung_os.Volume.Reached.{==-ne}
use hyeonseung_os.Volume.Descent.{Under, Under-unique, Under-root, Under-inode_of}
use hyeonseung_os.Volume.Truncate.{
  free_single, free_double, free_triple, free_addr, free_direct, itrunc,
}
use hyeonseung_os.Volume.Freed.{Freed, Freed-same, Under-none}
use hyeonseung_os.Volume.Freeing.{
  Frees, bfree-Frees, free_single-Frees, free_double-Frees, free_triple-Frees,
}

-- The pointers below the first `i` of the `addrs` of inode `n`.
abbrev pub First : ℕ → ℕ → Pointer → Type 0
First n i q = (j : ℕ) × (j < i) × Under (root n j) q

-- The first `i` of the `addrs` are clear, and the blocks below them free.
pub record Cleared (v w : Volume) (n i : ℕ) : Type 0 where
  pub freed : Freed v w (First n i)
  pub clear : (j : ℕ) → j < i → (w.inodes n).addrs j ≡ 0
  pub later : (j : ℕ) → i ≤ j → (w.inodes n).addrs j ≡ (v.inodes n).addrs j
  pub others : (m : ℕ) → m ≢ n → w.inodes m ≡ v.inodes m

root_injective : (n i j : ℕ) → root n i ≡ root n j → i ≡ j
unfolding last_of
root_injective n i j e = ap last_of e

module _ (v : Volume) (s : IsPartitioned v) (n : ℕ) where
  wider : (i : ℕ) (q : Pointer) → First n i q ⊎ Under (root n i) q → First n (i + 1) q
  wider i q (inl (j, lt, u)) = (j, omega arith, u)
  wider i q (inr u) = (i, omega arith, u)

  narrower : (i : ℕ) (q : Pointer) → First n (i + 1) q → First n i q ⊎ Under (root n i) q
  narrower i q (j, lt, u) = elim (ℕ_discrete j i) [
    | yes e ↦ inr (subst (λ k. Under (root n k) q) e u)
    | no ne ↦ inl (j, omega arith, u)
  ]

  at_root : (i : ℕ) → at v (root n i) ≡ (v.inodes n).addrs i
  unfolding at
  at_root i = refl

  skip-Cleared :
      (i : ℕ) (w : Volume) → (w.inodes n).addrs i ≡ 0 → Cleared v w n i → Cleared v w n (i + 1)
  skip-Cleared i w z c =
      let none_here : at v (root n i) ≡ 0 = at_root i ∙ sym (c.later i (omega arith)) ∙ z in
      record {
        freed =
            Freed-same v w (First n i) (First n (i + 1)) (λ q h nz t. wider i q (inl t))
              (λ q h nz t. elim (narrower i q t) [
                | inl t' ↦ t'
                | inr u ↦ absurd (nz (Under-none v (root n i) q none_here u))
              ])
              c.freed;
        clear = λ j l. elim (ℕ_discrete j i) [ yes e ↦ rw e z | no ne ↦ c.clear j (omega arith) ];
        later = λ j l. c.later j (omega arith);
        others = c.others;
      }

  -- The address is cleared, and what stood below it has been freed.
  drop-Cleared :
      (i : ℕ) (w w' : Volume)
      → Cleared v w n i
      → Freed v w' (λ q. First n i q ⊎ Under (root n i) q)
      → w'.inodes ≡ w.inodes
      → Cleared v (set_addr n i 0 w') n (i + 1)
  unfolding set_addr
  drop-Cleared i w w' c g e =
      let mine : (w'.inodes n).addrs ≡ (w.inodes n).addrs = ap (λ (x : ℕ → Inode). (x n).addrs) e in
      record {
        freed =
            let g' =
              Freed-same v w' (λ q. First n i q ⊎ Under (root n i) q) (First n (i + 1))
                (λ q h nz t. wider i q t) (λ q h nz t. narrower i q t) g in
            record { gone = g'.gone; rest = g'.rest; bytes = g'.bytes; limit = g'.limit };
        clear = λ j l. elim (ℕ_discrete j i) [
          | yes z ↦ ground (arith, z)
          | no ne ↦ ground (arith, ap (λ (x : ℕ → ℕ). x j) mine, c.clear j (omega arith))
        ];
        later = λ j l. ground (arith, ap (λ (x : ℕ → ℕ). x j) mine, c.later j (omega arith));
        others = λ m ne.
            update_ne w'.inodes n (record (w'.inodes n) { addrs = update (w'.inodes n).addrs i 0 })
              m ne
            ∙ ap (λ (x : ℕ → Inode). x m) e
            ∙ c.others m ne;
      }

  free_addr-Cleared :
      (f : ℕ → Volume → Option Volume) (i : ℕ) (w : Volume)
      → Frees v s f (i - 9)
      → i < 13
      → Cleared v w n i
      → (w' : Volume) × (free_addr n f i w ≡ some w') × Cleared v w' n (i + 1)
  unfolding free_addr
  free_addr-Cleared f i w frees lt c = elim (ℕ_discrete ((w.inodes n).addrs i) 0) [
    | yes z ↦ (w, rw z refl, skip-Cleared i w z c)
    | no nz ↦
        let same : at v (root n i) ≡ (w.inodes n).addrs i =
          at_root i ∙ sym (c.later i (omega arith)) in
        let (w', e, g, k) =
          frees (First n i) (root n i) w lt refl (λ z. nz (sym same ∙ z)) separate c.freed in
        (
          set_addr n i 0 w',
          rw (==-ne ((w.inodes n).addrs i) nz)
              (ap (λ r. r >>= λ v'. some (set_addr n i 0 v')) (ap (λ a. f a w) (sym same) ∙ e)),
          drop-Cleared i w w' c g k,
        )
  ]
    where
      root_depth : (j i : ℕ) → depth (root n j) ≡ depth (root n i)
      root_depth j i = unfold depth in refl

      separate : (q : Pointer) → IsPointer q → First n i q → Under (root n i) q → ⊥
      separate q h (j, l, u') u =
          let same =
            root_injective n j i (Under-unique (root n j) (root n i) q (root_depth j i) u' u) in
          absurd (omega arith)

  free_direct-Cleared :
      (rounds i : ℕ) (w : Volume)
      → i + rounds ≡ 10
      → Cleared v w n i
      → (w' : Volume) × (free_direct rounds i n w ≡ some w') × Cleared v w' n 10
  unfolding free_direct
  free_direct-Cleared zero i w e c =
      (w, refl, let e' : i ≡ 10 = omega arith in subst (Cleared v w n) e' c)
  free_direct-Cleared (suc rounds) i w e c =
      let low : i - 9 ≡ 0 = omega arith in
      let (w₁, e₁, c₁) =
        free_addr-Cleared bfree i w (subst (Frees v s bfree) (sym low) (bfree-Frees v s))
          (omega arith) c in
      let (w₂, e₂, c₂) = free_direct-Cleared rounds (i + 1) w₁ (omega arith) c₁ in
      (w₂, rw e₁ e₂, c₂)

-- `itrunc` does not panic: it frees every block of the inode, each once, frees no other block, clears the
-- addresses and the size, and leaves the other inodes and the bytes of all blocks as they were.
pub itrunc_lem :
    (v : Volume) (n : ℕ)
    → IsPartitioned v
    → (v' : Volume) × (itrunc n v ≡ some v')
      × ((q : Pointer) → IsPointer q → inode_of q ≡ n → at v q ≢ 0 → v'.used (at v q) ≡ false)
      × ((b : ℕ)
          → ((q : Pointer) → IsPointer q → inode_of q ≡ n → at v q ≢ 0 → at v q ≢ b)
          → v'.used b ≡ v.used b)
      × ((i : ℕ) → i < 13 → (v'.inodes n).addrs i ≡ 0)
      × ((v'.inodes n).size ≡ 0)
      × ((m : ℕ) → m ≢ n → v'.inodes m ≡ v.inodes m)
      × (v'.bytes ≡ v.bytes)
unfolding itrunc
itrunc_lem v n s =
    let (w₁, e₁, c₁) = free_direct-Cleared v s n 10 0 v refl start in
    let (w₂, e₂, c₂) =
      free_addr-Cleared v s n free_single 10 w₁ (free_single-Frees v s) (omega arith) c₁ in
    let (w₃, e₃, c₃) =
      free_addr-Cleared v s n free_double 11 w₂ (free_double-Frees v s) (omega arith) c₂ in
    let (w₄, e₄, c₄) =
      free_addr-Cleared v s n free_triple 12 w₃ (free_triple-Frees v s) (omega arith) c₃ in
    (
      set_inode n (record (w₄.inodes n) { size = 0 }) w₄,
      rw (e₁, e₂, e₃, e₄) refl,
      (λ q h e nz. c₄.freed.gone q h (first q h e) nz),
      (λ b out. c₄.freed.rest b (λ q h t nz. out q h (mine q t) nz)),
      (λ i lt. ground (arith, c₄.clear i lt)),
      ground arith,
      (λ m ne. update_ne w₄.inodes n (record (w₄.inodes n) { size = 0 }) m ne ∙ c₄.others m ne),
      c₄.freed.bytes,
    )
  where
    start : Cleared v v n 0
    start = record {
      freed = record {
        gone = λ q h t nz. absurd (omega (arith, t.1));
        rest = λ b out. refl;
        bytes = refl;
        limit = refl;
      };
      clear = λ j l. absurd (omega arith);
      later = λ j l. refl;
      others = λ m ne. refl;
    }

    first : (q : Pointer) → IsPointer q → inode_of q ≡ n → First n 13 q
    first q h e = let (i, lt, u) = Under-root q h in (i, lt, subst (λ m. Under (root m i) q) e u)

    mine : (q : Pointer) → First n 13 q → inode_of q ≡ n
    mine q (j, lt, u) = Under-inode_of (root n j) q u
