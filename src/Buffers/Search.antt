-- ===== src/Buffers/Search.antt =====
-- The two scans of `bget`: along the ring, and back along it.
use hyeonseung_os.Base.{
  ℕ, zero, suc, ◌<◌, ◌≡◌, ◌≢◌, refl, inl, inr, Bool, true, false, Option, none, some, List, [], ◌∷◌,
  ◌++◌, length, arith, ◌==◌, Bool-cases, length-append,
}
use hyeonseung_os.Buffers.{Buf, Links, head, scan_ring, is_block, is_idle}
use hyeonseung_os.Buffers.Ring.{Linked, Absent}

-- The buffer holds the block.
abbrev pub HasBlock : ℕ → ℕ → Buf → Type 0
HasBlock dev blockno x = (x.dev ≡ dev) × (x.blockno ≡ blockno)

-- Nobody holds the buffer, and the log does not keep it.
abbrev pub IsReusable : Buf → Type 0
IsReusable x = (x.refcnt ≡ 0) × (x.dirty ≡ false)

-- The first buffer of a list with a property, if there is one.
pub data First (P : Buf → Type 0) (buf : ℕ → Buf) : List ℕ → Option ℕ → Type 0 where
  nothing : First P buf [] none
  here : {b : ℕ} {bs : List ℕ} → P (buf b) → First P buf (b ∷ bs) (some b)
  later :
      {b : ℕ} {bs : List ℕ} {r : Option ℕ} → ¬ P (buf b) → First P buf bs r → First P buf (b ∷ bs) r

pub scan_ring-First :
    (rounds a : ℕ) (test : Buf → Bool) (P : Buf → Type 0) (buf : ℕ → Buf) (n p : Links) (l : List ℕ)
    → ((x : Buf) → test x ≡ true → P x)
    → ((x : Buf) → test x ≡ false → ¬ P x)
    → length l < rounds
    → Linked n p a l head
    → Absent head l
    → First P buf l (scan_ring rounds test n buf (n a))
unfolding scan_ring
scan_ring-First zero a test P buf n p l t f h k c = absurd (omega arith)
scan_ring-First (suc rounds) a test P buf n p [] t f h (e, e') c = rw e nothing
scan_ring-First (suc rounds) a test P buf n p (b ∷ bs) t f h (e, e', k) (nb, c) =
    let ne : (b == head) ≡ false = ground arith in
    elim (Bool-cases (test (buf b))) [
      | inl y ↦ rw (e, ne, y) (here (t (buf b) y))
      | inr y ↦
          rw (e, ne, y)
            (later (f (buf b) y) (scan_ring-First rounds b test P buf n p bs t f (omega arith) k c))
    ]

pub is_block_yes : (d k : ℕ) (x : Buf) → is_block d k x ≡ true → HasBlock d k x
is_block_yes d k x e = (ground (arith, e), ground (arith, e))

pub is_block_no : (d k : ℕ) (x : Buf) → is_block d k x ≡ false → ¬ HasBlock d k x
is_block_no d k x e (h, h') = ground (arith, e, h, h')

pub is_idle_yes : (x : Buf) → is_idle x ≡ true → IsReusable x
is_idle_yes x e = (ground (arith, e), ground (arith, e))

pub is_idle_no : (x : Buf) → is_idle x ≡ false → ¬ IsReusable x
is_idle_no x e (h, h') = ground (arith, e, h, h')

abbrev pub reversed : List ℕ → List ℕ
reversed [] = []
reversed (x ∷ xs) = reversed xs ++ x ∷ []

Linked-snoc :
    (n p : Links) (a x z : ℕ) (l : List ℕ)
    → Linked n p a l x
    → n x ≡ z
    → p z ≡ x
    → Linked n p a (l ++ x ∷ []) z
Linked-snoc n p a x z [] (e, f) e' f' = (e, f, (e', f'))
Linked-snoc n p a x z (y ∷ ys) (e, f, k) e' f' = (e, f, Linked-snoc n p y x z ys k e' f')

pub Linked-reversed :
    (n p : Links) (a z : ℕ) (l : List ℕ) → Linked n p a l z → Linked p n z (reversed l) a
Linked-reversed n p a z [] (e, f) = (f, e)
Linked-reversed n p a z (x ∷ xs) (e, f, k) =
    Linked-snoc p n z x a (reversed xs) (Linked-reversed n p x z xs k) f e

Absent-snoc : (a x : ℕ) (l : List ℕ) → Absent a l → a ≢ x → Absent a (l ++ x ∷ [])
Absent-snoc a x [] h ne = (ne, tt)
Absent-snoc a x (y ∷ ys) (n, h) ne = (n, Absent-snoc a x ys h ne)

pub Absent-reversed : (a : ℕ) (l : List ℕ) → Absent a l → Absent a (reversed l)
Absent-reversed a [] h = tt
Absent-reversed a (x ∷ xs) (n, h) = Absent-snoc a x (reversed xs) (Absent-reversed a xs h) n

pub length-reversed : (l : List ℕ) → length (reversed l) ≡ length l
length-reversed [] = refl
length-reversed (x ∷ xs) = omega (arith, length-append (reversed xs) (x ∷ []), length-reversed xs)
