-- ===== src/Buffers/Ring.antt =====
-- The ring of buffers as a list, from the most recently released to the least.
use hyeonseung_os.Base.{
  ℕ, ◌≤◌, ◌≡◌, ◌≢◌, refl, sym, ◌∙◌, List, [], ◌∷◌, ◌++◌, length, arith, update, update_ne, subst,
}
use hyeonseung_os.Buffers.{Bcache, Links, nbuf, head, push_front, unlink}

-- From `a` the links lead through the list to `z`, and back.
abbrev pub Linked : Links → Links → ℕ → List ℕ → ℕ → Type 0
Linked n p a [] z = (n a ≡ z) × (p z ≡ a)
Linked n p a (x ∷ xs) z = (n a ≡ x) × (p x ≡ a) × Linked n p x xs z

abbrev pub Absent : ℕ → List ℕ → Type 0
Absent x [] = Unit
Absent x (y ∷ ys) = (x ≢ y) × Absent x ys

abbrev pub Distinct : List ℕ → Type 0
Distinct [] = Unit
Distinct (x ∷ xs) = Absent x xs × Distinct xs

-- The ring of the cache is the list: at most 30 buffers, each once.
pub record IsRing (s : Bcache) (l : List ℕ) : Type 0 where
  pub linked : Linked s.next s.prev head l head
  pub apart : Distinct l
  pub no_head : Absent head l
  pub few : length l ≤ nbuf

-- A change of the links at other places.
frame :
    (n p : Links) (a z y v w u : ℕ) (l : List ℕ)
    → a ≢ y
    → Absent y l
    → Absent w l
    → w ≢ z
    → Linked n p a l z
    → Linked (update n y v) (update p w u) a l z
frame n p a z y v w u [] na ay aw nz (e, f) =
    (update_ne n y v a na ∙ e, update_ne p w u z (λ e. nz (sym e)) ∙ f)
frame n p a z y v w u (x ∷ xs) na (nx, ay) (nw, aw) nz (e, f, g) = (
  update_ne n y v a na ∙ e,
  update_ne p w u x (λ e. nw (sym e)) ∙ f,
  frame n p x z y v w u xs (λ e. nx (sym e)) ay aw nz g,
)

pub push_front-Linked :
    (b : ℕ) (s : Bcache) (l : List ℕ)
    → Linked s.next s.prev head l head
    → Distinct l
    → Absent head l
    → b ≢ head
    → Absent b l
    → Linked (push_front b s).next (push_front b s).prev head (b ∷ l) head
unfolding push_front
push_front-Linked b s [] (e, f) d h nh nb =
    (ground arith, ground arith, (ground arith, ground arith))
push_front-Linked b s (y ∷ ys) (e, f, g) (ay, d) (hy, h) nh (by, nb) =
    let first : update s.next b (s.next head) head ≡ y = ground arith in
    let inner = frame s.next s.prev y head b (s.next head) b head ys (λ e. by (sym e)) nb nb nh g in
    let w = update s.next b (s.next head) head in
    (
      ground arith,
      ground arith,
      (
        ground arith,
        ground arith,
        frame (update s.next b (s.next head)) (update s.prev b head) y head head b w b ys
            (λ e. hy (sym e)) h (subst (λ x. Absent x ys) (sym first) ay) (λ e. hy (sym e ∙ first))
            inner,
      ),
    )

-- The ends of the two parts that a list is cut into.
abbrev last_of : ℕ → List ℕ → ℕ
last_of a [] = a
last_of a (x ∷ xs) = last_of x xs

abbrev first_of : List ℕ → ℕ → ℕ
first_of [] z = z
first_of (x ∷ xs) z = x

Absent-last : (a x : ℕ) (l : List ℕ) → a ≢ x → Absent a l → a ≢ last_of x l
Absent-last a x [] ne h = ne
Absent-last a x (y ∷ ys) ne (n, h) = Absent-last a y ys n h

Absent-first : (a z : ℕ) (l : List ℕ) → a ≢ z → Absent a l → a ≢ first_of l z
Absent-first a z [] ne h = ne
Absent-first a z (y ∷ ys) ne (n, h) = n

Absent-append : (a : ℕ) (l l' : List ℕ) → Absent a (l ++ l') → Absent a l × Absent a l'
Absent-append a [] l' h = (tt, h)
Absent-append a (y ∷ ys) l' (n, h) = let (p, q) = Absent-append a ys l' h in ((n, p), q)

-- Without its middle element the list is linked by the links that skip it.
skip_middle :
    (n p : Links) (a x z : ℕ) (l l' : List ℕ)
    → Linked n p a (l ++ x ∷ l') z
    → Distinct (l ++ x ∷ l')
    → Absent a (l ++ x ∷ l')
    → Absent z (l ++ x ∷ l')
    → Linked
        (update n (last_of a l) (first_of l' z))
        (update p (first_of l' z) (last_of a l))
        a
        (l ++ l')
        z
skip_middle n p a x z [] [] (e, f, g) d aa az = (ground arith, ground arith)
skip_middle n p a x z [] (y ∷ ys) (e, f, (e', f', g)) (ax, (ay, d)) (na, (na', aa))
      (nz, (nz', az)) =
    (
      ground arith,
      ground arith,
      frame n p y z a y y a ys (λ e. na' (sym e)) aa ay (λ e. nz' (sym e)) g,
    )
skip_middle n p a x z (w ∷ ws) l' (e, f, g) (aw, d) (na, aa) (nz, az) =
    let (aw', (nw, aw'')) = Absent-append w ws (x ∷ l') aw in
    let (aa', _) = Absent-append a ws (x ∷ l') aa in
    (
      update_ne n (last_of w ws) (first_of l' z) a (Absent-last a w ws na aa') ∙ e,
      update_ne p (first_of l' z) (last_of w ws) w (Absent-first w z l' (λ e. nz (sym e)) aw'') ∙ f,
      skip_middle n p w x z ws l' g d aw az,
    )

-- The neighbours of an element.
neighbours :
    (n p : Links) (a x z : ℕ) (l l' : List ℕ)
    → Linked n p a (l ++ x ∷ l') z
    → (n x ≡ first_of l' z) × (p x ≡ last_of a l)
neighbours n p a x z [] [] (e, f, (g, h)) = (g, f)
neighbours n p a x z [] (y ∷ ys) (e, f, (g, h, r)) = (g, f)
neighbours n p a x z (w ∷ ws) l' (e, f, g) = neighbours n p w x z ws l' g

pub unlink-Linked :
    (b : ℕ) (s : Bcache) (l l' : List ℕ)
    → Linked s.next s.prev head (l ++ b ∷ l') head
    → Distinct (l ++ b ∷ l')
    → Absent head (l ++ b ∷ l')
    → Linked (unlink b s).next (unlink b s).prev head (l ++ l') head
unfolding unlink
unlink-Linked b s l l' k d h =
    let (e, f) = neighbours s.next s.prev head b head l l' k in
    let same : update s.prev (s.next b) (s.prev b) b ≡ s.prev b = ground arith in
    rw (same, e, f) (skip_middle s.next s.prev head b head l l' k d h h)

Absent-without : (a b : ℕ) (l l' : List ℕ) → Absent a (l ++ b ∷ l') → Absent a (l ++ l')
Absent-without a b [] l' (n, h) = h
Absent-without a b (y ∷ ys) l' (n, h) = (n, Absent-without a b ys l' h)

Distinct-without :
    (b : ℕ) (l l' : List ℕ) → Distinct (l ++ b ∷ l') → Distinct (l ++ l') × Absent b (l ++ l')
Distinct-without b [] l' (h, d) = (d, h)
Distinct-without b (y ∷ ys) l' (h, d) =
    let (d', h') = Distinct-without b ys l' d in
    let (_, (ne, _)) = Absent-append y ys (b ∷ l') h in
    ((Absent-without y b ys l' h, d'), ((λ e. ne (sym e)), h'))

length-move : (b : ℕ) (l l' : List ℕ) → length (b ∷ (l ++ l')) ≡ length (l ++ b ∷ l')
length-move b [] l' = refl
length-move b (y ∷ ys) l' = omega (arith, length-move b ys l')

-- A buffer of the ring that is taken out and put at the front.
pub move-IsRing :
    (b : ℕ) (s : Bcache) (l l' : List ℕ)
    → IsRing s (l ++ b ∷ l')
    → IsRing (push_front b (unlink b s)) (b ∷ (l ++ l'))
move-IsRing b s l l' r =
    let (d, out) = Distinct-without b l l' r.apart in
    let (_, (ne, _)) = Absent-append head l (b ∷ l') r.no_head in
    let clear = Absent-without head b l l' r.no_head in
    record {
      linked =
          push_front-Linked b (unlink b s) (l ++ l')
            (unlink-Linked b s l l' r.linked r.apart r.no_head) d clear (λ e. ne (sym e)) out;
      apart = (out, d);
      no_head = (ne, clear);
      few = omega (arith, r.few, length-move b l l');
    }
