-- ===== src/Paths/Components.antt =====
-- `skipelem` takes the components of a path one by one, and `namex` walks them.
use hyeonseung_os.Base.{
  ℕ, zero, suc, ◌≤◌, ◌<◌, ◌≡◌, refl, sym, ap, ◌∙◌, ◌⊎◌, inl, inr, Bool, true, false, ◌&&◌, Option,
  none, some, ◌>>=◌, List, [], ◌∷◌, ◌++◌, take, length, append-nil, append_assoc, arith, ◌==◌,
  if◌then◌else◌, Bool-cases, fun_ext,
}
use hyeonseung_os.Inodes.{Store}
use hyeonseung_os.Directory.{dirsiz}
use hyeonseung_os.Paths.{
  slash, skip_slashes, span_elem, first_elem, skipelem, as_name, Visit, lost, stopped, goes,
  visit_dir, namex_end, is_nil, namex_loop,
}

-- The words between the slashes, cut at 14 bytes: a second way to read a path.
abbrev add_word : List ℕ → List (List ℕ) → List (List ℕ)
add_word [] ws = ws
add_word (c ∷ cs) ws = take dirsiz (c ∷ cs) ∷ ws

unfoldable pub words : List ℕ → List ℕ → List (List ℕ)
words word [] = add_word word []
words word (c ∷ cs) =
    let within = words (word ++ c ∷ []) cs in
    let after = add_word word (words [] cs) in if c == slash then after else within

abbrev pub components : List ℕ → List (List ℕ)
components = words []

no_components : components [] ≡ []
unfolding words
no_components = refl

words_slashes : (p : List ℕ) → components (skip_slashes p) ≡ components p
unfolding skip_slashes words
words_slashes [] = refl
words_slashes (c ∷ cs) = elim (Bool-cases (c == slash)) [
  | inl e ↦ rw e (words_slashes cs)
  | inr e ↦ rw e (rw e refl)
]

words_span :
    (cs word : List ℕ)
    → words word cs ≡ add_word (word ++ (span_elem cs).0) (components (span_elem cs).1)
unfolding words span_elem
words_span [] word = ap (λ w. add_word w []) (sym (append-nil word))
words_span (c ∷ cs) word = elim (Bool-cases (c == slash)) [
  | inl e ↦ rw e (rw e (ap (λ w. add_word w (components cs)) (sym (append-nil word))))
  | inr e ↦ rw e (
      words_span cs (word ++ c ∷ [])
      ∙ ap (λ w. add_word w (components (span_elem cs).1))
          (append_assoc word (c ∷ []) (span_elem cs).0))
]

data Skipped (p : List ℕ) : List ℕ → Type 0 where
  empty : Skipped p []
  at_elem :
      (c : ℕ) (cs : List ℕ) → (c == slash) ≡ false → length (c ∷ cs) ≤ length p → Skipped p (c ∷ cs)

skip-Skipped : (p : List ℕ) → Skipped p (skip_slashes p)
unfolding skip_slashes
skip-Skipped [] = empty
skip-Skipped (c ∷ cs) = elim (Bool-cases (c == slash)) [
  | inl e ↦ rw e (longer (skip-Skipped cs))
  | inr e ↦ rw e (at_elem c cs e (omega arith))
]
  where
    longer : {q : List ℕ} → Skipped cs q → Skipped (c ∷ cs) q
    longer empty = empty
    longer (at_elem d ds e l) = at_elem d ds e (omega arith)

span_elem-length : (cs : List ℕ) → length (span_elem cs).1 ≤ length cs
unfolding span_elem
span_elem-length [] = omega arith
span_elem-length (c ∷ cs) = elim (Bool-cases (c == slash)) [
  | inl e ↦ rw e (omega arith)
  | inr e ↦ rw e (omega (arith, span_elem-length cs))
]

skipped-length : {p : List ℕ} (q : List ℕ) → Skipped p q → length q ≤ length p
skipped-length _ empty = omega arith
skipped-length _ (at_elem c cs e l) = l

-- Without its leading slashes the path has an element exactly if it is not empty.
abbrev no_more : List (List ℕ) → Bool
no_more [] = true
no_more (w ∷ ws) = false

elem_first :
    (c : ℕ) (cs : List ℕ)
    → (c == slash) ≡ false
    → components (c ∷ cs) ≡ take dirsiz (c ∷ (span_elem cs).0) ∷ components (span_elem cs).1
unfolding words span_elem
elem_first c cs e = rw e (words_span cs (c ∷ []))

skipped_nil : {p : List ℕ} (q : List ℕ) → Skipped p q → is_nil q ≡ no_more (components q)
unfolding words
skipped_nil _ empty = refl
skipped_nil _ (at_elem c cs e l) = rw (elem_first c cs e) refl

-- What `skipelem` does: it finds no component, or takes the first and leaves a shorter path.
pub data Skips (p : List ℕ) : Option (List ℕ × List ℕ) → Type 0 where
  at_end : components p ≡ [] → Skips p none
  takes :
      (elem rest : List ℕ)
      → components p ≡ elem ∷ components rest
      → length rest < length p
      → is_nil rest ≡ no_more (components rest)
      → Skips p (some (elem, rest))

pub skipelem-Skips : (p : List ℕ) → Skips p (skipelem p)
unfolding skipelem first_elem span_elem words
skipelem-Skips p = go (skip_slashes p) (skip-Skipped p) (words_slashes p)
  where
    go : (q : List ℕ) → Skipped p q → components q ≡ components p → Skips p (first_elem q)
    go _ empty w = at_end (sym w)
    go _ (at_elem c cs e l) w =
        let r = (span_elem cs).1 in
        rw e (
          takes _ (skip_slashes r)
            (sym w
              ∙ elem_first c cs e
              ∙ ap (λ ws. take dirsiz (c ∷ (span_elem cs).0) ∷ ws) (sym (words_slashes r)))
            (omega (arith, skipped-length _ (skip-Skipped r), span_elem-length cs, l))
            (skipped_nil _ (skip-Skipped r)))

-- The walk of `namex` over components.
unfoldable pub walk : List (List ℕ) → Bool → ℕ → Store → Option (Option (ℕ × List ℕ) × Store)
walk [] nameiparent ip s = namex_end nameiparent ip s
walk (elem ∷ elems) nameiparent ip s = do
  (x, s') ← visit_dir ip (as_name elem) (nameiparent && no_more elems) s
  elim x [
    | lost ↦ some (none, s')
    | stopped ↦ some (some (ip, elem), s')
    | goes next ↦ walk elems nameiparent next s'
  ]

skip_cases :
    (p : List ℕ)
    → ((skipelem p ≡ none) × (components p ≡ []))
      ⊎ ((elem : List ℕ) × (rest : List ℕ) × (skipelem p ≡ some (elem, rest))
          × (components p ≡ elem ∷ components rest)
          × (length rest < length p)
          × (is_nil rest ≡ no_more (components rest)))
skip_cases p = go _ refl (skipelem-Skips p)
  where
    go :
        (r : Option (List ℕ × List ℕ))
        → skipelem p ≡ r
        → Skips p r
        → ((skipelem p ≡ none) × (components p ≡ []))
          ⊎ ((elem : List ℕ) × (rest : List ℕ) × (skipelem p ≡ some (elem, rest))
              × (components p ≡ elem ∷ components rest)
              × (length rest < length p)
              × (is_nil rest ≡ no_more (components rest)))
    go _ e (at_end c) = inl (e, c)
    go _ e (takes elem rest c l n) = inr (elem, rest, e, c, l, n)

-- The loop of `namex` ends within as many rounds as the path has bytes, and more change nothing: it visits
-- the components of the path, the words between its slashes cut at 14 bytes, one after the other, and
-- stops at the last for `nameiparent`.
pub namex_loop-walk :
    (rounds : ℕ) (path : List ℕ) (nameiparent : Bool) (ip : ℕ) (s : Store)
    → length path ≤ rounds
    → namex_loop rounds path nameiparent ip s ≡ walk (components path) nameiparent ip s
unfolding namex_loop walk
namex_loop-walk zero [] nameiparent ip s h = ap (λ ws. walk ws nameiparent ip s) (sym no_components)
namex_loop-walk zero (c ∷ cs) nameiparent ip s h = absurd (omega arith)
namex_loop-walk (suc rounds) path nameiparent ip s h = elim (skip_cases path) [
  | inl (e, c) ↦ rw (e, namex_loop, c) refl
  | inr (elem, rest, e, c, l, n) ↦
      let later =
        λ (next : ℕ) (s' : Store). namex_loop-walk rounds rest nameiparent next s' (omega arith) in
      rw (e, namex_loop, c, n)
        (ap (λ k. visit_dir ip (as_name elem) (nameiparent && no_more (components rest)) s >>= k)
          (fun_ext λ x. same elem rest later x.0 x.1))
]
  where
    same :
        (elem rest : List ℕ)
        → ((next : ℕ) (s' : Store)
            → namex_loop rounds rest nameiparent next s'
              ≡ walk (components rest) nameiparent next s')
        → (x : Visit) (s' : Store)
        → (elim x as (λ k. Option (Option (ℕ × List ℕ) × Store)) [
          | lost ↦ some (none, s')
          | stopped ↦ some (some (ip, elem), s')
          | goes next ↦ namex_loop rounds rest nameiparent next s'
        ])
          ≡ (elim x as (λ k. Option (Option (ℕ × List ℕ) × Store)) [
            | lost ↦ some (none, s')
            | stopped ↦ some (some (ip, elem), s')
            | goes next ↦ walk (components rest) nameiparent next s'
          ])
    same elem rest later lost s' = refl
    same elem rest later stopped s' = refl
    same elem rest later (goes next) s' = later next s'
