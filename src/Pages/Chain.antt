-- ===== src/Pages/Chain.antt =====
-- The list of free pages that `kmem` holds.
use hyeonseung_os.Base.{ℕ, ◌≡◌, ◌≢◌, List, [], ◌∷◌, update, update_ne}
use hyeonseung_os.Pages.{Kmem}

-- The page is not in the list.
abbrev pub NotIn : ℕ → List ℕ → Type 0
NotIn v [] = Unit {0}
NotIn v (p ∷ ps) = (p ≢ v) × NotIn v ps

-- From `p` on the words `next` lead through the pages of the list, each once, to null.
abbrev pub IsChain : (ℕ → ℕ) → ℕ → List ℕ → Type 0
IsChain next p [] = p ≡ 0
IsChain next p (q ∷ qs) = (p ≡ q) × (q ≢ 0) × NotIn q qs × IsChain next (next q) qs

-- The words of pages outside the list do not matter.
pub IsChain-frame :
    (next : ℕ → ℕ) (v w p : ℕ) (ps : List ℕ)
    → NotIn v ps
    → IsChain next p ps
    → IsChain (update next v w) p ps
IsChain-frame next v w p [] o c = c
IsChain-frame next v w p (q ∷ qs) (nq, o) (e, z, n, c) =
    (e, z, n, rw (update_ne next v w q nq) (IsChain-frame next v w (next q) qs o c))

abbrev pub Holds : Kmem → List ℕ → Type 0
Holds s ps = IsChain s.next s.freelist ps
