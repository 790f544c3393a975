-- ===== src/Base/Maps.antt =====
-- Arrays as functions of their index, and loops over a range of indices.
use Prim.Native.Nat.{ℕ, zero, suc, ◌+◌}
use mathlib.Core.Path.{◌≡◌, subst, fun_ext}
use mathlib.Core.Logic.{◌≢◌}
use mathlib.Core.Bool.{◌&&◌}
use native.Mathlib.Omega.{arith}
use hyeonseung_os.Base.Tests.{◌==◌, ltb, leb, if◌then◌else◌}

module _ {ℓ} {A : Type ℓ} where
  abbrev pub update : (ℕ → A) → ℕ → A → ℕ → A
  update f i v j = if j == i then v else f j

module _ {ℓ} {State : Type ℓ} where
  -- for (k = first; k < first + rounds; k++) x = act k x
  unfoldable pub for_range : (rounds first : ℕ) → (ℕ → State → State) → State → State
  for_range zero first act x = x
  for_range (suc rounds) first act x = for_range rounds (first + 1) act (act first x)

module _ {ℓ κ} {State : Type ℓ} (Inv : ℕ → State → Type κ) (act : ℕ → State → State)
    (kept : (k : ℕ) (x : State) → Inv k x → Inv (k + 1) (act k x)) where
  -- An invariant of the counter and the state that each round carries on holds at the end.
  pub for_range_inv :
      (rounds first last : ℕ) (x : State)
      → first + rounds ≡ last
      → Inv first x
      → Inv last (for_range rounds first act x)
  unfolding for_range
  for_range_inv zero first last x e now = subst (λ k. Inv k x) (omega (arith, e)) now
  for_range_inv (suc rounds) first last x e now =
      let later = kept first x now in
      for_range_inv rounds (first + 1) last (act first x) (omega (arith, e)) later

-- A loop that changes the entry of its counter, by a function of that entry, changes the entries of
-- the range each once, and no other.
pub for_range-update {ℓ} :
    {A : Type ℓ} (g : A → A) (n from : ℕ) (t : ℕ → A) (j : ℕ)
    → for_range n from (λ i s. update s i (g (s i))) t j
      ≡ (if leb from j && ltb j (from + n) then g (t j) else t j)
unfolding for_range
for_range-update g zero from t j = ground arith
for_range-update g (suc n) from t j =
    ground (arith, for_range-update g n (from + 1) (update t from (g (t from))) j)

pub update-update {ℓ} :
    {A : Type ℓ} (f : ℕ → A) (i : ℕ) (v w : A) → update (update f i v) i w ≡ update f i w
update-update f i v w = fun_ext λ j. ground arith

pub update_self {ℓ} : {A : Type ℓ} (f : ℕ → A) (i : ℕ) (v : A) → update f i v i ≡ v
update_self f i v = ground arith

pub update_ne {ℓ} : {A : Type ℓ} (f : ℕ → A) (i : ℕ) (v : A) (j : ℕ) → j ≢ i → update f i v j ≡ f j
update_ne f i v j h = ground arith
