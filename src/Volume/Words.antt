-- ===== src/Volume/Words.antt =====
-- A `uint` that is stored in a block is read back, and no other one changes.
use hyeonseung_os.Base.{ℕ, refl, ◌+◌, ◌*◌, ◌/◌, ◌%◌, ◌^◌, ◌<◌, ◌≡◌, ◌≢◌, arith, ◌==◌, if◌then◌else◌}
use hyeonseung_os.Volume.{Block, word, byte_of, set_word}

set_word_at :
    (b : Block) (i j r w k : ℕ)
    → r < 4
    → k ≡ 4 * j + r
    → set_word b i w k ≡ (if j == i then byte_of w r else b k)
unfolding set_word
set_word_at b i j r w k h e =
    let q : k / 4 ≡ j = omega arith in let m : k % 4 ≡ r = omega arith in rw (q, m) refl

digits :
    (w : ℕ)
    → w < 2 ^ 32
    → byte_of w 0 + 256 * byte_of w 1 + 65_536 * byte_of w 2 + 16_777_216 * byte_of w 3 ≡ w
unfolding byte_of
digits w h = omega arith

-- The four bytes of an entry after a store.
entry_at :
    (b : Block) (i j w : ℕ)
    → word (set_word b i w) j ≡ (
        if j == i
        then byte_of w 0 + 256 * byte_of w 1 + 65_536 * byte_of w 2 + 16_777_216 * byte_of w 3
        else word b j)
unfolding word
entry_at b i j w = ground (
  arith,
  set_word_at b i j 0 w (4 * j) (omega arith) (omega arith),
  set_word_at b i j 1 w (4 * j + 1) (omega arith) (omega arith),
  set_word_at b i j 2 w (4 * j + 2) (omega arith) (omega arith),
  set_word_at b i j 3 w (4 * j + 3) (omega arith) (omega arith),
)

pub word-set_word_self : (b : Block) (i w : ℕ) → w < 2 ^ 32 → word (set_word b i w) i ≡ w
word-set_word_self b i w h = ground (arith, entry_at b i i w, digits w h)

pub word-set_word_ne : (b : Block) (i j w : ℕ) → j ≢ i → word (set_word b i w) j ≡ word b j
word-set_word_ne b i j w h = ground (arith, entry_at b i j w)

pub word-zeros : (i : ℕ) → word (λ k. 0) i ≡ 0
unfolding word
word-zeros i = omega arith
