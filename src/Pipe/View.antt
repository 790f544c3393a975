-- ===== src/Pipe/View.antt =====
-- The queue that a pipe holds: the bytes between its two counters.
use hyeonseung_os.Base.{
  ℕ, zero, suc, ◌+◌, ◌%◌, ◌^◌, ◌≤◌, ◌<◌, ◌≡◌, ◌≢◌, refl, ap, ap₂, ◌∙◌, true, false, List, [], ◌∷◌,
  ◌++◌, arith, length, length-set, get_or, get_or-set_self, get_or-set_ne, set, add32, sub32,
}
use hyeonseung_os.Pipe.{Pipe, PipeState, is_full, is_empty, put, skip, front}
use hyeonseung_os.Pipe.Queue.{Queue}

abbrev pub count : Pipe → ℕ
count p = sub32 p.nwrite p.nread

pub record IsValid (p : Pipe) : Type 0 where
  pub page : length p.bytes ≡ 512
  pub nread_word : p.nread < 2 ^ 32
  pub nwrite_word : p.nwrite < 2 ^ 32
  pub fits : count p ≤ 512

-- The `n` bytes from counter `h` on, the counter going round at 2^32 and the index at PIPESIZE.
abbrev pub window : List ℕ → ℕ → ℕ → List ℕ
window d h zero = []
window d h (suc n) = get_or d (h % 512) 0 ∷ window d (add32 h 1) n

abbrev pub items : Pipe → List ℕ
items p = window p.bytes p.nread (count p)

abbrev pub view : PipeState → Queue
view s = record {
  items = items s.pipe;
  readopen = s.readopen;
  writeopen = s.writeopen;
  readers = s.readers;
  writers = s.writers;
}

length-window : (d : List ℕ) (h n : ℕ) → length (window d h n) ≡ n
length-window d h zero = refl
length-window d h (suc n) = ap suc (length-window d (add32 h 1) n)

slot_ne : (h k : ℕ) → h < 2 ^ 32 → suc k < 512 → (h + suc k) % 2 ^ 32 % 512 ≢ h % 512
slot_ne h k hh hk = omega arith

window-set :
    (d : List ℕ) (x n h i : ℕ)
    → length d ≡ 512
    → h < 2 ^ 32
    → n < 512
    → i ≡ (h + n) % 2 ^ 32 % 512
    → window (set d i x) h (suc n) ≡ window d h n ++ x ∷ []
window-set d x zero h i hd hh hn e =
    let e' : i ≡ h % 512 = omega arith in rw (e', get_or-set_self d (h % 512) x 0 (omega arith))
window-set d x (suc n) h i hd hh hn e =
    ap₂ ◌∷◌ (get_or-set_ne d x 0 (rw e (slot_ne h n hh hn)))
      (window-set d x n (add32 h 1) i hd (omega arith) (omega arith) (omega arith))

count-put : (p : Pipe) (b : ℕ) → IsValid p → is_full p ≡ false → count (put p b) ≡ suc (count p)
unfolding is_full put
count-put p b v f = ground arith

pub put-IsValid : (p : Pipe) (b : ℕ) → IsValid p → is_full p ≡ false → IsValid (put p b)
unfolding is_full put
put-IsValid p b v f = ground (arith, length-set p.bytes (p.nwrite % 512) b)

pub items-put :
    (p : Pipe) (b : ℕ) → IsValid p → is_full p ≡ false → items (put p b) ≡ items p ++ b ∷ []
unfolding is_full put
items-put p b v f =
    ap (window (put p b).bytes p.nread) (count-put p b v f)
    ∙ window-set p.bytes b (count p) p.nread (p.nwrite % 512) v.page (omega arith) (ground arith)
        (omega arith)

pub length-items : (p : Pipe) → length (items p) ≡ count p
length-items p = length-window p.bytes p.nread (count p)

pub full-count : (p : Pipe) → IsValid p → is_full p ≡ true → count p ≡ 512
unfolding is_full
full-count p v f = ground arith

pub open-count : (p : Pipe) → IsValid p → is_full p ≡ false → count p < 512
unfolding is_full
open-count p v f = ground arith

pub count-skip : (p : Pipe) → IsValid p → is_empty p ≡ false → count p ≡ suc (count (skip p))
unfolding is_empty skip
count-skip p v f = ground arith

pub skip-IsValid : (p : Pipe) → IsValid p → is_empty p ≡ false → IsValid (skip p)
unfolding is_empty skip
skip-IsValid p v f = ground arith

pub items-cons : (p : Pipe) → IsValid p → is_empty p ≡ false → items p ≡ front p ∷ items (skip p)
unfolding front skip
items-cons p v f = ap (window p.bytes p.nread) (count-skip p v f)

pub items-nil : (p : Pipe) → IsValid p → is_empty p ≡ true → items p ≡ []
unfolding is_empty
items-nil p v f = let none : count p ≡ 0 = ground arith in ap (window p.bytes p.nread) none
