-- ===== src/Memory/Tests.antt =====
-- Runs of the memory routines, and their theorems at concrete inputs.
use hyeonseung_os.Base.{ℕ, ◌-◌, ◌%◌, ◌≡◌, inr, refl, arith, List, [], ◌∷◌}
use hyeonseung_os.Memory.{Bytes, memmove, strncmp, safestrcpy, strncpy}
use hyeonseung_os.Memory.Move.{moved, memmove-moved}
use hyeonseung_os.Memory.Compare.{IsCopied, safestrcpy-IsCopied}

-- The string 3 2 1, and zeros.
abbrev countdown : Bytes
countdown i = 3 - i

abbrev eight : Bytes → List ℕ
eight m = m 0 ∷ m 1 ∷ m 2 ∷ m 3 ∷ m 4 ∷ m 5 ∷ m 6 ∷ m 7 ∷ []

moves_up : eight (memmove 1 0 4 countdown) ≡ 3 ∷ 3 ∷ 2 ∷ 1 ∷ 0 ∷ 0 ∷ 0 ∷ 0 ∷ []
unfolding memmove
moves_up = refl

cuts_off : eight (safestrcpy 4 0 3 countdown) ≡ 3 ∷ 2 ∷ 1 ∷ 0 ∷ 3 ∷ 2 ∷ 0 ∷ 0 ∷ []
unfolding safestrcpy
cuts_off = refl

-- `strncpy` puts no NUL after a string that is cut.
no_end : eight (strncpy 5 0 2 (λ i. 9 - i)) ≡ 9 ∷ 8 ∷ 7 ∷ 6 ∷ 5 ∷ 9 ∷ 8 ∷ 2 ∷ []
unfolding strncpy
no_end = refl

orders : strncmp 0 1 4 countdown ≡ 1
unfolding strncmp
orders = refl

memmove-moved_example : memmove 1 0 4 countdown 3 ≡ moved 1 0 4 countdown 3
memmove-moved_example = memmove-moved 1 0 4 countdown 3

abbrev stripes : Bytes
stripes i = i % 2

safestrcpy-IsCopied_example : IsCopied 4 0 3 countdown (safestrcpy 4 0 3 countdown)
safestrcpy-IsCopied_example =
    safestrcpy-IsCopied 4 0 3 countdown (ground arith) (inr (ground arith))
