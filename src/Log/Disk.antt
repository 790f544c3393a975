-- ===== src/Log/Disk.antt =====
-- The states of the disk that the log can recover from.
use hyeonseung_os.Base.{
  ℕ, ◌+◌, ◌≤◌, ◌<◌, ◌≡◌, ◌≢◌, ◌⊎◌, ◌∙◌, arith, update, update_self, update_ne, for_range_inv,
  ℕ_discrete,
}
use hyeonseung_os.Log.{Block, LogHeader, head_block}

-- Block `x` lies outside the log, which has `size` blocks from `start` on.
abbrev pub Outside : ℕ → ℕ → ℕ → Type 0
Outside start size x = (x < start) ⊎ (start + size ≤ x)

-- What a transaction is about: the contents of the disk before it, the contents that it wants, and the
-- numbers of the blocks in the log.
pub record Transaction : Type 0 where
  pub start : ℕ
  pub size : ℕ
  pub lh : LogHeader
  pub before : ℕ → Block
  pub after : ℕ → Block

-- The blocks fit in the log, their homes lie outside it, and no other block outside it is changed.
pub record IsSound (t : Transaction) : Type 0 where
  pub fits : t.lh.n < t.size
  pub homes : (j : ℕ) → j < t.lh.n → Outside t.start t.size (t.lh.block j)
  pub others :
      (x : ℕ)
      → Outside t.start t.size x
      → ((j : ℕ) → j < t.lh.n → t.lh.block j ≢ x)
      → t.after x ≡ t.before x

-- The log is empty and the homes are as before.
pub record IsOld (t : Transaction) (d : ℕ → Block) : Type 0 where
  pub head : d t.start 0 ≡ 0
  pub homes : (x : ℕ) → Outside t.start t.size x → d x ≡ t.before x

-- The log holds the transaction, and a home is as wanted, or will be once its block is installed.
pub record IsLogged (t : Transaction) (d : ℕ → Block) : Type 0 where
  pub head : d t.start 0 ≡ t.lh.n
  pub blocks : (j : ℕ) → j < t.lh.n → d t.start (j + 1) ≡ t.lh.block j
  pub slots : (j : ℕ) → j < t.lh.n → d (t.start + j + 1) ≡ t.after (t.lh.block j)
  pub homes :
      (x : ℕ)
      → Outside t.start t.size x
      → (d x ≡ t.after x) ⊎ ((j : ℕ) × (j < t.lh.n) × (t.lh.block j ≡ x))

-- The log is empty and the homes are as wanted.
pub record IsDone (t : Transaction) (d : ℕ → Block) : Type 0 where
  pub head : d t.start 0 ≡ 0
  pub homes : (x : ℕ) → Outside t.start t.size x → d x ≡ t.after x

pub data IsRecoverable (t : Transaction) (d : ℕ → Block) : Type 0 where
  old : IsOld t d → IsRecoverable t d
  logged : IsLogged t d → IsRecoverable t d
  finished : IsDone t d → IsRecoverable t d

-- The words of a header block that has been written.
record Headed (lh : LogHeader) (i : ℕ) (b : Block) : Type 0 where
  count : b 0 ≡ lh.n
  entry : (j : ℕ) → j < i → b (j + 1) ≡ lh.block j

head_block-Headed : (lh : LogHeader) (stored : Block) → Headed lh lh.n (head_block lh stored)
unfolding head_block
head_block-Headed lh stored =
    for_range_inv (Headed lh) (λ i b. update b (i + 1) (lh.block i)) keep lh.n 0 lh.n
      (update stored 0 lh.n) (omega arith)
      (record { count = update_self stored 0 lh.n; entry = λ j h. absurd (omega arith) })
  where
    keep : (i : ℕ) (b : Block) → Headed lh i b → Headed lh (i + 1) (update b (i + 1) (lh.block i))
    keep i b h = record {
      count = update_ne b (i + 1) (lh.block i) 0 (omega arith) ∙ h.count;
      entry = λ j hj. elim (ℕ_discrete j i) [
        | yes e ↦ rw e (update_self b (i + 1) (lh.block i))
        | no ne ↦ update_ne b (i + 1) (lh.block i) (j + 1) (omega arith) ∙ h.entry j (omega arith)
      ];
    }

pub head_block-count : (lh : LogHeader) (stored : Block) → head_block lh stored 0 ≡ lh.n
head_block-count lh stored = (head_block-Headed lh stored).count

pub head_block-entry :
    (lh : LogHeader) (stored : Block) (j : ℕ) → j < lh.n → head_block lh stored (j + 1) ≡ lh.block j
head_block-entry lh stored = (head_block-Headed lh stored).entry
