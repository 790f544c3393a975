-- ===== src/Log/Atomic.antt =====
-- A transaction is atomic, whatever the power does.
use hyeonseung_os.Base.{ℕ, ◌+◌, ◌*◌, ◌<◌, ◌≡◌, ◌⊎◌, inl, inr, List, [], ◌∷◌}
use hyeonseung_os.Log.{Block, Machine, commit, recover_from_log, restart}
use hyeonseung_os.Log.Disk.{Outside, Transaction, IsSound, IsRecoverable}
use hyeonseung_os.Log.Commit.{IsReady, commit-IsRecoverable}
use hyeonseung_os.Log.Recovery.{recover-IsRecoverable}

-- Restarts one after the other, each with the writes that reach the disk before the power fails.
pub restarts : ℕ → List ℕ → (ℕ → Block) → ℕ → Block
restarts start [] d = d
restarts start (budget ∷ bs) d = restarts start bs (recover_from_log (restart start d budget)).disk

restarts-IsRecoverable :
    (t : Transaction) (bs : List ℕ) (d : ℕ → Block)
    → IsSound t
    → IsRecoverable t d
    → IsRecoverable t (restarts t.start bs d)
unfolding restarts
restarts-IsRecoverable t [] d s r = r
restarts-IsRecoverable t (b ∷ bs) d s r =
    restarts-IsRecoverable t bs _ s (recover-IsRecoverable t b d s r).0

-- The power fails at any point of `commit`, then at any point of any number of recoveries; the first
-- recovery that gets its n + 1 writes leaves an empty log, and outside it either every block as before
-- the transaction or every block as the transaction wants it.
pub crash_atomic :
    (t : Transaction) (m : Machine) (bs : List ℕ) (last : ℕ)
    → IsSound t
    → IsReady t m
    → t.lh.n < last
    → let d = restarts t.start bs (commit m).disk in
      let d' = (recover_from_log (restart t.start d last)).disk in
      (d' t.start 0 ≡ 0)
      × (((x : ℕ) → Outside t.start t.size x → d' x ≡ t.before x)
          ⊎ ((x : ℕ) → Outside t.start t.size x → d' x ≡ t.after x))
crash_atomic t m bs last s r h =
    let kept = restarts-IsRecoverable t bs (commit m).disk s (commit-IsRecoverable t m s r).0 in
    elim ((recover-IsRecoverable t last _ s kept).1 h) [
      | inl o ↦ (o.head, inl o.homes)
      | inr f ↦ (f.head, inr f.homes)
    ]

-- A `commit` that gets its 2n + 2 writes installs the transaction: every block outside the log is as
-- wanted on the disk, and the log is empty.
pub commit_installs :
    (t : Transaction) (m : Machine)
    → IsSound t
    → IsReady t m
    → 2 * t.lh.n + 1 < m.budget
    → ((commit m).disk t.start 0 ≡ 0)
      × ((x : ℕ) → Outside t.start t.size x → (commit m).disk x ≡ t.after x)
commit_installs t m s r h = let d = (commit-IsRecoverable t m s r).1 h in (d.head, d.homes)
