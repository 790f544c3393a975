-- ===== src/Log/Recovery.antt =====
-- `recover_from_log` after a restart, whenever the power fails again.
use hyeonseung_os.Base.{
  ℕ, ◌+◌, ◌<◌, ◌≡◌, ◌≢◌, ◌⊎◌, inl, inr, refl, ap, ◌∙◌, arith, ◌==◌, update_self, update_ne,
  for_range, Bool-cases,
}
use hyeonseung_os.Log.{
  Block, LogHeader, head_block, install_trans, write_head, read_head, recover_from_log, restart,
}
use hyeonseung_os.Log.Disk.{
  Transaction, IsSound, IsOld, IsLogged, IsDone, IsRecoverable, old, logged, finished,
  head_block-count,
}
use hyeonseung_os.Log.Install.{install_trans-Installing, erase-IsRecoverable}

-- Recovery from a disk whose log is empty changes no block outside the log.
pub recover-empty :
    (start budget : ℕ) (d : ℕ → Block)
    → d start 0 ≡ 0
    → let d' = (recover_from_log (restart start d budget)).disk in
      (d' start 0 ≡ 0) × ((x : ℕ) → x ≢ start → d' x ≡ d x)
unfolding recover_from_log restart read_head install_trans write_head for_range
recover-empty start budget d e =
    rw (e, for_range)
      (elim (Bool-cases (budget == 0)) [
        | inl z ↦ rw z (e, λ x ne. refl)
        | inr z ↦ rw z (
          ap (λ (f : Block). f 0) (update_self d start (head_block cleared (d start)))
              ∙ head_block-count cleared (d start),
          λ x ne. update_ne d start (head_block cleared (d start)) x ne,
        )
      ])
  where
    cleared : LogHeader
    cleared = record { n = 0; block = λ i. d start (i + 1) }

recover-logged :
    (t : Transaction) (budget : ℕ) (d : ℕ → Block)
    → IsSound t
    → IsLogged t d
    → let d' = (recover_from_log (restart t.start d budget)).disk in
      IsRecoverable t d' × (t.lh.n < budget → IsDone t d')
unfolding recover_from_log restart read_head
recover-logged t budget d s l = erase-IsRecoverable t budget _ s (
    install_trans-Installing t budget _ s (record {
      holds = record { start = refl; count = l.head; blocks = l.blocks; slots = l.slots };
      left = omega arith;
      disk = inr (l, inr (λ j hj. absurd (omega arith)));
    }))

-- Recovery from a disk that can be recovered, whenever the power fails, leaves one again; and if it
-- does not fail within the n + 1 writes that n blocks take, the log is empty, and the blocks outside it
-- are all as before the transaction or all as wanted.
pub recover-IsRecoverable :
    (t : Transaction) (budget : ℕ) (d : ℕ → Block)
    → IsSound t
    → IsRecoverable t d
    → let d' = (recover_from_log (restart t.start d budget)).disk in
      IsRecoverable t d' × (t.lh.n < budget → IsOld t d' ⊎ IsDone t d')
recover-IsRecoverable t budget d s (old o) =
    let (z, same) = recover-empty t.start budget d o.head in
    let o' : IsOld t (recover_from_log (restart t.start d budget)).disk = record {
      head = z;
      homes = λ x out. same x (omega (arith, s.fits)) ∙ o.homes x out;
    } in
    (old o', λ _. inl o')
recover-IsRecoverable t budget d s (logged l) =
    let (a, b) = recover-logged t budget d s l in (a, λ h. inr (b h))
recover-IsRecoverable t budget d s (finished f) =
    let (z, same) = recover-empty t.start budget d f.head in
    let f' : IsDone t (recover_from_log (restart t.start d budget)).disk = record {
      head = z;
      homes = λ x out. same x (omega (arith, s.fits)) ∙ f.homes x out;
    } in
    (finished f', λ _. inr f')
