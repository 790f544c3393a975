-- ===== src/Locks/Tests.antt =====
-- Runs of the lock, and its theorem at a concrete interleaving.
use hyeonseung_os.Base.{ℕ, ◌≡◌, refl, Bool, true, false, List, [], ◌∷◌, Option, some, ◌>>=◌}
use hyeonseung_os.Locks.{Spinlocks, Phase, outside, spinning, inside, pushcli, popcli, run}
use hyeonseung_os.Locks.Exclusion.{IsIdle, run_excludes}

abbrev idle : Spinlocks
idle = record {
  locked = false;
  holder = 0;
  phase = λ i. outside;
  cpus = λ i. record { ncli = 0; intena = false; interrupts = true };
}

idle-IsIdle : IsIdle (λ i. true) idle
idle-IsIdle = record { unlocked = refl; nobody = refl; away = λ i. refl; cpus = λ i. (refl, refl) }

-- CPU 1 takes the lock while CPU 2 spins.
abbrev race : List ℕ
race = 1 ∷ 2 ∷ 1 ∷ 2 ∷ 1 ∷ 2 ∷ []

abbrev seen : Option Spinlocks → Option (Phase × Phase × Bool)
seen r = do s ← r; some (s.phase 1, s.phase 2, (s.cpus 2).interrupts)

second_spins : seen (run race idle) ≡ some (inside, spinning, false)
unfolding run
second_spins = refl

-- Two `popcli` undo two `pushcli`.
nests : (popcli (pushcli (pushcli (idle.cpus 0))) >>= popcli >>= λ c. some c.interrupts) ≡ some true
unfolding pushcli popcli
nests = refl

run_excludes_example :
    (s : Spinlocks) × (run race idle ≡ some s)
    × ((i j : ℕ) → s.phase i ≡ inside → s.phase j ≡ inside → i ≡ j)
    × ((i : ℕ) → s.phase i ≡ outside → (s.cpus i).interrupts ≡ true)
run_excludes_example = run_excludes (λ i. true) race idle idle-IsIdle
