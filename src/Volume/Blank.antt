-- ===== src/Volume/Blank.antt =====
-- A small volume whose files are all empty, for the tests.
use hyeonseung_os.Base.{ℕ, ◌≡◌, refl, arith, ltb}
use hyeonseung_os.Volume.{Volume}
use hyeonseung_os.Volume.Pointers.{Pointer, root, child, at}
use hyeonseung_os.Volume.Partition.{IsPartitioned}

-- Blocks 0 to 31 are the system's, and every file is empty.
abbrev pub blank : ℕ → ℕ → Volume
blank kind nlink = record {
  limit = 64;
  used = λ b. ltb b 32;
  bytes = λ b k. 0;
  inodes =
      λ n. record { kind = kind; major = 0; minor = 0; nlink = nlink; size = 0; addrs = λ i. 0 };
}

at-blank : (kind nlink : ℕ) (p : Pointer) → at (blank kind nlink) p ≡ 0
unfolding at
at-blank kind nlink (root n i) = refl
at-blank kind nlink (child p i) = rw (at-blank kind nlink p) refl

pub blank-IsPartitioned : (kind nlink : ℕ) → IsPartitioned (blank kind nlink)
blank-IsPartitioned kind nlink = record {
  boot = refl;
  small = omega arith;
  marked = λ p h nz. absurd (nz (at-blank kind nlink p));
  apart = λ p q hp hq nz e. absurd (nz (at-blank kind nlink p));
}
