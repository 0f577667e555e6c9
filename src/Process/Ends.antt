-- ===== src/Process/Ends.antt =====
-- The ends of the pipes between top mode and the phpspy that it reads from.
use phpspy.Prelude.{ℕ, ◌≡◌, ◌≢◌, refl, ◌==◌, if◌then◌else◌, none, some, arith}
use phpspy.Process.{File, reads, writes, Table, in_child, in_parent, execs, returns, fork_child}

-- `pipe` hands out descriptors that are not in use, while the streams 1 and 2 are.
pub record IsFresh (out err : ℕ × ℕ) (t : Table) : Type 0 where
  pub unused : (t out.0 ≡ none) × (t out.1 ≡ none) × (t err.0 ≡ none) × (t err.1 ≡ none)
  pub apart :
      (out.0 ≢ out.1)
      × (out.0 ≢ err.0)
      × (out.0 ≢ err.1)
      × (out.1 ≢ err.0)
      × (out.1 ≢ err.1)
      × (err.0 ≢ err.1)
  pub streams : (t 1 ≢ none) × (t 2 ≢ none)

-- The descriptors of a process: two streams, and all others as in `t`.
abbrev pub HasEnds : ℕ → ℕ → File → File → Table → Table → Type 0
HasEnds a b x y t u =
    (fd : ℕ) → u fd ≡ (if fd == a then some x else if fd == b then some y else t fd)

-- If `pipe` hands out descriptors that are not in use while the streams 1 and 2 are: the child starts
-- phpspy with the write ends of the pipes as its streams 1 and 2, and the parent keeps their read
-- ends. Neither has another end of a pipe, and all other descriptors are as before.
pub fork_child-HasEnds :
    (out err : ℕ × ℕ) (t : Table)
    → IsFresh out err t
    → ((u : Table) × (fork_child (in_child out err) t ≡ execs u)
        × HasEnds 1 2 (writes 0) (writes 1) t u)
      × ((u : Table) × (fork_child (in_parent out err) t ≡ returns 0 u)
          × HasEnds out.0 err.0 (reads 0) (reads 1) t u)
unfolding fork_child
fork_child-HasEnds out err t f = (
  (_, refl, λ fd. ground (arith, f.unused, f.apart, f.streams)),
  (_, refl, λ fd. ground (arith, f.unused, f.apart)),
)
