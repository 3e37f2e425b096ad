-- ===== src/Tests/Runs.antt =====
-- Runs of the whole program.
use marble.Prelude.{ℕ, Option, none, some, [], ◌∷◌, Outcome}
use marble.Prelude.Bytes.{Bytes}
use marble.ConcurrentMap.{Entries}
use marble.Exec.{Exec, ◌>>=◌, ◌>>◌, pure}
use marble.Gc.{maintenance}
use marble.ReadPath.{read}
use marble.Recovery.Open.{open_config}
use marble.WritePath.Shards.{write_batch}
use marble.Tests.Setup.{crates, start, config}
use marble.World.{FileAndMetadata, World}

abbrev W : Type 0
W = World (ℕ → ℕ) (Entries FileAndMetadata)

run1 : Outcome (Option Bytes × Option Bytes × Option Bytes)
run1 = (prog start).0
  where
    prog : Exec W (Option Bytes × Option Bytes × Option Bytes)
    prog = do
      open_config crates config
      write_batch crates config ((3, some (7 ∷ 8 ∷ [])) ∷ (4, some []) ∷ (5, none) ∷ [])
      a ← read crates 3
      b ← read crates 4
      c ← read crates 5
      pure (a, b, c)

run2 : Outcome (ℕ × Option Bytes × Option Bytes × Option Bytes)
run2 = (prog start).0
  where
    prog : Exec W (ℕ × Option Bytes × Option Bytes × Option Bytes)
    prog = do
      open_config crates config
      write_batch crates config ((3, some (7 ∷ 8 ∷ [])) ∷ (4, some (1 ∷ [])) ∷ (5, none) ∷ [])
      write_batch crates config ((3, some (9 ∷ [])) ∷ (4, none) ∷ [])
      write_batch crates config ((6, some (9 ∷ [])) ∷ (4, none) ∷ [])
      n ← maintenance crates config
      open_config crates config
      a ← read crates 3
      b ← read crates 4
      c ← read crates 6
      pure (n, a, b, c)
