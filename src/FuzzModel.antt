-- ===== src/FuzzModel.antt =====
-- fuzz/fuzz_targets/fuzz_model.rs: the store beside a map, with every id of the map read back after each
-- operation. The drop of the store and the removal of the directory in the end are not modelled; an
-- `unwrap` of an error is a panic.
pub mod Agrees
pub mod Generate
pub mod Generated
use marble.Prelude.{
  ℕ, Bool, true, false, Option, none, some, List, [], ◌∷◌, Outcome, ok, err, panic, assert,
}
use marble.Prelude.Assoc.{Assoc}
use marble.Prelude.Bytes.{Bytes}
use marble.Config.{Config}
use marble.Exec.{Exec, ◌>>=◌, ◌>>◌, pure, lift}
use marble.FileMap
use marble.Gc
use marble.ReadPath
use marble.ReadPath.{same_bytes}
use marble.Recovery.Open
use marble.World.{Crates, World}
use marble.WritePath.Shards
use marble.WritePath.Shards.Atomic.{insert_all}

-- `WriteBatch` is a `HashMap<ObjectId, Option<&[u8]>>`.
pub data Op : Type 0 where
  write_batch : Assoc (Option Bytes) → Op
  gc : Op
  restart : Op

abbrev pub unwrap_err : {A : Type 0} → Outcome A → Outcome A
unwrap_err (ok a) = ok a
unwrap_err (err e) = panic
unwrap_err panic = panic

-- `.unwrap()` of what a method returned
abbrev pub unwrapped : {S A : Type 0} → Exec S A → Exec S A
unwrapped m s = let (r, s') = m s in (unwrap_err r, s')

unfoldable pub same_object : Option Bytes → Option Bytes → Bool
unfolding same_bytes
same_object none none = true
same_object (some a) (some b) = same_bytes a b
same_object _ _ = false

-- `for (k, v) in &write_batch.0 { model.insert(*k, v.clone()); }`; the other operations leave the model.
abbrev pub next_model : Op → Assoc (Option Bytes) → Assoc (Option Bytes)
next_model (write_batch batch) model = insert_all batch model
next_model gc model = model
next_model restart model = model

module _ {T M : Type 0} (crates : Crates T M) (config : Config) where
  -- `drop(marble)`: the files without live objects go.
  unfoldable pub drop_marble : Exec (World T M) (Unit {0})
  unfolding FileMap.drop_fams
  drop_marble w = FileMap.drop_fams crates (crates.maps.entries w.fams) w

  unfoldable pub run_op : Op → Exec (World T M) (Unit {0})
  unfolding Shards.write_batch Gc.maintenance Open.open_config drop_marble
  run_op (write_batch batch) = unwrapped (Shards.write_batch crates config batch)
  run_op gc = unwrapped (Gc.maintenance crates config) >>= λ count. pure tt
  run_op restart = drop_marble >> unwrapped (Open.open_config crates config)

  -- The loop over the model.
  unfoldable pub check_model : Assoc (Option Bytes) → Exec (World T M) (Unit {0})
  unfolding ReadPath.read same_object
  check_model [] = pure tt
  check_model ((pid, expected) ∷ rest) = do
    actual ← unwrapped (ReadPath.read crates pid)
    lift (assert (same_object expected actual))
    check_model rest

  -- The loop over the operations.
  unfoldable pub run_ops : List Op → Assoc (Option Bytes) → Exec (World T M) (Unit {0})
  unfolding run_op check_model
  run_ops [] model = pure tt
  run_ops (op ∷ ops) model = do
    run_op op
    check_model (next_model op model)
    run_ops ops (next_model op model)

  unfoldable pub fuzz_target : List Op → Exec (World T M) (Unit {0})
  unfolding run_ops
  fuzz_target ops = do unwrapped (Open.open_config crates config); run_ops ops []
