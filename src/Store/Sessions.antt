-- ===== src/Store/Sessions.antt =====
-- A store over many processes: batches (src/writepath.rs), and processes that are killed between them,
-- after each of which `Config::open` (src/recovery.rs) makes the state again from the disk.
use marble.Prelude.{
  ℕ, ◌+◌, ◌*◌, ◌^◌, ◌≤◌, ◌<◌, ◌≡◌, refl, arith, Option, none, List, [], ◌∷◌, All, length, ok,
}
use marble.Prelude.Bytes.{Bytes}
use marble.Config.{Config, validate}
use marble.Disk.Calm.{IsCalm}
use marble.Exec.{Exec, ◌>>◌, pure, modify}
use marble.Recovery.Open.{open_config}
use marble.Store.{Objects, IsStore}
use marble.Store.Batches.{objects_size, IsAccepted}
use marble.Store.Durable.{LogFile, log_word, IsDurable}
use marble.Store.Durable.Restart.{open_config-IsStore}
use marble.Store.Empty.{no_objects, new_store, open_config-empty, new_store-IsStore}
use marble.Store.Promise.{after_batch, write_batch-IsDurable}
use marble.World.{Crates, World}
use marble.WritePath.Shards.{write_batch}

-- What happens to a store: a batch, or the end of its process with nothing dropped, and a new process.
pub data Event : Type 0 where
  batch_written : List (ℕ × Option Bytes) → Event
  process_killed : Event

abbrev pub after_event : Event → Objects → Objects
after_event (batch_written batch) objects = after_batch batch objects
after_event process_killed objects = objects

-- The map after the events: each batch in turn, and nothing else.
abbrev pub after_events : List Event → Objects → Objects
after_events [] objects = objects
after_events (event ∷ events) objects = after_events events (after_event event objects)

module _ {T M : Type 0} (crates : Crates T M) (config : Config) where
  open crates use {pages, maps}

  -- A new process opens the store, with the counter of temporary names at its start.
  unfoldable pub new_process : Exec (World T M) (Unit {0})
  unfolding open_config
  new_process = modify (λ w. record w { tmp_counter = 0 }) >> open_config crates config

  unfoldable pub play : List Event → Exec (World T M) (Unit {0})
  unfolding new_process write_batch
  play [] = pure tt
  play (batch_written batch ∷ events) = write_batch crates config batch >> play events
  play (process_killed ∷ events) = new_process >> play events

module _ {T M : Type 0} (crates : Crates T M) (config : Config) (most : ℕ) where
  open crates use {pages, maps}

  -- A batch that the store accepts, in a file of at most `most` bytes, or the end of a process.
  abbrev pub IsPlayable : Event → Type 0
  IsPlayable (batch_written batch) =
      All (λ (p : ℕ × Option Bytes). p.0 < 2 ^ 64) batch
      × All (IsAccepted config) batch
      × (objects_size batch + (20 + length batch * 16) ≤ most)
  IsPlayable process_killed = Unit

  -- What holds between two of `n` events.
  record IsRunning (n : ℕ) (objects : Objects) (fs : List LogFile) (w : World T M) : Type 0 where
    pub store : IsStore crates objects w
    pub durable : IsDurable crates most fs w
    pub room : w.next_file_lsn + n * (most + 1) < 2 ^ 62
    pub counter : w.tmp_counter + n < 2 ^ 64

  play-running :
      (events : List Event) (objects : Objects) (fs : List LogFile) (w : World T M)
      → config.zstd_compression_level ≡ none
      → validate config ≡ ok tt
      → All IsPlayable events
      → IsRunning (length events) objects fs w
      → (w' : World T M) × (fs' : List LogFile) × (play crates config events w ≡ (ok tt, w'))
        × IsStore crates (after_events events objects) w'
        × IsDurable crates most fs' w'
  unfolding play new_process
  play-running [] objects fs w plain valid fits r = (w, fs, refl, r.store, r.durable)
  play-running (batch_written batch ∷ events) objects fs w plain valid ((ids, accepted, fit), fits)
        r =
      let (w1, fs1, e1, s, d, further) =
        write_batch-IsDurable crates config most fs objects batch w plain r.store r.durable ids
          accepted (omega (arith, r.room)) fit (omega (arith, r.room, fit))
          (omega (arith, r.counter)) in
      let (w2, fs2, e2, s2, d2) =
        play-running events (after_batch batch objects) fs1 w1 plain valid fits (record {
          store = s;
          durable = d;
          room = omega (arith, r.room, further.0, fit);
          counter = omega (arith, r.counter, further.1);
        }) in
      (w2, fs2, rw (e1, e2) refl, s2, d2)
  play-running (process_killed ∷ events) objects fs w plain valid (fit, fits) r =
      let (w1, e1, s, d, next, counter) =
        open_config-IsStore crates config objects most fs w r.store r.durable 0 valid
          (omega (arith, r.room)) (omega (arith, r.room)) in
      let (w2, fs2, e2, s2, d2) = play-running events objects fs w1 plain valid fits (record {
        store = s;
        durable = d;
        room = omega (arith, r.room, next);
        counter = omega (arith, r.counter, counter);
      }) in
      (w2, fs2, rw (e1, e2) refl, s2, d2)

  pub new_store-IsDurable :
      (w : World T M) → w.disk.names ≡ [] → IsDurable crates most [] (new_store crates w)
  unfolding log_word
  new_store-IsDurable w empty = record {
    log = omega arith;
    names = empty;
    keys = rw maps.entries-empty refl;
    cores = λ word. rw maps.entries-empty refl;
    words = λ k. pages.get-empty k;
  }

  -- A store that is opened in an empty directory, and then gets any sequence of batches, while its
  -- process is killed between batches any number of times, holds in the end the map that the batches
  -- alone make, in a state that agrees with the files of its log; all calls return without an error. The
  -- conditions: no call of the system fails, the configuration is valid and compresses nothing, every
  -- object of the batches is accepted and every id fits a word, the file of each batch has at most `most`
  -- bytes, and `most + 1` bytes for each event stay below 2 ^ 62. A process is not killed within a batch, and
  -- its store is not dropped.
  pub play-IsStore :
      (events : List Event) (w : World T M)
      → config.zstd_compression_level ≡ none
      → validate config ≡ ok tt
      → IsCalm w.disk
      → w.disk.names ≡ []
      → All IsPlayable events
      → 1 + length events * (most + 1) < 2 ^ 62
      → (w' : World T M) × (fs : List LogFile) × (play crates config (process_killed ∷ events) w
          ≡ (ok tt, w'))
        × IsStore crates (after_events events no_objects) w'
        × IsDurable crates most fs w'
  unfolding play new_process
  play-IsStore events w plain valid calm empty fits room =
      let w0 = record w { tmp_counter = 0 } in
      let opens = open_config-empty crates config w0 valid calm empty in
      let (w', fs, e, s, d) =
        play-running events no_objects [] (new_store crates w0) plain valid fits (record {
          store = new_store-IsStore crates w0 calm empty;
          durable = new_store-IsDurable w0 empty;
          room = room;
          counter = omega (arith, room);
        }) in
      (w', fs, rw (opens, e) refl, s, d)
