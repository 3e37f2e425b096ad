-- ===== src/Store/Moved.antt =====
-- What the table and the files show of each object after a user's batch.
use marble.Prelude.{◌-◌, ℕ, ◌≤◌, ◌<◌, ◌≡◌, refl, ◌∙◌, arith, Option, some, [], ◌∷◌, le→leb}
use marble.Prelude.Assoc.{Assoc}
use marble.Prelude.Bytes.{Bytes}
use marble.DiskLocation.{DiskLocation}
use marble.FileMap.Decrement.{decremented_all}
use marble.FileMap.Homes.{Fams, keys, core_from, core_from-adjusted, decremented}
use marble.FileMap.Moves.OneId.{home-older}
use marble.Store.{Shows, absent, deleted, stored}
use marble.World.{FileAndMetadata, Crates}

pub core_from-decremented_all :
    (word : ℕ) (olds : Assoc DiskLocation) (es : Fams)
    → core_from word (decremented_all olds es) ≡ core_from word es
unfolding decremented_all
core_from-decremented_all word [] es = refl
core_from-decremented_all word ((id, old) ∷ olds) es =
    core_from-decremented_all word olds (decremented old.word es)
    ∙ core_from-adjusted (λ n. n - 1) word old.word es

core_from-older :
    (word : ℕ) (l : DiskLocation) (fam : FileAndMetadata) (es : Fams)
    → word < l.word
    → core_from word ((l, fam) ∷ es) ≡ core_from word es
unfolding core_from
core_from-older word l fam es h = ground arith

pub core_from-latest :
    (word : ℕ) (l : DiskLocation) (fam : FileAndMetadata) (es : Fams)
    → l.word ≤ word
    → core_from word ((l, fam) ∷ es) ≡ some (fam.file, fam.location, fam.zstd_dict)
unfolding core_from
core_from-latest word l fam es h = rw (le→leb l.word word h) refl

module _ {T M : Type 0} (crates : Crates T M) where
  open crates use {crc, zstd}

  -- The object of an id whose word is older than the new file is still there.
  pub Shows-older :
      (contents contents' : ℕ → Bytes) (es : Fams) (limit limit' id word : ℕ)
      (object : Option Bytes) (l : DiskLocation) (fam : FileAndMetadata) (olds : Assoc DiskLocation)
      → keys (decremented_all olds es) ≡ keys es
      → limit ≤ limit'
      → ((i : ℕ) → i < limit → contents' i ≡ contents i)
      → word < l.word
      → Shows crates contents es limit id word object
      → Shows crates contents' ((l, fam) ∷ decremented_all olds es) limit' id word object
  Shows-older contents contents' es limit limit' id word object l fam olds ke grows same older
        (absent zero_word none_there) =
      absent zero_word none_there
  Shows-older contents contents' es limit limit' id word object l fam olds ke grows same older
        (deleted lsn at falls none_there) =
      deleted lsn at (rw (home-older l.word word (keys (decremented_all olds es)) older, ke) falls)
        none_there
  Shows-older contents contents' es limit limit' id word object l fam olds ke grows same older
        (stored file base location dict front output raw back core falls below based at holds fits
          dec there) =
      stored file base location dict front output raw back
        (core_from-older word l fam (decremented_all olds es) older
          ∙ core_from-decremented_all word olds es
          ∙ core)
        (rw (home-older l.word word (keys (decremented_all olds es)) older, ke) falls)
        (omega (arith, below, grows)) based at (same file below ∙ holds) fits dec there
