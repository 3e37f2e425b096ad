-- ===== src/Tests/Files.antt =====
-- The theorems on files and batches at concrete inputs.
use marble.Prelude.{
  ℕ, ◌*◌, ◌/◌, ◌^◌, ◌≤◌, ◌<◌, true, none, some, [], ◌∷◌, ◌++◌, ◌≡◌, ◌⊎◌, refl, arith, length, ok,
  err, invalid_data,
}
use marble.Prelude.Assoc.{lookup, Distinct}
use marble.Prelude.Bytes.{Bytes, to_le_bytes}
use marble.ConcurrentMap.{Entries}
use marble.Crc32.{sum_crc}
use marble.Gc.Collect.{collect_object, nothing_collected}
use marble.Gc.Collect.Live.{collect_object-too_large}
use marble.ObjectRecord.{record_bytes}
use marble.ReadPath.{read_object}
use marble.ReadPath.Stored.{after_read, read_object-record_bytes}
use marble.Tests.Setup.{crates, start, config, plain_zstd}
use marble.Trailer.{Locations, trailer_bytes, read_trailer_from_buf}
use marble.Trailer.RoundTrip.{stored_dict, read_trailer-trailer_bytes}
use marble.World.{FileAndMetadata, World}
use marble.WritePath.Layout.{file_bytes, Writable}
use marble.WritePath.Objects.{Written, nothing_written, output_object, write_objects}
use marble.WritePath.Readable.{write_objects-read_object}
use marble.WritePath.Shards.{Objects, add_objects, batches, no_shards}
use marble.WritePath.Shards.Atomic.{last_of, batches-write_batch}
use marble.Zstd
use marble.Zstd.{samples_iter, sizes, join, from_samples}
use marble.Zstd.Samples.{trained, buffer_size, from_samples_cases}

abbrev locations : Locations
locations = (3, record { word = 0 }) ∷ (5, record { word = 1 }) ∷ []

read_trailer-trailer_bytes_example :
    read_trailer_from_buf sum_crc (trailer_bytes sum_crc locations (some (9 ∷ [])))
    ≡ ok (locations, stored_dict (some (9 ∷ [])))
read_trailer-trailer_bytes_example =
    read_trailer-trailer_bytes sum_crc locations (some (9 ∷ [])) (omega arith) (omega arith)

abbrev fam : FileAndMetadata
fam = record {
  file = 0;
  location = record { word = 2 };
  path = none;
  metadata = none;
  live_objects = 1;
  generation = 0;
  rewrite_claim = true;
  synced = true;
  zstd_dict = none;
}

abbrev W : Type 0
W = World (ℕ → ℕ) (Entries FileAndMetadata)

-- One file, with the object 3 behind a byte.
abbrev one_file : W
one_file = record start {
  disk = record start.disk {
    contents = λ i. (0 ∷ []) ++ (record_bytes sum_crc 3 (7 ∷ 8 ∷ []) ++ (1 ∷ []));
  };
}

plain : Zstd.decompress plain_zstd none (7 ∷ 8 ∷ []) ≡ ok (7 ∷ 8 ∷ [])
unfolding Zstd.decompress
plain = refl

read_object-record_bytes_example : read_object crates 3 fam 1 one_file ≡ (
  ok (7 ∷ 8 ∷ []),
  after_read crates 3 fam one_file (0 ∷ []) (7 ∷ 8 ∷ []) (7 ∷ 8 ∷ []) (1 ∷ []),
)
read_object-record_bytes_example =
    read_object-record_bytes crates 3 fam one_file (0 ∷ []) (7 ∷ 8 ∷ []) (7 ∷ 8 ∷ []) (1 ∷ []) refl
      refl plain (omega arith) (omega arith) (omega arith)

abbrev objects : Objects
objects = (4, none) ∷ (3, some (7 ∷ 8 ∷ [])) ∷ (6, some []) ∷ []

abbrev same : Bytes → Bytes
same bytes = bytes

writable : Writable crates config none 0 same objects
unfolding output_object
writable = (omega arith, refl, (omega arith, refl, tt))

short : length (file_bytes sum_crc same objects) < 2 ^ 63
unfolding file_bytes record_bytes to_le_bytes
short = omega arith

found : lookup 3 objects ≡ some (some (7 ∷ 8 ∷ []))
unfolding lookup
found = refl

write_objects-read_object_example :
    (written : Written) × (w' : W) × (offset : ℕ) × (write_objects crates config none 0 objects
        nothing_written start
      ≡ (ok written, w'))
    × (lookup 3 written.new_relative_locations ≡ some (record { word = offset * 2 }))
    × ((read_object crates 3 fam offset w').0 ≡ ok (7 ∷ 8 ∷ []))
write_objects-read_object_example =
    write_objects-read_object crates config none same fam start objects 3 (7 ∷ 8 ∷ []) refl refl
      writable (omega arith) short found (omega arith) plain

batches-write_batch_example :
    (batch : Objects) × (batches
        (add_objects config 0 [] ((3, none) ∷ (3, some []) ∷ []) no_shards).shards
        (add_objects config 0 [] ((3, none) ∷ (3, some []) ∷ []) no_shards).fragmented_shards
      ≡ batch ∷ [])
    × Distinct batch
    × ((k : ℕ) → lookup k batch ≡ last_of k ((3, none) ∷ (3, some []) ∷ []) none)
batches-write_batch_example = batches-write_batch config [] 3 none ((3, some []) ∷ [])

abbrev largest : Bytes
largest = 7 ∷ 8 ∷ []

collect_object-too_large_example :
    collect_object crates
      (record config { max_object_size = 2 })
      (λ k. 2)
      fam
      none
      ([] ++ (record_bytes sum_crc 3 largest ++ []))
      0
      nothing_collected
    ≡ err invalid_data
collect_object-too_large_example =
    collect_object-too_large crates (record config { max_object_size = 2 }) (λ k. 2) fam none 3
      ([] ++ (record_bytes sum_crc 3 largest ++ [])) [] largest [] nothing_collected refl
      (omega arith) (omega arith)

from_samples_cases_example :
    ((from_samples plain_zstd objects ≡ ok none)
      × ((length (samples_iter objects) < 8)
          ⊎ (length (join (samples_iter objects)) / length (samples_iter objects) ≤ 8)))
    ⊎ ((from_samples plain_zstd objects
          ≡ ok (
              trained (
                plain_zstd.train
                  (buffer_size (length (join (samples_iter objects))))
                  (join (samples_iter objects))
                  (sizes (samples_iter objects)))))
        × (8 ≤ length (samples_iter objects))
        × (8 < length (join (samples_iter objects)) / length (samples_iter objects)))
from_samples_cases_example = from_samples_cases plain_zstd objects
