-- ===== src/Tests/Tables.antt =====
-- The theorems on locations, the location table, names and configurations at concrete inputs.
use marble.Prelude.{
  ℕ, ◌*◌, ◌^◌, ◌≤◌, ◌<◌, max, true, false, not, ◌&&◌, none, some, List, [], ◌∷◌, ◌≡◌, ◌≢◌, ◌↔◌, ◌⊎◌,
  inl, inr, refl, arith, ok, err, panic, unsupported, ◌>>=◌, ◌==◌, leb, if◌then◌else◌, bit_and,
}
use marble.ConcurrentMap.{Entries}
use marble.Config.{default_partition_function, validate}
use marble.Config.Laws.{partition_mono, validate_cases}
use marble.DiskLocation
use marble.DiskLocation.{DiskLocation}
use marble.DiskLocation.Laws.{to_absolute-new, new_panics}
use marble.FileMap.{assign_lsn, new_write_batch_mask}
use marble.FileMap.Lsn.{mask-assign_lsn, assign_lsn-order}
use marble.LocationTable
use marble.LocationTable.Laws.{Updated, Unchanged, fetch_max_cases, cas_cases}
use marble.LocationTable.Races.{
  Install, greatest, results_over, install_all, install_all-greatest, batch_wins,
}
use marble.Metadata.{Metadata, parse, to_file_name}
use marble.Metadata.RoundTrip.{parse-to_file_name}
use marble.PageTable.{function_pages}
use marble.Recovery.Directory.{ends_with_tmp}
use marble.Recovery.Names.{ends_with_tmp-file_names}
use marble.RelativeDiskLocation
use marble.Stats.{free_object_ids, allocated_object_ids, is_none}
use marble.Stats.Ids.{elem, stored, free-allocated, deleted_is_allocated}
use marble.Tests.Setup.{crates, start, config}
use marble.World.{FileAndMetadata, World}
use marble.WritePath.Batch.{tmp_file_name}

abbrev at_word : ℕ → DiskLocation
at_word n = record { word = n }

-- The object 3 is at the word 10.
abbrev table : ℕ → ℕ
table k = if k == 3 then 10 else 0

to_absolute-new_example :
    (RelativeDiskLocation.new 5 true >>= λ r. RelativeDiskLocation.to_absolute r 10)
    ≡ ok (record { word = 31 })
to_absolute-new_example = to_absolute-new 5 10 true (omega arith) (omega arith)

new_panics_example : (DiskLocation.new 0 false ≡ panic) ↔ (((0 < 2 ^ 63) × (0 < 0 * 2)) → ⊥)
new_panics_example = new_panics 0 false (omega arith)

fetch_max_cases_example :
    ((10 < 12)
      × ((t' : ℕ → ℕ) × (LocationTable.fetch_max function_pages table 3 (at_word 12)
            ≡ ok (t', inl (LocationTable.load function_pages table 3)))
          × Updated function_pages table 3 12 t'))
    ⊎ ((12 < 10)
        × ((t' : ℕ → ℕ) × (LocationTable.fetch_max function_pages table 3 (at_word 12)
              ≡ ok (t', inr (LocationTable.load function_pages table 3)))
            × Unchanged function_pages table t'))
    ⊎ (◌≡◌ {A = ℕ} 10 12 × (LocationTable.fetch_max function_pages table 3 (at_word 12) ≡ panic))
fetch_max_cases_example = fetch_max_cases function_pages table 3 (at_word 12)

cas_cases_example :
    ((◌≡◌ {A = ℕ} 10 10)
      × ((t' : ℕ → ℕ) × (LocationTable.cas function_pages table 3 (at_word 10) (at_word 8)
            ≡ ok (t', inl tt))
          × Updated function_pages table 3 8 t'))
    ⊎ ((◌≢◌ {A = ℕ} 10 10)
        × ((current : DiskLocation) × (LocationTable.load function_pages table 3 ≡ some current)
            × (LocationTable.cas function_pages table 3 (at_word 10) (at_word 8)
                ≡ ok (table, inr current))))
    ⊎ ((◌≢◌ {A = ℕ} 10 10)
        × (LocationTable.load function_pages table 3 ≡ none)
        × (LocationTable.cas function_pages table 3 (at_word 10) (at_word 8) ≡ panic))
cas_cases_example = cas_cases function_pages table 3 (at_word 10) (at_word 8)

abbrev installs : List Install
installs = (3, at_word 14) ∷ (3, at_word 12) ∷ (4, at_word 2) ∷ []

install_all-greatest_example :
    (t' : ℕ → ℕ) × (install_all function_pages table installs
      ≡ ok (t', results_over table [] installs))
    × ((k : ℕ) → t' k ≡ max (table k) (greatest k installs))
install_all-greatest_example =
    install_all-greatest function_pages table installs (omega arith) (omega arith)

batch_wins_example :
    ((t1 t' : ℕ → ℕ) × (LocationTable.cas function_pages table 3 (at_word 10) (at_word 12)
        ≡ ok (t1, inl tt))
      × (LocationTable.fetch_max function_pages t1 3 (at_word 14)
          ≡ ok (t', inl (some (at_word 12))))
      × Updated function_pages table 3 14 t')
    × ((t' : ℕ → ℕ) × (LocationTable.fetch_max function_pages table 3 (at_word 14)
          ≡ ok (t', inl (some (at_word 10))))
        × (LocationTable.cas function_pages t' 3 (at_word 10) (at_word 12)
            ≡ ok (t', inr (at_word 14)))
        × Updated function_pages table 3 14 t')
batch_wins_example =
    batch_wins function_pages table 3 (at_word 10) (at_word 12) (at_word 14) refl (omega arith)
      (omega arith) (omega arith) (omega arith)

abbrev metadata : Metadata
metadata = record {
  lsn = 0x4000_0000_0000_00ff;
  trailer_offset = 300;
  present_objects = 3;
  generation = 2;
  file_size = 500;
}

parse-to_file_name_example : parse (to_file_name metadata) 500 ≡ some metadata
parse-to_file_name_example = parse-to_file_name metadata (omega arith)

ends_with_tmp-file_names_example :
    (ends_with_tmp (tmp_file_name 12) ≡ true) × (ends_with_tmp (to_file_name metadata) ≢ true)
ends_with_tmp-file_names_example = ends_with_tmp-file_names 12 metadata

mask-assign_lsn_example :
    (assign_lsn 77 false < 2 ^ 63) × (bit_and (assign_lsn 77 false) new_write_batch_mask ≡ 77)
mask-assign_lsn_example = mask-assign_lsn 77 false (omega arith)

assign_lsn-order_example :
    (assign_lsn 5 true < assign_lsn 9 true)
    × (assign_lsn 5 false < assign_lsn 9 false)
    × (assign_lsn 5 true < assign_lsn 9 false)
    × (assign_lsn 9 true < assign_lsn 5 false)
assign_lsn-order_example = assign_lsn-order 5 9 (omega arith) (omega arith)

abbrev state : World (ℕ → ℕ) (Entries FileAndMetadata)
state = record start { location_table = table; max_object_id = 4 }

free-allocated_example :
    (elem 3 (free_object_ids crates state).1
      ≡ (leb 3 4 && is_none (LocationTable.load function_pages table 3)))
    × (elem 3 (allocated_object_ids crates state)
        ≡ (leb 3 4 && not (elem 3 (free_object_ids crates state).1)))
free-allocated_example = free-allocated crates state 3

deleted_is_allocated_example :
    (l : DiskLocation) × (DiskLocation.new 9 true ≡ ok l)
    × (elem 4 (free_object_ids crates (stored crates state 4 l)).1 ≡ false)
    × (elem 4 (allocated_object_ids crates (stored crates state 4 l)) ≡ true)
deleted_is_allocated_example = deleted_is_allocated crates state 4 9 (omega arith) (omega arith)

validate_cases_example :
    ((validate config ≡ ok tt) × (0 < 100) × (66 < 100))
    ⊎ ((validate config ≡ err unsupported) × (◌≡◌ {A = ℕ} 100 0 ⊎ (100 ≤ 66)))
validate_cases_example = validate_cases config

partition_mono_example :
    (default_partition_function 1 100 ≤ default_partition_function 2 5000)
    × (default_partition_function 2 5000 < 4)
partition_mono_example = partition_mono 1 2 100 5000 (omega arith)
