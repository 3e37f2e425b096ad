-- ===== src/Tests/Caches.antt =====
-- The theorems on contexts of threads and on the history of locations, at concrete inputs.
use marble.Prelude.{◌≡◌, refl, arith, some, [], ◌∷◌, ok, panic, length}
use marble.Prelude.Bytes.{Bytes}
use marble.DebugHistory.{DebugHistory, mark_add, mark_remove}
use marble.DebugHistory.Order.{mark_remove_final}
use marble.DiskLocation.{DiskLocation}
use marble.Tests.Setup.{plain_zstd}
use marble.Zstd as Codec
use marble.Zstd.PerThread.{Contexts, ThreadLocalDict, IsLoaded, decompress, decompress-IsLoaded}

loaded_law : (d d' bytes : Bytes) → some bytes ≡ some d' → d' ≡ bytes
loaded_law d d' bytes e = cc

-- A context is its dictionary.
abbrev contexts : Contexts plain_zstd Bytes
contexts = record {
  create = [];
  load_dictionary = λ d bytes. some bytes;
  find_decompressed_size = λ buf. some (length buf);
  decompress = λ d buf n. (some buf, d);
  dictionary = λ d. d;
  dictionary-load_dictionary = loaded_law;
  dictionary-decompress = λ d buf n. refl;
  decompress_lem = λ d buf n e. refl;
}

-- The thread 1 has a context, and the thread 2 has none yet.
abbrev dicts : ThreadLocalDict Bytes
dicts = record { dict_bytes = 4 ∷ 5 ∷ []; tls = (1, 4 ∷ 5 ∷ []) ∷ [] }

decompress-IsLoaded_example :
    (t' : ThreadLocalDict Bytes) × (decompress contexts 2 (7 ∷ 8 ∷ []) dicts
      ≡ (Codec.decompress plain_zstd (some (4 ∷ 5 ∷ [])) (7 ∷ 8 ∷ []), t'))
    × IsLoaded contexts t'
    × (t'.dict_bytes ≡ 4 ∷ 5 ∷ [])
decompress-IsLoaded_example =
    decompress-IsLoaded contexts (7 ∷ 8 ∷ []) 2 refl (omega arith) 2 dicts (4 ∷ 5 ∷ []) (refl, tt)
      refl

abbrev location : DiskLocation
location = record { word = 8 }

abbrev added : DebugHistory
added = record { adds = (3, location ∷ []) ∷ []; removes = [] }

abbrev removed : DebugHistory
removed = record { adds = (3, location ∷ []) ∷ []; removes = (3, location ∷ []) ∷ [] }

removes : mark_remove 3 location added ≡ ok removed
unfolding mark_remove
removes = refl

mark_remove_final_example :
    (mark_remove 3 location removed ≡ panic) × (mark_add 3 location removed ≡ panic)
mark_remove_final_example = mark_remove_final 3 location added removed removes
