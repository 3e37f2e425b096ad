-- ===== src/Store/Durable/Listing.antt =====
-- The scan of the directory (src/recovery.rs) finds the files of the log, from the first to the last.
use marble.Prelude.{
  ℕ, ◌^◌, ◌≤◌, ◌<◌, ◌≡◌, refl, ap, sym, ◌∙◌, arith, false, none, List, [], ◌∷◌, ◌++◌, append-nil,
  append_assoc, length-append, All, All-append, length, map, ok, Bool-cases, inl, inr, subst,
}
use marble.Prelude.Bytes.{Bytes}
use marble.Crc32.{Crc32}
use marble.Disk.Calm.{IsCalm, sync_calm, file_len_calm}
use marble.FileMap.Lsn.{mask-lt}
use marble.Metadata.{Metadata, to_file_name}
use marble.Metadata.RoundTrip.{parse-to_file_name}
use marble.Recovery.Directory.{
  Files, ends_with_tmp, insert_by_lsn, masked_lsn, read_entries, read_storage_directory,
  sort_by_lsn,
}
use marble.Recovery.Names.{ends_with_tmp-file_names, to_file_name-is_utf8}
use marble.Store.Durable.{LogFile, file_lsn, IsWhole, IsLog, directory}
use marble.Trailer.{trailer_bytes}
use marble.Trailer.RoundTrip.{length-trailer_bytes}
use marble.World.{World}

pub not_tmp : (m : Metadata) → ends_with_tmp (to_file_name m) ≡ false
not_tmp m = elim (Bool-cases (ends_with_tmp (to_file_name m))) [
  | inl e ↦ absurd ((ends_with_tmp-file_names 0 m).1 e)
  | inr e ↦ e
]

abbrev pub named_file : LogFile → Metadata × Bytes
named_file f = (f.metadata, to_file_name f.metadata)

-- The files from the first to the last.
abbrev pub listing : List LogFile → Files
listing [] = []
listing (f ∷ fs) = listing fs ++ (named_file f ∷ [])

pub All-before :
    (a b : ℕ) (files : Files)
    → a ≤ b
    → All (λ (p : Metadata × Bytes). masked_lsn p.0.lsn < a) files
    → All (λ (p : Metadata × Bytes). masked_lsn p.0.lsn < b) files
All-before a b [] le h = tt
All-before a b (p ∷ rest) le h = (omega (arith, le, h.0), All-before a b rest le h.1)

module _ (crc : Crc32) (contents : ℕ → Bytes) (limit most : ℕ) where
  pub whole-length :
      (f : LogFile)
      → IsWhole crc contents limit most f
      → length (contents f.file) ≡ f.metadata.file_size
  whole-length f whole =
      ap length whole.holds
      ∙ length-append f.objects (trailer_bytes crc f.locations none)
      ∙ omega (arith, length-trailer_bytes crc f.locations none, whole.file_size)

  pub masked-file_lsn :
      (f : LogFile)
      → IsWhole crc contents limit most f
      → f.base < 2 ^ 62
      → masked_lsn f.metadata.lsn ≡ f.base
  unfolding masked_lsn
  masked-file_lsn f whole h = rw whole.lsn (mask-lt (file_lsn f) (omega arith) ∙ omega arith)

  pub listing-before :
      (next : ℕ) (fs : List LogFile)
      → IsLog crc contents limit most next fs
      → next ≤ 2 ^ 62
      → All (λ (p : Metadata × Bytes). masked_lsn p.0.lsn < next) (listing fs)
  listing-before next [] log h = tt
  listing-before next (f ∷ fs) (ends, whole, log) h =
      All-append (λ (p : Metadata × Bytes). masked_lsn p.0.lsn < next) (listing fs)
        (named_file f ∷ [])
        (All-before f.base next (listing fs) (omega (arith, ends))
          (listing-before f.base fs log (omega (arith, ends, h))))
        (omega (arith, ends, masked-file_lsn f whole (omega (arith, ends, h))), tt)

  pub insert_by_lsn-last :
      (m : Metadata) (name : Bytes) (files : Files)
      → All (λ (p : Metadata × Bytes). masked_lsn p.0.lsn < masked_lsn m.lsn) files
      → insert_by_lsn m name files ≡ files ++ ((m, name) ∷ [])
  unfolding insert_by_lsn
  insert_by_lsn-last m name [] h = refl
  insert_by_lsn-last m name ((n, other) ∷ rest) h =
      ground (arith, h.0, insert_by_lsn-last m name rest h.1)

  pub sort_by_lsn-listing :
      (next : ℕ) (fs : List LogFile)
      → IsLog crc contents limit most next fs
      → next ≤ 2 ^ 62
      → sort_by_lsn (map (λ f. named_file f) fs) ≡ listing fs
  unfolding sort_by_lsn
  sort_by_lsn-listing next [] log h = refl
  sort_by_lsn-listing next (f ∷ fs) (ends, whole, log) h =
      let before =
        subst (λ n. All (λ (p : Metadata × Bytes). masked_lsn p.0.lsn < n) (listing fs))
          (sym (masked-file_lsn f whole (omega (arith, ends, h))))
          (listing-before f.base fs log (omega (arith, ends, h))) in
      ap (insert_by_lsn f.metadata (to_file_name f.metadata))
        (sort_by_lsn-listing f.base fs log (omega (arith, ends, h)))
      ∙ insert_by_lsn-last f.metadata (to_file_name f.metadata) (listing fs) before

  module _ {T M : Type 0} where
    pub read_entries-directory :
        (next : ℕ) (fs : List LogFile) (files : Files) (w : World T M)
        → IsCalm w.disk
        → w.disk.contents ≡ contents
        → IsLog crc contents limit most next fs
        → read_entries (directory fs) files w ≡ (ok (files ++ map (λ f. named_file f) fs), w)
    unfolding read_entries
    read_entries-directory next [] files w calm same log =
        ap (λ f. (ok f, w)) (sym (append-nil files))
    read_entries-directory next (f ∷ fs) files w calm same (ends, whole, log) =
        let m = f.metadata in
        let size : length (w.disk.contents f.file) ≡ m.file_size =
          ap (λ c. length (c f.file)) same ∙ whole-length f whole in
        rw
          (
            read_entries,
            sync_calm w.disk calm,
            file_len_calm f.file w.disk calm,
            size,
            to_file_name-is_utf8 m,
            not_tmp m,
            parse-to_file_name m whole.wide,
          )
          (read_entries-directory f.base fs (files ++ (named_file f ∷ [])) w calm same log
            ∙ ap (λ l. (ok l, w))
                (append_assoc files (named_file f ∷ []) (map (λ g. named_file g) fs)))

    -- The scan finds the files of the log and changes nothing.
    pub read_storage_directory-listing :
        (next : ℕ) (fs : List LogFile) (w : World T M)
        → IsCalm w.disk
        → w.disk.contents ≡ contents
        → w.disk.names ≡ directory fs
        → IsLog crc contents limit most next fs
        → next ≤ 2 ^ 62
        → read_storage_directory w ≡ (ok (listing fs), w)
    unfolding read_storage_directory
    read_storage_directory-listing next fs w calm same at log h =
        rw
          (
            sync_calm w.disk calm,
            ap (λ names. read_entries names [] w) at
                ∙ read_entries-directory next fs [] w calm same log,
          )
          (ap (λ l. (ok l, w)) (sort_by_lsn-listing next fs log h))
