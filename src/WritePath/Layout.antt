-- ===== src/WritePath/Layout.antt =====
-- What step 1 of `write_batch_inner` leaves in the file: the records of the batch's objects, one
-- behind the other, each where its relative location says.
use marble.Prelude.{
  ℕ, ◌+◌, ◌*◌, ◌^◌, ◌≤◌, ◌<◌, ◌≡◌, ◌∙◌, arith, true, false, Option, none, some, [], ◌∷◌, ◌++◌,
  append_assoc, append-nil, length, length-append, ok, le→leb,
}
use marble.Prelude.Assoc.{Assoc, insert, Distinct, Disjoint, insert-Fresh, Disjoint-snoc}
use native.Mathlib.Nat.{add-zero}
use marble.Prelude.Bytes.{Bytes, to_le_bytes, length-to_le_bytes}
use marble.Prelude.Int.{ℤ, pos_part, neg_part, ◌+ℤ◌, +ℤ_parts}
use marble.Config.{Config}
use marble.Crc32.{Crc32}
use marble.Disk.{Disk}
use marble.Disk.Calm.{
  IsCalm, write_all_at_end, appended, appended-IsCalm, length-appended, appended-appended,
  appended-nil,
}
use marble.DiskLocation.Laws.{Relative-new_lem}
use marble.ObjectRecord.{len_buf, record_bytes}
use marble.ObjectRecord.Layout.{crc_buf, length-crc_buf, length-record_bytes}
use marble.RelativeDiskLocation.{RelativeDiskLocation}
use marble.World.{Crates, World}
use marble.WritePath.Objects.{
  Written, output_object, saved, write_object, write_delete, write_objects,
}

module _ (crc : Crc32) (encode : Bytes → Bytes) where
  -- The file of a batch whose objects are encoded by `encode`.
  unfoldable pub file_bytes : Assoc (Option Bytes) → Bytes
  file_bytes [] = []
  file_bytes ((id, none) ∷ rest) = file_bytes rest
  file_bytes ((id, some raw) ∷ rest) = record_bytes crc id (encode raw) ++ file_bytes rest

module _ (crc : Crc32) (encode : Bytes → Bytes) where
  pub length-record_and_rest :
      (id : ℕ) (raw : Bytes) (rest : Assoc (Option Bytes))
      → length (file_bytes crc encode ((id, some raw) ∷ rest))
        ≡ 20 + length (encode raw) + length (file_bytes crc encode rest)
  unfolding file_bytes
  length-record_and_rest id raw rest = omega (
    arith,
    length-append {0} (record_bytes crc id (encode raw)) (file_bytes crc encode rest),
    length-record_bytes crc id (encode raw),
  )

-- Where the objects lie, from `offset` on. A deleted object has the offset 0 and the lowest bit.
unfoldable pub relative_locations :
    (Bytes → Bytes) → ℕ → Assoc (Option Bytes) → Assoc RelativeDiskLocation
relative_locations encode offset [] = []
relative_locations encode offset ((id, none) ∷ rest) =
    (id, record { word = 1 }) ∷ relative_locations encode offset rest
relative_locations encode offset ((id, some raw) ∷ rest) =
    (id, record { word = offset * 2 })
    ∷ relative_locations encode (offset + (20 + length (encode raw))) rest

-- The state with bytes added to the file.
abbrev pub with_appended : {T M : Type 0} → World T M → ℕ → Bytes → World T M
with_appended w file new = record w { disk = appended w.disk file new }

appended_four :
    (d : Disk) (file : ℕ) (a b c e : Bytes)
    → appended (appended (appended (appended d file a) file b) file c) file e
      ≡ appended d file (a ++ (b ++ (c ++ e)))
appended_four d file a b c e =
    appended-appended (appended (appended d file a) file b) file c e
    ∙ appended-appended (appended d file a) file b (c ++ e)
    ∙ appended-appended d file a (b ++ (c ++ e))

neg_part-saved :
    (compressor : Option (Bytes × ℤ)) (raw output : Bytes)
    → neg_part (saved compressor raw output) ≤ length output
neg_part-saved none raw output = omega arith
neg_part-saved (some _) raw output = ground arith

module _ {T M : Type 0} (crates : Crates T M) (config : Config) (compressor : Option (Bytes × ℤ))
    (file : ℕ) (encode : Bytes → Bytes) where
  open crates use {crc, zstd}

  -- Every object is small enough, and `encode` is what the compressor makes of it.
  abbrev pub Writable : Assoc (Option Bytes) → Type 0
  Writable [] = Unit
  Writable ((id, none) ∷ rest) = Writable rest
  Writable ((id, some raw) ∷ rest) =
      (length raw ≤ config.max_object_size)
      × (output_object zstd compressor raw ≡ ok (encode raw))
      × Writable rest

  write_object_lem :
      (w : World T M) (id : ℕ) (raw : Bytes) (written : Written)
      → IsCalm w.disk
      → length (w.disk.contents file) ≡ written.written_bytes
      → written.written_bytes < 2 ^ 63
      → length raw ≤ config.max_object_size
      → output_object zstd compressor raw ≡ ok (encode raw)
      → write_object crates config compressor file id raw written w ≡ (
        ok (record {
          new_relative_locations =
              insert id
                (record { word = written.written_bytes * 2 })
                written.new_relative_locations;
          written_bytes = written.written_bytes + (20 + length (encode raw));
          compressed_bytes = written.compressed_bytes +ℤ saved compressor raw (encode raw);
        }),
        with_appended w file (record_bytes crc id (encode raw)),
      )
  unfolding write_object record_bytes
  write_object_lem w id raw written calm at fits small out =
      let output = encode raw in
      let c = crc_buf crc id output in
      let p = to_le_bytes 8 id in
      let l = len_buf output in
      let d1 = appended w.disk file c in
      let d2 = appended d1 file p in
      let d3 = appended d2 file l in
      let n1 : length (d1.contents file) ≡ written.written_bytes + 4 =
        omega (arith, length-appended w.disk file c, length-crc_buf crc id output) in
      let n2 : length (d2.contents file) ≡ written.written_bytes + 12 =
        omega (arith, length-appended d1 file p, length-to_le_bytes 8 id) in
      let n3 : length (d3.contents file) ≡ written.written_bytes + 20 =
        omega (arith, length-appended d2 file l, length-to_le_bytes 8 (length output)) in
      let c1 = appended-IsCalm w.disk file c calm in
      let c2 = appended-IsCalm d1 file p c1 in
      let c3 = appended-IsCalm d2 file l c2 in
      rw (
        le→leb (length raw) config.max_object_size small,
        out,
        Relative-new_lem written.written_bytes false fits,
        write_all_at_end file written.written_bytes c w.disk calm at,
        write_all_at_end file (written.written_bytes + 4) p d1 c1 n1,
        write_all_at_end file (written.written_bytes + 12) l d2 c2 n2,
        write_all_at_end file (written.written_bytes + 20) output d3 c3 n3,
        appended_four w.disk file c p l output,
      )

  write_delete_lem :
      (w : World T M) (id : ℕ) (written : Written)
      → write_delete crates config id written w ≡ (
        ok (record written {
          new_relative_locations = insert id (record { word = 1 }) written.new_relative_locations;
        }),
        w,
      )
  unfolding write_delete
  write_delete_lem w id written = rw (Relative-new_lem 0 true (omega arith))

  -- What was written before compression is no negative number of bytes.
  abbrev pub IsCovered : ℕ → ℤ → Type 0
  IsCovered bytes saved_bytes = neg_part saved_bytes ≤ bytes + pos_part saved_bytes

  saved-IsCovered :
      (raw : Bytes) (n : ℕ) (s : ℤ)
      → IsCovered n s
      → IsCovered (n + (20 + length (encode raw))) (s +ℤ saved compressor raw (encode raw))
  saved-IsCovered raw n s h = omega (
    arith,
    +ℤ_parts s (saved compressor raw (encode raw)),
    neg_part-saved compressor raw (encode raw),
  )

  -- The result of the loop, for a batch that is still to be written behind what was written.
  abbrev pub Ends : Assoc (Option Bytes) → Written → World T M → Type 0
  Ends objects written w =
      (saved_bytes : ℤ) × (write_objects crates config compressor file objects written w ≡ (
        ok (record {
          new_relative_locations =
              written.new_relative_locations
              ++ relative_locations encode written.written_bytes objects;
          written_bytes = written.written_bytes + length (file_bytes crc encode objects);
          compressed_bytes = saved_bytes;
        }),
        with_appended w file (file_bytes crc encode objects),
      ))
      × (IsCovered written.written_bytes written.compressed_bytes
          → IsCovered (written.written_bytes + length (file_bytes crc encode objects)) saved_bytes)

  pub write_objects-Ends :
      (objects : Assoc (Option Bytes)) (written : Written) (w : World T M)
      → IsCalm w.disk
      → length (w.disk.contents file) ≡ written.written_bytes
      → Writable objects
      → Distinct objects
      → Disjoint written.new_relative_locations objects
      → written.written_bytes + length (file_bytes crc encode objects) < 2 ^ 63
      → Ends objects written w
  unfolding write_objects file_bytes relative_locations
  write_objects-Ends [] written w calm at ok_all d dj fits =
      (written.compressed_bytes, rw (append-nil, add-zero, appended-nil), λ h. omega arith)
  write_objects-Ends ((id, none) ∷ rest) written w calm at ok_all d dj fits =
      let L = written.new_relative_locations in
      let x : ℕ × RelativeDiskLocation = (id, record { word = 1 }) in
      let (n, e, cover) =
        write_objects-Ends rest (record written { new_relative_locations = L ++ (x ∷ []) }) w calm
          at ok_all d.1 (Disjoint-snoc id (record { word = 1 }) L rest dj.1 d.0) fits in
      (
        n,
        rw (write_delete_lem, insert-Fresh id (record { word = 1 }) L dj.0, e, append_assoc),
        cover,
      )
  write_objects-Ends ((id, some raw) ∷ rest) written w calm at ok_all d dj fits =
      let L = written.new_relative_locations in
      let bytes = record_bytes crc id (encode raw) in
      let here : RelativeDiskLocation = record { word = written.written_bytes * 2 } in
      let total = length-append {0} bytes (file_bytes crc encode rest) in
      let size = length-record_bytes crc id (encode raw) in
      let next : Written = record {
        new_relative_locations = L ++ ((id, here) ∷ []);
        written_bytes = written.written_bytes + (20 + length (encode raw));
        compressed_bytes = written.compressed_bytes +ℤ saved compressor raw (encode raw);
      } in
      let (n, e, cover) =
        write_objects-Ends rest next (with_appended w file bytes)
          (appended-IsCalm w.disk file bytes calm)
          (omega (arith, length-appended w.disk file bytes, size)) ok_all.2 d.1
          (Disjoint-snoc id here L rest dj.1 d.0) (omega (arith, total, size)) in
      let sum : written.written_bytes
            + (20 + length (encode raw))
            + length (file_bytes crc encode rest)
          ≡ written.written_bytes + length (bytes ++ file_bytes crc encode rest) =
        omega (arith, total, size) in
      (
        n,
        rw (
          write_object_lem w id raw written calm at (omega arith) ok_all.0 ok_all.1,
          insert-Fresh id here L dj.0,
          e,
          append_assoc,
          sum,
          appended-appended,
        ),
        λ h. omega (
          arith,
          total,
          size,
          cover (saved-IsCovered raw written.written_bytes written.compressed_bytes h),
        ),
      )
