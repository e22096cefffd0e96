-- ===== src/Delta/Stream/File.antt =====
-- A whole file: what a writer has written record by record is what the reader yields.
use aurora_rl.Base.{
  ℕ, zero, suc, ◌%◌, ◌<◌, ◌≤◌, ◌≡◌, refl, sym, ◌∙◌, ap, Bool, true, List, [], ◌∷◌, ◌++◌,
  append_assoc, append-nil, map, All, length, length-append, Result, ok, err, arith, subst,
}
use aurora_rl.Base.Exec.{Exec, pure, modify, on_bind, on_lift, on_require, ◌>>◌}
use aurora_rl.Delta.Stream.{
  StreamError, Tensor, StreamingDeltaRecord, stream_magic, element_size, element_count, dims,
  open_writer, write_record, read_version, read_records, iter_streaming_delta_records,
  little_endian, from_little_endian,
}
use aurora_rl.Delta.Stream.RoundTrip.{
  length-little_endian, read_exact-append, IsTensor, header_fields, encoded, pack_fields-encoded,
  code_to_dtype-inverse, stream_index_dtype-inverse, read_record-fields, written, Reads,
}

-- What `write_record` is given, with the indices encoded.
pub record Item : Type 0 where
  pub name : List ℕ
  pub shape : List ℕ
  pub encoded_indices : Tensor
  pub values : Tensor

module _ (is_utf8 : List ℕ → Bool) where
  -- The name is a text, and the tensors have whole elements.
  abbrev pub IsItem : Item → Type 0
  IsItem item =
      (is_utf8 item.name ≡ true)
      × IsTensor item.values
      × (length item.encoded_indices.bytes % element_size item.encoded_indices.dtype ≡ 0)

  abbrev pub read_back : Item → StreamingDeltaRecord
  read_back item = written is_utf8 item.name item.shape item.encoded_indices item.values

  five_writes :
      (file : List ℕ) {f1 f2 f3 f4 f5 : List ℕ} (h n s i v : List ℕ)
      → file ++ h ≡ f1
      → f1 ++ n ≡ f2
      → f2 ++ s ≡ f3
      → f3 ++ i ≡ f4
      → f4 ++ v ≡ f5
      → f5 ≡ file ++ (h ++ (n ++ (s ++ (i ++ v))))
  five_writes file h n s i v e1 e2 e3 e4 e5 = rw (← e5, ← e4, ← e3, ← e2, ← e1) (simp append_assoc)

  record Writes (item : Item) (file file' : List ℕ) : Type 0 where
    bytes : List ℕ
    behind : file' ≡ file ++ bytes
    some_bytes : 0 < length bytes
    reads : (rest : List ℕ) → Reads is_utf8 (bytes ++ rest) (read_back item) rest

  modify-bytes :
      (bytes file file' : List ℕ) {u : Unit {0}}
      → modify {E = StreamError} (λ file. file ++ bytes) file ≡ (ok u, file')
      → file ++ bytes ≡ file'
  unfolding modify
  modify-bytes bytes file file' h = ap (λ r. r.1) h

  write_record-Writes :
      (item : Item) (file file' : List ℕ) {u : Unit {0}}
      → IsItem item
      → write_record item.name item.shape item.encoded_indices item.values file ≡ (ok u, file')
      → Writes item file file'
  unfolding write_record
  write_record-Writes item file file' (text, whole, whole_indices) h =
      on_lift _ _ _ _ _ h λ f format h1. on_lift _ _ _ _ _ h1 λ c code h2.
        on_require _ _ _ _ _ _ h2 λ _ h3. on_lift _ _ _ _ _ h3 λ header packed h4.
          on_bind _ _ _ _ _ h4 λ _ file1 wrote1 h5. on_bind _ _ _ _ _ h5 λ _ file2 wrote2 h6.
            on_lift _ _ _ _ _ h6 λ shape_bytes packed_shape h7.
              on_bind _ _ _ _ _ h7 λ _ file3 wrote3 h8.
                on_bind _ _ _ _ _ h8 λ _ file4 wrote4 wrote5.
                  let (in_range, header_is) = pack_fields-encoded (fields f c) header packed in
                  let (shape_range, shape_is) =
                    pack_fields-encoded (dims item.shape) shape_bytes packed_shape in
                  record {
                    bytes =
                        header
                        ++ (item.name
                            ++ (shape_bytes ++ (item.encoded_indices.bytes ++ item.values.bytes)));
                    behind =
                        five_writes file header item.name shape_bytes item.encoded_indices.bytes
                          item.values.bytes (modify-bytes _ _ _ wrote1) (modify-bytes _ _ _ wrote2)
                          (modify-bytes _ _ _ wrote3) (modify-bytes _ _ _ wrote4)
                          (modify-bytes _ _ _ wrote5);
                    some_bytes = omega (
                      arith,
                      header_bytes f c header header_is,
                      length-append header (
                          item.name
                          ++ (shape_bytes ++ (item.encoded_indices.bytes ++ item.values.bytes))),
                    );
                    reads = λ rest.
                        subst (λ t. Reads is_utf8 t (read_back item) rest)
                          (sym (in_stream f c header shape_bytes rest header_is shape_is))
                          (read_record-fields is_utf8 item.name item.shape item.encoded_indices
                            item.values f c rest text whole in_range shape_range
                            (code_to_dtype-inverse item.values.dtype c code)
                            (stream_index_dtype-inverse item.encoded_indices.dtype f _ whole_indices
                              format));
                  }
    where
      fields : ℕ → ℕ → List (ℕ × ℕ)
      fields f c =
          header_fields (length item.name) f c (length item.shape)
            (length item.encoded_indices.bytes) (element_count item.values)

      header_bytes :
          (f c : ℕ) (header : List ℕ)
          → ((rest : List ℕ) → header ++ rest ≡ encoded (fields f c) rest)
          → 0 < length header
      header_bytes f c header is = omega (
        arith,
        ap (λ (t : List ℕ). length t) (is []),
        length-append header [],
        length-append (little_endian 4 (length item.name)) (
            encoded
              ((1, f)
                ∷ (1, c)
                ∷ (2, length item.shape)
                ∷ (8, length item.encoded_indices.bytes)
                ∷ (8, element_count item.values)
                ∷ [])
              []),
        length-little_endian 4 (length item.name),
      )

      in_stream :
          (f c : ℕ) (header shape_bytes rest : List ℕ)
          → ((rest : List ℕ) → header ++ rest ≡ encoded (fields f c) rest)
          → ((rest : List ℕ) → shape_bytes ++ rest ≡ encoded (dims item.shape) rest)
          → (header
                ++ (item.name
                    ++ (shape_bytes ++ (item.encoded_indices.bytes ++ item.values.bytes))))
              ++ rest
            ≡ encoded (fields f c) (
                item.name
                ++ encoded
                    (dims item.shape)
                    (item.encoded_indices.bytes ++ (item.values.bytes ++ rest)))
      in_stream f c header shape_bytes rest header_is shape_is =
          let apart : (header
                  ++ (item.name
                      ++ (shape_bytes ++ (item.encoded_indices.bytes ++ item.values.bytes))))
                ++ rest
              ≡ header
                ++ (item.name
                    ++ (shape_bytes
                        ++ (item.encoded_indices.bytes ++ (item.values.bytes ++ rest)))) =
            simp append_assoc in
          apart ∙ header_is _ ∙ ap (λ t. encoded (fields f c) (item.name ++ t)) (shape_is _)

  -- One `write_record` after the other.
  abbrev pub write_all : List Item → Exec (List ℕ) StreamError (Unit {0})
  write_all [] = pure tt
  write_all (item ∷ items) =
      write_record item.name item.shape item.encoded_indices item.values >> write_all items

  record WritesAll (items : List Item) (file file' : List ℕ) : Type 0 where
    bytes : List ℕ
    behind : file' ≡ file ++ bytes
    reads :
        (fuel : ℕ)
        → length bytes ≤ fuel
        → read_records is_utf8 fuel 2 bytes ≡ (map read_back items, ok tt)

  read_records-first :
      (bytes rest : List ℕ) (found : StreamingDeltaRecord) (later : List StreamingDeltaRecord)
      (fuel : ℕ)
      → 0 < length bytes
      → Reads is_utf8 (bytes ++ rest) found rest
      → ((fuel : ℕ) → length rest ≤ fuel → read_records is_utf8 fuel 2 rest ≡ (later, ok tt))
      → length (bytes ++ rest) ≤ fuel
      → read_records is_utf8 fuel 2 (bytes ++ rest) ≡ (found ∷ later, ok tt)
  unfolding read_records
  read_records-first [] rest found later fuel pos reads more enough = absurd (omega arith)
  read_records-first (b ∷ bytes) rest found later zero pos reads more enough = absurd (omega arith)
  read_records-first (b ∷ bytes) rest found later (suc fuel) pos reads more enough =
      ap (λ r. after r) reads
      ∙ rw (more fuel (omega (arith, enough, length-append bytes rest))) refl
    where
      after :
          Result StreamError (StreamingDeltaRecord × List ℕ)
          → List StreamingDeltaRecord × Result StreamError (Unit {0})
      after r = elim r [
        | err e ↦ ([], err e)
        | ok (found, rest) ↦
            let later = read_records is_utf8 fuel 2 rest in (found ∷ later.0, later.1)
      ]

  write_all-WritesAll :
      (items : List Item) (file file' : List ℕ) {u : Unit {0}}
      → All IsItem items
      → write_all items file ≡ (ok u, file')
      → WritesAll items file file'
  unfolding pure read_records
  write_all-WritesAll [] file file' h wrote = record {
    bytes = [];
    behind = sym (ap (λ r. r.1) wrote) ∙ sym (append-nil file);
    reads = λ fuel enough. refl;
  }
  write_all-WritesAll (item ∷ items) file file' (hi, h) wrote =
      on_bind (write_record item.name item.shape item.encoded_indices item.values)
        (λ _. write_all items) file file' tt wrote
        λ _ between first later.
          let one = write_record-Writes item file between hi first in
          let others = write_all-WritesAll items between file' h later in
          record {
            bytes = one.bytes ++ others.bytes;
            behind =
                others.behind
                ∙ ap (λ t. t ++ others.bytes) one.behind
                ∙ append_assoc file one.bytes others.bytes;
            reads = λ fuel enough.
                read_records-first one.bytes others.bytes (read_back item) (map read_back items)
                  fuel one.some_bytes (one.reads others.bytes) others.reads enough;
          }

  read_version-start :
      (rest : List ℕ) → read_version ((stream_magic ++ little_endian 4 2) ++ rest) ≡ ok (2, rest)
  unfolding read_version little_endian from_little_endian
  read_version-start rest =
      rw (read_exact-append 12 (stream_magic ++ little_endian 4 2) rest refl) refl

  -- Whatever records a writer has written to a new file, with texts for names and whole elements in
  -- their tensors: reading the file yields these records, in order, and ends without an error.
  pub iter-write_all :
      (items : List Item) (file : List ℕ) {u : Unit {0}}
      → All IsItem items
      → (open_writer >> write_all items) [] ≡ (ok u, file)
      → iter_streaming_delta_records is_utf8 file ≡ (map read_back items, ok tt)
  unfolding iter_streaming_delta_records open_writer
  iter-write_all items file h wrote =
      on_bind open_writer (λ _. write_all items) [] file tt wrote
        λ _ opened first later.
          let start : stream_magic ++ little_endian 4 2 ≡ opened =
            modify-bytes (stream_magic ++ little_endian 4 2) [] opened first in
          let others = write_all-WritesAll items opened file h later in
          let stream : file ≡ (stream_magic ++ little_endian 4 2) ++ others.bytes =
            others.behind ∙ ap (λ t. t ++ others.bytes) (sym start) in
          let version : read_version file ≡ ok (2, others.bytes) =
            ap (λ t. read_version t) stream ∙ read_version-start others.bytes in
          ap (λ r. records r) version ∙ others.reads (length others.bytes) (omega arith)
    where
      records :
          Result StreamError (ℕ × List ℕ)
          → List StreamingDeltaRecord × Result StreamError (Unit {0})
      records r = elim r [
        | err e ↦ ([], err e)
        | ok (version, rest) ↦ read_records is_utf8 (length rest) version rest
      ]
