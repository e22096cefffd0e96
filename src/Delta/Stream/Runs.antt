-- ===== src/Delta/Stream/Runs.antt =====
-- A file of two records.
use aurora_rl.Base.{
  ◌+◌, drop, length-drop, arith, ℕ, ◌≡◌, refl, Bool, true, List, [], ◌∷◌, map, All, length, ok, err,
}
use aurora_rl.Base.Exec.{pure, lift, modify, require, ◌>>=◌, ◌>>◌}
use aurora_rl.Base.Names.{codes}
use aurora_rl.Delta.Stream.{
  bfloat16, int32, uint8, truncated, dtype_to_code, byte_range, little_endian, pack_field,
  pack_fields, stream_index_format, open_writer, write_record, read_record, read_records,
  iter_streaming_delta_records,
}
use aurora_rl.Delta.Stream.Fuel.{read_records_fuel}
use aurora_rl.Delta.Stream.File.{Item, IsItem, read_back, write_all, iter-write_all}

abbrev any_text : List ℕ → Bool
any_text name = true

abbrev items : List Item
items =
    record {
      name = codes "w";
      shape = 2 ∷ 300 ∷ [];
      encoded_indices = record { dtype = uint8; bytes = 3 ∷ 1 ∷ [] };
      values = record { dtype = bfloat16; bytes = 1 ∷ 2 ∷ 3 ∷ 4 ∷ [] };
    }
    ∷ record {
      name = codes "b";
      shape = [];
      encoded_indices = record { dtype = int32; bytes = 0 ∷ 0 ∷ 0 ∷ 0 ∷ [] };
      values = record { dtype = bfloat16; bytes = 9 ∷ 9 ∷ [] };
    }
    ∷ []

abbrev file : List ℕ
file = ((open_writer >> write_all any_text items) []).1

file_run : (open_writer >> write_all any_text items) [] ≡ (ok tt, file)
unfolding open_writer write_record pack_fields pack_field byte_range little_endian dtype_to_code
    stream_index_format pure lift modify require ◌>>=◌
file_run = refl

length_run : length file ≡ 90
unfolding open_writer write_record pack_fields pack_field byte_range little_endian dtype_to_code
    stream_index_format pure lift modify require ◌>>=◌
length_run = refl

-- A record header that is cut.
cut_run : (read_records any_text 30 2 (1 ∷ 2 ∷ 3 ∷ [])) ≡ ([], err truncated)
unfolding read_records read_record
cut_run = refl

items-IsItem : All (IsItem any_text) items
items-IsItem = ((refl, refl, refl), ((refl, refl, refl), tt))

iter-write_all_example :
    iter_streaming_delta_records any_text file ≡ (map (read_back any_text) items, ok tt)
iter-write_all_example = iter-write_all any_text items file items-IsItem file_run

read_records_fuel_example :
    read_records any_text (90 + 10) 2 (drop 12 file) ≡ read_records any_text 90 2 (drop 12 file)
read_records_fuel_example =
    read_records_fuel any_text 2 90 10 (drop 12 file)
      (omega (arith, length-drop 12 file, length_run))
