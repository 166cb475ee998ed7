-- ===== src/Sample/FieldCodec.antt =====
-- Fields that hold a `u64`, or a vector of one `u64`.
use mm2_parity_ethereum.Base.{IsU64, ℕ, refl, ◌>>=◌}
use mm2_parity_ethereum.Crates.Rlp.{RlpCrate, RlpLaws}
use mm2_parity_ethereum.Crates.Rlp.Tree.{leaf, list, nil, cons, u64}
use mm2_parity_ethereum.Crates.Rlp.Stream as Stream
use mm2_parity_ethereum.Crates.Rlp.Fields.{item_at-u64}
use mm2_parity_ethereum.Util.Derive.Run.{FieldCodec, FieldCodecLaws}
use mathlib.Core.List.{append_assoc}

abbrev pub field_codec : RlpCrate → FieldCodec ℕ
field_codec r = record {
  append = λ n s. Stream.append (u64 n) s;
  append_list = λ n s. Stream.append (u64 n) (Stream.begin_list 1 s);
  val_at = λ t rlp i. r.item_at rlp i >>= r.decode_u64;
  list_at = λ t rlp i. r.item_at rlp i >>= λ l. r.item_at l 0 >>= r.decode_u64;
  as_val = λ t rlp. r.decode_u64 rlp;
  as_list = λ t rlp. r.item_at rlp 0 >>= r.decode_u64;
}

abbrev pub field_codec_laws :
    (r : RlpCrate) (laws : RlpLaws r) → FieldCodecLaws (field_codec r) r laws
field_codec_laws r laws = record {
  HasType = λ t n. IsU64 n;
  item = λ n. leaf (u64 n);
  list_item = λ n. list (cons (leaf (u64 n)) nil);
  item-IsItem = λ t n h. h;
  list_item-IsItem = λ t n h. (h, tt);
  append_lem = λ n s. refl;
  append_list_lem = λ n s. append_assoc s _ _;
  val_at_lem = λ t n xs i h items found. item_at-u64 r laws xs items i n h found;
  list_at_lem = λ t n xs i h items found.
      rw (laws.item_at-list xs i (list (cons (leaf (u64 n)) nil)) items found)
        (item_at-u64 r laws (cons (leaf (u64 n)) nil) (h, tt) 0 n h refl);
  as_val_lem = λ t n h. laws.decode_u64_lem n h;
  as_list_lem = λ t n h. item_at-u64 r laws (cons (leaf (u64 n)) nil) (h, tt) 0 n h refl;
}
