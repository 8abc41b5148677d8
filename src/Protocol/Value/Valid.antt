-- ===== src/Protocol/Value/Valid.antt =====
-- What Rust's types guarantee of a `Value`, and how deep it nests.
use scouter_server_rust.Common.{
  ℕ, suc, ◌*◌, ◌≤◌, ◌<◌, ◌^◌, ◌≡◌, Bool, true, false, ◌||◌, length, All,
}
use scouter_server_rust.Word.{Bytes, IsWord32, IsWord64}
use scouter_server_rust.Protocol.Utf8.{is_utf8}
use scouter_server_rust.Protocol.Input.{isize_max}
use scouter_server_rust.Protocol.Value.{
  Value, Values, MapValue, null, boolean, decimal, float, double, double_summary, long_summary,
  text, text_hash, blob, ip4, values, int_array, float_array, text_array, long_array, map, nil,
  cons, empty, entry, count_values, size, bytes_eq,
}
use Prim.Native.Nat.{max}

-- The wire format holds lengths below 2 ^ 31.
abbrev pub IsText : Bytes → Type 0
IsText s = (is_utf8 s ≡ true) × (length s < 2 ^ 31)

abbrev pub IsBlob : Bytes → Type 0
IsBlob bs = length bs < 2 ^ 31

abbrev pub has_key : Bytes → MapValue → Bool
has_key k empty = false
has_key k (entry j w m) = bytes_eq j k || has_key k m

-- A vector's bytes are counted by an isize.
abbrev pub FitsVec : ℕ → ℕ → Type 0
FitsVec width n = width * n ≤ isize_max

module _ (value_size : ℕ) where
  abbrev mutual
    pub IsValid : Value → Type 0
    IsValid null = Unit {0}
    IsValid (boolean v) = Unit {0}
    IsValid (decimal v) = IsWord64 v
    IsValid (float v) = IsWord32 v
    IsValid (double v) = IsWord64 v
    IsValid (double_summary count sum min max) =
        IsWord32 count × IsWord64 sum × IsWord64 min × IsWord64 max
    IsValid (long_summary count sum min max) =
        IsWord32 count × IsWord64 sum × IsWord64 min × IsWord64 max
    IsValid (text v) = IsText v
    IsValid (text_hash v) = IsWord32 v
    IsValid (blob v) = IsBlob v
    IsValid (ip4 v) = IsBlob v
    IsValid (values vs) =
        (count_values vs < 2 ^ 63) × FitsVec value_size (count_values vs) × AreValid vs
    IsValid (int_array arr) = FitsVec 4 (length arr) × All IsWord32 arr
    IsValid (float_array arr) = FitsVec 4 (length arr) × All IsWord32 arr
    IsValid (text_array arr) = FitsVec 24 (length arr) × All IsText arr
    IsValid (long_array arr) = FitsVec 8 (length arr) × All IsWord64 arr
    IsValid (map m) = (size m < 2 ^ 63) × IsValidMap m

    pub AreValid : Values → Type 0
    AreValid nil = Unit {0}
    AreValid (cons v vs) = IsValid v × AreValid vs

    -- No key occurs twice.
    pub IsValidMap : MapValue → Type 0
    IsValidMap empty = Unit {0}
    IsValidMap (entry k v m) = IsText k × IsValid v × (has_key k m ≡ false) × IsValidMap m

abbrev mutual
  pub depth : Value → ℕ
  depth (values vs) = depth_values vs
  depth (map m) = depth_entries m
  depth _ = 0

  pub depth_values : Values → ℕ
  depth_values nil = 0
  depth_values (cons v vs) = max (suc (depth v)) (depth_values vs)

  pub depth_entries : MapValue → ℕ
  depth_entries empty = 0
  depth_entries (entry k v m) = max (suc (depth v)) (depth_entries m)
