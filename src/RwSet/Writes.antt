-- ===== src/RwSet/Writes.antt =====
-- The constructors of reads and writes, and versions. `ComputeHash` is SHA-256, a parameter.
use fabricsdk_go.Prelude.{
  ℕ, [], ◌≡◌, ◌↔◌, refl, Bool, true, false, String, Bytes, codes, Option, none, some, arith,
  if◌then◌else◌, not,
}
use mathlib.Core.Option
use fabricsdk_go.Height.{Height, new_height}

-- `kvrwset.Version`
pub record Version : Type 0 where
  pub block_num : ℕ
  pub tx_num : ℕ

pub new_version : Option Version → Option Height
new_version none = none
new_version (some v) = some (new_height v.block_num v.tx_num)

pub new_proto_version : Option Height → Option Version
new_proto_version none = none
new_proto_version (some h) = some (record { block_num = h.block_num; tx_num = h.tx_num })

pub record KvRead : Type 0 where
  pub key : String
  pub version : Option Version

pub record KvReadHash : Type 0 where
  pub key_hash : Bytes
  pub version : Option Version

-- A value that is nil is `none`.
pub record KvWrite : Type 0 where
  pub key : String
  pub is_delete : Bool
  pub value : Option Bytes

pub record KvWriteHash : Type 0 where
  pub key_hash : Bytes
  pub is_delete : Bool
  pub value_hash : Option Bytes

pub new_kv_read : String → Option Height → KvRead
unfolding new_proto_version
new_kv_read key version = record { key = key; version = new_proto_version version }

abbrev is_nil : Option Bytes → Bool
is_nil none = true
is_nil (some b) = false

-- `[]byte` of a slice that may be nil.
abbrev slice : Option Bytes → Bytes
slice none = []
slice (some b) = b

pub new_kv_write : String → Option Bytes → KvWrite
new_kv_write key value = record { key = key; is_delete = is_nil value; value = value }

module _ (compute_hash : Bytes → Bytes) where
  pub new_pvt_kv_read_hash : String → Option Height → KvReadHash
  unfolding new_proto_version
  new_pvt_kv_read_hash key version = record {
    key_hash = compute_hash (codes key);
    version = new_proto_version version;
  }

  pub new_pvt_kv_write_and_hash : String → Option Bytes → KvWrite × KvWriteHash
  unfolding new_kv_write
  new_pvt_kv_write_and_hash key value =
      let kv_write = new_kv_write key value in
      let key_hash = compute_hash (codes key) in
      let value_hash : Option Bytes =
        if not kv_write.is_delete then some (compute_hash (slice value)) else none in
      (
        kv_write,
        record { key_hash = key_hash; is_delete = kv_write.is_delete; value_hash = value_hash },
      )

  -- A private write and its hash both say that the key is deleted exactly where the value is nil;
  -- the hash carries the hash of a value that is there, and none of one that is not.
  pub new_pvt_kv_write_and_hash-agree :
      (key : String) (value : Option Bytes)
      → (((new_pvt_kv_write_and_hash key value).0.is_delete ≡ true) ↔ (value ≡ none))
        × ((new_pvt_kv_write_and_hash key value).1.is_delete
            ≡ (new_pvt_kv_write_and_hash key value).0.is_delete)
        × ((new_pvt_kv_write_and_hash key value).1.value_hash ≡ Option.map compute_hash value)
  unfolding new_pvt_kv_write_and_hash
  new_pvt_kv_write_and_hash-agree key none = (ground arith, refl, refl)
  new_pvt_kv_write_and_hash-agree key (some v) = (ground arith, refl, refl)

-- A version survives the way to its message and back, nil too.
pub new_version-new_proto_version : (h : Option Height) → new_version (new_proto_version h) ≡ h
unfolding new_version new_proto_version
new_version-new_proto_version none = refl
new_version-new_proto_version (some h) = refl
