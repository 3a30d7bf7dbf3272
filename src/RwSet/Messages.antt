-- ===== src/RwSet/Messages.antt =====
-- The structs of rw_util.go, and the messages of the ledger library that they are converted to.
use fabricsdk_go.Prelude.{String, List, Option, Bytes}
use fabricsdk_go.Proto.{Codec, PtrCodec, IsCodec, IsPtrCodec}

pub record CollHashedRwSet (H : Type 0) : Type 0 where
  pub collection_name : String
  pub hashed_rw_set : Option H
  pub pvt_rw_set_hash : Bytes

pub record NsRwSet (K H : Type 0) : Type 0 where
  pub name_space : String
  pub kv_rw_set : Option K
  pub coll_hashed_rw_sets : List (CollHashedRwSet H)

pub record TxRwSet (K H : Type 0) : Type 0 where
  pub ns_rw_sets : List (NsRwSet K H)

pub record CollPvtRwSet (K : Type 0) : Type 0 where
  pub collection_name : String
  pub kv_rw_set : Option K

pub record NsPvtRwSet (K : Type 0) : Type 0 where
  pub name_space : String
  pub coll_pvt_rw_sets : List (CollPvtRwSet K)

pub record TxPvtRwSet (K : Type 0) : Type 0 where
  pub ns_pvt_rw_set : List (NsPvtRwSet K)

-- `rwset.TxReadWriteSet_KV` is the only data model.
pub data DataModel : Type 0 where
  kv : DataModel

pub record CollectionHashedReadWriteSet : Type 0 where
  pub collection_name : String
  pub hashed_rwset : Bytes
  pub pvt_rwset_hash : Bytes

pub record NsReadWriteSet : Type 0 where
  pub namespace : String
  pub rwset : Bytes
  pub collection_hashed_rwset : List CollectionHashedReadWriteSet

pub record TxReadWriteSet : Type 0 where
  pub data_model : DataModel
  pub ns_rwset : List NsReadWriteSet

pub record CollectionPvtReadWriteSet : Type 0 where
  pub collection_name : String
  pub rwset : Bytes

pub record NsPvtReadWriteSet : Type 0 where
  pub namespace : String
  pub collection_pvt_rwset : List CollectionPvtReadWriteSet

pub record TxPvtReadWriteSet : Type 0 where
  pub data_model : DataModel
  pub ns_pvt_rwset : List NsPvtReadWriteSet

-- The protobuf library at the messages that the conversions marshal.
pub record LedgerCodecs (K H : Type 0) : Type 0 where
  pub kv_rw_set : PtrCodec K
  pub hashed_rw_set : PtrCodec H
  pub tx_rw_set : Codec TxReadWriteSet
  pub tx_pvt_rw_set : Codec TxPvtReadWriteSet

pub record AreCodecs {K H : Type 0} (p : LedgerCodecs K H) : Type 0 where
  pub kv_law : IsPtrCodec p.kv_rw_set
  pub hashed_law : IsPtrCodec p.hashed_rw_set
  pub tx_law : IsCodec p.tx_rw_set
  pub tx_pvt_law : IsCodec p.tx_pvt_rw_set
