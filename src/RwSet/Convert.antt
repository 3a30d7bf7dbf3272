-- ===== src/RwSet/Convert.antt =====
-- The conversions of rw_util.go between its structs, the messages, and bytes.
use fabricsdk_go.Prelude.{[], some, Bytes, Result, ok, err, panic, ◌>>=◌, traverse}
use fabricsdk_go.RwSet.Messages.{
  CollHashedRwSet, NsRwSet, TxRwSet, CollPvtRwSet, NsPvtRwSet, TxPvtRwSet, kv,
  CollectionHashedReadWriteSet, NsReadWriteSet, TxReadWriteSet, CollectionPvtReadWriteSet,
  NsPvtReadWriteSet, TxPvtReadWriteSet, LedgerCodecs,
}

-- The method changes its receiver, and only if there is no error.
abbrev assign : {A : Type 0} → Result A → A → Result (Unit {0}) × A
assign (ok new) old = (ok tt, new)
assign (err e) old = (err e, old)
assign panic old = (panic, old)

abbrev when_ok : {A : Type 0} → Result (Unit {0}) × A → Result A
when_ok (ok u, a) = ok a
when_ok (err e, a) = err e
when_ok (panic, a) = panic

module _ {K H : Type 0} (p : LedgerCodecs K H) where
  open p use {
    kv_rw_set as kv_codec, hashed_rw_set as hashed_codec, tx_rw_set as tx_codec,
    tx_pvt_rw_set as tx_pvt_codec,
  }

  unfoldable pub coll_hashed_to_proto_msg : CollHashedRwSet H → Result CollectionHashedReadWriteSet
  coll_hashed_to_proto_msg c = do
    hashed ← hashed_codec.marshal c.hashed_rw_set
    ok (record {
      collection_name = c.collection_name;
      hashed_rwset = hashed;
      pvt_rwset_hash = c.pvt_rw_set_hash;
    })

  unfoldable pub coll_hashed_rw_set_from_proto_msg :
      CollectionHashedReadWriteSet → Result (CollHashedRwSet H)
  coll_hashed_rw_set_from_proto_msg m = do
    hashed ← hashed_codec.unmarshal m.hashed_rwset
    ok (record {
      collection_name = m.collection_name;
      hashed_rw_set = some hashed;
      pvt_rw_set_hash = m.pvt_rwset_hash;
    })

  unfoldable pub ns_to_proto_msg : NsRwSet K H → Result NsReadWriteSet
  unfolding coll_hashed_to_proto_msg
  ns_to_proto_msg ns = do
    rwset ← kv_codec.marshal ns.kv_rw_set
    colls ← traverse coll_hashed_to_proto_msg ns.coll_hashed_rw_sets
    ok (record { namespace = ns.name_space; rwset = rwset; collection_hashed_rwset = colls })

  unfoldable pub ns_rw_set_from_proto_msg : NsReadWriteSet → Result (NsRwSet K H)
  unfolding coll_hashed_rw_set_from_proto_msg
  ns_rw_set_from_proto_msg m = do
    set ← kv_codec.unmarshal m.rwset
    colls ← traverse coll_hashed_rw_set_from_proto_msg m.collection_hashed_rwset
    ok (record { name_space = m.namespace; kv_rw_set = some set; coll_hashed_rw_sets = colls })

  unfoldable pub tx_to_proto_msg : TxRwSet K H → Result TxReadWriteSet
  unfolding ns_to_proto_msg
  tx_to_proto_msg t = do
    sets ← traverse ns_to_proto_msg t.ns_rw_sets
    ok (record { data_model = kv; ns_rwset = sets })

  unfoldable pub tx_rw_set_from_proto_msg : TxReadWriteSet → Result (TxRwSet K H)
  unfolding ns_rw_set_from_proto_msg
  tx_rw_set_from_proto_msg m = do
    sets ← traverse ns_rw_set_from_proto_msg m.ns_rwset
    ok (record { ns_rw_sets = sets })

  unfoldable pub to_proto_bytes : TxRwSet K H → Result Bytes
  unfolding tx_to_proto_msg
  to_proto_bytes t = do m ← tx_to_proto_msg t; tx_codec.marshal m

  unfoldable pub from_proto_bytes : Bytes → TxRwSet K H → Result (Unit {0}) × TxRwSet K H
  unfolding tx_rw_set_from_proto_msg
  from_proto_bytes bytes t = assign (do m ← tx_codec.unmarshal bytes; tx_rw_set_from_proto_msg m) t

  unfoldable pub proto_unmarshal : Bytes → Result (TxRwSet K H)
  unfolding from_proto_bytes
  proto_unmarshal bytes = when_ok (from_proto_bytes bytes (record { ns_rw_sets = [] }))

  unfoldable pub coll_pvt_to_proto_msg : CollPvtRwSet K → Result CollectionPvtReadWriteSet
  coll_pvt_to_proto_msg c = do
    rwset ← kv_codec.marshal c.kv_rw_set
    ok (record { collection_name = c.collection_name; rwset = rwset })

  unfoldable pub coll_pvt_rw_set_from_proto_msg :
      CollectionPvtReadWriteSet → Result (CollPvtRwSet K)
  coll_pvt_rw_set_from_proto_msg m = do
    set ← kv_codec.unmarshal m.rwset
    ok (record { collection_name = m.collection_name; kv_rw_set = some set })

  unfoldable pub ns_pvt_to_proto_msg : NsPvtRwSet K → Result NsPvtReadWriteSet
  unfolding coll_pvt_to_proto_msg
  ns_pvt_to_proto_msg ns = do
    colls ← traverse coll_pvt_to_proto_msg ns.coll_pvt_rw_sets
    ok (record { namespace = ns.name_space; collection_pvt_rwset = colls })

  unfoldable pub ns_pvt_rw_set_from_proto_msg : NsPvtReadWriteSet → Result (NsPvtRwSet K)
  unfolding coll_pvt_rw_set_from_proto_msg
  ns_pvt_rw_set_from_proto_msg m = do
    colls ← traverse coll_pvt_rw_set_from_proto_msg m.collection_pvt_rwset
    ok (record { name_space = m.namespace; coll_pvt_rw_sets = colls })

  unfoldable pub tx_pvt_to_proto_msg : TxPvtRwSet K → Result TxPvtReadWriteSet
  unfolding ns_pvt_to_proto_msg
  tx_pvt_to_proto_msg t = do
    sets ← traverse ns_pvt_to_proto_msg t.ns_pvt_rw_set
    ok (record { data_model = kv; ns_pvt_rwset = sets })

  unfoldable pub tx_pvt_rw_set_from_proto_msg : TxPvtReadWriteSet → Result (TxPvtRwSet K)
  unfolding ns_pvt_rw_set_from_proto_msg
  tx_pvt_rw_set_from_proto_msg m = do
    sets ← traverse ns_pvt_rw_set_from_proto_msg m.ns_pvt_rwset
    ok (record { ns_pvt_rw_set = sets })

  unfoldable pub pvt_to_proto_bytes : TxPvtRwSet K → Result Bytes
  unfolding tx_pvt_to_proto_msg
  pvt_to_proto_bytes t = do m ← tx_pvt_to_proto_msg t; tx_pvt_codec.marshal m

  unfoldable pub pvt_from_proto_bytes : Bytes → TxPvtRwSet K → Result (Unit {0}) × TxPvtRwSet K
  unfolding tx_pvt_rw_set_from_proto_msg
  pvt_from_proto_bytes bytes t =
      assign (do m ← tx_pvt_codec.unmarshal bytes; tx_pvt_rw_set_from_proto_msg m) t
