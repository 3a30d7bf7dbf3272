-- ===== src/RwSet/RoundTrip.antt =====
-- A read-write set that is written as messages or bytes is read back unchanged.
use fabricsdk_go.Prelude.{
  ◌≡◌, ◌≢◌, refl, Option, none, some, Bytes, ok, >>=-eq-ok, traverse, traverse-inverse, arith,
}
use fabricsdk_go.Proto.{PtrCodec, IsPtrCodec}
use fabricsdk_go.RwSet.Messages.{
  CollHashedRwSet, NsRwSet, TxRwSet, CollPvtRwSet, NsPvtRwSet, TxPvtRwSet,
  CollectionHashedReadWriteSet, NsReadWriteSet, TxReadWriteSet, CollectionPvtReadWriteSet,
  NsPvtReadWriteSet, TxPvtReadWriteSet, LedgerCodecs, AreCodecs,
}
use fabricsdk_go.RwSet.Convert.{
  coll_hashed_to_proto_msg, coll_hashed_rw_set_from_proto_msg, ns_to_proto_msg,
  ns_rw_set_from_proto_msg, tx_to_proto_msg, tx_rw_set_from_proto_msg, to_proto_bytes,
  from_proto_bytes, proto_unmarshal, coll_pvt_to_proto_msg, coll_pvt_rw_set_from_proto_msg,
  ns_pvt_to_proto_msg, ns_pvt_rw_set_from_proto_msg, tx_pvt_to_proto_msg,
  tx_pvt_rw_set_from_proto_msg, pvt_to_proto_bytes, pvt_from_proto_bytes,
}

-- Reading back through a pointer: the value that was marshalled was there.
ptr_round :
    {A : Type 0} (c : PtrCodec A)
    → IsPtrCodec c
    → (o : Option A) (b : Bytes) → c.marshal o ≡ ok b
    → (a : A) × (o ≡ some a) × (c.unmarshal b ≡ ok a)
ptr_round c law none b h = absurd (law.nil_fails b h)
ptr_round c law (some a) b h = (a, refl, law.round a b h)

module _ {K H : Type 0} (p : LedgerCodecs K H) (law : AreCodecs p) where
  coll_hashed_round :
      (c : CollHashedRwSet H) (m : CollectionHashedReadWriteSet)
      → coll_hashed_to_proto_msg p c ≡ ok m
      → coll_hashed_rw_set_from_proto_msg p m ≡ ok c
  unfolding coll_hashed_to_proto_msg coll_hashed_rw_set_from_proto_msg
  coll_hashed_round c m h =
      let (b, written, built) = >>=-eq-ok (p.hashed_rw_set.marshal c.hashed_rw_set) _ h in
      let (a, there, back) = ptr_round p.hashed_rw_set law.hashed_law c.hashed_rw_set b written in
      ground (arith, there, back, built)

  ns_round :
      (ns : NsRwSet K H) (m : NsReadWriteSet)
      → ns_to_proto_msg p ns ≡ ok m
      → ns_rw_set_from_proto_msg p m ≡ ok ns
  unfolding ns_to_proto_msg ns_rw_set_from_proto_msg
  ns_round ns m h =
      let (b, written, more) = >>=-eq-ok (p.kv_rw_set.marshal ns.kv_rw_set) _ h in
      let (cs, colls, built) =
        >>=-eq-ok (traverse (coll_hashed_to_proto_msg p) ns.coll_hashed_rw_sets) _ more in
      let (a, there, back) = ptr_round p.kv_rw_set law.kv_law ns.kv_rw_set b written in
      let all =
        traverse-inverse (coll_hashed_to_proto_msg p) (coll_hashed_rw_set_from_proto_msg p)
          coll_hashed_round ns.coll_hashed_rw_sets cs colls in
      ground (arith, there, back, all, built)

  -- A set that converts to a message converts back from that message to itself.
  pub tx_rw_set_from_proto_msg-to_proto_msg :
      (t : TxRwSet K H) (m : TxReadWriteSet)
      → tx_to_proto_msg p t ≡ ok m
      → tx_rw_set_from_proto_msg p m ≡ ok t
  unfolding tx_to_proto_msg tx_rw_set_from_proto_msg
  tx_rw_set_from_proto_msg-to_proto_msg t m h =
      let (ms, sets, built) = >>=-eq-ok (traverse (ns_to_proto_msg p) t.ns_rw_sets) _ h in
      let all =
        traverse-inverse (ns_to_proto_msg p) (ns_rw_set_from_proto_msg p) ns_round t.ns_rw_sets ms
          sets in
      ground (arith, all, built)

  -- Bytes that `ToProtoBytes` returns make `FromProtoBytes` return no error and set its receiver,
  -- whatever it held, to the set that was written, and make `ProtoUnmarshal` return that set.
  pub from_proto_bytes-to_proto_bytes :
      (t old : TxRwSet K H) (b : Bytes)
      → to_proto_bytes p t ≡ ok b
      → (from_proto_bytes p b old ≡ (ok tt, t)) × (proto_unmarshal p b ≡ ok t)
  unfolding to_proto_bytes from_proto_bytes proto_unmarshal
  from_proto_bytes-to_proto_bytes t old b h =
      let (m, conv, written) = >>=-eq-ok (tx_to_proto_msg p t) _ h in
      let back = law.tx_law.round m b written in
      let set = tx_rw_set_from_proto_msg-to_proto_msg t m conv in (rw (back, set), rw (back, set))

  -- Bytes that cannot be read leave the receiver of `FromProtoBytes` as it was.
  pub from_proto_bytes-fails :
      (old : TxRwSet K H) (b : Bytes)
      → (from_proto_bytes p b old).0 ≢ ok tt
      → (from_proto_bytes p b old).1 ≡ old
  unfolding from_proto_bytes
  from_proto_bytes-fails old b h = ground arith

  coll_pvt_round :
      (c : CollPvtRwSet K) (m : CollectionPvtReadWriteSet)
      → coll_pvt_to_proto_msg p c ≡ ok m
      → coll_pvt_rw_set_from_proto_msg p m ≡ ok c
  unfolding coll_pvt_to_proto_msg coll_pvt_rw_set_from_proto_msg
  coll_pvt_round c m h =
      let (b, written, built) = >>=-eq-ok (p.kv_rw_set.marshal c.kv_rw_set) _ h in
      let (a, there, back) = ptr_round p.kv_rw_set law.kv_law c.kv_rw_set b written in
      ground (arith, there, back, built)

  ns_pvt_round :
      (ns : NsPvtRwSet K) (m : NsPvtReadWriteSet)
      → ns_pvt_to_proto_msg p ns ≡ ok m
      → ns_pvt_rw_set_from_proto_msg p m ≡ ok ns
  unfolding ns_pvt_to_proto_msg ns_pvt_rw_set_from_proto_msg
  ns_pvt_round ns m h =
      let (cs, colls, built) =
        >>=-eq-ok (traverse (coll_pvt_to_proto_msg p) ns.coll_pvt_rw_sets) _ h in
      let all =
        traverse-inverse (coll_pvt_to_proto_msg p) (coll_pvt_rw_set_from_proto_msg p) coll_pvt_round
          ns.coll_pvt_rw_sets cs colls in
      ground (arith, all, built)

  tx_pvt_round :
      (t : TxPvtRwSet K) (m : TxPvtReadWriteSet)
      → tx_pvt_to_proto_msg p t ≡ ok m
      → tx_pvt_rw_set_from_proto_msg p m ≡ ok t
  unfolding tx_pvt_to_proto_msg tx_pvt_rw_set_from_proto_msg
  tx_pvt_round t m h =
      let (ms, sets, built) = >>=-eq-ok (traverse (ns_pvt_to_proto_msg p) t.ns_pvt_rw_set) _ h in
      let all =
        traverse-inverse (ns_pvt_to_proto_msg p) (ns_pvt_rw_set_from_proto_msg p) ns_pvt_round
          t.ns_pvt_rw_set ms sets in
      ground (arith, all, built)

  -- The bytes of a private set make the private `FromProtoBytes` return no error and set its
  -- receiver, whatever it held, to the set that was written.
  pub pvt_from_proto_bytes-to_proto_bytes :
      (t old : TxPvtRwSet K) (b : Bytes)
      → pvt_to_proto_bytes p t ≡ ok b
      → pvt_from_proto_bytes p b old ≡ (ok tt, t)
  unfolding pvt_to_proto_bytes pvt_from_proto_bytes
  pvt_from_proto_bytes-to_proto_bytes t old b h =
      let (m, conv, written) = >>=-eq-ok (tx_pvt_to_proto_msg p t) _ h in
      let back = law.tx_pvt_law.round m b written in
      let set = tx_pvt_round t m conv in rw (back, set)
