-- ===== src/Examples/RwSets.antt =====
-- A read-write set of two namespaces, public and private.
use fabricsdk_go.Prelude.{
  ℕ, ◌≡◌, ◌≢◌, refl, String, [], ◌∷◌, Option, some, Bytes, ok, true, false, eq_iff,
}
use fabricsdk_go.RwSet.Messages.{
  CollHashedRwSet, NsRwSet, TxRwSet, TxPvtRwSet, DataModel, kv, CollectionHashedReadWriteSet,
  NsReadWriteSet, TxReadWriteSet, CollectionPvtReadWriteSet, NsPvtReadWriteSet, TxPvtReadWriteSet,
  LedgerCodecs, AreCodecs,
}
use fabricsdk_go.RwSet.Convert.{
  to_proto_bytes, from_proto_bytes, proto_unmarshal, pvt_to_proto_bytes,
}
use fabricsdk_go.RwSet.RoundTrip.{from_proto_bytes-to_proto_bytes}
use fabricsdk_go.Examples.Wire.{
  Wire, via, pair, list, bytes_wire, unit_wire, codec, codec-IsCodec, ptr_codec,
  ptr_codec-IsPtrCodec, value_or,
}
use fabricsdk_go.Examples.Texts.{text_wire}

abbrev coll_wire : Wire CollectionHashedReadWriteSet
coll_wire =
    via (λ c. (c.collection_name, (c.hashed_rwset, c.pvt_rwset_hash)))
      (λ (a, (b, c)). record { collection_name = a; hashed_rwset = b; pvt_rwset_hash = c })
      (λ c. refl) (pair text_wire (pair bytes_wire bytes_wire))

abbrev ns_wire : Wire NsReadWriteSet
ns_wire =
    via (λ n. (n.namespace, (n.rwset, n.collection_hashed_rwset)))
      (λ (a, (b, c)). record { namespace = a; rwset = b; collection_hashed_rwset = c }) (λ n. refl)
      (pair text_wire (pair bytes_wire (list coll_wire)))

pub model_back : (d : DataModel) → kv ≡ d
model_back kv = refl

abbrev model_wire : Wire DataModel
model_wire = via (λ d. tt) (λ u. kv) model_back unit_wire

abbrev tx_wire : Wire TxReadWriteSet
tx_wire =
    via (λ t. (t.data_model, t.ns_rwset)) (λ (d, sets). record { data_model = d; ns_rwset = sets })
      (λ t. refl) (pair model_wire (list ns_wire))

abbrev pvt_coll_wire : Wire CollectionPvtReadWriteSet
pvt_coll_wire =
    via (λ c. (c.collection_name, c.rwset)) (λ (a, b). record { collection_name = a; rwset = b })
      (λ c. refl) (pair text_wire bytes_wire)

abbrev pvt_ns_wire : Wire NsPvtReadWriteSet
pvt_ns_wire =
    via (λ c. (c.namespace, c.collection_pvt_rwset))
      (λ (a, b). record { namespace = a; collection_pvt_rwset = b }) (λ c. refl)
      (pair text_wire (list pvt_coll_wire))

abbrev pvt_tx_wire : Wire TxPvtReadWriteSet
pvt_tx_wire =
    via (λ t. (t.data_model, t.ns_pvt_rwset))
      (λ (d, sets). record { data_model = d; ns_pvt_rwset = sets }) (λ t. refl)
      (pair model_wire (list pvt_ns_wire))

-- The contents of the two sets of the ledger library are bytes here.
abbrev ledger : LedgerCodecs Bytes Bytes
ledger = record {
  kv_rw_set = ptr_codec bytes_wire;
  hashed_rw_set = ptr_codec bytes_wire;
  tx_rw_set = codec tx_wire;
  tx_pvt_rw_set = codec pvt_tx_wire;
}

ledger-AreCodecs : AreCodecs ledger
ledger-AreCodecs = record {
  kv_law = ptr_codec-IsPtrCodec bytes_wire;
  hashed_law = ptr_codec-IsPtrCodec bytes_wire;
  tx_law = codec-IsCodec tx_wire;
  tx_pvt_law = codec-IsCodec pvt_tx_wire;
}

abbrev coll : String → ℕ → CollHashedRwSet Bytes
coll name n = record {
  collection_name = name;
  hashed_rw_set = some (n ∷ []);
  pvt_rw_set_hash = n ∷ n ∷ [];
}

abbrev set_a : NsRwSet Bytes Bytes
set_a = record {
  name_space = "a";
  kv_rw_set = some (4 ∷ []);
  coll_hashed_rw_sets = coll "x" 1 ∷ [];
}

abbrev set_b : NsRwSet Bytes Bytes
set_b = record {
  name_space = "b";
  kv_rw_set = some [];
  coll_hashed_rw_sets = coll "y" 2 ∷ coll "x" 3 ∷ coll "x" 5 ∷ [];
}

abbrev sample : TxRwSet Bytes Bytes
sample = record { ns_rw_sets = set_a ∷ set_b ∷ [] }

abbrev empty : TxRwSet Bytes Bytes
empty = record { ns_rw_sets = [] }

abbrev sample_bytes : Bytes
sample_bytes = value_or [] (to_proto_bytes ledger sample)

sample_written : to_proto_bytes ledger sample ≡ ok sample_bytes
unfolding to_proto_bytes
sample_written = refl

from_proto_bytes-to_proto_bytes_example :
    (from_proto_bytes ledger sample_bytes empty ≡ (ok tt, sample))
    × (proto_unmarshal ledger sample_bytes ≡ ok sample)
from_proto_bytes-to_proto_bytes_example =
    from_proto_bytes-to_proto_bytes ledger ledger-AreCodecs sample empty sample_bytes sample_written

abbrev pvt_sample : TxPvtRwSet Bytes
pvt_sample = record {
  ns_pvt_rw_set =
      record {
        name_space = "a";
        coll_pvt_rw_sets = record { collection_name = "x"; kv_rw_set = some (6 ∷ []) } ∷ [];
      }
      ∷ [];
}

abbrev pvt_bytes : Bytes
pvt_bytes = value_or [] (pvt_to_proto_bytes ledger pvt_sample)

pvt_written : pvt_to_proto_bytes ledger pvt_sample ≡ ok pvt_bytes
unfolding pvt_to_proto_bytes
pvt_written = refl

-- What is not the bytes of a set.
broken : (from_proto_bytes ledger (2 ∷ []) sample).0 ≢ ok tt
unfolding from_proto_bytes
broken = λ h. cc

a_is_not_b : set_a.name_space ≢ set_b.name_space
a_is_not_b = λ h. let e : false ≡ true = (eq_iff "a" "b").1 h in cc

y_is_not_x : (coll "y" 2).collection_name ≢ (coll "x" 3).collection_name
y_is_not_x = λ h. let e : false ≡ true = (eq_iff "y" "x").1 h in cc

abbrev seven : Option Bytes
seven = some (7 ∷ [])

abbrev identity : Bytes → Bytes
identity b = b
