-- ===== src/RwSet/Lookup.antt =====
-- `GetPvtDataHash` and `NumCollections`.
use fabricsdk_go.Prelude.{
  ℕ, ◌+◌, ◌≡◌, ◌≢◌, refl, ◌∙◌, String, List, [], ◌∷◌, ◌++◌, Bytes, Option, none, some, arith,
  str_eq, eq_iff, if◌then◌else◌, length, All, length-append,
}
use fabricsdk_go.RwSet.Messages.{CollHashedRwSet, NsRwSet, TxRwSet}

module _ {H : Type 0} where
  -- The loop of `getPvtDataHash`; nil is no bytes.
  coll_pvt_data_hash : List (CollHashedRwSet H) → String → Bytes
  coll_pvt_data_hash [] coll = []
  coll_pvt_data_hash (c ∷ cs) coll =
      if str_eq c.collection_name coll then c.pvt_rw_set_hash else coll_pvt_data_hash cs coll

  -- The inner loop of `NumCollections`: each round adds one.
  count_colls : ℕ → List (CollHashedRwSet H) → ℕ
  count_colls num [] = num
  count_colls num (c ∷ cs) = count_colls (num + 1) cs

module _ {H : Type 0} where
  count_colls_lem : (num : ℕ) (cs : List (CollHashedRwSet H)) → count_colls num cs ≡ num + length cs
  unfolding count_colls
  count_colls_lem num [] = omega arith
  count_colls_lem num (c ∷ cs) = omega (arith, count_colls_lem (num + 1) cs)

  coll-first :
      (before after : List (CollHashedRwSet H)) (c : CollHashedRwSet H) (coll : String)
      → All (λ d. d.collection_name ≢ coll) before
      → c.collection_name ≡ coll
      → coll_pvt_data_hash (before ++ c ∷ after) coll ≡ c.pvt_rw_set_hash
  unfolding coll_pvt_data_hash
  coll-first [] after c coll none_before e = ground (arith, eq_iff c.collection_name coll)
  coll-first (d ∷ before) after c coll none_before e =
      ground (arith, eq_iff d.collection_name coll, coll-first before after c coll)

module _ {K H : Type 0} where
  -- `getPvtDataHash` of one namespace.
  ns_get_pvt_data_hash : NsRwSet K H → String → Bytes
  unfolding coll_pvt_data_hash
  ns_get_pvt_data_hash ns coll = coll_pvt_data_hash ns.coll_hashed_rw_sets coll

  ns_pvt_data_hash : List (NsRwSet K H) → String → String → Bytes
  unfolding ns_get_pvt_data_hash
  ns_pvt_data_hash [] ns coll = []
  ns_pvt_data_hash (s ∷ sets) ns coll =
      if str_eq s.name_space ns then ns_get_pvt_data_hash s coll else ns_pvt_data_hash sets ns coll

  pub get_pvt_data_hash : TxRwSet K H → String → String → Bytes
  unfolding ns_pvt_data_hash
  get_pvt_data_hash t ns coll = ns_pvt_data_hash t.ns_rw_sets ns coll

  count_ns : ℕ → List (NsRwSet K H) → ℕ
  unfolding count_colls
  count_ns num [] = num
  count_ns num (s ∷ sets) = count_ns (count_colls num s.coll_hashed_rw_sets) sets

  -- The receiver may be nil.
  pub num_collections : Option (TxRwSet K H) → ℕ
  unfolding count_ns
  num_collections none = 0
  num_collections (some t) = count_ns 0 t.ns_rw_sets

module _ {K H : Type 0} where
  -- The collections of all namespaces, in order.
  abbrev pub all_colls : List (NsRwSet K H) → List (CollHashedRwSet H)
  all_colls [] = []
  all_colls (s ∷ sets) = s.coll_hashed_rw_sets ++ all_colls sets

  count_ns_lem :
      (num : ℕ) (sets : List (NsRwSet K H)) → count_ns num sets ≡ num + length (all_colls sets)
  unfolding count_ns
  count_ns_lem num [] = omega arith
  count_ns_lem num (s ∷ sets) =
      count_ns_lem (count_colls num s.coll_hashed_rw_sets) sets
      ∙ omega (
        arith,
        count_colls_lem num s.coll_hashed_rw_sets,
        length-append s.coll_hashed_rw_sets (all_colls sets),
      )

  -- `NumCollections` is the number of the collections of all namespaces together.
  pub num_collections_lem :
      (t : TxRwSet K H) → num_collections (some t) ≡ length (all_colls t.ns_rw_sets)
  unfolding num_collections
  num_collections_lem t = count_ns_lem 0 t.ns_rw_sets ∙ omega arith

  ns-first :
      (before after : List (NsRwSet K H)) (s : NsRwSet K H) (ns coll : String)
      → All (λ d. d.name_space ≢ ns) before
      → s.name_space ≡ ns
      → ns_pvt_data_hash (before ++ s ∷ after) ns coll ≡ ns_get_pvt_data_hash s coll
  unfolding ns_pvt_data_hash
  ns-first [] after s ns coll none_before e = ground (arith, eq_iff s.name_space ns)
  ns-first (d ∷ before) after s ns coll none_before e =
      ground (arith, eq_iff d.name_space ns, ns-first before after s ns coll)

  -- `GetPvtDataHash` returns the hash of the first collection of the asked name in the first
  -- namespace of the asked name.
  pub get_pvt_data_hash-first :
      (t : TxRwSet K H) (s : NsRwSet K H) (c : CollHashedRwSet H)
      (before after : List (NsRwSet K H)) (cs ds : List (CollHashedRwSet H))
      → t.ns_rw_sets ≡ before ++ s ∷ after
      → All (λ d. d.name_space ≢ s.name_space) before
      → s.coll_hashed_rw_sets ≡ cs ++ c ∷ ds
      → All (λ d. d.collection_name ≢ c.collection_name) cs
      → get_pvt_data_hash t s.name_space c.collection_name ≡ c.pvt_rw_set_hash
  unfolding get_pvt_data_hash
  get_pvt_data_hash-first t s c before after cs ds e no_ns f no_coll =
      rw (e, ns-first before after s s.name_space c.collection_name no_ns refl)
        (rw f (coll-first cs ds c c.collection_name no_coll refl))
