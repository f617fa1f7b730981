-- ===== src/Metaverse/Laws.antt =====
-- pallets/metaverse/src/lib.rs: the owners, the ids, the count and the fees of metaverses across every
-- call and every history.
use versus_project_metaverse.Prelude.{◌≤◌, ◌≡◌, some, arith, nat_eq, pair_eq}
use versus_project_metaverse.Prelude.Maps.{get?, get?-insert, insert}
use versus_project_metaverse.Prelude.Keys.{Below, insert-Below, get?-Below, size, size-insert}
use versus_project_metaverse.Prelude.Owners.{Indexed, Indexed-rewrite}
use versus_project_metaverse.Primitives.{AccountId, MetaverseId, MetaverseInfo}
use versus_project_metaverse.Metaverse.Types.{Config, State}

abbrev pub owner_of : MetaverseInfo → AccountId
owner_of info = info.owner

-- The owners are listed, the next id is above every id, no more metaverses stand than were counted,
-- and no listing fee is above 25 percent.
pub record IsRegistered {c : Config} (s : State c) : Type 0 where
  pub indexed : Indexed owner_of s.metaverses s.metaverse_owner
  pub ids : Below s.next_metaverse_id s.metaverses
  pub count : size s.metaverses ≤ s.all_metaverses_count
  pub fees :
      (id : MetaverseId) (info : MetaverseInfo)
      → get? id s.metaverses ≡ some info
      → info.listing_fee ≤ c.from_percent 25

module _ (c : Config) (small : c.from_percent 0 ≤ c.from_percent 25) where
  -- A metaverse that is written again with its owner and an admitted fee.
  pub rewrite-IsRegistered :
      (id : MetaverseId) (v v' : MetaverseInfo) (s s' : State c)
      → get? id s.metaverses ≡ some v
      → v'.owner ≡ v.owner
      → v'.listing_fee ≤ c.from_percent 25
      → s'.metaverses ≡ insert id v' s.metaverses
      → s'.metaverse_owner ≡ s.metaverse_owner
      → s'.next_metaverse_id ≡ s.next_metaverse_id
      → s'.all_metaverses_count ≡ s.all_metaverses_count
      → IsRegistered s
      → IsRegistered s'
  rewrite-IsRegistered id v v' s s' found same fee p q n k h =
      let kept =
        Indexed-rewrite owner_of id v v' s.metaverses s.metaverse_owner found same h.indexed in
      record {
        indexed = ground (arith, kept, p, q);
        ids = ground (
          arith,
          p,
          n,
          h.ids,
          insert-Below s.next_metaverse_id id v' s.metaverses,
          get?-Below s.next_metaverse_id id v s.metaverses found h.ids,
        );
        count = ground (arith, p, k, h.count, found, size-insert id v' s.metaverses);
        fees =
            λ j info e. ground (arith, h.fees j info, fee, p, e, get?-insert j id v' s.metaverses);
      }

  pub same-IsRegistered :
      (s s' : State c)
      → s'.metaverses ≡ s.metaverses
      → s'.metaverse_owner ≡ s.metaverse_owner
      → s'.next_metaverse_id ≡ s.next_metaverse_id
      → s'.all_metaverses_count ≡ s.all_metaverses_count
      → IsRegistered s
      → IsRegistered s'
  same-IsRegistered s s' p q n k h = record {
    indexed = ground (arith, h.indexed, p, q);
    ids = ground (arith, h.ids, p, n);
    count = ground (arith, h.count, p, k);
    fees = λ j info e. ground (arith, h.fees j info, p, e);
  }
