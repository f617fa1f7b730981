-- ===== src/Metaverse/CallLaws.antt =====
-- pallets/metaverse/src/lib.rs: the registry across the calls that change it.
use versus_project_metaverse.Prelude.{
  ℕ, ◌+◌, Bool, List, ok_or, module_error, checked_add, u64_max, ◌≤◌, ◌≡◌, true, false, ok, arith,
  nat_eq, pair_eq, >>=-eq_ok, inl, inr, Option-cases, Bool-cases, Outcome-cases, refl, ◌==◌,
  is_some,
}
use versus_project_metaverse.Prelude.Maps.{get?, get?-insert, get?-remove, insert, remove}
use versus_project_metaverse.Prelude.Keys.{
  Below-weaken, Below-fresh, insert-Below, remove-Below, get?-Below, size-insert, size-remove,
}
use versus_project_metaverse.Prelude.Owners.{Indexed-add, Indexed-drop, Indexed-move}
use versus_project_metaverse.Primitives.{
  AccountId, MetaverseId, MetaverseInfo, FungibleTokenId, native_token, Perbill,
}
use versus_project_metaverse.Metaverse.Types
use versus_project_metaverse.Metaverse.Types.{Config, State}
use versus_project_metaverse.Metaverse.Registry
use versus_project_metaverse.Metaverse.Laws.{
  IsRegistered, owner_of, rewrite-IsRegistered, same-IsRegistered,
}

module _ (c : Config) (small : c.from_percent 0 ≤ c.from_percent 25) where
  new_metaverse_writes :
      (who : AccountId) (metadata : List ℕ) (id : MetaverseId) (s s' : State c)
      → Registry.new_metaverse c who metadata s ≡ ok (id, s')
      → (info : MetaverseInfo) × (info.owner ≡ who)
        × (info.listing_fee ≡ c.from_percent 0)
        × (id ≡ s.next_metaverse_id)
        × (s'.metaverses ≡ insert id info s.metaverses)
        × (s'.metaverse_owner ≡ s.metaverse_owner)
        × (s'.next_metaverse_id ≡ id + 1)
        × (s'.all_metaverses_count ≡ s.all_metaverses_count)
  unfolding Registry.new_metaverse
  new_metaverse_writes who metadata id s s' e =
      let (next, fits, e0) =
        >>=-eq_ok
          (ok_or (checked_add u64_max s.next_metaverse_id 1)
            (module_error Types.no_available_metaverse_id))
          _ e in
      let ((land, nfts), _, e1) =
        >>=-eq_ok (Registry.mint_metaverse_land_class c s.next_metaverse_id s.nfts) _ e0 in
      let ((estate, nfts'), _, e2) =
        >>=-eq_ok (Registry.mint_metaverse_estate_class c s.next_metaverse_id nfts) _ e1 in
      let info : MetaverseInfo = record {
        owner = who;
        metadata = metadata;
        currency_id = native_token 0;
        is_frozen = false;
        land_class_id = land;
        estate_class_id = estate;
        listing_fee = c.from_percent 0;
      } in
      (
        info,
        refl,
        refl,
        ground (arith, e2),
        ground (arith, e2),
        ground (arith, e2),
        ground (arith, e2, fits),
        ground (arith, e2),
      )

  create_steps :
      (who : AccountId) (metadata : List ℕ) (id : MetaverseId) (s s' : State c)
      → Registry.do_create_metaverse c who metadata s ≡ ok (id, s')
      → (l : c.Ledger) × ((t : State c) × (Registry.new_metaverse c who metadata
              (record s { ledger = l })
            ≡ ok (id, t))
          × (s'.metaverses ≡ t.metaverses)
          × (s'.metaverse_owner ≡ insert (who, id) tt t.metaverse_owner)
          × (s'.next_metaverse_id ≡ t.next_metaverse_id)
          × (s'.all_metaverses_count ≡ t.all_metaverses_count + 1))
  unfolding Registry.do_create_metaverse
  create_steps who metadata id s s' e =
      elim (Outcome-cases (c.transfer who c.treasury_account c.min_contribution s.ledger)) [
        | inl (paid, first) ↦
            elim (Outcome-cases (c.transfer who c.network_treasury c.storage_deposit_fee paid)) [
              | inl (l, second) ↦
                  elim (Outcome-cases
                    (Registry.new_metaverse c who metadata (record s { ledger = l }))) [
                      | inl ((j, t), new) ↦ (
                        l,
                        (
                          t,
                          ground (arith, first, second, new),
                          ground (arith, first, second, new),
                          ground (arith, first, second, new),
                          ground (arith, first, second, new),
                          ground (arith, first, second, new),
                        ),
                      )
                      | inr failed ↦ absurd (ground (arith, first, second, failed))
                    ]
              | inr failed ↦ absurd (ground (arith, first, failed))
            ]
        | inr failed ↦ absurd (ground (arith, failed))
      ]

  pub create_metaverse-IsRegistered :
      (o : c.Origin) (metadata : List ℕ) (s s' : State c)
      → Registry.create_metaverse c o metadata s ≡ ok s'
      → IsRegistered s
      → IsRegistered s'
  unfolding Registry.create_metaverse
  create_metaverse-IsRegistered o metadata s s' e h =
      let (who, signed, e0) = >>=-eq_ok (c.ensure_signed o) _ e in
      let ((id, t), made, e1) = >>=-eq_ok (Registry.do_create_metaverse c who metadata s) _ e0 in
      let (l, (u, new, same, listed, next, counted)) = create_steps who metadata id s t made in
      let (info, by, fee, fresh, p, q, n, k) =
        new_metaverse_writes who metadata id (record s { ledger = l }) u new in
      let absent = Below-fresh s.next_metaverse_id s.next_metaverse_id s.metaverses in
      let kept =
        Indexed-add owner_of id info s.metaverses s.metaverse_owner
          (ground (arith, absent, h.ids, fresh)) h.indexed in
      let m : s'.metaverses ≡ insert id info s.metaverses = ground (arith, p, same, e1) in
      record {
        indexed = ground (arith, kept, m, q, by, listed, e1);
        ids = ground (
          arith,
          m,
          n,
          next,
          e1,
          h.ids,
          fresh,
          insert-Below (id + 1) id info s.metaverses,
          Below-weaken s.next_metaverse_id (id + 1) s.metaverses,
        );
        count = ground (arith, m, k, counted, e1, h.count, size-insert id info s.metaverses);
        fees = λ j i f.
            ground (arith, h.fees j i, m, f, fee, small, get?-insert j id info s.metaverses);
      }

  pub transfer_metaverse-IsRegistered :
      (o : c.Origin) (to : AccountId) (id : MetaverseId) (s s' : State c)
      → Registry.transfer_metaverse c o to id s ≡ ok s'
      → IsRegistered s
      → IsRegistered s'
  unfolding Registry.transfer_metaverse
  transfer_metaverse-IsRegistered o to id s s' e h =
      let (who, signed, e0) = >>=-eq_ok (c.ensure_signed o) _ e in
      elim (Bool-cases (who == to)) [
        | inl self ↦
            same-IsRegistered c small s s' (ground (arith, self)) (ground (arith, self))
              (ground (arith, self)) (ground (arith, self)) h
        | inr moves ↦ elim (Option-cases (get? id s.metaverses)) [
          | inl missing ↦ absurd (ground (arith, missing, moves))
          | inr (v, found) ↦
              let v' : MetaverseInfo = record v { owner = to } in
              let held : is_some (get? (who, id) s.metaverse_owner) ≡ true =
                ground (arith, found, moves) in
              let mine : v.owner ≡ who = ground (arith, found, held, h.indexed.owners who id) in
              let p : s'.metaverses ≡ insert id v' s.metaverses = ground (arith, found, moves) in
              let q : s'.metaverse_owner
                  ≡ insert (to, id) tt (remove (v.owner, id) s.metaverse_owner) =
                ground (arith, found, moves, mine) in
              let kept =
                Indexed-move owner_of id to v v' s.metaverses s.metaverse_owner found refl
                  h.indexed in
              record {
                indexed = ground (arith, kept, p, q);
                ids = ground (
                  arith,
                  p,
                  h.ids,
                  found,
                  moves,
                  insert-Below s.next_metaverse_id id v' s.metaverses,
                  get?-Below s.next_metaverse_id id v s.metaverses found h.ids,
                );
                count = ground (arith, p, h.count, found, moves, size-insert id v' s.metaverses);
                fees = λ j info f. ground (
                  arith,
                  h.fees j info,
                  h.fees id v found,
                  p,
                  f,
                  get?-insert j id v' s.metaverses,
                );
              }
        ]
      ]

  pub set_frozen-IsRegistered :
      (frozen : Bool) (id : MetaverseId) (s s' : State c)
      → Registry.set_frozen c frozen id s ≡ ok s'
      → IsRegistered s
      → IsRegistered s'
  unfolding Registry.set_frozen
  set_frozen-IsRegistered frozen id s s' e h = elim (Option-cases (get? id s.metaverses)) [
    | inl missing ↦ absurd (ground (arith, missing))
    | inr (v, found) ↦
        rewrite-IsRegistered c small id v (record v { is_frozen = frozen }) s s' found refl
          (h.fees id v found) (ground (arith, found)) (ground (arith, found))
          (ground (arith, found)) (ground (arith, found)) h
  ]

  pub destroy_metaverse-IsRegistered :
      (o : c.Origin) (id : MetaverseId) (s s' : State c)
      → Registry.destroy_metaverse c o id s ≡ ok s'
      → IsRegistered s
      → IsRegistered s'
  unfolding Registry.destroy_metaverse
  destroy_metaverse-IsRegistered o id s s' e h = elim (Option-cases (get? id s.metaverses)) [
    | inl missing ↦ absurd (ground (arith, missing))
    | inr (v, found) ↦
        let p : s'.metaverses ≡ remove id s.metaverses = ground (arith, found) in
        let q : s'.metaverse_owner ≡ remove (v.owner, id) s.metaverse_owner =
          ground (arith, found) in
        let kept = Indexed-drop owner_of id v s.metaverses s.metaverse_owner found h.indexed in
        record {
          indexed = ground (arith, kept, p, q);
          ids = ground (arith, found, p, h.ids, remove-Below s.next_metaverse_id id s.metaverses);
          count = ground (arith, found, p, h.count, size-remove id s.metaverses);
          fees = λ j info f.
              ground (arith, h.fees j info, p, f, get?-remove j id s.metaverses h.indexed.distinct);
        }
  ]

  pub update_fee-IsRegistered :
      (who : AccountId) (id : MetaverseId) (fee : Perbill) (s s' : State c)
      → Registry.do_update_metaverse_listing_fee c who id fee s ≡ ok s'
      → IsRegistered s
      → IsRegistered s'
  unfolding Registry.do_update_metaverse_listing_fee
  update_fee-IsRegistered who id fee s s' e h = elim (Option-cases (get? id s.metaverses)) [
    | inl missing ↦ absurd (ground (arith, missing))
    | inr (v, found) ↦
        rewrite-IsRegistered c small id v (record v { listing_fee = fee }) s s' found refl
          (ground (arith, found)) (ground (arith, found)) (ground (arith, found))
          (ground (arith, found)) (ground (arith, found)) h
  ]

  pub update_token-IsRegistered :
      (id : MetaverseId) (currency : FungibleTokenId) (s s' : State c)
      → Registry.update_metaverse_token c id currency s ≡ ok s'
      → IsRegistered s
      → IsRegistered s'
  unfolding Registry.update_metaverse_token
  update_token-IsRegistered id currency s s' e h = elim (Option-cases (get? id s.metaverses)) [
    | inl missing ↦ absurd (ground (arith, missing))
    | inr (v, found) ↦
        rewrite-IsRegistered c small id v (record v { currency_id = currency }) s s' found refl
          (h.fees id v found) (ground (arith, found)) (ground (arith, found))
          (ground (arith, found)) (ground (arith, found)) h
  ]
