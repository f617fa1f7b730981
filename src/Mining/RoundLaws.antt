-- ===== src/Mining/RoundLaws.antt =====
-- pallets/mining/src/lib.rs and mining.rs: when a round ends, and what the next one is.
use versus_project_metaverse.Prelude.{
  inl, ◌+◌, ◌≤◌, ◌<◌, ◌≡◌, ◌⊎◌, true, false, ok, panic, arith, >>=-eq_ok, u32_max,
}
use versus_project_metaverse.Primitives.{BlockNumber, MiningRange, should_update, update, is_valid}
use versus_project_metaverse.Mining.Types.{Config, State}
use versus_project_metaverse.Mining.Rounds.{
  convert_annual_to_round, round_issuance_range, new_round, on_initialize, update_round_length,
}

module _ (c : Config) where
  -- While the round lasts, or while mining is paused, a block changes nothing.
  pub on_initialize_idle :
      (n : BlockNumber) (s : State c)
      → (should_update s.round n ≡ false) ⊎ (s.mining_paused ≡ true)
      → on_initialize c n s ≡ ok s
  unfolding on_initialize
  on_initialize_idle n s h = ground arith

  round_issuance_range-is_valid :
      (s : State c) (range : MiningRange)
      → round_issuance_range c s.mining_config s ≡ ok range
      → is_valid range ≡ true
  unfolding round_issuance_range is_valid
  round_issuance_range-is_valid s range e = ground arith

  new_round_lem :
      (n : BlockNumber) (s s' : State c)
      → s.round.current < u32_max
      → new_round c n s ≡ ok s'
      → (s'.round.current ≡ s.round.current + 1)
        × (s'.round.first ≡ n)
        × (s'.round.length ≡ s.round.length)
        × (is_valid s'.current_mining_resource_allocation ≡ true)
  unfolding new_round update
  new_round_lem n s s' small e =
      let (range, issued, e') = >>=-eq_ok (round_issuance_range c s.mining_config s) _ e in
      ground (arith, round_issuance_range-is_valid s range issued)

  -- A round lasts its length: from its first block n on nothing happens before block n + length,
  -- with block numbers in range.
  pub round_lasts :
      (n m : BlockNumber) (s : State c)
      → s.round.first ≡ n
      → n ≤ m
      → m < n + s.round.length
      → n + s.round.length ≤ u32_max
      → on_initialize c m s ≡ ok s
  unfolding should_update
  round_lasts n m s starts from before fits = on_initialize_idle m s (inl (ground arith))

  -- In block n + length of a round that began in block n, unpaused and with block numbers and the
  -- round index in range, a block that succeeds starts the next round there, of the same length,
  -- with a valid allocation range.
  pub round_ends :
      (n : BlockNumber) (s s' : State c)
      → s.round.first ≡ n
      → s.mining_paused ≡ false
      → n + s.round.length ≤ u32_max
      → s.round.current < u32_max
      → on_initialize c (n + s.round.length) s ≡ ok s'
      → (s'.round.current ≡ s.round.current + 1)
        × (s'.round.first ≡ n + s.round.length)
        × (s'.round.length ≡ s.round.length)
        × (is_valid s'.current_mining_resource_allocation ≡ true)
  unfolding on_initialize should_update
  round_ends n s s' starts runs fits small e =
      new_round_lem (n + s.round.length) s s' small (ground arith)

  -- The root may set the length of the round to zero, and then the next block of an unpaused chain
  -- panics: the number of rounds in a year is divided by it.
  pub update_round_length_zero :
      (o : c.Origin) (n : BlockNumber) (s s' : State c)
      → s.mining_paused ≡ false
      → update_round_length c o 0 s ≡ ok s'
      → on_initialize c n s' ≡ panic
  unfolding update_round_length on_initialize new_round round_issuance_range convert_annual_to_round
      should_update
  update_round_length_zero o n s s' runs e = ground arith
