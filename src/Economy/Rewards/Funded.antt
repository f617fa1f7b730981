-- ===== src/Economy/Rewards/Funded.antt =====
-- pallets/economy/src/lib.rs: the entries of the reward pool under `add_share`, `remove_share`,
-- `claim_rewards` and `accumulate_reward`.
use versus_project_metaverse.Prelude.{
  ◌-◌, ◌≤◌, ◌≡◌, some, [], ◌∷◌, ok, arith, u128_max, >>=-eq_ok, inl, inr, Option-cases,
}
use versus_project_metaverse.Prelude.Maps.{get?, get_or, insert, remove}
use versus_project_metaverse.Primitives.{AccountId, Balance, FungibleTokenId, token_eq}
use versus_project_metaverse.Economy.Shares.{
  Rewards, Withdrawn, Pending, reward_to_withdraw, proportion, reward_inflation, inflate, claim_one,
  claim_each, drop_reward, remove_each,
}

-- Of every currency at most the total is withdrawn, and the total fits a `Balance`.
abbrev pub IsFunded : Rewards → Type 0
IsFunded [] = Unit
IsFunded ((_, (total_reward, total_withdrawn)) ∷ rewards) =
    (total_withdrawn ≤ total_reward) × (total_reward ≤ u128_max) × IsFunded rewards

pub insert-IsFunded :
    (k : FungibleTokenId) (r w : Balance) (m : Rewards)
    → w ≤ r
    → r ≤ u128_max
    → IsFunded m
    → IsFunded (insert k (r, w) m)
unfolding insert
insert-IsFunded k r w [] p q h = (p, q, tt)
insert-IsFunded k r w (x ∷ m) p q h = ground (arith, insert-IsFunded k r w m p q)

pub remove-IsFunded : (k : FungibleTokenId) (m : Rewards) → IsFunded m → IsFunded (remove k m)
unfolding remove
remove-IsFunded k [] h = tt
remove-IsFunded k (x ∷ m) h = ground (arith, remove-IsFunded k m)

pub get?-IsFunded :
    (k : FungibleTokenId) (m : Rewards) (r w : Balance)
    → IsFunded m
    → get? k m ≡ some (r, w)
    → (w ≤ r) × (r ≤ u128_max)
unfolding get?
get?-IsFunded k [] r w h e = absurd (ground arith)
get?-IsFunded k (x ∷ m) r w h e = ground (arith, get?-IsFunded k m r w)

pub inflate-IsFunded :
    (a t : Balance) (m m' : Rewards) (i : Withdrawn)
    → inflate a t m ≡ ok (m', i)
    → IsFunded m
    → IsFunded m'
unfolding inflate
inflate-IsFunded a t [] m' i e h = ground arith
inflate-IsFunded a t ((k, (r, w)) ∷ m) m' i e h =
    let (x, inflated, e') = >>=-eq_ok (reward_inflation a t r) _ e in
    let ((n, j), rest, e'') = >>=-eq_ok (inflate a t m) _ e' in
    ground (arith, inflate-IsFunded a t m n j rest)

pub drop_reward-IsFunded :
    (k : FungibleTokenId) (a : Balance) (m : Rewards) → IsFunded m → IsFunded (drop_reward k a m)
unfolding drop_reward
drop_reward-IsFunded k a m h = elim (Option-cases (get? k m)) [
  | inl missing ↦ ground arith
  | inr ((r, w), found) ↦ ground (
    arith,
    found,
    get?-IsFunded k m r w h found,
    remove-IsFunded k m h,
    insert-IsFunded k (r - a) (w - a) m,
  )
]

pub remove_each-IsFunded :
    (a s : Balance) (ws ws' : Withdrawn) (m m' : Rewards)
    → remove_each a s ws m ≡ ok (m', ws')
    → IsFunded m
    → IsFunded m'
unfolding remove_each
remove_each-IsFunded a s [] ws' m m' e h = ground arith
remove_each-IsFunded a s ((k, w) ∷ ws) ws' m m' e h =
    let (x, part, e') = >>=-eq_ok (proportion a w s) _ e in
    let ((n, vs), rest, e'') = >>=-eq_ok (remove_each a s ws (drop_reward k x m)) _ e' in
    ground (
      arith,
      drop_reward-IsFunded k x m h,
      remove_each-IsFunded a s ws vs (drop_reward k x m) n rest,
    )

-- A claim takes no more than what is left of the currency.
pub reward_to_withdraw-le :
    (share r t old w : Balance) {reward : Balance}
    → reward_to_withdraw share r t old w ≡ ok reward
    → reward ≤ r - w
unfolding reward_to_withdraw
reward_to_withdraw-le share r t old w e = ground arith

pub claim_one_bounds :
    (who : AccountId) (ws ws' : Withdrawn) (k : FungibleTokenId) (share r t w w' : Balance)
    (p p' : Pending)
    → claim_one who ws k share r t w p ≡ ok (ws', w', p')
    → w ≤ r
    → r ≤ u128_max
    → (w ≤ w') × (w' ≤ r)
unfolding claim_one
claim_one_bounds who ws ws' k share r t w w' p p' e h q =
    let old = get_or 0 k ws in
    let (reward, found, e') = >>=-eq_ok (reward_to_withdraw share r t old w) _ e in
    ground (arith, reward_to_withdraw-le share r t old w found)

pub claim_each-IsFunded :
    (who : AccountId) (share t : Balance) (m m' : Rewards) (ws ws' : Withdrawn) (p p' : Pending)
    → claim_each who share t m ws p ≡ ok (m', ws', p')
    → IsFunded m
    → IsFunded m'
unfolding claim_each
claim_each-IsFunded who share t [] m' ws ws' p p' e h = ground arith
claim_each-IsFunded who share t ((k, (r, w)) ∷ m) m' ws ws' p p' e h =
    let ((vs, v, q), one, e') = >>=-eq_ok (claim_one who ws k share r t w p) _ e in
    let ((n, us, o), rest, e'') = >>=-eq_ok (claim_each who share t m vs q) _ e' in
    ground (
      arith,
      claim_one_bounds who ws vs k share r t w v p q one,
      claim_each-IsFunded who share t m n vs us q o rest,
    )
