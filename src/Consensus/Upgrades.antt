-- ===== src/Consensus/Upgrades.antt =====
-- crates/consensus/src/upgrades.rs: the network upgrades and the epoch that a height lies in.
-- The array of upgrades is a function of the index, which is always in range.
pub mod Epochs
use fluxd_rust.Prelude.{
  ℕ, ◌<◌, List, [], ◌∷◌, Bool, true, false, ◌&&◌, ◌||◌, not, Option, none, some, if◌then◌else◌,
  ◌==◌,
}
use fluxd_rust.Prelude.Int.{ℤ, pos, negsuc, leb_ℤ, ltb_ℤ, eq_ℤ}
use mathlib.Core.Option

pub data UpgradeIndex : Type 0 where
  base_sprout test_dummy lwma equi144_5 acadia kamiooka kamata flux halving p2sh_nodes pon :
      UpgradeIndex

abbrev pub as_usize : UpgradeIndex → ℕ
as_usize base_sprout = 0
as_usize test_dummy = 1
as_usize lwma = 2
as_usize equi144_5 = 3
as_usize acadia = 4
as_usize kamiooka = 5
as_usize kamata = 6
as_usize flux = 7
as_usize halving = 8
as_usize p2sh_nodes = 9
as_usize pon = 10

-- `ALL_UPGRADES` without its first entry, in order, and `ALL_UPGRADES` in reverse.
abbrev pub later_upgrades : List UpgradeIndex
later_upgrades =
    test_dummy ∷ lwma ∷ equi144_5 ∷ acadia ∷ kamiooka ∷ kamata ∷ flux ∷ halving ∷ p2sh_nodes ∷ pon
    ∷ []

abbrev pub all_upgrades_rev : List UpgradeIndex
all_upgrades_rev =
    pon ∷ p2sh_nodes ∷ halving ∷ flux ∷ kamata ∷ kamiooka ∷ acadia ∷ equi144_5 ∷ lwma ∷ test_dummy
    ∷ base_sprout ∷ []

pub record NetworkUpgrade : Type 0 where
  pub protocol_version : ℤ
  pub activation_height : ℤ
  pub hash_activation_block : Option (List ℕ)

abbrev pub no_activation_height : ℤ
no_activation_height = negsuc 0

pub data UpgradeState : Type 0 where
  disabled pending active : UpgradeState

abbrev pub Upgrades : Type 0
Upgrades = UpgradeIndex → NetworkUpgrade

abbrev pub branch_id : UpgradeIndex → ℕ
branch_id base_sprout = 0
branch_id test_dummy = 0x74736554
branch_id _ = 0x76b8_09bb

module _ (height : ℤ) (upgrades : Upgrades) where
  unfoldable pub network_upgrade_state : UpgradeIndex → UpgradeState
  network_upgrade_state idx =
      let activation_height = (upgrades idx).activation_height in
      if eq_ℤ activation_height no_activation_height
      then disabled
      else if leb_ℤ activation_height height
      then active
      else pending

  abbrev is_active : UpgradeState → Bool
  is_active disabled = false
  is_active pending = false
  is_active active = true

  abbrev is_pending : UpgradeState → Bool
  is_pending disabled = false
  is_pending pending = true
  is_pending active = false

  unfoldable pub network_upgrade_active : UpgradeIndex → Bool
  network_upgrade_active idx = is_active (network_upgrade_state idx)

  first_active : List UpgradeIndex → UpgradeIndex
  first_active [] = base_sprout
  first_active (idx ∷ rest) = if network_upgrade_active idx then idx else first_active rest

  unfoldable pub current_epoch : UpgradeIndex
  unfolding first_active
  current_epoch = first_active all_upgrades_rev

  unfoldable pub current_epoch_branch_id : ℕ
  unfolding current_epoch
  current_epoch_branch_id = branch_id current_epoch

  unfoldable pub is_activation_height : UpgradeIndex → Bool
  is_activation_height idx =
      if as_usize idx == 0 || ltb_ℤ height (pos 0)
      then false
      else eq_ℤ height (upgrades idx).activation_height

  any_activation : List UpgradeIndex → Bool
  any_activation [] = false
  any_activation (idx ∷ rest) = eq_ℤ height (upgrades idx).activation_height || any_activation rest

  unfoldable pub is_activation_height_for_any_upgrade : Bool
  unfolding any_activation
  is_activation_height_for_any_upgrade =
      if ltb_ℤ height (pos 0) then false else any_activation later_upgrades

  first_pending : List UpgradeIndex → Option UpgradeIndex
  first_pending [] = none
  first_pending (idx ∷ rest) =
      if is_pending (network_upgrade_state idx) then some idx else first_pending rest

  unfoldable pub next_epoch : Option UpgradeIndex
  unfolding first_pending
  next_epoch = if ltb_ℤ height (pos 0) then none else first_pending later_upgrades

  unfoldable pub next_activation_height : Option ℤ
  unfolding next_epoch
  next_activation_height = Option.map (λ idx. (upgrades idx).activation_height) next_epoch

any_branch : ℕ → List UpgradeIndex → Bool
any_branch id [] = false
any_branch id (idx ∷ rest) = branch_id idx == id || any_branch id rest

unfoldable pub is_consensus_branch_id : ℕ → Bool
unfolding any_branch
is_consensus_branch_id id = any_branch id all_upgrades_rev
