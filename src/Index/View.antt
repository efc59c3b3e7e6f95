-- ===== src/Index/View.antt =====
-- What a client can see in the index, as tests: the abstract contents that its theorems speak of.
use rgb_wallet.Prelude.{ℕ, Option, none, some, Bool, true, false}
use rgb_wallet.Collections.Map
use rgb_wallet.Collections.Map.{Map}
use rgb_wallet.Collections.Set
use rgb_wallet.Collections.Set.{Set}
use rgb_wallet.Collections.Ord.{nat_ord}
use rgb_wallet.Contract.Types.{Opout, opout_ord}
use rgb_wallet.Index.Defs.{MemIndex, ContractIndex}

abbrev pub in_set : Option (Set Opout) → Opout → Bool
in_set none x = false
in_set (some s) x = Set.contains s x

abbrev pub in_witnesses : Option (Set ℕ) → ℕ → Bool
in_witnesses none w = false
in_witnesses (some s) w = Set.contains s w

abbrev pub in_outputs : Option ContractIndex → ℕ → Opout → Bool
in_outputs none o x = false
in_outputs (some c) o x = in_set (Map.get c.outpoint_opouts o) x

abbrev pub in_public : Option ContractIndex → Opout → Bool
in_public none x = false
in_public (some c) x = Set.contains c.public_opouts x

-- The bundle is known to be committed to by the witness.
abbrev pub witnessed : MemIndex → ℕ → ℕ → Bool
witnessed s bundle w = in_witnesses (Map.get s.bundle_witness_index bundle) w

-- The operation output is recorded at the output seal of the contract.
abbrev pub recorded : MemIndex → ℕ → ℕ → Opout → Bool
recorded s contract output x = in_outputs (Map.get s.contract_index contract) output x

abbrev pub public_has : MemIndex → ℕ → Opout → Bool
public_has s contract x = in_public (Map.get s.contract_index contract) x

abbrev pub has_contract : MemIndex → ℕ → Bool
has_contract s contract = elim (Map.get s.contract_index contract) [ none ↦ false | some _ ↦ true ]

-- The operation output is recorded under the concealed seal.
abbrev pub terminal : MemIndex → ℕ → Opout → Bool
terminal s seal x = in_set (Map.get s.terminal_index seal) x
