-- ===== src/Examples/Indexing.antt =====
-- A consignment that is indexed (src/persistence/index.rs, src/persistence/memory.rs).
use rgb_wallet.Prelude.{ℕ, List, [], ◌∷◌, Option, some, false, ok, ◌≡◌, refl, eqb, ltb, not, arith}
use rgb_wallet.Collections.Map
use rgb_wallet.Collections.Set
use rgb_wallet.Collections.Set.{Set}
use rgb_wallet.Collections.Ord.{nat_ord}
use rgb_wallet.Collections.Confinement.{Confinement}
use rgb_wallet.Contract.Types.{States, Assign, confidential_seal, revealed, fungible, Op}
use rgb_wallet.Index.Defs.{MemIndex, in_memory}
use rgb_wallet.Index.Write.{
  register_contract, index_outputs, index_output, seal_of, add_output, extend_terminals,
  extend_terminal, secret_of, index_genesis_assignments, index_transition_assignments, push_witness,
  put_contract, register_bundle, register_operation, add_terminal, index_assignments,
}
use rgb_wallet.Exec.{for_each}
use rgb_wallet.Index.Grows.{Grows}
use rgb_wallet.Index.Recorded.{Kept, SecretsFrom, index_assignments-terminals}
use rgb_wallet.Index.View.{terminal}
use rgb_wallet.Index.Front.{
  Consignment, index_consignment, call, index_genesis, genesis_assigns, index_bundle, graph_assigns,
  index_extension, index_transition,
}
use rgb_wallet.Index.Consignment.{ConsignmentAt, index_consignment-Grows, index_consignment_lem}

abbrev numbers : States
numbers = record { Rights = ℕ; Value = ℕ; Structure = ℕ; Attach = ℕ }

abbrev endless : Confinement
endless = record {
  tiny_full = λ n. false;
  small_full = λ n. false;
  medium_full = λ n. false;
  large_full = λ n. false;
}

-- At most one element
abbrev single : Confinement
single = record {
  tiny_full = λ n. eqb n 1;
  small_full = λ n. eqb n 1;
  medium_full = λ n. false;
  large_full = λ n. false;
}

-- A genesis with a revealed seal, and a transition to a concealed one
abbrev genesis : Op numbers ℕ
genesis = record { id = 1; assignments = (4000, fungible (revealed 50 100 0 ∷ [])) ∷ [] }

abbrev transfer : Op numbers ℕ
transfer = record {
  id = 2;
  assignments = (4000, fungible (confidential_seal 77 60 0 ∷ revealed 51 40 0 ∷ [])) ∷ [];
}

abbrev consignment : Consignment numbers ℕ ℕ
consignment = record {
  contract_id = 7;
  genesis = genesis;
  extensions = [];
  bundled_witnesses =
      record {
        witness_id = 30;
        bundles =
            record {
              bundle_id = 20;
              input_map = (0, 2) ∷ [];
              known_transitions = (2, transfer) ∷ [];
            }
            ∷ [];
      }
      ∷ [];
}

abbrev blank_seal : ℕ → ℕ → Option ℕ
blank_seal seal witness = some seal

abbrev indexed : MemIndex
indexed = record {
  op_bundle_index = record { entries = (2, 20) ∷ [] };
  bundle_contract_index = record { entries = (20, 7) ∷ [] };
  bundle_witness_index = record { entries = (20, record { elements = 30 ∷ [] }) ∷ [] };
  contract_index = record {
    entries =
        (
          7,
          record {
            public_opouts = Set.empty;
            outpoint_opouts = record {
              entries =
                  (50, Set.singleton (record { op = 1; ty = 4000; no = 0 }))
                  ∷ (51, Set.singleton (record { op = 2; ty = 4000; no = 1 }))
                  ∷ [];
            };
          },
        )
        ∷ [];
  };
  terminal_index = record {
    entries = (77, Set.singleton (record { op = 2; ty = 4000; no = 0 })) ∷ [];
  };
}

runs : index_consignment endless some blank_seal consignment in_memory ≡ (ok tt, indexed)
unfolding index_consignment call register_contract Map.get index_genesis for_each genesis_assigns
    index_assignments Map.insert index_outputs index_output seal_of add_output extend_terminals
    extend_terminal secret_of index_bundle register_bundle Map.remove Set.add Set.insert
    graph_assigns index_extension index_transition add_terminal index_genesis_assignments
    index_transition_assignments push_witness put_contract register_operation
runs = refl

index_consignment_example : ConsignmentAt endless some blank_seal indexed consignment
index_consignment_example =
    index_consignment_lem endless some blank_seal consignment in_memory indexed runs

Grows_example : Grows indexed (index_consignment single some blank_seal consignment indexed).1
Grows_example = index_consignment-Grows single some blank_seal consignment indexed

abbrev transferred : List (Assign ℕ ℕ)
transferred = confidential_seal 77 60 0 ∷ revealed 51 40 0 ∷ []

abbrev registered : MemIndex
registered = record in_memory {
  contract_index = record {
    entries = (7, record { public_opouts = Set.empty; outpoint_opouts = Map.empty }) ∷ [];
  };
}

abbrev assigned : MemIndex
assigned = record in_memory {
  contract_index = record {
    entries =
        (
          7,
          record {
            public_opouts = Set.empty;
            outpoint_opouts = record {
              entries = (51, Set.singleton (record { op = 2; ty = 4000; no = 1 })) ∷ [];
            };
          },
        )
        ∷ [];
  };
  terminal_index = record {
    entries = (77, Set.singleton (record { op = 2; ty = 4000; no = 0 })) ∷ [];
  };
}

-- The index of terminals takes two seals.
abbrev two_seals : Confinement
two_seals = record endless { medium_full = λ n. not (ltb n 2) }

assigns : index_assignments two_seals some 7 transferred 2 4000 registered ≡ (ok tt, assigned)
unfolding index_assignments Map.get Map.insert Map.remove Set.insert Set.add index_outputs
    index_output seal_of add_output extend_terminals extend_terminal secret_of add_terminal
assigns = refl

index_assignments-terminals_example :
    SecretsFrom (terminal assigned) 2 4000 0 transferred × Kept registered assigned
index_assignments-terminals_example =
    index_assignments-terminals two_seals some 7 transferred 2 4000 registered assigned
      (λ n below. ground (arith, below)) assigns
