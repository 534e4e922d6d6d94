-- ===== src/Txn/Ssi/Tests.antt =====
-- Runs of the rw-conflict graph of transaction/transaction_manager.cpp on small graphs.
use database.Prelude.{◌≡◌, refl, [], arith, ◌↔◌, lookup, insert, nat_eq}
use database.Txn.Defs.{throw, transaction_abort}
use database.Txn.Ssi.{
  Graph, add_serializable_rw_edge_and_check, prepare_serializable_commit,
  register_serializable_begin, index_insert, add_edge, dangerous_structure, dangerous_intervals,
  serializable_intervals_overlap,
}
use database.Txn.Ssi.Edges.{IsIndexed, add_serializable_rw_edge-IsIndexed}
use database.Txn.Ssi.Danger.{
  IsSafe, Danger, accepted_edge-IsSafe, prepare_serializable_commit-Danger,
}

abbrev no_edges : Graph
no_edges = record { intervals = []; rw_edges = []; rw_out_edges = []; rw_in_edges = [] }

-- Three transactions that run together.
abbrev three : Graph
three =
    register_serializable_begin
      (register_serializable_begin (register_serializable_begin no_edges 1 0) 2 0) 3 0

three-IsIndexed : IsIndexed three
unfolding register_serializable_begin lookup
three-IsIndexed = record { out_edges = λ a b. refl; in_edges = λ a b. refl }

-- One edge, from 1 to 2.
abbrev one_edge : Graph
one_edge = (add_serializable_rw_edge_and_check three 1 2).0

one_edge-IsIndexed : IsIndexed one_edge
one_edge-IsIndexed = add_serializable_rw_edge-IsIndexed three 1 2 three-IsIndexed

add_edge_example : IsIndexed (add_serializable_rw_edge_and_check one_edge 2 3).0
add_edge_example = add_serializable_rw_edge-IsIndexed one_edge 2 3 one_edge-IsIndexed

three-IsSafe : IsSafe three
unfolding IsSafe register_serializable_begin
three-IsSafe tin pivot tout a b = ground (arith, a)

accepted_edge_example : IsSafe (add_serializable_rw_edge_and_check three 1 2).0
unfolding add_serializable_rw_edge_and_check register_serializable_begin index_insert add_edge
    dangerous_structure dangerous_intervals serializable_intervals_overlap lookup insert
accepted_edge_example = accepted_edge-IsSafe three 1 2 three-IsIndexed three-IsSafe refl

-- Two edges, from 1 to 2 and from 2 to 3.
abbrev two_edges : Graph
two_edges = (add_serializable_rw_edge_and_check one_edge 2 3).0

prepare_serializable_example :
    (prepare_serializable_commit two_edges 3 1 ≡ throw (transaction_abort 3)) ↔ Danger two_edges 3 1
unfolding add_serializable_rw_edge_and_check register_serializable_begin add_edge lookup insert
prepare_serializable_example =
    prepare_serializable_commit-Danger two_edges 3 1
      (add_serializable_rw_edge-IsIndexed one_edge 2 3 one_edge-IsIndexed) refl

prepare_aborts : prepare_serializable_commit two_edges 3 1 ≡ throw (transaction_abort 3)
unfolding prepare_serializable_commit add_serializable_rw_edge_and_check register_serializable_begin
    index_insert add_edge dangerous_structure dangerous_intervals serializable_intervals_overlap
    lookup insert
prepare_aborts = refl
