-- ===== src/Gate/Sets.antt =====
-- PartitionSet of member/gate/gate.go.
use arbiter_core.Base.{
  ◌≡◌, sym, ap, ◌∙◌, ◌↔◌, List, Bytes, ≟_iff, list_eq, nat_eq, list_ord, nat_ord, ok, contains,
  sort, compact, contains-sort, contains-compact, compact-sort-IsStrict, strict_unique, arith,
}
use arbiter_core.Gate.{id_set, partition_set}

contains-id_set : (a : Bytes) (ids : List Bytes) → contains a (id_set ids) ≡ contains a ids
unfolding id_set
contains-id_set a ids = contains-compact a (sort ids) ∙ contains-sort a ids

id_set-eq :
    (xs ys : List Bytes) → ((a : Bytes) → contains a xs ≡ contains a ys) → id_set xs ≡ id_set ys
unfolding id_set
id_set-eq xs ys h =
    strict_unique (compact (sort xs)) (compact (sort ys)) (compact-sort-IsStrict xs)
      (compact-sort-IsStrict ys)
      (λ a. unfold id_set in contains-id_set a xs ∙ h a ∙ sym (contains-id_set a ys))

-- The partition-set check passes exactly when the two lists of ids have the same members; repeats
-- and order are ignored.
pub partition_set_iff :
    (manifest local : List Bytes)
    → (partition_set manifest local ≡ ok tt)
      ↔ ((a : Bytes) → contains a manifest ≡ contains a local)
unfolding partition_set
partition_set_iff manifest local = (
  λ e a.
      let same : id_set manifest ≡ id_set local =
        ground (arith, ≟_iff (id_set manifest) (id_set local)) in
      sym (contains-id_set a manifest) ∙ ap (contains a) same ∙ contains-id_set a local,
  λ h. ground (arith, ≟_iff (id_set manifest) (id_set local), id_set-eq manifest local h),
)
