-- ===== src/ReplayMemo/Bounded.antt =====
-- The bound of the memo in verifier/replay_executor_memo.go, and the end of its eviction loop.
use arbiter_core.ReplayMemo.{
  MemoKey, MemoEntry, Memo, memo_key_eq, new_memo, move_to_front, back, get, remove, remove_back,
  is_full, make_room, entry_of, push_front, put, replay_memo_bytes, replay_memo_entry_overhead,
}
use arbiter_core.Base.{
  ℕ, zero, suc, refl, true, false, none, some, arith, list_eq, nat_eq, ◌≟◌, ≟_iff, Bytes, lookup,
  length, count, ◌≡◌, ◌-◌, ◌≤◌, ◌<◌, ltb, inl, inr, Bool-cases, Option-cases, lookup-insert,
  lookup-delete, ap, sym, ◌∙◌,
}
use arbiter_core.ReplayMemo.Elements.{
  IsCounted, IsMemo, back-find, back-none, count-delete, count-insert_absent, find, find-key,
  find-occurs, find-remove_element, find-some, length-delete, length-insert_absent,
  length-remove_element, occurs, occurs-remove_element, total_cost, total_cost-remove_element,
}

pub new_memo-IsMemo : (n : ℕ) (id : Bytes) → IsMemo (new_memo n id)
unfolding new_memo lookup find occurs count
new_memo-IsMemo n id = record {
  is_counted = record {
    unique = λ k. omega arith;
    indexed = λ k. refl;
    listed = λ k. refl;
    sized = refl;
    weighed = refl;
  };
  few = omega arith;
  light = omega arith;
}

-- An element moved to the front.
touched-IsMemo :
    (e : MemoEntry) (m : Memo)
    → find e.key m.lru ≡ some e
    → IsMemo m
    → IsMemo (record m { lru = move_to_front e m.lru })
unfolding move_to_front find occurs
touched-IsMemo e m h i =
    let c = i.is_counted in
    let there = find-some m.lru e h in
    let cost = total_cost-remove_element e.key m.lru e h in
    let size = length-remove_element e.key m.lru there in
    record {
      is_counted = record {
        unique =
            λ k. ground (arith, c.unique k, ≟_iff e.key k, occurs-remove_element k e.key m.lru);
        indexed = λ k. elim (Bool-cases (e.key ≟ k)) [
          | inl p ↦
              let here : find k m.lru ≡ some e =
                ap (λ j. find j m.lru) (sym ((≟_iff e.key k).0 p)) ∙ h in
              ground (arith, c.indexed k, here, p)
          | inr p ↦
              ground (arith, c.indexed k, c.unique e.key, p, find-remove_element k e.key m.lru)
        ];
        listed = λ k. ground (
          arith,
          c.listed k,
          c.unique k,
          ≟_iff e.key k,
          there,
          occurs-remove_element k e.key m.lru,
        );
        sized = ground (arith, c.sized, size);
        weighed = ground (arith, c.weighed, cost);
      };
      few = ground (arith, i.few, size);
      light = i.light;
    }

pub remove-IsCounted :
    (e : MemoEntry) (m : Memo)
    → find e.key m.lru ≡ some e
    → IsCounted m
    → IsCounted (remove e m) × (suc (length (remove e m).lru) ≡ length m.lru)
unfolding remove
remove-IsCounted e m h c =
    let there = find-some m.lru e h in
    let cost = total_cost-remove_element e.key m.lru e h in
    let size = length-remove_element e.key m.lru there in
    let fewer = length-delete e.key m.entries in
    (
      record {
        unique = λ k. ground (arith, c.unique k, occurs-remove_element k e.key m.lru);
        indexed = λ k. ground (
          arith,
          c.indexed k,
          c.unique e.key,
          find-remove_element k e.key m.lru,
          lookup-delete e.key k m.entries,
        );
        listed = λ k. ground (
          arith,
          c.listed k,
          c.unique k,
          ≟_iff e.key k,
          occurs-remove_element k e.key m.lru,
          count-delete k e.key m.entries,
        );
        sized = ground (arith, c.sized, size, fewer, c.listed e.key, c.unique e.key, there);
        weighed = ground (arith, c.weighed, cost);
      },
      size,
    )

remove_absent :
    (e : MemoEntry) (m : Memo) (k : MemoKey)
    → occurs e.key m.lru ≤ 1
    → find k m.lru ≡ none
    → find k (remove e m).lru ≡ none
unfolding remove
remove_absent e m k u g = ground (arith, g, find-remove_element k e.key m.lru)

-- A round of the loop drops one element; a full memo has one.
remove_back-IsCounted :
    (cost : ℕ) (m : Memo)
    → cost ≤ replay_memo_bytes
    → is_full cost m ≡ true
    → IsCounted m
    → IsCounted (remove_back m)
      × (suc (length (remove_back m).lru) ≡ length m.lru)
      × ((k : MemoKey) → find k m.lru ≡ none → find k (remove_back m).lru ≡ none)
unfolding remove_back find
remove_back-IsCounted cost m small h c = elim (Option-cases (back m.lru)) [
  | inl e ↦
      let empty = back-none m.lru e in
      absurd (ground (arith, h, small, c.sized, c.weighed, ap length empty, ap total_cost empty))
  | inr (e, q) ↦
      let there = back-find m.lru e c.unique q in
      let (kept, size) = remove-IsCounted e m there c in
      rw (q, remove_back) (kept, size, λ k g. remove_absent e m k (c.unique e.key) g)
]

-- The loop of put ends, with room for the cost, and brings no key back.
pub make_room-some :
    (fuel cost : ℕ) (m : Memo)
    → cost ≤ replay_memo_bytes
    → length m.lru < fuel
    → IsCounted m
    → (n : Memo) × (make_room fuel cost m ≡ some n)
      × IsCounted n
      × (is_full cost n ≡ false)
      × ((k : MemoKey) → find k m.lru ≡ none → find k n.lru ≡ none)
unfolding make_room
make_room-some zero cost m small h c = absurd (omega arith)
make_room-some (suc fuel) cost m small h c = elim (Bool-cases (is_full cost m)) [
  | inr e ↦ (m, rw (e, make_room) refl, c, e, λ k g. g)
  | inl e ↦
      let (kept, size, gone) = remove_back-IsCounted cost m small e c in
      let (n, p, d, roomy, absent) =
        make_room-some fuel cost (remove_back m) small (omega (arith, size)) kept in
      (n, rw (e, make_room) p, d, roomy, λ k g. absent k (gone k g))
]

pushed-IsMemo :
    (e : MemoEntry) (m : Memo)
    → find e.key m.lru ≡ none
    → is_full e.cost m ≡ false
    → e.cost ≤ replay_memo_bytes
    → IsCounted m
    → IsMemo (push_front e m)
unfolding push_front find occurs
pushed-IsMemo e m h roomy small c =
    let absent : lookup e.key m.entries ≡ none = c.indexed e.key ∙ h in
    let none_there = find-occurs e.key m.lru h in
    let size = length-insert_absent e.key e m.entries absent in
    record {
      is_counted = record {
        unique = λ k. ground (arith, c.unique k, ≟_iff e.key k, none_there);
        indexed = λ k. ground (arith, c.indexed k, lookup-insert e.key k e m.entries);
        listed = λ k. ground (arith, c.listed k, count-insert_absent k e.key e m.entries absent);
        sized = ground (arith, c.sized, size);
        weighed = ground (arith, c.weighed);
      };
      few = ground (arith, roomy, c.sized);
      light = ground (arith, roomy, small);
    }

-- put of a value always ends, and leaves a memo within its bounds: at most 128 entries, whose costs
-- add up to its bytes, at most 8 MiB.
pub put-IsMemo :
    (k : MemoKey) (value : Bytes) (m : Memo)
    → IsMemo m
    → (n : Memo) × (put k value m ≡ some n) × IsMemo n
unfolding put
put-IsMemo k value m i =
    let e = entry_of k value in
    elim (Bool-cases (ltb (replay_memo_bytes - replay_memo_entry_overhead) (length value))) [
      | inl p ↦ (m, rw p refl, i)
      | inr p ↦ elim (Option-cases (lookup k m.entries)) [
        | inr (f, q) ↦
            let here : find k m.lru ≡ some f = sym (i.is_counted.indexed k) ∙ q in
            let own = find-key k m.lru f here in
            let there : find f.key m.lru ≡ some f = ap (λ j. find j m.lru) own ∙ here in
            (_, rw (p, q, put) refl, touched-IsMemo f m there i)
        | inl q ↦
            let c = i.is_counted in
            let small : e.cost ≤ replay_memo_bytes = ground (arith, p) in
            let (n, r, d, roomy, gone) =
              make_room-some (suc (length m.lru)) e.cost m small (omega arith) c in
            let absent = gone k (sym (c.indexed k) ∙ q) in
            (push_front e n, rw (p, q, r, put) refl, pushed-IsMemo e n absent roomy small d)
      ]
    ]

pub get-IsMemo : (k : MemoKey) (m : Memo) → IsMemo m → IsMemo (get k m).0
unfolding get
get-IsMemo k m i = elim (Option-cases (lookup k m.entries)) [
  | inl q ↦ rw (q, get) i
  | inr (f, q) ↦
      let here : find k m.lru ≡ some f = sym (i.is_counted.indexed k) ∙ q in
      let own = find-key k m.lru f here in
      rw (q, get) (touched-IsMemo f m (ap (λ j. find j m.lru) own ∙ here) i)
]
