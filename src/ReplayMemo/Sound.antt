-- ===== src/ReplayMemo/Sound.antt =====
-- What the memo of verifier/replay_executor_memo.go may hold: for each key the encoded outcome of a
-- request with that digest, under a run that is open and owned by the memo.
use arbiter_core.ReplayMemo.{
  MemoKey, MemoEntry, Memo, memo_key_eq, get, remove, remove_back, make_room, put, push_front,
  entry_of, remove_all, remove_run, is_full, replay_memo_bytes, replay_memo_entry_overhead,
}
use arbiter_core.ReplayMemo.Bounded.{remove-IsCounted}
use arbiter_core.ReplayMemo.Elements.{IsCounted, IsMemo, find, find-key}
use arbiter_core.Base.{
  ℕ, zero, suc, refl, true, false, none, some, [], ◌∷◌, arith, list_eq, nat_eq, ◌≟◌, ≟_iff, Map,
  Bytes, lookup, insert, length, keys, count, ◌≡◌, ◌-◌, ◌≤◌, ltb, inl, inr, Bool-cases,
  Option-cases, lookup-insert, lookup-delete, ap, sym, ◌∙◌, ◌⊎◌, is_some, ≟_refl,
}

remove_back-there :
    (m : Memo) (j : MemoKey) (f : MemoEntry)
    → lookup j (remove_back m).entries ≡ some f
    → lookup j m.entries ≡ some f
unfolding remove_back remove
remove_back-there m j f h = elim (Option-cases (arbiter_core.ReplayMemo.back m.lru)) [
  | inl e ↦ ground (arith, h, e)
  | inr (e, q) ↦ ground (arith, h, q, lookup-delete e.key j m.entries)
]

make_room-there :
    (fuel cost : ℕ) (m n : Memo) (j : MemoKey) (f : MemoEntry)
    → make_room fuel cost m ≡ some n
    → lookup j n.entries ≡ some f
    → lookup j m.entries ≡ some f
unfolding make_room
make_room-there zero cost m n j f h g = absurd cc
make_room-there (suc fuel) cost m n j f h g = elim (Bool-cases (is_full cost m)) [
  | inr e ↦
      let same : m ≡ n = ground (arith, h, e) in ap (λ (k : Memo). lookup j k.entries) same ∙ g
  | inl e ↦
      remove_back-there m j f
        (make_room-there fuel cost (remove_back m) n j f (ground (arith, h, e)) g)
]

make_room-number :
    (fuel cost : ℕ) (m n : Memo)
    → make_room fuel cost m ≡ some n
    → (n.number ≡ m.number) × (n.identity ≡ m.identity)
unfolding make_room remove_back remove
make_room-number zero cost m n h = absurd cc
make_room-number (suc fuel) cost m n h =
    ground (arith, h, make_room-number fuel cost (remove_back m) n)

-- What put leaves at a key was there, or is the value put there.
pub put-there :
    (k : MemoKey) (value : Bytes) (m n : Memo) (j : MemoKey) (f : MemoEntry)
    → put k value m ≡ some n
    → lookup j n.entries ≡ some f
    → (lookup j m.entries ≡ some f) ⊎ ((k ≡ j) × (f.value ≡ value))
unfolding put push_front
put-there k value m n j f h g =
    elim (Bool-cases (ltb (replay_memo_bytes - replay_memo_entry_overhead) (length value))) [
      | inl p ↦
          let same : m ≡ n = ground (arith, h, p) in
          inl (ap (λ (t : Memo). lookup j t.entries) same ∙ g)
      | inr p ↦ elim (Option-cases (lookup k m.entries)) [
        | inr (e, q) ↦ inl (ground (arith, h, g, p, q))
        | inl q ↦
            let e = entry_of k value in
            elim (Option-cases (make_room (suc (length m.lru)) e.cost m)) [
              | inl r ↦ absurd (ground (arith, h, p, q, r))
              | inr (roomy, r) ↦
                  let same : push_front e roomy ≡ n = ground (arith, h, p, q, r) in
                  let at : lookup j (insert k e roomy.entries) ≡ some f =
                    ap (λ (t : Memo). lookup j t.entries) same ∙ g in
                  elim (Bool-cases (k ≟ j)) [
                    | inl s ↦
                        inr (
                          (≟_iff k j).0 s,
                          ground (arith, at, s, lookup-insert k j e roomy.entries),
                        )
                    | inr s ↦ inl (
                        make_room-there (suc (length m.lru)) e.cost m roomy j f r
                          (ground (arith, at, s, lookup-insert k j e roomy.entries)))
                  ]
            ]
      ]
    ]

pub put-number :
    (k : MemoKey) (value : Bytes) (m n : Memo)
    → put k value m ≡ some n
    → (n.number ≡ m.number) × (n.identity ≡ m.identity)
unfolding put push_front
put-number k value m n h =
    let e = entry_of k value in
    elim (Option-cases (make_room (suc (length m.lru)) e.cost m)) [
      | inl r ↦ ground (arith, h, r)
      | inr (roomy, r) ↦
          ground (arith, h, r, make_room-number (suc (length m.lru)) e.cost m roomy r)
    ]

pub get-same :
    (k : MemoKey) (m : Memo)
    → ((get k m).0.entries ≡ m.entries)
      × ((get k m).0.number ≡ m.number)
      × ((get k m).0.identity ≡ m.identity)
unfolding get
get-same k m = ground arith

-- What get answers is the value of the entry at the key.
pub get-entry :
    (k : MemoKey) (m : Memo) (v : Bytes)
    → (get k m).1 ≡ some v
    → (e : MemoEntry) × (lookup k m.entries ≡ some e) × (e.value ≡ v)
unfolding get
get-entry k m v h = elim (Option-cases (lookup k m.entries)) [
  | inl q ↦ absurd (ground (arith, h, q))
  | inr (e, q) ↦ (e, q, ground (arith, h, q))
]

absent-lookup : (k : MemoKey) (m : Map MemoKey MemoEntry) → count k (keys m) ≡ 0 → lookup k m ≡ none
unfolding lookup count
absent-lookup k [] h = refl
absent-lookup k ((j, e) ∷ m) h = ground (arith, h, absent-lookup k m)

later-ne :
    (k j : MemoKey) (f : MemoEntry) (more : Map MemoKey MemoEntry)
    → lookup k more ≡ none
    → lookup j more ≡ some f
    → (k ≟ j) ≡ false
later-ne k j f more h g = elim (Bool-cases (k ≟ j)) [
  | inr p ↦ p
  | inl p ↦ absurd (ground (arith, h, g, ap (λ i. lookup i more) ((≟_iff k j).0 p)))
]

later-lookup :
    (k j : MemoKey) (e f : MemoEntry) (more : Map MemoKey MemoEntry)
    → lookup k more ≡ none
    → lookup j more ≡ some f
    → lookup j ((k, e) ∷ more) ≡ some f
unfolding lookup
later-lookup k j e f more h g = ground (arith, g, later-ne k j f more h g)

remove-there :
    (e : MemoEntry) (m : Memo) (j : MemoKey) (f : MemoEntry)
    → lookup j (remove e m).entries ≡ some f
    → lookup j m.entries ≡ some f
unfolding remove
remove-there e m j f h = ground (arith, h, lookup-delete e.key j m.entries)

remove-same :
    (e : MemoEntry) (m : Memo) (k j : MemoKey)
    → e.key ≡ k
    → (k ≟ j) ≡ true
    → lookup j (remove e m).entries ≡ none
unfolding remove
remove-same e m k j own p =
    ground (arith, own, p, ≟_iff k j, ≟_iff e.key j, lookup-delete e.key j m.entries)

remove-other :
    (e : MemoEntry) (m : Memo) (k j : MemoKey) (f : MemoEntry)
    → e.key ≡ k
    → lookup j m.entries ≡ some f
    → (k ≟ j) ≡ false
    → lookup j (remove e m).entries ≡ some f
unfolding remove
remove-other e m k j f own h p =
    ground (arith, own, p, h, ≟_iff k j, ≟_iff e.key j, lookup-delete e.key j m.entries)

removed_bytes : (e : MemoEntry) (m : Memo) {b : ℕ} → b ≤ (remove e m).bytes → b ≤ m.bytes
unfolding remove
removed_bytes e m h = omega arith

-- The loop of removeRun takes the elements of the run, and only those.
record IsRemoved (run : ℕ) (more : Map MemoKey MemoEntry) (m n : Memo) : Type 0 where
  counted : IsCounted n
  fewer : length n.lru ≤ length m.lru
  lighter : n.bytes ≤ m.bytes
  number : n.number ≡ m.number
  gone : (j : MemoKey) → is_some (lookup j more) ≡ true → j.run ≡ run → lookup j n.entries ≡ none
  there : (j : MemoKey) (f : MemoEntry) → lookup j n.entries ≡ some f → lookup j m.entries ≡ some f

remove_all-IsRemoved :
    (run : ℕ) (more : Map MemoKey MemoEntry) (m : Memo)
    → IsCounted m
    → ((j : MemoKey) → count j (keys more) ≤ 1)
    → ((j : MemoKey) (f : MemoEntry) → lookup j more ≡ some f → lookup j m.entries ≡ some f)
    → IsRemoved run more m (remove_all run more m)
unfolding remove_all lookup count remove
remove_all-IsRemoved run [] m c u h = record {
  counted = c;
  fewer = omega arith;
  lighter = omega arith;
  number = refl;
  gone = λ j p q. absurd cc;
  there = λ j f p. p;
}
remove_all-IsRemoved run ((k, e) ∷ more) m c u h =
    let here = h k e (ground (arith, ≟_refl k)) in
    let own = find-key k m.lru e (sym (c.indexed k) ∙ here) in
    let held : find e.key m.lru ≡ some e = ap (λ j. find j m.lru) own ∙ sym (c.indexed k) ∙ here in
    let fresh = absent-lookup k more (ground (arith, u k, ≟_refl k)) in
    let unique : (j : MemoKey) → count j (keys more) ≤ 1 = λ j. ground (arith, u j) in
    elim (Bool-cases (k.run ≟ run)) [
      | inr p ↦
          let r =
            remove_all-IsRemoved run more m c unique
              (λ j f g. h j f (later-lookup k j e f more fresh g)) in
          rw (p, remove_all)
            record {
              counted = r.counted;
              fewer = r.fewer;
              lighter = r.lighter;
              number = r.number;
              gone = λ j q s. ground (arith, q, s, p, ≟_iff k j, ≟_iff k.run run, r.gone j);
              there = r.there;
            }
      | inl p ↦
          let (kept, size) = remove-IsCounted e m held c in
          let r = remove_all-IsRemoved run more (remove e m) kept unique (λ j f g.
            remove-other e m k j f own (h j f (later-lookup k j e f more fresh g))
              (later-ne k j f more fresh g)) in
          rw (p, remove_all)
            record {
              counted = r.counted;
              fewer = omega (arith, r.fewer, size);
              lighter = removed_bytes e m r.lighter;
              number = r.number;
              gone = λ j q s. elim (Bool-cases (k ≟ j)) [
                | inr a ↦ r.gone j (ground (arith, q, a)) s
                | inl a ↦
                    elim (Option-cases (lookup j (remove_all run more (remove e m)).entries)) [
                      | inl b ↦ b
                      | inr (f, b) ↦
                          absurd (ground (arith, a, r.there j f b, remove-same e m k j own a))
                    ]
              ];
              there = λ j f q. remove-there e m j f (r.there j f q);
            }
    ]

-- removeRun leaves a memo within its bounds, without the run's entries, and adds none.
pub remove_run-IsMemo :
    (run : ℕ) (m : Memo)
    → IsMemo m
    → let n = remove_run run m in
      IsMemo n
      × (n.number ≡ m.number)
      × ((j : MemoKey) → j.run ≡ run → lookup j n.entries ≡ none)
      × ((j : MemoKey) (f : MemoEntry) → lookup j n.entries ≡ some f → lookup j m.entries ≡ some f)
unfolding remove_run
remove_run-IsMemo run m i =
    let c = i.is_counted in
    let unique : (j : MemoKey) → count j (keys m.entries) ≤ 1 =
      λ j. omega (arith, c.listed j, c.unique j) in
    let r = remove_all-IsRemoved run m.entries m c unique (λ j f g. g) in
    let few = i.few in
    let light = i.light in
    (
      record {
        is_counted = r.counted;
        few = omega (arith, r.fewer);
        light = omega (arith, r.lighter);
      },
      r.number,
      λ j s. elim (Option-cases (lookup j m.entries)) [
        | inr (f, g) ↦ r.gone j (ground (arith, g)) s
        | inl g ↦ elim (Option-cases (lookup j (remove_all run m.entries m).entries)) [
          | inl b ↦ b
          | inr (f, b) ↦ absurd (ground (arith, g, r.there j f b))
        ]
      ],
      r.there,
    )
