-- ===== src/ReplayMemo/Elements.antt =====
-- The list and the map of the memo of verifier/replay_executor_memo.go.
use arbiter_core.ReplayMemo.{
  MemoKey, MemoEntry, Memo, memo_key_eq, remove_element, back, replay_memo_entries,
  replay_memo_bytes,
}
use arbiter_core.Base.{
  ℕ, suc, refl, Option, none, some, List, [], ◌∷◌, arith, list_eq, nat_eq, ◌≟◌, ≟_iff, Map, lookup,
  insert, delete, length, keys, count, ◌≡◌, ◌+◌, ◌-◌, ◌≤◌, ◌<◌, if◌then◌else◌, inl, inr, Bool-cases,
}

-- The element of the list with a key.
unfoldable pub find : MemoKey → List MemoEntry → Option MemoEntry
find k [] = none
find k (e ∷ es) = if e.key ≟ k then some e else find k es

abbrev pub total_cost : List MemoEntry → ℕ
total_cost [] = 0
total_cost (e ∷ es) = e.cost + total_cost es

unfoldable pub occurs : MemoKey → List MemoEntry → ℕ
occurs k [] = 0
occurs k (e ∷ es) = if e.key ≟ k then suc (occurs k es) else occurs k es

-- The list and the index hold the same elements, each key once, and the bytes are their cost.
pub record IsCounted (m : Memo) : Type 0 where
  pub unique : (k : MemoKey) → occurs k m.lru ≤ 1
  pub indexed : (k : MemoKey) → lookup k m.entries ≡ find k m.lru
  pub listed : (k : MemoKey) → count k (keys m.entries) ≡ occurs k m.lru
  pub sized : length m.entries ≡ length m.lru
  pub weighed : m.bytes ≡ total_cost m.lru

-- A memo in use: counted, and within its bounds.
pub record IsMemo (m : Memo) : Type 0 where
  pub is_counted : IsCounted m
  pub few : length m.lru ≤ replay_memo_entries
  pub light : m.bytes ≤ replay_memo_bytes

pub find-key : (k : MemoKey) (es : List MemoEntry) (e : MemoEntry) → find k es ≡ some e → e.key ≡ k
unfolding find
find-key k [] e h = cc
find-key k (f ∷ es) e h = ground (arith, h, ≟_iff f.key k, find-key k es e)

pub find-occurs : (k : MemoKey) (es : List MemoEntry) → (find k es ≡ none) → occurs k es ≡ 0
unfolding find occurs
find-occurs k [] h = refl
find-occurs k (f ∷ es) h = ground (arith, h, find-occurs k es)

occurs-find : (k : MemoKey) (es : List MemoEntry) → occurs k es ≡ 0 → find k es ≡ none
unfolding find occurs
occurs-find k [] h = refl
occurs-find k (f ∷ es) h = ground (arith, h, occurs-find k es)

pub occurs-remove_element :
    (j k : MemoKey) (es : List MemoEntry)
    → occurs j (remove_element k es) ≡ (if k ≟ j then occurs j es - 1 else occurs j es)
unfolding remove_element occurs
occurs-remove_element j k [] = ground arith
occurs-remove_element j k (e ∷ es) =
    ground (arith, ≟_iff e.key k, ≟_iff k j, ≟_iff e.key j, occurs-remove_element j k es)

pub find-remove_element :
    (j k : MemoKey) (es : List MemoEntry)
    → occurs k es ≤ 1
    → find j (remove_element k es) ≡ (if k ≟ j then none else find j es)
unfolding remove_element occurs find
find-remove_element j k [] h = ground arith
find-remove_element j k (e ∷ es) h =
    ground
      (arith, ≟_iff e.key k, ≟_iff k j, ≟_iff e.key j, find-remove_element j k es, occurs-find k es)

pub find-some : (es : List MemoEntry) (e : MemoEntry) → find e.key es ≡ some e → 0 < occurs e.key es
unfolding find occurs
find-some [] e h = cc
find-some (f ∷ es) e h = ground (arith, h, find-some es e)

pub length-remove_element :
    (k : MemoKey) (es : List MemoEntry)
    → 0 < occurs k es
    → suc (length (remove_element k es)) ≡ length es
unfolding remove_element occurs
length-remove_element k [] h = absurd (omega arith)
length-remove_element k (e ∷ es) h = ground (arith, length-remove_element k es)

pub total_cost-remove_element :
    (k : MemoKey) (es : List MemoEntry) (e : MemoEntry)
    → find k es ≡ some e
    → total_cost (remove_element k es) + e.cost ≡ total_cost es
unfolding remove_element find
total_cost-remove_element k [] e h = cc
total_cost-remove_element k (f ∷ es) e h = elim (Bool-cases (f.key ≟ k)) [
  | inl p ↦ let same : f ≡ e = ground (arith, h, p) in rw (← same, p) (ground (arith, p))
  | inr p ↦ ground (arith, h, p, total_cost-remove_element k es e)
]

-- Go's len of a map: an absent key adds one, a present one that is deleted takes one.
pub length-insert_absent :
    (k : MemoKey) (e : MemoEntry) (m : Map MemoKey MemoEntry)
    → lookup k m ≡ none
    → length (insert k e m) ≡ suc (length m)
unfolding lookup insert
length-insert_absent k e [] h = refl
length-insert_absent k e ((j, f) ∷ m) h = ground (arith, h, length-insert_absent k e m)

pub count-insert_absent :
    (i k : MemoKey) (e : MemoEntry) (m : Map MemoKey MemoEntry)
    → lookup k m ≡ none
    → count i (keys (insert k e m)) ≡ (if k ≟ i then suc (count i (keys m)) else count i (keys m))
unfolding lookup insert count
count-insert_absent i k e [] h = ground arith
count-insert_absent i k e ((j, f) ∷ m) h = ground (arith, h, count-insert_absent i k e m)

pub length-delete :
    (k : MemoKey) (m : Map MemoKey MemoEntry) → length (delete k m) + count k (keys m) ≡ length m
unfolding delete count
length-delete k [] = omega arith
length-delete k ((j, f) ∷ m) = ground (arith, length-delete k m)

pub count-delete :
    (i k : MemoKey) (m : Map MemoKey MemoEntry)
    → count i (keys (delete k m)) ≡ (if k ≟ i then 0 else count i (keys m))
unfolding delete count
count-delete i k [] = ground arith
count-delete i k ((j, f) ∷ m) = ground (arith, ≟_iff j k, ≟_iff k i, ≟_iff j i, count-delete i k m)

pub back-find :
    (es : List MemoEntry) (e : MemoEntry)
    → ((k : MemoKey) → occurs k es ≤ 1)
    → back es ≡ some e
    → find e.key es ≡ some e
unfolding back find occurs
back-find [] e u h = cc
back-find (f ∷ []) e u h = ground (arith, h, ≟_iff f.key e.key)
back-find (f ∷ g ∷ es) e u h =
    let rest = back-find (g ∷ es) e (λ k. ground (arith, u k)) h in
    let there = find-some (g ∷ es) e rest in
    elim (Bool-cases (f.key ≟ e.key)) [
      | inr p ↦ ground (arith, rest, p)
      | inl p ↦ absurd (ground (arith, there, u e.key, p))
    ]

pub back-none : (es : List MemoEntry) → back es ≡ none → es ≡ []
unfolding back
back-none [] h = refl
back-none (e ∷ []) h = absurd cc
back-none (e ∷ f ∷ es) h = absurd (ground (arith, back-none (f ∷ es) h))
