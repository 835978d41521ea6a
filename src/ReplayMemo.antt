-- ===== src/ReplayMemo.antt =====
-- The memo of verifier/replay_executor_memo.go: results of replays, kept per run within a bound on
-- entries and bytes. The executor, JSON and the digest are a parameter. A pointer to a run or to a
-- memo is its number; an element of the list stands as the entry it holds.
use arbiter_core.Base.{
  ℕ, zero, suc, Bool, true, false, Option, none, some, List, [], ◌∷◌, Bytes, ◌≟◌, list_eq, nat_eq,
  Eq, ltb, leb, if◌then◌else◌, Result, ok, err, Map, lookup, insert, delete, length, ◌+◌, ◌-◌, ◌&&◌,
  ◌||◌, not, ≟_iff, arith, ◌≡◌, ◌↔◌,
}
pub mod Elements
pub mod Bounded
pub mod Requests
pub mod Calls
pub mod Sound
pub mod Runs
pub mod Histories
pub mod Answers
pub mod Transparent
pub mod Examples

abbrev pub replay_memo_entries : ℕ
replay_memo_entries = 128

abbrev pub replay_memo_bytes : ℕ
replay_memo_bytes = 8388608

abbrev pub replay_memo_entry_overhead : ℕ
replay_memo_entry_overhead = 256

pub record MemoKey : Type 0 where
  pub run : ℕ
  pub digest : Bytes

unfoldable pub memo_key_beq : MemoKey → MemoKey → Bool
memo_key_beq a b = (a.run ≟ b.run) && (a.digest ≟ b.digest)

pub memo_key_beq_iff : (a b : MemoKey) → (memo_key_beq a b ≡ true) ↔ (a ≡ b)
unfolding memo_key_beq
memo_key_beq_iff a b = ground (arith, ≟_iff a.run b.run, ≟_iff a.digest b.digest)

instance abbrev pub memo_key_eq : Eq MemoKey
memo_key_eq = record { beq = memo_key_beq; beq_iff = memo_key_beq_iff }

pub record MemoEntry : Type 0 where
  pub key : MemoKey
  pub value : Bytes
  pub cost : ℕ

pub record Memo : Type 0 where
  pub number : ℕ
  pub identity : Bytes
  pub lru : List MemoEntry
  pub entries : Map MemoKey MemoEntry
  pub bytes : ℕ

unfoldable pub new_memo : ℕ → Bytes → Memo
new_memo n id = record { number = n; identity = id; lru = []; entries = []; bytes = 0 }

-- lru.Remove of the element with the key.
unfoldable pub remove_element : MemoKey → List MemoEntry → List MemoEntry
remove_element k [] = []
remove_element k (e ∷ es) = if e.key ≟ k then es else e ∷ remove_element k es

unfoldable pub move_to_front : MemoEntry → List MemoEntry → List MemoEntry
move_to_front e es = e ∷ remove_element e.key es

-- lru.Back().
unfoldable pub back : List MemoEntry → Option MemoEntry
back [] = none
back (e ∷ []) = some e
back (e ∷ f ∷ es) = back (f ∷ es)

unfoldable pub get : MemoKey → Memo → Memo × Option Bytes
get k m = elim (lookup k m.entries) [
  | none ↦ (m, none)
  | some e ↦ (record m { lru = move_to_front e m.lru }, some e.value)
]

unfoldable pub remove : MemoEntry → Memo → Memo
remove e m = record m {
  entries = delete e.key m.entries;
  bytes = m.bytes - e.cost;
  lru = remove_element e.key m.lru;
}

-- `m.remove(m.lru.Back())`, which does nothing at a nil element.
unfoldable pub remove_back : Memo → Memo
remove_back m = elim (back m.lru) [ none ↦ m | some e ↦ remove e m ]

abbrev pub is_full : ℕ → Memo → Bool
is_full cost m =
    leb replay_memo_entries (length m.entries) || ltb (replay_memo_bytes - cost) m.bytes

-- The loop of put that makes room; `none` means that it has not ended within the fuel.
unfoldable pub make_room : ℕ → ℕ → Memo → Option Memo
make_room zero cost m = none
make_room (suc fuel) cost m =
    let rest = make_room fuel cost (remove_back m) in if is_full cost m then rest else some m

abbrev pub entry_of : MemoKey → Bytes → MemoEntry
entry_of k value = record {
  key = k;
  value = value;
  cost = length value + replay_memo_entry_overhead;
}

unfoldable pub push_front : MemoEntry → Memo → Memo
push_front e m = record m {
  lru = e ∷ m.lru;
  entries = insert e.key e m.entries;
  bytes = m.bytes + e.cost;
}

-- put; `none` means that its loop does not end.
unfoldable pub put : MemoKey → Bytes → Memo → Option Memo
put k value m =
    if ltb (replay_memo_bytes - replay_memo_entry_overhead) (length value)
    then some m
    else elim (lookup k m.entries) [
      | some e ↦ some (record m { lru = move_to_front e m.lru })
      | none ↦
          let e = entry_of k value in
          elim (make_room (suc (length m.lru)) e.cost m) [
            | none ↦ none
            | some roomy ↦ some (push_front e roomy)
          ]
    ]

-- The loop of removeRun over the entries that were there.
unfoldable pub remove_all : ℕ → Map MemoKey MemoEntry → Memo → Memo
remove_all run [] m = m
remove_all run ((k, e) ∷ more) m =
    let removed = remove_all run more (remove e m) in
    let kept = remove_all run more m in if k.run ≟ run then removed else kept

unfoldable pub remove_run : ℕ → Memo → Memo
remove_run run m = remove_all run m.entries m
