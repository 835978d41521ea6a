-- ===== src/Serve/Frames.antt =====
-- What the steps of a poll in member/serve/conditions.go leave alone.
use arbiter_core.Serve.{
  OwnerDatabase, DbState, OwnerState, Server, Lease, TrackFrontier, owner_database_eq, end_lease,
  sweep_over, expires_at, is_lease,
}
use arbiter_core.Serve.Hooks.{state_of, revoke_lease, lease_of}
use arbiter_core.Serve.Conditions.{
  PollRead, entry_of, unreachable, owner_state, note_entries, revoke_owned, put_state,
  forget_unlisted, revoke_found, away_of, forget_one, note_entry, is_entry, new_owner,
}
use arbiter_core.Base.{
  ℕ, refl, Bool, true, false, Option, none, some, List, [], ◌∷◌, ◌≟◌, list_eq, nat_eq, list_ord,
  nat_ord, arith, ◌≡◌, ap, ◌∙◌, inl, inr, Bool-cases, ≟_iff, ltb, contains, lookup, insert, delete,
  if◌then◌else◌, lookup-insert, lookup-delete, Map, ◌==◌, is_some,
}

pub if_both {κ} :
    (P : Server → Type κ) (b : Bool) (s t : Server) → P s → P t → P (if b then s else t)
if_both P true s t p q = p
if_both P false s t p q = q

-- The states of the databases, and what the polls read of the server.
abbrev pub IsFramed : Map OwnerDatabase DbState → Server → Server → Type 0
IsFramed dbs s t =
    (t.dbs ≡ dbs)
    × (t.owners ≡ s.owners)
    × (t.enabled ≡ s.enabled)
    × (t.owner_unreachable_after ≡ s.owner_unreachable_after)

pub revoke_lease-IsFramed :
    (now : ℕ) (l : Lease) (s : Server) → IsFramed s.dbs s (revoke_lease now l s)
unfolding revoke_lease
revoke_lease-IsFramed now l s =
    if_both (IsFramed s.dbs s) l.revoked s _ (refl, refl, refl, refl) (refl, refl, refl, refl)

pub revoke_owned-IsFramed :
    (now : ℕ) (k : OwnerDatabase) (s : Server) → IsFramed s.dbs s (revoke_owned now k s)
unfolding revoke_owned
revoke_owned-IsFramed now k s = found_framed (lease_of k.database s)
  where
    found_framed : (l : Option Lease) → IsFramed s.dbs s (revoke_found now k s l)
    found_framed none = (refl, refl, refl, refl)
    found_framed (some l) =
        if_both (IsFramed s.dbs s) (l.owner == k.owner) (revoke_lease now l s) s
          (revoke_lease-IsFramed now l s) (refl, refl, refl, refl)

pub put_state-IsFramed :
    (now : ℕ) (k : OwnerDatabase) (st : DbState) (s : Server)
    → IsFramed (insert k st s.dbs) s (put_state now k st s)
unfolding put_state
put_state-IsFramed now k st s =
    let t = record s { dbs = insert k st s.dbs } in
    if_both (IsFramed (insert k st s.dbs) s) st.serving t (revoke_owned now k t)
      (refl, refl, refl, refl) (revoke_owned-IsFramed now k t)

pub unreachable-same :
    (owner now : ℕ) (s t : Server)
    → t.owners ≡ s.owners
    → t.owner_unreachable_after ≡ s.owner_unreachable_after
    → unreachable owner now t ≡ unreachable owner now s
unfolding unreachable
unreachable-same owner now s t e f = rw (e, f) refl

pub state_of-same :
    (k : OwnerDatabase) (s t : Server)
    → lookup k t.dbs ≡ lookup k s.dbs
    → state_of k t ≡ state_of k s
unfolding state_of
state_of-same k s t e = rw (e, state_of) refl

pub end_lease-IsFramed : (l : Lease) (s : Server) → IsFramed s.dbs s (end_lease l s)
unfolding end_lease
end_lease-IsFramed l s =
    if_both (IsFramed s.dbs s) (is_some (lookup l.id s.by_id)) _ s
      (if_both (IsFramed s.dbs s) (is_lease l.id (lookup l.database s.leases)) _ _
        (refl, refl, refl, refl) (refl, refl, refl, refl))
      (refl, refl, refl, refl)

IsFramed-trans : (s t u : Server) → IsFramed s.dbs s t → IsFramed t.dbs t u → IsFramed s.dbs s u
IsFramed-trans s t u (a, b, c, d) (e, f, g, h) = (e ∙ a, f ∙ b, g ∙ c, h ∙ d)

pub sweep_over-IsFramed :
    (now : ℕ) (ls : List Lease) (s : Server) → IsFramed s.dbs s (sweep_over now ls s)
unfolding sweep_over
sweep_over-IsFramed now [] s = (refl, refl, refl, refl)
sweep_over-IsFramed now (l ∷ ls) s =
    if_both (IsFramed s.dbs s) (ltb now (expires_at l)) _ _ (sweep_over-IsFramed now ls s) (
      IsFramed-trans s (end_lease l s) (sweep_over now ls (end_lease l s)) (end_lease-IsFramed l s)
        (sweep_over-IsFramed now ls (end_lease l s)))

-- The reading of the feed changes no state of a database and no owner's reachability.
abbrev IsNoted : ℕ → Server → Server → Type 0
IsNoted now s t =
    (t.dbs ≡ s.dbs)
    × (t.enabled ≡ s.enabled)
    × ((owner : ℕ) → unreachable owner now t ≡ unreachable owner now s)

away_of-noted :
    (after now owner o : ℕ) (s : Server) (e : Option (TrackFrontier × ℕ))
    → away_of after now
        (lookup o (insert owner (record (owner_state owner s) { entry = e }) s.owners))
      ≡ away_of after now (lookup o s.owners)
unfolding owner_state
away_of-noted after now owner o s e =
    let noted = record (owner_state owner s) { entry = e } in
    let at = lookup-insert owner o noted s.owners in
    elim (Bool-cases (owner ≟ o)) [
      | inr p ↦
          let left : lookup o (insert owner noted s.owners) ≡ lookup o s.owners =
            ground (arith, at, p) in
          ap (away_of after now) left
      | inl p ↦
          let same : owner ≡ o = (≟_iff owner o).0 p in
          let left : lookup o (insert owner noted s.owners) ≡ some noted = ground (arith, at, p) in
          ap (away_of after now) left
          ∙ away_found (lookup owner s.owners)
          ∙ ap (λ i. away_of after now (lookup i s.owners)) same
    ]
  where
    away_found :
        (found : Option OwnerState)
        → away_of after now
            (some (record (elim found [ none ↦ new_owner | some u ↦ u ]) { entry = e }))
          ≡ away_of after now found
    away_found none = refl
    away_found (some u) = refl

note_entry-IsNoted :
    (now owner : ℕ) (s : Server) (e : Option TrackFrontier)
    → IsNoted now s (note_entry now owner s e)
unfolding unreachable
note_entry-IsNoted now owner s none = (refl, refl, λ o. refl)
note_entry-IsNoted now owner s (some e) =
    if_both (IsNoted now s) (is_entry e (owner_state owner s).entry) s _ (refl, refl, λ o. refl)
      (refl, refl, λ o. away_of-noted s.owner_unreachable_after now owner o s (some (e, now)))

pub note_entries-IsNoted :
    (r : PollRead) (ks : List OwnerDatabase) (s : Server) → IsNoted r.now s (note_entries r ks s)
unfolding note_entries
note_entries-IsNoted r [] s = (refl, refl, λ o. refl)
note_entries-IsNoted r (k ∷ ks) s =
    let next = note_entry r.now k.owner s (entry_of r k) in
    let (a, b, c) = note_entry-IsNoted r.now k.owner s (entry_of r k) in
    let (d, e, f) = note_entries-IsNoted r ks next in (d ∙ a, e ∙ b, λ o. f o ∙ c o)

-- A listed database is not forgotten.
forget_one-listed :
    (r : PollRead) (k j : OwnerDatabase) (s : Server)
    → contains k r.pairs ≡ true
    → lookup k (forget_one r j s).dbs ≡ lookup k s.dbs
unfolding forget_one
forget_one-listed r k j s h = elim (Bool-cases (j ≟ k)) [
  | inl p ↦
      let same : j ≡ k = (≟_iff j k).0 p in
      let there : contains j r.pairs ≡ true = ap (λ i. contains i r.pairs) same ∙ h in
      ground (arith, there)
  | inr p ↦
      let f = revoke_owned-IsFramed r.now j s in
      let gone = lookup-delete j k (revoke_owned r.now j s).dbs in
      let kept : lookup k (delete j (revoke_owned r.now j s).dbs) ≡ lookup k s.dbs =
        ground (arith, gone, p) ∙ ap (lookup k) f.0 in
      if_both (λ t. lookup k t.dbs ≡ lookup k s.dbs) _ s _ refl kept
]

pub forget_unlisted-listed :
    (r : PollRead) (k : OwnerDatabase) (ks : List OwnerDatabase) (s : Server)
    → contains k r.pairs ≡ true
    → lookup k (forget_unlisted r ks s).dbs ≡ lookup k s.dbs
unfolding forget_unlisted
forget_unlisted-listed r k [] s h = refl
forget_unlisted-listed r k (j ∷ ks) s h =
    forget_unlisted-listed r k ks (forget_one r j s) h ∙ forget_one-listed r k j s h
