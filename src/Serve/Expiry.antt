-- ===== src/Serve/Expiry.antt =====
-- The end of the wait of BeforeInstall in member/serve/lease.go, when the lease's expiry passes.
use arbiter_core.Serve.{
  Lease, OwnerDatabase, Server, expires_at, end_lease, sweep_over, sweep, owner_database_eq,
}
use arbiter_core.Serve.Hooks.{before_install}
use arbiter_core.Serve.Installing.{IsIndexed, HostCall, after_calls, acquires, renews, releases}
use arbiter_core.Serve.Waits.{waits_until, before_install-holds}
use arbiter_core.Serve.OneLease.{
  end_lease-there, acquire-IsIndexed, renew-IsIndexed, release-IsIndexed, before_install-IsIndexed,
}
use arbiter_core.Base.{
  ℕ, true, false, none, some, List, [], ◌∷◌, arith, list_eq, nat_eq, ◌≟◌, Map, Bytes, Bool-cases,
  lookup, ◌≡◌, ltb, inl, inr, lookup-delete, sym, ap, ◌∙◌, values, ◌≢◌, ◌≤◌, ≟_refl,
}

end_lease-gone :
    (l : Lease) (s : Server) (i : Bytes)
    → lookup i s.by_id ≡ none
    → lookup i (end_lease l s).by_id ≡ none
unfolding end_lease
end_lease-gone l s i h = ground (arith, h, lookup-delete l.id i s.by_id)

end_lease-ended : (l : Lease) (s : Server) → lookup l.id (end_lease l s).by_id ≡ none
unfolding end_lease
end_lease-ended l s = ground (arith, ≟_refl l.id, lookup-delete l.id l.id s.by_id)

sweep_over-gone :
    (now : ℕ) (ls : List Lease) (s : Server) (i : Bytes)
    → lookup i s.by_id ≡ none
    → lookup i (sweep_over now ls s).by_id ≡ none
unfolding sweep_over
sweep_over-gone now [] s i h = h
sweep_over-gone now (l ∷ ls) s i h = elim (Bool-cases (ltb now (expires_at l))) [
  | inl e ↦ rw (e, sweep_over) (sweep_over-gone now ls s i h)
  | inr e ↦ rw (e, sweep_over) (sweep_over-gone now ls (end_lease l s) i (end_lease-gone l s i h))
]

-- A sweep adds nothing.
sweep_over-there :
    (now : ℕ) (ls : List Lease) (s : Server) (i : Bytes) (m : Lease)
    → lookup i (sweep_over now ls s).by_id ≡ some m
    → lookup i s.by_id ≡ some m
unfolding sweep_over
sweep_over-there now [] s i m h = h
sweep_over-there now (l ∷ ls) s i m h = elim (Bool-cases (ltb now (expires_at l))) [
  | inl e ↦ sweep_over-there now ls s i m (ground (arith, h, e))
  | inr e ↦
      let kept = sweep_over-there now ls (end_lease l s) i m (ground (arith, h, e)) in
      (end_lease-there l s i m kept).0
]

-- An expired lease of the swept ones is gone.
sweep_over-expired :
    (now : ℕ) (m : Map Bytes Lease) (s : Server) (i : Bytes) (l : Lease)
    → lookup i m ≡ some l
    → l.id ≡ i
    → ltb now (expires_at l) ≡ false
    → lookup i (sweep_over now (values m) s).by_id ≡ none
unfolding lookup sweep_over
sweep_over-expired now [] s i l h p q = absurd (ground (arith, h))
sweep_over-expired now ((j, w) ∷ m) s i l h p q = elim (Bool-cases (j ≟ i)) [
  | inl f ↦
      let same : w ≡ l = ground (arith, h, f) in
      let past : ltb now (expires_at w) ≡ false = ap (λ v. ltb now (expires_at v)) same ∙ q in
      let own : w.id ≡ i = ap (λ v. v.id) same ∙ p in
      rw (past, sweep_over)
        (sweep_over-gone now (values m) (end_lease w s) i
          (ap (λ b. lookup b (end_lease w s).by_id) (sym own) ∙ end_lease-ended w s))
  | inr f ↦
      let there : lookup i m ≡ some l = ground (arith, h, f) in
      elim (Bool-cases (ltb now (expires_at w))) [
        | inl e ↦ rw (e, sweep_over) (sweep_over-expired now m s i l there p q)
        | inr e ↦ rw (e, sweep_over) (sweep_over-expired now m (end_lease w s) i l there p q)
      ]
]

-- What a sweep leaves has not expired.
sweep-unexpired :
    (now : ℕ) (s : Server) (i : Bytes) (l : Lease)
    → IsIndexed s
    → lookup i (sweep now s).by_id ≡ some l
    → (lookup i s.by_id ≡ some l) × (ltb now (expires_at l) ≡ true)
unfolding sweep
sweep-unexpired now s i l x h =
    let there = sweep_over-there now (values s.by_id) s i l h in
    (
      there,
      elim (Bool-cases (ltb now (expires_at l))) [
        | inl e ↦ e
        | inr e ↦
            let gone = sweep_over-expired now s.by_id s i l there (x i l there).0 e in
            absurd (ground (arith, h, gone))
      ],
    )

after_calls-IsIndexed :
    (calls : List HostCall) (s : Server) → IsIndexed s → IsIndexed (after_calls calls s)
unfolding after_calls
after_calls-IsIndexed [] s x = x
after_calls-IsIndexed (acquires w now id database snapshot ∷ calls) s x =
    after_calls-IsIndexed calls _ (acquire-IsIndexed w now id database snapshot s x)
after_calls-IsIndexed (renews w now id ∷ calls) s x =
    after_calls-IsIndexed calls _ (renew-IsIndexed w now id s x)
after_calls-IsIndexed (releases w now id ∷ calls) s x =
    after_calls-IsIndexed calls _ (release-IsIndexed w now id s x)

-- The wait of BeforeInstall ends. Over any calls of hosts after its mark, whatever the file system
-- and the clock answer them, the sweep that its timer makes at the expiry it waits for, or later,
-- leaves no lease of the database.
pub before_install-wait_ends :
    (now later : ℕ) (k : OwnerDatabase) (calls : List HostCall) (s : Server)
    → IsIndexed s
    → waits_until (before_install now k s).1 ≤ later
    → (i : Bytes) (l : Lease)
    → lookup i (sweep later (after_calls calls (before_install now k s).0)).by_id ≡ some l
    → l.database ≢ k.database
before_install-wait_ends now later k calls s x v i l h p =
    let t = after_calls calls (before_install now k s).0 in
    let y = after_calls-IsIndexed calls _ (before_install-IsIndexed now k s x) in
    let (there, live) = sweep-unexpired later t i l y h in
    let due = ((before_install-holds now k calls s x).0 i l there p).1 in
    ground (arith, live, due, v)
