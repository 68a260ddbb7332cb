-- ===== src/Desired/Commands/Orderly.antt =====
-- db/repo.rs: acknowledgments stay behind the commands.
use warpdeck.Prelude.{
  ℕ, zero, suc, ◌≤◌, ◌≡◌, inl, inr, subst, false, some, List, [], ◌∷◌, get_elem?, All, arith,
  Option-cases,
}
use warpdeck.Prelude.Map
use warpdeck.Prelude.Map.{get-update}
use warpdeck.Runtime.Instance.{InstanceId}
use warpdeck.Desired.{WarpInstanceSpec, Database, acknowledged, acknowledge_restart}
use warpdeck.Desired.Binding.{Call, call}
use warpdeck.Desired.Commands.{
  Held, Step, read, other, done, Reach, here, next, IsBehind, IsOrderly, IsNewTo, is_acknowledge,
}
use warpdeck.Desired.Commands.Grown.{call-Grown}

All-get_elem? :
    (P : WarpInstanceSpec → Type 0) (ts : List WarpInstanceSpec) (i : ℕ) (t : WarpInstanceSpec)
    → All P ts
    → get_elem? ts i ≡ some t
    → P t
All-get_elem? P [] i t a found = absurd (ground arith)
All-get_elem? P (s ∷ ts) zero t a found = subst P (ground arith) a.0
All-get_elem? P (s ∷ ts) (suc i) t a found = All-get_elem? P ts i t a.1 found

call-acknowledged :
    (c : Call) (d : Database)
    → is_acknowledge c ≡ false
    → ((id : InstanceId) (s : WarpInstanceSpec)
        → Map.get id d.rows ≡ some s
        → s.observed_restart_generation ≤ s.restart_command_generation)
    → (id : InstanceId) (s : WarpInstanceSpec) → Map.get id (call c d).rows ≡ some s
    → s.observed_restart_generation ≤ s.restart_command_generation
call-acknowledged c d na before id s found = elim (call-Grown c d id s na found) [
  | inl (_, grown, obs) ↦ omega arith
  | inr (t, p, grown, obs) ↦ omega (arith, before id t p)
]

call-IsBehind :
    (c : Call) (d : Database) (ts : List WarpInstanceSpec)
    → is_acknowledge c ≡ false
    → IsNewTo d ts
    → All (IsBehind d.rows) ts
    → All (IsBehind (call c d).rows) ts
call-IsBehind c d [] na new a = tt
call-IsBehind c d (t ∷ ts) na (apart, new) (b, a) = (
  λ s found. elim (call-Grown c d t.id s na found) [
    | inl (same, _, _) ↦ absurd (apart same)
    | inr (u, p, grown, obs) ↦ omega (arith, b u p)
  ],
  call-IsBehind c d ts na new a,
)

acknowledge-IsBehind :
    (id : InstanceId) (g : ℕ) (d : Database) (ts : List WarpInstanceSpec)
    → All (IsBehind d.rows) ts
    → All (IsBehind (acknowledge_restart id g d).rows) ts
unfolding acknowledge_restart
acknowledge-IsBehind id g d [] a = tt
acknowledge-IsBehind id g d (t ∷ ts) (b, a) = (
  λ s found. elim (Option-cases (Map.get t.id d.rows)) [
    | inl p ↦ absurd (ground (arith, p, get-update id t.id (acknowledged g) d.rows))
    | inr (u, p) ↦ ground (arith, p, b u p, get-update id t.id (acknowledged g) d.rows)
  ],
  acknowledge-IsBehind id g d ts a,
)

Step-IsOrderly : {h k : Held} → Step h k → IsOrderly h → IsOrderly k
Step-IsOrderly (read h id s found same) o = record {
  acknowledged = o.acknowledged;
  behind = (λ t p. ground (arith, p, found, same), o.behind);
}
Step-IsOrderly (other h c na new) o = record {
  acknowledged = call-acknowledged c h.db na o.acknowledged;
  behind = call-IsBehind c h.db h.snapshots na new o.behind;
}
Step-IsOrderly (done h i t found) o = record {
  acknowledged = λ id s p.
      unfold acknowledge_restart in
      elim (Option-cases (Map.get id h.db.rows)) [
        | inl q ↦ absurd (
            ground (
              arith,
              p,
              q,
              get-update t.id id (acknowledged t.restart_command_generation) h.db.rows,
            ))
        | inr (u, q) ↦
            let b = All-get_elem? (IsBehind h.db.rows) h.snapshots i t o.behind found in
            ground (
              arith,
              p,
              q,
              b u,
              o.acknowledged id u q,
              get-update t.id id (acknowledged t.restart_command_generation) h.db.rows,
            )
      ];
  behind = acknowledge-IsBehind t.id t.restart_command_generation h.db h.snapshots o.behind;
}

-- However reads, calls and acknowledgments interleave, as long as the next free key is not that of a row
-- that the reconciler has read: from an orderly state on, no row has more restart commands acknowledged
-- than were given, and no row that was read is ahead of the row that has its key.
pub Reach-IsOrderly : {h k : Held} → IsOrderly h → Reach h k → IsOrderly k
Reach-IsOrderly o here = o
Reach-IsOrderly o (next r s) = Step-IsOrderly s (Reach-IsOrderly o r)
