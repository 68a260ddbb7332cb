-- ===== src/Runtime/Stop/Ended.antt =====
-- runtime/stop.rs: a stop ends both processes, on a host that writes the calls down.
use warpdeck.Prelude.{
  ℕ, zero, suc, ◌≡◌, refl, inl, inr, Option, none, some, List, ◌∷◌, Option-cases, ap,
}
use warpdeck.Prelude.Int.{ℤ}
use warpdeck.Runtime.Instance.{InstanceId}
use warpdeck.Runtime.Host.{Host, Attempt-cases}
use warpdeck.Runtime.Host.Logged.{Command, logged, alive, drop_pid}
use warpdeck.Runtime.Stop.{await_exit, ensure_exit, stop, max_polls}

module _ (h : Host) (grace poll : ℕ) (id : InstanceId) where
  abbrev AfterWait : ℕ → List ℕ → Option (Option ℤ) × (h.World × List Command) → Type 0
  AfterWait svc ps (none, w) = alive w.1 ≡ ps
  AfterWait svc ps (some c, w) = alive w.1 ≡ drop_pid svc ps

  wait_none :
      (svc : ℕ) (ps : List ℕ) (r : Option (Option ℤ) × (h.World × List Command))
      → AfterWait svc ps r
      → r.0 ≡ none
      → alive r.1.1 ≡ ps
  wait_none svc ps (none, w) here p = here
  wait_none svc ps (some c, w) here p = cc

  wait_some :
      (svc : ℕ) (ps : List ℕ) (r : Option (Option ℤ) × (h.World × List Command)) (c : Option ℤ)
      → AfterWait svc ps r
      → r.0 ≡ some c
      → alive r.1.1 ≡ drop_pid svc ps
  wait_some svc ps (none, w) c here p = cc
  wait_some svc ps (some d, w) c here p = here

  await_exit-AfterWait :
      (n svc : ℕ) (ps : List ℕ) (w : h.World) (log : List Command)
      → alive log ≡ ps
      → AfterWait svc ps (await_exit (logged h) grace poll id n svc (w, log))
  unfolding await_exit alive
  await_exit-AfterWait zero svc ps w log here = here
  await_exit-AfterWait (suc n) svc ps w log here = elim (Option-cases (h.try_exited svc w).0) [
    | inr (c, p) ↦ rw (p, await_exit) (rw p (ap (drop_pid svc) here))
    | inl p ↦ rw (p, await_exit) (await_exit-AfterWait n svc ps _ _ (rw p here))
  ]

  alive-ensure_exit :
      (svc : ℕ) (w : h.World) (log : List Command)
      → alive (ensure_exit (logged h) grace poll id svc (w, log)).1.1 ≡ drop_pid svc (alive log)
  unfolding ensure_exit alive
  alive-ensure_exit svc w log =
      let n = max_polls grace poll in
      let r = await_exit (logged h) grace poll id n svc (w, log) in
      let waited = await_exit-AfterWait n svc (alive log) w log refl in
      elim (Option-cases r.0) [
        | inl p ↦ rw (p, ensure_exit) (ap (drop_pid svc) (wait_none svc (alive log) r waited p))
        | inr (c, p) ↦ rw (p, ensure_exit) (wait_some svc (alive log) r c waited p)
      ]

  -- Whatever the processes and the system answer, a stop leaves neither of the two processes alive and
  -- touches no other: afterwards those are alive that were alive before, without these two. This holds
  -- also where the runtime directory could not be removed.
  pub alive-stop :
      (svc dbus : ℕ) (w : h.World) (log : List Command)
      → alive (stop (logged h) grace poll id svc dbus (w, log)).1.1
        ≡ drop_pid dbus (drop_pid svc (alive log))
  unfolding stop alive
  alive-stop svc dbus w log =
      let w0 = h.terminate svc (h.disconnect id w) in
      let log0 = Command.terminate svc ∷ Command.disconnect ∷ log in
      let r = ensure_exit (logged h) grace poll id svc (w0, log0) in
      let ended = ap (drop_pid dbus) (alive-ensure_exit svc w0 log0) in
      elim (Attempt-cases (h.remove_runtime_dir id (h.shutdown_dbus dbus r.1.0)).0) [
        | inl (a, p) ↦ rw (p, stop) ended
        | inr (t, p) ↦ rw (p, stop) ended
      ]
