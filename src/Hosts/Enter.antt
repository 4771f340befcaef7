-- ===== src/Hosts/Enter.antt =====
-- `namespace` of LYDIAN/lydian/utils/nsenter.py: a block of code that runs in another namespace of Linux.
use Prim.Native.String.{◌++◌}
use distributed_apps_platfor.Base.{
  ◌≡◌, ◌∙◌, refl, ap, String, true, false, List, [], ◌∷◌, contains, Result, ok, err, Error,
  value_error, if◌then◌else◌, string_eq, Result-cases, inl, inr,
}
use distributed_apps_platfor.Base.Exec.{
  Exec, raise, try_finally, modify, bind-ok, bind-err, ◌>>=◌, ◌>>◌,
}

-- `VALID_NAMESPACES`
abbrev pub valid_namespaces : List String
valid_namespaces = "ipc" ∷ "mnt" ∷ "net" ∷ "pid" ∷ "user" ∷ "uts" ∷ []

-- The system calls on a state `S`, with descriptors `Fd` of the namespaces `N` of one kind: a descriptor of the process's own
-- file holds the namespace that the process is in, `setns` on it goes there, and a `setns` that raises stays.
pub record Linux (S Fd N : Type 0) : Type 0 where
  pub kind : String
  pub open_fd : String → Exec S Fd
  pub close_fd : Fd → S → S
  pub setns : Fd → Exec S (Unit {0})
  pub ns : S → N
  pub held : Fd → N
  pub open-ns : (path : String) (s : S) → ns (open_fd path s).1 ≡ ns s
  pub close-ns : (fd : Fd) (s : S) → ns (close_fd fd s) ≡ ns s
  pub own : (s : S) (fd : Fd) → (open_fd ("/proc/self/ns/" ++ kind) s).0 ≡ ok fd → held fd ≡ ns s
  pub back :
      (s t : S) (fd : Fd)
      → (open_fd ("/proc/self/ns/" ++ kind) s).0 ≡ ok fd
      → (setns fd t).0 ≡ ok tt
      → ns (setns fd t).1 ≡ held fd
  pub stays : (fd : Fd) (s : S) (e : Error) → (setns fd s).0 ≡ err e → ns (setns fd s).1 ≡ ns s

module _ {S Fd N : Type 0} (os : Linux S Fd N) where
  -- `with fdopen(path) as fd: body`
  unfoldable pub fdopen {ℓ} : {A : Type ℓ} → String → (Fd → Exec S A) → Exec S A
  fdopen path body = do fd ← os.open_fd path; try_finally (body fd) (modify (os.close_fd fd))

  -- `with namespace(nspath, nstype): body`
  unfoldable pub namespace {ℓ} : {A : Type ℓ} → String → String → Exec S A → Exec S A
  unfolding fdopen
  namespace nspath nstype body =
      if contains nstype valid_namespaces
      then fdopen ("/proc/self/ns/" ++ nstype)
          (λ original_ns. fdopen nspath os.setns >> try_finally body (os.setns original_ns))
      else raise value_error

  fdopen-ok :
      {A : Type 0} (path : String) (body : Fd → Exec S A) (s : S) (fd : Fd)
      → (os.open_fd path s).0 ≡ ok fd
      → let (r, s') = body fd (os.open_fd path s).1 in fdopen path body s ≡ (r, os.close_fd fd s')
  unfolding fdopen
  fdopen-ok path body s fd h =
      bind-ok (os.open_fd path) (λ fd'. try_finally (body fd') (modify (os.close_fd fd'))) s fd h

  fdopen-err :
      {A : Type 0} (path : String) (body : Fd → Exec S A) (s : S) (e : Error)
      → (os.open_fd path s).0 ≡ err e
      → fdopen path body s ≡ (err e, (os.open_fd path s).1)
  unfolding fdopen
  fdopen-err path body s e h =
      bind-err (os.open_fd path) (λ fd'. try_finally (body fd') (modify (os.close_fd fd'))) s e h

  -- where the entry raises, the process stays
  entry-stays :
      (nspath : String) (s : S) (e : Error)
      → (fdopen nspath os.setns s).0 ≡ err e
      → os.ns (fdopen nspath os.setns s).1 ≡ os.ns s
  entry-stays nspath s e h = elim (Result-cases (os.open_fd nspath s).0) [
    | inr (x, q) ↦ rw (fdopen-err nspath os.setns s x q) (os.open-ns nspath s)
    | inl (fd, q) ↦
        let opened = fdopen-ok nspath os.setns s fd q in
        rw opened (os.close-ns fd _ ∙ os.stays fd _ e (rw opened at h) ∙ os.open-ns nspath s)
  ]

  finally-state :
      {A : Type 0} (body : Exec S A) (cleanup : Exec S (Unit {0})) (s : S)
      → (try_finally body cleanup s).1 ≡ (cleanup (body s).1).1
  finally-state body cleanup s = either (cleanup (body s).1).0 (body s).0 (cleanup (body s).1).1
    where
      either :
          {B : Type 0} (c : Result (Unit {0})) (r : Result B) (t : S)
          → (elim c as (λ _. Result B × S) [ err e ↦ (err e, t) | ok _ ↦ (r, t) ]).1 ≡ t
      either (ok x) r t = refl
      either (err e) r t = refl

  -- what runs while the descriptor of the process's own namespace is open
  abbrev within {ℓ} : {A : Type ℓ} → String → Exec S A → Fd → Exec S A
  within nspath body original_ns = fdopen nspath os.setns >> try_finally body (os.setns original_ns)

  abbrev own_file : String
  own_file = "/proc/self/ns/" ++ os.kind

  within-ns :
      {A : Type 0} (nspath : String) (body : Exec S A) (s t : S) (fd : Fd)
      → (os.open_fd own_file s).0 ≡ ok fd
      → ((u : S) → (os.setns fd u).0 ≡ ok tt)
      → os.ns t ≡ os.ns s
      → os.ns (within nspath body fd t).1 ≡ os.ns s
  within-ns nspath body s t fd q may h =
      let enter : Exec S (Unit {0}) = fdopen nspath os.setns in
      elim (Result-cases (enter t).0) [
        | inr (e, x) ↦
            ap (λ p. os.ns p.1) (bind-err enter (λ _. try_finally body (os.setns fd)) t e x)
            ∙ entry-stays nspath t e x
            ∙ h
        | inl (u, x) ↦
            ap (λ p. os.ns p.1) (bind-ok enter (λ _. try_finally body (os.setns fd)) t u x)
            ∙ ap os.ns (finally-state body (os.setns fd) (enter t).1)
            ∙ os.back s (body (enter t).1).1 fd q (may (body (enter t).1).1)
            ∙ os.own s fd q
      ]

  inside :
      {A : Type 0} (nspath : String) (body : Exec S A) (s : S)
      → ((fd : Fd) (t : S) → (os.open_fd own_file s).0 ≡ ok fd → (os.setns fd t).0 ≡ ok tt)
      → os.ns (fdopen own_file (within nspath body) s).1 ≡ os.ns s
  inside nspath body s may = elim (Result-cases (os.open_fd own_file s).0) [
    | inr (x, q) ↦ rw (fdopen-err own_file (within nspath body) s x q) (os.open-ns own_file s)
    | inl (fd, q) ↦ rw (fdopen-ok own_file (within nspath body) s fd q) (
        os.close-ns fd _
        ∙ within-ns nspath body s (os.open_fd own_file s).1 fd q (λ u. may fd u q)
            (os.open-ns own_file s))
  ]

  -- Whatever the block does, also when it raises or when the namespace cannot be opened or entered, the process is
  -- afterwards in the namespace that it was in, provided that it may go back there. A kind of namespace that there is not raises
  -- before anything is done.
  pub namespace-ns :
      {A : Type 0} (nspath nstype : String) (body : Exec S A) (s : S)
      → ((fd : Fd) (t : S)
          → (os.open_fd ("/proc/self/ns/" ++ os.kind) s).0 ≡ ok fd
          → (os.setns fd t).0 ≡ ok tt)
      → contains os.kind valid_namespaces ≡ true
      → contains nstype valid_namespaces ≡ false
      → (os.ns (namespace nspath os.kind body s).1 ≡ os.ns s)
        × (namespace nspath nstype body s ≡ (err value_error, s))
  unfolding namespace
  namespace-ns nspath nstype body s may k h = (rw k (inside nspath body s may), rw h refl)
