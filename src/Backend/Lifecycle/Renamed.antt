-- ===== src/Backend/Lifecycle/Renamed.antt =====
-- RenameRepository of pkg/backend/repo.go: the rows that it leaves.
use soft_serve.Base.{
  ◌≡◌, sym, ap, ◌∙◌, false, not, ◌&&◌, some, Text, text_eq, text_eq_iff, text_eq_refl, find, any,
  arith, Bool-cases, Option-cases, inl, inr,
}
use soft_serve.Env.{Env}
use soft_serve.Names.{sanitize_repo, validate_repo}
use soft_serve.Store.Schema.{Repo, Db}
use soft_serve.Store.Exec
use soft_serve.Store.Exec.{Error, Result, ok, err, checked, valid}
use soft_serve.Store.Exec.Bind.{on_error_ok}
use soft_serve.Store.Found.{find-any, find-rename, any-rename, find-update_other}
use soft_serve.Store.Repos.{titled, update_repo_name, set_repo_name_by_name}
use soft_serve.System.{World, Sys, ◌>>=◌, ◌>>◌, on_db, on_disk, reads_disk, raise, pure}
use soft_serve.System.Disk.{Io, exists, parent, os_mkdir_all, os_rename}
use soft_serve.System.Cache.{Lru}
use soft_serve.System.Bind.{sys_bind_ok, transaction_ok, deferred_ok}
use soft_serve.Backend.Lifecycle.{
  Machine, path_of, repository, rename_transaction, rename_valid, rename_repository, succeed,
  on_rename,
}
use soft_serve.Backend.Lifecycle.Coherent.{IsSteady, titled_apart}
use soft_serve.Backend.Lifecycle.Cached.{succeed_same, looked_db}

-- the row of the old name has the new one, and the rows of all other names are as they were
pub record IsRenamed (old new : Text) (r : Repo) (before after : Db) : Type 0 where
  pub found : find (titled new) after.repos ≡ some (record r { name = new })
  pub old_gone : any (titled old) after.repos ≡ false
  pub others :
      (other : Text)
      → text_eq old other ≡ false
      → text_eq new other ≡ false
      → find (titled other) after.repos ≡ find (titled other) before.repos

titled_flip : (a b : Text) → text_eq a b ≡ false → text_eq b a ≡ false
titled_flip a b n = ground (arith, n, text_eq_iff a b, text_eq_iff b a)

new_rows :
    (old new : Text) (r : Repo) (db after : Db)
    → text_eq old new ≡ false
    → find (titled old) db.repos ≡ some r
    → update_repo_name old new db ≡ (ok tt, after)
    → IsRenamed old new r db after
unfolding update_repo_name checked
new_rows old new r db after differ row run =
    elim (Bool-cases
      (not (text_eq old new) && any (titled old) db.repos && any (titled new) db.repos)) [
        | inl stop ↦ absurd (ground (arith, rw stop at run))
        | inr go ↦
            let end = sym (ap (λ p. p.1.repos) (rw go at run)) in
            let there = find-any (titled old) db.repos r row in
            record {
              found = rw end (
                  find-rename (titled old) (titled new) (λ s. record s { name = new })
                    (λ s. text_eq_refl new) db.repos r (ground (arith, go, differ, there)) row);
              old_gone = rw end (
                  any-rename (titled old) (λ s. record s { name = new })
                    (λ s. titled_flip old new differ) db.repos);
              others = λ other n k. rw end (
                  find-update_other (titled other) (titled old) (λ x. titled_apart old other x n)
                    (λ s. record s { name = new }) (λ x t. k) db.repos);
            }
      ]

module _ {C : Type 0} (env : Env) (lru : Lru C) (m : Machine) where
  announced :
      (r : Repo) (w after : World C)
      → (succeed (m.new_event on_rename r) >> succeed (m.send_event on_rename r)) w ≡ (ok tt, after)
      → after ≡ w
  announced r w after run =
      let (_, w1, built, sent) = sys_bind_ok (succeed (m.new_event on_rename r)) _ tt w after run in
      succeed_same (m.send_event on_rename r) w1 after sent
      ∙ succeed_same (m.new_event on_rename r) w w1 built

  abbrev closing : Text → Sys C (Unit {0})
  closing new = repository env lru m new >>= λ r.
      succeed (m.new_event on_rename r) >> succeed (m.send_event on_rename r)

  closed : (new : Text) (w after : World C) → closing new w ≡ (ok tt, after) → after.db ≡ w.db
  closed new w after run =
      let (r, w1, looked, sent) = sys_bind_ok (repository env lru m new) _ tt w after run in
      let same : after.db ≡ w1.db = ap (λ v. v.db) (announced r w1 after sent) in
      same ∙ looked_db env lru m new (ok r) w w1 looked

  -- the end of RenameRepository changes neither the rows nor the result of its transaction
  finished :
      (old new : Text) (w after : World C)
      → rename_valid env lru m old new w ≡ (ok tt, after)
      → (middle : World C) × (rename_transaction env lru m old new w ≡ (ok tt, middle))
        × (after.db ≡ middle.db)
  unfolding rename_valid ◌>>=◌ reads_disk raise pure
  finished old new w after run = elim (Bool-cases (exists (path_of env m old) w.disk)) [
    | inr gone ↦ absurd (ground (arith, rw gone at run))
    | inl there ↦ elim (Bool-cases (exists (path_of env m new) w.disk)) [
      | inl taken ↦ absurd (ground (arith, rw (there, taken) at run))
      | inr free ↦
          let (_, middle, done, rest) =
            sys_bind_ok (rename_transaction env lru m old new) (λ _. closing new) tt w after
              (rw (there, free) at run) in
          (middle, done, closed new middle after rest)
    ]
  ]

  on_disk_db : (f : Io) (w after : World C) → on_disk f w ≡ (ok tt, after) → after.db ≡ w.db
  unfolding on_disk
  on_disk_db f w after run = sym (ap (λ p. p.1.db) run)

  abbrev moving : Text → Text → Sys C (Unit {0})
  moving old new = do
    on_db (set_repo_name_by_name env old new)
    on_disk (os_mkdir_all m.faults (parent (path_of env m new)))
    on_disk (os_rename m.faults (path_of env m old) (path_of env m new))

  moved_rows :
      (old new : Text) (w after : World C)
      → moving old new w ≡ (ok tt, after)
      → set_repo_name_by_name env old new w.db ≡ (ok tt, after.db)
  unfolding on_db
  moved_rows old new w after run =
      let (_, w1, renamed, run1) =
        sys_bind_ok (on_db (set_repo_name_by_name env old new)) _ tt w after run in
      let (_, w2, made, run2) =
        sys_bind_ok (on_disk (os_mkdir_all m.faults (parent (path_of env m new)))) _ tt w1 after
          run1 in
      let same1 = on_disk_db (os_mkdir_all m.faults (parent (path_of env m new))) w1 w2 made in
      let same2 =
        on_disk_db (os_rename m.faults (path_of env m old) (path_of env m new)) w2 after run2 in
      rw (same2, same1) (ap (λ p. (p.0, p.1.db)) renamed)

  unwrapped :
      (old new : Text) (db after : Db)
      → IsSteady env old
      → IsSteady env new
      → set_repo_name_by_name env (sanitize_repo env old) (sanitize_repo env new) db
        ≡ (ok tt, after)
      → update_repo_name (sanitize_repo env old) (sanitize_repo env new) db ≡ (ok tt, after)
  unfolding set_repo_name_by_name
  unwrapped old new db after steady steady' run =
      rw (steady, steady') at (on_error_ok Exec.wrap_error _ tt db after run)

  transaction_rows :
      (old new : Text) (w after : World C)
      → IsSteady env old
      → IsSteady env new
      → rename_transaction env lru m (sanitize_repo env old) (sanitize_repo env new) w
        ≡ (ok tt, after)
      → update_repo_name (sanitize_repo env old) (sanitize_repo env new) w.db ≡ (ok tt, after.db)
  unfolding rename_transaction
  transaction_rows old new w after steady steady' run =
      let (middle, inside, end) = deferred_ok _ _ tt w after (transaction_ok _ _ tt w after run) in
      let rows = moved_rows (sanitize_repo env old) (sanitize_repo env new) w middle inside in
      unwrapped old new w.db after.db steady steady' (rw end rows)

  -- After RenameRepository has returned nil for two names, the row that had the old name has the new
  -- one, with its other columns unchanged, no row has the old name, and the rows of all other names are
  -- as they were; for names that sanitizing twice leaves as sanitizing once does.
  pub rename_repository-IsRenamed :
      (old new : Text) (r : Repo) (w after : World C)
      → IsSteady env old
      → IsSteady env new
      → text_eq (sanitize_repo env old) (sanitize_repo env new) ≡ false
      → find (titled (sanitize_repo env old)) w.db.repos ≡ some r
      → rename_repository env lru m old new w ≡ (ok tt, after)
      → IsRenamed (sanitize_repo env old) (sanitize_repo env new) r w.db after.db
  unfolding rename_repository ◌>>=◌ on_db valid
  rename_repository-IsRenamed old new r w after steady steady' differ row run =
      elim (Option-cases (validate_repo env (sanitize_repo env old))) [
        | inr (e, bad) ↦ absurd (ground (arith, rw bad at run))
        | inl good ↦ elim (Option-cases (validate_repo env (sanitize_repo env new))) [
          | inr (e, bad) ↦ absurd (ground (arith, rw (good, bad) at run))
          | inl good' ↦
              let (middle, moved, same) =
                finished (sanitize_repo env old) (sanitize_repo env new) w after
                  (rw (good, good', differ) at run) in
              let rows = transaction_rows old new w middle steady steady' moved in
              rw same (
                new_rows (sanitize_repo env old) (sanitize_repo env new) r w.db middle.db differ row
                  rows)
        ]
      ]
